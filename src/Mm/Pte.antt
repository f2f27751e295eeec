-- ===== src/Mm/Pte.antt =====
-- Page-table entries and indices: the macros of kernel/riscv/riscv.h. A test `x & (1L << k)` reads
-- the digit `x / 2 ^ k % 2`, and a mask of k ones is `% 2 ^ k`.
use base_exp.Base.{
  ℕ, suc, ◌+◌, ◌*◌, ◌/◌, ◌%◌, ◌^◌, ◌<◌, ◌≡◌, ◌∙◌, ap, sym, Bool, not, ◌==◌, bit_or, arith,
}
use base_exp.Base.Bits.{bit_or_low, bit_or-one}
use base_exp.Mm.Mem.{pgsize}
use native.Mathlib.Nat.{div-div-eq-div-mul, pow-suc}

-- the flags, by the value of their bit
abbrev pub pte_v : ℕ
pte_v = 1

abbrev pub pte_r : ℕ
pte_r = 2

abbrev pub pte_w : ℕ
pte_w = 4

abbrev pub pte_x : ℕ
pte_x = 8

abbrev pub pte_u : ℕ
pte_u = 16

abbrev pub has_flag : ℕ → ℕ → Bool
has_flag pte flag = not (pte / flag % 2 == 0)

abbrev pub pa2pte : ℕ → ℕ
pa2pte pa = pa / 4096 * 1024

-- The shift to the left by 12 drops what passes 64 bits.
abbrev pub pte2pa : ℕ → ℕ
pte2pa pte = pte / 1024 * 4096 % 2 ^ 64

abbrev pub pte_flags : ℕ → ℕ
pte_flags pte = pte % 1024

abbrev pub maxva : ℕ
maxva = 2 ^ 38

-- PX(level, va) is the low 9 bits of the address above the level's shift.
unfoldable pub above : ℕ → ℕ → ℕ
above level va = va / 2 ^ (12 + 9 * level)

unfoldable pub px : ℕ → ℕ → ℕ
unfolding above
px level va = above level va % 512

-- PA2PTE(pa) | perm | PTE_V
unfoldable pub make_pte : ℕ → ℕ → ℕ
make_pte pa perm = bit_or (bit_or (pa2pte pa) perm) pte_v

pub px-lt : (l va : ℕ) → px l va < 512
unfolding px
px-lt l va = omega arith

shift_suc : (l : ℕ) → 2 ^ (12 + 9 * suc l) ≡ 2 ^ (12 + 9 * l) * 512
shift_suc l =
    let k = 12 + 9 * l in
    let e : 12 + 9 * suc l ≡ suc (suc (suc (suc (suc (suc (suc (suc (suc k)))))))) = omega arith in
    rw e (simp pow-suc (omega arith))

-- Each level's index continues the prefix of the level above.
pub above-px : (l va : ℕ) → above l va ≡ above (suc l) va * 512 + px l va
unfolding px
above-px l va =
    let e : va / 2 ^ (12 + 9 * suc l) ≡ va / 2 ^ (12 + 9 * l) / 512 =
      ap (λ k. va / k) (shift_suc l) ∙ sym (div-div-eq-div-mul va (2 ^ (12 + 9 * l)) 512) in
    omega (arith, e)

-- An entry keeps the flags that it is made with, and is valid.
pub make_pte_parts :
    (pa perm : ℕ) → perm < 1024 → make_pte pa perm ≡ pa / 4096 * 1024 + perm / 2 * 2 + 1
unfolding make_pte
make_pte_parts pa perm h =
    rw (bit_or_low 10 (pa / 4096) perm h) (bit_or-one (pa / 4096 * 1024 + perm) ∙ omega arith)

-- An entry for a page gives the page back.
pub pte2pa-make_pte :
    (pa perm : ℕ) → pa % pgsize ≡ 0 → pa < 2 ^ 56 → perm < 1024 → pte2pa (make_pte pa perm) ≡ pa
pte2pa-make_pte pa perm al small h = omega (arith, make_pte_parts pa perm h)
