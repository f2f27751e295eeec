-- ===== src/Mm/Mem.antt =====
-- Physical memory as 64-bit words, and the state that kernel/mm/kalloc.c keeps in it; the page
-- arithmetic of kernel/riscv/riscv.h.
use base_exp.Base.{
  ℕ, ◌+◌, ◌-◌, ◌*◌, ◌/◌, ◌%◌, ◌^◌, Bool, ◌&&◌, ◌==◌, leb, ltb, if◌then◌else◌, Cmd, done,
}

abbrev pub pgsize : ℕ
pgsize = 4096

-- PGROUNDUP and PGROUNDDOWN; the sum of the first wraps at 64 bits.
abbrev pub pg_round_up : ℕ → ℕ
pg_round_up sz = (sz + pgsize - 1) % 2 ^ 64 / pgsize * pgsize

abbrev pub pg_round_down : ℕ → ℕ
pg_round_down a = a / pgsize * pgsize

-- `word a` is the 64-bit word at the address `a`, a multiple of 8. `kernel_end` is the linker's
-- symbol `end`; `phys_top` and `freelist` are the allocator's two variables.
pub record Machine : Type 0 where
  pub word : ℕ → ℕ
  pub freelist : ℕ
  pub kernel_end : ℕ
  pub phys_top : ℕ

abbrev pub in_page : ℕ → ℕ → Bool
in_page pa a = leb pa a && ltb a (pa + pgsize)

-- The memory after one word is written.
unfoldable pub write : (ℕ → ℕ) → ℕ → ℕ → ℕ → ℕ
write word a v b = if b == a then v else word b

-- `memset(pa, c, PGSIZE)`: every word of the page holds eight copies of the byte.
unfoldable pub fill_page : (ℕ → ℕ) → ℕ → ℕ → ℕ → ℕ
fill_page word pa c b = if in_page pa b then c * 0x0101_0101_0101_0101 else word b

-- `memmove(dst, src, PGSIZE)` of two pages.
unfoldable pub copy_page : (ℕ → ℕ) → ℕ → ℕ → ℕ → ℕ
copy_page word dst src b = if in_page dst b then word (src + (b - dst)) else word b

abbrev pub Mm : Type 0 → Type 0
Mm A = Cmd Machine A

unfoldable pub load : ℕ → Mm ℕ
load a m = done (m.word a) m

unfoldable pub store : ℕ → ℕ → Mm (Unit {0})
store a v m = done tt (record m { word = write m.word a v })

unfoldable pub clear_page : ℕ → ℕ → Mm (Unit {0})
clear_page pa c m = done tt (record m { word = fill_page m.word pa c })
