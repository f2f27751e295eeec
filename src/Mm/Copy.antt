-- ===== src/Mm/Copy.antt =====
-- `copyout`, `copyin` and `copyinstr` (kernel/mm/vm.c). A buffer of the kernel is the list of its
-- bytes; the functions that fill one return what they have put there. The memory's words hold their
-- bytes from the lowest digit on.
use base_exp.Base.{
  ℕ, zero, suc, ◌+◌, ◌-◌, ◌*◌, ◌/◌, ◌%◌, ◌^◌, Bool, true, false, not, ◌==◌, leb, ltb, if◌then◌else◌,
  Option, none, some, List, [], ◌∷◌, ◌++◌, take, drop, length, done, pure, starved, ◌>>=◌, ◌>>◌,
}
use base_exp.Mm.Mem.{Mm, pgsize, pg_round_down, load, write}
use base_exp.Mm.Pte.{pte_w, has_flag, maxva}
use base_exp.Mm.Vm.{walk, walkaddr}

abbrev pub byte_of : (ℕ → ℕ) → ℕ → ℕ
byte_of word a = word (a - a % 8) / 2 ^ (8 * (a % 8)) % 256

-- The word with the byte at place `k` replaced.
abbrev pub with_byte : (w k c : ℕ) → ℕ
with_byte w k c = w - w / 2 ^ (8 * k) % 256 * 2 ^ (8 * k) + c * 2 ^ (8 * k)

unfoldable pub put_bytes : (ℕ → ℕ) → ℕ → List ℕ → ℕ → ℕ
put_bytes word a [] = word
put_bytes word a (c ∷ cs) =
    put_bytes (write word (a - a % 8) (with_byte (word (a - a % 8)) (a % 8) c)) (a + 1) cs

unfoldable pub get_bytes : (ℕ → ℕ) → (a n : ℕ) → List ℕ
get_bytes word a zero = []
get_bytes word a (suc n) = byte_of word a ∷ get_bytes word (a + 1) n

-- `memmove((void*)pa, src, n)`.
unfoldable pub write_bytes : ℕ → List ℕ → Mm (Unit {0})
unfolding put_bytes
write_bytes pa src m = done tt (record m { word = put_bytes m.word pa src })

-- `memmove(dst, (void*)pa, n)`.
unfoldable pub read_bytes : (pa n : ℕ) → Mm (List ℕ)
unfolding get_bytes
read_bytes pa n m = done (get_bytes m.word pa n) m

-- The loop of `copyout`, with a round for each page; `true` is 0.
unfoldable pub copyout_loop : ℕ → (pagetable dstva : ℕ) → List ℕ → Mm Bool
copyout_loop zero pagetable dstva src = starved
copyout_loop (suc fuel) pagetable dstva [] = pure true
copyout_loop (suc fuel) pagetable dstva (c ∷ cs) =
    let va0 = pg_round_down dstva in
    let n = pgsize - (dstva - va0) in
    let rest = copyout_loop fuel pagetable (va0 + pgsize) (drop n (c ∷ cs)) in
    if leb maxva va0 then pure false else do
      pa0 ← walkaddr pagetable va0
      if pa0 == 0 then pure false else do
        slot ← walk pagetable va0 false
        pte ← load slot
        if not (has_flag pte pte_w)
            then pure false
            else do write_bytes (pa0 + (dstva - va0)) (take n (c ∷ cs)); rest

unfoldable pub copyout : (pagetable dstva : ℕ) → List ℕ → Mm Bool
unfolding copyout_loop write_bytes
copyout pagetable dstva src = copyout_loop (length src + 1) pagetable dstva src

-- The loop of `copyin`; `none` is -1.
unfoldable pub copyin_loop : ℕ → (pagetable srcva len : ℕ) → Mm (Option (List ℕ))
copyin_loop zero pagetable srcva len = starved
copyin_loop (suc fuel) pagetable srcva len =
    let va0 = pg_round_down srcva in
    let room = pgsize - (srcva - va0) in
    let n = if ltb len room then len else room in
    let rest = copyin_loop fuel pagetable (va0 + pgsize) (len - n) in
    if len == 0 then pure (some []) else do
      pa0 ← walkaddr pagetable va0
      if pa0 == 0 then pure none else do
        bytes ← read_bytes (pa0 + (srcva - va0)) n
        others ← rest
        elim others [ none ↦ pure none | some more ↦ pure (some (bytes ++ more)) ]

unfoldable pub copyin : (pagetable srcva len : ℕ) → Mm (Option (List ℕ))
unfolding copyin_loop read_bytes
copyin pagetable srcva len = copyin_loop (len + 1) pagetable srcva len

-- The bytes before the first NUL, if there is one.
unfoldable pub until_null : List ℕ → Option (List ℕ)
until_null [] = none
until_null (c ∷ cs) =
    let rest = until_null cs in
    if c == 0 then some [] else elim rest [ none ↦ none | some s ↦ some (c ∷ s) ]

-- The loop of `copyinstr`: the string before its NUL; `none` is -1.
unfoldable pub copyinstr_loop : ℕ → (pagetable srcva max : ℕ) → Mm (Option (List ℕ))
copyinstr_loop zero pagetable srcva max = starved
copyinstr_loop (suc fuel) pagetable srcva max =
    let va0 = pg_round_down srcva in
    let room = pgsize - (srcva - va0) in
    let n = if ltb max room then max else room in
    let rest = copyinstr_loop fuel pagetable (va0 + pgsize) (max - n) in
    if max == 0 then pure none else do
      pa0 ← walkaddr pagetable va0
      if pa0 == 0 then pure none else do
        bytes ← read_bytes (pa0 + (srcva - va0)) n
        elim (until_null bytes) [
          | some s ↦ pure (some s)
          | none ↦ do
            others ← rest
            elim others [ none ↦ pure none | some more ↦ pure (some (bytes ++ more)) ]
        ]

unfoldable pub copyinstr : (pagetable srcva max : ℕ) → Mm (Option (List ℕ))
unfolding copyinstr_loop until_null
copyinstr pagetable srcva max = copyinstr_loop (max + 1) pagetable srcva max
