-- ===== src/Mm/Vm/Mappages.antt =====
-- `mappages` and its loop, by the steps of `Mapped`.
use base_exp.Base.{
  ℕ, zero, suc, ◌+◌, ◌-◌, ◌*◌, ◌/◌, ◌%◌, ◌^◌, ◌<◌, ◌≤◌, ◌≡◌, ◌≢◌, refl, ◌∙◌, Bool, true, false,
  ◌==◌, List, arith, if◌then◌else◌, Bool-cases, inl, inr, pure, starved, Returns, Returns-bind,
  Returns-mono,
}
use base_exp.Mm.Mem.{Machine, Mm, pgsize, write, load, store}
use base_exp.Mm.Pte.{pte_v, has_flag, make_pte, maxva}
use base_exp.Mm.Vm.{walk, map_at, map_loop, mappages}
use base_exp.Mm.Vm.Table.{Role, table, find}
use base_exp.Mm.Vm.Paged.{Paged}
use base_exp.Mm.Vm.Walk.{Walked, walk-Walked}
use base_exp.Mm.Vm.Mapped.{
  Mapped, Unmapped, word_found, Mapped-none, mapped_one, mapped_one-Paged, mapped_one_map,
  Mapped-one, Mapped-more,
}
use base_exp.Mm.Vm.Leaf.{pte_of}

-- At an invalid entry the body writes the new one.
map_at-store :
    (rest : Mm Bool) (at_last : Bool) (s pa perm : ℕ) (m : Machine)
    → s ≢ 0
    → has_flag (m.word s) pte_v ≡ false
    → map_at rest at_last s pa perm m
      ≡ (if at_last then pure true else rest)
          (record m { word = write m.word s (make_pte pa perm) })
unfolding map_at load store
map_at-store rest at_last s pa perm m ne off =
    let nz : (s == 0) ≡ false = ground arith in rw (nz, off)

-- The body of the loop behind its walk.
module _ {root a : ℕ} (pa perm : ℕ) {role : ℕ → Role} {m m₁ : Machine} {ps : List ℕ} where
  map_at-Mapped :
      (rest : Mm Bool) (at_last : Bool) (n s : ℕ) (w : Walked root role m ps 2 root a s m₁)
      (top : role root ≡ table 2 0) (small : a < maxva) (al : a % pgsize ≡ 0)
      → has_flag (pte_of m root a) pte_v ≡ false
      → (at_last ≡ true → n ≡ 0)
      → (at_last ≡ false
          → (found : find m₁.word 2 root a ≢ 0)
          → Returns
              (Mapped root w.new_role
                (mapped_one pa perm w top small al found)
                w.left
                (a + pgsize)
                (pa + pgsize)
                perm
                n)
              (rest (mapped_one pa perm w top small al found)))
      → Returns (Mapped root role m ps a pa perm (suc n)) (map_at rest at_last s pa perm m₁)
  map_at-Mapped rest at_last n s w top small al free last more = elim (Bool-cases (s == 0)) [
    | inl none_found ↦ unfold map_at in rw none_found (Mapped-none w top (ground arith))
    | inr ne ↦
        let at = w.at_entry (ground arith) in
        let found : find m₁.word 2 root a ≢ 0 = ground arith in
        let now = word_found w.paged a small found ∙ w.grown.entries 2 root a 0 top in
        rw (at, map_at-store rest at_last (find m₁.word 2 root a) pa perm m₁ found (rw now free))
          (elim (Bool-cases at_last) [
            | inl t ↦ rw (t, last t) (Mapped-one pa perm w top small al found)
            | inr t ↦
                rw t (
                  Returns-mono _ _ _ (more t found)
                    λ b m'. Mapped-more pa perm w top small al found)
          ])
  ]

-- The loop of `mappages` over `n + 1` pages.
module _ {root : ℕ} (perm : ℕ) where
  map_loop-Mapped :
      (n a last pa : ℕ) {role : ℕ → Role} {m : Machine} {ps : List ℕ}
      → Paged root role m ps
      → a % pgsize ≡ 0
      → last ≡ a + n * pgsize
      → a + suc n * pgsize ≤ maxva
      → pa + suc n * pgsize ≤ 2 ^ 56
      → Unmapped m root a (suc n)
      → Returns (Mapped root role m ps a pa perm (suc n)) (map_loop (suc n) root a last pa perm m)
  unfolding map_loop
  map_loop-Mapped zero a last pa {role} {m} {ps} inv al end fits pfits free =
      Returns-bind (Walked root role m ps 2 root a) (Mapped root role m ps a pa perm 1)
        (walk root a true m) (λ slot. map_at starved (a == last) slot pa perm)
        (walk-Walked inv a (omega arith))
        λ s m₁ w.
          map_at-Mapped pa perm _ (a == last) 0 s w inv.tables.top (omega arith) al
            (free a (omega arith) (omega arith)) (λ t. refl) λ t found. absurd (ground arith)
  map_loop-Mapped (suc n) a last pa {role} {m} {ps} inv al end fits pfits free =
      Returns-bind (Walked root role m ps 2 root a) (Mapped root role m ps a pa perm (suc (suc n)))
        (walk root a true m)
        (λ slot.
          map_at (map_loop (suc n) root ((a + pgsize) % 2 ^ 64) last ((pa + pgsize) % 2 ^ 64) perm)
            (a == last) slot pa perm)
        (walk-Walked inv a (omega arith))
        λ s m₁ w.
          map_at-Mapped pa perm _ (a == last) (suc n) s w inv.tables.top (omega arith) al
            (free a (omega arith) (omega arith)) (λ t. ground arith)
            λ t found.
              rw (wrap_a, wrap_pa)
                (map_loop-Mapped n (a + pgsize) last (pa + pgsize)
                  (mapped_one-Paged pa perm w inv.tables.top (omega arith) al found) (omega arith)
                  (omega arith) (omega arith) (omega arith)
                  λ vb lo hi. later vb lo hi (
                    mapped_one_map pa perm w inv.tables.top (omega arith) al found vb
                      (omega arith)))
    where
      wrap_a : (a + pgsize) % 2 ^ 64 ≡ a + pgsize
      wrap_a = omega arith

      wrap_pa : (pa + pgsize) % 2 ^ 64 ≡ pa + pgsize
      wrap_pa = omega arith

      later :
          (vb : ℕ) {x : ℕ}
          → a + pgsize ≤ vb
          → vb < a + pgsize + suc n * pgsize
          → x ≡ (if vb / pgsize == a / pgsize then make_pte pa perm else pte_of m root vb)
          → has_flag x pte_v ≡ false
      later vb lo hi e =
          let off : (vb / pgsize == a / pgsize) ≡ false = ground arith in
          rw (e, off) (free vb (omega arith) (omega arith))

-- `mappages` of `n` pages that are not mapped, with arguments that its tests accept, returns: with 0
-- and exactly these pages mapped to the pages from `pa` on, or with -1, the free list used up and a
-- part of them mapped. Every other translation is as before, and so is the memory outside the
-- page tables and the free list.
pub mappages-Mapped :
    {root : ℕ} {role : ℕ → Role} {m : Machine} {ps : List ℕ} (va n pa perm : ℕ)
    → Paged root role m ps
    → va % pgsize ≡ 0
    → 0 < n
    → va + n * pgsize ≤ maxva
    → pa + n * pgsize ≤ 2 ^ 56
    → Unmapped m root va n
    → Returns (Mapped root role m ps va pa perm n) (mappages root va (n * pgsize) pa perm m)
unfolding mappages
mappages-Mapped va zero pa perm inv al pos fits pfits free = absurd (omega arith)
mappages-Mapped {root} {m} va (suc n) pa perm inv al pos fits pfits free =
    let t : (va % pgsize == 0) ≡ true = ground arith in
    let u : (suc n * pgsize % pgsize == 0) ≡ true = ground arith in
    let v : (suc n * pgsize == 0) ≡ false = ground arith in
    let rounds : suc n * pgsize / pgsize ≡ suc n = omega arith in
    rw (t, u, v, rounds)
      (map_loop-Mapped perm n va ((va + suc n * pgsize - pgsize) % 2 ^ 64) pa inv al (omega arith)
        fits pfits free)
