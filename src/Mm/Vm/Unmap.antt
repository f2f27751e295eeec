-- ===== src/Mm/Vm/Unmap.antt =====
-- `uvmunmap` that frees, and `uvmdealloc`: which entries they clear, and which pages they give back.
use base_exp.Base.{
  ℕ, zero, suc, ◌+◌, ◌-◌, ◌*◌, ◌/◌, ◌%◌, ◌^◌, ◌<◌, ◌≤◌, ◌≡◌, ◌≢◌, refl, sym, ◌∙◌, true, false, ◌==◌,
  leb, ltb, List, ◌∷◌, arith, if◌then◌else◌, Bool-cases, inl, inr, has, Returns, Returns-mono,
  Returns-bind, pure,
}
use mathlib.Core.Path.{subst}
use base_exp.Mm.Mem.{Machine, pgsize, pg_round_up}
use base_exp.Mm.Pte.{pte_v, has_flag, pte2pa, maxva}
use base_exp.Mm.Vm.{unmap_loop, uvmunmap, uvmdealloc}
use base_exp.Mm.Vm.Table.{Role}
use base_exp.Mm.Vm.Paged.{Paged}
use base_exp.Mm.Vm.Unmapping.{
  InRange, IsMapped, Owned, Owned-skip, released-congr, without_range_step, without_range_skip,
  unmap_page-skip, unmap_page-free, unmapped_one-Paged, unmapped_one_map, Unmapping,
}
use base_exp.Mm.Vm.Leaf.{pte_of, entry_congr}

module _ {root : ℕ} {role : ℕ → Role} where
  -- The first page is mapped: the rest runs in the machine after it.
  Owned-more :
      {m m₂ : Machine} {ps : List ℕ} {a n : ℕ}
      → a % pgsize ≡ 0
      → a + suc n * pgsize ≤ maxva
      → (on : IsMapped m root a) → (m₂.kernel_end ≡ m.kernel_end) × (m₂.phys_top ≡ m.phys_top)
      → ((vb : ℕ) → InRange (a + pgsize) n vb → pte_of m₂ root vb ≡ pte_of m root vb)
      → Owned root role m ps a (suc n)
      → Owned root role m₂ (pte2pa (pte_of m root a) ∷ ps) (a + pgsize) n
  Owned-more {m} {ps} {a} al fits on fixed same o = record {
    takes = λ vb r i.
        let e = same vb r in
        let t = o.takes vb (omega arith) (rw e at i) in rw (e, fixed.0, fixed.1) t;
    outside = λ vb r i. let e = same vb r in rw e (o.outside vb (omega arith) (rw e at i));
    used = λ vb r i.
        let e = same vb r in
        let old = o.used vb (omega arith) (rw e at i) in
        let ne : pte2pa (pte_of m root vb) ≢ pte2pa (pte_of m root a) = λ eq.
          let z = o.once vb a (omega arith) (omega arith) (rw e at i) on eq in
          absurd (omega arith) in
        subst (λ z. has (pte2pa z) (pte2pa (pte_of m root a) ∷ ps) ≡ false) (sym e) (ground arith);
    once = λ va vb r r' i i' eq.
        let e = same va r in
        let e' = same vb r' in
        o.once va vb (omega arith) (omega arith) (rw e at i) (rw e' at i') (rw (e, e') at eq);
  }

  Unmapping-skip :
      {m m' : Machine} {ps : List ℕ} {a n : ℕ}
      → Paged root role m ps
      → a % pgsize ≡ 0
      → has_flag (pte_of m root a) pte_v ≡ false
      → Unmapping root role m ps (a + pgsize) n m'
      → Unmapping root role m ps a (suc n) m'
  Unmapping-skip {m} {a} {n} inv al off r = record {
    paged = rw off r.paged;
    map = λ vb sb.
        r.map vb sb
        ∙ without_range_skip (pte_of m root) a n vb al
            λ e. let f = entry_congr m.word 2 root vb a e in rw f off;
  }

  Unmapping-more :
      {m m₂ m' : Machine} {ps : List ℕ} {a n : ℕ}
      → Paged root role m ps
      → a % pgsize ≡ 0
      → a + suc n * pgsize ≤ maxva
      → (on : IsMapped m root a)
      → ((vb : ℕ)
          → vb < maxva
          → pte_of m₂ root vb ≡ (if vb / pgsize == a / pgsize then 0 else pte_of m root vb))
      → Unmapping root role m₂ (pte2pa (pte_of m root a) ∷ ps) (a + pgsize) n m'
      → Unmapping root role m ps a (suc n) m'
  Unmapping-more {m} {m₂} {m'} {ps} {a} {n} inv al fits on same r = record {
    paged = rw on (
        subst (Paged root role m')
          (released-congr (pte_of m₂ root) (pte_of m root) (a + pgsize) n _
            λ vb k. let e = same vb (omega arith) in ground arith)
          r.paged);
    map = λ vb sb.
        r.map vb sb
        ∙ without_range_step (pte_of m₂ root) (pte_of m root) a n vb al (same vb sb)
            λ e. let f = entry_congr m.word 2 root vb a e in rw f on;
  }

  unmap_loop-Unmapping :
      (fuel n a stop : ℕ) {m : Machine} {ps : List ℕ}
      → Paged root role m ps
      → a % pgsize ≡ 0
      → stop ≡ a + n * pgsize
      → stop ≤ maxva
      → n < fuel
      → Owned root role m ps a n
      → Returns (λ _ m'. Unmapping root role m ps a n m') (unmap_loop fuel root a stop true m)
  unfolding unmap_loop
  unmap_loop-Unmapping zero n a stop inv al end fits enough o = absurd (omega arith)
  unmap_loop-Unmapping (suc fuel) zero a stop inv al end fits enough o =
      let over : ltb a stop ≡ false = ground arith in
      rw over (record { paged = inv; map = λ vb sb. ground arith })
  unmap_loop-Unmapping (suc fuel) (suc n) a stop {m} {ps} inv al end fits enough o =
      let more : ltb a stop ≡ true = ground arith in
      let wrap : (a + pgsize) % 2 ^ 64 ≡ a + pgsize = omega arith in
      let small : a < maxva = omega arith in
      elim (Bool-cases (has_flag (pte_of m root a) pte_v)) [
        | inr off ↦
            rw (more, unmap_page-skip inv a small true off, wrap)
              (Returns-mono _ _ _
                (unmap_loop-Unmapping fuel n (a + pgsize) stop inv (omega arith) (omega arith) fits
                  (omega arith) (Owned-skip o))
                λ _ m'. Unmapping-skip inv al off)
        | inl on ↦
            let first : InRange a (suc n) a = omega arith in
            let t = o.takes a first on in
            let u = o.outside a first on in
            let w = o.used a first on in
            rw (more, unmap_page-free inv a small on t u w, wrap)
              (Returns-mono _ _ _
                (unmap_loop-Unmapping fuel n (a + pgsize) stop
                  (unmapped_one-Paged inv a small on t u w) (omega arith) (omega arith) fits
                  (omega arith)
                  (Owned-more al (omega arith) on (refl, refl)
                    (λ vb r.
                      let e = unmapped_one_map inv a small on t u w vb (omega arith) in
                      ground arith)
                    o))
                λ _ m'.
                  Unmapping-more inv al (omega arith) on (unmapped_one_map inv a small on t u w))
      ]

-- `uvmunmap` that frees, at an aligned address and below MAXVA, of a range that owns its pages,
-- returns: the valid entries of the range are cleared, the pages that they led to are free, each
-- once, and every other translation is kept. Pages of the range that are not mapped are passed over.
pub uvmunmap-Unmapping :
    {root : ℕ} {role : ℕ → Role} {m : Machine} {ps : List ℕ} (va n : ℕ)
    → Paged root role m ps
    → va % pgsize ≡ 0
    → va + n * pgsize ≤ maxva
    → Owned root role m ps va n
    → Returns (λ _ m'. Unmapping root role m ps va n m') (uvmunmap root va n true m)
unfolding uvmunmap
uvmunmap-Unmapping va n inv al fits o =
    let t : (va % pgsize == 0) ≡ true = ground arith in
    rw t (
      unmap_loop-Unmapping (n + 1) n va ((va + n * pgsize) % 2 ^ 64) inv al (omega arith)
        (omega arith) (omega arith) o)

-- The pages between two sizes.
abbrev pub pages_between : (oldsz newsz : ℕ) → ℕ
pages_between oldsz newsz = (pg_round_up oldsz - pg_round_up newsz) / pgsize

-- `uvmdealloc` to a smaller size, where the pages between the two sizes are owned, returns the new
-- size, with exactly these pages unmapped and free.
pub uvmdealloc-Unmapping :
    {root : ℕ} {role : ℕ → Role} {m : Machine} {ps : List ℕ} (oldsz newsz : ℕ)
    → Paged root role m ps
    → newsz < oldsz
    → oldsz ≤ maxva
    → Owned root role m ps (pg_round_up newsz) (pages_between oldsz newsz)
    → Returns
        (λ r m'.
          (r ≡ newsz) × Unmapping root role m ps (pg_round_up newsz) (pages_between oldsz newsz) m')
        (uvmdealloc root oldsz newsz m)
unfolding uvmdealloc
uvmdealloc-Unmapping {root} {role} {m} {ps} oldsz newsz inv less fits o =
    let shrink : leb oldsz newsz ≡ false = ground arith in
    elim (Bool-cases (ltb (pg_round_up newsz) (pg_round_up oldsz))) [
      | inl some_pages ↦
          rw (shrink, some_pages)
            (Returns-bind
              (λ _ m'. Unmapping root role m ps (pg_round_up newsz) (pages_between oldsz newsz) m')
              _ _ (λ _. pure newsz)
              (uvmunmap-Unmapping (pg_round_up newsz) (pages_between oldsz newsz) inv (omega arith)
                (omega arith) o)
              λ _ m' r. (refl, r))
      | inr no_pages ↦
          let none : pages_between oldsz newsz ≡ 0 = ground arith in
          rw (shrink, no_pages)
            (
              refl,
              subst (λ n. Unmapping root role m ps (pg_round_up newsz) n m) (sym none)
                  (record { paged = inv; map = λ vb sb. ground arith }),
            )
    ]
