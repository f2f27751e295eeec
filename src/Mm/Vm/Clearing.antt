-- ===== src/Mm/Vm/Clearing.antt =====
-- `uvmunmap` (kernel/mm/vm.c) with and without `do_free`.
use base_exp.Base.{
  ℕ, zero, suc, ◌+◌, ◌*◌, ◌/◌, ◌%◌, ◌^◌, ◌<◌, ◌≤◌, ◌≡◌, ◌≢◌, refl, ◌∙◌, Bool, true, false, ◌==◌,
  ltb, List, arith, if◌then◌else◌, Bool-cases, inl, inr, done, Returns, Returns-mono,
}
use base_exp.Mm.Mem.{Machine, pgsize, load, store}
use base_exp.Mm.Pte.{pte_v, has_flag, maxva}
use base_exp.Mm.Vm.{unmap_page, unmap_loop, uvmunmap}
use base_exp.Mm.Vm.Table.{Role, find}
use base_exp.Mm.Vm.Paged.{Paged}
use base_exp.Mm.Vm.Walk.{walk-find}
use base_exp.Mm.Vm.Leaf.{pte_of, entry_congr, leaf_stored, leaf_stored-Paged, pte_of-leaf_stored}
use base_exp.Mm.Vm.Mapped.{word_found, find_none}
use base_exp.Mm.Vm.Unmapping.{
  IsMapped, Owned, Unmapping, released, unmap_page-skip, without_range, without_range_step,
  without_range_skip,
}
use base_exp.Mm.Vm.Unmap.{uvmunmap-Unmapping}

-- What `uvmunmap` of `n` pages leaves: their entries are cleared, and their pages are free if
-- `do_free` says so, else the free list is as before.
pub record Unmapped (root : ℕ) (role : ℕ → Role) (m : Machine) (ps : List ℕ) (do_free : Bool)
    (a n : ℕ) (m' : Machine) : Type 0 where
  pub paged : Paged root role m' (if do_free then released (pte_of m root) a n ps else ps)
  pub map : (vb : ℕ) → vb < maxva → pte_of m' root vb ≡ without_range (pte_of m root) a n vb

module _ {root : ℕ} {role : ℕ → Role} {ps : List ℕ} where
  -- A round that keeps the page clears a valid entry.
  found_valid :
      {m : Machine} (inv : Paged root role m ps) (a : ℕ) (small : a < maxva)
      → IsMapped m root a
      → find m.word 2 root a ≢ 0
  found_valid inv a small on z = let e = find_none inv a small z in absurd (ground arith)

  unmap_page-clear :
      {m : Machine} (inv : Paged root role m ps) (a : ℕ) (small : a < maxva)
      → (on : IsMapped m root a)
      → unmap_page root a false m ≡ done tt (leaf_stored inv a small 0 (found_valid inv a small on))
  unfolding unmap_page load store
  unmap_page-clear {m} inv a small on =
      let ne = found_valid inv a small on in
      let nz : (find m.word 2 root a == 0) ≡ false = ground arith in
      let e = word_found inv a small ne in rw (walk-find root a m small, nz, e, on)

  Unmapped-freed :
      {m m' : Machine} {a n : ℕ}
      → Unmapping root role m ps a n m'
      → Unmapped root role m ps true a n m'
  Unmapped-freed r = record { paged = r.paged; map = r.map }

  Unmapped-none : {m : Machine} {a : ℕ} → Paged root role m ps → Unmapped root role m ps false a 0 m
  Unmapped-none inv = record { paged = inv; map = λ vb sb. ground arith }

  Unmapped-skip :
      {m m' : Machine} {a n : ℕ}
      → a % pgsize ≡ 0
      → has_flag (pte_of m root a) pte_v ≡ false
      → Unmapped root role m ps false (a + pgsize) n m'
      → Unmapped root role m ps false a (suc n) m'
  Unmapped-skip {m} {a} {n} al off r = record {
    paged = r.paged;
    map = λ vb sb.
        r.map vb sb
        ∙ without_range_skip (pte_of m root) a n vb al
            λ e. let f = entry_congr m.word 2 root vb a e in rw f off;
  }

  Unmapped-more :
      {m m₂ m' : Machine} {a n : ℕ}
      → a % pgsize ≡ 0
      → IsMapped m root a
      → ((vb : ℕ)
          → vb < maxva
          → pte_of m₂ root vb ≡ (if vb / pgsize == a / pgsize then 0 else pte_of m root vb))
      → Unmapped root role m₂ ps false (a + pgsize) n m'
      → Unmapped root role m ps false a (suc n) m'
  Unmapped-more {m} {m₂} {m'} {a} {n} al on same r = record {
    paged = r.paged;
    map = λ vb sb.
        r.map vb sb
        ∙ without_range_step (pte_of m₂ root) (pte_of m root) a n vb al (same vb sb)
            λ e. let f = entry_congr m.word 2 root vb a e in rw f on;
  }

  unmap_loop-Unmapped :
      (fuel n a stop : ℕ) {m : Machine}
      → Paged root role m ps
      → a % pgsize ≡ 0
      → stop ≡ a + n * pgsize
      → stop ≤ maxva
      → n < fuel
      → Returns (λ _ m'. Unmapped root role m ps false a n m') (unmap_loop fuel root a stop false m)
  unfolding unmap_loop
  unmap_loop-Unmapped zero n a stop inv al end fits enough = absurd (omega arith)
  unmap_loop-Unmapped (suc fuel) zero a stop inv al end fits enough =
      let over : ltb a stop ≡ false = ground arith in rw over (Unmapped-none inv)
  unmap_loop-Unmapped (suc fuel) (suc n) a stop {m} inv al end fits enough =
      let more : ltb a stop ≡ true = ground arith in
      let wrap : (a + pgsize) % 2 ^ 64 ≡ a + pgsize = omega arith in
      let small : a < maxva = omega arith in
      elim (Bool-cases (has_flag (pte_of m root a) pte_v)) [
        | inr off ↦
            rw (more, unmap_page-skip inv a small false off, wrap)
              (Returns-mono _ _ _
                (unmap_loop-Unmapped fuel n (a + pgsize) stop inv (omega arith) (omega arith) fits
                  (omega arith))
                λ _ m'. Unmapped-skip al off)
        | inl on ↦
            let ne = found_valid inv a small on in
            rw (more, unmap_page-clear inv a small on, wrap)
              (Returns-mono _ _ _
                (unmap_loop-Unmapped fuel n (a + pgsize) stop (leaf_stored-Paged inv a small 0 ne)
                  (omega arith) (omega arith) fits (omega arith))
                λ _ m'. Unmapped-more al on (pte_of-leaf_stored inv a small 0 ne))
      ]

-- `uvmunmap` at an aligned address and below MAXVA returns: the valid entries of the range are
-- cleared, and every other translation is kept; pages of the range that are not mapped are passed
-- over. With `do_free`, of a range that owns its pages, the pages that the entries led to are put on
-- the free list, each once; without it the free list stays as it is.
pub uvmunmap-Unmapped :
    {root : ℕ} {role : ℕ → Role} {m : Machine} {ps : List ℕ} (va n : ℕ) (do_free : Bool)
    → Paged root role m ps
    → va % pgsize ≡ 0
    → va + n * pgsize ≤ maxva
    → (do_free ≡ true → Owned root role m ps va n)
    → Returns (λ _ m'. Unmapped root role m ps do_free va n m') (uvmunmap root va n do_free m)
unfolding uvmunmap
uvmunmap-Unmapped va n true inv al fits o =
    Returns-mono _ _ _ (uvmunmap-Unmapping va n inv al fits (o refl)) λ _ m'. Unmapped-freed
uvmunmap-Unmapped va n false inv al fits o =
    let t : (va % pgsize == 0) ≡ true = ground arith in
    rw t (
      unmap_loop-Unmapped (n + 1) n va ((va + n * pgsize) % 2 ^ 64) inv al (omega arith)
        (omega arith) (omega arith))
