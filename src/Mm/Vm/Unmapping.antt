-- ===== src/Mm/Vm/Unmapping.antt =====
-- One round of the loop of `uvmunmap` that frees, and what the whole loop has done.
use base_exp.Base.{
  ℕ, zero, suc, ◌+◌, ◌*◌, ◌/◌, ◌%◌, ◌<◌, ◌≤◌, ◌≡◌, ◌≢◌, refl, sym, ◌∙◌, ap, Bool, true, false, ◌&&◌,
  ◌==◌, leb, ltb, List, ◌∷◌, arith, if◌then◌else◌, Bool-cases, inl, inr, has, done,
}
use base_exp.Mm.Mem.{Machine, pgsize, write, load, store}
use base_exp.Mm.Kalloc.{bad_page}
use base_exp.Mm.Kalloc.FreeList.{pushed, kfree-pushed}
use base_exp.Mm.Pte.{pte_v, has_flag, pte2pa, maxva}
use base_exp.Mm.Vm.{unmap_page}
use base_exp.Mm.Vm.Table.{Role, other, find}
use base_exp.Mm.Vm.Paged.{Paged}
use base_exp.Mm.Vm.Walk.{walk-find}
use base_exp.Mm.Vm.Leaf.{pte_of, leaf_stored, leaf_stored-Paged, pte_of-leaf_stored}
use base_exp.Mm.Vm.Mapped.{word_found, find_none}
use base_exp.Mm.Vm.Frame.{pushed-Paged, pte_of-pushed}

abbrev pub InRange : (a n vb : ℕ) → Type 0
InRange a n vb = (a ≤ vb) × (vb < a + n * pgsize)

abbrev pub IsMapped : Machine → (root vb : ℕ) → Type 0
IsMapped m root vb = has_flag (pte_of m root vb) pte_v ≡ true

-- The mapped pages of a range belong to it alone: `kfree` takes each, none is in the tree or free,
-- and no page is mapped twice.
pub record Owned (root : ℕ) (role : ℕ → Role) (m : Machine) (ps : List ℕ) (a n : ℕ) : Type 0 where
  pub takes :
      (vb : ℕ)
      → InRange a n vb
      → IsMapped m root vb
      → bad_page m (pte2pa (pte_of m root vb)) ≡ false
  pub outside :
      (vb : ℕ) → InRange a n vb → IsMapped m root vb → role (pte2pa (pte_of m root vb)) ≡ other
  pub used :
      (vb : ℕ) → InRange a n vb → IsMapped m root vb → has (pte2pa (pte_of m root vb)) ps ≡ false
  pub once :
      (va vb : ℕ)
      → InRange a n va
      → InRange a n vb
      → IsMapped m root va
      → IsMapped m root vb
      → pte2pa (pte_of m root va) ≡ pte2pa (pte_of m root vb)
      → va / pgsize ≡ vb / pgsize

-- The free list after the mapped pages of a range are given back in order.
abbrev pub released : (ℕ → ℕ) → (a n : ℕ) → List ℕ → List ℕ
released map a zero ps = ps
released map a (suc n) ps =
    released map (a + pgsize) n (if has_flag (map a) pte_v then pte2pa (map a) ∷ ps else ps)

-- The translations after a range is unmapped.
abbrev pub without_range : (ℕ → ℕ) → (a n : ℕ) → ℕ → ℕ
without_range map a n vb =
    if leb a vb && ltb vb (a + n * pgsize) && has_flag (map vb) pte_v then 0 else map vb

pub released-congr :
    (f g : ℕ → ℕ) (a n : ℕ) (ps : List ℕ)
    → ((vb : ℕ) → InRange a n vb → f vb ≡ g vb)
    → released f a n ps ≡ released g a n ps
released-congr f g a zero ps same = refl
released-congr f g a (suc n) ps same =
    rw (same a (omega arith)) (released-congr f g (a + pgsize) n _ λ vb r. same vb (omega arith))

module _ {root : ℕ} {role : ℕ → Role} {m : Machine} {ps : List ℕ} (inv : Paged root role m ps)
    (a : ℕ) (small : a < maxva) where
  pub unmap_page-skip :
      (do_free : Bool)
      → has_flag (pte_of m root a) pte_v ≡ false
      → unmap_page root a do_free m ≡ done tt m
  unfolding unmap_page load store
  unmap_page-skip do_free off =
      rw (walk-find root a m small) (elim (Bool-cases (find m.word 2 root a == 0)) [
        | inl z ↦ rw z
        | inr nz ↦ let e = word_found inv a small (ground arith) in rw (nz, e, off)
      ])

  module _ (on : IsMapped m root a) (takes : bad_page m (pte2pa (pte_of m root a)) ≡ false)
      (unused : role (pte2pa (pte_of m root a)) ≡ other)
      (new : has (pte2pa (pte_of m root a)) ps ≡ false) where
    abbrev pub freed : Machine
    freed = pushed m (pte2pa (pte_of m root a))

    abbrev pub at_slot : find freed.word 2 root a ≡ find m.word 2 root a
    at_slot = (pte_of-pushed inv _ takes unused new a).0

    pub slot_ne_zero : find m.word 2 root a ≢ 0
    slot_ne_zero z = let e = find_none inv a small z in absurd (ground arith)

    pub found : find freed.word 2 root a ≢ 0
    found z = slot_ne_zero (sym at_slot ∙ z)

    pub freed-Paged : Paged root role freed (pte2pa (pte_of m root a) ∷ ps)
    freed-Paged = pushed-Paged inv _ takes unused new

    -- The machine once the page is given back and the entry is cleared.
    abbrev pub unmapped_one : Machine
    unmapped_one = leaf_stored freed-Paged a small 0 found

    pub unmap_page-free : unmap_page root a true m ≡ done tt unmapped_one
    unfolding unmap_page load store
    unmap_page-free =
        let nz : (find m.word 2 root a == 0) ≡ false = let n = slot_ne_zero in ground arith in
        let e = word_found inv a small slot_ne_zero in
        rw (walk-find root a m small, nz, e, on, kfree-pushed m (pte2pa (pte_of m root a)) takes)
          (ap (λ z. done tt (record freed { word = write freed.word z 0 })) (sym at_slot))

    pub unmapped_one-Paged : Paged root role unmapped_one (pte2pa (pte_of m root a) ∷ ps)
    unmapped_one-Paged = leaf_stored-Paged freed-Paged a small 0 found

    pub unmapped_one_map :
        (vb : ℕ)
        → vb < maxva
        → pte_of unmapped_one root vb ≡ (if vb / pgsize == a / pgsize then 0 else pte_of m root vb)
    unmapped_one_map vb sb =
        pte_of-leaf_stored freed-Paged a small 0 found vb sb
        ∙ ap (λ z. if vb / pgsize == a / pgsize then 0 else z)
            (pte_of-pushed inv _ takes unused new vb).1

-- One more page in front of a range.
pub without_range_step :
    (map before : ℕ → ℕ) (a n vb : ℕ)
    → a % pgsize ≡ 0
    → map vb ≡ (if vb / pgsize == a / pgsize then 0 else before vb)
    → (vb / pgsize ≡ a / pgsize → has_flag (before vb) pte_v ≡ true)
    → without_range map (a + pgsize) n vb ≡ without_range before a (suc n) vb
without_range_step map before a n vb al e on = ground arith

pub without_range_skip :
    (map : ℕ → ℕ) (a n vb : ℕ)
    → a % pgsize ≡ 0
    → (vb / pgsize ≡ a / pgsize → has_flag (map vb) pte_v ≡ false)
    → without_range map (a + pgsize) n vb ≡ without_range map a (suc n) vb
without_range_skip map a n vb al off = ground arith

pub Owned-skip :
    {root : ℕ} {role : ℕ → Role} {m : Machine} {ps : List ℕ} {a n : ℕ}
    → Owned root role m ps a (suc n)
    → Owned root role m ps (a + pgsize) n
Owned-skip o = record {
  takes = λ vb r. o.takes vb (omega arith);
  outside = λ vb r. o.outside vb (omega arith);
  used = λ vb r. o.used vb (omega arith);
  once = λ va vb r r'. o.once va vb (omega arith) (omega arith);
}

-- What `uvmunmap` of `n` pages leaves: their entries are cleared and their pages are free.
pub record Unmapping (root : ℕ) (role : ℕ → Role) (m : Machine) (ps : List ℕ) (a n : ℕ)
    (m' : Machine) : Type 0 where
  pub paged : Paged root role m' (released (pte_of m root) a n ps)
  pub map : (vb : ℕ) → vb < maxva → pte_of m' root vb ≡ without_range (pte_of m root) a n vb
