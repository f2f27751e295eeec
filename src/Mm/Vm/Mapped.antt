-- ===== src/Mm/Vm/Mapped.antt =====
-- What the loop of `mappages` has done: the entries that it has made, and what it leaves alone,
-- also when it runs out of pages.
use base_exp.Base.{
  ℕ, suc, ◌+◌, ◌-◌, ◌*◌, ◌/◌, ◌%◌, ◌<◌, ◌≤◌, ◌≡◌, ◌≢◌, refl, sym, ◌∙◌, ap, Bool, true, false, ◌&&◌,
  ◌==◌, leb, ltb, List, [], arith, if◌then◌else◌,
}
use base_exp.Mm.Mem.{Machine, pgsize}
use base_exp.Mm.Pte.{pte_v, has_flag, make_pte, maxva}
use base_exp.Mm.Vm.Table.{Role, table, find, Found, missing, present, find-Found}
use base_exp.Mm.Vm.Paged.{Paged}
use base_exp.Mm.Vm.Walk.{Walked, root-role}
use base_exp.Mm.Vm.Leaf.{
  pte_of, Spared, Spared-trans, Grown-Spared, leaf_stored, leaf_stored-Paged, leaf_stored-Spared,
  pte_of-leaf_stored,
}

-- The map with `count` pages from `a` on sent to the pages from `pa` on.
abbrev pub with_range : (ℕ → ℕ) → (a pa perm count : ℕ) → ℕ → ℕ
with_range before a pa perm count vb =
    if leb a vb && ltb vb (a + count * pgsize)
    then make_pte (pa + (vb - a) / pgsize * pgsize) perm
    else before vb

-- What `mappages` of `n` pages leaves: `count` of them are mapped, all if it succeeds; if it fails,
-- the free list is used up. Other translations and other pages are as before.
pub record Mapped (root : ℕ) (role : ℕ → Role) (m : Machine) (ps : List ℕ) (a pa perm n : ℕ)
    (success : Bool) (m' : Machine) : Type 0 where
  pub new_role : ℕ → Role
  pub left : List ℕ
  pub paged : Paged root new_role m' left
  pub spared : Spared role new_role m.word m'.word ps left
  pub count : ℕ
  pub whole : success ≡ true → count ≡ n
  pub used_up : success ≡ false → (left ≡ []) × (count < n)
  pub map :
      (vb : ℕ) → vb < maxva → pte_of m' root vb ≡ with_range (pte_of m root) a pa perm count vb

-- One more page in front.
range_step :
    (a pa perm count x vb : ℕ)
    → a % pgsize ≡ 0
    → with_range
        (λ y. if y / pgsize == a / pgsize then make_pte pa perm else x)
        (a + pgsize)
        (pa + pgsize)
        perm
        count
        vb
      ≡ with_range (λ _. x) a pa perm (suc count) vb
range_step a pa perm count x vb al = ground arith

range_one :
    (a pa perm x vb : ℕ)
    → a % pgsize ≡ 0
    → (if vb / pgsize == a / pgsize then make_pte pa perm else x)
      ≡ with_range (λ _. x) a pa perm 1 vb
range_one a pa perm x vb al = ground arith

module _ {root : ℕ} {role : ℕ → Role} {m : Machine} {ps : List ℕ} (inv : Paged root role m ps) where
  -- The word at a found entry is the entry.
  pub word_found :
      (va : ℕ)
      → va < maxva
      → find m.word 2 root va ≢ 0
      → m.word (find m.word 2 root va) ≡ pte_of m root va
  word_found va small ne = go (find-Found inv.tables 2 root va (root-role inv va small))
    where
      go : Found role m.word 2 root va → m.word (find m.word 2 root va) ≡ pte_of m root va
      go (missing f _) = absurd (ne f)
      go (present q r f e) = ap m.word f ∙ sym e

  pub find_none : (va : ℕ) → va < maxva → find m.word 2 root va ≡ 0 → pte_of m root va ≡ 0
  find_none va small z = go (find-Found inv.tables 2 root va (root-role inv va small))
    where
      go : Found role m.word 2 root va → pte_of m root va ≡ 0
      go (missing _ e) = e
      go (present q r f e) = let n = inv.tables.page q 0 _ r in absurd (omega arith)

-- No page of the range is mapped.
abbrev pub Unmapped : Machine → (root a n : ℕ) → Type 0
Unmapped m root a n =
    (vb : ℕ) → a ≤ vb → vb < a + n * pgsize → has_flag (pte_of m root vb) pte_v ≡ false

module _ {root a pa perm : ℕ} {role : ℕ → Role} {m m₁ : Machine} {ps : List ℕ} where
  -- The walk for the first page fails.
  pub Mapped-none :
      {s n : ℕ}
      → Walked root role m ps 2 root a s m₁
      → role root ≡ table 2 0
      → s ≡ 0
      → Mapped root role m ps a pa perm (suc n) false m₁
  Mapped-none w top e = record {
    new_role = w.new_role;
    left = w.left;
    paged = w.paged;
    spared = Grown-Spared w.grown;
    count = 0;
    whole = λ f. absurd (cc);
    used_up = λ _. (w.used_up e, omega arith);
    map = λ vb sb. let g = w.grown.entries 2 root vb 0 top in ground arith;
  }

module _ {root a : ℕ} (pa perm : ℕ) {role : ℕ → Role} {m m₁ : Machine} {ps : List ℕ} where
  module _ {s : ℕ} (w : Walked root role m ps 2 root a s m₁) (top : role root ≡ table 2 0)
      (small : a < maxva) (al : a % pgsize ≡ 0) (found : find m₁.word 2 root a ≢ 0) where
    abbrev pub mapped_one : Machine
    mapped_one = leaf_stored w.paged a small (make_pte pa perm) found

    pub mapped_one-Paged : Paged root w.new_role mapped_one w.left
    mapped_one-Paged = leaf_stored-Paged w.paged a small (make_pte pa perm) found

    mapped_one-Spared : Spared role w.new_role m.word mapped_one.word ps w.left
    mapped_one-Spared =
        Spared-trans (Grown-Spared w.grown)
          (leaf_stored-Spared w.paged a small (make_pte pa perm) found)

    pub mapped_one_map :
        (vb : ℕ)
        → vb < maxva
        → pte_of mapped_one root vb
          ≡ (if vb / pgsize == a / pgsize then make_pte pa perm else pte_of m root vb)
    mapped_one_map vb sb =
        pte_of-leaf_stored w.paged a small (make_pte pa perm) found vb sb
        ∙ ap (λ z. if vb / pgsize == a / pgsize then make_pte pa perm else z)
            (w.grown.entries 2 root vb 0 top)

    -- The last page is mapped.
    pub Mapped-one : Mapped root role m ps a pa perm 1 true mapped_one
    Mapped-one = record {
      new_role = w.new_role;
      left = w.left;
      paged = mapped_one-Paged;
      spared = mapped_one-Spared;
      count = 1;
      whole = λ f. refl;
      used_up = λ f. absurd (cc);
      map = λ vb sb. mapped_one_map vb sb ∙ range_one a pa perm (pte_of m root vb) vb al;
    }

    -- A page is mapped in front of what the rest of the loop maps.
    pub Mapped-more :
        {n : ℕ} {b : Bool} {m' : Machine}
        → Mapped root w.new_role mapped_one w.left (a + pgsize) (pa + pgsize) perm n b m'
        → Mapped root role m ps a pa perm (suc n) b m'
    Mapped-more {n} {b} {m'} r = record {
      new_role = r.new_role;
      left = r.left;
      paged = r.paged;
      spared = Spared-trans mapped_one-Spared r.spared;
      count = suc r.count;
      whole = λ f. ap suc (r.whole f);
      used_up = λ f. let u = r.used_up f in (u.0, omega arith);
      map = λ vb sb.
          r.map vb sb
          ∙ ap
              (λ z.
                if leb (a + pgsize) vb && ltb vb (a + pgsize + r.count * pgsize)
                then make_pte (pa + pgsize + (vb - (a + pgsize)) / pgsize * pgsize) perm
                else z)
              (mapped_one_map vb sb)
          ∙ range_step a pa perm r.count (pte_of m root vb) vb al;
    }
