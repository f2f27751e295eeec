-- ===== src/Mm/Vm/Leaf.antt =====
-- The page table as a map from addresses to entries, and what a store at a level-0 entry that
-- `walk` has returned does to that map.
use base_exp.Base.{
  ℕ, zero, suc, ◌+◌, ◌*◌, ◌/◌, ◌%◌, ◌<◌, ◌≡◌, ◌≢◌, refl, sym, ◌∙◌, ap, true, false, ◌==◌, List,
  arith, if◌then◌else◌, Bool-cases, ==_iff, inl, inr, has,
}
use base_exp.Mm.Mem.{Machine, pgsize, in_page, write}
use base_exp.Mm.Kalloc.FreeList.{IsFree-frame, aligned_of_has}
use base_exp.Mm.Pte.{pte_v, has_flag, pte2pa, px, px-lt, above, above-px, maxva}
use base_exp.Mm.Vm.Table.{
  Role, other, table, find, entry, Found, missing, present, find-Found, slot_ne,
}
use base_exp.Mm.Vm.Store.{stored-IsTables, entry-stored}
use base_exp.Mm.Vm.Paged.{Paged, Grown}
use base_exp.Mm.Vm.Walk.{root-role}

-- The entry for an address, 0 if the tree has none.
abbrev pub pte_of : Machine → ℕ → ℕ → ℕ
pte_of m root va = entry m.word 2 root va

-- Roles stay, and the pages that are neither in the tree nor free keep their contents.
pub record Spared (role role' : ℕ → Role) (word word' : ℕ → ℕ) (ps ps' : List ℕ) : Type 0 where
  pub keep : (q l pre : ℕ) → role q ≡ table l pre → role' q ≡ table l pre
  pub spare :
      (q : ℕ)
      → q % pgsize ≡ 0
      → role q ≡ other
      → has q ps ≡ false
      → (role' q ≡ other) × (has q ps' ≡ false) × ((a : ℕ) → in_page q a ≡ true → word' a ≡ word a)

pub Spared-refl : {role : ℕ → Role} {word : ℕ → ℕ} {ps : List ℕ} → Spared role role word word ps ps
Spared-refl = record { keep = λ q l pre r. r; spare = λ q al o out. (o, out, λ a h. refl) }

pub Spared-trans :
    {role role' role'' : ℕ → Role} {word word' word'' : ℕ → ℕ} {ps ps' ps'' : List ℕ}
    → Spared role role' word word' ps ps'
    → Spared role' role'' word' word'' ps' ps''
    → Spared role role'' word word'' ps ps''
Spared-trans g h = record {
  keep = λ q l pre r. h.keep q l pre (g.keep q l pre r);
  spare = λ q al o out.
      let s = g.spare q al o out in
      let u = h.spare q al s.0 s.1 in (u.0, u.1, λ a i. u.2 a i ∙ s.2 a i);
}

pub Grown-Spared :
    {role role' : ℕ → Role} {word word' : ℕ → ℕ} {ps ps' : List ℕ}
    → Grown role role' word word' ps ps'
    → Spared role role' word word' ps ps'
Grown-Spared g = record { keep = g.keep; spare = g.spare }

-- The path to an entry depends on the page of the address only.
above_congr : (l va vb : ℕ) → above 0 va ≡ above 0 vb → above l va ≡ above l vb
above_congr zero va vb e = e
above_congr (suc l) va vb e =
    omega (arith, above_congr l va vb e, above-px l va, above-px l vb, px-lt l va, px-lt l vb)

px_congr : (l va vb : ℕ) → above 0 va ≡ above 0 vb → px l va ≡ px l vb
px_congr l va vb e =
    omega (arith, above_congr l va vb e, above_congr (suc l) va vb e, above-px l va, above-px l vb)

find_congr :
    (word : ℕ → ℕ) (l p va vb : ℕ) → above 0 va ≡ above 0 vb → find word l p va ≡ find word l p vb
unfolding find
find_congr word zero p va vb e = rw (px_congr 0 va vb e)
find_congr word (suc l) p va vb e = rw (px_congr (suc l) va vb e) (
    ap (λ z. if has_flag (word (p + 8 * px (suc l) vb)) pte_v then z else 0)
      (find_congr word l (pte2pa (word (p + 8 * px (suc l) vb))) va vb e))

above_zero : (va : ℕ) → above 0 va ≡ va / pgsize
unfolding above
above_zero va = refl

pub entry_congr :
    (word : ℕ → ℕ) (l p va vb : ℕ)
    → va / pgsize ≡ vb / pgsize
    → entry word l p va ≡ entry word l p vb
unfolding entry
entry_congr word zero p va vb e = rw (px_congr 0 va vb (above_zero va ∙ e ∙ sym (above_zero vb)))
entry_congr word (suc l) p va vb e =
    rw (px_congr (suc l) va vb (above_zero va ∙ e ∙ sym (above_zero vb))) (
      ap (λ z. if has_flag (word (p + 8 * px (suc l) vb)) pte_v then z else 0)
        (entry_congr word l (pte2pa (word (p + 8 * px (suc l) vb))) va vb e))

module _ {root : ℕ} {role : ℕ → Role} {m : Machine} {ps : List ℕ} (inv : Paged root role m ps)
    (va : ℕ) (small : va < maxva) where
  -- A walk finds its entry exactly for the addresses of one page.
  find_same :
      (vb : ℕ)
      → vb < maxva
      → find m.word 2 root va ≢ 0
      → find m.word 2 root vb ≡ find m.word 2 root va
      → vb / pgsize ≡ va / pgsize
  find_same vb sb ne e =
      go (find-Found inv.tables 2 root va (root-role inv va small))
        (find-Found inv.tables 2 root vb (root-role inv vb sb))
    where
      go : Found role m.word 2 root va → Found role m.word 2 root vb → vb / pgsize ≡ va / pgsize
      go (missing f _) _ = absurd (ne f)
      go (present q r f _) (missing g _) = absurd (ne (sym e ∙ g))
      go (present q r f _) (present q' r' g _) =
          let s =
            slot_ne inv.tables q' 0 (above 1 vb) (px 0 vb) q 0 (above 1 va) (px 0 va) r' r
              (px-lt 0 vb) (px-lt 0 va) (sym g ∙ e ∙ f) in
          let pre : above 1 vb ≡ above 1 va = cc (s.0) in
          omega (arith, above-px 0 vb, above-px 0 va, s.1, above_zero va, above_zero vb, pre)

  module _ (v : ℕ) (found : find m.word 2 root va ≢ 0) where
    abbrev pub leaf_stored : Machine
    leaf_stored = record m { word = write m.word (find m.word 2 root va) v }

    -- The page that holds the entry.
    leaf_page :
        (q : ℕ) × (role q ≡ table 0 (above 1 va)) × (find m.word 2 root va ≡ q + 8 * px 0 va)
    leaf_page = go (find-Found inv.tables 2 root va (root-role inv va small))
      where
        go :
            Found role m.word 2 root va
            → (q : ℕ) × (role q ≡ table 0 (above 1 va)) × (find m.word 2 root va ≡ q + 8 * px 0 va)
        go (missing f _) = absurd (found f)
        go (present q r f _) = (q, r, f)

    -- A page of another role keeps all its words.
    leaf_apart :
        (x : ℕ)
        → x % pgsize ≡ 0
        → role x ≡ other
        → (a : ℕ) → in_page x a ≡ true
        → leaf_stored.word a ≡ m.word a
    unfolding write
    leaf_apart x al o a h =
        let (q, r, f) = leaf_page in
        let qa = inv.tables.page q 0 _ r in
        let ne : x ≢ q = λ e. let z = sym o ∙ ap role e ∙ r in absurd (cc) in
        let hp = px-lt 0 va in
        let apart : (a == find m.word 2 root va) ≡ false = ground arith in rw apart

    pub leaf_stored-Paged : Paged root role leaf_stored ps
    leaf_stored-Paged =
        let (q, r, f) = leaf_page in
        record {
          tables = rw f (stored-IsTables inv.tables q (px 0 va) v (above 1 va) r (px-lt 0 va));
          free =
              IsFree-frame
                (λ x mem.
                  let al = (aligned_of_has x ps mem inv.free.pages).0 in
                  leaf_apart x al (inv.apart x mem) x (ground arith))
                inv.free;
          apart = inv.apart;
          small = inv.small;
        }

    pub leaf_stored-Spared : Spared role role m.word leaf_stored.word ps ps
    leaf_stored-Spared = record {
      keep = λ q l pre r. r;
      spare = λ q al o out. (o, out, leaf_apart q al o);
    }

    -- The store changes the entry for the addresses of its page, and no other.
    pub pte_of-leaf_stored :
        (vb : ℕ)
        → vb < maxva
        → pte_of leaf_stored root vb ≡ (if vb / pgsize == va / pgsize then v else pte_of m root vb)
    pte_of-leaf_stored vb sb =
        let (q, r, f) = leaf_page in
        let e : pte_of leaf_stored root vb
            ≡ (if find m.word 2 root vb == find m.word 2 root va then v else pte_of m root vb) =
          rw f (
            entry-stored inv.tables q (px 0 va) v (above 1 va) r (px-lt 0 va) 2 root vb _
              (root-role inv vb sb)) in
        elim (Bool-cases (vb / pgsize == va / pgsize)) [
          | inl same ↦
              let g =
                find_congr m.word 2 root vb va
                  (above_zero vb ∙ (==_iff _ _).0 same ∙ sym (above_zero va)) in
              let t : (find m.word 2 root vb == find m.word 2 root va) ≡ true = (==_iff _ _).1 g in
              e ∙ rw (t, same)
          | inr other_page ↦
              let t : (find m.word 2 root vb == find m.word 2 root va) ≡ false =
                elim (Bool-cases (find m.word 2 root vb == find m.word 2 root va)) [
                  | inr no_match ↦ no_match
                  | inl match ↦
                      let g = find_same vb sb found ((==_iff _ _).0 match) in
                      let same = (==_iff _ _).1 g in absurd (cc)
                ] in
              e ∙ rw (t, other_page)
        ]
