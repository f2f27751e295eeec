-- ===== src/Mm/Vm/Paged.antt =====
-- The invariant of the memory under a page table: the tree, the free list, and that no page is in
-- both. What an operation may change of it, and one step of growth.
use base_exp.Base.{
  ℕ, suc, ◌+◌, ◌*◌, ◌%◌, ◌^◌, ◌<◌, ◌≤◌, ◌≡◌, ◌≢◌, refl, sym, ◌∙◌, ap, true, false, ◌==◌, List, [],
  ◌∷◌, arith, done, has, has_ne,
}
use base_exp.Mm.Mem.{Machine, pgsize, in_page, write, fill_page, store, clear_page}
use base_exp.Mm.Kalloc.FreeList.{
  IsFree, IsFree-frame, aligned_of_has, popped, popped-IsFree, kalloc-popped, kalloc-nil,
}
use base_exp.Mm.Pte.{pte_v, has_flag, pte2pa, make_pte}
use base_exp.Mm.Vm.{new_table}
use base_exp.Mm.Vm.Table.{Role, other, table, IsTables, entry}
use base_exp.Mm.Vm.Link.{
  Linkage, slot_valid, slot_leads, page_role, linked_role, keep_role, linked_valid, entry-linked,
  linked-IsTables,
}

pub record Paged (root : ℕ) (role : ℕ → Role) (m : Machine) (ps : List ℕ) : Type 0 where
  pub tables : IsTables root role m.word
  pub free : IsFree m ps
  pub apart : (q : ℕ) → has q ps ≡ true → role q ≡ other
  pub small : m.phys_top ≤ 2 ^ 56

-- The tree has grown by pages of the free list: roles stay, valid links stay, every translation is
-- the same, and the pages of neither keep their contents.
pub record Grown (role role' : ℕ → Role) (word word' : ℕ → ℕ) (ps ps' : List ℕ) : Type 0 where
  pub keep : (q l pre : ℕ) → role q ≡ table l pre → role' q ≡ table l pre
  pub entries : (l q va pre : ℕ) → role q ≡ table l pre → entry word' l q va ≡ entry word l q va
  pub links :
      (q l pre j : ℕ)
      → role q ≡ table (suc l) pre
      → j < 512
      → has_flag (word (q + 8 * j)) pte_v ≡ true
      → word' (q + 8 * j) ≡ word (q + 8 * j)
  pub spare :
      (q : ℕ)
      → q % pgsize ≡ 0
      → role q ≡ other
      → has q ps ≡ false
      → (role' q ≡ other) × (has q ps' ≡ false) × ((a : ℕ) → in_page q a ≡ true → word' a ≡ word a)

pub Grown-refl : {role : ℕ → Role} {word : ℕ → ℕ} {ps : List ℕ} → Grown role role word word ps ps
Grown-refl = record {
  keep = λ q l pre r. r;
  entries = λ l q va pre r. refl;
  links = λ q l pre j r hj on. refl;
  spare = λ q al o out. (o, out, λ a h. refl);
}

pub Grown-trans :
    {role role' role'' : ℕ → Role} {word word' word'' : ℕ → ℕ} {ps ps' ps'' : List ℕ}
    → Grown role role' word word' ps ps'
    → Grown role' role'' word' word'' ps' ps''
    → Grown role role'' word word'' ps ps''
Grown-trans g h = record {
  keep = λ q l pre r. h.keep q l pre (g.keep q l pre r);
  entries = λ l q va pre r. h.entries l q va pre (g.keep q l pre r) ∙ g.entries l q va pre r;
  links = λ q l pre j r hj on.
      let e = g.links q l pre j r hj on in
      h.links q l pre j (g.keep q (suc l) pre r) hj (rw e on) ∙ e;
  spare = λ q al o out.
      let s = g.spare q al o out in
      let u = h.spare q al s.0 s.1 in (u.0, u.1, λ a i. u.2 a i ∙ s.2 a i);
}

-- The machine once `new_table` has linked the first free page at `slot`.
abbrev pub extended : Machine → ℕ → Machine
extended m slot = record m {
  word = write (fill_page (popped m).word m.freelist 0) slot (make_pte m.freelist 0);
  freelist = (popped m).freelist;
}

pub new_table-nil : {m : Machine} (slot : ℕ) → IsFree m [] → new_table slot true m ≡ done 0 m
unfolding new_table
new_table-nil slot f = rw (kalloc-nil f)

pub new_table-extended :
    (m : Machine) (slot : ℕ)
    → m.freelist ≢ 0
    → new_table slot true m ≡ done m.freelist (extended m slot)
unfolding new_table clear_page store
new_table-extended m slot ne =
    let nz : (m.freelist == 0) ≡ false = ground arith in rw (kalloc-popped m ne) (rw nz)

module _ {root : ℕ} {role : ℕ → Role} {m : Machine} {r : ℕ} {rs : List ℕ}
    (inv : Paged root role m (r ∷ rs)) (p i l pre : ℕ) (owner : role p ≡ table (suc l) pre)
    (small : i < 512) (invalid : has_flag (m.word (p + 8 * i)) pte_v ≡ false) where
  cleared : ℕ → ℕ
  cleared = fill_page (popped m).word m.freelist 0

  cleared_in : (a : ℕ) → in_page m.freelist a ≡ true → cleared a ≡ 0
  unfolding cleared fill_page
  cleared_in a h = rw h

  cleared_out : (a : ℕ) → in_page m.freelist a ≡ false → cleared a ≡ m.word a
  unfolding cleared fill_page
  cleared_out a h = rw h

  page_free : has m.freelist (r ∷ rs) ≡ true
  page_free = let e = inv.free.chain.0 in ground arith

  page_facts : (m.freelist % pgsize ≡ 0) × (m.kernel_end ≤ m.freelist) × (m.freelist < m.phys_top)
  page_facts = aligned_of_has m.freelist (r ∷ rs) page_free inv.free.pages

  page_unused : role m.freelist ≡ other
  page_unused = inv.apart m.freelist page_free

  pub page_nonzero : m.freelist ≢ 0
  page_nonzero = let e = inv.free.chain.0 in let n = inv.free.chain.1 in omega arith

  page_fits : m.freelist < 2 ^ 56
  page_fits = let f = page_facts in let s = inv.small in omega arith

  -- A page without a role that is not the new one keeps its words.
  untouched :
      (q : ℕ)
      → q % pgsize ≡ 0
      → role q ≡ other
      → q ≢ m.freelist
      → (a : ℕ) → in_page q a ≡ true
      → (extended m (p + 8 * i)).word a ≡ m.word a
  unfolding write
  untouched q al o ne a h =
      let pp = inv.tables.page p (suc l) pre owner in
      let f = page_facts in
      let np : q ≢ p = λ e. let z = sym o ∙ ap role e ∙ owner in absurd (cc) in
      let apart : (a == p + 8 * i) ≡ false = ground arith in
      let out : in_page m.freelist a ≡ false = ground arith in
      rw apart (unfold cleared in cleared_out a out)

  abbrev pub extended_role : ℕ → Role
  extended_role = linked_role role i l pre m.freelist

  linkage : Linkage root role m.word cleared p i l pre m.freelist
  linkage = record {
    tables = inv.tables;
    owner = owner;
    small = small;
    invalid = invalid;
    unused = page_unused;
    aligned = page_facts.0;
    nonzero = page_nonzero;
    fits = page_fits;
    cleared = cleared_in;
    same = cleared_out;
  }

  rest_ne : (q : ℕ) → has q rs ≡ true → q ≢ m.freelist
  rest_ne q mem e = has_ne r q rs inv.free.chain.2 mem (sym (inv.free.chain.0) ∙ sym e)

  rest_same : (q : ℕ) → has q rs ≡ true → (extended m (p + 8 * i)).word q ≡ (popped m).word q
  unfolding fill_page
  rest_same q mem =
      let f = page_facts in
      let a = aligned_of_has q rs mem inv.free.pages.3 in
      let ne = rest_ne q mem in
      let u = untouched q a.0 (inv.apart q (ground arith)) ne q (ground arith) in ground arith

  pub extended-Paged : Paged root extended_role (extended m (p + 8 * i)) rs
  unfolding cleared
  extended-Paged = record {
    tables = linked-IsTables linkage;
    free = IsFree-frame rest_same (popped-IsFree inv.free);
    apart = λ q mem. let o = inv.apart q (ground arith) in let ne = rest_ne q mem in ground arith;
    small = inv.small;
  }

  pub extended-Grown : Grown role extended_role m.word (extended m (p + 8 * i)).word (r ∷ rs) rs
  unfolding cleared
  extended-Grown = record {
    keep = keep_role linkage;
    entries = λ q. entry-linked linkage q;
    links = λ q l' pre'. linked_valid linkage q (suc l') pre';
    spare = λ q al o out.
        let ne : q ≢ m.freelist = has_ne q m.freelist (r ∷ rs) out page_free in
        (ground arith, ground arith, untouched q al o ne);
  }

  pub extended_valid : has_flag ((extended m (p + 8 * i)).word (p + 8 * i)) pte_v ≡ true
  unfolding cleared
  extended_valid = slot_valid linkage

  pub extended_leads : pte2pa ((extended m (p + 8 * i)).word (p + 8 * i)) ≡ m.freelist
  unfolding cleared
  extended_leads = slot_leads linkage

  pub extended_new : extended_role m.freelist ≡ table l (pre * 512 + i)
  extended_new = page_role linkage

  pub extended_owner : extended_role p ≡ table (suc l) pre
  extended_owner = keep_role linkage p (suc l) pre owner
