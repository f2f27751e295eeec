-- ===== src/Mm/Vm/Frame.antt =====
-- A change outside the page-table pages changes no translation; giving back a page that is in
-- neither the tree nor the free list is such a change.
use base_exp.Base.{
  ℕ, zero, suc, ◌+◌, ◌*◌, ◌%◌, ◌<◌, ◌≡◌, ◌≢◌, refl, sym, ◌∙◌, ap, true, false, ◌==◌, List, ◌∷◌,
  arith, Bool-cases, inl, inr, has,
}
use base_exp.Mm.Mem.{Machine, pgsize, in_page, write, fill_page}
use base_exp.Mm.Kalloc.{bad_page}
use base_exp.Mm.Kalloc.FreeList.{pushed, pushed-IsFree}
use base_exp.Mm.Pte.{pte_v, has_flag, pte2pa, px, px-lt}
use base_exp.Mm.Vm.Table.{Role, other, table, IsTables, find, entry}
use base_exp.Mm.Vm.Paged.{Paged}
use base_exp.Mm.Vm.Leaf.{pte_of}

module _ {root : ℕ} {role : ℕ → Role} {word : ℕ → ℕ} (word' : ℕ → ℕ) (t : IsTables root role word)
    (same : (q l pre j : ℕ)
      → role q ≡ table l pre
      → j < 512
      → word' (q + 8 * j) ≡ word (q + 8 * j)) where
  pub IsTables-frame : IsTables root role word'
  IsTables-frame = record {
    top = t.top;
    page = t.page;
    child = λ q l pre j r hj on.
        let e = same q (suc l) pre j r hj in rw e (t.child q l pre j r hj (rw e at on));
  }

  pub entry-frame :
      (l q va pre : ℕ)
      → role q ≡ table l pre
      → (find word' l q va ≡ find word l q va) × (entry word' l q va ≡ entry word l q va)
  unfolding find entry
  entry-frame zero q va pre r = (refl, same q 0 pre (px 0 va) r (px-lt 0 va))
  entry-frame (suc l) q va pre r =
      elim (Bool-cases (has_flag (word (q + 8 * px (suc l) va)) pte_v)) [
        | inr off ↦ rw (same q (suc l) pre (px (suc l) va) r (px-lt (suc l) va), off) (refl, refl)
        | inl on ↦
            rw (same q (suc l) pre (px (suc l) va) r (px-lt (suc l) va), on)
              (entry-frame l (pte2pa (word (q + 8 * px (suc l) va))) va _
                (t.child q l pre (px (suc l) va) r (px-lt (suc l) va) on))
      ]

module _ {root : ℕ} {role : ℕ → Role} {m : Machine} {ps : List ℕ} (inv : Paged root role m ps)
    (p : ℕ) (ok : bad_page m p ≡ false) (unused : role p ≡ other) (new : has p ps ≡ false) where
  aligned : p % pgsize ≡ 0
  aligned = ground arith

  -- Outside the page itself `kfree` changes nothing.
  pub pushed-outside :
      (q a : ℕ) → q % pgsize ≡ 0 → q ≢ p → in_page q a ≡ true → (pushed m p).word a ≡ m.word a
  unfolding write fill_page
  pushed-outside q a al ne h =
      let al' = aligned in
      let x : (a == p) ≡ false = ground arith in
      let y : in_page p a ≡ false = ground arith in rw (x, y)

  pushed-tables :
      (q l pre j : ℕ)
      → role q ≡ table l pre
      → j < 512
      → (pushed m p).word (q + 8 * j) ≡ m.word (q + 8 * j)
  pushed-tables q l pre j r hj =
      let a = inv.tables.page q l pre r in
      let ne : q ≢ p = λ e. let z = sym unused ∙ ap role (sym e) ∙ r in absurd (cc) in
      pushed-outside q (q + 8 * j) a.0 ne (ground arith)

  pub pushed-Paged : Paged root role (pushed m p) (p ∷ ps)
  pushed-Paged = record {
    tables = IsTables-frame (pushed m p).word inv.tables pushed-tables;
    free = pushed-IsFree p inv.free ok new;
    apart = λ q mem. elim (Bool-cases (q == p)) [
      | inl e ↦ let f : q ≡ p = ground arith in ap role f ∙ unused
      | inr ne ↦ inv.apart q (ground arith)
    ];
    small = inv.small;
  }

  pub pte_of-pushed :
      (va : ℕ)
      → (find (pushed m p).word 2 root va ≡ find m.word 2 root va)
        × (pte_of (pushed m p) root va ≡ pte_of m root va)
  pte_of-pushed va =
      entry-frame (pushed m p).word inv.tables pushed-tables 2 root va 0 inv.tables.top
