-- ===== src/Mm/Kalloc/FreeList.antt =====
-- The list of free pages as a value: which pages it holds, and what each operation does to it.
use base_exp.Base.{
  ℕ, ◌%◌, ◌<◌, ◌≤◌, ◌≡◌, ◌≢◌, refl, sym, ap, true, false, ◌==◌, List, [], ◌∷◌, arith, done, Returns,
  Returns-mono, has, has_ne, Bool-cases, inl, inr,
}
use mathlib.Core.Path.{subst}
use base_exp.Mm.Mem.{Machine, pgsize, in_page, write, fill_page}
use base_exp.Mm.Kalloc.{bad_page, kfree, kalloc}

-- From `p` the first words of the pages lead through `ps`, and nowhere back.
abbrev pub Chain : (ℕ → ℕ) → ℕ → List ℕ → Type 0
Chain word p [] = p ≡ 0
Chain word p (q ∷ qs) = (p ≡ q) × (q ≢ 0) × (has q qs ≡ false) × Chain word (word q) qs

-- Each page of the list is one that `kfree` takes.
abbrev pub AllocatableAll : ℕ → ℕ → List ℕ → Type 0
AllocatableAll lo hi [] = Unit {0}
AllocatableAll lo hi (q ∷ qs) = (q % pgsize ≡ 0) × (lo ≤ q) × (q < hi) × AllocatableAll lo hi qs

pub record IsFree (m : Machine) (ps : List ℕ) : Type 0 where
  pub chain : Chain m.word m.freelist ps
  pub pages : AllocatableAll m.kernel_end m.phys_top ps
  pub above_zero : 0 < m.kernel_end

-- A page's first word is outside every other page.
pub in_page_other : (p q : ℕ) → p % pgsize ≡ 0 → q % pgsize ≡ 0 → p ≢ q → in_page p q ≡ false
in_page_other p q hp hq ne = ground arith

-- A list survives any change that spares the first words of its pages.
pub Chain-frame :
    {word word' : ℕ → ℕ} (p : ℕ) (ps : List ℕ)
    → ((q : ℕ) → has q ps ≡ true → word' q ≡ word q)
    → Chain word p ps
    → Chain word' p ps
Chain-frame p [] same c = c
Chain-frame {word} {word'} p (q ∷ qs) same (e, ne, out, rest) =
    let head : word' q ≡ word q = same q (ground arith) in
    (e, ne, out, rw head (Chain-frame (word q) qs (λ r h. same r (ground (arith, h))) rest))

pub aligned_of_has :
    (q : ℕ) {lo hi : ℕ} (ps : List ℕ)
    → has q ps ≡ true
    → AllocatableAll lo hi ps
    → (q % pgsize ≡ 0) × (lo ≤ q) × (q < hi)
aligned_of_has q [] h a = absurd (cc)
aligned_of_has q (p ∷ ps) h (al, low, high, rest) = elim (Bool-cases (q == p)) [
  | inl same ↦ ground arith
  | inr other ↦ aligned_of_has q ps (ground arith) rest
]

pub IsFree-frame :
    {m : Machine} {word' : ℕ → ℕ} {ps : List ℕ}
    → ((q : ℕ) → has q ps ≡ true → word' q ≡ m.word q)
    → IsFree m ps
    → IsFree (record m { word = word' }) ps
IsFree-frame {m} {ps} same f = record {
  chain = Chain-frame m.freelist ps same f.chain;
  pages = f.pages;
  above_zero = f.above_zero;
}

-- The machine once the first page is taken from the list.
abbrev pub popped : Machine → Machine
popped m = record m { word = fill_page m.word m.freelist 5; freelist = m.word m.freelist }

pub kalloc-popped : (m : Machine) → m.freelist ≢ 0 → kalloc m ≡ done m.freelist (popped m)
unfolding kalloc
kalloc-popped m ne = ground arith

pub popped-IsFree : {m : Machine} {p : ℕ} {ps : List ℕ} → IsFree m (p ∷ ps) → IsFree (popped m) ps
unfolding fill_page
popped-IsFree {m} {p} {ps} f = record {
  chain =
      Chain-frame (m.word m.freelist) ps spared
        (subst (λ z. Chain m.word (m.word z) ps) (sym f.chain.0) f.chain.3);
  pages = f.pages.3;
  above_zero = f.above_zero;
}
  where
    spared : (q : ℕ) → has q ps ≡ true → (popped m).word q ≡ m.word q
    spared q mem =
        let a = aligned_of_has q ps mem f.pages.3 in
        let ne : p ≢ q = has_ne p q ps f.chain.2 mem in ground (arith, in_page_other m.freelist q)

-- `kalloc` with a free page hands out the first of them, filled with fives; the others stay free and
-- no word outside the page changes.
pub kalloc-IsFree :
    {m : Machine} {p : ℕ} {ps : List ℕ}
    → IsFree m (p ∷ ps)
    → Returns
        (λ r m'. (r ≡ p) × IsFree m' ps × ((a : ℕ) → m'.word a ≡ fill_page m.word p 5 a))
        (kalloc m)
kalloc-IsFree {m} {p} {ps} f =
    rw (kalloc-popped m (omega arith))
      (f.chain.0, popped-IsFree f, λ a. ap (λ z. fill_page m.word z 5 a) f.chain.0)

-- `kalloc` with no free page returns 0 and changes nothing.
pub kalloc-nil : {m : Machine} → IsFree m [] → kalloc m ≡ done 0 m
unfolding kalloc
kalloc-nil f = ground arith

-- The machine once a page is given back.
abbrev pub pushed : Machine → ℕ → Machine
pushed m p = record m { word = write (fill_page m.word p 1) p m.freelist; freelist = p }

pub kfree-pushed : (m : Machine) (p : ℕ) → bad_page m p ≡ false → kfree p m ≡ done tt (pushed m p)
unfolding kfree
kfree-pushed m p h = rw h

pub pushed-IsFree :
    {m : Machine} {ps : List ℕ} (p : ℕ)
    → IsFree m ps
    → bad_page m p ≡ false
    → has p ps ≡ false
    → IsFree (pushed m p) (p ∷ ps)
unfolding fill_page write
pushed-IsFree {m} {ps} p f ok new = record {
  chain = (refl, ground arith, new, rw first (Chain-frame m.freelist ps spared f.chain));
  pages = ground arith;
  above_zero = f.above_zero;
}
  where
    first : (pushed m p).word p ≡ m.freelist
    first = ground arith

    spared : (q : ℕ) → has q ps ≡ true → (pushed m p).word q ≡ m.word q
    spared q mem =
        let a = aligned_of_has q ps mem f.pages in
        let ne : p ≢ q = has_ne p q ps new mem in ground (arith, in_page_other p q)

-- `kfree` of a page that it accepts and that is not free puts it in front of the free list, fills
-- the rest of it with ones, and changes no word outside the page; the next `kalloc` returns it and
-- leaves the free list as it was.
pub kfree-IsFree :
    {m : Machine} {ps : List ℕ} (p : ℕ)
    → IsFree m ps
    → bad_page m p ≡ false
    → has p ps ≡ false
    → Returns
        (λ _ m'.
          IsFree m' (p ∷ ps)
          × ((a : ℕ) → (a == p) ≡ false → m'.word a ≡ fill_page m.word p 1 a)
          × Returns (λ q m''. (q ≡ p) × IsFree m'' ps) (kalloc m'))
        (kfree p m)
kfree-IsFree {m} p f ok new =
    let g = pushed-IsFree p f ok new in
    rw (kfree-pushed m p ok) (
      g,
      λ a ne. unfold write in rw ne,
      Returns-mono _ (λ q m''. (q ≡ p) × IsFree m'' _) _ (kalloc-IsFree g) λ q m'' r. (r.0, r.1),
    )
