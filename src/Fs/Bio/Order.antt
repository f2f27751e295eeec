-- ===== src/Fs/Bio/Order.antt =====
-- The list of kernel/fs/bio.c: how `binit` builds it, and which buffer of it `bget` recycles.
use base_exp.Base.{
  Option-cases, ℕ, zero, suc, ◌<◌, ◌≤◌, ◌≡◌, refl, ◌∙◌, ap, true, false, inl, inr, none, some, List,
  [], ◌∷◌, ◌++◌, length, arith, has, IsDistinct, done,
}
use base_exp.Fs.Bio.{Buf, Bcache, link_all, find_cached, find_unused, take_buf, nbuf, binit}
use base_exp.Fs.Bio.Invariant.{find_unused-some, find_unused-none}
use base_exp.Fs.Bio.Read.{IsWell}

link_all_out : (n j : ℕ) → n ≤ j → has j (link_all n []) ≡ false
unfolding link_all
link_all_out zero j h = refl
link_all_out (suc n) j h = ground (arith, link_all_out n j)

link_all_in : (n j : ℕ) → j < n → has j (link_all n []) ≡ true
unfolding link_all
link_all_in zero j h = absurd (omega arith)
link_all_in (suc n) j h = ground (arith, link_all_in n j)

link_all-IsDistinct : (n : ℕ) → IsDistinct (link_all n [])
unfolding link_all
link_all-IsDistinct zero = tt
link_all-IsDistinct (suc n) = (link_all_out n n (omega arith), link_all-IsDistinct n)

length-link_all : (n : ℕ) → length (link_all n []) ≡ n
unfolding link_all
length-link_all zero = refl
length-link_all (suc n) = ap suc (length-link_all n)

-- After `binit` the invariant holds, the list has each of the NBUF buffers once, and none is valid,
-- locked or in use.
pub binit-IsWell :
    (disk : ℕ → ℕ → List ℕ)
    → IsWell (binit disk)
      × (length (binit disk).order ≡ nbuf)
      × ((i : ℕ)
          → i < nbuf
          → (has i (binit disk).order ≡ true)
            × (((binit disk).buf i).refcnt ≡ 0)
            × (((binit disk).buf i).locked ≡ false)
            × (((binit disk).buf i).valid ≡ false))
unfolding binit
binit-IsWell disk = (
  record {
    distinct = link_all-IsDistinct nbuf;
    unique = λ i j memi memj pos. absurd (omega arith);
    counted = λ i mem l. absurd (cc);
    coherent = λ i mem pos. absurd (omega arith);
  },
  length-link_all nbuf,
  λ i within. (link_all_in nbuf i within, refl, refl, refl),
)

-- `i` is in the list, and every buffer behind it is in use.
abbrev pub IsLeast : (ℕ → Buf) → ℕ → List ℕ → Type 0
IsLeast buf i order =
    (before : List ℕ) × (after : List ℕ) × (order ≡ before ++ i ∷ after)
    × ((j : ℕ) → has j after ≡ true → 0 < (buf j).refcnt)

find_unused-IsLeast :
    (buf : ℕ → Buf) (order : List ℕ) (i : ℕ) → find_unused buf order ≡ some i → IsLeast buf i order
unfolding find_unused
find_unused-IsLeast buf [] i h = absurd (cc)
find_unused-IsLeast buf (k ∷ ks) i h = elim (Option-cases (find_unused buf ks)) [
  | inr (j, e) ↦
      let same : j ≡ i = ground (arith, e) in
      let (before, after, split, behind) = find_unused-IsLeast buf ks i (e ∙ ap some same) in
      (k ∷ before, after, ap (λ z. k ∷ z) split, behind)
  | inl e ↦
      let same : k ≡ i = ground (arith, e) in
      ([], ks, ap (λ z. z ∷ ks) same, λ j mem. find_unused-none buf j ks e mem)
]

-- For a block that is not cached, `bget` takes the least recently used buffer that is not in use.
pub take_buf-IsLeast :
    (dev blockno i : ℕ) (c t : Bcache)
    → find_cached c.buf dev blockno c.order ≡ none
    → take_buf dev blockno c ≡ done i t
    → IsLeast c.buf i c.order × ((c.buf i).refcnt ≡ 0)
unfolding take_buf
take_buf-IsLeast dev blockno i c t absent ran = elim (Option-cases (find_unused c.buf c.order)) [
  | inl full ↦ absurd (ground (arith, ran, absent, full))
  | inr (j, found) ↦
      let same : j ≡ i = ground (arith, ran, absent, found) in
      (
        find_unused-IsLeast c.buf c.order i (found ∙ ap some same),
        (find_unused-some c.buf i c.order (found ∙ ap some same)).1,
      )
]
