-- ===== src/Fs/Bio/Invariant.antt =====
-- The invariant of the buffer cache of kernel/fs/bio.c, and what its walks of the list find.
use base_exp.Base.{
  ℕ, ◌<◌, ◌≡◌, ◌≢◌, refl, sym, true, false, ◌==◌, Bool-cases, inl, inr, none, some, List, [], ◌∷◌,
  arith, has, IsDistinct,
}
use mathlib.Core.Path.{subst}
use base_exp.Fs.Bio.{Buf, set_buf, find_cached, find_unused}

-- The list has no buffer twice; no two buffers of it hold the same block of a device; a buffer that
-- a process has locked is counted; and a valid buffer that no process has locked equals its block
-- on the disk. Device 0 is that of the buffers that were never used.
pub record IsCache (buf : ℕ → Buf) (order : List ℕ) (disk : ℕ → ℕ → List ℕ) : Type 0 where
  pub distinct : IsDistinct order
  pub unique :
      (i j : ℕ)
      → has i order ≡ true
      → has j order ≡ true
      → 0 < (buf i).dev
      → (buf i).dev ≡ (buf j).dev
      → (buf i).blockno ≡ (buf j).blockno
      → i ≡ j
  pub counted : (i : ℕ) → has i order ≡ true → (buf i).locked ≡ true → 0 < (buf i).refcnt
  pub coherent :
      (i : ℕ)
      → has i order ≡ true
      → 0 < (buf i).dev
      → (buf i).valid ≡ true
      → (buf i).locked ≡ false
      → (buf i).contents ≡ disk (buf i).dev (buf i).blockno

pub set_buf_same : (buf : ℕ → Buf) (i : ℕ) (b : Buf) → set_buf buf i b i ≡ b
set_buf_same buf i b = ground arith

pub set_buf_other :
    (buf : ℕ → Buf) (i j : ℕ) (b : Buf) → (j == i) ≡ false → set_buf buf i b j ≡ buf j
set_buf_other buf i j b ne = rw ne refl

-- What the new contents of buffer `i` must satisfy for the invariant to be kept.
pub record IsFit (buf : ℕ → Buf) (order : List ℕ) (disk : ℕ → ℕ → List ℕ) (i : ℕ) (b : Buf)
    : Type 0 where
  pub alone :
      (j : ℕ)
      → has j order ≡ true
      → 0 < b.dev
      → b.dev ≡ (buf j).dev
      → b.blockno ≡ (buf j).blockno
      → i ≡ j
  pub counted : b.locked ≡ true → 0 < b.refcnt
  pub coherent : 0 < b.dev → b.valid ≡ true → b.locked ≡ false → b.contents ≡ disk b.dev b.blockno

module _ (buf : ℕ → Buf) (order : List ℕ) (disk : ℕ → ℕ → List ℕ) (i : ℕ) (b : Buf) where
  at_buf :
      (P : ℕ → Buf → Type 0) → P i b → ((j : ℕ) → P j (buf j)) → (j : ℕ) → P j (set_buf buf i b j)
  at_buf P here there j = elim (Bool-cases (j == i)) [
    | inl e ↦
        let same : i ≡ j = ground arith in
        subst (λ k. P k (set_buf buf i b k)) same (subst (P i) (sym (set_buf_same buf i b)) here)
    | inr ne ↦ subst (P j) (sym (set_buf_other buf i j b ne)) (there j)
  ]

  pub IsCache-set_buf :
      IsCache buf order disk → IsFit buf order disk i b → IsCache (set_buf buf i b) order disk
  IsCache-set_buf inv fit = record {
    distinct = inv.distinct;
    unique = λ j k.
        at_buf
          (λ j bj.
            has j order ≡ true
            → has k order ≡ true
            → 0 < bj.dev
            → bj.dev ≡ (set_buf buf i b k).dev
            → bj.blockno ≡ (set_buf buf i b k).blockno
            → j ≡ k)
          (at_buf
            (λ k bk.
              has i order ≡ true
              → has k order ≡ true
              → 0 < b.dev
              → b.dev ≡ bk.dev
              → b.blockno ≡ bk.blockno
              → i ≡ k)
            (λ _ _ _ _ _. refl) (λ k _ mem pos d n. fit.alone k mem pos d n) k)
          (λ j.
            at_buf
              (λ k bk.
                has j order ≡ true
                → has k order ≡ true
                → 0 < (buf j).dev
                → (buf j).dev ≡ bk.dev
                → (buf j).blockno ≡ bk.blockno
                → j ≡ k)
              (λ mem _ pos d n. sym (fit.alone j mem (subst (λ z. 0 < z) d pos) (sym d) (sym n)))
              (λ k. inv.unique j k) k)
          j;
    counted =
        at_buf (λ j bj. has j order ≡ true → bj.locked ≡ true → 0 < bj.refcnt) (λ _. fit.counted)
          inv.counted;
    coherent =
        at_buf
          (λ j bj.
            has j order ≡ true
            → 0 < bj.dev
            → bj.valid ≡ true
            → bj.locked ≡ false
            → bj.contents ≡ disk bj.dev bj.blockno)
          (λ _. fit.coherent) inv.coherent;
  }

pub find_cached-some :
    (buf : ℕ → Buf) (dev blockno i : ℕ) (order : List ℕ)
    → find_cached buf dev blockno order ≡ some i
    → (has i order ≡ true) × ((buf i).dev ≡ dev) × ((buf i).blockno ≡ blockno)
unfolding find_cached
find_cached-some buf dev blockno i [] h = absurd (cc)
find_cached-some buf dev blockno i (j ∷ js) h =
    ground (arith, find_cached-some buf dev blockno i js)

pub find_cached-none :
    (buf : ℕ → Buf) (dev blockno i : ℕ) (order : List ℕ)
    → find_cached buf dev blockno order ≡ none
    → has i order ≡ true
    → (buf i).dev ≡ dev
    → (buf i).blockno ≢ blockno
unfolding find_cached
find_cached-none buf dev blockno i [] h mem d = absurd (cc)
find_cached-none buf dev blockno i (j ∷ js) h mem d =
    ground (arith, find_cached-none buf dev blockno i js)

pub find_unused-some :
    (buf : ℕ → Buf) (i : ℕ) (order : List ℕ)
    → find_unused buf order ≡ some i
    → (has i order ≡ true) × ((buf i).refcnt ≡ 0)
unfolding find_unused
find_unused-some buf i [] h = absurd (cc)
find_unused-some buf i (j ∷ js) h = ground (arith, find_unused-some buf i js)

pub find_unused-none :
    (buf : ℕ → Buf) (i : ℕ) (order : List ℕ)
    → find_unused buf order ≡ none
    → has i order ≡ true
    → 0 < (buf i).refcnt
unfolding find_unused
find_unused-none buf i [] h mem = absurd (cc)
find_unused-none buf i (j ∷ js) h mem = ground (arith, find_unused-none buf i js)
