-- ===== src/Fs/Bio/Release.antt =====
-- `bwrite` and `brelse` of kernel/fs/bio.c.
use base_exp.Base.{
  ℕ, ◌+◌, ◌-◌, ◌%◌, ◌^◌, ◌<◌, ◌≡◌, ◌≢◌, refl, sym, ◌∙◌, true, false, ◌&&◌, ◌==◌, Bool-cases, inl,
  inr, List, [], ◌∷◌, arith, has, IsDistinct, Returns,
}
use base_exp.Fs.Bio.{Buf, Bcache, set_buf, holding_buf, unlink_buf, bwrite, brelse}
use base_exp.Fs.Bio.Invariant.{IsCache, set_buf_same, IsCache-set_buf}
use base_exp.Fs.Bio.Read.{IsWell}

has-unlink_buf : (i j : ℕ) (order : List ℕ) → has j (unlink_buf i order) ≡ true → has j order ≡ true
unfolding unlink_buf
has-unlink_buf i j [] h = h
has-unlink_buf i j (k ∷ ks) h = ground (arith, has-unlink_buf i j ks)

unlink_buf_out :
    (i j : ℕ) (order : List ℕ) → has j order ≡ false → has j (unlink_buf i order) ≡ false
unfolding unlink_buf
unlink_buf_out i j [] h = h
unlink_buf_out i j (k ∷ ks) h = ground (arith, unlink_buf_out i j ks)

unlink_buf_self : (i : ℕ) (order : List ℕ) → IsDistinct order → has i (unlink_buf i order) ≡ false
unfolding unlink_buf
unlink_buf_self i [] d = refl
unlink_buf_self i (k ∷ ks) (out, d) = ground (arith, unlink_buf_self i ks d)

unlink_buf-IsDistinct :
    (i : ℕ) (order : List ℕ) → IsDistinct order → IsDistinct (unlink_buf i order)
unfolding unlink_buf
unlink_buf-IsDistinct i [] d = d
unlink_buf-IsDistinct i (k ∷ ks) (out, d) = elim (Bool-cases (i == k)) [
  | inl e ↦ rw e d
  | inr ne ↦ rw ne (unlink_buf_out i k ks out, unlink_buf-IsDistinct i ks d)
]

has_front :
    (i j : ℕ) (order : List ℕ) → has i order ≡ true → has j (i ∷ unlink_buf i order) ≡ has j order
unfolding unlink_buf
has_front i j [] h = absurd (cc)
has_front i j (k ∷ ks) h = ground (arith, has_front i j ks)

-- A list with the same buffers in it.
reorder :
    (buf : ℕ → Buf) (order order' : List ℕ) (disk : ℕ → ℕ → List ℕ)
    → IsCache buf order disk
    → IsDistinct order'
    → ((j : ℕ) → has j order' ≡ true → has j order ≡ true)
    → IsCache buf order' disk
reorder buf order order' disk inv d within = record {
  distinct = d;
  unique = λ i j memi memj. inv.unique i j (within i memi) (within j memj);
  counted = λ i mem. inv.counted i (within i mem);
  coherent = λ i mem. inv.coherent i (within i mem);
}

-- After `brelse`: the invariant, the same buffers in the list, buffer `i` unlocked and counted once
-- less, and in front of the list if no process is left that counts on it.
pub record IsReleased (c : Bcache) (i : ℕ) (t : Bcache) : Type 0 where
  pub well : IsWell t
  pub same : (j : ℕ) → has j t.order ≡ has j c.order
  pub unlocked : (t.buf i).locked ≡ false
  pub count : (t.buf i).refcnt + 1 ≡ (c.buf i).refcnt
  pub front : (c.buf i).refcnt ≡ 1 → t.order ≡ i ∷ unlink_buf i c.order
  pub kept : 1 < (c.buf i).refcnt → t.order ≡ c.order
  pub block : ((t.buf i).dev ≡ (c.buf i).dev) × ((t.buf i).blockno ≡ (c.buf i).blockno)

module _ (c : Bcache) (i : ℕ) (inv : IsWell c) (mem : has i c.order ≡ true)
    (clean : (c.buf i).valid ≡ true → (c.buf i).contents ≡ c.disk (c.buf i).dev (c.buf i).blockno)
    (few : 0 < (c.buf i).refcnt) (fits : (c.buf i).refcnt < 2 ^ 32) where
  abbrev left : ℕ
  left = ((c.buf i).refcnt + 2 ^ 32 - 1) % 2 ^ 32

  left_lem : left + 1 ≡ (c.buf i).refcnt
  left_lem = ground arith

  freed : Buf
  freed = record (c.buf i) { locked = false; pid = 0; refcnt = left }

  released : (order : List ℕ) → Bcache
  released order = record c { buf = set_buf c.buf i freed; order = order }

  freed-IsWell : IsWell (released c.order)
  unfolding released freed
  freed-IsWell = IsCache-set_buf c.buf c.order c.disk i freed inv record {
    alone = λ j memj pos d n. inv.unique i j mem memj pos d n;
    counted = λ l. absurd (cc);
    coherent = λ _ v _. clean v;
  }

  moved-IsWell : IsWell (released (i ∷ unlink_buf i c.order))
  unfolding released
  moved-IsWell =
      reorder (set_buf c.buf i freed) c.order (i ∷ unlink_buf i c.order) c.disk
        (unfold released in freed-IsWell)
        (unlink_buf_self i c.order inv.distinct, unlink_buf-IsDistinct i c.order inv.distinct)
        λ j h. sym (has_front i j c.order mem) ∙ h

  released-IsReleased :
      (order : List ℕ)
      → IsWell (released order)
      → ((j : ℕ) → has j order ≡ has j c.order)
      → ((c.buf i).refcnt ≡ 1 → order ≡ i ∷ unlink_buf i c.order)
      → (1 < (c.buf i).refcnt → order ≡ c.order)
      → IsReleased c i (released order)
  unfolding released freed
  released-IsReleased order well same front kept = record {
    well = well;
    same = same;
    unlocked = rw (set_buf_same c.buf i freed) refl;
    count = rw (set_buf_same c.buf i freed) left_lem;
    front = front;
    kept = kept;
    block = (rw (set_buf_same c.buf i freed) refl, rw (set_buf_same c.buf i freed) refl);
  }

  -- With one count left the buffer goes to the front of the list.
  brelse_run :
      (me : ℕ) → holding_buf c me i ≡ true → Returns (λ _ t. IsReleased c i t) (brelse me i c)
  unfolding brelse released freed
  brelse_run me holder = elim (Bool-cases (left == 0)) [
    | inl z ↦
        rw (holder, z)
          (released-IsReleased (i ∷ unlink_buf i c.order) moved-IsWell
            (λ j. has_front i j c.order mem) (λ _. refl) (λ h. absurd (ground (arith, left_lem))))
    | inr nz ↦
        rw (holder, nz)
          (released-IsReleased c.order freed-IsWell (λ j. refl)
            (λ h. absurd (ground (arith, left_lem))) (λ _. refl))
  ]

-- `brelse` by the holder of a buffer of the list returns: the invariant holds again, the list has
-- the same buffers, and buffer `i` is unlocked and counted once less; it is in front of the list if
-- that was the last count, and where it was otherwise. The conditions are the invariant, that the
-- contents, if valid, are those on the disk, and that the count is between 1 and its maximum.
pub brelse-IsReleased :
    (me i : ℕ) (c : Bcache)
    → IsWell c
    → has i c.order ≡ true
    → holding_buf c me i ≡ true
    → ((c.buf i).valid ≡ true → (c.buf i).contents ≡ c.disk (c.buf i).dev (c.buf i).blockno)
    → 0 < (c.buf i).refcnt
    → (c.buf i).refcnt < 2 ^ 32
    → Returns (λ _ t. IsReleased c i t) (brelse me i c)
brelse-IsReleased me i c inv mem holder clean few fits =
    brelse_run c i inv mem clean few fits me holder

both_of : (a b c d : ℕ) → (a == b && c == d) ≡ true → (a ≡ b) × (c ≡ d)
both_of a b c d h = (ground arith, ground arith)

-- A buffer that no process has locked is for another block than one that a process has.
other_block :
    (me i j : ℕ) (c : Bcache)
    → IsWell c
    → has i c.order ≡ true
    → has j c.order ≡ true
    → 0 < (c.buf j).dev
    → holding_buf c me i ≡ true
    → (c.buf j).locked ≡ false
    → ((c.buf j).dev == (c.buf i).dev && (c.buf j).blockno == (c.buf i).blockno) ≡ false
other_block me i j c inv mem memj pos holder free =
    elim (Bool-cases ((c.buf j).dev == (c.buf i).dev && (c.buf j).blockno == (c.buf i).blockno)) [
      | inr miss ↦ miss
      | inl hit ↦
          let (d, n) =
            both_of (c.buf j).dev (c.buf i).dev (c.buf j).blockno (c.buf i).blockno hit in
          let e : j ≡ i = inv.unique j i memj mem pos d n in
          let busy : (c.buf i).locked ≡ true = ground arith in absurd (cc)
    ]

-- `bwrite` by the holder of a buffer of the list returns: the disk has the buffer's contents at its
-- block and is as before elsewhere, the invariant holds, and the cache is as before. The conditions
-- are the invariant and a device other than 0.
pub bwrite-IsWell :
    (me i : ℕ) (c : Bcache)
    → IsWell c
    → has i c.order ≡ true
    → 0 < (c.buf i).dev
    → holding_buf c me i ≡ true
    → Returns
        (λ _ t.
          IsWell t
          × (t.disk (c.buf i).dev (c.buf i).blockno ≡ (c.buf i).contents)
          × ((d n : ℕ) → ((c.buf i).dev ≡ d → (c.buf i).blockno ≢ n) → t.disk d n ≡ c.disk d n)
          × (t.buf ≡ c.buf)
          × (t.order ≡ c.order))
        (bwrite me i c)
unfolding bwrite
bwrite-IsWell me i c inv mem pos holder = rw holder (
  record {
    distinct = inv.distinct;
    unique = inv.unique;
    counted = inv.counted;
    coherent = λ j memj posj v free.
        rw (other_block me i j c inv mem memj posj holder free) (inv.coherent j memj posj v free);
  },
  ground arith,
  λ d n other. ground (arith, other),
  refl,
  refl,
)
