-- ===== src/Fs/Bio/Read.antt =====
-- `bget` and `bread` of kernel/fs/bio.c: which buffer a block gets, and what it holds then.
use base_exp.Base.{
  Option-cases, ℕ, ◌+◌, ◌%◌, ◌^◌, ◌<◌, ◌≡◌, ◌≢◌, ◌⊎◌, refl, sym, ◌∙◌, Bool, true, false, Bool-cases,
  inl, inr, none, some, List, arith, has, done, panic, asleep,
}
use mathlib.Core.Path.{subst}
use base_exp.Fs.Bio.{
  Buf, Bcache, set_buf, find_cached, find_unused, take_buf, acquire_buf, bget, fill_buf, bread,
}
use base_exp.Fs.Bio.Invariant.{
  IsCache, set_buf_same, IsCache-set_buf, find_cached-some, find_cached-none, find_unused-some,
  find_unused-none,
}

abbrev pub IsWell : Bcache → Type 0
IsWell c = IsCache c.buf c.order c.disk

-- Buffer `i` is in the list, stands for the block and is counted.
pub record IsFor (dev blockno i : ℕ) (c : Bcache) : Type 0 where
  pub listed : has i c.order ≡ true
  pub device : (c.buf i).dev ≡ dev
  pub block : (c.buf i).blockno ≡ blockno
  pub used : 0 < (c.buf i).refcnt

abbrev pub IsTaken : (dev blockno : ℕ) → Bcache → ℕ → Bcache → Type 0
IsTaken dev blockno c i t =
    IsWell t × IsFor dev blockno i t × (t.order ≡ c.order) × (t.disk ≡ c.disk)

-- No buffer of the list has the block, and each is in use.
abbrev pub IsFull : (dev blockno : ℕ) → Bcache → Type 0
IsFull dev blockno c =
    (i : ℕ)
    → has i c.order ≡ true
    → (0 < (c.buf i).refcnt) × ((c.buf i).dev ≡ dev → (c.buf i).blockno ≢ blockno)

module _ (dev blockno : ℕ) (c : Bcache) (inv : IsWell c) where
  hit :
      (i : ℕ)
      → (c.buf i).refcnt + 1 < 2 ^ 32
      → find_cached c.buf dev blockno c.order ≡ some i
      → (t : Bcache) × (take_buf dev blockno c ≡ done i t) × IsTaken dev blockno c i t
  unfolding take_buf
  hit i small found =
      let (mem, d, n) = find_cached-some c.buf dev blockno i c.order found in
      let b : Buf = record (c.buf i) { refcnt = ((c.buf i).refcnt + 1) % 2 ^ 32 } in
      let t : Bcache = record c { buf = set_buf c.buf i b } in
      let same = set_buf_same c.buf i b in
      (
        t,
        rw (found, take_buf) refl,
        (
          IsCache-set_buf c.buf c.order c.disk i b inv record {
            alone = λ j memj pos dj nj. inv.unique i j mem memj pos dj nj;
            counted = λ l. ground arith;
            coherent = inv.coherent i mem;
          },
          record {
            listed = mem;
            device = rw same d;
            block = rw same n;
            used = rw same (ground arith);
          },
          refl,
          refl,
        ),
      )

  miss :
      (i : ℕ)
      → find_cached c.buf dev blockno c.order ≡ none
      → find_unused c.buf c.order ≡ some i
      → (t : Bcache) × (take_buf dev blockno c ≡ done i t) × IsTaken dev blockno c i t
  unfolding take_buf
  miss i absent found =
      let (mem, unused) = find_unused-some c.buf i c.order found in
      let b : Buf = record (c.buf i) { dev = dev; blockno = blockno; valid = false; refcnt = 1 } in
      let t : Bcache = record c { buf = set_buf c.buf i b } in
      let same = set_buf_same c.buf i b in
      (
        t,
        rw (absent, found, take_buf) refl,
        (
          IsCache-set_buf c.buf c.order c.disk i b inv record {
            alone = λ j memj pos dj nj.
                absurd (find_cached-none c.buf dev blockno j c.order absent memj (sym dj) (sym nj));
            counted = λ l. omega arith;
            coherent = λ _ v _. absurd (cc);
          },
          record {
            listed = mem;
            device = rw same refl;
            block = rw same refl;
            used = rw same (omega arith);
          },
          refl,
          refl,
        ),
      )

-- The part of `bget` under the lock keeps the invariant: it counts the buffer that has the block,
-- or gives it an unused one; it panics only if every buffer is in use and none has the block. The
-- condition is that no count is at its maximum.
pub take_buf-IsTaken :
    (dev blockno : ℕ) (c : Bcache)
    → IsWell c
    → ((i : ℕ) → (c.buf i).refcnt + 1 < 2 ^ 32)
    → ((i : ℕ) × (t : Bcache) × (take_buf dev blockno c ≡ done i t) × IsTaken dev blockno c i t)
      ⊎ ((take_buf dev blockno c ≡ panic "bget: no buffers") × IsFull dev blockno c)
unfolding take_buf
take_buf-IsTaken dev blockno c inv small =
    elim (Option-cases (find_cached c.buf dev blockno c.order)) [
      | inr (i, found) ↦
          let (t, ran, taken) = hit dev blockno c inv i (small i) found in inl (i, t, ran, taken)
      | inl absent ↦ elim (Option-cases (find_unused c.buf c.order)) [
        | inr (i, found) ↦
            let (t, ran, taken) = miss dev blockno c inv i absent found in inl (i, t, ran, taken)
        | inl full ↦ inr (
          rw (absent, full, take_buf) refl,
          λ i mem. (
            find_unused-none c.buf i c.order full mem,
            find_cached-none c.buf dev blockno i c.order absent mem,
          ),
        )
      ]
    ]

-- Buffer `i` is locked by the process, for the block, and holds what the disk has there.
abbrev pub IsRead : (me dev blockno : ℕ) → Bcache → ℕ → Bcache → Type 0
IsRead me dev blockno c i t =
    IsTaken dev blockno c i t
    × ((t.buf i).locked ≡ true)
    × ((t.buf i).pid ≡ me)
    × ((t.buf i).valid ≡ true)
    × ((t.buf i).contents ≡ c.disk dev blockno)

module _ (me dev blockno i : ℕ) (c s : Bcache) (taken : IsTaken dev blockno c i s) where
  -- The holder may change a buffer's contents.
  held : Bool → List ℕ → Buf
  held valid contents = record (s.buf i) {
    locked = true;
    pid = me;
    valid = valid;
    contents = contents;
  }

  holding : Bool → List ℕ → Bcache
  holding valid contents = record s { buf = set_buf s.buf i (held valid contents) }

  holding-IsTaken :
      (valid : Bool) (contents : List ℕ) → IsTaken dev blockno c i (holding valid contents)
  unfolding holding held
  holding-IsTaken valid contents =
      let (inv, for, order, disk) = taken in
      let same = set_buf_same s.buf i (held valid contents) in
      (
        IsCache-set_buf s.buf s.order s.disk i (held valid contents) inv record {
          alone = λ j mem pos d n. inv.unique i j for.listed mem pos d n;
          counted = λ _. for.used;
          coherent = λ _ _ u. absurd (cc);
        },
        record {
          listed = for.listed;
          device = rw same for.device;
          block = rw same for.block;
          used = rw same for.used;
        },
        order,
        disk,
      )

  holding-IsRead :
      (contents : List ℕ)
      → contents ≡ c.disk dev blockno
      → IsRead me dev blockno c i (holding true contents)
  unfolding holding held
  holding-IsRead contents same = (
    holding-IsTaken true contents,
    rw (set_buf_same s.buf i (held true contents)) refl,
    rw (set_buf_same s.buf i (held true contents)) refl,
    rw (set_buf_same s.buf i (held true contents)) refl,
    rw (set_buf_same s.buf i (held true contents)) same,
  )

disk_block :
    (dev blockno i : ℕ) (c s : Bcache)
    → IsTaken dev blockno c i s
    → s.disk (s.buf i).dev (s.buf i).blockno ≡ c.disk dev blockno
disk_block dev blockno i c s (inv, for, order, disk) = rw (for.device, for.block, disk) refl

fill_buf-IsRead :
    (me dev blockno i : ℕ) (c s : Bcache)
    → IsTaken dev blockno c i s
    → (s.buf i).locked ≡ true
    → (s.buf i).pid ≡ me
    → ((s.buf i).valid ≡ true → (s.buf i).contents ≡ c.disk dev blockno)
    → (t : Bcache) × (fill_buf i s ≡ done tt t) × IsRead me dev blockno c i t
unfolding fill_buf
fill_buf-IsRead me dev blockno i c s taken locked pid right = elim (Bool-cases (s.buf i).valid) [
  | inl v ↦ (s, rw (v, fill_buf) refl, (taken, locked, pid, v, right v))
  | inr nv ↦
      let block = s.disk (s.buf i).dev (s.buf i).blockno in
      let b : Buf = record (s.buf i) { contents = block; valid = true } in
      let e : held me dev blockno i c s taken true block ≡ b =
        unfold held in rw (locked, pid) refl in
      let t : Bcache = record s { buf = set_buf s.buf i b } in
      (
        t,
        rw (nv, fill_buf) refl,
        subst (λ z. IsRead me dev blockno c i (record s { buf = set_buf s.buf i z })) e
            (unfold holding in
              holding-IsRead me dev blockno i c s taken block (disk_block dev blockno i c s taken)),
      )
]

module _ (me dev blockno i : ℕ) (c s : Bcache) (taken : IsTaken dev blockno c i s)
    (pos : 0 < dev) where
  lock_and_fill :
      (ran : take_buf dev blockno c ≡ done i s)
      → (s.buf i).locked ≡ false
      → (t : Bcache) × (bread me dev blockno c ≡ done i t) × IsRead me dev blockno c i t
  unfolding bread bget acquire_buf holding held
  lock_and_fill ran free =
      let (inv, for, order, disk) = taken in
      let cs = (s.buf i).contents in
      let v = (s.buf i).valid in
      let a = holding me dev blockno i c s taken v cs in
      let same = set_buf_same s.buf i (held me dev blockno i c s taken v cs) in
      let right : v ≡ true → cs ≡ c.disk dev blockno = λ valid.
        inv.coherent i for.listed (subst (λ z. 0 < z) (sym for.device) pos) valid free
        ∙ disk_block dev blockno i c s taken in
      let (t, filled, read) =
        fill_buf-IsRead me dev blockno i c a (holding-IsTaken me dev blockno i c s taken v cs)
          (rw same refl) (rw same refl) (rw same right) in
      (t, rw (ran, free, filled) refl, read)

  wait :
      (ran : take_buf dev blockno c ≡ done i s)
      → (s.buf i).locked ≡ true
      → bread me dev blockno c ≡ asleep
  unfolding bread bget acquire_buf
  wait ran busy = rw (ran, busy) refl

-- How `bread` ends: with a locked buffer that holds the block; asleep, the buffer that it counted
-- being locked by another holder; or in a panic, every buffer being in use for other blocks. The
-- conditions are the invariant, a device other than 0, and that no count is at its maximum.
pub bread-IsRead :
    (me dev blockno : ℕ) (c : Bcache)
    → IsWell c
    → 0 < dev
    → ((i : ℕ) → (c.buf i).refcnt + 1 < 2 ^ 32)
    → ((i : ℕ) × (t : Bcache) × (bread me dev blockno c ≡ done i t) × IsRead me dev blockno c i t)
      ⊎ ((i : ℕ) × (s : Bcache) × (bread me dev blockno c ≡ asleep)
          × (take_buf dev blockno c ≡ done i s)
          × ((s.buf i).locked ≡ true)
          × IsTaken dev blockno c i s)
      ⊎ ((bread me dev blockno c ≡ panic "bget: no buffers") × IsFull dev blockno c)
unfolding bread bget
bread-IsRead me dev blockno c inv pos small = elim (take_buf-IsTaken dev blockno c inv small) [
  | inr (ran, full) ↦ inr (inr (rw ran refl, full))
  | inl (i, s, ran, taken) ↦ elim (Bool-cases (s.buf i).locked) [
    | inl busy ↦ inr (inl (i, s, wait me dev blockno i c s taken pos ran busy, ran, busy, taken))
    | inr free ↦
        let (t, read, is) = lock_and_fill me dev blockno i c s taken pos ran free in
        inl (i, t, read, is)
  ]
]
