-- ===== src/Fs/Bio.antt =====
-- The buffer cache of kernel/fs/bio.c. The buffers are an array; `order` lists their indices as the
-- links do from `head.next` on, most recently used first. `bcache.lock` covers each walk of the
-- list, so that part is one step; `acquiresleep` sleeps while a process has the buffer. A
-- transfer by `virtio_disk_rw` copies a block between the buffer and the disk.
pub mod Invariant
pub mod Read
pub mod Release
pub mod Order
mod Tests
use base_exp.Base.{
  ℕ, zero, suc, ◌+◌, ◌-◌, ◌%◌, ◌^◌, Bool, true, false, not, ◌&&◌, ◌==◌, if◌then◌else◌, Option, none,
  some, List, [], ◌∷◌, Run, Cmd, done, panic, asleep, pure, fail, ◌>>=◌, ◌>>◌,
}

pub record Buf : Type 0 where
  pub valid : Bool
  pub dev : ℕ
  pub blockno : ℕ
  pub locked : Bool
  pub pid : ℕ
  pub refcnt : ℕ
  pub contents : List ℕ

pub record Bcache : Type 0 where
  pub buf : ℕ → Buf
  pub order : List ℕ
  pub disk : ℕ → ℕ → List ℕ

abbrev pub Bio : Type 0 → Type 0
Bio A = Cmd Bcache A

abbrev pub set_buf : (ℕ → Buf) → ℕ → Buf → ℕ → Buf
set_buf buf i b j = if j == i then b else buf j

-- Each buffer is put in front of those before it.
unfoldable pub link_all : ℕ → List ℕ → List ℕ
link_all zero order = order
link_all (suc n) order = n ∷ link_all n order

abbrev pub nbuf : ℕ
nbuf = 30

abbrev pub empty_buf : Buf
empty_buf = record {
  valid = false;
  dev = 0;
  blockno = 0;
  locked = false;
  pid = 0;
  refcnt = 0;
  contents = [];
}

unfoldable pub binit : (ℕ → ℕ → List ℕ) → Bcache
unfolding link_all
binit disk = record { buf = λ _. empty_buf; order = link_all nbuf []; disk = disk }

abbrev pub is_block : (ℕ → Buf) → (dev blockno i : ℕ) → Bool
is_block buf dev blockno i = (buf i).dev == dev && (buf i).blockno == blockno

-- From the most recently used on.
unfoldable pub find_cached : (ℕ → Buf) → (dev blockno : ℕ) → List ℕ → Option ℕ
find_cached buf dev blockno [] = none
find_cached buf dev blockno (i ∷ is) =
    if is_block buf dev blockno i then some i else find_cached buf dev blockno is

-- From the least recently used on, against the order.
unfoldable pub find_unused : (ℕ → Buf) → List ℕ → Option ℕ
find_unused buf [] = none
find_unused buf (i ∷ is) = elim (find_unused buf is) [
  | some j ↦ some j
  | none ↦ if (buf i).refcnt == 0 then some i else none
]

-- `acquiresleep(&b->lock)` of the process `me`.
unfoldable pub acquire_buf : (me i : ℕ) → Bio (Unit {0})
acquire_buf me i c =
    if (c.buf i).locked
    then asleep
    else done tt (record c { buf = set_buf c.buf i (record (c.buf i) { locked = true; pid = me }) })

-- The part of `bget` under `bcache.lock`: the buffer that it will lock.
unfoldable pub take_buf : (dev blockno : ℕ) → Bio ℕ
take_buf dev blockno c = elim (find_cached c.buf dev blockno c.order) [
  | some i ↦ done i (record c {
    buf = set_buf c.buf i (record (c.buf i) { refcnt = ((c.buf i).refcnt + 1) % 2 ^ 32 });
  })
  | none ↦ elim (find_unused c.buf c.order) [
    | none ↦ panic "bget: no buffers"
    | some i ↦ done i (record c {
      buf =
          set_buf c.buf i
            (record (c.buf i) { dev = dev; blockno = blockno; valid = false; refcnt = 1 });
    })
  ]
]

unfoldable pub bget : (me dev blockno : ℕ) → Bio ℕ
bget me dev blockno = do i ← take_buf dev blockno; acquire_buf me i; pure i

-- `virtio_disk_rw(b, 0)`, then `b->valid = 1`, if the buffer is not valid.
unfoldable pub fill_buf : ℕ → Bio (Unit {0})
fill_buf i c =
    if (c.buf i).valid
    then done tt c
    else done tt (record c {
      buf =
          set_buf c.buf i
            (record (c.buf i) { contents = c.disk (c.buf i).dev (c.buf i).blockno; valid = true });
    })

unfoldable pub bread : (me dev blockno : ℕ) → Bio ℕ
bread me dev blockno = do i ← bget me dev blockno; fill_buf i; pure i

abbrev pub holding_buf : Bcache → (me i : ℕ) → Bool
holding_buf c me i = (c.buf i).locked && (c.buf i).pid == me

abbrev pub set_block : (ℕ → ℕ → List ℕ) → (dev blockno : ℕ) → List ℕ → ℕ → ℕ → List ℕ
set_block disk dev blockno block d n = if d == dev && n == blockno then block else disk d n

unfoldable pub bwrite : (me i : ℕ) → Bio (Unit {0})
bwrite me i c =
    if not (holding_buf c me i)
    then panic "bwrite"
    else done tt
        (record c { disk = set_block c.disk (c.buf i).dev (c.buf i).blockno (c.buf i).contents })

unfoldable pub unlink_buf : ℕ → List ℕ → List ℕ
unlink_buf i [] = []
unlink_buf i (j ∷ js) = if i == j then js else j ∷ unlink_buf i js

unfoldable pub brelse : (me i : ℕ) → Bio (Unit {0})
brelse me i c =
    if not (holding_buf c me i)
    then panic "brelse"
    else (let left = ((c.buf i).refcnt + 2 ^ 32 - 1) % 2 ^ 32 in
        done tt (record c {
          buf = set_buf c.buf i (record (c.buf i) { locked = false; pid = 0; refcnt = left });
          order = if left == 0 then i ∷ unlink_buf i c.order else c.order;
        }))

unfoldable pub bpin : ℕ → Bio (Unit {0})
bpin i c = done tt (record c {
  buf = set_buf c.buf i (record (c.buf i) { refcnt = ((c.buf i).refcnt + 1) % 2 ^ 32 });
})

unfoldable pub bunpin : ℕ → Bio (Unit {0})
bunpin i c = done tt (record c {
  buf = set_buf c.buf i (record (c.buf i) { refcnt = ((c.buf i).refcnt + 2 ^ 32 - 1) % 2 ^ 32 });
})
