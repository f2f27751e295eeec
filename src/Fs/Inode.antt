-- ===== src/Fs/Inode.antt =====
-- The inode table and the reads of kernel/fs/fs.c. An inode is its index in `itable.inode`; `me` is
-- the calling process. A block is the list of its bytes. `itable.lock` covers each walk of the
-- table, so that is one step.
pub mod Layout
pub mod Lookup
pub mod Naming
pub mod Counts
pub mod Walking
pub mod Table
mod Tests
use base_exp.Base.{
  ℕ, zero, suc, ◌+◌, ◌-◌, ◌*◌, ◌/◌, ◌%◌, ◌^◌, Bool, true, false, not, ◌&&◌, ◌||◌, ◌==◌, leb, ltb,
  if◌then◌else◌, Option, none, some, List, [], ◌∷◌, ◌++◌, take, drop, length, get_or, Run, Cmd,
  done, panic, asleep, out_of_fuel, pure, fail, starved, get, ◌>>=◌, ◌>>◌,
}
use base_exp.Fs.Bio.{Bio, Bcache, bread, brelse}
use base_exp.Fs.Inode.Layout.{
  Superblock, Dinode, bsize, ndirect, nindirect, ndindirect, ipb, iblock, fsmagic, super_of,
  dinode_of, uint_at, dirent_size, inum_of, name_of,
}
use base_exp.Fs.PathName.{dirsiz, slash, skipelem}

pub record Inode : Type 0 where
  pub dev : ℕ
  pub inum : ℕ
  pub ref : ℕ
  pub locked : Bool
  pub pid : ℕ
  pub valid : Bool
  pub disk : Dinode

pub record Itable : Type 0 where
  pub inode : ℕ → Inode
  pub sb : Superblock
  pub cache : Bcache

abbrev pub Ino : Type 0 → Type 0
Ino A = Cmd Itable A

abbrev pub ninode : ℕ
ninode = 50

-- A function of the buffer cache.
abbrev pub in_cache : {A : Type 0} → Itable → Run Bcache A → Run Itable A
in_cache t (done a c) = done a (record t { cache = c })
in_cache t (panic why) = panic why
in_cache t asleep = asleep
in_cache t out_of_fuel = out_of_fuel

abbrev pub bio : {A : Type 0} → Bio A → Ino A
bio m = λ t. in_cache t (m t.cache)

abbrev pub set_inode : (ℕ → Inode) → ℕ → Inode → ℕ → Inode
set_inode inode ip i j = if j == ip then i else inode j

abbrev pub update : ℕ → (Inode → Inode) → Ino (Unit {0})
update ip f = λ t. done tt (record t { inode = set_inode t.inode ip (f (t.inode ip)) })

-- `bread`, what is taken of the data, and `brelse`.
unfoldable pub with_block : {A : Type 0} → (me dev blockno : ℕ) → (List ℕ → A) → Bio A
with_block me dev blockno f = do
  i ← bread me dev blockno
  c ← get
  brelse me i
  pure (f (c.buf i).contents)

abbrev pub set_sb : Superblock → Ino (Unit {0})
set_sb sb = λ t. done tt (record t { sb = sb })

unfoldable pub fsinit : (me dev : ℕ) → Ino (Unit {0})
fsinit me dev = do
  sb ← bio (with_block me dev 1 super_of)
  set_sb sb
  if not (sb.magic == fsmagic) then fail "invalid file system" else pure tt

-- What the loop of `iget` finds: the inode, or the first free entry.
pub data Search : Type 0 where
  hit : ℕ → Search
  miss : Option ℕ → Search

abbrev pub remember : Option ℕ → Inode → ℕ → Option ℕ
remember none i ip = if i.ref == 0 then some ip else none
remember (some e) i ip = some e

unfoldable pub find_inode : (ℕ → Inode) → (dev inum : ℕ) → Option ℕ → (ip n : ℕ) → Search
find_inode inode dev inum empty ip zero = miss empty
find_inode inode dev inum empty ip (suc n) =
    let rest = find_inode inode dev inum (remember empty (inode ip) ip) (ip + 1) n in
    if ltb 0 (inode ip).ref && (inode ip).dev == dev && (inode ip).inum == inum
    then hit ip
    else rest

unfoldable pub iget : (dev inum : ℕ) → Ino ℕ
unfolding find_inode
iget dev inum t = elim (find_inode t.inode dev inum none 0 ninode) [
  | hit ip ↦ done ip (record t {
    inode = set_inode t.inode ip (record (t.inode ip) { ref = (t.inode ip).ref + 1 });
  })
  | miss empty ↦ elim empty [
    | none ↦ panic "iget: no inodes"
    | some ip ↦ done ip (record t {
      inode =
          set_inode t.inode ip
            (record (t.inode ip) { dev = dev; inum = inum; ref = 1; valid = false });
    })
  ]
]

unfoldable pub idup : ℕ → Ino ℕ
idup ip = do update ip λ i. record i { ref = i.ref + 1 }; pure ip

-- `acquiresleep(&ip->lock)`.
unfoldable pub acquire_inode : (me ip : ℕ) → Ino (Unit {0})
acquire_inode me ip t =
    if (t.inode ip).locked then asleep else update ip (λ i. record i { locked = true; pid = me }) t

unfoldable pub ilock : (me ip : ℕ) → Ino (Unit {0})
ilock me ip = do
  s ← get
  if ltb (s.inode ip).ref 1 then fail "ilock" else do
    acquire_inode me ip
    t ← get
    if (t.inode ip).valid then pure tt else do
      disk ← bio (
          with_block me (t.inode ip).dev (iblock (t.inode ip).inum t.sb)
            (dinode_of ((t.inode ip).inum % ipb)))
      update ip λ i. record i { disk = disk; valid = true }
      if disk.type == 0 then fail "ilock: no type" else pure tt

unfoldable pub iunlock : (me ip : ℕ) → Ino (Unit {0})
iunlock me ip t =
    if not ((t.inode ip).locked && (t.inode ip).pid == me) || ltb (t.inode ip).ref 1
    then panic "iunlock"
    else update ip (λ i. record i { locked = false; pid = 0 }) t

-- The count is an `int`, and is not 0 here.
unfoldable pub iput : ℕ → Ino (Unit {0})
iput ip = update ip λ i. record i { ref = i.ref - 1 }

unfoldable pub iunlockput : (me ip : ℕ) → Ino (Unit {0})
unfolding iunlock iput
iunlockput me ip = do iunlock me ip; iput ip

-- The entry of an indirect block.
unfoldable pub read_entry : (me dev addr n : ℕ) → Bio ℕ
read_entry me dev addr n = with_block me dev addr (λ block. uint_at block (4 * n))

unfoldable pub bmap : (me ip bn : ℕ) → Ino ℕ
bmap me ip bn t =
    let dev = (t.inode ip).dev in
    let addrs = (t.inode ip).disk.addrs in
    let single = get_or addrs ndirect 0 in
    let double = get_or addrs (ndirect + 1) 0 in
    let bn1 = bn - ndirect in
    let bn2 = bn1 - nindirect in
    if ltb bn ndirect
    then done (get_or addrs bn 0) t
    else if ltb bn1 nindirect
    then (if single == 0 then done 0 t else bio (read_entry me dev single bn1) t)
    else if ltb bn2 ndindirect
    then (if double == 0
        then done 0 t
        else (do
          addr ← bio (read_entry me dev double (bn2 / nindirect))
          if addr == 0 then pure 0 else bio (read_entry me dev addr (bn2 % nindirect)))
            t)
    else panic "bmap: out of range"

-- The loop of `readi`: the bytes that `either_copyout` was given, in order, `none` standing for -1.
-- `copies off` says whether it copies those at offset `off`.
unfoldable pub readi_loop : (ℕ → Bool) → ℕ → (me ip off n : ℕ) → Ino (Option (List ℕ))
readi_loop copies zero me ip off n = starved
readi_loop copies (suc fuel) me ip off n = if n == 0 then pure (some []) else do
  let room = bsize - off % bsize
  let m = if ltb n room then n else room
  let rest = readi_loop copies fuel me ip (off + m) (n - m)
  addr ← bmap me ip (off / bsize)
  if addr == 0 then pure (some []) else do
    t ← get
    chunk ← bio (with_block me (t.inode ip).dev addr (λ block. take m (drop (off % bsize) block)))
    if not (copies off) then pure none else do
      more ← rest
      elim more [ none ↦ pure none | some bytes ↦ pure (some (chunk ++ bytes)) ]

unfoldable pub readi : (ℕ → Bool) → (me ip off n : ℕ) → Ino (Option (List ℕ))
readi copies me ip off n t =
    let size = (t.inode ip).disk.size in
    if ltb size off || ltb ((off + n) % 2 ^ 32) off
    then done (some []) t
    else (let m = if ltb size ((off + n) % 2 ^ 32) then size - off else n in
        readi_loop copies (m + 1) me ip off m t)
