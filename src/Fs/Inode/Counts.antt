-- ===== src/Fs/Inode/Counts.antt =====
-- The reference counts of the inode table (kernel/fs/fs.c) in the calls that `namei` makes, and that the
-- loops of these end.
use base_exp.Base.{
  ℕ, zero, suc, ◌+◌, ◌-◌, ◌/◌, ◌%◌, ◌<◌, ◌≡◌, inl, inr, refl, ◌∙◌, Bool, true, false, not, ◌&&◌,
  ◌||◌, ◌==◌, ltb, if◌then◌else◌, Bool-cases, Option, none, some, Option-cases, List, [], ◌++◌,
  get_or, arith, Run, done, panic, asleep, out_of_fuel, pure, Ends, Ends-done, Ends-panic,
  Ends-asleep, Ends-starved, Ends-if, Ends-either, Ends-bind,
}
use mathlib.Core.Path.{subst}
use base_exp.Fs.Bio.{
  Bcache, find_cached, find_unused, take_buf, acquire_buf, bget, fill_buf, bread, brelse,
}
use base_exp.Fs.Inode.Layout.{bsize, ndirect, nindirect, ndindirect, ipb, iblock, dinode_of}
use base_exp.Fs.Inode.{
  Inode, Itable, Ino, in_cache, bio, set_inode, update, with_block, Search, hit, miss, ninode,
  find_inode, iget, acquire_inode, ilock, iunlock, iput, iunlockput, read_entry, bmap, readi_loop,
  readi,
}
use base_exp.Fs.Inode.Table.{IsFound, find_inode-IsFound}

-- The buffer cache has no loop that could be given too few rounds.
abbrev Any : {A : Type 0} → A → Bcache → Type 0
Any a c = Unit {0}

take_buf-Ends : (dev blockno : ℕ) (c : Bcache) → Ends Any (take_buf dev blockno c)
unfolding take_buf
take_buf-Ends dev blockno c = elim (Option-cases (find_cached c.buf dev blockno c.order)) [
  | inr (i, e) ↦ rw (e, take_buf) (Ends-done Any _ _ tt)
  | inl e ↦ elim (Option-cases (find_unused c.buf c.order)) [
    | inr (i, f) ↦ rw (e, f, take_buf) (Ends-done Any _ _ tt)
    | inl f ↦ rw (e, f, take_buf) (Ends-panic Any _)
  ]
]

bread-Ends : (me dev blockno : ℕ) (c : Bcache) → Ends Any (bread me dev blockno c)
unfolding bread bget acquire_buf fill_buf
bread-Ends me dev blockno c =
    Ends-bind Any Any (bget me dev blockno c) _
      (Ends-bind Any Any (take_buf dev blockno c) _ (take_buf-Ends dev blockno c) λ i d _.
        Ends-bind Any Any (acquire_buf me i d) _
          (Ends-if Any (d.buf i).locked _ _ (Ends-asleep Any) (Ends-done Any _ _ tt))
          λ _ v _. Ends-done Any _ _ tt)
      λ i d _.
        Ends-bind Any Any (fill_buf i d) _
          (Ends-if Any (d.buf i).valid _ _ (Ends-done Any _ _ tt) (Ends-done Any _ _ tt))
          λ _ v _. Ends-done Any _ _ tt

with_block-Ends :
    {A : Type 0} (me dev blockno : ℕ) (f : List ℕ → A) (c : Bcache)
    → Ends Any (with_block me dev blockno f c)
unfolding with_block brelse
with_block-Ends me dev blockno f c =
    Ends-bind Any Any (bread me dev blockno c) _ (bread-Ends me dev blockno c) λ i d _.
      Ends-bind Any Any (brelse me i d) _
        (Ends-if Any _ _ _ (Ends-panic Any _) (Ends-done Any _ _ tt)) λ _ v _. Ends-done Any _ _ tt

-- The counts of the entries.
abbrev pub HasCounts : (ℕ → ℕ) → Itable → Type 0
HasCounts f t = (j : ℕ) → (t.inode j).ref ≡ f j

-- The counts with one more for the inode, if there is one.
abbrev pub counted : (ℕ → ℕ) → Option ℕ → ℕ → ℕ
counted f none j = f j
counted f (some ip) j = f j + (if j == ip then 1 else 0)

abbrev pub SameCounts : {A : Type 0} → (ℕ → ℕ) → A → Itable → Type 0
SameCounts f a t = HasCounts f t

in_cache-HasCounts :
    {A : Type 0} (f : ℕ → ℕ) (t : Itable) (r : Run Bcache A)
    → Ends Any r
    → HasCounts f t
    → Ends (SameCounts f) (in_cache t r)
in_cache-HasCounts f t (done a c) e h = Ends-done (SameCounts f) a _ h
in_cache-HasCounts f t (panic why) e h = Ends-panic (SameCounts f) why
in_cache-HasCounts f t asleep e h = Ends-asleep (SameCounts f)
in_cache-HasCounts f t out_of_fuel e h = absurd (Ends-starved Any e)

-- A read of a block changes no count.
block-HasCounts :
    {A : Type 0} (f : ℕ → ℕ) (me dev blockno : ℕ) (g : List ℕ → A) (t : Itable)
    → HasCounts f t
    → Ends (SameCounts f) (bio (with_block me dev blockno g) t)
block-HasCounts f me dev blockno g t =
    in_cache-HasCounts f t (with_block me dev blockno g t.cache)
      (with_block-Ends me dev blockno g t.cache)

-- A change of an entry that gives it the count that it is to have.
pub set_inode-HasCounts :
    (f g : ℕ → ℕ) (inode : ℕ → Inode) (ip : ℕ) (b : Inode)
    → b.ref ≡ g ip
    → ((j : ℕ) → (j == ip) ≡ false → f j ≡ g j)
    → ((j : ℕ) → (inode j).ref ≡ f j)
    → (j : ℕ) → (set_inode inode ip b j).ref ≡ g j
set_inode-HasCounts f g inode ip b here apart h j = elim (Bool-cases (j == ip)) [
  | inl e ↦ let same : ip ≡ j = ground arith in rw e (subst (λ z. b.ref ≡ g z) same here)
  | inr ne ↦ rw ne (h j ∙ apart j ne)
]

pub update-HasCounts :
    (f : ℕ → ℕ) (ip : ℕ) (k : Inode → Inode) (t : Itable)
    → ((i : Inode) → (k i).ref ≡ i.ref)
    → HasCounts f t
    → Ends (SameCounts f) (update ip k t)
update-HasCounts f ip k t same h =
    Ends-done (SameCounts f) tt _ (
      set_inode-HasCounts f f t.inode ip (k (t.inode ip)) (same (t.inode ip) ∙ h ip) (λ j _. refl)
        h)

pub ilock-HasCounts :
    (f : ℕ → ℕ) (me ip : ℕ) (t : Itable) → HasCounts f t → Ends (SameCounts f) (ilock me ip t)
unfolding ilock acquire_inode
ilock-HasCounts f me ip t h =
    let P : Unit {0} → Itable → Type 0 = SameCounts f in
    Ends-either P (ltb (t.inode ip).ref 1) _ _ t (Ends-panic P _) (
      Ends-bind P P (acquire_inode me ip t) _
        (Ends-if P (t.inode ip).locked _ _ (Ends-asleep P)
          (update-HasCounts f ip (λ i. record i { locked = true; pid = me }) t (λ _. refl) h))
        λ _ u g. Ends-either P (u.inode ip).valid _ _ u (Ends-done P tt u g) (
          Ends-bind (SameCounts f) P _ _
            (block-HasCounts f me (u.inode ip).dev (iblock (u.inode ip).inum u.sb)
              (dinode_of ((u.inode ip).inum % ipb)) u g)
            λ disk v k. Ends-either P (disk.type == 0) _ _ _ (Ends-panic P _) (
              Ends-done P tt _ (
                set_inode-HasCounts f f v.inode ip
                  (record (v.inode ip) { disk = disk; valid = true }) (k ip) (λ j _. refl) k))))

-- `iunlockput` takes back one count.
pub iunlockput-HasCounts :
    (f : ℕ → ℕ) (me ip : ℕ) (t : Itable)
    → HasCounts (counted f (some ip)) t
    → Ends (SameCounts f) (iunlockput me ip t)
unfolding iunlockput iunlock iput
iunlockput-HasCounts f me ip t h =
    let P : Unit {0} → Itable → Type 0 = SameCounts f in
    Ends-bind (SameCounts (counted f (some ip))) P (iunlock me ip t) _
      (Ends-if (SameCounts (counted f (some ip)))
        (not ((t.inode ip).locked && (t.inode ip).pid == me) || ltb (t.inode ip).ref 1) _ _
        (Ends-panic (SameCounts (counted f (some ip))) _)
        (update-HasCounts (counted f (some ip)) ip (λ i. record i { locked = false; pid = 0 }) t
          (λ _. refl) h))
      λ _ u g. Ends-done P tt _ (
        set_inode-HasCounts (counted f (some ip)) f u.inode ip
          (record (u.inode ip) { ref = (u.inode ip).ref - 1 }) (let here = g ip in ground arith)
          (λ j ne. ground arith) g)

-- `iget` counts the inode that it returns once more, and no other.
pub iget-HasCounts :
    (f : ℕ → ℕ) (dev inum : ℕ) (t : Itable)
    → HasCounts f t
    → Ends (λ ip u. HasCounts (counted f (some ip)) u) (iget dev inum t)
unfolding iget
iget-HasCounts f dev inum t h =
    go (find_inode t.inode dev inum none 0 ninode) refl
      (find_inode-IsFound t.inode dev inum none 0 ninode)
  where
    go :
        (s : Search)
        → find_inode t.inode dev inum none 0 ninode ≡ s
        → IsFound t.inode dev inum none 0 ninode s
        → Ends (λ ip u. HasCounts (counted f (some ip)) u) (iget dev inum t)
    go (hit ip) e found =
        rw (e, iget)
          (Ends-done (λ k u. HasCounts (counted f (some k)) u) ip _
            (set_inode-HasCounts f (counted f (some ip)) t.inode ip
              (record (t.inode ip) { ref = (t.inode ip).ref + 1 }) (let here = h ip in ground arith)
              (λ j ne. ground arith) h))
    go (miss none) e full = rw (e, iget) (Ends-panic (λ k u. HasCounts (counted f (some k)) u) _)
    go (miss (some ip)) e (others, inl absent) = absurd (cc)
    go (miss (some ip)) e (others, inr (idle, low)) =
        rw (e, iget)
          (Ends-done (λ k u. HasCounts (counted f (some k)) u) ip _
            (set_inode-HasCounts f (counted f (some ip)) t.inode ip
              (record (t.inode ip) { dev = dev; inum = inum; ref = 1; valid = false })
              (let here = h ip in ground arith) (λ j ne. ground arith) h))

entry-HasCounts :
    (f : ℕ → ℕ) (me dev addr n : ℕ) (t : Itable)
    → HasCounts f t
    → Ends (SameCounts f) (bio (read_entry me dev addr n) t)
unfolding read_entry
entry-HasCounts f me dev addr n t h = block-HasCounts f me dev addr _ t h

bmap-HasCounts :
    (f : ℕ → ℕ) (me ip bn : ℕ) (t : Itable) → HasCounts f t → Ends (SameCounts f) (bmap me ip bn t)
unfolding bmap
bmap-HasCounts f me ip bn t h =
    let P : ℕ → Itable → Type 0 = SameCounts f in
    let dev = (t.inode ip).dev in
    let addrs = (t.inode ip).disk.addrs in
    let single = get_or addrs ndirect 0 in
    let double = get_or addrs (ndirect + 1) 0 in
    let bn1 = bn - ndirect in
    let bn2 = bn1 - nindirect in
    Ends-if P (ltb bn ndirect) _ _ (Ends-done P (get_or addrs bn 0) t h) (
      Ends-if P (ltb bn1 nindirect) _ _
        (Ends-if P (single == 0) _ _ (Ends-done P 0 t h) (entry-HasCounts f me dev single bn1 t h))
        (Ends-if P (ltb bn2 ndindirect) _ _
          (Ends-if P (double == 0) _ _ (Ends-done P 0 t h) (
            Ends-bind P P (bio (read_entry me dev double (bn2 / nindirect)) t)
              (λ addr. if addr == 0 then pure 0 else bio (read_entry me dev addr (bn2 % nindirect)))
              (entry-HasCounts f me dev double (bn2 / nindirect) t h)
              λ addr u g.
                Ends-either P (addr == 0) (pure 0) (bio (read_entry me dev addr (bn2 % nindirect)))
                  u (Ends-done P 0 u g) (entry-HasCounts f me dev addr (bn2 % nindirect) u g)))
          (Ends-panic P "bmap: out of range")))

readi_loop-HasCounts :
    (f : ℕ → ℕ) (copies : ℕ → Bool) (fuel me ip off n : ℕ) (t : Itable)
    → n < fuel
    → HasCounts f t
    → Ends (SameCounts f) (readi_loop copies fuel me ip off n t)
unfolding readi_loop
readi_loop-HasCounts f copies zero me ip off n t enough h = absurd (omega arith)
readi_loop-HasCounts f copies (suc fuel) me ip off n t enough h =
    let P : Option (List ℕ) → Itable → Type 0 = SameCounts f in
    elim (Bool-cases (n == 0)) [
      | inl e ↦ rw e (Ends-done P (some []) t h)
      | inr ne ↦
          let room = bsize - off % bsize in
          let m = if ltb n room then n else room in
          let fewer : n - m < fuel = ground arith in
          rw ne (
            Ends-bind (SameCounts f) P (bmap me ip (off / bsize) t) _
              (bmap-HasCounts f me ip (off / bsize) t h)
              λ addr u g. Ends-either P (addr == 0) _ _ u (Ends-done P (some []) u g) (
                Ends-bind (SameCounts f) P _ _ (block-HasCounts f me (u.inode ip).dev addr _ u g)
                  λ chunk v k. Ends-either P (not (copies off)) _ _ v (Ends-done P none v k) (
                    Ends-bind P P _ _
                      (readi_loop-HasCounts f copies fuel me ip (off + m) (n - m) v fewer k)
                      (last chunk))))
    ]
  where
    last :
        (chunk : List ℕ) (more : Option (List ℕ)) (u : Itable)
        → HasCounts f u
        → Ends (SameCounts f) (
            (elim more as (λ _. Ino (Option (List ℕ))) [
              | none ↦ pure none
              | some bytes ↦ pure (some (chunk ++ bytes))
            ])
              u)
    last chunk none u h = Ends-done (SameCounts f) none u h
    last chunk (some bytes) u h = Ends-done (SameCounts f) (some (chunk ++ bytes)) u h

pub readi-HasCounts :
    (f : ℕ → ℕ) (copies : ℕ → Bool) (me ip off n : ℕ) (t : Itable)
    → HasCounts f t
    → Ends (SameCounts f) (readi copies me ip off n t)
unfolding readi
readi-HasCounts f copies me ip off n t h =
    let P : Option (List ℕ) → Itable → Type 0 = SameCounts f in
    Ends-if P _ _ _ (Ends-done P (some []) t h)
      (readi_loop-HasCounts f copies _ me ip off _ t (omega arith) h)
