-- ===== src/Fs/Inode/Tests.antt =====
-- The inode table on concrete inputs.
use base_exp.Base.{
  ℕ, ◌≡◌, refl, true, false, ◌==◌, if◌then◌else◌, Option, some, none, List, [], ◌∷◌, get_or, arith,
  Run, done, ◌>>=◌, Ends,
}
use base_exp.Fs.PathName.{slash}
use base_exp.Fs.PathName.Split.{names_of}
use base_exp.Fs.Inode.Lookup.{namei}
use base_exp.Fs.Inode.Naming.{follow, namei-follow}
use base_exp.Fs.Inode.Walking.{Counted, namei-Counted}
use base_exp.Fs.Bio.{binit}
use base_exp.Fs.Inode.{Inode, Itable, iget, idup}
use base_exp.Fs.Inode.Layout.{super_of}
use base_exp.Fs.Inode.Table.{IsUnique, IsGot, iget-IsUnique}

-- Entry 2 is inode 7 of device 1, the others are free.
abbrev one_open : Itable
one_open = record {
  inode = λ i. record {
    dev = if i == 2 then 1 else 0;
    inum = if i == 2 then 7 else 0;
    ref = if i == 2 then 3 else 0;
    locked = false;
    pid = 0;
    valid = i == 2;
    disk = record { type = 1; major = 0; minor = 0; nlink = 1; size = 0; addrs = [] };
  };
  sb = super_of [];
  cache = binit (λ _ _. []);
}

one_open-IsUnique : IsUnique one_open.inode
one_open-IsUnique i j dev inum li lj hi hj = ground arith

iget-IsUnique_example : IsGot 1 7 one_open (iget 1 7 one_open)
iget-IsUnique_example = iget-IsUnique 1 7 one_open one_open-IsUnique

-- Another inode takes the first free entry.
iget-one_open :
    (iget 1 9 one_open)
    ≡ done 0 (record one_open {
      inode = λ j.
          if j == 0
          then record (one_open.inode 0) { dev = 1; inum = 9; ref = 1; valid = false }
          else one_open.inode j;
    })
unfolding iget base_exp.Fs.Inode.find_inode
iget-one_open = refl

-- The root directory, entry 3, has the entry "a" for inode 7.
abbrev rooted : Itable
rooted = record one_open {
  inode = λ i.
      if i == 3
      then record {
        dev = 1;
        inum = 1;
        ref = 1;
        locked = false;
        pid = 0;
        valid = true;
        disk = record { type = 1; major = 0; minor = 0; nlink = 1; size = 16; addrs = 40 ∷ [] };
      }
      else one_open.inode i;
  cache = binit λ dev blockno.
      if blockno == 40
      then 7 ∷ 0 ∷ b'a' ∷ 0 ∷ 0 ∷ 0 ∷ 0 ∷ 0 ∷ 0 ∷ 0 ∷ 0 ∷ 0 ∷ 0 ∷ 0 ∷ 0 ∷ 0 ∷ []
      else [];
}

-- The paths "/a" and "/b".
abbrev path_a : List ℕ
path_a = b'/' ∷ b'a' ∷ []

abbrev path_b : List ℕ
path_b = b'/' ∷ b'b' ∷ []

abbrev found_in : {A : Type 0} → Run Itable A → Option A
found_in (done a t) = some a
found_in _ = none

namei-path_a : found_in (namei 4 2 path_a rooted) ≡ some (some 2)
unfolding namei iget idup base_exp.Fs.PathName.skipelem base_exp.Fs.PathName.skip_slashes
    base_exp.Fs.Inode.ilock base_exp.Fs.Inode.acquire_inode base_exp.Fs.Inode.Lookup.dirlookup
    base_exp.Fs.Inode.Lookup.dirlookup_loop base_exp.Fs.Inode.readi base_exp.Fs.Inode.readi_loop
    base_exp.Fs.Inode.bmap base_exp.Fs.Inode.with_block base_exp.Fs.Bio.bread base_exp.Fs.Bio.bget
    base_exp.Fs.Bio.take_buf base_exp.Fs.Bio.find_cached binit base_exp.Fs.Bio.find_unused
    base_exp.Fs.Bio.acquire_buf base_exp.Fs.Bio.brelse base_exp.Fs.Bio.fill_buf
    base_exp.Fs.Bio.link_all base_exp.Fs.Bio.unlink_buf base_exp.Fs.Inode.Lookup.namei_loop
    base_exp.Fs.Inode.Lookup.same_name base_exp.Fs.Inode.find_inode base_exp.Fs.Inode.iput
    base_exp.Fs.Inode.iunlock base_exp.Fs.Inode.iunlockput base_exp.Fs.PathName.after_elem
    base_exp.Fs.PathName.cut base_exp.Fs.PathName.elem_of
namei-path_a = refl

namei-path_b : found_in (namei 4 2 path_b rooted) ≡ some none
unfolding namei iget idup base_exp.Fs.PathName.skipelem base_exp.Fs.PathName.skip_slashes
    base_exp.Fs.Inode.ilock base_exp.Fs.Inode.acquire_inode base_exp.Fs.Inode.Lookup.dirlookup
    base_exp.Fs.Inode.Lookup.dirlookup_loop base_exp.Fs.Inode.readi base_exp.Fs.Inode.readi_loop
    base_exp.Fs.Inode.bmap base_exp.Fs.Inode.with_block base_exp.Fs.Bio.bread base_exp.Fs.Bio.bget
    base_exp.Fs.Bio.take_buf base_exp.Fs.Bio.find_cached binit base_exp.Fs.Bio.find_unused
    base_exp.Fs.Bio.acquire_buf base_exp.Fs.Bio.brelse base_exp.Fs.Bio.fill_buf
    base_exp.Fs.Bio.link_all base_exp.Fs.Bio.unlink_buf base_exp.Fs.Inode.Lookup.namei_loop
    base_exp.Fs.Inode.Lookup.same_name base_exp.Fs.Inode.find_inode base_exp.Fs.Inode.iput
    base_exp.Fs.Inode.iunlock base_exp.Fs.Inode.iunlockput base_exp.Fs.PathName.after_elem
    base_exp.Fs.PathName.cut base_exp.Fs.PathName.elem_of
namei-path_b = refl

namei-follow_example :
    namei 4 2 path_a rooted
    ≡ (do
      ip ← if get_or path_a 0 0 == slash then iget 1 1 else idup 2
      follow 4 ip (names_of path_a))
        rooted
namei-follow_example = namei-follow 4 2 path_a rooted

namei-Counted_example : Ends (Counted (λ j. (rooted.inode j).ref)) (namei 4 2 path_a rooted)
namei-Counted_example = namei-Counted 4 2 path_a rooted
