-- ===== src/Fs/Inode/Lookup.antt =====
-- `dirlookup` and `namei` (kernel/fs/fs.c).
use base_exp.Base.{
  ℕ, zero, suc, ◌+◌, ◌/◌, Bool, true, false, not, ◌==◌, leb, if◌then◌else◌, Option, none, some,
  List, [], ◌∷◌, length, panic, pure, fail, starved, get, ◌>>=◌, ◌>>◌,
}
use base_exp.Fs.Inode.Layout.{dirent_size, inum_of, name_of}
use base_exp.Fs.PathName.{dirsiz, slash, skipelem}
use base_exp.Fs.Inode.{Ino, iget, idup, ilock, iunlockput, readi}

-- `strncmp(s, t, DIRSIZ)` is 0; the names end at their NUL or after DIRSIZ bytes.
unfoldable pub same_name : ℕ → List ℕ → List ℕ → Bool
same_name zero s t = true
same_name (suc n) [] [] = true
same_name (suc n) [] (d ∷ ds) = d == 0
same_name (suc n) (c ∷ cs) [] = c == 0
same_name (suc n) (c ∷ cs) (d ∷ ds) =
    if not (c == d) then false else if c == 0 then true else same_name n cs ds

-- The loop of `dirlookup`, with a round for each entry.
unfoldable pub dirlookup_loop : ℕ → (me dp : ℕ) → List ℕ → (off size : ℕ) → Ino (Option ℕ)
dirlookup_loop zero me dp name off size = starved
dirlookup_loop (suc fuel) me dp name off size =
    let rest = dirlookup_loop fuel me dp name (off + dirent_size) size in
    if leb size off then pure none else do
      read ← readi (λ _. true) me dp off dirent_size
      elim read [
        | none ↦ fail "dirlookup read"
        | some de ↦
            if not (length de == dirent_size)
            then fail "dirlookup read"
            else if inum_of de == 0
            then rest
            else if same_name dirsiz name (name_of de)
            then (do t ← get; ip ← iget (t.inode dp).dev (inum_of de); pure (some ip))
            else rest
      ]

unfoldable pub dirlookup : (me dp : ℕ) → List ℕ → Ino (Option ℕ)
dirlookup me dp name t =
    let d = (t.inode dp).disk in
    if not (d.type == 1)
    then panic "dirlookup not DIR"
    else dirlookup_loop (d.size / dirent_size + 2) me dp name 0 d.size t

-- The loop of `namex` from inode `ip`, with a round for each name of the path.
unfoldable pub namei_loop : ℕ → (me ip : ℕ) → List ℕ → Ino (Option ℕ)
namei_loop zero me ip path = starved
namei_loop (suc fuel) me ip path = elim (skipelem path) [
  | none ↦ pure (some ip)
  | some (name, rest) ↦ do
    ilock me ip
    t ← get
    if not ((t.inode ip).disk.type == 1) then (do iunlockput me ip; pure none) else do
      found ← dirlookup me ip name
      iunlockput me ip
      elim found [ none ↦ pure none | some next ↦ namei_loop fuel me next rest ]
]

abbrev pub from_root : List ℕ → Bool
from_root [] = false
from_root (c ∷ cs) = c == slash

-- `cwd` is the directory of the calling process.
unfoldable pub namei : (me : ℕ) → (cwd : ℕ) → List ℕ → Ino (Option ℕ)
unfolding namei_loop
namei me cwd path = do
  ip ← if from_root path then iget 1 1 else idup cwd
  namei_loop (length path + 1) me ip path
