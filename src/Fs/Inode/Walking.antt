-- ===== src/Fs/Inode/Walking.antt =====
-- `dirlookup` and `namei` (kernel/fs/fs.c): they end, and the counts that they leave.
use base_exp.Base.{
  ℕ, zero, suc, ◌+◌, ◌*◌, ◌/◌, ◌<◌, ◌≤◌, inl, inr, refl, sym, true, not, ◌==◌, leb, if◌then◌else◌,
  Bool-cases, Option, none, some, List, [], ◌∷◌, length, get_or, arith, pure, fail, get, ◌>>=◌,
  ◌>>◌, Ends, Ends-done, Ends-panic, Ends-if, Ends-either, Ends-bind,
}
use mathlib.Core.Path.{subst}
use base_exp.Fs.PathName.{slash, dirsiz}
use base_exp.Fs.PathName.Split.{names_of}
use base_exp.Fs.Inode.Layout.{dirent_size, inum_of, name_of}
use base_exp.Fs.Inode.{Itable, Ino, iget, idup, ilock, iunlockput, readi}
use base_exp.Fs.Inode.Lookup.{same_name, dirlookup_loop, dirlookup, namei}
use base_exp.Fs.Inode.Naming.{follow, namei-follow}
use base_exp.Fs.Inode.Counts.{
  HasCounts, SameCounts, counted, set_inode-HasCounts, ilock-HasCounts, iunlockput-HasCounts,
  iget-HasCounts, readi-HasCounts,
}

-- What is returned is counted once more.
abbrev pub Counted : (ℕ → ℕ) → Option ℕ → Itable → Type 0
Counted f r u = HasCounts (counted f r) u

-- The entry is the one that is looked for.
take_entry :
    (f : ℕ → ℕ) (dev inum : ℕ) (u : Itable)
    → HasCounts f u
    → Ends (Counted f) ((do ip ← iget dev inum; pure (some ip)) u)
take_entry f dev inum u h =
    Ends-bind (λ ip v. Counted f (some ip) v) (Counted f) (iget dev inum u) (λ ip. pure (some ip))
      (iget-HasCounts f dev inum u h) λ ip v g. Ends-done (Counted f) (some ip) v g

dirlookup_loop-Counted :
    (f : ℕ → ℕ) (fuel me dp : ℕ) (name : List ℕ) (off size : ℕ) (t : Itable)
    → off < size + dirent_size
    → size + dirent_size ≤ off + dirent_size * fuel
    → HasCounts f t
    → Ends (Counted f) (dirlookup_loop fuel me dp name off size t)
unfolding dirlookup_loop
dirlookup_loop-Counted f zero me dp name off size t within enough h = absurd (omega arith)
dirlookup_loop-Counted f (suc fuel) me dp name off size t within enough h =
    elim (Bool-cases (leb size off)) [
      | inl over ↦ rw over (Ends-done (Counted f) none t h)
      | inr more ↦ rw more (
          Ends-bind (SameCounts f) (Counted f) (readi (λ _. true) me dp off dirent_size t) _
            (readi-HasCounts f (λ _. true) me dp off dirent_size t h)
            (entry (λ u g.
              dirlookup_loop-Counted f fuel me dp name (off + dirent_size) size u (ground arith)
                (ground arith) g)))
    ]
  where
    entry :
        ((u : Itable)
          → HasCounts f u
          → Ends (Counted f) (dirlookup_loop fuel me dp name (off + dirent_size) size u))
        → (read : Option (List ℕ)) (u : Itable) → HasCounts f u
        → Ends (Counted f) (
            (elim read as (λ _. Ino (Option ℕ)) [
              | none ↦ fail "dirlookup read"
              | some de ↦
                  if not (length de == dirent_size)
                  then fail "dirlookup read"
                  else if inum_of de == 0
                  then dirlookup_loop fuel me dp name (off + dirent_size) size
                  else if same_name dirsiz name (name_of de)
                  then (do t ← get; ip ← iget (t.inode dp).dev (inum_of de); pure (some ip))
                  else dirlookup_loop fuel me dp name (off + dirent_size) size
            ])
              u)
    entry rest none u g = Ends-panic (Counted f) "dirlookup read"
    entry rest (some de) u g =
        let P : Option ℕ → Itable → Type 0 = Counted f in
        Ends-either P (not (length de == dirent_size)) _ _ u (Ends-panic P "dirlookup read") (
          Ends-either P (inum_of de == 0) _ _ u (rest u g) (
            Ends-either P (same_name dirsiz name (name_of de)) _ _ u
              (take_entry f (u.inode dp).dev (inum_of de) u g) (rest u g)))

dirlookup-Counted :
    (f : ℕ → ℕ) (me dp : ℕ) (name : List ℕ) (t : Itable)
    → HasCounts f t
    → Ends (Counted f) (dirlookup me dp name t)
unfolding dirlookup
dirlookup-Counted f me dp name t h =
    let size = (t.inode dp).disk.size in
    Ends-if (Counted f) (not ((t.inode dp).disk.type == 1)) _ _ (Ends-panic (Counted f) _) (
      dirlookup_loop-Counted f (size / dirent_size + 2) me dp name 0 size t (omega arith)
        (omega arith) h)

follow-Counted :
    (f : ℕ → ℕ) (me ip : ℕ) (names : List (List ℕ)) (t : Itable)
    → Counted f (some ip) t
    → Ends (Counted f) (follow me ip names t)
unfolding follow
follow-Counted f me ip [] t h = Ends-done (Counted f) (some ip) t h
follow-Counted f me ip (name ∷ names) t h =
    let P : Option ℕ → Itable → Type 0 = Counted f in
    let held = counted f (some ip) in
    Ends-bind (SameCounts held) P (ilock me ip t) _ (ilock-HasCounts held me ip t h) λ _ u g.
      Ends-either P (not ((u.inode ip).disk.type == 1)) _ _ u
        (Ends-bind (SameCounts f) P (iunlockput me ip u) (λ _. pure none)
          (iunlockput-HasCounts f me ip u g) λ _ v k. Ends-done P none v k)
        (Ends-bind (Counted held) P (dirlookup me ip name u) _
          (dirlookup-Counted held me ip name u g)
          (leave (λ next v k. follow-Counted f me next names v k)))
  where
    leave :
        ((next : ℕ) (v : Itable)
          → Counted f (some next) v
          → Ends (Counted f) (follow me next names v))
        → (found : Option ℕ) (u : Itable) → Counted (counted f (some ip)) found u
        → Ends (Counted f) (
            (iunlockput me ip >> (elim found as (λ _. Ino (Option ℕ)) [
              | none ↦ pure none
              | some next ↦ follow me next names
            ]))
              u)
    leave onward none u g =
        Ends-bind (SameCounts f) (Counted f) (iunlockput me ip u) (λ _. pure none)
          (iunlockput-HasCounts f me ip u g) λ _ v k. Ends-done (Counted f) none v k
    leave onward (some next) u g =
        Ends-bind (SameCounts (counted f (some next))) (Counted f) (iunlockput me ip u)
          (λ _. follow me next names)
          (iunlockput-HasCounts (counted f (some next)) me ip u
            (λ j. let here = g j in omega arith))
          λ _ v k. onward next v k

start-Counted :
    (f : ℕ → ℕ) (cwd : ℕ) (path : List ℕ) (t : Itable)
    → HasCounts f t
    → Ends
        (λ ip u. Counted f (some ip) u)
        ((if get_or path 0 0 == slash then iget 1 1 else idup cwd) t)
unfolding idup
start-Counted f cwd path t h =
    let P : ℕ → Itable → Type 0 = λ ip u. Counted f (some ip) u in
    Ends-either P (get_or path 0 0 == slash) _ _ t (iget-HasCounts f 1 1 t h) (
      Ends-done P cwd _ (
        set_inode-HasCounts f (counted f (some cwd)) t.inode cwd
          (record (t.inode cwd) { ref = (t.inode cwd).ref + 1 }) (let here = h cwd in ground arith)
          (λ j ne. ground arith) h))

-- `namei` ends, whatever the path and the contents of the directories: in a panic, asleep for a locked
-- inode or buffer, or with all counts as before, but for the inode that it returns, if there is one,
-- which is counted once more.
pub namei-Counted :
    (me cwd : ℕ) (path : List ℕ) (t : Itable)
    → Ends (Counted (λ j. (t.inode j).ref)) (namei me cwd path t)
namei-Counted me cwd path t =
    let f : ℕ → ℕ = λ j. (t.inode j).ref in
    subst (Ends (Counted f)) (sym (namei-follow me cwd path t)) (
      Ends-bind (λ ip u. Counted f (some ip) u) (Counted f) _ (λ ip. follow me ip (names_of path))
        (start-Counted f cwd path t (λ j. refl))
        λ ip u h. follow-Counted f me ip (names_of path) u h)
