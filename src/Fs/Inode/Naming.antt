-- ===== src/Fs/Inode/Naming.antt =====
-- `namei` (kernel/fs/fs.c) against a walk over the names of the path.
use base_exp.Base.{
  ℕ, zero, suc, ◌+◌, ◌<◌, ◌≡◌, refl, sym, ◌∙◌, ap, not, ◌==◌, if◌then◌else◌, none, some, Option,
  List, [], ◌∷◌, take, length, get_or, arith, pure, get, ◌>>=◌, ◌>>◌,
}
use base_exp.Fs.PathName.{dirsiz, slash, skip_slashes, elem_of, after_elem, cut, skipelem}
use base_exp.Fs.PathName.Split.{
  names_of, names_of-skip_slashes, length-skip_slashes, skip_slashes-head, cut-names_of,
  names_of-nil, length-rest,
}
use base_exp.Fs.Inode.{Ino, Itable, iget, idup, ilock, iunlockput}
use base_exp.Fs.Inode.Lookup.{dirlookup, namei_loop, from_root, namei}

-- One name: the inode is locked while the name is looked up in it, and given back then.
abbrev pub descend : (me ip : ℕ) → List ℕ → (ℕ → Ino (Option ℕ)) → Ino (Option ℕ)
descend me ip name onward = do
  ilock me ip
  t ← get
  if not ((t.inode ip).disk.type == 1) then (do iunlockput me ip; pure none) else do
    found ← dirlookup me ip name
    iunlockput me ip
    elim found [ none ↦ pure none | some next ↦ onward next ]

-- Where a list of names leads from an inode.
unfoldable pub follow : (me ip : ℕ) → List (List ℕ) → Ino (Option ℕ)
follow me ip [] = pure (some ip)
follow me ip (name ∷ names) = descend me ip name (λ next. follow me next names)

-- A round of the loop, given what its rest does and the path without its leading slashes.
namei_round :
    (fuel me ip : ℕ) (path p : List ℕ) (t : Itable)
    → ((next : ℕ) (rest : List ℕ) (u : Itable)
        → length rest < fuel
        → namei_loop fuel me next rest u ≡ follow me next (names_of rest) u)
    → skip_slashes path ≡ p
    → length path < suc fuel
    → namei_loop (suc fuel) me ip path t ≡ follow me ip (names_of path) t
unfolding namei_loop skipelem cut follow
namei_round fuel me ip path [] t again e enough =
    let names = sym (names_of-skip_slashes path) ∙ ap names_of e ∙ names_of-nil in
    rw (e, namei_loop) (ap (λ z. follow me ip z t) (sym names))
namei_round fuel me ip path (c ∷ cs) t again e enough =
    let ne = skip_slashes-head path cs c e in
    let name = take dirsiz (elem_of (c ∷ cs)) in
    let rest = skip_slashes (after_elem (c ∷ cs)) in
    let short : length rest < fuel =
      omega (arith, length-rest c cs ne, length-skip_slashes path, ap (length {0}) e) in
    let names = sym (names_of-skip_slashes path) ∙ ap names_of e ∙ cut-names_of c cs ne in
    let onward : (λ next. namei_loop fuel me next rest) ≡ (λ next. follow me next (names_of rest)) =
      λ i next u. again next rest u short i in
    rw (e, namei_loop)
      (ap (λ z. descend me ip name z t) onward ∙ ap (λ z. follow me ip z t) (sym names))

namei_loop-follow :
    (fuel me ip : ℕ) (path : List ℕ) (t : Itable)
    → length path < fuel
    → namei_loop fuel me ip path t ≡ follow me ip (names_of path) t
namei_loop-follow zero me ip path t enough = absurd (omega arith)
namei_loop-follow (suc fuel) me ip path t enough =
    namei_round fuel me ip path (skip_slashes path) t (namei_loop-follow fuel me) refl enough

from_root_lem : (path : List ℕ) → from_root path ≡ (get_or path 0 0 == slash)
from_root_lem [] = refl
from_root_lem (c ∷ cs) = refl

-- `namei` walks the non-empty parts of the path between slashes, each cut to DIRSIZ bytes, in order:
-- from inode 1 of device 1 if the path begins with a slash, else from the working directory, which is
-- counted once more. Each inode is locked while the next name is looked up in it, and given back
-- before the next one is locked. The walk ends with no inode at a name that is not found, or is looked
-- for in something that is no directory.
pub namei-follow :
    (me cwd : ℕ) (path : List ℕ) (t : Itable)
    → namei me cwd path t
      ≡ (do
        ip ← if get_or path 0 0 == slash then iget 1 1 else idup cwd
        follow me ip (names_of path))
          t
unfolding namei
namei-follow me cwd path t =
    let walks : (λ ip. namei_loop (length path + 1) me ip path)
        ≡ (λ ip. follow me ip (names_of path)) =
      λ i ip u. namei_loop-follow (length path + 1) me ip path u (omega arith) i in
    ap (λ z. ((if from_root path then iget 1 1 else idup cwd) >>= z) t) walks
    ∙ ap (λ z. ((if z then iget 1 1 else idup cwd) >>= λ ip. follow me ip (names_of path)) t)
        (from_root_lem path)
