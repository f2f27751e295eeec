-- ===== src/Fs/PathName.antt =====
-- `skipelem` (kernel/fs/fs.c). A C string is the list of its
-- bytes before the NUL. The name buffer holds the bytes up to a NUL, at most DIRSIZ of them.
pub mod Split
mod Tests
use base_exp.Base.{
  ℕ, zero, suc, ◌+◌, Bool, true, false, ◌==◌, if◌then◌else◌, Option, none, some, List, [], ◌∷◌,
  take, length,
}

abbrev pub dirsiz : ℕ
dirsiz = 14

abbrev pub slash : ℕ
slash = b'/'

-- `while (*path == '/') path++;`
unfoldable pub skip_slashes : List ℕ → List ℕ
skip_slashes [] = []
skip_slashes (c ∷ cs) = if c == slash then skip_slashes cs else c ∷ cs

-- `while (*path != '/' && *path != 0) path++;`: the bytes passed over, and those left.
unfoldable pub elem_of : List ℕ → List ℕ
elem_of [] = []
elem_of (c ∷ cs) = if c == slash then [] else c ∷ elem_of cs

unfoldable pub after_elem : List ℕ → List ℕ
after_elem [] = []
after_elem (c ∷ cs) = if c == slash then c ∷ cs else after_elem cs

-- The name and the rest of the path, from the first byte that is no slash.
unfoldable pub cut : List ℕ → Option (List ℕ × List ℕ)
cut [] = none
cut (c ∷ cs) = some (take dirsiz (elem_of (c ∷ cs)), skip_slashes (after_elem (c ∷ cs)))

unfoldable pub skipelem : List ℕ → Option (List ℕ × List ℕ)
unfolding cut
skipelem path = cut (skip_slashes path)
