-- ===== src/Fs/PathName/Split.antt =====
-- The names of a path against an independent description: split at the slashes, and leave out the
-- empty parts.
use base_exp.Base.{
  ℕ, ◌≤◌, ◌≡◌, refl, sym, ◌∙◌, ap, false, ◌==◌, if◌then◌else◌, Bool-cases, inl, inr, List, [], ◌∷◌,
  map, take, length, arith,
}
use base_exp.Fs.PathName.{dirsiz, slash, skip_slashes, elem_of, after_elem}

-- Split at the slashes: the first part, and the parts after it.
pub split_at : List ℕ → List ℕ × List (List ℕ)
split_at [] = ([], [])
split_at (c ∷ cs) =
    let (first, rest) = split_at cs in if c == slash then ([], first ∷ rest) else (c ∷ first, rest)

abbrev pub cons_nonempty : List ℕ → List (List ℕ) → List (List ℕ)
cons_nonempty [] parts = parts
cons_nonempty (c ∷ cs) parts = (c ∷ cs) ∷ parts

abbrev pub nonempty : List (List ℕ) → List (List ℕ)
nonempty [] = []
nonempty (p ∷ ps) = cons_nonempty p (nonempty ps)

-- The parts of a path that are not empty, each cut to DIRSIZ bytes.
pub names_of : List ℕ → List (List ℕ)
names_of path = map (take dirsiz) (nonempty ((split_at path).0 ∷ (split_at path).1))

pub names_of-skip_slashes : (path : List ℕ) → names_of (skip_slashes path) ≡ names_of path
unfolding names_of skip_slashes split_at
names_of-skip_slashes [] = refl
names_of-skip_slashes (c ∷ cs) = elim (Bool-cases (c == slash)) [
  | inl e ↦ rw e (names_of-skip_slashes cs)
  | inr ne ↦ simp ne
]

split_at-elem_of : (path : List ℕ) → (split_at path).0 ≡ elem_of path
unfolding split_at elem_of
split_at-elem_of [] = refl
split_at-elem_of (c ∷ cs) = elim (Bool-cases (c == slash)) [
  | inl e ↦ rw e
  | inr ne ↦ rw ne (ap (λ z. c ∷ z) (split_at-elem_of cs))
]

-- Behind the first part the path is empty or goes on with a slash.
split_at-after_elem :
    (path : List ℕ) → map (take dirsiz) (nonempty (split_at path).1) ≡ names_of (after_elem path)
unfolding split_at after_elem names_of
split_at-after_elem [] = refl
split_at-after_elem (c ∷ cs) = elim (Bool-cases (c == slash)) [
  | inl e ↦ simp e
  | inr ne ↦ rw ne (split_at-after_elem cs)
]

pub length-skip_slashes : (path : List ℕ) → length (skip_slashes path) ≤ length path
unfolding skip_slashes
length-skip_slashes [] = omega arith
length-skip_slashes (c ∷ cs) = ground (arith, length-skip_slashes cs)

length-after_elem : (path : List ℕ) → length (after_elem path) ≤ length path
unfolding after_elem
length-after_elem [] = omega arith
length-after_elem (c ∷ cs) = ground (arith, length-after_elem cs)

pub skip_slashes-head :
    (path cs : List ℕ) (c : ℕ) → skip_slashes path ≡ c ∷ cs → (c == slash) ≡ false
unfolding skip_slashes
skip_slashes-head [] cs c h = absurd (cc)
skip_slashes-head (d ∷ ds) cs c h = elim (Bool-cases (d == slash)) [
  | inl e ↦ skip_slashes-head ds cs c (rw e at h)
  | inr ne ↦ ground arith
]

cut_first :
    (c : ℕ) (cs : List ℕ)
    → (c == slash) ≡ false
    → names_of (c ∷ cs)
      ≡ take dirsiz (elem_of (c ∷ cs)) ∷ map (take dirsiz) (nonempty (split_at (c ∷ cs)).1)
unfolding names_of split_at elem_of
cut_first c cs ne = simp (ne, split_at-elem_of cs)

-- One round: the path's first name, and the names of the rest.
pub cut-names_of :
    (c : ℕ) (cs : List ℕ)
    → (c == slash) ≡ false
    → names_of (c ∷ cs)
      ≡ take dirsiz (elem_of (c ∷ cs)) ∷ names_of (skip_slashes (after_elem (c ∷ cs)))
cut-names_of c cs ne =
    cut_first c cs ne
    ∙ ap (λ z. take dirsiz (elem_of (c ∷ cs)) ∷ z)
        (split_at-after_elem (c ∷ cs) ∙ sym (names_of-skip_slashes (after_elem (c ∷ cs))))

pub names_of-nil : names_of [] ≡ []
unfolding names_of split_at
names_of-nil = refl

pub length-rest :
    (c : ℕ) (cs : List ℕ)
    → (c == slash) ≡ false
    → length (skip_slashes (after_elem (c ∷ cs))) ≤ length cs
length-rest c cs ne =
    let a = length-skip_slashes (after_elem (c ∷ cs)) in
    let b = length-after_elem cs in
    let e : after_elem (c ∷ cs) ≡ after_elem cs = unfold after_elem in rw ne in
    omega (arith, ap (length {0}) e)
