-- ===== src/Fs/Files/Slots.antt =====
-- The descriptors of a process (kernel/fs/sysfile.c) as an array: which place `fdalloc` takes, and
-- which have a file.
use base_exp.Base.{
  Option-cases, ℕ, zero, suc, ◌<◌, ◌≡◌, inl, inr, refl, ap, Option, none, some, List, [], ◌∷◌,
  length, arith, ◌≢◌, get_elem?, set,
}
use mathlib.Core.Path.{subst}
use base_exp.Fs.Files.{Files, nofile, get_fd, set_fd, argfd, free_fd}

pub get_fd_bound : (fs : List (Option ℕ)) (fd f : ℕ) → get_fd fs fd ≡ some f → fd < length fs
unfolding get_fd
get_fd_bound [] fd f h = absurd (cc)
get_fd_bound (x ∷ xs) zero f h = omega arith
get_fd_bound (x ∷ xs) (suc fd) f h = omega (arith, get_fd_bound xs fd f h)

pub free_fd_lem :
    (fs : List (Option ℕ)) (fd : ℕ)
    → free_fd fs ≡ some fd
    → (get_fd fs fd ≡ none) × (fd < length fs)
unfolding free_fd get_fd
free_fd_lem [] fd h = absurd (cc)
free_fd_lem (none ∷ fs) zero h = (refl, omega arith)
free_fd_lem (none ∷ fs) (suc fd) h = absurd (ground arith)
free_fd_lem (some f ∷ fs) fd h = elim (Option-cases (free_fd fs)) [
  | inl e ↦ absurd (ground (arith, h, e))
  | inr (k, e) ↦
      let (empty, low) = free_fd_lem fs k e in
      let next : suc k ≡ fd = ground (arith, h, e) in
      subst (λ z. (get_fd (some f ∷ fs) z ≡ none) × (z < suc (length fs))) next (empty, omega arith)
]

-- A descriptor is for a file if the array has that file there.
pub get_elem?-get_fd :
    (fs : List (Option ℕ)) (fd f : ℕ) → get_fd fs fd ≡ some f → get_elem? fs fd ≡ some (some f)
unfolding get_fd
get_elem?-get_fd [] fd f h = absurd (cc)
get_elem?-get_fd (x ∷ xs) zero f h = ap some h
get_elem?-get_fd (x ∷ xs) (suc fd) f h = get_elem?-get_fd xs fd f h

pub get_fd-get_elem? :
    (fs : List (Option ℕ)) (fd f : ℕ) → get_elem? fs fd ≡ some (some f) → get_fd fs fd ≡ some f
unfolding get_fd
get_fd-get_elem? [] fd f h = absurd (cc)
get_fd-get_elem? (x ∷ xs) zero f h = cc
get_fd-get_elem? (x ∷ xs) (suc fd) f h = get_fd-get_elem? xs fd f h

pub set_fd-set : (fs : List (Option ℕ)) (fd : ℕ) (v : Option ℕ) → set_fd fs fd v ≡ set fs fd v
unfolding set_fd
set_fd-set [] fd v = refl
set_fd-set (x ∷ xs) zero v = refl
set_fd-set (x ∷ xs) (suc fd) v = ap (λ z. x ∷ z) (set_fd-set xs fd v)

pub argfd_lem : (fd f : ℕ) (s : Files) → argfd fd s ≡ some f → get_fd s.ofile fd ≡ some f
unfolding argfd
argfd_lem fd f s h = ground (arith, h)

-- No file is at the descriptor.
abbrev pub IsClosed : List (Option ℕ) → ℕ → Type 0
IsClosed fs fd = (f : ℕ) → get_elem? fs fd ≢ some (some f)

pub argfd-IsClosed :
    (fd : ℕ) (s : Files) → length s.ofile ≡ nofile → argfd fd s ≡ none → IsClosed s.ofile fd
unfolding argfd
argfd-IsClosed fd s l h f at =
    let here = get_fd-get_elem? s.ofile fd f at in
    let low = get_fd_bound s.ofile fd f here in absurd (ground arith)

-- The first place of the array with no file.
abbrev pub IsFirstFree : List (Option ℕ) → ℕ → Type 0
IsFirstFree fs new =
    (get_elem? fs new ≡ some none) × ((i : ℕ) → i < new → get_elem? fs i ≢ some none)

pub free_fd-IsFirstFree :
    (fs : List (Option ℕ)) (new : ℕ) → free_fd fs ≡ some new → IsFirstFree fs new
unfolding free_fd
free_fd-IsFirstFree [] new h = absurd (cc)
free_fd-IsFirstFree (none ∷ fs) zero h = (refl, λ i low. absurd (omega arith))
free_fd-IsFirstFree (none ∷ fs) (suc new) h = absurd (ground arith)
free_fd-IsFirstFree (some f ∷ fs) new h = elim (Option-cases (free_fd fs)) [
  | inl e ↦ absurd (ground (arith, h, e))
  | inr (k, e) ↦
      let next : suc k ≡ new = ground (arith, h, e) in
      let (at, before) = free_fd-IsFirstFree fs k e in
      subst (IsFirstFree (some f ∷ fs)) next (at, λ i low. below k before i low)
]
  where
    below :
        (k : ℕ)
        → ((i : ℕ) → i < k → get_elem? fs i ≢ some none)
        → (i : ℕ) → i < suc k
        → get_elem? (some f ∷ fs) i ≢ some none
    below k before zero low e = absurd (cc)
    below k before (suc i) low e = before i (omega arith) e

pub free_fd_full : (fs : List (Option ℕ)) → free_fd fs ≡ none → (i : ℕ) → get_elem? fs i ≢ some none
unfolding free_fd
free_fd_full [] h i e = absurd (cc)
free_fd_full (none ∷ fs) h i e = absurd (cc)
free_fd_full (some f ∷ fs) h zero e = absurd (cc)
free_fd_full (some f ∷ fs) h (suc i) e = elim (Option-cases (free_fd fs)) [
  | inl full ↦ free_fd_full fs full i e
  | inr (k, free) ↦ absurd (ground (arith, h, free))
]
