-- ===== src/Fs/Files/Counted.antt =====
-- Reference counts of open files (kernel/fs/file.c, kernel/fs/sysfile.c): `sys_dup` and `sys_close`
-- keep them equal to the number of descriptors.
use base_exp.Base.{
  Option-cases, ℕ, zero, suc, ◌+◌, ◌-◌, ◌<◌, ◌≡◌, ◌⊎◌, inl, inr, refl, ◌∙◌, ap, true, false, ◌==◌,
  ltb, if◌then◌else◌, Bool-cases, Option, none, some, List, [], ◌∷◌, length, arith, done, Returns,
  Returns-bind, ◌≢◌, get_elem?, set,
}
use base_exp.Fs.Files.{
  File, fd_none, Files, set_file, nofile, filedup, fileclose, get_fd, set_fd, argfd, free_fd,
  fdalloc, sys_dup, sys_close,
}
use base_exp.Fs.Files.Slots.{
  get_fd_bound, free_fd_lem, get_elem?-get_fd, set_fd-set, argfd_lem, IsClosed, argfd-IsClosed,
  IsFirstFree, free_fd-IsFirstFree, free_fd_full,
}

abbrev pub is_file : ℕ → Option ℕ → ℕ
is_file g none = 0
is_file g (some f) = if f == g then 1 else 0

-- How many of the descriptors are for file `g`.
abbrev pub count : ℕ → List (Option ℕ) → ℕ
count g [] = 0
count g (f ∷ fs) = is_file g f + count g fs

-- Each file's count is that of its descriptors, of this process and of the others.
abbrev pub IsCounted : (ℕ → ℕ) → Files → Type 0
IsCounted others s = (g : ℕ) → (s.file g).ref ≡ others g + count g s.ofile

count-set_fd :
    (fs : List (Option ℕ)) (fd g : ℕ) (v : Option ℕ)
    → fd < length fs
    → count g (set_fd fs fd v) + is_file g (get_fd fs fd) ≡ count g fs + is_file g v
unfolding set_fd get_fd
count-set_fd [] fd g v h = absurd (omega arith)
count-set_fd (f ∷ fs) zero g v h = omega arith
count-set_fd (f ∷ fs) (suc fd) g v h = omega (arith, count-set_fd fs fd g v (omega arith))

ref_of :
    (file : ℕ → File) (f g : ℕ) (b : File)
    → (set_file file f b g).ref ≡ (if g == f then b.ref else (file g).ref)
ref_of file f g b = elim (Bool-cases (g == f)) [ inl e ↦ rw e refl | inr ne ↦ rw ne refl ]

is_file-cases :
    (file : ℕ → File) (f g : ℕ)
    → ((g == f) ≡ true) × (is_file g (some f) ≡ 1) × ((file g).ref ≡ (file f).ref)
      ⊎ ((g == f) ≡ false) × (is_file g (some f) ≡ 0)
is_file-cases file f g = elim (Bool-cases (g == f)) [
  | inl e ↦ let same : g ≡ f = ground arith in inl (e, ground arith, ap (λ z. (file z).ref) same)
  | inr ne ↦ inr (ne, ground arith)
]

module _ (others : ℕ → ℕ) (s : Files) (fd f : ℕ) (inv : IsCounted others s) where
  -- Descriptor `fd`, which was free, is now for `f`, and `f` is counted once more.
  opened :
      get_fd s.ofile fd ≡ none
      → fd < length s.ofile
      → (g : ℕ)
      → (set_file s.file f (record (s.file f) { ref = (s.file f).ref + 1 }) g).ref
        ≡ others g + count g (set_fd s.ofile fd (some f))
  opened empty low g =
      let split = count-set_fd s.ofile fd g (some f) low in
      let was : is_file g (get_fd s.ofile fd) ≡ 0 = rw empty refl in
      let now = inv g in
      ref_of s.file f g (record (s.file f) { ref = (s.file f).ref + 1 })
      ∙ elim (is_file-cases s.file f g) [
        | inl (e, one, same) ↦ rw e (omega arith)
        | inr (ne, none_here) ↦ rw ne (omega arith)
      ]

  -- Descriptor `fd`, which was for `f`, is now free, and `f` is counted once less.
  closed :
      (b : File)
      → get_fd s.ofile fd ≡ some f
      → b.ref ≡ (s.file f).ref - 1
      → (g : ℕ) → (set_file s.file f b g).ref ≡ others g + count g (set_fd s.ofile fd none)
  closed b at less g =
      let split = count-set_fd s.ofile fd g none (get_fd_bound s.ofile fd f at) in
      let was : is_file g (get_fd s.ofile fd) ≡ is_file g (some f) = rw at refl in
      let now = inv g in
      ref_of s.file f g b ∙ elim (is_file-cases s.file f g) [
        | inl (e, one, same) ↦ rw e (omega arith)
        | inr (ne, none_here) ↦ rw ne (omega arith)
      ]

  -- A file that a descriptor is for is counted.
  used : get_fd s.ofile fd ≡ some f → 0 < (s.file f).ref
  used at =
      let split = count-set_fd s.ofile fd f none (get_fd_bound s.ofile fd f at) in
      let was : is_file f (get_fd s.ofile fd) ≡ 1 = rw at (ground arith) in
      let now = inv f in omega arith

  close_run :
      get_fd s.ofile fd ≡ some f
      → Returns
          (λ _ t. IsCounted others t × (t.ofile ≡ set_fd s.ofile fd none))
          (fileclose f (record s { ofile = set_fd s.ofile fd none }))
  unfolding fileclose
  close_run at =
      let u = used at in
      let z : ltb (s.file f).ref 1 ≡ false = ground arith in
      elim (Bool-cases (ltb 0 ((s.file f).ref - 1))) [
        | inl more ↦
            rw (z, more) (closed (record (s.file f) { ref = (s.file f).ref - 1 }) at refl, refl)
        | inr last ↦
            rw (z, last)
              (closed (record (s.file f) { ref = 0; type = fd_none }) at (ground arith), refl)
      ]

-- How `sys_close` ends.
abbrev pub Closed : (fd : ℕ) → Files → Option ℕ → Files → Type 0
Closed fd s r t =
    IsClosed s.ofile fd × (r ≡ none) × (t ≡ s)
    ⊎ (f : ℕ) × (get_elem? s.ofile fd ≡ some (some f))
      × (r ≡ some 0)
      × (t.ofile ≡ set s.ofile fd none)

-- How `sys_dup` ends.
abbrev pub Duplicated : (fd : ℕ) → Files → Option ℕ → Files → Type 0
Duplicated fd s r t =
    (IsClosed s.ofile fd ⊎ ((i : ℕ) → get_elem? s.ofile i ≢ some none)) × (r ≡ none) × (t ≡ s)
    ⊎ (f : ℕ) × (new : ℕ) × (get_elem? s.ofile fd ≡ some (some f))
      × IsFirstFree s.ofile new
      × (r ≡ some new)
      × (t.ofile ≡ set s.ofile new (some f))

-- `sys_close`, with NOFILE descriptors, does not panic: with a descriptor of a file it frees the
-- descriptor and returns 0, with another it changes nothing and returns -1; each file's count is that
-- of its descriptors again.
pub sys_close-IsCounted :
    (others : ℕ → ℕ) (s : Files) (fd : ℕ)
    → IsCounted others s
    → length s.ofile ≡ nofile
    → Returns (λ r t. IsCounted others t × Closed fd s r t) (sys_close fd s)
unfolding sys_close
sys_close-IsCounted others s fd inv all_of = elim (Option-cases (argfd fd s)) [
  | inl e ↦ rw (e, sys_close) (inv, inl (argfd-IsClosed fd s all_of e, refl, refl))
  | inr (f, e) ↦
      let at = argfd_lem fd f s e in
      rw (e, sys_close)
        (Returns-bind (λ _ t. IsCounted others t × (t.ofile ≡ set_fd s.ofile fd none))
          (λ r t. IsCounted others t × Closed fd s r t)
          (fileclose f (record s { ofile = set_fd s.ofile fd none })) (λ _ t. done (some 0) t)
          (close_run others s fd f inv at)
          (λ _ t (counted, freed). (
            counted,
            inr (f, get_elem?-get_fd s.ofile fd f at, refl, freed ∙ set_fd-set s.ofile fd none),
          )))
]

-- `sys_dup`, with NOFILE descriptors, does not panic: with a descriptor of a file and a free one, it
-- makes the first free one a descriptor of the same file and returns it, else it changes nothing and
-- returns -1; each file's count is that of its descriptors again.
pub sys_dup-IsCounted :
    (others : ℕ → ℕ) (s : Files) (fd : ℕ)
    → IsCounted others s
    → length s.ofile ≡ nofile
    → Returns (λ r t. IsCounted others t × Duplicated fd s r t) (sys_dup fd s)
unfolding sys_dup fdalloc filedup
sys_dup-IsCounted others s fd inv all_of = elim (Option-cases (argfd fd s)) [
  | inl e ↦ rw (e, sys_dup) (inv, inl (inl (argfd-IsClosed fd s all_of e), refl, refl))
  | inr (f, e) ↦ elim (Option-cases (free_fd s.ofile)) [
    | inl full ↦
        rw (e, full, sys_dup, fdalloc) (inv, inl (inr (free_fd_full s.ofile full), refl, refl))
    | inr (new, free) ↦
        let at = argfd_lem fd f s e in
        let u = used others s fd f inv at in
        let z : ltb (s.file f).ref 1 ≡ false = ground arith in
        let (empty, low) = free_fd_lem s.ofile new free in
        rw (e, free, z, sys_dup, fdalloc, filedup)
          (
            opened others s new f inv empty low,
            inr (
              f,
              new,
              get_elem?-get_fd s.ofile fd f at,
              free_fd-IsFirstFree s.ofile new free,
              refl,
              set_fd-set s.ofile new (some f),
            ),
          )
  ]
]
