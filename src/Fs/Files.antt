-- ===== src/Fs/Files.antt =====
-- Open files (kernel/fs/file.c) and a process's descriptors (kernel/fs/sysfile.c). A file is its
-- index in `ftable.file`; `ofile` is the array of the calling process, with `none` for a null
-- pointer. An `int` argument is its 32 bits, a negative one a number of at least 2 ^ 31. `put` are
-- the inodes handed to `iput`, the last one first.
pub mod Slots
pub mod Counted
mod Tests
use base_exp.Base.{
  ℕ, zero, suc, ◌+◌, ◌-◌, Bool, ◌==◌, ltb, leb, if◌then◌else◌, Option, none, some, List, [], ◌∷◌,
  Run, Cmd, done, panic, pure, ◌>>=◌, ◌>>◌,
}

pub data FileType : Type 0 where
  fd_none : FileType
  fd_inode : FileType
  fd_device : FileType

pub record File : Type 0 where
  pub type : FileType
  pub ref : ℕ
  pub readable : Bool
  pub writable : Bool
  pub ip : ℕ
  pub off : ℕ
  pub major : ℕ

pub record Files : Type 0 where
  pub file : ℕ → File
  pub ofile : List (Option ℕ)
  pub put : List ℕ

abbrev pub nfile : ℕ
nfile = 100

abbrev pub nofile : ℕ
nofile = 16

abbrev pub set_file : (ℕ → File) → ℕ → File → ℕ → File
set_file file f b g = if g == f then b else file g

-- The loop of `filealloc` over the `n` files from `f` on.
unfoldable pub free_file : (ℕ → File) → (f n : ℕ) → Option ℕ
free_file file f zero = none
free_file file f (suc n) =
    let rest = free_file file (f + 1) n in if (file f).ref == 0 then some f else rest

unfoldable pub filealloc : Cmd Files (Option ℕ)
unfolding free_file
filealloc s = elim (free_file s.file 0 nfile) [
  | none ↦ done none s
  | some f ↦ done (some f) (record s { file = set_file s.file f (record (s.file f) { ref = 1 }) })
]

unfoldable pub filedup : ℕ → Cmd Files ℕ
filedup f s =
    if ltb (s.file f).ref 1
    then panic "filedup"
    else done f
        (record s { file = set_file s.file f (record (s.file f) { ref = (s.file f).ref + 1 }) })

abbrev pub put_of : File → List ℕ → List ℕ
put_of f put = elim f.type [ fd_none ↦ put | fd_inode ↦ f.ip ∷ put | fd_device ↦ f.ip ∷ put ]

unfoldable pub fileclose : ℕ → Cmd Files (Unit {0})
fileclose f s =
    if ltb (s.file f).ref 1
    then panic "fileclose"
    else if ltb 0 ((s.file f).ref - 1)
    then done tt
        (record s { file = set_file s.file f (record (s.file f) { ref = (s.file f).ref - 1 }) })
    else done tt (record s {
      file = set_file s.file f (record (s.file f) { ref = 0; type = fd_none });
      put = put_of (s.file f) s.put;
    })

unfoldable pub get_fd : List (Option ℕ) → ℕ → Option ℕ
get_fd [] fd = none
get_fd (f ∷ fs) zero = f
get_fd (f ∷ fs) (suc fd) = get_fd fs fd

unfoldable pub set_fd : List (Option ℕ) → ℕ → Option ℕ → List (Option ℕ)
set_fd [] fd v = []
set_fd (f ∷ fs) zero v = v ∷ fs
set_fd (f ∷ fs) (suc fd) v = f ∷ set_fd fs fd v

-- The descriptor's file.
unfoldable pub argfd : ℕ → Files → Option ℕ
unfolding get_fd
argfd fd s = if leb nofile fd then none else get_fd s.ofile fd

-- The loop of `fdalloc`: the first null pointer.
unfoldable pub free_fd : List (Option ℕ) → Option ℕ
free_fd [] = none
free_fd (none ∷ fs) = some 0
free_fd (some f ∷ fs) = elim (free_fd fs) [ none ↦ none | some fd ↦ some (suc fd) ]

unfoldable pub fdalloc : ℕ → Cmd Files (Option ℕ)
unfolding free_fd set_fd
fdalloc f s = elim (free_fd s.ofile) [
  | none ↦ done none s
  | some fd ↦ done (some fd) (record s { ofile = set_fd s.ofile fd (some f) })
]

-- `none` is -1.
unfoldable pub sys_dup : ℕ → Cmd Files (Option ℕ)
sys_dup fd s = elim (argfd fd s) [
  | none ↦ done none s
  | some f ↦
      (do new ← fdalloc f; elim new [ none ↦ pure none | some fd ↦ do filedup f; pure (some fd) ]) s
]

unfoldable pub sys_close : ℕ → Cmd Files (Option ℕ)
sys_close fd s = elim (argfd fd s) [
  | none ↦ done none s
  | some f ↦ (do fileclose f; pure (some 0)) (record s { ofile = set_fd s.ofile fd none })
]
