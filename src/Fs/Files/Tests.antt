-- ===== src/Fs/Files/Tests.antt =====
-- Descriptors on concrete inputs.
use base_exp.Base.{ℕ, refl, true, ◌==◌, if◌then◌else◌, none, some, [], ◌∷◌, arith, Returns}
use base_exp.Fs.Files.{fd_none, fd_device, Files, sys_dup, sys_close}
use base_exp.Fs.Files.Counted.{
  IsCounted, Closed, Duplicated, sys_dup-IsCounted, sys_close-IsCounted,
}

-- File 3, the console, is descriptor 0 here, the only one of the NOFILE, and one more elsewhere.
abbrev console : Files
console = record {
  file = λ f. record {
    type = if f == 3 then fd_device else fd_none;
    ref = if f == 3 then 2 else 0;
    readable = true;
    writable = true;
    ip = 1;
    off = 0;
    major = 1;
  };
  ofile =
      some 3
      ∷ none
      ∷ none
      ∷ none
      ∷ none
      ∷ none
      ∷ none
      ∷ none
      ∷ none
      ∷ none
      ∷ none
      ∷ none
      ∷ none
      ∷ none
      ∷ none
      ∷ none
      ∷ [];
  put = [];
}

abbrev elsewhere : ℕ → ℕ
elsewhere f = if f == 3 then 1 else 0

console-IsCounted : IsCounted elsewhere console
console-IsCounted g = ground arith

sys_dup-IsCounted_example :
    Returns (λ r t. IsCounted elsewhere t × Duplicated 0 console r t) (sys_dup 0 console)
sys_dup-IsCounted_example = sys_dup-IsCounted elsewhere console 0 console-IsCounted refl

sys_close-IsCounted_example :
    Returns (λ r t. IsCounted elsewhere t × Closed 0 console r t) (sys_close 0 console)
sys_close-IsCounted_example = sys_close-IsCounted elsewhere console 0 console-IsCounted refl
