-- ===== src/User/Shell.antt =====
-- The shell (user/bin/sh.c): `parsecmd`, which cuts a line into words in place.
pub mod Words
pub mod Cutting
pub mod Line
pub mod Editor
mod Tests
use base_exp.Base.{
  ℕ, zero, suc, ◌+◌, ◌-◌, Bool, true, false, not, ◌||◌, ◌==◌, leb, if◌then◌else◌, List, [], ◌∷◌,
  length, Run, Cmd, done, panic, starved, pure, fail, get, ◌>>=◌, ◌>>◌,
}

abbrev pub maxargs : ℕ
maxargs = 10

abbrev pub blank_char : ℕ → Bool
blank_char c = c == b' ' || c == b'\t' || c == b'\r' || c == b'\n'

abbrev pub is_quote : ℕ → Bool
is_quote c = c == 39 || c == b'"'

-- The two pointers of `parsecmd` into the memory that the buffer is in.
pub record Parsing : Type 0 where
  pub byte : ℕ → ℕ
  pub src : ℕ
  pub dst : ℕ

abbrev pub at_src : Parsing → ℕ
at_src s = s.byte s.src

abbrev pub store_char : (ℕ → ℕ) → ℕ → ℕ → ℕ → ℕ
store_char byte a c b = if b == a then c else byte b

-- `src++`.
abbrev pub skip_char : Parsing → Parsing
skip_char s = record s { src = s.src + 1 }

-- `*dst++ = c`.
abbrev pub append_char : ℕ → Parsing → Parsing
append_char c s = record s { byte = store_char s.byte s.dst c; dst = s.dst + 1 }

-- `*dst++ = *src++`.
abbrev pub copy_char : Parsing → Parsing
copy_char s = skip_char (append_char (at_src s) s)

-- The loop over blanks before a word.
unfoldable pub skip_blanks : ℕ → Cmd Parsing (Unit {0})
skip_blanks zero s = starved s
skip_blanks (suc fuel) s =
    let rest = skip_blanks fuel (skip_char s) in if blank_char (at_src s) then rest else done tt s

-- The loop between two quotes.
unfoldable pub copy_quoted : ℕ → (quote : ℕ) → Cmd Parsing (Unit {0})
copy_quoted zero quote s = starved s
copy_quoted (suc fuel) quote s =
    let rest = copy_quoted fuel quote (copy_char s) in
    if at_src s == 0 || at_src s == quote then done tt s else rest

abbrev pub close_quote : ℕ → Parsing → Parsing
close_quote quote s = if at_src s == quote then skip_char s else s

-- The loop over a word.
unfoldable pub copy_word : ℕ → Cmd Parsing (Unit {0})
unfolding copy_quoted
copy_word zero s = starved s
copy_word (suc fuel) s =
    let plain = copy_word fuel (copy_char s) in
    let quoted =
      (do copy_quoted fuel (at_src s); (λ t. copy_word fuel (close_quote (at_src s) t)))
        (skip_char s) in
    if at_src s == 0 || blank_char (at_src s)
    then done tt s
    else if is_quote (at_src s)
    then quoted
    else plain

-- What follows a word: its NUL is written after the blank behind it was read.
abbrev pub end_word : Parsing → Parsing
end_word s = append_char 0 (if blank_char (at_src s) then skip_char s else s)

-- A round of the loop of `parsecmd` after the blanks, with `argc` words found before; `others` is
-- the rounds after it. The addresses of the words are returned.
unfoldable pub next_word : (fuel argc : ℕ) → Cmd Parsing (List ℕ) → Cmd Parsing (List ℕ)
unfolding copy_word
next_word fuel argc others s =
    if at_src s == 0
    then done [] s
    else if leb (maxargs - 1) argc
    then panic "too many args"
    else (do copy_word fuel; (λ t. done tt (end_word t)); argv ← others; pure (s.dst ∷ argv)) s

-- The loop of `parsecmd`.
unfoldable pub parse_words : ℕ → (argc : ℕ) → Cmd Parsing (List ℕ)
unfolding skip_blanks next_word
parse_words zero argc s = starved s
parse_words (suc fuel) argc s =
    if at_src s == 0
    then done [] s
    else (do skip_blanks (suc fuel); next_word (suc fuel) argc (parse_words fuel (argc + 1))) s

-- `parsecmd(buf, argv)` of a string of at most `len` bytes; the count is the length of the list.
unfoldable pub parsecmd : (byte : ℕ → ℕ) → (buf len : ℕ) → Run Parsing (List ℕ)
unfolding parse_words
parsecmd byte buf len = parse_words (len + 1) 0 (record { byte = byte; src = buf; dst = buf })
