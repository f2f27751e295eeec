-- ===== src/User/Shell/Tests.antt =====
-- Runs of the shell's parser.
use base_exp.Base.{
  ℕ, ◌-◌, ◌<◌, ◌≤◌, ◌≡◌, refl, zero, suc, ◌++◌, Bool, true, false, ltb, if◌then◌else◌, List, [],
  ◌∷◌, get_or, length, arith, Run, done, panic, asleep, out_of_fuel, none, some, Returns,
}
use base_exp.User.Shell.{Parsing, parsecmd}
use base_exp.User.Shell.Words.{outside, words_of, HasWords}
use base_exp.User.Shell.Line.{parsecmd-words}
use base_exp.User.Shell.Editor.{Editor}
use base_exp.User.Shell.Editor.Completion.{Around, complete_token}
use base_exp.User.Shell.Editor.Quoting.{with_before, complete_token-before}
use base_exp.User.Shell.Editor.Keys.{getcmd}
use base_exp.User.Shell.Editor.Pressing.{Keeps}
use base_exp.User.Shell.Editor.Saving.{IsKept}
use base_exp.User.Shell.Editor.Session.{getcmd-Keeps}

-- ` a 'b "c'd`, with a blank within the quotes.
abbrev quoted_line : List ℕ
quoted_line = b' ' ∷ b'a' ∷ b' ' ∷ 39 ∷ b'b' ∷ b' ' ∷ b'"' ∷ b'c' ∷ 39 ∷ b'd' ∷ []

abbrev line_at : List ℕ → ℕ → ℕ → ℕ
line_at line buf i = if ltb i buf then 7 else get_or line (i - buf) 0

words_of-quoted_line :
    words_of outside [] quoted_line ≡ (b'a' ∷ []) ∷ (b'b' ∷ b' ' ∷ b'"' ∷ b'c' ∷ b'd' ∷ []) ∷ []
unfolding words_of
words_of-quoted_line = refl

few_words : length (words_of outside [] quoted_line) ≤ 9
unfolding words_of
few_words = omega arith

parsecmd-words_example :
    Returns
      (λ argv t.
        HasWords t.byte argv (words_of outside [] quoted_line)
        × ((i : ℕ) → i < 16 → t.byte i ≡ line_at quoted_line 16 i))
      (parsecmd (line_at quoted_line 16) 16 100)
parsecmd-words_example =
    parsecmd-words (line_at quoted_line 16) 16 100 quoted_line
      (
        refl,
        refl,
        (
          refl,
          refl,
          (
            refl,
            refl,
            (
              refl,
              refl,
              (
                refl,
                refl,
                (refl, refl, (refl, refl, (refl, refl, (refl, refl, (refl, refl, refl))))),
              ),
            ),
          ),
        ),
      )
      (omega arith) few_words

-- Up, an `x`, and Enter.
abbrev keys : List ℕ
keys = 27 ∷ b'[' ∷ b'A' ∷ b'x' ∷ b'\n' ∷ []

abbrev one_command : List (List ℕ)
one_command = (b'l' ∷ b's' ∷ []) ∷ []

-- A directory that cannot be opened.
abbrev no_directory : Around
no_directory = record { entries = none; name = λ _. []; match = λ _. []; before = λ _. 0 }

getcmd-Keeps_example : Keeps (IsKept 100) (getcmd 100 no_directory one_command keys)
getcmd-Keeps_example =
    getcmd-Keeps 100 no_directory one_command keys (omega arith) (omega arith) (omega arith)

-- The line and the history that it leads to.
abbrev ends_in : Run Editor Bool → List ℕ × List (List ℕ)
ends_in (done ok e) = (e.line, e.history)
ends_in (panic why) = ([], [])
ends_in asleep = ([], [])
ends_in out_of_fuel = ([], [])

getcmd-keys :
    ends_in (getcmd 100 no_directory one_command keys)
    ≡ (b'l' ∷ b's' ∷ b'x' ∷ b'\n' ∷ [], (b'l' ∷ b's' ∷ []) ∷ (b'l' ∷ b's' ∷ b'x' ∷ []) ∷ [])
unfolding getcmd base_exp.User.Shell.Editor.redraw base_exp.User.Shell.Editor.set_line
    base_exp.User.Shell.Editor.c_string base_exp.User.Shell.Editor.insert_bytes
    base_exp.User.Shell.Editor.save_history
getcmd-keys = refl

-- What was in the memory before.
abbrev repeated : ℕ → List ℕ
repeated zero = []
repeated (suc n) = b'x' ∷ repeated n

-- With the cursor on an opening quote, Tab makes the length of the token -1, and inserts the byte before
-- `match` with the name.
abbrev one_file : Around
one_file = record {
  entries = some (record { inum = 3; name = b'c' ∷ b'a' ∷ b't' ∷ [] } ∷ []);
  name = λ _. repeated 15;
  match = λ _. repeated 15;
  before = λ _. 42;
}

getcmd-before_quote :
    (ends_in (getcmd 100 one_file [] (39 ∷ 27 ∷ b'[' ∷ b'D' ∷ b'\t' ∷ []))).0
    ≡ 42 ∷ b'c' ∷ b'a' ∷ b't' ∷ 39 ∷ []
unfolding getcmd base_exp.User.Shell.Editor.insert_bytes base_exp.User.Shell.Editor.same_bytes
    base_exp.User.Shell.Editor.c_string base_exp.User.Shell.Editor.Completion.has_char
    base_exp.User.Shell.Editor.Completion.find_matches
    base_exp.User.Shell.Editor.Completion.match_prefix base_exp.User.Utf8.utf8_prev
    base_exp.User.Shell.Editor.Completion.complete_token base_exp.User.Shell.Editor.redraw
    base_exp.User.Shell.Editor.Completion.insert_match
getcmd-before_quote = refl

-- Up copies a line of 100 bytes past the end of `draft` if the buffer is larger.
abbrev overrun_in : Run Editor Bool → Bool
overrun_in (done ok e) = e.overrun
overrun_in _ = false

getcmd-long_line :
    overrun_in (getcmd 200 no_directory one_command (repeated 100 ++ (27 ∷ b'[' ∷ b'A' ∷ [])))
    ≡ true
unfolding getcmd base_exp.User.Shell.Editor.redraw base_exp.User.Shell.Editor.set_line
    base_exp.User.Shell.Editor.c_string base_exp.User.Shell.Editor.insert_bytes
    base_exp.User.Shell.Editor.save_history
getcmd-long_line = refl

-- A `c` is typed, and the cursor is behind it.
abbrev typed_c : Editor
typed_c = record {
  line = b'c' ∷ [];
  cursor = 1;
  hpos = 0;
  saved = false;
  draft = [];
  history = [];
  input = [];
  output = [];
  overrun = false;
}

complete_token-before_example :
    complete_token 100 one_file typed_c ≡ complete_token 100 (with_before one_file 7) typed_c
complete_token-before_example = complete_token-before 100 7 one_file typed_c refl

complete_token-typed_c : (complete_token 100 one_file typed_c).0.line ≡ b'c' ∷ b'a' ∷ b't' ∷ []
unfolding base_exp.User.Shell.Editor.insert_bytes base_exp.User.Shell.Editor.same_bytes
    base_exp.User.Shell.Editor.c_string base_exp.User.Shell.Editor.Completion.has_char
    base_exp.User.Shell.Editor.Completion.find_matches
    base_exp.User.Shell.Editor.Completion.match_prefix complete_token
    base_exp.User.Shell.Editor.Completion.insert_match
    base_exp.User.Shell.Editor.Completion.token_start
    base_exp.User.Shell.Editor.Completion.first_token
complete_token-typed_c = refl
