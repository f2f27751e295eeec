-- ===== src/User/Shell/Editor.antt =====
-- The line editor of the shell: `getcmd` (user/bin/sh.c). The line is the list of its bytes; a buffer
-- of `nbuf` bytes holds them and a NUL.
pub mod Completion
pub mod Keys
pub mod Redrawn
pub mod Bounds
pub mod Pressing
pub mod Saving
pub mod Quoting
pub mod Session
use base_exp.Base.{
  ℕ, zero, suc, ◌+◌, ◌-◌, ◌*◌, Bool, true, false, not, ◌&&◌, ◌||◌, ◌==◌, leb, ltb, if◌then◌else◌,
  Option, none, some, List, [], ◌∷◌, ◌++◌, map, take, drop, length, get_or,
}
use base_exp.Fs.PathName.{dirsiz}
use base_exp.User.Utf8.{
  utf8_input_len, utf8_next, utf8_prev, utf8_text_width, term_append_uint, term_move_cursor,
  term_clear_eol,
}
use base_exp.User.Shell.{blank_char}

abbrev pub histsize : ℕ
histsize = 16

-- `input` is what is still to be read, `output` what was written. `overrun` says whether a write went
-- past the end of `draft`, of `out` in `redraw`, or of `history`.
pub record Editor : Type 0 where
  pub line : List ℕ
  pub cursor : ℕ
  pub hpos : ℕ
  pub saved : Bool
  pub draft : List ℕ
  pub history : List (List ℕ)
  pub input : List ℕ
  pub output : List ℕ
  pub overrun : Bool

-- The bytes before the first NUL.
unfoldable pub c_string : List ℕ → List ℕ
c_string [] = []
c_string (c ∷ cs) = let rest = c_string cs in if c == 0 then [] else c ∷ rest

unfoldable pub same_bytes : List ℕ → List ℕ → Bool
same_bytes [] [] = true
same_bytes [] (d ∷ ds) = false
same_bytes (c ∷ cs) [] = false
same_bytes (c ∷ cs) (d ∷ ds) = let rest = same_bytes cs ds in if c == d then rest else false

abbrev pub print : List ℕ → Editor → Editor
print bytes e = record e { output = e.output ++ bytes }

-- What `redraw` puts into `out`.
abbrev pub redrawn : Editor → List ℕ
redrawn e =
    let tail = utf8_text_width e.line e.cursor (length e.line) in
    13 ∷ 27 ∷ b'[' ∷ b'2' ∷ b'K' ∷ b'$' ∷ b' ' ∷ e.line
    ++ (if ltb 0 tail then 27 ∷ b'[' ∷ term_append_uint tail ++ (b'D' ∷ []) else [])

unfoldable pub redraw : Editor → Editor
redraw e = print (redrawn e) (record e { overrun = e.overrun || ltb 140 (length (redrawn e)) })

unfoldable pub redraw_from : Editor → Editor
redraw_from e =
    print
      (drop e.cursor e.line
        ++ term_clear_eol
        ++ term_move_cursor b'D' (utf8_text_width e.line e.cursor (length e.line)))
      e

-- With the number of bytes that were inserted.
unfoldable pub insert_bytes : (nbuf : ℕ) → List ℕ → Editor → Editor × ℕ
insert_bytes nbuf s e = if leb nbuf (length e.line + length s) then (e, 0) else (
  record e {
    line = take e.cursor e.line ++ s ++ drop e.cursor e.line;
    cursor = e.cursor + length s;
  },
  length s,
)

unfoldable pub delete_range : (start end : ℕ) → Editor → Editor
delete_range start end e =
    let line = take start e.line ++ drop end e.line in
    record e { line = line; cursor = if ltb (length line) e.cursor then length line else e.cursor }

unfoldable pub blank_line : List ℕ → Bool
blank_line [] = true
blank_line (c ∷ cs) = let rest = blank_line cs in if c == b' ' || c == b'\t' then rest else false

-- `if (len > 0 && buf[len - 1] == '\n') len--;`.
abbrev pub without_newline : List ℕ → List ℕ
without_newline line =
    if ltb 0 (length line) && get_or line (length line - 1) 0 == b'\n'
    then take (length line - 1) line
    else line

abbrev pub is_last : List (List ℕ) → List ℕ → Bool
is_last history line =
    ltb 0 (length history) && same_bytes (c_string (get_or history (length history - 1) [])) line

-- `strcpy` of each entry to the place before it.
abbrev pub make_room : List (List ℕ) → List (List ℕ)
make_room history = if length history == histsize then map c_string (drop 1 history) else history

-- The size of `draft` and of an entry of `history`.
abbrev pub line_size : ℕ
line_size = 100

unfoldable pub save_history : Editor → Editor
unfolding blank_line c_string same_bytes
save_history e =
    let line = without_newline e.line in
    let room = make_room e.history in
    if blank_line line || is_last e.history line then e else record e {
      history = room ++ (line ∷ []);
      overrun = e.overrun || not (ltb (length line) line_size) || not (ltb (length room) histsize);
    }

-- `set_line` to a string.
unfoldable pub set_line : (nbuf : ℕ) → List ℕ → Editor → Editor
set_line nbuf src e =
    let line = take (nbuf - 1) (c_string src) in record e { line = line; cursor = length line }
