-- ===== src/User/Shell/Editor/Keys.antt =====
-- The keys of `getcmd` (user/bin/sh.c). A read of the console takes a byte of the input, and fails
-- at its end.
use base_exp.Base.{
  ℕ, zero, suc, ◌+◌, ◌-◌, Bool, true, false, not, ◌||◌, ◌&&◌, ◌==◌, leb, ltb, if◌then◌else◌, List,
  [], ◌∷◌, ◌++◌, take, drop, length, get_or, Run, Cmd, done, starved, pure, ◌>>=◌,
}
use base_exp.User.Utf8.{utf8_input_len, utf8_next, utf8_prev, utf8_text_width, term_move_cursor}
use base_exp.User.Shell.Editor.{
  Editor, print, redraw, redraw_from, insert_bytes, delete_range, set_line, line_size, save_history,
}
use base_exp.User.Shell.Editor.Completion.{Around, complete_token}

-- How a key ends: with the next one, the line entered, or -1.
pub data Key : Type 0 where
  next : Key
  entered : Key
  closed : Key

-- Up.
abbrev pub history_up : (nbuf : ℕ) → Editor → Editor
history_up nbuf e =
    if e.hpos == 0
    then e
    else redraw (record (set_line nbuf (get_or e.history (e.hpos - 1) []) e) {
      hpos = e.hpos - 1;
      draft = if e.saved then e.draft else e.line;
      saved = true;
      overrun = e.overrun || not e.saved && not (ltb (length e.line) line_size);
    })

-- Down.
abbrev pub history_down : (nbuf : ℕ) → Editor → Editor
history_down nbuf e =
    if leb (length e.history) e.hpos
    then e
    else redraw
        (record (set_line nbuf
          (if e.hpos + 1 == length e.history then e.draft else get_or e.history (e.hpos + 1) [])
          e) { hpos = e.hpos + 1 })

abbrev pub move_right : Editor → Editor
move_right e =
    let to = utf8_next e.line e.cursor (length e.line) in
    record (print (term_move_cursor b'C' (utf8_text_width e.line e.cursor to)) e) { cursor = to }

abbrev pub move_left : Editor → Editor
move_left e =
    let to = utf8_prev e.line e.cursor in
    record (print (term_move_cursor b'D' (utf8_text_width e.line to e.cursor)) e) { cursor = to }

-- Delete, without the `~` that ends its sequence.
abbrev pub delete_key : Editor → Editor
delete_key e =
    if ltb e.cursor (length e.line)
    then redraw_from (delete_range e.cursor (utf8_next e.line e.cursor (length e.line)) e)
    else e

abbrev pub delete_sequence : List ℕ → Editor → Editor
delete_sequence [] e = e
delete_sequence (c ∷ cs) e =
    let read = record e { input = cs } in if c == b'~' then delete_key read else read

-- The rest of an escape sequence.
abbrev pub escape_key : (nbuf : ℕ) → (a b : ℕ) → Editor → Editor
escape_key nbuf a b e =
    if not (a == b'[')
    then e
    else if b == b'A'
    then history_up nbuf e
    else if b == b'B'
    then history_down nbuf e
    else if b == b'C'
    then move_right e
    else if b == b'D'
    then move_left e
    else if b == b'3'
    then delete_sequence e.input e
    else e

abbrev pub escape_sequence : (nbuf : ℕ) → List ℕ → Editor → Editor
escape_sequence nbuf [] e = e
escape_sequence nbuf (a ∷ []) e = record e { input = [] }
escape_sequence nbuf (a ∷ b ∷ cs) e = escape_key nbuf a b (record e { input = cs })

abbrev pub backspace_key : Editor → Editor
backspace_key e =
    let start = utf8_prev e.line e.cursor in
    let width = utf8_text_width e.line start e.cursor in
    if e.cursor == 0
    then e
    else redraw_from (
        print (term_move_cursor b'D' width)
          (record (delete_range start e.cursor e) { cursor = start }))

-- After bytes were inserted at `old`, they are written, or the line is.
abbrev pub show_inserted : (old : Editor) → (bytes : List ℕ) → Editor → Editor
show_inserted old bytes e =
    if length bytes == 0
    then e
    else if old.cursor == length old.line
    then print bytes e
    else redraw e

unfoldable pub tab_key : (nbuf : ℕ) → Around → Editor → Editor
unfolding complete_token
tab_key nbuf around e =
    let completed = complete_token nbuf around e in
    show_inserted e (take completed.1 (drop e.cursor completed.0.line)) completed.0

-- Any other byte, and those of its character.
abbrev pub text_key : (nbuf c : ℕ) → Editor → Editor
text_key nbuf c e =
    let n = utf8_input_len c in
    let bytes = c ∷ take (n - 1) e.input in
    let read = record e { input = drop (n - 1) e.input } in
    let inserted = insert_bytes nbuf bytes read in
    show_inserted read (take inserted.1 bytes) inserted.0

abbrev pub enter_key : Editor → Editor
enter_key e = print (b'\n' ∷ []) (record e { line = e.line ++ (b'\n' ∷ []) })

unfoldable pub press : (nbuf : ℕ) → Around → ℕ → Cmd Editor Key
unfolding tab_key
press nbuf around c e =
    if c == 27
    then done next (escape_sequence nbuf e.input e)
    else if c == b'\t'
    then done next (tab_key nbuf around e)
    else if c == 4
    then done closed e
    else if c == 21
    then done next (redraw (record e { line = []; cursor = 0 }))
    else if c == 8 || c == 127
    then done next (backspace_key e)
    else if c == b'\n' || c == b'\r'
    then done entered (enter_key e)
    else done next (text_key nbuf c e)

-- A read of the first byte of a key.
unfoldable pub next_key : (nbuf : ℕ) → Around → List ℕ → Cmd Editor Key
unfolding press
next_key nbuf around [] e = done closed e
next_key nbuf around (c ∷ cs) e = press nbuf around c (record e { input = cs })

abbrev pub after_key : Cmd Editor Bool → Key → Cmd Editor Bool
after_key rest next = rest
after_key rest entered = pure true
after_key rest closed = pure false

-- The loop of `getcmd`; `true` is 0.
unfoldable pub getcmd_loop : ℕ → (nbuf : ℕ) → Around → Cmd Editor Bool
unfolding next_key
getcmd_loop zero nbuf around e = starved e
getcmd_loop (suc fuel) nbuf around e =
    let rest = getcmd_loop fuel nbuf around in
    if ltb (length e.line + 1) nbuf
    then (do key ← next_key nbuf around e.input; after_key rest key) e
    else done true e

unfoldable pub getcmd :
    (nbuf : ℕ) → Around → (history : List (List ℕ)) → (input : List ℕ) → Run Editor Bool
unfolding getcmd_loop
getcmd nbuf around history input =
    (do
      ok ← getcmd_loop (length input + 2) nbuf around
      (λ e. done ok (if ok then save_history e else e)))
      (record {
        line = [];
        cursor = 0;
        hpos = length history;
        saved = false;
        draft = [];
        history = history;
        input = input;
        output = b'$' ∷ b' ' ∷ [];
        overrun = false;
      })
