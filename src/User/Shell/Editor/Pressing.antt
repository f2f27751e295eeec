-- ===== src/User/Shell/Editor/Pressing.antt =====
-- Each key of `getcmd` (user/bin/sh.c).
use base_exp.Base.{
  ℕ, ◌+◌, ◌-◌, ◌<◌, ◌≤◌, inl, inr, Bool, true, false, not, ◌&&◌, ◌||◌, ◌==◌, leb, ltb,
  if◌then◌else◌, Bool-cases, List, [], ◌∷◌, take, drop, length, length-append, length-drop,
  Option-cases, arith, get_or, Run, Cmd, done, panic, asleep, out_of_fuel, and_then,
}
use base_exp.Fs.PathName.{dirsiz}
use base_exp.User.Utf8.{utf8_input_len, utf8_prev, utf8_text_width, term_move_cursor}
use base_exp.User.Shell.{blank_char, is_quote}
use base_exp.User.Shell.Editor.{Editor, c_string, print, insert_bytes, delete_range}
use base_exp.User.Shell.Editor.Completion.{
  Around, find_matches, has_char, first_token, token_start, insert_match, complete_token,
}
use base_exp.User.Shell.Editor.Keys.{
  next, entered, closed, escape_sequence, backspace_key, show_inserted, tab_key, text_key,
  enter_key, press,
}
use base_exp.User.Shell.Editor.Bounds.{
  IsEditing, redraw-IsEditing, redraw_from-IsEditing, insert_bytes-IsEditing,
  delete_range-IsEditing, utf8_prev-bound, escape_key-IsEditing,
}

-- The call returns, and leaves the editor well.
unfoldable pub Keeps : {A : Type 0} → (Editor → Type 0) → Run Editor A → Type 0
Keeps P (done a e) = P e
Keeps P (panic why) = ⊥
Keeps P asleep = ⊥
Keeps P out_of_fuel = ⊥

module _ {A : Type 0} where
  pub Keeps-done : (P : Editor → Type 0) (a : A) (e : Editor) → P e → Keeps P (done a e)
  unfolding Keeps
  Keeps-done P a e h = h

  if-Keeps :
      (P : Editor → Type 0) (b : Bool) (r q : Run Editor A)
      → Keeps P r
      → Keeps P q
      → Keeps P (if b then r else q)
  if-Keeps P true r q h g = h
  if-Keeps P false r q h g = g

module _ {A B : Type 0} where
  pub Keeps-bind :
      (P Q : Editor → Type 0) (r : Run Editor A) (k : A → Cmd Editor B)
      → Keeps P r
      → ((a : A) (e : Editor) → P e → Keeps Q (k a e))
      → Keeps Q (and_then r k)
  unfolding Keeps
  Keeps-bind P Q (done a e) k h then_ = then_ a e h
  Keeps-bind P Q (panic why) k h then_ = absurd h
  Keeps-bind P Q asleep k h then_ = absurd h
  Keeps-bind P Q out_of_fuel k h then_ = absurd h

escape_sequence-IsEditing :
    (nbuf n : ℕ) (input : List ℕ) (e : Editor)
    → 0 < nbuf
    → IsEditing nbuf n e
    → length input ≤ n
    → IsEditing nbuf n (escape_sequence nbuf input e)
escape_sequence-IsEditing nbuf n [] e some_room h few = h
escape_sequence-IsEditing nbuf n (a ∷ []) e some_room (fits, within, place, left) few =
    (fits, within, place, omega arith)
escape_sequence-IsEditing nbuf n (a ∷ b ∷ cs) e some_room (fits, within, place, left) few =
    escape_key-IsEditing nbuf n a b (record e { input = cs }) some_room
      (fits, within, place, omega arith)

backspace_key-IsEditing :
    (nbuf n : ℕ) (e : Editor) → IsEditing nbuf n e → IsEditing nbuf n (backspace_key e)
backspace_key-IsEditing nbuf n e h = elim (Bool-cases (e.cursor == 0)) [
  | inl first ↦ rw first h
  | inr later ↦
      let start = utf8_prev e.line e.cursor in
      let ((fits, within, place, left), low) =
        delete_range-IsEditing nbuf n start e.cursor e (utf8_prev-bound e.line e.cursor) h.1 h in
      rw later (
        redraw_from-IsEditing nbuf n
          (print (term_move_cursor b'D' (utf8_text_width e.line start e.cursor))
            (record (delete_range start e.cursor e) { cursor = start }))
          (fits, low, place, left))
]

show_inserted-IsEditing :
    (nbuf n : ℕ) (old : Editor) (bytes : List ℕ) (e : Editor)
    → IsEditing nbuf n e
    → IsEditing nbuf n (show_inserted old bytes e)
show_inserted-IsEditing nbuf n old bytes e h = elim (Bool-cases (length bytes == 0)) [
  | inl nothing ↦ rw nothing h
  | inr something ↦ elim (Bool-cases (old.cursor == length old.line)) [
    | inl at_end ↦ rw (something, at_end) h
    | inr within ↦ rw (something, within) (redraw-IsEditing nbuf n e h)
  ]
]

IsEditing-if :
    (nbuf n : ℕ) (b : Bool) (r q : Editor × ℕ)
    → IsEditing nbuf n r.0
    → IsEditing nbuf n q.0
    → IsEditing nbuf n (if b then r else q).0
IsEditing-if nbuf n true r q h g = h
IsEditing-if nbuf n false r q h g = g

insert_match-IsEditing :
    (nbuf n prefix_start : ℕ) (command : Bool) (around : Around) (e : Editor)
    → IsEditing nbuf n e
    → IsEditing nbuf n (insert_match nbuf prefix_start command around e).0
unfolding insert_match
insert_match-IsEditing nbuf n prefix_start command around e h = elim (Option-cases around.entries) [
  | inl closed_dir ↦ rw (closed_dir, insert_match) h
  | inr (des, open_dir) ↦
      let prefix = take (e.cursor - prefix_start) (drop prefix_start e.line) in
      let found = find_matches command prefix (around.name e) (around.match e) 0 des in
      let suffix =
        if ltb e.cursor prefix_start
        then c_string (around.before e ∷ found.0)
        else c_string (drop (e.cursor - prefix_start) found.0) in
      rw (open_dir, insert_match)
        (IsEditing-if nbuf n (found.1 == 1) (insert_bytes nbuf suffix e) (e, 0)
          (insert_bytes-IsEditing nbuf n suffix e h) h)
]

complete_token-IsEditing :
    (nbuf n : ℕ) (around : Around) (e : Editor)
    → IsEditing nbuf n e
    → IsEditing nbuf n (complete_token nbuf around e).0
unfolding complete_token
complete_token-IsEditing nbuf n around e h =
    let here = get_or e.line e.cursor 0 in
    let start = token_start e.line e.cursor in
    let quote = get_or e.line start 0 in
    let prefix_start = if is_quote quote then start + 1 else start in
    let token = take (e.cursor - prefix_start) (drop prefix_start e.line) in
    IsEditing-if nbuf n
      (ltb e.cursor (length e.line) && not (blank_char here) && not (is_quote here)) _ _ h
      (IsEditing-if nbuf n (is_quote quote && ltb e.cursor (length e.line) && not (here == quote)) _
        _ h
        (IsEditing-if nbuf n (leb dirsiz (e.cursor - prefix_start)) _ _ h (
          IsEditing-if nbuf n (has_char b'/' token) _ _ h (
            insert_match-IsEditing nbuf n prefix_start (first_token (take start e.line)) around e
              h))))

tab_key-IsEditing :
    (nbuf n : ℕ) (around : Around) (e : Editor)
    → IsEditing nbuf n e
    → IsEditing nbuf n (tab_key nbuf around e)
unfolding tab_key
tab_key-IsEditing nbuf n around e h =
    let completed = complete_token nbuf around e in
    show_inserted-IsEditing nbuf n e (take completed.1 (drop e.cursor completed.0.line)) completed.0
      (complete_token-IsEditing nbuf n around e h)

text_key-IsEditing :
    (nbuf n c : ℕ) (e : Editor) → IsEditing nbuf n e → IsEditing nbuf n (text_key nbuf c e)
text_key-IsEditing nbuf n c e (fits, within, place, left) =
    let k = utf8_input_len c - 1 in
    let read = record e { input = drop k e.input } in
    let fewer = length-drop k e.input in
    show_inserted-IsEditing nbuf n read _ _ (
      insert_bytes-IsEditing nbuf n (c ∷ take k e.input) read
        (fits, within, place, omega (arith, fewer, left)))

enter_key-IsEditing :
    (nbuf n : ℕ) (e : Editor)
    → length e.line + 1 < nbuf
    → IsEditing nbuf n e
    → IsEditing nbuf n (enter_key e)
enter_key-IsEditing nbuf n e room (fits, within, place, left) =
    let l = length-append e.line (b'\n' ∷ []) in (omega (arith, l), omega (arith, l), place, left)

pub press-Keeps :
    (nbuf n c : ℕ) (around : Around) (e : Editor)
    → length e.line + 1 < nbuf
    → IsEditing nbuf n e
    → Keeps (IsEditing nbuf n) (press nbuf around c e)
unfolding press
press-Keeps nbuf n c around e room h =
    if-Keeps _ (c == 27) _ _
      (Keeps-done _ next _ (escape_sequence-IsEditing nbuf n e.input e (omega arith) h h.3))
      (if-Keeps _ (c == b'\t') _ _ (Keeps-done _ next _ (tab_key-IsEditing nbuf n around e h)) (
        if-Keeps _ (c == 4) _ _ (Keeps-done _ closed _ h) (
          if-Keeps _ (c == 21) _ _
            (Keeps-done _ next _ (
              redraw-IsEditing nbuf n (record e { line = []; cursor = 0 })
                (let small = h.2 in omega arith, omega arith, h.2, h.3)))
            (if-Keeps _ (c == 8 || c == 127) _ _
              (Keeps-done _ next _ (backspace_key-IsEditing nbuf n e h))
              (if-Keeps _ (c == b'\n' || c == b'\r') _ _
                (Keeps-done _ entered _ (enter_key-IsEditing nbuf n e room h))
                (Keeps-done _ next _ (text_key-IsEditing nbuf n c e h)))))))
