-- ===== src/User/Shell/Editor/Saving.antt =====
-- `save_history` (user/bin/sh.c) stays within `history`.
use base_exp.Base.{
  ℕ, ◌-◌, ◌<◌, ◌≤◌, ◌≡◌, inl, inr, refl, true, false, ◌&&◌, ◌||◌, ◌==◌, ltb, Bool-cases, List, [],
  ◌∷◌, drop, length, length-append, length-drop, length-take, length-map, arith, get_or,
}
use base_exp.User.Shell.Editor.{
  Editor, histsize, line_size, c_string, blank_line, without_newline, is_last, make_room,
  save_history,
}
use base_exp.User.Shell.Editor.Bounds.{IsEditing}
use base_exp.User.Shell.Editor.Redrawn.{length-if}

length-without_newline : (line : List ℕ) → length (without_newline line) ≤ length line
length-without_newline line =
    let l = length-take (length line - 1) line in
    length-if (ltb 0 (length line) && get_or line (length line - 1) 0 == b'\n') _ _ (length line)
      (ground (arith, l)) (omega arith)

-- An entry of the history is free.
length-make_room :
    (history : List (List ℕ)) → length history ≤ histsize → length (make_room history) < histsize
length-make_room history few = elim (Bool-cases (length history == histsize)) [
  | inl full ↦
      let l = length-map (drop 1 history) c_string in
      let d = length-drop 1 history in rw full (ground (arith, l, d, full))
  | inr free ↦ rw free (ground arith)
]

-- The line fits into the buffer with its NUL, the cursor is in the line, no write went past `draft`,
-- `out` or `history`, and the history has at most HISTSIZE entries.
abbrev pub IsKept : (nbuf : ℕ) → Editor → Type 0
IsKept nbuf e =
    (length e.line < nbuf)
    × (e.cursor ≤ length e.line)
    × (e.overrun ≡ false)
    × (length e.history ≤ histsize)

pub save_history-IsKept :
    (nbuf n : ℕ) (e : Editor) → IsEditing nbuf n e → IsKept nbuf (save_history e)
unfolding save_history
save_history-IsKept nbuf n e (fits, within, (here, few, small, sound), left) =
    let line = without_newline e.line in
    elim (Bool-cases (blank_line line || is_last e.history line)) [
      | inl skipped ↦ rw (skipped, save_history) (fits, within, sound, few)
      | inr saved ↦
          let short = length-without_newline e.line in
          let room = length-make_room e.history few in
          let fits_entry : ltb (length line) line_size ≡ true = ground (arith, short) in
          let has_entry : ltb (length (make_room e.history)) histsize ≡ true =
            ground (arith, room) in
          let l = length-append (make_room e.history) (line ∷ []) in
          rw (saved, save_history)
            (fits, within, rw (sound, fits_entry, has_entry) refl, omega (arith, l, room))
    ]
