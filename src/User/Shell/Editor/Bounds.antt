-- ===== src/User/Shell/Editor/Bounds.antt =====
-- `getcmd` (user/bin/sh.c) keeps the line within its buffer, the cursor within the line, and its writes
-- within `draft`, `out` and `history`.
use base_exp.Base.{
  ℕ, zero, suc, ◌+◌, ◌-◌, ◌<◌, ◌≤◌, ◌≡◌, refl, inl, inr, Bool, true, false, not, ◌&&◌, ◌||◌, ◌==◌,
  leb, ltb, if◌then◌else◌, Bool-cases, List, [], ◌∷◌, ◌++◌, take, drop, length, length-append,
  length-take, length-drop, arith, get_or,
}
use base_exp.User.Utf8.{utf8_cont, skip_cont, back_cont, utf8_next, utf8_prev}
use base_exp.User.Shell.Editor.{
  Editor, histsize, line_size, c_string, redrawn, redraw, redraw_from, insert_bytes, delete_range,
  set_line,
}
use base_exp.User.Shell.Editor.Keys.{
  history_up, history_down, move_right, move_left, delete_key, delete_sequence, escape_key,
}
use base_exp.User.Shell.Editor.Redrawn.{length-redrawn}

skip_cont-bounds :
    (n : ℕ) (buf : List ℕ) (pos : ℕ) → (pos ≤ skip_cont n buf pos) × (skip_cont n buf pos ≤ pos + n)
unfolding skip_cont
skip_cont-bounds zero buf pos = (omega arith, omega arith)
skip_cont-bounds (suc n) buf pos = elim (Bool-cases (utf8_cont (get_or buf pos 0))) [
  | inl e ↦ let (low, high) = skip_cont-bounds n buf (pos + 1) in rw e (omega arith, omega arith)
  | inr ne ↦ rw ne (omega arith, omega arith)
]

utf8_next-bounds :
    (buf : List ℕ) (pos len : ℕ)
    → pos ≤ len
    → (pos ≤ utf8_next buf pos len) × (utf8_next buf pos len ≤ len)
unfolding utf8_next
utf8_next-bounds buf pos len h = elim (Bool-cases (leb len pos)) [
  | inl e ↦ rw e (omega arith, omega arith)
  | inr ne ↦
      let (low, high) = skip_cont-bounds (len - (pos + 1)) buf (pos + 1) in
      let apart : pos < len = ground arith in rw ne (omega arith, omega arith)
]

back_cont-bound : (buf : List ℕ) (pos : ℕ) → back_cont buf pos ≤ pos
unfolding back_cont
back_cont-bound buf zero = omega arith
back_cont-bound buf (suc pos) = elim (Bool-cases (utf8_cont (get_or buf (suc pos) 0))) [
  | inl e ↦ rw e (omega (arith, back_cont-bound buf pos))
  | inr ne ↦ rw ne (omega arith)
]

pub utf8_prev-bound : (buf : List ℕ) (pos : ℕ) → utf8_prev buf pos ≤ pos
unfolding utf8_prev
utf8_prev-bound buf zero = omega arith
utf8_prev-bound buf (suc pos) = omega (arith, back_cont-bound buf pos)

-- The place in the history is one, the history has room for it, no write went past an array, and the
-- buffer is not larger than those that a line is copied to.
abbrev pub IsPlaced : (nbuf : ℕ) → Editor → Type 0
IsPlaced nbuf e =
    (e.hpos ≤ length e.history)
    × (length e.history ≤ histsize)
    × (nbuf ≤ line_size)
    × (e.overrun ≡ false)

-- The line and a NUL fit into the buffer, the cursor is in the line, and at most `n` bytes are left to
-- read.
abbrev pub IsEditing : (nbuf n : ℕ) → Editor → Type 0
IsEditing nbuf n e =
    (length e.line < nbuf) × (e.cursor ≤ length e.line) × IsPlaced nbuf e × (length e.input ≤ n)

pub redraw-IsEditing : (nbuf n : ℕ) (e : Editor) → IsEditing nbuf n e → IsEditing nbuf n (redraw e)
unfolding redraw
redraw-IsEditing nbuf n e (fits, within, (here, few, small, sound), left) =
    let l = length-redrawn e (omega arith) in
    let room : ltb 140 (length (redrawn e)) ≡ false = ground (arith, l) in
    (fits, within, (here, few, small, rw (sound, room) refl), left)

pub redraw_from-IsEditing :
    (nbuf n : ℕ) (e : Editor) → IsEditing nbuf n e → IsEditing nbuf n (redraw_from e)
unfolding redraw_from
redraw_from-IsEditing nbuf n e h = h

length-inserted :
    (cursor : ℕ) (line s : List ℕ)
    → cursor ≤ length line
    → length (take cursor line ++ s ++ drop cursor line) ≡ length line + length s
length-inserted cursor line s h =
    let a = length-append (take cursor line ++ s) (drop cursor line) in
    let b = length-append (take cursor line) s in
    let c = length-take cursor line in
    let d = length-drop cursor line in ground (arith, a, b, c, d, h)

pub insert_bytes-IsEditing :
    (nbuf n : ℕ) (s : List ℕ) (e : Editor)
    → IsEditing nbuf n e
    → IsEditing nbuf n (insert_bytes nbuf s e).0
unfolding insert_bytes
insert_bytes-IsEditing nbuf n s e (fits, within, place, left) =
    elim (Bool-cases (leb nbuf (length e.line + length s))) [
      | inl full ↦ rw full (fits, within, place, left)
      | inr room ↦
          let l = length-inserted e.cursor e.line s within in
          rw room (rw l (ground arith), rw l (omega arith), place, left)
    ]

pub delete_range-IsEditing :
    (nbuf n start end : ℕ) (e : Editor)
    → start ≤ end
    → end ≤ length e.line
    → IsEditing nbuf n e
    → IsEditing nbuf n (delete_range start end e) × (start ≤ length (delete_range start end e).line)
unfolding delete_range
delete_range-IsEditing nbuf n start end e low high (fits, within, place, left) =
    let a = length-append (take start e.line) (drop end e.line) in
    let b = length-take start e.line in
    let c = length-drop end e.line in
    let short : length (take start e.line ++ drop end e.line) ≡ start + (length e.line - end) =
      ground (arith, a, b, c, low, high) in
    rw short ((omega arith, ground arith, place, left), omega arith)

-- A line of the history, with the fields that the key sets.
set_line-IsEditing :
    (nbuf n hpos : ℕ) (src draft : List ℕ) (saved overrun : Bool) (e : Editor)
    → 0 < nbuf
    → hpos ≤ length e.history
    → IsPlaced nbuf e
    → overrun ≡ false
    → length e.input ≤ n
    → IsEditing nbuf n (record (set_line nbuf src e) {
      hpos = hpos;
      draft = draft;
      saved = saved;
      overrun = overrun;
    })
unfolding set_line
set_line-IsEditing nbuf n hpos src draft saved overrun e some_room low (here, few, small, was) sound
      left =
    let l = length-take (nbuf - 1) (c_string src) in
    (ground (arith, l, some_room), omega arith, (low, few, small, sound), left)

-- The line fits into `draft`.
draft_fits :
    (saved : Bool) (line : List ℕ)
    → length line < line_size
    → (not saved && not (ltb (length line) line_size)) ≡ false
draft_fits saved line short =
    let fits : ltb (length line) line_size ≡ true = ground arith in
    rw fits (elim (Bool-cases saved) [ inl e ↦ rw e refl | inr ne ↦ rw ne refl ])

history_up-IsEditing :
    (nbuf n : ℕ) (e : Editor) → 0 < nbuf → IsEditing nbuf n e → IsEditing nbuf n (history_up nbuf e)
history_up-IsEditing nbuf n e some_room (fits, within, place, left) =
    elim (Bool-cases (e.hpos == 0)) [
      | inl first ↦ rw first (fits, within, place, left)
      | inr later ↦
          let low = place.0 in
          let small = place.2 in
          let sound : (e.overrun || not e.saved && not (ltb (length e.line) line_size)) ≡ false =
            rw (place.3) (draft_fits e.saved e.line (omega arith)) in
          rw later (
            redraw-IsEditing nbuf n _ (
              set_line-IsEditing nbuf n (e.hpos - 1) (get_or e.history (e.hpos - 1) [])
                (if e.saved then e.draft else e.line) true _ e some_room (omega arith) place sound
                left))
    ]

history_down-IsEditing :
    (nbuf n : ℕ) (e : Editor)
    → 0 < nbuf
    → IsEditing nbuf n e
    → IsEditing nbuf n (history_down nbuf e)
unfolding set_line
history_down-IsEditing nbuf n e some_room (fits, within, place, left) =
    elim (Bool-cases (leb (length e.history) e.hpos)) [
      | inl last ↦ rw last (fits, within, place, left)
      | inr earlier ↦
          let src =
            if e.hpos + 1 == length e.history then e.draft else get_or e.history (e.hpos + 1) [] in
          rw earlier (
            redraw-IsEditing nbuf n _ (
              set_line-IsEditing nbuf n (e.hpos + 1) src (set_line nbuf src e).draft
                (set_line nbuf src e).saved (set_line nbuf src e).overrun e some_room (ground arith)
                place (place.3) left))
    ]

delete_key-IsEditing :
    (nbuf n : ℕ) (e : Editor) → IsEditing nbuf n e → IsEditing nbuf n (delete_key e)
delete_key-IsEditing nbuf n e (fits, within, place, left) =
    elim (Bool-cases (ltb e.cursor (length e.line))) [
      | inr over ↦ rw over (fits, within, place, left)
      | inl some_left ↦
          let (low, high) = utf8_next-bounds e.line e.cursor (length e.line) within in
          rw some_left (
            redraw_from-IsEditing nbuf n _
              (delete_range-IsEditing nbuf n e.cursor (utf8_next e.line e.cursor (length e.line)) e
                low high (fits, within, place, left)).0)
    ]

delete_sequence-IsEditing :
    (nbuf n : ℕ) (input : List ℕ) (e : Editor)
    → IsEditing nbuf n e
    → length input ≤ n
    → IsEditing nbuf n (delete_sequence input e)
delete_sequence-IsEditing nbuf n [] e h few = h
delete_sequence-IsEditing nbuf n (c ∷ cs) e (fits, within, place, left) few =
    elim (Bool-cases (c == b'~')) [
      | inl tilde ↦
          rw tilde (
            delete_key-IsEditing nbuf n (record e { input = cs })
              (fits, within, place, omega arith))
      | inr other ↦ rw other (fits, within, place, omega arith)
    ]

move_right-IsEditing :
    (nbuf n : ℕ) (e : Editor) → IsEditing nbuf n e → IsEditing nbuf n (move_right e)
move_right-IsEditing nbuf n e (fits, within, place, left) =
    (fits, (utf8_next-bounds e.line e.cursor (length e.line) within).1, place, left)

move_left-IsEditing :
    (nbuf n : ℕ) (e : Editor) → IsEditing nbuf n e → IsEditing nbuf n (move_left e)
move_left-IsEditing nbuf n e (fits, within, place, left) =
    (fits, (let b = utf8_prev-bound e.line e.cursor in omega (arith, b, within)), place, left)

pub escape_key-IsEditing :
    (nbuf n a b : ℕ) (e : Editor)
    → 0 < nbuf
    → IsEditing nbuf n e
    → IsEditing nbuf n (escape_key nbuf a b e)
escape_key-IsEditing nbuf n a b e some_room h = elim (Bool-cases (not (a == b'['))) [
  | inl t0 ↦ rw t0 h
  | inr f0 ↦ elim (Bool-cases (b == b'A')) [
    | inl t1 ↦ rw (f0, t1) (history_up-IsEditing nbuf n e some_room h)
    | inr f1 ↦ elim (Bool-cases (b == b'B')) [
      | inl t2 ↦ rw (f0, f1, t2) (history_down-IsEditing nbuf n e some_room h)
      | inr f2 ↦ elim (Bool-cases (b == b'C')) [
        | inl t3 ↦ rw (f0, f1, f2, t3) (move_right-IsEditing nbuf n e h)
        | inr f3 ↦ elim (Bool-cases (b == b'D')) [
          | inl t4 ↦ rw (f0, f1, f2, f3, t4) (move_left-IsEditing nbuf n e h)
          | inr f4 ↦ elim (Bool-cases (b == b'3')) [
            | inl t5 ↦
                rw (f0, f1, f2, f3, f4, t5) (delete_sequence-IsEditing nbuf n e.input e h h.3)
            | inr f5 ↦ rw (f0, f1, f2, f3, f4, f5) h
          ]
        ]
      ]
    ]
  ]
]
