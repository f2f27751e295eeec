-- ===== src/User/Shell/Editor/Session.antt =====
-- `getcmd` (user/bin/sh.c) over all that is typed.
use base_exp.Base.{
  ℕ, zero, suc, ◌+◌, ◌<◌, ◌≤◌, inl, inr, refl, Bool, true, false, ltb, if◌then◌else◌, Bool-cases,
  List, [], ◌∷◌, length, arith, Run, Cmd, done, panic, asleep, out_of_fuel, and_then,
}
use base_exp.User.Shell.Editor.{Editor, histsize, line_size, save_history}
use base_exp.User.Shell.Editor.Completion.{Around}
use base_exp.User.Shell.Editor.Keys.{
  Key, next, entered, closed, press, after_key, next_key, getcmd_loop, getcmd,
}
use base_exp.User.Shell.Editor.Bounds.{IsEditing}
use base_exp.User.Shell.Editor.Pressing.{Keeps, Keeps-done, Keeps-bind, press-Keeps}
use base_exp.User.Shell.Editor.Saving.{IsKept, save_history-IsKept}

IsEditing-more : (nbuf m n : ℕ) (e : Editor) → m ≤ n → IsEditing nbuf m e → IsEditing nbuf n e
IsEditing-more nbuf m n e h (fits, within, place, left) = (fits, within, place, omega arith)

Keeps-more :
    (nbuf m n : ℕ) (r : Run Editor Bool)
    → m ≤ n
    → Keeps (IsEditing nbuf m) r
    → Keeps (IsEditing nbuf n) r
unfolding Keeps
Keeps-more nbuf m n (done a e) h g = IsEditing-more nbuf m n e h g
Keeps-more nbuf m n (panic why) h g = g
Keeps-more nbuf m n asleep h g = g
Keeps-more nbuf m n out_of_fuel h g = g

-- A round: with no input left it is the last, else it takes a byte.
next_key-Keeps :
    (nbuf n : ℕ) (around : Around) (input : List ℕ) (e : Editor) (k : Key → Cmd Editor Bool)
    → length e.line + 1 < nbuf
    → IsEditing nbuf n e
    → length input ≤ n
    → Keeps (IsEditing nbuf n) (k closed e)
    → ((key : Key) (t : Editor) (m : ℕ)
        → m < n
        → IsEditing nbuf m t
        → Keeps (IsEditing nbuf n) (k key t))
    → Keeps (IsEditing nbuf n) (and_then (next_key nbuf around input e) k)
unfolding next_key
next_key-Keeps nbuf n around [] e k room h few last rounds = last
next_key-Keeps nbuf n around (c ∷ cs) e k room (fits, within, place, left) few last rounds =
    Keeps-bind (IsEditing nbuf (length cs)) (IsEditing nbuf n)
      (press nbuf around c (record e { input = cs })) k
      (press-Keeps nbuf (length cs) c around (record e { input = cs }) room
        (fits, within, place, omega arith))
      (λ key t g. rounds key t (length cs) (omega arith) g)

getcmd_loop-Keeps :
    (fuel nbuf n : ℕ) (around : Around) (e : Editor)
    → n < fuel
    → IsEditing nbuf n e
    → Keeps (IsEditing nbuf n) (getcmd_loop fuel nbuf around e)
unfolding getcmd_loop
getcmd_loop-Keeps zero nbuf n around e enough h = absurd (omega arith)
getcmd_loop-Keeps (suc fuel) nbuf n around e enough h =
    elim (Bool-cases (ltb (length e.line + 1) nbuf)) [
      | inr full ↦ rw full (Keeps-done (IsEditing nbuf n) true e h)
      | inl room ↦ rw room (
          next_key-Keeps nbuf n around e.input e (after_key (getcmd_loop fuel nbuf around))
            (ground arith) h h.3 (Keeps-done (IsEditing nbuf n) false e h)
            (λ key t m fewer g.
              goes_on key t m fewer g
                (λ _. getcmd_loop-Keeps fuel nbuf m around t (omega arith) g)))
    ]
  where
    goes_on :
        (key : Key) (t : Editor) (m : ℕ)
        → m < n
        → IsEditing nbuf m t
        → (Unit {0} → Keeps (IsEditing nbuf m) (getcmd_loop fuel nbuf around t))
        → Keeps (IsEditing nbuf n) (after_key (getcmd_loop fuel nbuf around) key t)
    goes_on next t m fewer g rest = Keeps-more nbuf m n _ (omega arith) (rest tt)
    goes_on entered t m fewer g rest =
        Keeps-done (IsEditing nbuf n) true t (IsEditing-more nbuf m n t (omega arith) g)
    goes_on closed t m fewer g rest =
        Keeps-done (IsEditing nbuf n) false t (IsEditing-more nbuf m n t (omega arith) g)

-- `getcmd` returns, for any bytes typed, any entries of the directory, any history of at most HISTSIZE
-- lines, and a buffer of 1 to 100 bytes: the line fits into the buffer with its NUL, the cursor is in
-- the line, no write went past `draft`, the `out` of `redraw`, or `history`, and the history has at
-- most HISTSIZE lines again.
pub getcmd-Keeps :
    (nbuf : ℕ) (around : Around) (history : List (List ℕ)) (input : List ℕ)
    → 0 < nbuf
    → nbuf ≤ line_size
    → length history ≤ histsize
    → Keeps (IsKept nbuf) (getcmd nbuf around history input)
unfolding getcmd
getcmd-Keeps nbuf around history input some_room small few =
    Keeps-bind (IsEditing nbuf (length input)) (IsKept nbuf)
      (getcmd_loop (length input + 2) nbuf around _) _
      (getcmd_loop-Keeps (length input + 2) nbuf (length input) around _ (omega arith)
        (some_room, omega arith, (omega arith, few, small, refl), omega arith))
      (λ ok e h. kept ok e h)
  where
    kept :
        (ok : Bool) (e : Editor)
        → IsEditing nbuf (length input) e
        → Keeps (IsKept nbuf) (done ok (if ok then save_history e else e))
    kept true e h = Keeps-done (IsKept nbuf) true _ (save_history-IsKept nbuf (length input) e h)
    kept false e (fits, within, place, left) =
        Keeps-done (IsKept nbuf) false e (fits, within, place.3, place.1)
