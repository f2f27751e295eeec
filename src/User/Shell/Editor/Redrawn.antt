-- ===== src/User/Shell/Editor/Redrawn.antt =====
-- How much `redraw` (user/bin/sh.c) writes.
use base_exp.Base.{
  ℕ, zero, suc, ◌<◌, ◌≤◌, ◌≡◌, refl, inl, inr, Bool, true, false, ◌/◌, ◌==◌, ltb, if◌then◌else◌,
  Bool-cases, List, [], ◌∷◌, ◌++◌, length, length-append, arith,
}
use base_exp.User.Utf8.{low_digits, backwards, term_append_uint, utf8_text_width}
use base_exp.User.Shell.Editor.{Editor, redrawn}

length-low_digits : (fuel value : ℕ) → length (low_digits fuel value) ≤ fuel
unfolding low_digits
length-low_digits zero value = omega arith
length-low_digits (suc fuel) value = elim (Bool-cases (value == 0)) [
  | inl e ↦ rw e (omega arith)
  | inr ne ↦ rw ne (omega (arith, length-low_digits fuel (value / 10)))
]

length-backwards : (cs : List ℕ) → length (backwards cs) ≡ length cs
unfolding backwards
length-backwards [] = refl
length-backwards (c ∷ cs) =
    let l = length-append (backwards cs) (c ∷ []) in omega (arith, l, length-backwards cs)

digits_bound : (fuel value : ℕ) → length (backwards (low_digits fuel value)) ≤ fuel
digits_bound fuel value =
    omega (arith, length-backwards (low_digits fuel value), length-low_digits fuel value)

pub length-if :
    (b : Bool) (xs ys : List ℕ) (n : ℕ)
    → length xs ≤ n
    → length ys ≤ n
    → length (if b then xs else ys) ≤ n
length-if true xs ys n h g = h
length-if false xs ys n h g = g

length-term_append_uint : (value : ℕ) → length (term_append_uint value) ≤ 12
unfolding term_append_uint
length-term_append_uint value =
    length-if (value == 0) (b'0' ∷ []) (backwards (low_digits 12 value)) 12 (omega arith)
      (digits_bound 12 value)

-- What `redraw` writes of a line of less than 100 bytes fits into `out`.
pub length-redrawn : (e : Editor) → length e.line < 100 → length (redrawn e) ≤ 140
length-redrawn e short =
    let tail = utf8_text_width e.line e.cursor (length e.line) in
    elim (Bool-cases (ltb 0 tail)) [
      | inr none ↦ rw none (let l = length-append e.line [] in omega (arith, l, short))
      | inl some_tail ↦
          let move = 27 ∷ b'[' ∷ term_append_uint tail ++ (b'D' ∷ []) in
          let l = length-append e.line move in
          let d = length-append (term_append_uint tail) (b'D' ∷ []) in
          let u = length-term_append_uint tail in rw some_tail (omega (arith, l, d, u, short))
    ]
