-- ===== src/User/Shell/Editor/Quoting.antt =====
-- When `complete_token` (user/bin/sh.c) reads the byte before `match`.
use base_exp.Base.{
  ℕ, zero, suc, ◌+◌, ◌-◌, ◌≤◌, ◌≡◌, inl, inr, refl, Bool, true, false, not, ◌&&◌, ◌==◌, leb, ltb,
  if◌then◌else◌, Bool-cases, Option-cases, List, take, drop, length, get_or, arith,
}
use mathlib.Core.Path.{subst}
use base_exp.Fs.PathName.{dirsiz}
use base_exp.User.Shell.{blank_char, is_quote}
use base_exp.User.Shell.Editor.{Editor}
use base_exp.User.Shell.Editor.Completion.{
  Around, has_char, first_token, token_start, insert_match, complete_token,
}

-- The surroundings with another byte before `match`.
abbrev pub with_before : Around → ℕ → Around
with_before around b = record around { before = λ _. b }

token_start_bound : (buf : List ℕ) (cursor : ℕ) → token_start buf cursor ≤ cursor
unfolding token_start
token_start_bound buf zero = omega arith
token_start_bound buf (suc cursor) = elim (Bool-cases (blank_char (get_or buf cursor 0))) [
  | inl e ↦ rw e (omega arith)
  | inr ne ↦ rw ne (omega (arith, token_start_bound buf cursor))
]

insert_match-before :
    (nbuf prefix_start b : ℕ) (command : Bool) (around : Around) (e : Editor)
    → ltb e.cursor prefix_start ≡ false
    → insert_match nbuf prefix_start command around e
      ≡ insert_match nbuf prefix_start command (with_before around b) e
unfolding insert_match
insert_match-before nbuf prefix_start b command around e within =
    elim (Option-cases around.entries) [
      | inl closed_dir ↦ rw (closed_dir, insert_match) refl
      | inr (des, open_dir) ↦ rw (open_dir, within, insert_match) refl
    ]

-- Where the token starts, with the quote that is not under the cursor.
prefix_start-within :
    (line : List ℕ) (cursor start : ℕ)
    → is_quote (get_or line cursor 0) ≡ false
    → start ≤ cursor
    → ltb cursor (if is_quote (get_or line start 0) then start + 1 else start) ≡ false
prefix_start-within line cursor start plain low = elim (Bool-cases (start == cursor)) [
  | inl here ↦
      let same : cursor ≡ start = ground arith in
      let no_quote : is_quote (get_or line start 0) ≡ false =
        subst (λ z. is_quote (get_or line z 0) ≡ false) same plain in
      rw no_quote (ground arith)
  | inr before ↦ elim (Bool-cases (is_quote (get_or line start 0))) [
    | inl e ↦ rw e (ground arith)
    | inr ne ↦ rw ne (ground arith)
  ]
]

if-same : (b : Bool) (x r q : Editor × ℕ) → r ≡ q → (if b then x else r) ≡ (if b then x else q)
if-same true x r q h = refl
if-same false x r q h = h

-- With the cursor not on a quote, what `complete_token` does is the same whatever the byte before
-- `match` is: it does not use it.
pub complete_token-before :
    (nbuf b : ℕ) (around : Around) (e : Editor)
    → is_quote (get_or e.line e.cursor 0) ≡ false
    → complete_token nbuf around e ≡ complete_token nbuf (with_before around b) e
unfolding complete_token
complete_token-before nbuf b around e plain =
    let here = get_or e.line e.cursor 0 in
    let start = token_start e.line e.cursor in
    let quote = get_or e.line start 0 in
    let prefix_start = if is_quote quote then start + 1 else start in
    let token = take (e.cursor - prefix_start) (drop prefix_start e.line) in
    let within =
      prefix_start-within e.line e.cursor start plain (token_start_bound e.line e.cursor) in
    if-same (ltb e.cursor (length e.line) && not (blank_char here) && not (is_quote here)) (e, 0) _
      _
      (if-same (is_quote quote && ltb e.cursor (length e.line) && not (here == quote)) (e, 0) _ _
        (if-same (leb dirsiz (e.cursor - prefix_start)) (e, 0) _ _
          (if-same (has_char b'/' token) (e, 0) _ _
            (insert_match-before nbuf prefix_start b (first_token (take start e.line)) around e
              within))))
