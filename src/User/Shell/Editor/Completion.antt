-- ===== src/User/Shell/Editor/Completion.antt =====
-- Completion of a file name by Tab: `complete_token` (user/bin/sh.c). `name` and `match` are arrays of
-- DIRSIZ + 1 bytes: the string in one, its NUL, and what was there before.
use base_exp.Base.{
  ℕ, zero, suc, ◌+◌, ◌-◌, Bool, true, false, not, ◌&&◌, ◌==◌, leb, ltb, if◌then◌else◌, Option, none,
  some, List, [], ◌∷◌, ◌++◌, take, drop, length, get_or,
}
use base_exp.Fs.PathName.{dirsiz}
use base_exp.User.Shell.{blank_char, is_quote}
use base_exp.User.Shell.Editor.{Editor, c_string, same_bytes, insert_bytes}

pub record Dirent : Type 0 where
  pub inum : ℕ
  pub name : List ℕ

-- What a call of `complete_token` finds: what its reads of the directory give, `none` if it cannot be
-- opened; and, for the editor at the call, what is in its two arrays before they are written, and in
-- the byte before `match`.
pub record Around : Type 0 where
  pub entries : Option (List Dirent)
  pub name : Editor → List ℕ
  pub match : Editor → List ℕ
  pub before : Editor → ℕ

-- The array after `strcpy` to it.
abbrev pub strcpy_to : List ℕ → List ℕ → List ℕ
strcpy_to array s = s ++ (0 ∷ drop (length s + 1) array)

abbrev pub direntname : Dirent → List ℕ
direntname de = c_string (take dirsiz de.name)

unfoldable pub has_char : ℕ → List ℕ → Bool
has_char c [] = false
has_char c (d ∷ ds) = let rest = has_char c ds in if d == c then true else rest

abbrev pub file_entry : List ℕ → Bool
file_entry name =
    not (same_bytes name (b'.' ∷ []))
    && not (same_bytes name (b'c' ∷ b'o' ∷ b'n' ∷ b's' ∷ b'o' ∷ b'l' ∷ b'e' ∷ []))

abbrev pub command_entry : List ℕ → Bool
command_entry name = file_entry name && not (has_char b'.' name)

-- The bytes of the array against those of the prefix, also behind a NUL. The prefix is shorter than
-- the array.
unfoldable pub match_prefix : List ℕ → List ℕ → Bool
match_prefix name [] = true
match_prefix [] (d ∷ ds) = false
match_prefix (c ∷ cs) (d ∷ ds) = let rest = match_prefix cs ds in if c == d then rest else false

unfoldable pub token_start : List ℕ → ℕ → ℕ
token_start buf zero = zero
token_start buf (suc start) =
    let rest = token_start buf start in if blank_char (get_or buf start 0) then suc start else rest

-- No byte of these is a `command_char`.
unfoldable pub first_token : List ℕ → Bool
first_token [] = true
first_token (c ∷ cs) =
    let rest = first_token cs in if not (c == 0) && not (blank_char c) then false else rest

-- `match` after the last entry, and the number of entries that match.
unfoldable pub find_matches :
    (command : Bool) → (prefix name match : List ℕ) → (matches : ℕ) → List Dirent → List ℕ × ℕ
find_matches command prefix name match matches [] = (match, matches)
find_matches command prefix name match matches (de ∷ des) =
    let entry = direntname de in
    let read = if de.inum == 0 then name else strcpy_to name entry in
    let taken =
      not (de.inum == 0)
      && (if command then command_entry entry else file_entry entry)
      && match_prefix read prefix in
    find_matches command prefix read (if taken then strcpy_to match entry else match)
      (if taken then matches + 1 else matches) des

-- The part after the tests, for the token from `prefix_start` on. With the cursor before the opening
-- quote its length is -1, and what is inserted begins with the byte before `match`.
unfoldable pub insert_match :
    (nbuf prefix_start : ℕ) → (command : Bool) → Around → Editor → Editor × ℕ
insert_match nbuf prefix_start command around e = elim around.entries [
  | none ↦ (e, 0)
  | some des ↦
      let prefix = take (e.cursor - prefix_start) (drop prefix_start e.line) in
      let found = find_matches command prefix (around.name e) (around.match e) 0 des in
      let suffix =
        if ltb e.cursor prefix_start
        then c_string (around.before e ∷ found.0)
        else c_string (drop (e.cursor - prefix_start) found.0) in
      if found.1 == 1 then insert_bytes nbuf suffix e else (e, 0)
]

-- The number of bytes that were inserted.
unfoldable pub complete_token : (nbuf : ℕ) → Around → Editor → Editor × ℕ
unfolding token_start first_token insert_match
complete_token nbuf around e =
    let len = length e.line in
    let here = get_or e.line e.cursor 0 in
    let start = token_start e.line e.cursor in
    let quote = get_or e.line start 0 in
    let prefix_start = if is_quote quote then start + 1 else start in
    if ltb e.cursor len && not (blank_char here) && not (is_quote here)
    then (e, 0)
    else if is_quote quote && ltb e.cursor len && not (here == quote)
    then (e, 0)
    else if leb dirsiz (e.cursor - prefix_start)
    then (e, 0)
    else if has_char b'/' (take (e.cursor - prefix_start) (drop prefix_start e.line))
    then (e, 0)
    else insert_match nbuf prefix_start (first_token (take start e.line)) around e
