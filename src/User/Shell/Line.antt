-- ===== src/User/Shell/Line.antt =====
-- `parsecmd` (user/bin/sh.c) over a whole line.
use base_exp.Base.{
  ℕ, zero, suc, ◌+◌, ◌-◌, ◌<◌, ◌≤◌, ◌≡◌, inl, inr, refl, sym, ◌∙◌, ap, true, false, ◌==◌, leb,
  Bool-cases, List, [], ◌∷◌, ◌++◌, length, arith, Cmd, done, pure, ◌>>=◌, ◌>>◌, Returns,
  Returns-bind, Returns-mono,
}
use mathlib.Core.Path.{subst}
use base_exp.User.Shell.{
  maxargs, blank_char, is_quote, Parsing, at_src, store_char, skip_char, skip_blanks, copy_word,
  end_word, next_word, parse_words, parsecmd,
}
use base_exp.User.Shell.Words.{
  outside, inside, quoted, words_of, IsPart, IsString, IsSame, HasWords, IsPart-same, IsString-same,
  store_char_above, store_char_below, store_char_here,
}
use base_exp.User.Shell.Cutting.{IsReading, IsEnd, IsCut, copy_word-IsCut}

abbrev IsStart : List ℕ → Type 0
IsStart [] = Unit {0}
IsStart (c ∷ cs) = blank_char c ≡ false

-- The blanks before a word are skipped.
abbrev IsSkipped : List ℕ → Parsing → Parsing → Type 0
IsSkipped rest s t =
    (rest' : List ℕ) × IsString t.byte t.src rest'
    × (t.byte ≡ s.byte)
    × (t.dst ≡ s.dst)
    × (s.src ≤ t.src)
    × (words_of outside [] rest ≡ words_of outside [] rest')
    × IsStart rest'
    × (length rest' ≤ length rest)

skip_blanks-IsSkipped :
    (fuel : ℕ) (rest : List ℕ) (s : Parsing)
    → length rest < fuel
    → IsString s.byte s.src rest
    → Returns (λ _ t. IsSkipped rest s t) (skip_blanks fuel s)
unfolding skip_blanks words_of
skip_blanks-IsSkipped zero rest s enough h = absurd (omega arith)
skip_blanks-IsSkipped (suc fuel) [] s enough h =
    let black : blank_char (at_src s) ≡ false = rw h refl in
    rw (black, skip_blanks) ([], h, refl, refl, omega arith, refl, tt, omega arith)
skip_blanks-IsSkipped (suc fuel) (c ∷ cs) s enough (at, full, more) =
    elim (Bool-cases (blank_char c)) [
      | inr ne ↦
          let black : blank_char (at_src s) ≡ false = rw at ne in
          rw (black, skip_blanks)
            (c ∷ cs, (at, full, more), refl, refl, omega arith, refl, ne, omega arith)
      | inl e ↦
          let blank : blank_char (at_src s) ≡ true = rw at e in
          rw (blank, skip_blanks)
            (Returns-mono (λ _ t. IsSkipped cs (skip_char s) t) (λ _ t. IsSkipped (c ∷ cs) s t) _
              (skip_blanks-IsSkipped fuel cs (skip_char s) (omega arith) more)
              (λ _ t (rest', r, eb, ed, low, f, begins, fewer).
                (rest', r, eb, ed, omega arith, rw e f, begins, omega arith)))
    ]

words_start :
    (c : ℕ) (cs : List ℕ)
    → blank_char c ≡ false
    → words_of outside [] (c ∷ cs) ≡ words_of inside [] (c ∷ cs)
unfolding words_of
words_start c cs black = rw black refl

words_end : (w rest : List ℕ) → IsEnd rest → words_of inside w rest ≡ w ∷ words_of outside [] rest
unfolding words_of
words_end w [] h = refl
words_end w (c ∷ cs) h = rw h refl

words_some :
    (w cs : List ℕ) (q : ℕ)
    → (0 < length (words_of inside w cs)) × (0 < length (words_of (quoted q) w cs))
unfolding words_of
words_some w [] q = (omega arith, omega arith)
words_some w (c ∷ cs) q = (
  elim (Bool-cases (blank_char c)) [
    | inl blank ↦ rw blank (omega arith)
    | inr black ↦ elim (Bool-cases (is_quote c)) [
      | inl quote ↦ rw (black, quote) (words_some w cs c).1
      | inr plain ↦ rw (black, plain) (words_some (w ++ (c ∷ [])) cs q).0
    ]
  ],
  elim (Bool-cases (c == q)) [
    | inl e ↦ rw e (words_some w cs q).0
    | inr ne ↦ rw ne (words_some (w ++ (c ∷ [])) cs q).1
  ],
)

-- After a word, its NUL is written.
abbrev IsEnded : ℕ → List ℕ → List ℕ → Parsing → Parsing → Type 0
IsEnded start w rest u v =
    (rest' : List ℕ) × IsString v.byte v.src rest'
    × IsPart v.byte start w
    × (v.byte (start + length w) ≡ 0)
    × (v.dst ≡ start + length w + 1)
    × (0 < length rest' → v.dst ≤ v.src)
    × (words_of outside [] rest ≡ words_of outside [] rest')
    × (length rest' ≤ length rest - 1)
    × IsSame u.byte v.byte 0 start

end_word-IsEnded :
    (start : ℕ) (w rest : List ℕ) (u : Parsing)
    → IsReading start w rest u
    → IsEnd rest
    → IsEnded start w rest u (end_word u)
unfolding words_of
end_word-IsEnded start w [] u (at, low, part, top) h =
    let black : blank_char (at_src u) ≡ false = rw at refl in
    rw black (
      [],
      ground (arith, at),
      IsPart-same u.byte (store_char u.byte u.dst 0) start w
          (λ i above below. store_char_below u.byte u.dst 0 i (omega arith)) part,
      rw top (store_char_here u.byte u.dst 0),
      omega arith,
      λ some_left. absurd (omega arith),
      refl,
      omega arith,
      λ i above below. store_char_below u.byte u.dst 0 i (omega arith),
    )
end_word-IsEnded start w (c ∷ cs) u ((at, full, more), low, part, top) h =
    let blank : blank_char (at_src u) ≡ true = rw at h in
    rw (blank, h)
      (
        cs,
        IsString-same u.byte (store_char u.byte u.dst 0) (u.src + 1) cs
            (λ i above below. store_char_above u.byte u.dst 0 i (omega arith)) more,
        IsPart-same u.byte (store_char u.byte u.dst 0) start w
            (λ i above below. store_char_below u.byte u.dst 0 i (omega arith)) part,
        rw top (store_char_here u.byte u.dst 0),
        omega arith,
        λ some_left. omega arith,
        refl,
        omega arith,
        λ i above below. store_char_below u.byte u.dst 0 i (omega arith),
      )

-- A word was found, and the rest of the line gives the others.
HasWords-more :
    (start : ℕ) (w : List ℕ) (argv : List ℕ) (ws : List (List ℕ)) (v t : Parsing)
    → IsPart v.byte start w
    → v.byte (start + length w) ≡ 0
    → v.dst ≡ start + length w + 1
    → IsSame v.byte t.byte 0 v.dst
    → HasWords t.byte argv ws
    → HasWords t.byte (start ∷ argv) (w ∷ ws)
HasWords-more start w argv ws v t part nul top same more = (
  IsPart-same v.byte t.byte start w (λ i above below. same i (omega arith) (omega arith)) part,
  same (start + length w) (omega arith) (omega arith) ∙ nul,
  more,
)

-- What `parse_words` returns and leaves.
abbrev IsParsed : List ℕ → Parsing → List ℕ → Parsing → Type 0
IsParsed rest s argv t =
    HasWords t.byte argv (words_of outside [] rest) × IsSame s.byte t.byte 0 s.dst

words_none : words_of outside [] [] ≡ []
unfolding words_of
words_none = refl

-- The round of the word that begins with `d`.
next_word-IsParsed :
    (fuel argc d : ℕ) (ds : List ℕ) (s : Parsing) (others : Cmd Parsing (List ℕ))
    → length (d ∷ ds) < fuel
    → IsString s.byte s.src (d ∷ ds)
    → s.dst ≤ s.src
    → blank_char d ≡ false
    → argc + length (words_of outside [] (d ∷ ds)) ≤ maxargs - 1
    → ((rest : List ℕ) (v : Parsing)
        → length rest ≤ length ds
        → IsString v.byte v.src rest
        → (0 < length rest → v.dst ≤ v.src)
        → argc + 1 + length (words_of outside [] rest) ≤ maxargs - 1
        → Returns (IsParsed rest v) (others v))
    → Returns (IsParsed (d ∷ ds) s) (next_word fuel argc others s)
unfolding next_word
next_word-IsParsed fuel argc d ds s others enough h low black few rounds =
    let go_on : (at_src s == 0) ≡ false = rw h.0 h.1 in
    let first = words_start d ds black in
    let (one, _) = words_some [] (d ∷ ds) 0 in
    let room : leb (maxargs - 1) argc ≡ false =
      (let few' = ap length first in ground (arith, few, one, few')) in
    rw (go_on, room, next_word)
      (Returns-bind (λ _ u. IsCut IsEnd inside s.dst [] (d ∷ ds) s u) (IsParsed (d ∷ ds) s)
        (copy_word fuel s)
        (λ _. (λ t. done tt (end_word t)) >> (others >>= λ argv. pure (s.dst ∷ argv)))
        (copy_word-IsCut fuel s.dst [] (d ∷ ds) s enough (h, low, tt, omega arith))
        (λ _ u (w, left, reading, f, ends, fewer, same).
          let (rest, r, part, nul, top, low', g, less, same') =
            end_word-IsEnded s.dst w left u reading ends in
          let all : words_of outside [] (d ∷ ds) ≡ w ∷ words_of outside [] rest =
            first ∙ f ∙ words_end w left ends ∙ ap (λ z. w ∷ z) g in
          Returns-bind (IsParsed rest (end_word u)) (IsParsed (d ∷ ds) s) (others (end_word u))
            (λ argv. pure (s.dst ∷ argv))
            (rounds rest (end_word u) (omega arith) r low'
              (let e = ap length all in omega (arith, few, e)))
            (λ argv t (found, kept). (
              subst (HasWords t.byte (s.dst ∷ argv)) (sym all) (
                  HasWords-more s.dst w argv (words_of outside [] rest) (end_word u) t part nul top
                    kept found),
              λ i above below.
                  kept i above (omega arith) ∙ same' i above below ∙ same i above below,
            ))))

-- The blanks before the word leave the words of the line, and the memory.
skipped-IsParsed :
    (line rest : List ℕ) (s t u : Parsing) (argv : List ℕ)
    → t.byte ≡ s.byte
    → t.dst ≡ s.dst
    → words_of outside [] line ≡ words_of outside [] rest
    → IsParsed rest t argv u
    → IsParsed line s argv u
skipped-IsParsed line rest s t u argv eb ed f (found, same) = (
  subst (HasWords u.byte argv) (sym f) found,
  subst (λ z. IsSame z u.byte 0 s.dst) eb (subst (λ z. IsSame t.byte u.byte 0 z) ed same),
)

round-IsParsed :
    (fuel argc : ℕ) (line rest : List ℕ) (s t : Parsing) (others : Cmd Parsing (List ℕ))
    → length rest < fuel
    → IsString t.byte t.src rest
    → t.byte ≡ s.byte
    → t.dst ≡ s.dst
    → s.dst ≤ t.src
    → IsStart rest
    → words_of outside [] line ≡ words_of outside [] rest
    → argc + length (words_of outside [] line) ≤ maxargs - 1
    → ((more : List ℕ) (v : Parsing)
        → length more < length rest
        → IsString v.byte v.src more
        → (0 < length more → v.dst ≤ v.src)
        → argc + 1 + length (words_of outside [] more) ≤ maxargs - 1
        → Returns (IsParsed more v) (others v))
    → Returns (IsParsed line s) (next_word fuel argc others t)
unfolding next_word
round-IsParsed fuel argc line [] s t others enough h eb ed low begins f few rounds =
    let stop : (at_src t == 0) ≡ true = rw h refl in
    rw (stop, next_word)
      (skipped-IsParsed line [] s t t [] eb ed f (rw words_none tt, λ i above below. refl))
round-IsParsed fuel argc line (d ∷ ds) s t others enough h eb ed low begins f few rounds =
    Returns-mono (IsParsed (d ∷ ds) t) (IsParsed line s) (next_word fuel argc others t)
      (next_word-IsParsed fuel argc d ds t others enough h (omega (arith, ed, low)) begins
        (let e = ap length f in omega (arith, e, few))
        (λ more v fewer. rounds more v (omega arith)))
      (λ argv u. skipped-IsParsed line (d ∷ ds) s t u argv eb ed f)

parse_words-IsParsed :
    (fuel argc : ℕ) (rest : List ℕ) (s : Parsing)
    → length rest < fuel
    → IsString s.byte s.src rest
    → (0 < length rest → s.dst ≤ s.src)
    → argc + length (words_of outside [] rest) ≤ maxargs - 1
    → Returns (IsParsed rest s) (parse_words fuel argc s)
unfolding parse_words
parse_words-IsParsed zero argc rest s enough h low few = absurd (omega arith)
parse_words-IsParsed (suc fuel) argc [] s enough h low few =
    let stop : (at_src s == 0) ≡ true = rw h refl in
    rw (stop, parse_words, words_none) (tt, λ i above below. refl)
parse_words-IsParsed (suc fuel) argc (c ∷ cs) s enough h low few =
    let go_on : (at_src s == 0) ≡ false = rw h.0 h.1 in
    rw (go_on, parse_words)
      (Returns-bind (λ _ t. IsSkipped (c ∷ cs) s t) (IsParsed (c ∷ cs) s) (skip_blanks (suc fuel) s)
        (λ _. next_word (suc fuel) argc (parse_words fuel (argc + 1)))
        (skip_blanks-IsSkipped (suc fuel) (c ∷ cs) s enough h)
        (λ _ t (rest, r, eb, ed, later, f, begins, fewer).
          round-IsParsed (suc fuel) argc (c ∷ cs) rest s t (parse_words fuel (argc + 1))
            (omega arith) r eb ed (let below = low (omega arith) in omega (arith, below, later))
            begins f few
            (λ more v less r' low' few'.
              parse_words-IsParsed fuel (argc + 1) more v (omega arith) r' low' few')))

-- `parsecmd` of a string of at most `len` bytes with at most MAXARGS - 1 words returns: the bytes at
-- each address of `argv` are a word of the line followed by a NUL, in order, the words being those
-- that a pass over the line finds, and no byte before the buffer is changed.
pub parsecmd-words :
    (byte : ℕ → ℕ) (buf len : ℕ) (line : List ℕ)
    → IsString byte buf line
    → length line ≤ len
    → length (words_of outside [] line) ≤ maxargs - 1
    → Returns
        (λ argv t.
          HasWords t.byte argv (words_of outside [] line) × ((i : ℕ) → i < buf → t.byte i ≡ byte i))
        (parsecmd byte buf len)
unfolding parsecmd
parsecmd-words byte buf len line h fits few =
    let s : Parsing = record { byte = byte; src = buf; dst = buf } in
    Returns-mono (IsParsed line s)
      (λ argv t.
        HasWords t.byte argv (words_of outside [] line) × ((i : ℕ) → i < buf → t.byte i ≡ byte i))
      (parse_words (len + 1) 0 s)
      (parse_words-IsParsed (len + 1) 0 line s (omega arith) h (λ _. omega arith)
        (omega (arith, few)))
      (λ argv t (found, same). (found, λ i low. same i (omega arith) low))
