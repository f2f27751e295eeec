-- ===== src/User/Shell/Cutting.antt =====
-- `parsecmd` (user/bin/sh.c) finds the words of the line.
use base_exp.Base.{
  ℕ, zero, suc, ◌+◌, ◌<◌, ◌≤◌, ◌≡◌, inl, inr, refl, sym, ◌∙◌, true, false, ◌||◌, ◌==◌, Bool-cases,
  List, [], ◌∷◌, ◌++◌, length, length-append, arith, Returns, Returns-bind, Returns-mono,
}
use mathlib.Core.Path.{subst}
use base_exp.User.Shell.{
  blank_char, is_quote, Parsing, at_src, store_char, skip_char, copy_char, copy_quoted, close_quote,
  copy_word,
}
use base_exp.User.Shell.Words.{
  Mode, inside, quoted, words_of, IsPart, IsString, IsSame, IsPart-append, IsString-same,
  store_char_above, store_char_below,
}

-- `rest` is to be read, and `w` was written from `start` on, not past what is to be read.
abbrev pub IsReading : ℕ → List ℕ → List ℕ → Parsing → Type 0
IsReading start w rest s =
    IsString s.byte s.src rest
    × (s.dst ≤ s.src)
    × IsPart s.byte start w
    × (start + length w ≡ s.dst)

copy_char-IsReading :
    (start c : ℕ) (w cs : List ℕ) (s : Parsing)
    → IsReading start w (c ∷ cs) s
    → IsReading start (w ++ (c ∷ [])) cs (copy_char s)
copy_char-IsReading start c w cs s ((at, full, more), low, part, top) = (
  IsString-same s.byte (store_char s.byte s.dst (at_src s)) (s.src + 1) cs
      (λ i above below. store_char_above s.byte s.dst (at_src s) i (omega arith)) more,
  omega arith,
  subst (λ z. IsPart z start (w ++ (c ∷ [])))
      (let e : store_char s.byte (start + length w) c ≡ store_char s.byte s.dst (at_src s) =
          rw (top, at) refl in
        e)
      (IsPart-append s.byte start w c part),
  omega (arith, length-append w (c ∷ [])),
)

copy_char-IsSame :
    (start c : ℕ) (w cs : List ℕ) (s : Parsing)
    → IsReading start w (c ∷ cs) s
    → IsSame s.byte (copy_char s).byte 0 start
copy_char-IsSame start c w cs s (_, low, part, top) i above below =
    store_char_below s.byte s.dst (at_src s) i (omega arith)

-- What a loop leaves: more of the line read in the same mode, and none of the memory before the word
-- changed.
abbrev pub IsCut : (List ℕ → Type 0) → Mode → ℕ → List ℕ → List ℕ → Parsing → Parsing → Type 0
IsCut Stops mode start w rest s t =
    (w' : List ℕ) × (rest' : List ℕ) × IsReading start w' rest' t
    × (words_of mode w rest ≡ words_of mode w' rest')
    × Stops rest'
    × (length rest' ≤ length rest)
    × IsSame s.byte t.byte 0 start

abbrev IsClosed : ℕ → List ℕ → Type 0
IsClosed q [] = Unit {0}
IsClosed q (c ∷ cs) = (c == q) ≡ true

-- Nothing is left, or a blank comes.
abbrev pub IsEnd : List ℕ → Type 0
IsEnd [] = Unit {0}
IsEnd (c ∷ cs) = blank_char c ≡ true

-- One byte copied, and then the rest of the loop.
IsCut-copied :
    (Stops : List ℕ → Type 0) (mode : Mode) (start c : ℕ) (w cs : List ℕ) (s t : Parsing)
    → IsReading start w (c ∷ cs) s
    → words_of mode w (c ∷ cs) ≡ words_of mode (w ++ (c ∷ [])) cs
    → IsCut Stops mode start (w ++ (c ∷ [])) cs (copy_char s) t
    → IsCut Stops mode start w (c ∷ cs) s t
IsCut-copied Stops mode start c w cs s t reading e (w', rest', r, f, stop, fewer, same) = (
  w',
  rest',
  r,
  e ∙ f,
  stop,
  omega arith,
  λ i above below. same i above below ∙ copy_char-IsSame start c w cs s reading i above below,
)

copy_quoted-IsCut :
    (fuel q start : ℕ) (w rest : List ℕ) (s : Parsing)
    → length rest < fuel
    → IsReading start w rest s
    → Returns (λ _ t. IsCut (IsClosed q) (quoted q) start w rest s t) (copy_quoted fuel q s)
unfolding copy_quoted words_of
copy_quoted-IsCut zero q start w rest s enough reading = absurd (omega arith)
copy_quoted-IsCut (suc fuel) q start w [] s enough (at, low, part, top) =
    let stop : (at_src s == 0 || at_src s == q) ≡ true = rw at refl in
    rw (stop, copy_quoted)
      (w, [], (at, low, part, top), refl, tt, omega arith, λ i above below. refl)
copy_quoted-IsCut (suc fuel) q start w (c ∷ cs) s enough ((at, full, more), low, part, top) =
    elim (Bool-cases (c == q)) [
      | inl e ↦
          let stop : (at_src s == 0 || at_src s == q) ≡ true = rw (at, full, e) refl in
          rw (stop, copy_quoted)
            (
              w,
              c ∷ cs,
              ((at, full, more), low, part, top),
              refl,
              e,
              omega arith,
              λ i above below. refl,
            )
      | inr ne ↦
          let stop : (at_src s == 0 || at_src s == q) ≡ false = rw (at, full, ne) refl in
          let reading : IsReading start w (c ∷ cs) s = ((at, full, more), low, part, top) in
          let step : words_of (quoted q) w (c ∷ cs) ≡ words_of (quoted q) (w ++ (c ∷ [])) cs =
            rw ne refl in
          rw (stop, copy_quoted)
            (Returns-mono _ _ _
              (copy_quoted-IsCut fuel q start (w ++ (c ∷ [])) cs (copy_char s) (omega arith)
                (copy_char-IsReading start c w cs s reading))
              (λ _ t. IsCut-copied (IsClosed q) (quoted q) start c w cs s t reading step))
    ]

-- A quote is passed over.
skip_char-IsReading :
    (start c : ℕ) (w cs : List ℕ) (s : Parsing)
    → IsReading start w (c ∷ cs) s
    → IsReading start w cs (skip_char s)
skip_char-IsReading start c w cs s ((at, full, more), low, part, top) =
    (more, omega arith, part, top)

-- After the loop between quotes, which has left `w'` and `rest'`.
close_quote-IsReading :
    (q start : ℕ) (w rest : List ℕ) (t : Parsing)
    → (q == 0) ≡ false
    → IsReading start w rest t
    → IsClosed q rest
    → (rest' : List ℕ) × IsReading start w rest' (close_quote q t)
      × (words_of (quoted q) w rest ≡ words_of inside w rest')
      × (length rest' ≤ length rest)
unfolding words_of
close_quote-IsReading q start w [] t full (at, low, part, top) closed =
    let no : (at_src t == q) ≡ false = ground (arith, at, full) in
    rw no ([], (at, low, part, top), refl, omega arith)
close_quote-IsReading q start w (c ∷ cs) t full (reading, low, part, top) closed =
    let at : at_src t ≡ c = reading.0 in
    let same : (at_src t == q) ≡ true = rw at closed in
    rw (same, closed)
      (cs, skip_char-IsReading start c w cs t (reading, low, part, top), refl, omega arith)

close_quote-byte : (q : ℕ) (t : Parsing) → (close_quote q t).byte ≡ t.byte
close_quote-byte q t = elim (Bool-cases (at_src t == q)) [ inl e ↦ rw e refl | inr ne ↦ rw ne refl ]

-- Parts of one word, one after the other.
IsCut-join :
    (start : ℕ) (w rest v more : List ℕ) (s t r : Parsing)
    → words_of inside w rest ≡ words_of inside v more
    → length more ≤ length rest
    → IsSame s.byte t.byte 0 start
    → IsCut IsEnd inside start v more t r
    → IsCut IsEnd inside start w rest s r
IsCut-join start w rest v more s t r e fewer same (w', rest', reading, f, stop, less, rest_same) = (
  w',
  rest',
  reading,
  e ∙ f,
  stop,
  omega arith,
  λ i above below. rest_same i above below ∙ same i above below,
)

pub copy_word-IsCut :
    (fuel start : ℕ) (w rest : List ℕ) (s : Parsing)
    → length rest < fuel
    → IsReading start w rest s
    → Returns (λ _ t. IsCut IsEnd inside start w rest s t) (copy_word fuel s)
unfolding copy_word words_of
copy_word-IsCut zero start w rest s enough reading = absurd (omega arith)
copy_word-IsCut (suc fuel) start w [] s enough (at, low, part, top) =
    let stop : (at_src s == 0 || blank_char (at_src s)) ≡ true = rw at refl in
    rw (stop, copy_word) (w, [], (at, low, part, top), refl, tt, omega arith, λ i above below. refl)
copy_word-IsCut (suc fuel) start w (c ∷ cs) s enough reading = elim (Bool-cases (blank_char c)) [
  | inl blank ↦
      let at : at_src s ≡ c = reading.0.0 in
      let stop : (at_src s == 0 || blank_char (at_src s)) ≡ true =
        rw (at, blank, reading.0.1) refl in
      rw (stop, copy_word) (w, c ∷ cs, reading, refl, blank, omega arith, λ i above below. refl)
  | inr black ↦
      let at : at_src s ≡ c = reading.0.0 in
      let go_on : (at_src s == 0 || blank_char (at_src s)) ≡ false =
        rw (at, black, reading.0.1) refl in
      elim (Bool-cases (is_quote c)) [
        | inr plain ↦
            let test : is_quote (at_src s) ≡ false = rw at plain in
            let step : words_of inside w (c ∷ cs) ≡ words_of inside (w ++ (c ∷ [])) cs =
              rw (black, plain) refl in
            rw (go_on, test, copy_word)
              (Returns-mono _ _ _
                (copy_word-IsCut fuel start (w ++ (c ∷ [])) cs (copy_char s) (omega arith)
                  (copy_char-IsReading start c w cs s reading))
                (λ _ t. IsCut-copied IsEnd inside start c w cs s t reading step))
        | inl quote ↦
            let test : is_quote (at_src s) ≡ true = rw at quote in
            let step : words_of inside w (c ∷ cs) ≡ words_of (quoted c) w cs =
              rw (black, quote) refl in
            rw (go_on, test, copy_word, at)
              (Returns-bind (λ _ t. IsCut (IsClosed c) (quoted c) start w cs (skip_char s) t)
                (λ _ t. IsCut IsEnd inside start w (c ∷ cs) s t) (copy_quoted fuel c (skip_char s))
                (λ _ t. copy_word fuel (close_quote c t))
                (copy_quoted-IsCut fuel c start w cs (skip_char s) (omega arith)
                  (skip_char-IsReading start c w cs s reading))
                (λ _ t (v, more, r, e, closed, fewer, same).
                  let (left, r', f, less) =
                    close_quote-IsReading c start v more t reading.0.1 r closed in
                  Returns-mono _ _ _
                    (copy_word-IsCut fuel start v left (close_quote c t) (omega arith) r')
                    (λ _ u.
                      IsCut-join start w (c ∷ cs) v left s (close_quote c t) u (step ∙ e ∙ f)
                        (omega arith)
                        (subst (λ z. IsSame s.byte z 0 start) (sym (close_quote-byte c t)) same))))
      ]
]
