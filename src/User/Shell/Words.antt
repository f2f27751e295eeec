-- ===== src/User/Shell/Words.antt =====
-- The words of a line, read off it in one pass, and strings in memory.
use base_exp.Base.{
  ℕ, ◌+◌, ◌<◌, ◌≤◌, ◌≡◌, ◌∙◌, false, ◌==◌, if◌then◌else◌, List, [], ◌∷◌, ◌++◌, length, arith,
}
use mathlib.Core.Path.{subst}
use base_exp.User.Shell.{blank_char, is_quote, store_char}

-- Between two words, in a word, or in quotes within one.
pub data Mode : Type 0 where
  outside : Mode
  inside : Mode
  quoted : ℕ → Mode

-- The words of a line, `w` being what was read of the first.
unfoldable pub words_of : Mode → List ℕ → List ℕ → List (List ℕ)
words_of outside w [] = []
words_of inside w [] = w ∷ []
words_of (quoted q) w [] = w ∷ []
words_of outside w (c ∷ cs) =
    if blank_char c
    then words_of outside [] cs
    else if is_quote c
    then words_of (quoted c) [] cs
    else words_of inside (c ∷ []) cs
words_of inside w (c ∷ cs) =
    if blank_char c
    then w ∷ words_of outside [] cs
    else if is_quote c
    then words_of (quoted c) w cs
    else words_of inside (w ++ (c ∷ [])) cs
words_of (quoted q) w (c ∷ cs) =
    if c == q then words_of inside w cs else words_of (quoted q) (w ++ (c ∷ [])) cs

-- The bytes from `a` on are `w`.
abbrev pub IsPart : (ℕ → ℕ) → ℕ → List ℕ → Type 0
IsPart byte a [] = Unit {0}
IsPart byte a (c ∷ cs) = (byte a ≡ c) × IsPart byte (a + 1) cs

-- The bytes from `a` on are `w`, none of them NUL, and a NUL.
abbrev pub IsString : (ℕ → ℕ) → ℕ → List ℕ → Type 0
IsString byte a [] = byte a ≡ 0
IsString byte a (c ∷ cs) = (byte a ≡ c) × ((c == 0) ≡ false) × IsString byte (a + 1) cs

-- The addresses are those of the words, each with a NUL behind it, below `top`.
abbrev pub HasWords : (ℕ → ℕ) → List ℕ → List (List ℕ) → Type 0
HasWords byte [] [] = Unit {0}
HasWords byte (a ∷ more) (w ∷ ws) =
    IsPart byte a w × (byte (a + length w) ≡ 0) × HasWords byte more ws
HasWords byte [] (w ∷ ws) = ⊥
HasWords byte (a ∷ more) [] = ⊥

-- Two memories with the same bytes in a range.
abbrev pub IsSame : (ℕ → ℕ) → (ℕ → ℕ) → (a b : ℕ) → Type 0
IsSame byte byte' a b = (i : ℕ) → a ≤ i → i < b → byte' i ≡ byte i

pub IsPart-same :
    (byte byte' : ℕ → ℕ) (a : ℕ) (w : List ℕ)
    → IsSame byte byte' a (a + length w)
    → IsPart byte a w
    → IsPart byte' a w
IsPart-same byte byte' a [] same h = tt
IsPart-same byte byte' a (c ∷ cs) same (at, more) = (
  same a (omega arith) (omega arith) ∙ at,
  IsPart-same byte byte' (a + 1) cs (λ i low high. same i (omega arith) (omega arith)) more,
)

pub IsString-same :
    (byte byte' : ℕ → ℕ) (a : ℕ) (w : List ℕ)
    → IsSame byte byte' a (a + length w + 1)
    → IsString byte a w
    → IsString byte' a w
IsString-same byte byte' a [] same h = same a (omega arith) (omega arith) ∙ h
IsString-same byte byte' a (c ∷ cs) same (at, full, more) = (
  same a (omega arith) (omega arith) ∙ at,
  full,
  IsString-same byte byte' (a + 1) cs (λ i low high. same i (omega arith) (omega arith)) more,
)

pub store_char_below : (byte : ℕ → ℕ) (a c i : ℕ) → i < a → store_char byte a c i ≡ byte i
store_char_below byte a c i low = ground arith

pub store_char_above : (byte : ℕ → ℕ) (a c i : ℕ) → a < i → store_char byte a c i ≡ byte i
store_char_above byte a c i low = ground arith

pub store_char_here : (byte : ℕ → ℕ) (a c : ℕ) → store_char byte a c a ≡ c
store_char_here byte a c = ground arith

pub IsPart-append :
    (byte : ℕ → ℕ) (a : ℕ) (w : List ℕ) (c : ℕ)
    → IsPart byte a w
    → IsPart (store_char byte (a + length w) c) a (w ++ (c ∷ []))
IsPart-append byte a [] c h = (
  subst (λ z. store_char byte z c a ≡ c) (let e : a ≡ a + 0 = omega arith in e)
      (store_char_here byte a c),
  tt,
)
IsPart-append byte a (b ∷ bs) c (at, more) = (
  store_char_below byte (a + length (b ∷ bs)) c a (omega arith) ∙ at,
  subst (λ z. IsPart (store_char byte z c) (a + 1) (bs ++ (c ∷ [])))
      (let e : a + 1 + length bs ≡ a + length (b ∷ bs) = omega arith in e)
      (IsPart-append byte (a + 1) bs c more),
)
