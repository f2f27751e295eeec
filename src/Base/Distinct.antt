-- ===== src/Base/Distinct.antt =====
-- Lists of distinct numbers: membership as a test, and how long such a list can be.
use Prim.Native.Nat.{ℕ, zero, suc, ◌+◌, ◌≤◌, ◌<◌}
use mathlib.Core.Path.{◌≡◌, refl, sym, ap, ◌∙◌}
use mathlib.Core.Logic.{◌≢◌, inl, inr}
use mathlib.Core.Bool.{Bool, true, false, ◌||◌}
use mathlib.Core.List.{List, [], ◌∷◌}
use native.Mathlib.Omega.{arith}
use base_exp.Base.Tests.{◌==◌, if◌then◌else◌, Bool-cases}
use base_exp.Base.Lists.{length}

abbrev pub has : ℕ → List ℕ → Bool
has a [] = false
has a (p ∷ ps) = (a == p) || has a ps

abbrev pub IsDistinct : List ℕ → Type 0
IsDistinct [] = Unit {0}
IsDistinct (p ∷ ps) = (has p ps ≡ false) × IsDistinct ps

pub has_ne : (p q : ℕ) (ps : List ℕ) → has p ps ≡ false → has q ps ≡ true → p ≢ q
has_ne p q ps out mem e = let f : has q ps ≡ false = rw (← e) out in cc

del : ℕ → List ℕ → List ℕ
del x [] = []
del x (p ∷ ps) = if x == p then ps else p ∷ del x ps

length-del : (x : ℕ) (ps : List ℕ) → length ps ≤ length (del x ps) + 1
unfolding del
length-del x [] = omega arith
length-del x (p ∷ ps) = ground (arith, length-del x ps)

has-del : (q x : ℕ) (ps : List ℕ) → has q (del x ps) ≡ true → has q ps ≡ true
unfolding del
has-del q x [] h = h
has-del q x (p ∷ ps) h = ground (arith, has-del q x ps)

Bool_of_ne_true : (b : Bool) → b ≢ true → b ≡ false
Bool_of_ne_true true h = absurd (h refl)
Bool_of_ne_true false h = refl

has-del-false : (q x : ℕ) (ps : List ℕ) → has q ps ≡ false → has q (del x ps) ≡ false
has-del-false q x ps h = Bool_of_ne_true _ λ t. let u = has-del q x ps t in cc

has-del_self : (x : ℕ) (ps : List ℕ) → IsDistinct ps → has x (del x ps) ≡ false
unfolding del
has-del_self x [] d = refl
has-del_self x (p ∷ ps) (out, d) = ground (arith, has-del_self x ps d)

IsDistinct-del : (x : ℕ) (ps : List ℕ) → IsDistinct ps → IsDistinct (del x ps)
unfolding del
IsDistinct-del x [] d = d
IsDistinct-del x (p ∷ ps) (out, d) = elim (Bool-cases (x == p)) [
  | inl e ↦ rw e d
  | inr ne ↦ rw ne (has-del-false p x ps out, IsDistinct-del x ps d)
]

-- IsDistinct values of `f` below `n` are at most `n` in number.
pub length-le_of_distinct :
    (f : ℕ → ℕ) (n : ℕ) (ps : List ℕ)
    → IsDistinct ps
    → ((q : ℕ) → has q ps ≡ true → (k : ℕ) × (k < n) × (q ≡ f k))
    → length ps ≤ n
length-le_of_distinct f zero [] d within = omega arith
length-le_of_distinct f zero (p ∷ ps) d within =
    let w = within p (ground arith) in absurd (omega arith)
length-le_of_distinct f (suc n) ps d within = omega (
  arith,
  length-del (f n) ps,
  length-le_of_distinct f n (del (f n) ps) (IsDistinct-del (f n) ps d) smaller,
)
  where
    smaller : (q : ℕ) → has q (del (f n) ps) ≡ true → (k : ℕ) × (k < n) × (q ≡ f k)
    smaller q h =
        let w = within q (has-del q (f n) ps h) in
        let ne : w.0 ≢ n =
          λ e. has_ne (f n) q (del (f n) ps) (has-del_self (f n) ps d) h (sym (w.2 ∙ ap f e)) in
        (w.0, omega arith, w.2)
