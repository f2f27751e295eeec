-- ===== src/Base/Execution.antt =====
-- How a function of the kernel runs: it returns with the new state, panics with the source's
-- message, goes to sleep until another process acts, or (in the model only) has been given too few
-- rounds for one of its loops.
use Prim.Native.String.{String}
use mathlib.Core.Path.{◌≡◌, refl}
use mathlib.Core.Bool.{Bool, true, false}
use base_exp.Base.Tests.{if◌then◌else◌}

pub data Run (S A : Type 0) : Type 0 where
  done : A → S → Run S A
  panic : String → Run S A
  asleep : Run S A
  out_of_fuel : Run S A

abbrev pub Cmd : Type 0 → Type 0 → Type 0
Cmd S A = S → Run S A

module _ {S A : Type 0} where
  abbrev pub pure : A → Cmd S A
  pure a = λ s. done a s

  abbrev pub fail : String → Cmd S A
  fail why = λ s. panic why

  abbrev pub starved : Cmd S A
  starved = λ s. out_of_fuel

module _ {S : Type 0} where
  abbrev pub get : Cmd S S
  get = λ s. done s s

  abbrev pub put : S → Cmd S (Unit {0})
  put s = λ _. done tt s

  abbrev pub modify : (S → S) → Cmd S (Unit {0})
  modify f = λ s. done tt (f s)

module _ {S A B : Type 0} where
  abbrev pub and_then : Run S A → (A → Cmd S B) → Run S B
  and_then (done a s) k = k a s
  and_then (panic why) k = panic why
  and_then asleep k = asleep
  and_then out_of_fuel k = out_of_fuel

  infixl 5 ◌>>=◌ ◌>>◌
  abbrev pub ◌>>=◌ : Cmd S A → (A → Cmd S B) → Cmd S B
  m >>= k = λ s. and_then (m s) k

  abbrev pub ◌>>◌ : Cmd S A → Cmd S B → Cmd S B
  m >> n = m >>= λ _. n

  -- What a successful chain has done: its first part returned, and the rest ran from there.
  pub >>=-eq-done :
      (r : Run S A) (k : A → Cmd S B) {b : B} {t : S}
      → and_then r k ≡ done b t
      → (a : A) × (s : S) × (r ≡ done a s) × (k a s ≡ done b t)
  >>=-eq-done (done a s) k h = (a, s, refl, h)
  >>=-eq-done (panic why) k h = absurd (cc)
  >>=-eq-done asleep k h = absurd (cc)
  >>=-eq-done out_of_fuel k h = absurd (cc)

-- The run returns, and what it returns and leaves behind satisfies `P`.
abbrev pub Returns : {S A : Type 0} → (A → S → Type 0) → Run S A → Type 0
Returns P (done a s) = P a s
Returns P (panic why) = ⊥
Returns P asleep = ⊥
Returns P out_of_fuel = ⊥

module _ {S A B : Type 0} where
  pub Returns-bind :
      (P : A → S → Type 0) (Q : B → S → Type 0) (r : Run S A) (k : A → Cmd S B)
      → Returns P r
      → ((a : A) (s : S) → P a s → Returns Q (k a s))
      → Returns Q (and_then r k)
  Returns-bind P Q (done a s) k h next = next a s h
  Returns-bind P Q (panic why) k h next = absurd h
  Returns-bind P Q asleep k h next = absurd h
  Returns-bind P Q out_of_fuel k h next = absurd h

module _ {S A : Type 0} where
  pub Returns-mono :
      (P Q : A → S → Type 0) (r : Run S A)
      → Returns P r
      → ((a : A) (s : S) → P a s → Q a s)
      → Returns Q r
  Returns-mono P Q (done a s) h weaken = weaken a s h
  Returns-mono P Q (panic why) h weaken = h
  Returns-mono P Q asleep h weaken = h
  Returns-mono P Q out_of_fuel h weaken = h

-- The run ends, with `P` if it returns.
unfoldable pub Ends : {S A : Type 0} → (A → S → Type 0) → Run S A → Type 0
Ends P (done a s) = P a s
Ends P (panic why) = Unit {0}
Ends P asleep = Unit {0}
Ends P out_of_fuel = ⊥

module _ {S A : Type 0} where
  pub Ends-done : (P : A → S → Type 0) (a : A) (s : S) → P a s → Ends P (done a s)
  unfolding Ends
  Ends-done P a s h = h

  pub Ends-panic : (P : A → S → Type 0) (why : String) → Ends P (panic why)
  unfolding Ends
  Ends-panic P why = tt

  pub Ends-asleep : (P : A → S → Type 0) → Ends P asleep
  unfolding Ends
  Ends-asleep P = tt

  pub Ends-starved : (P : A → S → Type 0) → Ends P out_of_fuel → ⊥
  unfolding Ends
  Ends-starved P h = h

  pub Ends-if :
      (P : A → S → Type 0) (b : Bool) (r q : Run S A)
      → Ends P r
      → Ends P q
      → Ends P (if b then r else q)
  Ends-if P true r q h g = h
  Ends-if P false r q h g = g

  pub Ends-either :
      (P : A → S → Type 0) (b : Bool) (m n : Cmd S A) (s : S)
      → Ends P (m s)
      → Ends P (n s)
      → Ends P ((if b then m else n) s)
  Ends-either P true m n s h g = h
  Ends-either P false m n s h g = g

module _ {S A B : Type 0} where
  pub Ends-bind :
      (P : A → S → Type 0) (Q : B → S → Type 0) (r : Run S A) (k : A → Cmd S B)
      → Ends P r
      → ((a : A) (s : S) → P a s → Ends Q (k a s))
      → Ends Q (and_then r k)
  unfolding Ends
  Ends-bind P Q (done a s) k h next = next a s h
  Ends-bind P Q (panic why) k h next = tt
  Ends-bind P Q asleep k h next = tt
  Ends-bind P Q out_of_fuel k h next = absurd h
