-- ===== src/Sync/Spinlock/Exclusion.antt =====
-- Mutual exclusion of the spin lock (kernel/sync/spinlock.c), over all interleavings.
use base_exp.Base.{ℕ, ◌<◌, ◌≡◌, refl, ◌∙◌, ap, true, false, none, Run, done, panic, Returns}
use mathlib.Core.Path.{subst}
use base_exp.Sync.Spinlock.{
  push_off, Phase, outside, spinning, entering, inside, leaving, Spinlock, holding, start_acquire,
  start_release, Call, acquire, release, call, step,
}
use base_exp.Sync.Spinlock.Safety.{in_section, is_inside, is_outside, IsSafe, holding_lem}
use base_exp.Sync.Spinlock.Steps.{
  start_acquire-IsSafe, start_release-IsSafe, finish_acquire-IsSafe, test_and_set-IsSafe,
  finish_release-IsSafe,
}

-- `initlock`, with no CPU in a call.
abbrev pub IsInitial : Spinlock → Type 0
IsInitial s =
    (s.locked ≡ false)
    × (s.owner ≡ none)
    × ((k : ℕ) → s.phase k ≡ outside)
    × ((k : ℕ) → 0 < (s.cpu k).noff → (s.cpu k).enabled ≡ false)

-- The states that the steps of any CPUs, in any order, lead to.
pub data Reached (s : Spinlock) : Spinlock → Type 0 where
  start : Reached s s
  next :
      {t u : Spinlock} (calls : Call) (k : ℕ)
      → Reached s t
      → step calls k t ≡ done tt u
      → Reached s u

IsInitial-IsSafe : (s : Spinlock) → IsInitial s → IsSafe s
IsInitial-IsSafe s (free, none_owns, out, nested) = record {
  alone = λ j k h. absurd (let e = ap in_section (out j) in cc);
  taken = λ k h. absurd (let e = ap in_section (out k) in cc);
  owned = λ k. rw (none_owns, out k) refl;
  off = λ k h. absurd (let e = ap is_outside (out k) in cc);
  nested = nested;
}

Returns-done :
    (P : Spinlock → Type 0) (r : Run Spinlock (Unit {0})) (t : Spinlock)
    → Returns (λ _. P) r
    → r ≡ done tt t
    → P t
Returns-done P r t h e = subst (Returns (λ _. P)) e h

-- In a state that the invariant holds of, which steps return and which panic.
abbrev pub IsLawful : (s : Spinlock) (k : ℕ) → Phase → Type 0
IsLawful s k outside =
    Returns (λ _ t. IsSafe t) (step acquire k s) × (step release k s ≡ panic "release")
IsLawful s k inside =
    Returns (λ _ t. IsSafe t) (step release k s) × (step acquire k s ≡ panic "acquire")
IsLawful s k spinning = (calls : Call) → Returns (λ _ t. IsSafe t) (step calls k s)
IsLawful s k entering = (calls : Call) → Returns (λ _ t. IsSafe t) (step calls k s)
IsLawful s k leaving = (calls : Call) → Returns (λ _ t. IsSafe t) (step calls k s)

step-IsLawful : (s : Spinlock) (k : ℕ) → IsSafe s → (q : Phase) → s.phase k ≡ q → IsLawful s k q
unfolding step call
step-IsLawful s k inv outside e =
    let free : holding s k ≡ false = holding_lem s k inv ∙ ap is_inside e in
    (
      rw (e, step) (start_acquire-IsSafe s k inv e),
      rw (e, step) (unfold start_release in rw free refl),
    )
step-IsLawful s k inv inside e =
    let held : holding s k ≡ true = holding_lem s k inv ∙ ap is_inside e in
    (
      rw (e, step) (start_release-IsSafe s k inv e),
      rw (e, step) (unfold start_acquire in unfold push_off in rw held refl),
    )
step-IsLawful s k inv spinning e = λ _. rw (e, step) (test_and_set-IsSafe s k inv e)
step-IsLawful s k inv entering e = λ _. rw (e, step) (finish_acquire-IsSafe s k inv e)
step-IsLawful s k inv leaving e = λ _. rw (e, step) (finish_release-IsSafe s k inv e)

step-IsSafe :
    (calls : Call) (s t : Spinlock) (k : ℕ) → IsSafe s → step calls k s ≡ done tt t → IsSafe t
step-IsSafe calls s t k inv ran = go calls (s.phase k) (step-IsLawful s k inv (s.phase k) refl) ran
  where
    go : (calls : Call) (q : Phase) → IsLawful s k q → step calls k s ≡ done tt t → IsSafe t
    go acquire outside (ok, stops) ran = Returns-done IsSafe _ t ok ran
    go release outside (ok, stops) ran = absurd (cc)
    go acquire inside (ok, stops) ran = absurd (cc)
    go release inside (ok, stops) ran = Returns-done IsSafe _ t ok ran
    go calls spinning ok ran = Returns-done IsSafe _ t (ok calls) ran
    go calls entering ok ran = Returns-done IsSafe _ t (ok calls) ran
    go calls leaving ok ran = Returns-done IsSafe _ t (ok calls) ran

section_off : (q : Phase) → in_section q ≡ true → is_outside q ≡ false
section_off outside h = absurd (cc)
section_off spinning h = absurd (cc)
section_off entering h = refl
section_off inside h = refl
section_off leaving h = refl

Reached-IsSafe : (s t : Spinlock) → IsInitial s → Reached s t → IsSafe t
Reached-IsSafe s t initial start = IsInitial-IsSafe s initial
Reached-IsSafe s t initial (next {t = r} calls k before ran) =
    step-IsSafe calls r t k (Reached-IsSafe s r initial before) ran

-- From a free lock, however the steps of the CPUs interleave: two CPUs between the two accesses to
-- `locked` are the same one, the lock is taken then, and interrupts are off on that CPU.
pub Reached-alone :
    (s t : Spinlock) (j k : ℕ)
    → IsInitial s
    → Reached s t
    → in_section (t.phase j) ≡ true
    → in_section (t.phase k) ≡ true
    → (j ≡ k) × (t.locked ≡ true) × ((t.cpu k).enabled ≡ false)
Reached-alone s t j k initial reached hj hk =
    let inv = Reached-IsSafe s t initial reached in
    (inv.alone j k hj hk, inv.taken k hk, (inv.off k (section_off (t.phase k) hk)).0)

-- From a free lock, in any state that the CPUs' steps lead to: `acquire` panics exactly for the CPU
-- that has the lock, `release` exactly for one that has not, and no other step panics.
pub Reached-IsLawful :
    (s t : Spinlock) → IsInitial s → Reached s t → (k : ℕ) → IsLawful t k (t.phase k)
Reached-IsLawful s t initial reached k =
    step-IsLawful t k (Reached-IsSafe s t initial reached) (t.phase k) refl
