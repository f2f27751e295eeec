-- ===== src/Sync/Spinlock/Nesting.antt =====
-- `push_off` and `pop_off` (kernel/sync/spinlock.c): nested pairs, and what they leave.
use base_exp.Base.{
  ℕ, zero, suc, ◌+◌, ◌-◌, ◌<◌, ◌≤◌, ◌≡◌, refl, sym, ◌∙◌, ap, Bool, true, false, ◌&&◌, ◌==◌,
  if◌then◌else◌, Bool-cases, inl, inr, arith, Cmd, done, pure, ◌>>◌, Returns,
}
use mathlib.Core.Path.{subst}
use base_exp.Sync.Spinlock.{Cpu, push_off, pop_off}

-- Interrupts are on only outside of all pairs.
abbrev pub IsNested : Cpu → Type 0
IsNested c = 0 < c.noff → c.enabled ≡ false

pub push_all : ℕ → Cmd Cpu (Unit {0})
push_all zero = pure tt
push_all (suc n) = push_off >> push_all n

pub pop_all : ℕ → Cmd Cpu (Unit {0})
pop_all zero = pure tt
pop_all (suc n) = pop_all n >> pop_off

-- The state inside `n` more pairs, where `n` is not 0.
abbrev pushed : ℕ → Cpu → Cpu
pushed n c = record {
  enabled = false;
  noff = c.noff + n;
  intena = if c.noff == 0 then c.enabled else c.intena;
}

pushed_again : (n : ℕ) (c : Cpu) → pushed n (pushed 1 c) ≡ pushed (suc n) c
pushed_again n c =
    let e : c.noff + 1 + n ≡ c.noff + suc n = omega arith in
    let z : (c.noff + 1 == 0) ≡ false = ground arith in rw (z, e) refl

push_all_lem : (n : ℕ) (c : Cpu) → push_all (suc n) c ≡ done tt (pushed (suc n) c)
unfolding push_all push_off
push_all_lem zero c = refl
push_all_lem (suc n) c = push_all_lem n (pushed 1 c) ∙ ap (done tt) (pushed_again (suc n) c)

pop_off-pushed : (n : ℕ) (c : Cpu) → 0 < n → pop_off (pushed (suc n) c) ≡ done tt (pushed n c)
unfolding pop_off
pop_off-pushed n c some_left =
    let e : c.noff + suc n - 1 ≡ c.noff + n = omega arith in
    let z : (c.noff + suc n == 0) ≡ false = ground arith in
    let y : (c.noff + n == 0) ≡ false = ground arith in rw (z, e, y) refl

-- The state after the last of the pairs.
abbrev popped : Cpu → Cpu
popped c = record c { intena = if c.noff == 0 then c.enabled else c.intena }

last_enabled :
    (enabled intena : Bool) (noff : ℕ)
    → (0 < noff → enabled ≡ false)
    → (if (noff == 0) && (if noff == 0 then enabled else intena) then true else false) ≡ enabled
last_enabled true intena zero nested = refl
last_enabled false intena zero nested = refl
last_enabled true intena (suc n) nested = absurd (let e = nested (omega arith) in cc)
last_enabled false intena (suc n) nested = let z : (suc n == 0) ≡ false = ground arith in rw z refl

pop_off-last : (c : Cpu) → IsNested c → pop_off (pushed 1 c) ≡ done tt (popped c)
unfolding pop_off
pop_off-last c nested =
    let z : (c.noff + 1 == 0) ≡ false = ground arith in
    let e : c.noff + 1 - 1 ≡ c.noff = omega arith in
    let on = last_enabled c.enabled c.intena c.noff nested in rw (z, e, on) refl

pop_all-pushed :
    (k l m : ℕ) (c : Cpu) → 0 < m → l ≡ k + m → pop_all k (pushed l c) ≡ done tt (pushed m c)
unfolding pop_all
pop_all-pushed zero l m c some_left e = let same : l ≡ m = omega arith in rw same refl
pop_all-pushed (suc k) l m c some_left e =
    rw (pop_all-pushed k l (suc m) c (omega arith) (omega arith)) (pop_off-pushed m c some_left)

abbrev IsBalanced : (n k : ℕ) → Cpu → Cpu → Type 0
IsBalanced n k c t =
    (t.noff ≡ c.noff + (n - k)) × (t.enabled ≡ (if k == n then c.enabled else false))

pop_all_some :
    (n k : ℕ) (c : Cpu)
    → k < suc n
    → Returns (λ _ t. IsBalanced (suc n) k c t) ((push_all (suc n) >> pop_all k) c)
pop_all_some n k c h =
    rw (push_all_lem n c, pop_all-pushed k (suc n) (suc n - k) c (omega arith) (omega arith))
      (refl, ground arith)

pop_all_last :
    (n : ℕ) (c : Cpu)
    → IsNested c
    → Returns (λ _ t. IsBalanced (suc n) (suc n) c t) ((push_all (suc n) >> pop_all (suc n)) c)
unfolding pop_all
pop_all_last n c nested =
    rw
      (
        push_all_lem n c,
        pop_all-pushed n (suc n) 1 c (omega arith) (omega arith),
        pop_off-last c nested,
      )
      (omega arith, ground arith)

-- After `n` calls of `push_off` and `k` of `pop_off`, `k` at most `n`: none panics, the nesting is
-- `n - k` deeper than before, and interrupts are off as long as `k` is less than `n`; when `k` is
-- `n`, they are as they were before the first call. The condition is that interrupts are off where
-- the nesting was not zero before.
pub pop_all-push_all :
    (n k : ℕ) (c : Cpu)
    → IsNested c
    → k ≤ n
    → Returns
        (λ _ t. (t.noff ≡ c.noff + (n - k)) × (t.enabled ≡ (if k == n then c.enabled else false)))
        ((push_all n >> pop_all k) c)
pop_all-push_all zero zero c nested h = unfold push_all in unfold pop_all in (omega arith, refl)
pop_all-push_all zero (suc k) c nested h = absurd (omega arith)
pop_all-push_all (suc n) k c nested h = elim (Bool-cases (k == suc n)) [
  | inl e ↦
      subst (λ z. Returns (λ _ t. IsBalanced (suc n) z c t) ((push_all (suc n) >> pop_all z) c))
        (sym (ground arith)) (pop_all_last n c nested)
  | inr ne ↦ pop_all_some n k c (ground arith)
]
