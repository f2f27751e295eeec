-- ===== src/Sync/Spinlock/Tests.antt =====
-- The spin lock on concrete inputs.
use base_exp.Base.{
  ℕ, ◌+◌, ◌-◌, ◌≡◌, refl, true, false, ◌==◌, if◌then◌else◌, arith, none, some, done, Returns, ◌>>◌,
}
use base_exp.Sync.Spinlock.{
  Cpu, push_off, outside, spinning, entering, inside, Spinlock, set_phase, set_cpu, start_acquire,
  test_and_set, finish_acquire, acquire, call, step,
}
use base_exp.Sync.Spinlock.Nesting.{push_all, pop_all, pop_all-push_all}
use base_exp.Sync.Spinlock.Exclusion.{
  IsInitial, Reached, start, next, IsLawful, Reached-alone, Reached-IsLawful,
}

abbrev user : Cpu
user = record { enabled = true; noff = 0; intena = false }

pop_all-push_all_example :
    Returns
      (λ _ t. (t.noff ≡ 0 + (2 - 1)) × (t.enabled ≡ (if 1 == 2 then true else false)))
      ((push_all 2 >> pop_all 1) user)
pop_all-push_all_example = pop_all-push_all 2 1 user (λ h. absurd (omega (arith, h))) (omega arith)

abbrev unlocked : Spinlock
unlocked = record { locked = false; owner = none; cpu = λ _. user; phase = λ _. outside }

unlocked-IsInitial : IsInitial unlocked
unlocked-IsInitial = (refl, refl, λ k. refl, λ k h. absurd (omega arith))

-- CPU 2 starts, CPU 5 starts and takes the lock, CPU 2 tries.
abbrev deep : Cpu
deep = record { enabled = false; noff = 1; intena = true }

abbrev one_waits : Spinlock
one_waits = record {
  locked = false;
  owner = none;
  cpu = set_cpu (λ _. user) 2 deep;
  phase = set_phase (λ _. outside) 2 spinning;
}

abbrev both_wait : Spinlock
both_wait = record {
  locked = false;
  owner = none;
  cpu = set_cpu one_waits.cpu 5 deep;
  phase = set_phase one_waits.phase 5 spinning;
}

abbrev one_enters : Spinlock
one_enters = record both_wait { locked = true; phase = set_phase both_wait.phase 5 entering }

abbrev one_in : Spinlock
one_in = record one_enters { owner = some 5; phase = set_phase one_enters.phase 5 inside }

first : step acquire 2 unlocked ≡ done tt one_waits
unfolding step call start_acquire push_off
first = refl

second : step acquire 5 one_waits ≡ done tt both_wait
unfolding step call start_acquire push_off
second = refl

third : step acquire 5 both_wait ≡ done tt one_enters
unfolding step test_and_set
third = refl

fourth : step acquire 5 one_enters ≡ done tt one_in
unfolding step finish_acquire
fourth = refl

one_in-Reached : Reached unlocked one_in
one_in-Reached =
    next acquire 5 (next acquire 5 (next acquire 5 (next acquire 2 start first) second) third)
      fourth

Reached-alone_example :
    (◌≡◌ {A = ℕ} 5 5) × (one_in.locked ≡ true) × ((one_in.cpu 5).enabled ≡ false)
Reached-alone_example =
    Reached-alone unlocked one_in 5 5 unlocked-IsInitial one_in-Reached refl refl

Reached-IsLawful_example : IsLawful one_in 2 (one_in.phase 2)
Reached-IsLawful_example = Reached-IsLawful unlocked one_in unlocked-IsInitial one_in-Reached 2
