-- ===== src/Sync/Spinlock.antt =====
-- Spin locks (kernel/sync/spinlock.c): one lock that any number of CPUs call `acquire` and
-- `release` of, and each CPU's nesting of turned-off interrupts. What a CPU does between two
-- accesses to the lock is one step, so that the steps of the CPUs interleave as the accesses do;
-- `phase` is where each CPU is in its call.
pub mod Nesting
pub mod Safety
pub mod Steps
pub mod Exclusion
mod Tests
use base_exp.Base.{
  ℕ, zero, suc, ◌+◌, ◌-◌, Bool, true, false, not, ◌&&◌, ◌||◌, ◌==◌, if◌then◌else◌, Option, none,
  some, Run, Cmd, done, panic, asleep, out_of_fuel, pure, fail, ◌>>=◌, ◌>>◌,
}

-- `enabled` is the SIE bit of `sstatus`, by `intr_get`, `intr_off` and `intr_on`.
pub record Cpu : Type 0 where
  pub enabled : Bool
  pub noff : ℕ
  pub intena : Bool

unfoldable pub push_off : Cmd Cpu (Unit {0})
push_off c = done tt (record {
  enabled = false;
  noff = c.noff + 1;
  intena = if c.noff == 0 then c.enabled else c.intena;
})

unfoldable pub pop_off : Cmd Cpu (Unit {0})
pop_off c =
    if c.enabled
    then panic "pop_off - interruptible"
    else if c.noff == 0
    then panic "pop_off"
    else done tt (record c {
      noff = c.noff - 1;
      enabled = if c.noff - 1 == 0 && c.intena then true else c.enabled;
    })

-- Outside of the two functions without the lock (`outside`) or with it (`inside`), in the loop of
-- `acquire`, before its `lk->cpu = mycpu()`, and in `release` before `__sync_lock_release`.
pub data Phase : Type 0 where
  outside : Phase
  spinning : Phase
  entering : Phase
  inside : Phase
  leaving : Phase

-- `owner` is `lk->cpu`.
pub record Spinlock : Type 0 where
  pub locked : Bool
  pub owner : Option ℕ
  pub cpu : ℕ → Cpu
  pub phase : ℕ → Phase

abbrev pub set_phase : (ℕ → Phase) → ℕ → Phase → ℕ → Phase
set_phase phase k p j = if j == k then p else phase j

abbrev pub set_cpu : (ℕ → Cpu) → ℕ → Cpu → ℕ → Cpu
set_cpu cpu k c j = if j == k then c else cpu j

abbrev pub is_owner : Option ℕ → ℕ → Bool
is_owner none k = false
is_owner (some j) k = j == k

abbrev pub holding : Spinlock → ℕ → Bool
holding s k = s.locked && is_owner s.owner k

-- `acquire` up to the loop.
unfoldable pub start_acquire : ℕ → Cmd Spinlock (Unit {0})
start_acquire k s = elim (push_off (s.cpu k)) [
  | done a c ↦
      if holding s k
      then panic "acquire"
      else done tt (record s { cpu = set_cpu s.cpu k c; phase = set_phase s.phase k spinning })
  | panic why ↦ panic why
  | asleep ↦ asleep
  | out_of_fuel ↦ out_of_fuel
]

-- One `__sync_lock_test_and_set(&lk->locked, 1)` of the loop.
unfoldable pub test_and_set : ℕ → Spinlock → Spinlock
test_and_set k s = record s {
  locked = true;
  phase = set_phase s.phase k (if s.locked then spinning else entering);
}

unfoldable pub finish_acquire : ℕ → Spinlock → Spinlock
finish_acquire k s = record s { owner = some k; phase = set_phase s.phase k inside }

-- `release` up to `lk->cpu = 0`.
unfoldable pub start_release : ℕ → Cmd Spinlock (Unit {0})
start_release k s =
    if not (holding s k)
    then panic "release"
    else done tt (record s { owner = none; phase = set_phase s.phase k leaving })

-- `__sync_lock_release(&lk->locked)` and `pop_off()`.
unfoldable pub finish_release : ℕ → Cmd Spinlock (Unit {0})
finish_release k s = elim (pop_off (s.cpu k)) [
  | done a c ↦
      done tt
        (record s { locked = false; cpu = set_cpu s.cpu k c; phase = set_phase s.phase k outside })
  | panic why ↦ panic why
  | asleep ↦ asleep
  | out_of_fuel ↦ out_of_fuel
]

-- The next step of CPU `k`: `calls` says what it calls when it is in neither function.
pub data Call : Type 0 where
  acquire : Call
  release : Call

unfoldable pub call : Call → ℕ → Cmd Spinlock (Unit {0})
unfolding start_acquire start_release
call acquire k = start_acquire k
call release k = start_release k

unfoldable pub step : Call → ℕ → Cmd Spinlock (Unit {0})
unfolding call test_and_set finish_acquire finish_release
step calls k s = elim (s.phase k) [
  | outside ↦ call calls k s
  | inside ↦ call calls k s
  | spinning ↦ done tt (test_and_set k s)
  | entering ↦ done tt (finish_acquire k s)
  | leaving ↦ finish_release k s
]
