-- ===== src/Proc/Keeps.antt =====
-- What a function of kernel/proc/proc.c leaves, if it returns: a property of every state that it
-- returns in, and how such properties follow the parts of a function.
use base_exp.Base.{
  ℕ, ◌≡◌, refl, Bool, true, false, if◌then◌else◌, String, [], get, pure, fail, Run, done, panic,
  asleep, out_of_fuel, ◌>>=◌, and_then,
}
use mathlib.Core.Path.{subst}
use base_exp.Mm.Mem.{Machine, Mm}
use base_exp.Fs.Files.{File, Files}
use base_exp.Fs.Inode.{Ino, Itable}
use base_exp.Base.{Cmd}
use base_exp.Proc.Kernel.{
  Process, set_proc, change, Kernel, Kern, in_mem, mm, in_itable, ino, in_files, files,
}

abbrev pub Leaves : {A : Type 0} → (A → Kernel → Type 0) → Run Kernel A → Type 0
Leaves P (done a s) = P a s
Leaves P (panic why) = Unit {0}
Leaves P asleep = Unit {0}
Leaves P out_of_fuel = Unit {0}

module _ {A : Type 0} where
  pub Leaves-done :
      (P : A → Kernel → Type 0) (r : Run Kernel A) (a : A) (s : Kernel)
      → Leaves P r
      → r ≡ done a s
      → P a s
  Leaves-done P r a s h e = subst (Leaves P) e h

  -- A function of another part of the kernel leaves what does not depend on that part.
  pub Leaves-mm :
      (P : Kernel → Type 0) (f : Mm A) (s : Kernel)
      → ((m : Machine) → P (record s { mem = m }))
      → Leaves (λ _. P) (mm f s)
  Leaves-mm P f s h = go (f s.mem)
    where
      go : (r : Run Machine A) → Leaves (λ _. P) (in_mem s r)
      go (done a m) = h m
      go (panic why) = tt
      go asleep = tt
      go out_of_fuel = tt

  pub Leaves-ino :
      (P : Kernel → Type 0) (f : Ino A) (s : Kernel)
      → ((m : Itable) → P (record s { itable = m }))
      → Leaves (λ _. P) (ino f s)
  Leaves-ino P f s h = go (f s.itable)
    where
      go : (r : Run Itable A) → Leaves (λ _. P) (in_itable s r)
      go (done a m) = h m
      go (panic why) = tt
      go asleep = tt
      go out_of_fuel = tt

  pub Leaves-files :
      (P : Kernel → Type 0) (f : Cmd Files A) (s : Kernel)
      → ((m : ℕ → File) → P (record s { file = m }))
      → Leaves (λ _. P) (files f s)
  Leaves-files P f s h = go (f (record { file = s.file; ofile = []; put = [] }))
    where
      go : (r : Run Files A) → Leaves (λ _. P) (in_files s r)
      go (done a m) = h m.file
      go (panic why) = tt
      go asleep = tt
      go out_of_fuel = tt

module _ {A B : Type 0} where
  pub Leaves-bind :
      (P : A → Kernel → Type 0) (Q : B → Kernel → Type 0) (r : Run Kernel A) (k : A → Kern B)
      → Leaves P r
      → ((a : A) (s : Kernel) → P a s → Leaves Q (k a s))
      → Leaves Q (and_then r k)
  Leaves-bind P Q (done a s) k h next = next a s h
  Leaves-bind P Q (panic why) k h next = tt
  Leaves-bind P Q asleep k h next = tt
  Leaves-bind P Q out_of_fuel k h next = tt

-- From a state with `P`, the function leaves `Q`.
unfoldable pub Triple : {A : Type 0} → (Kernel → Type 0) → Kern A → (A → Kernel → Type 0) → Type 0
Triple P m Q = (s : Kernel) → P s → Leaves Q (m s)

module _ {A B : Type 0} where
  pub Triple-bind :
      (P : Kernel → Type 0) (M : A → Kernel → Type 0) (Q : B → Kernel → Type 0) (m : Kern A)
      (k : A → Kern B)
      → Triple P m M
      → ((a : A) → Triple (M a) (k a) Q)
      → Triple P (m >>= k) Q
  unfolding Triple
  Triple-bind P M Q m k first then_ s h = Leaves-bind M Q (m s) k (first s h) (λ a t. then_ a t)

pub Triple-get :
    (P : Kernel → Type 0)
    → Triple P get (λ s t. P t × (t.proc ≡ s.proc) × (t.initproc ≡ s.initproc))
unfolding Triple
Triple-get P s h = (h, refl, refl)

pub Triple-change :
    (P : Kernel → Type 0) (Q : Unit {0} → Kernel → Type 0) (p : ℕ) (f : Process → Process)
    → ((s : Kernel) → P s → Q tt (record s { proc = set_proc s.proc p (f (s.proc p)) }))
    → Triple P (change p f) Q
unfolding Triple
Triple-change P Q p f h = h

module _ {A : Type 0} where
  pub Triple-pure :
      (P : Kernel → Type 0) (Q : A → Kernel → Type 0) (a : A)
      → ((s : Kernel) → P s → Q a s)
      → Triple P (pure a) Q
  unfolding Triple
  Triple-pure P Q a h = h

  pub Triple-weaken :
      (P P' : Kernel → Type 0) (Q : A → Kernel → Type 0) (m : Kern A)
      → Triple P m Q
      → ((s : Kernel) → P' s → P s)
      → Triple P' m Q
  unfolding Triple
  Triple-weaken P P' Q m h weaker s g = h s (weaker s g)

  pub Triple-mm :
      (P : Kernel → Type 0) (f : Mm A)
      → ((s : Kernel) (m : Machine) → P s → P (record s { mem = m }))
      → Triple P (mm f) (λ _. P)
  unfolding Triple
  Triple-mm P f stable s h = Leaves-mm P f s (λ m. stable s m h)

  pub Triple-ino :
      (P : Kernel → Type 0) (f : Ino A)
      → ((s : Kernel) (m : Itable) → P s → P (record s { itable = m }))
      → Triple P (ino f) (λ _. P)
  unfolding Triple
  Triple-ino P f stable s h = Leaves-ino P f s (λ m. stable s m h)

  pub Triple-files :
      (P : Kernel → Type 0) (f : Cmd Files A)
      → ((s : Kernel) (m : ℕ → File) → P s → P (record s { file = m }))
      → Triple P (files f) (λ _. P)
  unfolding Triple
  Triple-files P f stable s h = Leaves-files P f s (λ m. stable s m h)

  pub Triple-fail :
      (P : Kernel → Type 0) (Q : A → Kernel → Type 0) (why : String) → Triple P (fail why) Q
  unfolding Triple
  Triple-fail P Q why s h = tt

  pub Triple-if :
      (P : Kernel → Type 0) (Q : A → Kernel → Type 0) (b : Bool) (m n : Kern A)
      → (b ≡ true → Triple P m Q)
      → (b ≡ false → Triple P n Q)
      → Triple P (if b then m else n) Q
  Triple-if P Q true m n yes_ no_ = yes_ refl
  Triple-if P Q false m n yes_ no_ = no_ refl

  -- Every function leaves a state.
  pub Triple-any : (P : Kernel → Type 0) (m : Kern A) → Triple P m (λ _ _. Unit {0})
  unfolding Triple
  Triple-any P m s h = go (m s)
    where
      go : (r : Run Kernel A) → Leaves (λ _ _. Unit {0}) r
      go (done a t) = tt
      go (panic why) = tt
      go asleep = tt
      go out_of_fuel = tt
