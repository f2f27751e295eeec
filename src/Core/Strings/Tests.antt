-- ===== src/Core/Strings/Tests.antt =====
-- The byte functions on concrete inputs.
use base_exp.Base.{ℕ, ◌+◌, ◌-◌, ◌%◌, ◌^◌, ◌<◌, ◌≡◌, ◌↔◌, refl, true, false, if◌then◌else◌, arith}
use base_exp.Core.Strings.Comparing.{memcmp_lem}
use base_exp.Core.Strings.{memcmp, memset, memmove, copy_backward, copy_forward, safestrcpy}
use base_exp.Core.Strings.Moving.{in_range, memset_lem, memmove_lem, safestrcpy_lem}

-- The byte at each address is the address.
abbrev counting : ℕ → ℕ
counting a = a

-- Two ranges that overlap, in both directions.
memmove-up : memmove counting 3 1 5 6 ≡ 4
unfolding memmove copy_backward copy_forward
memmove-up = refl

memmove-down : memmove counting 1 3 5 4 ≡ 6
unfolding memmove copy_backward copy_forward
memmove-down = refl

memmove_lem_example :
    memmove counting 3 1 5 6 ≡ (if in_range 3 5 6 then counting (1 + (6 - 3)) else counting 6)
memmove_lem_example = memmove_lem counting 3 1 5 6

memset_lem_example : memset counting 3 261 2 4 ≡ (if in_range 3 2 4 then 261 % 256 else counting 4)
memset_lem_example = memset_lem counting 3 261 2 4

safestrcpy_lem_example :
    ((a : ℕ) → in_range 9 4 a ≡ false → safestrcpy counting 9 40 4 a ≡ counting a)
    × ((end : ℕ) × (in_range 9 4 end ≡ true) × (safestrcpy counting 9 40 4 end ≡ 0))
safestrcpy_lem_example = safestrcpy_lem counting 9 40 4 (omega arith)

-- The low digits of the addresses: the bytes repeat after 16.
abbrev repeating : ℕ → ℕ
repeating a = a % 16

memcmp_lem_example :
    (memcmp repeating 3 19 4 ≡ 0) ↔ ((i : ℕ) → i < 4 → repeating (3 + i) ≡ repeating (19 + i))
memcmp_lem_example = memcmp_lem repeating 3 19 4 (λ a. omega arith)

memcmp-repeating : (memcmp repeating 3 19 4 ≡ 0) × (memcmp repeating 3 20 4 ≡ 2 ^ 32 - 1)
unfolding memcmp
memcmp-repeating = (refl, refl)
