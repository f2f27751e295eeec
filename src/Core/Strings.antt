-- ===== src/Core/Strings.antt =====
-- The byte functions of kernel/core/string.c on a memory of bytes. A pointer is its address; an
-- object does not reach over the end of the address space, so that no address wraps around.
pub mod Moving
pub mod Comparing
mod Tests
use base_exp.Base.{
  ℕ, zero, suc, ◌+◌, ◌-◌, ◌%◌, ◌^◌, Bool, not, ◌&&◌, ◌||◌, ◌==◌, ltb, Option, none, some,
  if◌then◌else◌,
}

abbrev pub set_byte : (ℕ → ℕ) → ℕ → ℕ → ℕ → ℕ
set_byte m p c a = if a == p then c else m a

-- The loop of `memset`, `n` bytes from `p` on.
unfoldable pub memset : (ℕ → ℕ) → (dst c n : ℕ) → ℕ → ℕ
memset m dst c zero = m
memset m dst c (suc n) = memset (set_byte m dst (c % 256)) (dst + 1) c n

-- `*d++ = *s++`.
unfoldable pub copy_forward : (ℕ → ℕ) → (d s n : ℕ) → ℕ → ℕ
copy_forward m d s zero = m
copy_forward m d s (suc n) = copy_forward (set_byte m d (m s)) (d + 1) (s + 1) n

-- `*--d = *--s`.
unfoldable pub copy_backward : (ℕ → ℕ) → (d s n : ℕ) → ℕ → ℕ
copy_backward m d s zero = m
copy_backward m d s (suc n) = copy_backward (set_byte m (d - 1) (m (s - 1))) (d - 1) (s - 1) n

unfoldable pub memmove : (ℕ → ℕ) → (dst src n : ℕ) → ℕ → ℕ
memmove m dst src n =
    if n == 0
    then m
    else if ltb src dst && ltb dst (src + n)
    then copy_backward m (dst + n) (src + n) n
    else copy_forward m dst src n

-- The loop of `safestrcpy`: the memory, and where `s` ends up.
unfoldable pub copy_string : (ℕ → ℕ) → (s t n : ℕ) → (ℕ → ℕ) × ℕ
copy_string m s t zero = (m, s)
copy_string m s t (suc n) =
    let rest = copy_string (set_byte m s (m t)) (s + 1) (t + 1) n in
    if m t == 0 then (set_byte m s (m t), s + 1) else rest

unfoldable pub safestrcpy : (ℕ → ℕ) → (s t n : ℕ) → ℕ → ℕ
unfolding copy_string
safestrcpy m s t n =
    if n == 0 then m else (let (copied, end) = copy_string m s t (n - 1) in set_byte copied end 0)

-- A difference of two bytes as an `int`, by its two's complement.
abbrev pub byte_difference : ℕ → ℕ → ℕ
byte_difference a b = (a + 2 ^ 32 - b) % 2 ^ 32

unfoldable pub memcmp : (ℕ → ℕ) → (s1 s2 n : ℕ) → ℕ
memcmp m s1 s2 zero = 0
memcmp m s1 s2 (suc n) =
    let rest = memcmp m (s1 + 1) (s2 + 1) n in
    if not (m s1 == m s2) then byte_difference (m s1) (m s2) else rest

unfoldable pub strncmp : (ℕ → ℕ) → (p q n : ℕ) → ℕ
strncmp m p q zero = 0
strncmp m p q (suc n) =
    let rest = strncmp m (p + 1) (q + 1) n in
    if not (m p == 0) && m p == m q then rest else byte_difference (m p) (m q)

-- The second loop of `strncpy`.
unfoldable pub pad_string : (ℕ → ℕ) → (s n : ℕ) → ℕ → ℕ
pad_string m s zero = m
pad_string m s (suc n) = pad_string (set_byte m s 0) (s + 1) n

unfoldable pub strncpy : (ℕ → ℕ) → (s t n : ℕ) → ℕ → ℕ
unfolding pad_string
strncpy m s t zero = m
strncpy m s t (suc n) =
    let rest = strncpy (set_byte m s (m t)) (s + 1) (t + 1) n in
    if m t == 0 then pad_string (set_byte m s (m t)) (s + 1) n else rest

-- The loop of `strlen`, if it ends within `fuel` bytes.
unfoldable pub strlen : (fuel : ℕ) → (ℕ → ℕ) → (s : ℕ) → Option ℕ
strlen zero m s = none
strlen (suc fuel) m s =
    let rest = strlen fuel m (s + 1) in
    if m s == 0 then some 0 else elim rest [ none ↦ none | some n ↦ some (n + 1) ]
