-- ===== src/Core/Strings/Moving.antt =====
-- What `memset`, `memmove` and `safestrcpy` of kernel/core/string.c leave at each address.
use base_exp.Base.{
  ℕ, zero, suc, ◌+◌, ◌-◌, ◌%◌, ◌<◌, ◌≤◌, ◌≡◌, inl, inr, refl, ◌∙◌, Bool, true, false, ◌&&◌, ◌==◌,
  ltb, leb, if◌then◌else◌, Bool-cases, arith,
}
use base_exp.Core.Strings.{
  set_byte, memset, copy_forward, copy_backward, memmove, copy_string, safestrcpy,
}

abbrev pub in_range : (low n a : ℕ) → Bool
in_range low n a = leb low a && ltb a (low + n)

-- `memset` puts the byte at each of the `n` addresses and changes no other.
pub memset_lem :
    (m : ℕ → ℕ) (dst c n a : ℕ) → memset m dst c n a ≡ (if in_range dst n a then c % 256 else m a)
unfolding memset
memset_lem m dst c zero a = ground arith
memset_lem m dst c (suc n) a = memset_lem (set_byte m dst (c % 256)) (dst + 1) c n a ∙ ground arith

-- Copying the first byte, and then the others from the new memory.
first_byte :
    (m : ℕ → ℕ) (d s n a : ℕ)
    → (ltb s d && ltb d (s + suc n)) ≡ false
    → (if in_range (d + 1) n a
        then set_byte m d (m s) (s + 1 + (a - (d + 1)))
        else set_byte m d (m s) a)
      ≡ (if in_range d (suc n) a then m (s + (a - d)) else m a)
first_byte m d s n a apart = elim (Bool-cases (in_range (d + 1) n a)) [
  | inl i ↦
      let e : s + 1 + (a - (d + 1)) ≡ s + (a - d) = ground arith in
      let t : (s + (a - d) == d) ≡ false = ground arith in
      let o : in_range d (suc n) a ≡ true = ground arith in rw (i, o, e, t) refl
  | inr i ↦ elim (Bool-cases (a == d)) [
    | inl h ↦
        let e : s + (a - d) ≡ s = ground arith in
        let o : in_range d (suc n) a ≡ true = ground arith in rw (i, o, e, h) refl
    | inr h ↦ let o : in_range d (suc n) a ≡ false = ground arith in rw (i, o, h) refl
  ]
]

copy_forward_lem :
    (m : ℕ → ℕ) (d s n a : ℕ)
    → (ltb s d && ltb d (s + n)) ≡ false
    → copy_forward m d s n a ≡ (if in_range d n a then m (s + (a - d)) else m a)
unfolding copy_forward
copy_forward_lem m d s zero a apart = ground arith
copy_forward_lem m d s (suc n) a apart =
    copy_forward_lem (set_byte m d (m s)) (d + 1) (s + 1) n a (ground arith)
    ∙ first_byte m d s n a apart

-- Copying the last byte, and then the others from the new memory.
last_byte :
    (m : ℕ → ℕ) (d s n a : ℕ)
    → s < d
    → (if in_range d n a
        then set_byte m (d + n) (m (s + n)) (s + (a - d))
        else set_byte m (d + n) (m (s + n)) a)
      ≡ (if in_range d (suc n) a then m (s + (a - d)) else m a)
last_byte m d s n a below = elim (Bool-cases (in_range d n a)) [
  | inl i ↦
      let t : (s + (a - d) == d + n) ≡ false = ground arith in
      let o : in_range d (suc n) a ≡ true = ground arith in rw (i, o, t) refl
  | inr i ↦ elim (Bool-cases (a == d + n)) [
    | inl h ↦
        let e : s + (a - d) ≡ s + n = ground arith in
        let o : in_range d (suc n) a ≡ true = ground arith in rw (i, o, e, h) refl
    | inr h ↦ let o : in_range d (suc n) a ≡ false = ground arith in rw (i, o, h) refl
  ]
]

copy_backward_lem :
    (m : ℕ → ℕ) (d s n a : ℕ)
    → s < d
    → copy_backward m (d + n) (s + n) n a ≡ (if in_range d n a then m (s + (a - d)) else m a)
unfolding copy_backward
copy_backward_lem m d s zero a below = ground arith
copy_backward_lem m d s (suc n) a below =
    let x : d + suc n - 1 ≡ d + n = omega arith in
    let y : s + suc n - 1 ≡ s + n = omega arith in
    rw (x, y)
      (copy_backward_lem (set_byte m (d + n) (m (s + n))) d s n a below ∙ last_byte m d s n a below)

-- `memmove` puts at each of the `n` addresses the byte that was at its place in the source before
-- the call, also where the two ranges overlap, and changes no other address.
pub memmove_lem :
    (m : ℕ → ℕ) (dst src n a : ℕ)
    → memmove m dst src n a ≡ (if in_range dst n a then m (src + (a - dst)) else m a)
unfolding memmove
memmove_lem m dst src zero a = ground arith
memmove_lem m dst src (suc n) a =
    let z : (suc n == 0) ≡ false = ground arith in
    elim (Bool-cases (ltb src dst && ltb dst (src + suc n))) [
      | inl h ↦ rw (z, h) (copy_backward_lem m dst src (suc n) a (ground arith))
      | inr h ↦ rw (z, h) (copy_forward_lem m dst src (suc n) a h)
    ]

-- What the loop of `safestrcpy` leaves: nothing before `s` or from the end on is changed.
copy_string_lem :
    (m : ℕ → ℕ) (s t n : ℕ)
    → ((copy_string m s t n).1 ≤ s + n)
      × (s ≤ (copy_string m s t n).1)
      × ((a : ℕ) → in_range s n a ≡ false → (copy_string m s t n).0 a ≡ m a)
unfolding copy_string
copy_string_lem m s t zero = (omega arith, omega arith, λ a h. refl)
copy_string_lem m s t (suc n) =
    let (high, low, same) = copy_string_lem (set_byte m s (m t)) (s + 1) (t + 1) n in
    elim (Bool-cases (m t == 0)) [
      | inl h ↦ rw h (omega arith, omega arith, λ a out. ground arith)
      | inr h ↦ rw h (omega arith, omega arith, λ a out. same a (ground arith) ∙ ground arith)
    ]

-- `safestrcpy` into a buffer of `n` bytes changes no byte outside of it, and ends the string in it
-- with a NUL.
pub safestrcpy_lem :
    (m : ℕ → ℕ) (s t n : ℕ)
    → 0 < n
    → ((a : ℕ) → in_range s n a ≡ false → safestrcpy m s t n a ≡ m a)
      × ((end : ℕ) × (in_range s n end ≡ true) × (safestrcpy m s t n end ≡ 0))
unfolding safestrcpy
safestrcpy_lem m s t n room =
    let (high, low, same) = copy_string_lem m s t (n - 1) in
    let z : (n == 0) ≡ false = ground arith in
    let end = (copy_string m s t (n - 1)).1 in
    rw z (
      λ a out. (let ne : (a == end) ≡ false = ground arith in rw ne (same a (ground arith))),
      (end, ground arith, ground arith),
    )
