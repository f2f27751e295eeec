-- ===== src/Core/Strings/Comparing.antt =====
-- `memcmp` (kernel/core/string.c).
use base_exp.Base.{
  ℕ, zero, suc, ◌+◌, ◌<◌, ◌≡◌, ◌↔◌, inl, inr, refl, sym, ap, ◌∙◌, true, ◌==◌, Bool-cases, arith,
}
use base_exp.Core.Strings.{byte_difference, memcmp}

-- Two bytes differ by 0 only if they are the same.
difference_apart : (a b : ℕ) → a < 256 → b < 256 → byte_difference a b ≡ 0 → a ≡ b
difference_apart a b la lb h = omega arith

add_zero : (a : ℕ) → a + 0 ≡ a
add_zero a = omega arith

move_one : (a j : ℕ) → a + suc j ≡ a + 1 + j
move_one a j = omega arith

-- The `n` bytes at two addresses are the same.
abbrev pub IsEqual : (ℕ → ℕ) → (s1 s2 n : ℕ) → Type 0
IsEqual m s1 s2 n = (i : ℕ) → i < n → m (s1 + i) ≡ m (s2 + i)

IsEqual-more :
    (m : ℕ → ℕ) (s1 s2 n : ℕ)
    → m s1 ≡ m s2
    → IsEqual m (s1 + 1) (s2 + 1) n
    → IsEqual m s1 s2 (suc n)
IsEqual-more m s1 s2 n e rest zero low = rw (add_zero s1, add_zero s2) e
IsEqual-more m s1 s2 n e rest (suc j) low = rw (move_one s1 j, move_one s2 j) (rest j (omega arith))

IsEqual-less :
    (m : ℕ → ℕ) (s1 s2 n : ℕ)
    → IsEqual m s1 s2 (suc n)
    → (m s1 ≡ m s2) × IsEqual m (s1 + 1) (s2 + 1) n
IsEqual-less m s1 s2 n h = (
  ap m (sym (add_zero s1)) ∙ h 0 (omega arith) ∙ ap m (add_zero s2),
  λ i low. ap m (sym (move_one s1 i)) ∙ h (suc i) (omega arith) ∙ ap m (move_one s2 i),
)

memcmp-IsEqual :
    (m : ℕ → ℕ) (s1 s2 n : ℕ) → ((a : ℕ) → m a < 256) → memcmp m s1 s2 n ≡ 0 → IsEqual m s1 s2 n
unfolding memcmp
memcmp-IsEqual m s1 s2 zero bytes h = λ i low. absurd (omega arith)
memcmp-IsEqual m s1 s2 (suc n) bytes h = elim (Bool-cases (m s1 == m s2)) [
  | inr ne ↦
      let e : byte_difference (m s1) (m s2) ≡ 0 = rw ne at h in
      let same = difference_apart (m s1) (m s2) (bytes s1) (bytes s2) e in
      absurd (ground (arith, same, ne))
  | inl e ↦
      let rest : memcmp m (s1 + 1) (s2 + 1) n ≡ 0 = rw e at h in
      IsEqual-more m s1 s2 n (ground arith) (memcmp-IsEqual m (s1 + 1) (s2 + 1) n bytes rest)
]

IsEqual-memcmp : (m : ℕ → ℕ) (s1 s2 n : ℕ) → IsEqual m s1 s2 n → memcmp m s1 s2 n ≡ 0
unfolding memcmp
IsEqual-memcmp m s1 s2 zero h = refl
IsEqual-memcmp m s1 s2 (suc n) h =
    let (here, rest) = IsEqual-less m s1 s2 n h in
    let e : (m s1 == m s2) ≡ true = ground arith in rw e (IsEqual-memcmp m (s1 + 1) (s2 + 1) n rest)

-- On a memory of bytes, `memcmp` returns 0 exactly if the `n` bytes at the two addresses are the same.
pub memcmp_lem :
    (m : ℕ → ℕ) (s1 s2 n : ℕ)
    → ((a : ℕ) → m a < 256)
    → (memcmp m s1 s2 n ≡ 0) ↔ ((i : ℕ) → i < n → m (s1 + i) ≡ m (s2 + i))
memcmp_lem m s1 s2 n bytes = (memcmp-IsEqual m s1 s2 n bytes, IsEqual-memcmp m s1 s2 n)
