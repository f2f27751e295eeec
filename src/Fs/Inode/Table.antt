-- ===== src/Fs/Inode/Table.antt =====
-- `iget` (kernel/fs/fs.c): the inode table has one entry for an inode.
use base_exp.Base.{
  ℕ, zero, suc, ◌+◌, ◌<◌, ◌≤◌, ◌≡◌, ◌⊎◌, inl, inr, refl, sym, Bool, true, false, ◌&&◌, ◌==◌, ltb,
  Bool-cases, Option, none, some, arith, Run, done, panic, Returns,
}
use mathlib.Core.Path.{subst}
use base_exp.Fs.Inode.{
  Inode, Itable, ninode, set_inode, Search, hit, miss, remember, find_inode, iget,
}

-- The entry is in use, for this inode of this device.
abbrev pub is_for : (dev inum : ℕ) → Inode → Bool
is_for dev inum i = ltb 0 i.ref && i.dev == dev && i.inum == inum

-- Two entries in use for the same inode are the same entry.
abbrev pub IsUnique : (ℕ → Inode) → Type 0
IsUnique inode =
    (i j dev inum : ℕ)
    → i < ninode
    → j < ninode
    → is_for dev inum (inode i) ≡ true
    → is_for dev inum (inode j) ≡ true
    → i ≡ j

-- What the loop of `iget` finds among the `n` entries from `ip` on.
abbrev pub IsFound : (ℕ → Inode) → (dev inum : ℕ) → Option ℕ → (ip n : ℕ) → Search → Type 0
IsFound inode dev inum empty ip n (hit k) =
    (is_for dev inum (inode k) ≡ true) × (ip ≤ k) × (k < ip + n)
IsFound inode dev inum empty ip n (miss (some k)) =
    ((j : ℕ) → ip ≤ j → j < ip + n → is_for dev inum (inode j) ≡ false)
    × ((empty ≡ some k) ⊎ ((inode k).ref ≡ 0) × (k < ip + n))
IsFound inode dev inum empty ip n (miss none) =
    ((j : ℕ) → ip ≤ j → j < ip + n → (is_for dev inum (inode j) ≡ false) × (0 < (inode j).ref))
    × (empty ≡ none)

remember-some :
    (empty : Option ℕ) (i : Inode) (ip k : ℕ)
    → remember empty i ip ≡ some k
    → (empty ≡ some k) ⊎ (i.ref ≡ 0) × (ip ≡ k)
remember-some none i ip k h = elim (Bool-cases (i.ref == 0)) [
  | inl e ↦ inr (ground arith, ground (arith, h, e))
  | inr ne ↦ absurd (ground (arith, h, ne))
]
remember-some (some e) i ip k h = inl h

remember-none :
    (empty : Option ℕ) (i : Inode) (ip : ℕ)
    → remember empty i ip ≡ none
    → (empty ≡ none) × (0 < i.ref)
remember-none none i ip h = (
  refl,
  elim (Bool-cases (i.ref == 0)) [ inl e ↦ absurd (ground (arith, h, e)) | inr ne ↦ ground arith ],
)
remember-none (some e) i ip h = absurd (cc)

pub find_inode-IsFound :
    (inode : ℕ → Inode) (dev inum : ℕ) (empty : Option ℕ) (ip n : ℕ)
    → IsFound inode dev inum empty ip n (find_inode inode dev inum empty ip n)
unfolding find_inode
find_inode-IsFound inode dev inum none ip zero = (λ j low high. absurd (omega arith), refl)
find_inode-IsFound inode dev inum (some e) ip zero = (λ j low high. absurd (omega arith), inl refl)
find_inode-IsFound inode dev inum empty ip (suc n) =
    elim (Bool-cases (is_for dev inum (inode ip))) [
      | inl e ↦ rw e (e, omega arith, omega arith)
      | inr ne ↦ rw ne (
          wider (find_inode inode dev inum (remember empty (inode ip) ip) (ip + 1) n) ne
            (find_inode-IsFound inode dev inum (remember empty (inode ip) ip) (ip + 1) n))
    ]
  where
    wider :
        (f : Search)
        → is_for dev inum (inode ip) ≡ false
        → IsFound inode dev inum (remember empty (inode ip) ip) (ip + 1) n f
        → IsFound inode dev inum empty ip (suc n) f
    wider (hit k) ne (h, low, high) = (h, omega arith, omega arith)
    wider (miss (some k)) ne (others, free) = (
      λ j low high. elim (Bool-cases (j == ip)) [
        | inl e ↦
            let same : ip ≡ j = ground arith in
            subst (λ z. is_for dev inum (inode z) ≡ false) same ne
        | inr apart ↦ others j (ground arith) (omega arith)
      ],
      elim free [
        | inl e ↦ elim (remember-some empty (inode ip) ip k e) [
          | inl same ↦ inl same
          | inr (zero_ref, same) ↦
              inr (subst (λ z. (inode z).ref ≡ 0) same zero_ref, omega (arith, same))
        ]
        | inr (zero_ref, low) ↦ inr (zero_ref, omega arith)
      ],
    )
    wider (miss none) ne (others, e) =
        let (was, used) = remember-none empty (inode ip) ip e in
        (
          λ j low high. elim (Bool-cases (j == ip)) [
            | inl e ↦
                let same : ip ≡ j = ground arith in
                subst (λ z. (is_for dev inum (inode z) ≡ false) × (0 < (inode z).ref)) same
                  (ne, used)
            | inr apart ↦ others j (ground arith) (omega arith)
          ],
          was,
        )

set_inode_same : (inode : ℕ → Inode) (ip : ℕ) (b : Inode) → set_inode inode ip b ip ≡ b
set_inode_same inode ip b = ground arith

-- An entry is for an inode that no other entry is for.
set_inode-IsUnique :
    (inode : ℕ → Inode) (ip : ℕ) (b : Inode)
    → IsUnique inode
    → ((j : ℕ) → j < ninode → (j == ip) ≡ false → is_for b.dev b.inum (inode j) ≡ false)
    → IsUnique (set_inode inode ip b)
set_inode-IsUnique inode ip b unique alone i j dev inum li lj hi hj = elim (Bool-cases (i == ip)) [
  | inl ei ↦ elim (Bool-cases (j == ip)) [
    | inl ej ↦ ground arith
    | inr nj ↦ absurd (clash j lj nj (rw ei at hi) (rw nj at hj))
  ]
  | inr ni ↦ elim (Bool-cases (j == ip)) [
    | inl ej ↦ absurd (clash i li ni (rw ej at hj) (rw ni at hi))
    | inr nj ↦ unique i j dev inum li lj (rw ni at hi) (rw nj at hj)
  ]
]
  where
    clash :
        (k : ℕ)
        → k < ninode
        → (k == ip) ≡ false
        → is_for dev inum b ≡ true
        → is_for dev inum (inode k) ≡ true
        → ⊥
    clash k low apart here there = let no = alone k low apart in absurd (ground arith)

and_true : (a : Bool) → (a && true) ≡ a
and_true true = refl
and_true false = refl

and_false : (a : Bool) → (a && false) ≡ false
and_false true = refl
and_false false = refl

is_for_lem :
    (dev inum : ℕ) (i : Inode)
    → is_for dev inum i ≡ true
    → (ltb 0 i.ref ≡ true) × ((i.dev == dev) ≡ true) × ((i.inum == inum) ≡ true)
is_for_lem dev inum i h = (ground arith, ground arith, ground arith)

-- An entry that is counted once more.
is_for_more :
    (dev inum : ℕ) (i : Inode)
    → is_for dev inum i ≡ true
    → (is_for dev inum (record i { ref = i.ref + 1 }) ≡ true) × (is_for i.dev i.inum i ≡ true)
is_for_more dev inum i h =
    let (r, d, n) = is_for_lem dev inum i h in
    let dd : (i.dev == i.dev) ≡ true = ground arith in
    let nn : (i.inum == i.inum) ≡ true = ground arith in
    let rr : ltb 0 (i.ref + 1) ≡ true = ground arith in (rw (rr, d, n) refl, rw (r, dd, nn) refl)

-- How `iget` ends.
abbrev pub IsGot : (dev inum : ℕ) → Itable → Run Itable ℕ → Type 0
IsGot dev inum t r =
    ((r ≡ panic "iget: no inodes")
      × ((j : ℕ) → j < ninode → (is_for dev inum (t.inode j) ≡ false) × (0 < (t.inode j).ref)))
    ⊎ Returns
        (λ ip u.
          IsUnique u.inode
          × (ip < ninode)
          × (is_for dev inum (u.inode ip) ≡ true)
          × ((u.inode ip).ref ≡ (t.inode ip).ref + 1)
          × ((u.inode ip).valid ≡ ((t.inode ip).valid && is_for dev inum (t.inode ip)))
          × ((j : ℕ) → (j == ip) ≡ false → u.inode j ≡ t.inode j))
        r

IsGot-hit :
    (dev inum : ℕ) (t : Itable) (ip : ℕ)
    → IsUnique t.inode
    → is_for dev inum (t.inode ip) ≡ true
    → ip < ninode
    → IsGot dev inum t (
        done ip (record t {
          inode = set_inode t.inode ip (record (t.inode ip) { ref = (t.inode ip).ref + 1 });
        }))
IsGot-hit dev inum t ip unique found low =
    let b : Inode = record (t.inode ip) { ref = (t.inode ip).ref + 1 } in
    let (own, before) = is_for_more dev inum (t.inode ip) found in
    let at = set_inode_same t.inode ip b in
    inr (
      set_inode-IsUnique t.inode ip b unique (λ j lj apart.
          elim (Bool-cases (is_for b.dev b.inum (t.inode j))) [
            | inr ne ↦ ne
            | inl other ↦ absurd (
                let same = unique j ip b.dev b.inum lj low other before in
                ground (arith, same, apart))
          ]),
      low,
      rw at own,
      rw at refl,
      rw at (rw found (sym (and_true (t.inode ip).valid))),
      λ j ne. rw ne refl,
    )

IsGot-taken :
    (dev inum : ℕ) (t : Itable) (ip : ℕ)
    → IsUnique t.inode
    → ((j : ℕ) → 0 ≤ j → j < 0 + ninode → is_for dev inum (t.inode j) ≡ false)
    → (t.inode ip).ref ≡ 0
    → ip < ninode
    → IsGot dev inum t (
        done ip (record t {
          inode =
              set_inode t.inode ip
                (record (t.inode ip) { dev = dev; inum = inum; ref = 1; valid = false });
        }))
IsGot-taken dev inum t ip unique others idle low =
    let b : Inode = record (t.inode ip) { dev = dev; inum = inum; ref = 1; valid = false } in
    let at = set_inode_same t.inode ip b in
    let old = others ip (omega arith) (omega arith) in
    let dd : (dev == dev) ≡ true = ground arith in
    let nn : (inum == inum) ≡ true = ground arith in
    inr (
      set_inode-IsUnique t.inode ip b unique (λ j lj apart. others j (omega arith) (omega arith)),
      low,
      rw (at, dd, nn) refl,
      rw (at, idle) refl,
      rw (at, old) (sym (and_false (t.inode ip).valid)),
      λ j ne. rw ne refl,
    )

-- From a table in which each inode has one entry, `iget` panics, every entry being in use for
-- another inode, or gives an entry for the inode, counted once more, that is valid only if it was
-- for this inode and valid before; no other entry is changed, and each inode has one entry still.
pub iget-IsUnique :
    (dev inum : ℕ) (t : Itable) → IsUnique t.inode → IsGot dev inum t (iget dev inum t)
unfolding iget
iget-IsUnique dev inum t unique =
    go (find_inode t.inode dev inum none 0 ninode) refl
      (find_inode-IsFound t.inode dev inum none 0 ninode)
  where
    go :
        (f : Search)
        → find_inode t.inode dev inum none 0 ninode ≡ f
        → IsFound t.inode dev inum none 0 ninode f
        → IsGot dev inum t (iget dev inum t)
    go (hit ip) e (found, _, low) =
        rw (e, iget) (IsGot-hit dev inum t ip unique found (omega arith))
    go (miss none) e (full, _) =
        rw (e, iget) (inl (refl, λ j low. full j (omega arith) (omega arith)))
    go (miss (some ip)) e (others, inl absent) = absurd (cc)
    go (miss (some ip)) e (others, inr (idle, low)) =
        rw (e, iget) (IsGot-taken dev inum t ip unique others idle (omega arith))
