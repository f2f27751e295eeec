-- ===== src/Mm/Vm/Walkaddr.antt =====
-- `walkaddr`: the translation of a user address, and what it says after `mappages`.
use base_exp.Base.{
  ℕ, ◌+◌, ◌-◌, ◌*◌, ◌/◌, ◌%◌, ◌^◌, ◌<◌, ◌≤◌, ◌≡◌, refl, ◌∙◌, true, false, ◌&&◌, ◌==◌, leb, List,
  arith, if◌then◌else◌, Bool-cases, inl, inr, done, Returns, Returns-mono, ◌⊎◌,
}
use base_exp.Mm.Mem.{Machine, pgsize, load}
use base_exp.Mm.Pte.{
  pte_v, pte_u, has_flag, pte2pa, make_pte, make_pte_parts, pte2pa-make_pte, maxva,
}
use base_exp.Mm.Vm.{walkaddr, mappages}
use base_exp.Mm.Vm.Table.{Role, find}
use base_exp.Mm.Vm.Paged.{Paged}
use base_exp.Mm.Vm.Walk.{walk-find}
use base_exp.Mm.Vm.Leaf.{pte_of}
use base_exp.Mm.Vm.Mapped.{Mapped, Unmapped, word_found, find_none}
use base_exp.Mm.Vm.Mappages.{mappages-Mapped}
use mathlib.Core.Path.{subst}

-- The physical page of a user address: 0 unless its entry is valid and open to the user.
abbrev pub user_page : ℕ → ℕ
user_page pte = if has_flag pte pte_v && has_flag pte pte_u then pte2pa pte else 0

-- `walkaddr` returns the page of the address's entry, 0 for an address from MAXVA on, and changes
-- nothing.
pub walkaddr-user_page :
    {root : ℕ} {role : ℕ → Role} {m : Machine} {ps : List ℕ} (va : ℕ)
    → Paged root role m ps
    → walkaddr root va m ≡ done (if leb maxva va then 0 else user_page (pte_of m root va)) m
unfolding walkaddr load
walkaddr-user_page {root} {role} {m} va inv = elim (Bool-cases (leb maxva va)) [
  | inl over ↦ rw over
  | inr below ↦
      let small : va < maxva = ground arith in
      rw (below, walk-find root va m small)
        (elim (Bool-cases (find m.word 2 root va == 0)) [
          | inl z ↦ let e = find_none inv va small (ground arith) in ground arith
          | inr nz ↦ let e = word_found inv va small (ground arith) in rw (nz, e) (ground arith)
        ])
]

walkaddr-Mapped :
    {root : ℕ} {role : ℕ → Role} {m m' : Machine} {ps : List ℕ} (va n pa perm vb : ℕ)
    → Mapped root role m ps va pa perm n true m'
    → pa % pgsize ≡ 0
    → pa + n * pgsize ≤ 2 ^ 56
    → perm < 1024
    → has_flag perm pte_u ≡ true
    → va + n * pgsize ≤ maxva
    → va ≤ vb
    → vb < va + n * pgsize
    → walkaddr root vb m' ≡ done (pa + (vb - va) / pgsize * pgsize) m'
walkaddr-Mapped {root} {m} {m'} va n pa perm vb r al pfits small user fits lo hi =
    let sb : vb < maxva = omega arith in
    let target = pa + (vb - va) / pgsize * pgsize in
    let whole = r.whole refl in
    let e : pte_of m' root vb ≡ make_pte target perm = r.map vb sb ∙ ground arith in
    let parts = make_pte_parts target perm small in
    let back = pte2pa-make_pte target perm (omega arith) (omega arith) small in
    let in_range : leb maxva vb ≡ false = ground arith in
    let is_valid : has_flag (make_pte target perm) pte_v ≡ true = ground arith in
    let is_user : has_flag (make_pte target perm) pte_u ≡ true = ground arith in
    walkaddr-user_page vb r.paged ∙ rw (in_range, e, is_valid, is_user, back)

-- Where `mappages` of `n` pages with PTE_U succeeds, `walkaddr` afterwards sends every address of the
-- range to the page that it was mapped to, at the same distance from the start, and every other
-- address to the page that it had before.
pub walkaddr-mappages :
    {root : ℕ} {role : ℕ → Role} {m : Machine} {ps : List ℕ} (va n pa perm : ℕ)
    → Paged root role m ps
    → va % pgsize ≡ 0
    → 0 < n
    → va + n * pgsize ≤ maxva
    → pa % pgsize ≡ 0
    → pa + n * pgsize ≤ 2 ^ 56
    → perm < 1024
    → has_flag perm pte_u ≡ true
    → Unmapped m root va n
    → Returns
        (λ success m'.
          success ≡ true
          → ((vb : ℕ)
              → va ≤ vb
              → vb < va + n * pgsize
              → walkaddr root vb m' ≡ done (pa + (vb - va) / pgsize * pgsize) m')
            × ((vb : ℕ)
                → (vb < va) ⊎ (va + n * pgsize ≤ vb)
                → vb < maxva
                → walkaddr root vb m' ≡ done (user_page (pte_of m root vb)) m'))
        (mappages root va (n * pgsize) pa perm m)
walkaddr-mappages {root} {role} {m} {ps} va n pa perm inv al pos fits pal pfits small user free =
    Returns-mono (Mapped root role m ps va pa perm n) _ _
      (mappages-Mapped va n pa perm inv al pos fits pfits free)
      λ success m' r good.
        let r' = subst (λ b. Mapped root role m ps va pa perm n b m') good r in
        (
          λ vb. walkaddr-Mapped va n pa perm vb r' pal pfits small user fits,
          λ vb out sb.
              let below : leb maxva vb ≡ false = ground arith in
              let whole = r'.whole refl in
              let e : pte_of m' root vb ≡ pte_of m root vb = r'.map vb sb ∙ ground arith in
              walkaddr-user_page vb r'.paged ∙ rw (below, e),
        )
