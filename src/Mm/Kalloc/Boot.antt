-- ===== src/Mm/Kalloc/Boot.antt =====
-- `freerange`, `kinit` and `kfreemem`: which pages the allocator starts with, and their number.
use base_exp.Base.{
  ℕ, zero, suc, ◌+◌, ◌-◌, ◌*◌, ◌/◌, ◌%◌, ◌<◌, ◌≤◌, ◌^◌, ◌≡◌, ◌∙◌, ap, sym, true, false, ◌==◌, List,
  [], ◌∷◌, arith, done, Returns, Returns-bind, length, has, IsDistinct, length-le_of_distinct,
  Bool-cases, inl, inr, leb, ◌>>=◌,
}
use mathlib.Core.Path.{subst}
use base_exp.Mm.Mem.{Machine, pgsize, pg_round_up}
use base_exp.Mm.Kalloc.{memory_top, bad_page, free_pages, kinit, count_pages, kfreemem}
use base_exp.Mm.Kalloc.FreeList.{Chain, IsFree, aligned_of_has, pushed, kfree-pushed, pushed-IsFree}

-- `n` pages from `p` upwards, each put in front of the ones before it.
abbrev pub stacked : ℕ → ℕ → List ℕ → List ℕ
stacked zero p ps = ps
stacked (suc n) p ps = stacked n (p + pgsize) (p ∷ ps)

pub length-stacked : (n p : ℕ) (ps : List ℕ) → length (stacked n p ps) ≡ n + length ps
length-stacked zero p ps = omega arith
length-stacked (suc n) p ps = omega (arith, length-stacked n (p + pgsize) (p ∷ ps))

-- What `free_pages` may assume: it starts at a page that the allocator takes, above all free pages.
record Fresh (m : Machine) (p : ℕ) (ps : List ℕ) : Type 0 where
  free : IsFree m ps
  aligned : p % pgsize ≡ 0
  low : m.kernel_end ≤ p
  above : (q : ℕ) → has q ps ≡ true → q < p

Fresh-out : {m : Machine} {p : ℕ} {ps : List ℕ} → Fresh m p ps → has p ps ≡ false
Fresh-out {m} {p} {ps} f = elim (Bool-cases (has p ps)) [
  | inl mem ↦ let l = f.above p mem in absurd (omega arith)
  | inr out ↦ out
]

Fresh-pushed :
    {m : Machine} {p : ℕ} {ps : List ℕ}
    → Fresh m p ps
    → bad_page m p ≡ false
    → Fresh (pushed m p) (p + pgsize) (p ∷ ps)
Fresh-pushed {m} {p} {ps} f h = record {
  free = pushed-IsFree p f.free h (Fresh-out f);
  aligned = let a = f.aligned in omega arith;
  low = let a = f.low in omega arith;
  above = λ q mem. elim (Bool-cases (q == p)) [
    | inl e ↦ ground arith
    | inr ne ↦ let l = f.above q (ground arith) in omega arith
  ];
}

-- The loop of `freerange` gives back every whole page below its end.
free_pages-stacked :
    (fuel n p pa_end : ℕ) {m : Machine} {ps : List ℕ}
    → Fresh m p ps
    → pa_end ≤ m.phys_top
    → p + n * pgsize ≤ pa_end
    → pa_end < p + n * pgsize + pgsize
    → n < fuel
    → Returns (λ _ m'. IsFree m' (stacked n p ps)) (free_pages fuel p pa_end m)
unfolding free_pages
free_pages-stacked zero n p pa_end f top lo hi enough = absurd (omega arith)
free_pages-stacked (suc fuel) zero p pa_end f top lo hi enough =
    let over : leb (p + pgsize) pa_end ≡ false = ground arith in rw over f.free
free_pages-stacked (suc fuel) (suc n) p pa_end {m} {ps} f top lo hi enough =
    let more : leb (p + pgsize) pa_end ≡ true = ground arith in
    let ok : bad_page m p ≡ false = let a = f.aligned in let b = f.low in ground arith in
    rw (more, kfree-pushed m p ok)
      (free_pages-stacked fuel n (p + pgsize) pa_end (Fresh-pushed f ok) top (omega arith)
        (omega arith) (omega arith))

-- The number of whole pages that `kinit` finds between the end of the kernel and the top of memory.
abbrev pub boot_pages : ℕ → ℕ → ℕ
boot_pages kernel_end top = (top - pg_round_up kernel_end) / pgsize

-- `kinit` with an empty free list makes every whole page from the end of the kernel to the top of
-- memory free, and no other.
pub kinit-IsFree :
    (phystop memory_size : ℕ) (m : Machine)
    → 0 < m.kernel_end
    → m.kernel_end + pgsize ≤ 2 ^ 64
    → pg_round_up m.kernel_end ≤ memory_top phystop memory_size
    → m.freelist ≡ 0
    → Returns
        (λ _ m'. IsFree m' (
          stacked
            (boot_pages m.kernel_end (memory_top phystop memory_size))
            (pg_round_up m.kernel_end)
            []))
        (kinit phystop memory_size m)
unfolding kinit
kinit-IsFree phystop memory_size m pos fits room empty =
    let top = memory_top phystop memory_size in
    let m' : Machine = record m { phys_top = top } in
    let start : Fresh m' (pg_round_up m.kernel_end) [] = record {
      free = record { chain = empty; pages = tt; above_zero = pos };
      aligned = omega arith;
      low = omega arith;
      above = λ q h. absurd (cc);
    } in
    free_pages-stacked (top / pgsize + 1) (boot_pages m.kernel_end top) (pg_round_up m.kernel_end)
      top start (omega arith) (omega arith) (omega arith) (omega arith)

pages-IsDistinct : (w : ℕ → ℕ) (p : ℕ) (ps : List ℕ) → Chain w p ps → IsDistinct ps
pages-IsDistinct w p [] c = tt
pages-IsDistinct w p (q ∷ qs) c = (c.2, pages-IsDistinct w (w q) qs c.3)

-- There are at most as many free pages as the memory has.
pub length-free : {m : Machine} (ps : List ℕ) → IsFree m ps → length ps ≤ m.phys_top / pgsize + 1
length-free {m} ps f =
    length-le_of_distinct (λ k. k * pgsize) (m.phys_top / pgsize + 1) ps
      (pages-IsDistinct m.word m.freelist ps f.chain)
      λ q mem. let a = aligned_of_has q ps mem f.pages in (q / pgsize, omega arith, omega arith)

count_pages-length :
    (fuel r pages : ℕ) (ps : List ℕ) (m : Machine)
    → Chain m.word r ps
    → length ps < fuel
    → count_pages fuel r pages m ≡ done ((pages + length ps) * pgsize) m
unfolding count_pages
count_pages-length zero r pages ps m c enough = absurd (omega arith)
count_pages-length (suc fuel) r pages [] m c enough = ground arith
count_pages-length (suc fuel) r pages (q ∷ qs) m c enough =
    let more : (r == 0) ≡ false = ground arith in
    rw more (
      count_pages-length fuel (m.word r) (pages + 1) qs m
        (subst (λ z. Chain m.word (m.word z) qs) (sym c.0) c.3) (omega arith)
      ∙ ap (λ k. done (k * pgsize) m) (omega arith))

-- `kfreemem` ends, reports the size of all free pages together, and changes nothing.
pub kfreemem-length :
    {m : Machine} {ps : List ℕ} → IsFree m ps → kfreemem m ≡ done (length ps * pgsize) m
unfolding kfreemem
kfreemem-length {m} {ps} f =
    let short = length-free ps f in
    count_pages-length (m.phys_top / pgsize + 2) m.freelist 0 ps m f.chain (omega arith)
    ∙ ap (λ k. done (k * pgsize) m) (omega arith)

-- `kfreemem` right after `kinit` on an empty free list reports every whole page from the end of the
-- kernel to the top of memory: a booted machine leaks no page.
pub kfreemem-kinit :
    (phystop memory_size : ℕ) (m : Machine)
    → 0 < m.kernel_end
    → m.kernel_end + pgsize ≤ 2 ^ 64
    → pg_round_up m.kernel_end ≤ memory_top phystop memory_size
    → m.freelist ≡ 0
    → Returns
        (λ bytes _. bytes ≡ boot_pages m.kernel_end (memory_top phystop memory_size) * pgsize)
        ((kinit phystop memory_size >>= λ _. kfreemem) m)
kfreemem-kinit phystop memory_size m pos fits room empty =
    let n = boot_pages m.kernel_end (memory_top phystop memory_size) in
    let p = pg_round_up m.kernel_end in
    Returns-bind (λ _ m'. IsFree m' (stacked n p [])) (λ bytes _. bytes ≡ n * pgsize)
      (kinit phystop memory_size m) (λ _. kfreemem)
      (kinit-IsFree phystop memory_size m pos fits room empty)
      λ _ m' f. rw (kfreemem-length f) (ap (λ k. k * pgsize) (length-stacked n p [] ∙ omega arith))
