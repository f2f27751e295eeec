-- ===== src/Mm/Tests.antt =====
-- A machine with one page-table page and a few free pages, and the theorems of `Mm` at it.
use base_exp.Base.{
  ℕ, ◌+◌, ◌-◌, ◌*◌, ◌/◌, ◌⊎◌, ◌<◌, ◌≤◌, ◌≡◌, refl, true, false, ◌==◌, List, [], ◌∷◌, arith,
  if◌then◌else◌, done, Returns, ◌>>=◌,
}
use base_exp.Mm.Mem.{Machine, fill_page, write, load, store, clear_page}
use base_exp.Mm.Kalloc.{kalloc, kfree, kinit, kfreemem}
use base_exp.Mm.Kalloc.FreeList.{IsFree, kalloc-IsFree, kfree-IsFree}
use base_exp.Mm.Kalloc.Boot.{kfreemem-length, kfreemem-kinit}
use base_exp.Mm.Pte.{maxva, px, make_pte}
use base_exp.Mm.Vm.{walk, walkaddr, mappages}
use base_exp.Mm.Vm.Table.{Role, other, table, IsTables, entry}
use base_exp.Mm.Vm.Leaf.{pte_of}
use base_exp.Mm.Vm.Paged.{Paged}
use base_exp.Mm.Vm.Walk.{Walked, walk-Walked}
use base_exp.Mm.Vm.Mapped.{Mapped, Unmapped}
use base_exp.Mm.Vm.Mappages.{mappages-Mapped}
use base_exp.Mm.Vm.Walkaddr.{walkaddr-user_page, walkaddr-mappages, user_page}

-- Pages 3, 2 and 1 are free, in this order; page 4 is the empty root of a page table.
abbrev small_machine : Machine
small_machine = record {
  word = λ a. if a == 0x3000 then 0x2000 else if a == 0x2000 then 0x1000 else 0;
  freelist = 0x3000;
  kernel_end = 0x800;
  phys_top = 0x8000;
}

abbrev free_pages : List ℕ
free_pages = 0x3000 ∷ 0x2000 ∷ 0x1000 ∷ []

abbrev root : ℕ
root = 0x4000

abbrev role : ℕ → Role
role q = if q == root then table 2 0 else other

small_machine-IsFree : IsFree small_machine free_pages
small_machine-IsFree = record {
  chain = ground arith;
  pages = ground arith;
  above_zero = omega arith;
}

small_machine-IsTables : IsTables root role small_machine.word
small_machine-IsTables = record {
  top = refl;
  page = λ p l pre r. ground arith;
  child = λ p l pre i r hi on. absurd (ground arith);
}

small_machine-Paged : Paged root role small_machine free_pages
small_machine-Paged = record {
  tables = small_machine-IsTables;
  free = small_machine-IsFree;
  apart = λ q mem. ground arith;
  small = omega arith;
}

kalloc-IsFree_example :
    Returns
      (λ r m'.
        (r ≡ 0x3000)
        × IsFree m' (0x2000 ∷ 0x1000 ∷ [])
        × ((a : ℕ) → m'.word a ≡ fill_page small_machine.word 0x3000 5 a))
      (kalloc small_machine)
kalloc-IsFree_example = kalloc-IsFree small_machine-IsFree

kfree-IsFree_example :
    Returns
      (λ _ m'.
        IsFree m' (0x5000 ∷ free_pages)
        × ((a : ℕ) → (a == 0x5000) ≡ false → m'.word a ≡ fill_page small_machine.word 0x5000 1 a)
        × Returns (λ q m''. (q ≡ 0x5000) × IsFree m'' free_pages) (kalloc m'))
      (kfree 0x5000 small_machine)
kfree-IsFree_example = kfree-IsFree 0x5000 small_machine-IsFree refl refl

kfreemem-length_example : kfreemem small_machine ≡ done 0x3000 small_machine
kfreemem-length_example = kfreemem-length small_machine-IsFree

kfreemem-kinit_example :
    Returns
      (λ bytes _. bytes ≡ 0x7000)
      ((kinit 0x9000 0x8000 >>= λ _. kfreemem) (record small_machine { freelist = 0 }))
kfreemem-kinit_example =
    kfreemem-kinit 0x9000 0x8000 (record small_machine { freelist = 0 }) (omega arith) (omega arith)
      (omega arith) refl

walk-Walked_example :
    Returns
      (Walked root role small_machine free_pages 2 root 0x5000)
      (walk root 0x5000 true small_machine)
walk-Walked_example = walk-Walked small_machine-Paged 0x5000 (omega arith)

small_machine-Unmapped : Unmapped small_machine root 0x5000 2
unfolding entry
small_machine-Unmapped vb lo hi = ground arith

mappages-Mapped_example :
    Returns
      (Mapped root role small_machine free_pages 0x5000 0x6000 22 2)
      (mappages root 0x5000 0x2000 0x6000 22 small_machine)
mappages-Mapped_example =
    mappages-Mapped 0x5000 2 0x6000 22 small_machine-Paged refl (omega arith) (omega arith)
      (omega arith) small_machine-Unmapped

walkaddr-user_page_example :
    walkaddr root 0x5000 small_machine
    ≡ done (user_page (pte_of small_machine root 0x5000)) small_machine
walkaddr-user_page_example = walkaddr-user_page 0x5000 small_machine-Paged

-- In this machine the call does succeed, and the second page is found.
mappages_run :
    Returns
      (λ pa _. pa ≡ 0x7000)
      ((mappages root 0x5000 0x2000 0x6000 22 >>= λ _. walkaddr root 0x6123) small_machine)
unfolding mappages walkaddr walk load store clear_page kalloc px make_pte fill_page write
mappages_run = refl

walkaddr-mappages_example :
    Returns
      (λ success m'.
        success ≡ true
        → ((vb : ℕ)
            → 0x5000 ≤ vb
            → vb < 0x7000
            → walkaddr root vb m' ≡ done (0x6000 + (vb - 0x5000) / 4096 * 4096) m')
          × ((vb : ℕ)
              → (vb < 0x5000) ⊎ (0x7000 ≤ vb)
              → vb < maxva
              → walkaddr root vb m' ≡ done (user_page (pte_of small_machine root vb)) m'))
      (mappages root 0x5000 0x2000 0x6000 22 small_machine)
walkaddr-mappages_example =
    walkaddr-mappages 0x5000 2 0x6000 22 small_machine-Paged refl (omega arith) (omega arith) refl
      (omega arith) (omega arith) refl small_machine-Unmapped
