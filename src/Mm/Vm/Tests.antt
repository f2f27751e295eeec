-- ===== src/Mm/Vm/Tests.antt =====
-- A machine whose page table maps one user page, and the theorems about unmapping at it.
use base_exp.Base.{ℕ, ◌≡◌, refl, true, ◌==◌, List, [], ◌∷◌, arith, if◌then◌else◌, Returns}
use base_exp.Mm.Mem.{Machine}
use base_exp.Mm.Pte.{px, above}
use base_exp.Mm.Vm.{uvmunmap, uvmdealloc}
use base_exp.Mm.Vm.Table.{Role, other, table, IsTables, entry}
use base_exp.Mm.Vm.Paged.{Paged}
use base_exp.Mm.Vm.Leaf.{pte_of}
use base_exp.Mm.Vm.Unmapping.{InRange, Owned, Unmapping}
use base_exp.Mm.Vm.Unmap.{uvmdealloc-Unmapping}
use base_exp.Mm.Vm.Clearing.{Unmapped, uvmunmap-Unmapped}

-- The tables are the pages 4, 5 and 6; the user's page 5 is mapped to the page 7.
abbrev mapped_machine : Machine
mapped_machine = record {
  word = λ a.
      if a == 0x4000
      then 0x1401
      else if a == 0x5000
      then 0x1801
      else if a == 0x6028
      then 0x1c17
      else if a == 0x3000
      then 0x2000
      else 0;
  freelist = 0x3000;
  kernel_end = 0x800;
  phys_top = 0x8000;
}

abbrev free_pages : List ℕ
free_pages = 0x3000 ∷ 0x2000 ∷ []

abbrev role : ℕ → Role
role q =
    if q == 0x4000
    then table 2 0
    else if q == 0x5000
    then table 1 0
    else if q == 0x6000
    then table 0 0
    else other

mapped_machine-IsTables : IsTables 0x4000 role mapped_machine.word
mapped_machine-IsTables = record {
  top = refl;
  page = λ p l pre r. ground arith;
  child = λ p l pre i r hi on. ground arith;
}

mapped_machine-Paged : Paged 0x4000 role mapped_machine free_pages
mapped_machine-Paged = record {
  tables = mapped_machine-IsTables;
  free = record { chain = ground arith; pages = ground arith; above_zero = omega arith };
  apart = λ q mem. ground arith;
  small = omega arith;
}

pte_of_five : (vb : ℕ) → InRange 0x5000 1 vb → pte_of mapped_machine 0x4000 vb ≡ 0x1c17
unfolding entry px above
pte_of_five vb r = ground arith

mapped_machine-Owned : Owned 0x4000 role mapped_machine free_pages 0x5000 1
mapped_machine-Owned = record {
  takes = λ vb r on. rw (pte_of_five vb r);
  outside = λ vb r on. rw (pte_of_five vb r);
  used = λ vb r on. rw (pte_of_five vb r);
  once = λ va vb r r' on on' e. omega arith;
}

uvmunmap-Unmapped_example :
    Returns
      (λ _ m'. Unmapped 0x4000 role mapped_machine free_pages true 0x5000 1 m')
      (uvmunmap 0x4000 0x5000 1 true mapped_machine)
uvmunmap-Unmapped_example =
    uvmunmap-Unmapped 0x5000 1 true mapped_machine-Paged refl (omega arith)
      (λ _. mapped_machine-Owned)

uvmdealloc-Unmapping_example :
    Returns
      (λ r m'. (r ≡ 0x4800) × Unmapping 0x4000 role mapped_machine free_pages 0x5000 1 m')
      (uvmdealloc 0x4000 0x5800 0x4800 mapped_machine)
uvmdealloc-Unmapping_example =
    uvmdealloc-Unmapping 0x5800 0x4800 mapped_machine-Paged (omega arith) (omega arith)
      mapped_machine-Owned
