-- ===== src/Mm/Kalloc.antt =====
-- kernel/mm/kalloc.c. The free pages form a list that is threaded through their first words. Each
-- function holds `kmem.lock` over its accesses to the list, so it is one step here.
pub mod FreeList
pub mod Boot
use base_exp.Base.{
  ℕ, zero, suc, ◌+◌, ◌*◌, ◌/◌, ◌%◌, ◌<◌, ◌≤◌, Bool, not, ◌||◌, ◌==◌, leb, ltb, if◌then◌else◌, Run,
  done, panic, out_of_fuel, pure, fail, starved, ◌>>=◌, ◌>>◌,
}
use base_exp.Mm.Mem.{Machine, Mm, pgsize, pg_round_up, write, fill_page}

-- The guard of `kfree`: a page-aligned address of an allocatable page.
abbrev pub bad_page : Machine → ℕ → Bool
bad_page m pa = not (pa % pgsize == 0) || ltb pa m.kernel_end || leb m.phys_top pa

unfoldable pub kfree : ℕ → Mm (Unit {0})
kfree pa m =
    if bad_page m pa
    then panic "kfree"
    else done tt (record m { word = write (fill_page m.word pa 1) pa m.freelist; freelist = pa })

unfoldable pub kalloc : Mm ℕ
kalloc m =
    if m.freelist == 0
    then done 0 m
    else done m.freelist
        (record m { word = fill_page m.word m.freelist 5; freelist = m.word m.freelist })

-- The loop of `freerange` with the rounds that it may take.
unfoldable pub free_pages : ℕ → ℕ → ℕ → Mm (Unit {0})
free_pages zero p pa_end = starved
free_pages (suc fuel) p pa_end =
    let rest = free_pages fuel (p + pgsize) pa_end in
    if leb (p + pgsize) pa_end then kfree p >> rest else pure tt

unfoldable pub freerange : ℕ → ℕ → Mm (Unit {0})
unfolding free_pages
freerange pa_start pa_end = free_pages (pa_end / pgsize + 1) (pg_round_up pa_start) pa_end

abbrev pub memory_top : ℕ → ℕ → ℕ
memory_top phystop memory_size = if memory_size == 0 then phystop else memory_size

-- `kinit`, given what `fdt_get_memory_size` reads from the device tree.
unfoldable pub kinit : ℕ → ℕ → Mm (Unit {0})
unfolding freerange
kinit phystop memory_size m =
    let top = memory_top phystop memory_size in
    freerange m.kernel_end top (record m { phys_top = top })

-- The loop of `kfreemem`, which walks the list and counts.
unfoldable pub count_pages : ℕ → ℕ → ℕ → Mm ℕ
count_pages zero r pages = starved
count_pages (suc fuel) r pages = λ m.
    let rest = count_pages fuel (m.word r) (pages + 1) m in
    if r == 0 then done (pages * pgsize) m else rest

unfoldable pub kfreemem : Mm ℕ
unfolding count_pages
kfreemem m = count_pages (m.phys_top / pgsize + 2) m.freelist 0 m
