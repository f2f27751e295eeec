-- ===== src/Mm/Vm.antt =====
-- kernel/mm/vm.c: Sv39 page tables in physical memory. A pagetable_t and a pte_t* are addresses, 0
-- the null pointer. A function that returns 0 or -1 returns `true` or `false` here.
pub mod Table
pub mod Store
pub mod Link
pub mod Paged
pub mod Walk
pub mod Leaf
pub mod Mapped
pub mod Mappages
pub mod Walkaddr
pub mod Frame
pub mod Unmapping
pub mod Unmap
pub mod Clearing
mod Tests
use base_exp.Base.{
  ℕ, zero, suc, ◌+◌, ◌-◌, ◌*◌, ◌/◌, ◌%◌, ◌^◌, Bool, true, false, not, ◌&&◌, ◌||◌, ◌==◌, leb, ltb,
  if◌then◌else◌, bit_or, done, pure, fail, starved, ◌>>=◌, ◌>>◌,
}
use base_exp.Mm.Mem.{Mm, pgsize, pg_round_up, load, store, clear_page, copy_page}
use base_exp.Mm.Kalloc.{kalloc, kfree}
use base_exp.Mm.Pte.{
  pte_v, pte_r, pte_w, pte_x, pte_u, has_flag, pte2pa, pte_flags, maxva, px, make_pte,
}

-- A page-table page for an invalid entry, or 0 without `alloc` or without memory.
unfoldable pub new_table : ℕ → Bool → Mm ℕ
new_table slot alloc = if not alloc then pure 0 else do
  page ← kalloc
  if page == 0 then pure 0 else do clear_page page 0; store slot (make_pte page 0); pure page

-- The loop of `walk` over the levels above 0.
unfoldable pub walk_from : ℕ → ℕ → ℕ → Bool → Mm ℕ
walk_from zero pagetable va alloc = pure (pagetable + 8 * px 0 va)
walk_from (suc level) pagetable va alloc = do
  let slot = pagetable + 8 * px (suc level) va
  pte ← load slot
  if has_flag pte pte_v then walk_from level (pte2pa pte) va alloc else do
    page ← new_table slot alloc
    if page == 0 then pure 0 else walk_from level page va alloc

unfoldable pub walk : ℕ → ℕ → Bool → Mm ℕ
unfolding walk_from new_table
walk pagetable va alloc = if leb maxva va then fail "walk" else walk_from 2 pagetable va alloc

unfoldable pub walkaddr : ℕ → ℕ → Mm ℕ
walkaddr pagetable va = if leb maxva va then pure 0 else do
  slot ← walk pagetable va false
  if slot == 0 then pure 0 else do
    pte ← load slot
    if not (has_flag pte pte_v)
        then pure 0
        else if not (has_flag pte pte_u)
        then pure 0
        else pure (pte2pa pte)

-- The body of the loop of `mappages` behind its walk, with the rounds that follow.
unfoldable pub map_at : Mm Bool → Bool → (slot pa perm : ℕ) → Mm Bool
map_at rest at_last slot pa perm = if slot == 0 then pure false else do
  pte ← load slot
  if has_flag pte pte_v
      then fail "mappages: remap"
      else do store slot (make_pte pa perm); if at_last then pure true else rest

-- The loop of `mappages`; its rounds are the pages of the range.
unfoldable pub map_loop : ℕ → (pagetable a last pa perm : ℕ) → Mm Bool
map_loop zero pagetable a last pa perm = starved
map_loop (suc fuel) pagetable a last pa perm = do
  let rest = map_loop fuel pagetable ((a + pgsize) % 2 ^ 64) last ((pa + pgsize) % 2 ^ 64) perm
  slot ← walk pagetable a true
  map_at rest (a == last) slot pa perm

unfoldable pub mappages : (pagetable va size pa perm : ℕ) → Mm Bool
unfolding map_loop map_at
mappages pagetable va size pa perm =
    if not (va % pgsize == 0)
    then fail "mappages: va not aligned"
    else if not (size % pgsize == 0)
    then fail "mappages: size not aligned"
    else if size == 0
    then fail "mappages: size"
    else map_loop (size / pgsize) pagetable va ((va + size - pgsize) % 2 ^ 64) pa perm

unfoldable pub kvmmap : (kpgtbl va pa sz perm : ℕ) → Mm (Unit {0})
kvmmap kpgtbl va pa sz perm = do
  mapped ← mappages kpgtbl va sz pa perm
  if mapped then pure tt else fail "kvmmap"

unfoldable pub uvmcreate : Mm ℕ
uvmcreate = do
  pagetable ← kalloc
  if pagetable == 0 then pure 0 else do clear_page pagetable 0; pure pagetable

-- The body of the loop of `uvmunmap` at one page.
unfoldable pub unmap_page : (pagetable a : ℕ) → Bool → Mm (Unit {0})
unmap_page pagetable a do_free = do
  slot ← walk pagetable a false
  if slot == 0 then pure tt else do
    pte ← load slot
    if not (has_flag pte pte_v)
        then pure tt
        else do if do_free then kfree (pte2pa pte) else pure tt; store slot 0

unfoldable pub unmap_loop : ℕ → (pagetable a stop : ℕ) → Bool → Mm (Unit {0})
unmap_loop zero pagetable a stop do_free = starved
unmap_loop (suc fuel) pagetable a stop do_free =
    if ltb a stop
    then unmap_page pagetable a do_free
      >> unmap_loop fuel pagetable ((a + pgsize) % 2 ^ 64) stop do_free
    else pure tt

unfoldable pub uvmunmap : (pagetable va npages : ℕ) → Bool → Mm (Unit {0})
unfolding unmap_loop
uvmunmap pagetable va npages do_free =
    if not (va % pgsize == 0)
    then fail "uvmunmap: not aligned"
    else unmap_loop (npages + 1) pagetable va ((va + npages * pgsize) % 2 ^ 64) do_free

unfoldable pub uvmdealloc : (pagetable oldsz newsz : ℕ) → Mm ℕ
uvmdealloc pagetable oldsz newsz =
    let npages = (pg_round_up oldsz - pg_round_up newsz) / pgsize in
    if leb oldsz newsz
    then pure oldsz
    else if ltb (pg_round_up newsz) (pg_round_up oldsz)
    then uvmunmap pagetable (pg_round_up newsz) npages true >> pure newsz
    else pure newsz

unfoldable pub alloc_loop : ℕ → (pagetable a oldsz newsz xperm : ℕ) → Mm ℕ
alloc_loop zero pagetable a oldsz newsz xperm = starved
alloc_loop (suc fuel) pagetable a oldsz newsz xperm =
    let undo : Mm ℕ = uvmdealloc pagetable a oldsz >>= λ _. pure 0 in
    let rest = alloc_loop fuel pagetable ((a + pgsize) % 2 ^ 64) oldsz newsz xperm in
    if not (ltb a newsz) then pure newsz else do
      mem ← kalloc
      if mem == 0 then undo else do
        clear_page mem 0
        mapped ← mappages pagetable a pgsize mem (bit_or (pte_r + pte_u) xperm)
        if mapped then rest else (kfree mem >> undo)

unfoldable pub uvmalloc : (pagetable oldsz newsz xperm : ℕ) → Mm ℕ
unfolding alloc_loop
uvmalloc pagetable oldsz newsz xperm =
    if ltb newsz oldsz
    then pure oldsz
    else alloc_loop (newsz / pgsize + 2) pagetable (pg_round_up oldsz) (pg_round_up oldsz) newsz
        xperm

-- The loop of `freewalk` over the entries of one page, given what it does to a lower page.
unfoldable pub free_entries : (ℕ → Mm (Unit {0})) → ℕ → (i pagetable : ℕ) → Mm (Unit {0})
free_entries free_child zero i pagetable = pure tt
free_entries free_child (suc rounds) i pagetable = do
  let rest = free_entries free_child rounds (i + 1) pagetable
  pte ← load (pagetable + 8 * i)
  if has_flag pte pte_v && not (has_flag pte pte_r || has_flag pte pte_w || has_flag pte pte_x)
      then (do free_child (pte2pa pte); store (pagetable + 8 * i) 0; rest)
      else if has_flag pte pte_v
      then fail "freewalk: leaf"
      else rest

-- The fuel is the depth of the tree of page-table pages.
unfoldable pub freewalk : ℕ → ℕ → Mm (Unit {0})
unfolding free_entries
freewalk zero pagetable = starved
freewalk (suc depth) pagetable = do free_entries (freewalk depth) 512 0 pagetable; kfree pagetable

unfoldable pub uvmfree : (pagetable sz : ℕ) → Mm (Unit {0})
uvmfree pagetable sz = do
  if ltb 0 sz then uvmunmap pagetable 0 (pg_round_up sz / pgsize) true else pure tt
  freewalk 3 pagetable

-- `memmove(mem, pa, PGSIZE)`
unfoldable pub move_page : ℕ → ℕ → Mm (Unit {0})
move_page dst src m = done tt (record m { word = copy_page m.word dst src })

unfoldable pub copy_loop : ℕ → (old new i sz : ℕ) → Mm Bool
copy_loop zero old new i sz = starved
copy_loop (suc fuel) old new i sz =
    let rest = copy_loop fuel old new ((i + pgsize) % 2 ^ 64) sz in
    let err : Mm Bool = uvmunmap new 0 (i / pgsize) true >>= λ _. pure false in
    if not (ltb i sz) then pure true else do
      slot ← walk old i false
      if slot == 0 then rest else do
        pte ← load slot
        if not (has_flag pte pte_v) then rest else do
          mem ← kalloc
          if mem == 0 then err else do
            move_page mem (pte2pa pte)
            mapped ← mappages new i pgsize mem (pte_flags pte)
            if mapped then rest else (kfree mem >> err)

unfoldable pub uvmcopy : (old new sz : ℕ) → Mm Bool
unfolding copy_loop move_page
uvmcopy old new sz = copy_loop (sz / pgsize + 2) old new 0 sz

-- `*pte &= ~PTE_U` takes the digit out.
unfoldable pub uvmclear : (pagetable va : ℕ) → Mm (Unit {0})
uvmclear pagetable va = do
  slot ← walk pagetable va false
  if slot == 0
      then fail "uvmclear"
      else do pte ← load slot; store slot (pte - pte / pte_u % 2 * pte_u)

unfoldable pub vmfault : (pagetable va : ℕ) → Bool → Mm ℕ
vmfault pagetable va read = pure 0
