-- ===== src/Pmap/Tables.antt =====
-- The two-level page tables of kern/pmap.c. A table entry is a word of memory.
pub mod Walk
pub mod Translate
pub mod Space
pub mod Remove
pub mod Insert
pub mod Replace
pub mod Grow
pub mod Region
pub mod Virtual
use os.Base.{
  ℕ, zero, suc, ◌+◌, ◌*◌, ◌/◌, ◌%◌, ◌^◌, Bool, true, false, Option, none, some, ◌∷◌, bit_and,
  bit_or, ltb, ◌==◌, if◌then◌else◌, add32,
}
use os.Mmu.{pgsize, pdx, ptx, pte_addr, pte_p, pte_w, pte_u}
use os.Pmap.State.{
  Kernel, Run, ok, fault, out_of_fuel, K, pure, ◌>>=◌, ◌>>◌, page_at, set_link, set_ref, load,
  store, kaddr, page2pa, pa2page,
}
use os.Pmap.Pages.{alloc_zero, page_alloc, page_decref}

-- `&pgdir[PDX(va)]` and `&pgtab[PTX(va)]`
abbrev pub pde_slot : ℕ → ℕ → ℕ
pde_slot pgdir va = pgdir + 4 * pdx va

abbrev pub pte_slot : ℕ → ℕ → ℕ
pte_slot table va = table + 4 * ptx va

-- `pp->pp_ref++`, in 16 bits
unfoldable pub incref : ℕ → K (Unit {0})
incref i = do p ← page_at i; set_ref i ((p.pp_ref + 1) % 2 ^ 16)

-- The end of `pgdir_walk`, from the directory entry `e`.
unfoldable pub table_entry : ℕ → ℕ → K (Option ℕ)
table_entry e va = do table ← kaddr (pte_addr e); pure (some (pte_slot table va))

-- The part of `pgdir_walk` that makes a page table.
unfoldable pub grow : ℕ → ℕ → K (Option ℕ)
grow pgdir va = do
  fresh ← page_alloc alloc_zero
  elim fresh [
    | none ↦ pure none
    | some i ↦ do
      incref i
      set_link i none
      store (pde_slot pgdir va) (bit_or (bit_or (bit_or (page2pa i) pte_p) pte_w) pte_u)
      e ← load (pde_slot pgdir va)
      table_entry e va
  ]

unfoldable pub pgdir_walk : ℕ → ℕ → ℕ → K (Option ℕ)
pgdir_walk pgdir va create = do
  e ← load (pde_slot pgdir va)
  if bit_and e pte_p == 0
      then (if create == 0 then pure none else grow pgdir va)
      else table_entry e va

-- `*pte = w` through the result of `pgdir_walk`
abbrev pub store_entry : Option ℕ → ℕ → K (Unit {0})
store_entry none w s = fault
store_entry (some pte) w s = store pte w s

-- The loop of `boot_map_region`, with `i` rounds done.
unfoldable pub map_loop : ℕ → ℕ → ℕ → ℕ → ℕ → ℕ → ℕ → K (Unit {0})
map_loop zero i pgdir va size pa perm = λ _. out_of_fuel
map_loop (suc fuel) i pgdir va size pa perm =
    if ltb (add32 va i) (add32 va size)
    then (do
      pte ← pgdir_walk pgdir (add32 va (i * pgsize)) 1
      store_entry pte (bit_or (bit_or (add32 pa (i * pgsize)) perm) pte_p)
      map_loop fuel (i + 1) pgdir va size pa perm)
    else pure tt

unfoldable pub boot_map_region : ℕ → ℕ → ℕ → ℕ → ℕ → K (Unit {0})
boot_map_region pgdir va size pa perm = map_loop (size + 1) 0 pgdir va size pa perm

-- `invlpg`
unfoldable pub tlb_invalidate : ℕ → ℕ → K (Unit {0})
tlb_invalidate pgdir va s = ok tt (record s { flushed = va ∷ s.flushed })

unfoldable pub page_remove : ℕ → ℕ → K (Unit {0})
page_remove pgdir va = do
  entry ← pgdir_walk pgdir va 0
  elim entry [
    | none ↦ pure tt
    | some pte ↦ do
      e ← load pte
      if bit_and e pte_p == 0
          then pure tt
          else do page_decref (← pa2page e); store pte 0; tlb_invalidate pgdir va
  ]

-- `0` and `-E_NO_MEM`
pub data Inserted : Type 0 where
  success no_mem : Inserted

-- The part of `page_insert` behind the walk, at the entry `pte`.
unfoldable pub insert_at : ℕ → ℕ → ℕ → ℕ → ℕ → K Inserted
insert_at pgdir i va perm pte = do
  incref i
  e ← load pte
  if bit_and e pte_p == 0 then pure tt else page_remove pgdir va
  store pte (bit_or (bit_or (page2pa i) perm) pte_p)
  pure success

unfoldable pub page_insert : ℕ → ℕ → ℕ → ℕ → K Inserted
page_insert pgdir i va perm = do
  entry ← pgdir_walk pgdir va 1
  elim entry [ none ↦ pure no_mem | some pte ↦ insert_at pgdir i va perm pte ]

-- The page, and what is stored through `pte_store` if that is no null pointer.
unfoldable pub page_lookup : ℕ → ℕ → Bool → K (Option ℕ × Option ℕ)
page_lookup pgdir va wanted = do
  entry ← pgdir_walk pgdir va 0
  elim entry [
    | none ↦ pure (none, none)
    | some pte ↦ do e ← load pte; i ← pa2page e; pure (some i, if wanted then some pte else none)
  ]

-- `~0`
abbrev pub no_page : ℕ
no_page = 0xffff_ffff

unfoldable pub check_va2pa : ℕ → ℕ → K ℕ
check_va2pa pgdir va = do
  d ← load (pde_slot pgdir va)
  if bit_and d pte_p == 0 then pure no_page else do
    table ← kaddr (pte_addr d)
    e ← load (pte_slot table va)
    if bit_and e pte_p == 0 then pure no_page else pure (pte_addr e)
