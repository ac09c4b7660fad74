-- ===== src/Pmap/Checks/Tests.antt =====
-- The checking functions on a machine of eight pages, of which three are free.
use os.Base.{ℕ, ◌≡◌, refl, Option, none, some, [], ◌∷◌, ◌==◌, if◌then◌else◌, ltb, arith}
use os.Mmu.{pdx, ptx, pte_addr, pgnum}
use os.Pmap.State.{
  PageInfo, Kernel, Run, ok, page_at, set_page, set_link, set_ref, load, store, memset_words, paddr,
  kaddr, page2pa, pa2page, page2kva,
}
use os.Pmap.Pages.{clear_page, page_alloc, page_free, page_decref}
use os.Pmap.Pages.Chain.{FreeList}
use os.Pmap.Pages.Alloc.{cleared}
use os.Pmap.Tables.{
  incref, table_entry, grow, pgdir_walk, page_insert, insert_at, page_lookup, page_remove,
  tlb_invalidate, check_va2pa,
}
use os.Base.{true, false, round_up}
use os.Pmap.Boot.{boot_alloc, next_free}
use os.Pmap.Checks.{
  check_page_free_list, move_low, split_loop, write_low, write_high, poison_loop, behind_boot,
  check_free_page, free_loop, check, check_distinct, must_alloc, must_alloc_three, must_not_alloc,
  give_back, check_page_alloc,
}
use os.Pmap.Checks.Allocator.{check_page_alloc-ok}
use os.Pmap.Checks.Partition.{SameBut}
use os.Pmap.Checks.Front.{move_low-FreeList}
use os.Pmap.Checks.Tables.{
  check_page, must_insert, must_not_insert, check_maps, check_ref, walk_to, check_flag, pgdir_entry,
  set_pgdir_entry, must_alloc_page, check_page_table, check_reinsert, check_moved, check_removed,
  take_back, check_walk, clear_loop, check_cleared,
}

-- Pages 1, 2 and 3 are free, and 4 is the directory.
abbrev pub machine : Kernel
machine = record {
  image_end = 0xf000_1800;
  bootstack = 0xf000_1000;
  npages = 8;
  npages_basemem = 8;
  nextfree = 0xf000_8000;
  page_free_list = some 1;
  kern_pgdir = 0xf000_4000;
  pages = λ i. record {
    pp_link = if i == 1 then some 2 else if i == 2 then some 3 else none;
    pp_ref = if ltb 3 i then 1 else 0;
  };
  pages_kva = 0xf000_7000;
  mem = λ j. 0;
  flushed = [];
  cr0 = 0;
  cr3 = 0;
}

machine-FreeList : FreeList machine (1 ∷ 2 ∷ 3 ∷ [])
machine-FreeList = ground arith

check_page_alloc-ok_example :
    check_page_alloc machine ≡ ok tt (record machine { mem = cleared 1 3 machine.mem })
check_page_alloc-ok_example =
    check_page_alloc-ok machine 1 2 3 [] (omega arith) machine-FreeList (omega arith) (omega arith)

-- What is left of a run: the free list and the reference count of page 1.
abbrev pub outcome : Run (Unit {0}) → Option (Option ℕ × ℕ)
outcome (ok _ s) = some (s.page_free_list, (s.pages 1).pp_ref)
outcome r = none

check_page_run : outcome (check_page machine) ≡ some (some 3, 0)
unfolding check_page must_alloc_three must_alloc check_distinct check check_page_table
    must_not_alloc must_insert must_not_insert check_maps check_ref walk_to check_flag pgdir_entry
    set_pgdir_entry must_alloc_page check_reinsert check_moved check_removed take_back check_walk
    clear_loop check_cleared give_back page_alloc page_free page_decref clear_page incref
    table_entry grow pgdir_walk page_insert insert_at page_lookup page_remove tlb_invalidate
    check_va2pa page_at set_page set_link set_ref load store memset_words paddr kaddr page2pa
    pa2page page2kva pdx ptx pte_addr pgnum
check_page_run = refl

-- Pages 1050, 300 and 5 are free, of which the first is above 4 MB.
abbrev large : Kernel
large = record machine {
  npages = 1100;
  nextfree = 0xf011_0000;
  page_free_list = some 1050;
  pages = λ i. record {
    pp_link = if i == 1050 then some 300 else if i == 300 then some 5 else none;
    pp_ref = 0;
  };
}

-- The free list and the links of its pages.
abbrev chain : Run (Unit {0}) → Option (Option ℕ × Option ℕ × Option ℕ × Option ℕ)
chain (ok _ s) =
    some (s.page_free_list, (s.pages 300).pp_link, (s.pages 5).pp_link, (s.pages 1050).pp_link)
chain r = none

check_page_free_list_run :
    chain (check_page_free_list true large) ≡ some (some 300, some 5, some 1050, none)
unfolding check_page_free_list check move_low split_loop write_low write_high poison_loop
    behind_boot check_free_page free_loop boot_alloc page_at set_page set_link memset_words kaddr
    page2pa page2kva pdx round_up pgnum next_free
check_page_free_list_run = refl

high_after_boot :
    chain (check_page_free_list false (record large { nextfree = 0xf020_0000 })) ≡ none
unfolding check_page_free_list check move_low split_loop write_low write_high poison_loop
    behind_boot check_free_page free_loop boot_alloc page_at set_page set_link memset_words kaddr
    page2pa page2kva pdx round_up pgnum next_free
high_after_boot = refl

large-FreeList : FreeList large (1050 ∷ 300 ∷ 5 ∷ [])
large-FreeList = ground arith

move_low-FreeList_example :
    (first : Option ℕ) × (pages' : ℕ → PageInfo) × (move_low 1 large
      ≡ ok tt (record large { page_free_list = first; pages = pages' }))
    × FreeList (record large { page_free_list = first; pages = pages' }) (300 ∷ 5 ∷ 1050 ∷ [])
    × SameBut (1050 ∷ 300 ∷ 5 ∷ []) large.pages pages'
unfolding page2pa pdx
move_low-FreeList_example =
    move_low-FreeList 1 large (1050 ∷ 300 ∷ 5 ∷ []) (omega arith) large-FreeList
