-- ===== src/Pmap/Setup/Tests.antt =====
-- The check of the installed directory, run on the machine of eight pages whose `cr3` is set, and
-- the flags of `cr0` after entry.S has turned paging on.
mod Booted
use os.Base.{ℕ, ◌≡◌, refl, some}
use os.Mmu.{pdx, ptx, pte_addr, pgnum}
use os.Pmap.State.{
  Run, ok, page_at, set_page, set_link, set_ref, load, store, memset_words, paddr, kaddr, page2pa,
  pa2page, page2kva,
}
use os.Pmap.Pages.{clear_page, page_alloc, page_free, page_decref}
use os.Pmap.Tables.{
  incref, table_entry, grow, pgdir_walk, page_insert, insert_at, page_lookup, page_remove,
  tlb_invalidate,
}
use os.Pmap.Checks.{check, must_alloc}
use os.Pmap.Checks.Tables.{check_ref, pgdir_entry, set_pgdir_entry, take_back}
use os.Pmap.Checks.Tests.{machine, outcome}
use os.Pmap.Setup.{
  word_of, load_virtual, store_virtual, fill_page, insert_page, check_word,
  check_page_installed_pgdir, set_flags,
}

check_page_installed_pgdir_run :
    outcome (check_page_installed_pgdir (record machine { cr3 = 0x4000 })) ≡ some (some 1, 0)
unfolding check_page_installed_pgdir word_of load_virtual store_virtual fill_page insert_page
    check_word must_alloc check check_ref pgdir_entry set_pgdir_entry take_back page_alloc page_free
    page_decref clear_page incref table_entry grow pgdir_walk page_insert insert_at page_lookup
    page_remove tlb_invalidate page_at set_page set_link set_ref load store memset_words paddr kaddr
    page2pa pa2page page2kva pdx ptx pte_addr pgnum
check_page_installed_pgdir_run = refl

abbrev control : Run (Unit {0}) → ℕ
control (ok _ s) = s.cr0
control r = 0

set_flags_run : control (set_flags (record machine { cr0 = 0x8000_001f })) ≡ 0x8005_0033
unfolding set_flags
set_flags_run = refl
