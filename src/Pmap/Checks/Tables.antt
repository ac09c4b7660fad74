-- ===== src/Pmap/Checks/Tables.antt =====
-- The checks of page tables in kern/pmap.c: `check_page`, `check_kern_pgdir` and
-- `check_page_installed_pgdir`.
use os.Base.{
  ℕ, zero, suc, ◌+◌, ◌*◌, Bool, true, false, not, none, some, bit_and, bit_or, ◌==◌, if◌then◌else◌,
}
use os.Mmu.{pgsize, npdentries, nptentries, ptsize, pdx, pte_addr, pte_p, pte_w, pte_u}
use os.Pmap.State.{
  assertion, ok, fault, K, pure, stop, ◌>>=◌, ◌>>◌, page_at, set_ref, get_free_list, set_free_list,
  load, store, memset_words, kaddr, page2pa, page2kva,
}
use os.Pmap.Pages.{page_free}
use os.Pmap.Tables.{
  pte_slot, pgdir_walk, page_insert, success, no_mem, page_lookup, page_remove, no_page,
  check_va2pa,
}
use os.Pmap.Checks.{check, must_alloc, must_not_alloc, must_alloc_three, give_back}

abbrev pub get_pgdir : K ℕ
get_pgdir s = ok s.kern_pgdir s

-- `assert(page_insert(kern_pgdir, i, va, perm) == 0)` and `... < 0`
unfoldable pub must_insert : ℕ → ℕ → ℕ → K (Unit {0})
must_insert i va perm = do
  pgdir ← get_pgdir
  r ← page_insert pgdir i va perm
  elim r [ success ↦ pure tt | no_mem ↦ stop assertion ]

unfoldable pub must_not_insert : ℕ → ℕ → ℕ → K (Unit {0})
must_not_insert i va perm = do
  pgdir ← get_pgdir
  r ← page_insert pgdir i va perm
  elim r [ success ↦ stop assertion | no_mem ↦ pure tt ]

-- `assert(check_va2pa(kern_pgdir, va) == pa)`
unfoldable pub check_maps : ℕ → ℕ → K (Unit {0})
check_maps va pa = do pgdir ← get_pgdir; a ← check_va2pa pgdir va; check (a == pa)

-- `assert(pages[i].pp_ref == r)`
unfoldable pub check_ref : ℕ → ℕ → K (Unit {0})
check_ref i r = do p ← page_at i; check (p.pp_ref == r)

-- `pgdir_walk(kern_pgdir, va, 0)`, a pointer that is not NULL
unfoldable pub walk_to : ℕ → K ℕ
walk_to va = do
  pgdir ← get_pgdir
  entry ← pgdir_walk pgdir va 0
  elim entry [ none ↦ λ _. fault | some pte ↦ pure pte ]

-- `assert(*pgdir_walk(kern_pgdir, va, 0) & flag)` and its negation
unfoldable pub check_flag : ℕ → ℕ → Bool → K (Unit {0})
check_flag va flag wanted = do
  pte ← walk_to va
  e ← load pte
  check (if wanted then not (bit_and e flag == 0) else bit_and e flag == 0)

-- `kern_pgdir[d]`
unfoldable pub pgdir_entry : ℕ → K ℕ
pgdir_entry d = do pgdir ← get_pgdir; load (pgdir + 4 * d)

unfoldable pub set_pgdir_entry : ℕ → ℕ → K (Unit {0})
set_pgdir_entry d w = do pgdir ← get_pgdir; store (pgdir + 4 * d) w

unfoldable pub must_alloc_page : ℕ → K (Unit {0})
must_alloc_page i = do pp ← must_alloc 0; check (pp == i)

-- Up to the place where `pp0` is the page table.
unfoldable pub check_page_table : ℕ → ℕ → ℕ → K (Unit {0})
check_page_table pp0 pp1 pp2 = do
  must_not_alloc
  pgdir ← get_pgdir
  looked ← page_lookup pgdir 0 true
  elim (looked.0) [ none ↦ pure tt | some _ ↦ stop assertion ]
  must_not_insert pp1 0 pte_w
  page_free pp0
  must_insert pp1 0 pte_w
  e ← pgdir_entry 0
  check (pte_addr e == page2pa pp0)
  check_maps 0 (page2pa pp1)
  check_ref pp1 1
  check_ref pp0 1

-- `pp2` at `PGSIZE`, and once more, with other permissions
unfoldable pub check_reinsert : ℕ → K (Unit {0})
check_reinsert pp2 = do
  must_insert pp2 pgsize pte_w
  check_maps pgsize (page2pa pp2)
  check_ref pp2 1
  must_not_alloc
  must_insert pp2 pgsize pte_w
  check_maps pgsize (page2pa pp2)
  check_ref pp2 1
  must_not_alloc
  e ← pgdir_entry (pdx pgsize)
  table ← kaddr (pte_addr e)
  pte ← walk_to pgsize
  check (pte == pte_slot table pgsize)
  must_insert pp2 pgsize (bit_or pte_w pte_u)
  check_maps pgsize (page2pa pp2)
  check_ref pp2 1
  check_flag pgsize pte_u true
  d ← pgdir_entry 0
  check (not (bit_and d pte_u == 0))
  must_insert pp2 pgsize pte_w
  check_flag pgsize pte_w true
  check_flag pgsize pte_u false

-- `pp1` takes the place of `pp2`, which is given back.
unfoldable pub check_moved : ℕ → ℕ → ℕ → K (Unit {0})
check_moved pp0 pp1 pp2 = do
  must_not_insert pp0 ptsize pte_w
  must_insert pp1 pgsize pte_w
  check_flag pgsize pte_u false
  check_maps 0 (page2pa pp1)
  check_maps pgsize (page2pa pp1)
  check_ref pp1 2
  check_ref pp2 0
  must_alloc_page pp2

unfoldable pub check_removed : ℕ → ℕ → K (Unit {0})
check_removed pp1 pp2 = do
  pgdir ← get_pgdir
  page_remove pgdir 0
  check_maps 0 no_page
  check_maps pgsize (page2pa pp1)
  check_ref pp1 1
  check_ref pp2 0
  must_insert pp1 pgsize 0
  p ← page_at pp1
  check (not (p.pp_ref == 0))
  elim (p.pp_link) [ none ↦ pure tt | some _ ↦ stop assertion ]
  page_remove pgdir pgsize
  check_maps 0 no_page
  check_maps pgsize no_page
  check_ref pp1 0
  check_ref pp2 0
  must_alloc_page pp1
  must_not_alloc

-- `pp0` is taken back from the directory.
unfoldable pub take_back : ℕ → K (Unit {0})
take_back pp0 = do
  e ← pgdir_entry 0
  check (pte_addr e == page2pa pp0)
  set_pgdir_entry 0 0
  check_ref pp0 1
  set_ref pp0 0

-- `va = PGSIZE * NPDENTRIES + PGSIZE`
abbrev pub far : ℕ
far = pgsize * npdentries + pgsize

unfoldable pub check_walk : ℕ → K (Unit {0})
check_walk pp0 = do
  page_free pp0
  pgdir ← get_pgdir
  entry ← pgdir_walk pgdir far 1
  e ← pgdir_entry (pdx far)
  table ← kaddr (pte_addr e)
  elim entry [ none ↦ stop assertion | some pte ↦ check (pte == pte_slot table far) ]
  set_pgdir_entry (pdx far) 0
  set_ref pp0 0

unfoldable pub clear_loop : ℕ → ℕ → K (Unit {0})
clear_loop zero kva = pure tt
clear_loop (suc left) kva = do e ← load kva; check (bit_and e pte_p == 0); clear_loop left (kva + 4)

unfoldable pub check_cleared : ℕ → K (Unit {0})
check_cleared pp0 = do
  kva ← page2kva pp0
  memset_words kva 0xff pgsize
  page_free pp0
  pgdir ← get_pgdir
  _ ← pgdir_walk pgdir 0 1
  ptep ← page2kva pp0
  clear_loop nptentries ptep
  set_pgdir_entry 0 0
  set_ref pp0 0

unfoldable pub check_page : K (Unit {0})
check_page = do
  (pp0, pp1, pp2) ← must_alloc_three
  fl ← get_free_list
  set_free_list none
  check_page_table pp0 pp1 pp2
  check_reinsert pp2
  check_moved pp0 pp1 pp2
  check_removed pp1 pp2
  take_back pp0
  check_walk pp0
  check_cleared pp0
  set_free_list fl
  give_back pp0 pp1 pp2
