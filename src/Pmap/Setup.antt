-- ===== src/Pmap/Setup.antt =====
-- `mem_init`, and the checks of the directory that it makes.
pub mod Regions
pub mod Mapped
pub mod Asserts
pub mod Passes
pub mod Directory
mod Tests
use os.Base.{
  ℕ, zero, suc, ◌+◌, ◌-◌, ◌*◌, ◌/◌, ◌%◌, ◌^◌, Bool, true, false, ◌&&◌, ◌||◌, not, Option, none,
  some, bit_and, bit_or, ltb, leb, ◌==◌, if◌then◌else◌, u32, add32, sub32, round_up,
}
use os.Mmu.{
  pgsize, npdentries, ptsize, pdx, ptx, pte_addr, pte_p, pte_w, pte_u, kernbase, kstacktop,
  kstksize, uvpt, upages,
}
use os.Pmap.State.{
  PageInfo, Kernel, Panic, assertion, Run, ok, fault, K, pure, stop, ◌>>=◌, ◌>>◌, page_at, set_ref,
  set_free_list, load, store, memset_words, paddr, page2pa, page2kva, update,
}
use os.Pmap.Boot.{i386_detect_memory, boot_alloc}
use os.Pmap.Pages.{page_alloc, page_free, page_init}
use os.Pmap.Tables.{boot_map_region, page_insert, page_remove, no_page, check_va2pa}
use os.Pmap.Checks.{
  check, get_npages, get_pages, must_alloc, check_page_free_list, check_page_alloc,
}
use os.Pmap.Checks.Tables.{get_pgdir, check_maps, check_ref, pgdir_entry, take_back, check_page}

-- A loop `for (i = 0; i < n; i += PGSIZE)` has `rounds n` rounds.
abbrev pub rounds : ℕ → ℕ
rounds n = (n + pgsize - 1) / pgsize

-- `assert(check_va2pa(pgdir, va + i) == pa + i)` in such a loop
unfoldable pub region_loop : ℕ → ℕ → ℕ → ℕ → K (Unit {0})
region_loop zero i va pa = pure tt
region_loop (suc left) i va pa = do
  check_maps (add32 va i) (add32 pa i)
  region_loop left (i + pgsize) va pa

-- The `switch` on the directory entry `i`.
unfoldable pub check_pde : ℕ → K (Unit {0})
check_pde i = do
  e ← pgdir_entry i
  if (i == pdx uvpt) || (i == pdx (kstacktop - 1)) || (i == pdx upages)
      then check (not (bit_and e pte_p == 0))
      else if leb (pdx kernbase) i
      then (do check (not (bit_and e pte_p == 0)); check (not (bit_and e pte_w == 0)))
      else check (e == 0)

unfoldable pub pde_loop : ℕ → ℕ → K (Unit {0})
pde_loop zero i = pure tt
pde_loop (suc left) i = do check_pde i; pde_loop left (i + 1)

abbrev pub get_bootstack : K ℕ
get_bootstack s = ok s.bootstack s

unfoldable pub check_kern_pgdir : K (Unit {0})
check_kern_pgdir = do
  npages ← get_npages
  pages ← get_pages
  pages_pa ← paddr pages
  region_loop (rounds (round_up (npages * 8) pgsize)) 0 upages pages_pa
  region_loop (rounds (u32 (npages * pgsize))) 0 kernbase 0
  bootstack ← get_bootstack
  stack_pa ← paddr bootstack
  region_loop (rounds kstksize) 0 (kstacktop - kstksize) stack_pa
  check_maps (kstacktop - ptsize) no_page
  pde_loop npdentries 0

-- A word that the processor reaches through the directory in `cr3`.
unfoldable pub word_of : ℕ → Kernel → Option ℕ
word_of va s =
    let d = s.mem (s.cr3 / 4 + pdx va) in
    let e = s.mem (pte_addr d / 4 + ptx va) in
    if bit_and d pte_p == 0
    then none
    else if bit_and e pte_p == 0
    then none
    else some (pte_addr e / 4 + va % pgsize / 4)

-- `*(uint32_t *)va` and `*(uint32_t *)va = w`
unfoldable pub load_virtual : ℕ → K ℕ
load_virtual va s = elim (word_of va s) [ none ↦ fault | some i ↦ ok (s.mem i) s ]

unfoldable pub store_virtual : ℕ → ℕ → K (Unit {0})
store_virtual va w s = elim (word_of va s) [
  | none ↦ fault
  | some i ↦ ok tt (record s { mem = update s.mem i w })
]

unfoldable pub fill_page : ℕ → ℕ → K (Unit {0})
fill_page i c = do kva ← page2kva i; memset_words kva c pgsize

-- `page_insert(kern_pgdir, i, PGSIZE, PTE_W)`, whatever it returns
unfoldable pub insert_page : ℕ → K (Unit {0})
insert_page i = do pgdir ← get_pgdir; _ ← page_insert pgdir i pgsize pte_w; pure tt

unfoldable pub check_word : ℕ → K (Unit {0})
check_word w = do v ← load_virtual pgsize; check (v == w)

unfoldable pub check_page_installed_pgdir : K (Unit {0})
check_page_installed_pgdir = do
  pp0 ← must_alloc 0
  pp1 ← must_alloc 0
  pp2 ← must_alloc 0
  page_free pp0
  fill_page pp1 1
  fill_page pp2 2
  insert_page pp1
  check_ref pp1 1
  check_word 0x0101_0101
  insert_page pp2
  check_word 0x0202_0202
  check_ref pp2 1
  check_ref pp1 0
  store_virtual pgsize 0x0303_0303
  kva ← page2kva pp2
  v ← load kva
  check (v == 0x0303_0303)
  pgdir ← get_pgdir
  page_remove pgdir pgsize
  check_ref pp2 0
  take_back pp0
  page_free pp0

abbrev pub set_pgdir : ℕ → K (Unit {0})
set_pgdir a s = ok tt (record s { kern_pgdir = a })

abbrev pub no_info : PageInfo
no_info = record { pp_link = none; pp_ref = 0 }

-- The array `pages` at `a`, with zeros in it.
abbrev pub set_pages : ℕ → K (Unit {0})
set_pages a s =
    ok tt (record s { pages_kva = a; pages = λ i. if ltb i s.npages then no_info else s.pages i })

abbrev pub lcr3 : ℕ → K (Unit {0})
lcr3 a s = ok tt (record s { cr3 = a })

abbrev pub cr0_pe : ℕ
cr0_pe = 0x0000_0001

abbrev pub cr0_mp : ℕ
cr0_mp = 0x0000_0002

abbrev pub cr0_em : ℕ
cr0_em = 0x0000_0004

abbrev pub cr0_ts : ℕ
cr0_ts = 0x0000_0008

abbrev pub cr0_ne : ℕ
cr0_ne = 0x0000_0020

abbrev pub cr0_wp : ℕ
cr0_wp = 0x0001_0000

abbrev pub cr0_am : ℕ
cr0_am = 0x0004_0000

abbrev pub cr0_pg : ℕ
cr0_pg = 0x8000_0000

abbrev pub flags_on : ℕ
flags_on = bit_or (bit_or (bit_or (bit_or (bit_or cr0_pe cr0_pg) cr0_am) cr0_wp) cr0_ne) cr0_mp

unfoldable pub set_flags : K (Unit {0})
set_flags s =
    ok tt (record s { cr0 = bit_and (bit_or s.cr0 flags_on) (0xffff_ffff - bit_or cr0_ts cr0_em) })

abbrev pub detect : (ℕ → ℕ) → K (Unit {0})
detect cmos s = ok tt (i386_detect_memory cmos s)

-- The directory, with itself as the page table of `UVPT`.
unfoldable pub make_pgdir : K (Unit {0})
make_pgdir = do
  pgdir ← boot_alloc pgsize
  set_pgdir pgdir
  memset_words pgdir 0 pgsize
  pa ← paddr pgdir
  store (pgdir + 4 * pdx uvpt) (bit_or (bit_or pa pte_u) pte_p)

unfoldable pub make_pages : K (Unit {0})
make_pages = do npages ← get_npages; pages ← boot_alloc (u32 (npages * 8)); set_pages pages

-- The pages that the array `pages` takes.
abbrev pub pages_size : ℕ → ℕ
pages_size npages = round_up (npages * 8) pgsize / pgsize

-- The three regions of the kernel.
unfoldable pub map_kernel : K (Unit {0})
map_kernel = do
  pgdir ← get_pgdir
  npages ← get_npages
  pages ← get_pages
  pages_pa ← paddr pages
  boot_map_region pgdir upages (pages_size npages) pages_pa (bit_or pte_u pte_p)
  bootstack ← get_bootstack
  stack_pa ← paddr bootstack
  boot_map_region pgdir (kstacktop - kstksize) kstksize stack_pa (bit_or pte_w pte_p)
  boot_map_region pgdir kernbase (0x1000_0000 / pgsize) 0 (bit_or pte_w pte_p)

unfoldable pub mem_init : (ℕ → ℕ) → K (Unit {0})
mem_init cmos = do
  detect cmos
  make_pgdir
  make_pages
  page_init
  check_page_free_list true
  check_page_alloc
  check_page
  map_kernel
  check_kern_pgdir
  pgdir ← get_pgdir
  pa ← paddr pgdir
  lcr3 pa
  check_page_free_list false
  set_flags
  check_page_installed_pgdir
