-- ===== src/Pmap/Tests.antt =====
-- Runs of kern/pmap.c on a machine of eight pages, and uses of its theorems there.
mod Space
mod Entry
mod SelfMap
use os.Base.{
  ◌⊎◌, ℕ, suc, ◌+◌, ◌-◌, ◌*◌, ◌/◌, ◌%◌, ◌^◌, ◌≤◌, ◌<◌, ◌≡◌, ◌≢◌, refl, inl, inr, Bool, true, false,
  ◌||◌, not, Option, none, some, List, [], ◌∷◌, ◌==◌, ltb, if◌then◌else◌, arith, round_up,
}
use os.Mmu.{pgsize, kernbase, pgaddr, pdx, ptx, pgoff}
use os.Pmap.State.{PageInfo, Kernel, Run, ok, panic, boot_alloc_full, page_free_in_use}
use os.Pmap.Boot.{next_free, claim, boot_alloc}
use os.Pmap.Boot.Claim.{
  next_addr, IsBootReady, image-IsBootReady, boot_limit, boot_alloc_lem, boot_alloc-panics,
}
use os.Pmap.Pages.{page_alloc, page_free, page_decref, page_init}
use os.Pmap.Pages.Chain.{has, FreeList}
use os.Pmap.Pages.Alloc.{taken, page_alloc-cons}
use os.Pmap.Pages.Free.{freed, released, IsIdle, page_free-cons, page_free-alloc, page_decref_lem}
use os.Pmap.Pages.DoubleFree.{page_free-cycle}
use os.Pmap.Pages.Init.{kept, settled, initialised, page_init_lem}
use os.Pmap.Pages.Sweep.{reserved, IsBooted}

-- Pages 5 and 2 are free, 7 is idle, and the others are in use; page 6 by two.
abbrev pub page_of : ℕ → PageInfo
page_of i = record {
  pp_link = if i == 5 then some 2 else none;
  pp_ref =
      if i == 5 then 0 else if i == 2 then 0 else if i == 7 then 0 else if i == 6 then 2 else 1;
}

-- The directory is page 3. Its first entry names page 4 as a page table, whose entry 1 maps
-- page 6.
abbrev pub word_at : ℕ → ℕ
word_at j = if j == 3 * 1024 then 4 * 4096 + 7 else if j == 4 * 1024 + 1 then 6 * 4096 + 7 else 0

abbrev pub machine : Kernel
machine = record {
  image_end = 0xf000_1800;
  bootstack = 0xf000_1000;
  npages = 8;
  npages_basemem = 8;
  nextfree = 0xf000_3000;
  page_free_list = some 5;
  kern_pgdir = 0xf000_3000;
  pages = page_of;
  pages_kva = 0xf000_2000;
  mem = word_at;
  flushed = [];
  cr0 = 0;
  cr3 = 0;
}

-- A machine of 300 pages before `page_init`, which reaches beyond the I/O hole.
abbrev pub cold : Kernel
cold = record machine {
  npages = 300;
  nextfree = 0xf011_2000;
  page_free_list = none;
  pages = λ _. record { pp_link = none; pp_ref = 0 };
}

-- The same before the first `boot_alloc`.
abbrev unstarted : Kernel
unstarted = record cold { image_end = 0xf011_1234; nextfree = 0 }

pub machine-FreeList : FreeList machine (5 ∷ 2 ∷ [])
machine-FreeList = ground arith

cold-IsBooted : IsBooted cold
cold-IsBooted = record {
  small = omega arith;
  started = omega arith;
  above = omega arith;
  below = omega arith;
}

unstarted-IsBootReady : IsBootReady unstarted
unstarted-IsBootReady = image-IsBootReady unstarted refl (omega arith) (omega arith)

page_init_lem_example :
    (page_init cold ≡ ok tt (initialised cold))
    × FreeList (initialised cold) (kept (reserved cold.nextfree) 300)
    × (has 200 (kept (reserved cold.nextfree) 300) ≡ not (reserved cold.nextfree 200))
    × ((initialised cold).pages 200 ≡ settled (reserved cold.nextfree) 200)
page_init_lem_example = page_init_lem cold 200 cold-IsBooted refl (omega arith)

page_alloc-cons_example :
    (page_alloc 1 machine ≡ ok (some 5) (taken 1 5 machine))
    × FreeList (taken 1 5 machine) (2 ∷ [])
    × (((taken 1 5 machine).pages 5).pp_ref ≡ 0)
page_alloc-cons_example = page_alloc-cons machine 1 5 (2 ∷ []) (omega arith) machine-FreeList

page_free-cons_example :
    (page_free 7 machine ≡ ok tt (freed 7 machine)) × FreeList (freed 7 machine) (7 ∷ 5 ∷ 2 ∷ [])
page_free-cons_example =
    page_free-cons machine 7 (5 ∷ 2 ∷ []) (omega arith) (refl, refl) refl machine-FreeList

page_free-cycle_example :
    (page_free 2 machine ≡ ok tt (freed 2 machine)) × ¬ FreeList (freed 2 machine) (2 ∷ 5 ∷ [])
page_free-cycle_example = page_free-cycle machine 2 (5 ∷ 2 ∷ []) (2 ∷ 5 ∷ []) machine-FreeList refl

boot_alloc_lem_example :
    ((m : ℕ) × (boot_alloc 5000 unstarted
        ≡ ok (next_addr unstarted) (record unstarted { nextfree = m }))
      × (next_addr unstarted + 5000 ≤ m)
      × (m < next_addr unstarted + 5000 + pgsize)
      × (next_addr unstarted + 5000 ≤ boot_limit)
      × IsBootReady (record unstarted { nextfree = m }))
    ⊎ ((boot_limit < next_addr unstarted + 5000)
        × (boot_alloc 5000 unstarted ≡ panic boot_alloc_full))
boot_alloc_lem_example = boot_alloc_lem unstarted 5000 (omega arith) unstarted-IsBootReady
