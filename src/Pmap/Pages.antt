-- ===== src/Pmap/Pages.antt =====
-- The physical page allocator: `page_init`, `page_alloc`, `page_free`, `page_decref`.
pub mod Chain
pub mod Alloc
pub mod Free
pub mod DoubleFree
pub mod Init
pub mod Sweep
use os.Base.{
  ℕ, zero, suc, ◌+◌, ◌-◌, ◌*◌, ◌/◌, ◌%◌, ◌^◌, ◌≤◌, ◌<◌, ◌≡◌, refl, Bool, true, false, ◌||◌, not,
  Option, none, some, bit_and, ltb, leb, ◌==◌, if◌then◌else◌,
}
use os.Mmu.{pgsize, iophysmem}
use os.Pmap.State.{
  PageInfo, Kernel, page_free_in_use, Run, ok, out_of_fuel, K, pure, stop, ◌>>=◌, ◌>>◌, page_at,
  set_page, set_link, set_ref, get_free_list, set_free_list, memset_words, paddr, page2pa, page2kva,
}
use os.Pmap.Boot.{boot_alloc}

-- The loop that makes every page free: `left` rounds from page `i` on.
unfoldable pub init_loop : ℕ → ℕ → K (Unit {0})
init_loop zero i = pure tt
init_loop (suc left) i = do
  set_ref i 0
  set_link i (← get_free_list)
  set_free_list (some i)
  init_loop left (i + 1)

-- `struct PageInfo **smernik`: the head of the list, or the link of a page.
pub data Slot : Type 0 where
  head : Slot
  link_of : ℕ → Slot

unfoldable pub read_slot : Slot → K (Option ℕ)
read_slot head = get_free_list
read_slot (link_of i) = do p ← page_at i; pure p.pp_link

unfoldable pub write_slot : Slot → Option ℕ → K (Unit {0})
write_slot head l = set_free_list l
write_slot (link_of i) l = set_link i l

-- The page lies between `IOPHYSMEM` and the first free address of `boot_alloc`.
unfoldable pub in_hole : ℕ → K Bool
in_hole i =
    if leb iophysmem (page2pa i)
    then (do next ← boot_alloc 0; end ← paddr next; pure (ltb (page2pa i) end))
    else pure false

-- The body that takes page `i` off the list; the source has it twice.
unfoldable pub unlink : Slot → ℕ → K (Unit {0})
unlink slot i = do set_ref i 1; p ← page_at i; set_link i none; write_slot slot p.pp_link

-- The loop that walks the list and takes off what is in use.
unfoldable pub sweep : ℕ → Slot → K (Unit {0})
sweep zero slot = λ _. out_of_fuel
sweep (suc fuel) slot = do
  p ← read_slot slot
  elim p [
    | none ↦ pure tt
    | some i ↦ do
      hole ← in_hole i
      if hole
          then (do unlink slot i; sweep fuel slot)
          else if page2pa i == 0
          then (do unlink slot i; sweep fuel slot)
          else sweep fuel (link_of i)
  ]

unfoldable pub page_init : K (Unit {0})
page_init s = (init_loop s.npages 0 >> sweep (s.npages + 1) head) s

abbrev pub alloc_zero : ℕ
alloc_zero = 1

-- `if(alloc_flags & ALLOC_ZERO) memset(page2kva(p), 0, PGSIZE)`
unfoldable pub clear_page : ℕ → ℕ → K (Unit {0})
clear_page flags i =
    if bit_and flags alloc_zero == 0 then pure tt else do memset_words (← page2kva i) 0 pgsize

unfoldable pub page_alloc : ℕ → K (Option ℕ)
page_alloc flags = do
  first ← get_free_list
  elim first [
    | none ↦ pure none
    | some i ↦ do
      p ← page_at i
      set_free_list p.pp_link
      set_link i none
      clear_page flags i
      pure (some i)
  ]

abbrev pub is_linked : Option ℕ → Bool
is_linked none = false
is_linked (some _) = true

unfoldable pub page_free : ℕ → K (Unit {0})
page_free i = do
  p ← page_at i
  if not (p.pp_ref == 0) || is_linked p.pp_link
      then stop page_free_in_use
      else do set_link i (← get_free_list); set_free_list (some i)

-- `--pp->pp_ref`, in 16 bits
unfoldable pub page_decref : ℕ → K (Unit {0})
page_decref i = do
  p ← page_at i
  let r = (p.pp_ref + 2 ^ 16 - 1) % 2 ^ 16
  set_ref i r
  if r == 0 then page_free i else pure tt
