-- ===== src/Pmap/Checks.antt =====
-- The checking functions of kern/pmap.c. A failed `assert` is the panic `assertion`; the messages
-- of success are left out.
pub mod Tables
pub mod Allocator
pub mod Partition
pub mod Moved
pub mod Stable
pub mod Front
pub mod Tests
use os.Base.{
  ℕ, zero, suc, ◌+◌, ◌-◌, ◌*◌, ◌/◌, ◌%◌, ◌^◌, Bool, true, false, ◌&&◌, ◌||◌, not, Option, none,
  some, ltb, leb, ◌==◌, if◌then◌else◌, u32,
}
use os.Mmu.{pgsize, npdentries, iophysmem, extphysmem, pdx}
use os.Pmap.State.{
  Kernel, Panic, assertion, null_free_list, null_pages, Run, ok, out_of_fuel, K, pure, stop, ◌>>=◌,
  ◌>>◌, page_at, set_link, get_free_list, set_free_list, load, memset_words, page2pa, page2kva,
}
use os.Pmap.Boot.{boot_alloc}
use os.Pmap.Pages.{Slot, head, link_of, page_alloc, page_free, alloc_zero}

unfoldable pub check : Bool → K (Unit {0})
check b = if b then pure tt else stop assertion

abbrev pub get_npages : K ℕ
get_npages s = ok s.npages s

abbrev pub get_pages : K ℕ
get_pages s = ok s.pages_kva s

-- `pp1`, `pp2` and the two places in `tp`, each the variable or the link of a page.
pub record Parts : Type 0 where
  pub pp1 : Option ℕ
  pub pp2 : Option ℕ
  pub tp0 : Slot
  pub tp1 : Slot

-- `*tp[0] = l` and `*tp[1] = l`
unfoldable pub write_low : Slot → Option ℕ → Parts → K Parts
write_low head l p = pure (record p { pp1 = l })
write_low (link_of i) l p = do set_link i l; pure p

unfoldable pub write_high : Slot → Option ℕ → Parts → K Parts
write_high head l p = pure (record p { pp2 = l })
write_high (link_of i) l p = do set_link i l; pure p

-- `PDX(page2pa(pp)) >= pdx_limit`
abbrev pub is_high : ℕ → ℕ → Bool
is_high limit i = leb limit (pdx (page2pa i))

unfoldable pub split_loop : ℕ → ℕ → Option ℕ → Parts → K Parts
split_loop zero limit pp p = λ _. out_of_fuel
split_loop (suc fuel) limit none p = pure p
split_loop (suc fuel) limit (some i) p = elim (is_high limit i) [
  | true ↦ do
    q ← write_high p.tp1 (some i) p
    page ← page_at i
    split_loop fuel limit page.pp_link (record q { tp1 = link_of i })
  | false ↦ do
    q ← write_low p.tp0 (some i) p
    page ← page_at i
    split_loop fuel limit page.pp_link (record q { tp0 = link_of i })
]

-- Pages below the limit come first on the free list.
unfoldable pub move_low : ℕ → K (Unit {0})
move_low limit = do
  n ← get_npages
  first ← get_free_list
  p ← split_loop (n + 1) limit first (record { pp1 = none; pp2 = none; tp0 = head; tp1 = head })
  q ← write_high p.tp1 none p
  r ← write_low q.tp0 q.pp2 q
  set_free_list r.pp1

unfoldable pub poison_loop : ℕ → ℕ → Option ℕ → K (Unit {0})
poison_loop zero limit pp = λ _. out_of_fuel
poison_loop (suc fuel) limit none = pure tt
poison_loop (suc fuel) limit (some i) = do
  if is_high limit i then pure tt else do memset_words (← page2kva i) 0x97 128
  page ← page_at i
  poison_loop fuel limit page.pp_link

-- The address test of a page above `EXTPHYSMEM`
unfoldable pub behind_boot : ℕ → ℕ → K Bool
behind_boot first_free_page i =
    if ltb (page2pa i) extphysmem
    then pure true
    else do kva ← page2kva i; pure (leb first_free_page kva)

unfoldable pub check_free_page : ℕ → ℕ → K (Unit {0})
check_free_page first_free_page i = do
  n ← get_npages
  check (ltb i n)
  check (not (page2pa i == 0))
  check (not (page2pa i == iophysmem))
  check (not (page2pa i == extphysmem - pgsize))
  check (not (page2pa i == extphysmem))
  b ← behind_boot first_free_page i
  check b

unfoldable pub free_loop : ℕ → ℕ → Option ℕ → ℕ → ℕ → K (ℕ × ℕ)
free_loop zero first_free_page pp base ext = λ _. out_of_fuel
free_loop (suc fuel) first_free_page none base ext = pure (base, ext)
free_loop (suc fuel) first_free_page (some i) base ext = do
  check_free_page first_free_page i
  page ← page_at i
  elim (ltb (page2pa i) extphysmem) [
    | true ↦ free_loop fuel first_free_page page.pp_link (base + 1) ext
    | false ↦ free_loop fuel first_free_page page.pp_link base (ext + 1)
  ]

abbrev pub pdx_limit : Bool → ℕ
pdx_limit only_low_memory = if only_low_memory then 1 else npdentries

unfoldable pub check_page_free_list : Bool → K (Unit {0})
check_page_free_list only_low_memory = do
  first ← get_free_list
  elim first [ none ↦ stop null_free_list | some _ ↦ pure tt ]
  if only_low_memory then move_low (pdx_limit only_low_memory) else pure tt
  n ← get_npages
  list ← get_free_list
  poison_loop (n + 1) (pdx_limit only_low_memory) list
  first_free_page ← boot_alloc 0
  counts ← free_loop (n + 1) first_free_page list 0 0
  check (ltb 0 (counts.0))
  check (ltb 0 (counts.1))

-- The loops that count the free list up and down.
unfoldable pub count_loop : ℕ → Option ℕ → ℕ → K ℕ
count_loop zero pp nfree = λ _. out_of_fuel
count_loop (suc fuel) none nfree = pure nfree
count_loop (suc fuel) (some i) nfree = do page ← page_at i; count_loop fuel page.pp_link (nfree + 1)

unfoldable pub count_free : K ℕ
count_free = do n ← get_npages; first ← get_free_list; count_loop (n + 1) first 0

-- `assert((pp = page_alloc(flags)))` and `assert(!page_alloc(0))`
unfoldable pub must_alloc : ℕ → K ℕ
must_alloc flags = do page ← page_alloc flags; elim page [ none ↦ stop assertion | some i ↦ pure i ]

unfoldable pub must_not_alloc : K (Unit {0})
must_not_alloc = do page ← page_alloc 0; elim page [ none ↦ pure tt | some i ↦ stop assertion ]

unfoldable pub check_distinct : ℕ → ℕ → ℕ → K (Unit {0})
check_distinct pp0 pp1 pp2 = do
  check (not (pp1 == pp0))
  check (not (pp2 == pp1) && not (pp2 == pp0))

-- The three pages that a check begins with.
unfoldable pub must_alloc_three : K (ℕ × ℕ × ℕ)
must_alloc_three = do
  pp0 ← must_alloc 0
  pp1 ← must_alloc 0
  pp2 ← must_alloc 0
  check_distinct pp0 pp1 pp2
  pure (pp0, pp1, pp2)

unfoldable pub check_in_memory : ℕ → K (Unit {0})
check_in_memory i = do n ← get_npages; check (ltb (page2pa i) (u32 (n * pgsize)))

-- `c[i]`, a byte of a word
unfoldable pub byte_at : ℕ → K ℕ
byte_at kva = do w ← load (kva - kva % 4); pure (w / 2 ^ (8 * (kva % 4)) % 256)

unfoldable pub zero_loop : ℕ → ℕ → K (Unit {0})
zero_loop zero kva = pure tt
zero_loop (suc left) kva = do b ← byte_at kva; check (b == 0); zero_loop left (kva + 1)

-- `page_alloc` with `ALLOC_ZERO` gives page `pp0` back, with zeros.
unfoldable pub check_zeroed : ℕ → K (Unit {0})
check_zeroed pp0 = do
  kva ← page2kva pp0
  memset_words kva 1 pgsize
  page_free pp0
  pp ← must_alloc alloc_zero
  check (pp0 == pp)
  c ← page2kva pp
  zero_loop pgsize c

unfoldable pub give_back : ℕ → ℕ → ℕ → K (Unit {0})
give_back pp0 pp1 pp2 = do page_free pp0; page_free pp1; page_free pp2

unfoldable pub check_page_alloc : K (Unit {0})
check_page_alloc = do
  pages ← get_pages
  if pages == 0 then stop null_pages else pure tt
  nfree ← count_free
  (pp0, pp1, pp2) ← must_alloc_three
  check_in_memory pp0
  check_in_memory pp1
  check_in_memory pp2
  fl ← get_free_list
  set_free_list none
  must_not_alloc
  give_back pp0 pp1 pp2
  (pp0', pp1', pp2') ← must_alloc_three
  must_not_alloc
  check_zeroed pp0'
  set_free_list fl
  give_back pp0' pp1' pp2'
  nfree' ← count_free
  check (nfree' == nfree)
