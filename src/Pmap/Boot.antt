-- ===== src/Pmap/Boot.antt =====
-- `boot_alloc`, and the memory that the CMOS reports.
pub mod Claim
use os.Base.{
  ℕ, ◌+◌, ◌-◌, ◌*◌, ◌/◌, ◌%◌, ◌^◌, ◌≤◌, ◌<◌, ◌≡◌, refl, bit_or, Bool, true, false, ltb, leb, ◌==◌,
  if◌then◌else◌, add32, sub32, u32, shl32, round_up, arith,
}
use os.Mmu.{pgsize, kernbase}
use os.Pmap.State.{
  Kernel, Panic, boot_alloc_full, Run, ok, panic, K, pure, stop, ◌>>=◌, ◌>>◌, paddr,
}

-- `mc146818_read` is a read of the clock chip: what it holds is an argument.
unfoldable pub nvram_read : (ℕ → ℕ) → ℕ → ℕ
nvram_read cmos r = bit_or (cmos r) (shl32 (cmos (r + 1)) 8)

abbrev pub nvram_baselo : ℕ
nvram_baselo = 0x15

abbrev pub nvram_extlo : ℕ
nvram_extlo = 0x17

abbrev pub nvram_ext16lo : ℕ
nvram_ext16lo = 0x34

abbrev pub total_memory : ℕ → ℕ → ℕ → ℕ
total_memory basemem extmem ext16mem =
    if ext16mem == 0
    then if extmem == 0 then basemem else add32 (1 * 1024) extmem
    else add32 (16 * 1024) ext16mem

-- The message that it prints is left out.
unfoldable pub i386_detect_memory : (ℕ → ℕ) → Kernel → Kernel
i386_detect_memory cmos s =
    let basemem = nvram_read cmos nvram_baselo in
    let extmem = nvram_read cmos nvram_extlo in
    let ext16mem = u32 (nvram_read cmos nvram_ext16lo * 64) in
    record s {
      npages = total_memory basemem extmem ext16mem / (pgsize / 1024);
      npages_basemem = basemem / (pgsize / 1024);
    }

-- The static `nextfree`, set on the first call.
unfoldable pub next_free : K ℕ
next_free s =
    if s.nextfree == 0
    then (let n = round_up s.image_end pgsize in ok n (record s { nextfree = n }))
    else ok s.nextfree s

abbrev pub set_nextfree : ℕ → K (Unit {0})
set_nextfree n s = ok tt (record s { nextfree = n })

abbrev pub claim : ℕ → ℕ → ℕ → K ℕ
claim n next room =
    if leb n room
    then (do set_nextfree (round_up (add32 next n) pgsize); pure next)
    else stop boot_alloc_full

unfoldable pub boot_alloc : ℕ → K ℕ
boot_alloc n = do
  next ← next_free
  if n == 0 then pure next else do pa ← paddr next; claim n next (sub32 (4 * 1024 * 1024) pa)
