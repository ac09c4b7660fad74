-- ===== src/Pmap/Boot/Claim.antt =====
-- `boot_alloc` in the first 4 MB: what it returns, where `nextfree` goes, and when it panics.
use os.Base.{
  ℕ, ◌+◌, ◌-◌, ◌*◌, ◌/◌, ◌%◌, ◌^◌, ◌≤◌, ◌<◌, ◌≡◌, true, false, leb, ◌==◌, if◌then◌else◌, add32,
  sub32, round_up, ne→==, arith, ◌⊎◌, inl, inr, Bool-cases,
}
use os.Mmu.{pgsize, kernbase}
use os.Pmap.State.{Kernel, boot_alloc_full, ok, panic}
use os.Pmap.State.Rules.{paddr-ok}
use os.Pmap.Boot.{next_free, claim, boot_alloc}

abbrev pub boot_limit : ℕ
boot_limit = kernbase + 4 * 1024 * 1024

-- The address that the next call hands out.
unfoldable pub next_addr : Kernel → ℕ
next_addr s = if s.nextfree == 0 then round_up s.image_end pgsize else s.nextfree

-- `nextfree`, once set, is a page address in the 4 MB that entry_pgdir maps.
pub record IsBootReady (s : Kernel) : Type 0 where
  pub above : kernbase ≤ next_addr s
  pub below : next_addr s ≤ boot_limit
  pub aligned : next_addr s % pgsize ≡ 0

pub round_up-page : (a : ℕ) → a + 4095 < 2 ^ 32 → round_up a pgsize ≡ (a + 4095) / 4096 * 4096
unfolding round_up
round_up-page a h = omega arith

-- The kernel image ends in the first 4 MB, and nothing has been allocated yet.
pub image-IsBootReady :
    (s : Kernel)
    → s.nextfree ≡ 0
    → kernbase ≤ s.image_end
    → s.image_end ≤ boot_limit
    → IsBootReady s
unfolding next_addr
image-IsBootReady s e lo hi = ground (arith, round_up-page s.image_end)

next_free_lem : (s : Kernel) → next_free s ≡ ok (next_addr s) (record s { nextfree = next_addr s })
unfolding next_free next_addr
next_free_lem s = ground arith

-- `boot_alloc(0)` returns the next free address and claims nothing.
pub boot_alloc-zero :
    (s : Kernel) → boot_alloc 0 s ≡ ok (next_addr s) (record s { nextfree = next_addr s })
unfolding boot_alloc
boot_alloc-zero s = rw next_free_lem

room-eq :
    (a : ℕ)
    → kernbase ≤ a
    → a ≤ boot_limit
    → sub32 (4 * 1024 * 1024) (sub32 a kernbase) ≡ boot_limit - a
room-eq a lo hi = omega arith

abbrev pub after : ℕ → Kernel → Kernel
after n s = record s { nextfree = (next_addr s + n + 4095) / 4096 * 4096 }

boot_alloc-claim :
    (s : Kernel) (n : ℕ)
    → 0 < n
    → IsBootReady s
    → boot_alloc n s
      ≡ claim n (next_addr s) (boot_limit - next_addr s) (record s { nextfree = next_addr s })
unfolding boot_alloc
boot_alloc-claim s n pos v = rw (
  next_free_lem,
  ne→== n 0 (omega arith),
  paddr-ok (next_addr s) (record s { nextfree = next_addr s }) v.above,
  room-eq (next_addr s) v.above v.below,
)

round_up-sum :
    (a n : ℕ) → a + n + 4095 < 2 ^ 32 → round_up (add32 a n) pgsize ≡ (a + n + 4095) / 4096 * 4096
unfolding round_up
round_up-sum a n h = omega arith

-- A request that fits below the limit gets the next free address. `nextfree` moves to the page
-- boundary at or behind the end of the request, so allocations are disjoint, and stays usable.
pub boot_alloc-fits :
    (s : Kernel) (n : ℕ)
    → 0 < n
    → IsBootReady s
    → next_addr s + n ≤ boot_limit
    → (m : ℕ) × (boot_alloc n s ≡ ok (next_addr s) (record s { nextfree = m }))
      × (next_addr s + n ≤ m)
      × (m < next_addr s + n + pgsize)
      × IsBootReady (record s { nextfree = m })
boot_alloc-fits s n pos v fits =
    let e = round_up-sum (next_addr s) n (omega (arith, fits)) in
    let room : leb n (boot_limit - next_addr s) ≡ true = ground arith in
    (
      round_up (add32 (next_addr s) n) pgsize,
      rw (boot_alloc-claim s n pos v, room),
      omega (arith, e),
      omega (arith, e),
      unfold next_addr in ground (arith, e),
    )

-- A request that does not fit panics.
pub boot_alloc-panics :
    (s : Kernel) (n : ℕ)
    → 0 < n
    → IsBootReady s
    → boot_limit < next_addr s + n
    → boot_alloc n s ≡ panic boot_alloc_full
boot_alloc-panics s n pos v full =
    let room : leb n (boot_limit - next_addr s) ≡ false = ground arith in
    rw (boot_alloc-claim s n pos v, room)

-- A request of a positive number of bytes, with `nextfree` in the first 4 MB. Where it fits below
-- the limit of 4 MB it gets the next free address; `nextfree` moves to the page boundary at or
-- behind its end, so that allocations are disjoint, and stays below the limit. Where it does not
-- fit, `boot_alloc` panics.
pub boot_alloc_lem :
    (s : Kernel) (n : ℕ)
    → 0 < n
    → IsBootReady s
    → ((m : ℕ) × (boot_alloc n s ≡ ok (next_addr s) (record s { nextfree = m }))
        × (next_addr s + n ≤ m)
        × (m < next_addr s + n + pgsize)
        × (next_addr s + n ≤ boot_limit)
        × IsBootReady (record s { nextfree = m }))
      ⊎ ((boot_limit < next_addr s + n) × (boot_alloc n s ≡ panic boot_alloc_full))
boot_alloc_lem s n pos v = elim (Bool-cases (leb (next_addr s + n) boot_limit)) [
  | inl fits ↦
      let short : next_addr s + n ≤ boot_limit = ground (arith, fits) in
      let (m, run, above, near, ready) = boot_alloc-fits s n pos v short in
      inl (m, run, above, near, short, ready)
  | inr full ↦
      let long : boot_limit < next_addr s + n = ground (arith, full) in
      inr (long, boot_alloc-panics s n pos v long)
]
