-- ===== src/Pmap/Setup/Tests/Booted.antt =====
-- A machine of 128 pages whose pages 1 to 98 are free and whose page 100 is a directory that holds
-- nothing but itself.
use os.Base.{
  ℕ, zero, suc, ◌-◌, ◌<◌, ◌≤◌, ◌≡◌, refl, false, Option, none, some, List, [], ◌∷◌, length, ltb,
  ◌==◌, if◌then◌else◌, arith, ap,
}
use os.Pmap.State.{Kernel, ok}
use os.Pmap.Pages.Chain.{has, Chain}
use os.Pmap.Tables.Space.{OutsideUvpt, Present}
use os.Pmap.Tables.Grow.{AllSpare}
use os.Pmap.Setup.{map_kernel, check_kern_pgdir}
use os.Pmap.Setup.Regions.{IsReady}
use os.Pmap.Setup.Mapped.{IsKernelMapped, map_kernel-IsKernelMapped}
use os.Pmap.Boot.Claim.{next_addr, IsBootReady}
use os.Pmap.Setup.Passes.{IsBare, check_kern_pgdir-map_kernel}

abbrev link : ℕ → Option ℕ
link i = if i == 0 then none else some i

abbrev booted : Kernel
booted = record {
  image_end = 0xf006_8000;
  bootstack = 0xf006_6000;
  npages = 128;
  npages_basemem = 128;
  nextfree = 0xf006_b000;
  page_free_list = some 98;
  kern_pgdir = 0xf006_4000;
  pages = λ i. record { pp_link = link (i - 1); pp_ref = if ltb 98 i then 1 else 0 };
  pages_kva = 0xf006_5000;
  mem = λ j. if j == 103357 then 0x6_4005 else 0;
  flushed = [];
  cr0 = 0;
  cr3 = 0;
}

abbrev down : ℕ → List ℕ
down zero = []
down (suc n) = suc n ∷ down n

down-has : (n k : ℕ) → n < k → has k (down n) ≡ false
down-has zero k h = refl
down-has (suc n) k h = ground (arith, down-has n k (omega arith))

down-Chain : (n : ℕ) → n ≤ 98 → Chain 128 booted.pages (link n) (down n)
down-Chain zero h = refl
down-Chain (suc n) h =
    let before : link (suc n - 1) ≡ link n = ap link {x = suc n - 1} {y = n} (omega arith) in
    (
      ground arith,
      omega arith,
      ground (arith, h),
      down-has n (suc n) (omega arith),
      rw before (down-Chain n (omega arith)),
    )

no_tables : (va : ℕ) → OutsideUvpt va → Present 0xf006_4000 booted.mem va → ⊥
no_tables va o p = ground (arith, o.1, p)

down-AllSpare : (n : ℕ) → n ≤ 98 → AllSpare 128 0xf006_4000 booted.mem (down n)
down-AllSpare zero h = tt
down-AllSpare (suc n) h = (
  record {
    inside = omega arith;
    not_dir = omega arith;
    not_table = λ va o p. absurd (no_tables va o p);
  },
  down-AllSpare n (omega arith),
)

length-down : (n : ℕ) → length (down n) ≡ n
length-down zero = refl
length-down (suc n) = omega (arith, length-down n)

booted-IsReady : IsReady booted (down 98)
booted-IsReady = record {
  space = record {
    dir = record { low = omega arith; aligned = refl; inside = omega arith; small = omega arith };
    tables = λ va o p. absurd (no_tables va o p);
    apart = λ va o p. absurd (no_tables va o p);
    distinct = λ va va' o o' p p' e. absurd (no_tables va o p);
  };
  list = down-Chain 98 (omega arith);
  spare = down-AllSpare 98 (omega arith);
  enough = omega (arith, length-down 98);
  array = (omega arith, omega arith, refl);
  stack = (omega arith, omega arith, refl);
}

booted-IsBare : IsBare booted
booted-IsBare = record { empty = λ d lt ne. ground (arith, ne); self = refl }

map_kernel-IsKernelMapped_example :
    (t : Kernel) × (map_kernel booted ≡ ok tt t) × IsKernelMapped booted (down 98) t
map_kernel-IsKernelMapped_example = map_kernel-IsKernelMapped booted (down 98) booted-IsReady

check_kern_pgdir-map_kernel_example :
    (t : Kernel) × (map_kernel booted ≡ ok tt t) × (check_kern_pgdir t ≡ ok tt t)
check_kern_pgdir-map_kernel_example =
    check_kern_pgdir-map_kernel booted (down 98) booted-IsReady booted-IsBare

-- The same machine before its directory is made
abbrev entered : Kernel
entered = record booted { nextfree = 0xf006_4000 }

entered-IsBootReady : IsBootReady entered
unfolding next_addr
entered-IsBootReady = record { above = omega arith; below = omega arith; aligned = refl }

room : next_addr entered ≡ 0xf006_4000
unfolding next_addr
room = refl
