-- ===== src/Pmap/Setup/Regions.antt =====
-- The three regions that `mem_init` maps with `boot_map_region`.
use os.Base.{
  ℕ, ◌+◌, ◌-◌, ◌*◌, ◌/◌, ◌%◌, ◌^◌, ◌<◌, ◌≤◌, ◌≡◌, refl, inl, inr, Bool, true, false, List, length,
  ltb, ◌==◌, if◌then◌else◌, arith, Bool-cases, bit_or, sub32, round_up, round_down,
}
use os.Mmu.{kernbase, kstacktop, kstksize, pgsize, pte_p, pte_w, pte_u, upages}
use os.Pmap.State.{Kernel}
use os.Pmap.Pages.Chain.{FreeList}
use os.Pmap.Tables.Translate.{pde_at}
use os.Pmap.Tables.Space.{IsSpace}
use os.Pmap.Tables.Grow.{AllSpare}
use os.Pmap.Tables.Region.{needed, IsRegion}
use os.Pmap.Setup.{pages_size}

pub pages_size_lem : (n : ℕ) → n ≤ 2 ^ 16 → pages_size n ≡ (n * 8 + 4095) / 4096
unfolding round_up round_down
pages_size_lem n h = omega arith

-- The state in which `mem_init` maps the kernel.
pub record IsReady (s : Kernel) (xs : List ℕ) : Type 0 where
  pub space : IsSpace s.npages s.kern_pgdir s.mem
  pub list : FreeList s xs
  pub spare : AllSpare s.npages s.kern_pgdir s.mem xs
  pub enough : 98 ≤ length xs
  pub array : (kernbase ≤ s.pages_kva) × (s.pages_kva < 2 ^ 32) × (s.pages_kva % 4096 ≡ 0)
  pub stack : (kernbase ≤ s.bootstack) × (s.bootstack < 2 ^ 32) × (s.bootstack % 4096 ≡ 0)

module _ {s : Kernel} {xs : List ℕ} (v : IsReady s xs) where
  pub array-IsRegion :
      IsRegion upages (pages_size s.npages) (sub32 s.pages_kva kernbase) (bit_or pte_u pte_p)
  array-IsRegion =
      let size = pages_size_lem s.npages v.space.dir.small in
      record {
        aligned = refl;
        pa_aligned = omega (arith, v.array.0, v.array.1, v.array.2);
        fits = omega (arith, size, v.space.dir.small);
        pa_fits = omega (arith, size, v.space.dir.small, v.array.0, v.array.1);
        flags = omega arith;
        apart = inl (omega (arith, size, v.space.dir.small));
      }

  pub stack-IsRegion :
      IsRegion (kstacktop - kstksize) kstksize (sub32 s.bootstack kernbase) (bit_or pte_w pte_p)
  stack-IsRegion = record {
    aligned = refl;
    pa_aligned = omega (arith, v.stack.0, v.stack.1, v.stack.2);
    fits = omega arith;
    pa_fits = omega (arith, v.stack.0, v.stack.1);
    flags = omega arith;
    apart = inr (omega arith);
  }

pub memory-IsRegion : IsRegion kernbase (0x1000_0000 / pgsize) 0 (bit_or pte_w pte_p)
memory-IsRegion = record {
  aligned = refl;
  pa_aligned = refl;
  fits = omega arith;
  pa_fits = omega arith;
  flags = omega arith;
  apart = inr (omega arith);
}

pub needed_bound :
    (pgdir : ℕ) (mem : ℕ → ℕ) (va size : ℕ)
    → needed pgdir mem va size 0 ≤ (va + size * 4096 - 1) / 4194304 - va / 4194304 + 1
needed_bound pgdir mem va size = elim (Bool-cases (ltb 0 size)) [
  | inl some_page ↦ rw some_page (bound (pde_at pgdir mem (va + 0 * 4096) % 2 == 0))
  | inr no_page ↦ rw no_page (omega arith)
]
  where
    bound :
        (b : Bool)
        → (va + size * 4096 - 1) / 4194304 - (va + 0 * 4096) / 4194304 + (if b then 1 else 0)
          ≤ (va + size * 4096 - 1) / 4194304 - va / 4194304 + 1
    bound true = omega arith
    bound false = omega arith
