-- ===== src/Pmap/Setup/Mapped.antt =====
-- What `mem_init` maps with its three calls of `boot_map_region`.
use os.Base.{
  ℕ, ◌+◌, ◌-◌, ◌*◌, ◌/◌, ◌<◌, ◌≤◌, ◌≡◌, ◌⊎◌, refl, inl, inr, some, List, length, arith, ap, ◌∙◌,
  bit_or, sub32,
}
use os.Mmu.{kernbase, kstacktop, kstksize, pgsize, pte_p, pte_w, pte_u, upages}
use os.Pmap.State.{Kernel, ok, paddr, ◌>>=◌}
use os.Pmap.State.Rules.{paddr-ok}
use os.Pmap.Pages.Chain.{FreeList}
use os.Pmap.Tables.{boot_map_region}
use os.Pmap.Tables.Translate.{translate, dir_index}
use os.Pmap.Tables.Space.{OutsideUvpt, IsSpace}
use os.Pmap.Tables.Insert.{entry}
use os.Pmap.Tables.Grow.{AllSpare, SameVars, SameVars-join, IsMade, IsMade-join, IsMade-wider}
use os.Pmap.Tables.Region.{IsMapped, boot_map_region-IsMapped}
use os.Pmap.Setup.{map_kernel, pages_size}
use os.Pmap.Setup.Regions.{
  pages_size_lem, IsReady, array-IsRegion, stack-IsRegion, memory-IsRegion, needed_bound,
}

-- What the kernel maps: the state `s` has become `t`, where `xs` is the free list.
pub record IsKernelMapped (s : Kernel) (xs : List ℕ) (t : Kernel) : Type 0 where
  pub vars : SameVars s t
  pub space : IsSpace t.npages s.kern_pgdir t.mem
  pub rest : List ℕ
  pub list : FreeList t rest
  pub spare : AllSpare t.npages s.kern_pgdir t.mem rest
  pub spent : length xs ≤ length rest + 98
  pub array :
      (k : ℕ)
      → k < pages_size s.npages
      → translate s.kern_pgdir t.mem (upages + k * 4096)
        ≡ some (entry (sub32 s.pages_kva kernbase / 4096 + k) 5)
  pub stack :
      (k : ℕ)
      → k < 8
      → translate s.kern_pgdir t.mem (kstacktop - kstksize + k * 4096)
        ≡ some (entry (sub32 s.bootstack kernbase / 4096 + k) 3)
  pub memory :
      (k : ℕ) → k < 65536 → translate s.kern_pgdir t.mem (kernbase + k * 4096) ≡ some (entry k 3)
  pub others :
      (va : ℕ)
      → OutsideUvpt va
      → va / 4096 < (kstacktop - kstksize) / 4096
      → (va / 4096 < upages / 4096) ⊎ (upages / 4096 + pages_size s.npages ≤ va / 4096)
      → translate s.kern_pgdir t.mem va ≡ translate s.kern_pgdir s.mem va
  pub dirs : (d : ℕ) → d < 1024 → IsMade s.kern_pgdir s.mem t.mem 956 1023 d
  pub between :
      (d : ℕ)
      → (d ≡ 957) ⊎ (d ≡ 958)
      → t.mem (dir_index s.kern_pgdir d) ≡ s.mem (dir_index s.kern_pgdir d)

unmade :
    (pgdir : ℕ) (old new : ℕ → ℕ) (low high d : ℕ)
    → IsMade pgdir old new low high d
    → (d < low) ⊎ (high < d)
    → new (dir_index pgdir d) ≡ old (dir_index pgdir d)
unmade pgdir old new low high d (inl e) out = e
unmade pgdir old new low high d (inr (from, upto, j, e)) (inl out) = absurd (omega arith)
unmade pgdir old new low high d (inr (from, upto, j, e)) (inr out) = absurd (omega arith)

module _ {s : Kernel} {xs : List ℕ} (v : IsReady s xs) {t1 : Kernel}
    (m1 : IsMapped s xs s.kern_pgdir upages
      (pages_size s.npages)
      (sub32 s.pages_kva kernbase)
      (bit_or pte_u pte_p)
      0
      t1)
    {t2 : Kernel}
    (m2 : IsMapped t1 m1.rest s.kern_pgdir
      (kstacktop - kstksize)
      kstksize
      (sub32 s.bootstack kernbase)
      (bit_or pte_w pte_p)
      0
      t2)
    {t3 : Kernel}
    (m3 : IsMapped t2 m2.rest s.kern_pgdir kernbase
      (0x1000_0000 / pgsize)
      0
      (bit_or pte_w pte_p)
      0
      t3) where
  array_size : pages_size s.npages ≡ (s.npages * 8 + 4095) / 4096
  array_size = pages_size_lem s.npages v.space.dir.small

  -- The array is below the other two regions.
  array_later :
      (k : ℕ)
      → k < pages_size s.npages
      → translate s.kern_pgdir t3.mem (upages + k * 4096)
        ≡ translate s.kern_pgdir t1.mem (upages + k * 4096)
  array_later k lt =
      let o : OutsideUvpt (upages + k * 4096) = (
        omega (arith, array_size, v.space.dir.small, lt),
        omega (arith, array_size, v.space.dir.small, lt),
      ) in
      m3.others (upages + k * 4096) o (inl (omega (arith, array_size, v.space.dir.small, lt)))
      ∙ m2.others (upages + k * 4096) o (inl (omega (arith, array_size, v.space.dir.small, lt)))

  stack_later :
      (k : ℕ)
      → k < 8
      → translate s.kern_pgdir t3.mem (kstacktop - kstksize + k * 4096)
        ≡ translate s.kern_pgdir t2.mem (kstacktop - kstksize + k * 4096)
  stack_later k lt =
      m3.others (kstacktop - kstksize + k * 4096) (omega (arith, lt), omega (arith, lt))
        (inl (omega (arith, lt)))

  below :
      (va : ℕ)
      → OutsideUvpt va
      → va / 4096 < (kstacktop - kstksize) / 4096
      → (va / 4096 < upages / 4096) ⊎ (upages / 4096 + pages_size s.npages ≤ va / 4096)
      → translate s.kern_pgdir t3.mem va ≡ translate s.kern_pgdir s.mem va
  below va o low out =
      m3.others va o (inl (omega (arith, low)))
      ∙ m2.others va o (inl (omega (arith, low)))
      ∙ m1.others va o (elim out [ inl h ↦ inl (omega (arith, h)) | inr h ↦ inr h ])

  all_dirs : (d : ℕ) → d < 1024 → IsMade s.kern_pgdir s.mem t3.mem 956 1023 d
  all_dirs d lt =
      let pgdir = s.kern_pgdir in
      IsMade-join pgdir s.mem t1.mem t3.mem 956 1023 d
        (IsMade-wider pgdir s.mem t1.mem _ _ 956 1023 d (omega arith)
          (omega (arith, array_size, v.space.dir.small)) (m1.dirs d lt))
        (IsMade-join pgdir t1.mem t2.mem t3.mem 956 1023 d
          (IsMade-wider pgdir t1.mem t2.mem _ _ 956 1023 d (omega arith) (omega arith)
            (m2.dirs d lt))
          (IsMade-wider pgdir t2.mem t3.mem _ _ 956 1023 d (omega arith) (omega arith)
            (m3.dirs d lt)))

  dirs_between :
      (d : ℕ)
      → (d ≡ 957) ⊎ (d ≡ 958)
      → t3.mem (dir_index s.kern_pgdir d) ≡ s.mem (dir_index s.kern_pgdir d)
  dirs_between d h =
      let pgdir = s.kern_pgdir in
      let lt : d < 1024 = elim h [ inl e ↦ omega (arith, e) | inr e ↦ omega (arith, e) ] in
      let low : d < 959 = elim h [ inl e ↦ omega (arith, e) | inr e ↦ omega (arith, e) ] in
      let high : 956 < d = elim h [ inl e ↦ omega (arith, e) | inr e ↦ omega (arith, e) ] in
      unmade pgdir t2.mem t3.mem _ _ d (m3.dirs d lt) (inl (omega (arith, low)))
      ∙ unmade pgdir t1.mem t2.mem _ _ d (m2.dirs d lt) (inl (omega (arith, low)))
      ∙ unmade pgdir s.mem t1.mem _ _ d (m1.dirs d lt)
          (inr (omega (arith, high, array_size, v.space.dir.small)))

  three-IsKernelMapped : IsKernelMapped s xs t3
  three-IsKernelMapped = record {
    vars = SameVars-join s t1 t3 m1.vars (SameVars-join t1 t2 t3 m2.vars m3.vars);
    space = m3.space;
    rest = m3.rest;
    list = m3.list;
    spare = m3.spare;
    spent = omega (
      arith,
      m1.spent,
      m2.spent,
      m3.spent,
      needed_bound s.kern_pgdir s.mem upages (pages_size s.npages),
      needed_bound s.kern_pgdir t1.mem (kstacktop - kstksize) kstksize,
      needed_bound s.kern_pgdir t2.mem kernbase 65536,
      array_size,
      v.space.dir.small,
    );
    array = λ k lt. array_later k lt ∙ m1.entries k (omega arith) lt;
    stack = λ k lt. stack_later k lt ∙ m2.entries k (omega arith) (omega (arith, lt));
    memory = λ k lt.
        m3.entries k (omega arith) (omega (arith, lt))
        ∙ ap (λ i. some (entry i 3)) {x = 0 / 4096 + k} {y = k} (omega arith);
    others = below;
    dirs = all_dirs;
    between = dirs_between;
  }

three_calls :
    (s t1 t2 t3 : Kernel)
    → kernbase ≤ s.pages_kva
    → kernbase ≤ s.bootstack
    → boot_map_region s.kern_pgdir upages
        (pages_size s.npages)
        (sub32 s.pages_kva kernbase)
        (bit_or pte_u pte_p)
        s
      ≡ ok tt t1
    → t1.bootstack ≡ s.bootstack
    → boot_map_region s.kern_pgdir
        (kstacktop - kstksize)
        kstksize
        (sub32 s.bootstack kernbase)
        (bit_or pte_w pte_p)
        t1
      ≡ ok tt t2
    → boot_map_region s.kern_pgdir kernbase (0x1000_0000 / pgsize) 0 (bit_or pte_w pte_p) t2
      ≡ ok tt t3
    → map_kernel s ≡ ok tt t3
unfolding map_kernel
three_calls s t1 t2 t3 array stack run1 same run2 run3 =
    let stack_pa : paddr t1.bootstack t1 ≡ ok (sub32 s.bootstack kernbase) t1 =
      ap (λ a. paddr a t1) same ∙ paddr-ok s.bootstack t1 stack in
    rw (paddr-ok s.pages_kva s array, ◌>>=◌, run1, ◌>>=◌, stack_pa, ◌>>=◌, run2, run3) refl

module _ (s : Kernel) (xs : List ℕ) (v : IsReady s xs) where
  -- In an address space whose tables do not overlap, with 98 free pages that are neither the
  -- directory nor tables, and the stack and the array `pages` page-aligned and above KERNBASE, the
  -- three calls of `boot_map_region` in `mem_init` succeed: the array is mapped at UPAGES for the
  -- user to read, the 8 pages of the stack below KSTACKTOP and 256 MB at KERNBASE for the kernel
  -- to write. Below the stack every address that is neither in the array nor in the entry at UVPT
  -- keeps its translation; at most 98 pages become page tables.
  pub map_kernel-IsKernelMapped : (t : Kernel) × (map_kernel s ≡ ok tt t) × IsKernelMapped s xs t
  unfolding map_kernel
  map_kernel-IsKernelMapped =
      let size = pages_size_lem s.npages v.space.dir.small in
      let (t1, run1, m1) =
        boot_map_region-IsMapped (array-IsRegion v) s s.kern_pgdir xs v.space v.list v.spare (
          omega (
            arith,
            needed_bound s.kern_pgdir s.mem upages (pages_size s.npages),
            size,
            v.space.dir.small,
            v.enough,
          )) in
      let (t2, run2, m2) =
        boot_map_region-IsMapped (stack-IsRegion v) t1 s.kern_pgdir m1.rest m1.space m1.list
          m1.spare
          (omega (
            arith,
            needed_bound s.kern_pgdir s.mem upages (pages_size s.npages),
            needed_bound s.kern_pgdir t1.mem (kstacktop - kstksize) kstksize,
            m1.spent,
            size,
            v.space.dir.small,
            v.enough,
          )) in
      let (t3, run3, m3) =
        boot_map_region-IsMapped memory-IsRegion t2 s.kern_pgdir m2.rest m2.space m2.list m2.spare (
          omega (
            arith,
            needed_bound s.kern_pgdir s.mem upages (pages_size s.npages),
            needed_bound s.kern_pgdir t1.mem (kstacktop - kstksize) kstksize,
            needed_bound s.kern_pgdir t2.mem kernbase 65536,
            m1.spent,
            m2.spent,
            size,
            v.space.dir.small,
            v.enough,
          )) in
      (
        t3,
        three_calls s t1 t2 t3 v.array.0 v.stack.0 run1 m1.vars.1 run2 run3,
        three-IsKernelMapped v {t1 = t1} m1 {t2 = t2} m2 {t3 = t3} m3,
      )
