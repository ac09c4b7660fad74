-- ===== src/Pmap/Setup/Passes.antt =====
-- `check_kern_pgdir` passes on what `mem_init` has mapped.
use os.Base.{
  ℕ, ◌+◌, ◌-◌, ◌*◌, ◌/◌, ◌%◌, ◌<◌, ◌≤◌, ◌≡◌, ◌≢◌, refl, inl, inr, false, none, some, List, ltb,
  ◌==◌, arith, ap, ◌∙◌, sym, Bool-cases, sub32, u32, round_up, ==_iff, subst, ltb→lt,
}
use os.Mmu.{kernbase, kstacktop, kstksize, pgsize, upages, ptsize, npdentries}
use os.Pmap.State.{Kernel, ok, paddr}
use os.Pmap.State.Rules.{paddr-ok}
use os.Pmap.Tables.{no_page}
use os.Pmap.Tables.Translate.{dir_of, pde_at, translate, dir_index}
use os.Pmap.Tables.Space.{OutsideUvpt, IsSpace}
use os.Pmap.Tables.Insert.{entry}
use os.Pmap.Checks.Tables.{check_maps}
use os.Pmap.Setup.{map_kernel, region_loop, rounds, pde_loop, check_kern_pgdir, pages_size}
use os.Pmap.Setup.Regions.{pages_size_lem, IsReady}
use os.Pmap.Setup.Mapped.{map_kernel-IsKernelMapped, IsKernelMapped}
use os.Pmap.Setup.Asserts.{
  check_maps-none, area-ok, pde_loop-ok, Fits, check_pde-ok, rounds_lem, steps,
}

-- Before the kernel is mapped, the directory holds nothing but itself.
pub record IsBare (s : Kernel) : Type 0 where
  pub empty : (d : ℕ) → d < 1024 → d ≢ 957 → s.mem (dir_index s.kern_pgdir d) ≡ 0
  pub self : (s.mem (dir_index s.kern_pgdir 957) % 2 == 0) ≡ false

translate-present :
    (pgdir : ℕ) (mem : ℕ → ℕ) (va d e : ℕ)
    → dir_of va ≡ d
    → translate pgdir mem va ≡ some e
    → (mem (dir_index pgdir d) % 2 == 0) ≡ false
translate-present pgdir mem va d e at mapped =
    let p : (pde_at pgdir mem va % 2 == 0) ≡ false = ground arith in
    ap (λ i. mem (dir_index pgdir i) % 2 == 0) (sym at) ∙ p

module _ (s : Kernel) (xs : List ℕ) (v : IsReady s xs) (bare : IsBare s) (t : Kernel)
    (m : IsKernelMapped s xs t) where
  abbrev dir_word : ℕ → ℕ
  dir_word d = t.mem (dir_index s.kern_pgdir d)

  kernel-Fits : (i : ℕ) → 960 ≤ i → i < 1024 → Fits i (dir_word i)
  kernel-Fits i from lt =
      let present =
        translate-present s.kern_pgdir t.mem (kernbase + (i - 960) * 1024 * 4096) i _
          (omega (arith, from, lt)) (m.memory ((i - 960) * 1024) (omega (arith, from, lt))) in
      elim (m.dirs i lt) [
        | inl same ↦ absurd (ground (arith, same, present, bare.empty i lt (omega (arith, from))))
        | inr (low, high, j, e) ↦ inr (inl (from, j, e))
      ]

  user-Fits : (i : ℕ) → i < 956 → Fits i (dir_word i)
  user-Fits i lt =
      let small : i < 1024 = omega (arith, lt) in
      elim (m.dirs i small) [
        | inl same ↦ inr (inr (inl lt, same ∙ bare.empty i small (omega (arith, lt))))
        | inr (low, high, j, e) ↦ absurd (omega (arith, low, lt))
      ]

  array_present : (dir_word 956 % 2 == 0) ≡ false
  array_present =
      let lt : 0 < pages_size s.npages =
        omega (
          arith,
          pages_size_lem s.npages v.space.dir.small,
          v.space.dir.inside,
          v.space.dir.small,
        ) in
      translate-present s.kern_pgdir t.mem (upages + 0 * 4096) 956 _ refl (m.array 0 lt)

  stack_present : (dir_word 959 % 2 == 0) ≡ false
  stack_present =
      translate-present s.kern_pgdir t.mem (kstacktop - kstksize + 0 * 4096) 959 _ refl
        (m.stack 0 (omega arith))

  special-Fits : (i : ℕ) → 956 ≤ i → i < 960 → Fits i (dir_word i)
  special-Fits i from lt = elim (Bool-cases (i == 957)) [
    | inl e ↦
        let at = (==_iff i 957).0 e in
        inl (
          inl at,
          ap (λ d. dir_word d % 2 == 0) at
              ∙ ap (λ w. w % 2 == 0) (m.between 957 (inl refl))
              ∙ bare.self,
        )
    | inr ne_self ↦ elim (Bool-cases (i == 958)) [
      | inl e ↦
          let at = (==_iff i 958).0 e in
          inr (
            inr (
              inr at,
              ap dir_word at
                  ∙ m.between 958 (inr refl)
                  ∙ bare.empty 958 (omega arith) (omega arith),
            ))
      | inr ne_low ↦ elim (Bool-cases (i == 956)) [
        | inl e ↦
            let at = (==_iff i 956).0 e in
            inl (inr (inr at), ap (λ d. dir_word d % 2 == 0) at ∙ array_present)
        | inr ne_array ↦
            let at : i ≡ 959 = ground (arith, from, lt, ne_self, ne_low, ne_array) in
            inl (inr (inl at), ap (λ d. dir_word d % 2 == 0) at ∙ stack_present)
      ]
    ]
  ]

  all-Fits : (i : ℕ) → i < 1024 → Fits i (dir_word i)
  all-Fits i lt = elim (Bool-cases (ltb i 960)) [
    | inr high ↦ kernel-Fits i (ground (arith, high)) lt
    | inl low ↦ elim (Bool-cases (ltb i 956)) [
      | inl user ↦ user-Fits i (ltb→lt i 956 user)
      | inr special ↦ special-Fits i (ground (arith, special)) (ltb→lt i 960 low)
    ]
  ]

module _ (s : Kernel) (xs : List ℕ) (v : IsReady s xs) (bare : IsBare s) (t : Kernel)
    (m : IsKernelMapped s xs t) where
  own : (pgdir : ℕ) → pgdir ≡ s.kern_pgdir → IsSpace t.npages pgdir t.mem
  own pgdir e = subst (λ p. IsSpace t.npages p t.mem) (sym e) m.space

  translate_own :
      (va e : ℕ)
      → translate s.kern_pgdir t.mem va ≡ some e
      → translate t.kern_pgdir t.mem va ≡ some e
  translate_own va e mapped = ap (λ p. translate p t.mem va) m.vars.2 ∙ mapped

  array_passes :
      region_loop (rounds (round_up (t.npages * 8) pgsize)) 0 upages (sub32 s.pages_kva kernbase) t
      ≡ ok tt t
  array_passes =
      let size = pages_size_lem s.npages v.space.dir.small in
      let small = v.space.dir.small in
      let count : rounds (round_up (t.npages * 8) pgsize) ≡ pages_size s.npages =
        ap (λ n. rounds (round_up (n * 8) pgsize)) m.vars.0 ∙ rounds_lem s.npages small in
      ap (λ n. region_loop n 0 upages (sub32 s.pages_kva kernbase) t) count
      ∙ area-ok t upages (sub32 s.pages_kva kernbase) (pages_size s.npages) 5
          (own t.kern_pgdir m.vars.2) (omega (arith, size, small))
          (omega (arith, size, small, v.array.0, v.array.1))
          (omega (arith, v.array.0, v.array.1, v.array.2)) (omega arith)
          (λ k lt. (omega (arith, size, small, lt), omega (arith, size, small, lt)))
          (λ k lt. translate_own _ _ (m.array k lt))

  memory_passes : region_loop (rounds (u32 (t.npages * pgsize))) 0 kernbase 0 t ≡ ok tt t
  memory_passes =
      let small = v.space.dir.small in
      let count : rounds (u32 (t.npages * pgsize)) ≡ s.npages =
        ap (λ n. rounds (u32 (n * pgsize))) m.vars.0 ∙ omega (arith, small) in
      ap (λ n. region_loop n 0 kernbase 0 t) count
      ∙ area-ok t kernbase 0 s.npages 3 (own t.kern_pgdir m.vars.2) (omega (arith, small))
          (omega (arith, small)) refl (omega arith)
          (λ k lt. (omega (arith, small, lt), omega (arith, small, lt)))
          (λ k lt. translate_own _ _ (
            m.memory k (omega (arith, small, lt))
            ∙ ap (λ i. some (entry i 3)) {x = k} {y = 0 / 4096 + k} (omega arith)))

  stack_passes : region_loop 8 0 (kstacktop - kstksize) (sub32 s.bootstack kernbase) t ≡ ok tt t
  stack_passes =
      area-ok t (kstacktop - kstksize) (sub32 s.bootstack kernbase) 8 3 (own t.kern_pgdir m.vars.2)
        (omega arith) (omega (arith, v.stack.0, v.stack.1))
        (omega (arith, v.stack.0, v.stack.1, v.stack.2)) (omega arith)
        (λ k lt. (omega (arith, lt), omega (arith, lt))) (λ k lt. translate_own _ _ (m.stack k lt))

  guard_passes : check_maps (kstacktop - ptsize) no_page t ≡ ok tt t
  guard_passes =
      let size = pages_size_lem s.npages v.space.dir.small in
      let o : OutsideUvpt (kstacktop - ptsize) = (omega arith, omega arith) in
      let before : translate s.kern_pgdir s.mem (kstacktop - ptsize) ≡ none =
        ground (arith, bare.empty 959 (omega arith) (omega arith)) in
      check_maps-none t (kstacktop - ptsize) (own t.kern_pgdir m.vars.2) o (
        ap (λ p. translate p t.mem (kstacktop - ptsize)) m.vars.2
        ∙ m.others (kstacktop - ptsize) o (omega arith)
            (inr (omega (arith, size, v.space.dir.small)))
        ∙ before)

  dirs_pass : pde_loop npdentries 0 t ≡ ok tt t
  dirs_pass = pde_loop-ok t npdentries 0 (λ i from upto.
      let lt : i < 1024 = omega arith in
      check_pde-ok t (own t.kern_pgdir m.vars.2).dir i lt (
        subst (λ p. Fits i (t.mem (dir_index p i))) (sym (m.vars.2))
          (all-Fits s xs v bare t m i lt)))

  check_kern_pgdir-ok : check_kern_pgdir t ≡ ok tt t
  check_kern_pgdir-ok =
      steps t (sub32 s.pages_kva kernbase) (sub32 s.bootstack kernbase)
        (ap (λ a. paddr a t) m.vars.3 ∙ paddr-ok s.pages_kva t v.array.0)
        (ap (λ a. paddr a t) m.vars.1 ∙ paddr-ok s.bootstack t v.stack.0) array_passes memory_passes
        stack_passes guard_passes dirs_pass

-- From a state whose directory is empty but for itself, the three calls of
-- `boot_map_region` in `mem_init` make a state on which `check_kern_pgdir` passes: no assertion
-- fails, nothing is read outside memory, and no loop runs out of rounds. The check leaves the
-- state as it is. The state has 98 free pages that are neither the directory nor tables, and the
-- stack and the array `pages` page-aligned and above KERNBASE.
pub check_kern_pgdir-map_kernel :
    (s : Kernel) (xs : List ℕ)
    → IsReady s xs
    → IsBare s
    → (t : Kernel) × (map_kernel s ≡ ok tt t) × (check_kern_pgdir t ≡ ok tt t)
check_kern_pgdir-map_kernel s xs v bare =
    let (t, run, m) = map_kernel-IsKernelMapped s xs v in
    (t, run, check_kern_pgdir-ok s xs v bare t m)
