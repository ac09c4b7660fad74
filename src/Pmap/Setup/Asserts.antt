-- ===== src/Pmap/Setup/Asserts.antt =====
-- The assertions of `check_kern_pgdir` one by one, where they hold.
use os.Base.{
  ℕ, zero, suc, ◌+◌, ◌-◌, ◌*◌, ◌/◌, ◌%◌, ◌^◌, ◌<◌, ◌≤◌, ◌≡◌, ◌⊎◌, ◌||◌, refl, inl, inr, true, false,
  none, some, leb, ◌==◌, arith, ap, ◌∙◌, Bool-cases, bit_and, add32, u32, round_up, round_down,
  eq→==,
}
use os.Mmu.{kernbase, kstacktop, kstksize, pgsize, pte_w, pdx, upages, ptsize, npdentries}
use os.Pmap.State.{Kernel, ok, paddr, ◌>>=◌}
use os.Pmap.State.Rules.{load-ok}
use os.Pmap.Tables.{check_va2pa, no_page}
use os.Pmap.Tables.Translate.{
  IsDir, pde_at, translate, dir_index, load-pde, load-pte, kaddr-table, present_lem,
}
use os.Pmap.Tables.Space.{OutsideUvpt, Present, IsSpace}
use os.Pmap.Tables.Insert.{entry}
use os.Base.Bits.{and_two}
use os.Pmap.Tables.Walk.{fresh_entry}
use os.Pmap.Tables.Remove.{pte_at, page_address, check_va2pa-translate}
use os.Pmap.Checks.{check}
use os.Pmap.Checks.Tables.{check_maps, pgdir_entry}
use os.Pmap.Setup.{region_loop, rounds, check_pde, pde_loop, check_kern_pgdir, pages_size}

pub check-ok : (s : Kernel) → check true s ≡ ok tt s
unfolding check
check-ok s = refl

module _ (t : Kernel) (va : ℕ) (v : IsSpace t.npages t.kern_pgdir t.mem) (o : OutsideUvpt va) where
  -- A mapped address passes the test with the address of its page.
  pub check_maps-some :
      (i perm : ℕ)
      → translate t.kern_pgdir t.mem va ≡ some (entry i perm)
      → i < 2 ^ 20
      → perm < 4096
      → check_maps va (i * 4096) t ≡ ok tt t
  unfolding check_maps
  check_maps-some i perm e small flags =
      let p : Present t.kern_pgdir t.mem va = ground arith in
      let here : pte_at t.kern_pgdir t.mem va ≡ entry i perm = ground arith in
      let at : page_address (translate t.kern_pgdir t.mem va) ≡ i * 4096 =
        ap page_address e ∙ omega (arith, flags) in
      let run = check_va2pa-translate t t.kern_pgdir va v o (omega (arith, here, small, flags)) in
      rw (check_maps, run, ◌>>=◌, at, eq→== (i * 4096) (i * 4096) refl) (check-ok t)

  -- So does an address without a directory entry, with ~0.
  pub check_maps-none : translate t.kern_pgdir t.mem va ≡ none → check_maps va no_page t ≡ ok tt t
  unfolding check_maps check_va2pa
  check_maps-none e = elim (Bool-cases (pde_at t.kern_pgdir t.mem va % 2 == 0)) [
    | inl absent ↦
        rw
          (
            check_maps,
            check_va2pa,
            load-pde t va v.dir,
            ◌>>=◌,
            present_lem (pde_at t.kern_pgdir t.mem va),
            absent,
          )
          (check-ok t)
    | inr p ↦
        let table = v.tables va o p in
        let gone : (pte_at t.kern_pgdir t.mem va % 2 == 0) ≡ true = ground arith in
        rw
          (
            check_maps,
            check_va2pa,
            load-pde t va v.dir,
            present_lem (pde_at t.kern_pgdir t.mem va),
            p,
            kaddr-table t va v.dir.small table,
            load-pte t va table,
            present_lem (pte_at t.kern_pgdir t.mem va),
            gone,
          )
          (check-ok t)
  ]

-- A loop whose tests all pass.
region_loop-ok :
    (t : Kernel) (va pa left j : ℕ)
    → ((k : ℕ)
        → j ≤ k
        → k < j + left
        → check_maps (add32 va (k * 4096)) (add32 pa (k * 4096)) t ≡ ok tt t)
    → region_loop left (j * 4096) va pa t ≡ ok tt t
unfolding region_loop
region_loop-ok t va pa zero j each = refl
region_loop-ok t va pa (suc left) j each =
    let next : j * 4096 + pgsize ≡ (j + 1) * 4096 = omega arith in
    rw (region_loop, each j (omega arith) (omega arith), next)
      (region_loop-ok t va pa left (j + 1) (λ k from upto. each k (omega arith) (omega arith)))

-- A region of whole pages that is mapped as it should be.
pub area-ok :
    (t : Kernel) (va pa n perm : ℕ)
    → IsSpace t.npages t.kern_pgdir t.mem
    → va + n * 4096 ≤ 2 ^ 32
    → pa + n * 4096 ≤ 2 ^ 32
    → pa % 4096 ≡ 0
    → perm < 4096
    → ((k : ℕ) → k < n → OutsideUvpt (va + k * 4096))
    → ((k : ℕ)
        → k < n
        → translate t.kern_pgdir t.mem (va + k * 4096) ≡ some (entry (pa / 4096 + k) perm))
    → region_loop n 0 va pa t ≡ ok tt t
area-ok t va pa n perm v fits pa_fits aligned flags o entries =
    region_loop-ok t va pa n 0 (λ k from upto.
      let lt : k < n = omega arith in
      let here : add32 va (k * 4096) ≡ va + k * 4096 = omega (arith, fits, lt) in
      let there : add32 pa (k * 4096) ≡ (pa / 4096 + k) * 4096 =
        omega (arith, pa_fits, aligned, lt) in
      rw (here, there)
        (check_maps-some t (va + k * 4096) v (o k lt) (pa / 4096 + k) perm (entries k lt)
          (omega (arith, pa_fits, lt)) flags))

pub pde_loop-ok :
    (t : Kernel) (left i : ℕ)
    → ((k : ℕ) → i ≤ k → k < i + left → check_pde k t ≡ ok tt t)
    → pde_loop left i t ≡ ok tt t
unfolding pde_loop
pde_loop-ok t zero i each = refl
pde_loop-ok t (suc left) i each =
    rw (pde_loop, each i (omega arith) (omega arith))
      (pde_loop-ok t left (i + 1) (λ k from upto. each k (omega arith) (omega arith)))

pgdir_entry-ok :
    (t : Kernel)
    → IsDir t.npages t.kern_pgdir
    → (d : ℕ) → d < 1024
    → pgdir_entry d t ≡ ok (t.mem (dir_index t.kern_pgdir d)) t
unfolding pgdir_entry
pgdir_entry-ok t v d lt =
    load-ok t (t.kern_pgdir + 4 * d) (omega (arith, v.low))
      (omega (arith, v.low, v.aligned, v.inside, lt))
    ∙ ap (λ i. ok (t.mem i) t) (omega (arith, v.low, v.aligned, lt))

writable : (j : ℕ) → (bit_and (fresh_entry j) pte_w == 0) ≡ false
writable j =
    ap (λ b. b == 0) {x = bit_and (fresh_entry j) pte_w} {y = 2}
      (omega (arith, and_two (fresh_entry j)))

-- The directory entry `i` is as the check wants it.
abbrev pub Fits : ℕ → ℕ → Type 0
Fits i e =
    (((i ≡ 957) ⊎ (i ≡ 959) ⊎ (i ≡ 956)) × ((e % 2 == 0) ≡ false))
    ⊎ ((960 ≤ i) × (j : ℕ) × (e ≡ fresh_entry j))
    ⊎ (((i < 956) ⊎ (i ≡ 958)) × (e ≡ 0))

module _ (t : Kernel) (v : IsDir t.npages t.kern_pgdir) (i : ℕ) (small : i < 1024) where
  pub check_pde-ok : Fits i (t.mem (dir_index t.kern_pgdir i)) → check_pde i t ≡ ok tt t
  unfolding check_pde pdx
  check_pde-ok (inl (special, present)) =
      let test : ((i == 957) || (i == 959) || (i == 956)) ≡ true = ground (arith, special) in
      rw
        (
          check_pde,
          pgdir_entry-ok t v i small,
          test,
          present_lem (t.mem (dir_index t.kern_pgdir i)),
          present,
        )
        (check-ok t)
  check_pde-ok (inr (inl (high, j, e))) =
      let test : ((i == 957) || (i == 959) || (i == 956)) ≡ false = ground (arith, high) in
      let kernel : leb 960 i ≡ true = ground (arith, high) in
      let present : (fresh_entry j % 2 == 0) ≡ false = ground arith in
      rw
        (
          check_pde,
          pgdir_entry-ok t v i small,
          test,
          kernel,
          e,
          present_lem (fresh_entry j),
          present,
          check-ok t,
          writable j,
        )
        (check-ok t)
  check_pde-ok (inr (inr (low, e))) =
      let test : ((i == 957) || (i == 959) || (i == 956)) ≡ false = ground (arith, low) in
      let user : leb 960 i ≡ false = ground (arith, low) in
      rw (check_pde, pgdir_entry-ok t v i small, test, user, e) (check-ok t)

pub rounds_lem : (n : ℕ) → n ≤ 2 ^ 16 → rounds (round_up (n * 8) pgsize) ≡ pages_size n
unfolding round_up round_down
rounds_lem n h = omega arith

-- The checks one after the other.
pub steps :
    (t : Kernel) (pages_pa stack_pa : ℕ)
    → paddr t.pages_kva t ≡ ok pages_pa t
    → paddr t.bootstack t ≡ ok stack_pa t
    → region_loop (rounds (round_up (t.npages * 8) pgsize)) 0 upages pages_pa t ≡ ok tt t
    → region_loop (rounds (u32 (t.npages * pgsize))) 0 kernbase 0 t ≡ ok tt t
    → region_loop 8 0 (kstacktop - kstksize) stack_pa t ≡ ok tt t
    → check_maps (kstacktop - ptsize) no_page t ≡ ok tt t
    → pde_loop npdentries 0 t ≡ ok tt t
    → check_kern_pgdir t ≡ ok tt t
unfolding check_kern_pgdir
steps t pages_pa stack_pa pages_at stack_at array memory stack guard dirs =
    rw (check_kern_pgdir, pages_at, ◌>>=◌, array, memory, stack_at, ◌>>=◌, stack, guard) dirs
