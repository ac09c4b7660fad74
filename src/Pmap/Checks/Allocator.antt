-- ===== src/Pmap/Checks/Allocator.antt =====
-- `check_page_alloc` on a free list of at least three pages.
use os.Base.{
  ℕ, zero, suc, ◌+◌, ◌-◌, ◌*◌, ◌/◌, ◌%◌, ◌^◌, ◌<◌, ◌≤◌, ◌≡◌, ◌≢◌, refl, true, false, ◌&&◌, Option,
  none, List, [], ◌∷◌, length, ltb, ◌==◌, if◌then◌else◌, arith, fun_ext, ap, ◌∙◌, sym, ne→==,
  ==_self, lt→ltb, u32, leb,
}
use native.Mathlib.Nat.{zero-div}
use os.Mmu.{pgsize, kernbase}
use os.Pmap.State.{Kernel, ok, page2pa, word_index}
use os.Pmap.State.Rules.{page_at-ok, page2pa_lem, page2kva-ok, load-ok, memset_words-ok, list_eq}
use os.Pmap.Pages.{page_free}
use os.Pmap.Pages.Chain.{Chain, FreeList}
use os.Pmap.Pages.Alloc.{taken, cleared, in_page, page_alloc-cons, page_alloc-nil}
use os.Pmap.Pages.Free.{freed, IsIdle, page_free-cons}
use os.Pmap.Checks.{
  check, must_alloc, must_not_alloc, check_distinct, must_alloc_three, check_in_memory, count_loop,
  count_free, byte_at, zero_loop, check_zeroed, give_back, check_page_alloc,
}

count_loop-Chain :
    (fuel : ℕ) (first : Option ℕ) (xs : List ℕ) (k : ℕ) (s : Kernel)
    → Chain s.npages s.pages first xs
    → length xs < fuel
    → count_loop fuel first k s ≡ ok (k + length xs) s
unfolding count_loop
count_loop-Chain zero first xs k s c enough = absurd (omega arith)
count_loop-Chain (suc fuel) first [] k s c enough = rw (c) (ap (λ n. ok n s) (omega arith))
count_loop-Chain (suc fuel) first (x ∷ xs) k s c enough = rw (c.0) (
    rw (page_at-ok s x c.1) (
      count_loop-Chain fuel (s.pages x).pp_link xs (k + 1) s c.4 (omega (arith, enough))
      ∙ ap (λ n. ok n s) (omega arith)))

must_alloc-cons :
    (s : Kernel) (flags i : ℕ) (rest : List ℕ)
    → s.npages ≤ 2 ^ 16
    → FreeList s (i ∷ rest)
    → must_alloc flags s ≡ ok i (taken flags i s)
unfolding must_alloc
must_alloc-cons s flags i rest small c = rw ((page_alloc-cons s flags i rest small c).0) refl

must_alloc_three-cons :
    (s : Kernel) (a b c : ℕ) (rest : List ℕ)
    → s.npages ≤ 2 ^ 16
    → FreeList s (a ∷ b ∷ c ∷ rest)
    → (must_alloc_three s ≡ ok (a, b, c) (taken 0 c (taken 0 b (taken 0 a s))))
      × FreeList (taken 0 c (taken 0 b (taken 0 a s))) rest
unfolding must_alloc_three check_distinct check
must_alloc_three-cons s a b c rest small v =
    let one = page_alloc-cons s 0 a (b ∷ c ∷ rest) small v in
    let two = page_alloc-cons (taken 0 a s) 0 b (c ∷ rest) small one.1 in
    let three = page_alloc-cons (taken 0 b (taken 0 a s)) 0 c rest small two.1 in
    let ab : (b == a) ≡ false = ground (arith, v.3) in
    let bc : (c == b) ≡ false = ground (arith, v.4.3) in
    let ac : (c == a) ≡ false = ground (arith, v.3) in
    (
      rw
          (
            must_alloc-cons s 0 a (b ∷ c ∷ rest) small v,
            must_alloc-cons (taken 0 a s) 0 b (c ∷ rest) small one.1,
            must_alloc-cons (taken 0 b (taken 0 a s)) 0 c rest small two.1,
            ab,
            bc,
            ac,
          )
          refl,
      three.1,
    )

-- Taking a page and giving it back, in either order, changes nothing.
freed-taken :
    (s : Kernel) (i : ℕ) (rest : List ℕ) → FreeList s (i ∷ rest) → freed i (taken 0 i s) ≡ s
freed-taken s i rest v = list_eq s (sym v.0) (λ j. ground arith)

taken-freed : (s : Kernel) (i : ℕ) → IsIdle (s.pages i) → taken 0 i (freed i s) ≡ s
taken-freed s i idle = list_eq s (ground arith) (λ j. ground (arith, idle.0, idle.1))

page_free-taken :
    (s : Kernel) (i : ℕ) (rest : List ℕ)
    → s.npages ≤ 2 ^ 16
    → FreeList s (i ∷ rest)
    → page_free i (taken 0 i s) ≡ ok tt s
page_free-taken s i rest small v =
    let (run, chain, ref) = page_alloc-cons s 0 i rest small v in
    (page_free-cons (taken 0 i s) i rest v.1 (ground (arith, v.2)) v.3 chain).0
    ∙ ap (ok tt) (freed-taken s i rest v)

give_back-taken :
    (s : Kernel) (a b c : ℕ) (rest : List ℕ)
    → s.npages ≤ 2 ^ 16
    → FreeList s (a ∷ b ∷ c ∷ rest)
    → give_back c b a (taken 0 c (taken 0 b (taken 0 a s))) ≡ ok tt s
unfolding give_back
give_back-taken s a b c rest small v =
    let one = page_alloc-cons s 0 a (b ∷ c ∷ rest) small v in
    let two = page_alloc-cons (taken 0 a s) 0 b (c ∷ rest) small one.1 in
    rw
      (
        page_free-taken (taken 0 b (taken 0 a s)) c rest small two.1,
        page_free-taken (taken 0 a s) b (c ∷ rest) small one.1,
      )
      (page_free-taken s a (b ∷ c ∷ rest) small v)

-- With the list taken away, the three pages are given back to an empty one.
module _ (s : Kernel) (a b c : ℕ) (rest : List ℕ) (small : s.npages ≤ 2 ^ 16)
    (v : FreeList s (a ∷ b ∷ c ∷ rest)) where
  abbrev stolen : Kernel
  stolen = record (taken 0 c (taken 0 b (taken 0 a s))) { page_free_list = none }

  a-IsIdle : IsIdle (stolen.pages a)
  a-IsIdle = ground (arith, v.2, v.3)

  b-IsIdle : IsIdle (stolen.pages b)
  b-IsIdle = ground (arith, v.4.2, v.4.3)

  c-IsIdle : IsIdle (stolen.pages c)
  c-IsIdle = ground (arith, v.4.4.2)

  give_back-stolen :
      (give_back a b c stolen ≡ ok tt (freed c (freed b (freed a stolen))))
      × FreeList (freed c (freed b (freed a stolen))) (c ∷ b ∷ a ∷ [])
  unfolding give_back
  give_back-stolen =
      let (run, chain) = page_free-cons stolen a [] v.1 a-IsIdle refl refl in
      let (run', chain') =
        page_free-cons (freed a stolen) b (a ∷ []) v.4.1 (ground (arith, b-IsIdle, v.3))
          (ground (arith, v.3)) chain in
      let (run'', chain'') =
        page_free-cons (freed b (freed a stolen)) c (b ∷ a ∷ []) v.4.4.1
          (ground (arith, c-IsIdle, v.3, v.4.3)) (ground (arith, v.3, v.4.3)) chain' in
      (rw (run, run') run'', chain'')

  again : taken 0 a (taken 0 b (taken 0 c (freed c (freed b (freed a stolen))))) ≡ stolen
  again =
      ap (λ t. taken 0 a (taken 0 b t))
        (taken-freed (freed b (freed a stolen)) c (ground (arith, c-IsIdle, v.3, v.4.3)))
      ∙ ap (taken 0 a) (taken-freed (freed a stolen) b (ground (arith, b-IsIdle, v.3)))
      ∙ taken-freed stolen a a-IsIdle

  must_alloc_three-again :
      must_alloc_three (freed c (freed b (freed a stolen))) ≡ ok (c, b, a) stolen
  must_alloc_three-again =
      (must_alloc_three-cons (freed c (freed b (freed a stolen))) c b a [] small
        (give_back-stolen.1)).0
      ∙ ap (ok (c, b, a)) again

  must_not_alloc-stolen : must_not_alloc stolen ≡ ok tt stolen
  unfolding must_not_alloc
  must_not_alloc-stolen = rw (page_alloc-nil stolen 0 refl) refl

byte_at-zero :
    (s : Kernel) (i kva : ℕ)
    → i < s.npages
    → i * 4096 + kernbase ≤ kva
    → kva < i * 4096 + kernbase + 4096
    → ((j : ℕ) → in_page i j ≡ true → s.mem j ≡ 0)
    → byte_at kva s ≡ ok 0 s
unfolding byte_at
byte_at-zero s i kva inside low high zeros =
    let w : s.mem ((kva - kva % 4 - kernbase) / 4) ≡ 0 =
      zeros ((kva - kva % 4 - kernbase) / 4) (ground (arith, low, high)) in
    rw (load-ok s (kva - kva % 4) (omega (arith, low)) (omega (arith, low, high, inside)), w)
      (ap (λ b. ok b s) rw (zero-div (2 ^ (8 * (kva % 4)))) refl)

zero_loop-ok :
    (left : ℕ) (s : Kernel) (i kva : ℕ)
    → i < s.npages
    → i * 4096 + kernbase ≤ kva
    → kva + left ≤ i * 4096 + kernbase + 4096
    → ((j : ℕ) → in_page i j ≡ true → s.mem j ≡ 0)
    → zero_loop left kva s ≡ ok tt s
unfolding zero_loop check
zero_loop-ok zero s i kva inside low high zeros = refl
zero_loop-ok (suc left) s i kva inside low high zeros =
    rw (zero_loop, byte_at-zero s i kva inside low (omega (arith, high)) zeros)
      (zero_loop-ok left s i (kva + 1) inside (omega (arith, low)) (omega (arith, high)) zeros)

-- An idle page and no list: the check leaves the page with zeros.
check_zeroed-ok :
    (s : Kernel) (i : ℕ)
    → s.npages ≤ 2 ^ 16
    → i < s.npages
    → IsIdle (s.pages i)
    → s.page_free_list ≡ none
    → check_zeroed i s ≡ ok tt (record s { mem = cleared 1 i s.mem })
unfolding check_zeroed check
check_zeroed-ok s i small inside idle empty =
    let kva = i * 4096 + kernbase in
    let filled : ℕ → ℕ = λ j.
      if leb (word_index kva) j && ltb j (word_index kva + pgsize / 4)
      then 1 % 256 * 0x0101_0101
      else s.mem j in
    let u : Kernel = record s { mem = filled } in
    let (run, chain) = page_free-cons u i [] inside idle refl empty in
    let t : Kernel = record s { mem = cleared 1 i filled } in
    let back : taken 1 i (freed i u) ≡ t =
      ap {A = Kernel} (λ x. record x { mem = cleared 1 i filled }) (taken-freed u i idle) in
    rw
      (
        page2kva-ok i s inside small,
        memset_words-ok s kva (omega arith) (omega (arith, inside)) 1 pgsize,
        run,
        must_alloc-cons (freed i u) 1 i [] small chain,
        back,
        ==_self i,
        page2kva-ok i t inside small,
      )
      (zero_loop-ok pgsize t i kva inside (omega arith) (omega arith) (λ j e. rw e refl)
        ∙ ap (λ m. ok tt (record s { mem = m })) (fun_ext λ j. ground arith))

module _ (s : Kernel) (a b c : ℕ) (rest : List ℕ) (small : s.npages ≤ 2 ^ 16)
    (v : FreeList s (a ∷ b ∷ c ∷ rest)) where
  check_in_memory-ok :
      (t : Kernel) (i : ℕ) → t.npages ≡ s.npages → i < s.npages → check_in_memory i t ≡ ok tt t
  unfolding check_in_memory check
  check_in_memory-ok t i same inside =
      let test : ltb (page2pa i) (u32 (t.npages * pgsize)) ≡ true =
        lt→ltb (page2pa i) (u32 (t.npages * pgsize))
          (omega (arith, page2pa_lem i (omega (arith, inside, small)), inside, small, same)) in
      rw test refl

  -- With three pages on the free list `check_page_alloc` succeeds. The free list, the counts and
  -- the links are what they were; the third page has been filled with zeros.
  pub check_page_alloc-ok :
      length (a ∷ b ∷ c ∷ rest) ≤ s.npages
      → s.pages_kva ≢ 0
      → check_page_alloc s ≡ ok tt (record s { mem = cleared 1 c s.mem })
  unfolding check_page_alloc count_free check
  check_page_alloc-ok few placed =
      let t = taken 0 c (taken 0 b (taken 0 a s)) in
      let u : Kernel = record s { mem = cleared 1 c s.mem } in
      let three = must_alloc_three-cons s a b c rest small v in
      rw
        (
          ne→== s.pages_kva 0 placed,
          count_loop-Chain (s.npages + 1) s.page_free_list (a ∷ b ∷ c ∷ rest) 0 s v
              (omega (arith, few)),
          three.0,
          check_in_memory-ok t a refl v.1,
          check_in_memory-ok t b refl v.4.1,
          check_in_memory-ok t c refl v.4.4.1,
        )
        (rw
          (
            must_not_alloc-stolen s a b c rest small v,
            (give_back-stolen s a b c rest small v).0,
            must_alloc_three-again s a b c rest small v,
            must_not_alloc-stolen s a b c rest small v,
            check_zeroed-ok (stolen s a b c rest small v) c small v.4.4.1
                (c-IsIdle s a b c rest small v) refl,
            give_back-taken u a b c rest small v,
            count_loop-Chain (s.npages + 1) s.page_free_list (a ∷ b ∷ c ∷ rest) 0 u v
                (omega (arith, few)),
            ==_self (0 + length (a ∷ b ∷ c ∷ rest)),
          )
          refl)
