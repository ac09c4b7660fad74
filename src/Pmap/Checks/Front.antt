-- ===== src/Pmap/Checks/Front.antt =====
-- `move_low`: low pages in front of the others, each in the order they had.
use os.Base.{
  append-nil, ℕ, ◌+◌, ◌≤◌, ◌≡◌, refl, inl, inr, false, Option, none, List, [], ◌∷◌, ◌++◌, length,
  arith, ap, subst, ◌∙◌, Bool-cases,
}
use os.Pmap.State.{PageInfo, Kernel, ok}
use os.Pmap.Pages.{head}
use os.Pmap.Pages.Chain.{has, Chain, FreeList}
use os.Pmap.Checks.{Parts, write_low, write_high, is_high, move_low}
use os.Pmap.Checks.Partition.{
  low_part, high_part, onto, Partial, SameBut, Apart-flip, Ends-same, Partial-same, ArePages-same,
  Ends-Chain, has-tail,
}
use os.Pmap.Checks.Moved.{Built, write_low-ok, write_high-ok}
use os.Pmap.Checks.Stable.{Outside, split_loop-Parted}

-- The order is that of the list.
onto-onto : (xs rs ys : List ℕ) → onto (onto xs rs) ys ≡ onto rs (xs ++ ys)
onto-onto [] rs ys = refl
onto-onto (x ∷ xs) rs ys = onto-onto xs (x ∷ rs) ys

has-onto :
    (j : ℕ) (rs ys : List ℕ) → has j rs ≡ false → has j ys ≡ false → has j (onto rs ys) ≡ false
has-onto j [] ys out none_there = none_there
has-onto j (x ∷ rs) ys out none_there =
    has-onto j rs (x ∷ ys) (has-tail j x rs out) (ground (arith, out, none_there))

onto-back : (xs ys : List ℕ) → onto (onto xs []) ys ≡ xs ++ ys
onto-back xs ys = onto-onto xs [] ys

-- Both ends are written: the list is there.
record Joined (n : ℕ) (s : Kernel) (p : Parts) (rl rh : List ℕ) : Type 0 where
  pub mid : Parts
  pub final : Parts
  pub pages1 : ℕ → PageInfo
  pub pages2 : ℕ → PageInfo
  pub end_high : write_high p.tp1 none p s ≡ ok mid (record s { pages = pages1 })
  pub end_low :
      write_low mid.tp0 mid.pp2 mid (record s { pages = pages1 })
      ≡ ok final (record s { pages = pages2 })
  pub chain : Chain n pages2 final.pp1 (onto rl (onto rh []))
  pub kept : Outside rl rh s.pages pages2

join :
    (s : Kernel) (p : Parts) (rl rh : List ℕ)
    → Built s.npages s.pages p rl rh
    → Joined s.npages s p rl rh
join s p rl rh b =
    let (pages1, f2, run2, w2) = write_high-ok s p none rh b.high_pages b.high in
    let n = s.npages in
    let low1 : Partial pages1 p.pp1 p.tp0 rl =
      Partial-same s.pages pages1 p.pp1 p.tp0 rl (λ j h. w2.same j (b.apart j h)) b.low in
    let pages_low = ArePages-same n s.pages pages1 rl w2.refs b.low_pages in
    let pages_high = ArePages-same n s.pages pages1 rh w2.refs b.high_pages in
    let (pages2, f1, run1, w1) =
      write_low-ok (record s { pages = pages1 }) (record p { pp2 = f2 }) f2 rl pages_low low1 in
    record {
      mid = record p { pp2 = f2 };
      final = record p { pp2 = f2; pp1 = f1 };
      pages1 = pages1;
      pages2 = pages2;
      end_high = run2;
      end_low = run1;
      chain =
          Ends-Chain n pages2 f1 f2 rl (onto rh []) w1.ends
            (ArePages-same n pages1 pages2 rl w1.refs pages_low)
            (λ j h. has-onto j rh [] (b.apart j h) refl)
            (Ends-Chain n pages2 f2 none rh []
              (Ends-same pages1 pages2 f2 none rh (λ j h. w1.same j (Apart-flip rl rh b.apart j h))
                w2.ends)
              (ArePages-same n pages1 pages2 rh w1.refs pages_high) (λ j h. refl) refl);
      kept = λ j low high. w1.same j low ∙ w2.same j high;
    }

has-low_part : (limit j : ℕ) (xs : List ℕ) → has j xs ≡ false → has j (low_part limit xs) ≡ false
has-low_part limit j [] out = out
has-low_part limit j (i ∷ xs) out =
    let rest = has-low_part limit j xs (has-tail j i xs out) in
    elim (Bool-cases (is_high limit i)) [
      | inl h ↦ rw h rest
      | inr h ↦ rw h (ground (arith, out, rest))
    ]

has-high_part : (limit j : ℕ) (xs : List ℕ) → has j xs ≡ false → has j (high_part limit xs) ≡ false
has-high_part limit j [] out = out
has-high_part limit j (i ∷ xs) out =
    let rest = has-high_part limit j xs (has-tail j i xs out) in
    elim (Bool-cases (is_high limit i)) [
      | inl h ↦ rw h (ground (arith, out, rest))
      | inr h ↦ rw h rest
    ]

-- On a free list of at most `npages` pages, `move_low` ends without a panic and leaves a free list
-- of the same pages, those below the limit first and each part in the order it had. Nothing but
-- the head of the list and the `struct PageInfo`s of its pages changes.
pub move_low-FreeList :
    (limit : ℕ) (s : Kernel) (xs : List ℕ)
    → length xs ≤ s.npages
    → FreeList s xs
    → (first : Option ℕ) × (pages' : ℕ → PageInfo) × (move_low limit s
        ≡ ok tt (record s { page_free_list = first; pages = pages' }))
      × FreeList
          (record s { page_free_list = first; pages = pages' })
          (low_part limit xs ++ high_part limit xs)
      × SameBut xs s.pages pages'
unfolding move_low
move_low-FreeList limit s xs short c =
    let loop =
      split_loop-Parted (s.npages + 1) limit s s.page_free_list
        (record { pp1 = none; pp2 = none; tp0 = head; tp1 = head }) [] [] xs (omega (arith, short))
        (record { low_pages = tt; high_pages = tt; low = refl; high = refl; apart = λ j h. refl })
        (record {
          chain = c;
          no_low = λ j h. absurd (ground (arith, h));
          no_high = λ j h. absurd (ground (arith, h));
        }) in
    let done =
      join (record s { pages = loop.pages }) loop.parts (onto (low_part limit xs) [])
        (onto (high_part limit xs) []) loop.built in
    (
      done.final.pp1,
      done.pages2,
      rw loop.run (rw done.end_high (rw done.end_low refl)),
      subst (λ ys. Chain s.npages done.pages2 done.final.pp1 ys)
          (ap (λ ys. onto (onto (low_part limit xs) []) ys)
              (onto-back (high_part limit xs) [] ∙ append-nil (high_part limit xs))
            ∙ onto-back (low_part limit xs) (high_part limit xs))
          done.chain,
      λ j out.
          let low = has-onto j (low_part limit xs) [] (has-low_part limit j xs out) refl in
          let high = has-onto j (high_part limit xs) [] (has-high_part limit j xs out) refl in
          done.kept j low high ∙ loop.kept j low high,
    )
