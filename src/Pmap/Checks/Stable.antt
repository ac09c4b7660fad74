-- ===== src/Pmap/Checks/Stable.antt =====
-- The loop of `move_low` goes through the whole free list and builds both parts.
use os.Base.{
  ℕ, zero, suc, ◌<◌, ◌≡◌, refl, inl, inr, true, false, Option, some, List, [], ◌∷◌, length, arith,
  sym, subst, ◌∙◌, Bool-cases,
}
use os.Pmap.State.{PageInfo, Kernel, ok}
use os.Pmap.State.Rules.{page_at-ok}
use os.Pmap.Pages.{link_of}
use os.Pmap.Pages.Chain.{has}
use os.Pmap.Checks.{Parts, write_low, write_high, is_high, split_loop}
use os.Pmap.Checks.Partition.{low_part, high_part, onto, Apart-take, Apart-less, has-tail}
use os.Pmap.Checks.Moved.{Built, Left, write_low-ok, write_high-ok, grow_low, grow_high, next_link}

-- Pages off both lists are as they were.
abbrev pub Outside : List ℕ → List ℕ → (ℕ → PageInfo) → (ℕ → PageInfo) → Type 0
Outside rl rh pages pages' = (j : ℕ) → has j rl ≡ false → has j rh ≡ false → pages' j ≡ pages j

has-under : (j : ℕ) (xs rs : List ℕ) → has j (onto xs rs) ≡ false → has j rs ≡ false
has-under j [] rs out = out
has-under j (x ∷ xs) rs out = has-tail j x rs (has-under j xs (x ∷ rs) out)

-- The loop has gone through the whole list.
pub record Parted (fuel limit : ℕ) (s : Kernel) (first : Option ℕ) (p : Parts) (rl rh : List ℕ)
    : Type 0 where
  pub pages : ℕ → PageInfo
  pub parts : Parts
  pub run : split_loop fuel limit first p s ≡ ok parts (record s { pages = pages })
  pub built : Built s.npages pages parts rl rh
  pub kept : Outside rl rh s.pages pages

split_low :
    (fuel limit i : ℕ) (s : Kernel) (p q : Parts) (pages' : ℕ → PageInfo) (rl rh : List ℕ)
    → i < s.npages
    → is_high limit i ≡ false
    → Outside rl rh s.pages pages'
    → write_low p.tp0 (some i) p s ≡ ok q (record s { pages = pages' })
    → Parted fuel limit
        (record s { pages = pages' })
        (pages' i).pp_link
        (record q { tp0 = link_of i })
        rl
        rh
    → Parted (suc fuel) limit s (some i) p rl rh
unfolding split_loop
split_low fuel limit i s p q pages' rl rh b h same w next = record {
  pages = next.pages;
  parts = next.parts;
  run = rw (split_loop, h) (rw w (rw (page_at-ok (record s { pages = pages' }) i b) next.run));
  built = next.built;
  kept = λ j low high. next.kept j low high ∙ same j low high;
}

split_high :
    (fuel limit i : ℕ) (s : Kernel) (p q : Parts) (pages' : ℕ → PageInfo) (rl rh : List ℕ)
    → i < s.npages
    → is_high limit i ≡ true
    → Outside rl rh s.pages pages'
    → write_high p.tp1 (some i) p s ≡ ok q (record s { pages = pages' })
    → Parted fuel limit
        (record s { pages = pages' })
        (pages' i).pp_link
        (record q { tp1 = link_of i })
        rl
        rh
    → Parted (suc fuel) limit s (some i) p rl rh
unfolding split_loop
split_high fuel limit i s p q pages' rl rh b h same w next = record {
  pages = next.pages;
  parts = next.parts;
  run = rw (split_loop, h) (rw w (rw (page_at-ok (record s { pages = pages' }) i b) next.run));
  built = next.built;
  kept = λ j low high. next.kept j low high ∙ same j low high;
}

pub split_loop-Parted :
    (fuel limit : ℕ) (s : Kernel) (first : Option ℕ) (p : Parts) (rl rh xs : List ℕ)
    → length xs < fuel
    → Built s.npages s.pages p rl rh
    → Left s.npages s.pages first rl rh xs
    → Parted fuel limit s first p (onto (low_part limit xs) rl) (onto (high_part limit xs) rh)
unfolding split_loop
split_loop-Parted zero limit s first p rl rh xs enough b c = absurd (omega (arith, enough))
split_loop-Parted (suc fuel) limit s first p rl rh [] enough b c = record {
  pages = s.pages;
  parts = p;
  run = rw c.chain refl;
  built = b;
  kept = λ j low high. refl;
}
split_loop-Parted (suc fuel) limit s first p rl rh (i ∷ xs) enough b c =
    subst
      (λ l.
        Parted (suc fuel) limit s l p (onto (low_part limit (i ∷ xs)) rl)
          (onto (high_part limit (i ∷ xs)) rh))
      (sym c.chain.0)
      (elim (Bool-cases (is_high limit i)) [
        | inl h ↦
            let (pages', l, w, v) = write_high-ok s p (some i) rh b.high_pages b.high in
            rw h (
              split_high fuel limit i s p (record p { pp2 = l }) pages'
                (onto (low_part limit xs) rl) (onto (high_part limit xs) (i ∷ rh)) c.chain.1 h
                (λ j low high.
                  v.same j (has-tail j i rh (has-under j (high_part limit xs) (i ∷ rh) high)))
                w
                (split_loop-Parted fuel limit (record s { pages = pages' }) (pages' i).pp_link
                  (record p { pp2 = l; tp1 = link_of i }) rl (i ∷ rh) xs (omega (arith, enough))
                  (grow_high s.npages s.pages pages' p l first i rl rh xs v b c)
                  (record {
                    chain =
                        next_link s.npages s.pages pages' l (some i) first i rh xs v c.no_high
                          c.chain;
                    no_low = Apart-less i rl xs c.no_low;
                    no_high = Apart-take i rh xs c.chain.3 c.no_high;
                  })))
        | inr h ↦
            let (pages', l, w, v) = write_low-ok s p (some i) rl b.low_pages b.low in
            rw h (
              split_low fuel limit i s p (record p { pp1 = l }) pages'
                (onto (low_part limit xs) (i ∷ rl)) (onto (high_part limit xs) rh) c.chain.1 h
                (λ j low high.
                  v.same j (has-tail j i rl (has-under j (low_part limit xs) (i ∷ rl) low)))
                w
                (split_loop-Parted fuel limit (record s { pages = pages' }) (pages' i).pp_link
                  (record p { pp1 = l; tp0 = link_of i }) (i ∷ rl) rh xs (omega (arith, enough))
                  (grow_low s.npages s.pages pages' p l first i rl rh xs v b c)
                  (record {
                    chain =
                        next_link s.npages s.pages pages' l (some i) first i rl xs v c.no_low
                          c.chain;
                    no_low = Apart-take i rl xs c.chain.3 c.no_low;
                    no_high = Apart-less i rh xs c.no_high;
                  })))
      ])
