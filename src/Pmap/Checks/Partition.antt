-- ===== src/Pmap/Checks/Partition.antt =====
-- The loop of `check_page_free_list` that brings the low pages to the front of the free list, by
-- changing links in place.
use os.Base.{
  ℕ, ◌<◌, ◌≡◌, refl, inl, inr, true, false, Option, some, List, [], ◌∷◌, ◌==◌, if◌then◌else◌, arith,
  ap, sym, subst, ◌∙◌, Bool-cases,
}
use os.Pmap.State.{PageInfo}
use os.Pmap.Pages.{Slot, head, link_of}
use os.Pmap.Pages.Chain.{has, Chain}
use os.Pmap.Checks.{is_high}

-- The pages of a list on this side of the limit and beyond, in the order of the list
abbrev pub low_part : ℕ → List ℕ → List ℕ
low_part limit [] = []
low_part limit (i ∷ xs) = if is_high limit i then low_part limit xs else i ∷ low_part limit xs

abbrev pub high_part : ℕ → List ℕ → List ℕ
high_part limit [] = []
high_part limit (i ∷ xs) = if is_high limit i then i ∷ high_part limit xs else high_part limit xs

-- A list that is built at its end is kept here with its last page first.
abbrev pub onto : List ℕ → List ℕ → List ℕ
onto [] ys = ys
onto (x ∷ rs) ys = onto rs (x ∷ ys)

-- From `first` the links lead through `rs`, whose last page comes first, to `l`.
abbrev pub Ends : (ℕ → PageInfo) → Option ℕ → Option ℕ → List ℕ → Type 0
Ends pages first l [] = first ≡ l
Ends pages first l (y ∷ rs) = ((pages y).pp_link ≡ l) × Ends pages first (some y) rs

-- The list `rs` is built up to the place `slot`, where the next page will be written.
abbrev pub Partial : (ℕ → PageInfo) → Option ℕ → Slot → List ℕ → Type 0
Partial pages first slot [] = slot ≡ head
Partial pages first slot (x ∷ rs) = (slot ≡ link_of x) × Ends pages first (some x) rs

abbrev pub ArePages : ℕ → (ℕ → PageInfo) → List ℕ → Type 0
ArePages n pages [] = Unit {0}
ArePages n pages (x ∷ xs) =
    (x < n) × ((pages x).pp_ref ≡ 0) × (has x xs ≡ false) × ArePages n pages xs

abbrev pub Apart : List ℕ → List ℕ → Type 0
Apart xs ys = (j : ℕ) → has j xs ≡ true → has j ys ≡ false

abbrev pub SameBut : List ℕ → (ℕ → PageInfo) → (ℕ → PageInfo) → Type 0
SameBut xs pages pages' = (j : ℕ) → has j xs ≡ false → pages' j ≡ pages j

abbrev pub SameRefs : (ℕ → PageInfo) → (ℕ → PageInfo) → Type 0
SameRefs pages pages' = (j : ℕ) → (pages' j).pp_ref ≡ (pages j).pp_ref

pub Apart-flip : (xs ys : List ℕ) → Apart xs ys → Apart ys xs
Apart-flip xs ys a j h = elim (Bool-cases (has j xs)) [
  | inl there ↦ absurd (ground (arith, a j there, h))
  | inr gone ↦ gone
]

pub has-head : (x : ℕ) (xs : List ℕ) → has x (x ∷ xs) ≡ true
has-head x xs = ground arith

pub has-tail : (j x : ℕ) (xs : List ℕ) → has j (x ∷ xs) ≡ false → has j xs ≡ false
has-tail j x xs h = ground (arith, h)

-- A page moves from the front of what is left to the end of a list.
pub Apart-take : (i : ℕ) (rs xs : List ℕ) → has i xs ≡ false → Apart rs (i ∷ xs) → Apart (i ∷ rs) xs
Apart-take i rs xs out a j h = elim (Bool-cases (j == i)) [
  | inl same ↦ ap (λ k. has k xs) {x = j} {y = i} (ground (arith, same)) ∙ out
  | inr other ↦ has-tail j i xs (a j (ground (arith, h, other)))
]

pub Apart-other : (i : ℕ) (rs ts xs : List ℕ) → Apart rs ts → Apart ts (i ∷ xs) → Apart (i ∷ rs) ts
Apart-other i rs ts xs a b j h = elim (Bool-cases (j == i)) [
  | inl same ↦
      ap (λ k. has k ts) {x = j} {y = i} (ground (arith, same))
      ∙ Apart-flip ts (i ∷ xs) b i (has-head i xs)
  | inr other ↦ a j (ground (arith, h, other))
]

pub Apart-less : (i : ℕ) (rs xs : List ℕ) → Apart rs (i ∷ xs) → Apart rs xs
Apart-less i rs xs a j h = has-tail j i xs (a j h)

-- Lists in a change elsewhere.
pub Ends-same :
    (pages pages' : ℕ → PageInfo) (first l : Option ℕ) (rs : List ℕ)
    → ((j : ℕ) → has j rs ≡ true → pages' j ≡ pages j)
    → Ends pages first l rs
    → Ends pages' first l rs
Ends-same pages pages' first l [] same v = v
Ends-same pages pages' first l (y ∷ rs) same v = (
  ap (λ (p : PageInfo). p.pp_link) (same y (has-head y rs)) ∙ v.0,
  Ends-same pages pages' first (some y) rs (λ j h. same j (ground (arith, h))) v.1,
)

pub Partial-same :
    (pages pages' : ℕ → PageInfo) (first : Option ℕ) (slot : Slot) (rs : List ℕ)
    → ((j : ℕ) → has j rs ≡ true → pages' j ≡ pages j)
    → Partial pages first slot rs
    → Partial pages' first slot rs
Partial-same pages pages' first slot [] same v = v
Partial-same pages pages' first slot (x ∷ rs) same v =
    (v.0, Ends-same pages pages' first (some x) rs (λ j h. same j (ground (arith, h))) v.1)

pub Chain-same :
    (n : ℕ) (pages pages' : ℕ → PageInfo) (first : Option ℕ) (xs : List ℕ)
    → ((j : ℕ) → has j xs ≡ true → pages' j ≡ pages j)
    → Chain n pages first xs
    → Chain n pages' first xs
Chain-same n pages pages' first [] same c = c
Chain-same n pages pages' first (x ∷ xs) same c =
    let e = same x (has-head x xs) in
    (
      c.0,
      c.1,
      ap (λ (p : PageInfo). p.pp_ref) e ∙ c.2,
      c.3,
      subst (λ l. Chain n pages' l xs) (sym (ap (λ (p : PageInfo). p.pp_link) e))
          (Chain-same n pages pages' (pages x).pp_link xs (λ j h. same j (ground (arith, h))) c.4),
    )

pub ArePages-same :
    (n : ℕ) (pages pages' : ℕ → PageInfo) (xs : List ℕ)
    → SameRefs pages pages'
    → ArePages n pages xs
    → ArePages n pages' xs
ArePages-same n pages pages' [] same v = tt
ArePages-same n pages pages' (x ∷ xs) same v =
    (v.0, same x ∙ v.1, v.2, ArePages-same n pages pages' xs same v.3)

-- A built list, with a list behind it, is a list.
pub Ends-Chain :
    (n : ℕ) (pages : ℕ → PageInfo) (first l : Option ℕ) (rs ys : List ℕ)
    → Ends pages first l rs
    → ArePages n pages rs
    → Apart rs ys
    → Chain n pages l ys
    → Chain n pages first (onto rs ys)
Ends-Chain n pages first l [] ys e v a c = subst (λ k. Chain n pages k ys) (sym e) c
Ends-Chain n pages first l (y ∷ rs) ys e v a c =
    Ends-Chain n pages first (some y) rs (y ∷ ys) e.1 v.3
      (λ j h. elim (Bool-cases (j == y)) [
        | inl same ↦
            absurd
              (ground (arith, v.2, h, ap (λ k. has k rs) {x = j} {y = y} (ground (arith, same))))
        | inr other ↦ ground (arith, other, a j (ground (arith, h, other)))
      ])
      (refl, v.0, v.1, a y (has-head y rs), subst (λ k. Chain n pages k ys) (sym e.0) c)
