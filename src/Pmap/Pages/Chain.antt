-- ===== src/Pmap/Pages/Chain.antt =====
-- The free list: distinct pages of the machine, each unreferenced, each linked to the next.
use os.Base.{ℕ, ◌<◌, ◌≡◌, Bool, false, ◌||◌, Option, none, some, List, [], ◌∷◌, ◌==◌, arith}
use os.Pmap.State.{PageInfo, Kernel, update}

abbrev pub has : ℕ → List ℕ → Bool
has i [] = false
has i (j ∷ js) = (i == j) || has i js

-- From `first` the links lead through `xs` and end.
abbrev pub Chain : ℕ → (ℕ → PageInfo) → Option ℕ → List ℕ → Type 0
Chain n pages first [] = first ≡ none
Chain n pages first (x ∷ xs) =
    (first ≡ some x)
    × (x < n)
    × ((pages x).pp_ref ≡ 0)
    × (has x xs ≡ false)
    × Chain n pages (pages x).pp_link xs

-- `xs` is the free list of `s`.
abbrev pub FreeList : Kernel → List ℕ → Type 0
FreeList s xs = Chain s.npages s.pages s.page_free_list xs

-- A change of a page off the list leaves the list.
pub Chain-update :
    (n : ℕ) (pages : ℕ → PageInfo) (first : Option ℕ) (xs : List ℕ) (i : ℕ) (p : PageInfo)
    → has i xs ≡ false
    → Chain n pages first xs
    → Chain n (update pages i p) first xs
Chain-update n pages first [] i p out c = c
Chain-update n pages first (x ∷ xs) i p out c =
    let e : update pages i p x ≡ pages x = ground arith in
    let rest = Chain-update n pages (pages x).pp_link xs i p (ground arith) c.4 in
    (c.0, c.1, rw e c.2, c.3, rw e rest)
