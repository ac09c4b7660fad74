-- ===== src/Pmap/Pages/DoubleFree.antt =====
-- The check of `page_free` against double frees looks at the count and the link of the page. The
-- last page of the free list has neither.
use os.Base.{
  ℕ, ◌<◌, ◌≡◌, ◌≢◌, inl, inr, true, Bool-cases, Option, List, [], ◌∷◌, ◌==◌, arith, subst, sym,
}
use os.Pmap.State.{PageInfo, Kernel, ok}
use os.Pmap.Pages.{page_free}
use os.Pmap.Pages.Chain.{has, Chain, FreeList}
use os.Pmap.Pages.Free.{freed, IsIdle, page_free-ok}

-- Page `i` is the last of `ys`.
abbrev pub EndsWith : ℕ → List ℕ → Type 0
EndsWith i [] = ⊥
EndsWith i (x ∷ []) = x ≡ i
EndsWith i (x ∷ y ∷ ys) = EndsWith i (y ∷ ys)

last_lem :
    (n : ℕ) (pages : ℕ → PageInfo) (first : Option ℕ) (i : ℕ) (ys : List ℕ)
    → EndsWith i ys
    → Chain n pages first ys
    → (i < n) × IsIdle (pages i)
last_lem n pages first i [] e c = absurd e
last_lem n pages first i (x ∷ []) e c = ground arith
last_lem n pages first i (x ∷ y ∷ ys) e c = last_lem n pages (pages x).pp_link i (y ∷ ys) e c.4

-- Two chains from one page, over links that agree but at `i`, both come to `i`.
has-Chain :
    (n : ℕ) (pages pages' : ℕ → PageInfo) (first : Option ℕ) (i : ℕ) (ys zs : List ℕ)
    → ((j : ℕ) → j ≢ i → (pages' j).pp_link ≡ (pages j).pp_link)
    → EndsWith i ys
    → Chain n pages first ys
    → Chain n pages' first zs
    → has i zs ≡ true
has-Chain n pages pages' first i [] zs same e c d = absurd e
has-Chain n pages pages' first i (x ∷ []) [] same e c d = absurd (ground arith)
has-Chain n pages pages' first i (x ∷ y ∷ ys) [] same e c d = absurd (ground arith)
has-Chain n pages pages' first i (x ∷ []) (z ∷ zs) same e c d = ground arith
has-Chain n pages pages' first i (x ∷ y ∷ ys) (z ∷ zs) same e c d = elim (Bool-cases (i == z)) [
  | inl here ↦ ground arith
  | inr on ↦
      let link : (pages' z).pp_link ≡ (pages x).pp_link = ground (arith, same z) in
      let rest = subst (λ l. Chain n pages' l zs) link d.4 in
      rw on (has-Chain n pages pages' (pages x).pp_link i (y ∷ ys) zs same e c.4 rest)
]

-- Freeing the last page of the free list again is not noticed: `page_free` links it to the head
-- of the list that it ends, and after that no finite list of pages is the free list.
pub page_free-cycle :
    (s : Kernel) (i : ℕ) (ys zs : List ℕ)
    → FreeList s ys
    → EndsWith i ys
    → (page_free i s ≡ ok tt (freed i s)) × ¬ FreeList (freed i s) zs
page_free-cycle s i ys zs c e =
    let (inside, idle) = last_lem s.npages s.pages s.page_free_list i ys e c in
    (page_free-ok s i inside idle, cyclic zs)
  where
    same : (j : ℕ) → j ≢ i → ((freed i s).pages j).pp_link ≡ (s.pages j).pp_link
    same j ne = ground arith

    link : ((freed i s).pages i).pp_link ≡ s.page_free_list
    link = ground arith

    again :
        (z : ℕ) (rest : List ℕ)
        → i ≡ z
        → Chain s.npages (freed i s).pages ((freed i s).pages z).pp_link rest
        → has z rest ≡ true
    again z rest e' d =
        subst (λ k. has k rest ≡ true) e'
          (has-Chain s.npages s.pages (freed i s).pages s.page_free_list i ys rest same e c (
            subst (λ l. Chain s.npages (freed i s).pages l rest) link
              (subst (λ k. Chain s.npages (freed i s).pages ((freed i s).pages k).pp_link rest)
                (sym e') d)))

    cyclic : (ws : List ℕ) → ¬ FreeList (freed i s) ws
    cyclic [] d = cc
    cyclic (z ∷ rest) d =
        let e' : i ≡ z = cc (d.0) in let hit = again z rest e' d.4 in cc (hit, d.3)
