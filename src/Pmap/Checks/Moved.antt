-- ===== src/Pmap/Checks/Moved.antt =====
-- What `move_low` leaves of the free list.
use os.Base.{
  ℕ, ◌≡◌, refl, inl, inr, false, Option, some, List, [], ◌∷◌, ◌==◌, arith, ap, sym, subst, ◌∙◌,
  Bool-cases, update,
}
use os.Pmap.State.{PageInfo, Kernel, ok}
use os.Pmap.State.Rules.{set_link-ok}
use os.Pmap.Pages.{link_of}
use os.Pmap.Pages.Chain.{has, Chain}
use os.Pmap.Checks.{Parts, write_low, write_high}
use os.Pmap.Checks.Partition.{
  Ends, Partial, ArePages, Apart, SameBut, SameRefs, Apart-flip, Apart-other, Apart-less, Ends-same,
  Partial-same, Chain-same, ArePages-same, has-head,
}

-- The end of a list is written: the first page of it, or the link of its last page.
pub record Written (n : ℕ) (pages pages' : ℕ → PageInfo) (first l : Option ℕ) (rs : List ℕ)
    : Type 0 where
  pub ends : Ends pages' first l rs
  pub same : SameBut rs pages pages'
  pub refs : SameRefs pages pages'

linked : (ℕ → PageInfo) → ℕ → Option ℕ → ℕ → PageInfo
linked pages x l = update pages x (record { pp_link = l; pp_ref = (pages x).pp_ref })

linked-Written :
    (n : ℕ) (pages : ℕ → PageInfo) (first l : Option ℕ) (x : ℕ) (rs : List ℕ)
    → ArePages n pages (x ∷ rs)
    → Ends pages first (some x) rs
    → Written n pages (linked pages x l) first l (x ∷ rs)
unfolding linked
linked-Written n pages first l x rs v e = record {
  ends = (
    ground arith,
    Ends-same pages (linked pages x l) first (some x) rs
        (λ j h. other j (ground (arith, v.2, h, ap (λ k. has k rs) {x = j} {y = x}))) e,
  );
  same = λ j h. other j (ground (arith, h));
  refs = λ j. elim (Bool-cases (x == j)) [
    | inl here ↦ rw here (ap (λ k. (pages k).pp_ref) (ground (arith, here)))
    | inr there ↦ rw there refl
  ];
}
  where
    other : (j : ℕ) → (x == j) ≡ false → linked pages x l j ≡ pages j
    other j h = rw h refl

pub write_low-ok :
    (s : Kernel) (p : Parts) (l : Option ℕ) (rs : List ℕ)
    → ArePages s.npages s.pages rs
    → Partial s.pages p.pp1 p.tp0 rs
    → (pages' : ℕ → PageInfo) × (first : Option ℕ) × (write_low p.tp0 l p s
        ≡ ok (record p { pp1 = first }) (record s { pages = pages' }))
      × Written s.npages s.pages pages' first l rs
unfolding write_low
write_low-ok s p l [] v e =
    (s.pages, l, rw e refl, record { ends = refl; same = λ j h. refl; refs = λ j. refl })
write_low-ok s p l (x ∷ rs) v e = (
  linked s.pages x l,
  p.pp1,
  rw e.0 (rw (set_link-ok s x v.0 l) (unfold linked in refl)),
  linked-Written s.npages s.pages p.pp1 l x rs v e.1,
)

pub write_high-ok :
    (s : Kernel) (p : Parts) (l : Option ℕ) (rs : List ℕ)
    → ArePages s.npages s.pages rs
    → Partial s.pages p.pp2 p.tp1 rs
    → (pages' : ℕ → PageInfo) × (first : Option ℕ) × (write_high p.tp1 l p s
        ≡ ok (record p { pp2 = first }) (record s { pages = pages' }))
      × Written s.npages s.pages pages' first l rs
unfolding write_high
write_high-ok s p l [] v e =
    (s.pages, l, rw e refl, record { ends = refl; same = λ j h. refl; refs = λ j. refl })
write_high-ok s p l (x ∷ rs) v e = (
  linked s.pages x l,
  p.pp2,
  rw e.0 (rw (set_link-ok s x v.0 l) (unfold linked in refl)),
  linked-Written s.npages s.pages p.pp2 l x rs v e.1,
)

-- Both lists as far as they are built.
pub record Built (n : ℕ) (pages : ℕ → PageInfo) (p : Parts) (rl rh : List ℕ) : Type 0 where
  pub low_pages : ArePages n pages rl
  pub high_pages : ArePages n pages rh
  pub low : Partial pages p.pp1 p.tp0 rl
  pub high : Partial pages p.pp2 p.tp1 rh
  pub apart : Apart rl rh

-- What is left of the list the loop reads.
pub record Left (n : ℕ) (pages : ℕ → PageInfo) (first : Option ℕ) (rl rh xs : List ℕ) : Type 0 where
  pub chain : Chain n pages first xs
  pub no_low : Apart rl xs
  pub no_high : Apart rh xs

pub grow_low :
    (n : ℕ) (pages pages' : ℕ → PageInfo) (p : Parts) (first link : Option ℕ) (i : ℕ)
    (rl rh xs : List ℕ)
    → Written n pages pages' first (some i) rl
    → Built n pages p rl rh
    → Left n pages link rl rh (i ∷ xs)
    → Built n pages' (record p { pp1 = first; tp0 = link_of i }) (i ∷ rl) rh
grow_low n pages pages' p first link i rl rh xs w b c = record {
  low_pages = (
    c.chain.1,
    w.refs i ∙ c.chain.2,
    Apart-flip rl (i ∷ xs) c.no_low i (has-head i xs),
    ArePages-same n pages pages' rl w.refs b.low_pages,
  );
  high_pages = ArePages-same n pages pages' rh w.refs b.high_pages;
  low = (refl, w.ends);
  high =
      Partial-same pages pages' p.pp2 p.tp1 rh (λ j h. w.same j (Apart-flip rl rh b.apart j h))
        b.high;
  apart = Apart-other i rl rh xs b.apart c.no_high;
}

pub grow_high :
    (n : ℕ) (pages pages' : ℕ → PageInfo) (p : Parts) (first link : Option ℕ) (i : ℕ)
    (rl rh xs : List ℕ)
    → Written n pages pages' first (some i) rh
    → Built n pages p rl rh
    → Left n pages link rl rh (i ∷ xs)
    → Built n pages' (record p { pp2 = first; tp1 = link_of i }) rl (i ∷ rh)
grow_high n pages pages' p first link i rl rh xs w b c = record {
  low_pages = ArePages-same n pages pages' rl w.refs b.low_pages;
  high_pages = (
    c.chain.1,
    w.refs i ∙ c.chain.2,
    Apart-flip rh (i ∷ xs) c.no_high i (has-head i xs),
    ArePages-same n pages pages' rh w.refs b.high_pages,
  );
  low = Partial-same pages pages' p.pp1 p.tp0 rl (λ j h. w.same j (b.apart j h)) b.low;
  high = (refl, w.ends);
  apart = Apart-flip (i ∷ rh) rl (Apart-other i rh rl xs (Apart-flip rl rh b.apart) c.no_low);
}

-- A written list does not hold the page the loop stands at, so the loop goes on along the old link.
pub next_link :
    (n : ℕ) (pages pages' : ℕ → PageInfo) (first l link : Option ℕ) (i : ℕ) (rs xs : List ℕ)
    → Written n pages pages' first l rs
    → Apart rs (i ∷ xs)
    → Chain n pages link (i ∷ xs)
    → Chain n pages' (pages' i).pp_link xs
next_link n pages pages' first l link i rs xs w a c =
    subst (λ k. Chain n pages' k xs)
      (sym
        (ap (λ (p : PageInfo). p.pp_link) (w.same i (Apart-flip rs (i ∷ xs) a i (has-head i xs)))))
      (Chain-same n pages pages' (pages i).pp_link xs
        (λ j h. w.same j (Apart-flip rs xs (Apart-less i rs xs a) j h)) c.4)
