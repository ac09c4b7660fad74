-- ===== src/Pmap/Pages/Free.antt =====
-- `page_free` and `page_decref`: giving pages back, and what the double-free check catches.
use os.Base.{
  ℕ, ◌+◌, ◌-◌, ◌%◌, ◌^◌, ◌<◌, ◌≤◌, ◌≡◌, refl, ◌≢◌, ◌⊎◌, inl, inr, false, none, some, List, ◌∷◌,
  ◌==◌, if◌then◌else◌, arith, fun_ext, ap, subst, sym, ◌∙◌, Bool-cases,
}
use os.Pmap.State.{PageInfo, Kernel, page_free_in_use, ok, panic, update}
use os.Pmap.State.Rules.{list_eq, page_at-ok, set_link-ok, set_ref-ok}
use os.Pmap.Pages.{page_alloc, page_free, page_decref}
use os.Pmap.Pages.Chain.{has, Chain, FreeList, Chain-update}
use os.Pmap.Pages.Alloc.{taken, page_alloc-cons}

-- What `page_free` leaves.
abbrev pub freed : ℕ → Kernel → Kernel
freed i s = record s {
  page_free_list = some i;
  pages = update s.pages i (record { pp_link = s.page_free_list; pp_ref = (s.pages i).pp_ref });
}

-- The page is neither referenced nor linked.
abbrev pub IsIdle : PageInfo → Type 0
IsIdle p = (p.pp_ref ≡ 0) × (p.pp_link ≡ none)

pub page_free-ok :
    (s : Kernel) (i : ℕ) → i < s.npages → IsIdle (s.pages i) → page_free i s ≡ ok tt (freed i s)
unfolding page_free
page_free-ok s i inside idle =
    rw (page_at-ok s i inside)
      (simp (idle.0, idle.1) (rw (set_link-ok s i inside s.page_free_list) (ground arith)))

-- An idle page off the list goes to its front; nothing else changes.
pub page_free-cons :
    (s : Kernel) (i : ℕ) (xs : List ℕ)
    → i < s.npages
    → IsIdle (s.pages i)
    → has i xs ≡ false
    → FreeList s xs
    → (page_free i s ≡ ok tt (freed i s)) × FreeList (freed i s) (i ∷ xs)
page_free-cons s i xs inside idle out c =
    let p : PageInfo = record { pp_link = s.page_free_list; pp_ref = (s.pages i).pp_ref } in
    let rest = Chain-update s.npages s.pages s.page_free_list xs i p out c in
    let link : ((freed i s).pages i).pp_link ≡ s.page_free_list = ground arith in
    (
      page_free-ok s i inside idle,
      (
        refl,
        inside,
        ground arith,
        out,
        subst (λ l. Chain s.npages (freed i s).pages l xs) (sym link) rest,
      ),
    )

-- A page that is referenced or linked makes it panic.
page_free-panics :
    (s : Kernel) (i : ℕ)
    → i < s.npages
    → ((s.pages i).pp_ref ≢ 0) ⊎ ((s.pages i).pp_link ≢ none)
    → page_free i s ≡ panic page_free_in_use
unfolding page_free
page_free-panics s i inside busy = rw (page_at-ok s i inside) (ground arith)

-- Giving back an idle page and asking for a page, without clearing it, returns that page and the
-- state as it was.
pub page_free-alloc :
    (s : Kernel) (i : ℕ) (xs : List ℕ)
    → s.npages ≤ 2 ^ 16
    → i < s.npages
    → IsIdle (s.pages i)
    → has i xs ≡ false
    → FreeList s xs
    → (page_free i s ≡ ok tt (freed i s)) × (page_alloc 0 (freed i s) ≡ ok (some i) s)
page_free-alloc s i xs small inside idle out c =
    let (run, chain) = page_free-cons s i xs inside idle out c in
    (run, (page_alloc-cons (freed i s) 0 i xs small chain).0 ∙ ap (ok (some i)) restored)
  where
    same : (j : ℕ) → (taken 0 i (freed i s)).pages j ≡ s.pages j
    same j = ground arith

    first : ((freed i s).pages i).pp_link ≡ s.page_free_list
    first = ground arith

    restored : taken 0 i (freed i s) ≡ s
    restored = λ k. record s { page_free_list = first k; pages = fun_ext same k }

abbrev pub counted : ℕ → ℕ → Kernel → Kernel
counted i r s = record s {
  pages = update s.pages i (record { pp_link = (s.pages i).pp_link; pp_ref = r });
}

-- What `page_decref` leaves, from a count of `r`.
abbrev pub released : ℕ → ℕ → Kernel → Kernel
released i r s = record s {
  page_free_list = if r == 1 then some i else s.page_free_list;
  pages = update s.pages i (
      if r == 1
      then record { pp_link = s.page_free_list; pp_ref = 0 }
      else record { pp_link = (s.pages i).pp_link; pp_ref = (r + 2 ^ 16 - 1) % 2 ^ 16 });
}

-- Dropping the last reference frees the page; any other count goes down by one, in 16 bits, and
-- the free list stays.
pub page_decref_lem :
    (s : Kernel) (i : ℕ) (xs : List ℕ)
    → i < s.npages
    → (s.pages i).pp_ref < 2 ^ 16
    → (s.pages i).pp_link ≡ none
    → has i xs ≡ false
    → FreeList s xs
    → (page_decref i s ≡ ok tt (released i (s.pages i).pp_ref s))
      × FreeList (released i (s.pages i).pp_ref s) (if (s.pages i).pp_ref == 1 then i ∷ xs else xs)
unfolding page_decref
page_decref_lem s i xs inside small unlinked out c = elim (Bool-cases ((s.pages i).pp_ref == 1)) [
  | inl last ↦
      let e : ((s.pages i).pp_ref + 2 ^ 16 - 1) % 2 ^ 16 ≡ 0 = ground arith in
      let chain =
        Chain-update s.npages s.pages s.page_free_list xs i
          (record { pp_link = (s.pages i).pp_link; pp_ref = 0 }) out c in
      let idle : IsIdle ((counted i 0 s).pages i) = ground arith in
      let (run, list) = page_free-cons (counted i 0 s) i xs inside idle out chain in
      let same : (j : ℕ)
          → (freed i (counted i 0 s)).pages j
            ≡ update s.pages i (record { pp_link = s.page_free_list; pp_ref = 0 }) j =
        λ j. ground arith in
      rw last (
        rw (page_at-ok s i inside)
            (simp e (rw (set_ref-ok s i inside 0) (run ∙ ap (ok tt) (list_eq s refl same)))),
        subst (λ p. Chain s.npages p (some i) (i ∷ xs)) (fun_ext same) list,
      )
  | inr more ↦
      let q = ((s.pages i).pp_ref + 2 ^ 16 - 1) % 2 ^ 16 in
      let chain =
        Chain-update s.npages s.pages s.page_free_list xs i
          (record { pp_link = (s.pages i).pp_link; pp_ref = q }) out c in
      let e : (q == 0) ≡ false = ground arith in
      rw more (rw (page_at-ok s i inside, set_ref-ok s i inside q, e), chain)
]
