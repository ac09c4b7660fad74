-- ===== src/Pmap/Pages/Init.antt =====
-- `page_init` as a whole: which pages are free afterwards, in which order, and which are in use.
use os.Base.{
  ℕ, zero, suc, ◌+◌, ◌<◌, ◌≤◌, ◌≡◌, refl, inl, inr, Bool, true, false, ◌&&◌, Option, none, some,
  List, [], ◌∷◌, ltb, leb, if◌then◌else◌, arith, ap, ◌∙◌, Bool-cases, not, lt→ltb,
}
use os.Pmap.State.{PageInfo, Kernel, ok, update}
use os.Pmap.State.Rules.{list_eq, set_link-ok, set_ref-ok}
use os.Pmap.Pages.{Slot, head, link_of, init_loop, sweep, page_init}
use os.Pmap.Pages.Chain.{has, Chain, FreeList}
use os.Pmap.Pages.Sweep.{
  slot_value, put_head, put_link, put, IsAbove, reserved, dropped, IsBooted, sweep-end, sweep-drop,
  sweep-keep,
}

abbrev pub below : ℕ → Option ℕ
below zero = none
below (suc i) = some i

-- Of the pages below `i`, those that are not reserved, the highest first; and the first of them.
abbrev pub kept : (ℕ → Bool) → ℕ → List ℕ
kept r zero = []
kept r (suc i) = if r i then kept r i else i ∷ kept r i

abbrev pub top : (ℕ → Bool) → ℕ → Option ℕ
top r zero = none
top r (suc i) = if r i then top r i else some i

-- What becomes of page `i`.
abbrev pub settled : (ℕ → Bool) → ℕ → PageInfo
settled r i =
    if r i then record { pp_link = none; pp_ref = 1 } else record { pp_link = top r i; pp_ref = 0 }

-- The state of the second loop's variables, and of the pages below `i`, when it ends.
abbrev swept : (ℕ → Bool) → ℕ → Slot → Kernel → Kernel
swept r i slot s =
    put slot (top r i) (record s { pages = λ j. if ltb j i then settled r j else s.pages j })

-- The three ways in which the loop gets there.
nothing_swept :
    (f : ℕ → Bool) (slot : Slot) (s : Kernel) → slot_value slot s ≡ none → s ≡ swept f 0 slot s
nothing_swept f head s e = list_eq s e (λ j. ground arith)
nothing_swept f (link_of k) s e = list_eq s refl (λ j. ground arith)

put_head_twice :
    (slot : Slot) (l t first : Option ℕ)
    → put_head slot t (put_head slot l first) ≡ put_head slot t first
put_head_twice head l t first = refl
put_head_twice (link_of k) l t first = refl

module _ (f : ℕ → Bool) (i : ℕ) (s : Kernel) where
  drop_pages :
      (slot : Slot) (t : Option ℕ)
      → IsAbove s.npages (suc i) slot
      → f i ≡ true
      → (j : ℕ)
      → put_link slot t (λ k. if ltb k i then settled f k else (dropped slot i s).pages k) j
        ≡ put_link slot t (λ k. if ltb k (suc i) then settled f k else s.pages k) j
  drop_pages head t a r j = ground arith
  drop_pages (link_of k) t a r j = ground arith

  keep_pages :
      (slot : Slot)
      → IsAbove s.npages (suc i) slot
      → f i ≡ false
      → slot_value slot s ≡ some i
      → (s.pages i).pp_ref ≡ 0
      → (j : ℕ)
      → put_link (link_of i) (top f i) (λ k. if ltb k i then settled f k else s.pages k) j
        ≡ put_link slot (some i) (λ k. if ltb k (suc i) then settled f k else s.pages k) j
  keep_pages head a r here e j = ground arith
  keep_pages (link_of k) a r here e j = ground arith

  keep_head :
      (slot : Slot)
      → slot_value slot s ≡ some i
      → s.page_free_list ≡ put_head slot (some i) s.page_free_list
  keep_head head here = here
  keep_head (link_of k) here = refl

  module _ (slot : Slot) (a : IsAbove s.npages (suc i) slot) where
    swept-drop : f i ≡ true → swept f i slot (dropped slot i s) ≡ swept f (suc i) slot s
    swept-drop r =
        let e : top f i ≡ top f (suc i) = rw r refl in
        list_eq s (put_head_twice slot (s.pages i).pp_link (top f i) s.page_free_list)
          (drop_pages slot (top f i) a r)
        ∙ ap
            (λ t.
              put slot t
                (record s { pages = λ j. if ltb j (suc i) then settled f j else s.pages j }))
            e

    swept-keep :
        f i ≡ false
        → slot_value slot s ≡ some i
        → (s.pages i).pp_ref ≡ 0
        → swept f i (link_of i) s ≡ swept f (suc i) slot s
    swept-keep r here unused =
        let e : some i ≡ top f (suc i) = rw r refl in
        list_eq s (keep_head slot here) (keep_pages slot a r here unused)
        ∙ ap
            (λ t.
              put slot t
                (record s { pages = λ j. if ltb j (suc i) then settled f j else s.pages j }))
            e

abbrev blank : ℕ → Kernel → Kernel
blank i s = record s { pages = update s.pages i (record { pp_link = none; pp_ref = 1 }) }

slot_value-put : (slot : Slot) (l : Option ℕ) (s : Kernel) → slot_value slot (put slot l s) ≡ l
slot_value-put head l s = refl
slot_value-put (link_of k) l s = ground arith

IsAbove-pred : (n i : ℕ) (slot : Slot) → IsAbove n (suc i) slot → IsAbove n i slot
IsAbove-pred n i head a = a
IsAbove-pred n i (link_of k) a = omega arith

dropped_below :
    (slot : Slot) (i j : ℕ) (s : Kernel)
    → IsAbove s.npages (suc i) slot
    → j < i
    → (dropped slot i s).pages j ≡ s.pages j
dropped_below head i j s a h = ground arith
dropped_below (link_of k) i j s a h = ground arith

sweep-swept :
    (i fuel : ℕ) (s : Kernel) (slot : Slot)
    → IsBooted s
    → IsAbove s.npages i slot
    → i ≤ s.npages
    → slot_value slot s ≡ below i
    → ((j : ℕ) → j < i → s.pages j ≡ record { pp_link = below j; pp_ref = 0 })
    → i < fuel
    → sweep fuel slot s ≡ ok tt (swept (reserved s.nextfree) i slot s)
sweep-swept i zero s slot v a le here fresh enough = absurd (omega arith)
sweep-swept zero (suc fuel) s slot v a le here fresh enough =
    sweep-end s fuel 0 slot a here ∙ ap (ok tt) (nothing_swept (reserved s.nextfree) slot s here)
sweep-swept (suc i) (suc fuel) s slot v a le here fresh enough =
    elim (Bool-cases (reserved s.nextfree i)) [
      | inl r ↦
          let first = slot_value-put slot (s.pages i).pp_link (blank i s) ∙ link in
          let ih =
            sweep-swept i fuel (dropped slot i s) slot (booted v) (IsAbove-pred s.npages i slot a)
              (omega arith) first (λ j h. dropped_below slot i j s a h ∙ fresh j (omega arith))
              (omega arith) in
          sweep-drop s fuel i slot v a here le r
          ∙ ih
          ∙ ap (ok tt) (swept-drop (reserved s.nextfree) i s slot a r)
      | inr r ↦
          let ih =
            sweep-swept i fuel s (link_of i) v (omega arith) (omega arith) link
              (λ j h. fresh j (omega arith)) (omega arith) in
          sweep-keep s fuel i slot v a here le r
          ∙ ih
          ∙ ap (ok tt) (
              swept-keep (reserved s.nextfree) i s slot a r here
                (ap (λ (p : PageInfo). p.pp_ref) (fresh i (omega arith))))
    ]
  where
    link : (s.pages i).pp_link ≡ below i
    link = ap (λ (p : PageInfo). p.pp_link) (fresh i (omega arith))

    booted : IsBooted s → IsBooted (dropped slot i s)
    booted b = record { small = b.small; started = b.started; above = b.above; below = b.below }

-- The first loop links every page to the one below it.
abbrev linked : ℕ → ℕ → Kernel → Kernel
linked i left s = record s {
  page_free_list = below (i + left);
  pages = λ j.
      if leb i j && ltb j (i + left) then record { pp_link = below j; pp_ref = 0 } else s.pages j;
}

abbrev unused : ℕ → Kernel → Kernel
unused i s = record s {
  pages = update s.pages i (record { pp_link = (s.pages i).pp_link; pp_ref = 0 });
}

abbrev pushed : ℕ → Kernel → Kernel
pushed i s = record s {
  page_free_list = some i;
  pages =
      update (unused i s).pages i
        (record { pp_link = s.page_free_list; pp_ref = ((unused i s).pages i).pp_ref });
}

init_loop-linked :
    (left i : ℕ) (s : Kernel)
    → i + left ≤ s.npages
    → s.page_free_list ≡ below i
    → init_loop left i s ≡ ok tt (linked i left s)
unfolding init_loop
init_loop-linked zero i s le e =
    ap (ok tt) (list_eq s (e ∙ ap below (omega arith)) (λ j. ground arith))
init_loop-linked (suc left) i s le e =
    rw
      (
        set_ref-ok s i (omega (arith, le)) 0,
        set_link-ok (unused i s) i (omega (arith, le)) s.page_free_list,
      )
      (init_loop-linked left (i + 1) (pushed i s) (omega (arith, le))
          (ap below {x = suc i} {y = i + 1} (omega arith))
        ∙ ap (ok tt) (list_eq s (ap below (omega arith)) (λ j. ground (arith, e))))

-- What `page_init` leaves: the list of the pages that are not reserved, the highest first, and
-- every page settled.
abbrev pub initialised : Kernel → Kernel
initialised s = record s {
  page_free_list = top (reserved s.nextfree) s.npages;
  pages = λ j. if ltb j s.npages then settled (reserved s.nextfree) j else s.pages j;
}

page_init-ok :
    (s : Kernel) → IsBooted s → s.page_free_list ≡ none → page_init s ≡ ok tt (initialised s)
unfolding page_init
page_init-ok s v e = rw (init_loop-linked s.npages 0 s (omega arith) e) (
    sweep-swept s.npages (s.npages + 1) (linked 0 s.npages s) head
      (record { small = v.small; started = v.started; above = v.above; below = v.below }) tt
      (omega arith) (ap below (omega arith)) (λ j h. ground arith) (omega arith)
    ∙ ap (ok tt) (list_eq s refl (λ j. ground arith)))

module _ (r : ℕ → Bool) where
  has-kept : (i j : ℕ) → i ≤ j → has j (kept r i) ≡ false
  has-kept zero j h = refl
  has-kept (suc i) j h = ground (arith, has-kept i j (omega arith))

  kept-Chain :
      (n : ℕ) (pages : ℕ → PageInfo)
      → ((j : ℕ) → j < n → pages j ≡ settled r j)
      → (i : ℕ) → i ≤ n
      → Chain n pages (top r i) (kept r i)
  kept-Chain n pages h zero le = refl
  kept-Chain n pages h (suc i) le = elim (Bool-cases (r i)) [
    | inl held ↦ rw held (kept-Chain n pages h i (omega arith))
    | inr free ↦
        let e : pages i ≡ record { pp_link = top r i; pp_ref = 0 } = h i le ∙ rw free refl in
        rw (free, e)
          (refl, le, refl, has-kept i i (omega arith), kept-Chain n pages h i (omega arith))
  ]

has-kept_iff : (r : ℕ → Bool) (i j : ℕ) → has j (kept r i) ≡ (ltb j i && not (r j))
has-kept_iff r zero j = ground arith
has-kept_iff r (suc i) j = ground (arith, has-kept_iff r i j)

-- `page_init` ends. Then the free list is well formed and holds exactly the pages of the machine
-- that are not reserved, that is, all but page 0 and those from the I/O hole to the first address
-- that `boot_alloc` has not handed out; and page `j` is settled: with count 1 and no link if it is
-- reserved, else with count 0 and linked to the next lower free page.
pub page_init_lem :
    (s : Kernel) (j : ℕ)
    → IsBooted s
    → s.page_free_list ≡ none
    → j < s.npages
    → (page_init s ≡ ok tt (initialised s))
      × FreeList (initialised s) (kept (reserved s.nextfree) s.npages)
      × (has j (kept (reserved s.nextfree) s.npages) ≡ not (reserved s.nextfree j))
      × ((initialised s).pages j ≡ settled (reserved s.nextfree) j)
page_init_lem s j v e h = (
  page_init-ok s v e,
  kept-Chain (reserved s.nextfree) s.npages (initialised s).pages (λ k l. ground arith) s.npages
      (omega arith),
  has-kept_iff (reserved s.nextfree) s.npages j
      ∙ ap (λ b. b && not (reserved s.nextfree j)) (lt→ltb j s.npages h),
  ground arith,
)
