-- ===== src/Debug/Found.antt =====
-- What `stab_binsearch` finds.
use os.Base.{
  ℕ, suc, ◌+◌, ◌*◌, ◌≤◌, ◌<◌, ◌≡◌, ◌≢◌, ◌⊎◌, refl, inl, inr, Bool, true, false, ltb, ◌==◌,
  if◌then◌else◌, arith, ap, ◌∙◌, sym, Bool-cases, eq→==, ==_iff, ltb→lt, subst, lt→ltb, le→ltb,
}
use os.Base.Int.{ℤ, pos, prev, pos-add, prev-suc, prev-sub}
use os.Debug.{Table, done, ◌>>=◌, scan_back, Region, settle, stab_binsearch}
use os.Debug.Scan.{IsOf, IsLast, scan_back-stop, scan_back_lem}
use os.Debug.Bracket.{IsSorted, IsBracket, at, not_before}
use os.Debug.Round.{search_loop-Ended}

abbrev pub region : ℤ → ℤ → Region
region left right = record { left = left; right = right }

-- `m` is the last of the stabs of the type from `lo` up to `hi` that is not above the address, and
-- `k` is the next one, or the end.
pub record Holds (t : Table) (type lo hi addr m k : ℕ) : Type 0 where
  pub from : lo ≤ m
  pub before : m < k
  pub upto : k ≤ hi
  pub of_type : IsOf t type m
  pub low : (t.stabs m).n_value ≤ addr
  pub between : (j : ℕ) → m < j → j < k → (t.stabs j).n_type ≢ type
  pub next : (k ≡ hi) ⊎ ((k < hi) × IsOf t type k × (addr < (t.stabs k).n_value))

-- The three results for these stabs: there is none; the region is from the last one not above the
-- address up to the next; or all are above, and the region is what is before the first of them.
pub data IsFound (t : Table) (type lo hi addr : ℕ) (r : Region) : Type 0 where
  absent :
      r ≡ region (pos lo) (prev lo)
      → ((j : ℕ) → lo ≤ j → j < hi → (t.stabs j).n_type ≢ type)
      → IsFound t type lo hi addr r
  held :
      (m k : ℕ)
      → r ≡ region (pos m) (prev k)
      → Holds t type lo hi addr m k
      → IsFound t type lo hi addr r
  above :
      (k : ℕ)
      → r ≡ region (if ltb lo k then pos lo else prev lo) (prev k)
      → (lo ≤ k) × (k < hi)
      → IsOf t type k
      → ((j : ℕ) → lo ≤ j → j < k → (t.stabs j).n_type ≢ type)
      → addr < (t.stabs k).n_value
      → IsFound t type lo hi addr r

module _ {t : Table} {type lo hi addr : ℕ} (v : IsSorted t type lo hi addr) {k left a : ℕ}
    (b : IsBracket t type lo hi addr k k left true a) where
  -- With none below the place, the first stab is there.
  first : ((j : ℕ) → lo ≤ j → j < k → (t.stabs j).n_type ≢ type) → (k < hi) × IsOf t type k
  first none_below = elim b.right_is [
    | inr there ↦ there
    | inl end ↦
        let some_stab = b.matched refl in
        absurd
          (none_below (some_stab.0) (some_stab.1) (omega (arith, some_stab.2, end)) (some_stab.3))
  ]

  miss_ne : (i : ℕ) → ((t.stabs i).n_type == type) ≡ false → (t.stabs i).n_type ≢ type
  miss_ne i miss e = cc (eq→== ((t.stabs i).n_type) type e, miss)

  left_place : left ≡ lo → left < k → (if ltb lo k then pos lo else prev lo) ≡ pos left
  left_place start more = rw (lt→ltb lo k (omega (arith, start, more))) (ap pos (sym start))

  above-IsFound :
      ((j : ℕ) → lo ≤ j → j < k → (t.stabs j).n_type ≢ type)
      → IsFound t type lo hi addr (region (if ltb lo k then pos lo else prev lo) (prev k))
  above-IsFound none_below =
      let f = first none_below in
      above k refl (b.from, f.0) (f.1) none_below (b.above k (omega arith) (f.0) (f.1))

  held-IsFound :
      (m : ℕ)
      → lo ≤ m
      → m < k
      → IsOf t type m
      → ((j : ℕ) → m < j → j < k → (t.stabs j).n_type ≢ type)
      → IsFound t type lo hi addr (region (pos m) (prev k))
  held-IsFound m from upto of_type none_between = held m k refl (record {
    from = from;
    before = upto;
    upto = b.upto;
    of_type = of_type;
    low = b.below m from upto of_type;
    between = none_between;
    next = elim b.right_is [
      | inl end ↦ inl end
      | inr (lt, of_next) ↦ inr (lt, of_next, b.above k (omega arith) lt of_next)
    ];
  })

  -- The last scan came to `found`.
  last-IsFound :
      (found : ℕ)
      → left < k
      → IsLast t type (left + 1) k found
      → IsFound t type lo hi addr (region (prev found) (prev k))
  last-IsFound found more last = elim last.hit [
    | inr (m, is_m, from, of_type) ↦
        subst (λ x. IsFound t type lo hi addr (region x (prev k))) (sym (ap prev is_m ∙ prev-suc m))
          (held-IsFound m (omega (arith, b.left_from, from)) (omega (arith, last.found_le, is_m))
            of_type (λ j after before. last.others j (omega (arith, is_m, after)) before))
    | inl none_found ↦
        let empty : (j : ℕ) → left < j → j < k → (t.stabs j).n_type ≢ type =
          λ j after before. last.others j (omega (arith, none_found, after)) before in
        subst (λ x. IsFound t type lo hi addr (region x (prev k)))
          (sym (ap prev {x = found} {y = suc left} (omega (arith, none_found)) ∙ prev-suc left))
          (elim (Bool-cases ((t.stabs left).n_type == type)) [
            | inl hit ↦
                held-IsFound left b.left_from more ((==_iff ((t.stabs left).n_type) type).0 hit)
                  empty
            | inr miss ↦ elim b.left_is [
              | inr (_, of_type, _) ↦ absurd (miss_ne left miss of_type)
              | inl start ↦
                  subst (λ x. IsFound t type lo hi addr (region x (prev k))) (left_place start more)
                    (above-IsFound (λ j from before. elim (Bool-cases (ltb left j)) [
                      | inl after ↦ empty j (ltb→lt left j after) before
                      | inr same ↦
                          subst (λ i. (t.stabs i).n_type ≢ type)
                            (omega (arith, not_before left j same, start, from)) (miss_ne left miss)
                    ]))
            ]
          ])
  ]

  lowest : k ≤ left → k ≡ lo
  lowest h = elim b.left_is [
    | inl start ↦ omega (arith, start, b.from, h)
    | inr (lt, _, _) ↦ absurd (omega (arith, lt, h))
  ]

  first_place : k ≡ lo → (if ltb lo k then pos lo else prev lo) ≡ prev k
  first_place start = rw (le→ltb lo k (omega (arith, start))) (ap prev (sym start))

  settle-IsFound :
      k ≤ t.count
      → (r : Region) × (settle t type (at k k left true a) ≡ done r) × IsFound t type lo hi addr r
  unfolding settle
  settle-IsFound inside = elim (Bool-cases (ltb left k)) [
    | inl more ↦
        let scan =
          scan_back_lem t type (t.count + 2) (left + 1) k (omega (arith, ltb→lt left k more)) inside
            (omega (arith, inside)) in
        (
          region (prev (scan.0)) (prev k),
          rw (pos-add, scan.1, ◌>>=◌) refl,
          last-IsFound (scan.0) (ltb→lt left k more) (scan.2),
        )
    | inr none_left ↦
        let stopped : scan_back t type (t.count + 2) (pos (left + 1)) (prev k) ≡ done (prev k) =
          ap (λ f. scan_back t type f (pos (left + 1)) (prev k)) {x = t.count + 2}
            {y = suc (t.count + 1)} (omega arith)
          ∙ scan_back-stop t type (t.count + 1) (left + 1) k
              (omega (arith, not_before left k none_left)) in
        let start : k ≡ lo = lowest (not_before left k none_left) in
        (
          region (prev k) (prev k),
          rw (pos-add, stopped, ◌>>=◌) refl,
          subst (λ x. IsFound t type lo hi addr (region x (prev k))) (first_place start)
              (above-IsFound (λ j from before. absurd (omega (arith, start, from, before)))),
        )
  ]

settled :
    {t : Table} {type lo hi addr : ℕ} (v : IsSorted t type lo hi addr) (k left : ℕ) (any : Bool)
    (a : ℕ)
    → IsBracket t type lo hi addr k k left any a
    → (r : Region) × (settle t type (at k k left any a) ≡ done r) × IsFound t type lo hi addr r
unfolding settle
settled v k left true a b = settle-IsFound v b (omega (arith, b.upto, v.inside))
settled {lo = lo} v k left false a b =
    let (whole, none_below) = b.unmatched refl in
    let start : left ≡ lo = elim b.left_is [
      | inl e ↦ e
      | inr (lt, of_type, _) ↦ absurd (none_below left b.left_from lt of_type)
    ] in
    (
      region (pos lo) (prev lo),
      rw (prev-sub, start) refl,
      absent refl (λ j from upto. none_below j from (omega (arith, whole, upto))),
    )

whole-IsBracket :
    {t : Table} {type lo hi addr : ℕ}
    → IsSorted t type lo hi addr
    → IsBracket t type lo hi addr lo hi lo false addr
whole-IsBracket v = record {
  from = omega arith;
  ordered = v.order;
  upto = omega arith;
  below = λ j from lt. absurd (omega (arith, from, lt));
  above = λ j from lt. absurd (omega (arith, from, lt));
  left_from = omega arith;
  left_is = inl refl;
  right_is = inl refl;
  unmatched = λ e. (refl, λ j from lt. absurd (omega (arith, from, lt)));
  matched = λ e. cc;
  current = inl refl;
}

-- On stabs of the type that are in the order of their addresses, where none has the address
-- behind one that has `addr`, `stab_binsearch` ends and reads only the table. With no stab of the
-- type the region is empty. Else it starts at the last one not above the address and ends before
-- the next one; or, if all are above, it is what stands before the first.
pub stab_binsearch-IsFound :
    {t : Table} {type lo hi addr : ℕ}
    → IsSorted t type lo hi addr
    → (r : Region) × (stab_binsearch t (region (pos lo) (prev hi)) type addr ≡ done r)
      × IsFound t type lo hi addr r
unfolding stab_binsearch
stab_binsearch-IsFound {t = t} {type = type} {lo = lo} {hi = hi} {addr = addr} v =
    let e =
      search_loop-Ended v (2 * t.count + 3) lo hi lo false addr (whole-IsBracket v)
        (omega (arith, v.inside)) in
    let (r, stable, found) = settled v (e.k) (e.left) (e.any) (e.a) (
      subst (λ l. IsBracket t type lo hi addr l (e.k) (e.left) (e.any) (e.a)) (e.met)
        (e.bracket)) in
    (
      r,
      rw (e.result, ◌>>=◌)
          (ap (λ l. settle t type (at l (e.k) (e.left) (e.any) (e.a))) (e.met) ∙ stable),
      found,
    )

module _ {t : Table} {type lo hi addr : ℕ} (v : IsSorted t type lo hi addr) where
  -- The last one is one.
  Holds-le : (m k m' k' : ℕ) → Holds t type lo hi addr m k → Holds t type lo hi addr m' k' → m' ≤ m
  Holds-le m k m' k' h h' = elim (Bool-cases (ltb m m')) [
    | inr order ↦ not_before m m' order
    | inl later ↦ elim (Bool-cases (ltb m' k)) [
      | inl within ↦ absurd (h.between m' (ltb→lt m m' later) (ltb→lt m' k within) h'.of_type)
      | inr behind ↦ elim h.next [
        | inl end ↦ absurd (omega (arith, end, h'.before, h'.upto, not_before m' k behind))
        | inr (lt, of_next, high) ↦ absurd (
            omega (
              arith,
              v.sorted k m' (omega (arith, h.from, h.before)) (not_before m' k behind)
                  (omega (arith, h'.before, h'.upto)) of_next h'.of_type,
              high,
              h'.low,
            ))
      ]
    ]
  ]

  Holds-end-le : (m k k' : ℕ) → Holds t type lo hi addr m k → Holds t type lo hi addr m k' → k' ≤ k
  Holds-end-le m k k' h h' = elim (Bool-cases (ltb k k')) [
    | inr order ↦ not_before k k' order
    | inl later ↦ elim h.next [
      | inl end ↦ absurd (omega (arith, end, h'.upto, ltb→lt k k' later))
      | inr (lt, of_next, high) ↦ absurd (h'.between k h.before (ltb→lt k k' later) of_next)
    ]
  ]

  Holds-unique :
      (m k : ℕ) (r : Region)
      → Holds t type lo hi addr m k
      → IsFound t type lo hi addr r
      → r ≡ region (pos m) (prev k)
  Holds-unique m k r h (absent e none_at_all) =
      absurd (none_at_all m h.from (omega (arith, h.before, h.upto)) h.of_type)
  Holds-unique m k r h (held m' k' e h') =
      let same : m' ≡ m = omega (arith, Holds-le m k m' k' h h', Holds-le m' k' m k h' h) in
      let h'' = subst (λ i. Holds t type lo hi addr i k') same h' in
      let end : k' ≡ k = omega (arith, Holds-end-le m k k' h h'', Holds-end-le m k' k h'' h) in
      e ∙ ap (λ i. region (pos i) (prev k')) same ∙ ap (λ i. region (pos m) (prev i)) end
  Holds-unique m k r h (above k' e bounds of_first none_before high) =
      elim (Bool-cases (ltb m k')) [
        | inl early ↦ absurd (none_before m h.from (ltb→lt m k' early) h.of_type)
        | inr late ↦ absurd (
            omega (
              arith,
              v.sorted k' m (bounds.0) (not_before m k' late) (omega (arith, h.before, h.upto))
                  of_first h.of_type,
              high,
              h.low,
            ))
      ]

  -- Where a stab of the type is at or below the address, the search finds the last one.
  pub stab_binsearch-Holds :
      (m k : ℕ)
      → Holds t type lo hi addr m k
      → stab_binsearch t (region (pos lo) (prev hi)) type addr ≡ done (region (pos m) (prev k))
  stab_binsearch-Holds m k h =
      let s = stab_binsearch-IsFound v in s.1 ∙ ap done (Holds-unique m k (s.0) h (s.2))
