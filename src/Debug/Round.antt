-- ===== src/Debug/Round.antt =====
-- One round of the search of `stab_binsearch`, and the loop.
use os.Base.{
  ℕ, zero, suc, ◌+◌, ◌-◌, ◌*◌, ◌/◌, ◌≤◌, ◌<◌, ◌^◌, ◌≡◌, refl, inl, inr, Bool, true, false, ltb,
  add32, arith, ap, ◌∙◌, Bool-cases, ltb→lt, lt→ltb, le→ltb, subst,
}
use os.Base.Int.{
  pos, ◌+ℤ◌, half, leb_ℤ, ltb_ℤ, prev, leb-prev, ltb-prev, prev-suc, prev-sub, pos-add, half_middle,
}
use os.Debug.{
  Stab, Table, Run, done, ◌>>=◌, stab_at, scan_back, Search, narrow, search_round, search_loop,
}
use os.Debug.Scan.{IsOf, IsLast, stab_at_lem, scan_back_lem}
use os.Debug.Bracket.{
  IsSorted, IsBracket, at, low-IsBracket, exact-IsBracket, high-IsBracket, none-IsBracket,
}

-- The middle of a region, and the place behind it.
abbrev middle : ℕ → ℕ → ℕ
middle l k = (l + k - 1) / 2

module _ (t : Table) (type l k left : ℕ) (any : Bool) (a : ℕ) (more : l < k)
    (fits : k ≤ t.count) where
  scan_middle :
      (found : ℕ)
      → scan_back t type (t.count + 2) (pos l) (prev (middle l k + 1)) ≡ done (prev found)
      → scan_back t type (t.count + 2) (pos l) (half (pos l +ℤ prev k)) ≡ done (prev found)
  scan_middle found e = rw (half_middle l k more) (
      ap (scan_back t type (t.count + 2) (pos l)) {x = pos (middle l k)} {y = prev (middle l k + 1)}
        (ground arith)
      ∙ e)

  round-none :
      scan_back t type (t.count + 2) (pos l) (prev (middle l k + 1)) ≡ done (prev l)
      → search_round t type (at l k left any a) ≡ done (at (middle l k + 1) k left any a)
  unfolding search_round
  round-none e =
      let below : ltb_ℤ (prev l) (pos l) ≡ true = ltb-prev l l ∙ ground arith in
      rw (scan_middle l e, ◌>>=◌, below, half_middle l k more, pos-add) refl

  round-found :
      (m : ℕ)
      → scan_back t type (t.count + 2) (pos l) (prev (middle l k + 1)) ≡ done (prev (suc m))
      → l ≤ m
      → m < t.count
      → search_round t type (at l k left any a)
        ≡ done (narrow (pos (middle l k)) (pos m) (t.stabs m) (at l k left any a))
  unfolding search_round
  round-found m e order inside =
      let test : ltb_ℤ (prev (suc m)) (pos l) ≡ false =
        ltb-prev l (suc m) ∙ ground (arith, order) in
      let found : stab_at t (prev (suc m)) ≡ done (t.stabs m) =
        ap (stab_at t) (prev-suc m) ∙ stab_at_lem t m inside in
      rw (scan_middle (suc m) e, ◌>>=◌, test, found, ◌>>=◌, half_middle l k more)
        (ap (λ p. done (narrow (pos (middle l k)) p (t.stabs m) (at l k left any a))) (prev-suc m))

module _ (l k left : ℕ) (any : Bool) (a tm m : ℕ) (s : Stab) where
  narrow-lt : s.n_value < a → narrow (pos tm) (pos m) s (at l k left any a) ≡ at (tm + 1) k m true a
  unfolding narrow
  narrow-lt h = rw (narrow, lt→ltb (s.n_value) a h, pos-add) refl

  narrow-gt : a < s.n_value → narrow (pos tm) (pos m) s (at l k left any a) ≡ at l m left true a
  unfolding narrow
  narrow-gt h =
      rw (narrow, le→ltb (s.n_value) a (omega (arith, h)), lt→ltb a (s.n_value) h, prev-sub) refl

  narrow-eq :
      s.n_value ≡ a
      → a + 1 < 2 ^ 32
      → narrow (pos tm) (pos m) s (at l k left any a) ≡ at m k m true (a + 1)
  unfolding narrow
  narrow-eq h small =
      rw (narrow, le→ltb (s.n_value) a (omega (arith, h)), le→ltb a (s.n_value) (omega (arith, h)))
        (ap (at m k m true) {x = add32 a 1} {y = a + 1} (omega (arith, small)))

-- Where a round comes to.
record Next (t : Table) (type lo hi addr size : ℕ) (r : Run Search) : Type 0 where
  l : ℕ
  k : ℕ
  left : ℕ
  any : Bool
  a : ℕ
  result : r ≡ done (at l k left any a)
  bracket : IsBracket t type lo hi addr l k left any a
  smaller : 2 * (k - l) + (addr + 1 - a) < size

module _ {t : Table} {type lo hi addr : ℕ} (v : IsSorted t type lo hi addr) (l k left : ℕ)
    (any : Bool) (a : ℕ) (b : IsBracket t type lo hi addr l k left any a) (more : l < k) where
  inside : k ≤ t.count
  inside = omega (arith, b.upto, v.inside)

  a_bounds : (addr ≤ a) × (a ≤ addr + 1)
  a_bounds = elim b.current [ inl e ↦ omega (arith, e) | inr (e, _) ↦ omega (arith, e) ]

  none-Next :
      scan_back t type (t.count + 2) (pos l) (prev (middle l k + 1)) ≡ done (prev l)
      → IsLast t type l (middle l k + 1) l
      → Next t type lo hi addr
          (2 * (k - l) + (addr + 1 - a))
          (search_round t type (at l k left any a))
  none-Next e last = record {
    l = middle l k + 1;
    k = k;
    left = left;
    any = any;
    a = a;
    result = round-none t type l k left any a more inside e;
    bracket = none-IsBracket b last more;
    smaller = omega (arith, more);
  }

  module _ (m : ℕ)
      (e : scan_back t type (t.count + 2) (pos l) (prev (middle l k + 1)) ≡ done (prev (suc m)))
      (last : IsLast t type l (middle l k + 1) (suc m)) (fresh : l ≤ m)
      (of_type : IsOf t type m) where
    m_le : m ≤ middle l k
    m_le = omega (arith, last.found_le)

    found :
        search_round t type (at l k left any a)
        ≡ done (narrow (pos (middle l k)) (pos m) (t.stabs m) (at l k left any a))
    found = round-found t type l k left any a more inside m e fresh (omega (arith, m_le, inside))

    some-Next :
        Next t type lo hi addr
          (2 * (k - l) + (addr + 1 - a))
          (search_round t type (at l k left any a))
    some-Next = elim (Bool-cases (ltb ((t.stabs m).n_value) a)) [
      | inl low ↦ record {
        l = middle l k + 1;
        k = k;
        left = m;
        any = true;
        a = a;
        result =
            found ∙ ap done (narrow-lt l k left any a (middle l k) m (t.stabs m) (ltb→lt _ _ low));
        bracket =
            low-IsBracket v b m last more fresh of_type (omega (arith, ltb→lt _ _ low, a_bounds.1));
        smaller = omega (arith, more);
      }
      | inr not_low ↦ elim (Bool-cases (ltb a ((t.stabs m).n_value))) [
        | inl high ↦ record {
          l = l;
          k = m;
          left = left;
          any = true;
          a = a;
          result =
              found
              ∙ ap done (narrow-gt l k left any a (middle l k) m (t.stabs m) (ltb→lt _ _ high));
          bracket =
              high-IsBracket v b m last more fresh of_type
                (omega (arith, ltb→lt _ _ high, a_bounds.0));
          smaller = omega (arith, more, m_le);
        }
        | inr not_high ↦
            let same : (t.stabs m).n_value ≡ a = ground (arith, not_low, not_high) in
            elim b.current [
              | inl first ↦ record {
                l = m;
                k = k;
                left = m;
                any = true;
                a = addr + 1;
                result =
                    found
                    ∙ ap done (
                        narrow-eq l k left any a (middle l k) m (t.stabs m) same
                          (omega (arith, first, v.small))
                        ∙ ap (λ x. at m k m true (x + 1)) first);
                bracket = exact-IsBracket v b m last more fresh of_type (same ∙ first);
                smaller = omega (arith, first, fresh, m_le, more);
              }
              | inr (second, (i, from, upto, of_i, value)) ↦ absurd (
                  v.apart i m from upto (omega (arith, b.from, fresh))
                    (omega (arith, m_le, b.upto, more)) of_i of_type value (same ∙ second))
            ]
      ]
    ]

  scanned-Next :
      (place : ℕ)
      → scan_back t type (t.count + 2) (pos l) (prev (middle l k + 1)) ≡ done (prev place)
      → IsLast t type l (middle l k + 1) place
      → Next t type lo hi addr
          (2 * (k - l) + (addr + 1 - a))
          (search_round t type (at l k left any a))
  scanned-Next place e last = elim last.hit [
    | inl none_found ↦
        none-Next (e ∙ ap (λ f. done (prev f)) none_found)
          (subst (IsLast t type l (middle l k + 1)) none_found last)
    | inr (m, is_m, order, of_type) ↦
        some-Next m (e ∙ ap (λ f. done (prev f)) is_m)
          (subst (IsLast t type l (middle l k + 1)) is_m last) order of_type
  ]

  round-Next :
      Next t type lo hi addr
        (2 * (k - l) + (addr + 1 - a))
        (search_round t type (at l k left any a))
  round-Next =
      let scan =
        scan_back_lem t type (t.count + 2) l (middle l k + 1) (omega arith)
          (omega (arith, inside, more)) (omega (arith, inside, more)) in
      scanned-Next (scan.0) (scan.1) (scan.2)

-- Where the loop ends: nothing is left between.
pub record Ended (t : Table) (type lo hi addr : ℕ) (r : Run Search) : Type 0 where
  pub l : ℕ
  pub k : ℕ
  pub left : ℕ
  pub any : Bool
  pub a : ℕ
  pub result : r ≡ done (at l k left any a)
  pub bracket : IsBracket t type lo hi addr l k left any a
  pub met : l ≡ k

pub search_loop-Ended :
    {t : Table} {type lo hi addr : ℕ} (v : IsSorted t type lo hi addr) (fuel l k left : ℕ)
    (any : Bool) (a : ℕ)
    → IsBracket t type lo hi addr l k left any a
    → 2 * (k - l) + (addr + 1 - a) < fuel
    → Ended t type lo hi addr (search_loop t type fuel (at l k left any a))
unfolding search_loop
search_loop-Ended v zero l k left any a b enough = absurd (omega arith)
search_loop-Ended {t = t} {type = type} v (suc fuel) l k left any a b enough =
    elim (Bool-cases (ltb l k)) [
      | inr stop ↦ record {
        l = l;
        k = k;
        left = left;
        any = any;
        a = a;
        result =
            let test : leb_ℤ (pos l) (prev k) ≡ false = leb-prev l k ∙ stop in
            rw (search_loop, test) refl;
        bracket = b;
        met = ground (arith, stop, b.ordered);
      }
      | inl more ↦
          let test : leb_ℤ (pos l) (prev k) ≡ true = leb-prev l k ∙ more in
          let next = round-Next v l k left any a b (ltb→lt l k more) in
          let later =
            search_loop-Ended v fuel (next.l) (next.k) (next.left) (next.any) (next.a)
              (next.bracket) (omega (arith, next.smaller, enough)) in
          record {
            l = later.l;
            k = later.k;
            left = later.left;
            any = later.any;
            a = later.a;
            result = rw (search_loop, test, next.result, ◌>>=◌) later.result;
            bracket = later.bracket;
            met = later.met;
          }
    ]
