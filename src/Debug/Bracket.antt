-- ===== src/Debug/Bracket.antt =====
-- The search of `stab_binsearch`: its invariant, round by round.
use os.Base.{
  ℕ, suc, ◌+◌, ◌-◌, ◌/◌, ◌≤◌, ◌<◌, ◌^◌, ◌≡◌, ◌≢◌, ◌⊎◌, refl, inl, inr, Bool, true, false, ltb, leb,
  arith, Bool-cases, ltb→lt,
}
use os.Base.Int.{pos, prev}
use os.Debug.{Table, Search}
use os.Debug.Scan.{IsOf, IsLast}

-- The stabs of the type in the region from `lo` up to `hi` are in the order of their addresses,
-- and if one has the address then none has the address behind it.
pub record IsSorted (t : Table) (type lo hi addr : ℕ) : Type 0 where
  pub order : lo ≤ hi
  pub inside : hi ≤ t.count
  pub sorted :
      (i j : ℕ)
      → lo ≤ i
      → i ≤ j
      → j < hi
      → IsOf t type i
      → IsOf t type j
      → (t.stabs i).n_value ≤ (t.stabs j).n_value
  pub apart :
      (i j : ℕ)
      → lo ≤ i
      → i < hi
      → lo ≤ j
      → j < hi
      → IsOf t type i
      → IsOf t type j
      → (t.stabs i).n_value ≡ addr
      → (t.stabs j).n_value ≢ addr + 1
  pub small : addr + 1 < 2 ^ 32

-- The search has come to the stabs from `l` up to `k`.
pub record IsBracket (t : Table) (type lo hi addr l k left : ℕ) (any : Bool) (a : ℕ) : Type 0 where
  pub from : lo ≤ l
  pub ordered : l ≤ k
  pub upto : k ≤ hi
  pub below : (j : ℕ) → lo ≤ j → j < l → IsOf t type j → (t.stabs j).n_value ≤ addr
  pub above : (j : ℕ) → k ≤ j → j < hi → IsOf t type j → addr < (t.stabs j).n_value
  pub left_from : lo ≤ left
  pub left_is : (left ≡ lo) ⊎ ((left < k) × IsOf t type left × ((t.stabs left).n_value ≤ addr))
  pub right_is : (k ≡ hi) ⊎ ((k < hi) × IsOf t type k)
  pub unmatched : any ≡ false → (k ≡ hi) × ((j : ℕ) → lo ≤ j → j < l → (t.stabs j).n_type ≢ type)
  pub matched : any ≡ true → (j : ℕ) × (lo ≤ j) × (j < hi) × IsOf t type j
  pub current :
      (a ≡ addr)
      ⊎ ((a ≡ addr + 1)
          × ((i : ℕ) × (lo ≤ i) × (i < hi) × IsOf t type i × ((t.stabs i).n_value ≡ addr)))

pub not_before : (j m : ℕ) → ltb j m ≡ false → m ≤ j
not_before j m h = ground (arith, h)

before_le : (j m : ℕ) → leb j m ≡ true → j ≤ m
before_le j m h = ground (arith, h)

-- The state of the search at such a place.
abbrev pub at : ℕ → ℕ → ℕ → Bool → ℕ → Search
at l k left any a = record {
  l = pos l;
  r = prev k;
  any_matches = any;
  region_left = pos left;
  region_right = prev k;
  addr = a;
}

module _ {t : Table} {type lo hi addr : ℕ} (v : IsSorted t type lo hi addr) {l k left : ℕ}
    {any : Bool} {a : ℕ} (b : IsBracket t type lo hi addr l k left any a) (m : ℕ)
    (here : IsLast t type l ((l + k - 1) / 2 + 1) (suc m)) (more : l < k) (fresh : l ≤ m)
    (of_type : IsOf t type m) where
  middle : m ≤ (l + k - 1) / 2
  middle = omega (arith, here.found_le)

  -- `m` is below the address: all up to the middle are.
  pub low-IsBracket :
      (t.stabs m).n_value ≤ addr → IsBracket t type lo hi addr ((l + k - 1) / 2 + 1) k m true a
  low-IsBracket low = record {
    from = omega (arith, b.from);
    ordered = omega (arith, b.ordered);
    upto = b.upto;
    below = λ j from lt e. elim (Bool-cases (leb j m)) [
      | inl before ↦ omega (
        arith,
        v.sorted j m from (omega (arith, before_le j m before)) (omega (arith, middle, b.upto)) e
            of_type,
        low,
      )
      | inr after ↦ absurd (here.others j (ground (arith, after)) lt e)
    ];
    above = b.above;
    left_from = omega (arith, b.from);
    left_is = inr (omega (arith, middle), of_type, low);
    right_is = b.right_is;
    unmatched = λ e. cc;
    matched = λ e. (m, omega (arith, b.from), omega (arith, middle, b.upto), of_type);
    current = b.current;
  }

  -- `m` is at the address: the search goes on from there for the address behind.
  pub exact-IsBracket :
      (t.stabs m).n_value ≡ addr → IsBracket t type lo hi addr m k m true (addr + 1)
  exact-IsBracket same = record {
    from = omega (arith, b.from, fresh);
    ordered = omega (arith, middle);
    upto = b.upto;
    below = λ j from lt e. omega (
      arith,
      v.sorted j m from (omega (arith, lt)) (omega (arith, middle, b.upto)) e of_type,
      same,
    );
    above = b.above;
    left_from = omega (arith, b.from, fresh);
    left_is = inr (omega (arith, middle), of_type, omega (arith, same));
    right_is = b.right_is;
    unmatched = λ e. cc;
    matched = λ e. (m, omega (arith, b.from, fresh), omega (arith, middle, b.upto), of_type);
    current =
        inr (refl, (m, omega (arith, b.from, fresh), omega (arith, middle, b.upto), of_type, same));
  }

  -- `m` is above the address: all from `m` on are.
  pub high-IsBracket : addr < (t.stabs m).n_value → IsBracket t type lo hi addr l m left true a
  high-IsBracket high = record {
    from = b.from;
    ordered = fresh;
    upto = omega (arith, middle, b.upto);
    below = b.below;
    above = λ j from lt e.
        omega (arith, v.sorted m j (omega (arith, b.from, fresh)) from lt of_type e, high);
    left_from = b.left_from;
    left_is = elim b.left_is [
      | inl start ↦ inl start
      | inr (before, left_of, low) ↦ elim (Bool-cases (ltb left m)) [
        | inl lt ↦ inr (ground (arith, lt), left_of, low)
        | inr ge ↦ absurd (
            omega (
              arith,
              v.sorted m left (omega (arith, b.from, fresh)) (not_before left m ge)
                  (omega (arith, before, b.upto)) of_type left_of,
              low,
              high,
            ))
      ]
    ];
    right_is = inr (omega (arith, middle, b.upto), of_type);
    unmatched = λ e. cc;
    matched = λ e. (m, omega (arith, b.from, fresh), omega (arith, middle, b.upto), of_type);
    current = b.current;
  }

-- There is none up to the middle.
pub none-IsBracket :
    {t : Table} {type lo hi addr : ℕ} {l k left : ℕ} {any : Bool} {a : ℕ}
    (b : IsBracket t type lo hi addr l k left any a)
    → IsLast t type l ((l + k - 1) / 2 + 1) l
    → l < k
    → IsBracket t type lo hi addr ((l + k - 1) / 2 + 1) k left any a
none-IsBracket {l = l} b here more = record {
  from = omega (arith, b.from);
  ordered = omega (arith, b.ordered);
  upto = b.upto;
  below = λ j from lt e. elim (Bool-cases (ltb j l)) [
    | inl before ↦ b.below j from (ltb→lt j l before) e
    | inr after ↦ absurd (here.others j (not_before j l after) lt e)
  ];
  above = b.above;
  left_from = b.left_from;
  left_is = b.left_is;
  right_is = b.right_is;
  unmatched = λ no_match. (
    (b.unmatched no_match).0,
    λ j from lt. elim (Bool-cases (ltb j l)) [
      | inl before ↦ (b.unmatched no_match).1 j from (ltb→lt j l before)
      | inr after ↦ here.others j (not_before j l after) lt
    ],
  );
  matched = b.matched;
  current = b.current;
}
