-- ===== src/Debug/Scan.antt =====
-- The loops of `stab_binsearch` that go down to a stab of the type.
use os.Base.{
  ℕ, zero, suc, ◌≤◌, ◌<◌, ◌≡◌, ◌≢◌, ◌⊎◌, refl, inl, inr, true, false, ltb, ◌==◌, arith, ap, ◌∙◌,
  Bool-cases, ne→==, eq→==, ==_iff,
}
use os.Base.Int.{pos, leb_ℤ, prev, leb-prev, prev-suc, prev-sub}
use os.Debug.{Table, done, ◌>>=◌, stab_at, scan_back}

-- The stab `j` has the type.
abbrev pub IsOf : Table → ℕ → ℕ → Type 0
IsOf t type j = (t.stabs j).n_type ≡ type

-- From `k` on downwards to `low`, `found` is behind the first stab of the type.
pub record IsLast (t : Table) (type low k found : ℕ) : Type 0 where
  pub low_le : low ≤ found
  pub found_le : found ≤ k
  pub others : (j : ℕ) → found ≤ j → j < k → (t.stabs j).n_type ≢ type
  pub hit : (found ≡ low) ⊎ ((j : ℕ) × (found ≡ suc j) × (low ≤ j) × IsOf t type j)

pub stab_at_lem : (t : Table) (i : ℕ) → i < t.count → stab_at t (pos i) ≡ done (t.stabs i)
unfolding stab_at
stab_at_lem t i h = ground arith

module _ (t : Table) (type fuel low : ℕ) where
  pub scan_back-stop :
      (k : ℕ) → k ≤ low → scan_back t type (suc fuel) (pos low) (prev k) ≡ done (prev k)
  unfolding scan_back
  scan_back-stop k h =
      let test : leb_ℤ (pos low) (prev k) ≡ false = leb-prev low k ∙ ground (arith, h) in
      rw (scan_back, test) refl

  scan_back-hit :
      (k : ℕ)
      → low ≤ k
      → k < t.count
      → IsOf t type k
      → scan_back t type (suc fuel) (pos low) (pos k) ≡ done (pos k)
  unfolding scan_back
  scan_back-hit k order inside hit =
      let test : leb_ℤ (pos low) (pos k) ≡ true = ground (arith, order) in
      rw (scan_back, test, stab_at_lem t k inside, ◌>>=◌, eq→== ((t.stabs k).n_type) type hit) refl

  scan_back-miss :
      (k : ℕ)
      → low ≤ k
      → k < t.count
      → (t.stabs k).n_type ≢ type
      → scan_back t type (suc fuel) (pos low) (pos k) ≡ scan_back t type fuel (pos low) (prev k)
  unfolding scan_back
  scan_back-miss k order inside miss =
      let test : leb_ℤ (pos low) (pos k) ≡ true = ground (arith, order) in
      rw (scan_back, test, stab_at_lem t k inside, ◌>>=◌, ne→== ((t.stabs k).n_type) type miss)
        (ap (scan_back t type fuel (pos low)) (prev-sub k))

pub scan_back_lem :
    (t : Table) (type fuel low k : ℕ)
    → low ≤ k
    → k ≤ t.count
    → k < fuel
    → (found : ℕ) × (scan_back t type fuel (pos low) (prev k) ≡ done (prev found))
      × IsLast t type low k found
scan_back_lem t type zero low k order inside enough = absurd (omega arith)
scan_back_lem t type (suc fuel) low zero order inside enough = (
  zero,
  scan_back-stop t type fuel low zero (omega arith),
  record {
    low_le = order;
    found_le = omega arith;
    others = λ j h lt. absurd (omega arith);
    hit = inl (omega arith);
  },
)
scan_back_lem t type (suc fuel) low (suc k) order inside enough =
    elim (Bool-cases (ltb low (suc k))) [
      | inr stop ↦
          let same : low ≡ suc k = ground (arith, stop, order) in
          (
            suc k,
            scan_back-stop t type fuel low (suc k) (omega arith),
            record {
              low_le = order;
              found_le = omega arith;
              others = λ j h lt. absurd (omega arith);
              hit = inl (omega arith);
            },
          )
      | inl more ↦
          let below : low ≤ k = ground (arith, more) in
          elim (Bool-cases ((t.stabs k).n_type == type)) [
            | inl hit ↦
                let of_type : IsOf t type k = (==_iff ((t.stabs k).n_type) type).0 hit in
                (
                  suc k,
                  rw prev-suc (scan_back-hit t type fuel low k below (omega arith) of_type),
                  record {
                    low_le = order;
                    found_le = omega arith;
                    others = λ j h lt. absurd (omega arith);
                    hit = inr (k, refl, below, of_type);
                  },
                )
            | inr miss ↦
                let not_of : (t.stabs k).n_type ≢ type =
                  λ e. cc (eq→== ((t.stabs k).n_type) type e, miss) in
                let later = scan_back_lem t type fuel low k below (omega arith) (omega arith) in
                (
                  later.0,
                  rw prev-suc
                      (scan_back-miss t type fuel low k below (omega arith) not_of ∙ later.1),
                  record {
                    low_le = later.2.low_le;
                    found_le = omega (arith, later.2.found_le);
                    others = λ j h lt. elim (Bool-cases (ltb j k)) [
                      | inl before ↦ later.2.others j h (ground (arith, before))
                      | inr same ↦ let e : j ≡ k = ground (arith, same, lt) in rw e not_of
                    ];
                    hit = later.2.hit;
                  },
                )
          ]
    ]
