-- ===== src/Debug.antt =====
-- kern/kdebug.c: the search in the table of stabs. An `int` is an integer: the indices of a table
-- in memory are far from its ends.
pub mod Scan
pub mod Bracket
pub mod Round
pub mod Found
pub mod Eip
pub mod Loops
pub mod Answer
pub mod Outside
pub mod Tests
use os.Base.{ℕ, zero, suc, ◌+◌, ◌*◌, Bool, true, false, ltb, ◌==◌, add32}
use os.Base.Int.{ℤ, pos, negsuc, ◌+ℤ◌, ◌-ℤ◌, half, ltb_ℤ, leb_ℤ, pos_part, neg_part}

-- `struct Stab`
pub record Stab : Type 0 where
  pub n_strx : ℕ
  pub n_type : ℕ
  pub n_other : ℕ
  pub n_desc : ℕ
  pub n_value : ℕ

abbrev pub n_fun : ℕ
n_fun = 0x24

abbrev pub n_sline : ℕ
n_sline = 0x44

abbrev pub n_so : ℕ
n_so = 0x64

abbrev pub n_sol : ℕ
n_sol = 0x84

abbrev pub n_psym : ℕ
n_psym = 0xa0

-- The stabs from `__STAB_BEGIN__` to `__STAB_END__`.
pub record Table : Type 0 where
  pub count : ℕ
  pub stabs : ℕ → Stab

-- A read outside the table is a `fault`; a loop that has used up its rounds is `out_of_fuel`.
pub data Run (A : Type 0) : Type 0 where
  done : A → Run A
  fault out_of_fuel panicked : Run A

infixl 5 ◌>>=◌
abbrev pub ◌>>=◌ : {A B : Type 0} → Run A → (A → Run B) → Run B
done a >>= f = f a
fault >>= f = fault
out_of_fuel >>= f = out_of_fuel
panicked >>= f = panicked

-- `stabs[i]`
unfoldable pub stab_at : Table → ℤ → Run Stab
stab_at t (pos i) = elim (ltb i t.count) [ true ↦ done (t.stabs i) | false ↦ fault ]
stab_at t (negsuc i) = fault

-- The loops that go down from `m` to the first stab of the type, and to `low - 1` with none; the
-- one at the end has `l > *region_left` for the test, which is the same with `low` one above.
unfoldable pub scan_back : Table → ℕ → ℕ → ℤ → ℤ → Run ℤ
scan_back t type zero low m = out_of_fuel
scan_back t type (suc fuel) low m = elim (leb_ℤ low m) [
  | false ↦ done m
  | true ↦ stab_at t m >>= λ s. elim (s.n_type == type) [
    | true ↦ done m
    | false ↦ scan_back t type fuel low (m -ℤ pos 1)
  ]
]

-- The variables of the search.
pub record Search : Type 0 where
  pub l : ℤ
  pub r : ℤ
  pub any_matches : Bool
  pub region_left : ℤ
  pub region_right : ℤ
  pub addr : ℕ

-- The comparisons with the stab `s` at `m`.
unfoldable pub narrow : ℤ → ℤ → Stab → Search → Search
narrow true_m m s c = elim (ltb s.n_value c.addr) [
  | true ↦ record c { any_matches = true; region_left = m; l = true_m +ℤ pos 1 }
  | false ↦ elim (ltb c.addr s.n_value) [
    | true ↦ record c { any_matches = true; region_right = m -ℤ pos 1; r = m -ℤ pos 1 }
    | false ↦ record c { any_matches = true; region_left = m; l = m; addr = add32 c.addr 1 }
  ]
]

-- One round of the loop.
unfoldable pub search_round : Table → ℕ → Search → Run Search
search_round t type c =
    let true_m = half (c.l +ℤ c.r) in
    scan_back t type (t.count + 2) c.l true_m >>= λ m. elim (ltb_ℤ m c.l) [
      | true ↦ done (record c { l = true_m +ℤ pos 1 })
      | false ↦ stab_at t m >>= λ s. done (narrow true_m m s c)
    ]

unfoldable pub search_loop : Table → ℕ → ℕ → Search → Run Search
search_loop t type zero c = out_of_fuel
search_loop t type (suc fuel) c = elim (leb_ℤ c.l c.r) [
  | false ↦ done c
  | true ↦ search_round t type c >>= search_loop t type fuel
]

-- What stands in `*region_left` and `*region_right`.
pub record Region : Type 0 where
  pub left : ℤ
  pub right : ℤ

-- The part behind the loop.
unfoldable pub settle : Table → ℕ → Search → Run Region
settle t type c = elim c.any_matches [
  | false ↦ done (record { left = c.region_left; right = c.region_left -ℤ pos 1 })
  | true ↦ scan_back t type (t.count + 2) (c.region_left +ℤ pos 1) c.region_right >>= λ l.
      done (record { left = l; right = c.region_right })
]

unfoldable pub stab_binsearch : Table → Region → ℕ → ℕ → Run Region
stab_binsearch t region type addr =
    search_loop t type (2 * t.count + 3) (record {
      l = region.left;
      r = region.right;
      any_matches = false;
      region_left = region.left;
      region_right = region.right;
      addr = addr;
    })
    >>= settle t type
