-- ===== src/Debug/Outside.antt =====
-- `debuginfo_eip` for an address below the first file.
use os.Base.{
  ℕ, suc, ◌+◌, ◌-◌, ◌*◌, ◌≤◌, ◌<◌, ◌≡◌, refl, inl, inr, true, false, not, ◌||◌, ltb, leb, ◌==◌,
  if◌then◌else◌, arith, ap, ◌∙◌, Bool-cases, ltb→lt,
}
use os.Base.Int.{pos, ◌+ℤ◌, ◌-ℤ◌, prev, prev-sub, leb_ℤ, half}
use os.Mmu.{ulim}
use os.Debug.{
  Table, done, fault, ◌>>=◌, stab_at, scan_back, Search, search_round, search_loop, stab_binsearch,
  n_fun, n_so,
}
use os.Debug.Scan.{IsOf}
use os.Debug.Bracket.{IsSorted, not_before}
use os.Debug.Found.{region, absent, held, above, stab_binsearch-IsFound}
use os.Debug.Eip.{Symbols, debuginfo_eip}
use os.Debug.Loops.{strings_good}

-- The search for an address below the first stab leaves the place before the table.
all_above :
    (t : Table) (addr : ℕ)
    → IsSorted t n_so 0 t.count addr
    → 0 < t.count
    → IsOf t n_so 0
    → addr < (t.stabs 0).n_value
    → stab_binsearch t (region (pos 0) (prev t.count)) n_so addr ≡ done (region (prev 0) (prev 0))
all_above t addr v some_stab first high =
    let s = stab_binsearch-IsFound v in
    s.1
    ∙ ap done (elim (s.2) [
      | absent e none_at_all ↦ absurd (none_at_all 0 (omega arith) some_stab first)
      | held m k e h ↦ absurd (
          omega (
            arith,
            v.sorted 0 m (omega arith) (omega arith) (omega (arith, h.before, h.upto)) first
                h.of_type,
            h.low,
            high,
          ))
      | above k e bounds of_first none_before over ↦ elim (Bool-cases (ltb 0 k)) [
        | inl later ↦ absurd (none_before 0 (omega arith) (ltb→lt 0 k later) first)
        | inr here ↦
            e
            ∙ ap (λ i. region (if ltb 0 i then pos 0 else prev 0) (prev i)) {x = k} {y = 0}
                (omega (arith, not_before 0 k here))
      ]
    ])

before_scan : (t : Table) (type fuel : ℕ) → scan_back t type (suc fuel) (prev 0) (prev 0) ≡ fault
unfolding scan_back stab_at
before_scan t type fuel = refl

before_round :
    (t : Table) (type : ℕ) (c : Search)
    → c.l ≡ prev 0
    → c.r ≡ prev 0
    → search_round t type c ≡ fault
unfolding search_round half ◌+ℤ◌
before_round t type c left right =
    let scan : scan_back t type (t.count + 2) (prev 0) (prev 0) ≡ fault =
      ap (λ f. scan_back t type f (prev 0) (prev 0)) {x = t.count + 2} {y = suc (t.count + 1)}
        (omega arith)
      ∙ before_scan t type (t.count + 1) in
    rw (search_round, left, right, scan, ◌>>=◌) refl

before_loop :
    (t : Table) (type fuel : ℕ) (c : Search)
    → c.l ≡ prev 0
    → c.r ≡ prev 0
    → search_loop t type (suc fuel) c ≡ fault
unfolding search_loop
before_loop t type fuel c left right =
    let test : leb_ℤ (c.l) (c.r) ≡ true = rw (left, right) refl in
    rw (search_loop, test, before_round t type c left right, ◌>>=◌) refl

-- A search from there reads before the table.
before_table :
    (t : Table) (type addr : ℕ) → stab_binsearch t (region (prev 0) (prev 0)) type addr ≡ fault
unfolding stab_binsearch
before_table t type addr =
    let c : Search = record {
      l = prev 0;
      r = prev 0;
      any_matches = false;
      region_left = prev 0;
      region_right = prev 0;
      addr = addr;
    } in
    let loop : search_loop t type (2 * t.count + 3) c ≡ fault =
      ap (λ f. search_loop t type f c) {x = 2 * t.count + 3} {y = suc (2 * t.count + 2)}
        (omega arith)
      ∙ before_loop t type (2 * t.count + 2) c refl refl in
    rw (stab_binsearch, loop, ◌>>=◌) refl

-- For an address above ULIM and a table whose first stab is a file above the address,
-- `debuginfo_eip` reads outside the table.
pub debuginfo_eip-fault :
    (y : Symbols) (addr : ℕ)
    → ulim ≤ addr
    → (y.stabstr < y.stabstr_end) × (y.memory (y.stabstr_end - 1) ≡ 0)
    → IsSorted y.table n_so 0 y.table.count addr
    → 0 < y.table.count
    → IsOf y.table n_so 0
    → addr < (y.table.stabs 0).n_value
    → debuginfo_eip y addr ≡ fault
unfolding debuginfo_eip
debuginfo_eip-fault y addr kernel strings v some_stab first high =
    let in_kernel : leb ulim addr ≡ true = ground (arith, kernel) in
    let good : (leb y.stabstr_end y.stabstr || not (y.memory (y.stabstr_end - 1) == 0)) ≡ false =
      strings_good (y.stabstr) (y.stabstr_end) (y.memory (y.stabstr_end - 1)) (strings.0)
        (strings.1) in
    let files : stab_binsearch y.table (record { left = pos 0; right = pos y.table.count -ℤ pos 1 })
          n_so addr
        ≡ done (region (prev 0) (prev 0)) =
      ap (λ r. stab_binsearch y.table (region (pos 0) r) n_so addr) (prev-sub y.table.count)
      ∙ all_above y.table addr v some_stab first high in
    rw (debuginfo_eip, in_kernel, good, files, ◌>>=◌, before_table y.table n_fun addr, ◌>>=◌) refl
