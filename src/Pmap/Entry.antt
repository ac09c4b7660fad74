-- ===== src/Pmap/Entry.antt =====
-- kern/entrypgdir.c: the tables with which the kernel is entered, and what they map.
use os.Base.{
  ℕ, ◌+◌, ◌-◌, ◌*◌, ◌/◌, ◌%◌, ◌^◌, ◌≤◌, ◌<◌, ◌≡◌, refl, inl, inr, Bool, true, false, ◌&&◌, ◌||◌,
  Option, none, some, ◌==◌, if◌then◌else◌, bit_or, add32, sub32, shr, arith, ap, ◌∙◌, Bool-cases,
}
use os.Base.Bits.{or_page, or_low}
use os.Mmu.{kernbase, pdxshift, pte_p, pte_w}
use os.Pmap.Tables.Translate.{dir_of, table_of, dir_index, pte_index, pde_at, translate}

-- Entry `i` of 1024; the source writes each of them out.
unfoldable pub entry_pgtable : ℕ → ℕ
entry_pgtable i = bit_or (bit_or (i * 4096) pte_p) pte_w

-- Entry `i`, where the table stands at the kernel address `table`.
unfoldable pub entry_pgdir : ℕ → ℕ → ℕ
entry_pgdir table i =
    if i == 0
    then add32 (sub32 table kernbase) pte_p
    else if i == shr kernbase pdxshift
    then add32 (add32 (sub32 table kernbase) pte_p) pte_w
    else 0

-- Memory holds the directory at `pgdir` and the table at `table`, each in a page of its own.
pub record IsLoaded (mem : ℕ → ℕ) (pgdir table : ℕ) : Type 0 where
  pub low : kernbase ≤ table
  pub high : table < 2 ^ 32
  pub aligned : table % 4096 ≡ 0
  pub directory : (i : ℕ) → i < 1024 → mem (dir_index pgdir i) ≡ entry_pgdir table i
  pub entries : (i : ℕ) → i < 1024 → mem ((table - kernbase) / 4 + i) ≡ entry_pgtable i

entry_pgtable_lem : (i : ℕ) → entry_pgtable i ≡ i * 4096 + 3
unfolding entry_pgtable
entry_pgtable_lem i = rw (or_page i 1 (omega arith), or_low i 1 2 (omega arith) (omega arith)) refl

-- A present entry leads into the table.
through :
    (mem : ℕ → ℕ) (pgdir table va e : ℕ)
    → IsLoaded mem pgdir table
    → pde_at pgdir mem va ≡ e
    → (e % 2 == 0) ≡ false
    → e / 4096 ≡ (table - kernbase) / 4096
    → translate pgdir mem va ≡ some (table_of va * 4096 + 3)
through mem pgdir table va e v here live page =
    let place : pte_index e va ≡ (table - kernbase) / 4 + table_of va =
      omega (arith, page, v.aligned, v.low) in
    let entry : mem (pte_index e va) ≡ table_of va * 4096 + 3 =
      ap mem place ∙ v.entries (table_of va) (omega arith) ∙ entry_pgtable_lem (table_of va) in
    rw (here, live) (rw entry (ground arith))

-- The entry tables map the first 4 MB of the address space and the 4 MB from KERNBASE on to the
-- first 4 MB of memory, by entries of the page table whose low bits are 3, and nothing else.
pub entry_pgdir-translate :
    (mem : ℕ → ℕ) (pgdir table va : ℕ)
    → IsLoaded mem pgdir table
    → translate pgdir mem va
      ≡ (if (dir_of va == 0) || (dir_of va == 960) then some (table_of va * 4096 + 3) else none)
unfolding entry_pgdir
entry_pgdir-translate mem pgdir table va v =
    let here : pde_at pgdir mem va ≡ entry_pgdir table (dir_of va) =
      v.directory (dir_of va) (omega arith) in
    elim (Bool-cases (dir_of va == 0)) [
      | inl first ↦
          through mem pgdir table va (add32 (sub32 table kernbase) 1) v (here ∙ rw first refl)
            (ground (arith, v.aligned, v.low, v.high)) (omega (arith, v.aligned, v.low, v.high))
          ∙ rw first refl
      | inr other ↦ elim (Bool-cases (dir_of va == 960)) [
        | inl kernel ↦
            through mem pgdir table va (add32 (add32 (sub32 table kernbase) 1) 2) v
              (here ∙ rw (other, kernel) refl) (ground (arith, v.aligned, v.low, v.high))
              (omega (arith, v.aligned, v.low, v.high))
            ∙ rw (other, kernel) refl
        | inr absent ↦
            let empty : pde_at pgdir mem va ≡ 0 = here ∙ rw (other, absent) refl in
            rw (empty, other, absent) refl
      ]
    ]

-- The page that `va` leads to, whether it may be written and whether a user may reach it: both need
-- the bit in the directory's entry and in the table's.
abbrev pub both_bits : ℕ → ℕ → ℕ → Bool
both_bits k e e' = (e / 2 ^ k % 2 == 1) && (e' / 2 ^ k % 2 == 1)

abbrev pub access : ℕ → (ℕ → ℕ) → ℕ → Option (ℕ × Bool × Bool)
access pgdir mem va =
    let e = pde_at pgdir mem va in
    let e' = mem (pte_index e va) in
    if e % 2 == 0
    then none
    else if e' % 2 == 0
    then none
    else some (e' / 4096, both_bits 1 e e', both_bits 2 e e')

accessed :
    (mem : ℕ → ℕ) (pgdir table va e : ℕ)
    → IsLoaded mem pgdir table
    → pde_at pgdir mem va ≡ e
    → (e % 2 == 0) ≡ false
    → (e / 4 % 2 == 1) ≡ false
    → e / 4096 ≡ (table - kernbase) / 4096
    → access pgdir mem va ≡ some (table_of va, e / 2 % 2 == 1, false)
accessed mem pgdir table va e v here live kernel page =
    let place : pte_index e va ≡ (table - kernbase) / 4 + table_of va =
      omega (arith, page, v.aligned, v.low) in
    let entry : mem (pte_index e va) ≡ table_of va * 4096 + 3 =
      ap mem place ∙ v.entries (table_of va) (omega arith) ∙ entry_pgtable_lem (table_of va) in
    let set : ((table_of va * 4096 + 3) / 2 % 2 == 1) ≡ true = ground arith in
    let at : (table_of va * 4096 + 3) / 4096 ≡ table_of va = omega arith in
    let odd : ((table_of va * 4096 + 3) % 2 == 0) ≡ false = ground arith in
    let to_page : Bool → Option (ℕ × Bool × Bool) = λ w. some (table_of va, w, false) in
    rw (here, live) (rw (entry, odd, set, at, kernel) (ap to_page (with_true (e / 2 % 2 == 1))))
  where
    with_true : (w : Bool) → (w && true) ≡ w
    with_true true = refl
    with_true false = refl

-- With the entry tables the first 4 MB of the address space may be read, the 4 MB from KERNBASE on
-- read and written, both leading to the first 4 MB of memory and neither for a user; no other
-- address leads anywhere. The two levels of the tables are taken together.
pub entry_pgdir-access :
    (mem : ℕ → ℕ) (pgdir table va : ℕ)
    → IsLoaded mem pgdir table
    → access pgdir mem va ≡ (
        if dir_of va == 0
        then some (table_of va, false, false)
        else if dir_of va == 960
        then some (table_of va, true, false)
        else none)
unfolding entry_pgdir
entry_pgdir-access mem pgdir table va v =
    let here : pde_at pgdir mem va ≡ entry_pgdir table (dir_of va) =
      v.directory (dir_of va) (omega arith) in
    elim (Bool-cases (dir_of va == 0)) [
      | inl first ↦
          let e = add32 (sub32 table kernbase) 1 in
          let shut : (e / 2 % 2 == 1) ≡ false = ground (arith, v.aligned, v.low, v.high) in
          accessed mem pgdir table va e v (here ∙ rw first refl)
            (ground (arith, v.aligned, v.low, v.high)) (ground (arith, v.aligned, v.low, v.high))
            (omega (arith, v.aligned, v.low, v.high))
          ∙ rw (first, shut) refl
      | inr other ↦ elim (Bool-cases (dir_of va == 960)) [
        | inl kernel ↦
            let e = add32 (add32 (sub32 table kernbase) 1) 2 in
            let open_ : (e / 2 % 2 == 1) ≡ true = ground (arith, v.aligned, v.low, v.high) in
            accessed mem pgdir table va e v (here ∙ rw (other, kernel) refl)
              (ground (arith, v.aligned, v.low, v.high)) (ground (arith, v.aligned, v.low, v.high))
              (omega (arith, v.aligned, v.low, v.high))
            ∙ rw (other, kernel, open_) refl
        | inr absent ↦
            let empty : pde_at pgdir mem va ≡ 0 = here ∙ rw (other, absent) refl in
            rw (empty, other, absent) refl
      ]
    ]
