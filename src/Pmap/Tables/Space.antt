-- ===== src/Pmap/Tables/Space.antt =====
-- Address spaces whose page tables do not overlap, and what a write to an entry does to the
-- translation of every address.
use os.Base.{
  ℕ, ◌+◌, ◌-◌, ◌*◌, ◌/◌, ◌%◌, ◌^◌, ◌<◌, ◌≡◌, ◌≢◌, refl, inl, inr, true, false, Option, none, some,
  ◌==◌, if◌then◌else◌, arith, ap, ◌∙◌, ne→==, Bool-cases, ◌⊎◌, sym,
}
use os.Mmu.{kernbase, uvpt}
use os.Pmap.State.{update}
use os.Pmap.Pages.{alloc_zero}
use os.Pmap.Pages.Alloc.{cleared}
use os.Pmap.Tables.Translate.{
  dir_of, table_of, dir_index, pte_index, pde_at, translate, IsDir, IsTable,
}
use os.Pmap.Tables.Walk.{fresh_entry}

-- At `UVPT` the directory is entered as a page table of itself.
abbrev pub OutsideUvpt : ℕ → Type 0
OutsideUvpt va = (va < 2 ^ 32) × (dir_of va ≢ dir_of uvpt)

abbrev pub Present : ℕ → (ℕ → ℕ) → ℕ → Type 0
Present pgdir mem va = (pde_at pgdir mem va % 2 == 0) ≡ false

abbrev pub dir_page : ℕ → ℕ
dir_page pgdir = (pgdir - kernbase) / 4096

pub record IsSpace (n pgdir : ℕ) (mem : ℕ → ℕ) : Type 0 where
  pub dir : IsDir n pgdir
  pub tables : (va : ℕ) → OutsideUvpt va → Present pgdir mem va → IsTable n (pde_at pgdir mem va)
  pub apart :
      (va : ℕ) → OutsideUvpt va → Present pgdir mem va → pde_at pgdir mem va / 4096 ≢ dir_page pgdir
  pub distinct :
      (va va' : ℕ)
      → OutsideUvpt va
      → OutsideUvpt va'
      → Present pgdir mem va
      → Present pgdir mem va'
      → pde_at pgdir mem va / 4096 ≡ pde_at pgdir mem va' / 4096
      → dir_of va ≡ dir_of va'

abbrev pde_word : (ℕ → ℕ) → ℕ → ℕ → ℕ
pde_word mem pgdir d = mem (dir_index pgdir d)

-- The words with the entry of `va` set to `w`, and after `pgdir_walk` has made a table for `va`
-- in page `i`.
abbrev pub written : ℕ → (ℕ → ℕ) → ℕ → ℕ → ℕ → ℕ
written pgdir mem va w = update mem (pte_index (pde_at pgdir mem va) va) w

abbrev pub extended : ℕ → (ℕ → ℕ) → ℕ → ℕ → ℕ → ℕ
extended pgdir mem va i =
    update (cleared alloc_zero i mem) (dir_index pgdir (dir_of va)) (fresh_entry i)

-- The translation from the two entries on its way.
abbrev pub lookup : ℕ → ℕ → Option ℕ
lookup e f = if e % 2 == 0 then none else if f % 2 == 0 then none else some f

lookup-eq :
    (pgdir : ℕ) (mem : ℕ → ℕ) (va e f : ℕ)
    → pde_at pgdir mem va ≡ e
    → mem (pte_index e va) ≡ f
    → translate pgdir mem va ≡ lookup e f
lookup-eq pgdir mem va e f p q = rw p (rw q refl)

lookup-absent :
    (pgdir : ℕ) (mem : ℕ → ℕ) (va e : ℕ)
    → pde_at pgdir mem va ≡ e
    → (e % 2 == 0) ≡ true
    → translate pgdir mem va ≡ none
lookup-absent pgdir mem va e p q = rw (p, q) refl

-- A word of the table page `p` is no word of the directory.
table-ne-dir :
    (n pgdir p k d : ℕ)
    → IsDir n pgdir
    → p ≢ dir_page pgdir
    → k < 1024
    → d < 1024
    → p * 1024 + k ≢ dir_index pgdir d
table-ne-dir n pgdir p k d v ne hk hd e = ne (omega arith)

module _ {n pgdir : ℕ} {mem : ℕ → ℕ} (v : IsSpace n pgdir mem) (va w : ℕ) (o : OutsideUvpt va)
    (p : Present pgdir mem va) where
  pub pde_at-written : (va' : ℕ) → pde_at pgdir (written pgdir mem va w) va' ≡ pde_at pgdir mem va'
  pde_at-written va' =
      let ne =
        table-ne-dir n pgdir (pde_at pgdir mem va / 4096) (table_of va) (dir_of va') v.dir
          (v.apart va o p) (omega arith) (omega arith) in
      ground (arith, ne)

  -- The address gets the new entry, if that is present.
  pub translate-written :
      translate pgdir (written pgdir mem va w) va ≡ (if w % 2 == 0 then none else some w)
  translate-written = rw (pde_at-written va, p) (ground arith)

  entries-ne :
      (va' : ℕ)
      → OutsideUvpt va'
      → Present pgdir mem va'
      → va' / 4096 ≢ va / 4096
      → pte_index (pde_at pgdir mem va) va ≢ pte_index (pde_at pgdir mem va') va'
  entries-ne va' o' p' ne e =
      let same = v.distinct va va' o o' p p' (omega arith) in ne (omega (arith, o.0, o'.0))

  -- Every other page keeps its translation.
  pub translate-written_ne :
      (va' : ℕ)
      → OutsideUvpt va'
      → va' / 4096 ≢ va / 4096
      → translate pgdir (written pgdir mem va w) va' ≡ translate pgdir mem va'
  translate-written_ne va' o' ne =
      rw (pde_at-written va') (elim (Bool-cases (pde_at pgdir mem va' % 2 == 0)) [
        | inl absent ↦ rw absent
        | inr p' ↦ rw (
          p',
          ne→== (pte_index (pde_at pgdir mem va) va) (pte_index (pde_at pgdir mem va') va')
              (entries-ne va' o' p' ne),
        )
      ])

  -- The tables stay as they were.
  pub written-IsSpace : IsSpace n pgdir (written pgdir mem va w)
  written-IsSpace = record {
    dir = v.dir;
    tables = λ a oa pa. rw pde_at-written (v.tables a oa (rw pde_at-written at pa));
    apart = λ a oa pa. rw pde_at-written (v.apart a oa (rw pde_at-written at pa));
    distinct = λ a b oa ob pa pb e.
        v.distinct a b oa ob (rw pde_at-written at pa) (rw pde_at-written at pb)
          (simp pde_at-written at e);
  }

-- Page `i` is neither the directory nor one of its tables.
pub record IsSpare (n pgdir : ℕ) (mem : ℕ → ℕ) (i : ℕ) : Type 0 where
  pub inside : i < n
  pub not_dir : i ≢ dir_page pgdir
  pub not_table : (va : ℕ) → OutsideUvpt va → Present pgdir mem va → pde_at pgdir mem va / 4096 ≢ i

module _ {n pgdir : ℕ} {mem : ℕ → ℕ} (v : IsSpace n pgdir mem) (va i : ℕ) (o : OutsideUvpt va)
    (absent : (pde_at pgdir mem va % 2 == 0) ≡ true) (f : IsSpare n pgdir mem i) where
  dir_word-ne : (d : ℕ) → d < 1024 → dir_index pgdir d / 1024 ≢ i
  dir_word-ne d h e = f.not_dir (omega (arith, v.dir.low, v.dir.aligned))

  pub pde_at-extended :
      (va' : ℕ)
      → pde_at pgdir (extended pgdir mem va i) va'
        ≡ (if dir_of va == dir_of va' then fresh_entry i else pde_at pgdir mem va')
  pde_at-extended va' = ground (arith, dir_word-ne (dir_of va') (omega arith))

  pub fresh_word :
      (va' : ℕ)
      → dir_of va ≡ dir_of va'
      → (extended pgdir mem va i) (pte_index (fresh_entry i) va') ≡ 0
  fresh_word va' same =
      let ne =
        table-ne-dir n pgdir i (table_of va') (dir_of va) v.dir f.not_dir (omega arith)
          (omega arith) in
      ground (arith, ne)

  old_word :
      (va' : ℕ)
      → OutsideUvpt va'
      → Present pgdir mem va'
      → (extended pgdir mem va i) (pte_index (pde_at pgdir mem va') va')
        ≡ mem (pte_index (pde_at pgdir mem va') va')
  old_word va' o' p' =
      let ne =
        table-ne-dir n pgdir (pde_at pgdir mem va' / 4096) (table_of va') (dir_of va) v.dir
          (v.apart va' o' p') (omega arith) (omega arith) in
      ground (arith, ne, f.not_table va' o' p')

  -- The new table maps nothing.
  pub translate-extended :
      (va' : ℕ)
      → OutsideUvpt va'
      → translate pgdir (extended pgdir mem va i) va' ≡ translate pgdir mem va'
  translate-extended va' o' = elim (Bool-cases (dir_of va == dir_of va')) [
    | inl same ↦
        let d : dir_of va ≡ dir_of va' = ground arith in
        let gone : (pde_at pgdir mem va' % 2 == 0) ≡ true =
          ground (arith, ap (pde_word mem pgdir) d) in
        lookup-eq pgdir (extended pgdir mem va i) va' (fresh_entry i) 0
          (pde_at-extended va' ∙ rw same refl) (fresh_word va' d)
        ∙ rw gone (ground arith)
    | inr other ↦ elim (Bool-cases (pde_at pgdir mem va' % 2 == 0)) [
      | inl gone ↦
          lookup-absent pgdir (extended pgdir mem va i) va' (pde_at pgdir mem va')
            (pde_at-extended va' ∙ rw other refl) gone
          ∙ rw gone refl
      | inr p' ↦
          lookup-eq pgdir (extended pgdir mem va i) va' (pde_at pgdir mem va')
            (mem (pte_index (pde_at pgdir mem va') va')) (pde_at-extended va' ∙ rw other refl)
            (old_word va' o' p')
    ]
  ]

  -- A present entry is the new one, or one that was there.
  pub kinds :
      (a : ℕ)
      → Present pgdir (extended pgdir mem va i) a
      → ((pde_at pgdir (extended pgdir mem va i) a ≡ fresh_entry i) × (dir_of va ≡ dir_of a))
        ⊎ ((pde_at pgdir (extended pgdir mem va i) a ≡ pde_at pgdir mem a) × Present pgdir mem a)
  kinds a q = elim (Bool-cases (dir_of va == dir_of a)) [
    | inl same ↦ inl (pde_at-extended a ∙ rw same refl, ground arith)
    | inr other ↦
        let e = pde_at-extended a ∙ rw other refl in inr (e, ap (λ x. x % 2 == 0) (sym e) ∙ q)
  ]

  tables-extended :
      (a : ℕ)
      → OutsideUvpt a
      → Present pgdir (extended pgdir mem va i) a
      → IsTable n (pde_at pgdir (extended pgdir mem va i) a)
  tables-extended a oa q = elim (kinds a q) [
    | inl (e, _) ↦ rw e (omega (arith, f.inside, v.dir.small))
    | inr (e, old) ↦ rw e (v.tables a oa old)
  ]

  apart-extended :
      (a : ℕ)
      → OutsideUvpt a
      → Present pgdir (extended pgdir mem va i) a
      → pde_at pgdir (extended pgdir mem va i) a / 4096 ≢ dir_page pgdir
  apart-extended a oa q = elim (kinds a q) [
    | inl (e, _) ↦ rw e (omega (arith, f.not_dir))
    | inr (e, old) ↦ rw e (v.apart a oa old)
  ]

  distinct-extended :
      (a b : ℕ)
      → OutsideUvpt a
      → OutsideUvpt b
      → Present pgdir (extended pgdir mem va i) a
      → Present pgdir (extended pgdir mem va i) b
      → pde_at pgdir (extended pgdir mem va i) a / 4096
        ≡ pde_at pgdir (extended pgdir mem va i) b / 4096
      → dir_of a ≡ dir_of b
  distinct-extended a b oa ob qa qb same = elim (kinds a qa) [
    | inl (ea, da) ↦ elim (kinds b qb) [
      | inl (eb, db) ↦ sym da ∙ db
      | inr (eb, old) ↦ absurd (f.not_table b ob old (omega (arith, ea, eb, same)))
    ]
    | inr (ea, old) ↦ elim (kinds b qb) [
      | inl (eb, db) ↦ absurd (f.not_table a oa old (omega (arith, ea, eb, same)))
      | inr (eb, old') ↦ v.distinct a b oa ob old old' (omega (arith, ea, eb, same))
    ]
  ]

  pub extended-IsSpace : IsSpace n pgdir (extended pgdir mem va i)
  extended-IsSpace = record {
    dir = v.dir;
    tables = tables-extended;
    apart = apart-extended;
    distinct = distinct-extended;
  }
