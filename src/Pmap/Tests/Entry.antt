-- ===== src/Pmap/Tests/Entry.antt =====
-- The tables of kern/entrypgdir.c in pages 1 and 2.
use os.Base.{ℕ, ◌+◌, ◌-◌, ◌≡◌, refl, some, ltb, if◌then◌else◌, arith, ap, true, false}
use os.Mmu.{kernbase}
use os.Pmap.Entry.{entry_pgtable, entry_pgdir, IsLoaded, access, entry_pgdir-access}

abbrev directory : ℕ
directory = kernbase + 0x1000

abbrev table : ℕ
table = kernbase + 0x2000

abbrev memory : ℕ → ℕ
memory i = if ltb i 2048 then entry_pgdir table (i - 1024) else entry_pgtable (i - 2048)

loaded : IsLoaded memory directory table
loaded = record {
  low = omega arith;
  high = omega arith;
  aligned = refl;
  directory = λ i lt.
      let test : ltb (1024 + i) 2048 ≡ true = ground arith in
      rw test (ap (entry_pgdir table) {x = 1024 + i - 1024} {y = i} (omega arith));
  entries = λ i lt.
      let test : ltb (2048 + i) 2048 ≡ false = ground arith in
      rw test (ap entry_pgtable {x = 2048 + i - 2048} {y = i} (omega arith));
}

entry_pgdir-access_example : access directory memory (kernbase + 0x5000) ≡ some (5, true, false)
entry_pgdir-access_example = entry_pgdir-access memory directory table (kernbase + 0x5000) loaded
