-- ===== src/Pmap/Tests/SelfMap.antt =====
-- The machine of eight pages with its directory entered at UVPT.
use os.Base.{ℕ, ◌+◌, ◌≡◌, refl, some, arith, update}
use os.Pmap.State.{Kernel, ok, word_index}
use os.Pmap.Tables.{pgdir_walk}
use os.Pmap.Tables.Translate.{dir_index, pde_at, translate, IsDir, IsTable}
use os.Pmap.Tables.Virtual.{reached, pgdir_walk-pte_address}
use os.Pmap.Tests.{word_at, machine}

abbrev dir : ℕ
dir = 0xf000_3000

dir-IsDir : IsDir 8 dir
dir-IsDir = record { low = omega arith; aligned = refl; inside = omega arith; small = omega arith }

abbrev folded : Kernel
folded = record machine { mem = update word_at (dir_index dir 957) (0x3000 + 5) }

first-IsTable : IsTable 8 (pde_at dir folded.mem 0x1000)
first-IsTable = record { word = omega arith; inside = omega arith }

pgdir_walk-pte_address_example :
    (slot : ℕ) × (pgdir_walk dir 0x1000 0 folded ≡ ok (some slot) folded)
    × (translate dir folded.mem 0xef40_0004 ≡ some 0x4007)
    × (word_index slot ≡ reached 0x4007 0xef40_0004)
pgdir_walk-pte_address_example =
    pgdir_walk-pte_address folded dir 0x1000 dir-IsDir (omega arith) refl refl first-IsTable
