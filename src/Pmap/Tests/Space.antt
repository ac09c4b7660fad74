-- ===== src/Pmap/Tests/Space.antt =====
-- Uses of the theorems on page tables.
use os.Base.{ℕ, ◌*◌, ◌/◌, ◌%◌, ◌<◌, ◌≡◌, refl, inl, none, [], ◌∷◌, arith}
use os.Pmap.State.{Kernel, ok}
use os.Pmap.Pages.Chain.{FreeList}
use os.Pmap.Tables.{boot_map_region, page_remove, page_insert, check_va2pa, success}
use os.Pmap.Tables.Translate.{pde_at, translate, IsDir}
use os.Pmap.Tables.Walk.{grown}
use os.Pmap.Tables.Space.{OutsideUvpt, Present, IsSpace, IsSpare}
use os.Pmap.Tables.Remove.{page_address, unmapped, check_va2pa-translate, page_remove-some}
use os.Pmap.Tables.Insert.{entry, mapped, remapped, IsHeld, MapsOnly, page_insert-new}
use os.Pmap.Tables.Replace.{page_insert-replace, page_insert-grow}
use os.Pmap.Tables.Region.{IsRegion, IsMapped, boot_map_region-IsMapped}
use os.Pmap.Tests.{word_at, machine, machine-FreeList}

abbrev dir : ℕ
dir = 0xf000_3000

dir-IsDir : IsDir 8 dir
dir-IsDir = record { low = omega arith; aligned = refl; inside = omega arith; small = omega arith }

only_table :
    (va : ℕ) → Present dir word_at va → (pde_at dir word_at va ≡ 16391) × (va / 4194304 % 1024 ≡ 0)
only_table va p = ground arith

space : IsSpace 8 dir word_at
space = record {
  dir = dir-IsDir;
  tables = λ va o p. ground (arith, only_table va p);
  apart = λ va o p. ground (arith, only_table va p);
  distinct = λ va va' o o' p p' e. ground (arith, only_table va p, only_table va' p');
}

-- Page 5 is free, so it is no page table.
spare : IsSpare 8 dir word_at 5
spare = record {
  inside = omega arith;
  not_dir = omega arith;
  not_table = λ va o p. ground (arith, only_table va p);
}

idle : IsHeld machine (5 ∷ 2 ∷ []) 7
idle = record { inside = omega arith; unlinked = refl; off_list = refl; count = omega arith }

in_use : IsHeld machine (5 ∷ 2 ∷ []) 6
in_use = record { inside = omega arith; unlinked = refl; off_list = refl; count = omega arith }

outside : (va : ℕ) → va < 0x40_0000 * 2 → OutsideUvpt va
outside va h = omega arith

page_insert-new_example :
    (page_insert dir 7 0x2000 6 machine ≡ ok success (mapped dir 0x2000 7 6 machine))
    × MapsOnly dir machine (mapped dir 0x2000 7 6 machine) 0x2000 0x1000 (entry 7 6)
page_insert-new_example =
    page_insert-new machine dir 0x2000 7 6 0x1000 (5 ∷ 2 ∷ []) space (outside 0x2000 (omega arith))
      (outside 0x1000 (omega arith)) (omega arith) idle (omega arith) refl refl

page_insert-replace_example :
    (page_insert dir 7 0x1000 6 machine ≡ ok success (remapped dir 0x1000 7 6 0x6007 machine))
    × FreeList (remapped dir 0x1000 7 6 0x6007 machine) (5 ∷ 2 ∷ [])
    × MapsOnly dir machine (remapped dir 0x1000 7 6 0x6007 machine) 0x1000 0x2000 (entry 7 6)
page_insert-replace_example =
    page_insert-replace machine dir 0x1000 7 6 0x2000 (5 ∷ 2 ∷ []) space
      (outside 0x1000 (omega arith)) (outside 0x2000 (omega arith)) (omega arith) idle (omega arith)
      0x6007 refl in_use machine-FreeList

page_insert-grow_example :
    (page_insert dir 7 0x40_1000 6 machine
      ≡ ok success (mapped dir 0x40_1000 7 6 (grown machine dir 0x40_1000 5)))
    × FreeList (mapped dir 0x40_1000 7 6 (grown machine dir 0x40_1000 5)) (2 ∷ [])
    × MapsOnly dir machine
        (mapped dir 0x40_1000 7 6 (grown machine dir 0x40_1000 5))
        0x40_1000
        0x1000
        (entry 7 6)
page_insert-grow_example =
    page_insert-grow machine dir 0x40_1000 7 6 0x1000 (5 ∷ 2 ∷ []) space
      (outside 0x40_1000 (omega arith)) (outside 0x1000 (omega arith)) (omega arith) idle
      (omega arith) 5 (2 ∷ []) refl refl machine-FreeList spare

abbrev full : Kernel
full = record machine { page_free_list = none }

page_remove-some_example :
    (page_remove dir 0x1000 machine ≡ ok tt (unmapped machine dir 0x1000 0x6007))
    × FreeList (unmapped machine dir 0x1000 0x6007) (5 ∷ 2 ∷ [])
    × IsSpace 8 dir (unmapped machine dir 0x1000 0x6007).mem
    × (translate dir (unmapped machine dir 0x1000 0x6007).mem 0x1000 ≡ none)
    × (translate dir (unmapped machine dir 0x1000 0x6007).mem 0x2000 ≡ translate dir word_at 0x2000)
page_remove-some_example =
    page_remove-some machine dir 0x1000 space (outside 0x1000 (omega arith)) 0x6007 0x2000
      (5 ∷ 2 ∷ []) refl (omega arith) (omega arith) refl refl machine-FreeList
      (outside 0x2000 (omega arith)) (omega arith)

check_va2pa-translate_example :
    check_va2pa dir 0x1234 machine ≡ ok (page_address (translate dir word_at 0x1234)) machine
check_va2pa-translate_example =
    check_va2pa-translate machine dir 0x1234 space (outside 0x1234 (omega arith)) (omega arith)

-- Page 2 is free too.
second-IsSpare : IsSpare 8 dir word_at 2
second-IsSpare = record {
  inside = omega arith;
  not_dir = omega arith;
  not_table = λ va o p. ground (arith, only_table va p);
}

-- Three pages, of which the last two want a new table
three_pages-IsRegion : IsRegion 0x3f_f000 3 0x4000 6
three_pages-IsRegion = record {
  aligned = refl;
  pa_aligned = refl;
  fits = omega arith;
  pa_fits = omega arith;
  flags = omega arith;
  apart = inl (omega arith);
}

boot_map_region-IsMapped_example :
    (t : Kernel) × (boot_map_region dir 0x3f_f000 3 0x4000 6 machine ≡ ok tt t)
    × IsMapped machine (5 ∷ 2 ∷ []) dir 0x3f_f000 3 0x4000 6 0 t
boot_map_region-IsMapped_example =
    boot_map_region-IsMapped three_pages-IsRegion machine dir (5 ∷ 2 ∷ []) space machine-FreeList
      (spare, (second-IsSpare, tt)) (omega arith)
