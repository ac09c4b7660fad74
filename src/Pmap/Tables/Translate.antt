-- ===== src/Pmap/Tables/Translate.antt =====
-- The translation that the x86 makes from a directory and the words of memory, and what the code
-- needs of a directory to walk it.
use os.Base.{
  ℕ, ◌+◌, ◌-◌, ◌*◌, ◌/◌, ◌%◌, ◌^◌, ◌≤◌, ◌<◌, ◌≡◌, Option, none, some, ◌==◌, if◌then◌else◌, bit_and,
  bit_or, arith, ap, ◌∙◌,
}
use os.Base.Bits.{and_one, or_one, or_page}
use os.Mmu.{kernbase, pte_addr, pte_p}
use os.Mmu.Address.{pdx_lem, ptx_lem, pte_addr_lem, pgnum_lem}
use os.Pmap.State.{Kernel, ok, word_index, load, store, kaddr, update}
use os.Pmap.State.Rules.{load-ok, store-ok, kaddr-ok}
use os.Pmap.Tables.{pde_slot, pte_slot}

-- The parts of a linear address.
abbrev pub dir_of : ℕ → ℕ
dir_of va = va / 4194304 % 1024

abbrev pub table_of : ℕ → ℕ
table_of va = va / 4096 % 1024

-- The words of a directory, and the word that directory entry `e` and `va` lead to.
abbrev pub dir_index : ℕ → ℕ → ℕ
dir_index pgdir d = (pgdir - kernbase) / 4 + d

abbrev pub pte_index : ℕ → ℕ → ℕ
pte_index e va = e / 4096 * 1024 + table_of va

abbrev pub pde_at : ℕ → (ℕ → ℕ) → ℕ → ℕ
pde_at pgdir mem va = mem (dir_index pgdir (dir_of va))

-- The present entry that maps `va`.
abbrev pub translate : ℕ → (ℕ → ℕ) → ℕ → Option ℕ
translate pgdir mem va =
    if pde_at pgdir mem va % 2 == 0
    then none
    else if mem (pte_index (pde_at pgdir mem va) va) % 2 == 0
    then none
    else some (mem (pte_index (pde_at pgdir mem va) va))

-- `pgdir` is a page of the machine, at its kernel address.
pub record IsDir (n pgdir : ℕ) : Type 0 where
  pub low : kernbase ≤ pgdir
  pub aligned : pgdir % 4096 ≡ 0
  pub inside : (pgdir - kernbase) / 4096 < n
  pub small : n ≤ 2 ^ 16

-- The directory entry `e` names a page of the machine.
pub record IsTable (n e : ℕ) : Type 0 where
  pub word : e < 2 ^ 32
  pub inside : e / 4096 < n

abbrev pub table_kva : ℕ → ℕ
table_kva e = e / 4096 * 4096 + kernbase

module _ {n pgdir : ℕ} (v : IsDir n pgdir) (va : ℕ) where
  pub word_index-pde_slot : word_index (pde_slot pgdir va) ≡ dir_index pgdir (dir_of va)
  word_index-pde_slot = omega (arith, pdx_lem va)

  pub pde_slot_low : kernbase ≤ pde_slot pgdir va
  pde_slot_low = omega (arith, pdx_lem va)

  pub pde_slot_inside : (pde_slot pgdir va - kernbase) / 4096 < n
  pde_slot_inside = omega (arith, pdx_lem va)

module _ {n e : ℕ} (t : IsTable n e) (va : ℕ) where
  pub word_index-pte_slot : word_index (pte_slot (table_kva e) va) ≡ pte_index e va
  word_index-pte_slot = omega (arith, ptx_lem va)

  pub pte_slot_low : kernbase ≤ pte_slot (table_kva e) va
  pte_slot_low = omega arith

  pub pte_slot_inside : (pte_slot (table_kva e) va - kernbase) / 4096 < n
  pte_slot_inside = omega (arith, ptx_lem va)

module _ (s : Kernel) (va : ℕ) where
  pub load-pde :
      {pgdir : ℕ} → IsDir s.npages pgdir → load (pde_slot pgdir va) s ≡ ok (pde_at pgdir s.mem va) s
  load-pde {pgdir} v =
      load-ok s (pde_slot pgdir va) (pde_slot_low v va) (pde_slot_inside v va)
      ∙ ap (λ i. ok (s.mem i) s) (word_index-pde_slot v va)

  pub store-pde :
      {pgdir : ℕ} (w : ℕ)
      → IsDir s.npages pgdir
      → store (pde_slot pgdir va) w s
        ≡ ok tt (record s { mem = update s.mem (dir_index pgdir (dir_of va)) w })
  store-pde {pgdir} w v =
      store-ok s (pde_slot pgdir va) (pde_slot_low v va) (pde_slot_inside v va) w
      ∙ ap (λ i. ok tt (record s { mem = update s.mem i w })) (word_index-pde_slot v va)

  pub kaddr-table :
      {e : ℕ} → s.npages ≤ 2 ^ 16 → IsTable s.npages e → kaddr (pte_addr e) s ≡ ok (table_kva e) s
  kaddr-table {e} small t =
      kaddr-ok (pte_addr e) s
        (omega (arith, pgnum_lem (pte_addr e), pte_addr_lem e t.word, t.inside))
      ∙ ap (λ a. ok a s) (omega (arith, pte_addr_lem e t.word, t.inside))

  pub load-pte :
      {e : ℕ}
      → IsTable s.npages e
      → load (pte_slot (table_kva e) va) s ≡ ok (s.mem (pte_index e va)) s
  load-pte {e} t =
      load-ok s (pte_slot (table_kva e) va) (pte_slot_low t va) (pte_slot_inside t va)
      ∙ ap (λ i. ok (s.mem i) s) (word_index-pte_slot t va)

  pub store-pte :
      {e : ℕ} (w : ℕ)
      → IsTable s.npages e
      → store (pte_slot (table_kva e) va) w s
        ≡ ok tt (record s { mem = update s.mem (pte_index e va) w })
  store-pte {e} w t =
      store-ok s (pte_slot (table_kva e) va) (pte_slot_low t va) (pte_slot_inside t va) w
      ∙ ap (λ i. ok tt (record s { mem = update s.mem i w })) (word_index-pte_slot t va)

-- The tests of the present bit.
pub present_lem : (e : ℕ) → (bit_and e pte_p == 0) ≡ (e % 2 == 0)
present_lem e = ap (λ b. b == 0) (and_one e)

-- What an entry for page `i` holds: an even or odd word over the page's address, made odd.
pub entry_lem :
    (i perm : ℕ) → perm < 4096 → bit_or (bit_or (i * 4096) perm) pte_p ≡ i * 4096 + perm / 2 * 2 + 1
entry_lem i perm h = omega (arith, or_page i perm h, or_one (bit_or (i * 4096) perm))
