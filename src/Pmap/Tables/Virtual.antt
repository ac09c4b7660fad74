-- ===== src/Pmap/Tables/Virtual.antt =====
-- The virtual page table at UVPT, which inc/memlayout.h describes: with the directory entered as a
-- page table of itself, every entry of a page table has an address there.
use os.Base.{
  ℕ, ◌+◌, ◌-◌, ◌*◌, ◌/◌, ◌%◌, ◌^◌, ◌<◌, ◌≡◌, refl, false, some, ◌==◌, arith, ap, ◌∙◌, ne→==,
}
use os.Mmu.{kernbase, uvpt}
use os.Pmap.State.{Kernel, ok, word_index}
use os.Pmap.Tables.{pgdir_walk}
use os.Pmap.Tables.Translate.{
  dir_of, dir_index, pte_index, pde_at, translate, IsDir, IsTable, word_index-pte_slot,
}
use os.Pmap.Tables.Space.{Present}
use os.Pmap.Tables.Walk.{walk-present}

-- `uvpt[PGNUM(va)]`
abbrev pub pte_address : ℕ → ℕ
pte_address va = uvpt + 4 * (va / 4096)

-- The word of memory at `a` in the page of the entry `e`.
abbrev pub reached : ℕ → ℕ → ℕ
reached e a = e / 4096 * 1024 + a % 4096 / 4

module _ (s : Kernel) (pgdir va : ℕ) (v : IsDir s.npages pgdir) (small : va < 2 ^ 32)
    (self : s.mem (dir_index pgdir (dir_of uvpt)) ≡ pgdir - kernbase + 5)
    (p : Present pgdir s.mem va) where
  pte_address-directory : pde_at pgdir s.mem (pte_address va) ≡ pgdir - kernbase + 5
  pte_address-directory =
      ap (λ d. s.mem (dir_index pgdir d)) {x = dir_of (pte_address va)} {y = dir_of uvpt}
        (omega arith)
      ∙ self

  pte_address-table :
      s.mem (pte_index (pgdir - kernbase + 5) (pte_address va)) ≡ pde_at pgdir s.mem va
  pte_address-table =
      ap s.mem {x = pte_index (pgdir - kernbase + 5) (pte_address va)}
        {y = dir_index pgdir (dir_of va)} (omega (arith, v.low, v.aligned))

  pte_address-translate : translate pgdir s.mem (pte_address va) ≡ some (pde_at pgdir s.mem va)
  pte_address-translate =
      let odd : ((pgdir - kernbase + 5) % 2 == 0) ≡ false =
        ne→== ((pgdir - kernbase + 5) % 2) 0 (omega (arith, v.low, v.aligned)) in
      rw (pte_address-directory, odd, pte_address-table, p) refl

  -- In a directory whose entry at UVPT names the directory itself, as `mem_init` makes it,
  -- `uvpt[PGNUM(va)]` is the page table entry of `va` wherever `va` has a page table of the
  -- machine: the processor takes that address to the table, at the word that `pgdir_walk` returns.
  pub pgdir_walk-pte_address :
      IsTable s.npages (pde_at pgdir s.mem va)
      → (slot : ℕ) × (pgdir_walk pgdir va 0 s ≡ ok (some slot) s)
        × (translate pgdir s.mem (pte_address va) ≡ some (pde_at pgdir s.mem va))
        × (word_index slot ≡ reached (pde_at pgdir s.mem va) (pte_address va))
  pgdir_walk-pte_address t = (
    _,
    walk-present s pgdir va v 0 p t,
    pte_address-translate,
    word_index-pte_slot t va ∙ omega arith,
  )
