-- ===== src/Pmap/Tables/Remove.antt =====
-- `check_va2pa`, `page_lookup` and `page_remove` in an address space.
use os.Base.{
  ℕ, ◌*◌, ◌/◌, ◌%◌, ◌^◌, ◌<◌, ◌≡◌, ◌≢◌, inl, inr, Bool, true, false, Option, none, some, List, ◌∷◌,
  ◌==◌, if◌then◌else◌, arith, ap, ◌∙◌, Bool-cases,
}
use os.Mmu.Address.{pte_addr_lem, pgnum_lem}
use os.Pmap.State.{Kernel, ok}
use os.Pmap.State.Rules.{pa2page-ok}
use os.Pmap.Pages.Chain.{has, FreeList}
use os.Pmap.Pages.Free.{released, page_decref_lem}
use os.Pmap.Tables.{pte_slot, page_lookup, page_remove, tlb_invalidate, check_va2pa, no_page}
use os.Pmap.Tables.Translate.{
  pte_index, pde_at, translate, table_kva, load-pde, load-pte, store-pte, kaddr-table, present_lem,
}
use os.Pmap.Tables.Walk.{walk-present, walk-absent}
use os.Pmap.Tables.Space.{
  OutsideUvpt, Present, IsSpace, written, translate-written, translate-written_ne, written-IsSpace,
}

-- The entry of `va`, where its table is present.
abbrev pub pte_at : ℕ → (ℕ → ℕ) → ℕ → ℕ
pte_at pgdir mem va = mem (pte_index (pde_at pgdir mem va) va)

-- The physical address of the page that an entry maps.
abbrev pub page_address : Option ℕ → ℕ
page_address none = no_page
page_address (some f) = f / 4096 * 4096

-- What `page_remove` leaves when `va` is mapped by the entry `f`.
abbrev pub unmapped : Kernel → ℕ → ℕ → ℕ → Kernel
unmapped s pgdir va f = record (released (f / 4096) (s.pages (f / 4096)).pp_ref s) {
  mem = written pgdir s.mem va 0;
  flushed = va ∷ s.flushed;
}

module _ (s : Kernel) (pgdir va : ℕ) (v : IsSpace s.npages pgdir s.mem) (o : OutsideUvpt va) where
  -- `check_va2pa` is the translation of the hardware: the address of the mapped page, or ~0.
  pub check_va2pa-translate :
      pte_at pgdir s.mem va < 2 ^ 32
      → check_va2pa pgdir va s ≡ ok (page_address (translate pgdir s.mem va)) s
  unfolding check_va2pa
  check_va2pa-translate word = elim (Bool-cases (pde_at pgdir s.mem va % 2 == 0)) [
    | inl absent ↦ rw (load-pde s va v.dir, present_lem (pde_at pgdir s.mem va), absent)
    | inr p ↦
        let t = v.tables va o p in
        rw
          (
            load-pde s va v.dir,
            present_lem (pde_at pgdir s.mem va),
            p,
            kaddr-table s va v.dir.small t,
            load-pte s va t,
            present_lem (pte_at pgdir s.mem va),
            pte_addr_lem (pte_at pgdir s.mem va) word,
          )
          (ground arith)
  ]

  -- An address that has no translation: `page_remove` does nothing.
  page_remove-none : translate pgdir s.mem va ≡ none → page_remove pgdir va s ≡ ok tt s
  unfolding page_remove
  page_remove-none e = elim (Bool-cases (pde_at pgdir s.mem va % 2 == 0)) [
    | inl absent ↦ rw (walk-absent s pgdir va v.dir absent)
    | inr p ↦
        let t = v.tables va o p in
        let gone : (pte_at pgdir s.mem va % 2 == 0) ≡ true = ground arith in
        rw (
          walk-present s pgdir va v.dir 0 p t,
          load-pte s va t,
          present_lem (pte_at pgdir s.mem va),
          gone,
        )
  ]

  -- `page_remove` of a mapped address drops one reference to the page that it maps (and puts the
  -- page on the free list if that was the last), clears the entry, and flushes the address from
  -- the TLB. Then the address has no translation, and every other page keeps its own.
  pub page_remove-some :
      (f va' : ℕ) (xs : List ℕ)
      → translate pgdir s.mem va ≡ some f
      → f / 4096 < s.npages
      → (s.pages (f / 4096)).pp_ref < 2 ^ 16
      → (s.pages (f / 4096)).pp_link ≡ none
      → has (f / 4096) xs ≡ false
      → FreeList s xs
      → OutsideUvpt va'
      → va' / 4096 ≢ va / 4096
      → (page_remove pgdir va s ≡ ok tt (unmapped s pgdir va f))
        × FreeList
            (unmapped s pgdir va f)
            (if (s.pages (f / 4096)).pp_ref == 1 then f / 4096 ∷ xs else xs)
        × IsSpace s.npages pgdir (unmapped s pgdir va f).mem
        × (translate pgdir (unmapped s pgdir va f).mem va ≡ none)
        × (translate pgdir (unmapped s pgdir va f).mem va' ≡ translate pgdir s.mem va')
  unfolding page_remove tlb_invalidate
  page_remove-some f va' xs e inside small unlinked out c o' ne =
      let p : Present pgdir s.mem va = ground arith in
      let t = v.tables va o p in
      let here : pte_at pgdir s.mem va ≡ f = ground arith in
      let live : (f % 2 == 0) ≡ false = ground arith in
      let (run, list) = page_decref_lem s (f / 4096) xs inside small unlinked out c in
      (
        rw (walk-present s pgdir va v.dir 0 p t, load-pte s va t, here, present_lem f, live)
            (rw (
              pa2page-ok f s (omega (arith, pgnum_lem f)),
              pgnum_lem f,
              run,
              store-pte (released (f / 4096) (s.pages (f / 4096)).pp_ref s) va 0 t,
            )),
        list,
        written-IsSpace v va 0 o p,
        translate-written v va 0 o p,
        translate-written_ne v va 0 o p va' o' ne,
      )

  -- `page_lookup` gives the page that the entry of `va` names, and its entry if that is asked
  -- for, whenever the page table is there, whether or not the entry is present.
  pub page_lookup_lem :
      (wanted : Bool)
      → Present pgdir s.mem va
      → pte_at pgdir s.mem va / 4096 < s.npages
      → page_lookup pgdir va wanted s
        ≡ ok
            (
              some (pte_at pgdir s.mem va / 4096),
              if wanted then some (pte_slot (table_kva (pde_at pgdir s.mem va)) va) else none,
            )
            s
  unfolding page_lookup
  page_lookup_lem wanted p inside =
      let t = v.tables va o p in
      rw (
        walk-present s pgdir va v.dir 0 p t,
        load-pte s va t,
        pa2page-ok (pte_at pgdir s.mem va) s (omega (arith, pgnum_lem (pte_at pgdir s.mem va))),
        pgnum_lem (pte_at pgdir s.mem va),
      )

  pub page_lookup-absent :
      (wanted : Bool)
      → (pde_at pgdir s.mem va % 2 == 0) ≡ true
      → page_lookup pgdir va wanted s ≡ ok (none, none) s
  unfolding page_lookup
  page_lookup-absent wanted absent = rw (walk-absent s pgdir va v.dir absent)

  -- Where the page table is there, an address that maps nothing through a cleared entry is
  -- answered with page 0, not with NULL.
  pub page_lookup-unmapped :
      (wanted : Bool)
      → Present pgdir s.mem va
      → pte_at pgdir s.mem va ≡ 0
      → (translate pgdir s.mem va ≡ none)
        × (page_lookup pgdir va wanted s
            ≡ ok
                (
                  some 0,
                  if wanted then some (pte_slot (table_kva (pde_at pgdir s.mem va)) va) else none,
                )
                s)
  page_lookup-unmapped wanted p zeroed = (
    rw (p, zeroed),
    page_lookup_lem wanted p (omega (arith, zeroed, v.dir.inside))
        ∙ ap
            (λ e.
              ok
                (
                  some (e / 4096),
                  if wanted then some (pte_slot (table_kva (pde_at pgdir s.mem va)) va) else none,
                )
                s)
            zeroed,
  )
