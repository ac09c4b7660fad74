-- ===== src/Pmap/Tables/Walk.antt =====
-- `pgdir_walk` on every branch.
use os.Base.{
  ℕ, suc, ◌+◌, ◌*◌, ◌%◌, ◌^◌, ◌≤◌, ◌<◌, ◌≡◌, refl, true, false, Option, none, some, List, [], ◌∷◌,
  ◌==◌, bit_or, arith, ap, ◌∙◌, ne→==, fun_ext,
}
use os.Base.Bits.{or_page, or_low}
use os.Mmu.{kernbase, pte_p, pte_w, pte_u}
use os.Pmap.State.{Kernel, ok, update, page2pa, and_then, load, K}
use os.Pmap.State.Rules.{page_at-ok, set_link-ok, set_ref-ok, page2pa_lem}
use os.Pmap.Pages.{alloc_zero}
use os.Pmap.Pages.Chain.{FreeList, Chain-update}
use os.Pmap.Pages.Alloc.{taken, cleared, page_alloc-cons, page_alloc-nil}
use os.Pmap.Tables.{pde_slot, pte_slot, incref, table_entry, grow, pgdir_walk}
use os.Pmap.Tables.Translate.{
  dir_of, dir_index, pde_at, IsDir, IsTable, table_kva, load-pde, store-pde, kaddr-table,
  present_lem,
}

pub incref-ok :
    (s : Kernel) (i : ℕ)
    → i < s.npages
    → incref i s
      ≡ ok tt (record s {
        pages =
            update s.pages i (record {
              pp_link = (s.pages i).pp_link;
              pp_ref = ((s.pages i).pp_ref + 1) % 2 ^ 16;
            });
      })
unfolding incref
incref-ok s i inside =
    rw (page_at-ok s i inside) (set_ref-ok s i inside (((s.pages i).pp_ref + 1) % 2 ^ 16))

pub table_entry-ok :
    (s : Kernel) (va e : ℕ)
    → s.npages ≤ 2 ^ 16
    → IsTable s.npages e
    → table_entry e va s ≡ ok (some (pte_slot (table_kva e) va)) s
unfolding table_entry
table_entry-ok s va e small t = rw (kaddr-table s va small t)

-- The directory entry for a fresh page table in page `i`.
abbrev pub fresh_entry : ℕ → ℕ
fresh_entry i = i * 4096 + 7

fresh_entry_lem :
    (i : ℕ) → i < 2 ^ 16 → bit_or (bit_or (bit_or (page2pa i) pte_p) pte_w) pte_u ≡ fresh_entry i
fresh_entry_lem i h =
    rw
      (
        page2pa_lem i (omega arith),
        or_page i 1 (omega arith),
        or_low i 1 2 (omega arith) (omega arith),
        or_low i 3 4 (omega arith) (omega arith),
      )
      refl

module _ (s : Kernel) (pgdir va : ℕ) where
  -- What the walk leaves when it makes a page table in page `i`.
  abbrev pub grown : ℕ → Kernel
  grown i = record s {
    page_free_list = (s.pages i).pp_link;
    pages = update s.pages i (record { pp_link = none; pp_ref = 1 });
    mem = update (cleared alloc_zero i s.mem) (dir_index pgdir (dir_of va)) (fresh_entry i);
  }

  module _ (v : IsDir s.npages pgdir) where
    -- A present entry is followed, whatever `create` says, and nothing changes.
    pub walk-present :
        (create : ℕ)
        → (pde_at pgdir s.mem va % 2 == 0) ≡ false
        → IsTable s.npages (pde_at pgdir s.mem va)
        → pgdir_walk pgdir va create s
          ≡ ok (some (pte_slot (table_kva (pde_at pgdir s.mem va)) va)) s
    unfolding pgdir_walk
    walk-present create p t =
        rw (load-pde s va v, present_lem (pde_at pgdir s.mem va), p)
          (table_entry-ok s va (pde_at pgdir s.mem va) v.small t)

    pub walk-absent : (pde_at pgdir s.mem va % 2 == 0) ≡ true → pgdir_walk pgdir va 0 s ≡ ok none s
    unfolding pgdir_walk
    walk-absent p = rw (load-pde s va v, present_lem (pde_at pgdir s.mem va), p)

    walk-grow :
        (create : ℕ)
        → (pde_at pgdir s.mem va % 2 == 0) ≡ true
        → pgdir_walk pgdir va (suc create) s ≡ grow pgdir va s
    unfolding pgdir_walk
    walk-grow create p = rw (
      load-pde s va v,
      present_lem (pde_at pgdir s.mem va),
      p,
      ne→== (suc create) 0 (omega arith),
    )

    pub walk-full :
        (create : ℕ)
        → (pde_at pgdir s.mem va % 2 == 0) ≡ true
        → FreeList s []
        → pgdir_walk pgdir va (suc create) s ≡ ok none s
    walk-full create p c = walk-grow create p ∙ unfold grow in rw (page_alloc-nil s alloc_zero c)

    abbrev table_tail : ℕ → K (Option ℕ)
    table_tail e = table_entry e va

    -- The page as `page_alloc`, `pp_ref++` and `pp_link = NULL` leave it.
    counted : ℕ → Kernel
    counted i = record (taken alloc_zero i s) {
      pages = update (taken alloc_zero i s).pages i (record {
        pp_link = ((taken alloc_zero i s).pages i).pp_link;
        pp_ref = (((taken alloc_zero i s).pages i).pp_ref + 1) % 2 ^ 16;
      });
    }

    unlinked : ℕ → Kernel
    unfolding counted
    unlinked i = record (counted i) {
      pages =
          update (counted i).pages i
            (record { pp_link = none; pp_ref = ((counted i).pages i).pp_ref });
    }

    walk-fresh_entry :
        (i : ℕ)
        → i < s.npages
        → table_entry (pde_at pgdir (grown i).mem va) va (grown i)
          ≡ ok (some (pte_slot (i * 4096 + kernbase) va)) (grown i)
    walk-fresh_entry i inside =
        let e : pde_at pgdir (grown i).mem va ≡ fresh_entry i = ground arith in
        let t : IsTable s.npages (fresh_entry i) = omega (arith, v.small, inside) in
        rw e (
          table_entry-ok (grown i) va (fresh_entry i) v.small t
          ∙ ap (λ a. ok (some (pte_slot a va)) (grown i)) (omega arith))

    grow-fresh :
        (i : ℕ) (rest : List ℕ)
        → FreeList s (i ∷ rest)
        → grow pgdir va s ≡ ok (some (pte_slot (i * 4096 + kernbase) va)) (grown i)
    unfolding grow counted unlinked
    grow-fresh i rest c =
        rw
          (
            (page_alloc-cons s alloc_zero i rest v.small c).0,
            incref-ok (taken alloc_zero i s) i c.1,
            set_link-ok (counted i) i c.1 none,
            fresh_entry_lem i (omega (arith, v.small, c.1)),
            store-pde (unlinked i) va (fresh_entry i) v,
          )
          (ap (λ p. and_then (load (pde_slot pgdir va) (record (grown i) { pages = p })) table_tail)
              (fun_ext same)
            ∙ rw (load-pde (grown i) va v) (walk-fresh_entry i c.1))
      where
        same : (j : ℕ) → (unlinked i).pages j ≡ (grown i).pages j
        same j = ground (arith, c.2)

    -- A missing table is made in the first free page: its words are zero, its count is 1, and
    -- the directory entry points to it with the flags P, W and U.
    pub walk-fresh :
        (create i : ℕ) (rest : List ℕ)
        → (pde_at pgdir s.mem va % 2 == 0) ≡ true
        → FreeList s (i ∷ rest)
        → (pgdir_walk pgdir va (suc create) s
            ≡ ok (some (pte_slot (i * 4096 + kernbase) va)) (grown i))
          × FreeList (grown i) rest
    walk-fresh create i rest p c = (
      walk-grow create p ∙ grow-fresh i rest c,
      Chain-update s.npages s.pages (s.pages i).pp_link rest i
          (record { pp_link = none; pp_ref = 1 }) c.3 c.4,
    )
