-- ===== src/Pmap/Tables/Insert.antt =====
-- `page_insert` in an address space.
use os.Base.{
  ℕ, ◌+◌, ◌*◌, ◌/◌, ◌%◌, ◌^◌, ◌<◌, ◌≡◌, ◌≢◌, refl, true, false, none, some, List, [], ◌==◌, arith,
  ap, ◌∙◌, fun_ext, bit_or,
}
use os.Mmu.{pte_p}
use os.Pmap.State.{Kernel, ok, page2pa}
use os.Pmap.State.Rules.{page2pa_lem}
use os.Pmap.Pages.Chain.{has, FreeList}
use os.Pmap.Pages.Free.{counted}
use os.Pmap.Tables.{pte_slot, page_remove, insert_at, page_insert, success, no_mem}
use os.Pmap.Tables.Translate.{
  pde_at, translate, IsDir, table_kva, load-pte, store-pte, present_lem, entry_lem,
}
use os.Pmap.Tables.Walk.{incref-ok, walk-present, walk-full}
use os.Pmap.Tables.Space.{
  OutsideUvpt, Present, IsSpace, written, translate-written, translate-written_ne, written-IsSpace,
}
use os.Pmap.Tables.Remove.{pte_at, unmapped}

-- The entry that maps page `i` with the permissions `perm`, which is made present.
abbrev pub entry : ℕ → ℕ → ℕ
entry i perm = i * 4096 + perm / 2 * 2 + 1

entry_word :
    (i perm : ℕ) → i < 2 ^ 16 → perm < 4096 → bit_or (bit_or (page2pa i) perm) pte_p ≡ entry i perm
entry_word i perm h hp = rw (page2pa_lem i (omega arith)) (entry_lem i perm hp)

entry_odd : (i perm : ℕ) → (entry i perm % 2 == 0) ≡ false
entry_odd i perm = ground arith

abbrev pub more : Kernel → ℕ → ℕ
more s i = ((s.pages i).pp_ref + 1) % 2 ^ 16

-- What it leaves when the entry was clear, and when the entry was `f`.
abbrev pub mapped : ℕ → ℕ → ℕ → ℕ → Kernel → Kernel
mapped pgdir va i perm s = record (counted i (more s i) s) {
  mem = written pgdir s.mem va (entry i perm);
}

abbrev pub remapped : ℕ → ℕ → ℕ → ℕ → ℕ → Kernel → Kernel
remapped pgdir va i perm f s = record (unmapped (counted i (more s i) s) pgdir va f) {
  mem = written pgdir s.mem va (entry i perm);
}

-- Page `i` is a page of the machine in use: off the free list `xs`, with a count of 16 bits.
pub record IsHeld (s : Kernel) (xs : List ℕ) (i : ℕ) : Type 0 where
  pub inside : i < s.npages
  pub unlinked : (s.pages i).pp_link ≡ none
  pub off_list : has i xs ≡ false
  pub count : (s.pages i).pp_ref < 2 ^ 16

module _ (s : Kernel) (pgdir va i perm : ℕ) (v : IsSpace s.npages pgdir s.mem) (o : OutsideUvpt va)
    (p : Present pgdir s.mem va) (inside : i < s.npages) (flags : perm < 4096) where
  abbrev pub slot : ℕ
  slot = pte_slot (table_kva (pde_at pgdir s.mem va)) va

  pub insert_at-new :
      (pte_at pgdir s.mem va % 2 == 0) ≡ true
      → insert_at pgdir i va perm slot s ≡ ok success (mapped pgdir va i perm s)
  unfolding insert_at
  insert_at-new clear =
      let t = v.tables va o p in
      rw (
        incref-ok s i inside,
        load-pte (counted i (more s i) s) va t,
        present_lem (pte_at pgdir s.mem va),
        clear,
        entry_word i perm (omega (arith, v.dir.small)) flags,
        store-pte (counted i (more s i) s) va (entry i perm) t,
      )

  pub insert_at-replace :
      (f : ℕ)
      → pte_at pgdir s.mem va ≡ f
      → (f % 2 == 0) ≡ false
      → page_remove pgdir va (counted i (more s i) s)
        ≡ ok tt (unmapped (counted i (more s i) s) pgdir va f)
      → insert_at pgdir i va perm slot s ≡ ok success (remapped pgdir va i perm f s)
  unfolding insert_at
  insert_at-replace f e live run =
      let t = v.tables va o p in
      rw
        (
          incref-ok s i inside,
          load-pte (counted i (more s i) s) va t,
          e,
          present_lem f,
          live,
          run,
          entry_word i perm (omega (arith, v.dir.small)) flags,
          store-pte (unmapped (counted i (more s i) s) pgdir va f) va (entry i perm) t,
        )
        (ap (λ m. ok success (record (remapped pgdir va i perm f s) { mem = m }))
          (fun_ext λ j. ground arith))

-- What a write of the entry does to the translation.
abbrev pub MapsOnly : ℕ → Kernel → Kernel → ℕ → ℕ → ℕ → Type 0
MapsOnly pgdir s t va va' e =
    IsSpace t.npages pgdir t.mem
    × (translate pgdir t.mem va ≡ some e)
    × (translate pgdir t.mem va' ≡ translate pgdir s.mem va')

pub written-MapsOnly :
    (s t : Kernel) (pgdir va i perm va' : ℕ)
    → IsSpace s.npages pgdir s.mem
    → OutsideUvpt va
    → Present pgdir s.mem va
    → OutsideUvpt va'
    → va' / 4096 ≢ va / 4096
    → t.npages ≡ s.npages
    → t.mem ≡ written pgdir s.mem va (entry i perm)
    → MapsOnly pgdir s t va va' (entry i perm)
written-MapsOnly s t pgdir va i perm va' v o p o' ne n e =
    rw (n, e)
      (
        written-IsSpace v va (entry i perm) o p,
        translate-written v va (entry i perm) o p ∙ rw (entry_odd i perm) refl,
        translate-written_ne v va (entry i perm) o p va' o' ne,
      )

module _ (s : Kernel) (pgdir va i perm va' : ℕ) (xs : List ℕ) (v : IsSpace s.npages pgdir s.mem)
    (o : OutsideUvpt va) (o' : OutsideUvpt va') (ne : va' / 4096 ≢ va / 4096) (held : IsHeld s xs i)
    (flags : perm < 4096) where
  -- At an address whose entry is clear, `page_insert` counts one more reference to the page and
  -- maps it there, present and with the given permissions; every other page keeps its
  -- translation.
  pub page_insert-new :
      Present pgdir s.mem va
      → (pte_at pgdir s.mem va % 2 == 0) ≡ true
      → (page_insert pgdir i va perm s ≡ ok success (mapped pgdir va i perm s))
        × MapsOnly pgdir s (mapped pgdir va i perm s) va va' (entry i perm)
  unfolding page_insert
  page_insert-new p clear = (
    rw (walk-present s pgdir va v.dir 1 p (v.tables va o p))
        (insert_at-new s pgdir va i perm v o p held.inside flags clear),
    written-MapsOnly s (mapped pgdir va i perm s) pgdir va i perm va' v o p o' ne refl refl,
  )

-- With no page table and no free page it fails and changes nothing.
pub page_insert-full :
    (s : Kernel) (pgdir va i perm : ℕ)
    → IsDir s.npages pgdir
    → (pde_at pgdir s.mem va % 2 == 0) ≡ true
    → FreeList s []
    → page_insert pgdir i va perm s ≡ ok no_mem s
unfolding page_insert
page_insert-full s pgdir va i perm v absent c = rw (walk-full s pgdir va v 0 absent c)
