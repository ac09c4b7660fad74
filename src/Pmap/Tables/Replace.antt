-- ===== src/Pmap/Tables/Replace.antt =====
-- `page_insert` where a page is mapped already, and where the page table has to be made.
use os.Base.{
  ℕ, ◌+◌, ◌*◌, ◌/◌, ◌%◌, ◌^◌, ◌<◌, ◌≡◌, ◌≢◌, refl, true, false, none, some, List, ◌∷◌, ◌==◌,
  if◌then◌else◌, arith, ap, ◌∙◌,
}
use os.Mmu.{kernbase}
use os.Pmap.State.{Kernel, ok}
use os.Pmap.Pages.Chain.{has, FreeList, Chain-update}
use os.Pmap.Pages.Free.{counted}
use os.Pmap.Tables.{pte_slot, insert_at, page_insert, success}
use os.Pmap.Tables.Translate.{pde_at, translate, table_kva}
use os.Pmap.Tables.Walk.{grown, fresh_entry, walk-present, walk-fresh}
use os.Pmap.Tables.Space.{
  OutsideUvpt, Present, IsSpace, IsSpare, pde_at-extended, translate-extended, extended-IsSpace,
  fresh_word,
}
use os.Pmap.Tables.Remove.{pte_at, page_remove-some}
use os.Pmap.Tables.Insert.{
  entry, more, mapped, remapped, IsHeld, MapsOnly, insert_at-new, insert_at-replace,
  written-MapsOnly,
}

module _ (s : Kernel) (pgdir va i perm va' : ℕ) (xs : List ℕ) (v : IsSpace s.npages pgdir s.mem)
    (o : OutsideUvpt va) (o' : OutsideUvpt va') (ne : va' / 4096 ≢ va / 4096) (held : IsHeld s xs i)
    (flags : perm < 4096) where
  module _ (f : ℕ) (e : translate pgdir s.mem va ≡ some f) (old : IsHeld s xs (f / 4096))
      (list : FreeList s xs) where
    -- At a mapped address it counts one more reference to the new page and one less to the old,
    -- which goes to the free list if none is left, replaces the entry, and flushes the address;
    -- every other page keeps its translation.
    pub page_insert-replace :
        (page_insert pgdir i va perm s ≡ ok success (remapped pgdir va i perm f s))
        × FreeList
            (remapped pgdir va i perm f s)
            (if ((counted i (more s i) s).pages (f / 4096)).pp_ref == 1 then f / 4096 ∷ xs else xs)
        × MapsOnly pgdir s (remapped pgdir va i perm f s) va va' (entry i perm)
    unfolding page_insert
    page_insert-replace =
        let p : Present pgdir s.mem va = ground arith in
        let here : pte_at pgdir s.mem va ≡ f = ground arith in
        let live : (f % 2 == 0) ≡ false = ground arith in
        let small : ((counted i (more s i) s).pages (f / 4096)).pp_ref < 2 ^ 16 =
          ground (arith, old.count) in
        let unlinked : ((counted i (more s i) s).pages (f / 4096)).pp_link ≡ none =
          ground (arith, old.unlinked, held.unlinked) in
        let chain =
          Chain-update s.npages s.pages s.page_free_list xs i
            (record { pp_link = (s.pages i).pp_link; pp_ref = more s i }) held.off_list list in
        let removed =
          page_remove-some (counted i (more s i) s) pgdir va v o f va' xs e old.inside small
            unlinked old.off_list chain o' ne in
        (
          rw (walk-present s pgdir va v.dir 1 p (v.tables va o p))
              (insert_at-replace s pgdir va i perm v o p held.inside flags f here live removed.0),
          removed.1,
          written-MapsOnly s (remapped pgdir va i perm f s) pgdir va i perm va' v o p o' ne refl
              refl,
        )

  -- With no page table it makes one in the first free page, which maps nothing else, and maps
  -- the page there; every other page keeps its translation.
  pub page_insert-grow :
      (k : ℕ) (rest : List ℕ)
      → (pde_at pgdir s.mem va % 2 == 0) ≡ true
      → xs ≡ k ∷ rest
      → FreeList s (k ∷ rest)
      → IsSpare s.npages pgdir s.mem k
      → (page_insert pgdir i va perm s ≡ ok success (mapped pgdir va i perm (grown s pgdir va k)))
        × FreeList (mapped pgdir va i perm (grown s pgdir va k)) rest
        × MapsOnly pgdir s (mapped pgdir va i perm (grown s pgdir va k)) va va' (entry i perm)
  unfolding page_insert
  page_insert-grow k rest absent whole list spare =
      let (run, chain) = walk-fresh s pgdir va v.dir 0 k rest absent list in
      let pde : pde_at pgdir (grown s pgdir va k).mem va ≡ fresh_entry k =
        pde_at-extended v va k o absent spare va ∙ ground arith in
      let p : Present pgdir (grown s pgdir va k).mem va = rw pde (ground arith) in
      let space = extended-IsSpace v va k o absent spare in
      let clear : pte_at pgdir (grown s pgdir va k).mem va ≡ 0 =
        rw pde (fresh_word v va k o absent spare va refl) in
      let place : k * 4096 + kernbase ≡ table_kva (pde_at pgdir (grown s pgdir va k).mem va) =
        rw pde (omega arith) in
      let off : has i rest ≡ false = ground (arith, held.off_list, whole) in
      let link =
        Chain-update s.npages (grown s pgdir va k).pages (s.pages k).pp_link rest i
          (record {
            pp_link = ((grown s pgdir va k).pages i).pp_link;
            pp_ref = more (grown s pgdir va k) i;
          })
          off chain in
      let out =
        written-MapsOnly (grown s pgdir va k) (mapped pgdir va i perm (grown s pgdir va k)) pgdir va
          i perm va' space o p o' ne refl refl in
      (
        rw run (
            ap (λ a. insert_at pgdir i va perm (pte_slot a va) (grown s pgdir va k)) place
            ∙ insert_at-new (grown s pgdir va k) pgdir va i perm space o p held.inside flags
                (rw clear refl)),
        link,
        (out.0, out.1, out.2 ∙ translate-extended v va k o absent spare va' o'),
      )
