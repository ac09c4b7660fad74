-- ===== src/Pmap/Pages/Alloc.antt =====
-- What `page_alloc`, `page_free` and `page_decref` do to a well-formed free list.
use os.Base.{
  ℕ, ◌+◌, ◌*◌, ◌/◌, ◌^◌, ◌<◌, ◌≤◌, ◌≡◌, inl, inr, Bool, none, some, List, [], ◌∷◌, ◌==◌,
  if◌then◌else◌, arith, bit_and, fun_ext, ap, Bool-cases,
}
use os.Mmu.{pgsize, kernbase}
use os.Pmap.State.{Kernel, ok, update}
use os.Pmap.State.Rules.{page_at-ok, set_link-ok, page2kva-ok, memset_words-ok}
use os.Pmap.Pages.{alloc_zero, clear_page, page_alloc}
use os.Pmap.Pages.Chain.{FreeList, Chain-update}

-- Word `j` of memory lies in page `i`.
abbrev pub in_page : ℕ → ℕ → Bool
in_page i j = j / 1024 == i

-- What `clear_page` leaves in memory.
abbrev pub cleared : ℕ → ℕ → (ℕ → ℕ) → ℕ → ℕ
cleared flags i mem j =
    if bit_and flags alloc_zero == 0 then mem j else if in_page i j then 0 else mem j

clear_page-ok :
    (s : Kernel) (flags i : ℕ)
    → i < s.npages
    → s.npages ≤ 2 ^ 16
    → clear_page flags i s ≡ ok tt (record s { mem = cleared flags i s.mem })
unfolding clear_page
clear_page-ok s flags i inside small = elim (Bool-cases (bit_and flags alloc_zero == 0)) [
  | inl plain ↦ rw plain (ap (λ m. ok tt (record s { mem = m })) (fun_ext λ j. ground arith))
  | inr zeroed ↦
      rw
        (
          zeroed,
          page2kva-ok i s inside small,
          memset_words-ok s (i * 4096 + kernbase) (omega arith) (omega arith) 0 pgsize,
        )
        (ap (λ m. ok tt (record s { mem = m })) (fun_ext λ j. ground arith))
]

-- What `page_alloc` leaves when it takes page `i`.
abbrev pub taken : ℕ → ℕ → Kernel → Kernel
taken flags i s = record s {
  page_free_list = (s.pages i).pp_link;
  pages = update s.pages i (record { pp_link = none; pp_ref = (s.pages i).pp_ref });
  mem = cleared flags i s.mem;
}

abbrev unlinked : ℕ → Kernel → Kernel
unlinked i s = record s {
  page_free_list = (s.pages i).pp_link;
  pages = update s.pages i (record { pp_link = none; pp_ref = (s.pages i).pp_ref });
}

-- With a page on the free list, `page_alloc` takes the first one: its link is cleared, the rest
-- of the list stays, its memory is zeroed exactly if the flag asks for it, and its reference
-- count stays 0.
pub page_alloc-cons :
    (s : Kernel) (flags i : ℕ) (rest : List ℕ)
    → s.npages ≤ 2 ^ 16
    → FreeList s (i ∷ rest)
    → (page_alloc flags s ≡ ok (some i) (taken flags i s))
      × FreeList (taken flags i s) rest
      × (((taken flags i s).pages i).pp_ref ≡ 0)
unfolding page_alloc
page_alloc-cons s flags i rest small c = (
  simp c.0 (
      rw (
        page_at-ok s i c.1,
        set_link-ok (record s { page_free_list = (s.pages i).pp_link }) i c.1 none,
        clear_page-ok (unlinked i s) flags i c.1 small,
      )),
  Chain-update s.npages s.pages (s.pages i).pp_link rest i _ c.3 c.4,
  ground arith,
)

-- With none, it returns NULL and changes nothing.
pub page_alloc-nil : (s : Kernel) (flags : ℕ) → FreeList s [] → page_alloc flags s ≡ ok none s
unfolding page_alloc
page_alloc-nil s flags c = rw c
