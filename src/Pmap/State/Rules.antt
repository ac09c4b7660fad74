-- ===== src/Pmap/State/Rules.antt =====
-- One equation for each command, where its condition holds.
use os.Base.{
  ℕ, ◌+◌, ◌-◌, ◌*◌, ◌/◌, ◌%◌, ◌^◌, ◌≤◌, ◌<◌, ◌≡◌, ap, fun_ext, Option, ◌&&◌, ltb, leb,
  if◌then◌else◌, add32, sub32, arith,
}
use os.Mmu.{kernbase, pgnum}
use os.Mmu.Address.{pgnum_lem}
use os.Pmap.State.{
  PageInfo, Kernel, ok, panic, bad_kva, bad_pa, update, page_at, set_page, set_link, set_ref, load,
  store, memset_words, word_index, paddr, kaddr, page2pa, pa2page, page2kva,
}

-- States that differ in the free list only.
pub list_eq :
    (s : Kernel) {first first' : Option ℕ} {pages pages' : ℕ → PageInfo}
    → first ≡ first'
    → ((j : ℕ) → pages j ≡ pages' j)
    → (record s { page_free_list = first; pages = pages })
      ≡ (record s { page_free_list = first'; pages = pages' })
list_eq s p q = λ k. record s { page_free_list = p k; pages = fun_ext q k }

module _ (s : Kernel) (i : ℕ) (inside : i < s.npages) where
  pub page_at-ok : page_at i s ≡ ok (s.pages i) s
  unfolding page_at
  page_at-ok = ground arith

  pub set_page-ok :
      (p : PageInfo) → set_page i p s ≡ ok tt (record s { pages = update s.pages i p })
  unfolding set_page
  set_page-ok p = ground arith

  pub set_link-ok :
      (l : Option ℕ)
      → set_link i l s
        ≡ ok tt (record s {
          pages = update s.pages i (record { pp_link = l; pp_ref = (s.pages i).pp_ref });
        })
  unfolding set_link
  set_link-ok l = ground arith

  pub set_ref-ok :
      (r : ℕ)
      → set_ref i r s
        ≡ ok tt (record s {
          pages = update s.pages i (record { pp_link = (s.pages i).pp_link; pp_ref = r });
        })
  unfolding set_ref
  set_ref-ok r = ground arith

pub paddr-ok : (kva : ℕ) (s : Kernel) → kernbase ≤ kva → paddr kva s ≡ ok (sub32 kva kernbase) s
unfolding paddr
paddr-ok kva s h = ground arith

pub paddr-panic : (kva : ℕ) (s : Kernel) → kva < kernbase → paddr kva s ≡ panic bad_kva
unfolding paddr
paddr-panic kva s h = ground arith

pub kaddr-ok : (pa : ℕ) (s : Kernel) → pgnum pa < s.npages → kaddr pa s ≡ ok (add32 pa kernbase) s
unfolding kaddr
kaddr-ok pa s h = ground arith

pub kaddr-panic : (pa : ℕ) (s : Kernel) → s.npages ≤ pgnum pa → kaddr pa s ≡ panic bad_pa
unfolding kaddr
kaddr-panic pa s h = ground arith

pub pa2page-ok : (pa : ℕ) (s : Kernel) → pgnum pa < s.npages → pa2page pa s ≡ ok (pgnum pa) s
unfolding pa2page
pa2page-ok pa s h = ground arith

-- A kernel address of a word of page `i`.
pub page2pa_lem : (i : ℕ) → i < 2 ^ 20 → page2pa i ≡ i * 4096
unfolding page2pa
page2pa_lem i h = omega arith

module _ (s : Kernel) (kva : ℕ) (low : kernbase ≤ kva)
    (high : (kva - kernbase) / 4096 < s.npages) where
  pub load-ok : load kva s ≡ ok (s.mem (word_index kva)) s
  unfolding load
  load-ok = ground arith

  pub store-ok :
      (w : ℕ) → store kva w s ≡ ok tt (record s { mem = update s.mem (word_index kva) w })
  unfolding store
  store-ok w = ground arith

  pub memset_words-ok :
      (c n : ℕ)
      → memset_words kva c n s
        ≡ ok tt (record s {
          mem = λ j.
              if leb (word_index kva) j && ltb j (word_index kva + n / 4)
              then c % 256 * 0x0101_0101
              else s.mem j;
        })
  unfolding memset_words
  memset_words-ok c n = ground arith

pub page2kva-ok :
    (i : ℕ) (s : Kernel)
    → i < s.npages
    → s.npages ≤ 2 ^ 16
    → page2kva i s ≡ ok (i * 4096 + kernbase) s
unfolding page2kva
page2kva-ok i s inside small =
    rw (page2pa_lem i (omega arith), kaddr-ok (i * 4096) s (omega (arith, pgnum_lem (i * 4096))))
      (ap (λ a. ok a s) (omega arith))
