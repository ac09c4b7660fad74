-- ===== src/Pmap/State.antt =====
-- The state of kern/pmap.c and the commands over it. Physical memory is an array of 32-bit words;
-- the array `pages` is kept beside it. A `struct PageInfo *` is an index of `pages`, `NULL` is
-- `none`, and a pointer to a table entry is its kernel virtual address.
pub mod Rules
pub use os.Base.{update}
use os.Base.{
  ℕ, ◌+◌, ◌-◌, ◌*◌, ◌/◌, ◌%◌, ◌^◌, Bool, true, false, ◌||◌, ◌&&◌, Option, none, some, List, [], ◌∷◌,
  ltb, leb, ◌==◌, if◌then◌else◌, add32, sub32, u32, shl32,
}
use os.Mmu.{pgnum, pgshift, kernbase}

-- `struct PageInfo`; `pp_ref` is 16 bits wide.
pub record PageInfo : Type 0 where
  pub pp_link : Option ℕ
  pub pp_ref : ℕ

pub record Kernel : Type 0 where
  -- `end[]` and `bootstack[]`, set by the linker
  pub image_end : ℕ
  pub bootstack : ℕ
  -- the static variables of kern/pmap.c
  pub npages : ℕ
  pub npages_basemem : ℕ
  pub nextfree : ℕ
  pub page_free_list : Option ℕ
  pub kern_pgdir : ℕ
  pub pages : ℕ → PageInfo
  -- where `pages` lies
  pub pages_kva : ℕ
  -- memory, by word; the addresses that `invlpg` was given, last first; control registers
  pub mem : ℕ → ℕ
  pub flushed : List ℕ
  pub cr0 : ℕ
  pub cr3 : ℕ

-- The calls of `panic`.
pub data Panic : Type 0 where
  boot_alloc_full page_free_in_use bad_kva bad_pa bad_page assertion null_pages null_free_list :
      Panic

-- `fault` is an access outside the objects that the model knows; a loop that has used up its
-- rounds is `out_of_fuel`.
pub data Run (A : Type 0) : Type 0 where
  ok : A → Kernel → Run A
  panic : Panic → Run A
  fault : Run A
  out_of_fuel : Run A

abbrev pub K : Type 0 → Type 0
K A = Kernel → Run A

abbrev pub pure : {A : Type 0} → A → K A
pure a s = ok a s

abbrev pub stop : {A : Type 0} → Panic → K A
stop p s = panic p

abbrev pub and_then : {A B : Type 0} → Run A → (A → K B) → Run B
and_then (ok a s) k = k a s
and_then (panic p) k = panic p
and_then fault k = fault
and_then out_of_fuel k = out_of_fuel

infixl 5 ◌>>=◌ ◌>>◌
abbrev pub ◌>>=◌ : {A B : Type 0} → K A → (A → K B) → K B
◌>>=◌ m f s = and_then (m s) f

abbrev pub ◌>>◌ : {B : Type 0} → K (Unit {0}) → K B → K B
m >> k = m >>= λ _. k

-- `pages[i]`
unfoldable pub page_at : ℕ → K PageInfo
page_at i s = if ltb i s.npages then ok (s.pages i) s else fault

unfoldable pub set_page : ℕ → PageInfo → K (Unit {0})
set_page i p s = if ltb i s.npages then ok tt (record s { pages = update s.pages i p }) else fault

-- `pages[i].pp_link = l`
unfoldable pub set_link : ℕ → Option ℕ → K (Unit {0})
unfolding page_at set_page
set_link i l = do p ← page_at i; set_page i (record p { pp_link = l })

-- `pages[i].pp_ref = r`
unfoldable pub set_ref : ℕ → ℕ → K (Unit {0})
unfolding page_at set_page
set_ref i r = do p ← page_at i; set_page i (record p { pp_ref = r })

abbrev pub get_free_list : K (Option ℕ)
get_free_list s = ok s.page_free_list s

abbrev pub set_free_list : Option ℕ → K (Unit {0})
set_free_list l s = ok tt (record s { page_free_list = l })

-- Kernel addresses map physical memory, word by word.
abbrev pub word_index : ℕ → ℕ
word_index kva = (kva - kernbase) / 4

abbrev pub in_window : ℕ → Kernel → Bool
in_window kva s = leb kernbase kva && ltb ((kva - kernbase) / 4096) s.npages

-- `*p` and `*p = w` for a pointer to a word, in the window at KERNBASE that `mem_init` maps.
-- Before that, kern/entrypgdir.c maps only the first 4 MB of it, which is not told apart.
unfoldable pub load : ℕ → K ℕ
load kva s = if in_window kva s then ok (s.mem (word_index kva)) s else fault

unfoldable pub store : ℕ → ℕ → K (Unit {0})
store kva w s =
    if in_window kva s then ok tt (record s { mem = update s.mem (word_index kva) w }) else fault

-- `memset` of whole words: every call in kern/pmap.c has an address and a length that are
-- multiples of 4, and they stay within one page.
unfoldable pub memset_words : ℕ → ℕ → ℕ → K (Unit {0})
memset_words kva c n s =
    if in_window kva s
    then ok tt (record s {
      mem = λ j.
          if leb (word_index kva) j && ltb j (word_index kva + n / 4)
          then c % 256 * 0x0101_0101
          else s.mem j;
    })
    else fault

-- `PADDR` and `KADDR`
unfoldable pub paddr : ℕ → K ℕ
paddr kva = if ltb kva kernbase then stop bad_kva else pure (sub32 kva kernbase)

unfoldable pub kaddr : ℕ → K ℕ
kaddr pa s = if leb s.npages (pgnum pa) then panic bad_pa else ok (add32 pa kernbase) s

unfoldable pub page2pa : ℕ → ℕ
page2pa i = shl32 i pgshift

unfoldable pub pa2page : ℕ → K ℕ
pa2page pa s = if leb s.npages (pgnum pa) then panic bad_page else ok (pgnum pa) s

unfoldable pub page2kva : ℕ → K ℕ
unfolding kaddr page2pa
page2kva i = kaddr (page2pa i)
