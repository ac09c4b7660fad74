-- ===== src/Mmu.antt =====
-- inc/mmu.h and inc/memlayout.h: the parts of a linear address, the flags of page table entries,
-- and the layout of the address space.
pub mod Address
pub mod Segment
use os.Base.{ℕ, ◌+◌, ◌-◌, ◌*◌, ◌/◌, ◌%◌, ◌^◌, bit_and, bit_or, shl32, shr, sub32}

abbrev pub pgsize : ℕ
pgsize = 4096

abbrev pub pgshift : ℕ
pgshift = 12

abbrev pub npdentries : ℕ
npdentries = 1024

abbrev pub nptentries : ℕ
nptentries = 1024

abbrev pub ptsize : ℕ
ptsize = pgsize * nptentries

abbrev pub ptxshift : ℕ
ptxshift = 12

abbrev pub pdxshift : ℕ
pdxshift = 22

abbrev pub pte_p : ℕ
pte_p = 0x001

abbrev pub pte_w : ℕ
pte_w = 0x002

abbrev pub pte_u : ℕ
pte_u = 0x004

-- A linear address is a 32-bit number.
unfoldable pub pgnum : ℕ → ℕ
pgnum la = shr la ptxshift

unfoldable pub pdx : ℕ → ℕ
pdx la = bit_and (shr la pdxshift) 0x3ff

unfoldable pub ptx : ℕ → ℕ
ptx la = bit_and (shr la ptxshift) 0x3ff

unfoldable pub pgoff : ℕ → ℕ
pgoff la = bit_and la 0xfff

unfoldable pub pgaddr : ℕ → ℕ → ℕ → ℕ
pgaddr d t o = bit_or (bit_or (shl32 d pdxshift) (shl32 t ptxshift)) o

unfoldable pub pte_addr : ℕ → ℕ
pte_addr pte = bit_and pte 0xffff_f000

abbrev pub kernbase : ℕ
kernbase = 0xf000_0000

abbrev pub iophysmem : ℕ
iophysmem = 0x0a_0000

abbrev pub extphysmem : ℕ
extphysmem = 0x10_0000

abbrev pub kstacktop : ℕ
kstacktop = kernbase

abbrev pub kstksize : ℕ
kstksize = 8 * pgsize

abbrev pub mmiolim : ℕ
mmiolim = kstacktop - ptsize

abbrev pub ulim : ℕ
ulim = mmiolim - ptsize

abbrev pub uvpt : ℕ
uvpt = ulim - ptsize

abbrev pub upages : ℕ
upages = uvpt - ptsize
