-- ===== src/Mmu/Address.antt =====
-- The macros of inc/mmu.h as arithmetic, and how they take an address apart.
use os.Base.{ℕ, ◌+◌, ◌*◌, ◌/◌, ◌%◌, ◌^◌, ◌<◌, ◌≡◌, refl, arith}
use os.Base.Bits.{
  and_ten_ones, and_twelve_ones, and_page_mask, or_page, or_split, bit_or-zero, zero-bit_or,
}
use os.Mmu.{pgnum, pdx, ptx, pgoff, pgaddr, pte_addr}

pub pgnum_lem : (la : ℕ) → pgnum la ≡ la / 4096
unfolding pgnum
pgnum_lem la = refl

pub pdx_lem : (la : ℕ) → pdx la ≡ la / 4194304 % 1024
unfolding pdx
pdx_lem la = omega (arith, and_ten_ones (la / 4194304))

pub ptx_lem : (la : ℕ) → ptx la ≡ la / 4096 % 1024
unfolding ptx
ptx_lem la = omega (arith, and_ten_ones (la / 4096))

pub pgoff_lem : (la : ℕ) → pgoff la ≡ la % 4096
unfolding pgoff
pgoff_lem la = and_twelve_ones la

pub pte_addr_lem : (e : ℕ) → e < 2 ^ 32 → pte_addr e ≡ e / 4096 * 4096
unfolding pte_addr
pte_addr_lem e h = and_page_mask e h

pub pgaddr_lem :
    (d t o : ℕ) → d < 1024 → t < 1024 → o < 4096 → pgaddr d t o ≡ d * 4194304 + t * 4096 + o
unfolding pgaddr
pgaddr_lem d t o hd ht ho = ground (
  arith,
  or_split 22 d 0 0 (t * 4096) (omega arith) (omega arith),
  bit_or-zero d,
  zero-bit_or (t * 4096),
  or_page (d * 1024 + t) o ho,
)

-- The three parts of an address make up the address, and an address built from three parts of
-- the right widths has those parts.
pgaddr_parts :
    (la d t o : ℕ)
    → la < 2 ^ 32
    → d < 1024
    → t < 1024
    → o < 4096
    → (pgaddr (pdx la) (ptx la) (pgoff la) ≡ la)
      × (pdx (pgaddr d t o) ≡ d)
      × (ptx (pgaddr d t o) ≡ t)
      × (pgoff (pgaddr d t o) ≡ o)
pgaddr_parts la d t o hla hd ht ho = omega (
  arith,
  pdx_lem la,
  ptx_lem la,
  pgoff_lem la,
  pgaddr_lem (pdx la) (ptx la) (pgoff la),
  pgaddr_lem d t o hd ht ho,
  pdx_lem (pgaddr d t o),
  ptx_lem (pgaddr d t o),
  pgoff_lem (pgaddr d t o),
)
