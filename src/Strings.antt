-- ===== src/Strings.antt =====
-- lib/string.c. A pointer is an address, and memory gives the byte at each address; a `char` is
-- such a byte. A loop that ends at a terminator has as many rounds as there are addresses.
pub mod Scan
pub mod Copy
pub mod Compare
pub mod Block
pub mod Plain
pub mod Number
mod Tests
use os.Base.{
  ℕ, zero, suc, ◌+◌, ◌-◌, ◌*◌, ◌/◌, ◌%◌, ◌^◌, Bool, true, false, ◌&&◌, not, Option, none, some,
  bit_or, ltb, leb, ◌==◌, if◌then◌else◌, shl32, sub32, update,
}

abbrev pub Memory : Type 0
Memory = ℕ → ℕ

abbrev pub addresses : ℕ
addresses = 2 ^ 32

unfoldable pub strlen_loop : ℕ → Memory → ℕ → ℕ → Option ℕ
strlen_loop zero m s n = none
strlen_loop (suc fuel) m s n = elim (m s == 0) [
  | true ↦ some n
  | false ↦ strlen_loop fuel m (s + 1) (n + 1)
]

unfoldable pub strlen : Memory → ℕ → Option ℕ
strlen m s = strlen_loop addresses m s 0

unfoldable pub strnlen_loop : ℕ → Memory → ℕ → ℕ → ℕ
strnlen_loop zero m s n = n
strnlen_loop (suc size) m s n = elim (m s == 0) [
  | true ↦ n
  | false ↦ strnlen_loop size m (s + 1) (n + 1)
]

unfoldable pub strnlen : Memory → ℕ → ℕ → ℕ
strnlen m s size = strnlen_loop size m s 0

unfoldable pub strcpy_loop : ℕ → ℕ → ℕ → Memory → Option Memory
strcpy_loop zero dst src m = none
strcpy_loop (suc fuel) dst src m =
    let m' = update m dst (m src) in
    elim (m src == 0) [ true ↦ some m' | false ↦ strcpy_loop fuel (dst + 1) (src + 1) m' ]

-- The functions that return their argument `dst` have the memory as their result.
unfoldable pub strcpy : ℕ → ℕ → Memory → Option Memory
strcpy dst src m = strcpy_loop addresses dst src m

unfoldable pub strcat : ℕ → ℕ → Memory → Option Memory
strcat dst src m = elim (strlen m dst) [ none ↦ none | some len ↦ strcpy (dst + len) src m ]

unfoldable pub strncpy : ℕ → ℕ → ℕ → Memory → Memory
strncpy dst src zero m = m
strncpy dst src (suc size) m =
    strncpy (dst + 1) (if m src == 0 then src else src + 1) size (update m dst (m src))

-- The loop of `strlcpy`, with `left` rounds before `size` is used up; where `dst` stands at its
-- end, and the memory.
unfoldable pub strlcpy_loop : ℕ → ℕ → ℕ → Memory → ℕ × Memory
strlcpy_loop zero dst src m = (dst, m)
strlcpy_loop (suc left) dst src m = elim (m src == 0) [
  | true ↦ (dst, m)
  | false ↦ strlcpy_loop left (dst + 1) (src + 1) (update m dst (m src))
]

abbrev pub terminate : ℕ → ℕ × Memory → ℕ × Memory
terminate dst_in (dst, m) = (dst - dst_in, update m dst 0)

unfoldable pub strlcpy : ℕ → ℕ → ℕ → Memory → ℕ × Memory
strlcpy dst src zero m = (0, m)
strlcpy dst src (suc left) m = terminate dst (strlcpy_loop left dst src m)

-- The results of comparisons are 32-bit words.
unfoldable pub strcmp_loop : ℕ → Memory → ℕ → ℕ → Option ℕ
strcmp_loop zero m p q = none
strcmp_loop (suc fuel) m p q = elim (not (m p == 0) && (m p == m q)) [
  | true ↦ strcmp_loop fuel m (p + 1) (q + 1)
  | false ↦ some (sub32 (m p) (m q))
]

unfoldable pub strcmp : Memory → ℕ → ℕ → Option ℕ
strcmp m p q = strcmp_loop addresses m p q

unfoldable pub strncmp : Memory → ℕ → ℕ → ℕ → ℕ
strncmp m p q zero = 0
strncmp m p q (suc n) = elim (not (m p == 0) && (m p == m q)) [
  | true ↦ strncmp m (p + 1) (q + 1) n
  | false ↦ sub32 (m p) (m q)
]

-- `none` is a loop that has not ended; the null pointer is `some none`.
unfoldable pub strchr_loop : ℕ → Memory → ℕ → ℕ → Option (Option ℕ)
strchr_loop zero m s c = none
strchr_loop (suc fuel) m s c = elim (m s == 0) [
  | true ↦ some none
  | false ↦ elim (m s == c) [ true ↦ some (some s) | false ↦ strchr_loop fuel m (s + 1) c ]
]

unfoldable pub strchr : Memory → ℕ → ℕ → Option (Option ℕ)
strchr m s c = strchr_loop addresses m s c

unfoldable pub strfind_loop : ℕ → Memory → ℕ → ℕ → Option ℕ
strfind_loop zero m s c = none
strfind_loop (suc fuel) m s c = elim (m s == 0) [
  | true ↦ some s
  | false ↦ elim (m s == c) [ true ↦ some s | false ↦ strfind_loop fuel m (s + 1) c ]
]

unfoldable pub strfind : Memory → ℕ → ℕ → Option ℕ
strfind m s c = strfind_loop addresses m s c

-- `stosb` and `stosl`: the bytes of the word `w`, the low one first, at `d`, and `k` times so.
abbrev pub store_unit : ℕ → ℕ → ℕ → Memory → Memory
store_unit u d w m j = if leb d j && ltb j (d + u) then w / 2 ^ (8 * (j - d)) % 256 else m j

unfoldable pub stos : ℕ → ℕ → ℕ → ℕ → Memory → Memory
stos u zero d w m = m
stos u (suc k) d w m = stos u k (d + u) w (store_unit u d w m)

-- `c &= 0xFF; c = (c<<24)|(c<<16)|(c<<8)|c`
unfoldable pub spread : ℕ → ℕ
spread c = let b = c % 256 in bit_or (bit_or (bit_or (shl32 b 24) (shl32 b 16)) (shl32 b 8)) b

unfoldable pub memset : ℕ → ℕ → ℕ → Memory → Memory
memset v c n m =
    if n == 0
    then m
    else if (v % 4 == 0) && (n % 4 == 0)
    then stos 4 (n / 4) v (spread c) m
    else stos 1 n v c m

-- `movsb` and `movsl` move a unit of `u` bytes; `rep` goes up, or down behind `std`.
abbrev pub move_unit : ℕ → ℕ → ℕ → Memory → Memory
move_unit u d s m j = if leb d j && ltb j (d + u) then m (s + (j - d)) else m j

unfoldable pub movs_up : ℕ → ℕ → ℕ → ℕ → Memory → Memory
movs_up u zero d s m = m
movs_up u (suc k) d s m = movs_up u k (d + u) (s + u) (move_unit u d s m)

unfoldable pub movs_down : ℕ → ℕ → ℕ → ℕ → Memory → Memory
movs_down u zero d s m = m
movs_down u (suc k) d s m = movs_down u k (d - u) (s - u) (move_unit u d s m)

unfoldable pub by_words : ℕ → ℕ → ℕ → Bool
by_words d s n = (s % 4 == 0) && (d % 4 == 0) && (n % 4 == 0)

unfoldable pub memmove : ℕ → ℕ → ℕ → Memory → Memory
memmove dst src n m =
    if ltb src dst && ltb dst (src + n)
    then if by_words (dst + n) (src + n) n
      then movs_down 4 (n / 4) (dst + n - 4) (src + n - 4) m
      else movs_down 1 n (dst + n - 1) (src + n - 1) m
    else if by_words dst src n
    then movs_up 4 (n / 4) dst src m
    else movs_up 1 n dst src m

unfoldable pub memcpy : ℕ → ℕ → ℕ → Memory → Memory
memcpy dst src n m = memmove dst src n m

unfoldable pub memcmp : Memory → ℕ → ℕ → ℕ → ℕ
memcmp m s1 s2 zero = 0
memcmp m s1 s2 (suc n) = elim (m s1 == m s2) [
  | true ↦ memcmp m (s1 + 1) (s2 + 1) n
  | false ↦ sub32 (m s1) (m s2)
]

unfoldable pub memfind : Memory → ℕ → ℕ → ℕ → ℕ
memfind m s c zero = s
memfind m s c (suc n) = elim (m s == c % 256) [ true ↦ s | false ↦ memfind m (s + 1) c n ]
