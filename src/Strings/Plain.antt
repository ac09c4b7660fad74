-- ===== src/Strings/Plain.antt =====
-- The variants of `memset` and `memmove` in lib/string.c without string instructions.
pub mod Same
use os.Base.{ℕ, zero, suc, ◌+◌, ◌-◌, ◌%◌, ◌^◌, ◌&&◌, ltb, if◌then◌else◌, update}
use os.Strings.{Memory}

-- `while (--m >= 0) *p++ = c`, with `m` rounds
unfoldable pub set_loop : ℕ → ℕ → ℕ → Memory → Memory
set_loop zero p c m = m
set_loop (suc k) p c m = set_loop k (p + 1) c (update m p (c % 256))

-- The counter is an `int`: a size from 2^31 on makes it negative, and nothing is set.
unfoldable pub memset_plain : ℕ → ℕ → ℕ → Memory → Memory
memset_plain v c n m = if ltb n (2 ^ 31) then set_loop n v c m else m

-- `while (n-- > 0) *--d = *--s` and `while (n-- > 0) *d++ = *s++`
unfoldable pub copy_down : ℕ → ℕ → ℕ → Memory → Memory
copy_down zero d s m = m
copy_down (suc k) d s m = copy_down k (d - 1) (s - 1) (update m (d - 1) (m (s - 1)))

unfoldable pub copy_up : ℕ → ℕ → ℕ → Memory → Memory
copy_up zero d s m = m
copy_up (suc k) d s m = copy_up k (d + 1) (s + 1) (update m d (m s))

unfoldable pub memmove_plain : ℕ → ℕ → ℕ → Memory → Memory
memmove_plain dst src n m =
    if ltb src dst && ltb dst (src + n)
    then copy_down n (dst + n) (src + n) m
    else copy_up n dst src m
