-- ===== src/Strings/Tests.antt =====
-- Uses of the theorems on lib/string.c.
use os.Base.{ℕ, ◌≡◌, refl, some, List, [], ◌∷◌, get_or, arith, sub32}
use os.Strings.{
  Memory, strlen, strnlen, strchr, strfind, strcpy, strcat, strncpy, strlcpy, strcmp, strncmp,
  memset, memmove, memcmp, memfind,
}
use os.Strings.Scan.{IsString, memfind-find}
use os.Strings.Plain.{memset_plain, memmove_plain}
use os.Strings.Plain.Same.{memmove-memset_plain}
use os.Strings.Number.{digit_value}
use os.Strings.Number.Digits.{IsNumeral}

-- "ab" at 0, "ac" at 8, " -42" at 16
abbrev text : List ℕ
text = 97 ∷ 98 ∷ 0 ∷ 0 ∷ 0 ∷ 0 ∷ 0 ∷ 0 ∷ 97 ∷ 99 ∷ 0 ∷ 0 ∷ 0 ∷ 0 ∷ 0 ∷ 0 ∷ 32 ∷ 45 ∷ 52 ∷ 50 ∷ []

abbrev memory : Memory
memory a = get_or text a 0

ab-IsString : IsString memory 0 2
ab-IsString = ground arith

ac-IsString : IsString memory 8 2
ac-IsString = ground arith

number : IsNumeral memory 18 10 (4 ∷ 2 ∷ [])
unfolding digit_value
number = ground arith

-- The bytes that a comparison of the two strings comes to.
cmp_run : strcmp memory 0 8 ≡ some (sub32 98 99)
unfolding strcmp os.Strings.strcmp_loop
cmp_run = refl

memfind-find_example : memfind memory 0 98 4 ≡ 1
memfind-find_example = memfind-find 4 memory 0 98

-- Six bytes at 2, and from 0 to 3, where the two regions overlap
memmove-memset_plain_example :
    (memmove 3 0 6 memory 4 ≡ 98)
    × (memmove_plain 3 0 6 memory 4 ≡ 98)
    × (memset 2 0x141 6 memory 4 ≡ memset_plain 2 0x141 6 memory 4)
memmove-memset_plain_example = memmove-memset_plain 2 0x141 3 0 6 memory 4 (omega arith)
