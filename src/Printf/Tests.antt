-- ===== src/Printf/Tests.antt =====
-- Uses of the theorems on lib/printfmt.c, and some formats.
use os.Base.{ℕ, ◌+◌, ◌-◌, ◌^◌, ◌≡◌, refl, some, [], ◌∷◌, ◌++◌, map, length, get_or, arith}
use os.Strings.{Memory}
use os.Strings.Number.{strtol}
use os.Strings.Number.Digits.{digit_char}
use os.Printf.{printnum, max_digits, vsnprintf}
use os.Printf.Digits.{digits}
use os.Printf.Number.{Holds, printnum-strtol}
use os.Printf.Buffer.{vsnprintf-printed}
use os.Printf.Format.{
  word, text, vprintfmt, format, escape, step, convert, getint, getuint, put_number, put_decimal,
  put_string, put_chars, put_error, read_number,
}
use os.Printf.Format.Plain.{vprintfmt-hex}

-- "42" at 0
abbrev memory : Memory
memory a = get_or (52 ∷ 50 ∷ []) a 0

memory-Holds : Holds memory 0 (map digit_char (digits max_digits 42 10) ++ (0 ∷ []))
unfolding digits
memory-Holds = (refl, (refl, (refl, tt)))

printnum-strtol_example :
    (printnum max_digits 42 10 0 32 ≡ some (map digit_char (digits max_digits 42 10)))
    × (strtol memory 0 10 ≡ some (0 + length (digits max_digits 42 10), 42))
printnum-strtol_example =
    printnum-strtol memory 0 42 10 32 (omega arith) (omega arith) (omega arith) memory-Holds

vsnprintf-printed_example :
    (m : ℕ → ℕ) × (vsnprintf 16 3 (97 ∷ 98 ∷ 99 ∷ []) memory ≡ some (3, m)) × (m 18 ≡ 0)
vsnprintf-printed_example = vsnprintf-printed 16 2 (97 ∷ 98 ∷ 99 ∷ []) memory 18 (omega arith)

vprintfmt-hex_example :
    (vprintfmt (120 ∷ 61 ∷ []) [] ≡ some (120 ∷ 61 ∷ []))
    × (vprintfmt (120 ∷ 61 ∷ 37 ∷ 120 ∷ []) (word 255 ∷ [])
        ≡ some (120 ∷ 61 ∷ map digit_char (digits max_digits 255 16)))
vprintfmt-hex_example =
    vprintfmt-hex (120 ∷ 61 ∷ []) 255 (omega arith, (omega arith, tt)) (omega arith)

-- "%5d|%-4s|%e|%q" of 42 in two's complement, a string and an error code.
formats :
    vprintfmt
      (37 ∷ 53 ∷ 100 ∷ 124 ∷ 37 ∷ 45 ∷ 52 ∷ 115 ∷ 124 ∷ 37 ∷ 101 ∷ 124 ∷ 37 ∷ 113 ∷ [])
      (word (2 ^ 32 - 42) ∷ text (some (97 ∷ 98 ∷ [])) ∷ word 9 ∷ [])
    ≡ some (
        45 ∷ 32 ∷ 32 ∷ 32 ∷ 52 ∷ 50 ∷ 124 ∷ 97 ∷ 98 ∷ 32 ∷ 32 ∷ 124 ∷ 101 ∷ 114 ∷ 114 ∷ 111 ∷ 114
        ∷ 32 ∷ 57 ∷ 124 ∷ 37 ∷ 113 ∷ [])
unfolding vprintfmt format escape step convert getint getuint put_number put_decimal put_string
    put_chars put_error read_number printnum
formats = refl
