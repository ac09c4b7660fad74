-- ===== src/Printf.antt =====
-- lib/printfmt.c: what is put out is a list of characters, in order.
pub mod Digits
pub mod Number
pub mod Buffer
pub mod Format
pub mod Cprintf
mod Tests
use os.Base.{
  ℕ, zero, suc, ◌+◌, ◌-◌, ◌*◌, ◌/◌, ◌%◌, ◌^◌, Bool, true, false, Option, none, some, List, [], ◌∷◌,
  ◌++◌, get_or, length, replicate, leb, ltb, ◌==◌, if◌then◌else◌, update,
}

-- "0123456789abcdef"
abbrev pub digit_chars : List ℕ
digit_chars = 48 ∷ 49 ∷ 50 ∷ 51 ∷ 52 ∷ 53 ∷ 54 ∷ 55 ∷ 56 ∷ 57 ∷ 97 ∷ 98 ∷ 99 ∷ 100 ∷ 101 ∷ 102 ∷ []

abbrev pub last_digit : ℕ → ℕ → List ℕ
last_digit num base = get_or digit_chars (num % base) 0 ∷ []

abbrev pub behind_digits : Option (List ℕ) → List ℕ → Option (List ℕ)
behind_digits none d = none
behind_digits (some ds) d = some (ds ++ d)

-- A negative width pads as little as 0 does; `none` is a recursion deeper than `fuel`.
unfoldable pub printnum : ℕ → ℕ → ℕ → ℕ → ℕ → Option (List ℕ)
printnum zero num base width padc = none
printnum (suc fuel) num base width padc = elim (leb base num) [
  | true ↦ behind_digits (printnum fuel (num / base) base (width - 1) padc) (last_digit num base)
  | false ↦ some (replicate (width - 1) padc ++ last_digit num base)
]

-- An `unsigned long long` has at most 64 digits.
abbrev pub max_digits : ℕ
max_digits = 64

-- `struct sprintbuf` over a memory of bytes.
pub record Sprintbuf : Type 0 where
  pub buf : ℕ
  pub ebuf : ℕ
  pub cnt : ℕ
  pub memory : ℕ → ℕ

unfoldable pub sprintputch : ℕ → Sprintbuf → Sprintbuf
sprintputch ch b =
    if ltb b.buf b.ebuf
    then record b { cnt = b.cnt + 1; memory = update b.memory b.buf (ch % 256); buf = b.buf + 1 }
    else record b { cnt = b.cnt + 1 }

unfoldable pub sprint_all : List ℕ → Sprintbuf → Sprintbuf
sprint_all [] b = b
sprint_all (c ∷ cs) b = sprint_all cs (sprintputch c b)

-- `vsnprintf` where `vprintfmt` puts out `out`: the count and the memory, or -E_INVAL. A negative
-- `n` is refused like 0.
unfoldable pub vsnprintf : ℕ → ℕ → List ℕ → (ℕ → ℕ) → Option (ℕ × (ℕ → ℕ))
vsnprintf buf n out memory =
    if buf == 0
    then none
    else if n == 0
    then none
    else (let b =
          sprint_all out (record { buf = buf; ebuf = buf + n - 1; cnt = 0; memory = memory }) in
        some (b.cnt, update b.memory b.buf 0))
