-- ===== src/Readline.antt =====
-- lib/readline.c: the line editor over the characters that `getchar` gives.
pub mod Edit
mod Tests
use os.Base.{
  ℕ, ◌+◌, ◌-◌, ◌%◌, Bool, true, false, ◌&&◌, ◌||◌, List, [], ◌∷◌, ltb, leb, ◌==◌, if◌then◌else◌,
  update,
}

abbrev pub buflen : ℕ
buflen = 1024

-- A result of `getchar`: a character, or a negative number.
pub data Input : Type 0 where
  char : ℕ → Input
  read_error : Input

-- The variable `i`, the static buffer, and the characters that were echoed, last first.
pub record Line : Type 0 where
  pub i : ℕ
  pub buf : ℕ → ℕ
  pub echoed : List ℕ

-- `buf` or NULL is returned, or more input is needed.
pub data Outcome : Type 0 where
  returned failed waiting : Line → Outcome

-- kern/console.c says that every descriptor is the console.
abbrev pub iscons : ℕ → ℕ
iscons fdnum = 1

abbrev pub echo : ℕ → Line → Line
echo c l = if iscons 0 == 0 then l else record l { echoed = c ∷ l.echoed }

abbrev pub erase : Line → Line
erase l = let l' = echo 8 l in record l' { i = l'.i - 1 }

abbrev pub insert : ℕ → Line → Line
insert c l = let l' = echo c l in record l' { buf = update l'.buf l'.i (c % 256); i = l'.i + 1 }

abbrev pub end_line : Line → Line
end_line l = let l' = echo 10 l in record l' { buf = update l'.buf l'.i 0 }

abbrev pub is_erase : ℕ → Line → Bool
is_erase c l = ((c == 8) || (c == 127)) && ltb 0 l.i

abbrev pub is_text : ℕ → Line → Bool
is_text c l = leb 32 c && ltb l.i (buflen - 1)

abbrev pub is_end : ℕ → Bool
is_end c = (c == 10) || (c == 13)

unfoldable pub read_loop : List Input → Line → Outcome
read_loop [] l = waiting l
read_loop (read_error ∷ cs) l = failed l
read_loop (char c ∷ cs) l = elim (is_erase c l) [
  | true ↦ read_loop cs (erase l)
  | false ↦ elim (is_text c l) [
    | true ↦ read_loop cs (insert c l)
    | false ↦ elim (is_end c) [ true ↦ returned (end_line l) | false ↦ read_loop cs l ]
  ]
]

-- The prompt is printed before, and is left out.
unfoldable pub readline : List Input → (ℕ → ℕ) → Outcome
readline cs buf = read_loop cs (record { i = 0; buf = buf; echoed = [] })
