-- ===== src/Printf/Format.antt =====
-- `vprintfmt`: the format characters, a byte each, without their terminator. Integers are words in
-- two's complement.
pub mod Plain
use os.Base.{
  ℕ, zero, suc, ◌+◌, ◌-◌, ◌*◌, ◌^◌, Bool, true, false, ◌&&◌, ◌||◌, not, Option, none, some, List,
  [], ◌∷◌, ◌++◌, length, replicate, get_or, leb, ltb, ◌==◌, if◌then◌else◌, u32, sub32, min,
}
use os.Printf.{printnum, max_digits, vsnprintf}

infixl 5 ◌>>=◌
abbrev ◌>>=◌ : {A B : Type 0} → Option A → (A → Option B) → Option B
none >>= f = none
some a >>= f = f a

-- An argument: an `int` or pointer, a `long long`, or a string, which may be NULL.
pub data Arg : Type 0 where
  word wide : ℕ → Arg
  text : Option (List ℕ) → Arg

pub record Spec : Type 0 where
  pub padc : ℕ
  pub width : ℕ
  pub precision : ℕ
  pub lflag : ℕ
  pub altflag : Bool

abbrev pub negative : ℕ → Bool
negative w = leb (2 ^ 31) w

abbrev pub negative_wide : ℕ → Bool
negative_wide w = leb (2 ^ 63) w

abbrev pub minus_one : ℕ
minus_one = 2 ^ 32 - 1

abbrev pub initial : Spec
initial = record { padc = 32; width = minus_one; precision = minus_one; lflag = 0; altflag = false }

-- What `va_arg` reads; an argument of another type is undefined behaviour, which is `none`.
abbrev pub next_word : List Arg → Option (ℕ × List Arg)
next_word (word w ∷ args) = some (w, args)
next_word _ = none

abbrev pub next_wide : List Arg → Option (ℕ × List Arg)
next_wide (wide w ∷ args) = some (w, args)
next_wide _ = none

abbrev pub next_text : List Arg → Option (Option (List ℕ) × List Arg)
next_text (text t ∷ args) = some (t, args)
next_text _ = none

unfoldable pub getuint : ℕ → List Arg → Option (ℕ × List Arg)
getuint lflag args = if leb 2 lflag then next_wide args else next_word args

abbrev pub sign_extend : ℕ → ℕ
sign_extend w = if negative w then w + (2 ^ 64 - 2 ^ 32) else w

unfoldable pub getint : ℕ → List Arg → Option (ℕ × List Arg)
getint lflag args =
    if leb 2 lflag
    then next_wide args
    else do (w, rest) ← next_word args; some (sign_extend w, rest)

-- What a loop `for (; width > 0; width--)` puts out, and the width behind it.
abbrev pub pads : ℕ → ℕ → List ℕ
pads width c = if negative width then [] else replicate width c

abbrev pub padded : ℕ → ℕ
padded width = if negative width then width else 0

abbrev pub positive : ℕ → ℕ
positive width = if negative width then 0 else width

unfoldable pub put_number : ℕ → ℕ → Spec → Option (List ℕ)
put_number num base s = printnum max_digits num base (positive s.width) s.padc

unfoldable pub put_decimal : ℕ → Spec → Option (List ℕ)
put_decimal num s =
    if negative_wide num
    then (do out ← put_number (2 ^ 64 - num) 10 s; some (45 ∷ out))
    else put_number num 10 s

-- The loop over the characters of a string: what it puts out, and the width behind it.
unfoldable pub put_chars : List ℕ → Bool → ℕ → ℕ → List ℕ × ℕ
put_chars [] alt precision width = ([], width)
put_chars (c ∷ cs) alt precision width =
    let left = if negative precision then precision else sub32 precision 1 in
    let (out, w) = put_chars cs alt left (sub32 width 1) in
    if negative precision || not (negative left)
    then ((if alt && (ltb c 32 || ltb 126 c) then 63 else c) ∷ out, w)
    else ([], width)

-- "(null)"
abbrev pub null_text : List ℕ
null_text = 40 ∷ 110 ∷ 117 ∷ 108 ∷ 108 ∷ 41 ∷ []

abbrev pub or_null : Option (List ℕ) → List ℕ
or_null none = null_text
or_null (some t) = t

unfoldable pub put_string : List ℕ → Spec → List ℕ
put_string p s =
    let left = not (negative s.width) && (not (s.width == 0) && not (s.padc == 45)) in
    let w = if left then sub32 s.width (min (length p) s.precision) else s.width in
    let before = if left then pads w s.padc else [] in
    let (out, w') = put_chars p s.altflag s.precision (if left then padded w else w) in
    before ++ out ++ pads w' 32

-- `error_string`, from 1 on: "unspecified error", "bad environment", "invalid parameter",
-- "out of memory", "out of environments", "segmentation fault"
abbrev pub error_string : List (List ℕ)
error_string =
    (117 ∷ 110 ∷ 115 ∷ 112 ∷ 101 ∷ 99 ∷ 105 ∷ 102 ∷ 105 ∷ 101 ∷ 100 ∷ 32 ∷ 101 ∷ 114 ∷ 114 ∷ 111
      ∷ 114 ∷ [])
    ∷ (98 ∷ 97 ∷ 100 ∷ 32 ∷ 101 ∷ 110 ∷ 118 ∷ 105 ∷ 114 ∷ 111 ∷ 110 ∷ 109 ∷ 101 ∷ 110 ∷ 116 ∷ [])
    ∷ (105 ∷ 110 ∷ 118 ∷ 97 ∷ 108 ∷ 105 ∷ 100 ∷ 32 ∷ 112 ∷ 97 ∷ 114 ∷ 97 ∷ 109 ∷ 101 ∷ 116 ∷ 101
        ∷ 114 ∷ [])
    ∷ (111 ∷ 117 ∷ 116 ∷ 32 ∷ 111 ∷ 102 ∷ 32 ∷ 109 ∷ 101 ∷ 109 ∷ 111 ∷ 114 ∷ 121 ∷ [])
    ∷ (111 ∷ 117 ∷ 116 ∷ 32 ∷ 111 ∷ 102 ∷ 32 ∷ 101 ∷ 110 ∷ 118 ∷ 105 ∷ 114 ∷ 111 ∷ 110 ∷ 109 ∷ 101
        ∷ 110 ∷ 116 ∷ 115 ∷ [])
    ∷ (115 ∷ 101 ∷ 103 ∷ 109 ∷ 101 ∷ 110 ∷ 116 ∷ 97 ∷ 116 ∷ 105 ∷ 111 ∷ 110 ∷ 32 ∷ 102 ∷ 97 ∷ 117
        ∷ 108 ∷ 116 ∷ [])
    ∷ []

abbrev pub maxerror : ℕ
maxerror = 7

-- "error %d"
abbrev pub error_number : ℕ → Option (List ℕ)
error_number err = do
  out ← put_decimal (sign_extend err) initial
  some (101 ∷ 114 ∷ 114 ∷ 111 ∷ 114 ∷ 32 ∷ out)

-- The least `int` stays negative, and then the array is read outside.
unfoldable pub put_error : ℕ → Option (List ℕ)
put_error err =
    let e = if negative err then sub32 0 err else err in
    if negative e
    then none
    else if leb maxerror e || (e == 0)
    then error_number e
    else some (put_string (get_or error_string (e - 1) []) initial)

-- The digits of a width or precision, from the digit `c` on, and what follows them.
unfoldable pub read_number : ℕ → ℕ → List ℕ → ℕ × List ℕ
read_number v c [] = (u32 (v * 10 + c - 48), [])
read_number v c (d ∷ rest) =
    if leb 48 d && leb d 57
    then read_number (u32 (v * 10 + c - 48)) d rest
    else (u32 (v * 10 + c - 48), d ∷ rest)

-- `process_precision`
abbrev pub set_size : ℕ → Spec → Spec
set_size p s =
    if negative s.width
    then record s { width = p; precision = minus_one }
    else record s { precision = p }

-- What a character behind the `%` does: the `switch` is entered again, or something is put out, or
-- it is not known.
pub data Step : Type 0 where
  again : List ℕ → Spec → List Arg → Step
  put : List ℕ → List Arg → Step
  unknown : Step

abbrev pub putting : Option (List ℕ) → List Arg → Option Step
putting none args = none
putting (some out) args = some (put out args)

abbrev pub sized : Spec → List Arg → ℕ × List ℕ → Step
sized s args (p, rest) = again rest (set_size p s) args

unfoldable pub convert : ℕ → Spec → List Arg → Option Step
convert c s args =
    if c == 99
    then (do (w, a) ← next_word args; some (put (w ∷ []) a))
    else if c == 101
    then (do (w, a) ← next_word args; putting (put_error w) a)
    else if c == 115
    then (do (t, a) ← next_text args; some (put (put_string (or_null t) s) a))
    else if c == 100
    then (do (n, a) ← getint s.lflag args; putting (put_decimal n s) a)
    else if c == 117
    then (do (n, a) ← getuint s.lflag args; putting (put_number n 10 s) a)
    else if c == 111
    then (do (n, a) ← getuint s.lflag args; putting (put_number n 8 s) a)
    else if c == 112
    then (do (n, a) ← next_word args; out ← put_number n 16 s; some (put (48 ∷ 120 ∷ out) a))
    else if c == 120
    then (do (n, a) ← getuint s.lflag args; putting (put_number n 16 s) a)
    else if c == 37
    then some (put (37 ∷ []) args)
    else some unknown

unfoldable pub step : ℕ → List ℕ → Spec → List Arg → Option Step
step c rest s args =
    if c == 45
    then some (again rest (record s { padc = 45 }) args)
    else if c == 48
    then some (again rest (record s { padc = 48 }) args)
    else if leb 49 c && leb c 57
    then some (sized s args (read_number 0 c rest))
    else if c == 42
    then (do (w, a) ← next_word args; some (again rest (set_size w s) a))
    else if c == 46
    then some (again rest (if negative s.width then record s { width = 0 } else s) args)
    else if c == 35
    then some (again rest (record s { altflag = true }) args)
    else if c == 108
    then some (again rest (record s { lflag = s.lflag + 1 }) args)
    else convert c s args

-- An escape whose characters are `rest`, or `start` from its beginning: what is put out, and where
-- the format and the arguments go on. One that is not known, or that ends with the format, puts
-- out the `%`, and its characters are taken as text.
unfoldable pub escape : ℕ → List ℕ → List ℕ → Spec → List Arg → Option (List ℕ × List ℕ × List Arg)
escape zero start rest s args = none
escape (suc fuel) start [] s args = some (37 ∷ [], start, args)
escape (suc fuel) start (c ∷ rest) s args = elim (step c rest s args) [
  | none ↦ none
  | some (again r s' a) ↦ escape fuel start r s' a
  | some (put out a) ↦ some (out, rest, a)
  | some unknown ↦ some (37 ∷ [], start, args)
]

abbrev pub followed : List ℕ → Option (List ℕ) → Option (List ℕ)
followed out none = none
followed out (some more) = some (out ++ more)

unfoldable pub format : ℕ → List ℕ → List Arg → Option (List ℕ)
format zero fmt args = none
format (suc fuel) [] args = some []
format (suc fuel) (c ∷ rest) args = elim (c == 37) [
  | false ↦ followed (c ∷ []) (format fuel rest args)
  | true ↦ elim (escape (length rest + 1) rest rest initial args) [
    | none ↦ none
    | some (out, more, a) ↦ followed out (format fuel more a)
  ]
]

unfoldable pub vprintfmt : List ℕ → List Arg → Option (List ℕ)
vprintfmt fmt args = format (length fmt + 1) fmt args

-- `snprintf` gives the count and the memory, or -E_INVAL.
unfoldable pub snprintf : ℕ → ℕ → List ℕ → List Arg → (ℕ → ℕ) → Option (Option (ℕ × (ℕ → ℕ)))
snprintf buf n fmt args memory = do out ← vprintfmt fmt args; some (vsnprintf buf n out memory)
