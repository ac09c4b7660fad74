-- ===== src/Printf/Format/Plain.antt =====
-- Text and a conversion in a format.
use os.Base.{
  ℕ, suc, ◌+◌, ◌-◌, ◌^◌, ◌<◌, ◌≡◌, ◌≢◌, refl, Option, none, some, List, [], ◌∷◌, ◌++◌, map, length,
  length-append, replicate, arith, ap, ◌∙◌, sym, ne→==,
}
use os.Strings.Number.Digits.{digit_char}
use os.Printf.{max_digits}
use os.Printf.Digits.{digits, printnum_lem}
use os.Printf.Format.{
  Arg, word, initial, put_number, getuint, convert, put, putting, step, escape, followed, format,
  vprintfmt,
}

-- Characters other than %.
abbrev pub ArePlain : List ℕ → Type 0
ArePlain [] = Unit {0}
ArePlain (c ∷ cs) = (c ≢ 37) × ArePlain cs

followed_twice :
    (xs ys : List ℕ) (o : Option (List ℕ)) → followed xs (followed ys o) ≡ followed (xs ++ ys) o
followed_twice xs ys none = refl
followed_twice xs ys (some zs) = ap some (sym (assoc xs))
  where
    assoc : (l : List ℕ) → (l ++ ys) ++ zs ≡ l ++ (ys ++ zs)
    assoc [] = refl
    assoc (x ∷ l) = ap (λ k. x ∷ k) (assoc l)

followed-nil : (o : Option (List ℕ)) → followed [] o ≡ o
followed-nil none = refl
followed-nil (some zs) = refl

format-char :
    (c fuel : ℕ) (fmt : List ℕ) (args : List Arg)
    → c ≢ 37
    → format (suc fuel) (c ∷ fmt) args ≡ followed (c ∷ []) (format fuel fmt args)
unfolding format
format-char c fuel fmt args ne = rw (format, ne→== c 37 ne) refl

-- Text is put out as it is.
format-plain :
    (cs fmt : List ℕ) (args : List Arg) (fuel : ℕ)
    → ArePlain cs
    → format (length cs + fuel) (cs ++ fmt) args ≡ followed cs (format fuel fmt args)
unfolding format
format-plain [] fmt args fuel p =
    ap (λ f. format f fmt args) {x = 0 + fuel} {y = fuel} (omega arith)
    ∙ sym (followed-nil (format fuel fmt args))
format-plain (c ∷ cs) fmt args fuel p =
    ap (λ f. format f (c ∷ (cs ++ fmt)) args) {x = suc (length cs) + fuel}
      {y = suc (length cs + fuel)} (omega arith)
    ∙ format-char c (length cs + fuel) (cs ++ fmt) args p.0
    ∙ ap (followed (c ∷ [])) (format-plain cs fmt args fuel p.1)
    ∙ followed_twice (c ∷ []) cs (format fuel fmt args)

put_number-hex :
    (w : ℕ) → w < 2 ^ 32 → put_number w 16 initial ≡ some (map digit_char (digits max_digits w 16))
unfolding put_number
put_number-hex w h =
    let ds = digits max_digits w 16 in
    (printnum_lem w 16 0 32 (omega arith) (omega arith) (omega arith)).0
    ∙ ap (λ k. some (replicate k 32 ++ map digit_char ds)) {x = 0 - length ds} {y = 0} (omega arith)

abbrev hex : ℕ → List ℕ
hex w = map digit_char (digits max_digits w 16)

step-hex : (w : ℕ) → w < 2 ^ 32 → step 120 [] initial (word w ∷ []) ≡ some (put (hex w) [])
unfolding step convert getuint
step-hex w h = ap (λ o. putting o []) (put_number-hex w h)

escape-hex :
    (w : ℕ)
    → w < 2 ^ 32
    → escape 2 (120 ∷ []) (120 ∷ []) initial (word w ∷ []) ≡ some (hex w, [], [])
unfolding escape
escape-hex w h = rw (escape, step-hex w h) refl

format-nil : (fuel : ℕ) (args : List Arg) → format (suc fuel) [] args ≡ some []
unfolding format
format-nil fuel args = refl

-- "%x" at the end of a format.
format-hex :
    (w fuel : ℕ)
    → w < 2 ^ 32
    → format (suc (suc fuel)) (37 ∷ 120 ∷ []) (word w ∷ []) ≡ some (hex w ++ [])
unfolding format
format-hex w fuel h = rw (format, escape-hex w h) refl

append-nil : (xs : List ℕ) → xs ++ [] ≡ xs
append-nil [] = refl
append-nil (x ∷ xs) = ap (λ l. x ∷ l) (append-nil xs)

-- Text without % is put out as it is, and a %x behind it as the digits of the argument in base 16.
pub vprintfmt-hex :
    (cs : List ℕ) (w : ℕ)
    → ArePlain cs
    → w < 2 ^ 32
    → (vprintfmt cs [] ≡ some cs)
      × (vprintfmt (cs ++ (37 ∷ 120 ∷ [])) (word w ∷ [])
          ≡ some (cs ++ map digit_char (digits max_digits w 16)))
unfolding vprintfmt
vprintfmt-hex cs w p h = (
  ap (λ l. format (length cs + 1) l []) (sym (append-nil cs))
      ∙ format-plain cs [] [] 1 p
      ∙ ap (followed cs) (format-nil 0 [])
      ∙ ap some (append-nil cs),
  ap (λ f. format f (cs ++ (37 ∷ 120 ∷ [])) (word w ∷ []))
        (omega (arith, length-append cs (37 ∷ 120 ∷ [])))
      ∙ format-plain cs (37 ∷ 120 ∷ []) (word w ∷ []) 3 p
      ∙ rw (format-hex w 1 h)
          (ap (λ l. some (cs ++ l)) (append-nil (map digit_char (digits max_digits w 16)))),
)
