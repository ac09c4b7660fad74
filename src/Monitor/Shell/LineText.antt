-- ===== src/Monitor/Shell/LineText.antt =====
-- The line that `readline` leaves in its buffer, as a string in memory.
use os.Base.{
  ℕ, zero, suc, ◌+◌, ◌-◌, ◌%◌, ◌<◌, ◌≡◌, ◌≢◌, inl, inr, true, ◌&&◌, ◌||◌, List, [], ◌∷◌, ◌==◌, ltb,
  leb, arith, ap, length, ◌∙◌, Bool-cases, update,
}
use os.Strings.{Memory}
use os.Strings.Scan.{IsString}
use os.Readline.{
  buflen, Input, char, read_error, Line, Outcome, returned, failed, waiting, erase, insert,
  is_erase, is_text, is_end, read_loop, readline,
}
use os.Readline.Edit.{Shows, edit, edit_all}
use os.Monitor.Lookup.{IsBytes}
use os.Monitor.Shell.{with_buffer}

-- No character of the text is 0.
abbrev pub AreNonzero : List ℕ → Type 0
AreNonzero [] = Unit {0}
AreNonzero (c ∷ cs) = (c ≢ 0) × AreNonzero cs

abbrev pub AreBytes : List ℕ → Type 0
AreBytes [] = Unit {0}
AreBytes (c ∷ cs) = (c < 256) × AreBytes cs

edit-nonzero : (c : ℕ) (text : List ℕ) → c < 256 → AreNonzero text → AreNonzero (edit c text)
edit-nonzero c [] h v = elim (Bool-cases (leb 32 c)) [
  | inl print ↦ rw print (ground arith, tt)
  | inr other ↦ rw other tt
]
edit-nonzero c (x ∷ text) h v = elim (Bool-cases ((c == 8) || (c == 127))) [
  | inl back ↦ rw back v.1
  | inr plain ↦ elim (Bool-cases (leb 32 c && ltb (length (x ∷ text)) (buflen - 1))) [
    | inl print ↦ rw (plain, print) (ground arith, v)
    | inr other ↦ rw (plain, other) v
  ]
]

edit_all-nonzero :
    (cs text : List ℕ) → AreBytes cs → AreNonzero text → AreNonzero (edit_all cs text)
edit_all-nonzero [] text b v = v
edit_all-nonzero (c ∷ cs) text b v =
    edit_all-nonzero cs (edit c text) b.1 (edit-nonzero c text b.0 v)

-- A buffer that shows a text holds a byte of it in every place.
Shows-nonzero :
    (buf : ℕ → ℕ) (n : ℕ) (text : List ℕ)
    → Shows buf n text
    → AreNonzero text
    → (j : ℕ) → j < n
    → buf j ≢ 0
Shows-nonzero buf n [] v z j h = absurd (omega (arith, v))
Shows-nonzero buf n (c ∷ text) v z j h = elim (Bool-cases (j == n - 1)) [
  | inl last ↦ λ e. z.0 (ground (arith, e, v.1, ap buf {x = j} {y = n - 1} (ground arith)))
  | inr before ↦ Shows-nonzero buf (n - 1) text v.2 z.1 j (ground arith)
]

string_of_bytes :
    (m : Memory) (n s : ℕ) → ((j : ℕ) → j < n → m (s + j) ≢ 0) → m (s + n) ≡ 0 → IsString m s n
string_of_bytes m zero s h e = ap m {x = s} {y = s + 0} (omega arith) ∙ e
string_of_bytes m (suc n) s h e = (
  λ z. h 0 (omega arith) (ap m {x = s + 0} {y = s} (omega arith) ∙ z),
  string_of_bytes m n (s + 1)
      (λ j l z. h (suc j) (omega arith) (ap m {x = s + suc j} {y = s + 1 + j} (omega arith) ∙ z))
      (ap m {x = s + 1 + n} {y = s + suc n} (omega arith) ∙ e),
)

buffer_place :
    (a : ℕ) (buf : ℕ → ℕ) (m : Memory) (j : ℕ) → j < buflen → with_buffer a buf m (a + j) ≡ buf j
buffer_place a buf m j h =
    let inside : (leb a (a + j) && ltb (a + j) (a + buflen)) ≡ true = ground arith in
    rw inside (ap buf {x = a + j - a} {y = j} (omega arith))

-- The line in the buffer is a string in memory.
pub line-IsString :
    (a n : ℕ) (buf : ℕ → ℕ) (m : Memory) (cs : List ℕ)
    → AreBytes cs
    → Shows buf n (edit_all cs [])
    → buf n ≡ 0
    → n < buflen
    → IsString (with_buffer a buf m) a n
line-IsString a n buf m cs b shown end room =
    string_of_bytes (with_buffer a buf m) n a
      (λ j h z.
        Shows-nonzero buf n (edit_all cs []) shown (edit_all-nonzero cs [] b tt) j h
          (ground (arith, buffer_place a buf m j (omega arith), z)))
      (buffer_place a buf m n room ∙ end)

pub with_buffer-IsBytes :
    (a : ℕ) (buf : ℕ → ℕ) (m : Memory) → IsBytes buf → IsBytes m → IsBytes (with_buffer a buf m)
with_buffer-IsBytes a buf m h g j = elim (Bool-cases (leb a j && ltb j (a + buflen))) [
  | inl inside ↦ rw inside (h (j - a))
  | inr outside ↦ rw outside (g j)
]

-- The line that a call of `readline` ends with.
abbrev pub line_of : Outcome → Line
line_of (returned l) = l
line_of (failed l) = l
line_of (waiting l) = l

update-IsBytes : (buf : ℕ → ℕ) (i c : ℕ) → c < 256 → IsBytes buf → IsBytes (update buf i c)
update-IsBytes buf i c h g j = ground (arith, g j)

read_loop-IsBytes :
    (cs : List Input) (l : Line) → IsBytes l.buf → IsBytes (line_of (read_loop cs l)).buf
unfolding read_loop
read_loop-IsBytes [] l h = h
read_loop-IsBytes (read_error ∷ cs) l h = h
read_loop-IsBytes (char c ∷ cs) l h = elim (Bool-cases (is_erase c l)) [
  | inl back ↦ rw (read_loop, back) (read_loop-IsBytes cs (erase l) h)
  | inr other ↦ elim (Bool-cases (is_text c l)) [
    | inl text ↦
        rw (read_loop, other, text)
          (read_loop-IsBytes cs (insert c l) (update-IsBytes l.buf l.i (c % 256) (omega arith) h))
    | inr more ↦ elim (Bool-cases (is_end c)) [
      | inl end ↦ rw (read_loop, other, more, end) (update-IsBytes l.buf l.i 0 (omega arith) h)
      | inr skip ↦ rw (read_loop, other, more, skip) (read_loop-IsBytes cs l h)
    ]
  ]
]

pub readline-IsBytes :
    (cs : List Input) (buf : ℕ → ℕ) → IsBytes buf → IsBytes (line_of (readline cs buf)).buf
unfolding readline
readline-IsBytes cs buf h = read_loop-IsBytes cs (record { i = 0; buf = buf; echoed = [] }) h
