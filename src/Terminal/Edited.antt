-- ===== src/Terminal/Edited.antt =====
-- `readline` over the console does what it does over a list of characters.
use os.Base.{
  ℕ, zero, suc, ◌<◌, ◌≡◌, refl, ◌⊎◌, inl, inr, true, Option, none, some, List, [], ◌∷◌, ◌++◌,
  append-nil, length, length-append, map, ◌==◌, arith, ap, sym, subst, ◌∙◌, Bool-cases,
}
use mathlib.Core.List.{nil≢cons, head-eq_of_cons-eq, tail-eq_of_cons-eq}
use os.Console.Input.{Ring, Devices, cons_getc}
use os.Console.Queue.{IsQueue}
use os.Console.Screen.{Output, cputchar}
use os.Console.Getchar.{Arrival, arrive, got, polled, getchar}
use os.Readline.{
  Line, char, returned, erase, insert, end_line, is_erase, is_text, is_end, read_loop, readline,
  buflen,
}
use os.Readline.Edit.{NoEnd, Shows, edit_all, echo_line, push_all, readline-echo}
use os.Monitor.Shell.LineText.{line_of}
use os.Terminal.{line_read, read_on, terminal_readline}
use os.Terminal.Stream.{collect, collected, AreChars, stream, idle, IsSpent, collect-whole}

option_cases :
    (o : Option (ℕ × Devices × Ring))
    → (o ≡ none) ⊎ ((c : ℕ) × (d : Devices) × (r : Ring) × (o ≡ some (c, d, r)))
option_cases none = inl refl
option_cases (some (c, d, r)) = inr (c, d, r, refl)

-- The first of the characters is the one that `getchar` returns.
getchar-collect :
    (polls : List Arrival) (d : Devices) (r : Ring) (c : ℕ) (cs : List ℕ)
    → collect polls d r ≡ c ∷ cs
    → (d' : Devices) × (r' : Ring) × (more : List Arrival) × (getchar polls d r ≡ got c d' r' more)
      × (collect more d' r' ≡ cs)
      × (length more < length polls)
unfolding getchar collect
getchar-collect [] d r c cs e = absurd (nil≢cons e)
getchar-collect (a ∷ more) d r c cs e = elim (option_cases (cons_getc (arrive a d) r)) [
  | inl gone ↦ absurd (nil≢cons (sym (ap (collected (collect more)) gone) ∙ e))
  | inr (k, d1, r1, run) ↦ elim (Bool-cases (k == 0)) [
    | inl quiet ↦
        let here : collect more d1 r1 ≡ c ∷ cs =
          sym (ap (collected (collect more)) run ∙ rw (collected, quiet) refl) ∙ e in
        let (d', r', left, got_it, others, less) = getchar-collect more d1 r1 c cs here in
        (
          d',
          r',
          left,
          ap (polled (getchar more) more) run ∙ rw (polled, quiet) got_it,
          others,
          omega (arith, less),
        )
    | inr loud ↦
        let here : k ∷ collect more d1 r1 ≡ c ∷ cs =
          sym (ap (collected (collect more)) run ∙ rw (collected, loud) refl) ∙ e in
        let same : k ≡ c = head-eq_of_cons-eq here in
        (
          d1,
          r1,
          more,
          ap (polled (getchar more) more) run ∙ rw (polled, loud) (ap (λ x. got x d1 r1 more) same),
          tail-eq_of_cons-eq here,
          omega arith,
        )
  ]
]

-- The screen and the ports after the echo, whose last character comes first.
abbrev pub shown : List ℕ → Output → Output
shown [] o = o
shown (c ∷ cs) o = cputchar c (shown cs o)

read_on-read_loop :
    (cs rest : List ℕ) (fuel : ℕ) (polls : List Arrival) (d : Devices) (r : Ring) (o : Output)
    (l l' : Line)
    → collect polls d r ≡ cs ++ rest
    → length polls < fuel
    → read_loop (map char cs) l ≡ returned l'
    → (d' : Devices) × (r' : Ring) × (more : List Arrival) × (read_on fuel polls d r
          (shown l.echoed o)
          l
        ≡ line_read l' d' r' (shown l'.echoed o) more)
unfolding read_on read_loop
read_on-read_loop [] rest fuel polls d r o l l' e lt h = absurd (ground (arith, h))
read_on-read_loop (c ∷ cs) rest zero polls d r o l l' e lt h = absurd (omega arith)
read_on-read_loop (c ∷ cs) rest (suc fuel) polls d r o l l' e lt h =
    let (d1, r1, more, run, e1, less) = getchar-collect polls d r c (cs ++ rest) e in
    elim (Bool-cases (is_erase c l)) [
      | inl back ↦
          let h1 : read_loop (map char cs) (erase l) ≡ returned l' = rw (read_loop, back) at h in
          let (d', r', left, done) =
            read_on-read_loop cs rest fuel more d1 r1 o (erase l) l' e1 (omega arith) h1 in
          (d', r', left, rw (read_on, run, back) done)
      | inr other ↦ elim (Bool-cases (is_text c l)) [
        | inl text ↦
            let h1 : read_loop (map char cs) (insert c l) ≡ returned l' =
              rw (read_loop, other, text) at h in
            let (d', r', left, done) =
              read_on-read_loop cs rest fuel more d1 r1 o (insert c l) l' e1 (omega arith) h1 in
            (d', r', left, rw (read_on, run, other, text) done)
        | inr no_text ↦ elim (Bool-cases (is_end c)) [
          | inl end ↦
              let h1 : returned (end_line l) ≡ returned l' =
                rw (read_loop, other, no_text, end) at h in
              (
                d1,
                r1,
                more,
                rw (read_on, run, other, no_text, end)
                    (ap (λ x. line_read x d1 r1 (shown x.echoed o) more) (ap line_of h1)),
              )
          | inr skip ↦
              let h1 : read_loop (map char cs) l ≡ returned l' =
                rw (read_loop, other, no_text, skip) at h in
              let (d', r', left, done) =
                read_on-read_loop cs rest fuel more d1 r1 o l l' e1 (omega arith) h1 in
              (d', r', left, rw (read_on, run, other, no_text, skip) done)
        ]
      ]
    ]

map-snoc : (cs : List ℕ) (end : ℕ) → map char (cs ++ (end ∷ [])) ≡ map char cs ++ (char end ∷ [])
map-snoc [] end = refl
map-snoc (c ∷ cs) end = ap (λ l. char c ∷ l) (map-snoc cs end)

-- The screen and the ports after characters that are put out one by one.
abbrev pub put_all : List ℕ → Output → Output
put_all [] o = o
put_all (c ∷ cs) o = put_all cs (cputchar c o)

shown-push_all : (cs es : List ℕ) (o : Output) → shown (push_all cs es) o ≡ put_all cs (shown es o)
shown-push_all [] es o = refl
shown-push_all (c ∷ cs) es o = shown-push_all cs (c ∷ es) o

-- Keys and bytes from the serial port that arrive between the polls, in whatever portions, make up
-- a text of fewer than 511 characters that are not 0, and the end of a line: then `readline`
-- returns the text as the keys edited it, with a zero byte behind. What it has put out on the
-- console is in this order: for a key that takes a character away a backspace, for a key that adds
-- one that character, and at the end a newline. At first the console holds nothing; polls
-- without input follow, one for each character at least.
pub terminal_readline-edit :
    (early : List Arrival) (k : ℕ) (buf : ℕ → ℕ) (d : Devices) (r : Ring) (o : Output) (cs : List ℕ)
    (end : ℕ)
    → IsQueue r []
    → IsSpent d
    → stream early d ≡ cs ++ (end ∷ [])
    → AreChars (cs ++ (end ∷ []))
    → NoEnd cs
    → is_end end ≡ true
    → length cs < 511
    → length cs < k
    → (l : Line) × (d' : Devices) × (r' : Ring) × (more : List Arrival) × (terminal_readline
          (early ++ idle k)
          buf
          d
          r
          o
        ≡ line_read l d' r' (put_all (echo_line cs) o) more)
      × Shows l.buf l.i (edit_all cs [])
      × (l.buf l.i ≡ 0)
      × (l.i < buflen)
unfolding terminal_readline
terminal_readline-edit early k buf d r o cs end v w arrives chars ends e short polls =
    let len = length-append cs (end ∷ []) in
    let whole =
      collect-whole early k d r v w (subst AreChars (sym arrives) chars)
        (omega (arith, ap length arrives, len, short))
        (omega (arith, ap length arrives, len, polls)) in
    let (l, run, text, zeroed, room, out) = readline-echo cs end buf ends e in
    let (d', r', more, done) =
      read_on-read_loop (cs ++ (end ∷ [])) [] (suc (length (early ++ idle k))) (early ++ idle k) d r
        o (record { i = 0; buf = buf; echoed = [] }) l
        (whole ∙ arrives ∙ sym (append-nil (cs ++ (end ∷ [])))) (omega arith)
        (unfold readline in (ap (λ t. readline t buf) (map-snoc cs end) ∙ run)) in
    let put = ap (λ (x : List ℕ). shown x o) out ∙ shown-push_all (echo_line cs) [] o in
    (l, d', r', more, done ∙ ap (λ x. line_read l d' r' x more) put, text, zeroed, room)
