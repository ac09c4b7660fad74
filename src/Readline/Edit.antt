-- ===== src/Readline/Edit.antt =====
-- `readline` as an editor of a text that is a stack of characters.
use os.Base.{
  ℕ, suc, ◌+◌, ◌-◌, ◌%◌, ◌≤◌, ◌<◌, ◌≡◌, refl, inl, inr, true, false, ◌&&◌, ◌||◌, List, [], ◌∷◌,
  ◌++◌, length, map, ltb, leb, ◌==◌, if◌then◌else◌, arith, ap, sym, ◌∙◌, Bool-cases, update, subst,
}
use os.Readline.{
  buflen, Input, char, Line, returned, erase, insert, end_line, is_erase, is_text, is_end,
  read_loop, readline,
}

-- The first `n` bytes of the buffer, the last first.
abbrev pub Shows : (ℕ → ℕ) → ℕ → List ℕ → Type 0
Shows buf n [] = n ≡ 0
Shows buf n (c ∷ cs) = (0 < n) × (buf (n - 1) ≡ c) × Shows buf (n - 1) cs

Shows-length : (buf : ℕ → ℕ) (n : ℕ) (cs : List ℕ) → Shows buf n cs → n ≡ length cs
Shows-length buf n [] v = v
Shows-length buf n (c ∷ cs) v = omega (arith, v.0, Shows-length buf (n - 1) cs v.2)

Shows-update :
    (buf : ℕ → ℕ) (n k c : ℕ) (cs : List ℕ) → n ≤ k → Shows buf n cs → Shows (update buf k c) n cs
Shows-update buf n k c [] le v = v
Shows-update buf n k c (x ∷ cs) le v =
    (v.0, ground (arith, v.1), Shows-update buf (n - 1) k c cs (omega arith) v.2)

-- What a key does to a text: backspace and delete take its last character away, a printable
-- character is added while there is room for 1023. On the empty text delete counts as printable.
abbrev pub edit : ℕ → List ℕ → List ℕ
edit c [] = if leb 32 c then c % 256 ∷ [] else []
edit c (x ∷ text) =
    if (c == 8) || (c == 127)
    then text
    else if leb 32 c && ltb (length (x ∷ text)) (buflen - 1)
    then c % 256 ∷ x ∷ text
    else x ∷ text

abbrev pub edit_all : List ℕ → List ℕ → List ℕ
edit_all [] text = text
edit_all (c ∷ cs) text = edit_all cs (edit c text)

-- What a key puts out: a backspace for a character that it takes away, itself for one that it adds,
-- and nothing else; and then the keys of a line in order, the end of which puts out a newline.
abbrev pub echo_of : ℕ → List ℕ → List ℕ
echo_of c [] = if leb 32 c then c ∷ [] else []
echo_of c (x ∷ text) =
    if (c == 8) || (c == 127)
    then 8 ∷ []
    else if leb 32 c && ltb (length (x ∷ text)) (buflen - 1)
    then c ∷ []
    else []

abbrev pub echo_keys : List ℕ → List ℕ → List ℕ
echo_keys [] text = []
echo_keys (c ∷ cs) text = echo_of c text ++ echo_keys cs (edit c text)

abbrev pub echo_line : List ℕ → List ℕ
echo_line cs = echo_keys cs [] ++ (10 ∷ [])

abbrev pub push_all : List ℕ → List ℕ → List ℕ
push_all [] text = text
push_all (c ∷ cs) text = push_all cs (c ∷ text)

push_all-append : (xs ys text : List ℕ) → push_all (xs ++ ys) text ≡ push_all ys (push_all xs text)
push_all-append [] ys text = refl
push_all-append (x ∷ xs) ys text = push_all-append xs ys (x ∷ text)

-- No key of these ends the line.
abbrev pub NoEnd : List ℕ → Type 0
NoEnd [] = Unit {0}
NoEnd (c ∷ cs) = (is_end c ≡ false) × NoEnd cs

-- The buffer holds the text, and has room for the terminator.
pub record IsLine (l : Line) (text : List ℕ) : Type 0 where
  pub shows : Shows l.buf l.i text
  pub room : l.i ≤ 1023

insert-IsLine :
    (l : Line) (text : List ℕ) (c : ℕ)
    → l.i < 1023
    → IsLine l text
    → IsLine (insert c l) (c % 256 ∷ text)
insert-IsLine l text c h v =
    let keeps = Shows-update l.buf l.i l.i (c % 256) text (omega arith) v.shows in
    record {
      shows = (
        omega arith,
        ground arith,
        subst (λ k. Shows (update l.buf l.i (c % 256)) k text) {x = l.i} {y = l.i + 1 - 1}
            (omega arith) keeps,
      );
      room = omega arith;
    }

erase-IsLine : (l : Line) (x : ℕ) (text : List ℕ) → IsLine l (x ∷ text) → IsLine (erase l) text
erase-IsLine l x text v = record { shows = v.shows.2; room = omega (arith, v.room) }

read_loop-edit :
    (cs : List ℕ) (more : List Input) (l : Line) (text : List ℕ)
    → NoEnd cs
    → IsLine l text
    → (l' : Line) × (read_loop (map char cs ++ more) l ≡ read_loop more l')
      × IsLine l' (edit_all cs text)
      × (l'.echoed ≡ push_all (echo_keys cs text) l.echoed)
unfolding read_loop
read_loop-edit [] more l text ends v = (l, refl, v, refl)
read_loop-edit (c ∷ cs) more l [] ends v =
    let off : is_erase c l ≡ false = ground (arith, v.shows) in
    let stay : is_end c ≡ false = ends.0 in
    elim (Bool-cases (leb 32 c)) [
      | inl print ↦
          let add : is_text c l ≡ true = ground (arith, v.shows) in
          let (l', run, w, out) =
            read_loop-edit cs more (insert c l) (c % 256 ∷ []) ends.1
              (insert-IsLine l [] c (omega (arith, v.shows)) v) in
          (l', rw (read_loop, off, add) run, rw print w, rw print out)
      | inr other ↦
          let skip : is_text c l ≡ false = ground arith in
          let (l', run, w, out) = read_loop-edit cs more l [] ends.1 v in
          (l', rw (read_loop, off, skip, stay) run, rw other w, rw other out)
    ]
read_loop-edit (c ∷ cs) more l (x ∷ text) ends v =
    let stay : is_end c ≡ false = ends.0 in
    let len : l.i ≡ suc (length text) = Shows-length l.buf l.i (x ∷ text) v.shows in
    elim (Bool-cases ((c == 8) || (c == 127))) [
      | inl back ↦
          let on : is_erase c l ≡ true = ground (arith, v.shows.0) in
          let (l', run, w, out) =
            read_loop-edit cs more (erase l) text ends.1 (erase-IsLine l x text v) in
          (l', rw (read_loop, on) run, rw back w, rw back out)
      | inr plain ↦
          let off : is_erase c l ≡ false = ground arith in
          elim (Bool-cases (leb 32 c && ltb (length (x ∷ text)) (buflen - 1))) [
            | inl print ↦
                let add : is_text c l ≡ true = ground (arith, len) in
                let (l', run, w, out) =
                  read_loop-edit cs more (insert c l) (c % 256 ∷ x ∷ text) ends.1
                    (insert-IsLine l (x ∷ text) c (ground (arith, len)) v) in
                (l', rw (read_loop, off, add) run, rw (plain, print) w, rw (plain, print) out)
            | inr other ↦
                let skip : is_text c l ≡ false = ground (arith, len) in
                let (l', run, w, out) = read_loop-edit cs more l (x ∷ text) ends.1 v in
                (
                  l',
                  rw (read_loop, off, skip, stay) run,
                  rw (plain, other) w,
                  rw (plain, other) out,
                )
          ]
    ]

read_loop-end :
    (end : ℕ) (l : Line) → is_end end ≡ true → read_loop (char end ∷ []) l ≡ returned (end_line l)
unfolding read_loop
read_loop-end end l e =
    let off : is_erase end l ≡ false = ground (arith, e) in
    let skip : is_text end l ≡ false = ground (arith, e) in rw (read_loop, off, skip, e) refl

pub readline-echo :
    (cs : List ℕ) (end : ℕ) (buf : ℕ → ℕ)
    → NoEnd cs
    → is_end end ≡ true
    → (l : Line) × (readline (map char cs ++ (char end ∷ [])) buf ≡ returned l)
      × Shows l.buf l.i (edit_all cs [])
      × (l.buf l.i ≡ 0)
      × (l.i < buflen)
      × (l.echoed ≡ push_all (echo_line cs) [])
unfolding readline
readline-echo cs end buf ends e =
    let start : Line = record { i = 0; buf = buf; echoed = [] } in
    let (l, run, v, out) =
      read_loop-edit cs (char end ∷ []) start [] ends
        (record { shows = refl; room = omega arith }) in
    (
      end_line l,
      run ∙ read_loop-end end l e,
      Shows-update l.buf l.i l.i 0 (edit_all cs []) (omega arith) v.shows,
      ground arith,
      omega (arith, v.room),
      ap (λ (x : List ℕ). 10 ∷ x) out ∙ sym (push_all-append (echo_keys cs []) (10 ∷ []) []),
    )

-- Keys and then a newline or a carriage return: `readline` returns, with the edited text in the
-- buffer and a zero byte behind it; that is within the 1024 bytes of the buffer.
pub readline-edit :
    (cs : List ℕ) (end : ℕ) (buf : ℕ → ℕ)
    → NoEnd cs
    → is_end end ≡ true
    → (l : Line) × (readline (map char cs ++ (char end ∷ [])) buf ≡ returned l)
      × Shows l.buf l.i (edit_all cs [])
      × (l.buf l.i ≡ 0)
      × (l.i < buflen)
readline-edit cs end buf ends e =
    let (l, run, text, zeroed, room, out) = readline-echo cs end buf ends e in
    (l, run, text, zeroed, room)

-- Every character is printable, and the line has room for all.
abbrev pub ArePrintable : List ℕ → Type 0
ArePrintable [] = Unit {0}
ArePrintable (c ∷ cs) = (32 ≤ c) × (c < 127) × ArePrintable cs

edit-push : (c : ℕ) (text : List ℕ) → 32 ≤ c → c < 127 → length text < 1023 → edit c text ≡ c ∷ text
edit-push c [] lo hi room = ground arith
edit-push c (x ∷ text) lo hi room = ground arith

edit_all-plain :
    (cs text : List ℕ)
    → ArePrintable cs
    → length cs + length text < 1024
    → edit_all cs text ≡ push_all cs text
edit_all-plain [] text p h = refl
edit_all-plain (c ∷ cs) text p h =
    rw (edit-push c text p.0 p.1 (omega arith)) (edit_all-plain cs (c ∷ text) p.2 (omega arith))

printable-NoEnd : (cs : List ℕ) → ArePrintable cs → NoEnd cs
printable-NoEnd [] p = tt
printable-NoEnd (c ∷ cs) p = (ground (arith, p.0), printable-NoEnd cs p.2)

-- At most 1023 printable characters and a newline or a carriage return: `readline` returns them as
-- they were typed, the last at the end of the buffer's text, with a zero byte behind.
readline-plain :
    (cs : List ℕ) (end : ℕ) (buf : ℕ → ℕ)
    → ArePrintable cs
    → length cs < 1024
    → is_end end ≡ true
    → (l : Line) × (readline (map char cs ++ (char end ∷ [])) buf ≡ returned l)
      × Shows l.buf l.i (push_all cs [])
      × (l.buf l.i ≡ 0)
readline-plain cs end buf p h e =
    let (l, run, shows, zeroed, _) = readline-edit cs end buf (printable-NoEnd cs p) e in
    (l, run, subst (Shows l.buf l.i) (edit_all-plain cs [] p (omega arith)) shows, zeroed)
