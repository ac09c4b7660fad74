-- ===== src/Console/Queue.antt =====
-- The ring as a queue: characters come out in the order in which they went in.
use os.Base.{
  ℕ, zero, suc, ◌+◌, ◌%◌, ◌≤◌, ◌<◌, ◌≡◌, ◌≢◌, refl, inl, inr, Bool, true, false, none, some, List,
  [], ◌∷◌, ◌++◌, length, length-append, append-nil, ltb, ◌==◌, if◌then◌else◌, arith, ap, sym, subst,
  Bool-cases, update, ne→==, eq→==,
}
use os.Console.Keys.{scan}
use os.Console.Input.{
  consbufsize, Ring, Devices, Device, Waiting, serial_proc_data, kbd_proc_data, stash, cons_intr,
  serial_intr, kbd_intr, take_next, cons_getc, typed, key, mouse,
}

abbrev pub next : ℕ → ℕ
next i = if i + 1 == consbufsize then 0 else i + 1

-- From `i` on the ring holds `cs` and ends at `j`.
abbrev pub Holds : (ℕ → ℕ) → ℕ → ℕ → List ℕ → Type 0
Holds buf i j [] = i ≡ j
Holds buf i j (c ∷ cs) = (buf i ≡ c) × Holds buf (next i) j cs

-- The ring is the queue `cs`: positions in range, and room for one more position than it holds.
pub record IsQueue (r : Ring) (cs : List ℕ) : Type 0 where
  pub read_inside : r.rpos < 512
  pub write_inside : r.wpos < 512
  pub short : length cs < 512
  pub holds : Holds r.buf r.rpos r.wpos cs

-- `n` steps on from `i`.
abbrev advance : ℕ → ℕ → ℕ
advance i n = (i + n) % 512

Holds-end :
    (buf : ℕ → ℕ) (i j : ℕ) (cs : List ℕ) → i < 512 → Holds buf i j cs → j ≡ advance i (length cs)
Holds-end buf i j [] h v = omega arith
Holds-end buf i j (c ∷ cs) h v =
    let e = Holds-end buf (next i) j cs (ground arith) v.1 in ground (arith, e)

Holds-stash :
    (buf : ℕ → ℕ) (i j c : ℕ) (cs : List ℕ)
    → i < 512
    → j < 512
    → length cs < 511
    → Holds buf i j cs
    → Holds (update buf j c) i (next j) (cs ++ (c ∷ []))
Holds-stash buf i j c [] h hj short v = ground arith
Holds-stash buf i j c (x ∷ xs) h hj short v =
    let e = Holds-end buf i j (x ∷ xs) h v in
    let apart : j ≢ i = omega (arith, e) in
    (ground (arith, v.0), Holds-stash buf (next i) j c xs (ground arith) hj (omega arith) v.1)

length-snoc : (cs : List ℕ) (c : ℕ) → length (cs ++ (c ∷ [])) ≡ suc (length cs)
length-snoc [] c = refl
length-snoc (x ∷ cs) c = ap suc (length-snoc cs c)

-- A character is put behind the queue; a queue of 511, which leaves no room, is emptied instead.
pub stash-IsQueue :
    (r : Ring) (c : ℕ) (cs : List ℕ)
    → IsQueue r cs
    → IsQueue (stash c r) (if ltb (length cs) 511 then cs ++ (c % 256 ∷ []) else [])
unfolding stash
stash-IsQueue r c cs v = elim (Bool-cases (ltb (length cs) 511)) [
  | inl room ↦
      let e = length-snoc cs (c % 256) in
      rw room (record {
        read_inside = v.read_inside;
        write_inside = ground (arith, v.write_inside);
        short = ground (arith, e);
        holds =
            Holds-stash r.buf r.rpos r.wpos (c % 256) cs v.read_inside v.write_inside (ground arith)
              v.holds;
      })
  | inr full ↦
      let e = Holds-end r.buf r.rpos r.wpos cs v.read_inside v.holds in
      let len : length cs ≡ 511 = ground (arith, v.short) in
      rw full (record {
        read_inside = v.read_inside;
        write_inside = ground (arith, v.write_inside);
        short = omega arith;
        holds = ground (arith, e, v.read_inside, v.write_inside, len);
      })
]

-- What comes out of a queue: its first character, or 0, and the rest.
abbrev pub first : List ℕ → ℕ
first [] = 0
first (c ∷ cs) = c

abbrev pub rest : List ℕ → List ℕ
rest [] = []
rest (c ∷ cs) = cs

pub take_next-IsQueue :
    (r : Ring) (cs : List ℕ)
    → IsQueue r cs
    → ((take_next r).0 ≡ first cs) × IsQueue (take_next r).1 (rest cs)
unfolding take_next
take_next-IsQueue r [] v = rw (eq→== r.rpos r.wpos v.holds) (refl, v)
take_next-IsQueue r (c ∷ cs) v =
    let e = Holds-end r.buf r.rpos r.wpos (c ∷ cs) v.read_inside v.holds in
    rw (ne→== r.rpos r.wpos (omega (arith, e, v.short, v.read_inside))) (
      v.holds.0,
      record {
        read_inside = ground (arith, v.read_inside);
        write_inside = v.write_inside;
        short = omega (arith, v.short);
        holds = v.holds.1;
      },
    )

-- Run from `d` on, the device gives `cs` and then has nothing, in the state `d'`.
pub data Yields (proc : Device) : Devices → List ℕ → Devices → Type 0 where
  dry : (d : Devices) → proc d ≡ (none, d) → Yields proc d [] d
  gives :
      (d d1 d' : Devices) (c : ℕ) (cs : List ℕ)
      → proc d ≡ (some c, d1)
      → Yields proc d1 cs d'
      → Yields proc d (c ∷ cs) d'

-- A character 0 is no input.
abbrev pub nonzero : List ℕ → List ℕ
nonzero [] = []
nonzero (c ∷ cs) = if c == 0 then nonzero cs else c % 256 ∷ nonzero cs

snoc-append : (xs ys : List ℕ) (c : ℕ) → (xs ++ (c ∷ [])) ++ ys ≡ xs ++ (c ∷ ys)
snoc-append [] ys c = refl
snoc-append (x ∷ xs) ys c = ap (λ l. x ∷ l) (snoc-append xs ys c)

cons_intr-IsQueue :
    (proc : Device) (fuel : ℕ) (d d' : Devices) (cs : List ℕ) (r : Ring) (q : List ℕ)
    → Yields proc d cs d'
    → length cs < fuel
    → IsQueue r q
    → length q + length (nonzero cs) < 512
    → (r' : Ring) × (cons_intr proc fuel d r ≡ some (d', r')) × IsQueue r' (q ++ nonzero cs)
unfolding cons_intr
cons_intr-IsQueue proc zero d d' cs r q y h v room = absurd (omega arith)
cons_intr-IsQueue proc (suc fuel) d d' cs r q (dry _ e) h v room =
    (r, rw (cons_intr, e) refl, subst (IsQueue r) (sym (append-nil q)) v)
cons_intr-IsQueue proc (suc fuel) d d' cs r q (gives _ d1 _ c cs1 e y) h v room =
    elim (Bool-cases (c == 0)) [
      | inl skip ↦
          let (r', run, out) =
            cons_intr-IsQueue proc fuel d1 d' cs1 r q y (omega arith) v (ground (arith, room)) in
          (r', rw (cons_intr, e, skip) run, rw skip out)
      | inr char ↦
          let fits : ltb (length q) 511 ≡ true = ground (arith, room) in
          let v1 : IsQueue (stash c r) (q ++ (c % 256 ∷ [])) = rw fits at (stash-IsQueue r c q v) in
          let len = length-snoc q (c % 256) in
          let (r', run, out) =
            cons_intr-IsQueue proc fuel d1 d' cs1 (stash c r) (q ++ (c % 256 ∷ [])) y (omega arith)
              v1 (ground (arith, room, len)) in
          (
            r',
            rw (cons_intr, e, char) run,
            rw char (subst (IsQueue r') (snoc-append q (nonzero cs1) (c % 256)) out),
          )
    ]

-- What the devices hand over when they are polled, and how that leaves them.
abbrev pub serial_input : Devices → List ℕ
serial_input d = if d.serial_exists then d.received else []

abbrev pub drained : Devices → Devices
drained d = record d { received = if d.serial_exists then [] else d.received }

abbrev pub kbd_input : ℕ → List Waiting → List ℕ
kbd_input shift [] = []
kbd_input shift (mouse ∷ ks) = []
kbd_input shift (key code ∷ ks) = (scan shift code).0 ∷ kbd_input (scan shift code).1 ks

abbrev pub after_keys : Devices → List Waiting → Devices
after_keys d [] = d
after_keys d (mouse ∷ ks) = d
after_keys d (key code ∷ ks) = after_keys (typed d ks (scan d.shift code)).1 ks

serial-Yields :
    (d : Devices) (cs : List ℕ)
    → Yields serial_proc_data (record d { received = cs }) cs (record d { received = [] })
unfolding serial_proc_data
serial-Yields d [] = dry (record d { received = [] }) refl
serial-Yields d (c ∷ cs) =
    gives (record d { received = c ∷ cs }) (record d { received = cs }) (record d { received = [] })
      c cs refl (serial-Yields d cs)

kbd-Yields :
    (d : Devices) (ks : List Waiting)
    → Yields kbd_proc_data
        (record d { keys = ks })
        (kbd_input d.shift ks)
        (after_keys (record d { keys = ks }) ks)
unfolding kbd_proc_data
kbd-Yields d [] = dry (record d { keys = [] }) refl
kbd-Yields d (mouse ∷ ks) = dry (record d { keys = mouse ∷ ks }) refl
kbd-Yields d (key code ∷ ks) =
    let d1 = (typed (record d { keys = key code ∷ ks }) ks (scan d.shift code)).1 in
    gives (record d { keys = key code ∷ ks }) d1 (after_keys d1 ks) (scan d.shift code).0
      (kbd_input (scan d.shift code).1 ks) refl (kbd-Yields d1 ks)

length-kbd_input : (shift : ℕ) (ks : List Waiting) → length (kbd_input shift ks) ≤ length ks
length-kbd_input shift [] = omega arith
length-kbd_input shift (mouse ∷ ks) = omega arith
length-kbd_input shift (key code ∷ ks) = omega (arith, length-kbd_input (scan shift code).1 ks)

serial_intr-IsQueue :
    (d : Devices) (r : Ring) (q : List ℕ)
    → IsQueue r q
    → length q + length (nonzero (serial_input d)) < 512
    → (r' : Ring) × (serial_intr d r ≡ some (drained d, r'))
      × IsQueue r' (q ++ nonzero (serial_input d))
unfolding serial_intr
serial_intr-IsQueue d = go d.serial_exists
  where
    go :
        (b : Bool) (r : Ring) (q : List ℕ)
        → IsQueue r q
        → length q + length (nonzero (if b then d.received else [])) < 512
        → (r' : Ring) × (serial_intr (record d { serial_exists = b }) r
            ≡ some (drained (record d { serial_exists = b }), r'))
          × IsQueue r' (q ++ nonzero (if b then d.received else []))
    go true r q v room =
        let d1 : Devices = record d { serial_exists = true } in
        cons_intr-IsQueue serial_proc_data (length d.received + 1) d1 (record d1 { received = [] })
          d.received r q (serial-Yields d1 d.received) (omega arith) v room
    go false r q v room = (r, refl, subst (IsQueue r) (sym (append-nil q)) v)

-- Characters come out of the console in the order in which they came in. With `q` in the ring and
-- room for what the devices hold, `cons_getc` polls the serial port and then the keyboard until
-- they have nothing more (the keyboard is not read past a byte of the mouse), and returns the first
-- character of it all, or 0 if there is none; what is left is in the ring.
pub cons_getc-IsQueue :
    (d : Devices) (r : Ring) (q : List ℕ)
    → IsQueue r q
    → length q + length (nonzero (serial_input d)) + length (nonzero (kbd_input d.shift d.keys))
      < 512
    → (r' : Ring) × (cons_getc d r
        ≡ some (
          first (q ++ nonzero (serial_input d) ++ nonzero (kbd_input d.shift d.keys)),
          after_keys (drained d) d.keys,
          r',
        ))
      × IsQueue r' (rest (q ++ nonzero (serial_input d) ++ nonzero (kbd_input d.shift d.keys)))
unfolding cons_getc
cons_getc-IsQueue d r q v room =
    let a = nonzero (serial_input d) in
    let b = nonzero (kbd_input d.shift d.keys) in
    let (r1, run1, v1) = serial_intr-IsQueue d r q v (omega (arith, room)) in
    let d2 = after_keys (drained d) d.keys in
    let (r2, run2, v2) =
      cons_intr-IsQueue kbd_proc_data (length d.keys + 1) (drained d) d2 (kbd_input d.shift d.keys)
        r1 (q ++ a) (kbd-Yields (drained d) d.keys) (omega (arith, length-kbd_input d.shift d.keys))
        v1 (omega (arith, room, length-append q a)) in
    let (next_char, left) = take_next-IsQueue r2 (q ++ a ++ b) v2 in
    (
      (take_next r2).1,
      rw (run1) (unfold kbd_intr in rw run2 (ap (λ c. some (c, d2, (take_next r2).1)) next_char)),
      left,
    )
