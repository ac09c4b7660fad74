-- ===== src/Console/Getchar.antt =====
-- `getchar` of kern/console.c. Input arrives between its polls of the console: what arrives before
-- each of them is a list, with an entry for every poll.
use os.Base.{
  ℕ, ◌<◌, ◌≡◌, ◌≢◌, refl, inl, inr, true, false, Option, none, some, List, [], ◌∷◌, ◌++◌, length,
  length-append, append-nil, subst, ◌==◌, arith, ap, sym, ◌∙◌, ne→==, Bool-cases,
}
use os.Console.Input.{Ring, Devices, Waiting, mouse, cons_getc}
use os.Console.Queue.{
  IsQueue, first, rest, nonzero, serial_input, kbd_input, drained, after_keys, cons_getc-IsQueue,
}

-- What arrives at the serial port and at the keyboard.
pub record Arrival : Type 0 where
  pub bytes : List ℕ
  pub codes : List Waiting

abbrev pub arrive : Arrival → Devices → Devices
arrive a d = record d { received = d.received ++ a.bytes; keys = d.keys ++ a.codes }

-- The character, the state, and what is still to arrive; or no character yet. `stuck` is a poll
-- that did not end.
pub data Got : Type 0 where
  got : ℕ → Devices → Ring → List Arrival → Got
  still_waiting : Devices → Ring → Got
  stuck : Got

abbrev pub polled : (Devices → Ring → Got) → List Arrival → Option (ℕ × Devices × Ring) → Got
polled again more none = stuck
polled again more (some (c, d, r)) = elim (c == 0) [ true ↦ again d r | false ↦ got c d r more ]

unfoldable pub getchar : List Arrival → Devices → Ring → Got
getchar [] d r = still_waiting d r
getchar (a ∷ more) d r = polled (getchar more) more (cons_getc (arrive a d) r)

-- What a poll takes from the devices, and how it leaves them.
abbrev pub input : Devices → List ℕ
input d = nonzero (serial_input d) ++ nonzero (kbd_input d.shift d.keys)

abbrev pub after : Devices → Devices
after d = after_keys (drained d) d.keys

-- What arrives holds no character: key releases, modifiers, characters 0.
abbrev pub AreQuiet : List Arrival → Devices → Type 0
AreQuiet [] d = Unit {0}
AreQuiet (a ∷ more) d = (input (arrive a d) ≡ []) × AreQuiet more (after (arrive a d))

abbrev pub after_all : List Arrival → Devices → Devices
after_all [] d = d
after_all (a ∷ more) d = after_all more (after (arrive a d))

getc-input :
    (d : Devices) (r : Ring)
    → IsQueue r []
    → length (input d) < 512
    → (r' : Ring) × (cons_getc d r ≡ some (first (input d), after d, r'))
      × IsQueue r' (rest (input d))
getc-input d r v room =
    let len = length-append (nonzero (serial_input d)) (nonzero (kbd_input d.shift d.keys)) in
    cons_getc-IsQueue d r [] v (omega (arith, room, len))

getchar-quiet :
    (quiet more : List Arrival) (d : Devices) (r : Ring)
    → IsQueue r []
    → AreQuiet quiet d
    → (r' : Ring) × (getchar (quiet ++ more) d r ≡ getchar more (after_all quiet d) r')
      × IsQueue r' []
unfolding getchar
getchar-quiet [] more d r v silent = (r, refl, v)
getchar-quiet (a ∷ quiet) more d r v silent =
    let none_yet : input (arrive a d) ≡ [] = silent.0 in
    let (r1, run, v1) = getc-input (arrive a d) r v (omega (arith, ap length none_yet)) in
    let run1 : cons_getc (arrive a d) r ≡ some (0, after (arrive a d), r1) =
      run ∙ ap (λ l. some (first l, after (arrive a d), r1)) none_yet in
    let (r2, run2, v2) =
      getchar-quiet quiet more (after (arrive a d)) r1
        (subst (λ l. IsQueue r1 (rest l)) none_yet v1) silent.1 in
    (r2, rw (getchar, run1) run2, v2)

polled-got :
    (again : Devices → Ring → Got) (more : List Arrival) (c : ℕ) (d : Devices) (r : Ring)
    → c ≢ 0
    → polled again more (some (c, d, r)) ≡ got c d r more
polled-got again more c d r h = rw (polled, ne→== c 0 h) refl

-- `getchar` with an empty ring: while nothing arrives that makes a character it waits, polling
-- again and again; at the first poll with a character it returns the first one, and the others
-- stay in the ring, in order. That is so if no more than 511 come between two polls.
pub getchar-first :
    (quiet : List Arrival) (a : Arrival) (more : List Arrival) (d : Devices) (r : Ring) (c : ℕ)
    (cs : List ℕ)
    → IsQueue r []
    → AreQuiet quiet d
    → input (arrive a (after_all quiet d)) ≡ c ∷ cs
    → c ≢ 0
    → length (c ∷ cs) < 512
    → ((r0 : Ring) × (getchar quiet d r ≡ still_waiting (after_all quiet d) r0))
      × ((r' : Ring) × (getchar (quiet ++ (a ∷ more)) d r
            ≡ got c (after (arrive a (after_all quiet d))) r' more)
          × IsQueue r' cs)
unfolding getchar
getchar-first quiet a more d r c cs v silent new nonzero_char room =
    let dn = arrive a (after_all quiet d) in
    let (r0, run0, _) = getchar-quiet quiet [] d r v silent in
    let (r1, run1, v1) = getchar-quiet quiet (a ∷ more) d r v silent in
    let (r2, run2, v2) = getc-input dn r1 v1 (omega (arith, ap length new, room)) in
    let run3 : cons_getc dn r1 ≡ some (c, after dn, r2) =
      run2 ∙ ap (λ l. some (first l, after dn, r2)) new in
    (
      (
        r0,
        subst (λ l. getchar l d r ≡ still_waiting (after_all quiet d) r0) (append-nil quiet) run0,
      ),
      (
        r2,
        run1
            ∙ ap (polled (getchar more) more) run3
            ∙ polled-got (getchar more) more c (after dn) r2 nonzero_char,
        subst (λ l. IsQueue r2 (rest l)) new v2,
      ),
    )

abbrev pub NoBytes : List Arrival → Type 0
NoBytes [] = Unit {0}
NoBytes (a ∷ more) = (a.bytes ≡ []) × NoBytes more

drained-silent :
    (d : Devices) → d.received ≡ [] → (serial_input d ≡ []) × ((drained d).received ≡ [])
drained-silent d e = elim (Bool-cases d.serial_exists) [
  | inl there ↦ rw there (e, refl)
  | inr gone ↦ rw gone (refl, e)
]

mouse-AreQuiet :
    (arrivals : List Arrival) (d : Devices) (ks : List Waiting)
    → NoBytes arrivals
    → d.received ≡ []
    → d.keys ≡ mouse ∷ ks
    → AreQuiet arrivals d
mouse-AreQuiet [] d ks silent e f = tt
mouse-AreQuiet (a ∷ more) d ks silent e f =
    let d1 = arrive a d in
    let e1 : d1.received ≡ [] = rw (e, silent.0) refl in
    let f1 : d1.keys ≡ mouse ∷ (ks ++ a.codes) = rw f refl in
    let (none_in, e2) = drained-silent d1 e1 in
    let same : after d1 ≡ drained d1 = ap (after_keys (drained d1)) f1 in
    (
      rw (none_in, ap (kbd_input d.shift) f1) refl,
      subst (AreQuiet more) (sym same)
          (mouse-AreQuiet more (drained d1) (ks ++ a.codes) silent.1 e2 f1),
    )

-- A byte of the mouse blocks the keyboard: it is never read, and so nothing behind it is. With an
-- empty ring and such a byte in front, `getchar` waits for ever if nothing comes over the
-- serial port, whatever keys are typed.
pub getchar-mouse :
    (arrivals : List Arrival) (d : Devices) (r : Ring) (ks : List Waiting)
    → IsQueue r []
    → NoBytes arrivals
    → d.received ≡ []
    → d.keys ≡ mouse ∷ ks
    → (d' : Devices) × (r' : Ring) × (getchar arrivals d r ≡ still_waiting d' r')
unfolding getchar
getchar-mouse arrivals d r ks v silent e f =
    let (r', run, _) = getchar-quiet arrivals [] d r v (mouse-AreQuiet arrivals d ks silent e f) in
    (
      after_all arrivals d,
      r',
      subst (λ l. getchar l d r ≡ still_waiting (after_all arrivals d) r') (append-nil arrivals)
          run,
    )
