-- ===== src/Terminal/Stream.antt =====
-- The characters that `getchar` returns, call after call, are those that arrive, in order.
use os.Base.{
  ℕ, zero, suc, ◌+◌, ◌≤◌, ◌<◌, ◌≡◌, ◌≢◌, refl, ◌⊎◌, inl, inr, true, false, Option, none, some, List,
  [], ◌∷◌, ◌++◌, append-nil, append_assoc, length, length-append, ◌==◌, arith, ap, sym, subst, ◌∙◌,
  Bool-cases, ne→==,
}
use os.Console.Keys.{scan}
use os.Console.Input.{Ring, Devices, Waiting, key, mouse, cons_getc, typed}
use os.Console.Queue.{
  IsQueue, first, rest, nonzero, serial_input, kbd_input, drained, after_keys, cons_getc-IsQueue,
}
use os.Console.Getchar.{Arrival, arrive, input, after}

-- The results of `getchar`, called again and again until it waits.
abbrev pub collected : (Devices → Ring → List ℕ) → Option (ℕ × Devices × Ring) → List ℕ
collected again none = []
collected again (some (c, d, r)) = elim (c == 0) [ true ↦ again d r | false ↦ c ∷ again d r ]

unfoldable pub collect : List Arrival → Devices → Ring → List ℕ
collect [] d r = []
collect (a ∷ more) d r = collected (collect more) (cons_getc (arrive a d) r)

-- What arrives in all.
abbrev pub stream : List Arrival → Devices → List ℕ
stream [] d = []
stream (a ∷ more) d = input (arrive a d) ++ stream more (after (arrive a d))

abbrev pub AreChars : List ℕ → Type 0
AreChars [] = Unit {0}
AreChars (c ∷ cs) = (c ≢ 0) × AreChars cs

-- A poll with `q` in the ring.
poll-IsQueue :
    (d : Devices) (r : Ring) (q : List ℕ)
    → IsQueue r q
    → length q + length (input d) < 512
    → (r' : Ring) × (cons_getc d r ≡ some (first (q ++ input d), after d, r'))
      × IsQueue r' (rest (q ++ input d))
poll-IsQueue d r q v room =
    let a = nonzero (serial_input d) in
    let b = nonzero (kbd_input d.shift d.keys) in
    let (r', run, v') = cons_getc-IsQueue d r q v (omega (arith, room, length-append a b)) in
    let e : q ++ a ++ b ≡ q ++ (a ++ b) = append_assoc q a b in
    (r', run ∙ ap (λ l. some (first l, after d, r')) e, subst (λ l. IsQueue r' (rest l)) e v')

-- The state after all the polls, and what is left in the ring.
abbrev pub left_devices : List Arrival → Devices → Devices
left_devices [] d = d
left_devices (a ∷ more) d = left_devices more (after (arrive a d))

chars-second : (xs ys : List ℕ) → AreChars (xs ++ ys) → AreChars ys
chars-second [] ys h = h
chars-second (x ∷ xs) ys h = chars-second xs ys h.1

list_cases : (l : List ℕ) → (l ≡ []) ⊎ ((c : ℕ) × (t : List ℕ) × (l ≡ c ∷ t))
list_cases [] = inl refl
list_cases (c ∷ t) = inr (c, t, refl)

collect-none :
    (a : Arrival) (more : List Arrival) (d d' : Devices) (r r' : Ring)
    → cons_getc (arrive a d) r ≡ some (0, d', r')
    → collect (a ∷ more) d r ≡ collect more d' r'
unfolding collect
collect-none a more d d' r r' e = ap (collected (collect more)) e

collect-char :
    (a : Arrival) (more : List Arrival) (d d' : Devices) (r r' : Ring) (c : ℕ)
    → cons_getc (arrive a d) r ≡ some (c, d', r')
    → c ≢ 0
    → collect (a ∷ more) d r ≡ c ∷ collect more d' r'
unfolding collect
collect-char a more d d' r r' c e h =
    ap (collected (collect more)) e ∙ rw (collected, ne→== c 0 h) refl

-- What is returned and what is left make up the queue and the stream, whatever arrives later.
pub collect-stream :
    (early later : List Arrival) (d : Devices) (r : Ring) (q : List ℕ)
    → IsQueue r q
    → AreChars (q ++ stream early d)
    → length q + length (stream early d) < 512
    → (cs : List ℕ) × (q' : List ℕ) × (r' : Ring) × (cs ++ q' ≡ q ++ stream early d)
      × IsQueue r' q'
      × (collect (early ++ later) d r ≡ cs ++ collect later (left_devices early d) r')
collect-stream [] later d r q v chars room = ([], q, r, sym (append-nil q), v, refl)
collect-stream (a ∷ more) later d r q v chars room =
    let i = input (arrive a d) in
    let d1 = after (arrive a d) in
    let s = stream more d1 in
    let (r1, run1, v1) = poll-IsQueue (arrive a d) r q v (omega (arith, room, length-append i s)) in
    let joined : (q ++ i) ++ s ≡ q ++ (i ++ s) = append_assoc q i s in
    let chars1 : AreChars ((q ++ i) ++ s) = subst AreChars (sym joined) chars in
    let len : length (q ++ i) + length s < 512 =
      omega (arith, room, length-append i s, length-append q i) in
    elim (list_cases (q ++ i)) [
      | inl e ↦
          let run : cons_getc (arrive a d) r ≡ some (0, d1, r1) =
            run1 ∙ ap (λ l. some (first l, d1, r1)) e in
          let (cs, q', r', whole, v', col) =
            collect-stream more later d1 r1 [] (subst (λ l. IsQueue r1 (rest l)) e v1)
              (subst (λ l. AreChars (l ++ s)) e chars1) (omega (arith, len, ap length e)) in
          (
            cs,
            q',
            r',
            whole ∙ ap (λ l. l ++ s) (sym e) ∙ joined,
            v',
            collect-none a (more ++ later) d d1 r r1 run ∙ col,
          )
      | inr (c, t, e) ↦
          let run : cons_getc (arrive a d) r ≡ some (c, d1, r1) =
            run1 ∙ ap (λ l. some (first l, d1, r1)) e in
          let chars2 : AreChars (c ∷ (t ++ s)) = subst (λ l. AreChars (l ++ s)) e chars1 in
          let (cs, q', r', whole, v', col) =
            collect-stream more later d1 r1 t (subst (λ l. IsQueue r1 (rest l)) e v1) chars2.1
              (omega (arith, len, ap length e)) in
          (
            c ∷ cs,
            q',
            r',
            ap (λ l. c ∷ l) whole ∙ ap (λ l. l ++ s) (sym e) ∙ joined,
            v',
            collect-char a (more ++ later) d d1 r r1 c run chars2.0 ∙ ap (λ l. c ∷ l) col,
          )
    ]

-- Polls before which nothing arrives
abbrev pub nothing : Arrival
nothing = record { bytes = []; codes = [] }

abbrev pub idle : ℕ → List Arrival
idle zero = []
idle (suc k) = nothing ∷ idle k

-- The devices have no more to give.
abbrev pub IsSpent : Devices → Type 0
IsSpent d = (serial_input d ≡ []) × ((d.keys ≡ []) ⊎ ((ks : List Waiting) × (d.keys ≡ mouse ∷ ks)))

after_keys-IsSpent :
    (ks : List Waiting) (d : Devices)
    → serial_input d ≡ []
    → d.keys ≡ ks
    → IsSpent (after_keys d ks)
after_keys-IsSpent [] d e f = (e, inl f)
after_keys-IsSpent (mouse ∷ ks) d e f = (e, inr (ks, f))
after_keys-IsSpent (key code ∷ ks) d e f =
    after_keys-IsSpent ks (typed d ks (scan d.shift code)).1 e refl

after-IsSpent : (d : Devices) → IsSpent (after d)
after-IsSpent d = after_keys-IsSpent d.keys (drained d) silent refl
  where
    silent : serial_input (drained d) ≡ []
    silent = elim (Bool-cases d.serial_exists) [
      | inl there ↦ rw there refl
      | inr gone ↦ rw gone refl
    ]

left_devices-IsSpent :
    (polls : List Arrival) (d : Devices) → IsSpent d → IsSpent (left_devices polls d)
left_devices-IsSpent [] d v = v
left_devices-IsSpent (a ∷ more) d v =
    left_devices-IsSpent more (after (arrive a d)) (after-IsSpent (arrive a d))

arrive-nothing : (d : Devices) → arrive nothing d ≡ d
arrive-nothing d = λ i. record d { received = append-nil d.received i; keys = append-nil d.keys i }

spent-input : (d : Devices) → IsSpent d → input d ≡ []
spent-input d (silent, inl e) = rw (silent, ap (kbd_input d.shift) e) refl
spent-input d (silent, inr (ks, e)) = rw (silent, ap (kbd_input d.shift) e) refl

-- With enough polls what is in the ring comes out.
collect-idle :
    (k : ℕ) (d : Devices) (r : Ring) (q : List ℕ)
    → IsQueue r q
    → IsSpent d
    → AreChars q
    → length q ≤ k
    → collect (idle k) d r ≡ q
collect-idle zero d r [] v w chars h = unfold collect in refl
collect-idle zero d r (c ∷ q) v w chars h = absurd (omega (arith, h))
collect-idle (suc k) d r q v w chars h =
    let d1 = arrive nothing d in
    let none_in : input d1 ≡ [] = ap input (arrive-nothing d) ∙ spent-input d w in
    let (r1, run1, v1) = poll-IsQueue d1 r q v (omega (arith, v.short, ap length none_in)) in
    let whole : q ++ input d1 ≡ q = ap (λ l. q ++ l) none_in ∙ append-nil q in
    let run2 : cons_getc d1 r ≡ some (first q, after d1, r1) =
      run1 ∙ ap (λ l. some (first l, after d1, r1)) whole in
    by_queue q v chars h r1 run2 (subst (λ l. IsQueue r1 (rest l)) whole v1) (collect-idle k)
  where
    by_queue :
        (q : List ℕ)
        → IsQueue r q
        → AreChars q
        → length q ≤ suc k
        → (r1 : Ring)
        → cons_getc (arrive nothing d) r ≡ some (first q, after (arrive nothing d), r1)
        → IsQueue r1 (rest q)
        → ((d : Devices) (r : Ring) (q : List ℕ)
            → IsQueue r q
            → IsSpent d
            → AreChars q
            → length q ≤ k
            → collect (idle k) d r ≡ q)
        → collect (idle (suc k)) d r ≡ q
    by_queue [] v chars h r1 run v1 again =
        collect-none nothing (idle k) d (after (arrive nothing d)) r r1 run
        ∙ again (after (arrive nothing d)) r1 [] v1 (after-IsSpent (arrive nothing d)) tt
            (omega arith)
    by_queue (c ∷ t) v chars h r1 run v1 again =
        collect-char nothing (idle k) d (after (arrive nothing d)) r r1 c run chars.0
        ∙ ap (λ l. c ∷ l)
            (again (after (arrive nothing d)) r1 t v1 (after-IsSpent (arrive nothing d)) chars.1
              (omega (arith, h)))

-- Nothing is lost, doubled or put out of order between the devices and the callers of `getchar`:
-- with an empty ring and as many polls at the end as there are characters, the calls return the
-- characters that arrive, which are fewer than 512 in all and none of them 0.
pub collect-whole :
    (early : List Arrival) (k : ℕ) (d : Devices) (r : Ring)
    → IsQueue r []
    → IsSpent d
    → AreChars (stream early d)
    → length (stream early d) < 512
    → length (stream early d) ≤ k
    → collect (early ++ idle k) d r ≡ stream early d
collect-whole early k d r v w chars room polls =
    let (cs, q, r', whole, v', col) =
      collect-stream early (idle k) d r [] v chars (omega (arith, room)) in
    col
    ∙ ap (λ l. cs ++ l)
        (collect-idle k (left_devices early d) r' q v' (left_devices-IsSpent early d w)
          (chars-second cs q (subst AreChars (sym whole) chars))
          (omega (arith, polls, ap length whole, length-append cs q)))
    ∙ whole
