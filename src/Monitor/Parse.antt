-- ===== src/Monitor/Parse.antt =====
-- The parser of `runcmd`: it ends, and stays in the line.
use os.Base.{
  ℕ, zero, suc, ◌+◌, ◌≤◌, ◌<◌, ◌^◌, ◌≡◌, ◌⊎◌, refl, inl, inr, false, some, List, [], ◌∷◌, ◌++◌,
  ◌==◌, update, arith, ◌∙◌, Bool-cases, eq→==, ne→==,
}
use os.Base.Lists.{length, length-append}
use os.Strings.{Memory, addresses}
use os.Strings.Scan.{IsString, IsString-update}
use os.Monitor.{
  maxargs, is_blank, Cursor, gobble, scan_past, Parsed, too_many, arguments, parse_loop, parse,
}

-- The addresses of a line.
abbrev pub InLine : ℕ → ℕ → List ℕ → Type 0
InLine lo hi [] = Unit
InLine lo hi (a ∷ args) = (lo ≤ a) × (a < hi) × InLine lo hi args

-- `new` is `old` outside the line.
abbrev pub KeepsRest : ℕ → ℕ → Memory → Memory → Type 0
KeepsRest lo hi old new = (j : ℕ) → (j < lo) ⊎ (hi ≤ j) → new j ≡ old j

-- No byte of `new` is greater than that of `old`.
abbrev pub Below : Memory → Memory → Type 0
Below old new = (j : ℕ) → new j ≤ old j

InLine-append :
    (lo hi : ℕ) (args : List ℕ) (a : ℕ)
    → InLine lo hi args
    → lo ≤ a
    → a < hi
    → InLine lo hi (args ++ a ∷ [])
InLine-append lo hi [] a v low high = (low, high, tt)
InLine-append lo hi (b ∷ args) a v low high = (v.0, v.1, InLine-append lo hi args a v.2 low high)

-- After `gobble` the rest of the line stands at the cursor.
record Gobbled (lo hi : ℕ) (m : Memory) (buf n : ℕ) (c : Cursor) (left : ℕ) : Type 0 where
  moves : c.buf + left ≡ buf + n
  ahead : buf ≤ c.buf
  rest : IsString c.mem c.buf left
  keeps : KeepsRest lo hi m c.mem
  below : Below m c.mem

lowered : (m : Memory) (buf j : ℕ) → update m buf 0 j ≤ m j
lowered m buf j = ground arith

gobble-Gobbled :
    (lo hi fuel n : ℕ) (m : Memory) (buf : ℕ)
    → IsString m buf n
    → lo ≤ buf
    → buf + n ≤ hi
    → n < fuel
    → (c : Cursor) × (left : ℕ) × (gobble fuel m buf ≡ some c) × Gobbled lo hi m buf n c left
unfolding gobble
gobble-Gobbled lo hi zero n m buf v low high h = absurd (omega arith)
gobble-Gobbled lo hi (suc fuel) zero m buf v low high h = (
  record { buf = buf; mem = m },
  0,
  rw (gobble, eq→== (m buf) 0 v) refl,
  record {
    moves = refl;
    ahead = omega arith;
    rest = v;
    keeps = λ j o. refl;
    below = λ j. omega arith;
  },
)
gobble-Gobbled lo hi (suc fuel) (suc n) m buf v low high h = elim (Bool-cases (is_blank (m buf))) [
  | inr stop ↦ (
    record { buf = buf; mem = m },
    suc n,
    rw (gobble, ne→== (m buf) 0 v.0, stop) refl,
    record {
      moves = refl;
      ahead = omega arith;
      rest = v;
      keeps = λ j o. refl;
      below = λ j. omega arith;
    },
  )
  | inl more ↦
      let later =
        gobble-Gobbled lo hi fuel n (update m buf 0) (buf + 1)
          (IsString-update m (buf + 1) n buf 0 (inl (omega arith)) v.1) (omega (arith, low))
          (omega (arith, high)) (omega (arith, h)) in
      (
        later.0,
        later.1,
        rw (gobble, ne→== (m buf) 0 v.0, more) later.2,
        record {
          moves = omega (arith, later.3.moves);
          ahead = omega (arith, later.3.ahead);
          rest = later.3.rest;
          keeps = λ j o. later.3.keeps j o ∙ ground (arith, low, high);
          below = λ j. omega (arith, later.3.below j, lowered m buf j);
        },
      )
]

string_more : (m : Memory) (s n : ℕ) → IsString m s n → (m s == 0) ≡ false → 0 < n
string_more m s zero v e = ground (arith, v, e)
string_more m s (suc n) v e = omega arith

scan_past_lem :
    (fuel n : ℕ) (m : Memory) (buf : ℕ)
    → IsString m buf n
    → n < fuel
    → (buf' : ℕ) × (left : ℕ) × (scan_past fuel m buf ≡ some buf')
      × (buf' + left ≡ buf + n)
      × IsString m buf' left
      × (buf ≤ buf')
unfolding scan_past
scan_past_lem zero n m buf v h = absurd (omega arith)
scan_past_lem (suc fuel) zero m buf v h =
    (buf, 0, rw (scan_past, eq→== (m buf) 0 v) refl, refl, v, omega arith)
scan_past_lem (suc fuel) (suc n) m buf v h = elim (Bool-cases (is_blank (m buf))) [
  | inl stop ↦ (buf, suc n, rw (scan_past, ne→== (m buf) 0 v.0, stop) refl, refl, v, omega arith)
  | inr more ↦
      let later = scan_past_lem fuel n m (buf + 1) v.1 (omega (arith, h)) in
      (
        later.0,
        later.1,
        rw (scan_past, ne→== (m buf) 0 v.0, more) later.2,
        omega (arith, later.3),
        later.4,
        omega (arith, later.5),
      )
]

-- At most 15 arguments were found, which start in the line, or there were more; the rest of
-- memory is kept.
abbrev pub IsParsed : ℕ → ℕ → Memory → Parsed → Type 0
IsParsed lo hi m (too_many m') = KeepsRest lo hi m m'
IsParsed lo hi m (arguments argv m') =
    (length argv ≤ 15) × InLine lo hi argv × KeepsRest lo hi m m' × Below m m'

parse_loop-IsParsed :
    (lo hi fuel : ℕ) (argv : List ℕ) (old m : Memory) (buf n : ℕ)
    → length argv + fuel ≡ 16
    → 0 < fuel
    → InLine lo hi argv
    → KeepsRest lo hi old m
    → Below old m
    → IsString m buf n
    → lo ≤ buf
    → buf + n ≡ hi
    → n < 2 ^ 32
    → (r : Parsed) × (parse_loop fuel argv m buf ≡ some r) × IsParsed lo hi old r
unfolding parse_loop
parse_loop-IsParsed lo hi zero argv old m buf n count some_left args keep below v low end small =
    absurd (omega arith)
parse_loop-IsParsed lo hi (suc fuel) argv old m buf n count some_left args keep below v low end
      small =
    let g = gobble-Gobbled lo hi addresses n m buf v low (omega arith) (omega arith) in
    let kept : KeepsRest lo hi old g.0.mem = λ j o. g.3.keeps j o ∙ keep j o in
    let lower : Below old g.0.mem = λ j. omega (arith, g.3.below j, below j) in
    elim (Bool-cases (g.0.mem g.0.buf == 0)) [
      | inl done ↦ (
        arguments argv g.0.mem,
        rw (parse_loop, g.2, done) refl,
        (omega (arith, count), args, kept, lower),
      )
      | inr more ↦ elim (Bool-cases (length argv == 15)) [
        | inl full ↦ (too_many g.0.mem, rw (parse_loop, g.2, more, full) refl, kept)
        | inr room ↦
            let inside = string_more (g.0.mem) (g.0.buf) (g.1) (g.3.rest) more in
            let word =
              scan_past_lem addresses (g.1) (g.0.mem) (g.0.buf) (g.3.rest)
                (omega (arith, g.3.moves, low, small, g.3.ahead)) in
            let later =
              parse_loop-IsParsed lo hi fuel (argv ++ g.0.buf ∷ []) old (g.0.mem) (word.0) (word.1)
                (omega (arith, count, length-append argv (g.0.buf ∷ [])))
                (ground (arith, count, room))
                (InLine-append lo hi argv (g.0.buf) args (omega (arith, low, g.3.ahead))
                  (omega (arith, g.3.moves, end, inside)))
                kept lower (word.4) (omega (arith, word.5, low, g.3.ahead))
                (omega (arith, word.3, g.3.moves, end))
                (omega (arith, word.3, word.5, g.3.moves, g.3.ahead, small)) in
            (later.0, rw (parse_loop, g.2, more, room, word.2) later.1, later.2)
      ]
    ]

-- On a line of `n` bytes that ends in a zero byte the parser of `runcmd` ends. It finds at most 15
-- arguments, all of which start in the line, or says that there are more, and it writes nothing
-- outside the line and makes no byte greater.
pub parse-IsParsed :
    (m : Memory) (buf n : ℕ)
    → IsString m buf n
    → n < 2 ^ 32
    → (r : Parsed) × (parse m buf ≡ some r) × IsParsed buf (buf + n) m r
unfolding parse
parse-IsParsed m buf n v small =
    parse_loop-IsParsed buf (buf + n) maxargs [] m m buf n refl (omega arith) tt (λ j o. refl)
      (λ j. omega arith) v (omega arith) refl small
