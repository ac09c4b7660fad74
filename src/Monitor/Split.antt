-- ===== src/Monitor/Split.antt =====
-- The parser of `runcmd` finds the words of the line.
use os.Base.{
  ℕ, zero, suc, ◌+◌, ◌≤◌, ◌<◌, ◌^◌, ◌≡◌, ◌⊎◌, refl, inl, inr, true, false, some, List, [], ◌∷◌,
  ◌++◌, append-nil, append_assoc, ◌==◌, update, arith, ap, sym, subst, ◌∙◌, Bool-cases, eq→==,
  ne→==, ==_iff,
}
use os.Base.Lists.{length, length-append}
use os.Strings.{Memory, addresses}
use os.Strings.Scan.{IsString}
use os.Monitor.{
  maxargs, is_blank, Cursor, gobble, scan_past, Parsed, too_many, arguments, parse_loop, parse,
}
use os.Monitor.Words.{blank, blank_lem, words, IsCut, IsCut-none, cut_at, IsCut-blank, IsCut-other}

-- Where `gobble` leaves the cursor: at the end of the line or before a word.
record AtWord (lo : ℕ) (old : Memory) (buf n : ℕ) (c : Cursor) (left : ℕ) : Type 0 where
  moves : c.buf + left ≡ buf + n
  ahead : buf ≤ c.buf
  rest : IsString old c.buf left
  cut : IsCut lo c.buf old c.mem
  same : words n true old buf ≡ words left true old c.buf
  word : (left ≡ 0) ⊎ (blank (old c.buf) ≡ false)

gobble-AtWord :
    (lo fuel n : ℕ) (old m : Memory) (buf : ℕ)
    → lo ≤ buf
    → IsString old buf n
    → IsCut lo buf old m
    → n < fuel
    → (c : Cursor) × (left : ℕ) × (gobble fuel m buf ≡ some c) × AtWord lo old buf n c left
unfolding gobble
gobble-AtWord lo zero n old m buf low v cut h = absurd (omega arith)
gobble-AtWord lo (suc fuel) zero old m buf low v cut h =
    let end : m buf ≡ 0 = cut_at lo buf old m cut ∙ v in
    (
      record { buf = buf; mem = m },
      0,
      rw (gobble, eq→== (m buf) 0 end) refl,
      record {
        moves = refl;
        ahead = omega arith;
        rest = v;
        cut = cut;
        same = refl;
        word = inl refl;
      },
    )
gobble-AtWord lo (suc fuel) (suc n) old m buf low v cut h =
    let at : m buf ≡ old buf = cut_at lo buf old m cut in
    let some_byte : (m buf == 0) ≡ false = ne→== (m buf) 0 (λ z. v.0 (sym at ∙ z)) in
    let test : is_blank (m buf) ≡ blank (old buf) = blank_lem (m buf) ∙ ap blank at in
    elim (Bool-cases (blank (old buf))) [
      | inr stop ↦ (
        record { buf = buf; mem = m },
        suc n,
        rw (gobble, some_byte, test ∙ stop) refl,
        record {
          moves = refl;
          ahead = omega arith;
          rest = v;
          cut = cut;
          same = refl;
          word = inr stop;
        },
      )
      | inl more ↦
          let (c, left, run, w) =
            gobble-AtWord lo fuel n old (update m buf 0) (buf + 1) (omega (arith, low)) v.1
              (IsCut-blank lo buf old m low more cut) (omega (arith, h)) in
          (
            c,
            left,
            rw (gobble, some_byte, test ∙ more) run,
            record {
              moves = omega (arith, w.moves);
              ahead = omega (arith, w.ahead);
              rest = w.rest;
              cut = w.cut;
              same = rw more w.same;
              word = w.word;
            },
          )
    ]

record PastWord (lo : ℕ) (old m : Memory) (buf n buf' left : ℕ) : Type 0 where
  moves : buf' + left ≡ buf + n
  ahead : buf ≤ buf'
  rest : IsString old buf' left
  cut : IsCut lo buf' old m
  same : words n false old buf ≡ words left true old buf'

scan_past-PastWord :
    (lo fuel n : ℕ) (old m : Memory) (buf : ℕ)
    → IsString old buf n
    → IsCut lo buf old m
    → n < fuel
    → (buf' : ℕ) × (left : ℕ) × (scan_past fuel m buf ≡ some buf')
      × PastWord lo old m buf n buf' left
unfolding scan_past
scan_past-PastWord lo zero n old m buf v cut h = absurd (omega arith)
scan_past-PastWord lo (suc fuel) zero old m buf v cut h =
    let end : m buf ≡ 0 = cut_at lo buf old m cut ∙ v in
    (
      buf,
      0,
      rw (scan_past, eq→== (m buf) 0 end) refl,
      record { moves = refl; ahead = omega arith; rest = v; cut = cut; same = refl },
    )
scan_past-PastWord lo (suc fuel) (suc n) old m buf v cut h =
    let at : m buf ≡ old buf = cut_at lo buf old m cut in
    let some_byte : (m buf == 0) ≡ false = ne→== (m buf) 0 (λ z. v.0 (sym at ∙ z)) in
    let test : is_blank (m buf) ≡ blank (old buf) = blank_lem (m buf) ∙ ap blank at in
    elim (Bool-cases (blank (old buf))) [
      | inl stop ↦ (
        buf,
        suc n,
        rw (scan_past, some_byte, test ∙ stop) refl,
        record { moves = refl; ahead = omega arith; rest = v; cut = cut; same = rw stop refl },
      )
      | inr more ↦
          let (buf', left, run, w) =
            scan_past-PastWord lo fuel n old m (buf + 1) v.1 (IsCut-other lo buf old m more cut)
              (omega (arith, h)) in
          (
            buf',
            left,
            rw (scan_past, some_byte, test ∙ more) run,
            record {
              moves = omega (arith, w.moves);
              ahead = omega (arith, w.ahead);
              rest = w.rest;
              cut = w.cut;
              same = rw more w.same;
            },
          )
    ]

-- At most 15 words are the arguments, and the blanks of the line are zero bytes; or there are more.
abbrev pub IsSplit : ℕ → ℕ → Memory → List ℕ → Parsed → Type 0
IsSplit lo hi old ws (too_many m') = 15 < length ws
IsSplit lo hi old ws (arguments argv m') = (argv ≡ ws) × (length ws ≤ 15) × IsCut lo hi old m'

string_none : (m : Memory) (p n : ℕ) → IsString m p n → m p ≡ 0 → n ≡ 0
string_none m p zero v e = refl
string_none m p (suc n) v e = absurd (v.0 e)

-- The word that is before the cursor, if the line has not ended.
word_start :
    (m : Memory) (p n : ℕ)
    → IsString m p n
    → (n ≡ 0) ⊎ (blank (m p) ≡ false)
    → (m p == 0) ≡ false
    → (0 < n) × (words n true m p ≡ p ∷ words n false m p)
word_start m p zero v w e = absurd (ground (arith, v, e))
word_start m p (suc n) v (inl z) e = absurd (omega (arith, z))
word_start m p (suc n) v (inr b) e = (omega arith, rw b refl)

parse_loop-IsSplit :
    (lo fuel : ℕ) (argv : List ℕ) (old m : Memory) (buf n : ℕ)
    → length argv + fuel ≡ 16
    → 0 < fuel
    → lo ≤ buf
    → IsString old buf n
    → IsCut lo buf old m
    → buf + n < 2 ^ 32
    → (r : Parsed) × (parse_loop fuel argv m buf ≡ some r)
      × IsSplit lo (buf + n) old (argv ++ words n true old buf) r
unfolding parse_loop
parse_loop-IsSplit lo zero argv old m buf n count pos low v cut small = absurd (omega arith)
parse_loop-IsSplit lo (suc fuel) argv old m buf n count pos low v cut small =
    let (c, left, run, w) =
      gobble-AtWord lo addresses n old m buf low v cut (omega (arith, small)) in
    let at : c.mem c.buf ≡ old c.buf = cut_at lo c.buf old c.mem w.cut in
    elim (Bool-cases (c.mem c.buf == 0)) [
      | inl done ↦
          let none_left = string_none old c.buf left w.rest (ground (arith, at, done)) in
          let all : argv ++ words n true old buf ≡ argv =
            ap (λ ws. argv ++ ws) (w.same ∙ ap (λ k. words k true old c.buf) none_left)
            ∙ append-nil argv in
          (
            arguments argv c.mem,
            rw (parse_loop, run, done) refl,
            (
              sym all,
              omega (arith, ap length all, count),
              subst (λ hi. IsCut lo hi old c.mem) {x = c.buf} {y = buf + n}
                  (omega (arith, w.moves, none_left)) w.cut,
            ),
          )
      | inr more ↦
          let (inside, first) = word_start old c.buf left w.rest w.word (rw⁻¹ at more) in
          let all : words n true old buf ≡ c.buf ∷ words left false old c.buf = w.same ∙ first in
          elim (Bool-cases (length argv == 15)) [
            | inl full ↦ (
              too_many c.mem,
              rw (parse_loop, run, more, full) refl,
              omega (
                arith,
                length-append argv (words n true old buf),
                ap length all,
                (==_iff (length argv) 15).0 full,
              ),
            )
            | inr room ↦
                let (buf', left', run', w') =
                  scan_past-PastWord lo addresses left old c.mem c.buf w.rest w.cut
                    (omega (arith, w.moves, small)) in
                let end : buf' + left' ≡ buf + n = omega (arith, w'.moves, w.moves) in
                let (r, later, split) =
                  parse_loop-IsSplit lo fuel (argv ++ c.buf ∷ []) old c.mem buf' left'
                    (omega (arith, count, length-append argv (c.buf ∷ [])))
                    (ground (arith, count, room)) (omega (arith, low, w.ahead, w'.ahead)) w'.rest
                    w'.cut (omega (arith, end, small)) in
                let same : (argv ++ (c.buf ∷ [])) ++ words left' true old buf'
                    ≡ argv ++ words n true old buf =
                  append_assoc argv (c.buf ∷ []) (words left' true old buf')
                  ∙ ap (λ ws. argv ++ ws) (ap (λ ws. c.buf ∷ ws) (sym w'.same) ∙ sym all) in
                (
                  r,
                  rw (parse_loop, run, more, room, run') later,
                  subst (λ ws. IsSplit lo (buf + n) old ws r) same
                      (subst
                        (λ hi.
                          IsSplit lo hi old ((argv ++ (c.buf ∷ [])) ++ words left' true old buf') r)
                        end split),
                )
          ]
    ]

-- On a line of `n` bytes that ends in a zero byte the parser of `runcmd` ends. Up to 15 words of it
-- become the arguments and zero bytes take the places of its blanks, or it says that there are
-- more words.
pub parse-IsSplit :
    (m : Memory) (buf n : ℕ)
    → IsString m buf n
    → buf + n < 2 ^ 32
    → (r : Parsed) × (parse m buf ≡ some r) × IsSplit buf (buf + n) m (words n true m buf) r
unfolding parse
parse-IsSplit m buf n v small =
    parse_loop-IsSplit buf maxargs [] m m buf n refl (omega arith) (omega arith) v
      (IsCut-none buf m) small
