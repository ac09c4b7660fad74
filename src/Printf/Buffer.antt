-- ===== src/Printf/Buffer.antt =====
-- `vsnprintf` stays in its buffer.
use os.Base.{
  ℕ, zero, suc, ◌+◌, ◌-◌, ◌%◌, ◌≤◌, ◌≡◌, ◌≢◌, refl, inl, inr, ◌&&◌, Option, some, List, [], ◌∷◌,
  get_or, length, min, leb, ltb, ◌==◌, if◌then◌else◌, arith, ap, ◌∙◌, Bool-cases, ne→==, update,
  fun_ext,
}
use os.Printf.{Sprintbuf, sprintputch, sprint_all, vsnprintf}

-- The memory with the first `n` characters at `d`.
abbrev pub printed : ℕ → ℕ → List ℕ → (ℕ → ℕ) → ℕ → ℕ
printed d n out m j = if leb d j && ltb j (d + n) then get_or out (j - d) 0 % 256 else m j

get_or-cons :
    (c i : ℕ) (cs : List ℕ) → get_or (c ∷ cs) i 0 ≡ (if i == 0 then c else get_or cs (i - 1) 0)
get_or-cons c zero cs = refl
get_or-cons c (suc i) cs =
    rw (ne→== (suc i) 0 (omega arith))
      (ap (λ k. get_or cs k 0) {x = i} {y = suc i - 1} (omega arith))

printed-put :
    (d n c : ℕ) (cs : List ℕ) (m : ℕ → ℕ) (j : ℕ)
    → printed (d + 1) n cs (update m d (c % 256)) j ≡ printed d (suc n) (c ∷ cs) m j
printed-put d n c cs m j = ground (arith, get_or-cons c (j - d) cs)

buffer-eq :
    (b : Sprintbuf) {p p' n n' : ℕ} {m m' : ℕ → ℕ}
    → p ≡ p'
    → n ≡ n'
    → ((j : ℕ) → m j ≡ m' j)
    → record b { buf = p; cnt = n; memory = m } ≡ record b { buf = p'; cnt = n'; memory = m' }
buffer-eq b e f g = λ k. record b { buf = e k; cnt = f k; memory = fun_ext g k }

-- What is left of the buffer.
sprint_all_lem :
    (cs : List ℕ) (b : Sprintbuf)
    → b.buf ≤ b.ebuf
    → sprint_all cs b ≡ record b {
      buf = b.buf + min (length cs) (b.ebuf - b.buf);
      cnt = b.cnt + length cs;
      memory = printed b.buf (min (length cs) (b.ebuf - b.buf)) cs b.memory;
    }
unfolding sprint_all sprintputch
sprint_all_lem [] b le =
    let stay : b.buf ≡ b.buf + min 0 (b.ebuf - b.buf) = omega arith in
    let same : b.cnt ≡ b.cnt + 0 = omega arith in
    let none : (j : ℕ) → b.memory j ≡ printed b.buf (min 0 (b.ebuf - b.buf)) [] b.memory j =
      λ j. ground arith in
    λ k. record b { buf = stay k; cnt = same k; memory = fun_ext none k }
sprint_all_lem (c ∷ cs) b le = elim (Bool-cases (ltb b.buf b.ebuf)) [
  | inl room ↦
      let b1 : Sprintbuf = record b {
        cnt = b.cnt + 1;
        memory = update b.memory b.buf (c % 256);
        buf = b.buf + 1;
      } in
      rw room (
        sprint_all_lem cs b1 (ground arith)
        ∙ (buffer-eq b1 (ground arith) (omega arith) (λ j.
            ground
              (arith, printed-put b.buf (min (length cs) (b.ebuf - b.buf - 1)) c cs b.memory j))))
  | inr full ↦
      let b1 : Sprintbuf = record b { cnt = b.cnt + 1 } in
      rw full
        (sprint_all_lem cs b1 le ∙ (buffer-eq b1 (ground arith) (omega arith) (λ j. ground arith)))
]

result-eq :
    {a b : ℕ} {f : ℕ → ℕ} → a ≡ b → ◌≡◌ {A = Option (ℕ × (ℕ → ℕ))} (some (a, f)) (some (b, f))
result-eq {a} {b} {f} e = λ k. some (e k, f)

-- `vsnprintf` writes the first `n` - 1 characters, or all if there are fewer, and a zero byte
-- behind them, and nothing else; it returns how many characters there were to write.
pub vsnprintf-printed :
    (buf n : ℕ) (out : List ℕ) (m : ℕ → ℕ) (j : ℕ)
    → buf ≢ 0
    → (memory : ℕ → ℕ) × (vsnprintf buf (suc n) out m ≡ some (length out, memory))
      × (memory j
          ≡ (if buf + min (length out) n == j then 0 else printed buf (min (length out) n) out m j))
unfolding vsnprintf
vsnprintf-printed buf n out m j ne =
    let b : Sprintbuf = record { buf = buf; ebuf = buf + suc n - 1; cnt = 0; memory = m } in
    let e = sprint_all_lem out b (omega arith) in
    let room : buf + suc n - 1 - buf ≡ n = omega arith in
    let memory : ℕ → ℕ =
      update (printed buf (min (length out) n) out m) (buf + min (length out) n) 0 in
    (
      memory,
      rw (ne→== buf 0 ne, ne→== (suc n) 0 (omega arith), e, room) (result-eq (omega arith)),
      refl,
    )
