-- ===== src/Strings/Block.antt =====
-- `memset` and `memmove`, whichever way they go through memory.
use os.Base.{
  ℕ, zero, suc, ◌+◌, ◌-◌, ◌*◌, ◌/◌, ◌%◌, ◌^◌, ◌≤◌, ◌<◌, ◌≡◌, refl, ◌⊎◌, inl, inr, Bool, false, ◌&&◌,
  ltb, leb, ◌==◌, if◌then◌else◌, arith, ap, ◌∙◌, Bool-cases,
}
use os.Base.Bits.{or_split, bit_or-zero, zero-bit_or}
use os.Strings.{
  Memory, store_unit, stos, spread, memset, move_unit, movs_up, movs_down, by_words, memmove,
}

-- The bytes of `k` units of `u`.
abbrev span : ℕ → ℕ → ℕ
span u zero = 0
span u (suc k) = u + span u k

span-one : (k : ℕ) → span 1 k ≡ k
span-one zero = refl
span-one (suc k) = omega (arith, span-one k)

span-four : (k : ℕ) → span 4 k ≡ 4 * k
span-four zero = refl
span-four (suc k) = omega (arith, span-four k)

abbrev within : ℕ → ℕ → ℕ → Bool
within d n j = leb d j && ltb j (d + n)

-- The memory with `n` bytes of `m` at `s` brought to `d`, and with `n` bytes of `b` at `d`.
abbrev pub moved : ℕ → ℕ → ℕ → Memory → Memory
moved d s n m j = if within d n j then m (s + (j - d)) else m j

abbrev pub filled : ℕ → ℕ → ℕ → Memory → Memory
filled d b n m j = if within d n j then b else m j

movs_up-moved :
    (u k d s : ℕ) (m : Memory) (j : ℕ)
    → (d ≤ s) ⊎ (s + span u k ≤ d)
    → movs_up u k d s m j ≡ moved d s (span u k) m j
unfolding movs_up
movs_up-moved u zero d s m j apart = ground arith
movs_up-moved u (suc k) d s m j apart =
    let ih = movs_up-moved u k (d + u) (s + u) (move_unit u d s m) j (omega arith) in
    ih ∙ ground arith

-- A round of the way down, whose unit is the last of `u + (u + t)` bytes.
moved-down :
    (u t a b : ℕ) (m : Memory) (j : ℕ)
    → b < a
    → moved a b (u + t) (move_unit u (a + (u + t)) (b + (u + t)) m) j ≡ moved a b (u + (u + t)) m j
moved-down u t a b m j lt = ground arith

movs_down-moved :
    (u k a b : ℕ) (m : Memory) (j : ℕ)
    → b < a
    → movs_down u (suc k) (a + span u k) (b + span u k) m j ≡ moved a b (u + span u k) m j
unfolding movs_down
movs_down-moved u zero a b m j lt = ground arith
movs_down-moved u (suc k) a b m j lt =
    let next : Memory = move_unit u (a + (u + span u k)) (b + (u + span u k)) m in
    ap (λ d. movs_down u (suc k) d (b + (u + span u k) - u) next j) (omega arith)
    ∙ ap (λ s. movs_down u (suc k) (a + span u k) s next j) (omega arith)
    ∙ movs_down-moved u k a b next j lt
    ∙ moved-down u (span u k) a b m j lt

stos-filled :
    (u k d w b : ℕ) (m : Memory) (j : ℕ)
    → ((i : ℕ) → i < u → w / 2 ^ (8 * i) % 256 ≡ b)
    → stos u k d w m j ≡ filled d b (span u k) m j
unfolding stos
stos-filled u zero d w b m j h = ground arith
stos-filled u (suc k) d w b m j h =
    stos-filled u k (d + u) w b (store_unit u d w m) j h ∙ ground (arith, h (j - d))

spread_lem : (c : ℕ) → spread c ≡ c % 256 * 0x0101_0101
unfolding spread
spread_lem c =
    let b = c % 256 in
    ground (
      arith,
      or_split 24 b 0 0 (b * 65536) (omega arith) (omega arith),
      or_split 16 (b * 257) 0 0 (b * 256) (omega arith) (omega arith),
      or_split 8 (b * 65793) 0 0 b (omega arith) (omega arith),
      bit_or-zero b,
      bit_or-zero (b * 257),
      bit_or-zero (b * 65793),
      zero-bit_or (b * 65536),
      zero-bit_or (b * 256),
      zero-bit_or b,
    )

spread_byte : (c i : ℕ) → i < 4 → spread c / 2 ^ (8 * i) % 256 ≡ c % 256
spread_byte c zero h = omega (arith, spread_lem c)
spread_byte c (suc zero) h = omega (arith, spread_lem c)
spread_byte c (suc (suc zero)) h = omega (arith, spread_lem c)
spread_byte c (suc (suc (suc zero))) h = omega (arith, spread_lem c)
spread_byte c (suc (suc (suc (suc i)))) h = absurd (omega arith)

-- `memset` sets `n` bytes to the low byte of `c`, by words or by bytes, and no other byte.
pub memset-filled : (v c n : ℕ) (m : Memory) (j : ℕ) → memset v c n m j ≡ filled v (c % 256) n m j
unfolding memset
memset-filled v c n m j = elim (Bool-cases (n == 0)) [
  | inl e ↦ rw e (ground arith)
  | inr e ↦ elim (Bool-cases ((v % 4 == 0) && (n % 4 == 0))) [
    | inl words ↦
        rw (e, words)
          (stos-filled 4 (n / 4) v (spread c) (c % 256) m j (spread_byte c)
            ∙ ap (λ k. filled v (c % 256) k m j) (span-four (n / 4) ∙ ground arith))
    | inr bytes ↦
        rw (e, bytes)
          (stos-filled 1 n v c (c % 256) m j
              (λ i h. ap (λ p. c / 2 ^ (8 * p) % 256) {x = i} {y = 0} (omega arith) ∙ omega arith)
            ∙ ap (λ k. filled v (c % 256) k m j) (span-one n))
  ]
]

movs_down-top :
    (u k n d s : ℕ) (m : Memory) (j : ℕ)
    → 0 < u
    → span u k ≡ n
    → s < d
    → 0 < n
    → movs_down u k (d + n - u) (s + n - u) m j ≡ moved d s n m j
movs_down-top u zero n d s m j pos e lt some = absurd (omega arith)
movs_down-top u (suc k) n d s m j pos e lt some =
    ap (λ t. movs_down u (suc k) t (s + n - u) m j) (omega arith)
    ∙ ap (λ t. movs_down u (suc k) (d + span u k) t m j) (omega arith)
    ∙ movs_down-moved u k d s m j lt
    ∙ ap (λ t. moved d s t m j) e

whole : (n : ℕ) → n % 4 ≡ 0 → span 4 (n / 4) ≡ n
whole n e = span-four (n / 4) ∙ omega arith

apart_lem : (d s n t : ℕ) → t ≡ n → (ltb s d && ltb d (s + n)) ≡ false → (d ≤ s) ⊎ (s + t ≤ d)
apart_lem d s n t e up = elim (Bool-cases (ltb s d)) [
  | inl lt ↦ inr (ground arith)
  | inr ge ↦ inl (ground arith)
]

-- `memmove` brings the `n` bytes that were at `src` to `dst`, however the two regions overlap and
-- in whatever units it copies, and changes no other byte.
pub memmove-moved :
    (dst src n : ℕ) (m : Memory) (j : ℕ) → memmove dst src n m j ≡ moved dst src n m j
unfolding memmove
memmove-moved dst src n m j = elim (Bool-cases (ltb src dst && ltb dst (src + n))) [
  | inl down ↦ elim (Bool-cases (by_words (dst + n) (src + n) n)) [
    | inl words ↦
        rw (down, words)
          (movs_down-top 4 (n / 4) n dst src m j (omega arith)
            (whole n (unfold by_words in ground arith)) (ground arith) (ground arith))
    | inr bytes ↦
        rw (down, bytes)
          (movs_down-top 1 n n dst src m j (omega arith) (span-one n) (ground arith) (ground arith))
  ]
  | inr up ↦ elim (Bool-cases (by_words dst src n)) [
    | inl words ↦
        rw (up, words)
          (movs_up-moved 4 (n / 4) dst src m j
              (apart_lem dst src (4 * (n / 4)) (span 4 (n / 4)) (span-four (n / 4)) (ground arith))
            ∙ ap (λ k. moved dst src k m j) (whole n (unfold by_words in ground arith)))
    | inr bytes ↦
        rw (up, bytes)
          (movs_up-moved 1 n dst src m j (apart_lem dst src n (span 1 n) (span-one n) up)
            ∙ ap (λ k. moved dst src k m j) (span-one n))
  ]
]
