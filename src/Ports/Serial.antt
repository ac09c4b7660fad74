-- ===== src/Ports/Serial.antt =====
-- Output of kern/console.c through the ports, and the setting up of the serial port.
use os.Base.{
  ℕ, zero, suc, ◌+◌, ◌-◌, ◌*◌, ◌≤◌, ◌<◌, ◌≡◌, refl, ◌⊎◌, inl, inr, true, false, not, ◌&&◌, List,
  ◌∷◌, bit_and, ltb, ◌==◌, if◌then◌else◌, arith, ap, ◌∙◌, Bool-cases,
}
use os.Ports.{Bus, delay, wait_ready, serial_init, com1, com_lsr, com_lsr_txrdy}

-- A wait of `k` rounds, at whose start the state is `s` and at whose end `t`.
pub data Waits {S : Type 0} (b : Bus S) (port mask : ℕ) : ℕ → S → S → Type 0 where
  arrived : (s : S) → Waits b port mask 0 s s
  busy :
      (k : ℕ) (s t : S)
      → (bit_and (b.inb port s).0 mask == 0) ≡ true
      → Waits b port mask k (delay b (b.inb port s).1) t
      → Waits b port mask (suc k) s t

-- A wait of at most `n` rounds reads the status up to the first time that the device is ready, and
-- delays after every other time; if it never is, the wait ends after `n` rounds.
pub wait_ready-Waits :
    {S : Type 0} (b : Bus S) (port mask n : ℕ) (s : S)
    → (k : ℕ) × (t : S) × Waits b port mask k s t
      × (wait_ready b port mask n s ≡ (b.inb port t).1)
      × (k ≤ n)
      × (((bit_and (b.inb port t).0 mask == 0) ≡ false) ⊎ (k ≡ n))
unfolding wait_ready
wait_ready-Waits b port mask zero s = (0, s, arrived s, refl, omega arith, inr refl)
wait_ready-Waits b port mask (suc n) s = elim (Bool-cases (bit_and (b.inb port s).0 mask == 0)) [
  | inl idle ↦
      let (k, t, w, run, le, why) = wait_ready-Waits b port mask n (delay b (b.inb port s).1) in
      (
        suc k,
        t,
        busy k s t idle w,
        rw (wait_ready, idle) run,
        omega arith,
        elim why [ inl ready ↦ inl ready | inr e ↦ inr (ap suc e) ],
      )
  | inr ready ↦ (0, s, arrived s, rw (wait_ready, ready) refl, omega arith, inl ready)
]

-- How long a device is busy, counted in readings of its status: bit `mask` of the status at `port` is
-- set when it is ready, and a read of port 0x84, which is a delay, does not make it busy.
pub record IsBusyFor {S : Type 0} (b : Bus S) (port mask : ℕ) (left : S → ℕ) : Type 0 where
  pub status : (s : S) → (bit_and (b.inb port s).0 mask == 0) ≡ not (left s == 0)
  pub polls : (s : S) → left (b.inb port s).1 ≤ left s - 1
  pub pauses : (s : S) → left (b.inb 0x84 s).1 ≤ left s

-- The serial port sends a byte that is written to its transmitter while it is ready, and the printer
-- takes the byte at its data port when bit 0 of its control port is set while it is ready; nothing
-- is said of a byte that comes while they are busy. `sent` and `printed` are the bytes they have
-- taken, last first, and `line_left` and `page_left` how long they are busy yet.
pub record AreOutputs {S : Type 0} (b : Bus S) (sent printed : S → List ℕ)
    (line_left page_left latch : S → ℕ) : Type 0 where
  pub line : IsBusyFor b (com1 + com_lsr) com_lsr_txrdy line_left
  pub page : IsBusyFor b 0x379 0x80 page_left
  pub sent_status : (s : S) → sent (b.inb (com1 + com_lsr) s).1 ≡ sent s
  pub sent_delay : (s : S) → sent (b.inb 0x84 s).1 ≡ sent s
  pub sends : (c : ℕ) (s : S) → line_left s ≡ 0 → sent (b.outb com1 c s) ≡ c ∷ sent s
  pub printed_status : (s : S) → printed (b.inb 0x379 s).1 ≡ printed s
  pub printed_delay : (s : S) → printed (b.inb 0x84 s).1 ≡ printed s
  pub latches :
      (c : ℕ) (s : S)
      → page_left s ≡ 0
      → (latch (b.outb 0x378 c s) ≡ c) × (page_left (b.outb 0x378 c s) ≡ 0)
  pub printed_latch : (c : ℕ) (s : S) → printed (b.outb 0x378 c s) ≡ printed s
  pub prints : (s : S) → page_left s ≡ 0 → printed (b.outb 0x37a 0x0d s) ≡ latch s ∷ printed s
  pub rests : (s : S) → printed (b.outb 0x37a 0x08 s) ≡ printed s

-- The registers of the serial port that are written. While bit 7 of register 3 is set, the first
-- two are the divisor of the clock instead, which stands here as 8 and 9. All writes but those to the
-- transmitter, register 0, leave the status alone.
abbrev pub register : ℕ → ℕ → ℕ
register k line_control = if ltb k 2 && not (bit_and line_control 0x80 == 0) then k + 8 else k

pub record IsUart {S : Type 0} (b : Bus S) (cells : ℕ → S → ℕ) (status : S → ℕ) : Type 0 where
  pub writes :
      (i k v : ℕ) (s : S)
      → k < 5
      → cells i (b.outb (com1 + k) v s) ≡ (if i == register k (cells 3 s) then v else cells i s)
  pub reads : (i k : ℕ) (s : S) → k < 6 → cells i (b.inb (com1 + k) s).1 ≡ cells i s
  pub status_read : (s : S) → (b.inb (com1 + com_lsr) s).0 ≡ status s
  pub status_keeps :
      (k v : ℕ) (s : S)
      → 0 < register k (cells 3 s)
      → k < 5
      → status (b.outb (com1 + k) v s) ≡ status s

module _ {S : Type 0} (b : Bus S) (cells : ℕ → S → ℕ) (status : S → ℕ)
    (h : IsUart b cells status) where
  writes-at :
      (i k v w : ℕ) (s : S)
      → k < 5
      → cells 3 s ≡ w
      → cells i (b.outb (com1 + k) v s) ≡ (if i == register k w then v else cells i s)
  writes-at i k v w s l e =
      h.writes i k v s l ∙ ap (λ c. if i == register k c then v else cells i s) e

  -- The writes of `serial_init`, up to the end of the divisor and from there on.
  divided : S → S
  divided s =
      b.outb (com1 + 1) 0 (b.outb (com1 + 0) 12 (b.outb (com1 + 3) 0x80 (b.outb (com1 + 2) 0 s)))

  set_up : S → S
  set_up s = b.outb (com1 + 1) 1 (b.outb (com1 + 4) 0 (b.outb (com1 + 3) 3 s))

  divided-cells :
      (s : S) → (cells 8 (divided s) ≡ 12) × (cells 9 (divided s) ≡ 0) × (cells 2 (divided s) ≡ 0)
  unfolding divided
  divided-cells s =
      let s1 = b.outb (com1 + 2) 0 s in
      let s2 = b.outb (com1 + 3) 0x80 s1 in
      let s3 = b.outb (com1 + 0) 12 s2 in
      let e2 : cells 3 s2 ≡ 128 = h.writes 3 3 0x80 s1 (omega arith) in
      let e3 : cells 3 s3 ≡ 128 = writes-at 3 0 12 128 s2 (omega arith) e2 ∙ e2 in
      (
        writes-at 8 1 0 128 s3 (omega arith) e3 ∙ writes-at 8 0 12 128 s2 (omega arith) e2,
        writes-at 9 1 0 128 s3 (omega arith) e3,
        writes-at 2 1 0 128 s3 (omega arith) e3
            ∙ writes-at 2 0 12 128 s2 (omega arith) e2
            ∙ h.writes 2 3 0x80 s1 (omega arith)
            ∙ h.writes 2 2 0 s (omega arith),
      )

  set_up-cells :
      (i : ℕ) (s : S)
      → cells i (set_up s)
        ≡ (if i == 1 then 1 else if i == 4 then 0 else if i == 3 then 3 else cells i s)
  unfolding set_up
  set_up-cells i s =
      let s1 = b.outb (com1 + 3) 3 s in
      let s2 = b.outb (com1 + 4) 0 s1 in
      let e : cells 3 s2 ≡ 3 = h.writes 3 4 0 s1 (omega arith) ∙ h.writes 3 3 3 s (omega arith) in
      rw
        (
          writes-at i 1 1 3 s2 (omega arith) e,
          h.writes i 4 0 s1 (omega arith),
          h.writes i 3 3 s (omega arith),
        )
        refl

  serial_init-cells :
      (i : ℕ) (s : S)
      → cells i (serial_init b s).1
        ≡ (if i == 1 then 1 else if i == 4 then 0 else if i == 3 then 3 else cells i (divided s))
  unfolding serial_init set_up divided
  serial_init-cells i s =
      let s7 = set_up (divided s) in
      let s8 = (b.inb (com1 + 5) s7).1 in
      h.reads i 0 (b.inb (com1 + 2) s8).1 (omega arith)
      ∙ h.reads i 2 s8 (omega arith)
      ∙ h.reads i 5 s7 (omega arith)
      ∙ set_up-cells i (divided s)

  set_up-status : (s : S) → (b.inb (com1 + com_lsr) (set_up (divided s))).0 ≡ status s
  unfolding set_up divided
  set_up-status s =
      let s1 = b.outb (com1 + 2) 0 s in
      let s2 = b.outb (com1 + 3) 0x80 s1 in
      let s3 = b.outb (com1 + 0) 12 s2 in
      let s4 = divided s in
      let s5 = b.outb (com1 + 3) 3 s4 in
      let s6 = b.outb (com1 + 4) 0 s5 in
      let e2 : cells 3 s2 ≡ 128 = h.writes 3 3 0x80 s1 (omega arith) in
      let shown : 0 < register 0 (cells 3 s2) = rw e2 (omega arith) in
      h.status_read (b.outb (com1 + 1) 1 s6)
      ∙ h.status_keeps 1 1 s6 (upper 1 s6 (omega arith)) (omega arith)
      ∙ h.status_keeps 4 0 s5 (upper 4 s5 (omega arith)) (omega arith)
      ∙ h.status_keeps 3 3 s4 (upper 3 s4 (omega arith)) (omega arith)
      ∙ h.status_keeps 1 0 s3 (upper 1 s3 (omega arith)) (omega arith)
      ∙ h.status_keeps 0 12 s2 shown (omega arith)
      ∙ h.status_keeps 3 0x80 s1 (upper 3 s1 (omega arith)) (omega arith)
      ∙ h.status_keeps 2 0 s (upper 2 s (omega arith)) (omega arith)
    where
      upper : (k : ℕ) (t : S) → 0 < k → 0 < register k (cells 3 t)
      upper k t pos = elim (Bool-cases (ltb k 2 && not (bit_and (cells 3 t) 0x80 == 0))) [
        | inl on ↦ rw on (omega arith)
        | inr off ↦ rw off pos
      ]

  -- `serial_init` leaves the port at 9600 baud, 8 bits without parity, with the divisor hidden, the
  -- FIFO and the modem lines off, and only the interrupt on received data on; it is said to exist
  -- unless the status reads 0xff. The divisor may have been shown before.
  pub serial_init-IsUart :
      (s : S)
      → ((serial_init b s).0 ≡ not (status s == 0xff))
        × (cells 8 (serial_init b s).1 + 256 * cells 9 (serial_init b s).1 ≡ 12)
        × (cells 3 (serial_init b s).1 ≡ 3)
        × (cells 2 (serial_init b s).1 ≡ 0)
        × (cells 4 (serial_init b s).1 ≡ 0)
        × (cells 1 (serial_init b s).1 ≡ 1)
  unfolding serial_init
  serial_init-IsUart s =
      let (low, high, fifo) = divided-cells s in
      (
        unfold set_up divided in ap (λ c. not (c == 0xff)) (set_up-status s),
        omega (arith, serial_init-cells 8 s, serial_init-cells 9 s, low, high),
        serial_init-cells 3 s,
        serial_init-cells 2 s ∙ fifo,
        serial_init-cells 4 s,
        serial_init-cells 1 s,
      )
