-- ===== src/Console/Scroll.antt =====
-- The screen stays within its 2000 cells.
use os.Base.{
  ℕ, ◌+◌, ◌-◌, ◌%◌, ◌^◌, ◌≤◌, ◌<◌, ◌≡◌, refl, inl, inr, bit_and, leb, ◌==◌, arith, Bool-cases,
  update, ne→==,
}
use os.Base.Bits.{
  and_split, or_split, zero-bit_and, zero-bit_or, bit_and-zero, bit_or-zero, and_ones,
}
use os.Console.Screen.{
  crt_cols, crt_size, Output, serial_putc, lpt_putc, with_attribute, put_cell, scroll, cga_plain,
  cons_space, cga_putc, cons_putc, move_cursor, scrolled,
}

-- The driver stands on the screen, the cursor with it, and the cells behind the screen are `rest`.
pub record IsOnScreen (rest : ℕ → ℕ) (o : Output) : Type 0 where
  pub inside : o.crt_pos < crt_size
  pub behind : (i : ℕ) → crt_size ≤ i → o.crt_buf i ≡ rest i

-- Before the screen is scrolled.
record IsNear (rest : ℕ → ℕ) (o : Output) : Type 0 where
  pub near : o.crt_pos < crt_size + crt_cols
  pub outside : (i : ℕ) → crt_size ≤ i → o.crt_buf i ≡ rest i

module _ (rest : ℕ → ℕ) where
  put_cell-IsNear : (c : ℕ) (o : Output) → IsOnScreen rest o → IsNear rest (put_cell c o)
  unfolding put_cell
  put_cell-IsNear c o v = elim (Bool-cases (bit_and c 0xff == 8)) [
    | inl back ↦ elim (Bool-cases (o.crt_pos == 0)) [
      | inl start ↦ rw (back, start) (record { near = omega (arith, v.inside); outside = v.behind })
      | inr on ↦
          let less : (o.crt_pos + 65535) % 2 ^ 16 ≡ o.crt_pos - 1 = ground (arith, on, v.inside) in
          rw (back, on, less)
            (record {
              near = omega (arith, v.inside);
              outside = λ i h. ground (arith, v.behind i h, v.inside);
            })
    ]
    | inr other ↦ elim (Bool-cases (bit_and c 0xff == 10)) [
      | inl line ↦ rw (other, line) (record { near = omega (arith, v.inside); outside = v.behind })
      | inr text ↦ elim (Bool-cases (bit_and c 0xff == 13)) [
        | inl return ↦
            rw (other, text, return) (record { near = omega (arith, v.inside); outside = v.behind })
        | inr plain ↦
            rw (other, text, plain)
              (record {
                near = omega (arith, v.inside);
                outside = λ i h. ground (arith, v.behind i h, v.inside);
              })
      ]
    ]
  ]

  scroll-IsOnScreen : (o : Output) → IsNear rest o → IsOnScreen rest (scroll o)
  unfolding scroll
  scroll-IsOnScreen o v = elim (Bool-cases (leb crt_size o.crt_pos)) [
    | inl full ↦
        rw full
          (record { inside = omega (arith, v.near); behind = λ i h. ground (arith, v.outside i h) })
    | inr fits ↦ rw fits (record { inside = ground arith; behind = v.outside })
  ]

  moved-IsOnScreen : (o : Output) → IsOnScreen rest o → IsOnScreen rest (move_cursor o)
  moved-IsOnScreen o v = record { inside = v.inside; behind = v.behind }

  IsOnScreen-IsNear : (o : Output) → IsOnScreen rest o → IsNear rest o
  IsOnScreen-IsNear o v = record { near = omega (arith, v.inside); outside = v.behind }

  sent-IsOnScreen :
      (c : ℕ) (o : Output) → IsOnScreen rest o → IsOnScreen rest (lpt_putc c (serial_putc c o))
  unfolding lpt_putc serial_putc
  sent-IsOnScreen c o v = record { inside = v.inside; behind = v.behind }

  cga_plain-IsOnScreen : (c : ℕ) (o : Output) → IsOnScreen rest o → IsOnScreen rest (cga_plain c o)
  unfolding cga_plain
  cga_plain-IsOnScreen c o v =
      let t = put_cell (with_attribute c) o in
      moved-IsOnScreen (scroll t) (scroll-IsOnScreen t (put_cell-IsNear (with_attribute c) o v))

  cons_space-IsOnScreen : (o : Output) → IsOnScreen rest o → IsOnScreen rest (cons_space o)
  unfolding cons_space
  cons_space-IsOnScreen o v =
      cga_plain-IsOnScreen 32 (lpt_putc 32 (serial_putc 32 o)) (sent-IsOnScreen 32 o v)

  cga_putc-IsOnScreen : (c : ℕ) (o : Output) → IsOnScreen rest o → IsOnScreen rest (cga_putc c o)
  unfolding cga_putc
  cga_putc-IsOnScreen c o v = elim (Bool-cases (bit_and (with_attribute c) 0xff == 9)) [
    | inl tab ↦
        let p = cons_space-IsOnScreen in
        let t = cons_space (cons_space (cons_space (cons_space (cons_space o)))) in
        let w : IsOnScreen rest t = p (cons_space (cons_space (cons_space (cons_space o)))) (
          p (cons_space (cons_space (cons_space o)))
            (p (cons_space (cons_space o)) (p (cons_space o) (p o v)))) in
        rw tab (moved-IsOnScreen (scroll t) (scroll-IsOnScreen t (IsOnScreen-IsNear t w)))
    | inr plain ↦ rw plain (cga_plain-IsOnScreen c o v)
  ]

  -- Whatever is put out, the position of the driver stays on the screen, and no memory behind the
  -- screen is written.
  pub cons_putc-IsOnScreen :
      (c : ℕ) (o : Output) → IsOnScreen rest o → IsOnScreen rest (cons_putc c o)
  unfolding cons_putc
  cons_putc-IsOnScreen c o v =
      cga_putc-IsOnScreen c (lpt_putc c (serial_putc c o)) (sent-IsOnScreen c o v)

-- A byte gets the attribute 7, and keeps its low byte.
with_attribute_lem : (c : ℕ) → c < 256 → with_attribute c ≡ 0x0700 + c
with_attribute_lem c h = ground (
  arith,
  and_split 8 0 0xff_ffff c 0 h (omega arith),
  or_split 8 0 7 c 0 h (omega arith),
  zero-bit_and 0xff_ffff,
  zero-bit_or 7,
  bit_and-zero c,
  bit_or-zero c,
)

low_byte : (c : ℕ) → c < 256 → bit_and (0x0700 + c) 0xff ≡ c
low_byte c h =
    ground (arith, and_split 8 7 0 c 0xff h (omega arith), bit_and-zero 7, and_ones 8 c h)

-- What a character at the last cell leaves.
abbrev turned : ℕ → Output → Output
turned c o = record o {
  crt_buf = scrolled (update o.crt_buf o.crt_pos (0x0700 + c));
  crt_pos = 1920;
  cursor = 1920;
}

put_cell-last :
    (c : ℕ) (o : Output)
    → 32 ≤ c
    → c < 256
    → o.crt_pos ≡ 1999
    → put_cell (0x0700 + c) o
      ≡ record o { crt_buf = update o.crt_buf o.crt_pos (0x0700 + c); crt_pos = 2000 }
unfolding put_cell
put_cell-last c o lo hi e =
    let small : (0x0700 + c) % 2 ^ 16 ≡ 0x0700 + c = omega arith in
    let end : (o.crt_pos + 1) % 2 ^ 16 ≡ 2000 = omega (arith, e) in
    rw
      (
        low_byte c hi,
        ne→== c 8 (omega arith),
        ne→== c 10 (omega arith),
        ne→== c 13 (omega arith),
        small,
        end,
      )
      refl

cga_putc-turned :
    (c : ℕ) (o : Output) → 32 ≤ c → c < 256 → o.crt_pos ≡ 1999 → cga_putc c o ≡ turned c o
unfolding cga_putc cga_plain scroll
cga_putc-turned c o lo hi e =
    rw (with_attribute_lem c hi, low_byte c hi, ne→== c 9 (omega arith), put_cell-last c o lo hi e)
      refl

-- At the last cell a character moves every row up by one, shows at the end of the row before the
-- last with the attribute 7, and leaves the last row blank and the driver at its start.
pub cga_putc-scrolls :
    (c i : ℕ) (o : Output)
    → 32 ≤ c
    → c < 256
    → o.crt_pos ≡ 1999
    → i < 80
    → ((cga_putc c o).crt_pos ≡ 1920)
      × ((cga_putc c o).crt_buf 1919 ≡ 0x0700 + c)
      × ((cga_putc c o).crt_buf (1920 + i) ≡ 0x0720)
      × ((cga_putc c o).crt_buf i ≡ o.crt_buf (80 + i))
cga_putc-scrolls c i o lo hi e h =
    rw (cga_putc-turned c o lo hi e) (refl, ground (arith, e), ground (arith, e), ground (arith, e))
