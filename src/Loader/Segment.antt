-- ===== src/Loader/Segment.antt =====
-- `readseg`: what it brings into memory.
use os.Base.{
  ℕ, zero, suc, ◌+◌, ◌-◌, ◌*◌, ◌/◌, ◌%◌, ◌^◌, ◌≤◌, ◌<◌, ◌≡◌, ◌⊎◌, inl, inr, ◌&&◌, some, ltb, leb,
  if◌then◌else◌, add32, bit_and, shr, arith, ap, ◌∙◌, Bool-cases, fun_ext,
}
use os.Base.Bits.{and_split, and_ones, bit_and-zero, zero-bit_or}
use os.Loader.{Disk, Memory, sector_sent, readsect, readseg_loop, readseg}

-- Memory with the sectors from `offset` on brought to the addresses from `pa` up to `top`.
abbrev pub brought : Disk → ℕ → ℕ → ℕ → Memory → Memory
brought disk pa top offset m j =
    if leb pa j && ltb j top then disk (offset + (j - pa) / 512) ((j - pa) % 512) else m j

-- Where the last sector ends.
abbrev pub sector_end : ℕ → ℕ → ℕ
sector_end pa end = pa + (end - pa + 511) / 512 * 512

sector_sent_lem : (offset : ℕ) → offset < 2 ^ 24 → sector_sent offset ≡ offset
unfolding sector_sent
sector_sent_lem offset h =
    let high : shr offset 24 ≡ 0 = omega arith in rw high (omega (arith, zero-bit_or 0xe0))

brought-step :
    (disk : Disk) (pa end offset : ℕ) (m : Memory) (j : ℕ)
    → pa < end
    → offset < 2 ^ 24
    → brought disk (pa + 512) (sector_end (pa + 512) end) (offset + 1) (readsect disk pa offset m) j
      ≡ brought disk pa (sector_end pa end) offset m j
unfolding readsect
brought-step disk pa end offset m j lt few = rw (sector_sent_lem offset few) (ground arith)

nothing :
    (disk : Disk) (pa end offset : ℕ) (m : Memory) (j : ℕ)
    → end ≤ pa
    → m j ≡ brought disk pa (sector_end pa end) offset m j
nothing disk pa end offset m j le = ground arith

readseg_loop-brought :
    (disk : Disk) (fuel pa end offset : ℕ) (m : Memory)
    → end + 512 < 2 ^ 32
    → pa < 2 ^ 32
    → offset + fuel < 2 ^ 24
    → (end - pa + 511) / 512 < fuel
    → readseg_loop disk fuel pa end offset m ≡ some (brought disk pa (sector_end pa end) offset m)
unfolding readseg_loop
readseg_loop-brought disk zero pa end offset m hi lo few enough = absurd (omega arith)
readseg_loop-brought disk (suc fuel) pa end offset m hi lo few enough =
    elim (Bool-cases (ltb pa end)) [
      | inl more ↦
          let here : pa < end = ground (arith, more) in
          rw (readseg_loop, more)
            (ap (λ a. readseg_loop disk fuel a end (add32 offset 1) (readsect disk pa offset m))
                {x = add32 pa 512} {y = pa + 512} (omega (arith, hi, here))
              ∙ ap (λ o. readseg_loop disk fuel (pa + 512) end o (readsect disk pa offset m))
                  {x = add32 offset 1} {y = offset + 1} (omega (arith, few))
              ∙ readseg_loop-brought disk fuel (pa + 512) end (offset + 1)
                  (readsect disk pa offset m) hi (omega (arith, hi, here)) (omega (arith, few))
                  (omega (arith, enough, here))
              ∙ ap some
                  (fun_ext (λ j. brought-step disk pa end offset m j here (omega (arith, few)))))
      | inr done ↦
          rw (readseg_loop, done)
            (ap some (fun_ext (λ j. nothing disk pa end offset m j (ground (arith, done)))))
    ]

-- The bytes from `offset` of the image, which follows the first sector of the disk.
abbrev pub image : Disk → ℕ → ℕ
image disk k = disk (k / 512 + 1) (k % 512)

-- Memory `new` has the segment at `pa`, and whole sectors around it at most have changed.
pub record HasSegment (disk : Disk) (pa count offset : ℕ) (old new : Memory) : Type 0 where
  pub segment : (i : ℕ) → i < count → new (pa + i) ≡ image disk (offset + i)
  pub below : (j : ℕ) → j < pa / 512 * 512 → new j ≡ old j
  pub above : (j : ℕ) → (pa + count + 511) / 512 * 512 ≤ j → new j ≡ old j

sector_mask : (pa : ℕ) → pa < 2 ^ 32 → bit_and pa 0xffff_fe00 ≡ pa / 512 * 512
sector_mask pa h = ground (
  arith,
  and_split 9 (pa / 512) 0x7f_ffff (pa % 512) 0 (omega arith) (omega arith),
  bit_and-zero (pa % 512),
  and_ones 23 (pa / 512) (omega arith),
)

module _ (disk : Disk) (pa top offset : ℕ) (m : Memory) (j : ℕ) where
  inside :
      pa ≤ j
      → j < top
      → brought disk pa top offset m j ≡ disk (offset + (j - pa) / 512) ((j - pa) % 512)
  inside low high = ground arith

  outside : (j < pa) ⊎ (top ≤ j) → brought disk pa top offset m j ≡ m j
  outside (inl low) = ground arith
  outside (inr high) = ground arith

readseg-brought :
    (disk : Disk) (pa count offset : ℕ) (m : Memory)
    → pa + count + 512 < 2 ^ 32
    → offset + count < 2 ^ 32
    → readseg disk pa count offset m
      ≡ some (
          brought disk
            (pa / 512 * 512)
            (sector_end (pa / 512 * 512) (pa + count))
            (offset / 512 + 1)
            m)
unfolding readseg
readseg-brought disk pa count offset m hi lo =
    ap (λ a. readseg_loop disk (count / 512 + 3) a (add32 pa count) (offset / 512 + 1) m)
      {x = bit_and pa 0xffff_fe00} {y = pa / 512 * 512} (sector_mask pa (omega (arith, hi)))
    ∙ ap (λ e. readseg_loop disk (count / 512 + 3) (pa / 512 * 512) e (offset / 512 + 1) m)
        {x = add32 pa count} {y = pa + count} (omega (arith, hi))
    ∙ readseg_loop-brought disk (count / 512 + 3) (pa / 512 * 512) (pa + count) (offset / 512 + 1) m
        hi (omega (arith, hi)) (omega (arith, lo, hi)) (omega arith)

-- Where the segment ends below 4 GB, in memory by a sector and in the image, and lies in the image as it does in memory, in
-- its sector, `readseg` ends, its `count` bytes at `pa` are those of the image from `offset` on,
-- and what is not in a sector of the segment is kept.
pub readseg-HasSegment :
    (disk : Disk) (pa count offset : ℕ) (m : Memory)
    → pa + count + 512 < 2 ^ 32
    → offset + count < 2 ^ 32
    → offset % 512 ≡ pa % 512
    → (new : Memory) × (readseg disk pa count offset m ≡ some new)
      × HasSegment disk pa count offset m new
readseg-HasSegment disk pa count offset m hi lo even =
    let base = pa / 512 * 512 in
    let top = sector_end base (pa + count) in
    let first = offset / 512 + 1 in
    (
      brought disk base top first m,
      readseg-brought disk pa count offset m hi lo,
      record {
        segment = λ i lt.
            inside disk base top first m (pa + i) (omega arith) (omega (arith, lt))
            ∙ ap (λ s. disk s ((pa + i - base) % 512)) {x = first + (pa + i - base) / 512}
                {y = (offset + i) / 512 + 1} (omega (arith, even))
            ∙ ap (disk ((offset + i) / 512 + 1)) {x = (pa + i - base) % 512}
                {y = (offset + i) % 512} (omega (arith, even));
        below = λ j lt. outside disk base top first m j (inl lt);
        above = λ j le. outside disk base top first m j (inr (omega (arith, le)));
      },
    )
