-- ===== src/Loader/Tests.antt =====
-- boot/main.c on a disk whose sectors hold their number.
use os.Base.{
  zero, suc, inl, ◌-◌, ◌*◌, ◌<◌, ◌^◌, ◌==◌, if◌then◌else◌, ltb, ℕ, ◌+◌, ◌≡◌, refl, Option, none,
  some, ◌%◌, arith,
}
use os.Loader.{
  Disk, Memory, sector_sent, readsect, readseg_loop, readseg, e_phnum, e_phoff, entered, bootmain,
}
use os.Loader.Image.{
  file, to, size, from, Outside, IsBootable, HasHeaders, IsLoaded, bootmain-IsLoaded,
}

abbrev disk : Disk
disk sector k = (sector + k) % 256

abbrev blank : Memory
blank a = 0

abbrev byte_at : ℕ → Option Memory → Option ℕ
byte_at a none = none
byte_at a (some m) = some (m a)

-- The second byte of the second sector that is brought
brought_byte : byte_at 0x10_0201 (readseg disk 0x10_0000 600 0 blank) ≡ some 3
unfolding readseg readseg_loop readsect sector_sent
brought_byte = refl

-- An image with two segments: 600 bytes from 0x1000 for 1 MB, and 100 from 0x2000 for a page on
abbrev image_byte : ℕ → ℕ
image_byte k =
    if k == 0
    then 0x7f
    else if k == 1
    then 0x45
    else if k == 2
    then 0x4c
    else if k == 3
    then 0x46
    else if k == 24
    then 0x0c
    else if k == 26
    then 0x10
    else if k == 28
    then 52
    else if k == 44
    then 2
    else if k == 57
    then 0x10
    else if k == 66
    then 0x10
    else if k == 72
    then 88
    else if k == 73
    then 2
    else if k == 89
    then 0x20
    else if k == 97
    then 0x10
    else if k == 98
    then 0x10
    else if k == 104
    then 100
    else if ltb k 4096
    then 0
    else 0x90

abbrev kernel_disk : Disk
kernel_disk sector k = image_byte ((sector - 1) * 512 + k)

places :
    (to kernel_disk 0 ≡ 0x10_0000)
    × (size kernel_disk 0 ≡ 600)
    × (from kernel_disk 0 ≡ 0x1000)
    × (to kernel_disk 1 ≡ 0x10_1000)
    × (size kernel_disk 1 ≡ 100)
    × (from kernel_disk 1 ≡ 0x2000)
    × (e_phnum (file kernel_disk) ≡ 2)
    × (e_phoff (file kernel_disk) ≡ 52)
places = (refl, refl, refl, refl, refl, refl, refl, refl)

each : (P : ℕ → Type 0) → P 0 → P 1 → (k : ℕ) → k < 2 → P k
each P p q zero lt = p
each P p q (suc zero) lt = q
each P p q (suc (suc k)) lt = absurd (omega arith)

kernel-IsBootable : IsBootable kernel_disk
kernel-IsBootable = record {
  magic = refl;
  headers = omega arith;
  room =
      each (λ k. to kernel_disk k + size kernel_disk k + 512 < 2 ^ 32) (omega arith) (omega arith);
  extent = each (λ k. from kernel_disk k + size kernel_disk k < 2 ^ 32) (omega arith) (omega arith);
  even = each (λ k. from kernel_disk k % 512 ≡ to kernel_disk k % 512) refl refl;
  apart = λ k j lt lo hi.
      each (λ k. Outside kernel_disk k j) (inl (omega (arith, hi))) (inl (omega (arith, hi))) k lt;
  ordered = λ k l i lt below inside. later l below k lt inside;
}
  where
    later :
        (l : ℕ)
        → l < 2
        → (k : ℕ) → k < l
        → {i : ℕ} → i < size kernel_disk k
        → Outside kernel_disk l (to kernel_disk k + i)
    later zero below k lt inside = absurd (omega (arith, lt))
    later (suc zero) below zero lt inside = inl (omega (arith, inside))
    later (suc zero) below (suc k) lt inside = absurd (omega (arith, lt))
    later (suc (suc l)) below k lt inside = absurd (omega (arith, below))

bootmain-IsLoaded_example :
    (m' : Memory) × (bootmain kernel_disk blank ≡ some (entered 0x10_000c m'))
    × ((k : ℕ) → k < 2 → IsLoaded kernel_disk k m')
    × HasHeaders kernel_disk m'
bootmain-IsLoaded_example = bootmain-IsLoaded kernel_disk kernel-IsBootable blank
