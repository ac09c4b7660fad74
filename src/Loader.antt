-- ===== src/Loader.antt =====
-- boot/main.c: the boot loader. The disk gives the bytes of each sector; memory is by byte.
pub mod Segment
pub mod Image
pub mod Controller
mod Tests
use os.Base.{
  ℕ, zero, suc, ◌+◌, ◌-◌, ◌*◌, ◌/◌, ◌%◌, ◌^◌, Bool, true, false, ◌&&◌, Option, none, some, ltb, leb,
  ◌==◌, if◌then◌else◌, add32, bit_and, bit_or, shr,
}

abbrev pub sectsize : ℕ
sectsize = 512

abbrev pub elfhdr : ℕ
elfhdr = 0x1_0000

abbrev pub elf_magic : ℕ
elf_magic = 0x464c_457f

abbrev pub Disk : Type 0
Disk = ℕ → ℕ → ℕ

abbrev pub Memory : Type 0
Memory = ℕ → ℕ

-- The sector that the bytes sent to the disk name: the last of them selects the disk by its high
-- half.
unfoldable pub sector_sent : ℕ → ℕ
sector_sent offset =
    offset % 256
    + shr offset 8 % 256 * 2 ^ 8
    + shr offset 16 % 256 * 2 ^ 16
    + bit_or (shr offset 24) 0xe0 % 16 * 2 ^ 24

-- The sector is brought to `dst`.
unfoldable pub readsect : Disk → ℕ → ℕ → Memory → Memory
readsect disk dst offset m j =
    if leb dst j && ltb j (dst + sectsize) then disk (sector_sent offset) (j - dst) else m j

-- The loop of `readseg`; `none` is a loop that has used up its rounds.
unfoldable pub readseg_loop : Disk → ℕ → ℕ → ℕ → ℕ → Memory → Option Memory
readseg_loop disk zero pa end_pa offset m = none
readseg_loop disk (suc fuel) pa end_pa offset m = elim (ltb pa end_pa) [
  | true ↦
      readseg_loop disk fuel (add32 pa sectsize) end_pa (add32 offset 1) (readsect disk pa offset m)
  | false ↦ some m
]

unfoldable pub readseg : Disk → ℕ → ℕ → ℕ → Memory → Option Memory
readseg disk pa count offset m =
    readseg_loop disk (count / sectsize + 3) (bit_and pa 0xffff_fe00) (add32 pa count)
      (offset / sectsize + 1) m

-- A word and a half word of memory.
abbrev pub half_at : Memory → ℕ → ℕ
half_at m a = m a + m (a + 1) * 2 ^ 8

abbrev pub word_at : Memory → ℕ → ℕ
word_at m a = half_at m a + half_at m (a + 2) * 2 ^ 16

-- The fields of `struct Elf` and `struct Proghdr` that are read.
abbrev pub e_entry : Memory → ℕ
e_entry m = word_at m (elfhdr + 24)

abbrev pub e_phoff : Memory → ℕ
e_phoff m = word_at m (elfhdr + 28)

abbrev pub e_phnum : Memory → ℕ
e_phnum m = half_at m (elfhdr + 44)

abbrev pub p_offset : Memory → ℕ → ℕ
p_offset m ph = word_at m (ph + 4)

abbrev pub p_pa : Memory → ℕ → ℕ
p_pa m ph = word_at m (ph + 12)

abbrev pub p_memsz : Memory → ℕ → ℕ
p_memsz m ph = word_at m (ph + 20)

-- The loop over the program headers, of 32 bytes each, up to `eph`; a header is read when it is
-- reached. `none` is a loop that has used up its rounds.
unfoldable pub load_segments : Disk → ℕ → ℕ → ℕ → Memory → Option Memory
load_segments disk zero ph eph m = none
load_segments disk (suc fuel) ph eph m = elim (ltb ph eph) [
  | false ↦ some m
  | true ↦ elim (readseg disk (p_pa m ph) (p_memsz m ph) (p_offset m ph) m) [
    | none ↦ none
    | some m' ↦ load_segments disk fuel (add32 ph 32) eph m'
  ]
]

-- The kernel is entered, or the image is bad and the loader stops.
pub data Boot : Type 0 where
  entered : ℕ → Memory → Boot
  bad : Memory → Boot

abbrev pub start : Option Memory → Option Boot
start none = none
start (some m) = some (entered (e_entry m) m)

unfoldable pub bootmain : Disk → Memory → Option Boot
bootmain disk m = elim (readseg disk elfhdr (sectsize * 8) 0 m) [
  | none ↦ none
  | some m' ↦ elim (word_at m' elfhdr == elf_magic) [
    | true ↦ start (
        let ph = add32 elfhdr (e_phoff m') in
        load_segments disk (e_phnum m' + 1) ph (add32 ph (e_phnum m' * 32)) m')
    | false ↦ some (bad m')
  ]
]
