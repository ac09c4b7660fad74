-- ===== src/Loader/Image.antt =====
-- `bootmain` on a disk with a kernel image: every segment is in memory when the kernel is entered.
use os.Base.{
  ℕ, zero, suc, ◌+◌, ◌-◌, ◌*◌, ◌/◌, ◌%◌, ◌^◌, ◌≤◌, ◌<◌, ◌≡◌, refl, ◌⊎◌, inl, inr, true, false, some,
  ltb, ◌==◌, arith, add32, ap, sym, ◌∙◌, Bool-cases, ==_iff, eq→==,
}
use os.Loader.{
  Disk, Memory, sectsize, elfhdr, elf_magic, readseg, half_at, word_at, e_entry, e_phoff, e_phnum,
  p_offset, p_pa, p_memsz, load_segments, entered, bootmain,
}
use os.Loader.Segment.{image, readseg-HasSegment}

-- The first page of the image as memory would hold it at `elfhdr`.
abbrev pub file : Disk → Memory
file disk a = image disk (a - elfhdr)

-- Header `k` and what it says
abbrev pub header : Disk → ℕ → ℕ
header disk k = elfhdr + e_phoff (file disk) + 32 * k

abbrev pub to : Disk → ℕ → ℕ
to disk k = p_pa (file disk) (header disk k)

abbrev pub size : Disk → ℕ → ℕ
size disk k = p_memsz (file disk) (header disk k)

abbrev pub from : Disk → ℕ → ℕ
from disk k = p_offset (file disk) (header disk k)

-- An address outside the sectors that segment `k` is read with.
abbrev pub Outside : Disk → ℕ → ℕ → Type 0
Outside disk k j = (j < to disk k / 512 * 512) ⊎ ((to disk k + size disk k + 511) / 512 * 512 ≤ j)

-- The image is an ELF file whose headers are in its first page, and whose segments end below 4 GB,
-- lie in their sectors as in memory, keep away from the headers in memory, and from the segments
-- before them.
pub record IsBootable (disk : Disk) : Type 0 where
  pub magic : word_at (file disk) elfhdr ≡ elf_magic
  pub headers : e_phoff (file disk) + 32 * e_phnum (file disk) ≤ 4096
  pub room : (k : ℕ) → k < e_phnum (file disk) → to disk k + size disk k + 512 < 2 ^ 32
  pub extent : (k : ℕ) → k < e_phnum (file disk) → from disk k + size disk k < 2 ^ 32
  pub even : (k : ℕ) → k < e_phnum (file disk) → from disk k % 512 ≡ to disk k % 512
  pub apart :
      (k j : ℕ) → k < e_phnum (file disk) → elfhdr ≤ j → j < elfhdr + 4096 → Outside disk k j
  pub ordered :
      (k l i : ℕ)
      → k < l
      → l < e_phnum (file disk)
      → i < size disk k
      → Outside disk l (to disk k + i)

-- The page of the headers is in memory.
abbrev pub HasHeaders : Disk → Memory → Type 0
HasHeaders disk m = (j : ℕ) → elfhdr ≤ j → j < elfhdr + 4096 → m j ≡ file disk j

abbrev pub IsLoaded : Disk → ℕ → Memory → Type 0
IsLoaded disk k m = (i : ℕ) → i < size disk k → m (to disk k + i) ≡ image disk (from disk k + i)

half-same :
    (disk : Disk) (m : Memory) (a : ℕ)
    → HasHeaders disk m
    → elfhdr ≤ a
    → a + 2 ≤ elfhdr + 4096
    → half_at m a ≡ half_at (file disk) a
half-same disk m a h lo hi =
    omega (arith, h a lo (omega arith), h (a + 1) (omega arith) (omega arith))

word-same :
    (disk : Disk) (m : Memory) (a : ℕ)
    → HasHeaders disk m
    → elfhdr ≤ a
    → a + 4 ≤ elfhdr + 4096
    → word_at m a ≡ word_at (file disk) a
word-same disk m a h lo hi = omega (
  arith,
  h a lo (omega arith),
  h (a + 1) (omega arith) (omega arith),
  h (a + 2) (omega arith) (omega arith),
  h (a + 2 + 1) (omega arith) (omega arith),
)

module _ (disk : Disk) (v : IsBootable disk) where
  -- One segment, wherever the headers are in memory.
  readseg-IsLoaded :
      (k : ℕ) (m : Memory)
      → k < e_phnum (file disk)
      → HasHeaders disk m
      → (m' : Memory) × (readseg disk
            (p_pa m (header disk k))
            (p_memsz m (header disk k))
            (p_offset m (header disk k))
            m
          ≡ some m')
        × IsLoaded disk k m'
        × ((j : ℕ) → Outside disk k j → m' j ≡ m j)
  readseg-IsLoaded k m lt h =
      let e0 : p_pa m (header disk k) ≡ to disk k =
        word-same disk m (header disk k + 12) h (omega arith) (omega (arith, v.headers, lt)) in
      let e1 : p_memsz m (header disk k) ≡ size disk k =
        word-same disk m (header disk k + 20) h (omega arith) (omega (arith, v.headers, lt)) in
      let e2 : p_offset m (header disk k) ≡ from disk k =
        word-same disk m (header disk k + 4) h (omega arith) (omega (arith, v.headers, lt)) in
      let (m', run, has) =
        readseg-HasSegment disk (to disk k) (size disk k) (from disk k) m (v.room k lt)
          (v.extent k lt) (v.even k lt) in
      (
        m',
        rw (e0, e1, e2) run,
        has.segment,
        λ j out. elim out [ inl low ↦ has.below j low | inr high ↦ has.above j high ],
      )

  -- The segments from `k` on are loaded, and what is outside them stays.
  load_segments-IsLoaded :
      (left fuel k : ℕ) (m : Memory)
      → k + left ≡ e_phnum (file disk)
      → left < fuel
      → HasHeaders disk m
      → (m' : Memory) × (load_segments disk fuel
            (header disk k)
            (header disk (e_phnum (file disk)))
            m
          ≡ some m')
        × HasHeaders disk m'
        × ((l : ℕ) → k ≤ l → l < e_phnum (file disk) → IsLoaded disk l m')
        × ((j : ℕ) → ((l : ℕ) → k ≤ l → l < e_phnum (file disk) → Outside disk l j) → m' j ≡ m j)
  unfolding load_segments
  load_segments-IsLoaded left zero k m e lt h = absurd (omega arith)
  load_segments-IsLoaded zero (suc fuel) k m e lt h =
      let stop : ltb (header disk k) (header disk (e_phnum (file disk))) ≡ false =
        ground (arith, e) in
      (m, rw (load_segments, stop) refl, h, λ l le below. absurd (omega (arith, e)), λ j out. refl)
  load_segments-IsLoaded (suc left) (suc fuel) k m e lt h =
      let n = e_phnum (file disk) in
      let go : ltb (header disk k) (header disk n) ≡ true = ground (arith, e) in
      let (m1, run1, has1, kept1) = readseg-IsLoaded k m (omega (arith, e)) h in
      let h1 : HasHeaders disk m1 =
        λ j lo hi. kept1 j (v.apart k j (omega (arith, e)) lo hi) ∙ h j lo hi in
      let (m2, run2, h2, has2, kept2) =
        load_segments-IsLoaded left fuel (suc k) m1 (omega (arith, e)) (omega arith) h1 in
      let step : add32 (header disk k) 32 ≡ header disk (suc k) = omega (arith, v.headers, e) in
      (
        m2,
        rw (load_segments, go, run1, step) run2,
        h2,
        λ l le below. elim (Bool-cases (l == k)) [
          | inl same ↦ λ i inside.
              let here : l ≡ k = (==_iff l k).0 same in
              kept2 (to disk l + i)
                (λ l' le' below'. v.ordered l l' i (omega (arith, here)) below' inside)
              ∙ ap (λ t. m1 (to disk t + i)) here
              ∙ has1 i (omega (arith, inside, ap (size disk) here))
              ∙ ap (λ t. image disk (from disk t + i)) (sym here)
          | inr other ↦ has2 l (ground (arith, other)) below
        ],
        λ j out.
            kept2 j (λ l le below. out l (omega arith) below)
            ∙ kept1 j (out k (omega arith) (omega (arith, e))),
      )

  -- On a disk with such an image the boot loader enters the kernel, at the entry that the image
  -- names, with every byte of every segment in memory at its place, and the headers too.
  pub bootmain-IsLoaded :
      (m : Memory)
      → (m' : Memory) × (bootmain disk m ≡ some (entered (e_entry (file disk)) m'))
        × ((k : ℕ) → k < e_phnum (file disk) → IsLoaded disk k m')
        × HasHeaders disk m'
  unfolding bootmain
  bootmain-IsLoaded m =
      let (m0, run0, has0) =
        readseg-HasSegment disk elfhdr (sectsize * 8) 0 m (omega arith) (omega arith) refl in
      let h0 : HasHeaders disk m0 = λ j lo hi.
        ap m0 {x = j} {y = elfhdr + (j - elfhdr)} (omega arith)
        ∙ has0.segment (j - elfhdr) (omega arith)
        ∙ ap (image disk) {x = 0 + (j - elfhdr)} {y = j - elfhdr} (omega arith) in
      let good : (word_at m0 elfhdr == elf_magic) ≡ true =
        eq→== _ _ (word-same disk m0 elfhdr h0 (omega arith) (omega arith) ∙ v.magic) in
      let e0 : e_phoff m0 ≡ e_phoff (file disk) =
        word-same disk m0 (elfhdr + 28) h0 (omega arith) (omega arith) in
      let e1 : e_phnum m0 ≡ e_phnum (file disk) =
        half-same disk m0 (elfhdr + 44) h0 (omega arith) (omega arith) in
      let n = e_phnum (file disk) in
      let (m', run, h', has, _) =
        load_segments-IsLoaded n (n + 1) 0 m0 (omega arith) (omega arith) h0 in
      let start0 : add32 elfhdr (e_phoff m0) ≡ header disk 0 = omega (arith, e0, v.headers) in
      let end0 : add32 (header disk 0) (n * 32) ≡ header disk n = omega (arith, v.headers) in
      let e2 : e_entry m' ≡ e_entry (file disk) =
        word-same disk m' (elfhdr + 24) h' (omega arith) (omega arith) in
      (
        m',
        rw (bootmain, run0, good, start0, e1, end0, run) (ap (λ a. some (entered a m')) e2),
        λ k below. has k (omega arith) below,
        h',
      )
