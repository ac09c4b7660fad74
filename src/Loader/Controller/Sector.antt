-- ===== src/Loader/Controller/Sector.antt =====
-- Through the ports, `readsect` brings the sector that the disk holds.
use os.Base.{ℕ, ◌+◌, ◌-◌, ◌*◌, ◌%◌, ◌^◌, ◌≤◌, ◌<◌, ◌≡◌, inl, ◌==◌, if◌then◌else◌, bit_and}
use os.Loader.{Disk}
use os.Loader.Controller.{WideBus}

-- The word at place `k` of a sector, the lowest byte first.
abbrev pub word_of : Disk → ℕ → ℕ → ℕ
word_of disk sector k =
    disk sector (4 * k)
    + disk sector (4 * k + 1) * 2 ^ 8
    + disk sector (4 * k + 2) * 2 ^ 16
    + disk sector (4 * k + 3) * 2 ^ 24

-- A disk that is busy for at most `n` reads of its status. While it is not busy, the registers
-- from 2 to 6 keep what is written to them and it takes a command; the command to read takes the sector from them, and each word that is then
-- read is the next one of the sector.
pub record IsController {S : Type 0} (b : WideBus S) (disk : Disk) (n : ℕ)
    (busy place sector : S → ℕ) (registers : ℕ → S → ℕ) : Type 0 where
  pub bytes : (sec k : ℕ) → disk sec k < 256
  pub ready : (s : S) → (bit_and (b.bus.inb 0x1f7 s).0 0xc0 == 0x40) ≡ (busy s == 0)
  pub polls : (s : S) → busy (b.bus.inb 0x1f7 s).1 ≡ busy s - 1
  pub poll_place : (s : S) → place (b.bus.inb 0x1f7 s).1 ≡ place s
  pub poll_sector : (s : S) → sector (b.bus.inb 0x1f7 s).1 ≡ sector s
  pub latches :
      (i r v : ℕ) (s : S)
      → 2 ≤ r
      → r < 7
      → busy s ≡ 0
      → (registers i (b.bus.outb (0x1f0 + r) v s) ≡ (if i == r then v else registers i s))
        × (busy (b.bus.outb (0x1f0 + r) v s) ≡ 0)
  pub commands :
      (s : S)
      → busy s ≡ 0
      → registers 2 s ≡ 1
      → (busy (b.bus.outb 0x1f7 0x20 s) ≤ n)
        × (place (b.bus.outb 0x1f7 0x20 s) ≡ 0)
        × (sector (b.bus.outb 0x1f7 0x20 s)
            ≡ registers 3 s
              + registers 4 s * 2 ^ 8
              + registers 5 s * 2 ^ 16
              + registers 6 s % 16 * 2 ^ 24)
  pub words :
      (s : S)
      → busy s ≡ 0
      → place s < 128
      → ((b.inl 0x1f0 s).0 ≡ word_of disk (sector s) (place s))
        × (busy (b.inl 0x1f0 s).1 ≡ 0)
        × (place (b.inl 0x1f0 s).1 ≡ place s + 1)
        × (sector (b.inl 0x1f0 s).1 ≡ sector s)
