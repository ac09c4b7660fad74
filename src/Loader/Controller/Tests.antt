-- ===== src/Loader/Controller/Tests.antt =====
-- A disk that is busy for three reads of its status, and takes nothing while it is.
use os.Base.{inl, ℕ, ◌+◌, ◌-◌, ◌*◌, ◌%◌, ◌^◌, not, ◌==◌, if◌then◌else◌, update}
use os.Loader.{Disk}
use os.Loader.Controller.{WideBus}
use os.Loader.Controller.Sector.{word_of}

abbrev disk : Disk
disk sector k = (sector + k) % 256

pub record Drive : Type 0 where
  pub wait_left : ℕ
  pub at : ℕ
  pub chosen : ℕ
  pub latched : ℕ → ℕ

abbrev drive_bus : WideBus Drive
drive_bus = record {
  bus = record {
    inb =
        λ p s. (if s.wait_left == 0 then 0x40 else 0x80, record s { wait_left = s.wait_left - 1 });
    outb = λ p v s.
        if not (s.wait_left == 0)
        then s
        else if p == 0x1f7
        then record s {
          wait_left = 3;
          at = 0;
          chosen =
              s.latched 3 + s.latched 4 * 2 ^ 8 + s.latched 5 * 2 ^ 16 + s.latched 6 % 16 * 2 ^ 24;
        }
        else record s { latched = update s.latched (p - 0x1f0) v };
    load = λ a s. (0, s);
    store = λ a v s. s;
  };
  inl = λ p s. (word_of disk s.chosen s.at, record s { at = s.at + 1 });
}

abbrev drive : Drive
drive = record { wait_left = 2; at = 77; chosen = 99; latched = λ i. 5 }
