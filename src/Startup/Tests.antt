-- ===== src/Startup/Tests.antt =====
-- A kernel that fills the 4 MB of `boot_alloc`, and a second panic.
use os.Base.{
  ℕ, ◌+◌, ◌<◌, ◌≡◌, refl, Bool, true, false, ◌&&◌, none, some, List, [], ◌∷◌, ◌++◌, if◌then◌else◌,
  leb, ltb, arith,
}
use os.Strings.{Memory}
use os.Debug.{done, ◌>>=◌}
use os.Debug.Tests.{symbols}
use os.Pmap.State.{Kernel, Panic, boot_alloc_full, panic, paddr}
use os.Pmap.Boot.{nvram_read, i386_detect_memory, next_free, claim, boot_alloc}
use os.Pmap.Setup.{make_pgdir, mem_init}
use os.Ports.{Bus, cons_init, cga_init, probe, read_cursor, serial_init, mc146818_read}
use os.Monitor.Shell.{Shell, shows, monitor}
use os.Startup.{Flags, Call, zeroed, no_statics, greeting, i386_init}
use os.Startup.Entered.{panic_lines, i386_init-panic}

abbrev shell : Shell
shell = record {
  symbols = symbols;
  image = record {
    first = 0x10_0000;
    entry = 0xf010_000c;
    etext = 0xf010_1000;
    edata = 0xf011_2000;
    image_end = 0xf040_0000;
  };
  commands = [];
  stack = λ _. 0;
  ebp = 0;
  buffer = 1000;
}

abbrev site : Panic → Call
site p = record { file = 40; line = 123; fmt = 50; args = [] }

abbrev running : Flags
running = record { panicstr = none; interrupts = true; direction = false }

abbrev memory : Memory
memory j = 7

-- Every port reads 0, the clock chip's too.
abbrev dead : Bus ℕ
dead = record { inb = λ p s. (0, s); outb = λ p v s. s; load = λ a s. (0, s); store = λ a v s. s }

abbrev kernel : Kernel
kernel = record {
  image_end = 0xf040_0000;
  bootstack = 0xf010_f000;
  npages = 9;
  npages_basemem = 9;
  nextfree = 9;
  page_free_list = some 9;
  kern_pgdir = 9;
  pages = λ _. record { pp_link = none; pp_ref = 0 };
  pages_kva = 9;
  mem = λ _. 0;
  flushed = [];
  cr0 = 0;
  cr3 = 0;
}

kernel-full :
    mem_init (λ r. (mc146818_read dead r (cons_init dead no_statics 0).0.1).0) (zeroed kernel)
    ≡ panic boot_alloc_full
unfolding mem_init make_pgdir boot_alloc next_free claim i386_detect_memory nvram_read mc146818_read
    cons_init cga_init probe read_cursor serial_init paddr os.Base.round_up
kernel-full = refl

i386_init-panic_example :
    (m1 : Memory) × ((j : ℕ) → m1 j ≡ (if leb 0xf011_2000 j && ltb j 0xf040_0000 then 0 else 7))
    × (i386_init dead shell site running 0xf011_2000 0xf040_0000 [] memory kernel 0 ≡ (
        monitor shell [] m1 >>= λ session. done (
          shows
            (greeting (cons_init dead no_statics 0).1 ++ panic_lines (site boot_alloc_full))
            session)))
i386_init-panic_example =
    i386_init-panic dead shell site running 0xf011_2000 0xf040_0000 [] memory kernel 0
      boot_alloc_full (omega arith) (omega arith) kernel-full
