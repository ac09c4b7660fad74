-- ===== src/Startup.antt =====
-- kern/init.c: `i386_init`, `_panic` and `_warn`, over the parts that they call.
pub mod Entered
mod Tests
use os.Base.{
  ℕ, zero, suc, ◌+◌, Bool, true, false, Option, none, some, List, [], ◌∷◌, ◌++◌, length,
  if◌then◌else◌, sub32,
}
use os.Strings.{Memory, memset}
use os.Printf.Format.{Arg}
use os.Readline.{Input}
use os.Debug.{Run, done, fault, out_of_fuel, ◌>>=◌}
use os.Pmap.State.{Kernel, Panic, ok, panic}
use os.Pmap.State as State
use os.Pmap.Setup.{mem_init}
use os.Ports.{Bus, Statics, cons_init, mc146818_read}
use os.Monitor.Shell.{
  Shell, Shown, panic_at, warning_at, formatted, line_end, no_serial_line, octal_line, Session,
  asks, leaves, shows, monitor,
}

-- `panicstr`, NULL being `none`, and the flags that `_panic` clears.
pub record Flags : Type 0 where
  pub panicstr : Option ℕ
  pub interrupts : Bool
  pub direction : Bool

-- A call of `panic` or `warn`: the addresses of the file name and of the format, the line and the
-- arguments.
pub record Call : Type 0 where
  pub file : ℕ
  pub line : ℕ
  pub fmt : ℕ
  pub args : List Arg

-- `_panic` up to `dead`.
unfoldable pub panic_message : Call → Flags → List Shown × Flags
panic_message c f = elim f.panicstr [
  | some s ↦ ([], f)
  | none ↦ (
    panic_at c.file c.line ∷ formatted c.fmt c.args ∷ line_end ∷ [],
    record { panicstr = some c.fmt; interrupts = false; direction = false },
  )
]

unfoldable pub warn : Call → List Shown
warn c = warning_at c.file c.line ∷ formatted c.fmt c.args ∷ line_end ∷ []

-- `while (1) monitor(NULL)`: a call of `monitor` that returns has used a line at least.
unfoldable pub keep_monitoring : ℕ → Shell → List (List Input) → Memory → Run Session
keep_monitoring zero h lines m = out_of_fuel
keep_monitoring (suc fuel) h lines m = monitor h lines m >>= λ s. elim s [
  | asks out m' ↦ done (asks out m')
  | leaves out rest m' ↦ keep_monitoring fuel h rest m' >>= λ s'. done (shows out s')
]

unfoldable pub kernel_panic :
    Shell → Call → Flags → List (List Input) → Memory → Run Session × Flags
kernel_panic h c f lines m =
    let (out, f') = panic_message c f in
    (keep_monitoring (suc (length lines)) h lines m >>= λ s. done (shows out s), f')

-- The variables of kern/pmap.c are uninitialized, so the linker places them between `edata` and
-- `end`, in the part of memory that is zeroed; this is not derived from those two addresses.
abbrev pub zeroed : Kernel → Kernel
zeroed k = record k {
  npages = 0;
  npages_basemem = 0;
  nextfree = 0;
  page_free_list = none;
  kern_pgdir = 0;
  pages_kva = 0;
}

-- What `mem_init` leads to. `site` tells where in the source a panic stands.
abbrev pub after_mem_init :
    Shell
    → (Panic → Call)
    → Flags
    → List (List Input)
    → Memory
    → State.Run (Unit {0})
    → Run Session × Flags
after_mem_init h site f lines m (ok u k) = (keep_monitoring (suc (length lines)) h lines m, f)
after_mem_init h site f lines m (panic p) = kernel_panic h (site p) f lines m
after_mem_init h site f lines m State.fault = (fault, f)
after_mem_init h site f lines m State.out_of_fuel = (out_of_fuel, f)

abbrev pub no_statics : Statics
no_statics = record { addr_6845 = 0; crt_buf = 0; crt_pos = 0; serial_exists = false }

abbrev pub greeting : Bool → List Shown
greeting silent = (if silent then no_serial_line ∷ [] else []) ++ (octal_line 6828 ∷ [])

-- The linker's `edata` and `end` bound what is zeroed; `m` is memory by byte, which the monitor
-- uses, and `k` what kern/pmap.c keeps. The clock chip is read in the state after `cons_init`.
unfoldable pub i386_init :
    {S : Type 0}
    → Bus S
    → Shell
    → (Panic → Call)
    → Flags
    → ℕ
    → ℕ
    → List (List Input)
    → Memory
    → Kernel
    → S
    → Run Session
i386_init b h site f edata image_end lines m k s =
    let m1 = memset edata 0 (sub32 image_end edata) m in
    let ((v, s1), silent) = cons_init b no_statics s in
    (after_mem_init h site (record f { panicstr = none }) lines m1
      (mem_init (λ r. (mc146818_read b r s1).0) (zeroed k))).0
    >>= λ session. done (shows (greeting silent) session)
