-- ===== src/Startup/Entered.antt =====
-- The kernel ends in its monitor, after a panic too.
use os.Base.{
  ℕ, suc, ◌≤◌, ◌<◌, ◌^◌, ◌≡◌, refl, Bool, false, ◌&&◌, none, some, List, [], ◌∷◌, ◌++◌, length,
  if◌then◌else◌, leb, ltb, arith, ap, ◌∙◌, sub32,
}
use os.Strings.{Memory, memset}
use os.Strings.Block.{memset-filled}
use os.Readline.{Input}
use os.Debug.{Run, done, fault, out_of_fuel, panicked, ◌>>=◌}
use os.Pmap.State.{Kernel, Panic, ok, panic}
use os.Pmap.State as State
use os.Pmap.Setup.{mem_init}
use os.Ports.{Bus, cons_init, mc146818_read}
use os.Monitor.Shell.{
  Shell, Shown, panic_at, formatted, line_end, Session, asks, leaves, shows, monitor,
}
use os.Monitor.Shell.Rounds.{has_left, monitor-stays, shown_stays, shown_before}
use os.Startup.{
  Flags, Call, panic_message, keep_monitoring, kernel_panic, zeroed, after_mem_init, no_statics,
  greeting, i386_init,
}

-- One call of `monitor` is all.
keep_monitoring-monitor :
    (n : ℕ) (h : Shell) (lines : List (List Input)) (m : Memory)
    → keep_monitoring (suc n) h lines m ≡ monitor h lines m
unfolding keep_monitoring
keep_monitoring-monitor n h lines m = by_result (monitor h lines m) (monitor-stays h lines m)
  where
    by_result :
        (r : Run Session)
        → has_left r ≡ false
        → (r >>= λ s. elim s [
          | asks out m' ↦ done (asks out m')
          | leaves out rest m' ↦ keep_monitoring n h rest m' >>= λ s'. done (shows out s')
        ])
          ≡ r
    by_result (done (asks out m')) e = refl
    by_result (done (leaves out rest m')) e = absurd (ground (arith, e))
    by_result fault e = refl
    by_result out_of_fuel e = refl
    by_result panicked e = refl

-- The lines of a panic.
abbrev pub panic_lines : Call → List Shown
panic_lines c = panic_at c.file c.line ∷ formatted c.fmt c.args ∷ line_end ∷ []

shows_none : (s : Session) → shows [] s ≡ s
shows_none (asks out m) = refl
shows_none (leaves out lines m) = refl

shown_nothing : (r : Run Session) → (r >>= λ s. done (shows [] s)) ≡ r
shown_nothing (done s) = ap done (shows_none s)
shown_nothing fault = refl
shown_nothing out_of_fuel = refl
shown_nothing panicked = refl

abbrev pub after_panic : Call → Flags
after_panic c = record { panicstr = some c.fmt; interrupts = false; direction = false }

first_panic :
    (h : Shell) (c : Call) (f : Flags) (lines : List (List Input)) (m : Memory)
    → f.panicstr ≡ none
    → kernel_panic h c f lines m
      ≡ (monitor h lines m >>= λ s. done (shows (panic_lines c) s), after_panic c)
unfolding kernel_panic panic_message
first_panic h c f lines m e =
    rw (kernel_panic, panic_message, e, keep_monitoring-monitor (length lines) h lines m) refl

later_panic :
    (h : Shell) (c : Call) (fmt : ℕ) (interrupts direction : Bool) (lines : List (List Input))
    (m : Memory)
    → kernel_panic h c
        (record { panicstr = some fmt; interrupts = interrupts; direction = direction })
        lines
        m
      ≡ (
        monitor h lines m,
        record { panicstr = some fmt; interrupts = interrupts; direction = direction },
      )
unfolding kernel_panic panic_message
later_panic h c fmt interrupts direction lines m =
    rw (keep_monitoring-monitor (length lines) h lines m) (
      ap (λ r. (r, record { panicstr = some fmt; interrupts = interrupts; direction = direction }))
        (shown_nothing (monitor h lines m)))

-- The first panic prints its message, remembers its format, turns interrupts off and enters the
-- monitor; a panic after it prints nothing and enters the monitor, with the first format remembered.
pub kernel_panic-once :
    (h : Shell) (c c' : Call) (f : Flags) (lines lines' : List (List Input)) (m m' : Memory)
    → f.panicstr ≡ none
    → (kernel_panic h c f lines m
        ≡ (monitor h lines m >>= λ s. done (shows (panic_lines c) s), after_panic c))
      × (kernel_panic h c' (kernel_panic h c f lines m).1 lines' m'
          ≡ (monitor h lines' m', after_panic c))
kernel_panic-once h c c' f lines lines' m m' e =
    let first = first_panic h c f lines m e in
    (first, rw first (later_panic h c' c.fmt false false lines' m'))

after_mem_init-stays :
    (h : Shell) (site : Panic → Call) (f : Flags) (lines : List (List Input)) (m : Memory)
    (r : State.Run (Unit {0}))
    → has_left (after_mem_init h site f lines m r).0 ≡ false
unfolding kernel_panic
after_mem_init-stays h site f lines m (ok u k) =
    ap has_left (keep_monitoring-monitor (length lines) h lines m) ∙ monitor-stays h lines m
after_mem_init-stays h site f lines m (panic p) =
    shown_stays (panic_message (site p) f).0 (keep_monitoring (suc (length lines)) h lines m)
    ∙ ap has_left (keep_monitoring-monitor (length lines) h lines m)
    ∙ monitor-stays h lines m
after_mem_init-stays h site f lines m State.fault = refl
after_mem_init-stays h site f lines m State.out_of_fuel = refl

-- `i386_init` does not return, whether `mem_init` panics or not, and whatever is typed.
pub i386_init-stays :
    {S : Type 0} (b : Bus S) (h : Shell) (site : Panic → Call) (f : Flags) (edata image_end : ℕ)
    (lines : List (List Input)) (m : Memory) (k : Kernel) (s : S)
    → has_left (i386_init b h site f edata image_end lines m k s) ≡ false
unfolding i386_init
i386_init-stays b h site f edata image_end lines m k s =
    let m1 = memset edata 0 (sub32 image_end edata) m in
    let ((v, s1), silent) = cons_init b no_statics s in
    let f1 : Flags = record f { panicstr = none } in
    let r = mem_init (λ r. (mc146818_read b r s1).0) (zeroed k) in
    shown_stays (greeting silent) (after_mem_init h site f1 lines m1 r).0
    ∙ after_mem_init-stays h site f1 lines m1 r

-- If `mem_init` panics, on the zeroed variables and with the clock chip as it is after the console
-- is set up, then the kernel greets, prints the panic and enters the monitor, with memory set to 0
-- from `edata` up to `end` and nowhere else.
pub i386_init-panic :
    {S : Type 0} (b : Bus S) (h : Shell) (site : Panic → Call) (f : Flags) (edata image_end : ℕ)
    (lines : List (List Input)) (m : Memory) (k : Kernel) (s : S) (p : Panic)
    → edata ≤ image_end
    → image_end < 2 ^ 32
    → mem_init (λ r. (mc146818_read b r (cons_init b no_statics s).0.1).0) (zeroed k) ≡ panic p
    → (m1 : Memory) × ((j : ℕ) → m1 j ≡ (if leb edata j && ltb j image_end then 0 else m j))
      × (i386_init b h site f edata image_end lines m k s ≡ (
          monitor h lines m1 >>= λ session.
          done (shows (greeting (cons_init b no_statics s).1 ++ panic_lines (site p)) session)))
unfolding i386_init
i386_init-panic b h site f edata image_end lines m k s p le small e =
    let m1 = memset edata 0 (sub32 image_end edata) m in
    let first = first_panic h (site p) (record f { panicstr = none }) lines m1 refl in
    (
      m1,
      λ j. memset-filled edata 0 (sub32 image_end edata) m j ∙ ground arith,
      rw (i386_init, e, first)
          (shown_before (greeting (cons_init b no_statics s).1) (panic_lines (site p))
            (monitor h lines m1)),
    )
