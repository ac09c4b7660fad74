-- ===== src/Monitor/Shell/Rounds.antt =====
-- The rounds of `monitor`.
use os.Base.{
  ℕ, ◌+◌, ◌≤◌, ◌<◌, ◌^◌, ◌≡◌, refl, Bool, true, false, Option, none, some, List, [], ◌∷◌, ◌++◌,
  append_assoc, sym, map, arith, ap, subst, ◌∙◌,
}
use os.Base.Int.{pos, ltb_ℤ}
use os.Strings.{Memory}
use os.Readline.{buflen, Input, char, Line, Outcome, returned, failed, waiting, is_end, readline}
use os.Readline.Edit.{NoEnd, Shows, edit_all, push_all, echo_line, readline-echo}
use os.Strings.Scan.{IsString}
use os.Monitor.Parse.{KeepsRest, IsParsed, parse-IsParsed}
use os.Debug.{Run, done, fault, out_of_fuel, panicked, ◌>>=◌}
use os.Monitor.{
  Parsed, too_many, arguments, Action, nothing, too_many_arguments, unknown, invoke, parse, runcmd,
}
use os.Monitor.Commands.{Printed, perform}
use os.Monitor.Lookup.{IsBytes, IsChosen, runcmd-IsChosen}
use os.Monitor.Shell.{
  Shell, Shown, welcome, hint, prompt, echoed, output, Session, asks, leaves, shows, names,
  with_buffer, after_parse, status, run_line, monitor_loop, monitor,
}
use os.Monitor.Shell.LineText.{
  AreBytes, line-IsString, with_buffer-IsBytes, readline-IsBytes, line_of,
}

shows-shows : (xs ys : List Shown) (s : Session) → shows xs (shows ys s) ≡ shows (xs ++ ys) s
shows-shows xs ys (asks out m) = ap (λ l. asks l m) (sym (append_assoc xs ys out))
shows-shows xs ys (leaves out lines m) = ap (λ l. leaves l lines m) (sym (append_assoc xs ys out))

-- What is shown before a session, in two parts.
pub shown_before :
    (xs ys : List Shown) (r : Run Session)
    → ((r >>= λ s. done (shows ys s)) >>= λ s. done (shows xs s))
      ≡ (r >>= λ s. done (shows (xs ++ ys) s))
shown_before xs ys (done s) = ap done (shows-shows xs ys s)
shown_before xs ys fault = refl
shown_before xs ys out_of_fuel = refl
shown_before xs ys panicked = refl

-- A command, and then the rest of the session.
abbrev pub and_session : Run (List Printed) → List Shown → Run Session → Run Session
and_session command shown rest =
    command >>= λ lines. rest >>= λ s. done (shows (shown ++ map output lines) s)

continues : (a : Action) → ltb_ℤ (status a) (pos 0) ≡ false
continues nothing = refl
continues too_many_arguments = refl
continues (unknown arg) = refl
continues (invoke i argv m) = refl

run_line-perform :
    (h : Shell) (again : Memory → Run Session) (more : List (List Input)) (m : Memory) (a : Action)
    (shown : List Shown)
    → runcmd (names h) m h.buffer ≡ some a
    → (run_line h again more m >>= λ s. done (shows shown s))
      ≡ and_session
          (perform h.symbols h.image h.commands h.stack h.ebp a)
          shown
          (again (after_parse m (parse m h.buffer)))
run_line-perform h again more m a shown e =
    rw (run_line, e, continues a) (by_result (perform h.symbols h.image h.commands h.stack h.ebp a))
  where
    by_result :
        (r : Run (List Printed))
        → ((r >>= λ lines.
              again (after_parse m (parse m h.buffer)) >>= λ s. done (shows (map output lines) s))
            >>= λ s. done (shows shown s))
          ≡ and_session r shown (again (after_parse m (parse m h.buffer)))
    by_result (done lines) =
        shown_before shown (map output lines) (again (after_parse m (parse m h.buffer)))
    by_result fault = refl
    by_result out_of_fuel = refl
    by_result panicked = refl

-- The parser writes nothing outside the line.
after_parse-KeepsRest :
    (m : Memory) (lo n : ℕ)
    → IsString m lo n
    → n < 2 ^ 32
    → KeepsRest lo (lo + n) m (after_parse m (parse m lo))
after_parse-KeepsRest m lo n v small =
    let (r, run, p) = parse-IsParsed m lo n v small in
    subst (λ o. KeepsRest lo (lo + n) m (after_parse m o)) (sym run) (by_result r p)
  where
    by_result :
        (r : Parsed) → IsParsed lo (lo + n) m r → KeepsRest lo (lo + n) m (after_parse m (some r))
    by_result (too_many m') p = p
    by_result (arguments argv m') p = p.2

-- A line of `monitor`: keys that are bytes and do not end a line, and then a newline or a carriage
-- return. The prompt and the echo of the keys are shown, and the text they edit, in the buffer, is
-- run: the action that its words choose among the commands is performed, and then the session
-- goes on with the lines to come, in a memory that is only changed within the line. The
-- buffer lies within the addresses and memory holds bytes.
pub monitor_loop-runs :
    (h : Shell) (cs : List ℕ) (end : ℕ) (more : List (List Input)) (m : Memory)
    → AreBytes cs
    → NoEnd cs
    → is_end end ≡ true
    → IsBytes m
    → h.buffer + buflen ≤ 2 ^ 32
    → (l : Line) × (a : Action) × (m' : Memory) × Shows l.buf l.i (edit_all cs [])
      × (l.echoed ≡ push_all (echo_line cs) [])
      × IsChosen (names h) h.buffer l.i (with_buffer h.buffer l.buf m) a
      × KeepsRest h.buffer (h.buffer + l.i) (with_buffer h.buffer l.buf m) m'
      × (monitor_loop h ((map char cs ++ (char end ∷ [])) ∷ more) m
          ≡ and_session
              (perform h.symbols h.image h.commands h.stack h.ebp a)
              (prompt ∷ echoed l.echoed ∷ [])
              (monitor_loop h more m'))
unfolding monitor_loop
monitor_loop-runs h cs end more m b ends e bytes room =
    let old : ℕ → ℕ = λ j. m (h.buffer + j) in
    let (l, run, shown, zeroed, short, out) = readline-echo cs end old ends e in
    let m1 = with_buffer h.buffer l.buf m in
    let new_bytes =
      readline-IsBytes (map char cs ++ (char end ∷ [])) old (λ j. bytes (h.buffer + j)) in
    let buf_bytes : IsBytes l.buf = subst (λ o. IsBytes (line_of o).buf) run new_bytes in
    let line = line-IsString h.buffer l.i l.buf m cs b shown zeroed short in
    let (a, chosen, c) =
      runcmd-IsChosen (names h) m1 h.buffer l.i line (omega (arith, room, short))
        (with_buffer-IsBytes h.buffer l.buf m buf_bytes bytes) in
    (
      l,
      a,
      after_parse m1 (parse m1 h.buffer),
      shown,
      out,
      c,
      after_parse-KeepsRest m1 h.buffer l.i line (omega (arith, room, short)),
      rw (monitor_loop, run)
          (run_line-perform h (monitor_loop h more) more m1 a (prompt ∷ echoed l.echoed ∷ [])
            chosen),
    )

-- Whether `monitor` has returned.
abbrev pub has_left : Run Session → Bool
has_left (done (leaves out lines m)) = true
has_left r = false

pub shown_stays :
    (out : List Shown) (r : Run Session) → has_left (r >>= λ s. done (shows out s)) ≡ has_left r
shown_stays out (done (asks more m)) = refl
shown_stays out (done (leaves more lines m)) = refl
shown_stays out fault = refl
shown_stays out out_of_fuel = refl
shown_stays out panicked = refl

run_line-stays :
    (h : Shell) (again : Memory → Run Session) (more : List (List Input)) (m : Memory)
    → ((m' : Memory) → has_left (again m') ≡ false)
    → has_left (run_line h again more m) ≡ false
run_line-stays h again more m stays = by_action (runcmd (names h) m h.buffer)
  where
    by_action :
        (o : Option Action)
        → has_left (elim o [
          | none ↦ out_of_fuel
          | some a ↦ perform h.symbols h.image h.commands h.stack h.ebp a >>= λ lines.
              elim (ltb_ℤ (status a) (pos 0)) [
                | true ↦ done (leaves (map output lines) more (after_parse m (parse m h.buffer)))
                | false ↦ again (after_parse m (parse m h.buffer)) >>= λ s.
                    done (shows (map output lines) s)
              ]
        ])
          ≡ false
    by_action none = refl
    by_action (some a) =
        rw (continues a) (by_result (perform h.symbols h.image h.commands h.stack h.ebp a))
      where
        by_result :
            (r : Run (List Printed))
            → has_left (
                r >>= λ lines.
                again (after_parse m (parse m h.buffer)) >>= λ s. done (shows (map output lines) s))
              ≡ false
        by_result (done lines) =
            shown_stays (map output lines) (again (after_parse m (parse m h.buffer)))
            ∙ stays (after_parse m (parse m h.buffer))
        by_result fault = refl
        by_result out_of_fuel = refl
        by_result panicked = refl

monitor_loop-stays :
    (h : Shell) (lines : List (List Input)) (m : Memory) → has_left (monitor_loop h lines m) ≡ false
unfolding monitor_loop
monitor_loop-stays h [] m = refl
monitor_loop-stays h (keys ∷ more) m =
    by_outcome (monitor_loop-stays h more) (readline keys (λ j. m (h.buffer + j)))
  where
    by_outcome :
        ((m' : Memory) → has_left (monitor_loop h more m') ≡ false)
        → (o : Outcome)
        → has_left (elim o [
          | waiting l ↦ done (asks (prompt ∷ echoed l.echoed ∷ []) (with_buffer h.buffer l.buf m))
          | failed l ↦ monitor_loop h more (with_buffer h.buffer l.buf m) >>= λ s.
              done (shows (prompt ∷ echoed l.echoed ∷ []) s)
          | returned l ↦
              run_line h (monitor_loop h more) more (with_buffer h.buffer l.buf m) >>= λ s.
              done (shows (prompt ∷ echoed l.echoed ∷ []) s)
        ])
          ≡ false
    by_outcome stays (waiting l) = refl
    by_outcome stays (failed l) =
        shown_stays (prompt ∷ echoed l.echoed ∷ [])
          (monitor_loop h more (with_buffer h.buffer l.buf m))
        ∙ stays (with_buffer h.buffer l.buf m)
    by_outcome stays (returned l) =
        shown_stays (prompt ∷ echoed l.echoed ∷ [])
          (run_line h (monitor_loop h more) more (with_buffer h.buffer l.buf m))
        ∙ run_line-stays h (monitor_loop h more) more (with_buffer h.buffer l.buf m) stays

-- `monitor` does not return, whatever is typed and wherever errors of `readline` come between: no
-- command has a result below 0.
pub monitor-stays :
    (h : Shell) (lines : List (List Input)) (m : Memory) → has_left (monitor h lines m) ≡ false
unfolding monitor
monitor-stays h lines m =
    shown_stays (welcome ∷ hint ∷ []) (monitor_loop h lines m) ∙ monitor_loop-stays h lines m
