-- ===== src/Console/Codes.antt =====
-- The exit code of core/src/monitor/console_watch.cpp, `run_console_watch`, against its reports.
use peepbooth.Base.{
  ◌∙◌, sym, subst, ℕ, zero, suc, ◌≡◌, refl, List, [], ◌∷◌, ◌++◌, Option, none, some, Bool, true,
  false, arith, ◌&&◌, ◌==◌, ◌*◌, ◌%◌,
}
use peepbooth.Float.{Float}
use peepbooth.Platform.Kernel.{Kernel, World, load_stop}
use peepbooth.ProcFile.{ProcessIdentity, ProcessSample}
use peepbooth.Session.{WatchdogSnapshot}
use peepbooth.Observed.{
  Observer, Observation, Status, sampled, new_observer, accept_sample, poll, alive, wait_for_exit,
  try_attach,
}
use peepbooth.Observed.Samples.{is_own, Outcome, good, lost, accept_sample-Outcome}
use peepbooth.Observed.Ownership.{poll-process}
use peepbooth.Platform.ProcessWatch.{ProcessHandle, attach}
use peepbooth.SharedState.{u64_mod}
use peepbooth.Console.Ends.{returned, SignalledBy, run_console_watch-ends}
use peepbooth.CommandLine.{Options}
use peepbooth.Console.{
  Report, observed, process_exited, usage, no_process, no_state, identity_lost, sample_lost, Round,
  failed, left, magnitude, watch_loop, finish_watch, watch_attached, unless_stopped, watch_process,
  run_console_watch, add_report, report_of, attach_loop, stop_requested,
}

abbrev pub is_sampled : Status → Bool
is_sampled Status.sampled = true
is_sampled _ = false

-- An observation with a sample of the process `i`.
abbrev pub shows_own : (F : Float) → ProcessIdentity → Observation F → Bool
shows_own F i x = is_sampled x.status && is_own i x.sample

-- The reports of the second loop: observations with a sample of the process.
unfoldable pub all_sampled : (F : Float) → ProcessIdentity → List (Report F) → Bool
all_sampled F i [] = true
all_sampled F i (observed x ∷ reports) = shows_own F i x && all_sampled F i reports
all_sampled F i (_ ∷ reports) = false

abbrev pub is_failure : (F : Float) → Report F → Bool
is_failure F no_process = true
is_failure F no_state = true
is_failure F identity_lost = true
is_failure F sample_lost = true
is_failure F _ = false

-- What may stand last: a failure with the code 1, or the end of the process with the code 0.
abbrev pub is_last : (F : Float) → ℕ → Report F → Bool
is_last F code (process_exited _) = code == 0
is_last F code r = is_failure F r && (code == 1)

-- Observations, and at most one other report, which stands last and fits the code.
unfoldable pub fits_code : (F : Float) → ProcessIdentity → ℕ → List (Report F) → Bool
fits_code F i code [] = code == 0
fits_code F i code (observed x ∷ reports) = shows_own F i x && fits_code F i code reports
fits_code F i code (r ∷ []) = is_last F code r
fits_code F i code (_ ∷ _ ∷ _) = false

abbrev pub result_fits : (F : Float) → ProcessIdentity → Option (ℕ × List (Report F)) → Bool
result_fits F i none = true
result_fits F i (some (code, reports)) = fits_code F i code reports

abbrev round_fits : (F : Float) (k : Kernel) (ticks : ℕ) → ProcessIdentity → Round F k ticks → Bool
round_fits F k ticks i none = true
round_fits F k ticks i (some (failed r, reports, o)) = is_failure F r && all_sampled F i reports
round_fits F k ticks i (some (left, reports, o)) = all_sampled F i reports

all_sampled-fits :
    (F : Float) (i : ProcessIdentity) (reports : List (Report F))
    → all_sampled F i reports ≡ true
    → fits_code F i 0 reports ≡ true
unfolding all_sampled fits_code
all_sampled-fits F i [] h = refl
all_sampled-fits F i (observed x ∷ reports) h = grind (arith, h, all_sampled-fits F i reports)
all_sampled-fits F i (process_exited l ∷ reports) h = ground (arith, h)
all_sampled-fits F i (usage ∷ reports) h = ground (arith, h)
all_sampled-fits F i (no_process ∷ reports) h = ground (arith, h)
all_sampled-fits F i (no_state ∷ reports) h = ground (arith, h)
all_sampled-fits F i (identity_lost ∷ reports) h = ground (arith, h)
all_sampled-fits F i (sample_lost ∷ reports) h = ground (arith, h)

add_report-fits :
    (F : Float) (k : Kernel) (ticks : ℕ) (i : ProcessIdentity) (x : Observation F)
    (r : Round F k ticks)
    → shows_own F i x ≡ true
    → round_fits F k ticks i r ≡ true
    → round_fits F k ticks i (add_report F k ticks (observed x) r) ≡ true
unfolding add_report all_sampled
add_report-fits F k ticks i x none is ok = refl
add_report-fits F k ticks i x (some (failed r, reports, o)) is ok = ground (arith, is, ok)
add_report-fits F k ticks i x (some (left, reports, o)) is ok = ground (arith, is, ok)

Outcome-shows_own :
    (F : Float) (o : Observer F) (sample : Option ProcessSample) (watchdog : WatchdogSnapshot)
    (now : ℕ) (p : Observer F)
    → p.latest.status ≡ sampled
    → Outcome F o sample watchdog now p
    → shows_own F o.process.identity p.latest ≡ true
Outcome-shows_own F o sample watchdog now p is (good s e own status shown _ _ _ _) =
    let its = subst (λ x. is_own o.process.identity x ≡ true) (e ∙ sym shown) own in
    ground (arith, status, its)
Outcome-shows_own F o none watchdog now p is (lost own status _ _ _ _ _ _) =
    absurd (ground (arith, is, status))
Outcome-shows_own F o (some s) watchdog now p is (lost own status _ _ _ _ _ _) =
    absurd (ground (arith, is, status))

-- What a look shows, if it says that it has a sample, is of the process.
accept_sample-shows_own :
    (F : Float) (o : Observer F) (sample : Option ProcessSample) (watchdog : WatchdogSnapshot)
    (now : ℕ)
    → (accept_sample F o sample watchdog now).latest.status ≡ sampled
    → shows_own F o.process.identity (accept_sample F o sample watchdog now).latest ≡ true
accept_sample-shows_own F o sample watchdog now is =
    Outcome-shows_own F o sample watchdog now (accept_sample F o sample watchdog now) is
      (accept_sample-Outcome F o sample watchdog now)

poll-shows_own :
    (F : Float) (k : Kernel) (o : Observer F) (w : World)
    → (poll F k o w).0.latest.status ≡ sampled
    → shows_own F o.process.identity (poll F k o w).0.latest ≡ true
unfolding poll
poll-shows_own F k o w = grind (arith, accept_sample-shows_own F o)

watch_loop-fits :
    (F : Float) (k : Kernel) (ticks : ℕ) (options : Options) (fuel : ℕ) (o : Observer F) (w : World)
    → round_fits F k ticks o.process.identity (watch_loop F k ticks options fuel o w).0 ≡ true
unfolding watch_loop report_of all_sampled
watch_loop-fits F k ticks options zero o w = refl
watch_loop-fits F k ticks options (suc fuel) o w = grind (
  arith,
  watch_loop-fits F k ticks options fuel,
  add_report-fits F k ticks o.process.identity,
  poll-process F k o,
  poll-shows_own F k o,
)

last-fits :
    (F : Float) (i : ProcessIdentity) (code : ℕ) (r : Report F)
    → is_last F code r ≡ true
    → fits_code F i code (r ∷ []) ≡ true
unfolding fits_code
last-fits F i code (observed x) h = ground (arith, h)
last-fits F i code (process_exited l) h = h
last-fits F i code usage h = h
last-fits F i code no_process h = h
last-fits F i code no_state h = h
last-fits F i code identity_lost h = h
last-fits F i code sample_lost h = h

append-fits :
    (F : Float) (i : ProcessIdentity) (code : ℕ) (reports : List (Report F)) (r : Report F)
    → all_sampled F i reports ≡ true
    → is_last F code r ≡ true
    → fits_code F i code (reports ++ (r ∷ [])) ≡ true
unfolding all_sampled fits_code
append-fits F i code [] r h last = last-fits F i code r last
append-fits F i code (observed x ∷ reports) r h last =
    grind (arith, h, append-fits F i code reports r, last)
append-fits F i code (process_exited l ∷ reports) r h last = ground (arith, h)
append-fits F i code (usage ∷ reports) r h last = ground (arith, h)
append-fits F i code (no_process ∷ reports) r h last = ground (arith, h)
append-fits F i code (no_state ∷ reports) r h last = ground (arith, h)
append-fits F i code (identity_lost ∷ reports) r h last = ground (arith, h)
append-fits F i code (sample_lost ∷ reports) r h last = ground (arith, h)

failure-last : (F : Float) (r : Report F) → is_failure F r ≡ true → is_last F 1 r ≡ true
failure-last F (observed x) h = ground (arith, h)
failure-last F (process_exited l) h = ground (arith, h)
failure-last F usage h = ground (arith, h)
failure-last F no_process h = ground (arith, h)
failure-last F no_state h = ground (arith, h)
failure-last F identity_lost h = ground (arith, h)
failure-last F sample_lost h = ground (arith, h)

finish_watch-fits :
    (F : Float) (k : Kernel) (ticks : ℕ) (i : ProcessIdentity) (r : Round F k ticks) (w : World)
    → round_fits F k ticks i r ≡ true
    → result_fits F i (finish_watch F k ticks r w).0 ≡ true
unfolding finish_watch
finish_watch-fits F k ticks i none w ok = refl
finish_watch-fits F k ticks i (some (failed r, reports, o)) w ok =
    grind (arith, ok, append-fits F i 1 reports r, failure-last F r)
finish_watch-fits F k ticks i (some (left, reports, o)) w ok =
    grind (arith, ok, all_sampled-fits F i reports, append-fits F i 0 reports)

watch_attached-fits :
    (F : Float) (k : Kernel) (ticks fuel : ℕ) (options : Options) (attached : Bool × Observer F)
    (w : World)
    → result_fits F attached.1.process.identity (watch_attached F k ticks options fuel attached w).0
      ≡ true
unfolding watch_attached fits_code
watch_attached-fits F k ticks fuel options (false, o) w = refl
watch_attached-fits F k ticks fuel options (true, o) w =
    finish_watch-fits F k ticks o.process.identity (watch_loop F k ticks options fuel o w).0
      (watch_loop F k ticks options fuel o w).1 (watch_loop-fits F k ticks options fuel o w)

unless_stopped-fits :
    (F : Float) (k : Kernel) (ticks fuel : ℕ) (options : Options) (stopped : Bool)
    (attached : Bool × Observer F) (w : World)
    → result_fits F attached.1.process.identity
        (unless_stopped F k ticks options fuel stopped attached w).0
      ≡ true
unfolding unless_stopped fits_code
unless_stopped-fits F k ticks fuel options true attached w = refl
unless_stopped-fits F k ticks fuel options false attached w =
    watch_attached-fits F k ticks fuel options attached w

try_attach-process :
    (F : Float) (k : Kernel) (o : Observer F) (w : World)
    → (try_attach F k o w).0.1.process ≡ o.process
unfolding try_attach
try_attach-process F k o w = grind arith

attach_loop-process :
    (F : Float) (k : Kernel) (ticks attempts : ℕ) (o : Observer F) (w : World)
    → (attach_loop F k ticks attempts o w).0.1.process ≡ o.process
unfolding attach_loop
attach_loop-process F k ticks zero o w = refl
attach_loop-process F k ticks (suc attempts) o w =
    let v = (alive F k o (record w { calls = load_stop ∷ w.calls })).1 in
    let t = try_attach F k o v in
    let u = (wait_for_exit F k t.0.1 100 t.1).1 in
    let tried = try_attach-process F k o v in
    let rest = attach_loop-process F k ticks attempts t.0.1 u ∙ tried in grind (arith, tried, rest)

-- The process that was opened, if it was.
abbrev pub opened : Option ProcessHandle → ProcessIdentity
opened none = record { pid = 0; start_ticks = 0 }
opened (some process) = process.identity

watch_process-fits :
    (F : Float) (k : Kernel) (ticks fuel : ℕ) (options : Options) (process : Option ProcessHandle)
    (w : World)
    → result_fits F (opened process) (watch_process F k ticks options fuel process w).0 ≡ true
unfolding watch_process fits_code
watch_process-fits F k ticks fuel options none w = refl
watch_process-fits F k ticks fuel options (some process) w =
    let o = new_observer F process (magnitude options.stale_ms * 1_000_000 % u64_mod) ticks in
    let a = attach_loop F k ticks 50 o w in
    let stopped = stop_requested F k ticks a.1 in
    let same : a.0.1.process ≡ process =
      attach_loop-process F k ticks 50 o w ∙ (unfold new_observer in refl) in
    subst
      (λ (p : ProcessHandle).
        result_fits F p.identity (unless_stopped F k ticks options fuel stopped.0 a.0 stopped.1).0
        ≡ true)
      same (unless_stopped-fits F k ticks fuel options stopped.0 a.0 stopped.1)

run_console_watch-fits :
    (F : Float) (k : Kernel) (ticks fuel : ℕ) (options : Options) (w : World)
    → result_fits F
        (opened (attach k options.pid w).0)
        (run_console_watch F k ticks options fuel w).0
      ≡ true
unfolding run_console_watch
run_console_watch-fits F k ticks fuel options w = watch_process-fits F k ticks fuel options _ _

abbrev pub reported : (F : Float) → ProcessIdentity → Option (ℕ × List (Report F)) → Bool
reported F i none = false
reported F i (some (code, reports)) = fits_code F i code reports

returned-reported :
    (F : Float) (i : ProcessIdentity) (r : Option (ℕ × List (Report F)))
    → returned r ≡ true
    → result_fits F i r ≡ true
    → reported F i r ≡ true
returned-reported F i none h fits = h
returned-reported F i (some r) h fits = fits

-- The exit code says what was seen. On every kernel on which the signal to stop has come by the time
-- that `n` calls have been made, `run_console_watch` returns with a code and its reports in this form:
-- observations, each with a sample whose number and start time are those of the process that was opened,
-- and behind them at most one other report; the code is 1 if that report is a failure, and 0 if it says
-- that the process has exited or if there is none.
pub run_console_watch-reported :
    (F : Float) (k : Kernel) (ticks n : ℕ) (options : Options) (w : World)
    → SignalledBy k n
    → reported F
        (opened (attach k options.pid w).0)
        (run_console_watch F k ticks options (suc n) w).0
      ≡ true
run_console_watch-reported F k ticks n options w signal =
    returned-reported F (opened (attach k options.pid w).0)
      (run_console_watch F k ticks options (suc n) w).0
      (run_console_watch-ends F k ticks n options w signal)
      (run_console_watch-fits F k ticks (suc n) options w)
