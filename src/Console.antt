-- ===== src/Console.antt =====
-- core/src/monitor/console_watch.cpp, `run_console_watch`: the watch of one
-- process. What is written is a list of reports, in their order; Print gives the bytes of each.
pub mod Ends
pub mod Codes
pub mod Causes
pub mod Print
pub mod Lines
pub mod Ownership
use peepbooth.Base.{
  ℕ, zero, suc, ◌+◌, ◌*◌, ◌%◌, List, [], ◌∷◌, Option, none, some, Bool, true, false, ◌++◌,
  if◌then◌else◌, drop,
}
use peepbooth.Base.Text.{Text}
use peepbooth.Base.Int.{ℤ, pos, negsuc}
use peepbooth.SharedState.{Lifecycle, u64_mod}
use peepbooth.Float.{Float}
use peepbooth.Platform.Kernel.{Kernel, M, ◌>>=◌, pure, issue, load_stop}
use peepbooth.Platform.ProcessWatch
use peepbooth.Platform.ProcessWatch.{ProcessHandle, close_handle, clock_ticks_of}
use peepbooth.Session.Ownership.{drop_session}
use peepbooth.Observed.{
  Observer, Observation, Status, new_observer, try_attach, alive, wait_for_exit, poll,
}
use peepbooth.CommandLine.{Options, Parsed, Action, run, help, error, parse_command_line}

-- What stands on an `int` that the parse has found not negative.
abbrev pub magnitude : ℤ → ℕ
magnitude (pos n) = n
magnitude (negsuc n) = 0

module _ (F : Float) where
  pub data Report : Type 0 where
    observed : Observation F → Report
    process_exited : Lifecycle → Report
    usage no_process no_state identity_lost sample_lost : Report

  -- How the loop over the observations was left, if it was not by running out of fuel.
  pub data Ended : Type 0 where
    failed : Report → Ended
    left : Ended

  module _ (k : Kernel) (clock_ticks : ℕ) where
    -- `stop_requested.load`
    stop_requested : M Bool
    stop_requested = do h ← issue load_stop; pure (k.stopped h)

    -- The rounds of the first loop that are left: the observer, and whether it is attached.
    unfoldable pub attach_loop : ℕ → Observer F → M (Bool × Observer F)
    unfolding stop_requested
    attach_loop zero o = pure (false, o)
    attach_loop (suc attempts) o = do
      stopped ← stop_requested
      elim stopped [
        | true ↦ pure (false, o)
        | false ↦ do
          living ← alive F k o
          elim living [
            | false ↦ pure (false, o)
            | true ↦ do
              attached ← try_attach F k o
              elim attached.0 [
                | true ↦ pure attached
                | false ↦ do
                  gone ← wait_for_exit F k attached.1 100
                  elim gone [ true ↦ pure attached | false ↦ attach_loop attempts attached.1 ]
              ]
          ]
      ]

    abbrev pub Round : Type 0
    Round = Option (Ended × List Report × Observer F)

    report_of : Status → Report
    report_of Status.identity_changed = identity_lost
    report_of _ = sample_lost

    add_report : Report → Round → Round
    add_report r none = none
    add_report r (some (ended, reports, o)) = some (ended, r ∷ reports, o)

    -- The second loop, on fuel; `none` if the fuel is not enough.
    unfoldable pub watch_loop : Options → ℕ → Observer F → M Round
    unfolding stop_requested report_of add_report
    watch_loop options zero o = pure none
    watch_loop options (suc fuel) o = do
      stopped ← stop_requested
      elim stopped [
        | true ↦ pure (some (left, [], o))
        | false ↦ do
          looked ← poll F k o
          elim looked.latest.status [
            | Status.exited ↦ pure (some (left, [], looked))
            | Status.sampled ↦
                if options.once then pure (some (left, observed looked.latest ∷ [], looked)) else do
                  gone ← wait_for_exit F k looked (magnitude options.interval_ms)
                  elim gone [
                    | true ↦ pure (some (left, observed looked.latest ∷ [], looked))
                    | false ↦ do
                      rest ← watch_loop options fuel looked
                      pure (add_report (observed looked.latest) rest)
                  ]
            | other ↦ pure (some (failed (report_of other), [], looked))
          ]
      ]

    -- The destructor of the observer: its session first, then its process handle.
    drop_observer : Observer F → M (Unit {0})
    unfolding drop_session close_handle
    drop_observer o = drop_session o.session >>= λ _. close_handle o.process

    -- Behind the second loop.
    finish_watch : Round → M (Option (ℕ × List Report))
    unfolding drop_observer
    finish_watch none = pure none
    finish_watch (some (failed report, reports, o)) = do
      _ ← drop_observer o
      pure (some (1, reports ++ (report ∷ [])))
    finish_watch (some (left, reports, o)) = do
      living ← alive F k o
      elim living [
        | true ↦ do _ ← drop_observer o; pure (some (0, reports))
        | false ↦ do
          final ← poll F k o
          _ ← drop_observer final
          pure (some (0, reports ++ (process_exited final.latest.watchdog.process_lifecycle ∷ [])))
      ]

    watch_attached : Options → ℕ → Bool × Observer F → M (Option (ℕ × List Report))
    unfolding watch_loop finish_watch drop_observer
    watch_attached options fuel (false, o) = do _ ← drop_observer o; pure (some (1, no_state ∷ []))
    watch_attached options fuel (true, o) = do
      rounds ← watch_loop options fuel o
      finish_watch rounds

    unless_stopped : Options → ℕ → Bool → Bool × Observer F → M (Option (ℕ × List Report))
    unfolding watch_attached drop_observer
    unless_stopped options fuel true attached = do _ ← drop_observer attached.1; pure (some (0, []))
    unless_stopped options fuel false attached = watch_attached options fuel attached

    watch_process : Options → ℕ → Option ProcessHandle → M (Option (ℕ × List Report))
    unfolding attach_loop stop_requested unless_stopped
    watch_process options fuel none = pure (some (1, no_process ∷ []))
    watch_process options fuel (some process) = do
      attached ←
          attach_loop 50
            (new_observer F process (magnitude options.stale_ms * 1_000_000 % u64_mod) clock_ticks)
      stopped ← stop_requested
      unless_stopped options fuel stopped attached

    -- The exit code and the reports, in a run whose second loop makes `fuel` rounds at most.
    unfoldable pub run_console_watch : Options → ℕ → M (Option (ℕ × List Report))
    unfolding ProcessWatch.attach watch_process
    run_console_watch options fuel = do
      process ← ProcessWatch.attach k options.pid
      watch_process options fuel process
