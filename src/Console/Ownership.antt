-- ===== src/Console/Ownership.antt =====
-- What core/src/monitor/console_watch.cpp, `run_console_watch`, takes of the kernel in a whole run, and
-- gives back.
use peepbooth.Base.{
  ℕ, zero, suc, ◌*◌, ◌%◌, ◌≡◌, refl, List, [], ◌∷◌, Option, some, none, Bool, true, false, arith,
}
use peepbooth.SharedState.{u64_mod}
use peepbooth.Float.{Float}
use peepbooth.Platform.Kernel.{Kernel, World, load_stop}
use peepbooth.Platform.ProcessWatch
use peepbooth.Platform.ProcessWatch.{
  ProcessHandle, close_handle, sample_process, read_process_identity,
}
use peepbooth.Platform.Resources.{Resource, held, remove_self}
use peepbooth.Session.Ownership.{drop_session, drop_session-held}
use peepbooth.Observed.{Observer, poll, alive, wait_for_exit, try_attach, new_observer}
use peepbooth.Console.Ends.{returned, SignalledBy, run_console_watch-ends}
use peepbooth.Console.{
  attach_loop, watch_loop, magnitude, Report, failed, left, Round, drop_observer, finish_watch,
  watch_attached, unless_stopped, watch_process, run_console_watch, add_report, observed,
}
use peepbooth.CommandLine.{Options}
use peepbooth.Observed.Ownership.{
  alive-held, wait_for_exit-held, poll-Owns, try_attach-Owns, same-Owns, observer_owned, Owns,
  process_attach-held, handle_owned, handle_owned_if, session_ok,
}

abbrev looked_at : World → World
looked_at w = record w { calls = load_stop ∷ w.calls }

looked_at-held : (k : Kernel) (w : World) → held k (looked_at w).calls ≡ held k w.calls
looked_at-held k w = unfold held in refl

module _ (F : Float) (k : Kernel) where
  module _ (ticks : ℕ) where
    attach_loop-Owns :
        (rest : List Resource) (rounds : ℕ) (o : Observer F) (w : World)
        → Owns F k rest o w
        → Owns F k rest (attach_loop F k ticks rounds o w).0.1 (attach_loop F k ticks rounds o w).1
    unfolding attach_loop
    attach_loop-Owns rest zero o w owns = owns
    attach_loop-Owns rest (suc rounds) o w owns =
        let w1 = looked_at w in
        let owns1 : Owns F k rest o w1 = same-Owns F k rest o w w1 (looked_at-held k w) owns in
        let w2 = (alive F k o w1).1 in
        let owns2 : Owns F k rest o w2 = same-Owns F k rest o w1 w2 (alive-held F k o w1) owns1 in
        let t = try_attach F k o w2 in
        let owns3 : Owns F k rest t.0.1 t.1 = try_attach-Owns F k rest o w2 owns2 in
        let w4 = (wait_for_exit F k t.0.1 100 t.1).1 in
        let owns4 : Owns F k rest t.0.1 w4 =
          same-Owns F k rest t.0.1 t.1 w4 (wait_for_exit-held F k t.0.1 100 t.1) owns3 in
        let owns5 = attach_loop-Owns rest rounds t.0.1 w4 owns4 in
        (
          grind (arith, owns1.0, owns2.0, owns3.0, owns4.0, owns5.0),
          grind (arith, owns.1, owns3.1, owns5.1),
        )

    -- What the observer of a loop that has ended owns, and whether its session is good.
    abbrev round_owned : Round F k ticks → List Resource → List Resource
    round_owned none rest = []
    round_owned (some (ended, reports, o)) rest = observer_owned F k o rest

    abbrev round_ok : Round F k ticks → Bool
    round_ok none = true
    round_ok (some (ended, reports, o)) = session_ok o.session

    add_report-owned :
        (report : Report F) (r : Round F k ticks) (rest : List Resource)
        → round_owned (add_report F k ticks report r) rest ≡ round_owned r rest
    unfolding add_report
    add_report-owned report none rest = refl
    add_report-owned report (some (ended, reports, o)) rest = refl

    add_report-ok :
        (report : Report F) (r : Round F k ticks)
        → round_ok (add_report F k ticks report r) ≡ round_ok r
    unfolding add_report
    add_report-ok report none = refl
    add_report-ok report (some (ended, reports, o)) = refl

    add_report-returned :
        (report : Report F) (r : Round F k ticks)
        → returned (add_report F k ticks report r) ≡ returned r
    unfolding add_report
    add_report-returned report none = refl
    add_report-returned report (some (ended, reports, o)) = refl

    abbrev RoundOwns : List Resource → Round F k ticks → World → Type 0
    RoundOwns rest r w =
        (returned r ≡ true → held k w.calls ≡ round_owned r rest) × (round_ok r ≡ true)

    watch_loop-RoundOwns :
        (rest : List Resource) (options : Options) (fuel : ℕ) (o : Observer F) (w : World)
        → Owns F k rest o w
        → RoundOwns rest
            (watch_loop F k ticks options fuel o w).0
            (watch_loop F k ticks options fuel o w).1
    unfolding watch_loop
    watch_loop-RoundOwns rest options zero o w owns = (λ e. cc, refl)
    watch_loop-RoundOwns rest options (suc fuel) o w owns =
        let w1 = looked_at w in
        let owns1 : Owns F k rest o w1 = same-Owns F k rest o w w1 (looked_at-held k w) owns in
        let p = poll F k o w1 in
        let owns2 : Owns F k rest p.0 p.1 = poll-Owns F k rest o w1 owns1 in
        let w3 = (wait_for_exit F k p.0 (magnitude options.interval_ms) p.1).1 in
        let owns3 : Owns F k rest p.0 w3 =
          same-Owns F k rest p.0 p.1 w3
            (wait_for_exit-held F k p.0 (magnitude options.interval_ms) p.1) owns2 in
        let more = watch_loop-RoundOwns rest options fuel p.0 w3 owns3 in
        let r = (watch_loop F k ticks options fuel p.0 w3).0 in
        let report = observed p.0.latest in
        (
          λ done. grind (
            arith,
            done,
            owns1.0,
            owns2.0,
            owns3.0,
            more.0,
            add_report-owned report r rest,
            add_report-returned report r,
          ),
          grind (arith, owns.1, owns2.1, more.1, add_report-ok report r),
        )

    close_handle-held :
        (rest : List Resource) (p : ProcessHandle) (w : World)
        → held k w.calls ≡ handle_owned p rest
        → held k (close_handle p w).1.calls ≡ rest
    unfolding close_handle held
    close_handle-held rest p w before = grind (arith, before, remove_self)

    drop_observer-held :
        (rest : List Resource) (o : Observer F) (w : World)
        → Owns F k rest o w
        → held k (drop_observer F k ticks o w).1.calls ≡ rest
    unfolding drop_observer
    drop_observer-held rest o w owns =
        close_handle-held rest o.process (drop_session o.session w).1
          (drop_session-held k o.session (handle_owned o.process rest) w owns.0)

    finish_watch-held :
        (rest : List Resource) (r : Round F k ticks) (w : World)
        → RoundOwns rest r w
        → returned (finish_watch F k ticks r w).0 ≡ true
        → held k (finish_watch F k ticks r w).1.calls ≡ rest
    unfolding finish_watch
    finish_watch-held rest none w owns done = cc
    finish_watch-held rest (some (failed report, reports, o)) w owns done =
        drop_observer-held rest o w (owns.0 refl, owns.1)
    finish_watch-held rest (some (left, reports, o)) w owns done =
        let w1 = (alive F k o w).1 in
        let owns1 : Owns F k rest o w1 =
          same-Owns F k rest o w w1 (alive-held F k o w) (owns.0 refl, owns.1) in
        let p = poll F k o w1 in
        grind (
          arith,
          drop_observer-held rest o w1 owns1,
          drop_observer-held rest p.0 p.1 (poll-Owns F k rest o w1 owns1),
        )

    watch_attached-held :
        (rest : List Resource) (options : Options) (fuel : ℕ) (attached : Bool × Observer F)
        (w : World)
        → Owns F k rest attached.1 w
        → returned (watch_attached F k ticks options fuel attached w).0 ≡ true
        → held k (watch_attached F k ticks options fuel attached w).1.calls ≡ rest
    unfolding watch_attached
    watch_attached-held rest options fuel (false, o) w owns done = drop_observer-held rest o w owns
    watch_attached-held rest options fuel (true, o) w owns done =
        let r = watch_loop F k ticks options fuel o w in
        finish_watch-held rest r.0 r.1 (watch_loop-RoundOwns rest options fuel o w owns) done

    unless_stopped-held :
        (rest : List Resource) (options : Options) (fuel : ℕ) (stopped : Bool)
        (attached : Bool × Observer F) (w : World)
        → Owns F k rest attached.1 w
        → returned (unless_stopped F k ticks options fuel stopped attached w).0 ≡ true
        → held k (unless_stopped F k ticks options fuel stopped attached w).1.calls ≡ rest
    unfolding unless_stopped
    unless_stopped-held rest options fuel true attached w owns done =
        drop_observer-held rest attached.1 w owns
    unless_stopped-held rest options fuel false attached w owns done =
        watch_attached-held rest options fuel attached w owns done

    new_observer-Owns :
        (rest : List Resource) (p : ProcessHandle) (stale_after : ℕ) (w : World)
        → held k w.calls ≡ handle_owned p rest
        → Owns F k rest (new_observer F p stale_after ticks) w
    unfolding new_observer
    new_observer-Owns rest p stale_after w before = (before, refl)

    watch_process-held :
        (rest : List Resource) (options : Options) (fuel : ℕ) (process : Option ProcessHandle)
        (w : World)
        → held k w.calls ≡ handle_owned_if process rest
        → returned (watch_process F k ticks options fuel process w).0 ≡ true
        → held k (watch_process F k ticks options fuel process w).1.calls ≡ rest
    unfolding watch_process
    watch_process-held rest options fuel none w before done = before
    watch_process-held rest options fuel (some p) w before done =
        let stale_after = magnitude options.stale_ms * 1_000_000 % u64_mod in
        let o = new_observer F p stale_after ticks in
        let a = attach_loop F k ticks 50 o w in
        let owns = attach_loop-Owns rest 50 o w (new_observer-Owns rest p stale_after w before) in
        unless_stopped-held rest options fuel (k.stopped (load_stop ∷ a.1.calls)) a.0
          (looked_at a.1) (same-Owns F k rest a.0.1 a.1 (looked_at a.1) (looked_at-held k a.1) owns)
          done

    run_console_watch-held :
        (options : Options) (fuel : ℕ) (w : World)
        → returned (run_console_watch F k ticks options fuel w).0 ≡ true
        → held k (run_console_watch F k ticks options fuel w).1.calls ≡ held k w.calls
    unfolding run_console_watch
    run_console_watch-held options fuel w done =
        let p = ProcessWatch.attach k options.pid w in
        watch_process-held (held k w.calls) options fuel p.0 p.1
          (process_attach-held k options.pid w) done

-- A watch gives back all that it takes. On every kernel, whichever of its calls fail, if the signal to
-- stop has come by the time that `n` calls have been made, `run_console_watch` returns with the
-- descriptors, mappings and names held that were held before, on every one of its ways out.
pub run_console_watch-restores :
    (F : Float) (k : Kernel) (ticks n : ℕ) (options : Options) (w : World)
    → SignalledBy k n
    → let r = run_console_watch F k ticks options (suc n) w in
      (returned r.0 ≡ true) × (held k r.1.calls ≡ held k w.calls)
run_console_watch-restores F k ticks n options w signal =
    let done = run_console_watch-ends F k ticks n options w signal in
    (done, run_console_watch-held F k ticks options (suc n) w done)
