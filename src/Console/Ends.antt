-- ===== src/Console/Ends.antt =====
-- The loops of core/src/monitor/console_watch.cpp, `run_console_watch`: that they end.
use peepbooth.Base.{
  ℕ, zero, suc, ◌+◌, ◌≤◌, ◌≡◌, refl, List, ◌∷◌, Option, none, some, Bool, true, false, arith,
  length, ◌*◌, ◌%◌,
}
use peepbooth.SharedState.{u64_mod}
use peepbooth.Float.{Float}
use peepbooth.Platform.Kernel.{Kernel, World, Call, load_stop}
use peepbooth.Platform.ProcessWatch
use peepbooth.Platform.ProcessWatch.{ProcessHandle, sample_process, read_process_identity}
use peepbooth.Observed.{Observer, poll, alive, wait_for_exit, new_observer}
use peepbooth.CommandLine.{Options}
use peepbooth.Console.{
  failed, left, attach_loop, stop_requested, magnitude, Round, watch_loop, watch_process,
  watch_attached, unless_stopped, finish_watch, run_console_watch,
}

abbrev made : World → ℕ
made w = length w.calls

alive-made : (F : Float) (k : Kernel) (o : Observer F) (w : World) → made w ≤ made (alive F k o w).1
unfolding alive ProcessWatch.alive read_process_identity
alive-made F k o w = grind arith

sample_process-made : (k : Kernel) (pid : ℕ) (w : World) → made w ≤ made (sample_process k pid w).1
unfolding sample_process
sample_process-made k pid w = grind arith

wait_for_exit-made :
    (F : Float) (k : Kernel) (o : Observer F) (timeout : ℕ) (w : World)
    → made w ≤ made (wait_for_exit F k o timeout w).1
unfolding wait_for_exit ProcessWatch.wait_for_exit ProcessWatch.alive read_process_identity
wait_for_exit-made F k o timeout w = grind arith

poll-made : (F : Float) (k : Kernel) (o : Observer F) (w : World) → made w ≤ made (poll F k o w).1
unfolding poll alive ProcessWatch.alive sample_process read_process_identity
poll-made F k o w = grind arith

abbrev pub returned : {A : Type 0} → Option A → Bool
returned none = false
returned (some _) = true

-- The signal has come when `n` calls have been made.
abbrev pub SignalledBy : Kernel → ℕ → Type 0
SignalledBy k n = (h : List Call) → n ≤ length h → k.stopped h ≡ true

-- The world in which a round has looked at the flag.
abbrev looked_at : World → World
looked_at w = record w { calls = load_stop ∷ w.calls }

-- A round ends the loop, or leaves it to the rounds after it.
watch_loop-round :
    (F : Float) (k : Kernel) (ticks : ℕ) (options : Options) (fuel : ℕ) (o : Observer F) (w : World)
    → (let p = poll F k o (looked_at w) in
        let g = wait_for_exit F k p.0 (magnitude options.interval_ms) p.1 in
        returned (watch_loop F k ticks options fuel p.0 g.1).0 ≡ true)
    → returned (watch_loop F k ticks options (suc fuel) o w).0 ≡ true
unfolding watch_loop
watch_loop-round F k ticks options fuel o w rest = grind (arith, rest)

watch_loop-signalled :
    (F : Float) (k : Kernel) (ticks : ℕ) (options : Options) (o : Observer F) (w : World)
    → k.stopped (load_stop ∷ w.calls) ≡ true
    → returned (watch_loop F k ticks options 1 o w).0 ≡ true
unfolding watch_loop
watch_loop-signalled F k ticks options o w signal = rw signal refl

watch_loop-ends :
    (F : Float) (k : Kernel) (ticks n : ℕ) (options : Options)
    → SignalledBy k n
    → (fuel : ℕ) (o : Observer F) (w : World) → n ≤ fuel + made w
    → returned (watch_loop F k ticks options (suc fuel) o w).0 ≡ true
watch_loop-ends F k ticks n options signal zero o w enough =
    watch_loop-signalled F k ticks options o w (signal (load_stop ∷ w.calls) (omega arith))
watch_loop-ends F k ticks n options signal (suc fuel) o w enough =
    let p = poll F k o (looked_at w) in
    let g = wait_for_exit F k p.0 (magnitude options.interval_ms) p.1 in
    watch_loop-round F k ticks options (suc fuel) o w (
      watch_loop-ends F k ticks n options signal fuel p.0 g.1 (
        omega (
          arith,
          enough,
          poll-made F k o (looked_at w),
          wait_for_exit-made F k p.0 (magnitude options.interval_ms) p.1,
        )))

finish_watch-ends :
    (F : Float) (k : Kernel) (ticks : ℕ) (r : Round F k ticks) (w : World)
    → returned r ≡ true
    → returned (finish_watch F k ticks r w).0 ≡ true
unfolding finish_watch
finish_watch-ends F k ticks none w ends = ground (arith, ends)
finish_watch-ends F k ticks (some (failed r, rest, o)) w ends = grind arith
finish_watch-ends F k ticks (some (left, rest, o)) w ends = grind arith

watch_attached-ends :
    (F : Float) (k : Kernel) (ticks n : ℕ) (options : Options)
    → SignalledBy k n
    → (attached : Bool × Observer F) (w : World)
    → returned (watch_attached F k ticks options (suc n) attached w).0 ≡ true
unfolding watch_attached
watch_attached-ends F k ticks n options signal (false, o) w = refl
watch_attached-ends F k ticks n options signal (true, o) w =
    finish_watch-ends F k ticks _ _ (watch_loop-ends F k ticks n options signal n o w (omega arith))

unless_stopped-ends :
    (F : Float) (k : Kernel) (ticks n : ℕ) (options : Options)
    → SignalledBy k n
    → (stopped : Bool) (attached : Bool × Observer F) (w : World)
    → returned (unless_stopped F k ticks options (suc n) stopped attached w).0 ≡ true
unfolding unless_stopped
unless_stopped-ends F k ticks n options signal true attached w = refl
unless_stopped-ends F k ticks n options signal false attached w =
    watch_attached-ends F k ticks n options signal attached w

watch_process-ends :
    (F : Float) (k : Kernel) (ticks n : ℕ) (options : Options)
    → SignalledBy k n
    → (process : Option ProcessHandle) (w : World)
    → returned (watch_process F k ticks options (suc n) process w).0 ≡ true
unfolding watch_process
watch_process-ends F k ticks n options signal none w = refl
watch_process-ends F k ticks n options signal (some process) w =
    let o = new_observer F process (magnitude options.stale_ms * 1_000_000 % u64_mod) ticks in
    let a = attach_loop F k ticks 50 o w in
    let stopped = stop_requested F k ticks a.1 in
    unless_stopped-ends F k ticks n options signal stopped.0 a.0 stopped.1

-- The watch ends. On every kernel, if the signal to stop has come by the time that `n` calls have been
-- made, `run_console_watch` returns within `n + 1` rounds of its second loop, whatever the process does
-- and whichever calls fail.
pub run_console_watch-ends :
    (F : Float) (k : Kernel) (ticks n : ℕ) (options : Options) (w : World)
    → SignalledBy k n
    → returned (run_console_watch F k ticks options (suc n) w).0 ≡ true
unfolding run_console_watch
run_console_watch-ends F k ticks n options w signal =
    watch_process-ends F k ticks n options signal _ _
