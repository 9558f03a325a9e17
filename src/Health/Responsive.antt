-- ===== src/Health/Responsive.antt =====
-- core/src/monitor/watchdog.cpp, `classify_health`: when it takes a process to be at work.
use peepbooth.Base.{ℕ, ◌≡◌, Bool, List, arith}
use peepbooth.Float.{Float}
use peepbooth.Session.{HeartbeatSnapshot, WatchdogSnapshot}
use peepbooth.Health.{Flags, no_flags, scan, decide, classify_health}
use peepbooth.Health.Verdict.{
  any, active, current, current_other, scan-any, active-current-stale, current_other-current,
}
use peepbooth.Health.Stale.{is_responsive}

decide-responsive :
    (now after : ℕ) (hs : List HeartbeatSnapshot) (f : Flags) (busy : Bool)
    → f.any_active ≡ any active hs
    → f.any_current ≡ any (current now after) hs
    → f.non_gui_current ≡ any (current_other now after) hs
    → is_responsive (decide f busy) ≡ any (current now after) hs
unfolding decide
decide-responsive now after hs f busy a c o =
    ground (arith, active-current-stale now after hs, current_other-current now after hs)

-- One current channel is enough, whichever it is.
pub classify_health-responsive :
    (F : Float) (s : WatchdogSnapshot) (now after : ℕ) (cpu : F.Double)
    → is_responsive (classify_health F s now after cpu) ≡ any (current now after) s.heartbeats
unfolding classify_health
classify_health-responsive F s now after cpu =
    let facts = scan-any now after no_flags s.heartbeats in
    decide-responsive now after s.heartbeats (scan now after no_flags s.heartbeats)
      (F.at_least cpu (F.of_nat 20)) facts.0 facts.1 facts.3
