-- ===== src/Health/Stale.antt =====
-- core/src/monitor/watchdog.cpp, `classify_health`, on a snapshot with no current heartbeat.
use peepbooth.Base.{ℕ, ◌+◌, ◌<◌, ◌≤◌, ◌≡◌, refl, ◌∙◌, List, [], ◌∷◌, Bool, true, false, arith, ◌&&◌}
use peepbooth.Health.Verdict.{any, active, scan-any}
use peepbooth.Float.{Float}
use peepbooth.Session.{HeartbeatSnapshot, WatchdogSnapshot}
use peepbooth.Health.{
  Health, healthy, degraded, gui_stalled, globally_stalled_idle, globally_stalled_busy, Flags,
  no_flags, note, scan, decide, classify_health, is_stale,
}

-- Some channel is taken to be at work.
abbrev pub is_responsive : Health → Bool
is_responsive healthy = true
is_responsive degraded = true
is_responsive gui_stalled = true
is_responsive _ = false

abbrev pub all_stale : ℕ → ℕ → List HeartbeatSnapshot → Bool
all_stale now stale_after [] = true
all_stale now stale_after (h ∷ hs) = is_stale now stale_after h && all_stale now stale_after hs

scan-all_stale :
    (now stale_after : ℕ) (f : Flags) (hs : List HeartbeatSnapshot)
    → all_stale now stale_after hs ≡ true
    → f.any_current ≡ false
    → f.non_gui_current ≡ false
    → ((scan now stale_after f hs).any_current ≡ false)
      × ((scan now stale_after f hs).non_gui_current ≡ false)
unfolding scan note
scan-all_stale now stale_after f [] h any non = (any, non)
scan-all_stale now stale_after f (b ∷ hs) h any non =
    scan-all_stale now stale_after (note now stale_after f b) hs (ground (arith, h))
      (ground (arith, h, any)) (ground (arith, h, non))

pub old-is_stale :
    (now stale_after until : ℕ) (h : HeartbeatSnapshot)
    → h.timestamp_ns ≤ until
    → until + stale_after < now
    → is_stale now stale_after h ≡ true
old-is_stale now stale_after until h old late = ground arith

-- The verdicts that say that no channel which is switched on is at work.
abbrev pub is_globally_stalled : Health → Bool
is_globally_stalled globally_stalled_idle = true
is_globally_stalled globally_stalled_busy = true
is_globally_stalled _ = false

decide-globally :
    (f : Flags) (busy : Bool)
    → f.any_active ≡ true
    → f.any_current ≡ false
    → f.non_gui_current ≡ false
    → is_globally_stalled (decide f busy) ≡ true
unfolding decide
decide-globally f busy on any non = ground (arith, on, any, non)

pub classify_health-globally :
    (F : Float) (snapshot : WatchdogSnapshot) (now stale_after : ℕ) (cpu : F.Double)
    → any active snapshot.heartbeats ≡ true
    → all_stale now stale_after snapshot.heartbeats ≡ true
    → is_globally_stalled (classify_health F snapshot now stale_after cpu) ≡ true
unfolding classify_health
classify_health-globally F snapshot now stale_after cpu on h =
    let (current, non) = scan-all_stale now stale_after no_flags snapshot.heartbeats h refl refl in
    decide-globally (scan now stale_after no_flags snapshot.heartbeats)
      (F.at_least cpu (F.of_nat 20))
      ((scan-any now stale_after no_flags snapshot.heartbeats).0 ∙ on) current non
