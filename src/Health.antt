-- ===== src/Health.antt =====
-- core/src/monitor/watchdog.cpp, lines 251 to 335: the verdict on a snapshot, and the names that the
-- console prints.
pub mod Verdict
pub mod Stale
pub mod Responsive
use peepbooth.Base.{
  ℕ, ◌-◌, List, [], ◌∷◌, Bool, true, false, not, ◌==◌, ltb, leb, ◌||◌, ◌&&◌, if◌then◌else◌,
}
use peepbooth.Base.Text.{Text, codes}
use peepbooth.SharedState.{Channel, channel_raw}
use peepbooth.Session.{HeartbeatSnapshot, WatchdogSnapshot}
use peepbooth.Float.{Float}

pub data Health : Type 0 where
  awaiting_heartbeat healthy degraded gui_stalled globally_stalled_idle globally_stalled_busy :
      Health

pub record Flags : Type 0 where
  pub any_active : Bool
  pub any_current : Bool
  pub any_stale : Bool
  pub gui_active : Bool
  pub gui_stale : Bool
  pub non_gui_current : Bool

abbrev pub no_flags : Flags
no_flags = record {
  any_active = false;
  any_current = false;
  any_stale = false;
  gui_active = false;
  gui_stale = false;
  non_gui_current = false;
}

abbrev pub is_stale : ℕ → ℕ → HeartbeatSnapshot → Bool
is_stale now_ns stale_after_ns h =
    (h.timestamp_ns == 0)
    || (leb h.timestamp_ns now_ns && ltb stale_after_ns (now_ns - h.timestamp_ns))

abbrev pub is_gui : HeartbeatSnapshot → Bool
is_gui h = channel_raw h.id == channel_raw Channel.gui

-- The body of the loop. The difference is taken where `now_ns` is not the smaller.
note : ℕ → ℕ → Flags → HeartbeatSnapshot → Flags
note now_ns stale_after_ns f h =
    let stale = is_stale now_ns stale_after_ns h in
    let seen : Flags = record f {
      any_active = true;
      any_current = f.any_current || not stale;
      any_stale = f.any_stale || stale;
    } in
    if not h.active
    then f
    else if is_gui h
    then record seen { gui_active = true; gui_stale = stale }
    else record seen { non_gui_current = f.non_gui_current || not stale }

unfoldable pub scan : ℕ → ℕ → Flags → List HeartbeatSnapshot → Flags
unfolding note
scan now_ns stale_after_ns f [] = f
scan now_ns stale_after_ns f (h ∷ hs) =
    scan now_ns stale_after_ns (note now_ns stale_after_ns f h) hs

-- The tests after the loop. `busy` is `cpu_percent >= 20.0`.
decide : Flags → Bool → Health
decide f busy =
    if not f.any_active
    then awaiting_heartbeat
    else if f.gui_active && f.gui_stale && f.non_gui_current
    then gui_stalled
    else if not f.any_current
    then (if busy then globally_stalled_busy else globally_stalled_idle)
    else if f.any_stale
    then degraded
    else healthy

module _ (F : Float) where
  unfoldable pub classify_health : WatchdogSnapshot → ℕ → ℕ → F.Double → Health
  unfolding scan decide
  classify_health snapshot now_ns stale_after_ns cpu_percent =
      decide (scan now_ns stale_after_ns no_flags snapshot.heartbeats)
        (F.at_least cpu_percent (F.of_nat 20))

unfoldable pub health_name : Health → Text
health_name awaiting_heartbeat = codes "AWAITING_HEARTBEAT"
health_name healthy = codes "HEALTHY"
health_name degraded = codes "DEGRADED"
health_name gui_stalled = codes "GUI_STALLED"
health_name globally_stalled_idle = codes "STALLED_IDLE"
health_name globally_stalled_busy = codes "STALLED_BUSY"

unfoldable pub channel_name : Channel → Text
channel_name value =
    let raw = channel_raw value in
    if raw == 1
    then codes "main"
    else if raw == 2
    then codes "gui"
    else if raw == 3
    then codes "core"
    else if raw == 4
    then codes "worker"
    else codes "unknown"

unfoldable pub event_name : ℕ → Text
event_name value =
    if value == 10
    then codes "configuration.loaded"
    else if value == 12
    then codes "output.ready"
    else if value == 22
    then codes "stream.started"
    else if value == 23
    then codes "stream.stopped"
    else codes "unknown"
