-- ===== src/Console/Print.antt =====
-- core/src/monitor/console_watch.cpp, `write_console_observation`, and the messages of
-- `run_console_watch`: the bytes that each report is printed as.
use mathlib.Core.Option
use peepbooth.Base.{
  ℕ, ◌+◌, ◌-◌, List, [], ◌∷◌, ◌++◌, none, some, Bool, true, false, ◌==◌, leb, if◌then◌else◌, length,
  drop,
}
use peepbooth.Base.Text.{Text, codes, to_string}
use peepbooth.Base.Int.{ℤ, pos, negsuc}
use peepbooth.SharedState.{Breadcrumb, lifecycle_raw}
use peepbooth.Float.{Float}
use peepbooth.ProcFile.{ProcessSample}
use peepbooth.Session.{HeartbeatSnapshot}
use peepbooth.Trend.{Summary}
use peepbooth.Health.{Health, health_name, channel_name, event_name}
use peepbooth.Observed.{Observation, Status}
use peepbooth.Console.{
  Report, observed, process_exited, usage, no_process, no_state, identity_lost, sample_lost,
}

-- Pieces of a line, one behind the other.
abbrev pub joined : List Text → Text
joined [] = []
joined (piece ∷ pieces) = piece ++ joined pieces

unfoldable pub name_text : Text → Text
name_text [] = codes "process"
name_text (c ∷ name) = c ∷ name

abbrev pub breadcrumb_pieces : Breadcrumb → List Text
breadcrumb_pieces b =
    codes " "
    ∷ event_name b.event_id
    ∷ codes "(source="
    ∷ to_string b.source_id
    ∷ codes ",arg0="
    ∷ to_string b.arg0
    ∷ codes ",arg1="
    ∷ to_string b.arg1
    ∷ codes ")"
    ∷ []

unfoldable pub breadcrumb_text : Breadcrumb → Text
breadcrumb_text b = joined (breadcrumb_pieces b)

unfoldable pub breadcrumb_texts : List Breadcrumb → Text
unfolding breadcrumb_text
breadcrumb_texts [] = []
breadcrumb_texts (b ∷ bs) = breadcrumb_text b ++ breadcrumb_texts bs

-- The last eight, if there are more.
unfoldable pub recent_lines : List Breadcrumb → Text
unfolding breadcrumb_texts
recent_lines [] = []
recent_lines (b ∷ bs) =
    codes "  recent:" ++ (breadcrumb_texts (drop (length (b ∷ bs) - 8) (b ∷ bs)) ++ (b'\n' ∷ []))

module _ (F : Float) where
  abbrev pub mib : ℕ → F.Double
  mib bytes = F.div (F.of_nat bytes) (F.mul (F.of_nat 1024) (F.of_nat 1024))

  -- The change of the size with its sign.
  abbrev pub signed_mib : ℤ → F.Double
  signed_mib (pos bytes) = mib bytes
  signed_mib (negsuc bytes) = F.neg (mib (bytes + 1))

  abbrev pub trend_pieces : Summary F → List Text
  trend_pieces trend =
      codes " rss_trend="
      ∷ F.fixed true 1 (signed_mib trend.rss_delta_bytes)
      ∷ codes "MiB sustained_growth="
      ∷ (if trend.sustained_growth then codes "yes" else codes "no")
      ∷ []

  unfoldable pub trend_text : Summary F → Text
  trend_text trend = if trend.duration_ns == 0 then [] else joined (trend_pieces trend)

  abbrev pub state_pieces : Observation F → ProcessSample → Health → List Text
  state_pieces o sample health =
      name_text o.watchdog.process_name
      ∷ codes "["
      ∷ to_string o.identity.pid
      ∷ codes "] state="
      ∷ health_name health
      ∷ codes " cpu="
      ∷ F.fixed false 1 (Option.get_or o.cpu_percent (F.of_nat 0))
      ∷ codes "% rss="
      ∷ F.fixed false 1 (mib sample.memory.rss_bytes)
      ∷ codes "MiB hwm="
      ∷ F.fixed false 1 (mib sample.memory.high_water_bytes)
      ∷ codes "MiB swap="
      ∷ F.fixed false 1 (mib sample.memory.swap_bytes)
      ∷ codes "MiB"
      ∷ trend_text o.memory
      ∷ []

  unfoldable pub state_line : Observation F → ProcessSample → Health → Text
  unfolding trend_text name_text
  state_line o sample health = joined (state_pieces o sample health)

  -- The age in seconds; below 0 for a channel that has not beaten yet.
  abbrev pub age : ℕ → HeartbeatSnapshot → F.Double
  age now h =
      if h.timestamp_ns == 0
      then F.neg (F.of_nat 1)
      else F.div (F.of_nat (if leb h.timestamp_ns now then now - h.timestamp_ns else 0))
          (F.of_nat 1_000_000_000)

  abbrev pub age_text : F.Double → Text
  age_text seconds =
      if F.less seconds (F.of_nat 0) then codes "pending" else F.fixed false 3 seconds ++ codes "s"

  abbrev pub heartbeat_pieces : ℕ → HeartbeatSnapshot → List Text
  heartbeat_pieces now h = codes " " ∷ channel_name h.id ∷ codes "=" ∷ age_text (age now h) ∷ []

  unfoldable pub heartbeat_text : ℕ → HeartbeatSnapshot → Text
  heartbeat_text now h = if h.active then joined (heartbeat_pieces now h) else []

  unfoldable pub heartbeat_texts : ℕ → List HeartbeatSnapshot → Text
  unfolding heartbeat_text
  heartbeat_texts now [] = []
  heartbeat_texts now (h ∷ hs) = heartbeat_text now h ++ heartbeat_texts now hs

  unfoldable pub observation_text : Observation F → ProcessSample → Health → Text
  unfolding state_line heartbeat_texts recent_lines
  observation_text o sample health =
      state_line o sample health
      ++ (b'\n'
          ∷ ((codes "  heartbeat:" ++ heartbeat_texts o.observed_at_ns o.watchdog.heartbeats)
              ++ (b'\n' ∷ recent_lines o.watchdog.breadcrumbs)))

  abbrev is_sampled : Status → Bool
  is_sampled Status.sampled = true
  is_sampled _ = false

  unfoldable pub write_console_observation : Observation F → Text
  unfolding observation_text
  write_console_observation o = elim o.sample [
    | none ↦ []
    | some sample ↦ elim o.responsiveness [
      | none ↦ []
      | some health ↦ if is_sampled o.status then observation_text o sample health else []
    ]
  ]

  -- The message of a report, for a watch of the process `pid`.
  unfoldable pub report_text : ℕ → Report F → Text
  unfolding write_console_observation
  report_text pid (observed o) = write_console_observation o
  report_text pid (process_exited lifecycle) =
      codes "process exited; attached-process exit code/signal unavailable lifecycle="
      ++ (to_string (lifecycle_raw lifecycle) ++ codes "\n")
  report_text pid usage =
      codes "usage: monitor --pid PID [--interval-ms N] [--stale-ms N] [--once]\n"
  report_text pid no_process =
      codes "monitor: PID " ++ (to_string pid ++ codes " does not identify a running process\n")
  report_text pid no_state =
      codes "monitor: PID " ++ (to_string pid ++ codes " has no compatible watchdog state\n")
  report_text pid identity_lost =
      codes "monitor: PID " ++ (to_string pid ++ codes " process identity changed\n")
  report_text pid sample_lost =
      codes "monitor: PID " ++ (to_string pid ++ codes " resource sample unavailable\n")
