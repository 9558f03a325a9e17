-- ===== src/Tests/Data.antt =====
-- The data of the tests.
use peepbooth.Base.{ℕ, ◌+◌, ◌-◌, ◌*◌, ◌/◌, List, [], ◌∷◌, Bool, true, false, none, ltb, leb}
use peepbooth.Base.Text.{codes, to_string}
use peepbooth.SharedState.{SharedState, Breadcrumb, Channel, Lifecycle, initial_state}
use peepbooth.Session.{HeartbeatSnapshot, WatchdogSnapshot}
use peepbooth.Float.{Float}
use peepbooth.Trend.{Point, Trend, new_trend}
use peepbooth.ProcFile.{ProcessIdentity, ProcessSample}
use peepbooth.Observed.{Observer, new_observer}
use peepbooth.Client.{Client}
use peepbooth.Platform.SharedMemory.{no_mapping}

-- Whole numbers in the place of `double`.
abbrev pub whole : Float
whole = record {
  Double = ℕ;
  of_nat = λ n. n;
  add = λ a b. a + b;
  sub = λ a b. a - b;
  mul = λ a b. a * b;
  div = λ a b. a / b;
  less = λ a b. ltb a b;
  at_least = λ a b. leb b a;
  neg = λ a. 0;
  fixed = λ sign digits a. to_string a;
}

abbrev pub loaded : Breadcrumb
loaded = record { timestamp_ns = 700; event_id = 10; flags = 3; source_id = 5; arg0 = 7; arg1 = 9 }

abbrev pub started : Breadcrumb
started = record { timestamp_ns = 800; event_id = 22; flags = 0; source_id = 6; arg0 = 1; arg1 = 2 }

-- A fresh record with a lease up to 1000.
abbrev pub leased : SharedState
leased = record initial_state { watcher_present = 1; watcher_lease_until_ns = 1000 }

abbrev pub producer : Client
producer = record { built = true; mapping = no_mapping; next_heartbeat_ns = λ _. 0; state = none }

abbrev pub channel_at : Channel → Bool → ℕ → HeartbeatSnapshot
channel_at id active time = record { id = id; active = active; timestamp_ns = time; sequence = 1 }

-- The GUI is silent while the core goes on.
abbrev pub stalled_gui : WatchdogSnapshot
stalled_gui = record {
  process_name = codes "sample";
  process_lifecycle = Lifecycle.running;
  heartbeats =
      channel_at Channel.main false 0
      ∷ channel_at Channel.gui true 100
      ∷ channel_at Channel.core true 950
      ∷ channel_at Channel.worker false 0
      ∷ [];
  breadcrumbs = [];
}

abbrev pub point : ℕ → ℕ → Point
point time rss = record { timestamp_ns = time; rss_bytes = rss }

abbrev pub samples : List Point
samples = point 1 1000 ∷ point 3 1100 ∷ point 2 9000 ∷ point 6 1200 ∷ point 9 1300 ∷ []

-- A startup allocation, then a plateau.
abbrev pub plateau : Trend
plateau = record {
  capacity = 120;
  window_ns = 10;
  points = point 1 1000 ∷ point 2 3000 ∷ point 3 5000 ∷ point 4 5000 ∷ point 20 5000 ∷ [];
}

abbrev pub watched_process : ProcessIdentity
watched_process = record { pid = 42; start_ticks = 77 }

abbrev pub sample_at : ℕ → ℕ → ℕ → ProcessSample
sample_at pid time rss = record {
  identity = record { pid = pid; start_ticks = 77 };
  memory = record { rss_bytes = rss; high_water_bytes = rss; swap_bytes = 0 };
  cpu_ticks = time;
  sampled_at_ns = time;
}

unfoldable pub observer : Observer whole
unfolding new_observer new_trend
observer = new_observer whole (record { identity = watched_process; pid_descriptor = none }) 100 100
