-- ===== src/GuiHeartbeat.antt =====
-- core/src/monitor/qt/gui_heartbeat.cpp: the object that beats on the `gui` channel while the event
-- loop of a Qt program turns. The timer is Qt's: a record of what the source calls of it. Its signal is
-- joined to `timed_out`, which each turn of the loop after the interval runs.
pub mod Life
use peepbooth.Base.{ℕ, List, Bool, true, false, if◌then◌else◌}
use peepbooth.Base.Int.{ℤ}
use peepbooth.SharedState.{Channel, gui}
use peepbooth.Client.Process.{Process, process_available, process_heartbeat, process_channel_active}

pub record QTimer : Type 1 where
  pub Timer : Type 0
  pub new_timer : Timer
  pub set_interval : ℤ → Timer → Timer
  pub set_coarse : Timer → Timer
  pub connect_timeout : Timer → Timer
  pub start_timer : Timer → Timer
  pub is_active : Timer → Bool

-- The slot of the timer's signal.
unfoldable pub timed_out : Bool → ℕ → List ℕ → Process → Process
timed_out instrumented now failures at = process_heartbeat instrumented gui now failures at

module _ (Q : QTimer) (instrumented : Bool) where
  -- The timer as the constructor leaves it where the process is available.
  unfoldable pub started_timer : ℤ → Q.Timer
  started_timer interval_ms =
      Q.start_timer (Q.connect_timeout (Q.set_coarse (Q.set_interval interval_ms Q.new_timer)))

  -- The constructor. `now` and `failures` are what `set_channel_active` reads.
  unfoldable pub new_gui_heartbeat : ℤ → ℕ → List ℕ → Process → Q.Timer × Process
  unfolding started_timer
  new_gui_heartbeat interval_ms now failures (p, memory) =
      let (is_available, p') = process_available instrumented p in
      if is_available
      then (
        started_timer interval_ms,
        process_channel_active instrumented gui true now failures (p', memory),
      )
      else (Q.new_timer, (p', memory))

  -- The destructor.
  unfoldable pub drop_gui_heartbeat : Q.Timer → ℕ → List ℕ → Process → Process
  drop_gui_heartbeat timer now failures at =
      if Q.is_active timer
      then process_channel_active instrumented gui false now failures at
      else at
