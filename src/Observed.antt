-- ===== src/Observed.antt =====
-- core/src/monitor/observed_process.cpp: one observed process with its watcher's session, the last
-- good sample and the trend of its memory.
pub mod Samples
pub mod Polls
pub mod Ownership
pub mod Gap
pub mod Verdict
use peepbooth.Base.{
  ℕ, ◌+◌, ◌-◌, Option, none, some, Bool, true, false, not, ltb, leb, ◌==◌, ◌||◌, ◌&&◌,
  if◌then◌else◌,
}
use mathlib.Core.Option
use peepbooth.SharedState.{u64_mod}
use peepbooth.Float.{Float}
use peepbooth.ProcFile.{ProcessIdentity, ProcessSample}
use peepbooth.Platform.Kernel.{Kernel, M, ◌>>=◌, ◌>>◌, pure, monotonic_time_ns}
use peepbooth.Platform.ProcessWatch
use peepbooth.Platform.ProcessWatch.{ProcessHandle, sample_process}
use peepbooth.Session
use peepbooth.Session.{
  Session, WatchdogSnapshot, empty_snapshot, snapshot, renew_lease, default_watcher_lease_ns, valid,
}
use peepbooth.Trend.{
  Trend, Summary, no_summary, summary, add, new_trend, default_capacity, default_window_ns,
}
use peepbooth.Health.{Health, classify_health}

pub data Status : Type 0 where
  not_attached sampled sample_unavailable identity_changed exited : Status

abbrev pub same_process : ProcessIdentity → ProcessIdentity → Bool
same_process a b = (a.pid == b.pid) && (a.start_ticks == b.start_ticks)

is_attached : Option Session → Bool
is_attached none = false
is_attached (some session) = valid session

module _ (F : Float) where
  pub record Observation : Type 0 where
    pub identity : ProcessIdentity
    pub observed_at_ns : ℕ
    pub status : Status
    pub watchdog : WatchdogSnapshot
    pub sample : Option ProcessSample
    pub cpu_percent : Option F.Double
    pub memory : Summary F
    pub responsiveness : Option Health

  -- `process_observation {}`
  abbrev pub no_observation : Observation
  no_observation = record {
    identity = record { pid = 0; start_ticks = 0 };
    observed_at_ns = 0;
    status = not_attached;
    watchdog = empty_snapshot;
    sample = none;
    cpu_percent = none;
    memory = no_summary F;
    responsiveness = none;
  }

  pub record Observer : Type 0 where
    pub process : ProcessHandle
    pub session : Option Session
    pub stale_after_ns : ℕ
    pub clock_ticks_per_second : ℕ
    pub previous : Option ProcessSample
    pub memory : Trend
    pub latest : Observation

  -- `clock_ticks` is what the platform's `clock_ticks_per_second` returns.
  unfoldable pub new_observer : ProcessHandle → ℕ → ℕ → Observer
  unfolding new_trend
  new_observer process stale_after_ns clock_ticks = record {
    process = process;
    session = none;
    stale_after_ns = stale_after_ns;
    clock_ticks_per_second = clock_ticks;
    previous = none;
    memory = new_trend default_capacity default_window_ns;
    latest = record no_observation { identity = process.identity };
  }

  -- Load between two samples, if the later one is later and its ticks have not gone back.
  unfoldable pub cpu_percent_of : ℕ → Option ProcessSample → ProcessSample → Option F.Double
  cpu_percent_of clock_ticks none sample = none
  cpu_percent_of clock_ticks (some previous) sample =
      if ltb previous.sampled_at_ns sample.sampled_at_ns && leb previous.cpu_ticks sample.cpu_ticks
      then (let elapsed =
            F.div (F.of_nat (sample.sampled_at_ns - previous.sampled_at_ns))
              (F.of_nat 1_000_000_000) in
          some (
            F.div (F.mul (F.of_nat (sample.cpu_ticks - previous.cpu_ticks)) (F.of_nat 100))
              (F.mul (F.of_nat clock_ticks) elapsed)))
      else none

  -- What every observation starts from.
  abbrev pub fresh : Observer → WatchdogSnapshot → ℕ → Observation
  fresh o watchdog observed_at_ns = record no_observation {
    identity = o.process.identity;
    observed_at_ns = observed_at_ns;
    watchdog = watchdog;
    memory = summary F o.memory;
  }

  accept_good : Observer → ProcessSample → WatchdogSnapshot → ℕ → Observer
  unfolding cpu_percent_of
  accept_good o sample watchdog observed_at_ns =
      let cpu = cpu_percent_of o.clock_ticks_per_second o.previous sample in
      let memory = add o.memory sample.sampled_at_ns sample.memory.rss_bytes in
      record o {
        previous = some sample;
        memory = memory;
        latest = record (fresh o watchdog observed_at_ns) {
          status = sampled;
          sample = some sample;
          cpu_percent = cpu;
          memory = summary F memory;
          responsiveness = some (
              classify_health F watchdog observed_at_ns o.stale_after_ns
                (Option.get_or cpu (F.of_nat 0)));
        };
      }

  unfoldable pub accept_sample : Observer → Option ProcessSample → WatchdogSnapshot → ℕ → Observer
  unfolding accept_good
  accept_sample o none watchdog observed_at_ns = record o {
    previous = none;
    latest = record (fresh o watchdog observed_at_ns) { status = sample_unavailable };
  }
  accept_sample o (some sample) watchdog observed_at_ns =
      if not (same_process sample.identity o.process.identity)
      then record o {
        previous = none;
        latest = record (fresh o watchdog observed_at_ns) { status = identity_changed };
      }
      else accept_good o sample watchdog observed_at_ns

  mark_exited : Observer → Observer
  mark_exited o = record o { latest = record o.latest { status = exited } }

  module _ (k : Kernel) where
    unfoldable pub alive : Observer → M Bool
    alive o = ProcessWatch.alive k o.process

    unfoldable pub wait_for_exit : Observer → ℕ → M Bool
    wait_for_exit o timeout_ms = ProcessWatch.wait_for_exit k o.process timeout_ms

    unfoldable pub try_attach : Observer → M (Bool × Observer)
    unfolding alive is_attached
    try_attach o = if is_attached o.session then pure (true, o) else do
      living ← alive o
      elim living [
        | false ↦ pure (false, o)
        | true ↦ do
          attached ← Session.attach k o.process.identity
          pure (elim attached [ none ↦ false | some _ ↦ true ], record o { session = attached })
      ]

    poll_unattached : Observer → M Observer
    poll_unattached o = do
      now ← monotonic_time_ns k
      pure (record o {
        latest = record no_observation { identity = o.process.identity; observed_at_ns = now };
      })

    -- The sample and the snapshot are taken before the clock is read.
    pub poll_session : Observer → Session → M Observer
    unfolding alive mark_exited accept_sample
    poll_session o session = do
      sample ← sample_process k o.process.identity.pid
      watchdog ← λ w. (snapshot session w.memory, w)
      living ← alive o
      now ← monotonic_time_ns k
      elim living [
        | false ↦ pure (mark_exited (accept_sample o none watchdog now))
        | true ↦ do
          λ w. (tt, record w { memory = renew_lease session now default_watcher_lease_ns w.memory })
          pure (accept_sample o sample watchdog now)
      ]

    unfoldable pub poll : Observer → M Observer
    unfolding is_attached poll_unattached poll_session
    poll o = elim o.session [
      | none ↦ poll_unattached o
      | some session ↦ if valid session then poll_session o session else poll_unattached o
    ]
