-- ===== src/Tests/Gap.antt =====
-- Two looks that are far apart.
use peepbooth.Base.{◌*◌, ◌≡◌, ◌≢◌, refl, List, [], ◌∷◌, true, arith, length, ℕ_discrete}
use peepbooth.Base.Text.{scan_digits}
use peepbooth.SharedState.{Channel, channel_index}
use peepbooth.ProcFile.{parse_proc_stat, parse_proc_status}
use peepbooth.Platform.Kernel.{Kernel, World}
use peepbooth.Platform.ProcessWatch.{alive, sample_process}
use peepbooth.Client.{set_channel_active, heartbeat}
use peepbooth.Client.Calls.{Call, beat_call, active_call, perform_all, perform}
use peepbooth.Session.{valid, snapshot, renew_lease}
use peepbooth.Health.Verdict.{any, active}
use peepbooth.Observed.{Observer, sampled, exited, poll}
use peepbooth.Observed.Gap.{finds_stalled, called, gap-stalled}
use peepbooth.Tests.Data.{whole}
use peepbooth.Tests.System.{quiet_world}
use peepbooth.Tests.Contract.{mapped, watching}
use peepbooth.Tests.Turns.{both_files, looking}

-- Each call of the kernel takes a second.
abbrev slow : Kernel
slow = record both_files { monotonic = λ h. length h * 1_000_000_000 }

abbrev first : Observer whole
first = (poll whole slow looking quiet_world).0

-- The producer beats all the time that its lease gives it.
abbrev calls : List Call
calls =
    active_call Channel.gui true 6_500_000_000 []
    ∷ beat_call Channel.gui 8_000_000_000 []
    ∷ beat_call Channel.gui 11_000_000_000 []
    ∷ []

abbrev between : World
between = called calls mapped (poll whole slow looking quiet_world).1

abbrev second : Observer whole
second = (poll whole slow first between).0

first_run : (first.latest.status ≡ sampled) × (first.latest.observed_at_ns ≡ 6_000_000_000)
unfolding poll valid alive parse_proc_stat scan_digits sample_process parse_proc_status
first_run = (refl, refl)

second_run :
    (second.latest.status ≡ sampled)
    × (second.latest.observed_at_ns ≡ 12_000_000_000)
    × (any active second.latest.watchdog.heartbeats ≡ true)
unfolding poll valid alive parse_proc_stat scan_digits sample_process parse_proc_status perform_all
    perform set_channel_active heartbeat ℕ_discrete channel_index snapshot renew_lease
second_run = (refl, refl, refl)

first-alive : first.latest.status ≢ exited
first-alive = rw first_run.0 (λ e. cc)

gap-stalled_example : finds_stalled second.latest.responsiveness ≡ true
unfolding valid
gap-stalled_example =
    gap-stalled whole slow looking watching mapped calls 4096 quiet_world refl refl refl refl
      first-alive (omega (arith, first_run.1)) (λ i. omega (arith, first_run.1))
      (omega (arith, first_run.1, second_run.1)) second_run.0 second_run.2
