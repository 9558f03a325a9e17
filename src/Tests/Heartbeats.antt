-- ===== src/Tests/Heartbeats.antt =====
-- One heartbeat slot under interference, and the record of a new producer.
use peepbooth.Base.{arith, ℕ, ◌*◌, ◌≡◌, ◌≤◌, refl, [], ◌∷◌, some, none, take, ℕ_discrete}
use peepbooth.Base.Text.{codes}
use peepbooth.SharedState.{HeartbeatSlot, Channel, Lifecycle, empty_heartbeat}
use peepbooth.Health.{classify_health, awaiting_heartbeat}
use peepbooth.Platform.SharedMemory.{created_state}
use peepbooth.Session.{Attempt, snapshot_of, read_heartbeat}
use peepbooth.Session.Handshake.{created_state-snapshot}
use peepbooth.Heartbeat.{
  attempting, returned, next_attempt, load_step, Beating, Reach, start, later, publish, stamp,
  begin, load,
}
use peepbooth.Heartbeat.Loads.{found, FirstAgreeing, load_all, result_of, load_all-read_heartbeat}
use peepbooth.Heartbeat.Fresh.{returned-issued}
use peepbooth.Heartbeat.Late.{late-older}
use peepbooth.Tests.Data.{whole}
use peepbooth.Tests.System.{granting}

abbrev beaten : ℕ → HeartbeatSlot
beaten n = record empty_heartbeat { active = 1; timestamp_ns = n * 1000; sequence = n }

-- A beat falls into the first attempt.
load_all-read_heartbeat_example :
    (result_of Channel.gui (
        load_all (attempting 0) (
          beaten 1
          ∷ beaten 1
          ∷ beaten 2
          ∷ beaten 2
          ∷ beaten 2
          ∷ beaten 2
          ∷ beaten 2
          ∷ beaten 2
          ∷ beaten 3
          ∷ beaten 3
          ∷ beaten 3
          ∷ beaten 3
          ∷ []))
      ≡ some (
          read_heartbeat Channel.gui
            (found (beaten 1) (beaten 1) (beaten 2) (beaten 2))
            (found (beaten 2) (beaten 2) (beaten 2) (beaten 2))
            (found (beaten 3) (beaten 3) (beaten 3) (beaten 3))))
    × FirstAgreeing Channel.gui
        (beaten 1)
        (beaten 1)
        (beaten 2)
        (beaten 2)
        (beaten 2)
        (beaten 2)
        (beaten 2)
        (beaten 2)
        (beaten 3)
        (beaten 3)
        (beaten 3)
        (beaten 3)
        (read_heartbeat Channel.gui
          (found (beaten 1) (beaten 1) (beaten 2) (beaten 2))
          (found (beaten 2) (beaten 2) (beaten 2) (beaten 2))
          (found (beaten 3) (beaten 3) (beaten 3) (beaten 3)))
load_all-read_heartbeat_example =
    load_all-read_heartbeat Channel.gui (beaten 1) (beaten 1) (beaten 2) (beaten 2) (beaten 2)
      (beaten 2) (beaten 2) (beaten 2) (beaten 3) (beaten 3) (beaten 3) (beaten 3)

-- The watcher looks at the number and the flag, then a thread stores the time of heartbeat 1, and the
-- watcher reads that time behind the old number.
abbrev seen : Attempt
seen = record { before = 0; active = 1; timestamp_ns = 700; after = 0 }

abbrev overtaken : (s : Beating) × Reach 1 s × (s.reader ≡ returned seen) × (s.issued 1 ≡ 700)
unfolding load_step next_attempt ℕ_discrete
overtaken = (
  _,
  later
      (later
        (later
          (later (later (later (later start (publish 0 700 (omega arith) refl)) begin) load) load)
          (stamp 0 700 (omega arith) refl))
        load)
      load,
  refl,
  refl,
)

returned-issued_example :
    (0 ≤ overtaken.0.slot.sequence) × ((m : ℕ) × (0 ≤ m) × (m ≤ 1) × (700 ≡ overtaken.0.issued m))
returned-issued_example = returned-issued overtaken.1 seen overtaken.2

late-older_example :
    (s : Beating) × Reach 2 s
    × (s.issued 1 ≡ 500_000_700)
    × (s.reader ≡ returned (record { before = 2; active = 1; timestamp_ns = 700; after = 2 }))
late-older_example = late-older 700 500_000_700 (omega arith) (omega arith)

created_state-snapshot_example :
    let made = snapshot_of (created_state granting (codes "sample") none) in
    (made.process_name ≡ take 31 (codes "sample"))
    × (made.process_lifecycle ≡ Lifecycle.running)
    × (made.breadcrumbs ≡ [])
    × (classify_health whole made 500 100 0 ≡ awaiting_heartbeat)
created_state-snapshot_example =
    created_state-snapshot whole granting (codes "sample") none 500 100 0 refl
