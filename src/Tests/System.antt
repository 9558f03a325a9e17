-- ===== src/Tests/System.antt =====
-- The platform and what stands on it, on a kernel that grants every call.
use peepbooth.Base.{◌≡◌, refl, [], some, none, true, false, ℕ_discrete, leb, length}
use peepbooth.Base.Text.{codes, from_chars, scan_digits}
use peepbooth.SharedState.{size_of_shared_state}
use peepbooth.ProcFile.{ProcessIdentity, parse_proc_stat}
use peepbooth.Platform.Kernel.{Kernel, World, ◌>>=◌}
use peepbooth.Platform.SharedMemory.{no_mapping, shared_memory_name}
use peepbooth.Platform.Resources.{held, remove, segment}
use peepbooth.Client.{start, stop}
use peepbooth.Client.Ownership.{start-stop}
use peepbooth.Session.{attach, valid_state, renew_lease}
use peepbooth.Session.Ownership.{attach-release, session_owned, drop_session}
use peepbooth.Tests.Data.{producer, leased}

-- Descriptor 3, address 4096, and one stat file for every name.
abbrev pub granting : Kernel
granting = record {
  descriptor = λ _. some 3;
  succeeds = λ _. true;
  metadata = λ _. some (record { st_size = size_of_shared_state; st_uid = 1000 });
  address = λ _. some 4096;
  contents = λ _. some (codes "42 (a) S 1 2 3 4 5 6 7 8 9 10 11 12 13 14 15 16 17 18 190 20");
  monotonic = λ _. 500;
  readable = λ _. false;
  missing = λ _. false;
  stopped = λ _. false;
  process_id = 42;
  user_id = 1000;
}

abbrev pub quiet_world : World
quiet_world = record { memory = λ _. leased; calls = [] }

abbrev pub self : ProcessIdentity
self = record { pid = 42; start_ticks = 190 }

start_run : (start granting producer (codes "sample") quiet_world).0.0 ≡ true
unfolding start
start_run = refl

start-stop_example :
    let r = (start granting producer (codes "sample") >>= λ started. stop started.1) quiet_world in
    (held granting r.1.calls ≡ remove (segment (shared_memory_name granting 42)) (held granting []))
    × (r.0.state ≡ none)
    × (r.0.mapping ≡ no_mapping)
start-stop_example = start-stop granting producer (codes "sample") quiet_world refl refl refl

-- The world after a producer has started.
abbrev pub started_world : World
started_world = (start granting producer (codes "sample") quiet_world).1

attach_run :
    ((attach granting self started_world).1.memory 4096).watcher_lease_until_ns ≡ 3_000_000_500
unfolding start attach valid_state parse_proc_stat from_chars scan_digits renew_lease ℕ_discrete
attach_run = refl

attach-release_example :
    let r = attach granting self started_world in
    (held granting r.1.calls ≡ session_owned r.0 (held granting started_world.calls))
    × (held granting (drop_session r.0 r.1).1.calls ≡ held granting started_world.calls)
attach-release_example = attach-release granting self started_world

-- The signal comes with the third call.
abbrev pub interrupted : Kernel
interrupted = record granting { stopped = λ h. leb 3 (length h) }
