-- ===== src/Heartbeat/Late.antt =====
-- A thread that is late between its clock reading and its store, at core/src/monitor/client.cpp, lines
-- 113 to 115.
use peepbooth.Base.{ℕ, ◌+◌, ◌<◌, ◌≤◌, ◌≡◌, refl, ℕ_discrete, arith}
use peepbooth.SharedState.{u64_mod}
use peepbooth.Client.{minimum_interval_ns}
use peepbooth.Heartbeat.{
  returned, next_attempt, load_step, Beating, publish, stamp, count, begin, load, Reach, start,
  later,
}

-- A late thread takes a channel back in time. For any two clock readings that the throttle lets through
-- one after the other, there is a run of two threads and the watcher, in which both heartbeats are
-- counted and the one with the later reading was stored first, and the watcher's read, without a beat
-- inside it, has returned the earlier reading: the channel looks older than its last heartbeat by half a
-- second at least.
pub late-older :
    (early next : ℕ)
    → early + minimum_interval_ns ≤ next
    → next < u64_mod
    → (s : Beating) × Reach 2 s
      × (s.issued 1 ≡ next)
      × (s.reader ≡ returned (record { before = 2; active = 1; timestamp_ns = early; after = 2 }))
unfolding load_step next_attempt ℕ_discrete
late-older early next apart small =
    let known : (0 < 2) × (1 < 2) = (omega arith, omega arith) in
    let fits : (0 + 1 < u64_mod) × (1 + 1 < u64_mod) = (omega arith, omega arith) in
    let claimed =
      later (later start (publish 0 early known.0 refl)) (publish 1 next known.1 refl) in
    let first = later (later claimed (stamp 1 next known.1 refl)) (count 1 known.1 refl fits.0) in
    let second = later (later first (stamp 0 early known.0 refl)) (count 0 known.0 refl fits.1) in
    (_, later (later (later (later (later second begin) load) load) load) load, refl, refl)
