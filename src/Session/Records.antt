-- ===== src/Session/Records.antt =====
-- The session's operations on the record that it has mapped.
use peepbooth.Base.{
  ℕ, ◌+◌, ◌==◌, not, map, range, fun_ext, ◌≡◌, ap, arith, Option, none, some, update,
}
use peepbooth.SharedState.{SharedState, HeartbeatSlot, Channel, to_channel, heartbeat_channel_count}
use peepbooth.Client.{Memory}
use peepbooth.Session.{
  Session, HeartbeatSnapshot, WatchdogSnapshot, snapshot, snapshot_of, empty_snapshot,
  heartbeat_snapshots, read_heartbeat, quiet, renewed, renew_lease,
}

pub snapshot-at :
    (session : Session) (memory : Memory) (a : ℕ)
    → session.mapping.state ≡ some a
    → snapshot session memory ≡ snapshot_of (memory a)
unfolding snapshot
snapshot-at session memory a at =
    ap
      (λ (x : Option ℕ). elim x as (λ _. WatchdogSnapshot) [
        | none ↦ empty_snapshot
        | some p ↦ snapshot_of (memory p)
      ])
      at

pub snapshot-heartbeats :
    (session : Session) (memory : Memory) (a : ℕ)
    → session.mapping.state ≡ some a
    → (snapshot session memory).heartbeats ≡ heartbeat_snapshots (memory a)
unfolding snapshot_of
snapshot-heartbeats session memory a at =
    ap (λ (s : WatchdogSnapshot). s.heartbeats) (snapshot-at session memory a at)

pub renew_lease-at :
    (session : Session) (now duration : ℕ) (memory : Memory) (a : ℕ)
    → session.mapping.state ≡ some a
    → renew_lease session now duration memory ≡ update memory a (renewed now duration (memory a))
unfolding renew_lease
renew_lease-at session now duration memory a at =
    ap
      (λ (x : Option ℕ). elim x as (λ _. Memory) [
        | none ↦ memory
        | some p ↦ update memory p (renewed now duration (memory p))
      ])
      at

-- What a snapshot shows of a channel that nobody writes meanwhile.
abbrev pub shown : SharedState → ℕ → HeartbeatSnapshot
shown s index = record {
  id = to_channel (index + 1);
  active = not ((s.heartbeats index).active == 0);
  timestamp_ns = (s.heartbeats index).timestamp_ns;
  sequence = (s.heartbeats index).sequence;
}

read_heartbeat-quiet :
    (id : Channel) (slot : HeartbeatSlot)
    → read_heartbeat id (quiet slot) (quiet slot) (quiet slot) ≡ record {
      id = id;
      active = not (slot.active == 0);
      timestamp_ns = slot.timestamp_ns;
      sequence = slot.sequence;
    }
unfolding read_heartbeat
read_heartbeat-quiet id slot = ground arith

pub heartbeat_snapshots-shown :
    (s : SharedState) → heartbeat_snapshots s ≡ map (shown s) (range 0 heartbeat_channel_count)
unfolding heartbeat_snapshots
heartbeat_snapshots-shown s =
    ap (λ (f : ℕ → HeartbeatSnapshot). map f (range 0 heartbeat_channel_count))
      (fun_ext (λ index. read_heartbeat-quiet (to_channel (index + 1)) (s.heartbeats index)))
