-- ===== src/Session/Beats.antt =====
-- A producer's heartbeat in core/src/monitor/client.cpp, and the next snapshot of
-- core/src/monitor/watchdog.cpp.
use peepbooth.Base.{
  ℕ, ◌+◌, ◌%◌, ◌≤◌, ◌<◌, ◌≡◌, ◌≢◌, sym, ap, ◌∙◌, List, some, false, not, ◌==◌, map, range, fun_ext,
  if◌then◌else◌, arith, update, update_self, update_ne, ℕ_discrete,
}
use peepbooth.SharedState.{
  SharedState, HeartbeatSlot, Channel, channel_index, to_channel, heartbeat_channel_count, u64_mod,
}
use peepbooth.Client.{
  Client, Memory, heartbeat, heartbeat_in, channel_active_in, set_channel_active, claim, beat,
  at_pointer,
}
use peepbooth.Client.Calls.{heartbeat-at, set_channel_active-at}
use peepbooth.Session.{Session, HeartbeatSnapshot, snapshot, heartbeat_snapshots}
use peepbooth.Session.Records.{shown, heartbeat_snapshots-shown, snapshot-heartbeats}

-- A record after a heartbeat that was let through.
heartbeat_in-beat :
    (c : Client) (value : Channel) (now next : ℕ) (failures : List ℕ) (s : SharedState)
    → s.watcher_present ≢ 0
    → now ≤ s.watcher_lease_until_ns
    → channel_index value < heartbeat_channel_count
    → claim now (c.next_heartbeat_ns (channel_index value)) failures ≡ some next
    → (heartbeat_in c value now failures s).1 ≡ record s {
      heartbeats =
          update s.heartbeats (channel_index value) (beat now (s.heartbeats (channel_index value)));
    }
unfolding heartbeat_in
heartbeat_in-beat c value now next failures s present good known won =
    ground (arith, present, good, known, won)

channel_active_in-off :
    (c : Client) (value : Channel) (now : ℕ) (failures : List ℕ) (s : SharedState)
    → channel_index value < heartbeat_channel_count
    → (channel_active_in c value false now failures s).1 ≡ record s {
      heartbeats =
          update s.heartbeats
            (channel_index value)
            (record (s.heartbeats (channel_index value)) { active = 0 });
    }
unfolding channel_active_in
channel_active_in-off c value now failures s known = ground (arith, known)

-- What the snapshot shows of a slot.
abbrev pub shown_slot : ℕ → HeartbeatSlot → HeartbeatSnapshot
shown_slot index slot = record {
  id = to_channel (index + 1);
  active = not (slot.active == 0);
  timestamp_ns = slot.timestamp_ns;
  sequence = slot.sequence;
}

shown-update :
    (s : SharedState) (j : ℕ) (slot : HeartbeatSlot) (i : ℕ)
    → shown (record s { heartbeats = update s.heartbeats j slot }) i
      ≡ (if i == j then shown_slot i slot else shown s i)
shown-update s j slot i = elim (ℕ_discrete j i) [
  | yes same ↦
      ap (shown_slot i)
        (ap (update s.heartbeats j slot) (sym same) ∙ update_self s.heartbeats j slot)
      ∙ sym (ground (arith, same))
  | no other ↦
      ap (shown_slot i) (update_ne s.heartbeats j i slot other) ∙ sym (ground (arith, other))
]

-- The heartbeats of a snapshot after one slot of the record has been written.
abbrev pub shown_with : SharedState → ℕ → HeartbeatSlot → List HeartbeatSnapshot
shown_with s j slot =
    map (λ i. if i == j then shown_slot i slot else shown s i) (range 0 heartbeat_channel_count)

snapshot-update :
    (session : Session) (memory : Memory) (a : ℕ) (s : SharedState) (j : ℕ) (slot : HeartbeatSlot)
    → session.mapping.state ≡ some a
    → memory a ≡ record s { heartbeats = update s.heartbeats j slot }
    → (snapshot session memory).heartbeats ≡ shown_with s j slot
snapshot-update session memory a s j slot at holds =
    snapshot-heartbeats session memory a at
    ∙ ap heartbeat_snapshots holds
    ∙ heartbeat_snapshots-shown (record s { heartbeats = update s.heartbeats j slot })
    ∙ ap (λ (f : ℕ → HeartbeatSnapshot). map f (range 0 heartbeat_channel_count))
        (fun_ext (shown-update s j slot))

-- A heartbeat is seen, and only on its channel. Where the lease is good and the throttle lets the
-- heartbeat of a known channel through, the next snapshot shows that channel as active, with the time
-- of the call and the next sequence number, in 64 bits, and the other channels as they were.
pub heartbeat-shown :
    (session : Session) (c : Client) (memory : Memory) (a : ℕ) (value : Channel) (now next : ℕ)
    (failures : List ℕ)
    → session.mapping.state ≡ some a
    → c.state ≡ some a
    → (memory a).watcher_present ≢ 0
    → now ≤ (memory a).watcher_lease_until_ns
    → channel_index value < heartbeat_channel_count
    → claim now (c.next_heartbeat_ns (channel_index value)) failures ≡ some next
    → let index = channel_index value in
      (snapshot session (heartbeat c value now failures memory).1).heartbeats
      ≡ shown_with (memory a) index (record ((memory a).heartbeats index) {
        active = 1;
        timestamp_ns = now;
        sequence = (((memory a).heartbeats index).sequence + 1) % u64_mod;
      })
unfolding beat at_pointer
heartbeat-shown session c memory a value now next failures at client present good known won =
    let index = channel_index value in
    snapshot-update session (heartbeat c value now failures memory).1 a (memory a) index
      (beat now ((memory a).heartbeats index)) at
      (ap (λ (r : Client × Memory). r.1 a) (heartbeat-at c value now failures memory a client)
        ∙ update_self memory a (heartbeat_in c value now failures (memory a)).1
        ∙ heartbeat_in-beat c value now next failures (memory a) present good known won)

-- A channel is shown as it was last set. Setting a known channel inactive, whatever the lease, shows
-- that channel as inactive in the next snapshot, with its time and number as they were, and the other
-- channels as they were.
pub set_channel_active-shown :
    (session : Session) (c : Client) (memory : Memory) (a : ℕ) (value : Channel) (now : ℕ)
    (failures : List ℕ)
    → session.mapping.state ≡ some a
    → c.state ≡ some a
    → channel_index value < heartbeat_channel_count
    → let index = channel_index value in
      (snapshot session (set_channel_active c value false now failures memory).1).heartbeats
      ≡ shown_with (memory a) index (record ((memory a).heartbeats index) { active = 0 })
unfolding at_pointer
set_channel_active-shown session c memory a value now failures at client known =
    let index = channel_index value in
    snapshot-update session (set_channel_active c value false now failures memory).1 a (memory a)
      index (record ((memory a).heartbeats index) { active = 0 }) at
      (ap (λ (r : Client × Memory). r.1 a)
          (set_channel_active-at c value false now failures memory a client)
        ∙ update_self memory a (channel_active_in c value false now failures (memory a)).1
        ∙ channel_active_in-off c value now failures (memory a) known)
