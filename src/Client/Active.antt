-- ===== src/Client/Active.antt =====
-- core/src/monitor/client.cpp: the flags that `heartbeat` and `set_channel_active` leave in a record.
use peepbooth.Base.{
  ℕ, ◌<◌, ◌≡◌, ap, ◌∙◌, List, Bool, true, false, if◌then◌else◌, arith, update, update_self,
}
use peepbooth.SharedState.{
  SharedState, HeartbeatSlot, Channel, channel_index, heartbeat_channel_count,
}
use peepbooth.Client.{Client, heartbeat_in, lease_check, channel_active_in, publish_heartbeat, beat}

-- A heartbeat takes no flag down.
pub heartbeat_in-active :
    (c : Client) (value : Channel) (now : ℕ) (failures : List ℕ) (s : SharedState) (i : ℕ)
    → (s.heartbeats i).active ≡ 1
    → ((heartbeat_in c value now failures s).1.heartbeats i).active ≡ 1
unfolding heartbeat_in lease_check publish_heartbeat beat
heartbeat_in-active c value now failures s i on = grind (arith, on)

-- The record that `channel_active_in` beats on.
abbrev switched_on : ℕ → SharedState → SharedState
switched_on index s = record s {
  heartbeats = update s.heartbeats index (record (s.heartbeats index) { active = 1 });
}

channel_active_in-on :
    (c : Client) (value : Channel) (now : ℕ) (failures : List ℕ) (s : SharedState)
    → channel_index value < heartbeat_channel_count
    → channel_active_in c value true now failures s
      ≡ heartbeat_in c value now failures (switched_on (channel_index value) s)
unfolding channel_active_in
channel_active_in-on c value now failures s known = ground (arith, known)

pub channel_active_in-flag :
    (c : Client) (value : Channel) (active : Bool) (now : ℕ) (failures : List ℕ) (s : SharedState)
    → channel_index value < heartbeat_channel_count
    → ((channel_active_in c value active now failures s).1.heartbeats (channel_index value)).active
      ≡ (if active then 1 else 0)
unfolding channel_active_in
channel_active_in-flag c value true now failures s known =
    let index = channel_index value in
    ap (λ (r : Client × SharedState). (r.1.heartbeats index).active)
      (channel_active_in-on c value now failures s known)
    ∙ heartbeat_in-active c value now failures (switched_on index s) index (
        ap (λ (slot : HeartbeatSlot). slot.active)
          (update_self s.heartbeats index (record (s.heartbeats index) { active = 1 })))
channel_active_in-flag c value false now failures s known = ground (arith, known)
