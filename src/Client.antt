-- ===== src/Client.antt =====
-- core/src/monitor/client.cpp: the producer's side. Each operation is the C++ function run without
-- interference, over the shared records; the interleavings are in Seqlock and Throttle. `now` is
-- what `monotonic_time_ns` returns where the function reads the clock.
pub mod Lease
pub mod Throttle
pub mod Ownership
pub mod Calls
pub mod Active
pub mod Process
pub mod Lifetime
use peepbooth.Base.{
  ℕ, ◌+◌, ◌-◌, ◌*◌, ◌%◌, ◌^◌, List, [], ◌∷◌, Option, none, some, Bool, true, false, not, ◌==◌, ltb,
  leb, ◌||◌, if◌then◌else◌, update,
}
use peepbooth.Base.Text.{Text}
use peepbooth.SharedState.{
  SharedState, HeartbeatSlot, BreadcrumbSlot, Breadcrumb, Channel, Event, channel_index, event_raw,
  lifecycle_raw, clean_exit, heartbeat_channel_count, breadcrumb_capacity, u64_mod,
}
use peepbooth.Platform.Kernel.{Kernel, M, ◌>>=◌, pure}
use peepbooth.Platform.SharedMemory.{SharedMapping, no_mapping, create_process_mapping, move_assign}
use peepbooth.Platform.ProcessWatch.{read_process_identity}

-- `implementation_` and `state_`. `built` is whether `implementation_` is not null, which
-- `instrumentation_enabled` decides in the constructor.
pub record Client : Type 0 where
  pub built : Bool
  pub mapping : SharedMapping
  pub next_heartbeat_ns : ℕ → ℕ
  pub state : Option ℕ

abbrev pub Memory : Type 0
Memory = ℕ → SharedState

unfoldable pub new_client : Bool → Client
new_client instrumentation_enabled = record {
  built = instrumentation_enabled;
  mapping = no_mapping;
  next_heartbeat_ns = λ _. 0;
  state = none;
}

unfoldable pub available : Client → Bool
available c = elim c.state [ none ↦ false | some _ ↦ true ]

module _ (k : Kernel) where
  -- `mapping = std::move(*created)` and the store of its pointer.
  adopt : Client → Option SharedMapping → M (Bool × Client)
  unfolding move_assign
  adopt c none = pure (false, c)
  adopt c (some created) = do
    moved ← move_assign c.mapping created
    pure (true, record c { mapping = moved.0; state = moved.0.state })

  start_unmapped : Client → Option ℕ → Text → M (Bool × Client)
  unfolding adopt create_process_mapping read_process_identity
  start_unmapped c (some _) process_name = pure (true, c)
  start_unmapped c none process_name = do
    created ← create_process_mapping k (read_process_identity k k.process_id) process_name
    adopt c created

  unfoldable pub start : Client → Text → M (Bool × Client)
  unfolding start_unmapped
  start c process_name = elim c.built [
    | false ↦ pure (false, c)
    | true ↦ start_unmapped c c.state process_name
  ]

mark_clean_exit : Option ℕ → Memory → Memory
mark_clean_exit none memory = memory
mark_clean_exit (some p) memory =
    update memory p (record (memory p) { process_lifecycle = lifecycle_raw clean_exit })

unfoldable pub stop : Client → M Client
unfolding mark_clean_exit move_assign
stop c = elim c.built [
  | false ↦ pure c
  | true ↦ λ w.
      let (moved, w') =
        move_assign c.mapping no_mapping (record w { memory = mark_clean_exit c.state w.memory }) in
      (record c { mapping = moved.0; state = none }, w')
]

-- `active_state` on a pointer that is not null: whether it returns the pointer, and the record after
-- the flag of an expired lease has been taken down.
unfoldable pub lease_check : ℕ → SharedState → Bool × SharedState
lease_check now_ns s =
    if s.watcher_present == 0
    then (false, s)
    else if ltb s.watcher_lease_until_ns now_ns
    then (false, record s { watcher_present = 0 })
    else (true, s)

abbrev pub minimum_interval_ns : ℕ
minimum_interval_ns = 500 * 1000 * 1000

-- The compare-exchange loop on `next_heartbeat`. The list holds what the failing exchanges read,
-- spurious failures included; the exchange behind them succeeds. `some` is the value stored.
unfoldable pub claim : ℕ → ℕ → List ℕ → Option ℕ
claim now next [] = if ltb now next then none else some ((now + minimum_interval_ns) % u64_mod)
claim now next (seen ∷ failures) =
    let later = claim now seen failures in if ltb now next then none else later

unfoldable pub beat : ℕ → HeartbeatSlot → HeartbeatSlot
beat now slot = record slot {
  active = 1;
  timestamp_ns = now;
  sequence = (slot.sequence + 1) % u64_mod;
}

-- `heartbeat` on a record whose lease is good, for an index in range.
publish_heartbeat : Client → SharedState → ℕ → ℕ → List ℕ → Client × SharedState
unfolding claim beat
publish_heartbeat c s index now failures = elim (claim now (c.next_heartbeat_ns index) failures) [
  | none ↦ (c, s)
  | some next ↦ (
    record c { next_heartbeat_ns = update c.next_heartbeat_ns index next },
    record s { heartbeats = update s.heartbeats index (beat now (s.heartbeats index)) },
  )
]

-- `heartbeat` on a pointer that is not null.
unfoldable pub heartbeat_in : Client → Channel → ℕ → List ℕ → SharedState → Client × SharedState
unfolding lease_check channel_index publish_heartbeat
heartbeat_in c value now failures s =
    if s.watcher_present == 0
    then (c, s)
    else (let (good, s') = lease_check now s in
        let index = channel_index value in
        if not good || leb heartbeat_channel_count index
        then (c, s')
        else publish_heartbeat c s' index now failures)

unfoldable pub at_pointer : Memory → ℕ → Client × SharedState → Client × Memory
at_pointer memory p r = (r.0, update memory p r.1)

unfoldable pub heartbeat : Client → Channel → ℕ → List ℕ → Memory → Client × Memory
unfolding heartbeat_in at_pointer
heartbeat c value now failures memory = elim c.state [
  | none ↦ (c, memory)
  | some p ↦ at_pointer memory p (heartbeat_in c value now failures (memory p))
]

unfoldable pub channel_active_in :
    Client → Channel → Bool → ℕ → List ℕ → SharedState → Client × SharedState
unfolding heartbeat_in channel_index
channel_active_in c value active now failures s =
    let index = channel_index value in
    if leb heartbeat_channel_count index
    then (c, s)
    else (let s' = record s {
      heartbeats =
          update s.heartbeats index
            (record (s.heartbeats index) { active = if active then 1 else 0 });
    } in
        if active then heartbeat_in c value now failures s' else (c, s'))

unfoldable pub set_channel_active : Client → Channel → Bool → ℕ → List ℕ → Memory → Client × Memory
unfolding channel_active_in at_pointer
set_channel_active c value active now failures memory = elim c.state [
  | none ↦ (c, memory)
  | some p ↦ at_pointer memory p (channel_active_in c value active now failures (memory p))
]

-- `event_id | flags << 16` of two 16-bit numbers, which have no bit in common.
unfoldable pub pack_event : ℕ → ℕ → ℕ
pack_event event_id flags = event_id + flags * 2 ^ 16

-- `ticket << 1`, and the same with its lowest bit set.
abbrev pub open_commit : ℕ → ℕ
open_commit ticket = ticket * 2 % u64_mod

abbrev pub closed_commit : ℕ → ℕ
closed_commit ticket = open_commit ticket + 1

-- `(ticket - 1) % breadcrumb_capacity`, the difference taken in 64 bits.
unfoldable pub slot_index : ℕ → ℕ
slot_index ticket = (ticket + u64_mod - 1) % u64_mod % breadcrumb_capacity

-- The eight stores into the slot, in the order of the source.
pub data Store : Type 0 where
  close_slot put_ticket put_timestamp put_arg0 put_arg1 put_source put_event open_slot : Store

unfoldable pub store : Store → ℕ → Breadcrumb → BreadcrumbSlot → BreadcrumbSlot
unfolding pack_event
store close_slot ticket b slot = record slot { commit = closed_commit ticket }
store put_ticket ticket b slot = record slot { ticket = ticket }
store put_timestamp ticket b slot = record slot { timestamp_ns = b.timestamp_ns }
store put_arg0 ticket b slot = record slot { arg0 = b.arg0 }
store put_arg1 ticket b slot = record slot { arg1 = b.arg1 }
store put_source ticket b slot = record slot { source_id = b.source_id }
store put_event ticket b slot = record slot { event_and_flags = pack_event b.event_id b.flags }
store open_slot ticket b slot = record slot { commit = open_commit ticket }

unfoldable pub fill_slot : ℕ → Breadcrumb → BreadcrumbSlot → BreadcrumbSlot
unfolding store
fill_slot ticket b slot = store open_slot ticket b (
    store put_event ticket b (
      store put_source ticket b (
        store put_arg1 ticket b (
          store put_arg0 ticket b (
            store put_timestamp ticket b
              (store put_ticket ticket b (store close_slot ticket b slot)))))))

-- `fetch_add` and the slot of the ticket, for a record whose lease is good.
unfoldable pub append_breadcrumb : Breadcrumb → SharedState → SharedState
unfolding fill_slot
append_breadcrumb b s =
    let ticket = (s.breadcrumb_ticket + 1) % u64_mod in
    record s {
      breadcrumb_ticket = ticket;
      breadcrumbs =
          update s.breadcrumbs (slot_index ticket)
            (fill_slot ticket b (s.breadcrumbs (slot_index ticket)));
    }

-- `breadcrumb` on a pointer that is not null. The time stamp of `b` is the reading of the clock.
unfoldable pub breadcrumb_in : Breadcrumb → SharedState → SharedState
unfolding lease_check append_breadcrumb
breadcrumb_in b s =
    if s.watcher_present == 0
    then s
    else (let (good, s') = lease_check b.timestamp_ns s in
        if good then append_breadcrumb b s' else s')

unfoldable pub breadcrumb : Client → Breadcrumb → Memory → Memory
unfolding breadcrumb_in
breadcrumb c b memory = elim c.state [
  | none ↦ memory
  | some p ↦ update memory p (breadcrumb_in b (memory p))
]

-- The overload on `event`.
unfoldable pub event_breadcrumb : Client → Event → Breadcrumb → Memory → Memory
unfolding breadcrumb
event_breadcrumb c value b memory = breadcrumb c (record b { event_id = event_raw value }) memory
