-- ===== src/Session.antt =====
-- core/src/monitor/watchdog.cpp, lines 12 to 158: the watcher's side of a shared record. A snapshot
-- is taken here without interference; Seqlock has the reader of a breadcrumb against writers.
pub mod History
pub mod Ownership
pub mod Handshake
pub mod Records
pub mod Beats
pub mod Exit
use peepbooth.Base.{
  ℕ, zero, suc, ◌+◌, ◌-◌, ◌/◌, ◌%◌, ◌^◌, List, [], ◌∷◌, Option, none, some, Bool, false, not, ◌==◌,
  ltb, leb, ◌||◌, ◌&&◌, if◌then◌else◌, update, map, range,
}
use peepbooth.Base.Text.{Text, take_while}
use peepbooth.SharedState.{
  SharedState, HeartbeatSlot, BreadcrumbSlot, Breadcrumb, Channel, Lifecycle, to_channel,
  to_lifecycle, heartbeat_channel_count, breadcrumb_capacity, u64_mod, shared_state_magic,
  shared_state_version, offset_of_heartbeats, size_of_shared_state,
}
use peepbooth.ProcFile.{ProcessIdentity}
use peepbooth.Platform.Kernel.{Kernel, M, ◌>>=◌, pure, monotonic_time_ns}
use peepbooth.Platform.SharedMemory.{
  SharedMapping, no_mapping, open_process_mapping, move_assign, move_construct, is_mapped, reset,
}
use peepbooth.Client.{Memory, open_commit, slot_index}

abbrev pub default_watcher_lease_ns : ℕ
default_watcher_lease_ns = 3_000_000_000

pub record HeartbeatSnapshot : Type 0 where
  pub id : Channel
  pub active : Bool
  pub timestamp_ns : ℕ
  pub sequence : ℕ

pub record WatchdogSnapshot : Type 0 where
  pub process_name : Text
  pub process_lifecycle : Lifecycle
  pub heartbeats : List HeartbeatSnapshot
  pub breadcrumbs : List Breadcrumb

pub record Session : Type 0 where
  pub mapping : SharedMapping

unfoldable pub valid_state : ℕ → SharedState → ProcessIdentity → Bool
valid_state user_id state identity =
    (state.magic == shared_state_magic)
    && (state.version == shared_state_version)
    && (state.header_size == offset_of_heartbeats)
    && (state.total_size == size_of_shared_state)
    && (state.pid == identity.pid)
    && (state.uid == user_id)
    && (state.process_start_ticks == identity.start_ticks)

-- The four loads of one attempt of `read_heartbeat`, each of which may find other values.
pub record Attempt : Type 0 where
  pub before : ℕ
  pub active : ℕ
  pub timestamp_ns : ℕ
  pub after : ℕ

unfoldable pub attempt_result : Channel → Attempt → HeartbeatSnapshot
attempt_result id a = record {
  id = id;
  active = not (a.active == 0);
  timestamp_ns = a.timestamp_ns;
  sequence = a.after;
}

-- Three attempts at most: the first whose sequence numbers agree, or else the third.
unfoldable pub read_heartbeat : Channel → Attempt → Attempt → Attempt → HeartbeatSnapshot
unfolding attempt_result
read_heartbeat id first second third =
    if first.before == first.after
    then attempt_result id first
    else if second.before == second.after
    then attempt_result id second
    else attempt_result id third

-- The attempt on a slot that nobody writes meanwhile.
abbrev pub quiet : HeartbeatSlot → Attempt
quiet slot = record {
  before = slot.sequence;
  active = slot.active;
  timestamp_ns = slot.timestamp_ns;
  after = slot.sequence;
}

-- The payload by the loads between the two looks at `commit`.
unfoldable pub slot_payload : BreadcrumbSlot → Breadcrumb
slot_payload slot = record {
  timestamp_ns = slot.timestamp_ns;
  event_id = slot.event_and_flags % 2 ^ 16;
  flags = slot.event_and_flags / 2 ^ 16 % 2 ^ 16;
  source_id = slot.source_id;
  arg0 = slot.arg0;
  arg1 = slot.arg1;
}

unfoldable pub read_breadcrumb : BreadcrumbSlot → ℕ → Option Breadcrumb
unfolding slot_payload
read_breadcrumb slot ticket =
    if not (slot.commit == open_commit ticket) || not (slot.ticket == ticket)
    then none
    else if slot.commit == open_commit ticket
    then some (slot_payload slot)
    else none

push_found : Option Breadcrumb → List Breadcrumb → List Breadcrumb
push_found none rest = rest
push_found (some item) rest = item ∷ rest

-- The loop over the tickets from the oldest to the newest, on fuel. `++ticket` wraps to 0 behind the
-- largest ticket, where the second test ends the loop.
unfoldable pub read_tickets : ℕ → ℕ → ℕ → (ℕ → BreadcrumbSlot) → List Breadcrumb
unfolding push_found read_breadcrumb
read_tickets zero ticket newest slots = []
read_tickets (suc fuel) ticket newest slots =
    let rest = read_tickets fuel ((ticket + 1) % u64_mod) newest slots in
    if leb ticket newest && not (ticket == 0)
    then push_found (read_breadcrumb (slots (slot_index ticket)) ticket) rest
    else []

abbrev pub oldest_ticket : ℕ → ℕ
oldest_ticket newest =
    if ltb breadcrumb_capacity newest then newest - breadcrumb_capacity + 1 else 1

unfoldable pub heartbeat_snapshots : SharedState → List HeartbeatSnapshot
unfolding read_heartbeat
heartbeat_snapshots state =
    map
      (λ index.
        read_heartbeat (to_channel (index + 1)) (quiet (state.heartbeats index))
          (quiet (state.heartbeats index)) (quiet (state.heartbeats index)))
      (range 0 heartbeat_channel_count)

-- At most `breadcrumb_capacity` tickets are looked at, so one round more is enough fuel.
unfoldable pub breadcrumb_history : SharedState → List Breadcrumb
breadcrumb_history state =
    read_tickets (breadcrumb_capacity + 1) (oldest_ticket state.breadcrumb_ticket)
      state.breadcrumb_ticket state.breadcrumbs

abbrev pub empty_snapshot : WatchdogSnapshot
empty_snapshot = record {
  process_name = [];
  process_lifecycle = Lifecycle.starting;
  heartbeats =
      map (λ (_ : ℕ). record { id = Channel.main; active = false; timestamp_ns = 0; sequence = 0 })
        (range 0 heartbeat_channel_count);
  breadcrumbs = [];
}

unfoldable pub snapshot_of : SharedState → WatchdogSnapshot
unfolding heartbeat_snapshots
snapshot_of state = record {
  process_name = take_while (λ c. not (c == 0)) state.process_name;
  process_lifecycle = to_lifecycle state.process_lifecycle;
  heartbeats = heartbeat_snapshots state;
  breadcrumbs = breadcrumb_history state;
}

unfoldable pub snapshot : Session → Memory → WatchdogSnapshot
unfolding snapshot_of
snapshot session memory = elim session.mapping.state [
  | none ↦ empty_snapshot
  | some p ↦ snapshot_of (memory p)
]

-- A lease that would wrap lasts to the end of the clock.
unfoldable pub renewed : ℕ → ℕ → SharedState → SharedState
renewed now_ns duration_ns state =
    let maximum = u64_mod - 1 in
    record state {
      watcher_lease_until_ns =
          if ltb (maximum - now_ns) duration_ns then maximum else now_ns + duration_ns;
      watcher_present = 1;
    }

unfoldable pub renew_lease : Session → ℕ → ℕ → Memory → Memory
unfolding renewed
renew_lease session now_ns duration_ns memory = elim session.mapping.state [
  | none ↦ memory
  | some p ↦ update memory p (renewed now_ns duration_ns (memory p))
]

clear_lease : Option ℕ → Memory → Memory
clear_lease none memory = memory
clear_lease (some p) memory =
    update memory p (record (memory p) { watcher_present = 0; watcher_lease_until_ns = 0 })

unfoldable pub release : Session → M Session
unfolding clear_lease move_assign
release session w =
    let (moved, w') =
      move_assign session.mapping no_mapping
        (record w { memory = clear_lease session.mapping.state w.memory }) in
    (record { mapping = moved.0 }, w')

unfoldable pub valid : Session → Bool
unfolding is_mapped
valid session = is_mapped session.mapping

-- `watchdog_session(watchdog_session&&)`: the new object and what is left of the source.
unfoldable pub construct_session : Session → Session × Session
unfolding move_construct
construct_session source =
    let moved = move_construct source.mapping in
    (record { mapping = moved.0 }, record { mapping = moved.1 })

-- `operator=(watchdog_session&&)` between two objects: the target, and what is left of the source.
unfoldable pub move_session : Session → Session → M (Session × Session)
unfolding release move_assign
move_session target source = do
  released ← release target
  moved ← move_assign released.mapping source.mapping
  pure (record { mapping = moved.0 }, record { mapping = moved.1 })

module _ (k : Kernel) where
  -- A mapping of another record is dropped, which unmaps it; one that fits is leased at once.
  check_mapping : ProcessIdentity → Option SharedMapping → M (Option Session)
  unfolding valid_state reset renew_lease
  check_mapping identity none = pure none
  check_mapping identity (some mapping) = elim mapping.state [
    | none ↦ pure none
    | some p ↦ λ w.
        let session : Session = record { mapping = mapping } in
        let refused = (reset mapping w).1 in
        let leased = (do
          now ← monotonic_time_ns k
          λ v. (
            some session,
            record v { memory = renew_lease session now default_watcher_lease_ns v.memory },
          )) in
        if valid_state k.user_id (w.memory p) identity then leased w else (none, refused)
  ]

  unfoldable pub attach : ProcessIdentity → M (Option Session)
  unfolding open_process_mapping check_mapping
  attach identity = do mapping ← open_process_mapping k identity.pid; check_mapping identity mapping
