-- ===== src/SharedState.antt =====
-- core/include/monitor/shared_state.hpp: the record that a producer and its watcher share. Words are
-- numbers with their wrap-around written out where the code computes; an enumeration with a fixed
-- underlying type holds any raw value, so each has a constructor `other` for the unnamed ones.
use peepbooth.Base.{ℕ, ◌+◌, ◌-◌, ◌*◌, ◌^◌, List, replicate, ◌||◌, ltb, ◌==◌, if◌then◌else◌}

abbrev pub u64_mod : ℕ
u64_mod = 2 ^ 64

abbrev pub shared_state_magic : ℕ
shared_state_magic = 0x4350505257444f47

abbrev pub shared_state_version : ℕ
shared_state_version = 1

abbrev pub heartbeat_channel_count : ℕ
heartbeat_channel_count = 4

abbrev pub breadcrumb_capacity : ℕ
breadcrumb_capacity = 128

abbrev pub process_name_capacity : ℕ
process_name_capacity = 32

pub data Channel : Type 0 where
  main gui core worker : Channel
  other : ℕ → Channel

-- `static_cast<std::uint8_t>(channel)` and back.
abbrev pub channel_raw : Channel → ℕ
channel_raw main = 1
channel_raw gui = 2
channel_raw core = 3
channel_raw worker = 4
channel_raw (other raw) = raw

abbrev pub to_channel : ℕ → Channel
to_channel raw =
    if raw == 1
    then main
    else if raw == 2
    then gui
    else if raw == 3
    then core
    else if raw == 4
    then worker
    else other raw

pub data Event : Type 0 where
  configuration_loaded output_ready stream_started stream_stopped : Event
  other : ℕ → Event

abbrev pub event_raw : Event → ℕ
event_raw configuration_loaded = 10
event_raw output_ready = 12
event_raw stream_started = 22
event_raw stream_stopped = 23
event_raw (other raw) = raw

pub data Lifecycle : Type 0 where
  starting running stopping clean_exit : Lifecycle
  other : ℕ → Lifecycle

abbrev pub lifecycle_raw : Lifecycle → ℕ
lifecycle_raw starting = 1
lifecycle_raw running = 2
lifecycle_raw stopping = 3
lifecycle_raw clean_exit = 4
lifecycle_raw (other raw) = raw

abbrev pub to_lifecycle : ℕ → Lifecycle
to_lifecycle raw =
    if raw == 1
    then starting
    else if raw == 2
    then running
    else if raw == 3
    then stopping
    else if raw == 4
    then clean_exit
    else other raw

pub record Breadcrumb : Type 0 where
  pub timestamp_ns : ℕ
  pub event_id : ℕ
  pub flags : ℕ
  pub source_id : ℕ
  pub arg0 : ℕ
  pub arg1 : ℕ

pub record HeartbeatSlot : Type 0 where
  pub timestamp_ns : ℕ
  pub sequence : ℕ
  pub active : ℕ
  pub reserved : ℕ

pub record BreadcrumbSlot : Type 0 where
  pub commit : ℕ
  pub ticket : ℕ
  pub timestamp_ns : ℕ
  pub arg0 : ℕ
  pub arg1 : ℕ
  pub source_id : ℕ
  pub event_and_flags : ℕ

-- The two arrays are functions of their index, which the code keeps below their capacities.
pub record SharedState : Type 0 where
  pub magic : ℕ
  pub version : ℕ
  pub header_size : ℕ
  pub total_size : ℕ
  pub pid : ℕ
  pub uid : ℕ
  pub process_start_ticks : ℕ
  pub process_name : List ℕ
  pub process_lifecycle : ℕ
  pub watcher_present : ℕ
  pub watcher_lease_until_ns : ℕ
  pub breadcrumb_ticket : ℕ
  pub heartbeats : ℕ → HeartbeatSlot
  pub breadcrumbs : ℕ → BreadcrumbSlot

-- `offsetof(shared_state, heartbeats)` and the sizes of the records, by the sizes of their fields,
-- which leave no padding.
abbrev pub offset_of_heartbeats : ℕ
offset_of_heartbeats = 8 + 2 + 2 + 4 + 4 + 4 + 8 + process_name_capacity + 4 + 4 + 8 + 8

abbrev size_of_heartbeat_slot : ℕ
size_of_heartbeat_slot = 8 + 8 + 4 + 4

abbrev size_of_breadcrumb_slot : ℕ
size_of_breadcrumb_slot = 5 * 8 + 4 + 4

abbrev pub size_of_shared_state : ℕ
size_of_shared_state =
    offset_of_heartbeats
    + heartbeat_channel_count * size_of_heartbeat_slot
    + breadcrumb_capacity * size_of_breadcrumb_slot

abbrev pub empty_heartbeat : HeartbeatSlot
empty_heartbeat = record { timestamp_ns = 0; sequence = 0; active = 0; reserved = 0 }

abbrev pub empty_breadcrumb : BreadcrumbSlot
empty_breadcrumb = record {
  commit = 0;
  ticket = 0;
  timestamp_ns = 0;
  arg0 = 0;
  arg1 = 0;
  source_id = 0;
  event_and_flags = 0;
}

-- `shared_state {}`
abbrev pub initial_state : SharedState
initial_state = record {
  magic = shared_state_magic;
  version = shared_state_version;
  header_size = 0;
  total_size = 0;
  pid = 0;
  uid = 0;
  process_start_ticks = 0;
  process_name = replicate process_name_capacity 0;
  process_lifecycle = lifecycle_raw starting;
  watcher_present = 0;
  watcher_lease_until_ns = 0;
  breadcrumb_ticket = 0;
  heartbeats = λ _. empty_heartbeat;
  breadcrumbs = λ _. empty_breadcrumb;
}

unfoldable pub channel_index : Channel → ℕ
channel_index value =
    let raw = channel_raw value in
    if raw == 0 || ltb heartbeat_channel_count raw then heartbeat_channel_count else raw - 1
