-- ===== src/Contract.antt =====
-- What the shared record promises, without its words and its ring: core/src/monitor/client.cpp on one
-- side and core/src/monitor/watchdog.cpp on the other, each call run as one step. A board keeps the end
-- of the lease, the pulse of each channel and a log of all breadcrumbs.
pub mod Shown
pub mod Steps
pub mod Refines
pub mod Start
pub mod Working
pub mod Polls
use Prim.Native.Nat.{min}
use peepbooth.Base.{
  ℕ, ◌+◌, ◌-◌, ◌%◌, List, [], ◌∷◌, ◌++◌, Bool, true, false, not, ◌&&◌, ◌||◌, ltb, leb,
  if◌then◌else◌, update, map, range, drop, length, replicate,
}
use peepbooth.Base.Text.{Text}
use peepbooth.SharedState.{
  Channel, Breadcrumb, Lifecycle, to_channel, channel_index, heartbeat_channel_count,
  breadcrumb_capacity, u64_mod,
}
use peepbooth.Client.{
  Client, Memory, heartbeat, set_channel_active, breadcrumb, minimum_interval_ns,
}
use peepbooth.Session.{Session, WatchdogSnapshot, HeartbeatSnapshot, renew_lease}

-- A channel: whether it is switched on, the time of its last heartbeat and how many there were.
pub record Pulse : Type 0 where
  pub active : Bool
  pub time : ℕ
  pub number : ℕ

-- What a watcher may know: the producer's name and lifecycle, the watcher's lease, the pulses and the log
-- of all breadcrumbs. `next` is the time from which a channel may beat again.
pub record Board : Type 0 where
  pub process_name : Text
  pub process_lifecycle : Lifecycle
  pub watched : Bool
  pub lease_until : ℕ
  pub next : ℕ → ℕ
  pub channels : ℕ → Pulse
  pub log : List Breadcrumb

-- The producer's calls and the watcher's renewal. `retries` counts exchanges that fail for no reason.
pub data Request : Type 0 where
  beat : (value : Channel) (now retries : ℕ) → Request
  switch : (value : Channel) (active : Bool) (now retries : ℕ) → Request
  leave : Breadcrumb → Request
  renew : (now duration : ℕ) → Request

-- The watcher is taken to be gone once its lease is over.
abbrev pub look : ℕ → Board → Board
look now b = record b { watched = b.watched && leb now b.lease_until }

abbrev pub pulse_board : ℕ → ℕ → Board → Board
pulse_board index now b = record b {
  next = update b.next index (now + minimum_interval_ns);
  channels =
      update b.channels index
        (record { active = true; time = now; number = (b.channels index).number + 1 });
}

abbrev pub beat_board : ℕ → ℕ → Board → Board
beat_board index now b =
    if not (look now b).watched || leb heartbeat_channel_count index || ltb now (b.next index)
    then look now b
    else pulse_board index now (look now b)

abbrev pub switched : ℕ → Bool → Board → Board
switched index active b = record b {
  channels = update b.channels index (record (b.channels index) { active = active });
}

abbrev pub switch_board : ℕ → Bool → ℕ → Board → Board
switch_board index active now b =
    if leb heartbeat_channel_count index
    then b
    else if active
    then beat_board index now (switched index true b)
    else switched index false b

abbrev pub leave_board : Breadcrumb → Board → Board
leave_board entry b =
    let looked = look entry.timestamp_ns b in
    if looked.watched then record looked { log = looked.log ++ (entry ∷ []) } else looked

abbrev pub step_board : Request → Board → Board
step_board (beat value now retries) b = beat_board (channel_index value) now b
step_board (switch value active now retries) b = switch_board (channel_index value) active now b
step_board (leave entry) b = leave_board entry b
step_board (renew now duration) b = record b {
  watched = true;
  lease_until = min (now + duration) (u64_mod - 1);
}

abbrev pub run_board : List Request → Board → Board
run_board [] b = b
run_board (r ∷ rs) b = run_board rs (step_board r b)

-- What a watcher can see of a board: the counts in 64 bits, and the newest breadcrumbs.
abbrev pub seen_heartbeats : Board → List HeartbeatSnapshot
seen_heartbeats b =
    map
      (λ index. record {
        id = to_channel (index + 1);
        active = (b.channels index).active;
        timestamp_ns = (b.channels index).time;
        sequence = (b.channels index).number % u64_mod;
      })
      (range 0 heartbeat_channel_count)

abbrev pub seen : Board → WatchdogSnapshot
seen b = record {
  process_name = b.process_name;
  process_lifecycle = b.process_lifecycle;
  heartbeats = seen_heartbeats b;
  breadcrumbs = drop (length b.log - breadcrumb_capacity) b.log;
}

-- The same requests to the code: each exchange that fails reads what is there.
abbrev pub spurious : Client → Channel → ℕ → List ℕ
spurious c value retries = replicate retries (c.next_heartbeat_ns (channel_index value))

unfoldable pub run_request : Session → Request → Client × Memory → Client × Memory
run_request session (beat value now retries) (c, memory) =
    heartbeat c value now (spurious c value retries) memory
run_request session (switch value active now retries) (c, memory) =
    set_channel_active c value active now (spurious c value retries) memory
run_request session (leave entry) (c, memory) = (c, breadcrumb c entry memory)
run_request session (renew now duration) (c, memory) = (c, renew_lease session now duration memory)

unfoldable pub run_requests : Session → List Request → Client × Memory → Client × Memory
unfolding run_request
run_requests session [] at = at
run_requests session (r ∷ rs) at = run_requests session rs (run_request session r at)
