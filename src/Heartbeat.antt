-- ===== src/Heartbeat.antt =====
-- One heartbeat slot, one shared access at a time: the stores of `heartbeat` and of
-- `set_channel_active` in core/src/monitor/client.cpp against the loads of `read_heartbeat` in
-- core/src/monitor/watchdog.cpp.
pub mod Loads
pub mod Threads
pub mod Fresh
pub mod Late
use peepbooth.Base.{ℕ, suc, ◌+◌, ◌%◌, ◌<◌, ◌≡◌, Bool, ◌==◌, ◌||◌, leb, if◌then◌else◌, update}
use peepbooth.SharedState.{HeartbeatSlot, Channel, empty_heartbeat, u64_mod}
use peepbooth.Session.{Attempt, HeartbeatSnapshot, attempt_result}

-- The thread that publishes a heartbeat, behind the store of `active` and behind that of the time.
pub data Publisher : Type 0 where
  idle : Publisher
  stamping : (now : ℕ) → Publisher
  counting : Publisher

-- The watcher in its loop: which attempt it is in, from 0, and what the attempt has loaded.
pub data Reader : Type 0 where
  ready : Reader
  attempting : (attempt : ℕ) → Reader
  looked : (attempt before : ℕ) → Reader
  flagged : (attempt before active : ℕ) → Reader
  timed : (attempt before active timestamp_ns : ℕ) → Reader
  returned : (last : Attempt) → Reader

-- Behind the second look at the number: out of the loop, or in the next attempt.
unfoldable pub next_attempt : ℕ → Attempt → Reader
next_attempt attempt a =
    if (a.before == a.after) || leb 2 attempt then returned a else attempting (attempt + 1)

-- The next load of the loop.
unfoldable pub load_step : Reader → HeartbeatSlot → Reader
unfolding next_attempt
load_step ready slot = ready
load_step (attempting attempt) slot = looked attempt slot.sequence
load_step (looked attempt before) slot = flagged attempt before slot.active
load_step (flagged attempt before active) slot = timed attempt before active slot.timestamp_ns
load_step (timed attempt before active timestamp_ns) slot = next_attempt attempt (record {
  before = before;
  active = active;
  timestamp_ns = timestamp_ns;
  after = slot.sequence;
})
load_step (returned a) slot = returned a

-- `newest` and `issued` are no state of the program: they count the stores of a time, and keep the time
-- of each by its number.
pub record Beating : Type 0 where
  pub slot : HeartbeatSlot
  pub newest : ℕ
  pub issued : ℕ → ℕ
  pub publisher : ℕ → Publisher
  pub reader : Reader

abbrev pub unbeaten : Beating
unbeaten = record {
  slot = empty_heartbeat;
  newest = 0;
  issued = λ _. 0;
  publisher = λ _. idle;
  reader = ready;
}

-- One shared access, by one of `threads` threads that publish or by the watcher. `switch` is the store of
-- `set_channel_active`.
pub data Step (threads : ℕ) (s : Beating) : Beating → Type 0 where
  publish :
      (i now : ℕ)
      → i < threads
      → s.publisher i ≡ idle
      → Step threads s (record s {
        slot = record s.slot { active = 1 };
        publisher = update s.publisher i (stamping now);
      })
  stamp :
      (i now : ℕ)
      → i < threads
      → s.publisher i ≡ stamping now
      → Step threads s (record s {
        slot = record s.slot { timestamp_ns = now };
        newest = s.newest + 1;
        issued = update s.issued (s.newest + 1) now;
        publisher = update s.publisher i counting;
      })
  count :
      (i : ℕ)
      → i < threads
      → s.publisher i ≡ counting
      → s.slot.sequence + 1 < u64_mod
      → Step threads s (record s {
        slot = record s.slot { sequence = (s.slot.sequence + 1) % u64_mod };
        publisher = update s.publisher i idle;
      })
  switch : (active : ℕ) → Step threads s (record s { slot = record s.slot { active = active } })
  begin : Step threads s (record s { reader = attempting 0 })
  load : Step threads s (record s { reader = load_step s.reader s.slot })

pub data Reach (threads : ℕ) : Beating → Type 0 where
  start : Reach threads unbeaten
  later : {s t : Beating} → Reach threads s → Step threads s t → Reach threads t
