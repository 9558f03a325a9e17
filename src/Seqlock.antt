-- ===== src/Seqlock.antt =====
-- core/src/monitor/client.cpp, `breadcrumb`, and core/src/monitor/watchdog.cpp, `read_breadcrumb`, one
-- shared access at a time: any number of producer threads and the watcher, interleaved in any order.
-- The accesses are taken as sequentially consistent; the source asks that of `commit` alone, and Weak
-- takes the stores of the payload as they are.
pub mod Invariant
mod Stores
mod Writing
mod Reading
pub mod Safety
pub mod Lapping
mod Newest
pub mod Quiet
pub mod Weak
pub mod Reordered
mod Early
mod Follows
mod InOrder
pub mod Shadow
use peepbooth.Base.{
  ℕ, ◌+◌, ◌≤◌, ◌<◌, ◌^◌, ◌/◌, ◌%◌, ◌≡◌, ◌≢◌, Option, none, some, ◌==◌, if◌then◌else◌, update,
}
use peepbooth.SharedState.{BreadcrumbSlot, Breadcrumb, empty_breadcrumb}
use peepbooth.Client.{
  Store, close_slot, put_ticket, put_timestamp, put_arg0, put_arg1, put_source, put_event,
  open_slot, store, slot_index, open_commit,
}

-- A producer thread: outside `breadcrumb`, or before the store that it makes next.
pub data Writer : Type 0 where
  idle : Writer
  writing : (next : Store) (ticket : ℕ) (item : Breadcrumb) → Writer

abbrev pub after_store : Store → ℕ → Breadcrumb → Writer
after_store close_slot t b = writing put_ticket t b
after_store put_ticket t b = writing put_timestamp t b
after_store put_timestamp t b = writing put_arg0 t b
after_store put_arg0 t b = writing put_arg1 t b
after_store put_arg1 t b = writing put_source t b
after_store put_source t b = writing put_event t b
after_store put_event t b = writing open_slot t b
after_store open_slot t b = idle

-- The loads of `read_breadcrumb` behind the first look at `commit`.
pub data Load : Type 0 where
  load_ticket load_event load_timestamp load_source load_arg0 load_arg1 load_commit : Load

-- The watcher: between calls, before the load that it makes next, or with a call's result.
pub data Reader : Type 0 where
  ready : Reader
  reading : (next : Load) (ticket : ℕ) (got : Breadcrumb) → Reader
  finished : (ticket : ℕ) (result : Option Breadcrumb) → Reader

abbrev blank : Breadcrumb
blank = record { timestamp_ns = 0; event_id = 0; flags = 0; source_id = 0; arg0 = 0; arg1 = 0 }

unfoldable pub begin_read : ℕ → BreadcrumbSlot → Reader
begin_read t slot =
    if slot.commit == open_commit t then reading load_ticket t blank else finished t none

unfoldable pub read_step : Reader → BreadcrumbSlot → Reader
read_step ready slot = ready
read_step (finished t r) slot = finished t r
read_step (reading load_ticket t got) slot =
    if slot.ticket == t then reading load_event t got else finished t none
read_step (reading load_event t got) slot = reading load_timestamp t (record got {
  event_id = slot.event_and_flags % 2 ^ 16;
  flags = slot.event_and_flags / 2 ^ 16 % 2 ^ 16;
})
read_step (reading load_timestamp t got) slot =
    reading load_source t (record got { timestamp_ns = slot.timestamp_ns })
read_step (reading load_source t got) slot =
    reading load_arg0 t (record got { source_id = slot.source_id })
read_step (reading load_arg0 t got) slot = reading load_arg1 t (record got { arg0 = slot.arg0 })
read_step (reading load_arg1 t got) slot = reading load_commit t (record got { arg1 = slot.arg1 })
read_step (reading load_commit t got) slot =
    if slot.commit == open_commit t then finished t (some got) else finished t none

abbrev pub reader_ticket : Reader → ℕ
reader_ticket ready = 0
reader_ticket (reading _ t _) = t
reader_ticket (finished t _) = t

-- `issued` is no state of the program: it keeps what each ticket was taken for.
pub record Ring : Type 0 where
  pub newest : ℕ
  pub slots : ℕ → BreadcrumbSlot
  pub issued : ℕ → Option Breadcrumb
  pub writer : ℕ → Writer
  pub reader : Reader

abbrev pub empty_ring : Ring
empty_ring = record {
  newest = 0;
  slots = λ _. empty_breadcrumb;
  issued = λ _. none;
  writer = λ _. idle;
  reader = ready;
}

-- Taking a ticket, with the entry to be stored under it.
abbrev pub claimed : Ring → ℕ → Breadcrumb → Ring
claimed s i b = record s {
  newest = s.newest + 1;
  issued = update s.issued (s.newest + 1) (some b);
  writer = update s.writer i (writing close_slot (s.newest + 1) b);
}

abbrev pub stored : Ring → ℕ → Store → ℕ → Breadcrumb → Ring
stored s i next t b = record s {
  slots = update s.slots (slot_index t) (store next t b (s.slots (slot_index t)));
  writer = update s.writer i (after_store next t b);
}

-- One shared access. `Allowed` says in which states a ticket may be taken.
pub data Step (Allowed : Ring → Type 0) (s : Ring) : Ring → Type 0 where
  claim :
      (i : ℕ) (b : Breadcrumb)
      → b.event_id < 2 ^ 16
      → b.flags < 2 ^ 16
      → s.writer i ≡ idle
      → Allowed s
      → Step Allowed s (claimed s i b)
  write :
      (i : ℕ) (next : Store) (t : ℕ) (b : Breadcrumb)
      → s.writer i ≡ writing next t b
      → Step Allowed s (stored s i next t b)
  begin :
      (t : ℕ)
      → 0 < t
      → t ≤ s.newest
      → Step Allowed s (record s { reader = begin_read t (s.slots (slot_index t)) })
  read :
      Step Allowed s
        (record s { reader = read_step s.reader (s.slots (slot_index (reader_ticket s.reader))) })

-- Any number of accesses, from `o` on.
pub data Run (Allowed : Ring → Type 0) (o : Ring) : Ring → Type 0 where
  start : Run Allowed o o
  later : {s t : Ring} → Run Allowed o s → Step Allowed s t → Run Allowed o t

abbrev pub Reach : (Ring → Type 0) → Ring → Type 0
Reach Allowed = Run Allowed empty_ring

abbrev pub Elsewhere : Writer → ℕ → Type 0
Elsewhere idle slot = Unit {0}
Elsewhere (writing _ t _) slot = slot_index t ≢ slot

-- No thread is still at the slot of the next ticket, and twice that ticket fits the word.
abbrev pub Unlapped : Ring → Type 0
Unlapped s =
    (s.newest + 1 < 2 ^ 63) × ((i : ℕ) → Elsewhere (s.writer i) (slot_index (s.newest + 1)))
