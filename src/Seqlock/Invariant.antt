-- ===== src/Seqlock/Invariant.antt =====
-- What holds of the ring between any two accesses, while no thread laps another.
use peepbooth.Base.{ℕ, ◌+◌, ◌*◌, ◌^◌, ◌≤◌, ◌<◌, ◌≡◌, ◌≢◌, ◌⊎◌, Option, none, some}
use peepbooth.SharedState.{BreadcrumbSlot, Breadcrumb}
use peepbooth.Client.{
  Store, close_slot, put_ticket, put_timestamp, put_arg0, put_arg1, put_source, put_event,
  open_slot, slot_index, pack_event,
}
use peepbooth.Session.{slot_payload}
use peepbooth.Seqlock.{
  Writer, idle, writing, Load, load_ticket, load_event, load_timestamp, load_source, load_arg0,
  load_arg1, load_commit, Reader, ready, reading, finished, Ring,
}

-- What a slot holds before a store of the thread that writes it.
abbrev pub Stored : Store → ℕ → Breadcrumb → BreadcrumbSlot → Type 0
Stored close_slot t b slot = slot.commit < t * 2
Stored put_ticket t b slot = slot.commit ≡ t * 2 + 1
Stored put_timestamp t b slot = slot.commit ≡ t * 2 + 1
Stored put_arg0 t b slot = (slot.commit ≡ t * 2 + 1) × (slot.timestamp_ns ≡ b.timestamp_ns)
Stored put_arg1 t b slot =
    (slot.commit ≡ t * 2 + 1) × (slot.timestamp_ns ≡ b.timestamp_ns) × (slot.arg0 ≡ b.arg0)
Stored put_source t b slot =
    (slot.commit ≡ t * 2 + 1)
    × (slot.timestamp_ns ≡ b.timestamp_ns)
    × (slot.arg0 ≡ b.arg0)
    × (slot.arg1 ≡ b.arg1)
Stored put_event t b slot =
    (slot.commit ≡ t * 2 + 1)
    × (slot.timestamp_ns ≡ b.timestamp_ns)
    × (slot.arg0 ≡ b.arg0)
    × (slot.arg1 ≡ b.arg1)
    × (slot.source_id ≡ b.source_id)
Stored open_slot t b slot =
    (slot.commit ≡ t * 2 + 1)
    × (slot.timestamp_ns ≡ b.timestamp_ns)
    × (slot.arg0 ≡ b.arg0)
    × (slot.arg1 ≡ b.arg1)
    × (slot.source_id ≡ b.source_id)
    × (slot.event_and_flags ≡ pack_event b.event_id b.flags)

-- What the watcher has copied before a load.
abbrev pub Agrees : Load → Breadcrumb → Breadcrumb → Type 0
Agrees load_ticket got b = Unit {0}
Agrees load_event got b = Unit {0}
Agrees load_timestamp got b = (got.event_id ≡ b.event_id) × (got.flags ≡ b.flags)
Agrees load_source got b =
    (got.event_id ≡ b.event_id) × (got.flags ≡ b.flags) × (got.timestamp_ns ≡ b.timestamp_ns)
Agrees load_arg0 got b =
    (got.event_id ≡ b.event_id)
    × (got.flags ≡ b.flags)
    × (got.timestamp_ns ≡ b.timestamp_ns)
    × (got.source_id ≡ b.source_id)
Agrees load_arg1 got b =
    (got.event_id ≡ b.event_id)
    × (got.flags ≡ b.flags)
    × (got.timestamp_ns ≡ b.timestamp_ns)
    × (got.source_id ≡ b.source_id)
    × (got.arg0 ≡ b.arg0)
Agrees load_commit got b = got ≡ b

-- The thread's ticket was issued for its entry, and its slot is as far as it is.
abbrev pub WriterOk : ℕ → (ℕ → Option Breadcrumb) → (ℕ → BreadcrumbSlot) → Writer → Type 0
WriterOk newest issued slots idle = Unit {0}
WriterOk newest issued slots (writing next t b) =
    (0 < t)
    × (t ≤ newest)
    × (issued t ≡ some b)
    × (b.event_id < 2 ^ 16)
    × (b.flags < 2 ^ 16)
    × Stored next t b (slots (slot_index t))

-- Either the slot is still as the watcher found it, and the copy agrees with it, or it has been
-- taken by a later ticket for good.
abbrev pub Copied : Load → ℕ → Breadcrumb → BreadcrumbSlot → Type 0
Copied next t got slot =
    ((slot.commit ≡ t * 2) × Agrees next got (slot_payload slot)) ⊎ (t * 2 + 1 < slot.commit)

abbrev pub ReaderOk : ℕ → (ℕ → Option Breadcrumb) → (ℕ → BreadcrumbSlot) → Reader → Type 0
ReaderOk newest issued slots ready = Unit {0}
ReaderOk newest issued slots (reading next t got) =
    (0 < t) × (t ≤ newest) × Copied next t got (slots (slot_index t))
ReaderOk newest issued slots (finished t none) = Unit {0}
ReaderOk newest issued slots (finished t (some b)) = (t ≤ newest) × (issued t ≡ some b)

abbrev pub Apart : Writer → Writer → Type 0
Apart idle w = Unit {0}
Apart (writing _ t _) idle = Unit {0}
Apart (writing _ t _) (writing _ u _) = slot_index t ≢ slot_index u

pub record Inv (s : Ring) : Type 0 where
  pub small : s.newest < 2 ^ 63
  pub bounded : (j : ℕ) → (s.slots j).commit ≤ s.newest * 2 + 1
  pub committed :
      (j t : ℕ) → 0 < t → (s.slots j).commit ≡ t * 2 → s.issued t ≡ some (slot_payload (s.slots j))
  pub running : (i : ℕ) → WriterOk s.newest s.issued s.slots (s.writer i)
  pub apart : (i j : ℕ) → i ≢ j → Apart (s.writer i) (s.writer j)
  pub watching : ReaderOk s.newest s.issued s.slots s.reader
