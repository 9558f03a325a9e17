-- ===== src/Seqlock/Reading.antt =====
-- The steps of the watcher keep the invariant.
use peepbooth.Base.{ℕ, ◌*◌, ◌^◌, ◌≤◌, ◌<◌, ◌≡◌, Option, none, some, arith}
use peepbooth.SharedState.{BreadcrumbSlot, Breadcrumb}
use peepbooth.Client.{slot_index}
use peepbooth.Session.{slot_payload}
use peepbooth.Seqlock.{
  Reader, ready, reading, finished, Ring, begin_read, read_step, reader_ticket, load_ticket,
  load_event, load_timestamp, load_source, load_arg0, load_arg1, load_commit,
}
use peepbooth.Seqlock.Invariant.{ReaderOk, Inv}

module _ (newest : ℕ) (issued : ℕ → Option Breadcrumb) (slots : ℕ → BreadcrumbSlot)
    (small : newest < 2 ^ 63) where
  begin-ReaderOk :
      (t : ℕ)
      → 0 < t
      → t ≤ newest
      → ReaderOk newest issued slots (begin_read t (slots (slot_index t)))
  unfolding begin_read
  begin-ReaderOk t pos le = ground arith

  -- A load that goes on copies what the slot holds.
  step-ReaderOk :
      ((j t : ℕ) → 0 < t → (slots j).commit ≡ t * 2 → issued t ≡ some (slot_payload (slots j)))
      → (r : Reader) → ReaderOk newest issued slots r
      → ReaderOk newest issued slots (read_step r (slots (slot_index (reader_ticket r))))
  unfolding read_step slot_payload
  step-ReaderOk holds ready h = tt
  step-ReaderOk holds (finished t none) h = tt
  step-ReaderOk holds (finished t (some b)) h = h
  step-ReaderOk holds (reading load_ticket t got) h = ground arith
  step-ReaderOk holds (reading load_event t got) h = ground arith
  step-ReaderOk holds (reading load_timestamp t got) h = ground arith
  step-ReaderOk holds (reading load_source t got) h = ground arith
  step-ReaderOk holds (reading load_arg0 t got) h = ground arith
  step-ReaderOk holds (reading load_arg1 t got) h = ground arith
  step-ReaderOk holds (reading load_commit t got) h = ground (arith, holds (slot_index t) t)

module _ (s : Ring) (inv : Inv s) where
  with_reader : (r : Reader) → ReaderOk s.newest s.issued s.slots r → Inv (record s { reader = r })
  with_reader r ok = record {
    small = inv.small;
    bounded = inv.bounded;
    committed = inv.committed;
    running = inv.running;
    apart = inv.apart;
    watching = ok;
  }

  pub begin-Inv :
      (t : ℕ)
      → 0 < t
      → t ≤ s.newest
      → Inv (record s { reader = begin_read t (s.slots (slot_index t)) })
  begin-Inv t pos le =
      with_reader (begin_read t (s.slots (slot_index t)))
        (begin-ReaderOk s.newest s.issued s.slots inv.small t pos le)

  pub read-Inv :
      Inv (record s { reader = read_step s.reader (s.slots (slot_index (reader_ticket s.reader))) })
  read-Inv =
      with_reader (read_step s.reader (s.slots (slot_index (reader_ticket s.reader))))
        (step-ReaderOk s.newest s.issued s.slots inv.small inv.committed s.reader inv.watching)
