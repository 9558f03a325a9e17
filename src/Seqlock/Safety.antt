-- ===== src/Seqlock/Safety.antt =====
-- What the watcher can rely on, whatever the interleaving.
use peepbooth.Base.{ℕ, ◌+◌, ◌≤◌, ◌<◌, ◌≡◌, refl, some, arith, ◌∙◌, ap, subst, update_self}
use peepbooth.SharedState.{BreadcrumbSlot, Breadcrumb}
use peepbooth.Client.{
  Store, close_slot, put_ticket, put_timestamp, put_arg0, put_arg1, put_source, put_event,
  open_slot, slot_index, fill_slot, store,
}
use peepbooth.Session.{read_breadcrumb}
use peepbooth.Session.History.{Fits, read_breadcrumb-fill_slot}
use peepbooth.Seqlock.{
  Writer, idle, writing, after_store, Reader, ready, reading, finished, Ring, claimed, stored, Step,
  claim, write, begin, read, Reach, Run, start, later, Unlapped, empty_ring, begin_read, read_step,
  reader_ticket, Load, load_ticket, load_commit,
}
use peepbooth.Seqlock.Invariant.{Inv, ReaderOk}
use peepbooth.Seqlock.Writing.{write-Inv, claim-Inv}
use peepbooth.Seqlock.Reading.{begin-Inv, read-Inv}

empty_ring-Inv : Inv empty_ring
empty_ring-Inv = record {
  small = omega arith;
  bounded = λ j. omega arith;
  committed = λ j t pos e. absurd (omega arith);
  running = λ i. tt;
  apart = λ i j differ. tt;
  watching = tt;
}

Step-Inv : {s t : Ring} → Step Unlapped s t → Inv s → Inv t
Step-Inv {s} (claim i b fe ff _ free) inv = claim-Inv s inv i b fe ff free
Step-Inv {s} (write i next t b here) inv = write-Inv s inv i next t b here
Step-Inv {s} (begin t pos le) inv = begin-Inv s inv t pos le
Step-Inv {s} read inv = read-Inv s inv

pub Reach-Inv : {s : Ring} → Reach Unlapped s → Inv s
Reach-Inv start = empty_ring-Inv
Reach-Inv (later r st) = Step-Inv st (Reach-Inv r)

-- No breadcrumb is torn. In every state that any number of producer threads and the watcher can
-- reach, one shared access at a time and in any order, a call of `read_breadcrumb` that has returned
-- an entry has returned the entry that its ticket was taken for, whole. The condition on the steps
-- is that no ticket is taken while a thread is still writing the slot it leads to, and that twice
-- the ticket fits 64 bits.
pub read-untorn :
    {s : Ring}
    → Reach Unlapped s
    → (t : ℕ) (b : Breadcrumb) → s.reader ≡ finished t (some b)
    → s.issued t ≡ some b
read-untorn {s} r t b e = (subst (ReaderOk s.newest s.issued s.slots) e (Reach-Inv r).watching).1

-- All the stores of one call, by thread `i` without interference.
unfoldable pub written : Ring → ℕ → ℕ → Breadcrumb → Ring
written s i t b =
    stored
      (stored
        (stored
          (stored
            (stored
              (stored (stored (stored s i close_slot t b) i put_ticket t b) i put_timestamp t b) i
              put_arg0 t b)
            i put_arg1 t b)
          i put_source t b)
        i put_event t b)
      i open_slot t b

-- After some of the stores: the thread stands at `w`, its slot holds `x`.
abbrev Wrote : (Ring → Type 0) → Ring → Ring → ℕ → ℕ → Writer → BreadcrumbSlot → Type 0
Wrote Allowed o s i t w x = (s.writer i ≡ w) × (s.slots (slot_index t) ≡ x) × Run Allowed o s

then_write :
    {Allowed : Ring → Type 0} {o s : Ring} {x : BreadcrumbSlot} (i : ℕ) (next : Store) (t : ℕ)
    (b : Breadcrumb)
    → Wrote Allowed o s i t (writing next t b) x
    → Wrote Allowed o (stored s i next t b) i t (after_store next t b) (store next t b x)
then_write {s} i next t b (here, holds, r) = (
  update_self s.writer i (after_store next t b),
  update_self s.slots (slot_index t) (store next t b (s.slots (slot_index t)))
      ∙ ap (store next t b) holds,
  later r (write i next t b here),
)

-- A whole call leaves the thread idle and the slot filled.
pub written-Wrote :
    {Allowed : Ring → Type 0} {o s : Ring} (i t : ℕ) (b : Breadcrumb)
    → s.writer i ≡ writing close_slot t b
    → Run Allowed o s
    → Wrote Allowed o (written s i t b) i t idle (fill_slot t b (s.slots (slot_index t)))
unfolding written fill_slot
written-Wrote i t b here r = then_write i open_slot t b (
    then_write i put_event t b (
      then_write i put_source t b (
        then_write i put_arg1 t b (
          then_write i put_arg0 t b (
            then_write i put_timestamp t b
              (then_write i put_ticket t b (then_write i close_slot t b (here, refl, r))))))))

-- All the loads of one call on a slot that nobody writes meanwhile.
unfoldable pub full_read : ℕ → BreadcrumbSlot → Reader
full_read t slot =
    read_step
      (read_step
        (read_step
          (read_step (read_step (read_step (read_step (begin_read t slot) slot) slot) slot) slot)
          slot)
        slot)
      slot

-- The loads one by one come to what `read_breadcrumb` returns in one go.
pub full_read-eq :
    (t : ℕ) (slot : BreadcrumbSlot) → full_read t slot ≡ finished t (read_breadcrumb slot t)
unfolding full_read read_step begin_read read_breadcrumb
full_read-eq t slot = ground arith

reading_ticket :
    (next : Load) (t : ℕ) (got : Breadcrumb) (slot : BreadcrumbSlot)
    → reader_ticket (read_step (reading next t got) slot) ≡ t
unfolding read_step
reading_ticket load_commit t got slot = ground arith
reading_ticket load_ticket t got slot = ground arith
reading_ticket next t got slot = refl

reader_ticket-begin_read : (t : ℕ) (slot : BreadcrumbSlot) → reader_ticket (begin_read t slot) ≡ t
unfolding begin_read
reader_ticket-begin_read t slot = ground arith

reader_ticket-read_step :
    (r : Reader) (slot : BreadcrumbSlot) → reader_ticket (read_step r slot) ≡ reader_ticket r
unfolding read_step
reader_ticket-read_step ready slot = refl
reader_ticket-read_step (finished t x) slot = refl
reader_ticket-read_step (reading next t got) slot = reading_ticket next t got slot

unfoldable pub after_read : Ring → Ring
after_read s = record s {
  reader = read_step s.reader (s.slots (slot_index (reader_ticket s.reader)));
}

abbrev pub begun : Ring → ℕ → Ring
begun s t = record s { reader = begin_read t (s.slots (slot_index t)) }

-- The watcher's steps, as a relation on rings that is closed under them.
module _ (R : Ring → Type 0) (reads : (s : Ring) → R s → R (after_read s)) where
  abbrev Watched : Ring → Reader → ℕ → BreadcrumbSlot → Type 0
  Watched s r t slot =
      (s.reader ≡ r) × (reader_ticket r ≡ t) × (s.slots (slot_index t) ≡ slot) × R s

  then_read :
      {s : Ring} (r : Reader) (t : ℕ) (slot : BreadcrumbSlot)
      → Watched s r t slot
      → Watched (after_read s) (read_step r slot) t slot
  unfolding after_read
  then_read {s} r t slot (at, of_ticket, holds, reached) = (
    rw (at, of_ticket, holds),
    reader_ticket-read_step r slot ∙ of_ticket,
    holds,
    reads s reached,
  )

  -- A ticket can be read through without interference.
  pub watched :
      (s : Ring) (t : ℕ) (slot : BreadcrumbSlot)
      → s.slots (slot_index t) ≡ slot
      → R (begun s t)
      → (s' : Ring) × (s'.reader ≡ finished t (read_breadcrumb slot t))
        × R s'
        × (s'.issued ≡ s.issued)
        × (s'.writer ≡ s.writer)
  unfolding after_read
  watched s t slot holds r =
      let begin_read-Watched : Watched (begun s t) (begin_read t slot) t slot =
        (ap (begin_read t) holds, reader_ticket-begin_read t slot, holds, r) in
      let w = then_read _ t slot (
        then_read _ t slot (
          then_read _ t slot (
            then_read _ t slot (
              then_read _ t slot (
                then_read _ t slot (then_read (begin_read t slot) t slot begin_read-Watched)))))) in
      (_, w.0 ∙ (unfold full_read in full_read-eq t slot), w.3, refl, refl)

pub watched-Run :
    {Allowed : Ring → Type 0} {o s : Ring} (t : ℕ) (slot : BreadcrumbSlot)
    → 0 < t
    → t ≤ s.newest
    → s.slots (slot_index t) ≡ slot
    → Run Allowed o s
    → (s' : Ring) × (s'.reader ≡ finished t (read_breadcrumb slot t))
      × Run Allowed o s'
      × (s'.issued ≡ s.issued)
unfolding after_read
watched-Run {Allowed} {o} {s} t slot pos le holds r =
    let (s', shown, run, same, _) =
      watched (Run Allowed o) (λ _ ran. later ran read) s t slot holds (later r (begin t pos le)) in
    (s', shown, run, same)

pub written-newest : (s : Ring) (i t : ℕ) (b : Breadcrumb) → (written s i t b).newest ≡ s.newest
unfolding written
written-newest s i t b = refl

pub written-issued : (s : Ring) (i t : ℕ) (b : Breadcrumb) → (written s i t b).issued ≡ s.issued
unfolding written
written-issued s i t b = refl

-- A breadcrumb that is recorded can be read. From every state of the ring, whatever the watcher is at, in
-- which a thread is outside `breadcrumb`, no other thread is at the slot of the next ticket and twice
-- that ticket fits 64 bits, a run leads on, for any entry whose numbers fit 16 bits, to a state in which
-- the next ticket has been taken for that entry and a call of the watcher has returned it, whole, for
-- that ticket.
pub solo_round_trip :
    (s : Ring) (i : ℕ) (b : Breadcrumb)
    → s.writer i ≡ idle
    → Unlapped s
    → Fits b
    → (s' : Ring) × Run Unlapped s s'
      × (s'.issued (s.newest + 1) ≡ some b)
      × (s'.reader ≡ finished (s.newest + 1) (some b))
solo_round_trip s i b outside free fits =
    let t : ℕ = s.newest + 1 in
    let c : Ring = claimed s i b in
    let taken : Run Unlapped s c = later start (claim i b fits.0 fits.1 outside free) in
    let w = written-Wrote i t b (update_self s.writer i (writing close_slot t b)) taken in
    let (s', shown, run, same) =
      watched-Run t _ (omega arith) (omega (arith, written-newest c i t b)) w.1 w.2 in
    (
      s',
      run,
      ap (λ f. f t) (same ∙ written-issued c i t b) ∙ update_self s.issued t (some b),
      shown ∙ ap (finished t) (read_breadcrumb-fill_slot t b _ fits),
    )
