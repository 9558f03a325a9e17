-- ===== src/Seqlock/Weak.antt =====
-- The stores of core/src/monitor/client.cpp, `breadcrumb`, in an order that their memory orders allow. A
-- `seq_cst` store of `commit` is seen behind all stores that stand before it in the program; a `relaxed`
-- store of the payload may be seen before the store of `commit` that closes the slot, or before another
-- of the payload.
use peepbooth.Base.{
  ℕ, ◌≤◌, ◌<◌, ◌^◌, ◌≡◌, refl, Bool, true, false, ◌||◌, ◌==◌, update, update_cases, subst, fun_ext,
}
use peepbooth.SharedState.{Breadcrumb}
use peepbooth.Client.{
  Store, close_slot, put_ticket, put_timestamp, put_arg0, put_arg1, put_source, put_event,
  open_slot, slot_index, store,
}
use peepbooth.Seqlock.{
  idle, writing, after_store, Ring, claimed, stored, Step, claim, write, begin, read, Reach, start,
  later, empty_ring,
}
use peepbooth.Seqlock.Safety.{after_read, begun}

-- The place of a store in the program.
abbrev pub place : Store → ℕ
place close_slot = 0
place put_ticket = 1
place put_timestamp = 2
place put_arg0 = 3
place put_arg1 = 4
place put_source = 5
place put_event = 6
place open_slot = 7

-- The ring as it is seen, each thread at its place in the program, with the stores of its call that are
-- seen ahead of that place.
pub record WeakRing : Type 0 where
  pub ring : Ring
  pub ahead : ℕ → Store → Bool

abbrev pub none_ahead : Store → Bool
none_ahead _ = false

abbrev pub in_order : Ring → WeakRing
in_order s = record { ring = s; ahead = λ _. none_ahead }

-- A store is seen before its place, and the thread stays where it is.
abbrev pub overtaken : WeakRing → ℕ → Store → ℕ → Breadcrumb → WeakRing
overtaken s i x t b = record {
  ring = record s.ring {
    slots = update s.ring.slots (slot_index t) (store x t b (s.ring.slots (slot_index t)));
  };
  ahead = update s.ahead i (λ y. (place y == place x) || s.ahead i y);
}

-- One event, as in `Seqlock.Step`, but that a store may be seen early and is then not seen again.
pub data WeakStep (Allowed : Ring → Type 0) (s : WeakRing) : WeakRing → Type 0 where
  weak_claim :
      (i : ℕ) (b : Breadcrumb)
      → b.event_id < 2 ^ 16
      → b.flags < 2 ^ 16
      → s.ring.writer i ≡ idle
      → Allowed s.ring
      → WeakStep Allowed s
          (record { ring = claimed s.ring i b; ahead = update s.ahead i none_ahead })
  overtake :
      (i : ℕ) (next x : Store) (t : ℕ) (b : Breadcrumb)
      → s.ring.writer i ≡ writing next t b
      → place next < place x
      → place x < 7
      → s.ahead i x ≡ false
      → WeakStep Allowed s (overtaken s i x t b)
  weak_write :
      (i : ℕ) (next : Store) (t : ℕ) (b : Breadcrumb)
      → s.ring.writer i ≡ writing next t b
      → s.ahead i next ≡ false
      → WeakStep Allowed s (record s { ring = stored s.ring i next t b })
  pass :
      (i : ℕ) (next : Store) (t : ℕ) (b : Breadcrumb)
      → s.ring.writer i ≡ writing next t b
      → s.ahead i next ≡ true
      → WeakStep Allowed s (record s {
        ring = record s.ring { writer = update s.ring.writer i (after_store next t b) };
      })
  weak_begin :
      (t : ℕ) → 0 < t → t ≤ s.ring.newest → WeakStep Allowed s (record s { ring = begun s.ring t })
  weak_read : WeakStep Allowed s (record s { ring = after_read s.ring })

-- Any number of events, from `o` on.
pub data WeakRun (Allowed : Ring → Type 0) (o : WeakRing) : WeakRing → Type 0 where
  weak_start : WeakRun Allowed o o
  weak_later : {s t : WeakRing} → WeakRun Allowed o s → WeakStep Allowed s t → WeakRun Allowed o t

abbrev pub WeakReach : (Ring → Type 0) → WeakRing → Type 0
WeakReach Allowed = WeakRun Allowed (in_order empty_ring)

-- A write of what is there already.
update_same : (i : ℕ) → update (λ _. none_ahead) i none_ahead ≡ (λ _. none_ahead)
update_same i =
    fun_ext λ j.
      update_cases (λ f. f ≡ none_ahead) (λ _. none_ahead) i j none_ahead (λ _. refl) (λ _. refl)

Step-WeakStep :
    {Allowed : Ring → Type 0} {s t : Ring}
    → Step Allowed s t
    → WeakStep Allowed (in_order s) (in_order t)
unfolding after_read
Step-WeakStep {Allowed} {s} (claim i b fe ff out free) =
    subst
      (λ (f : ℕ → Store → Bool).
        WeakStep Allowed (in_order s) (record { ring = claimed s i b; ahead = f }))
      (update_same i) (weak_claim i b fe ff out free)
Step-WeakStep (write i next t b at) = weak_write i next t b at refl
Step-WeakStep (begin t pos le) = weak_begin t pos le
Step-WeakStep read = weak_read

-- Every run with its stores in order is one that the memory orders allow.
pub in_order-WeakReach :
    {Allowed : Ring → Type 0} {s : Ring} → Reach Allowed s → WeakReach Allowed (in_order s)
in_order-WeakReach start = weak_start
in_order-WeakReach (later r step) = weak_later (in_order-WeakReach r) (Step-WeakStep step)
