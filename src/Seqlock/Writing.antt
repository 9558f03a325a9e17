-- ===== src/Seqlock/Writing.antt =====
-- The steps of the producer threads keep the invariant.
use peepbooth.Base.{
  ℕ, ◌+◌, ◌*◌, ◌^◌, ◌≤◌, ◌<◌, ◌≡◌, ◌≢◌, refl, Option, none, some, arith, update, update_ne,
  update_self, update_cases, ◌∙◌, sym, subst,
}
use peepbooth.SharedState.{BreadcrumbSlot, Breadcrumb}
use peepbooth.Client.{Store, close_slot, slot_index, store}
use peepbooth.Session.{slot_payload}
use peepbooth.Seqlock.{
  Writer, idle, writing, Reader, ready, reading, finished, Ring, claimed, stored, after_store,
  Unlapped, Elsewhere,
}
use peepbooth.Seqlock.Invariant.{WriterOk, ReaderOk, Apart, Inv}
use peepbooth.Seqlock.Stores.{
  after-Stored, other-WriterOk, store-commit-le, store-committed, Apart-Elsewhere, Apart-symm,
  after-Apart, store-ReaderOk,
}

-- A write keeps each part of the invariant.
module _ (s : Ring) (inv : Inv s) (i : ℕ) (next : Store) (t : ℕ) (b : Breadcrumb)
    (here : s.writer i ≡ writing next t b) where
  abbrev slot : BreadcrumbSlot
  slot = s.slots (slot_index t)

  own : WriterOk s.newest s.issued s.slots (writing next t b)
  own = subst (WriterOk s.newest s.issued s.slots) here (inv.running i)

  write-bounded : (j : ℕ) → ((stored s i next t b).slots j).commit ≤ s.newest * 2 + 1
  write-bounded j =
      update_cases (λ x. x.commit ≤ s.newest * 2 + 1) s.slots (slot_index t) j (store next t b slot)
        (λ _. store-commit-le next t b slot s.newest inv.small own.1 (inv.bounded (slot_index t)))
        (λ _. inv.bounded j)

  write-committed :
      (j u : ℕ)
      → 0 < u
      → ((stored s i next t b).slots j).commit ≡ u * 2
      → s.issued u ≡ some (slot_payload ((stored s i next t b).slots j))
  write-committed j u pos =
      update_cases (λ x. x.commit ≡ u * 2 → s.issued u ≡ some (slot_payload x)) s.slots
        (slot_index t) j (store next t b slot)
        (λ _ e.
          let (same, holds) =
            store-committed next t b slot u (omega (arith, own.1, inv.small)) own.3 own.4 own.5 e in
          cc (own.2, same, holds))
        (λ _. inv.committed j u pos)

  -- The threads other than `i` are at other slots.
  away : (j : ℕ) → i ≢ j → Elsewhere (s.writer j) (slot_index t)
  away j other =
      Apart-Elsewhere next t b (s.writer j)
        (subst (λ w. Apart w (s.writer j)) here (inv.apart i j other))

  write-running :
      (j : ℕ)
      → WriterOk s.newest s.issued (stored s i next t b).slots ((stored s i next t b).writer j)
  write-running j =
      update_cases (WriterOk s.newest s.issued (stored s i next t b).slots) s.writer i j
        (after_store next t b)
        (λ _. after-Stored next t b slot s.newest s.issued s.slots inv.small own refl)
        (λ other.
          other-WriterOk s.newest s.issued s.slots (s.writer j) (slot_index t) (store next t b slot)
            (away j other) (inv.running j))

  write-Apart :
      (j k : ℕ) → j ≢ k → Apart ((stored s i next t b).writer j) ((stored s i next t b).writer k)
  write-Apart j k differ =
      update_cases (λ w. Apart w ((stored s i next t b).writer k)) s.writer i j
        (after_store next t b)
        (λ e.
          update_cases (Apart (after_store next t b)) s.writer i k (after_store next t b)
            (λ f. absurd (differ (sym e ∙ f)))
            (λ other.
              after-Apart next t b (s.writer k)
                (subst (λ w. Apart w (s.writer k)) here (inv.apart i k other))))
        (λ away_j.
          update_cases (Apart (s.writer j)) s.writer i k (after_store next t b)
            (λ _. Apart-symm (after_store next t b) (s.writer j) (
              after-Apart next t b (s.writer j)
                (subst (λ w. Apart w (s.writer j)) here (inv.apart i j away_j))))
            (λ _. inv.apart j k differ))

  pub write-Inv : Inv (stored s i next t b)
  write-Inv = record {
    small = inv.small;
    bounded = write-bounded;
    committed = write-committed;
    running = write-running;
    apart = write-Apart;
    watching =
        store-ReaderOk s.newest s.issued s.slots s.reader next t b inv.small own inv.watching;
  }

claim-WriterOk :
    (newest : ℕ) (issued : ℕ → Option Breadcrumb) (slots : ℕ → BreadcrumbSlot) (w : Writer)
    (b : Breadcrumb)
    → WriterOk newest issued slots w
    → WriterOk (newest + 1) (update issued (newest + 1) (some b)) slots w
claim-WriterOk newest issued slots idle b h = tt
claim-WriterOk newest issued slots (writing next t c) b h =
    (h.0, omega arith, update_ne issued (newest + 1) t (some b) (omega arith) ∙ h.2, h.3, h.4, h.5)

claim-ReaderOk :
    (newest : ℕ) (issued : ℕ → Option Breadcrumb) (slots : ℕ → BreadcrumbSlot) (r : Reader)
    (b : Breadcrumb)
    → ReaderOk newest issued slots r
    → ReaderOk (newest + 1) (update issued (newest + 1) (some b)) slots r
claim-ReaderOk newest issued slots ready b h = tt
claim-ReaderOk newest issued slots (finished t none) b h = tt
claim-ReaderOk newest issued slots (finished t (some c)) b h =
    (omega arith, update_ne issued (newest + 1) t (some b) (omega arith) ∙ h.1)
claim-ReaderOk newest issued slots (reading next t got) b h = (h.0, omega arith, h.2)

-- Taking a ticket whose slot is free keeps the invariant.
module _ (s : Ring) (inv : Inv s) (i : ℕ) (b : Breadcrumb) (fe : b.event_id < 2 ^ 16)
    (ff : b.flags < 2 ^ 16) (free : Unlapped s) where
  claim-committed :
      (j t : ℕ)
      → 0 < t
      → (s.slots j).commit ≡ t * 2
      → (claimed s i b).issued t ≡ some (slot_payload (s.slots j))
  claim-committed j t pos e =
      update_ne s.issued (s.newest + 1) t (some b) (omega (arith, inv.bounded j))
      ∙ inv.committed j t pos e

  claim-running :
      (j : ℕ) → WriterOk (s.newest + 1) (claimed s i b).issued s.slots ((claimed s i b).writer j)
  claim-running j =
      update_cases (WriterOk (s.newest + 1) (claimed s i b).issued s.slots) s.writer i j
        (writing close_slot (s.newest + 1) b)
        (λ _. (
          omega arith,
          omega arith,
          update_self s.issued (s.newest + 1) (some b),
          fe,
          ff,
          omega (arith, inv.bounded (slot_index (s.newest + 1))),
        ))
        (λ _. claim-WriterOk s.newest s.issued s.slots (s.writer j) b (inv.running j))

  new-Apart :
      (w : Writer)
      → Elsewhere w (slot_index (s.newest + 1))
      → Apart (writing close_slot (s.newest + 1) b) w
  new-Apart idle h = tt
  new-Apart (writing _ t _) h = λ e. h (sym e)

  claim-Apart : (j k : ℕ) → j ≢ k → Apart ((claimed s i b).writer j) ((claimed s i b).writer k)
  claim-Apart j k differ =
      update_cases (λ w. Apart w ((claimed s i b).writer k)) s.writer i j
        (writing close_slot (s.newest + 1) b)
        (λ e.
          update_cases (Apart (writing close_slot (s.newest + 1) b)) s.writer i k
            (writing close_slot (s.newest + 1) b) (λ f. absurd (differ (sym e ∙ f)))
            (λ _. new-Apart (s.writer k) (free.1 k)))
        (λ _.
          update_cases (Apart (s.writer j)) s.writer i k (writing close_slot (s.newest + 1) b)
            (λ _.
              Apart-symm (writing close_slot (s.newest + 1) b) (s.writer j)
                (new-Apart (s.writer j) (free.1 j)))
            (λ _. inv.apart j k differ))

  pub claim-Inv : Inv (claimed s i b)
  claim-Inv = record {
    small = free.0;
    bounded = λ j. omega (arith, inv.bounded j);
    committed = claim-committed;
    running = claim-running;
    apart = claim-Apart;
    watching = claim-ReaderOk s.newest s.issued s.slots s.reader b inv.watching;
  }
