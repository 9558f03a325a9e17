-- ===== src/Seqlock/InOrder.antt =====
-- The ring that a run of `breadcrumb`, in core/src/monitor/client.cpp, would give in order, and a store that is
-- seen at its place.
use peepbooth.Base.{ℕ, ◌≡◌, refl, sym, ap, ◌∙◌, subst, Bool, false, update, update_self, update_ne}
use peepbooth.SharedState.{BreadcrumbSlot, Breadcrumb}
use peepbooth.Client.{
  Store, close_slot, put_ticket, put_timestamp, put_arg0, put_arg1, put_source, put_event,
  open_slot, slot_index, store,
}
use peepbooth.Seqlock.{
  writing, after_store, ready, Ring, Reach, later, write, Unlapped, Elsewhere, stored,
}
use peepbooth.Seqlock.Invariant.{WriterOk}
use peepbooth.Seqlock.Safety.{Reach-Inv}
use peepbooth.Seqlock.Newest.{TicketOk, Reach-Fresh}
use peepbooth.Seqlock.Weak.{WeakRing}
use peepbooth.Seqlock.Early.{with_early, with_early-store, with_early-done}
use peepbooth.Seqlock.Follows.{Early, Follows, moved-Follows}

-- The ring in order: the same tickets and threads over slots of its own.
abbrev in_shadow : Ring → (ℕ → BreadcrumbSlot) → Ring
in_shadow s slots = record s { slots = slots; reader = ready }

pub record Shadow (w : WeakRing) : Type 0 where
  pub slots : ℕ → BreadcrumbSlot
  pub reached : Reach Unlapped (in_shadow w.ring slots)
  pub inner : (i : ℕ) → (w.ahead i close_slot ≡ false) × (w.ahead i open_slot ≡ false)
  pub follows : Follows w.ring.slots slots w.ahead w.ring.writer

pub after_store-Early :
    (slots shadow : ℕ → BreadcrumbSlot) (ahead : Store → Bool) (next : Store) (t : ℕ)
    (b : Breadcrumb)
    → slots (slot_index t) ≡ with_early ahead t b (shadow (slot_index t))
    → Early slots shadow ahead (after_store next t b)
after_store-Early slots shadow ahead close_slot t b e = e
after_store-Early slots shadow ahead put_ticket t b e = e
after_store-Early slots shadow ahead put_timestamp t b e = e
after_store-Early slots shadow ahead put_arg0 t b e = e
after_store-Early slots shadow ahead put_arg1 t b e = e
after_store-Early slots shadow ahead put_source t b e = e
after_store-Early slots shadow ahead put_event t b e = e
after_store-Early slots shadow ahead open_slot t b e = tt

-- A thread that has left its slot has made its last store.
pub left-open_slot :
    (next : Store) (t : ℕ) (b : Breadcrumb)
    → Elsewhere (after_store next t b) (slot_index t)
    → next ≡ open_slot
left-open_slot close_slot t b away = absurd (away refl)
left-open_slot put_ticket t b away = absurd (away refl)
left-open_slot put_timestamp t b away = absurd (away refl)
left-open_slot put_arg0 t b away = absurd (away refl)
left-open_slot put_arg1 t b away = absurd (away refl)
left-open_slot put_source t b away = absurd (away refl)
left-open_slot put_event t b away = absurd (away refl)
left-open_slot open_slot t b away = refl

open_slot-done :
    (s : Ring) (ahead : Store → Bool) (i t : ℕ) (b : Breadcrumb)
    → Reach Unlapped s
    → s.writer i ≡ writing open_slot t b
    → with_early ahead t b (s.slots (slot_index t)) ≡ s.slots (slot_index t)
open_slot-done s ahead i t b r here =
    let ok : WriterOk s.newest s.issued s.slots (writing open_slot t b) =
      subst (WriterOk s.newest s.issued s.slots) here ((Reach-Inv r).running i) in
    let ticket : TicketOk s.slots (writing open_slot t b) =
      subst (TicketOk s.slots) here ((Reach-Fresh r).tickets i) in
    with_early-done ahead t b (s.slots (slot_index t)) ticket ok.5

pub Shadow-write :
    (w : WeakRing) (i : ℕ) (next : Store) (t : ℕ) (b : Breadcrumb)
    → w.ring.writer i ≡ writing next t b
    → w.ahead i next ≡ false
    → Shadow w
    → Shadow (record w { ring = stored w.ring i next t b })
Shadow-write w i next t b here fresh h =
    let k = slot_index t in
    let old : w.ring.slots k ≡ with_early (w.ahead i) t b (h.slots k) =
      subst (Early w.ring.slots h.slots (w.ahead i)) here (h.follows.busy i) in
    let slots' = update w.ring.slots k (store next t b (w.ring.slots k)) in
    let shadow' = update h.slots k (store next t b (h.slots k)) in
    let mine : slots' k ≡ store next t b (w.ring.slots k) = update_self w.ring.slots k _ in
    let its : shadow' k ≡ store next t b (h.slots k) = update_self h.slots k _ in
    let writer' = update w.ring.writer i (after_store next t b) in
    let moved : writer' i ≡ after_store next t b = update_self w.ring.writer i _ in
    record {
      slots = shadow';
      reached = later h.reached (write i next t b here);
      inner = h.inner;
      follows =
          moved-Follows w.ring.slots h.slots slots' shadow' w.ahead w.ahead w.ring.writer writer' i
            next t b here (λ j. update_ne w.ring.writer i j _) (λ _ _. refl)
            (λ j. update_ne w.ring.slots k j _) (λ j. update_ne h.slots k j _)
            (λ j. (Reach-Inv h.reached).apart i j) h.follows
            (subst (Early slots' shadow' (w.ahead i)) (sym moved) (
              after_store-Early slots' shadow' (w.ahead i) next t b (
                mine
                ∙ ap (store next t b) old
                ∙ with_early-store (w.ahead i) next t b (h.slots k) fresh
                ∙ ap (with_early (w.ahead i) t b) (sym its))))
            (λ away.
              let last : next ≡ open_slot =
                left-open_slot next t b (subst (λ x. Elsewhere x k) moved away) in
              mine
              ∙ ap (store next t b) (
                  old
                  ∙ open_slot-done (in_shadow w.ring h.slots) (w.ahead i) i t b h.reached
                      (here ∙ ap (λ x. writing x t b) last))
              ∙ sym its);
    }
