-- ===== src/Seqlock/Stores.antt =====
-- What one store of `breadcrumb` in core/src/monitor/client.cpp does to a slot and to those who use it.
use peepbooth.Base.{
  ℕ, ◌+◌, ◌*◌, ◌^◌, ◌≤◌, ◌<◌, ◌≡◌, inl, inr, Option, none, some, arith, update, update_ne,
  update_cases, sym, subst,
}
use peepbooth.SharedState.{BreadcrumbSlot, Breadcrumb}
use peepbooth.Client.{Store, close_slot, open_slot, slot_index, store}
use peepbooth.Session.{slot_payload}
use peepbooth.Seqlock.{
  Writer, idle, writing, Reader, ready, reading, finished, after_store, Elsewhere, Load,
}
use peepbooth.Seqlock.Invariant.{Stored, WriterOk, ReaderOk, Apart, Copied}

-- A slot that has just been opened holds the entry of its ticket.
opened-payload :
    (t : ℕ) (b : Breadcrumb) (slot : BreadcrumbSlot)
    → b.event_id < 2 ^ 16
    → b.flags < 2 ^ 16
    → Stored open_slot t b slot
    → slot_payload (store open_slot t b slot) ≡ b
unfolding store slot_payload
opened-payload t b slot fe ff h = ground arith

-- The next store's condition.
pub after-Stored :
    (next : Store) (t : ℕ) (b : Breadcrumb) (slot : BreadcrumbSlot) (newest : ℕ)
    (issued : ℕ → Option Breadcrumb) (slots : ℕ → BreadcrumbSlot)
    → newest < 2 ^ 63
    → WriterOk newest issued slots (writing next t b)
    → slots (slot_index t) ≡ slot
    → WriterOk newest issued
        (update slots (slot_index t) (store next t b slot))
        (after_store next t b)
unfolding store
after-Stored close_slot t b slot newest issued slots small h e = ground arith
after-Stored next t b slot newest issued slots small h e = ground arith

-- A thread at another slot notices nothing.
pub other-WriterOk :
    (newest : ℕ) (issued : ℕ → Option Breadcrumb) (slots : ℕ → BreadcrumbSlot) (w : Writer) (k : ℕ)
    (slot : BreadcrumbSlot)
    → Elsewhere w k
    → WriterOk newest issued slots w
    → WriterOk newest issued (update slots k slot) w
other-WriterOk newest issued slots idle k slot away h = tt
other-WriterOk newest issued slots (writing next t b) k slot away h =
    rw (update_ne slots k (slot_index t) slot (λ e. away (sym e))) h

pub store-commit-le :
    (next : Store) (t : ℕ) (b : Breadcrumb) (slot : BreadcrumbSlot) (newest : ℕ)
    → newest < 2 ^ 63
    → t ≤ newest
    → slot.commit ≤ newest * 2 + 1
    → (store next t b slot).commit ≤ newest * 2 + 1
unfolding store
store-commit-le close_slot t b slot newest small le h = omega arith
store-commit-le next t b slot newest small le h = omega arith

pub store-committed :
    (next : Store) (t : ℕ) (b : Breadcrumb) (slot : BreadcrumbSlot) (u : ℕ)
    → t < 2 ^ 63
    → b.event_id < 2 ^ 16
    → b.flags < 2 ^ 16
    → Stored next t b slot
    → (store next t b slot).commit ≡ u * 2
    → (t ≡ u) × (slot_payload (store next t b slot) ≡ b)
unfolding store slot_payload
store-committed open_slot t b slot u small fe ff h e = ground arith
store-committed close_slot t b slot u small fe ff h e = absurd (omega arith)
store-committed next t b slot u small fe ff h e = absurd (omega arith)

store-Copied :
    (next : Store) (t : ℕ) (b : Breadcrumb) (slot : BreadcrumbSlot) (load : Load) (u : ℕ)
    (got : Breadcrumb)
    → t < 2 ^ 63
    → Stored next t b slot
    → Copied load u got slot
    → Copied load u got (store next t b slot)
unfolding store
store-Copied close_slot t b slot load u got small h (inl c) = inr (omega arith)
store-Copied next t b slot load u got small h (inl c) = absurd (omega arith)
store-Copied close_slot t b slot load u got small h (inr c) = inr (omega arith)
store-Copied next t b slot load u got small h (inr c) = inr (omega arith)

pub Apart-Elsewhere :
    (next : Store) (t : ℕ) (b : Breadcrumb) (w : Writer)
    → Apart (writing next t b) w
    → Elsewhere w (slot_index t)
Apart-Elsewhere next t b idle h = tt
Apart-Elsewhere next t b (writing _ u _) h = λ e. h (sym e)

pub Apart-symm : (v w : Writer) → Apart v w → Apart w v
Apart-symm idle idle h = tt
Apart-symm idle (writing _ u _) h = tt
Apart-symm (writing _ t _) idle h = tt
Apart-symm (writing _ t _) (writing _ u _) h = λ e. h (sym e)

pub after-Apart :
    (next : Store) (t : ℕ) (b : Breadcrumb) (w : Writer)
    → Apart (writing next t b) w
    → Apart (after_store next t b) w
after-Apart open_slot t b w h = tt
after-Apart close_slot t b idle h = tt
after-Apart close_slot t b (writing _ u _) h = h
after-Apart next t b idle h = tt
after-Apart next t b (writing _ u _) h = h

pub store-ReaderOk :
    (newest : ℕ) (issued : ℕ → Option Breadcrumb) (slots : ℕ → BreadcrumbSlot) (r : Reader)
    (next : Store) (t : ℕ) (b : Breadcrumb)
    → newest < 2 ^ 63
    → WriterOk newest issued slots (writing next t b)
    → ReaderOk newest issued slots r
    → ReaderOk newest issued (update slots (slot_index t) (store next t b (slots (slot_index t)))) r
store-ReaderOk newest issued slots ready next t b small w h = tt
store-ReaderOk newest issued slots (finished u none) next t b small w h = tt
store-ReaderOk newest issued slots (finished u (some c)) next t b small w h = h
store-ReaderOk newest issued slots (reading load u got) next t b small w h = (
  h.0,
  h.1,
  update_cases (Copied load u got) slots (slot_index t) (slot_index u)
      (store next t b (slots (slot_index t)))
      (λ same.
        store-Copied next t b (slots (slot_index t)) load u got (omega arith) w.5
          (subst (λ k. Copied load u got (slots k)) (sym same) h.2))
      (λ _. h.2),
)
