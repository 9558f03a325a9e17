-- ===== src/Seqlock/Early.antt =====
-- A slot as it is seen while some stores of `breadcrumb`, in core/src/monitor/client.cpp, are seen before
-- their place in the program.
use peepbooth.Base.{ℕ, ◌<◌, ◌≡◌, refl, Bool, true, false, ◌||◌, ◌==◌, if◌then◌else◌, arith}
use peepbooth.SharedState.{BreadcrumbSlot, Breadcrumb}
use peepbooth.Client.{
  Store, close_slot, put_ticket, put_timestamp, put_arg0, put_arg1, put_source, put_event,
  open_slot, store, pack_event,
}
use peepbooth.Seqlock.Invariant.{Stored}
use peepbooth.Seqlock.Weak.{place}

-- The slot of a thread at its place, with the stores `ahead` made as well.
abbrev pub with_early : (Store → Bool) → ℕ → Breadcrumb → BreadcrumbSlot → BreadcrumbSlot
with_early ahead t b slot = record slot {
  ticket = if ahead put_ticket then t else slot.ticket;
  timestamp_ns = if ahead put_timestamp then b.timestamp_ns else slot.timestamp_ns;
  arg0 = if ahead put_arg0 then b.arg0 else slot.arg0;
  arg1 = if ahead put_arg1 then b.arg1 else slot.arg1;
  source_id = if ahead put_source then b.source_id else slot.source_id;
  event_and_flags = if ahead put_event then pack_event b.event_id b.flags else slot.event_and_flags;
}

pub with_early-overtaken :
    (ahead : Store → Bool) (x : Store) (t : ℕ) (b : Breadcrumb) (slot : BreadcrumbSlot)
    → 0 < place x
    → place x < 7
    → store x t b (with_early ahead t b slot)
      ≡ with_early (λ y. (place y == place x) || ahead y) t b slot
unfolding store
with_early-overtaken ahead close_slot t b slot first last = absurd (omega arith)
with_early-overtaken ahead put_ticket t b slot first last = refl
with_early-overtaken ahead put_timestamp t b slot first last = refl
with_early-overtaken ahead put_arg0 t b slot first last = refl
with_early-overtaken ahead put_arg1 t b slot first last = refl
with_early-overtaken ahead put_source t b slot first last = refl
with_early-overtaken ahead put_event t b slot first last = refl
with_early-overtaken ahead open_slot t b slot first last = absurd (omega arith)

-- A store at its place that was not seen before.
pub with_early-store :
    (ahead : Store → Bool) (x : Store) (t : ℕ) (b : Breadcrumb) (slot : BreadcrumbSlot)
    → ahead x ≡ false
    → store x t b (with_early ahead t b slot) ≡ with_early ahead t b (store x t b slot)
unfolding store
with_early-store ahead close_slot t b slot h = refl
with_early-store ahead put_ticket t b slot h = rw h refl
with_early-store ahead put_timestamp t b slot h = rw h refl
with_early-store ahead put_arg0 t b slot h = rw h refl
with_early-store ahead put_arg1 t b slot h = rw h refl
with_early-store ahead put_source t b slot h = rw h refl
with_early-store ahead put_event t b slot h = rw h refl
with_early-store ahead open_slot t b slot h = refl

-- One that was.
pub with_early-passed :
    (ahead : Store → Bool) (x : Store) (t : ℕ) (b : Breadcrumb) (slot : BreadcrumbSlot)
    → ahead x ≡ true
    → ahead close_slot ≡ false
    → ahead open_slot ≡ false
    → with_early ahead t b slot ≡ with_early ahead t b (store x t b slot)
unfolding store
with_early-passed ahead close_slot t b slot h closes opens = absurd (ground (arith, h, closes))
with_early-passed ahead put_ticket t b slot h closes opens = rw h refl
with_early-passed ahead put_timestamp t b slot h closes opens = rw h refl
with_early-passed ahead put_arg0 t b slot h closes opens = rw h refl
with_early-passed ahead put_arg1 t b slot h closes opens = rw h refl
with_early-passed ahead put_source t b slot h closes opens = rw h refl
with_early-passed ahead put_event t b slot h closes opens = rw h refl
with_early-passed ahead open_slot t b slot h closes opens = absurd (ground (arith, h, opens))

if-same : (early : Bool) (x y : ℕ) → y ≡ x → (if early then x else y) ≡ y
if-same early x y h = ground (arith, h)

-- Before the last store nothing is left to be seen.
pub with_early-done :
    (ahead : Store → Bool) (t : ℕ) (b : Breadcrumb) (slot : BreadcrumbSlot)
    → slot.ticket ≡ t
    → Stored open_slot t b slot
    → with_early ahead t b slot ≡ slot
with_early-done ahead t b slot ticket (commit, time, first, second, source, event) =
    rw
      (
        if-same (ahead put_ticket) t slot.ticket ticket,
        if-same (ahead put_timestamp) b.timestamp_ns slot.timestamp_ns time,
        if-same (ahead put_arg0) b.arg0 slot.arg0 first,
        if-same (ahead put_arg1) b.arg1 slot.arg1 second,
        if-same (ahead put_source) b.source_id slot.source_id source,
        if-same (ahead put_event) (pack_event b.event_id b.flags) slot.event_and_flags event,
      )
      refl
