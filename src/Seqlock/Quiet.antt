-- ===== src/Seqlock/Quiet.antt =====
-- What a snapshot shows when no producer is inside `breadcrumb`.
use Prim.Native.Nat.{min}
use peepbooth.Base.{
  ℕ, zero, suc, ◌+◌, ◌-◌, ◌*◌, ◌%◌, ◌^◌, ◌≤◌, ◌<◌, ◌≡◌, inl, inr, refl, some, arith, subst, map,
  range,
}
use peepbooth.SharedState.{BreadcrumbSlot, Breadcrumb, SharedState, breadcrumb_capacity, u64_mod}
use peepbooth.Client.{slot_index}
use peepbooth.Session.{
  read_breadcrumb, slot_payload, read_tickets, oldest_ticket, breadcrumb_history,
}
use peepbooth.Seqlock.{Ring, Reach, Unlapped, idle}
use peepbooth.Seqlock.Safety.{Reach-Inv}
use peepbooth.Seqlock.Newest.{Writes, Reach-Fresh}

abbrev pub Quiet : Ring → Type 0
Quiet s = (i : ℕ) → s.writer i ≡ idle

-- The entry of a ticket is there, and is what a read of its slot gives.
abbrev pub Readable : Ring → ℕ → Type 0
Readable s t =
    (b : Breadcrumb) × (s.issued t ≡ some b) × (read_breadcrumb (s.slots (slot_index t)) t ≡ some b)

read_breadcrumb-committed :
    (slot : BreadcrumbSlot) (t : ℕ)
    → t < 2 ^ 63
    → slot.commit ≡ t * 2
    → slot.ticket ≡ t
    → read_breadcrumb slot t ≡ some (slot_payload slot)
unfolding read_breadcrumb
read_breadcrumb-committed slot t small commit ticket =
    let word : t * 2 % u64_mod ≡ t * 2 = omega arith in ground (arith, commit, ticket, word)

pub Quiet-Readable :
    {s : Ring}
    → Reach Unlapped s
    → Quiet s
    → (t : ℕ) → 0 < t
    → t ≤ s.newest
    → s.newest < t + breadcrumb_capacity
    → Readable s t
Quiet-Readable {s} r quiet t pos le near =
    let inv = Reach-Inv r in
    elim ((Reach-Fresh r).present t pos le near) [
      | inl (i, at) ↦ absurd (subst (λ w. Writes w t) (quiet i) at)
      | inr (commit, ticket) ↦ (
        slot_payload (s.slots (slot_index t)),
        inv.committed (slot_index t) t pos commit,
        read_breadcrumb-committed (s.slots (slot_index t)) t (omega (arith, le, inv.small)) commit
            ticket,
      )
    ]

read_tickets-issued :
    (s : Ring) (fuel count t : ℕ)
    → s.newest < 2 ^ 63
    → ((u : ℕ) → t ≤ u → u ≤ s.newest → Readable s u)
    → 0 < t
    → t + count ≡ s.newest + 1
    → count ≤ fuel
    → map (λ b. some b) (read_tickets fuel t s.newest s.slots) ≡ map s.issued (range t count)
unfolding read_tickets
read_tickets-issued s zero zero t small all pos ends enough = refl
read_tickets-issued s zero (suc count) t small all pos ends enough = absurd (omega arith)
read_tickets-issued s (suc fuel) zero t small all pos ends enough = ground (arith, ends)
read_tickets-issued s (suc fuel) (suc count) t small all pos ends enough =
    let (b, issued, found) = all t (omega arith) (omega arith) in
    let next : (t + 1) % u64_mod ≡ suc t = omega arith in
    ground (
      arith,
      issued,
      found,
      next,
      ends,
      read_tickets-issued s fuel count (suc t) small (λ u le. all u (omega arith)) (omega arith)
          (omega arith) (omega arith),
    )

oldest_ticket-min :
    (newest : ℕ) → oldest_ticket newest ≡ newest + 1 - min newest breadcrumb_capacity
oldest_ticket-min newest = ground arith

-- A snapshot between calls is complete. In every state that any number of producers and the watcher
-- can reach, one shared access at a time, if no producer is inside `breadcrumb`, the history that the
-- watcher takes of the ring is the entries that the newest tickets were taken for, whole, in their
-- order, without a gap: all of them if there are no more than 128, and else the last 128. The
-- condition on the steps is that no ticket is taken while a thread is still writing the slot it leads
-- to, and that twice the ticket fits 64 bits.
pub Quiet-history :
    {s : Ring} (state : SharedState)
    → Reach Unlapped s
    → Quiet s
    → state.breadcrumb_ticket ≡ s.newest
    → state.breadcrumbs ≡ s.slots
    → let count = min s.newest breadcrumb_capacity in
      map (λ b. some b) (breadcrumb_history state)
      ≡ map s.issued (range (s.newest + 1 - count) count)
unfolding breadcrumb_history
Quiet-history {s} state r quiet newest slots =
    let inv = Reach-Inv r in
    let count = min s.newest breadcrumb_capacity in
    rw (newest, slots, oldest_ticket-min s.newest)
      (read_tickets-issued s (breadcrumb_capacity + 1) count (s.newest + 1 - count) inv.small
        (λ u first last. Quiet-Readable r quiet u (omega arith) last (omega arith)) (omega arith)
        (omega arith) (omega arith))
