-- ===== src/Tests/Reordered.antt =====
-- A full ring, and the breadcrumb behind it whose stores are seen out of order.
use peepbooth.Base.{
  ℕ, zero, map, range, suc, ℕ_discrete, ◌+◌, ◌-◌, ◌^◌, ◌<◌, ◌≤◌, ◌≡◌, ◌≢◌, refl, some, arith, ◌∙◌,
  ap, update_self, update_ne, update, sym,
}
use peepbooth.SharedState.{Breadcrumb, SharedState, breadcrumb_capacity}
use peepbooth.Client.{
  close_slot, put_ticket, put_timestamp, put_arg0, put_arg1, put_source, put_event, open_slot,
}
use peepbooth.Session.History.{Fits}
use peepbooth.Seqlock.{
  idle, writing, finished, Ring, empty_ring, claimed, claim, Reach, start, later, Unlapped,
}
use peepbooth.Seqlock.Safety.{written, written-issued, written-Wrote, written-newest}
use peepbooth.Seqlock.Quiet.{Quiet}
use peepbooth.Seqlock.Weak.{
  WeakRing, WeakReach, WeakRun, in_order, weak_start, weak_later, weak_claim, overtake, weak_write,
  pass,
}
use peepbooth.Seqlock.Shadow.{WeakReach-history}
use peepbooth.Session.{breadcrumb_history}
use Prim.Native.Nat.{min}
use peepbooth.Seqlock.Reordered.{Quiet-Unlapped, reordered-torn}
use peepbooth.Tests.Data.{loaded, started, leased}

-- `n` times the same entry, by one thread.
abbrev Filled : ℕ → Breadcrumb → Ring → Type 0
Filled n b s =
    Reach Unlapped s × Quiet s × (s.newest ≡ n) × ((t : ℕ) → 0 < t → t ≤ n → s.issued t ≡ some b)

written-writer :
    (s : Ring) (t i : ℕ) (b : Breadcrumb) → 0 ≢ i → (written s 0 t b).writer i ≡ s.writer i
unfolding written
written-writer s t i b other = ground (arith, other)

claimed-Quiet :
    (s : Ring) (b : Breadcrumb)
    → (written (claimed s 0 b) 0 (s.newest + 1) b).writer 0 ≡ idle
    → Quiet s
    → Quiet (written (claimed s 0 b) 0 (s.newest + 1) b)
claimed-Quiet s b first quiet i = elim (ℕ_discrete 0 i) [
  | yes same ↦ sym (ap (written (claimed s 0 b) 0 (s.newest + 1) b).writer same) ∙ first
  | no other ↦
      written-writer (claimed s 0 b) (s.newest + 1) i b other
      ∙ update_ne s.writer 0 i (writing close_slot (s.newest + 1) b) other
      ∙ quiet i
]

filled : (n : ℕ) (b : Breadcrumb) → Fits b → n < 2 ^ 62 → (s : Ring) × Filled n b s
filled zero b fits small =
    (empty_ring, (start, λ i. refl, refl, λ t positive le. absurd (omega arith)))
filled (suc n) b fits small =
    let (s, (r, quiet, count, was)) = filled n b fits (omega arith) in
    let c : Ring = claimed s 0 b in
    let next : ℕ = s.newest + 1 in
    let free = Quiet-Unlapped s quiet (omega arith) in
    let o =
      written-Wrote 0 next b (update_self s.writer 0 (writing close_slot next b))
        (later r (claim 0 b fits.0 fits.1 (quiet 0) free)) in
    (
      written c 0 next b,
      (
        o.2,
        claimed-Quiet s b o.0 quiet,
        omega (arith, count, written-newest c 0 next b),
        λ t positive le. ap (λ f. f t) (written-issued c 0 next b) ∙ elim (ℕ_discrete next t) [
          | yes same ↦
              sym (ap (update s.issued next (some b)) same) ∙ update_self s.issued next (some b)
          | no other ↦ update_ne s.issued next t (some b) other ∙ was t positive (omega arith)
        ],
      ),
    )

abbrev full : (s : Ring) × Filled 128 loaded s
full = filled 128 loaded (omega arith, omega arith) (omega arith)

reordered-torn_example :
    (w : WeakRing) × WeakRun Unlapped (in_order full.0) w
    × (w.ring.writer 0 ≡ writing close_slot (full.0.newest + 1) started)
    × (w.ring.issued (full.0.newest + 1) ≡ some started)
    × (w.ring.issued (full.0.newest - 127) ≡ some loaded)
    × (w.ring.reader
        ≡ finished (full.0.newest - 127) (some (record loaded { arg1 = started.arg1 })))
reordered-torn_example =
    reordered-torn loaded started 0 full.1.0 full.1.1 (omega (arith, full.1.2))
      (omega (arith, full.1.2)) (omega arith, omega arith)
      (full.1.3 (full.0.newest - 127) (omega (arith, full.1.2)) (omega (arith, full.1.2)))

-- A breadcrumb whose `arg1` is seen before its slot is closed, to its end.
abbrev early_entry : (w : WeakRing) × WeakReach Unlapped w
unfolding ℕ_discrete
early_entry = (
  _,
  weak_later
      (weak_later
        (weak_later
          (weak_later
            (weak_later
              (weak_later
                (weak_later
                  (weak_later
                    (weak_later
                      (weak_later weak_start (
                        weak_claim 0 loaded (omega arith) (omega arith) refl
                          (omega arith, λ i. tt)))
                      (overtake 0 close_slot put_arg1 1 loaded refl (omega arith) (omega arith)
                        refl))
                    (weak_write 0 close_slot 1 loaded refl refl))
                  (weak_write 0 put_ticket 1 loaded refl refl))
                (weak_write 0 put_timestamp 1 loaded refl refl))
              (weak_write 0 put_arg0 1 loaded refl refl))
            (pass 0 put_arg1 1 loaded refl refl))
          (weak_write 0 put_source 1 loaded refl refl))
        (weak_write 0 put_event 1 loaded refl refl))
      (weak_write 0 open_slot 1 loaded refl refl),
)

early_entry-Quiet : Quiet early_entry.0.ring
unfolding ℕ_discrete
early_entry-Quiet zero = refl
early_entry-Quiet (suc i) = ground arith

abbrev early_state : SharedState
early_state = record leased {
  breadcrumb_ticket = early_entry.0.ring.newest;
  breadcrumbs = early_entry.0.ring.slots;
}

WeakReach-history_example :
    let count = min early_entry.0.ring.newest breadcrumb_capacity in
    map (λ b. some b) (breadcrumb_history early_state)
    ≡ map early_entry.0.ring.issued (range (early_entry.0.ring.newest + 1 - count) count)
unfolding ℕ_discrete
WeakReach-history_example = WeakReach-history early_state early_entry.1 early_entry-Quiet refl refl
