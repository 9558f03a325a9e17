-- ===== src/Seqlock/Shadow.antt =====
-- Runs of `breadcrumb`, in core/src/monitor/client.cpp, whose stores are seen early, against runs in which
-- they are seen in order: each has its shadow, with the same ring wherever no thread is writing.
use peepbooth.Base.{
  ℕ, ◌+◌, ◌-◌, ◌<◌, ◌^◌, ◌≡◌, refl, sym, ap, ◌∙◌, subst, Bool, true, false, update, update_self,
  update_ne, update_cases, ◌==◌, ◌||◌, map, some, range, ℕ_discrete, fun_ext, arith,
}
use Prim.Native.Nat.{min}
use peepbooth.SharedState.{Breadcrumb, SharedState, breadcrumb_capacity}
use peepbooth.Session.{breadcrumb_history}
use peepbooth.Client.{Store, close_slot, open_slot, slot_index, store}
use peepbooth.Seqlock.{
  Writer, idle, writing, after_store, start, later, claim, write, Unlapped, Elsewhere, claimed,
  empty_ring,
}
use peepbooth.Seqlock.Safety.{Reach-Inv, after_read}
use peepbooth.Seqlock.Quiet.{Quiet, Quiet-history}
use peepbooth.Seqlock.Weak.{
  WeakRing, WeakStep, weak_claim, overtake, weak_write, pass, weak_begin, weak_read, WeakReach,
  weak_start, weak_later, none_ahead, place, overtaken,
}
use peepbooth.Seqlock.Early.{with_early, with_early-overtaken, with_early-passed}
use peepbooth.Seqlock.Follows.{Early, moved-Follows}
use peepbooth.Seqlock.InOrder.{Shadow, after_store-Early, left-open_slot, Shadow-write}

abbrev Inner : (Store → Bool) → Type 0
Inner ahead = (ahead close_slot ≡ false) × (ahead open_slot ≡ false)

overtaken-Inner :
    (ahead : Store → Bool) (x : Store)
    → 0 < place x
    → place x < 7
    → Inner ahead
    → Inner (λ y. (place y == place x) || ahead y)
overtaken-Inner ahead x first last h = (ground (arith, h.0), ground (arith, h.1))

Shadow-overtake :
    (w : WeakRing) (i : ℕ) (next x : Store) (t : ℕ) (b : Breadcrumb)
    → w.ring.writer i ≡ writing next t b
    → place next < place x
    → place x < 7
    → Shadow w
    → Shadow (overtaken w i x t b)
Shadow-overtake w i next x t b here first last h =
    let k = slot_index t in
    let old : w.ring.slots k ≡ with_early (w.ahead i) t b (h.slots k) =
      subst (Early w.ring.slots h.slots (w.ahead i)) here (h.follows.busy i) in
    let slots' = update w.ring.slots k (store x t b (w.ring.slots k)) in
    let early : Store → Bool = λ y. (place y == place x) || w.ahead i y in
    let ahead' = update w.ahead i early in
    let own : Early slots' h.slots early (writing next t b) =
      update_self w.ring.slots k _
      ∙ ap (store x t b) old
      ∙ with_early-overtaken (w.ahead i) x t b (h.slots k) (omega arith) last in
    record {
      slots = h.slots;
      reached = h.reached;
      inner = λ j.
          update_cases Inner w.ahead i j early
            (λ _. overtaken-Inner (w.ahead i) x (omega arith) last (h.inner i)) (λ _. h.inner j);
      follows =
          moved-Follows w.ring.slots h.slots slots' h.slots w.ahead ahead' w.ring.writer
            w.ring.writer i next t b here (λ _ _. refl) (λ j. update_ne w.ahead i j early)
            (λ j. update_ne w.ring.slots k j _) (λ _ _. refl) (λ j. (Reach-Inv h.reached).apart i j)
            h.follows
            (subst (λ a. Early slots' h.slots a (w.ring.writer i))
              (sym (update_self w.ahead i early))
              (subst (Early slots' h.slots early) (sym here) own))
            (λ away. absurd (subst (λ x. Elsewhere x k) here away refl));
    }

Shadow-pass :
    (w : WeakRing) (i : ℕ) (next : Store) (t : ℕ) (b : Breadcrumb)
    → w.ring.writer i ≡ writing next t b
    → w.ahead i next ≡ true
    → Shadow w
    → Shadow (record w {
      ring = record w.ring { writer = update w.ring.writer i (after_store next t b) };
    })
Shadow-pass w i next t b here seen h =
    let k = slot_index t in
    let old : w.ring.slots k ≡ with_early (w.ahead i) t b (h.slots k) =
      subst (Early w.ring.slots h.slots (w.ahead i)) here (h.follows.busy i) in
    let shadow' = update h.slots k (store next t b (h.slots k)) in
    let its : shadow' k ≡ store next t b (h.slots k) = update_self h.slots k _ in
    let writer' = update w.ring.writer i (after_store next t b) in
    let moved : writer' i ≡ after_store next t b = update_self w.ring.writer i _ in
    record {
      slots = shadow';
      reached = later h.reached (write i next t b here);
      inner = h.inner;
      follows =
          moved-Follows w.ring.slots h.slots w.ring.slots shadow' w.ahead w.ahead w.ring.writer
            writer' i next t b here (λ j. update_ne w.ring.writer i j _) (λ _ _. refl) (λ _ _. refl)
            (λ j. update_ne h.slots k j _) (λ j. (Reach-Inv h.reached).apart i j) h.follows
            (subst (Early w.ring.slots shadow' (w.ahead i)) (sym moved) (
              after_store-Early w.ring.slots shadow' (w.ahead i) next t b (
                old
                ∙ with_early-passed (w.ahead i) next t b (h.slots k) seen (h.inner i).0
                    (h.inner i).1
                ∙ ap (with_early (w.ahead i) t b) (sym its))))
            (λ away.
              let last : next ≡ open_slot =
                left-open_slot next t b (subst (λ x. Elsewhere x k) moved away) in
              let hidden = (h.inner i).1 in
              let shown : w.ahead i open_slot ≡ true = ap (w.ahead i) (sym last) ∙ seen in
              absurd (ground (arith, hidden, shown)));
    }

claimed-still :
    (w : WeakRing) (i k : ℕ) (x : Writer)
    → w.ring.writer i ≡ idle
    → ((j : ℕ) → Elsewhere (update w.ring.writer i x j) k)
    → (j : ℕ) → Elsewhere (w.ring.writer j) k
claimed-still w i k x out away j = elim (ℕ_discrete i j) [
  | yes same ↦
      subst (λ m. Elsewhere (w.ring.writer m) k) same (subst (λ y. Elsewhere y k) (sym out) tt)
  | no other ↦ subst (λ y. Elsewhere y k) (update_ne w.ring.writer i j x other) (away j)
]

Shadow-claim :
    (w : WeakRing) (i : ℕ) (b : Breadcrumb)
    → b.event_id < 2 ^ 16
    → b.flags < 2 ^ 16
    → w.ring.writer i ≡ idle
    → Unlapped w.ring
    → Shadow w
    → Shadow (record { ring = claimed w.ring i b; ahead = update w.ahead i none_ahead })
Shadow-claim w i b fe ff out free h =
    let x : Writer = writing close_slot (w.ring.newest + 1) b in
    let writer' = update w.ring.writer i x in
    let ahead' = update w.ahead i none_ahead in
    let new : Early w.ring.slots h.slots none_ahead x =
      h.follows.still (slot_index (w.ring.newest + 1)) free.1 in
    record {
      slots = h.slots;
      reached = later h.reached (claim i b fe ff out free);
      inner = λ j. update_cases Inner w.ahead i j none_ahead (λ _. (refl, refl)) (λ _. h.inner j);
      follows = record {
        busy = λ j. elim (ℕ_discrete i j) [
          | yes same ↦
              subst (λ m. Early w.ring.slots h.slots (ahead' m) (writer' m)) same
                (subst (λ a. Early w.ring.slots h.slots a (writer' i))
                  (sym (update_self w.ahead i none_ahead))
                  (subst (Early w.ring.slots h.slots none_ahead)
                    (sym (update_self w.ring.writer i x)) new))
          | no other ↦
              subst (λ a. Early w.ring.slots h.slots a (writer' j))
                (sym (update_ne w.ahead i j none_ahead other))
                (subst (Early w.ring.slots h.slots (w.ahead j))
                  (sym (update_ne w.ring.writer i j x other)) (h.follows.busy j))
        ];
        still = λ k away. h.follows.still k (claimed-still w i k x out away);
      };
    }

Step-Shadow : {w v : WeakRing} → WeakStep Unlapped w v → Shadow w → Shadow v
Step-Shadow {w} (weak_claim i b fe ff out free) h = Shadow-claim w i b fe ff out free h
Step-Shadow {w} (overtake i next x t b here first last _) h =
    Shadow-overtake w i next x t b here first last h
Step-Shadow {w} (weak_write i next t b here fresh) h = Shadow-write w i next t b here fresh h
Step-Shadow {w} (pass i next t b here seen) h = Shadow-pass w i next t b here seen h
Step-Shadow (weak_begin t pos le) h = record {
  slots = h.slots;
  reached = h.reached;
  inner = h.inner;
  follows = h.follows;
}
Step-Shadow weak_read h =
    unfold after_read in
    record { slots = h.slots; reached = h.reached; inner = h.inner; follows = h.follows }

WeakReach-Shadow : {w : WeakRing} → WeakReach Unlapped w → Shadow w
WeakReach-Shadow weak_start = record {
  slots = empty_ring.slots;
  reached = start;
  inner = λ i. (refl, refl);
  follows = record { busy = λ i. tt; still = λ k away. refl };
}
WeakReach-Shadow (weak_later r step) = Step-Shadow step (WeakReach-Shadow r)

-- On weak memory too, a snapshot between calls is complete. In every state that any number of producers
-- and the watcher can reach, where relaxed stores may be seen before the stores of the call that stand
-- before them, if no producer is inside `breadcrumb`, the history that the watcher takes of the ring is
-- the entries that the newest tickets were taken for, whole, in their order, without a gap: all of them
-- if there are no more than 128, and else the last 128. The condition on the steps is that no ticket is
-- taken while a thread is still writing the slot it leads to, and that twice the ticket fits 64 bits.
pub WeakReach-history :
    {w : WeakRing} (state : SharedState)
    → WeakReach Unlapped w
    → Quiet w.ring
    → state.breadcrumb_ticket ≡ w.ring.newest
    → state.breadcrumbs ≡ w.ring.slots
    → let count = min w.ring.newest breadcrumb_capacity in
      map (λ b. some b) (breadcrumb_history state)
      ≡ map w.ring.issued (range (w.ring.newest + 1 - count) count)
WeakReach-history {w} state r quiet newest slots =
    let h = WeakReach-Shadow r in
    let same : w.ring.slots ≡ h.slots =
      fun_ext λ k. h.follows.still k (λ i. subst (λ x. Elsewhere x k) (sym (quiet i)) tt) in
    Quiet-history state h.reached quiet newest (slots ∙ same)
