-- ===== src/Seqlock/Lapping.antt =====
-- A thread that is 128 tickets late, at core/src/monitor/client.cpp, lines 165 to 176: the condition
-- of Safety cannot be left out.
use peepbooth.Base.{
  ℕ, zero, suc, ◌+◌, ◌^◌, ◌<◌, ◌≡◌, refl, some, arith, ℕ_discrete, ◌∙◌, sym, ap, subst, update,
  update_self, update_ne,
}
use peepbooth.SharedState.{BreadcrumbSlot, Breadcrumb}
use peepbooth.Client.{
  close_slot, put_ticket, put_timestamp, put_arg0, put_arg1, slot_index, fill_slot, store,
}
use peepbooth.Session.{read_breadcrumb}
use peepbooth.Session.History.{Fits}
use peepbooth.Seqlock.{
  Writer, idle, writing, finished, Ring, claimed, stored, claim, write, Reach, start, later,
}
use peepbooth.Seqlock.Safety.{written, written-issued, written-Wrote, written-newest, watched-Run}

-- All that is asked of the number of tickets, and nothing of the slots.
abbrev pub Bounded : Ring → Type 0
Bounded s = s.newest + 1 < 2 ^ 63

-- Thread 0 stands at `w` while thread 1 is outside `breadcrumb`.
abbrev Stalled : Ring → Writer → ℕ → Type 0
Stalled s w newest = (s.writer 0 ≡ w) × (s.writer 1 ≡ idle) × (s.newest ≡ newest) × Reach Bounded s

written-writer : (s : Ring) (t : ℕ) (b : Breadcrumb) → (written s 1 t b).writer 0 ≡ s.writer 0
unfolding written ℕ_discrete
written-writer s t b = refl

Stalled-record :
    {s : Ring} (w : Writer) (newest : ℕ) (b : Breadcrumb)
    → Fits b
    → newest + 1 < 2 ^ 63
    → Stalled s w newest
    → Stalled (written (claimed s 1 b) 1 (s.newest + 1) b) w (newest + 1)
Stalled-record {s} w newest b fits small (at, free, count, r) =
    let o =
      written-Wrote 1 (s.newest + 1) b
        (update_self s.writer 1 (writing close_slot (s.newest + 1) b))
        (later r (claim 1 b fits.0 fits.1 free (omega arith))) in
    (
      written-writer (claimed s 1 b) (s.newest + 1) b
          ∙ (update_ne s.writer 1 0 (writing close_slot (s.newest + 1) b) (omega arith) ∙ at),
      o.0,
      omega (arith, written-newest (claimed s 1 b) 1 (s.newest + 1) b),
      o.2,
    )

Stalled-records :
    (n : ℕ) {s : Ring} (w : Writer) (newest : ℕ) (b : Breadcrumb)
    → Fits b
    → newest + n < 2 ^ 63
    → Stalled s w newest
    → (s' : Ring) × Stalled s' w (newest + n)
Stalled-records zero {s} w newest b fits small h = (s, (h.0, h.1, omega (arith, h.2), h.3))
Stalled-records (suc n) {s} w newest b fits small h =
    let (s', (at, free, count, r)) =
      Stalled-records n w (newest + 1) b fits (omega arith)
        (Stalled-record w newest b fits (omega arith) h) in
    (s', (at, free, omega arith, r))

-- Thread 0 takes ticket 1 and stops before the store of `arg1`.
stalled : (a : Breadcrumb) → Fits a → (s : Ring) × Stalled s (writing put_arg1 1 a) 1
unfolding ℕ_discrete
stalled a fits = (
  _,
  (
    refl,
    refl,
    refl,
    later
        (later
          (later
            (later (later start (claim 0 a fits.0 fits.1 refl (omega arith)))
              (write 0 close_slot 1 a refl))
            (write 0 put_ticket 1 a refl))
          (write 0 put_timestamp 1 a refl))
        (write 0 put_arg0 1 a refl),
  ),
)

slot_index_lap : slot_index 129 ≡ slot_index 1
unfolding slot_index
slot_index_lap = refl

torn_slot :
    (a b : Breadcrumb) (t : ℕ) (slot : BreadcrumbSlot)
    → Fits b
    → read_breadcrumb (store put_arg1 1 a (fill_slot t b slot)) t
      ≡ some (record b { arg1 = a.arg1 })
unfolding read_breadcrumb store fill_slot
torn_slot a b t slot fits = ground arith

-- The watcher's read of ticket `t` has returned `b` with the `arg1` of `a`.
abbrev Torn : Breadcrumb → Breadcrumb → ℕ → Type 0
Torn a b t =
    (s : Ring) × Reach Bounded s
    × (s.issued t ≡ some b)
    × (s.reader ≡ finished t (some (record b { arg1 = a.arg1 })))

Torn-after :
    {s : Ring} (a b : Breadcrumb) (t : ℕ) (x : BreadcrumbSlot)
    → Fits b
    → t ≡ 129
    → s.writer 0 ≡ writing put_arg1 1 a
    → s.slots (slot_index t) ≡ fill_slot t b x
    → s.newest ≡ t
    → s.issued t ≡ some b
    → Reach Bounded s
    → Torn a b t
Torn-after {s} a b t x fits e at holds count issued r =
    let lap : slot_index 1 ≡ slot_index t = sym slot_index_lap ∙ ap slot_index (sym e) in
    let late : (stored s 0 put_arg1 1 a).slots (slot_index t)
        ≡ store put_arg1 1 a (fill_slot t b x) =
      subst
        (λ k.
          update s.slots (slot_index 1) (store put_arg1 1 a (s.slots (slot_index 1))) k
          ≡ store put_arg1 1 a (fill_slot t b x))
        lap
        (update_self s.slots (slot_index 1) _ ∙ ap (store put_arg1 1 a) (ap s.slots lap ∙ holds)) in
    let (s', shown, reach, same) =
      watched-Run t (store put_arg1 1 a (fill_slot t b x)) (omega arith) (omega arith) late
        (later r (write 0 put_arg1 1 a at)) in
    (s', reach, ap (λ f. f t) same ∙ issued, shown ∙ ap (finished t) (torn_slot a b t x fits))

Torn-from :
    {s : Ring} (a b : Breadcrumb)
    → Fits b
    → Stalled s (writing put_arg1 1 a) 128
    → Torn a b (s.newest + 1)
Torn-from {s} a b fits (at, free, count, r) =
    let t : ℕ = s.newest + 1 in
    let c : Ring = claimed s 1 b in
    let o =
      written-Wrote 1 t b (update_self s.writer 1 (writing close_slot t b))
        (later r (claim 1 b fits.0 fits.1 free (omega arith))) in
    Torn-after a b t (c.slots (slot_index t)) fits (omega arith)
      (written-writer c t b ∙ (update_ne s.writer 1 0 (writing close_slot t b) (omega arith) ∙ at))
      o.1 (written-newest c 1 t b)
      (ap (λ f. f t) (written-issued c 1 t b) ∙ update_self s.issued t (some b)) o.2

-- A late thread tears a later breadcrumb, and the watcher takes it for whole. For any two entries
-- whose numbers fit 16 bits there is a run, of two producer threads and the watcher, in which the
-- watcher's read of ticket 129 has returned the second entry with the first one's `arg1`, though the
-- ticket was taken for the second entry.
pub lapped-torn :
    (a b : Breadcrumb)
    → Fits a
    → Fits b
    → (s : Ring) × Reach Bounded s
      × (s.issued 129 ≡ some b)
      × (s.reader ≡ finished 129 (some (record b { arg1 = a.arg1 })))
lapped-torn a b fa fb =
    let (s1, late) = stalled a fa in
    let (s2, more) = Stalled-records 127 (writing put_arg1 1 a) 1 b fb (omega arith) late in
    subst (Torn a b) (omega (arith, more.2)) (Torn-from a b fb more)
