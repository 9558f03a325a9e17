-- ===== src/Seqlock/Reordered.antt =====
-- A breadcrumb whose stores are seen out of order, at core/src/monitor/client.cpp, lines 165 to 176:
-- `relaxed` is too weak for the payload.
use peepbooth.Base.{
  ℕ, ◌+◌, ◌-◌, ◌^◌, ◌<◌, ◌≤◌, ◌≡◌, some, arith, ◌∙◌, sym, ap, subst, update, update_self, update_ne,
}
use peepbooth.SharedState.{BreadcrumbSlot, Breadcrumb}
use peepbooth.Client.{close_slot, put_arg1, slot_index, store}
use peepbooth.Session.{read_breadcrumb}
use peepbooth.Session.History.{Fits}
use peepbooth.Seqlock.{writing, finished, Ring, claimed, Reach, Unlapped, Elsewhere}
use peepbooth.Seqlock.Safety.{watched}
use peepbooth.Seqlock.Quiet.{Quiet, Quiet-Readable}
use peepbooth.Seqlock.Weak.{
  WeakRing, WeakRun, weak_start, weak_later, weak_claim, overtake, weak_begin, weak_read, overtaken,
  in_order, none_ahead,
}

torn_oldest :
    (old : Breadcrumb) (t u : ℕ) (b : Breadcrumb) (slot : BreadcrumbSlot)
    → read_breadcrumb slot t ≡ some old
    → read_breadcrumb (store put_arg1 u b slot) t ≡ some (record old { arg1 = b.arg1 })
unfolding read_breadcrumb store
torn_oldest old t u b slot h = grind (arith, h)

slot_index_round : (n : ℕ) → 127 < n → n + 1 < 2 ^ 63 → slot_index (n + 1) ≡ slot_index (n - 127)
unfolding slot_index
slot_index_round n full small = omega arith

update_lap :
    (slots : ℕ → BreadcrumbSlot) (j k : ℕ) (g : BreadcrumbSlot → BreadcrumbSlot)
    → j ≡ k
    → update slots j (g (slots j)) k ≡ g (slots k)
update_lap slots j k g e =
    subst (λ k'. update slots j (g (slots j)) k' ≡ g (slots k')) e
      (update_self slots j (g (slots j)))

pub Quiet-Unlapped : (s : Ring) → Quiet s → s.newest + 1 < 2 ^ 63 → Unlapped s
Quiet-Unlapped s quiet small =
    (small, λ i. subst (λ w. Elsewhere w (slot_index (s.newest + 1))) (sym (quiet i)) tt)

-- A read through, in a ring whose early stores stay as they are.
weak_watched :
    (o : WeakRing) (ahead : _) (s : Ring) (t : ℕ) (slot : BreadcrumbSlot)
    → 0 < t
    → t ≤ s.newest
    → s.slots (slot_index t) ≡ slot
    → WeakRun Unlapped o (record { ring = s; ahead = ahead })
    → (s' : Ring) × (s'.reader ≡ finished t (read_breadcrumb slot t))
      × WeakRun Unlapped o (record { ring = s'; ahead = ahead })
      × (s'.issued ≡ s.issued)
      × (s'.writer ≡ s.writer)
weak_watched o ahead s t slot pos le holds r =
    watched (λ (x : Ring). WeakRun Unlapped o (record { ring = x; ahead = ahead }))
      (λ _ ran. weak_later ran weak_read) s t slot holds (weak_later r (weak_begin t pos le))

-- The next ticket taken by thread `i`, with its `arg1` seen first.
abbrev early_arg1 : Ring → ℕ → Breadcrumb → WeakRing
early_arg1 s i b =
    overtaken (record { ring = claimed s i b; ahead = update (λ _. none_ahead) i none_ahead }) i
      put_arg1 (s.newest + 1) b

early_arg1-WeakRun :
    (s : Ring) (i : ℕ) (b : Breadcrumb)
    → Quiet s
    → s.newest + 1 < 2 ^ 63
    → Fits b
    → WeakRun Unlapped (in_order s) (early_arg1 s i b)
early_arg1-WeakRun s i b quiet small fits =
    weak_later
      (weak_later weak_start
        (weak_claim i b fits.0 fits.1 (quiet i) (Quiet-Unlapped s quiet small)))
      (overtake i close_slot put_arg1 (s.newest + 1) b
        (update_self s.writer i (writing close_slot (s.newest + 1) b)) (omega arith) (omega arith)
        (ap (λ f. f put_arg1) (update_self (λ _. none_ahead) i none_ahead)))

-- An entry that nobody lapped is torn all the same. From every state that any number of producers and
-- the watcher reach one access at a time, no ticket being taken while a thread is still at its slot, in
-- which no producer is inside `breadcrumb` and the ring is full, a run with early stores leads on, for
-- any thread and any entry whose numbers fit 16 bits, to a state in which that thread has taken the next
-- ticket for that entry and stands before its closing of the slot, and a call of the watcher for the
-- oldest ticket in the ring has returned the entry that this ticket was taken for, with the `arg1` of
-- the new one.
pub reordered-torn :
    {s : Ring} (old b : Breadcrumb) (i : ℕ)
    → Reach Unlapped s
    → Quiet s
    → 127 < s.newest
    → s.newest + 1 < 2 ^ 63
    → Fits b
    → s.issued (s.newest - 127) ≡ some old
    → (w : WeakRing) × WeakRun Unlapped (in_order s) w
      × (w.ring.writer i ≡ writing close_slot (s.newest + 1) b)
      × (w.ring.issued (s.newest + 1) ≡ some b)
      × (w.ring.issued (s.newest - 127) ≡ some old)
      × (w.ring.reader ≡ finished (s.newest - 127) (some (record old { arg1 = b.arg1 })))
reordered-torn {s} old b i r quiet full small fits was =
    let n = s.newest in
    let t = n - 127 in
    let w = early_arg1 s i b in
    let holds =
      update_lap s.slots (slot_index (n + 1)) (slot_index t) (store put_arg1 (n + 1) b)
        (slot_index_round n full small) in
    let (b', is, shown) = Quiet-Readable r quiet t (omega arith) (omega arith) (omega arith) in
    let (s', at, run, same, stands) =
      weak_watched (in_order s) w.ahead w.ring t (store put_arg1 (n + 1) b (s.slots (slot_index t)))
        (omega arith) (omega arith) holds (early_arg1-WeakRun s i b quiet small fits) in
    (
      record { ring = s'; ahead = w.ahead },
      run,
      ap (λ f. f i) stands ∙ update_self s.writer i (writing close_slot (n + 1) b),
      ap (λ f. f (n + 1)) same ∙ update_self s.issued (n + 1) (some b),
      ap (λ f. f t) same ∙ (update_ne s.issued (n + 1) t (some b) (omega arith) ∙ was),
      at
          ∙ ap (finished t)
              (torn_oldest old t (n + 1) b (s.slots (slot_index t)) (shown ∙ (sym is ∙ was))),
    )
