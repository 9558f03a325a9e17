-- ===== src/Session/History.antt =====
-- core/src/monitor/client.cpp, `breadcrumb`, against core/src/monitor/watchdog.cpp, `snapshot`: the
-- ring of breadcrumbs as the log of what was recorded.
use peepbooth.Base.{
  ℕ, zero, suc, ◌+◌, ◌-◌, ◌%◌, ◌^◌, ◌≤◌, ◌<◌, ◌≡◌, refl, ◌≢◌, sym, ◌∙◌, ap, List, [], ◌∷◌, ◌++◌,
  some, arith, length, get_elem?, drop, dec_lt, update_self, update_ne, drop-cons, drop_all,
  get_elem?-lt, get_elem?-append_left, get_elem?-append_end, length-append, append_assoc,
  append-nil, lt→ltb, le→ltb,
}
use peepbooth.SharedState.{SharedState, Breadcrumb, breadcrumb_capacity, BreadcrumbSlot, u64_mod}
use peepbooth.Client.{fill_slot, append_breadcrumb, breadcrumb_in, slot_index}
use peepbooth.Session.{read_breadcrumb, read_tickets, breadcrumb_history}

-- The two numbers that share a word fit their 16 bits.
abbrev pub Fits : Breadcrumb → Type 0
Fits b = (b.event_id < 2 ^ 16) × (b.flags < 2 ^ 16)

pub read_breadcrumb-fill_slot :
    (ticket : ℕ) (b : Breadcrumb) (slot : BreadcrumbSlot)
    → Fits b
    → read_breadcrumb (fill_slot ticket b slot) ticket ≡ some b
unfolding read_breadcrumb fill_slot
read_breadcrumb-fill_slot ticket b slot h = ground arith

abbrev Recent : List Breadcrumb → ℕ → Type 0
Recent log ticket =
    (0 < ticket) × (ticket ≤ length log) × (length log < ticket + breadcrumb_capacity)

-- Fewer than 128 tickets apart, two tickets have two slots.
slot_index_ne :
    (t u : ℕ)
    → t < u + breadcrumb_capacity
    → u < t
    → t < u64_mod
    → 0 < u
    → slot_index t ≢ slot_index u
unfolding slot_index
slot_index_ne t u near below small pos = omega arith

-- The ring holds the newest entries of the log.
pub record IsLogged (log : List Breadcrumb) (s : SharedState) : Type 0 where
  pub counted : s.breadcrumb_ticket ≡ length log
  pub held :
      (ticket : ℕ)
      → Recent log ticket
      → read_breadcrumb (s.breadcrumbs (slot_index ticket)) ticket ≡ get_elem? log (ticket - 1)

-- The slots after one more entry: the new ticket's, and any other.
append-slot :
    (b : Breadcrumb) (s : SharedState) (ticket : ℕ)
    → s.breadcrumb_ticket + 1 ≡ ticket
    → ticket < u64_mod
    → (append_breadcrumb b s).breadcrumbs (slot_index ticket)
      ≡ fill_slot ticket b (s.breadcrumbs (slot_index ticket))
unfolding append_breadcrumb
append-slot b s ticket e small =
    let wrap : (s.breadcrumb_ticket + 1) % u64_mod ≡ ticket = omega arith in
    rw wrap (update_self s.breadcrumbs (slot_index ticket) _)

append-slot_ne :
    (b : Breadcrumb) (s : SharedState) (ticket i : ℕ)
    → s.breadcrumb_ticket + 1 ≡ ticket
    → ticket < u64_mod
    → slot_index ticket ≢ i
    → (append_breadcrumb b s).breadcrumbs i ≡ s.breadcrumbs i
unfolding append_breadcrumb
append-slot_ne b s ticket i e small other =
    let wrap : (s.breadcrumb_ticket + 1) % u64_mod ≡ ticket = omega arith in
    rw wrap (update_ne s.breadcrumbs (slot_index ticket) i _ other)

append-ticket :
    (b : Breadcrumb) (s : SharedState)
    → s.breadcrumb_ticket + 1 < u64_mod
    → (append_breadcrumb b s).breadcrumb_ticket ≡ s.breadcrumb_ticket + 1
unfolding append_breadcrumb
append-ticket b s small = omega arith

module _ (log : List Breadcrumb) (b : Breadcrumb) (s : SharedState) (v : IsLogged log s)
    (small : length log + 1 < u64_mod) where
  append-held_new :
      Fits b
      → (ticket : ℕ) → s.breadcrumb_ticket + 1 ≡ ticket
      → read_breadcrumb ((append_breadcrumb b s).breadcrumbs (slot_index ticket)) ticket
        ≡ get_elem? (log ++ (b ∷ [])) (ticket - 1)
  append-held_new fits ticket e =
      let last : ticket - 1 ≡ length log = omega (arith, v.counted) in
      rw
        (
          append-slot b s ticket e (omega (arith, v.counted)),
          read_breadcrumb-fill_slot ticket b _ fits,
          last,
        )
        (sym (get_elem?-append_end log b))

  append-held_old :
      (ticket : ℕ)
      → Recent (log ++ (b ∷ [])) ticket
      → ticket ≤ length log
      → read_breadcrumb ((append_breadcrumb b s).breadcrumbs (slot_index ticket)) ticket
        ≡ get_elem? (log ++ (b ∷ [])) (ticket - 1)
  append-held_old ticket recent old =
      rw
        (append-slot_ne b s (s.breadcrumb_ticket + 1) (slot_index ticket) refl
          (omega (arith, v.counted))
          (slot_index_ne (s.breadcrumb_ticket + 1) ticket
            (omega (arith, v.counted, length-append log (b ∷ []))) (omega (arith, v.counted))
            (omega (arith, v.counted)) (omega (arith, v.counted, length-append log (b ∷ [])))))
        (v.held ticket (omega (arith, length-append log (b ∷ [])))
          ∙ sym (get_elem?-append_left (ticket - 1) log (b ∷ []) (omega arith)))

  pub append-IsLogged : Fits b → IsLogged (log ++ (b ∷ [])) (append_breadcrumb b s)
  append-IsLogged fits = record {
    counted = omega (
      arith,
      append-ticket b s (omega (arith, v.counted)),
      v.counted,
      length-append log (b ∷ []),
    );
    held = λ ticket recent. elim (dec_lt (length log) ticket) [
      | yes new ↦ append-held_new fits ticket (omega (arith, v.counted, length-append log (b ∷ [])))
      | no old ↦ append-held_old ticket recent (omega arith)
    ];
  }

-- From a ticket that the ring still holds, the reader's loop gives the rest of the log.
read_tickets-drop :
    (fuel ticket : ℕ) (log : List Breadcrumb) (s : SharedState)
    → IsLogged log s
    → length log + 1 < u64_mod
    → 0 < ticket
    → length log < ticket + breadcrumb_capacity
    → length log < ticket + fuel
    → read_tickets fuel ticket (length log) s.breadcrumbs ≡ drop (ticket - 1) log
unfolding read_tickets
read_tickets-drop zero ticket log s v small pos near enough =
    sym (drop_all (ticket - 1) log (omega arith))
read_tickets-drop (suc fuel) ticket log s v small pos near enough =
    elim (dec_lt (length log) ticket) [
      | yes past ↦ ground (arith, drop_all (ticket - 1) log)
      | no more ↦
          let (b, here) = get_elem?-lt (ticket - 1) log (omega arith) in
          let next : (ticket + 1) % u64_mod ≡ ticket + 1 = omega arith in
          let behind : suc (ticket - 1) ≡ ticket + 1 - 1 = omega arith in
          ground (
            arith,
            next,
            v.held ticket (omega arith),
            read_tickets-drop fuel (ticket + 1) log s v small (omega arith) (omega arith)
                (omega arith),
            drop-cons (ticket - 1) log here ∙ ap (λ n. b ∷ drop n log) behind,
          )
    ]

pub history-drop :
    (log : List Breadcrumb) (s : SharedState)
    → IsLogged log s
    → length log + 1 < u64_mod
    → breadcrumb_history s ≡ drop (length log - breadcrumb_capacity) log
unfolding breadcrumb_history
history-drop log s v small = elim (dec_lt breadcrumb_capacity (length log)) [
  | yes full ↦
      rw (v.counted, lt→ltb breadcrumb_capacity (length log) full)
        (read_tickets-drop (breadcrumb_capacity + 1) (length log - breadcrumb_capacity + 1) log s v
            small (omega arith) (omega arith) (omega arith)
          ∙ ap (λ n. drop n log)
              (let e : length log - breadcrumb_capacity + 1 - 1 ≡ length log - breadcrumb_capacity =
                  omega arith in
                e))
  | no room ↦
      rw (v.counted, le→ltb breadcrumb_capacity (length log) (omega arith))
        (read_tickets-drop (breadcrumb_capacity + 1) 1 log s v small (omega arith) (omega arith)
            (omega arith)
          ∙ ap (λ n. drop n log)
              (let e : 1 - 1 ≡ length log - breadcrumb_capacity = omega arith in e))
]

-- Calls of `breadcrumb`, one after the other.
abbrev pub record_all : List Breadcrumb → SharedState → SharedState
record_all [] s = s
record_all (b ∷ bs) s = record_all bs (breadcrumb_in b s)

-- Every entry fits, and is stamped within the lease.
abbrev pub Accepted : ℕ → List Breadcrumb → Type 0
Accepted lease [] = Unit {0}
Accepted lease (b ∷ bs) = Fits b × (b.timestamp_ns ≤ lease) × Accepted lease bs

pub breadcrumb_in-append :
    (b : Breadcrumb) (s : SharedState)
    → s.watcher_present ≢ 0
    → b.timestamp_ns ≤ s.watcher_lease_until_ns
    → breadcrumb_in b s ≡ append_breadcrumb b s
unfolding breadcrumb_in
breadcrumb_in-append b s present fresh = ground arith

append-lease :
    (b : Breadcrumb) (s : SharedState)
    → ((append_breadcrumb b s).watcher_lease_until_ns ≡ s.watcher_lease_until_ns)
      × ((append_breadcrumb b s).watcher_present ≡ s.watcher_present)
unfolding append_breadcrumb
append-lease b s = (refl, refl)

record_all-IsLogged :
    (log bs : List Breadcrumb) (s : SharedState)
    → IsLogged log s
    → length log + length bs + 1 < u64_mod
    → s.watcher_present ≢ 0
    → Accepted s.watcher_lease_until_ns bs
    → IsLogged (log ++ bs) (record_all bs s)
record_all-IsLogged log [] s v small present ok = rw append-nil v
record_all-IsLogged log (b ∷ bs) s v small present ok =
    let regroup : log ++ (b ∷ bs) ≡ (log ++ (b ∷ [])) ++ bs = sym (append_assoc log (b ∷ []) bs) in
    rw (regroup, breadcrumb_in-append b s present ok.1)
      (record_all-IsLogged (log ++ (b ∷ [])) bs (append_breadcrumb b s)
        (append-IsLogged log b s v (omega arith) ok.0) (omega (arith, length-append log (b ∷ [])))
        (rw ((append-lease b s).1) present) (rw ((append-lease b s).0) ok.2))

-- A watcher that holds a lease sees exactly the newest 128 of the breadcrumbs recorded since the
-- ring was empty, oldest first and unchanged: recording any list of entries whose ids and flags fit
-- 16 bits and whose time stamps lie within the lease, fewer than 2^64 - 1 of them, gives a history
-- that is the list without its first `length - 128` entries.
pub history-record_all :
    (bs : List Breadcrumb) (s : SharedState)
    → s.breadcrumb_ticket ≡ 0
    → s.watcher_present ≢ 0
    → Accepted s.watcher_lease_until_ns bs
    → length bs + 1 < u64_mod
    → breadcrumb_history (record_all bs s) ≡ drop (length bs - breadcrumb_capacity) bs
history-record_all bs s fresh present ok small =
    history-drop bs (record_all bs s)
      (record_all-IsLogged [] bs s
        (record { counted = fresh; held = λ ticket recent. absurd (omega arith) }) (omega arith)
        present ok)
      small
