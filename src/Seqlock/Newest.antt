-- ===== src/Seqlock/Newest.antt =====
-- That the newest entries stay readable: no ticket of the last 128 loses its slot.
use peepbooth.Base.{
  ℕ, ◌+◌, ◌*◌, ◌≤◌, ◌<◌, ◌≡◌, ◌≢◌, ◌⊎◌, inl, inr, refl, sym, ap, ◌∙◌, arith, update, update_self,
  update_ne, update_cases, subst, ◌^◌, ℕ_discrete,
}
use peepbooth.SharedState.{BreadcrumbSlot, Breadcrumb}
use peepbooth.Client.{
  Store, close_slot, put_ticket, put_timestamp, put_arg0, put_arg1, put_source, put_event,
  open_slot, slot_index, store,
}
use peepbooth.Seqlock.{
  Writer, idle, writing, after_store, Ring, claimed, stored, Step, claim, write, begin, read, Reach,
  start, later, Unlapped, empty_ring,
}
use peepbooth.Seqlock.Invariant.{Inv, WriterOk, Apart, Stored}
use peepbooth.Seqlock.Safety.{Reach-Inv}

-- From its third store on a thread has put its ticket into the slot.
abbrev pub Ticketed : Store → ℕ → BreadcrumbSlot → Type 0
Ticketed close_slot t slot = Unit {0}
Ticketed put_ticket t slot = Unit {0}
Ticketed _ t slot = slot.ticket ≡ t

abbrev pub TicketOk : (ℕ → BreadcrumbSlot) → Writer → Type 0
TicketOk slots idle = Unit {0}
TicketOk slots (writing next t b) = Ticketed next t (slots (slot_index t))

abbrev pub Writes : Writer → ℕ → Type 0
Writes idle t = ⊥
Writes (writing _ u _) t = u ≡ t

-- A ticket is being written by some thread, or is committed in its slot.
abbrev pub Present : Ring → ℕ → Type 0
Present s t =
    ((i : ℕ) × Writes (s.writer i) t)
    ⊎ (((s.slots (slot_index t)).commit ≡ t * 2) × ((s.slots (slot_index t)).ticket ≡ t))

pub record Fresh (s : Ring) : Type 0 where
  pub tickets : (i : ℕ) → TicketOk s.slots (s.writer i)
  pub present : (t : ℕ) → 0 < t → t ≤ s.newest → s.newest < t + 128 → Present s t

empty_ring-Fresh : Fresh empty_ring
empty_ring-Fresh = record { tickets = λ i. tt; present = λ t pos le near. absurd (omega arith) }

-- Two tickets of one slot lie a whole ring apart.
slot_index_apart :
    (t u : ℕ) → 0 < u → u < t → t < 2 ^ 63 → slot_index t ≡ slot_index u → u + 128 ≤ t
unfolding slot_index
slot_index_apart t u pos lt small e = omega (arith, e)

-- After taking a ticket.
module _ (s : Ring) (f : Fresh s) (i : ℕ) (b : Breadcrumb) (outside : s.writer i ≡ idle) where
  claim-tickets : (j : ℕ) → TicketOk s.slots ((claimed s i b).writer j)
  claim-tickets j =
      update_cases (TicketOk s.slots) s.writer i j (writing close_slot (s.newest + 1) b) (λ _. tt)
        (λ _. f.tickets j)

  still-Writes :
      (t : ℕ) → (j : ℕ) × Writes (s.writer j) t → (j : ℕ) × Writes ((claimed s i b).writer j) t
  still-Writes t (j, at) = (
    j,
    elim (ℕ_discrete i j) [
      | yes same ↦ absurd (subst (λ w. Writes w t) (ap s.writer (sym same) ∙ outside) at)
      | no other ↦ subst (λ w. Writes w t) (sym (update_ne s.writer i j _ other)) at
    ],
  )

  claim-Present :
      (t : ℕ) → 0 < t → t ≤ s.newest + 1 → s.newest + 1 < t + 128 → Present (claimed s i b) t
  claim-Present t pos le near = elim (ℕ_discrete t (s.newest + 1)) [
    | yes new ↦ inl (
      i,
      subst (λ w. Writes w t) (sym (update_self s.writer i (writing close_slot (s.newest + 1) b)))
          (sym new),
    )
    | no old ↦ elim (f.present t pos (omega arith) (omega arith)) [
      | inl running ↦ inl (still-Writes t running)
      | inr done ↦ inr done
    ]
  ]

  claim-Fresh : Fresh (claimed s i b)
  claim-Fresh = record { tickets = claim-tickets; present = claim-Present }

-- The thread's own slot after its store.
store-Ticketed :
    (next : Store) (t : ℕ) (b : Breadcrumb) (slots : ℕ → BreadcrumbSlot)
    → Ticketed next t (slots (slot_index t))
    → TicketOk
        (update slots (slot_index t) (store next t b (slots (slot_index t))))
        (after_store next t b)
unfolding store
store-Ticketed close_slot t b slots h = tt
store-Ticketed put_ticket t b slots h =
    ap (λ (slot : BreadcrumbSlot). slot.ticket) (update_self slots (slot_index t) _)
store-Ticketed open_slot t b slots h = tt
store-Ticketed put_timestamp t b slots h =
    ap (λ (slot : BreadcrumbSlot). slot.ticket) (update_self slots (slot_index t) _) ∙ h
store-Ticketed put_arg0 t b slots h =
    ap (λ (slot : BreadcrumbSlot). slot.ticket) (update_self slots (slot_index t) _) ∙ h
store-Ticketed put_arg1 t b slots h =
    ap (λ (slot : BreadcrumbSlot). slot.ticket) (update_self slots (slot_index t) _) ∙ h
store-Ticketed put_source t b slots h =
    ap (λ (slot : BreadcrumbSlot). slot.ticket) (update_self slots (slot_index t) _) ∙ h
store-Ticketed put_event t b slots h =
    ap (λ (slot : BreadcrumbSlot). slot.ticket) (update_self slots (slot_index t) _) ∙ h

-- The other threads' slots.
other-TicketOk :
    (slots : ℕ → BreadcrumbSlot) (next : Store) (t : ℕ) (b : Breadcrumb) (w : Writer)
    (new : BreadcrumbSlot)
    → Apart (writing next t b) w
    → TicketOk slots w
    → TicketOk (update slots (slot_index t) new) w
other-TicketOk slots next t b idle new apart h = tt
other-TicketOk slots next t b (writing other u c) new apart h =
    subst (Ticketed other u) (sym (update_ne slots (slot_index t) (slot_index u) new apart)) h

-- The thread's ticket after its store: still to be written, or committed.
after_store-Present :
    (next : Store) (t : ℕ) (b : Breadcrumb) (slot : BreadcrumbSlot)
    → t < 2 ^ 63
    → Ticketed next t slot
    → Writes (after_store next t b) t
      ⊎ (((store next t b slot).commit ≡ t * 2) × ((store next t b slot).ticket ≡ t))
unfolding store
after_store-Present close_slot t b slot small h = inl refl
after_store-Present put_ticket t b slot small h = inl refl
after_store-Present put_timestamp t b slot small h = inl refl
after_store-Present put_arg0 t b slot small h = inl refl
after_store-Present put_arg1 t b slot small h = inl refl
after_store-Present put_source t b slot small h = inl refl
after_store-Present put_event t b slot small h = inl refl
after_store-Present open_slot t b slot small h = inr (omega arith, h)

-- A slot that is being written is not committed for its writer's ticket or a later one.
Stored-commit :
    (next : Store) (t : ℕ) (b : Breadcrumb) (slot : BreadcrumbSlot)
    → Stored next t b slot
    → (slot.commit < t * 2) ⊎ (slot.commit ≡ t * 2 + 1)
Stored-commit close_slot t b slot h = inl h
Stored-commit put_ticket t b slot h = inr h
Stored-commit put_timestamp t b slot h = inr h
Stored-commit put_arg0 t b slot h = inr h.0
Stored-commit put_arg1 t b slot h = inr h.0
Stored-commit put_source t b slot h = inr h.0
Stored-commit put_event t b slot h = inr h.0
Stored-commit open_slot t b slot h = inr h.0

-- After a store.
module _ (s : Ring) (f : Fresh s) (inv : Inv s) (i : ℕ) (next : Store) (t : ℕ) (b : Breadcrumb)
    (here : s.writer i ≡ writing next t b) where
  own : WriterOk s.newest s.issued s.slots (writing next t b)
  own = subst (WriterOk s.newest s.issued s.slots) here (inv.running i)

  own_ticket : Ticketed next t (s.slots (slot_index t))
  own_ticket = subst (TicketOk s.slots) here (f.tickets i)

  abbrev slots' : ℕ → BreadcrumbSlot
  slots' = (stored s i next t b).slots

  write-tickets : (j : ℕ) → TicketOk slots' ((stored s i next t b).writer j)
  write-tickets j =
      update_cases (TicketOk slots') s.writer i j (after_store next t b)
        (λ _. store-Ticketed next t b s.slots own_ticket)
        (λ other.
          other-TicketOk s.slots next t b (s.writer j) (store next t b (s.slots (slot_index t)))
            (subst (λ w. Apart w (s.writer j)) here (inv.apart i j other)) (f.tickets j))

  own-Present : Present (stored s i next t b) t
  own-Present =
      elim (after_store-Present next t b (s.slots (slot_index t)) (omega (arith, own.1, inv.small))
        own_ticket) [
          | inl more ↦ inl (
            i,
            subst (λ w. Writes w t) (sym (update_self s.writer i (after_store next t b))) more,
          )
          | inr done ↦ inr (
              subst (λ (slot : BreadcrumbSlot). (slot.commit ≡ t * 2) × (slot.ticket ≡ t))
                (sym (update_self s.slots (slot_index t) (store next t b (s.slots (slot_index t)))))
                done)
        ]

  done-elsewhere :
      (u : ℕ)
      → 0 < u
      → u ≤ s.newest
      → s.newest < u + 128
      → (s.slots (slot_index u)).commit ≡ u * 2
      → slot_index t ≢ slot_index u
  done-elsewhere u pos le near done same =
      let at : (s.slots (slot_index t)).commit ≡ u * 2 =
        ap (λ (j : ℕ). (s.slots j).commit) same ∙ done in
      elim (Stored-commit next t b (s.slots (slot_index t)) own.5) [
        | inl less ↦ omega (
          arith,
          at,
          less,
          own.1,
          near,
          inv.small,
          slot_index_apart t u pos (omega (arith, at, less)) (omega (arith, own.1, inv.small)) same,
        )
        | inr odd ↦ omega (arith, at, odd)
      ]

  write-Present :
      (u : ℕ) → 0 < u → u ≤ s.newest → s.newest < u + 128 → Present (stored s i next t b) u
  write-Present u pos le near = elim (f.present u pos le near) [
    | inl (j, at) ↦ elim (ℕ_discrete i j) [
      | yes same ↦
          let mine : t ≡ u = subst (λ w. Writes w u) (ap s.writer (sym same) ∙ here) at in
          subst (Present (stored s i next t b)) mine own-Present
      | no other ↦ inl (
        j,
        subst (λ w. Writes w u) (sym (update_ne s.writer i j (after_store next t b) other)) at,
      )
    ]
    | inr done ↦ inr (
        subst (λ (slot : BreadcrumbSlot). (slot.commit ≡ u * 2) × (slot.ticket ≡ u))
          (sym (
            update_ne s.slots (slot_index t) (slot_index u) _
              (done-elsewhere u pos le near done.0)))
          done)
  ]

  write-Fresh : Fresh (stored s i next t b)
  write-Fresh = record { tickets = write-tickets; present = write-Present }

Step-Fresh : {s t : Ring} → Step Unlapped s t → Inv s → Fresh s → Fresh t
Step-Fresh {s} (claim i b fe ff outside free) inv f = claim-Fresh s f i b outside
Step-Fresh {s} (write i next t b here) inv f = write-Fresh s f inv i next t b here
Step-Fresh {s} (begin t pos le) inv f = record { tickets = f.tickets; present = f.present }
Step-Fresh {s} read inv f = record { tickets = f.tickets; present = f.present }

pub Reach-Fresh : {s : Ring} → Reach Unlapped s → Fresh s
Reach-Fresh start = empty_ring-Fresh
Reach-Fresh (later r st) = Step-Fresh st (Reach-Inv r) (Reach-Fresh r)
