-- ===== src/Client/Lifetime/Mapped.antt =====
-- Where the accesses of core/src/monitor/client.cpp go, as long as the mapping is dropped between calls.
use peepbooth.Base.{
  ℕ, zero, suc, subst, Option, some, none, ◌≡◌, ◌⊎◌, inl, inr, refl, sym, ◌∙◌, update_cases, arith,
}
use peepbooth.Client.Lifetime.{
  Caller, outside, checking, reloading, looking, leasing, storing, Move, call, switch, unwatched,
  watched, stopped, reload, deserted, present, expired, refused, beat, append, store, finish, Owner,
  free, ending, unmapping, starting, Life, Step, move, create, publish, exchange, exchange_none,
  end, unmap, Reach, start, later, touched, ended, Actor, thread, mutex, accessed,
}

-- The address that a thread has loaded and not yet done with.
abbrev held : Caller → Option ℕ
held outside = none
held reloading = none
held (checking p) = some p
held (looking p) = some p
held (leasing p) = some p
held (storing n p) = some p

-- No call is under way that has loaded the pointer.
abbrev pub BetweenCalls : Life → Type 0
BetweenCalls s = (i : ℕ) → held (s.caller i) ≡ none

-- Pointer and mapping, by who has the mutex.
abbrev Owned : Option ℕ → Option ℕ → Owner → Type 0
Owned pointer mapping free = mapping ≡ pointer
Owned pointer mapping (ending p) = (pointer ≡ none) × (mapping ≡ some p)
Owned pointer mapping unmapping = pointer ≡ none
Owned pointer mapping (starting p) = (pointer ≡ none) × (mapping ≡ some p)

abbrev Within : Option ℕ → Caller → Type 0
Within mapping x = (p : ℕ) → held x ≡ some p → mapping ≡ some p

record Inv (s : Life) : Type 0 where
  owned : Owned s.pointer s.mapping s.owner
  within : (i : ℕ) → Within s.mapping (s.caller i)

-- What a thread holds behind its step is what it held, or the pointer.
Move-held :
    {pointer : Option ℕ} {x y : Caller}
    → Move pointer x y
    → (p : ℕ) → held y ≡ some p
    → (held x ≡ some p) ⊎ (pointer ≡ some p)
Move-held (call q at) p h = inr (at ∙ h)
Move-held (switch q at) p h = inr (at ∙ h)
Move-held (unwatched q) p h = ground (arith, h)
Move-held (watched q) p h = ground (arith, h)
Move-held (stopped at) p h = ground (arith, h)
Move-held (reload q at) p h = inr (at ∙ h)
Move-held (deserted q) p h = ground (arith, h)
Move-held (present q) p h = inl h
Move-held (expired q) p h = inl h
Move-held (refused q) p h = ground (arith, h)
Move-held (beat q) p h = inl h
Move-held (append q) p h = inl h
Move-held (store n q) p h = inl h
Move-held (finish q) p h = ground (arith, h)

-- A pointer that is not null is to what is mapped.
Owned-pointer :
    (pointer mapping : Option ℕ) (owner : Owner) (p : ℕ)
    → Owned pointer mapping owner
    → pointer ≡ some p
    → mapping ≡ some p
Owned-pointer pointer mapping free p h at = h ∙ at
Owned-pointer pointer mapping (ending q) p h at = ground (arith, h.0, at)
Owned-pointer pointer mapping unmapping p h at = ground (arith, h, at)
Owned-pointer pointer mapping (starting q) p h at = ground (arith, h.0, at)

owned_by : (s : Life) (owner : Owner) → s.owner ≡ owner → Inv s → Owned s.pointer s.mapping owner
owned_by s owner is v = subst (Owned s.pointer s.mapping) is v.owned

Step-Inv : {s t : Life} → Step BetweenCalls s t → Inv s → Inv t
Step-Inv {s} (move i x m) v = record {
  owned = v.owned;
  within = λ j.
      update_cases (Within s.mapping) s.caller i j x
        (λ _ p h. elim (Move-held m p h) [
          | inl before ↦ v.within i p before
          | inr now ↦ Owned-pointer s.pointer s.mapping s.owner p v.owned now
        ])
        (λ _. v.within j);
}
Step-Inv {s} (create p is at) v = record {
  owned = (at, refl);
  within = λ j q h.
      let empty : s.mapping ≡ s.pointer = owned_by s free is v in
      absurd (ground (arith, empty, at, v.within j q h));
}
Step-Inv {s} (publish p is) v = record {
  owned = (owned_by s (starting p) is v).1;
  within = v.within;
}
Step-Inv {s} (exchange p is at) v = record {
  owned = (refl, owned_by s free is v ∙ at);
  within = v.within;
}
Step-Inv {s} (exchange_none is at) v = record { owned = at; within = v.within }
Step-Inv {s} (end p is) v = record { owned = (owned_by s (ending p) is v).0; within = v.within }
Step-Inv {s} (unmap is quiet) v = record {
  owned = sym (owned_by s unmapping is v);
  within = λ j q h. absurd (ground (arith, quiet j, h));
}

Reach-Inv : {s : Life} → Reach BetweenCalls s → Inv s
Reach-Inv start = record { owned = refl; within = λ i p h. absurd (ground (arith, h)) }
Reach-Inv (later r step) = Step-Inv step (Reach-Inv r)

touched-held : (x : Caller) (p : ℕ) → touched x ≡ some p → held x ≡ some p
touched-held outside p h = h
touched-held reloading p h = h
touched-held (checking q) p h = h
touched-held (looking q) p h = h
touched-held (leasing q) p h = h
touched-held (storing zero q) p h = absurd (ground (arith, h))
touched-held (storing (suc n) q) p h = h

Owned-ended :
    (pointer mapping : Option ℕ) (owner : Owner) (p : ℕ)
    → Owned pointer mapping owner
    → ended owner ≡ some p
    → mapping ≡ some p
Owned-ended pointer mapping free p owned h = absurd (ground (arith, h))
Owned-ended pointer mapping (ending q) p owned h = owned.1 ∙ h
Owned-ended pointer mapping unmapping p owned h = absurd (ground (arith, h))
Owned-ended pointer mapping (starting q) p owned h = absurd (ground (arith, h))

-- Every access goes to the mapped record, if no call is under way when it is unmapped. In each state that
-- any number of threads reach, in any order, with `start` and `stop` as often as one likes, the address
-- that a call goes to next, or `stop` when it stores the lifecycle, is where the record is mapped, if
-- `stop` drops the mapping only while no thread is in a call that has loaded the pointer.
pub accessed-mapped :
    (s : Life) (who : Actor) (p : ℕ)
    → Reach BetweenCalls s
    → accessed s who ≡ some p
    → s.mapping ≡ some p
accessed-mapped s (thread i) p r h = (Reach-Inv r).within i p (touched-held (s.caller i) p h)
accessed-mapped s mutex p r h = Owned-ended s.pointer s.mapping s.owner p (Reach-Inv r).owned h
