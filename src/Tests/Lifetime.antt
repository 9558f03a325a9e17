-- ===== src/Tests/Lifetime.antt =====
-- A call and the client's stop, one access at a time.
use peepbooth.Base.{ℕ_discrete, some, none, ◌≡◌, refl, update}
use peepbooth.Client.Lifetime.{
  Life, outside, checking, free, create, publish, move, call, Reach, StopRun, start, later, thread,
  accessed,
}
use peepbooth.Client.Lifetime.Mapped.{BetweenCalls, accessed-mapped}
use peepbooth.Client.Lifetime.Overtaken.{stop-unmapped}

-- Started, with one thread behind its load of the pointer.
abbrev calling : Life
calling = record {
  pointer = some 4096;
  mapping = some 4096;
  owner = free;
  caller = update (λ _. outside) 0 (checking 4096);
}

abbrev to_calling : (Allowed : Life → Type 0) → Reach Allowed calling
to_calling Allowed =
    later (later (later start (create 4096 refl refl)) (publish 4096 refl))
      (move 0 (checking 4096) (call 4096 refl))

accessed-mapped_example : calling.mapping ≡ some 4096
unfolding ℕ_discrete
accessed-mapped_example = accessed-mapped calling (thread 0) 4096 (to_calling BetweenCalls) refl

stop-unmapped_example :
    (t : Life) × StopRun (λ _. Unit {0}) calling t
    × (t.caller ≡ calling.caller)
    × (accessed t (thread 0) ≡ some 4096)
    × (t.mapping ≡ none)
unfolding ℕ_discrete
stop-unmapped_example = stop-unmapped calling 0 4096 refl refl refl
