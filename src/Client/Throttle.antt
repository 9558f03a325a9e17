-- ===== src/Client/Throttle.antt =====
-- core/src/monitor/client.cpp, lines 100 to 112: the compare-exchange loop of `heartbeat` on one
-- channel, by any number of threads, one access of `next_heartbeat` at a time.
use peepbooth.Base.{ℕ, ◌+◌, ◌%◌, ◌≤◌, ◌<◌, ◌≡◌, List, [], ◌∷◌, arith, update, update_cases, subst}
use peepbooth.SharedState.{u64_mod}
use peepbooth.Client.{minimum_interval_ns}

-- A thread outside the loop, or in it with its clock reading and the value of `next` that it holds.
pub data Caller : Type 0 where
  outside : Caller
  holding : (now next : ℕ) → Caller

-- `won` keeps the clock readings of the exchanges that succeeded, the newest first: the heartbeats
-- that are published.
pub record Throttle : Type 0 where
  pub cell : ℕ
  pub caller : ℕ → Caller
  pub won : List ℕ

abbrev pub unclaimed : Throttle
unclaimed = record { cell = 0; caller = λ _. outside; won = [] }

-- An exchange that fails, for another value in the cell or spuriously, reads the cell again.
pub data Step (s : Throttle) : Throttle → Type 0 where
  load :
      (i now : ℕ)
      → s.caller i ≡ outside
      → now + minimum_interval_ns < u64_mod
      → Step s (record s { caller = update s.caller i (holding now s.cell) })
  give_up :
      (i now next : ℕ)
      → s.caller i ≡ holding now next
      → now < next
      → Step s (record s { caller = update s.caller i outside })
  win :
      (i now next : ℕ)
      → s.caller i ≡ holding now next
      → next ≤ now
      → s.cell ≡ next
      → Step s (record {
        cell = (now + minimum_interval_ns) % u64_mod;
        caller = update s.caller i outside;
        won = now ∷ s.won;
      })
  fail :
      (i now next : ℕ)
      → s.caller i ≡ holding now next
      → next ≤ now
      → Step s (record s { caller = update s.caller i (holding now s.cell) })

pub data Reach : Throttle → Type 0 where
  start : Reach unclaimed
  later : {s t : Throttle} → Reach s → Step s t → Reach t

-- Every earlier reading in the list is older by the interval at least.
abbrev pub Older : ℕ → List ℕ → Type 0
Older time [] = Unit {0}
Older time (t ∷ ts) = (t + minimum_interval_ns ≤ time) × Older time ts

abbrev pub Spaced : List ℕ → Type 0
Spaced [] = Unit {0}
Spaced (t ∷ ts) = Older t ts × Spaced ts

abbrev Holds : Caller → Type 0
Holds outside = Unit {0}
Holds (holding now next) = now + minimum_interval_ns < u64_mod

record Inv (s : Throttle) : Type 0 where
  spaced : Spaced s.won
  older : Older s.cell s.won
  small : (i : ℕ) → Holds (s.caller i)

Older-mono : (t u : ℕ) (ts : List ℕ) → t ≤ u → Older t ts → Older u ts
Older-mono t u [] le h = tt
Older-mono t u (x ∷ ts) le h = (omega arith, Older-mono t u ts le h.1)

Step-Inv : {s t : Throttle} → Step s t → Inv s → Inv t
Step-Inv {s} (load i now at fits) v = record {
  spaced = v.spaced;
  older = v.older;
  small = λ j. update_cases Holds s.caller i j (holding now s.cell) (λ _. fits) (λ _. v.small j);
}
Step-Inv {s} (give_up i now next at early) v = record {
  spaced = v.spaced;
  older = v.older;
  small = λ j. update_cases Holds s.caller i j outside (λ _. tt) (λ _. v.small j);
}
Step-Inv {s} (win i now next at due same) v =
    let fits : now + minimum_interval_ns < u64_mod = subst Holds at (v.small i) in
    record {
      spaced = (Older-mono s.cell now s.won (omega arith) v.older, v.spaced);
      older = (omega arith, Older-mono s.cell _ s.won (omega arith) v.older);
      small = λ j. update_cases Holds s.caller i j outside (λ _. tt) (λ _. v.small j);
    }
Step-Inv {s} (fail i now next at due) v = record {
  spaced = v.spaced;
  older = v.older;
  small = λ j.
      update_cases Holds s.caller i j (holding now s.cell) (λ _. subst Holds at (v.small i))
        (λ _. v.small j);
}

Reach-Inv : {s : Throttle} → Reach s → Inv s
Reach-Inv start = record { spaced = tt; older = tt; small = λ i. tt }
Reach-Inv (later r st) = Step-Inv st (Reach-Inv r)

-- No two heartbeats of a channel are published within 500 milliseconds. In every state that any
-- number of threads can reach, one access at a time, in any order and with exchanges that fail at
-- any time, the clock readings of the exchanges that succeeded differ pairwise by the interval at
-- least, later ones being the larger. The clock is taken not to be within the interval of its end.
pub won-Spaced : {s : Throttle} → Reach s → Spaced s.won
won-Spaced r = (Reach-Inv r).spaced
