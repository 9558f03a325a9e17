-- ===== src/Tests/Ring.antt =====
-- The ring of breadcrumbs, the lease and the throttle.
use peepbooth.Base.{◌+◌, ◌%◌, ◌≡◌, refl, List, [], ◌∷◌, some, none, arith, update, ℕ_discrete}
use peepbooth.SharedState.{Breadcrumb, u64_mod}
use peepbooth.Client.{breadcrumb_in, claim, slot_index, minimum_interval_ns}
use peepbooth.Client.Throttle
use peepbooth.Client.Throttle.{Throttle, won-Spaced, Spaced, unclaimed}
use peepbooth.Session.{breadcrumb_history, read_tickets}
use peepbooth.Session.History.{record_all, history-record_all}
use peepbooth.Seqlock.{Run, claimed, Ring, Reach, Unlapped, finished, empty_ring, idle}
use peepbooth.Seqlock.Safety.{read-untorn, solo_round_trip}
use peepbooth.Seqlock.Lapping.{Bounded, lapped-torn}
use peepbooth.Tests.Data.{leased, loaded, started}

abbrev entries : List Breadcrumb
entries = loaded ∷ started ∷ loaded ∷ []

history_run : breadcrumb_history (record_all entries leased) ≡ entries
unfolding breadcrumb_history read_tickets breadcrumb_in slot_index ℕ_discrete
history_run = refl

history-record_all_example : breadcrumb_history (record_all entries leased) ≡ entries
history-record_all_example =
    history-record_all entries leased refl (omega arith) (omega arith) (omega arith)

-- One thread is still at the slot of ticket 1 while the watcher has found nothing there.
abbrev taken_once : Ring
taken_once = record (claimed empty_ring 0 loaded) { reader = finished 1 none }

abbrev recorded :
    (s : Ring) × Run Unlapped empty_ring s
    × (s.issued 1 ≡ some loaded)
    × (s.reader ≡ finished 1 (some loaded))
recorded =
    solo_round_trip empty_ring 0 loaded refl (omega arith, λ i. tt) (omega arith, omega arith)

taken_once-idle : taken_once.writer 1 ≡ idle
taken_once-idle = ground arith

taken_once-Unlapped : Unlapped taken_once
unfolding slot_index
taken_once-Unlapped = (omega arith, λ i. ground arith)

-- The second entry, by another thread.
solo_round_trip_example :
    (s : Ring) × Run Unlapped taken_once s
    × (s.issued 2 ≡ some started)
    × (s.reader ≡ finished 2 (some started))
solo_round_trip_example =
    solo_round_trip taken_once 1 started taken_once-idle taken_once-Unlapped
      (omega arith, omega arith)

read-untorn_example : recorded.0.issued 1 ≡ some loaded
read-untorn_example = read-untorn recorded.1 1 loaded recorded.3

lapped-torn_example :
    (s : Ring) × Reach Bounded s
    × (s.issued 129 ≡ some started)
    × (s.reader ≡ finished 129 (some (record started { arg1 = 9 })))
lapped-torn_example =
    lapped-torn loaded started (omega arith, omega arith) (omega arith, omega arith)

-- One thread claims the channel at 700, after an exchange that failed for no reason.
abbrev claimed_once : Throttle.Reach (record {
  cell = (700 + minimum_interval_ns) % u64_mod;
  caller =
      update
        (update
          (update (λ _. Throttle.outside) 3 (Throttle.holding 700 0))
          3
          (Throttle.holding 700 0))
        3
        Throttle.outside;
  won = 700 ∷ [];
})
unfolding ℕ_discrete
claimed_once =
    Throttle.later
      (Throttle.later (Throttle.later Throttle.start (Throttle.load 3 700 refl (omega arith)))
        (Throttle.fail 3 700 0 refl (omega arith)))
      (Throttle.win 3 700 0 refl (omega arith) refl)

won-Spaced_example : Spaced (700 ∷ [])
won-Spaced_example = won-Spaced claimed_once

claim_runs : (claim 700 0 (0 ∷ []) ≡ some 500_000_700) × (claim 700 0 (500_000_600 ∷ []) ≡ none)
unfolding claim
claim_runs = (refl, refl)
