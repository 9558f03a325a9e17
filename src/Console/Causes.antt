-- ===== src/Console/Causes.antt =====
-- Why core/src/monitor/console_watch.cpp, `run_console_watch`, reports what it reports.
use peepbooth.Base.{ℕ, ◌≡◌, ◌≢◌, List, [], ◌∷◌, Option, none, some, true, false}
use peepbooth.Float.{Float}
use peepbooth.Platform.Kernel.{Kernel, World, ◌>>=◌}
use peepbooth.Platform.ProcessWatch.{ProcessHandle}
use peepbooth.Observed.{Observer, sample_unavailable, identity_changed, Observation, alive, poll}
use peepbooth.Observed.Verdict.{holds_session}
use peepbooth.Console.Codes.{opened, fits_code}
use peepbooth.Console.{
  Report, observed, process_exited, usage, no_process, no_state, identity_lost, sample_lost, Round,
  failed, left,
}

module _ (F : Float) (k : Kernel) where
  -- A look of an observer with a session has come to an observation.
  abbrev pub Looked : (Observation F → Type 0) → Type 0
  Looked P =
      (o : Observer F) × (w : World) × (holds_session o.session ≡ true) × P (poll F k o w).0.latest

  -- What must have happened for a report. `process` is what the attach has returned.
  abbrev pub Because : Option ProcessHandle → Report F → Type 0
  Because process (observed x) = Looked (λ y. y ≡ x)
  Because process identity_lost = Looked (λ y. y.status ≡ identity_changed)
  Because process sample_lost = Looked (λ y. y.status ≡ sample_unavailable)
  Because process (process_exited l) =
      (o : Observer F) × (w : World) × ((alive F k o w).0 ≡ false)
      × ((poll F k o (alive F k o w).1).0.latest.watchdog.process_lifecycle ≡ l)
  Because process no_process = process ≡ none
  Because process no_state = process ≢ none
  Because process usage = ⊥

  abbrev pub AllBecause : Option ProcessHandle → List (Report F) → Type 0
  AllBecause process [] = Unit {0}
  AllBecause process (r ∷ reports) = Because process r × AllBecause process reports

  module _ (ticks : ℕ) (process : Option ProcessHandle) where
    abbrev RoundBecause : Round F k ticks → Type 0
    RoundBecause none = Unit {0}
    RoundBecause (some (failed r, reports, o)) = Because process r × AllBecause process reports
    RoundBecause (some (left, reports, o)) = AllBecause process reports

  module _ (ticks : ℕ) (process : Option ProcessHandle) where
    abbrev ResultBecause : Option (ℕ × List (Report F)) → Type 0
    ResultBecause none = Unit {0}
    ResultBecause (some (code, reports)) = AllBecause process reports

-- The watch returned, the code fits its reports, and each report has its cause.
abbrev pub Explained :
    (F : Float) → Kernel → Option ProcessHandle → Option (ℕ × List (Report F)) → Type 0
Explained F k process none = ⊥
Explained F k process (some (code, reports)) =
    (fits_code F (opened process) code reports ≡ true) × AllBecause F k process reports
