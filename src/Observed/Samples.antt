-- ===== src/Observed/Samples.antt =====
-- core/src/monitor/observed_process.cpp, `accept_sample`: what a sample may change.
use peepbooth.Base.{
  Bool, ◌==◌, ◌&&◌, ℕ, List, [], ◌∷◌, ◌++◌, Option, none, some, true, false, arith, ◌≡◌, ◌≢◌, refl,
  ◌∙◌, ap, if◌then◌else◌, Bool-cases, inl, inr,
}
use mathlib.Core.Option
use peepbooth.Float.{Float}
use peepbooth.ProcFile.{ProcessIdentity, ProcessSample}
use peepbooth.Platform.ProcessWatch.{ProcessHandle}
use peepbooth.Session.{WatchdogSnapshot}
use peepbooth.Trend.{Point, summary, add}
use peepbooth.Trend.Window.{add_all}
use peepbooth.Health.{classify_health}
use peepbooth.Observed.{
  Status, sample_unavailable, identity_changed, sampled, Observer, same_process, accept_sample,
}

-- The sample is there and is of the process.
abbrev pub is_own : ProcessIdentity → Option ProcessSample → Bool
is_own i none = false
is_own i (some s) = (s.identity.pid == i.pid) && (s.identity.start_ticks == i.start_ticks)

-- What is said of a sample that is not.
abbrev pub loss : Option ProcessSample → Status
loss none = sample_unavailable
loss (some s) = identity_changed

module _ (F : Float) where
  -- What the owner holds after an observation of the given sample, snapshot and time.
  pub data Outcome (o : Observer F) (sample : Option ProcessSample) (watchdog : WatchdogSnapshot)
      (now : ℕ) (p : Observer F) : Type 0 where
    good :
        (s : ProcessSample)
        → sample ≡ some s
        → is_own o.process.identity sample ≡ true
        → p.latest.status ≡ sampled
        → p.latest.sample ≡ some s
        → p.previous ≡ some s
        → p.latest.responsiveness
          ≡ some (
              classify_health F watchdog now o.stale_after_ns
                (Option.get_or p.latest.cpu_percent (F.of_nat 0)))
        → p.memory ≡ add o.memory s.sampled_at_ns s.memory.rss_bytes
        → p.latest.memory ≡ summary F p.memory
        → Outcome o sample watchdog now p
    lost :
        is_own o.process.identity sample ≡ false
        → p.latest.status ≡ loss sample
        → p.latest.sample ≡ none
        → p.previous ≡ none
        → p.latest.cpu_percent ≡ none
        → p.latest.responsiveness ≡ none
        → p.memory ≡ o.memory
        → p.latest.memory ≡ summary F o.memory
        → Outcome o sample watchdog now p

  good-Outcome :
      (o : Observer F) (s : ProcessSample) (watchdog : WatchdogSnapshot) (now : ℕ)
      → same_process s.identity o.process.identity ≡ true
      → Outcome o (some s) watchdog now (accept_sample F o (some s) watchdog now)
  unfolding accept_sample
  good-Outcome o s watchdog now same = rw same (good s refl same refl refl refl refl refl refl)

  lost-Outcome :
      (o : Observer F) (s : ProcessSample) (watchdog : WatchdogSnapshot) (now : ℕ)
      → same_process s.identity o.process.identity ≡ false
      → Outcome o (some s) watchdog now (accept_sample F o (some s) watchdog now)
  unfolding accept_sample
  lost-Outcome o s watchdog now other = rw other (lost other refl refl refl refl refl refl refl)

  -- What an observation changes, on every branch of `accept_sample`. If the sample is there and its
  -- number and start time are the observed process's, then it is shown, kept for the next comparison and
  -- added to the trend, and the verdict is that on the given snapshot at the given time under the load shown, 0 if none. If it is missing
  -- or of another process, the status says which, the observation shows no sample, no load and no verdict,
  -- the last good sample is forgotten, and the trend is as it was.
  pub accept_sample-Outcome :
      (o : Observer F) (sample : Option ProcessSample) (watchdog : WatchdogSnapshot) (now : ℕ)
      → Outcome o sample watchdog now (accept_sample F o sample watchdog now)
  unfolding accept_sample
  accept_sample-Outcome o none watchdog now = lost refl refl refl refl refl refl refl refl
  accept_sample-Outcome o (some s) watchdog now =
      elim (Bool-cases (same_process s.identity o.process.identity)) [
        | inl same ↦ good-Outcome o s watchdog now same
        | inr other ↦ lost-Outcome o s watchdog now other
      ]

  -- A sample of the observed process after one that was missing or another's has no load figure.
  pub gap-cpu_percent :
      (o : Observer F) (missed : Option ProcessSample) (s : ProcessSample)
      (before after : WatchdogSnapshot) (t u : ℕ)
      → (accept_sample F o missed before t).latest.status ≢ sampled
      → (accept_sample F (accept_sample F o missed before t) (some s) after u).latest.cpu_percent
        ≡ none
  unfolding accept_sample
  gap-cpu_percent o none s before after t u gap = ground arith
  gap-cpu_percent o (some m) s before after t u gap = ground arith

-- One observation's inputs.
pub record Reading : Type 0 where
  pub sample : Option ProcessSample
  pub watchdog : WatchdogSnapshot
  pub now : ℕ

-- The sizes of the readings that are of the process, as points of the trend.
abbrev own_point : ProcessIdentity → Option ProcessSample → List Point
own_point i none = []
own_point i (some s) =
    if same_process s.identity i
    then record { timestamp_ns = s.sampled_at_ns; rss_bytes = s.memory.rss_bytes } ∷ []
    else []

abbrev pub own_points : ProcessIdentity → List Reading → List Point
own_points i [] = []
own_points i (r ∷ rs) = own_point i r.sample ++ own_points i rs

module _ (F : Float) where
  abbrev pub accept_readings : Observer F → List Reading → Observer F
  accept_readings o [] = o
  accept_readings o (r ∷ rs) = accept_readings (accept_sample F o r.sample r.watchdog r.now) rs

  accept_sample-memory :
      (o : Observer F) (sample : Option ProcessSample) (watchdog : WatchdogSnapshot) (now : ℕ)
      (rest : List Point)
      → (add_all (accept_sample F o sample watchdog now).memory rest
          ≡ add_all o.memory (own_point o.process.identity sample ++ rest))
        × ((accept_sample F o sample watchdog now).process ≡ o.process)
  unfolding accept_sample
  accept_sample-memory o none watchdog now rest = (refl, refl)
  accept_sample-memory o (some s) watchdog now rest =
      elim (Bool-cases (same_process s.identity o.process.identity)) [
        | inl same ↦ rw same (refl, refl)
        | inr other ↦ rw other (refl, refl)
      ]

  -- The trend is of one process. After any sequence of observations the trend is what `add` makes
  -- of the sizes of exactly those samples whose number and start time are the observed process's,
  -- in their order.
  pub memory-own_points :
      (o : Observer F) (rs : List Reading)
      → (accept_readings o rs).memory ≡ add_all o.memory (own_points o.process.identity rs)
  memory-own_points o [] = refl
  memory-own_points o (r ∷ rs) =
      let o' = accept_sample F o r.sample r.watchdog r.now in
      let (step, same) =
        accept_sample-memory o r.sample r.watchdog r.now (own_points o.process.identity rs) in
      memory-own_points o' rs
      ∙ (ap (λ (p : ProcessHandle). add_all o'.memory (own_points p.identity rs)) same ∙ step)
