-- ===== src/Observed/Verdict.antt =====
-- core/src/monitor/observed_process.cpp: where the verdict of an observation comes from.
use peepbooth.Base.{
  ◌≢◌, ℕ, ◌≡◌, refl, Option, none, some, Bool, true, false, ◌⊎◌, inl, inr, Bool-cases, arith,
  if◌then◌else◌,
}
use peepbooth.Float.{Float}
use peepbooth.Platform.Kernel.{Kernel, World, M}
use peepbooth.ProcFile.{ProcessSample}
use peepbooth.Platform.ProcessWatch.{sample_process}
use peepbooth.Session.{Session, WatchdogSnapshot, valid}
use peepbooth.Health.{classify_health}
use peepbooth.Observed.Polls.{poll-attached}
use peepbooth.Observed.Ownership.{session_ok, attach-valid}
use peepbooth.Session
use peepbooth.Observed.{
  is_attached, try_attach, sampled, not_attached, Observer, Observation, same_process,
  accept_sample, alive, poll, poll_session, poll_unattached,
}

module _ (F : Float) where
  -- An observation has no sample and no verdict, or the verdict on its own snapshot at its own time.
  abbrev pub IsJudged : ℕ → Observation F → Type 0
  IsJudged stale_after p =
      ((p.status ≢ sampled) × (p.responsiveness ≡ none))
      ⊎ ((cpu : F.Double) × (p.responsiveness
            ≡ some (classify_health F p.watchdog p.observed_at_ns stale_after cpu)))

  accept_sample-IsJudged :
      (o : Observer F) (sample : Option ProcessSample) (watchdog : WatchdogSnapshot) (now : ℕ)
      → IsJudged o.stale_after_ns (accept_sample F o sample watchdog now).latest
  unfolding accept_sample
  accept_sample-IsJudged o none watchdog now = inl (λ e. cc, refl)
  accept_sample-IsJudged o (some s) watchdog now =
      elim (Bool-cases (same_process s.identity o.process.identity)) [
        | inl same ↦ rw same (inr (_, refl))
        | inr other ↦ rw other (inl (λ e. cc, refl))
      ]

  module _ (k : Kernel) where
    poll_session-from :
        (o : Observer F) (session : Session) (w : World) (living : Bool)
        → (alive F k o (sample_process k o.process.identity.pid w).1).0 ≡ living
        → IsJudged o.stale_after_ns (poll_session F k o session w).0.latest
    unfolding poll_session
    poll_session-from o session w false dead = rw dead (inl (λ e. cc, unfold accept_sample in refl))
    poll_session-from o session w true living = rw living (accept_sample-IsJudged o _ _ _)

    poll-from :
        (o : Observer F) (session : Option Session) (w : World)
        → IsJudged o.stale_after_ns
            ((elim session as (λ _. M (Observer F)) [
              | none ↦ poll_unattached F k o
              | some s ↦ if valid s then poll_session F k o s else poll_unattached F k o
            ])
              w).0.latest
    unfolding poll_unattached
    poll-from o none w = inl (λ e. cc, refl)
    poll-from o (some session) w = elim (Bool-cases (valid session)) [
      | inl good ↦ rw good (poll_session-from o session w _ refl)
      | inr bad ↦ rw bad (inl (λ e. cc, refl))
    ]

    pub poll-IsJudged :
        (o : Observer F) (w : World) → IsJudged o.stale_after_ns (poll F k o w).0.latest
    unfolding poll
    poll-IsJudged o w = poll-from o o.session w

    pub poll-stale_after_ns :
        (o : Observer F) (w : World) → (poll F k o w).0.stale_after_ns ≡ o.stale_after_ns
    unfolding poll accept_sample
    poll-stale_after_ns o w = grind arith

-- A look of an observer with a session is not that of one without.
poll_session-status :
    (F : Float) (k : Kernel) (o : Observer F) (session : Session) (w : World)
    → (poll_session F k o session w).0.latest.status ≢ not_attached
unfolding poll_session accept_sample
poll_session-status F k o session w = grind arith

abbrev pub holds_session : Option Session → Bool
holds_session none = false
holds_session (some session) = valid session

poll-status_from :
    (F : Float) (k : Kernel) (o : Observer F) (session : Option Session) (w : World)
    → o.session ≡ session
    → holds_session session ≡ true
    → (poll F k o w).0.latest.status ≢ not_attached
poll-status_from F k o none w e h = absurd (ground (arith, h))
poll-status_from F k o (some session) w e h =
    rw (poll-attached F k o session w e h) (poll_session-status F k o session w)

pub poll-status :
    (F : Float) (k : Kernel) (o : Observer F) (w : World)
    → holds_session o.session ≡ true
    → (poll F k o w).0.latest.status ≢ not_attached
poll-status F k o w h = poll-status_from F k o o.session w refl h

attached-holds :
    (attached : Option Session)
    → session_ok attached ≡ true
    → (elim attached as (λ _. Bool) [ none ↦ false | some _ ↦ true ]) ≡ true
    → holds_session attached ≡ true
attached-holds none ok h = h
attached-holds (some session) ok h = ok

is_attached-holds : (x : Option Session) → is_attached x ≡ holds_session x
unfolding is_attached
is_attached-holds none = refl
is_attached-holds (some session) = refl

-- An observer that says that it is attached has a session.
pub try_attach-holds :
    (F : Float) (k : Kernel) (o : Observer F) (w : World)
    → (try_attach F k o w).0.0 ≡ true
    → holds_session (try_attach F k o w).0.1.session ≡ true
unfolding try_attach
try_attach-holds F k o w h =
    let v = (alive F k o w).1 in
    let same = is_attached-holds o.session in
    let made =
      attached-holds (Session.attach k o.process.identity v).0
        (attach-valid F k o.process.identity v) in
    grind (arith, h, same, made)
