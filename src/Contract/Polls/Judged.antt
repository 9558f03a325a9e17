-- ===== src/Contract/Polls/Judged.antt =====
-- The verdict of core/src/monitor/observed_process.cpp on a producer at work.
use peepbooth.Base.{
  ℕ, ◌+◌, ◌≤◌, ◌<◌, ◌≡◌, refl, ap, ◌∙◌, List, [], ◌∷◌, Option, none, some, Bool, true, false, not,
  inl, inr, length, arith,
}
use peepbooth.SharedState.{Channel, channel_index, heartbeat_channel_count, u64_mod}
use peepbooth.Float.{Float}
use peepbooth.Platform.Kernel.{Kernel, World}
use peepbooth.Client.{Client}
use peepbooth.Session.{Session, WatchdogSnapshot, valid}
use peepbooth.Health.{Health, classify_health}
use peepbooth.Health.Stale.{is_responsive}
use peepbooth.Observed.{Observer, Observation}
use peepbooth.Observed.Verdict.{IsJudged, poll-IsJudged, poll-stale_after_ns}
use peepbooth.Contract.{Board, beat}
use peepbooth.Contract.Shown.{Shows}
use peepbooth.Contract.Refines.{AllAllowed}
use peepbooth.Contract.Working.{AllKeep, working-responsive}
use peepbooth.Contract.Polls.{
  Turn, ask, look, take_turn, take_turns, requests_of, replay, last_look,
}
use peepbooth.Contract.Polls.Seen.{last_look-watchdog}

-- A look that gives no verdict does not say that the process is stalled.
abbrev pub says_stalled : Option Health → Bool
says_stalled none = false
says_stalled (some h) = not (is_responsive h)

says_stalled-if_IsJudged :
    (F : Float) (stale_after : ℕ) (p : Observation F)
    → ((cpu : F.Double)
        → is_responsive (classify_health F p.watchdog p.observed_at_ns stale_after cpu) ≡ true)
    → IsJudged F stale_after p
    → says_stalled p.responsiveness ≡ false
says_stalled-if_IsJudged F stale_after p responsive (inl (lost, silent)) = ap says_stalled silent
says_stalled-if_IsJudged F stale_after p responsive (inr (cpu, is)) =
    ap says_stalled is ∙ ap not (responsive cpu)

module _ (F : Float) (k : Kernel) (session : Session) where
  take_turns-stale_after_ns :
      (turns : List Turn) (o : Observer F) (c : Client) (w : World)
      → (take_turns F k session turns (o, c, w)).0.stale_after_ns ≡ o.stale_after_ns
  unfolding take_turns take_turn
  take_turns-stale_after_ns [] o c w = refl
  take_turns-stale_after_ns (ask r ∷ ts) o c w =
      let (o', c', w') = take_turn F k session (ask r) (o, c, w) in
      take_turns-stale_after_ns ts o' c' w'
  take_turns-stale_after_ns (look ∷ ts) o c w =
      let (o', c', w') = take_turn F k session look (o, c, w) in
      take_turns-stale_after_ns ts o' c' w' ∙ poll-stale_after_ns F k o w

  -- A look does not call a producer at work stalled. Let client and record stand for a board, the observer
  -- have a session at the same record, the lease hold, the channel be one of the four and its half second
  -- be over, when it beats at `now`. Then whatever calls, renewals and looks follow, on any kernel, but for
  -- a switch that turns the channel off or a heartbeat whose clock went back behind `now`, a look up to
  -- the age at which that heartbeat is stale has no verdict or one that finds a channel at work; if each
  -- clock reading is more than half a second from its end and every breadcrumb's numbers fit 16 bits.
  pub poll-working :
      (value : Channel) (now retries : ℕ) (turns : List Turn) (a : ℕ) (b : Board) (o : Observer F)
      (c : Client) (w : World)
      → session.mapping.state ≡ some a
      → valid session ≡ true
      → o.session ≡ some session
      → c.state ≡ some a
      → Shows b c (w.memory a)
      → b.watched ≡ true
      → now ≤ b.lease_until
      → channel_index value < heartbeat_channel_count
      → b.next (channel_index value) ≤ now
      → 0 < now
      → AllAllowed (replay F k session (ask (beat value now retries) ∷ turns) (o, c, w))
      → AllKeep
          (channel_index value)
          now
          (replay F k session (ask (beat value now retries) ∷ turns) (o, c, w))
      → length b.log
          + length (replay F k session (ask (beat value now retries) ∷ turns) (o, c, w))
          + 1
        < u64_mod
      → (last_look F k session (ask (beat value now retries) ∷ turns) (o, c, w)).observed_at_ns
        ≤ now + o.stale_after_ns
      → says_stalled
          (last_look F k session (ask (beat value now retries) ∷ turns) (o, c, w)).responsiveness
        ≡ false
  unfolding replay requests_of
  poll-working value now retries turns a b o c w mapped good attached at shows watched leased known
        due positive allowed keeps small fresh =
      let all : List Turn = ask (beat value now retries) ∷ turns in
      let (o', c', w') = take_turns F k session all (o, c, w) in
      let latest = last_look F k session all (o, c, w) in
      let later =
        replay F k session turns (take_turn F k session (ask (beat value now retries)) (o, c, w)) in
      let same = take_turns-stale_after_ns all o c w in
      says_stalled-if_IsJudged F o'.stale_after_ns latest
        (λ cpu.
          ap
            (λ (s : WatchdogSnapshot).
              is_responsive (classify_health F s latest.observed_at_ns o'.stale_after_ns cpu))
            (last_look-watchdog F k session all o c w attached good)
          ∙ working-responsive F session a b c w.memory value now retries later
              latest.observed_at_ns o'.stale_after_ns cpu mapped at shows watched leased known due
              positive allowed keeps.1 (omega (arith, small)) (omega (arith, fresh, same)))
        (poll-IsJudged F k o' w')
