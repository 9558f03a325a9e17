-- ===== src/Contract/Polls/Seen.antt =====
-- What each look of core/src/monitor/observed_process.cpp shows.
use peepbooth.Base.{
  ℕ, ◌+◌, ◌<◌, ◌≡◌, ◌≢◌, refl, sym, ap, ◌∙◌, List, [], ◌∷◌, ◌++◌, some, true, false, length,
}
use peepbooth.SharedState.{u64_mod}
use peepbooth.Float.{Float}
use peepbooth.Platform.Kernel.{Kernel, World}
use peepbooth.Platform.ProcessWatch.{sample_process}
use peepbooth.Client.{Client, Memory}
use peepbooth.Session.{Session, valid, snapshot, default_watcher_lease_ns}
use peepbooth.Observed.{
  Status, not_attached, sampled, sample_unavailable, identity_changed, exited, Observer, alive,
  poll,
}
use peepbooth.Observed.Ownership.{poll-session}
use peepbooth.Observed.Polls.{Left, poll-effects}
use peepbooth.Contract.{Board, Request, renew, run_board, run_request, run_requests, seen}
use peepbooth.Contract.Shown.{Shows}
use peepbooth.Contract.Refines.{AllAllowed, run_requests-seen}
use peepbooth.Contract.Polls.{
  Turn, ask, look, renewal, take_turn, requests_of, take_turns, replay, last_look,
}

renewal-living :
    (now : ℕ) (status : Status)
    → status ≢ exited
    → renewal now status ≡ renew now default_watcher_lease_ns ∷ []
renewal-living now not_attached h = refl
renewal-living now sampled h = refl
renewal-living now sample_unavailable h = refl
renewal-living now identity_changed h = refl
renewal-living now exited h = absurd (h refl)

run_requests-append :
    (session : Session) (before after : List Request) (at : Client × Memory)
    → run_requests session (before ++ after) at
      ≡ run_requests session after (run_requests session before at)
unfolding run_requests
run_requests-append session [] after at = refl
run_requests-append session (r ∷ rs) after at =
    run_requests-append session rs after (run_request session r at)

module _ (F : Float) (k : Kernel) (session : Session) where
  Left-run :
      (living : _) (o o' : Observer F) (c : Client) (w w' : World)
      → Left F living o session w o' w'
      → (c, w'.memory)
        ≡ run_requests session (renewal o'.latest.observed_at_ns o'.latest.status) (c, w.memory)
  unfolding run_requests run_request
  Left-run false o o' c w w' (gone, silent, kept, memory) =
      rw gone (ap (λ (m : Memory). (c, m)) memory)
  Left-run true o o' c w w' (there, memory) =
      rw (renewal-living o'.latest.observed_at_ns o'.latest.status there)
        (ap (λ (m : Memory). (c, m)) memory)

  take_turn-run :
      (t : Turn) (o : Observer F) (c : Client) (w : World)
      → o.session ≡ some session
      → valid session ≡ true
      → let after = take_turn F k session t (o, c, w) in
        (after.0.session ≡ some session)
        × ((after.1, after.2.memory)
            ≡ run_requests session (requests_of F k session t (o, c, w)) (c, w.memory))
  unfolding take_turn requests_of
  take_turn-run (ask r) o c w attached good = (attached, unfold run_requests in refl)
  take_turn-run look o c w attached good =
      let living = (alive F k o (sample_process k o.process.identity.pid w).1).0 in
      let after = poll F k o w in
      (
        poll-session F k o w ∙ attached,
        Left-run living o after.0 c w after.1 (poll-effects F k o session w attached good).1,
      )

  take_turns-run :
      (turns : List Turn) (o : Observer F) (c : Client) (w : World)
      → o.session ≡ some session
      → valid session ≡ true
      → let after = take_turns F k session turns (o, c, w) in
        (after.0.session ≡ some session)
        × ((after.1, after.2.memory)
            ≡ run_requests session (replay F k session turns (o, c, w)) (c, w.memory))
  unfolding take_turns replay
  take_turns-run [] o c w attached good = (attached, unfold run_requests in refl)
  take_turns-run (t ∷ ts) o c w attached good =
      let here = take_turn-run t o c w attached good in
      let (o', c', w') = take_turn F k session t (o, c, w) in
      let rest = take_turns-run ts o' c' w' here.0 good in
      (
        rest.0,
        rest.1
            ∙ ap (run_requests session (replay F k session ts (o', c', w'))) here.1
            ∙ sym (
                run_requests-append session (requests_of F k session t (o, c, w))
                  (replay F k session ts (o', c', w')) (c, w.memory)),
      )

  pub last_look-watchdog :
      (turns : List Turn) (o : Observer F) (c : Client) (w : World)
      → o.session ≡ some session
      → valid session ≡ true
      → (last_look F k session turns (o, c, w)).watchdog
        ≡ snapshot session
            (run_requests session (replay F k session turns (o, c, w)) (c, w.memory)).1
  last_look-watchdog turns o c w attached good =
      let (kept, same) = take_turns-run turns o c w attached good in
      let (o', c', w') = take_turns F k session turns (o, c, w) in
      (poll-effects F k o' session w' kept good).0
      ∙ ap (λ (x : Client × Memory). snapshot session x.1) same

  -- Each look shows the board. Let the code's client and record stand for a board, and the observer have
  -- a session at the same record. Then after any sequence of the producer's calls, renewals and looks at
  -- the process, in any order, on any kernel, whichever of its calls fail, the next look shows exactly
  -- what the board has after the same requests, with a renewal for three seconds at the time of each
  -- look that found the process alive, and nothing for one that found it dead; if each clock reading is
  -- more than half a second from its end and every breadcrumb's numbers fit 16 bits.
  pub poll-seen :
      (turns : List Turn) (a : ℕ) (b : Board) (o : Observer F) (c : Client) (w : World)
      → session.mapping.state ≡ some a
      → valid session ≡ true
      → o.session ≡ some session
      → c.state ≡ some a
      → Shows b c (w.memory a)
      → AllAllowed (replay F k session turns (o, c, w))
      → length b.log + length (replay F k session turns (o, c, w)) + 1 < u64_mod
      → (last_look F k session turns (o, c, w)).watchdog
        ≡ seen (run_board (replay F k session turns (o, c, w)) b)
  poll-seen turns a b o c w mapped good attached at shows ok small =
      last_look-watchdog turns o c w attached good
      ∙ run_requests-seen session a (replay F k session turns (o, c, w)) b c w.memory mapped at
          shows ok small
