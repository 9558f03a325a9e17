-- ===== src/Contract/Refines.antt =====
-- Whole runs of producer and watcher against the board.
use peepbooth.Base.{
  ℕ, ◌+◌, ◌%◌, ◌≤◌, ◌<◌, ◌≡◌, refl, sym, ap, ◌∙◌, subst, List, [], ◌∷◌, update_self, map, range,
  fun_ext, length, some, arith, length-append,
}
use peepbooth.SharedState.{SharedState, to_channel, heartbeat_channel_count, u64_mod}
use peepbooth.Client.{
  Client, Memory, heartbeat_in, channel_active_in, breadcrumb_in, at_pointer, minimum_interval_ns,
}
use peepbooth.Client.Calls.{
  heartbeat-at, set_channel_active-at, breadcrumb-at, heartbeat_in-state, channel_active_in-state,
}
use peepbooth.Session.{
  Session, HeartbeatSnapshot, snapshot, snapshot_of, heartbeat_snapshots, renewed,
}
use peepbooth.Session.History.{Fits, history-drop}
use peepbooth.Session.Records.{shown, snapshot-at, renew_lease-at, heartbeat_snapshots-shown}
use peepbooth.Contract.{
  Pulse, Board, Request, beat, switch, leave, renew, step_board, run_board, seen, seen_heartbeats,
  spurious, run_request, run_requests,
}
use peepbooth.Contract.Steps.{Shows-beat, Shows-switch, Shows-leave, Shows-renew}
use peepbooth.Contract.Shown.{Shows, ShowsPulse}

-- The clock is not within half a second of its end, and an entry's numbers fit their 16 bits.
abbrev pub Allowed : Request → Type 0
Allowed (beat value now retries) = now + minimum_interval_ns < u64_mod
Allowed (switch value active now retries) = now + minimum_interval_ns < u64_mod
Allowed (leave entry) = Fits entry
Allowed (renew now duration) = now < u64_mod

abbrev pub AllAllowed : List Request → Type 0
AllAllowed [] = Unit {0}
AllAllowed (r ∷ rs) = Allowed r × AllAllowed rs

-- The client has its record at `a`, and both stand for the board.
abbrev pub ShowsAt : ℕ → Board → Client × Memory → Type 0
ShowsAt a b (c, memory) = (c.state ≡ some a) × Shows b c (memory a)

at_pointer-ShowsAt :
    (a : ℕ) (b : Board) (c : Client) (memory : Memory) (r : Client × SharedState)
    → r.0.state ≡ c.state
    → c.state ≡ some a
    → Shows b r.0 r.1
    → ShowsAt a b (at_pointer memory a r)
unfolding at_pointer
at_pointer-ShowsAt a b c memory r kept at h =
    (kept ∙ at, subst (Shows b r.0) (sym (update_self memory a r.1)) h)

run_request-ShowsAt :
    (session : Session) (a : ℕ) (request : Request) (b : Board) (at : Client × Memory)
    → session.mapping.state ≡ some a
    → Allowed request
    → length b.log + 1 < u64_mod
    → ShowsAt a b at
    → ShowsAt a (step_board request b) (run_request session request at)
unfolding run_request at_pointer
run_request-ShowsAt session a (beat value now retries) b (c, memory) attached ok small (at, h) =
    let failures = spurious c value retries in
    subst (ShowsAt a (step_board (beat value now retries) b))
      (sym (heartbeat-at c value now failures memory a at))
      (at_pointer-ShowsAt a _ c memory (heartbeat_in c value now failures (memory a))
        (heartbeat_in-state c value now failures (memory a)) at
        (Shows-beat value now retries b c (memory a) ok h))
run_request-ShowsAt session a (switch value active now retries) b (c, memory) attached ok small
      (at, h) =
    let failures = spurious c value retries in
    subst (ShowsAt a (step_board (switch value active now retries) b))
      (sym (set_channel_active-at c value active now failures memory a at))
      (at_pointer-ShowsAt a _ c memory (channel_active_in c value active now failures (memory a))
        (channel_active_in-state c value active now failures (memory a)) at
        (Shows-switch value active now retries b c (memory a) ok h))
run_request-ShowsAt session a (leave entry) b (c, memory) attached ok small (at, h) =
    subst (λ (m : Memory). ShowsAt a (step_board (leave entry) b) (c, m))
      (sym (breadcrumb-at c entry memory a at))
      (at_pointer-ShowsAt a _ c memory (c, breadcrumb_in entry (memory a)) refl at
        (Shows-leave entry b c (memory a) ok small h))
run_request-ShowsAt session a (renew now duration) b (c, memory) attached ok small (at, h) =
    subst (λ (m : Memory). ShowsAt a (step_board (renew now duration) b) (c, m))
      (sym (renew_lease-at session now duration memory a attached))
      (at_pointer-ShowsAt a _ c memory (c, renewed now duration (memory a)) refl at
        (Shows-renew now duration b c (memory a) ok h))

-- A step adds one breadcrumb at most.
length-step_board : (r : Request) (b : Board) → length (step_board r b).log ≤ length b.log + 1
length-step_board (beat value now retries) b = ground arith
length-step_board (switch value active now retries) b = ground arith
length-step_board (leave entry) b = ground (arith, length-append b.log (entry ∷ []))
length-step_board (renew now duration) b = ground arith

run_requests-ShowsAt :
    (session : Session) (a : ℕ) (requests : List Request) (b : Board) (at : Client × Memory)
    → session.mapping.state ≡ some a
    → AllAllowed requests
    → length b.log + length requests + 1 < u64_mod
    → ShowsAt a b at
    → ShowsAt a (run_board requests b) (run_requests session requests at)
      × (length (run_board requests b).log + 1 < u64_mod)
unfolding run_requests
run_requests-ShowsAt session a [] b at attached ok small h = (h, omega arith)
run_requests-ShowsAt session a (r ∷ rs) b at attached ok small h =
    run_requests-ShowsAt session a rs (step_board r b) (run_request session r at) attached ok.1
      (omega (arith, length-step_board r b))
      (run_request-ShowsAt session a r b at attached ok.0 (omega arith) h)

shown-pulse :
    (s : SharedState) (i : ℕ) (p : Pulse)
    → ShowsPulse p (s.heartbeats i)
    → shown s i ≡ record {
      id = to_channel (i + 1);
      active = p.active;
      timestamp_ns = p.time;
      sequence = p.number % u64_mod;
    }
shown-pulse s i p h = rw (h.flag, h.stamp, h.count)

snapshot_of-seen :
    (b : Board) (c : Client) (s : SharedState)
    → length b.log + 1 < u64_mod
    → Shows b c s
    → snapshot_of s ≡ seen b
unfolding snapshot_of
snapshot_of-seen b c s small h =
    let heartbeats : heartbeat_snapshots s ≡ seen_heartbeats b =
      heartbeat_snapshots-shown s
      ∙ ap (λ (f : ℕ → HeartbeatSnapshot). map f (range 0 heartbeat_channel_count))
          (fun_ext (λ i. shown-pulse s i (b.channels i) (h.pulses i))) in
    rw (h.name, h.lifecycle, heartbeats, history-drop b.log s h.logged small)

-- The watcher sees the board. Let the code's client and record stand for a board, the session be at the
-- same record, every clock reading be more than half a second from its end and every breadcrumb's
-- numbers fit 16 bits. Then after any sequence of heartbeats, switches of channels, breadcrumbs and
-- renewals of the lease, in any order and at any times, with exchanges that fail for no reason any
-- number of times, a snapshot shows exactly what the board has after the same sequence: the lease, the
-- half second between two heartbeats of a channel and the newest 128 breadcrumbs included.
pub run_requests-seen :
    (session : Session) (a : ℕ) (requests : List Request) (b : Board) (c : Client) (memory : Memory)
    → session.mapping.state ≡ some a
    → c.state ≡ some a
    → Shows b c (memory a)
    → AllAllowed requests
    → length b.log + length requests + 1 < u64_mod
    → snapshot session (run_requests session requests (c, memory)).1 ≡ seen (run_board requests b)
run_requests-seen session a requests b c memory attached at h ok small =
    let (shows, fits) =
      run_requests-ShowsAt session a requests b (c, memory) attached ok small (at, h) in
    let (c', memory') = run_requests session requests (c, memory) in
    snapshot-at session memory' a attached
    ∙ snapshot_of-seen (run_board requests b) c' (memory' a) fits shows.1
