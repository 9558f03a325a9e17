-- ===== src/Observed/Gap.antt =====
-- core/src/monitor/observed_process.cpp, `poll`, at an interval that is longer than the lease: what
-- the next poll makes of a producer that has been at work all the time.
use peepbooth.Base.{
  inl, inr, ◌≢◌, sym, ap, ◌∙◌, subst, Option, none, Bool, ℕ, ◌+◌, ◌<◌, ◌≤◌, ◌≡◌, refl, map, range,
  List, [], ◌∷◌, some, true, false, arith, update_self,
}
use peepbooth.SharedState.{SharedState, u64_mod, heartbeat_channel_count}
use peepbooth.Float.{Float}
use peepbooth.Client.{Client, Memory}
use peepbooth.Client.Calls.{Call, perform_all, WithinAt, perform_all-WithinAt}
use peepbooth.Session.{
  Session, HeartbeatSnapshot, heartbeat_snapshots, snapshot, renewed, renew_lease,
  default_watcher_lease_ns, valid, WatchdogSnapshot,
}
use peepbooth.Session.Records.{
  snapshot-heartbeats, heartbeat_snapshots-shown, shown, renew_lease-at,
}
use peepbooth.Platform.Kernel.{Kernel, World}
use peepbooth.Platform.ProcessWatch.{sample_process}
use peepbooth.Observed.{Observer, Observation, exited, sampled, alive, poll}
use peepbooth.Observed.Polls.{Left, poll-effects}
use peepbooth.Observed.Ownership.{poll-session}
use peepbooth.Observed.Verdict.{IsJudged, poll-IsJudged, poll-stale_after_ns}
use peepbooth.Health.Verdict.{any, active}
use peepbooth.Health.{Health, is_stale}
use peepbooth.Health.Stale.{all_stale, old-is_stale, is_globally_stalled, classify_health-globally}

all_stale-map :
    (now stale_after : ℕ) (f : ℕ → HeartbeatSnapshot) (indices : List ℕ)
    → ((i : ℕ) → is_stale now stale_after (f i) ≡ true)
    → all_stale now stale_after (map f indices) ≡ true
all_stale-map now stale_after f [] h = refl
all_stale-map now stale_after f (i ∷ indices) h =
    rw (h i, all_stale-map now stale_after f indices h)

heartbeat_snapshots-all_stale :
    (now stale_after until : ℕ) (s : SharedState)
    → ((i : ℕ) → (s.heartbeats i).timestamp_ns ≤ until)
    → until + stale_after < now
    → all_stale now stale_after (heartbeat_snapshots s) ≡ true
heartbeat_snapshots-all_stale now stale_after until s old late = rw (heartbeat_snapshots-shown s) (
    all_stale-map now stale_after (shown s) (range 0 heartbeat_channel_count)
      λ i. old-is_stale now stale_after until (shown s i) (old i) late)

renewed-lease :
    (now duration : ℕ) (s : SharedState)
    → now + duration < u64_mod
    → (renewed now duration s).watcher_lease_until_ns ≡ now + duration
unfolding renewed
renewed-lease now duration s fits = ground arith

renewed-heartbeats :
    (now duration : ℕ) (s : SharedState) → (renewed now duration s).heartbeats ≡ s.heartbeats
unfolding renewed
renewed-heartbeats now duration s = refl

leased-WithinAt :
    (session : Session) (c : Client) (memory : Memory) (a p : ℕ)
    → session.mapping.state ≡ some a
    → c.state ≡ some a
    → p + default_watcher_lease_ns < u64_mod
    → ((i : ℕ) → ((memory a).heartbeats i).timestamp_ns ≤ p + default_watcher_lease_ns)
    → WithinAt
        (p + default_watcher_lease_ns)
        a
        (c, renew_lease session p default_watcher_lease_ns memory)
leased-WithinAt session c memory a p at client fits old =
    let s = renewed p default_watcher_lease_ns (memory a) in
    (
      client,
      rw (renew_lease-at session p default_watcher_lease_ns memory a at, update_self memory a s)
          (
            renewed-lease p default_watcher_lease_ns (memory a) fits,
            λ i. rw (renewed-heartbeats p default_watcher_lease_ns (memory a)) (old i),
          ),
    )

-- The snapshot of a record in which no heartbeat is from later than `until`.
snapshot-all_stale :
    (now stale_after until a : ℕ) (session : Session) (memory : Memory)
    → session.mapping.state ≡ some a
    → ((i : ℕ) → ((memory a).heartbeats i).timestamp_ns ≤ until)
    → until + stale_after < now
    → all_stale now stale_after (snapshot session memory).heartbeats ≡ true
snapshot-all_stale now stale_after until a session memory at old late =
    rw (snapshot-heartbeats session memory a at)
      (heartbeat_snapshots-all_stale now stale_after until (memory a) old late)

Left-renews :
    (F : Float) (living : Bool) (o : Observer F) (session : Session) (w : World) (o' : Observer F)
    (w' : World)
    → o'.latest.status ≢ exited
    → Left F living o session w o' w'
    → w'.memory ≡ renew_lease session o'.latest.observed_at_ns default_watcher_lease_ns w.memory
Left-renews F false o session w o' w' there h = absurd (there h.0)
Left-renews F true o session w o' w' there h = h.1

-- A look that found the process alive has renewed the lease from its own time.
poll-renews :
    (F : Float) (k : Kernel) (o : Observer F) (session : Session) (w : World)
    → o.session ≡ some session
    → valid session ≡ true
    → (poll F k o w).0.latest.status ≢ exited
    → (poll F k o w).1.memory
      ≡ renew_lease session (poll F k o w).0.latest.observed_at_ns default_watcher_lease_ns w.memory
poll-renews F k o session w attached good there =
    Left-renews F (alive F k o (sample_process k o.process.identity.pid w).1).0 o session w
      (poll F k o w).0 (poll F k o w).1 there (poll-effects F k o session w attached good).1

-- What stands in the verdict, if there is one.
abbrev pub finds_stalled : Option Health → Bool
finds_stalled none = false
finds_stalled (some h) = is_globally_stalled h

IsJudged-stalled :
    (F : Float) (stale_after : ℕ) (p : Observation F)
    → p.status ≡ sampled
    → any active p.watchdog.heartbeats ≡ true
    → all_stale p.observed_at_ns stale_after p.watchdog.heartbeats ≡ true
    → IsJudged F stale_after p
    → finds_stalled p.responsiveness ≡ true
IsJudged-stalled F stale_after p is on old (inl (lost, _)) = absurd (lost is)
IsJudged-stalled F stale_after p is on old (inr (cpu, verdict)) =
    ap finds_stalled verdict
    ∙ classify_health-globally F p.watchdog p.observed_at_ns stale_after cpu on old

-- The world after the producer's calls that follow a look.
abbrev pub called : List Call → Client → World → World
called calls c w = record w { memory = (perform_all calls (c, w.memory)).1 }

-- A watcher that looks too seldom takes a producer at work for stalled. Let the observer's session and the
-- client be at the same record, one look find the process alive, and no heartbeat in the record be from
-- more than three seconds after that look. Then whatever calls the producer makes, at whatever times,
-- if the next look comes later than the lease of three seconds and the age at which a heartbeat is stale
-- together, has a sample and shows a channel that is switched on, its verdict is a global stall.
pub gap-stalled :
    (F : Float) (k : Kernel) (o : Observer F) (session : Session) (c : Client) (calls : List Call)
    (a : ℕ) (w : World)
    → session.mapping.state ≡ some a
    → valid session ≡ true
    → o.session ≡ some session
    → c.state ≡ some a
    → (poll F k o w).0.latest.status ≢ exited
    → (poll F k o w).0.latest.observed_at_ns + default_watcher_lease_ns < u64_mod
    → ((i : ℕ)
        → ((w.memory a).heartbeats i).timestamp_ns
          ≤ (poll F k o w).0.latest.observed_at_ns + default_watcher_lease_ns)
    → (poll F k o w).0.latest.observed_at_ns + default_watcher_lease_ns + o.stale_after_ns
      < (poll F k (poll F k o w).0 (called calls c (poll F k o w).1)).0.latest.observed_at_ns
    → (poll F k (poll F k o w).0 (called calls c (poll F k o w).1)).0.latest.status ≡ sampled
    → any active
        (poll F k (poll F k o w).0 (called calls c (poll F k o w).1)).0.latest.watchdog.heartbeats
      ≡ true
    → finds_stalled
        (poll F k (poll F k o w).0 (called calls c (poll F k o w).1)).0.latest.responsiveness
      ≡ true
gap-stalled F k o session c calls a w mapped good attached at there fits old late is on =
    let (o', w') = poll F k o w in
    let p = o'.latest.observed_at_ns in
    let until = p + default_watcher_lease_ns in
    let leased = renew_lease session p default_watcher_lease_ns w.memory in
    let renews : w'.memory ≡ leased = poll-renews F k o session w attached good there in
    let kept =
      perform_all-WithinAt until a calls (c, w'.memory)
        (subst (λ (m : Memory). WithinAt until a (c, m)) (sym renews)
          (leased-WithinAt session c w.memory a p mapped at fits old)) in
    let v = called calls c w' in
    let second = (poll F k o' v).0.latest in
    let same : o'.stale_after_ns ≡ o.stale_after_ns = poll-stale_after_ns F k o w in
    let shows : second.watchdog ≡ snapshot session v.memory =
      (poll-effects F k o' session v (poll-session F k o w ∙ attached) good).0 in
    IsJudged-stalled F o'.stale_after_ns second is on
      (ap (λ (s : WatchdogSnapshot). all_stale second.observed_at_ns o'.stale_after_ns s.heartbeats)
          shows
        ∙ snapshot-all_stale second.observed_at_ns o'.stale_after_ns until a session v.memory mapped
            kept.1.1 (omega (arith, late, same)))
      (poll-IsJudged F k o' v)
