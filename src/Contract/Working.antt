-- ===== src/Contract/Working.antt =====
-- What the verdict on a board says of a producer that is at work.
use peepbooth.Base.{
  ℕ, ◌%◌, ◌+◌, ◌≤◌, ◌<◌, ◌≡◌, ◌≢◌, ap, ◌∙◌, List, [], ◌∷◌, some, Bool, true, false, if◌then◌else◌,
  leb, zero, suc, length, arith,
}
use peepbooth.SharedState.{Channel, channel_index, heartbeat_channel_count, u64_mod}
use peepbooth.Float.{Float}
use peepbooth.Client.{Client, Memory}
use peepbooth.Session.{Session, WatchdogSnapshot, snapshot}
use peepbooth.Health.{classify_health}
use peepbooth.Health.Verdict.{any, current}
use peepbooth.Health.Stale.{is_responsive}
use peepbooth.Health.Responsive.{classify_health-responsive}
use peepbooth.Contract.{
  Board, Request, beat, switch, leave, renew, beat_board, switched, step_board, run_board,
  seen_heartbeats, run_requests,
}
use peepbooth.Contract.Shown.{Shows}
use peepbooth.Contract.Refines.{AllAllowed, run_requests-seen}

-- A request that does not take channel `index` back: no switching off, and no clock before `time`.
abbrev pub Keeps : ℕ → ℕ → Request → Type 0
Keeps index time (beat value now retries) = time ≤ now
Keeps index time (switch value true now retries) = time ≤ now
Keeps index time (switch value false now retries) = channel_index value ≢ index
Keeps index time (leave entry) = Unit {0}
Keeps index time (renew now duration) = Unit {0}

abbrev pub AllKeep : ℕ → ℕ → List Request → Type 0
AllKeep index time [] = Unit {0}
AllKeep index time (r ∷ rs) = Keeps index time r × AllKeep index time rs

-- The channel is on, and has beaten at `time` or later.
abbrev AtWork : ℕ → ℕ → Board → Type 0
AtWork index time b = ((b.channels index).active ≡ true) × (time ≤ (b.channels index).time)

beat_board-AtWork :
    (index time : ℕ) (at now : ℕ) (b : Board)
    → time ≤ now
    → AtWork index time b
    → AtWork index time (beat_board at now b)
beat_board-AtWork index time at now b le h = (ground (arith, h.0), ground (arith, h.1))

if-AtWork :
    (t : Bool) (index time : ℕ) (b b' : Board)
    → AtWork index time b
    → AtWork index time b'
    → AtWork index time (if t then b else b')
if-AtWork true index time b b' h h' = h
if-AtWork false index time b b' h h' = h'

step_board-AtWork :
    (index time : ℕ) (r : Request) (b : Board)
    → Keeps index time r
    → AtWork index time b
    → AtWork index time (step_board r b)
step_board-AtWork index time (beat value now retries) b k h =
    beat_board-AtWork index time (channel_index value) now b k h
step_board-AtWork index time (switch value true now retries) b k h =
    let at = channel_index value in
    if-AtWork (leb heartbeat_channel_count at) index time b (beat_board at now (switched at true b))
      h
      (beat_board-AtWork index time at now (switched at true b) k
        (ground (arith, h.0), ground (arith, h.1)))
step_board-AtWork index time (switch value false now retries) b k h =
    (ground (arith, h.0, k), ground (arith, h.1, k))
step_board-AtWork index time (leave entry) b k h = (ground (arith, h.0), ground (arith, h.1))
step_board-AtWork index time (renew now duration) b k h = h

run_board-AtWork :
    (index time : ℕ) (requests : List Request) (b : Board)
    → AllKeep index time requests
    → AtWork index time b
    → AtWork index time (run_board requests b)
run_board-AtWork index time [] b k h = h
run_board-AtWork index time (r ∷ rs) b k h =
    run_board-AtWork index time rs (step_board r b) k.1 (step_board-AtWork index time r b k.0 h)

current-AtWork :
    (index time now after : ℕ) (b : Board) (id : Channel)
    → 0 < time
    → now ≤ time + after
    → AtWork index time b
    → current now after (record {
      id = id;
      active = (b.channels index).active;
      timestamp_ns = (b.channels index).time;
      sequence = (b.channels index).number % u64_mod;
    })
      ≡ true
current-AtWork index time now after b id positive fresh h = ground (arith, h.0, h.1)

any-seen :
    (index time now after : ℕ) (b : Board)
    → index < heartbeat_channel_count
    → 0 < time
    → now ≤ time + after
    → AtWork index time b
    → any (current now after) (seen_heartbeats b) ≡ true
any-seen zero time now after b known positive fresh h =
    ground (arith, current-AtWork 0 time now after b Channel.main positive fresh h)
any-seen (suc zero) time now after b known positive fresh h =
    ground (arith, current-AtWork 1 time now after b Channel.gui positive fresh h)
any-seen (suc (suc zero)) time now after b known positive fresh h =
    ground (arith, current-AtWork 2 time now after b Channel.core positive fresh h)
any-seen (suc (suc (suc zero))) time now after b known positive fresh h =
    ground (arith, current-AtWork 3 time now after b Channel.worker positive fresh h)
any-seen (suc (suc (suc (suc index)))) time now after b known positive fresh h =
    absurd (omega arith)

-- A producer at work is not taken for stalled. Let client and record stand for a board, the session be at
-- the same record, clock readings be more than half a second from their end and breadcrumbs fit 16 bits;
-- and let the lease hold, the channel be one of the four and its half second be over, when it beats at
-- `now`. Then whatever calls and renewals follow, but for a switch that turns the channel off or a
-- heartbeat whose clock went back behind `now`, the verdict on a snapshot at any time up to the age at
-- which that heartbeat is stale finds a channel at work.
pub working-responsive :
    (F : Float) (session : Session) (a : ℕ) (b : Board) (c : Client) (memory : Memory)
    (value : Channel) (now retries : ℕ) (later : List Request) (q after : ℕ) (cpu : F.Double)
    → session.mapping.state ≡ some a
    → c.state ≡ some a
    → Shows b c (memory a)
    → b.watched ≡ true
    → now ≤ b.lease_until
    → channel_index value < heartbeat_channel_count
    → b.next (channel_index value) ≤ now
    → 0 < now
    → AllAllowed (beat value now retries ∷ later)
    → AllKeep (channel_index value) now later
    → length b.log + length later + 2 < u64_mod
    → q ≤ now + after
    → let requests = beat value now retries ∷ later in
      let seen_at = snapshot session (run_requests session requests (c, memory)).1 in
      is_responsive (classify_health F seen_at q after cpu) ≡ true
working-responsive F session a b c memory value now retries later q after cpu attached at shows
      watched leased known due positive ok keeps small fresh =
    let requests = beat value now retries ∷ later in
    let index = channel_index value in
    let beaten : AtWork index now (beat_board index now b) =
      (ground (arith, watched), ground (arith, watched)) in
    classify_health-responsive F (snapshot session (run_requests session requests (c, memory)).1) q
      after cpu
    ∙ ap (λ (w : WatchdogSnapshot). any (current q after) w.heartbeats)
        (run_requests-seen session a requests b c memory attached at shows ok (omega arith))
    ∙ any-seen index now q after (run_board requests b) known positive fresh
        (run_board-AtWork index now later (beat_board index now b) keeps beaten)
