-- ===== src/Contract/Polls.antt =====
-- core/src/monitor/observed_process.cpp, `poll`, and the producer's calls in any order, against the board.
pub mod Seen
pub mod Judged
use peepbooth.Base.{ℕ, List, [], ◌∷◌, ◌++◌}
use peepbooth.Float.{Float}
use peepbooth.Platform.Kernel.{Kernel, World}
use peepbooth.Client.{Client}
use peepbooth.Session.{Session, default_watcher_lease_ns}
use peepbooth.Observed.{Status, exited, Observer, Observation, poll}
use peepbooth.Contract.{Request, renew, run_request}

-- A request to the record, or a look at the process.
pub data Turn : Type 0 where
  ask : Request → Turn
  look : Turn

-- What a look comes to on the board: a renewal, unless the process is found dead.
abbrev pub renewal : ℕ → Status → List Request
renewal now exited = []
renewal now _ = renew now default_watcher_lease_ns ∷ []

module _ (F : Float) (k : Kernel) (session : Session) where
  -- The observer, the producer's client and what the system calls see.
  unfoldable pub take_turn : Turn → Observer F × Client × World → Observer F × Client × World
  take_turn (ask r) (o, c, w) =
      let done = run_request session r (c, w.memory) in (o, done.0, record w { memory = done.1 })
  take_turn look (o, c, w) = let seen = poll F k o w in (seen.0, c, seen.1)

  unfoldable pub requests_of : Turn → Observer F × Client × World → List Request
  requests_of (ask r) at = r ∷ []
  requests_of look (o, c, w) =
      let latest = (poll F k o w).0.latest in renewal latest.observed_at_ns latest.status

  unfoldable pub take_turns : List Turn → Observer F × Client × World → Observer F × Client × World
  take_turns [] at = at
  take_turns (t ∷ ts) at = take_turns ts (take_turn t at)

  unfoldable pub replay : List Turn → Observer F × Client × World → List Request
  replay [] at = []
  replay (t ∷ ts) at = requests_of t at ++ replay ts (take_turn t at)

  -- What a look behind some turns shows.
  abbrev pub last_look : List Turn → Observer F × Client × World → Observation F
  last_look turns at = let (o, c, w) = take_turns turns at in (poll F k o w).0.latest
