-- ===== src/Client/Lease.antt =====
-- core/src/monitor/client.cpp, `active_state`, against core/src/monitor/watchdog.cpp, `renew_lease`:
-- when a producer's calls have an effect.
use Prim.Native.Nat.{min}
use peepbooth.Base.{ℕ, ◌-◌, leb, if◌then◌else◌, ◌+◌, ◌<◌, ◌≡◌, ◌≢◌, refl, List, arith}
use peepbooth.SharedState.{SharedState, Channel, Breadcrumb, u64_mod}
use peepbooth.Client.{Client, lease_check, heartbeat_in, breadcrumb_in}
use peepbooth.Session.{renewed}

-- A renewed lease lasts as long as it was asked for. For a 64-bit time the lease ends `duration` later,
-- or at the largest time where that would wrap; the producer's check passes at a time exactly if the
-- time is not past that end, and takes the watcher's flag down exactly if it is, changing nothing else.
pub renewed-lease_check :
    (now duration time : ℕ) (s : SharedState)
    → now < u64_mod
    → let r = renewed now duration s in
      let until = min (now + duration) (u64_mod - 1) in
      (r.watcher_lease_until_ns ≡ until)
      × ((lease_check time r).0 ≡ leb time until)
      × ((lease_check time r).1 ≡ record r { watcher_present = if leb time until then 1 else 0 })
unfolding renewed lease_check
renewed-lease_check now duration time s small = (ground arith, ground arith, ground arith)

-- What a call leaves of a record whose watcher is gone.
abbrev pub abandoned : SharedState → SharedState
abandoned s = record s { watcher_present = 0 }

-- Behind the end of the lease a producer falls silent. Its first heartbeat or breadcrumb takes the
-- watcher's flag down and changes nothing else, the throttle included; with the flag down, no
-- heartbeat and no breadcrumb, at any time, changes anything.
pub expired-silent :
    (c : Client) (value : Channel) (now : ℕ) (failures : List ℕ) (b : Breadcrumb) (s : SharedState)
    → s.watcher_present ≢ 0
    → s.watcher_lease_until_ns < now
    → b.timestamp_ns ≡ now
    → (heartbeat_in c value now failures s ≡ (c, abandoned s))
      × (breadcrumb_in b s ≡ abandoned s)
      × ((later : ℕ) → heartbeat_in c value later failures (abandoned s) ≡ (c, abandoned s))
      × ((d : Breadcrumb) → breadcrumb_in d (abandoned s) ≡ abandoned s)
unfolding heartbeat_in breadcrumb_in
expired-silent c value now failures b s present over stamped =
    (ground arith, ground arith, λ later. refl, λ d. refl)
