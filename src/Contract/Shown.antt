-- ===== src/Contract/Shown.antt =====
-- When a client and a record of the code stand for a board, and the look at the lease.
use mathlib.Core.Logic.{ite}
use peepbooth.Base.{
  ℕ, ◌%◌, ◌≡◌, sym, subst, Bool, true, false, not, ◌||◌, ◌==◌, leb, if◌then◌else◌, update,
  ℕ_discrete, arith,
}
use peepbooth.Base.Text.{take_while}
use peepbooth.SharedState.{SharedState, to_lifecycle, HeartbeatSlot, u64_mod}
use peepbooth.Client.{Client, lease_check}
use peepbooth.Session.History.{IsLogged}
use peepbooth.Contract.{Pulse, Board, look}

-- A slot shows a pulse: the flag as a word, the count in 64 bits.
pub record ShowsPulse (p : Pulse) (slot : HeartbeatSlot) : Type 0 where
  pub flag : not (slot.active == 0) ≡ p.active
  pub stamp : slot.timestamp_ns ≡ p.time
  pub count : slot.sequence ≡ p.number % u64_mod

pub pulses-update :
    (channels : ℕ → Pulse) (slots : ℕ → HeartbeatSlot) (index : ℕ) (p : Pulse)
    (slot : HeartbeatSlot)
    → ((i : ℕ) → ShowsPulse (channels i) (slots i))
    → ShowsPulse p slot
    → (i : ℕ) → ShowsPulse (update channels index p i) (update slots index slot i)
pulses-update channels slots index p slot old new i =
    elim (ℕ_discrete index i) as (λ d. ShowsPulse (ite d p (channels i)) (ite d slot (slots i))) [
      | yes _ ↦ new
      | no _ ↦ old i
    ]

-- A client and a record stand for a board.
pub record Shows (b : Board) (c : Client) (s : SharedState) : Type 0 where
  pub watched : not (s.watcher_present == 0) ≡ b.watched
  pub lease : s.watcher_lease_until_ns ≡ b.lease_until
  pub name : take_while (λ x. not (x == 0)) s.process_name ≡ b.process_name
  pub lifecycle : to_lifecycle s.process_lifecycle ≡ b.process_lifecycle
  pub throttle : (i : ℕ) → c.next_heartbeat_ns i ≡ b.next i
  pub pulses : (i : ℕ) → ShowsPulse (b.channels i) (s.heartbeats i)
  pub logged : IsLogged b.log s

-- Both sides of one test.
pub Shows-if :
    (t : Bool) (b b' : Board) (r r' : Client × SharedState)
    → Shows b r.0 r.1
    → Shows b' r'.0 r'.1
    → Shows (if t then b else b') (if t then r else r').0 (if t then r else r').1
Shows-if true b b' r r' h h' = h
Shows-if false b b' r r' h h' = h'

pub Shows-if_record :
    (t : Bool) (b b' : Board) (c : Client) (s s' : SharedState)
    → Shows b c s
    → Shows b' c s'
    → Shows (if t then b else b') c (if t then s else s')
Shows-if_record true b b' c s s' h h' = h
Shows-if_record false b b' c s s' h h' = h'

-- The look at the lease touches the watcher's flag alone.
lease_check-present :
    (now : ℕ) (s : SharedState)
    → (lease_check now s).1 ≡ record s {
      watcher_present =
          if s.watcher_present == 0 || leb now s.watcher_lease_until_ns
          then s.watcher_present
          else 0;
    }
unfolding lease_check
lease_check-present now s = ground arith

pub Shows-look :
    (now : ℕ) (b : Board) (c : Client) (s : SharedState)
    → Shows b c s
    → Shows (look now b) c (lease_check now s).1
Shows-look now b c s h = subst (Shows (look now b) c) (sym (lease_check-present now s)) (record {
  watched = ground (arith, h.watched, h.lease);
  lease = h.lease;
  name = h.name;
  lifecycle = h.lifecycle;
  throttle = h.throttle;
  pulses = h.pulses;
  logged = record { counted = h.logged.counted; held = h.logged.held };
})

pub lease_check-watched :
    (now : ℕ) (b : Board) (c : Client) (s : SharedState)
    → Shows b c s
    → (lease_check now s).0 ≡ (look now b).watched
unfolding lease_check
lease_check-watched now b c s h = ground (arith, h.watched, h.lease)
