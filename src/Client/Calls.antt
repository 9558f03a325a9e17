-- ===== src/Client/Calls.antt =====
-- Sequences of a producer's calls, as core/include/monitor/client.hpp offers them.
use peepbooth.Base.{
  ℕ, ◌≤◌, ◌≡◌, sym, subst, ap, ◌∙◌, List, [], ◌∷◌, Option, some, none, Bool, arith, update,
  update_self,
}
use peepbooth.SharedState.{SharedState, Channel, Breadcrumb}
use peepbooth.Client.{
  Client, Memory, lease_check, heartbeat_in, heartbeat, channel_active_in, set_channel_active,
  breadcrumb_in, append_breadcrumb, breadcrumb, at_pointer,
}

-- A call with what it reads of the clock and of failing exchanges.
pub data Call : Type 0 where
  beat_call : Channel → ℕ → List ℕ → Call
  active_call : Channel → Bool → ℕ → List ℕ → Call
  breadcrumb_call : Breadcrumb → Call

unfoldable pub perform : Call → Client × Memory → Client × Memory
perform (beat_call value now failures) (c, memory) = heartbeat c value now failures memory
perform (active_call value active now failures) (c, memory) =
    set_channel_active c value active now failures memory
perform (breadcrumb_call b) (c, memory) = (c, breadcrumb c b memory)

unfoldable pub perform_all : List Call → Client × Memory → Client × Memory
unfolding perform
perform_all [] at = at
perform_all (call ∷ calls) at = perform_all calls (perform call at)

-- The lease ends at `until`, and no heartbeat is from later.
abbrev pub Within : ℕ → SharedState → Type 0
Within until s =
    (s.watcher_lease_until_ns ≡ until) × ((i : ℕ) → (s.heartbeats i).timestamp_ns ≤ until)

heartbeat_in-Within :
    (until : ℕ) (c : Client) (value : Channel) (now : ℕ) (failures : List ℕ) (s : SharedState)
    → Within until s
    → Within until (heartbeat_in c value now failures s).1
unfolding heartbeat_in
heartbeat_in-Within until c value now failures s h =
    (ground (arith, h.0), λ i. ground (arith, h.0, h.1 i))

channel_active_in-Within :
    (until : ℕ) (c : Client) (value : Channel) (active : Bool) (now : ℕ) (failures : List ℕ)
    (s : SharedState)
    → Within until s
    → Within until (channel_active_in c value active now failures s).1
unfolding channel_active_in heartbeat_in
channel_active_in-Within until c value active now failures s h =
    (ground (arith, h.0), λ i. ground (arith, h.0, h.1 i))

breadcrumb_in-Within :
    (until : ℕ) (b : Breadcrumb) (s : SharedState)
    → Within until s
    → Within until (breadcrumb_in b s)
unfolding breadcrumb_in lease_check append_breadcrumb
breadcrumb_in-Within until b s h = (ground (arith, h.0), λ i. ground (arith, h.0, h.1 i))

pub heartbeat_in-state :
    (c : Client) (value : Channel) (now : ℕ) (failures : List ℕ) (s : SharedState)
    → (heartbeat_in c value now failures s).0.state ≡ c.state
unfolding heartbeat_in
heartbeat_in-state c value now failures s = ground arith

-- The same of a client and of the record that it is at.
abbrev pub WithinAt : ℕ → ℕ → Client × Memory → Type 0
WithinAt until a (c, memory) = (c.state ≡ some a) × Within until (memory a)

at-Within :
    (until a : ℕ) (c : Client) (memory : Memory) (r : Client × SharedState)
    → r.0.state ≡ c.state
    → c.state ≡ some a
    → Within until r.1
    → WithinAt until a (r.0, update memory a r.1)
at-Within until a c memory r kept at h = (kept ∙ at, rw (update_self memory a r.1) h)

-- Each call on a client that has a record is the call on that record.
pub heartbeat-at :
    (c : Client) (value : Channel) (now : ℕ) (failures : List ℕ) (memory : Memory) (a : ℕ)
    → c.state ≡ some a
    → heartbeat c value now failures memory
      ≡ at_pointer memory a (heartbeat_in c value now failures (memory a))
unfolding heartbeat
heartbeat-at c value now failures memory a at =
    ap
      (λ (x : Option ℕ). elim x as (λ _. Client × Memory) [
        | none ↦ (c, memory)
        | some p ↦ at_pointer memory p (heartbeat_in c value now failures (memory p))
      ])
      at

pub set_channel_active-at :
    (c : Client) (value : Channel) (active : Bool) (now : ℕ) (failures : List ℕ) (memory : Memory)
    (a : ℕ)
    → c.state ≡ some a
    → set_channel_active c value active now failures memory
      ≡ at_pointer memory a (channel_active_in c value active now failures (memory a))
unfolding set_channel_active
set_channel_active-at c value active now failures memory a at =
    ap
      (λ (x : Option ℕ). elim x as (λ _. Client × Memory) [
        | none ↦ (c, memory)
        | some p ↦ at_pointer memory p (channel_active_in c value active now failures (memory p))
      ])
      at

pub breadcrumb-at :
    (c : Client) (b : Breadcrumb) (memory : Memory) (a : ℕ)
    → c.state ≡ some a
    → breadcrumb c b memory ≡ update memory a (breadcrumb_in b (memory a))
unfolding breadcrumb
breadcrumb-at c b memory a at =
    ap
      (λ (x : Option ℕ). elim x as (λ _. Memory) [
        | none ↦ memory
        | some p ↦ update memory p (breadcrumb_in b (memory p))
      ])
      at

pub channel_active_in-state :
    (c : Client) (value : Channel) (active : Bool) (now : ℕ) (failures : List ℕ) (s : SharedState)
    → (channel_active_in c value active now failures s).0.state ≡ c.state
unfolding channel_active_in heartbeat_in
channel_active_in-state c value active now failures s = ground arith

perform-WithinAt :
    (until a : ℕ) (call : Call) (at : Client × Memory)
    → WithinAt until a at
    → WithinAt until a (perform call at)
unfolding perform at_pointer
perform-WithinAt until a (beat_call value now failures) (c, memory) (at, h) =
    subst (WithinAt until a) (sym (heartbeat-at c value now failures memory a at)) (
      at-Within until a c memory (heartbeat_in c value now failures (memory a))
        (heartbeat_in-state c value now failures (memory a)) at
        (heartbeat_in-Within until c value now failures (memory a) h))
perform-WithinAt until a (active_call value active now failures) (c, memory) (at, h) =
    subst (WithinAt until a) (sym (set_channel_active-at c value active now failures memory a at)) (
      at-Within until a c memory (channel_active_in c value active now failures (memory a))
        (channel_active_in-state c value active now failures (memory a)) at
        (channel_active_in-Within until c value active now failures (memory a) h))
perform-WithinAt until a (breadcrumb_call b) (c, memory) (at, h) = (
  at,
  rw (breadcrumb-at c b memory a at, update_self memory a (breadcrumb_in b (memory a)))
      (breadcrumb_in-Within until b (memory a) h),
)

-- However long the producer goes on, the lease ends when it ended, and no heartbeat is from later.
pub perform_all-WithinAt :
    (until a : ℕ) (calls : List Call) (at : Client × Memory)
    → WithinAt until a at
    → WithinAt until a (perform_all calls at)
unfolding perform_all
perform_all-WithinAt until a [] at h = h
perform_all-WithinAt until a (call ∷ calls) at h =
    perform_all-WithinAt until a calls (perform call at) (perform-WithinAt until a call at h)
