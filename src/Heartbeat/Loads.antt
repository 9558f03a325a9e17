-- ===== src/Heartbeat/Loads.antt =====
-- core/src/monitor/watchdog.cpp, `read_heartbeat`: its loop one load at a time, whatever each load
-- finds.
use peepbooth.Base.{
  ℕ, ℕ_discrete, ◌==◌, ◌↔◌, ◌≢◌, ◌⊎◌, inl, inr, refl, true, false, ◌≡◌, List, [], ◌∷◌, Option, some,
  none, arith,
}
use peepbooth.SharedState.{HeartbeatSlot, Channel}
use peepbooth.Session.{Attempt, HeartbeatSnapshot, attempt_result, read_heartbeat}
use peepbooth.Heartbeat.{Reader, attempting, returned, next_attempt, load_step}

-- What four loads in a row find, the slot changing between them.
abbrev pub found : HeartbeatSlot → HeartbeatSlot → HeartbeatSlot → HeartbeatSlot → Attempt
found a b c d = record {
  before = a.sequence;
  active = b.active;
  timestamp_ns = c.timestamp_ns;
  after = d.sequence;
}

abbrev pub load_all : Reader → List HeartbeatSlot → Reader
load_all r [] = r
load_all r (slot ∷ slots) = load_all (load_step r slot) slots

abbrev pub result_of : Channel → Reader → Option HeartbeatSnapshot
result_of id (returned a) = some (attempt_result id a)
result_of id _ = none

-- What an attempt's loads found, as it is to be shown.
abbrev pub Found :
    Channel
    → HeartbeatSlot
    → HeartbeatSlot
    → HeartbeatSlot
    → HeartbeatSlot
    → HeartbeatSnapshot
    → Type 0
Found id a b c d shown =
    (shown.id ≡ id)
    × ((shown.active ≡ true) ↔ (b.active ≢ 0))
    × (shown.timestamp_ns ≡ c.timestamp_ns)
    × (shown.sequence ≡ d.sequence)

attempt_result-Found :
    (id : Channel) (a b c d : HeartbeatSlot) → Found id a b c d (attempt_result id (found a b c d))
unfolding attempt_result
attempt_result-Found id a b c d =
    (refl, (λ h. ground (arith, h), λ h. ground (arith, h)), refl, refl)

load_all-once :
    (id : Channel) (a b c d e f g h i j k l : HeartbeatSlot)
    → result_of id (load_all (attempting 0) (a ∷ b ∷ c ∷ d ∷ e ∷ f ∷ g ∷ h ∷ i ∷ j ∷ k ∷ l ∷ []))
      ≡ some (read_heartbeat id (found a b c d) (found e f g h) (found i j k l))
unfolding load_step next_attempt read_heartbeat
load_all-once id a b c d e f g h i j k l = grind arith

same_number : (m n : ℕ) → m ≡ n → (m == n) ≡ true
same_number m n h = ground (arith, h)

other_number : (m n : ℕ) → m ≢ n → (m == n) ≡ false
other_number m n h = ground (arith, h)

-- The first attempt whose two looks at the number agree is shown, or else the third.
abbrev pub FirstAgreeing :
    Channel → (a b c d e f g h i j k l : HeartbeatSlot) → HeartbeatSnapshot → Type 0
FirstAgreeing id a b c d e f g h i j k l shown =
    ((a.sequence ≡ d.sequence) × Found id a b c d shown)
    ⊎ (((a.sequence ≢ d.sequence) × (e.sequence ≡ h.sequence) × Found id e f g h shown)
        ⊎ ((a.sequence ≢ d.sequence) × (e.sequence ≢ h.sequence) × Found id i j k l shown))

read_heartbeat-FirstAgreeing :
    (id : Channel) (a b c d e f g h i j k l : HeartbeatSlot)
    → FirstAgreeing id a b c d e f g h i j k l
        (read_heartbeat id (found a b c d) (found e f g h) (found i j k l))
unfolding read_heartbeat
read_heartbeat-FirstAgreeing id a b c d e f g h i j k l = elim (ℕ_discrete a.sequence d.sequence) [
  | yes same ↦
      rw (same_number a.sequence d.sequence same) (inl (same, attempt_result-Found id a b c d))
  | no other ↦
      rw (other_number a.sequence d.sequence other) (elim (ℕ_discrete e.sequence h.sequence) [
        | yes same ↦
            rw (same_number e.sequence h.sequence same)
              (inr (inl (other, same, attempt_result-Found id e f g h)))
        | no differ ↦
            rw (other_number e.sequence h.sequence differ)
              (inr (inr (other, differ, attempt_result-Found id i j k l)))
      ])
]

-- The loop ends, whatever the producers do, with what it should show. Twelve loads, each of a slot of any
-- content, bring a call to its end. The result, which is that of `read_heartbeat` on what the loads
-- found, has the channel that was asked for, and from the first of three attempts of four loads whose
-- first and last load found the same number, or else from the third: the flag as the second load found
-- it, the time as the third did and the number as the fourth did.
pub load_all-read_heartbeat :
    (id : Channel) (a b c d e f g h i j k l : HeartbeatSlot)
    → (result_of id (load_all (attempting 0) (a ∷ b ∷ c ∷ d ∷ e ∷ f ∷ g ∷ h ∷ i ∷ j ∷ k ∷ l ∷ []))
        ≡ some (read_heartbeat id (found a b c d) (found e f g h) (found i j k l)))
      × FirstAgreeing id a b c d e f g h i j k l
          (read_heartbeat id (found a b c d) (found e f g h) (found i j k l))
load_all-read_heartbeat id a b c d e f g h i j k l = (
  load_all-once id a b c d e f g h i j k l,
  read_heartbeat-FirstAgreeing id a b c d e f g h i j k l,
)
