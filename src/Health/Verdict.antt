-- ===== src/Health/Verdict.antt =====
-- What each verdict of `classify_health` means, in terms of the channels.
use peepbooth.Base.{ℕ, List, [], ◌∷◌, Bool, true, false, not, ◌||◌, ◌&&◌, ◌≡◌, refl, ◌↔◌, arith}
use peepbooth.Session.{HeartbeatSnapshot, WatchdogSnapshot}
use peepbooth.Float.{Float}
use peepbooth.Health.{
  Health, awaiting_heartbeat, healthy, degraded, gui_stalled, globally_stalled_idle,
  globally_stalled_busy, Flags, no_flags, is_stale, is_gui, note, scan, decide, classify_health,
}

-- Whether a channel passes a test.
abbrev pub any : (HeartbeatSnapshot → Bool) → List HeartbeatSnapshot → Bool
any p [] = false
any p (h ∷ hs) = p h || any p hs

abbrev pub active : HeartbeatSnapshot → Bool
active h = h.active

abbrev pub stale : ℕ → ℕ → HeartbeatSnapshot → Bool
stale now after h = h.active && is_stale now after h

abbrev pub current : ℕ → ℕ → HeartbeatSnapshot → Bool
current now after h = h.active && not (is_stale now after h)

abbrev pub stale_gui : ℕ → ℕ → HeartbeatSnapshot → Bool
stale_gui now after h = is_gui h && stale now after h

abbrev pub current_other : ℕ → ℕ → HeartbeatSnapshot → Bool
current_other now after h = not (is_gui h) && current now after h

-- One channel at most is the GUI's.
abbrev pub OneGui : List HeartbeatSnapshot → Type 0
OneGui [] = Unit {0}
OneGui (h ∷ hs) = (is_gui h ≡ true → any is_gui hs ≡ false) × OneGui hs

module _ (now after : ℕ) where
  pub scan-any :
      (f : Flags) (hs : List HeartbeatSnapshot)
      → ((scan now after f hs).any_active ≡ (f.any_active || any active hs))
        × ((scan now after f hs).any_current ≡ (f.any_current || any (current now after) hs))
        × ((scan now after f hs).any_stale ≡ (f.any_stale || any (stale now after) hs))
        × ((scan now after f hs).non_gui_current
            ≡ (f.non_gui_current || any (current_other now after) hs))
  unfolding scan
  scan-any f [] = ground arith
  scan-any f (h ∷ hs) = ground (arith, scan-any (note now after f h) hs)

  no_gui-any :
      (hs : List HeartbeatSnapshot) → any is_gui hs ≡ false → any (stale_gui now after) hs ≡ false
  no_gui-any [] h = refl
  no_gui-any (x ∷ hs) h = ground (arith, no_gui-any hs)

  no_gui-scan :
      (f : Flags) (hs : List HeartbeatSnapshot)
      → any is_gui hs ≡ false
      → ((scan now after f hs).gui_active ≡ f.gui_active)
        × ((scan now after f hs).gui_stale ≡ f.gui_stale)
  unfolding scan
  no_gui-scan f [] h = (refl, refl)
  no_gui-scan f (x ∷ hs) h = ground (arith, no_gui-scan (note now after f x) hs)

  scan_gui :
      (f : Flags) (hs : List HeartbeatSnapshot)
      → OneGui hs
      → f.gui_active ≡ false
      → ((scan now after f hs).gui_active && (scan now after f hs).gui_stale)
        ≡ any (stale_gui now after) hs
  unfolding scan
  scan_gui f [] one h = ground arith
  scan_gui f (x ∷ hs) one h = ground (
    arith,
    scan_gui (note now after f x) hs one.1,
    no_gui-scan (note now after f x) hs,
    no_gui-any hs,
  )

-- The channels' facts, and how they hang together.
module _ (now after : ℕ) where
  pub active-current-stale :
      (hs : List HeartbeatSnapshot)
      → any active hs ≡ (any (current now after) hs || any (stale now after) hs)
  active-current-stale [] = refl
  active-current-stale (h ∷ hs) = ground (arith, active-current-stale hs)

  pub current_other-current :
      (hs : List HeartbeatSnapshot)
      → any (current_other now after) hs ≡ true
      → any (current now after) hs ≡ true
  current_other-current [] e = e
  current_other-current (h ∷ hs) e = ground (arith, current_other-current hs)

  stale_gui-stale :
      (hs : List HeartbeatSnapshot)
      → any (stale_gui now after) hs ≡ true
      → any (stale now after) hs ≡ true
  stale_gui-stale [] e = e
  stale_gui-stale (h ∷ hs) e = ground (arith, stale_gui-stale hs)

module _ (F : Float) (s : WatchdogSnapshot) (now after : ℕ) (cpu : F.Double) where
  -- What a verdict says of the channels and of the processor.
  abbrev pub Means : Health → Type 0
  Means awaiting_heartbeat = any active s.heartbeats ≡ false
  Means healthy = (any active s.heartbeats ≡ true) × (any (stale now after) s.heartbeats ≡ false)
  Means degraded =
      (any (stale now after) s.heartbeats ≡ true)
      × (any (current now after) s.heartbeats ≡ true)
      × ((any (stale_gui now after) s.heartbeats && any (current_other now after) s.heartbeats)
          ≡ false)
  Means gui_stalled =
      (any (stale_gui now after) s.heartbeats ≡ true)
      × (any (current_other now after) s.heartbeats ≡ true)
  Means globally_stalled_idle =
      (any active s.heartbeats ≡ true)
      × (any (current now after) s.heartbeats ≡ false)
      × (F.at_least cpu (F.of_nat 20) ≡ false)
  Means globally_stalled_busy =
      (any active s.heartbeats ≡ true)
      × (any (current now after) s.heartbeats ≡ false)
      × (F.at_least cpu (F.of_nat 20) ≡ true)

  flags : Flags
  flags = scan now after no_flags s.heartbeats

  decide-Means :
      (v : Health)
      → (f : Flags) → f.any_active ≡ any active s.heartbeats
      → f.any_current ≡ any (current now after) s.heartbeats
      → f.any_stale ≡ any (stale now after) s.heartbeats
      → f.non_gui_current ≡ any (current_other now after) s.heartbeats
      → (f.gui_active && f.gui_stale) ≡ any (stale_gui now after) s.heartbeats
      → (decide f (F.at_least cpu (F.of_nat 20)) ≡ v) ↔ Means v
  unfolding decide
  decide-Means awaiting_heartbeat f a c l o g = ground (
    arith,
    active-current-stale now after s.heartbeats,
    current_other-current now after s.heartbeats,
    stale_gui-stale now after s.heartbeats,
  )
  decide-Means v f a c l o g = ground (
    arith,
    active-current-stale now after s.heartbeats,
    current_other-current now after s.heartbeats,
    stale_gui-stale now after s.heartbeats,
  )

  -- What each verdict means, exactly. On a snapshot in which at most one channel is the GUI's,
  -- `classify_health` says `awaiting_heartbeat` if and only if no channel is active; `gui_stalled`,
  -- if the GUI's channel is active and stale and another channel is active and current;
  -- `globally_stalled_busy` and `globally_stalled_idle`, if some channel is active, none of them
  -- current, and the processor's load is at least 20 per cent or not; `healthy`, if some channel is
  -- active and no active one stale; `degraded`, if there are a stale and a current one among the
  -- active, and the GUI is not stalled in the sense above.
  pub classify_health-Means :
      OneGui s.heartbeats → (v : Health) → (classify_health F s now after cpu ≡ v) ↔ Means v
  unfolding classify_health flags
  classify_health-Means one v =
      let facts = scan-any now after no_flags s.heartbeats in
      decide-Means v flags facts.0 facts.1 facts.2 facts.3
        (scan_gui now after no_flags s.heartbeats one refl)
