-- ===== src/Console/Lines.antt =====
-- How core/src/monitor/console_watch.cpp, `write_console_observation`, lays out what it prints.
use mathlib.Core.Option
use peepbooth.Base.{
  ℕ, ◌-◌, ◌≡◌, refl, List, [], ◌∷◌, ◌++◌, some, Bool, true, false, ◌&&◌, length, drop, arith,
}
use peepbooth.Base.Text.{Text, codes}
use peepbooth.Base.Lines.{all_in, all_in-append, in_line, unlines, to_string-in_line}
use peepbooth.SharedState.{Breadcrumb, Channel}
use peepbooth.Float.{Float}
use peepbooth.ProcFile.{ProcessSample}
use peepbooth.Session.{HeartbeatSnapshot}
use peepbooth.Trend.{Summary}
use peepbooth.Health.{
  Health, awaiting_heartbeat, healthy, degraded, gui_stalled, globally_stalled_idle,
  globally_stalled_busy, health_name, channel_name, event_name,
}
use peepbooth.Observed.{Observation, sampled}
use peepbooth.Console.Print.{
  joined, breadcrumb_pieces, trend_pieces, state_pieces, heartbeat_pieces, age_text, trend_text,
  name_text, state_line, age, heartbeat_text, heartbeat_texts, breadcrumb_text, breadcrumb_texts,
  recent_lines, observation_text, write_console_observation, signed_mib, mib,
}

abbrev plain : Text → Bool
plain text = all_in in_line text

abbrev all_plain : List Text → Bool
all_plain [] = true
all_plain (t ∷ ts) = plain t && all_plain ts

joined-plain : (pieces : List Text) → all_plain pieces ≡ true → plain (joined pieces) ≡ true
joined-plain [] h = refl
joined-plain (p ∷ ps) h =
    all_in-append in_line p (joined ps) (ground (arith, h)) (ground (arith, h, joined-plain ps))

health_name-plain : (h : Health) → plain (health_name h) ≡ true
unfolding health_name
health_name-plain awaiting_heartbeat = refl
health_name-plain healthy = refl
health_name-plain degraded = refl
health_name-plain gui_stalled = refl
health_name-plain globally_stalled_idle = refl
health_name-plain globally_stalled_busy = refl

channel_name-plain : (value : Channel) → plain (channel_name value) ≡ true
unfolding channel_name
channel_name-plain value = ground arith

event_name-plain : (value : ℕ) → plain (event_name value) ≡ true
unfolding event_name
event_name-plain value = ground arith

-- What the source leaves to the stream: a number is printed with no line's end in it.
abbrev pub PrintsPlain : Float → Type 0
PrintsPlain F =
    (sign : Bool) (digits : ℕ) (x : F.Double) → all_in in_line (F.fixed sign digits x) ≡ true

breadcrumb_text-plain : (b : Breadcrumb) → plain (breadcrumb_text b) ≡ true
unfolding breadcrumb_text
breadcrumb_text-plain b = joined-plain (breadcrumb_pieces b) (
    ground (
      arith,
      event_name-plain b.event_id,
      to_string-in_line b.source_id,
      to_string-in_line b.arg0,
      to_string-in_line b.arg1,
    ))

breadcrumb_texts-plain : (bs : List Breadcrumb) → plain (breadcrumb_texts bs) ≡ true
unfolding breadcrumb_texts
breadcrumb_texts-plain [] = refl
breadcrumb_texts-plain (b ∷ bs) =
    all_in-append in_line (breadcrumb_text b) (breadcrumb_texts bs) (breadcrumb_text-plain b)
      (breadcrumb_texts-plain bs)

module _ (F : Float) (prints : PrintsPlain F) where
  trend_text-plain : (trend : Summary F) → plain (trend_text F trend) ≡ true
  unfolding trend_text
  trend_text-plain trend =
      let some_trend : plain (joined (trend_pieces F trend)) ≡ true =
        joined-plain (trend_pieces F trend)
          (ground (arith, prints true 1 (signed_mib F trend.rss_delta_bytes))) in
      ground (arith, some_trend)

  age_text-plain : (seconds : F.Double) → plain (age_text F seconds) ≡ true
  age_text-plain seconds =
      let number =
        all_in-append in_line (F.fixed false 3 seconds) (codes "s") (prints false 3 seconds) refl in
      ground (arith, number)

  heartbeat_text-plain : (now : ℕ) (h : HeartbeatSnapshot) → plain (heartbeat_text F now h) ≡ true
  unfolding heartbeat_text
  heartbeat_text-plain now h =
      let beaten =
        joined-plain (heartbeat_pieces F now h)
          (grind (arith, channel_name-plain h.id, age_text-plain (age F now h))) in
      ground (arith, beaten)

  heartbeat_texts-plain :
      (now : ℕ) (hs : List HeartbeatSnapshot) → plain (heartbeat_texts F now hs) ≡ true
  unfolding heartbeat_texts
  heartbeat_texts-plain now [] = refl
  heartbeat_texts-plain now (h ∷ hs) =
      all_in-append in_line (heartbeat_text F now h) (heartbeat_texts F now hs)
        (heartbeat_text-plain now h) (heartbeat_texts-plain now hs)

  name_text-plain : (name : Text) → plain name ≡ true → plain (name_text name) ≡ true
  unfolding name_text
  name_text-plain [] h = refl
  name_text-plain (c ∷ name) h = h

  state_line-plain :
      (o : Observation F) (sample : ProcessSample) (verdict : Health)
      → plain o.watchdog.process_name ≡ true
      → plain (state_line F o sample verdict) ≡ true
  unfolding state_line
  state_line-plain o sample verdict named = joined-plain (state_pieces F o sample verdict) (
      rw (
        name_text-plain o.watchdog.process_name named,
        to_string-in_line o.identity.pid,
        health_name-plain verdict,
        prints false 1 (Option.get_or o.cpu_percent (F.of_nat 0)),
        prints false 1 (mib F sample.memory.rss_bytes),
        prints false 1 (mib F sample.memory.high_water_bytes),
        prints false 1 (mib F sample.memory.swap_bytes),
        trend_text-plain o.memory,
      ))

-- A text of `n` lines: none of them has an end of line inside, and each ends with one.
abbrev pub LinesOf : ℕ → Text → Type 0
LinesOf n text =
    (lines : List Text) × (text ≡ unlines lines) × (all_plain lines ≡ true) × (length lines ≡ n)

abbrev pub line_count : List Breadcrumb → ℕ
line_count [] = 2
line_count (b ∷ bs) = 3

module _ (F : Float) (prints : PrintsPlain F) where
  observation_text-LinesOf :
      (o : Observation F) (sample : ProcessSample) (verdict : Health) (bs : List Breadcrumb)
      → o.watchdog.breadcrumbs ≡ bs
      → plain o.watchdog.process_name ≡ true
      → LinesOf (line_count bs) (observation_text F o sample verdict)
  unfolding observation_text recent_lines
  observation_text-LinesOf o sample verdict bs at named =
      let beats =
        codes "  heartbeat:" ++ heartbeat_texts F o.observed_at_ns o.watchdog.heartbeats in
      let beats_plain : plain beats ≡ true =
        all_in-append in_line (codes "  heartbeat:")
          (heartbeat_texts F o.observed_at_ns o.watchdog.heartbeats) refl
          (heartbeat_texts-plain F prints o.observed_at_ns o.watchdog.heartbeats) in
      let state_plain = state_line-plain F prints o sample verdict named in
      elim bs
          as (λ (bs : List Breadcrumb).
            o.watchdog.breadcrumbs ≡ bs
            → LinesOf (line_count bs) (observation_text F o sample verdict)) [
              | [] ↦ λ at. (
                state_line F o sample verdict ∷ beats ∷ [],
                rw at refl,
                rw (state_plain, beats_plain) refl,
                refl,
              )
              | b ∷ bs ↦ λ at.
                  let recent =
                    codes "  recent:" ++ breadcrumb_texts (drop (length (b ∷ bs) - 8) (b ∷ bs)) in
                  (
                    state_line F o sample verdict ∷ beats ∷ recent ∷ [],
                    rw at refl,
                    rw
                        (
                          state_plain,
                          beats_plain,
                          breadcrumb_texts-plain (drop (length (b ∷ bs) - 8) (b ∷ bs)),
                        )
                        refl,
                    refl,
                  )
            ]
        at

  observation_text_if_sampled :
      (o : Observation F) (sample : ProcessSample) (verdict : Health)
      → o.sample ≡ some sample
      → o.responsiveness ≡ some verdict
      → o.status ≡ sampled
      → write_console_observation F o ≡ observation_text F o sample verdict
  unfolding write_console_observation
  observation_text_if_sampled o sample verdict with_sample with_health with_status =
      rw (with_sample, with_health, with_status) refl

  -- Suppose the stream prints no number with an end of line in it, and the process's name has none.
  -- An observation that took a sample is printed as whole lines: two of them, or three if there are
  -- breadcrumbs.
  pub write_console_observation-LinesOf :
      (o : Observation F) (sample : ProcessSample) (verdict : Health)
      → o.sample ≡ some sample
      → o.responsiveness ≡ some verdict
      → o.status ≡ sampled
      → plain o.watchdog.process_name ≡ true
      → LinesOf (line_count o.watchdog.breadcrumbs) (write_console_observation F o)
  write_console_observation-LinesOf o sample verdict with_sample with_health with_status named =
      rw (observation_text_if_sampled o sample verdict with_sample with_health with_status)
        (observation_text-LinesOf o sample verdict o.watchdog.breadcrumbs refl named)
