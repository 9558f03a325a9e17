-- ===== src/Tests/Watch.antt =====
-- The verdicts, the trend and the observed process.
use peepbooth.Base.{ℕ, ◌≡◌, ◌<◌, ◌↔◌, refl, List, [], ◌∷◌, some, true, false, arith, drop}
use peepbooth.SharedState.{Channel}
use peepbooth.Health.{gui_stalled, healthy, degraded, globally_stalled_busy, classify_health}
use peepbooth.Health.Verdict.{Means, classify_health-Means}
use peepbooth.Trend.{overfull, new_trend, add, summary, growth, slope, count_steps, rss_delta}
use peepbooth.Trend.Window.{add_all, accept_all, points-longest}
use peepbooth.Trend.Growth.{plateau-not_growing}
use peepbooth.Observed.{accept_sample}
use peepbooth.Observed.Samples.{
  Outcome, accept_sample-Outcome, Reading, accept_readings, own_points, memory-own_points,
}
use peepbooth.Tests.Data.{
  whole, stalled_gui, channel_at, point, samples, plateau, observer, sample_at,
}

verdicts :
    (classify_health whole stalled_gui 1000 100 0 ≡ gui_stalled)
    × (classify_health whole
          (record stalled_gui {
            heartbeats = channel_at Channel.gui true 100 ∷ channel_at Channel.core true 100 ∷ [];
          })
          1000
          100
          75
        ≡ globally_stalled_busy)
    × (classify_health whole
          (record stalled_gui {
            heartbeats = channel_at Channel.gui true 950 ∷ channel_at Channel.core true 100 ∷ [];
          })
          1000
          100
          2
        ≡ degraded)
    × (classify_health whole
          (record stalled_gui {
            heartbeats = channel_at Channel.main true 950 ∷ channel_at Channel.core true 900 ∷ [];
          })
          1000
          100
          2
        ≡ healthy)
unfolding classify_health
verdicts = (refl, refl, refl, refl)

classify_health-Means_example :
    (classify_health whole stalled_gui 1000 100 0 ≡ gui_stalled)
    ↔ Means whole stalled_gui 1000 100 0 gui_stalled
classify_health-Means_example =
    classify_health-Means whole stalled_gui 1000 100 0
      ((λ e. cc), ((λ e. refl), ((λ e. cc), ((λ e. cc), tt)))) gui_stalled

window_run : (add_all (new_trend 3 5) samples).points ≡ point 6 1200 ∷ point 9 1300 ∷ []
unfolding new_trend add
window_run = refl

points-longest_example :
    (k : ℕ) × ((add_all (new_trend 3 5) samples).points ≡ drop k (accept_all [] samples))
    × (overfull 3 5 9 (add_all (new_trend 3 5) samples).points ≡ false)
    × ((j : ℕ) → j < k → overfull 3 5 9 (drop j (accept_all [] samples)) ≡ true)
points-longest_example = points-longest 3 5 samples (omega arith)

plateau-not_growing_example : (summary whole plateau).sustained_growth ≡ false
plateau-not_growing_example =
    plateau-not_growing whole plateau 5000 (point 1 1000 ∷ point 2 3000 ∷ []) (point 3 5000)
      (point 4 5000 ∷ point 20 5000 ∷ []) refl (refl, (refl, (refl, tt))) (omega arith)

-- Steady growth over six seconds is reported.
growth_run :
    ((summary whole (record {
      capacity = 120;
      window_ns = 1_000_000_000_000;
      points =
          point 0 1000
          ∷ point 2_000_000_000 1100
          ∷ point 4_000_000_000 1200
          ∷ point 6_000_000_000 1300
          ∷ [];
    })).sustained_growth
      ≡ true)
unfolding summary growth slope count_steps rss_delta
growth_run = refl

accept_sample-Outcome_example :
    Outcome whole observer
      (some (sample_at 42 900 4096))
      stalled_gui
      1000
      (accept_sample whole observer (some (sample_at 42 900 4096)) stalled_gui 1000)
accept_sample-Outcome_example =
    accept_sample-Outcome whole observer (some (sample_at 42 900 4096)) stalled_gui 1000

abbrev readings : List Reading
readings =
    record { sample = some (sample_at 42 900 4096); watchdog = stalled_gui; now = 1000 }
    ∷ record { sample = some (sample_at 43 950 9999); watchdog = stalled_gui; now = 1100 }
    ∷ record { sample = some (sample_at 42 990 5000); watchdog = stalled_gui; now = 1200 }
    ∷ []

memory-own_points_example :
    (accept_readings whole observer readings).memory
    ≡ add_all observer.memory (own_points observer.process.identity readings)
memory-own_points_example = memory-own_points whole observer readings
