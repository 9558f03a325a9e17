-- ===== src/Trend/Growth.antt =====
-- core/src/monitor/watchdog.cpp, `memory_trend::summary`: what is no sustained growth, whatever the
-- floating-point slope comes to.
use peepbooth.Base.{
  ℕ, zero, suc, ◌/◌, ◌≤◌, ◌<◌, ◌≡◌, List, [], ◌∷◌, ◌++◌, false, arith, length, get_or,
  length-append, subst,
}
use peepbooth.Float.{Float}
use peepbooth.Trend.{Point, Trend, no_point, back, growth, summary}

-- All samples of a stretch show one size.
abbrev pub AllAt : ℕ → List Point → Type 0
AllAt rss [] = Unit {0}
AllAt rss (p ∷ ps) = (p.rss_bytes ≡ rss) × AllAt rss ps

get_or-AllAt :
    (rss i : ℕ) (pre flat : List Point)
    → AllAt rss flat
    → length pre ≤ i
    → i < length (pre ++ flat)
    → (get_or (pre ++ flat) i no_point).rss_bytes ≡ rss
get_or-AllAt rss i [] [] h le lt = absurd (omega arith)
get_or-AllAt rss zero [] (p ∷ flat) h le lt = h.0
get_or-AllAt rss (suc i) [] (p ∷ flat) h le lt =
    get_or-AllAt rss i [] flat h.1 (omega arith) (omega arith)
get_or-AllAt rss zero (q ∷ pre) flat h le lt = absurd (omega arith)
get_or-AllAt rss (suc i) (q ∷ pre) flat h le lt =
    get_or-AllAt rss i pre flat h (omega arith) (omega arith)

back-AllAt :
    (rss : ℕ) (pre : List Point) (p : Point) (flat : List Point)
    → AllAt rss (p ∷ flat)
    → (back (pre ++ (p ∷ flat))).rss_bytes ≡ rss
back-AllAt rss [] p [] h = h.0
back-AllAt rss [] p (q ∷ flat) h = back-AllAt rss [] q flat h.1
back-AllAt rss (x ∷ []) p flat h = back-AllAt rss [] p flat h
back-AllAt rss (x ∷ y ∷ pre) p flat h = back-AllAt rss (y ∷ pre) p flat h

module _ (F : Float) where
  flat-growth :
      (window : ℕ) (ps : List Point)
      → (back ps).rss_bytes ≤ (get_or ps (length ps / 2) no_point).rss_bytes
      → growth F window ps ≡ false
  unfolding growth
  flat-growth window ps h = ground arith

  summary-growth :
      (t : Trend) → growth F t.window_ns t.points ≡ false → (summary F t).sustained_growth ≡ false
  unfolding summary
  summary-growth t h = ground arith

  -- A plateau is no sustained growth. Where the samples from the middle of the window on, or from an
  -- earlier one on, all show one size, `summary` does not report sustained growth, however the
  -- samples before them rose and whatever the slope is.
  pub plateau-not_growing :
      (t : Trend) (rss : ℕ) (pre : List Point) (p : Point) (flat : List Point)
      → t.points ≡ pre ++ (p ∷ flat)
      → AllAt rss (p ∷ flat)
      → length pre ≤ length t.points / 2
      → (summary F t).sustained_growth ≡ false
  plateau-not_growing t rss pre p flat e h half =
      let middle : (get_or t.points (length t.points / 2) no_point).rss_bytes ≡ rss = rw e (
        get_or-AllAt rss (length (pre ++ (p ∷ flat)) / 2) pre (p ∷ flat) h
          (subst (λ l. length pre ≤ length l / 2) e half)
          (omega (arith, length-append {0} pre (p ∷ flat)))) in
      let last : (back t.points).rss_bytes ≡ rss = rw e (back-AllAt rss pre p flat h) in
      summary-growth t (flat-growth t.window_ns t.points (omega arith))
