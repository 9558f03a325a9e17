-- ===== src/Trend/Trim.antt =====
-- core/src/monitor/watchdog.cpp, `memory_trend::add`: the loop that drops the oldest points.
use peepbooth.Base.{
  ℕ, zero, suc, ◌≤◌, ◌<◌, ◌≡◌, refl, inl, inr, List, [], ◌∷◌, ◌++◌, true, false, arith,
  length-append, Bool-cases, drop,
}
use peepbooth.SharedState.{u64_mod}
use peepbooth.Trend.{Point, back, overfull, trim}

-- Time stamps rise along the list and stay under a bound.
abbrev pub Rising : ℕ → List Point → Type 0
Rising bound [] = Unit {0}
Rising bound (p ∷ []) = p.timestamp_ns < bound
Rising bound (p ∷ q ∷ ps) = (p.timestamp_ns < q.timestamp_ns) × Rising bound (q ∷ ps)

pub back-lt :
    (bound : ℕ) (p : Point) (ps : List Point)
    → Rising bound (p ∷ ps)
    → (back (p ∷ ps)).timestamp_ns < bound
back-lt bound p [] h = h
back-lt bound p (q ∷ ps) h = back-lt bound q ps h.1

pub front-le-back :
    (bound : ℕ) (p : Point) (ps : List Point)
    → Rising bound (p ∷ ps)
    → p.timestamp_ns ≤ (back (p ∷ ps)).timestamp_ns
front-le-back bound p [] h = omega arith
front-le-back bound p (q ∷ ps) h = omega (arith, front-le-back bound q ps h.1)

Rising-tail : (bound : ℕ) (p : Point) (ps : List Point) → Rising bound (p ∷ ps) → Rising bound ps
Rising-tail bound p [] h = tt
Rising-tail bound p (q ∷ ps) h = h.1

pub Rising-append :
    (bound : ℕ) (p : Point) (ps : List Point) (x : Point)
    → Rising bound (p ∷ ps)
    → (back (p ∷ ps)).timestamp_ns < x.timestamp_ns
    → x.timestamp_ns < bound
    → Rising bound (p ∷ (ps ++ (x ∷ [])))
Rising-append bound p [] x h later small = (later, small)
Rising-append bound p (q ∷ ps) x h later small = (h.0, Rising-append bound q ps x h.1 later small)

pub back-append : (p : Point) (ps : List Point) (x : Point) → back (p ∷ (ps ++ (x ∷ []))) ≡ x
back-append p [] x = refl
back-append p (q ∷ ps) x = back-append q ps x

module _ (capacity window : ℕ) where
  -- The loop ends by its test.
  pub trim_fits :
      (now : ℕ) (ps : List Point)
      → overfull capacity window now (trim capacity window now ps) ≡ false
  unfolding trim
  trim_fits now [] = ground arith
  trim_fits now (p ∷ ps) = ground (arith, trim_fits now ps)

  pub trim-Rising :
      (now bound : ℕ) (ps : List Point)
      → Rising bound ps
      → Rising bound (trim capacity window now ps)
  unfolding trim
  trim-Rising now bound [] h = tt
  trim-Rising now bound (p ∷ ps) h =
      ground (arith, trim-Rising now bound ps (Rising-tail bound p ps h))

  -- A single sample always fits, so the last one stays.
  pub trim-back :
      (now : ℕ) (p : Point) (ps : List Point)
      → 2 ≤ capacity
      → (q : Point) × (qs : List Point) × (trim capacity window now (p ∷ ps) ≡ q ∷ qs)
        × (back (q ∷ qs) ≡ back (p ∷ ps))
  unfolding trim
  trim-back now p [] two = (p, [], ground arith, refl)
  trim-back now p (r ∷ ps) two = elim (Bool-cases (overfull capacity window now (p ∷ r ∷ ps))) [
    | inl pop ↦ rw pop (trim-back now r ps two)
    | inr keep ↦ (p, r ∷ ps, rw keep refl, refl)
  ]

  -- What is popped for an earlier sample would be popped for the next one.
  pub trim-append :
      (now later : ℕ) (ps : List Point) (x : Point)
      → Rising (suc now) ps
      → now ≤ later
      → later < u64_mod
      → trim capacity window later (trim capacity window now ps ++ (x ∷ []))
        ≡ trim capacity window later (ps ++ (x ∷ []))
  unfolding trim
  trim-append now later [] x h le small = refl
  trim-append now later (p ∷ []) x h le small =
      ground (arith, trim-append now later [] x tt le small)
  trim-append now later (p ∷ q ∷ ps) x h le small = ground (
    arith,
    trim-append now later (q ∷ ps) x h.1 le small,
    length-append {0} ps (x ∷ []),
    front-le-back (suc now) q ps h.1,
    back-lt (suc now) q ps h.1,
  )

  -- The loop pops the least number of samples after which its test fails.
  pub trim-drop :
      (now : ℕ) (ps : List Point)
      → (k : ℕ) × (trim capacity window now ps ≡ drop k ps)
        × ((j : ℕ) → j < k → overfull capacity window now (drop j ps) ≡ true)
  unfolding trim
  trim-drop now [] = (0, refl, λ j h. absurd (omega arith))
  trim-drop now (p ∷ ps) = elim (Bool-cases (overfull capacity window now (p ∷ ps))) [
    | inl pop ↦
        let (k, same, least) = trim-drop now ps in
        (suc k, rw pop same, elim [ zero ↦ λ h. pop | suc j ↦ λ h. least j (omega arith) ])
    | inr keep ↦ (0, rw keep refl, λ j h. absurd (omega arith))
  ]
