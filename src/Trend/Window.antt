-- ===== src/Trend/Window.antt =====
-- core/src/monitor/watchdog.cpp, `memory_trend::add`: which samples the window keeps.
use Prim.Native.Nat.{max}
use mathlib.Core.Path.{ap₂}
use peepbooth.Base.{
  ℕ, suc, ◌+◌, ◌≤◌, ◌<◌, ◌≡◌, refl, ap, ◌∙◌, inl, inr, List, [], ◌∷◌, ◌++◌, true, false, arith,
  if◌then◌else◌, length, Bool-cases, drop,
}
use peepbooth.SharedState.{u64_mod}
use peepbooth.Trend.{Point, Trend, new_trend, front, back, overfull, trim, outdated, add, size}
use peepbooth.Trend.Trim.{
  Rising, back-lt, front-le-back, Rising-append, back-append, trim_fits, trim-Rising, trim-back,
  trim-append, trim-drop,
}

-- The samples that are taken at all: each later than the one before it.
abbrev pub accept : List Point → Point → List Point
accept log x = if outdated x.timestamp_ns log then log else log ++ (x ∷ [])

abbrev pub accept_all : List Point → List Point → List Point
accept_all log [] = log
accept_all log (x ∷ xs) = accept_all (accept log x) xs

abbrev pub add_all : Trend → List Point → Trend
add_all t [] = t
add_all t (x ∷ xs) = add_all (add t x.timestamp_ns x.rss_bytes) xs

abbrev pub InRange : List Point → Type 0
InRange [] = Unit {0}
InRange (x ∷ xs) = (x.timestamp_ns < u64_mod) × InRange xs

-- The deque is the loop's result on the whole log.
record IsWindow (log : List Point) (t : Trend) : Type 0 where
  two : 2 ≤ t.capacity
  rising : Rising u64_mod log
  kept : t.points ≡ trim t.capacity t.window_ns (back log).timestamp_ns log

outdated-trim :
    (capacity window now time : ℕ) (p : Point) (ps : List Point)
    → 2 ≤ capacity
    → outdated time (trim capacity window now (p ∷ ps)) ≡ outdated time (p ∷ ps)
outdated-trim capacity window now time p ps two =
    let (q, qs, same, last) = trim-back capacity window now p ps two in rw (same, last)

Rising-below :
    (bound : ℕ) (p : Point) (ps : List Point)
    → Rising bound (p ∷ ps)
    → Rising (suc (back (p ∷ ps)).timestamp_ns) (p ∷ ps)
Rising-below bound p [] h = omega arith
Rising-below bound p (q ∷ ps) h = (h.0, Rising-below bound q ps h.1)

add_late :
    (t : Trend) (x : Point)
    → outdated x.timestamp_ns t.points ≡ true
    → add t x.timestamp_ns x.rss_bytes ≡ t
unfolding add
add_late t x e = rw e

add_fresh :
    (t : Trend) (x : Point)
    → outdated x.timestamp_ns t.points ≡ false
    → add t x.timestamp_ns x.rss_bytes
      ≡ record t { points = trim t.capacity t.window_ns x.timestamp_ns (t.points ++ (x ∷ [])) }
unfolding add
add_fresh t x e = rw e

trim-nil : (capacity window now : ℕ) → trim capacity window now [] ≡ []
unfolding trim
trim-nil capacity window now = refl

fresh-IsWindow :
    (p : Point) (ps : List Point) (t : Trend) (x : Point)
    → x.timestamp_ns < u64_mod
    → outdated x.timestamp_ns (p ∷ ps) ≡ false
    → IsWindow (p ∷ ps) t
    → IsWindow
        (p ∷ (ps ++ (x ∷ [])))
        (record t { points = trim t.capacity t.window_ns x.timestamp_ns (t.points ++ (x ∷ [])) })
fresh-IsWindow p ps t x small fresh v = record {
  two = v.two;
  rising = Rising-append u64_mod p ps x v.rising (ground arith) small;
  kept =
      rw (v.kept, back-append p ps x)
        (trim-append t.capacity t.window_ns (back (p ∷ ps)).timestamp_ns x.timestamp_ns (p ∷ ps) x
          (Rising-below u64_mod p ps v.rising) (ground arith) small);
}

add-IsWindow :
    (log : List Point) (t : Trend) (x : Point)
    → x.timestamp_ns < u64_mod
    → IsWindow log t
    → IsWindow (accept log x) (add t x.timestamp_ns x.rss_bytes)
add-IsWindow [] t x small v =
    let nothing : t.points ≡ [] = v.kept ∙ trim-nil t.capacity t.window_ns 0 in
    rw (add_fresh t x (rw nothing)) (record {
      two = v.two;
      rising = small;
      kept = ap (λ l. trim t.capacity t.window_ns x.timestamp_ns (l ++ (x ∷ []))) nothing;
    })
add-IsWindow (p ∷ ps) t x small v =
    let same : outdated x.timestamp_ns t.points ≡ outdated x.timestamp_ns (p ∷ ps) = rw v.kept (
      outdated-trim t.capacity t.window_ns (back (p ∷ ps)).timestamp_ns x.timestamp_ns p ps
        v.two) in
    elim (Bool-cases (outdated x.timestamp_ns (p ∷ ps))) [
      | inl late ↦ rw (late, add_late t x (same ∙ late)) v
      | inr fresh ↦ rw (fresh, add_fresh t x (same ∙ fresh)) (fresh-IsWindow p ps t x small fresh v)
    ]

add_all-IsWindow :
    (log : List Point) (t : Trend) (xs : List Point)
    → InRange xs
    → IsWindow log t
    → IsWindow (accept_all log xs) (add_all t xs)
add_all-IsWindow log t [] small v = v
add_all-IsWindow log t (x ∷ xs) small v =
    add_all-IsWindow (accept log x) (add t x.timestamp_ns x.rss_bytes) xs small.1
      (add-IsWindow log t x small.0 v)

new_trend-IsWindow : (capacity window : ℕ) → IsWindow [] (new_trend capacity window)
unfolding new_trend trim
new_trend-IsWindow capacity window = record { two = omega arith; rising = tt; kept = refl }

add-limits :
    (t : Trend) (x : Point)
    → ((add t x.timestamp_ns x.rss_bytes).capacity ≡ t.capacity)
      × ((add t x.timestamp_ns x.rss_bytes).window_ns ≡ t.window_ns)
unfolding add
add-limits t x = ground arith

add_all-limits :
    (t : Trend) (xs : List Point)
    → ((add_all t xs).capacity ≡ t.capacity) × ((add_all t xs).window_ns ≡ t.window_ns)
add_all-limits t [] = (refl, refl)
add_all-limits t (x ∷ xs) =
    let (c, w) = add_all-limits (add t x.timestamp_ns x.rss_bytes) xs in
    let (c', w') = add-limits t x in (c ∙ c', w ∙ w')

-- A list for which the loop's test fails, in numbers.
fits_lem :
    (capacity window now : ℕ) (ps : List Point)
    → overfull capacity window now ps ≡ false
    → Rising u64_mod ps
    → (back ps).timestamp_ns ≡ now
    → (length ps ≤ capacity)
      × (2 < length ps → (back ps).timestamp_ns ≤ (front ps).timestamp_ns + window)
fits_lem capacity window now [] fits rising last = (omega arith, λ many. absurd (omega arith))
fits_lem capacity window now (p ∷ ps) fits rising last =
    let order = front-le-back u64_mod p ps rising in
    let small = back-lt u64_mod p ps rising in (ground arith, λ many. ground arith)

fits_bounds :
    (capacity window now : ℕ) (log ps : List Point)
    → ps ≡ trim capacity window now log
    → 2 ≤ capacity
    → Rising u64_mod log
    → (back log).timestamp_ns ≡ now
    → (length ps ≤ capacity)
      × Rising u64_mod ps
      × (2 < length ps → (back ps).timestamp_ns ≤ (front ps).timestamp_ns + window)
fits_bounds capacity window now [] ps same two rising last =
    rw (same ∙ trim-nil capacity window now) (omega arith, tt, λ many. absurd (omega arith))
fits_bounds capacity window now (p ∷ log) ps same two rising last =
    let (q, qs, e, at) = trim-back capacity window now p log two in
    let rises : Rising u64_mod ps =
      rw same (trim-Rising capacity window now u64_mod (p ∷ log) rising) in
    let (short, narrow) =
      fits_lem capacity window now ps (rw same (trim_fits capacity window now (p ∷ log))) rises
        (rw (same ∙ e) (ap (λ x. x.timestamp_ns) at ∙ last)) in
    (short, rises, narrow)

module _ (capacity window : ℕ) (xs : List Point) (small : InRange xs) where
  abbrev run : Trend
  run = add_all (new_trend capacity window) xs

  run-IsWindow : IsWindow (accept_all [] xs) run
  run-IsWindow =
      add_all-IsWindow [] (new_trend capacity window) xs small (new_trend-IsWindow capacity window)

  run-trim :
      run.points
      ≡ trim (max capacity 2) window (back (accept_all [] xs)).timestamp_ns (accept_all [] xs)
  unfolding new_trend
  run-trim =
      let (c, w) = add_all-limits (new_trend capacity window) xs in
      run-IsWindow.kept
      ∙ ap₂ (λ a b. trim a b (back (accept_all [] xs)).timestamp_ns (accept_all [] xs)) c w

  -- The window is the longest recent history that fits. After any sequence of calls of `add` on a
  -- new trend, with 64-bit time stamps, the deque is the list of the samples that were later than
  -- all before them, less the fewest from its front that leave it neither longer than the capacity
  -- (2 at least) nor, while it has more than two samples, wider than the window.
  pub points-longest :
      (k : ℕ) × (run.points ≡ drop k (accept_all [] xs))
      × (overfull (max capacity 2) window (back (accept_all [] xs)).timestamp_ns run.points ≡ false)
      × ((j : ℕ)
          → j < k
          → overfull
              (max capacity 2)
              window
              (back (accept_all [] xs)).timestamp_ns
              (drop j (accept_all [] xs))
            ≡ true)
  points-longest =
      let now = (back (accept_all [] xs)).timestamp_ns in
      let (k, same, least) = trim-drop (max capacity 2) window now (accept_all [] xs) in
      (
        k,
        run-trim ∙ same,
        rw run-trim (trim_fits (max capacity 2) window now (accept_all [] xs)),
        least,
      )

  -- The bounds of the window. After any such calls the deque is no longer than the capacity (2 at
  -- least), its time stamps rise strictly, and if it has more than two samples, the last is at most
  -- the window's width later than the first.
  pub points_bounds :
      (size run ≤ max capacity 2)
      × Rising u64_mod run.points
      × (2 < size run → (back run.points).timestamp_ns ≤ (front run.points).timestamp_ns + window)
  unfolding size
  points_bounds =
      fits_bounds (max capacity 2) window (back (accept_all [] xs)).timestamp_ns (accept_all [] xs)
        run.points run-trim (omega arith) run-IsWindow.rising refl
