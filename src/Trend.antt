-- ===== src/Trend.antt =====
-- core/src/monitor/watchdog.cpp, lines 160 to 249: the window of memory samples and its summary.
pub mod Trim
pub mod Window
pub mod Growth
use Prim.Native.Nat.{min, max}
use peepbooth.Base.{
  ℕ, zero, suc, ◌+◌, ◌-◌, ◌*◌, ◌/◌, ◌%◌, List, [], ◌∷◌, ◌++◌, Option, none, some, Bool, true, false,
  not, ltb, leb, ◌||◌, ◌&&◌, if◌then◌else◌, length, get_or,
}
use peepbooth.Base.Int.{ℤ, pos, to_int64, negate, is_positive}
use peepbooth.SharedState.{u64_mod}
use peepbooth.Float.{Float}

pub record Point : Type 0 where
  pub timestamp_ns : ℕ
  pub rss_bytes : ℕ

-- `points_`, the front of the deque first.
pub record Trend : Type 0 where
  pub capacity : ℕ
  pub window_ns : ℕ
  pub points : List Point

abbrev no_point : Point
no_point = record { timestamp_ns = 0; rss_bytes = 0 }

abbrev pub default_capacity : ℕ
default_capacity = 120

abbrev pub default_window_ns : ℕ
default_window_ns = 30 * 60 * 1_000_000_000

unfoldable pub new_trend : ℕ → ℕ → Trend
new_trend capacity window_ns = record {
  capacity = max capacity 2;
  window_ns = window_ns;
  points = [];
}

-- `points_.front()` and `points_.back()`, on a deque that is not empty.
abbrev pub front : List Point → Point
front [] = no_point
front (p ∷ ps) = p

abbrev pub back : List Point → Point
back [] = no_point
back (p ∷ []) = p
back (p ∷ q ∷ ps) = back (q ∷ ps)

-- `a - b` in 64 bits.
abbrev pub sub64 : ℕ → ℕ → ℕ
sub64 a b = (a + u64_mod - b) % u64_mod

-- Whether the loop of `add` pops the front.
abbrev pub overfull : ℕ → ℕ → ℕ → List Point → Bool
overfull capacity window_ns now points =
    ltb capacity (length points)
    || (ltb 2 (length points) && ltb window_ns (sub64 now (front points).timestamp_ns))

unfoldable pub trim : ℕ → ℕ → ℕ → List Point → List Point
trim capacity window_ns now [] = []
trim capacity window_ns now (p ∷ ps) =
    if overfull capacity window_ns now (p ∷ ps) then trim capacity window_ns now ps else p ∷ ps

-- The test that turns a sample away: the deque is not empty, and its last sample is as late.
abbrev pub outdated : ℕ → List Point → Bool
outdated timestamp_ns [] = false
outdated timestamp_ns (p ∷ ps) = leb timestamp_ns (back (p ∷ ps)).timestamp_ns

unfoldable pub add : Trend → ℕ → ℕ → Trend
unfolding trim
add t timestamp_ns rss_bytes = if outdated timestamp_ns t.points then t else record t {
  points =
      trim t.capacity t.window_ns timestamp_ns
        (t.points ++ (record { timestamp_ns = timestamp_ns; rss_bytes = rss_bytes } ∷ []));
}

unfoldable pub size : Trend → ℕ
size t = length t.points

-- The intervals whose right end passes a test against the left end.
unfoldable pub count_steps : (ℕ → ℕ → Bool) → List Point → ℕ
count_steps test [] = 0
count_steps test (p ∷ []) = 0
count_steps test (p ∷ q ∷ ps) =
    (if test p.rss_bytes q.rss_bytes then 1 else 0) + count_steps test (q ∷ ps)

unfoldable pub rss_delta : List Point → ℤ
rss_delta points =
    let first = (front points).rss_bytes in
    let last = (back points).rss_bytes in
    if leb first last then to_int64 (sub64 last first) else negate (to_int64 (sub64 first last))

abbrev pub minimum_observation_ns : ℕ
minimum_observation_ns = 5_000_000_000

module _ (F : Float) where
  pub record Summary : Type 0 where
    pub duration_ns : ℕ
    pub rss_delta_bytes : ℤ
    pub bytes_per_second : F.Double
    pub sustained_growth : Bool

  abbrev pub no_summary : Summary
  no_summary = record {
    duration_ns = 0;
    rss_delta_bytes = pos 0;
    bytes_per_second = F.of_nat 0;
    sustained_growth = false;
  }

  -- Seconds since the first sample.
  seconds : F.Double → Point → F.Double
  seconds origin p = F.div (F.sub (F.of_nat p.timestamp_ns) origin) (F.of_nat 1_000_000_000)

  sum_of : (Point → F.Double) → F.Double → List Point → F.Double
  sum_of f total [] = total
  sum_of f total (p ∷ ps) = sum_of f (F.add total (f p)) ps

  -- The least-squares slope; 0 where the denominator is not positive.
  unfoldable pub slope : List Point → F.Double
  unfolding seconds sum_of
  slope points =
      let origin = F.of_nat (front points).timestamp_ns in
      let x = seconds origin in
      let y = λ (p : Point). F.of_nat p.rss_bytes in
      let count = F.of_nat (length points) in
      let mean_x = F.div (sum_of x (F.of_nat 0) points) count in
      let mean_y = F.div (sum_of y (F.of_nat 0) points) count in
      let numerator =
        sum_of (λ p. F.mul (F.sub (x p) mean_x) (F.sub (y p) mean_y)) (F.of_nat 0) points in
      let denominator =
        sum_of (λ p. F.mul (F.sub (x p) mean_x) (F.sub (x p) mean_x)) (F.of_nat 0) points in
      if F.less (F.of_nat 0) denominator then F.div numerator denominator else F.of_nat 0

  unfoldable pub growth : ℕ → List Point → Bool
  growth window_ns points =
      let intervals = length points - 1 in
      let midpoint = length points / 2 in
      let nondecreasing = count_steps leb points in
      let increasing = count_steps ltb points in
      leb 4 (length points)
      && leb (min window_ns minimum_observation_ns)
          (sub64 (back points).timestamp_ns (front points).timestamp_ns)
      && is_positive (rss_delta points)
      && F.less (F.of_nat 0) (slope points)
      && leb (intervals * 2) (nondecreasing * 3)
      && leb 2 increasing
      && leb intervals (increasing * 5)
      && ltb (front points).rss_bytes (get_or points midpoint no_point).rss_bytes
      && ltb (get_or points midpoint no_point).rss_bytes (back points).rss_bytes

  unfoldable pub summary : Trend → Summary
  summary t =
      let duration = sub64 (back t.points).timestamp_ns (front t.points).timestamp_ns in
      if ltb (length t.points) 2
      then no_summary
      else if not (ltb 0 duration)
      then record no_summary { rss_delta_bytes = rss_delta t.points }
      else record {
        duration_ns = duration;
        rss_delta_bytes = rss_delta t.points;
        bytes_per_second = slope t.points;
        sustained_growth = growth t.window_ns t.points;
      }
