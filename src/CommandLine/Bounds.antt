-- ===== src/CommandLine/Bounds.antt =====
-- Which options `parse_command_line` lets through.
use peepbooth.Base.{
  ℕ, zero, suc, subst, ap, ◌^◌, ◌-◌, ◌≤◌, ◌<◌, ◌≡◌, ◌≢◌, refl, List, [], ◌∷◌, Option, none, some,
  Bool, true, false, arith, ◌==◌, ◌&&◌, if◌then◌else◌, Bool-cases, inl, inr,
}
use mathlib.Core.Option
use peepbooth.Base.Text.{Text, codes, text_eq, from_chars}
use peepbooth.Base.Int.{ℤ, pos, negsuc}
use peepbooth.CommandLine.{
  Options, run, Parsed, default_options, from_chars_int, read_integer, parse_unsigned32, parse_int,
  at_least, at_most, take_value, Kind, help_flag, once_flag, valued, kind, parse_loop,
  parse_command_line, refuse_or, negated, finish,
}

-- A whole number of milliseconds between two bounds.
abbrev pub Between : ℕ → ℕ → ℤ → Type 0
Between low high (pos n) = (low ≤ n) × (n ≤ high)
Between low high (negsuc n) = ⊥

from_chars-le :
    (limit : ℕ) (text : Text) (v : ℕ) (rest : Text)
    → from_chars limit text ≡ some (v, rest)
    → v ≤ limit
unfolding from_chars
from_chars-le limit [] v rest e = cc
from_chars-le limit (c ∷ text) v rest e = ground arith

parse_unsigned32-lt :
    (text : Text) (output : ℕ)
    → (parse_unsigned32 text output).0 ≡ true
    → (parse_unsigned32 text output).1 < 2 ^ 32
unfolding parse_unsigned32
parse_unsigned32-lt text output e =
    read_below (from_chars (2 ^ 32 - 1) text) output (from_chars-le (2 ^ 32 - 1) text) e
  where
    read_below :
        (r : Option (ℕ × Text)) (output : ℕ)
        → ((v : ℕ) (rest : Text) → r ≡ some (v, rest) → v ≤ 2 ^ 32 - 1)
        → (read_integer r output).0 ≡ true
        → (read_integer r output).1 < 2 ^ 32
    read_below none output le e = cc
    read_below (some (v, rest)) output le e = omega (arith, le v rest refl)

some_fst {ℓ κ} :
    {A : Type ℓ} {B : Type κ} {a c : A} {b d : B}
    → ◌≡◌ {A = Option (A × B)} (some (a, b)) (some (c, d))
    → a ≡ c
some_fst {A} {B} {a} {b} e = ap (λ (o : Option (A × B)). (Option.get_or o (a, b)).0) e

-- An `int` that is not negative is at most 2^31 - 1.
abbrev IsInt : ℤ → Type 0
IsInt (pos n) = n ≤ 2 ^ 31 - 1
IsInt (negsuc n) = Unit {0}

negated-IsInt :
    (r : Option (ℕ × Text)) (v : ℤ) (rest : Text) → Option.map negated r ≡ some (v, rest) → IsInt v
negated-IsInt none v rest e = cc
negated-IsInt (some (zero, t)) v rest e = subst IsInt (some_fst e) (omega arith)
negated-IsInt (some (suc n, t)) v rest e = subst IsInt (some_fst e) tt

pos-IsInt :
    (r : Option (ℕ × Text)) (v : ℤ) (rest : Text)
    → ((n : ℕ) (t : Text) → r ≡ some (n, t) → n ≤ 2 ^ 31 - 1)
    → Option.map {B = ℤ × Text} (λ (p : ℕ × Text). (pos p.0, p.1)) r ≡ some (v, rest)
    → IsInt v
pos-IsInt none v rest le e = cc
pos-IsInt (some (n, t)) v rest le e = subst IsInt (some_fst e) (le n t refl)

from_chars_int-IsInt :
    (text : Text) (v : ℤ) (rest : Text) → from_chars_int text ≡ some (v, rest) → IsInt v
unfolding from_chars_int
from_chars_int-IsInt [] v rest e = cc
from_chars_int-IsInt (c ∷ text) v rest e = elim (Bool-cases (c == b'-')) [
  | inl minus ↦ negated-IsInt (from_chars (2 ^ 31) text) v rest (rw minus at e)
  | inr plain ↦
      pos-IsInt (from_chars (2 ^ 31 - 1) (c ∷ text)) v rest (from_chars-le (2 ^ 31 - 1) (c ∷ text))
        (rw plain at e)
]

parse_int-IsInt :
    (text : Text) (output : ℤ) → (parse_int text output).0 ≡ true → IsInt (parse_int text output).1
unfolding parse_int
parse_int-IsInt text output e = read_int (from_chars_int text) output (from_chars_int-IsInt text) e
  where
    read_int :
        (r : Option (ℤ × Text)) (output : ℤ)
        → ((v : ℤ) (rest : Text) → r ≡ some (v, rest) → IsInt v)
        → (read_integer r output).0 ≡ true
        → IsInt (read_integer r output).1
    read_int none output fits e = cc
    read_int (some (v, rest)) output fits e = fits v rest refl

in_range : (z : ℤ) → IsInt z → (at_least z 50 && at_most z 60_000) ≡ true → Between 50 60_000 z
in_range (pos n) fits e = ground arith
in_range (negsuc n) fits e = cc

from_low : (z : ℤ) → IsInt z → at_least z 100 ≡ true → Between 100 (2 ^ 31 - 1) z
from_low (pos n) fits e = ground arith
from_low (negsuc n) fits e = cc

pub record IsGood (o : Options) : Type 0 where
  pub pid_fits : o.pid < 2 ^ 32
  pub interval : Between 50 60_000 o.interval_ms
  pub stale : Between 100 (2 ^ 31 - 1) o.stale_ms

-- The part of `take_value` behind the test for `--pid`.
abbrev take_rest : Text → Text → Options → Bool × Options
take_rest argument value o =
    if text_eq argument (codes "--interval-ms")
    then (let (ok, interval_ms) = parse_int value o.interval_ms in
        (
          ok && at_least interval_ms 50 && at_most interval_ms 60_000,
          record o { interval_ms = interval_ms },
        ))
    else if text_eq argument (codes "--stale-ms")
    then (let (ok, stale_ms) = parse_int value o.stale_ms in
        (ok && at_least stale_ms 100, record o { stale_ms = stale_ms }))
    else (false, o)

and_left : (a b : Bool) → (a && b) ≡ true → a ≡ true
and_left a b e = ground arith

and_right : (a b : Bool) → (a && b) ≡ true → b ≡ true
and_right a b e = ground arith

rest_IsGood :
    (argument value : Text) (o : Options)
    → (take_rest argument value o).0 ≡ true
    → IsGood o
    → IsGood (take_rest argument value o).1
rest_IsGood argument value o e v = elim (Bool-cases (text_eq argument (codes "--interval-ms"))) [
  | inl is_interval ↦
      let ok = rw is_interval at e in
      rw is_interval (record {
        pid_fits = v.pid_fits;
        interval =
            in_range (parse_int value o.interval_ms).1
              (parse_int-IsInt value o.interval_ms (ground arith)) (ground arith);
        stale = v.stale;
      })
  | inr other ↦ elim (Bool-cases (text_eq argument (codes "--stale-ms"))) [
    | inl is_stale ↦
        rw (other, is_stale)
          (record {
            pid_fits = v.pid_fits;
            interval = v.interval;
            stale =
                from_low (parse_int value o.stale_ms).1
                  (parse_int-IsInt value o.stale_ms (ground arith)) (ground arith);
          })
    | inr neither ↦ rw (other, neither) v
  ]
]

take_value-IsGood :
    (argument value : Text) (o : Options)
    → (take_value argument value o).0 ≡ true
    → IsGood o
    → IsGood (take_value argument value o).1
unfolding take_value
take_value-IsGood argument value o e v = elim (Bool-cases (text_eq argument (codes "--pid"))) [
  | inl is_pid ↦ rw is_pid (record {
    pid_fits = parse_unsigned32-lt value o.pid (rw is_pid at e);
    interval = v.interval;
    stale = v.stale;
  })
  | inr not_pid ↦ rw not_pid (rest_IsGood argument value o (rw not_pid at e) v)
]

abbrev GoodRun : Parsed → Type 0
GoodRun p = p.action ≡ run → IsGood p.options × (p.options.pid ≢ 0)

by_kind :
    (x : Kind) (a b c : Parsed)
    → GoodRun a
    → GoodRun b
    → GoodRun c
    → GoodRun (elim x [ help_flag ↦ a | once_flag ↦ b | valued ↦ c ])
by_kind help_flag a b c ha hb hc = ha
by_kind once_flag a b c ha hb hc = hb
by_kind valued a b c ha hb hc = hc

finish-GoodRun : (o : Options) → IsGood o → GoodRun (finish o)
finish-GoodRun o v e = (v, ground arith)

refuse_or-GoodRun :
    (parsed : Parsed) (r : Bool × Options)
    → (r.0 ≡ true → GoodRun parsed)
    → GoodRun (refuse_or parsed r)
unfolding refuse_or
refuse_or-GoodRun parsed (true, o) h = h refl
refuse_or-GoodRun parsed (false, o) h = λ e. cc

once-IsGood : (o : Options) → IsGood o → IsGood (record o { once = true })
once-IsGood o v = record { pid_fits = v.pid_fits; interval = v.interval; stale = v.stale }

parse_loop-GoodRun :
    (arguments : List Text) (o : Options) → IsGood o → GoodRun (parse_loop arguments o)
unfolding parse_loop
parse_loop-GoodRun [] o v = finish-GoodRun o v
parse_loop-GoodRun (argument ∷ []) o v =
    by_kind (kind argument) _ _ _ (λ e. cc)
      (finish-GoodRun (record o { once = true }) (once-IsGood o v)) (λ e. cc)
parse_loop-GoodRun (argument ∷ value ∷ rest) o v =
    by_kind (kind argument) _ _ _ (λ e. cc)
      (parse_loop-GoodRun (value ∷ rest) (record o { once = true }) (once-IsGood o v))
      (refuse_or-GoodRun (parse_loop rest (take_value argument value o).1)
        (take_value argument value o)
        (λ ok.
          parse_loop-GoodRun rest (take_value argument value o).1
            (take_value-IsGood argument value o ok v)))

-- No watch runs on bad options. For every list of arguments that `parse_command_line` answers with
-- `run`, the process number is not 0 and fits 32 bits, the interval is between 50 and 60000
-- milliseconds, and the age at which a heartbeat is stale is at least 100 milliseconds and fits an
-- `int`.
pub parse_command_line-IsGood :
    (arguments : List Text)
    → (parse_command_line arguments).action ≡ run
    → IsGood (parse_command_line arguments).options
      × ((parse_command_line arguments).options.pid ≢ 0)
unfolding parse_command_line
parse_command_line-IsGood arguments e =
    parse_loop-GoodRun arguments default_options
      (record {
        pid_fits = omega arith;
        interval = (omega arith, omega arith);
        stale = (omega arith, omega arith);
      })
      e
