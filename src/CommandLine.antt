-- ===== src/CommandLine.antt =====
-- core/src/monitor/console_watch.cpp, lines 16 to 22 and 96 to 136: the arguments of the command.
pub mod Bounds
pub mod RoundTrip
use peepbooth.Base.{
  ℕ, zero, suc, ◌-◌, ◌^◌, List, [], ◌∷◌, Option, none, some, Bool, true, false, not, ltb, leb, ◌==◌,
  ◌||◌, ◌&&◌, if◌then◌else◌,
}
use mathlib.Core.Option
use peepbooth.Base.Text.{Text, codes, text_eq, from_chars}
use peepbooth.Base.Int.{ℤ, pos, negsuc}

pub record Options : Type 0 where
  pub pid : ℕ
  pub interval_ms : ℤ
  pub stale_ms : ℤ
  pub once : Bool

pub data Action : Type 0 where
  run help error : Action

pub record Parsed : Type 0 where
  pub action : Action
  pub options : Options

abbrev pub default_options : Options
default_options = record { pid = 0; interval_ms = pos 1000; stale_ms = pos 3000; once = false }

abbrev negated : ℕ × Text → ℤ × Text
negated (zero, rest) = (pos 0, rest)
negated (suc n, rest) = (negsuc n, rest)

-- `std::from_chars` into an `int`: a minus sign, then digits.
unfoldable pub from_chars_int : Text → Option (ℤ × Text)
from_chars_int [] = none
from_chars_int (c ∷ text) =
    if c == b'-'
    then Option.map negated (from_chars (2 ^ 31) text)
    else Option.map (λ r. (pos r.0, r.1)) (from_chars (2 ^ 31 - 1) (c ∷ text))

is_end : Text → Bool
is_end [] = true
is_end (c ∷ text) = false

-- `parse_integer`: whether the whole text is a number, and the output, which a number with something
-- behind it changes too.
read_integer {ℓ} : {A : Type ℓ} → Option (A × Text) → A → Bool × A
unfolding is_end
read_integer none output = (false, output)
read_integer (some (value, rest)) output = (is_end rest, value)

unfoldable pub parse_unsigned32 : Text → ℕ → Bool × ℕ
unfolding read_integer
parse_unsigned32 text output = read_integer (from_chars (2 ^ 32 - 1) text) output

unfoldable pub parse_int : Text → ℤ → Bool × ℤ
unfolding read_integer
parse_int text output = read_integer (from_chars_int text) output

abbrev pub at_least : ℤ → ℕ → Bool
at_least (pos n) k = leb k n
at_least (negsuc n) k = false

abbrev pub at_most : ℤ → ℕ → Bool
at_most (pos n) k = leb n k
at_most (negsuc n) k = true

-- An argument that takes a value, with that value: whether it is accepted, and the options, into
-- which a value that is refused may have been read.
unfoldable pub take_value : Text → Text → Options → Bool × Options
take_value argument value o =
    if text_eq argument (codes "--pid")
    then (let (ok, pid) = parse_unsigned32 value o.pid in (ok, record o { pid = pid }))
    else if text_eq argument (codes "--interval-ms")
    then (let (ok, interval_ms) = parse_int value o.interval_ms in
        (
          ok && at_least interval_ms 50 && at_most interval_ms 60_000,
          record o { interval_ms = interval_ms },
        ))
    else if text_eq argument (codes "--stale-ms")
    then (let (ok, stale_ms) = parse_int value o.stale_ms in
        (ok && at_least stale_ms 100, record o { stale_ms = stale_ms }))
    else (false, o)

pub data Kind : Type 0 where
  help_flag once_flag valued : Kind

unfoldable pub kind : Text → Kind
kind argument =
    if text_eq argument (codes "--help") || text_eq argument (codes "-h")
    then help_flag
    else if text_eq argument (codes "--once")
    then once_flag
    else valued

-- The test after the loop.
abbrev finish : Options → Parsed
finish o = record { action = if o.pid == 0 then error else run; options = o }

refuse_or : Parsed → Bool × Options → Parsed
refuse_or parsed (true, o) = parsed
refuse_or parsed (false, o) = record { action = error; options = o }

unfoldable pub parse_loop : List Text → Options → Parsed
unfolding refuse_or
parse_loop [] o = finish o
parse_loop (argument ∷ []) o = elim (kind argument) [
  | help_flag ↦ record { action = help; options = o }
  | once_flag ↦ finish (record o { once = true })
  | valued ↦ record { action = error; options = o }
]
parse_loop (argument ∷ value ∷ rest) o = elim (kind argument) [
  | help_flag ↦ record { action = help; options = o }
  | once_flag ↦ parse_loop (value ∷ rest) (record o { once = true })
  | valued ↦
      refuse_or (parse_loop rest (take_value argument value o).1) (take_value argument value o)
]

unfoldable pub parse_command_line : List Text → Parsed
parse_command_line arguments = parse_loop arguments default_options
