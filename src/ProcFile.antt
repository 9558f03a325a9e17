-- ===== src/ProcFile.antt =====
-- core/src/monitor/platform/process_watch.cpp, lines 36 to 123: the parsers of the two files that
-- describe a process, /proc/PID/status and /proc/PID/stat. The text is a list of bytes.
pub mod Fields
pub mod Words
pub mod Stat
pub mod Status
pub mod Memory
use peepbooth.Base.{
  ℕ, zero, suc, ◌+◌, ◌-◌, ◌*◌, ◌%◌, List, [], ◌∷◌, Option, none, some, Bool, not, ◌&&◌, ◌||◌, leb,
  ◌==◌, if◌then◌else◌, length, get_or, drop,
}
use peepbooth.Base.Text.{Text, codes, is_digit, find?, rfind?, drop_while, take_while, from_chars}
use peepbooth.SharedState.{u64_mod}
use mathlib.Core.Option

pub record ProcessIdentity : Type 0 where
  pub pid : ℕ
  pub start_ticks : ℕ

pub record ProcessMemory : Type 0 where
  pub rss_bytes : ℕ
  pub high_water_bytes : ℕ
  pub swap_bytes : ℕ

pub record ProcessSample : Type 0 where
  pub identity : ProcessIdentity
  pub memory : ProcessMemory
  pub cpu_ticks : ℕ
  pub sampled_at_ns : ℕ

pub record StatValues : Type 0 where
  pub cpu_ticks : ℕ
  pub start_ticks : ℕ

abbrev pub is_blank : ℕ → Bool
is_blank c = (c == b' ') || (c == b'\t')

unfoldable pub parse_digits : Text → Option ℕ
unfolding from_chars
parse_digits [] = none
parse_digits (c ∷ digits) = Option.map (λ r. r.0) (from_chars (u64_mod - 1) (c ∷ digits))

unfoldable pub parse_unsigned : Text → Option ℕ
unfolding drop_while take_while parse_digits
parse_unsigned value = parse_digits (take_while is_digit (drop_while is_blank value))

-- The test on the byte before the key, then the rest of the key's line.
unfoldable pub status_value_at : Text → Text → ℕ → Option ℕ
unfolding parse_unsigned take_while
status_value_at contents key position =
    if not (position == 0) && not (get_or contents (position - 1) 0 == b'\n')
    then none
    else Option.map (λ kib. kib * 1024 % u64_mod)
        (parse_unsigned
          (take_while (λ c. not (c == b'\n')) (drop (position + length key) contents)))

unfoldable pub status_value_kib : Text → Text → Option ℕ
unfolding find? status_value_at
status_value_kib contents key = elim (find? key contents) [
  | none ↦ none
  | some position ↦ status_value_at contents key position
]

unfoldable pub parse_proc_status : Text → Option ProcessMemory
unfolding status_value_kib
parse_proc_status contents = elim (status_value_kib contents (codes "VmRSS:")) [
  | none ↦ none
  | some rss ↦ some (record {
    rss_bytes = rss;
    high_water_bytes = Option.get_or (status_value_kib contents (codes "VmHWM:")) rss;
    swap_bytes = Option.get_or (status_value_kib contents (codes "VmSwap:")) 0;
  })
]

-- The loop that cuts the tail into fields at spaces. Each round takes a byte at least, so fuel of
-- the text's length is enough.
unfoldable pub split_fields : ℕ → Text → List Text
unfolding drop_while take_while
split_fields zero tail = []
split_fields (suc fuel) tail = elim (drop_while (λ c. c == b' ') tail) [
  | [] ↦ []
  | c ∷ rest ↦
      take_while (λ d. not (d == b' ')) (c ∷ rest)
      ∷ split_fields fuel (drop 1 (drop_while (λ d. not (d == b' ')) (c ∷ rest)))
]

-- The three fields that are read, by their positions behind the command.
stat_values : List Text → Option StatValues
unfolding parse_unsigned
stat_values fields = elim (parse_unsigned (get_or fields 11 [])) [
  | none ↦ none
  | some user ↦ elim (parse_unsigned (get_or fields 12 [])) [
    | none ↦ none
    | some system ↦ elim (parse_unsigned (get_or fields 19 [])) [
      | none ↦ none
      | some start ↦ some (record { cpu_ticks = (user + system) % u64_mod; start_ticks = start })
    ]
  ]
]

stat_tail : Text → Option StatValues
unfolding split_fields stat_values
stat_tail tail =
    let fields = split_fields (length tail) tail in
    if leb (length fields) 19 then none else stat_values fields

unfoldable pub parse_proc_stat : Text → Option StatValues
unfolding rfind? stat_tail
parse_proc_stat contents = elim (rfind? b')' contents) [
  | none ↦ none
  | some close ↦
      if leb (length contents) (close + 2) then none else stat_tail (drop (close + 2) contents)
]
