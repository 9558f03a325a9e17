-- ===== src/CommandLine/RoundTrip.antt =====
-- The arguments that ask for given options, parsed.
use peepbooth.Base.{
  ℕ, ◌^◌, ◌-◌, ◌≤◌, ◌<◌, ◌≡◌, ◌≢◌, refl, List, [], ◌∷◌, some, Bool, true, false, arith, ◌==◌,
  if◌then◌else◌, ◌∙◌, le→leb,
}
use peepbooth.Base.Text.{Text, codes, text_eq, is_digit, to_string, from_chars}
use peepbooth.Base.Decimal.{from_chars-to_string, to_string-AllDigits, to_string-ne-nil, AllDigits}
use peepbooth.Base.Int.{ℤ, pos}
use peepbooth.CommandLine.{
  Options, run, default_options, from_chars_int, parse_unsigned32, parse_int, take_value, kind,
  valued, parse_loop, parse_command_line,
}

-- The arguments for a process, an interval and an age, with `--once` if asked for.
abbrev pub command_line : ℕ → ℕ → ℕ → Bool → List Text
command_line pid interval stale once =
    codes "--pid"
    ∷ to_string pid
    ∷ codes "--interval-ms"
    ∷ to_string interval
    ∷ codes "--stale-ms"
    ∷ to_string stale
    ∷ (if once then codes "--once" ∷ [] else [])

parse_unsigned32-to_string :
    (n output : ℕ) → n < 2 ^ 32 → parse_unsigned32 (to_string n) output ≡ (true, n)
unfolding parse_unsigned32
parse_unsigned32-to_string n output h = rw (from_chars-to_string (2 ^ 32 - 1) n (omega arith))

not_minus : (c : ℕ) → is_digit c ≡ true → (c == b'-') ≡ false
not_minus c h = ground arith

-- A text of digits has no minus sign in front.
digits_int :
    (text : Text) (n : ℕ)
    → AllDigits text
    → text ≢ []
    → from_chars (2 ^ 31 - 1) text ≡ some (n, [])
    → from_chars_int text ≡ some (pos n, [])
unfolding from_chars_int
digits_int [] n digits some_text e = absurd (some_text refl)
digits_int (c ∷ text) n digits some_text e = rw (not_minus c digits.0, e)

parse_int-to_string :
    (n : ℕ) (output : ℤ) → n < 2 ^ 31 → parse_int (to_string n) output ≡ (true, pos n)
unfolding parse_int
parse_int-to_string n output h = rw (
    digits_int (to_string n) n (to_string-AllDigits n) (to_string-ne-nil n)
      (from_chars-to_string (2 ^ 31 - 1) n (omega arith)))

-- The three arguments that take a value.
take_value-pid :
    (n : ℕ) (o : Options)
    → n < 2 ^ 32
    → take_value (codes "--pid") (to_string n) o ≡ (true, record o { pid = n })
unfolding take_value text_eq
take_value-pid n o h = rw (parse_unsigned32-to_string n o.pid h)

take_value-interval :
    (n : ℕ) (o : Options)
    → 50 ≤ n
    → n ≤ 60_000
    → take_value (codes "--interval-ms") (to_string n) o ≡ (true, record o { interval_ms = pos n })
unfolding take_value text_eq
take_value-interval n o low high =
    rw (parse_int-to_string n o.interval_ms (omega arith), le→leb 50 n low, le→leb n 60_000 high)

take_value-stale :
    (n : ℕ) (o : Options)
    → 100 ≤ n
    → n < 2 ^ 31
    → take_value (codes "--stale-ms") (to_string n) o ≡ (true, record o { stale_ms = pos n })
unfolding take_value text_eq
take_value-stale n o low high =
    rw (parse_int-to_string n o.stale_ms (omega arith), le→leb 100 n low)

valued_step :
    (argument value : Text) (rest : List Text) (o o' : Options)
    → kind argument ≡ valued
    → take_value argument value o ≡ (true, o')
    → parse_loop (argument ∷ value ∷ rest) o ≡ parse_loop rest o'
unfolding parse_loop
valued_step argument value rest o o' k e = ground arith

tail_once :
    (once : Bool) (o : Options)
    → o.once ≡ false
    → o.pid ≢ 0
    → parse_loop (if once then codes "--once" ∷ [] else []) o
      ≡ record { action = run; options = record o { once = once } }
unfolding parse_loop kind text_eq
tail_once true o off some_pid = ground arith
tail_once false o off some_pid = ground arith

-- The command can be told any options that it allows. For every process number from 1 to 2^32 - 1,
-- interval from 50 to 60000 milliseconds and age from 100 to 2^31 - 1 milliseconds, with or without
-- `--once`, the arguments that print them parse to `run` with exactly those options.
pub parse-command_line :
    (pid interval stale : ℕ) (once : Bool)
    → pid ≢ 0
    → pid < 2 ^ 32
    → 50 ≤ interval
    → interval ≤ 60_000
    → 100 ≤ stale
    → stale < 2 ^ 31
    → parse_command_line (command_line pid interval stale once) ≡ record {
      action = run;
      options = record { pid = pid; interval_ms = pos interval; stale_ms = pos stale; once = once };
    }
unfolding parse_command_line kind text_eq
parse-command_line pid interval stale once some_pid pid_fits low high age fits =
    valued_step (codes "--pid") (to_string pid) _ _ _ refl
      (take_value-pid pid default_options pid_fits)
    ∙ (valued_step (codes "--interval-ms") (to_string interval) _ _ _ refl
          (take_value-interval interval _ low high)
        ∙ (valued_step (codes "--stale-ms") (to_string stale) _ _ _ refl
              (take_value-stale stale _ age fits)
            ∙ tail_once once _ refl some_pid))
