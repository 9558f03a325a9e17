-- ===== src/ProcFile/Memory.antt =====
-- `parse_proc_status` on whole files: the values that it returns, and a name that hides them.
use mathlib.Core.Option
use peepbooth.Base.{
  ℕ, zero, suc, ◌+◌, ◌*◌, ◌%◌, ◌<◌, ◌≡◌, refl, List, [], ◌∷◌, ◌++◌, Option, some, none, Bool, true,
  false, not, ◌==◌, ◌&&◌, ◌∙◌, ap, length, get_or, arith,
}
use peepbooth.Base.Text.{Text, codes, find?, starts_with}
use peepbooth.Base.Lines.{all_in}
use peepbooth.SharedState.{u64_mod}
use peepbooth.ProcFile.{
  ProcessMemory, is_blank, status_value_at, status_value_kib, parse_proc_status,
}
use peepbooth.ProcFile.Status.{
  is_key, is_unit, all_without, status_text, status_value_kib-status_text,
}

-- A file in which a key stands at the front of a line with a number, and in no line before it.
pub record OnLine (contents key : Text) (n : ℕ) : Type 0 where
  pub before : List Text
  pub blanks : Text
  pub unit : Text
  pub after : Text
  pub text : contents ≡ status_text key before blanks n unit after
  pub first : all_without key before ≡ true
  pub blank : all_in is_blank blanks ≡ true
  pub ends : is_unit unit ≡ true
  pub small : n < u64_mod

-- A file shows a number for a key, or does not have the key.
abbrev pub Shows : Text → Text → Option ℕ → Type 0
Shows contents key none = find? key contents ≡ none
Shows contents key (some n) = OnLine contents key n

abbrev pub bytes_of : ℕ → ℕ
bytes_of kib = kib * 1024 % u64_mod

status_value_kib-Shows :
    (contents key : Text) (value : Option ℕ)
    → is_key key ≡ true
    → Shows contents key value
    → status_value_kib contents key ≡ Option.map bytes_of value
status_value_kib-Shows contents key none k absent =
    unfold status_value_kib in rw (absent, status_value_kib)
status_value_kib-Shows contents key (some n) k l =
    ap (λ (t : Text). status_value_kib t key) l.text
    ∙ status_value_kib-status_text key l.before l.blanks n l.unit l.after k l.first l.blank l.ends
        l.small

-- The memory that a file shows: nothing without the resident size, which stands in for a high-water
-- mark that is missing.
abbrev pub memory_of : Option ℕ → Option ℕ → Option ℕ → Option ProcessMemory
memory_of none high swap = none
memory_of (some rss) high swap = some (record {
  rss_bytes = bytes_of rss;
  high_water_bytes = Option.get_or (Option.map bytes_of high) (bytes_of rss);
  swap_bytes = Option.get_or (Option.map bytes_of swap) 0;
})

-- The memory of a process is read from the lines of its three keys, wherever these stand. For each
-- key the file either does not have it, or has it at the front of a line, and in no line before that
-- one, with a 64-bit number behind blanks; then the result is those numbers in bytes, in 64 bits, and
-- is missing exactly if the resident size is.
pub parse_proc_status-Shows :
    (contents : Text) (rss high swap : Option ℕ)
    → Shows contents (codes "VmRSS:") rss
    → Shows contents (codes "VmHWM:") high
    → Shows contents (codes "VmSwap:") swap
    → parse_proc_status contents ≡ memory_of rss high swap
unfolding parse_proc_status
parse_proc_status-Shows contents none high swap r h s =
    rw (status_value_kib-Shows contents (codes "VmRSS:") none refl r, parse_proc_status)
parse_proc_status-Shows contents (some rss) high swap r h s = rw (
  status_value_kib-Shows contents (codes "VmRSS:") (some rss) refl r,
  parse_proc_status,
  status_value_kib-Shows contents (codes "VmHWM:") high refl h,
  status_value_kib-Shows contents (codes "VmSwap:") swap refl s,
)

-- The bytes that a name may have here: no `V`, with which the key starts, and no line's end.
abbrev pub in_name : ℕ → Bool
in_name c = not (c == b'V') && not (c == b'\n')

find?-behind_name :
    (name rest : Text)
    → all_in in_name name ≡ true
    → find? (codes "VmRSS:") (name ++ (codes "VmRSS:" ++ rest)) ≡ some (length name)
unfolding find? starts_with
find?-behind_name [] rest h = refl
find?-behind_name (c ∷ name) rest h = ground (arith, h, find?-behind_name name rest)

get_or-in_name :
    (name rest : Text) (i : ℕ)
    → all_in in_name name ≡ true
    → i < length name
    → (get_or (name ++ rest) i 0 == b'\n') ≡ false
get_or-in_name [] rest i h lt = absurd (omega arith)
get_or-in_name (c ∷ name) rest zero h lt = ground (arith, h)
get_or-in_name (c ∷ name) rest (suc i) h lt = ground (arith, h, get_or-in_name name rest i)

abbrev pub named_file : Text → Text → Text
named_file name rest = (codes "Name:\t" ++ name) ++ (codes "VmRSS:" ++ rest)

status_value_kib-mid_line :
    (contents key : Text) (p : ℕ)
    → find? key contents ≡ some (suc p)
    → (get_or contents p 0 == b'\n') ≡ false
    → status_value_kib contents key ≡ none
unfolding status_value_kib status_value_at
status_value_kib-mid_line contents key p found before = ground (arith, found, before)

parse_proc_status-no_rss :
    (contents : Text)
    → status_value_kib contents (codes "VmRSS:") ≡ none
    → parse_proc_status contents ≡ none
unfolding parse_proc_status
parse_proc_status-no_rss contents absent = rw (absent, parse_proc_status)

-- A process hides its memory by its name. Whatever stands in the rest of the file, a proper line for
-- the resident size included, a file whose first line is a name that ends in `VmRSS:`, and has no other
-- `V`, is read as one without a resident size.
pub parse_proc_status-named_file :
    (name rest : Text)
    → all_in in_name name ≡ true
    → parse_proc_status (named_file name rest) ≡ none
parse_proc_status-named_file name rest h =
    let whole : Text = codes "Name:\t" ++ name in
    let clean : all_in in_name whole ≡ true = h in
    parse_proc_status-no_rss (named_file name rest) (
      status_value_kib-mid_line (named_file name rest) (codes "VmRSS:") (5 + length name)
        (find?-behind_name whole rest clean ∙ ap (λ (n : ℕ). some n) (omega arith))
        (get_or-in_name whole (codes "VmRSS:" ++ rest) (5 + length name) clean (omega arith)))
