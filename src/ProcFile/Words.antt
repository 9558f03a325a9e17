-- ===== src/ProcFile/Words.antt =====
-- What core/src/monitor/platform/process_watch.cpp reads off single fields: words behind single spaces, and numbers.
use peepbooth.Base.{
  ℕ, ◌-◌, ◌<◌, ◌≡◌, refl, List, [], ◌∷◌, ◌++◌, append_assoc, append-nil, some, none, Bool, true,
  false, not, ◌==◌, ◌&&◌, ap, length, ◌≢◌, arith,
}
use peepbooth.Base.Text.{Text, drop_while, take_while, rfind?, is_digit, to_string, from_chars}
use peepbooth.Base.Decimal.{from_chars-to_string, AllDigits, to_string-AllDigits, to_string-ne-nil}
use mathlib.Core.Option
use peepbooth.Base.Lines.{all_in, all_in-append}
use peepbooth.SharedState.{u64_mod}
use peepbooth.ProcFile.{is_blank, parse_unsigned, parse_digits}
use peepbooth.ProcFile.Fields.{fields_of, fields_from}

-- A byte that stands in a field, and fields: not empty, of such bytes.
abbrev in_field : ℕ → Bool
in_field c = not (c == b' ') && not (c == b')')

abbrev pub is_field : Text → Bool
is_field [] = false
is_field (c ∷ text) = all_in in_field (c ∷ text)

abbrev pub all_fields : List Text → Bool
all_fields [] = true
all_fields (f ∷ fs) = is_field f && all_fields fs

abbrev pub spaced : List Text → Text
spaced [] = []
spaced (f ∷ []) = f
spaced (f ∷ g ∷ fs) = f ++ (b' ' ∷ spaced (g ∷ fs))

fields_from-word :
    (field word rest : Text)
    → all_in in_field word ≡ true
    → fields_from field (word ++ rest) ≡ fields_from (field ++ word) rest
unfolding fields_of
fields_from-word field [] rest h = rw append-nil
fields_from-word field (c ∷ word) rest h =
    ground
      (arith, h, fields_from-word (field ++ (c ∷ [])) word rest, append_assoc field (c ∷ []) word)

-- A field at the front, at the end of the text and before a space.
fields_of-word : (f : Text) → is_field f ≡ true → fields_of f ≡ f ∷ []
unfolding fields_of
fields_of-word [] h = cc
fields_of-word (c ∷ f) h = ground (arith, h, fields_from-word (c ∷ []) f [], append-nil f)

fields_of-cons_word :
    (f rest : Text) → is_field f ≡ true → fields_of (f ++ (b' ' ∷ rest)) ≡ f ∷ fields_of rest
unfolding fields_of
fields_of-cons_word [] rest h = cc
fields_of-cons_word (c ∷ f) rest h = ground (arith, h, fields_from-word (c ∷ []) f (b' ' ∷ rest))

pub fields_of-spaced : (fs : List Text) → all_fields fs ≡ true → fields_of (spaced fs) ≡ fs
fields_of-spaced [] h = unfold fields_of in refl
fields_of-spaced (f ∷ []) h = ground (arith, h, fields_of-word f)
fields_of-spaced (f ∷ g ∷ fs) h =
    ground (arith, h, fields_of-cons_word f (spaced (g ∷ fs)), fields_of-spaced (g ∷ fs))

rfind?-absent : (text : Text) → all_in (λ c. not (c == b')')) text ≡ true → rfind? b')' text ≡ none
unfolding rfind?
rfind?-absent [] h = refl
rfind?-absent (c ∷ text) h = ground (arith, h, rfind?-absent text)

pub rfind?-last :
    (head tail : Text)
    → all_in (λ c. not (c == b')')) tail ≡ true
    → rfind? b')' (head ++ (b')' ∷ tail)) ≡ some (length head)
unfolding rfind?
rfind?-last [] tail h = ground (arith, rfind?-absent tail h)
rfind?-last (c ∷ head) tail h = ground (arith, rfind?-last head tail h)

digits_in : (text : Text) → AllDigits text → all_in in_field text ≡ true
digits_in [] h = refl
digits_in (c ∷ text) h = ground (arith, h.0, digits_in text h.1)

pub to_string-is_field : (n : ℕ) → is_field (to_string n) ≡ true
to_string-is_field n = digits-is_field (to_string n) (to_string-AllDigits n) (to_string-ne-nil n)
  where
    digits-is_field : (text : Text) → AllDigits text → text ≢ [] → is_field text ≡ true
    digits-is_field [] h ne = absurd (ne refl)
    digits-is_field (c ∷ text) h ne = digits_in (c ∷ text) h

take_while-digits : (text : Text) → AllDigits text → take_while is_digit text ≡ text
unfolding take_while
take_while-digits [] h = refl
take_while-digits (c ∷ text) h = rw (h.0, take_while-digits text h.1)

drop_while-digits : (text : Text) → AllDigits text → drop_while is_blank text ≡ text
unfolding drop_while
drop_while-digits [] h = refl
drop_while-digits (c ∷ text) h = ground (arith, h.0)

parse_digits-ne-nil :
    (text : Text) {n : ℕ}
    → from_chars (u64_mod - 1) text ≡ some (n, [])
    → parse_digits text ≡ some n
unfolding parse_digits from_chars
parse_digits-ne-nil [] e = cc
parse_digits-ne-nil (c ∷ text) e = ap (Option.map (λ (r : ℕ × Text). r.0)) e

pub parse_digits-to_string : (n : ℕ) → n < u64_mod → parse_digits (to_string n) ≡ some n
parse_digits-to_string n small =
    parse_digits-ne-nil (to_string n) (from_chars-to_string (u64_mod - 1) n (omega arith))

pub parse_unsigned-to_string : (n : ℕ) → n < u64_mod → parse_unsigned (to_string n) ≡ some n
unfolding parse_unsigned
parse_unsigned-to_string n small =
    rw
      (
        drop_while-digits (to_string n) (to_string-AllDigits n),
        take_while-digits (to_string n) (to_string-AllDigits n),
      )
      (parse_digits-to_string n small)

-- No closing bracket stands in the fields.
field-no_bracket : (f : Text) → all_in in_field f ≡ true → all_in (λ c. not (c == b')')) f ≡ true
field-no_bracket [] h = refl
field-no_bracket (c ∷ f) h = ground (arith, h, field-no_bracket f)

is_field-no_bracket : (f : Text) → is_field f ≡ true → all_in (λ c. not (c == b')')) f ≡ true
is_field-no_bracket [] h = cc
is_field-no_bracket (c ∷ f) h = field-no_bracket (c ∷ f) h

pub spaced-no_bracket :
    (fs : List Text) → all_fields fs ≡ true → all_in (λ c. not (c == b')')) (spaced fs) ≡ true
spaced-no_bracket [] h = refl
spaced-no_bracket (f ∷ []) h = ground (arith, h, is_field-no_bracket f)
spaced-no_bracket (f ∷ g ∷ fs) h =
    all_in-append (λ c. not (c == b')')) f (b' ' ∷ spaced (g ∷ fs))
      (ground (arith, h, is_field-no_bracket f)) (ground (arith, h, spaced-no_bracket (g ∷ fs)))
