-- ===== src/Base/Text.antt =====
-- Bytes of text as numbers: literals, decimal printing, prefixes, searches by position, as the
-- standard library's strings and string views do them.
use Prim.Native.Nat.{ℕ, zero, suc, ◌+◌, ◌-◌, ◌*◌, ◌/◌, ◌%◌}
use Prim.Native.Char.{code}
use Prim.Native.String.{String}
use mathlib.Core.Bool.{Bool, true, false, ◌&&◌}
use mathlib.Core.Option
use mathlib.Core.Option.{Option, none, some}
use mathlib.Core.List.{List, [], ◌∷◌, ◌++◌}
use peepbooth.Base.Tests.{ltb, leb, ◌==◌, if◌then◌else◌}

abbrev pub Text : Type 0
Text = List ℕ

abbrev pub codes : String → Text
codes String.[] = []
codes (String.◌∷◌ c s) = code c ∷ codes s

abbrev pub is_digit : ℕ → Bool
is_digit c = leb b'0' c && leb c b'9'

-- The decimal digits of `n`, on fuel: `suc n` rounds are more than `n` has digits.
unfoldable pub print_digits : ℕ → ℕ → Text
print_digits zero n = []
print_digits (suc fuel) n = elim (ltb n 10) [
  | true ↦ (n + b'0') ∷ []
  | false ↦ print_digits fuel (n / 10) ++ ((n % 10 + b'0') ∷ [])
]

-- `std::to_string` of an unsigned number.
unfoldable pub to_string : ℕ → Text
unfolding print_digits
to_string n = print_digits (suc n) n

unfoldable pub text_eq : Text → Text → Bool
text_eq [] [] = true
text_eq (a ∷ as_) (b ∷ bs) = (a == b) && text_eq as_ bs
text_eq _ _ = false

unfoldable pub starts_with : Text → Text → Bool
starts_with [] text = true
starts_with (k ∷ key) [] = false
starts_with (k ∷ key) (c ∷ text) = (k == c) && starts_with key text

-- `text.find(key)`: the first position; `none` is `npos`.
unfoldable pub find? : Text → Text → Option ℕ
unfolding starts_with
find? key [] = if starts_with key [] then some 0 else none
find? key (c ∷ text) =
    if starts_with key (c ∷ text) then some 0 else Option.map (λ n. suc n) (find? key text)

-- `text.rfind(c)`
unfoldable pub rfind? : ℕ → Text → Option ℕ
rfind? c [] = none
rfind? c (x ∷ text) = elim (rfind? c text) [
  | some n ↦ some (suc n)
  | none ↦ if x == c then some 0 else none
]

unfoldable pub drop_while : (ℕ → Bool) → Text → Text
drop_while p [] = []
drop_while p (c ∷ text) = if p c then drop_while p text else c ∷ text

unfoldable pub take_while : (ℕ → Bool) → Text → Text
take_while p [] = []
take_while p (c ∷ text) = if p c then c ∷ take_while p text else []

-- The loop of `std::from_chars` over the digits at the front: their value, and what follows.
unfoldable pub scan_digits : ℕ → Text → ℕ × Text
scan_digits value [] = (value, [])
scan_digits value (c ∷ text) =
    if is_digit c then scan_digits (value * 10 + (c - b'0')) text else (value, c ∷ text)

-- `std::from_chars` into an unsigned type whose largest value is `limit`: the value and the text
-- behind it, or `none` for both of its errors, which leave the output as it was.
unfoldable pub from_chars : ℕ → Text → Option (ℕ × Text)
from_chars limit [] = none
from_chars limit (c ∷ text) =
    if is_digit c
    then (let (value, rest) = scan_digits 0 (c ∷ text) in
        if leb value limit then some (value, rest) else none)
    else none
