-- ===== src/Base/Decimal.antt =====
-- Decimal numbers printed and read back.
use Prim.Native.Nat.{ℕ, zero, suc, ◌+◌, ◌-◌, ◌*◌, ◌/◌, ◌%◌, ◌≤◌, ◌<◌}
use mathlib.Core.Path.{◌≡◌, refl, ◌∙◌, ap}
use mathlib.Core.Logic.{◌≢◌}
use mathlib.Core.Bool.{true}
use mathlib.Core.Option.{some}
use mathlib.Core.List.{[], ◌∷◌, ◌++◌}
use native.Mathlib.Omega.{arith}
use native.Mathlib.Decide.{dec_lt}
use peepbooth.Base.Tests.{le→leb}
use peepbooth.Base.Text.{Text, is_digit, print_digits, to_string, scan_digits, from_chars}

abbrev pub AllDigits : Text → Type 0
AllDigits [] = Unit {0}
AllDigits (c ∷ text) = (is_digit c ≡ true) × AllDigits text

AllDigits-append : (xs ys : Text) → AllDigits xs → AllDigits ys → AllDigits (xs ++ ys)
AllDigits-append [] ys hx hy = hy
AllDigits-append (c ∷ xs) ys hx hy = (hx.0, AllDigits-append xs ys hx.1 hy)

pub scan_digits-append :
    (value : ℕ) (xs ys : Text)
    → AllDigits xs
    → scan_digits value (xs ++ ys) ≡ scan_digits (scan_digits value xs).0 ys
unfolding scan_digits
scan_digits-append value [] ys h = refl
scan_digits-append value (c ∷ xs) ys h =
    ground (arith, h.0, scan_digits-append (value * 10 + (c - b'0')) xs ys h.1)

last_digit : (d : ℕ) → d < 10 → is_digit (d + b'0') ≡ true
last_digit d h = ground arith

print_digits-small : (fuel n : ℕ) → n < 10 → print_digits (suc fuel) n ≡ (n + b'0') ∷ []
unfolding print_digits
print_digits-small fuel n h = ground arith

print_digits-big :
    (fuel n : ℕ)
    → 10 ≤ n
    → print_digits (suc fuel) n ≡ print_digits fuel (n / 10) ++ ((n % 10 + b'0') ∷ [])
unfolding print_digits
print_digits-big fuel n h = ground arith

pub print_digits-AllDigits : (fuel n : ℕ) → AllDigits (print_digits fuel n)
print_digits-AllDigits zero n = unfold print_digits in tt
print_digits-AllDigits (suc fuel) n = elim (dec_lt n 10) [
  | yes small ↦ rw (print_digits-small fuel n small) (last_digit n small, tt)
  | no big ↦ rw (print_digits-big fuel n (omega arith)) (
      AllDigits-append (print_digits fuel (n / 10)) ((n % 10 + b'0') ∷ [])
        (print_digits-AllDigits fuel (n / 10)) (last_digit (n % 10) (omega arith), tt))
]

scan_digits-one :
    (value d : ℕ) → d < 10 → scan_digits value ((d + b'0') ∷ []) ≡ (value * 10 + d, [])
unfolding scan_digits
scan_digits-one value d h =
    rw (last_digit d h)
      (ap (λ x. (value * 10 + x, [])) (let e : d + b'0' - b'0' ≡ d = omega arith in e))

scan_digits-print_digits : (fuel n : ℕ) → n < fuel → scan_digits 0 (print_digits fuel n) ≡ (n, [])
scan_digits-print_digits zero n h = absurd (omega arith)
scan_digits-print_digits (suc fuel) n h = elim (dec_lt n 10) [
  | yes small ↦ rw (print_digits-small fuel n small) (
      scan_digits-one 0 n small
      ∙ ap (λ (v : ℕ). (v, [])) (let e : 0 * 10 + n ≡ n = omega arith in e))
  | no big ↦
      rw
        (
          print_digits-big fuel n (omega arith),
          scan_digits-append 0 (print_digits fuel (n / 10)) ((n % 10 + b'0') ∷ [])
              (print_digits-AllDigits fuel (n / 10)),
          scan_digits-print_digits fuel (n / 10) (omega arith),
        )
        (scan_digits-one (n / 10) (n % 10) (omega arith)
          ∙ ap (λ (v : ℕ). (v, [])) (let e : n / 10 * 10 + n % 10 ≡ n = omega arith in e))
]

pub scan_digits-to_string : (n : ℕ) → scan_digits 0 (to_string n) ≡ (n, [])
unfolding to_string
scan_digits-to_string n = scan_digits-print_digits (suc n) n (omega arith)

pub to_string-AllDigits : (n : ℕ) → AllDigits (to_string n)
unfolding to_string
to_string-AllDigits n = print_digits-AllDigits (suc n) n

-- What the digits of a text come to, where there is one at least.
from_chars-scan :
    (limit : ℕ) (text : Text) (n : ℕ)
    → AllDigits text
    → text ≢ []
    → scan_digits 0 text ≡ (n, [])
    → n ≤ limit
    → from_chars limit text ≡ some (n, [])
unfolding from_chars
from_chars-scan limit [] n digits some_text e le = absurd (some_text refl)
from_chars-scan limit (c ∷ text) n digits some_text e le = rw (digits.0, e, le→leb n limit le)

append-ne-nil : (xs : Text) (y : ℕ) → xs ++ (y ∷ []) ≢ []
append-ne-nil [] y e = cc
append-ne-nil (x ∷ xs) y e = cc

pub to_string-ne-nil : (n : ℕ) → to_string n ≢ []
unfolding to_string
to_string-ne-nil n = elim (dec_lt n 10) [
  | yes small ↦ rw (print_digits-small n n small) (λ e. cc)
  | no big ↦
      rw (print_digits-big n n (omega arith))
        (append-ne-nil (print_digits n (n / 10)) (n % 10 + b'0'))
]

-- A printed number that is small enough is read back, with nothing left.
pub from_chars-to_string : (limit n : ℕ) → n ≤ limit → from_chars limit (to_string n) ≡ some (n, [])
from_chars-to_string limit n le =
    from_chars-scan limit (to_string n) n (to_string-AllDigits n) (to_string-ne-nil n)
      (scan_digits-to_string n) le
