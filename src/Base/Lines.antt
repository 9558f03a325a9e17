-- ===== src/Base/Lines.antt =====
-- Texts all of whose bytes pass a test, and texts cut into lines.
use Prim.Native.Nat.{ℕ}
use mathlib.Core.Path.{◌≡◌, refl}
use mathlib.Core.Bool.{Bool, true, not, ◌&&◌}
use mathlib.Core.List.{List, [], ◌∷◌, ◌++◌}
use native.Mathlib.Omega.{arith}
use peepbooth.Base.Tests.{◌==◌}
use peepbooth.Base.Text.{Text, to_string}
use peepbooth.Base.Decimal.{AllDigits, to_string-AllDigits}

abbrev pub all_in : (ℕ → Bool) → Text → Bool
all_in p [] = true
all_in p (c ∷ text) = p c && all_in p text

pub all_in-append :
    (p : ℕ → Bool) (xs ys : Text)
    → all_in p xs ≡ true
    → all_in p ys ≡ true
    → all_in p (xs ++ ys) ≡ true
all_in-append p [] ys hx hy = hy
all_in-append p (x ∷ xs) ys hx hy = grind (arith, hx, hy, all_in-append p xs ys)

abbrev pub in_line : ℕ → Bool
in_line c = not (c == b'\n')

AllDigits-in_line : (text : Text) → AllDigits text → all_in in_line text ≡ true
AllDigits-in_line [] h = refl
AllDigits-in_line (c ∷ text) h = ground (arith, h.0, AllDigits-in_line text h.1)

pub to_string-in_line : (n : ℕ) → all_in in_line (to_string n) ≡ true
to_string-in_line n = AllDigits-in_line (to_string n) (to_string-AllDigits n)

abbrev pub unlines : List Text → Text
unlines [] = []
unlines (line ∷ lines) = line ++ (b'\n' ∷ unlines lines)
