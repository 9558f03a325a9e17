-- ===== src/Base/Arrays.antt =====
-- A fixed array, or a map, as a function of its index.
use Prim.Native.Nat.{ℕ}
use mathlib.Core.Path.{◌≡◌}
use mathlib.Core.Logic.{◌≢◌, ite, if_pos, if_neg}
use native.Mathlib.Decide.{ℕ_discrete}
use native.Mathlib.Omega.{arith}

module _ {ℓ} {A : Type ℓ} where
  abbrev pub update : (ℕ → A) → ℕ → A → ℕ → A
  update f i a j = ite (ℕ_discrete i j) a (f j)

  pub update_self : (f : ℕ → A) (i : ℕ) (a : A) → update f i a i ≡ a
  update_self f i a = ground arith

  pub update_ne : (f : ℕ → A) (i j : ℕ) (a : A) → i ≢ j → update f i a j ≡ f j
  update_ne f i j a h = ground arith

  -- A property of an entry after a write: of the value written, or of the old entry.
  pub update_cases {κ} :
      (P : A → Type κ) (f : ℕ → A) (i j : ℕ) (a : A)
      → (i ≡ j → P a)
      → (i ≢ j → P (f j))
      → P (update f i a j)
  update_cases P f i j a new old = elim (ℕ_discrete i j) [
    | yes same ↦ rw (if_pos _ same) (new same)
    | no other ↦ rw (if_neg _ other) (old other)
  ]
