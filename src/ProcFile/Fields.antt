-- ===== src/ProcFile/Fields.antt =====
-- The loop of `parse_proc_stat` that cuts a text into fields, against one pass over its bytes.
use peepbooth.Base.{
  ℕ, zero, suc, ◌-◌, ◌≤◌, ◌≡◌, refl, List, [], ◌∷◌, ◌++◌, append_assoc, append-nil, inl, inr, ◌⊎◌,
  ◌∙◌, sym, ap, Bool, false, not, ◌==◌, if◌then◌else◌, length, drop, arith,
}
use peepbooth.Base.Text.{Text, drop_while, take_while}
use peepbooth.ProcFile.{split_fields}

-- The fields of a text, byte by byte: outside a field, and in one of which `field` has been read.
unfoldable mutual
  pub fields_of : Text → List Text
  fields_of [] = []
  fields_of (c ∷ text) = if c == b' ' then fields_of text else fields_from (c ∷ []) text

  pub fields_from : Text → Text → List Text
  fields_from field [] = field ∷ []
  fields_from field (c ∷ text) =
      if c == b' ' then field ∷ fields_of text else fields_from (field ++ (c ∷ [])) text

abbrev is_space : ℕ → Bool
is_space c = c == b' '

abbrev not_space : ℕ → Bool
not_space c = not (c == b' ')

length-drop_while : (p : ℕ → Bool) (text : Text) → length (drop_while p text) ≤ length text
unfolding drop_while
length-drop_while p [] = omega arith
length-drop_while p (c ∷ text) = ground (arith, length-drop_while p text)

fields_of-drop_while : (text : Text) → fields_of (drop_while is_space text) ≡ fields_of text
unfolding drop_while fields_of
fields_of-drop_while [] = refl
fields_of-drop_while (c ∷ text) = ground (arith, fields_of-drop_while text)

fields_from_lem :
    (field text : Text)
    → fields_from field text
      ≡ (field ++ take_while not_space text) ∷ fields_of (drop 1 (drop_while not_space text))
unfolding fields_of drop_while take_while
fields_from_lem field [] = rw append-nil
fields_from_lem field (c ∷ text) = ground (
  arith,
  append-nil field,
  fields_from_lem (field ++ (c ∷ [])) text,
  append_assoc field (c ∷ []) (take_while not_space text),
)

-- A text that starts in a field: that field, and the fields of what follows the space behind it.
fields_of-cons :
    (c : ℕ) (text : Text)
    → (c == b' ') ≡ false
    → fields_of (c ∷ text)
      ≡ take_while not_space (c ∷ text) ∷ fields_of (drop 1 (drop_while not_space (c ∷ text)))
unfolding fields_of drop_while take_while
fields_of-cons c text field = ground (arith, field, fields_from_lem (c ∷ []) text)

drop_while-head :
    (text : Text) {c : ℕ} {rest : Text} → drop_while is_space text ≡ c ∷ rest → (c == b' ') ≡ false
unfolding drop_while
drop_while-head [] e = cc
drop_while-head (x ∷ text) {c} {rest} e = ground (arith, drop_while-head text {c = c} {rest = rest})

length-drop_one : (text : Text) → length (drop 1 text) ≤ length text - 1
length-drop_one [] = omega arith
length-drop_one (c ∷ text) = omega arith

List-cases : (text : Text) → (text ≡ []) ⊎ ((c : ℕ) × (rest : Text) × (text ≡ c ∷ rest))
List-cases [] = inl refl
List-cases (c ∷ rest) = inr (c, rest, refl)

-- A round of the loop, by what is left behind the spaces.
split_fields_end :
    (fuel : ℕ) (text : Text) → drop_while is_space text ≡ [] → split_fields (suc fuel) text ≡ []
unfolding split_fields
split_fields_end fuel text e = rw (e, split_fields)

split_fields_round :
    (fuel : ℕ) (text : Text) {c : ℕ} {rest : Text}
    → drop_while is_space text ≡ c ∷ rest
    → split_fields (suc fuel) text
      ≡ take_while not_space (c ∷ rest)
        ∷ split_fields fuel (drop 1 (drop_while not_space (c ∷ rest)))
unfolding split_fields
split_fields_round fuel text e = rw (e, split_fields)

length-round :
    (text : Text) {c : ℕ} {rest : Text}
    → drop_while is_space text ≡ c ∷ rest
    → suc (length (drop 1 (drop_while not_space (c ∷ rest)))) ≤ length text
length-round text {c} {rest} e = omega (
  arith,
  length-drop_while is_space text,
  ap length e,
  length-drop_while not_space (c ∷ rest),
  length-drop_one (drop_while not_space (c ∷ rest)),
)

-- The source's loop over positions finds exactly the fields of the text, empty ones left out: with as
-- much fuel as the text has bytes, or more, `split_fields` is the list that one pass over the bytes
-- makes.
pub split_fields-fields_of :
    (fuel : ℕ) (text : Text) → length text ≤ fuel → split_fields fuel text ≡ fields_of text
unfolding split_fields fields_of
split_fields-fields_of zero [] enough = refl
split_fields-fields_of zero (c ∷ text) enough = absurd (omega arith)
split_fields-fields_of (suc fuel) text enough = elim (List-cases (drop_while is_space text)) [
  | inl e ↦ split_fields_end fuel text e ∙ sym (ap fields_of e) ∙ fields_of-drop_while text
  | inr (c, rest, e) ↦
      split_fields_round fuel text e
      ∙ ap (λ (fields : List Text). take_while not_space (c ∷ rest) ∷ fields)
          (split_fields-fields_of fuel (drop 1 (drop_while not_space (c ∷ rest)))
            (omega (arith, length-round text e)))
      ∙ sym (fields_of-cons c rest (drop_while-head text e))
      ∙ sym (ap fields_of e)
      ∙ fields_of-drop_while text
]
