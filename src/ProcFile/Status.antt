-- ===== src/ProcFile/Status.antt =====
-- What `parse_proc_status` reads off a file of lines, each with a key and a number of kibibytes.
use peepbooth.Base.{
  ℕ, suc, ◌+◌, ◌-◌, ◌*◌, ◌%◌, ◌<◌, ◌≡◌, ◌≢◌, refl, List, [], ◌∷◌, ◌++◌, append_assoc, append-nil,
  some, none, Bool, true, false, not, ◌==◌, ◌&&◌, ◌∙◌, ap, sym, length, drop, get_or, arith,
  length-append, drop-append, get_or-append, dec_lt,
}
use peepbooth.Base.Text.{Text, find?, starts_with, drop_while, take_while, is_digit, to_string}
use peepbooth.Base.Decimal.{AllDigits, to_string-AllDigits, to_string-ne-nil}
use peepbooth.Base.Lines.{all_in, all_in-append, in_line, unlines, to_string-in_line}
use peepbooth.SharedState.{u64_mod}
use peepbooth.ProcFile.{is_blank, parse_unsigned, status_value_at, status_value_kib}
use peepbooth.ProcFile.Words.{parse_digits-to_string}

-- A key is not empty and has no line's end.
abbrev pub is_key : Text → Bool
is_key [] = false
is_key (c ∷ key) = all_in in_line (c ∷ key)

starts_with-line :
    (key line rest : Text)
    → all_in in_line key ≡ true
    → starts_with key (line ++ (b'\n' ∷ rest)) ≡ starts_with key line
unfolding starts_with
starts_with-line [] line rest h = refl
starts_with-line (k ∷ key) [] rest h = ground (arith, h)
starts_with-line (k ∷ key) (c ∷ line) rest h = ground (arith, h, starts_with-line key line rest)

-- A key is not found across the end of a line.
find?-line :
    (key line rest : Text) (p : ℕ)
    → is_key key ≡ true
    → find? key line ≡ none
    → find? key rest ≡ some p
    → find? key (line ++ (b'\n' ∷ rest)) ≡ some (p + suc (length line))
unfolding find? starts_with
find?-line [] line rest p h absent found = cc
find?-line (k ∷ key) [] rest p h absent found = ground (arith, found)
find?-line (k ∷ key) (c ∷ line) rest p h absent found =
    ground
      (arith, h, absent, found, starts_with-line key line rest, find?-line (k ∷ key) line rest p h)

abbrev pub all_without : Text → List Text → Bool
all_without key [] = true
all_without key (line ∷ lines) =
    elim (find? key line) [ none ↦ true | some _ ↦ false ] && all_without key lines

starts_with-append : (key rest : Text) → starts_with key (key ++ rest) ≡ true
unfolding starts_with
starts_with-append [] rest = refl
starts_with-append (k ∷ key) rest = ground (arith, starts_with-append key rest)

pub find?-here : (key rest : Text) → find? key (key ++ rest) ≡ some 0
unfolding find? starts_with
find?-here [] [] = refl
find?-here [] (c ∷ rest) = refl
find?-here (k ∷ key) rest = ground (arith, starts_with-append key rest)

find?-lines :
    (key : Text) (lines : List Text) (rest : Text)
    → is_key key ≡ true
    → all_without key lines ≡ true
    → find? key (unlines lines ++ (key ++ rest)) ≡ some (length (unlines lines))
find?-lines key [] rest h absent = find?-here key rest
find?-lines key (line ∷ lines) rest h absent =
    rw (append_assoc line (b'\n' ∷ unlines lines) (key ++ rest)) (
      grind (
        arith,
        h,
        absent,
        length-append line (b'\n' ∷ unlines lines),
        find?-line key line (unlines lines ++ (key ++ rest)) (length (unlines lines)),
        find?-lines key lines rest,
      ))

newline_before :
    (lines : List Text) (rest : Text) (i : ℕ)
    → suc i ≡ length (unlines lines)
    → get_or (unlines lines ++ rest) i 0 ≡ b'\n'
newline_before [] rest i e = absurd (omega (arith, e))
newline_before (line ∷ []) rest i e =
    rw (append_assoc line (b'\n' ∷ []) rest)
      (get_or-append line (b'\n' ∷ rest) i 0 0 (omega (arith, e, length-append line (b'\n' ∷ []))))
newline_before (line ∷ next ∷ lines) rest i e =
    let tail = unlines (next ∷ lines) in
    let j = i - suc (length line) in
    let long = length-append line (b'\n' ∷ tail) in
    let some_tail = length-append next (b'\n' ∷ unlines lines) in
    rw (append_assoc line (b'\n' ∷ tail) rest) (
      get_or-append line (b'\n' ∷ (tail ++ rest)) i (suc j) 0 (omega (arith, e, long, some_tail))
      ∙ newline_before (next ∷ lines) rest j (omega (arith, e, long, some_tail)))

take_while-append :
    (p : ℕ → Bool) (xs : Text) (c : ℕ) (rest : Text)
    → all_in p xs ≡ true
    → p c ≡ false
    → take_while p (xs ++ (c ∷ rest)) ≡ xs
unfolding take_while
take_while-append p [] c rest h stop = rw stop
take_while-append p (x ∷ xs) c rest h stop = grind (arith, h, stop, take_while-append p xs c rest)

take_while_all : (p : ℕ → Bool) (xs : Text) → all_in p xs ≡ true → take_while p xs ≡ xs
unfolding take_while
take_while_all p [] h = refl
take_while_all p (x ∷ xs) h = grind (arith, h, take_while_all p xs)

drop_while-append :
    (p : ℕ → Bool) (xs : Text) (c : ℕ) (rest : Text)
    → all_in p xs ≡ true
    → p c ≡ false
    → drop_while p (xs ++ (c ∷ rest)) ≡ c ∷ rest
unfolding drop_while
drop_while-append p [] c rest h stop = rw stop
drop_while-append p (x ∷ xs) c rest h stop = grind (arith, h, stop, drop_while-append p xs c rest)

-- What stands behind the number: nothing, or something that does not go on with a digit.
abbrev pub is_unit : Text → Bool
is_unit [] = true
is_unit (c ∷ text) = not (is_digit c) && all_in in_line (c ∷ text)

AllDigits-all_in : (text : Text) → AllDigits text → all_in is_digit text ≡ true
AllDigits-all_in [] h = refl
AllDigits-all_in (c ∷ text) h = ground (arith, h.0, AllDigits-all_in text h.1)

take_while-unit :
    (digits unit : Text)
    → AllDigits digits
    → is_unit unit ≡ true
    → take_while is_digit (digits ++ unit) ≡ digits
take_while-unit digits [] h u =
    rw append-nil (take_while_all is_digit digits (AllDigits-all_in digits h))
take_while-unit digits (c ∷ unit) h u =
    take_while-append is_digit digits c unit (AllDigits-all_in digits h) (ground (arith, u))

drop_while-blanks :
    (blanks digits unit : Text)
    → all_in is_blank blanks ≡ true
    → AllDigits digits
    → digits ≢ []
    → drop_while is_blank (blanks ++ (digits ++ unit)) ≡ digits ++ unit
drop_while-blanks blanks [] unit b h ne = absurd (ne refl)
drop_while-blanks blanks (c ∷ digits) unit b h ne =
    drop_while-append is_blank blanks c (digits ++ unit) b (ground (arith, h.0))

parse_unsigned-shown :
    (blanks unit : Text) (n : ℕ)
    → all_in is_blank blanks ≡ true
    → is_unit unit ≡ true
    → n < u64_mod
    → parse_unsigned (blanks ++ (to_string n ++ unit)) ≡ some n
unfolding parse_unsigned
parse_unsigned-shown blanks unit n b u small =
    rw
      (
        drop_while-blanks blanks (to_string n) unit b (to_string-AllDigits n) (to_string-ne-nil n),
        take_while-unit (to_string n) unit (to_string-AllDigits n) u,
      )
      (parse_digits-to_string n small)

-- A line of a key, blanks, a number and its unit, behind lines in which the key does not occur.
abbrev pub status_text : Text → List Text → Text → ℕ → Text → Text → Text
status_text key before blanks n unit after =
    unlines before ++ (key ++ ((blanks ++ (to_string n ++ unit)) ++ (b'\n' ∷ after)))

blanks-in_line : (blanks : Text) → all_in is_blank blanks ≡ true → all_in in_line blanks ≡ true
blanks-in_line [] h = refl
blanks-in_line (c ∷ blanks) h = ground (arith, h, blanks-in_line blanks)

unit-in_line : (unit : Text) → is_unit unit ≡ true → all_in in_line unit ≡ true
unit-in_line [] h = refl
unit-in_line (c ∷ unit) h = ground (arith, h)

value-in_line :
    (blanks unit : Text) (n : ℕ)
    → all_in is_blank blanks ≡ true
    → is_unit unit ≡ true
    → all_in in_line (blanks ++ (to_string n ++ unit)) ≡ true
value-in_line blanks unit n b u =
    all_in-append in_line blanks (to_string n ++ unit) (blanks-in_line blanks b)
      (all_in-append in_line (to_string n) unit (to_string-in_line n) (unit-in_line unit u))

module _ (key : Text) (before : List Text) (blanks : Text) (n : ℕ) (unit after : Text) where
  abbrev pub contents : Text
  contents = status_text key before blanks n unit after

  behind_key :
      drop (length (unlines before) + length key) contents
      ≡ (blanks ++ (to_string n ++ unit)) ++ (b'\n' ∷ after)
  behind_key =
      ap (drop (length (unlines before) + length key)) (sym (append_assoc (unlines before) key _))
      ∙ drop-append (unlines before ++ key) _ (length (unlines before) + length key)
          (omega (arith, length-append (unlines before) key))

  at_line_start :
      (not (length (unlines before) == 0)
        && not (get_or contents (length (unlines before) - 1) 0 == b'\n'))
      ≡ false
  at_line_start = elim (dec_lt 0 (length (unlines before))) [
    | yes later ↦ ground (
      arith,
      newline_before before (key ++ ((blanks ++ (to_string n ++ unit)) ++ (b'\n' ∷ after)))
          (length (unlines before) - 1) (omega (arith, later)),
    )
    | no first ↦ ground (arith, first)
  ]

  -- The value of a key is the number on its line, in bytes.
  pub status_value_kib-status_text :
      is_key key ≡ true
      → all_without key before ≡ true
      → all_in is_blank blanks ≡ true
      → is_unit unit ≡ true
      → n < u64_mod
      → status_value_kib contents key ≡ some (n * 1024 % u64_mod)
  unfolding status_value_kib status_value_at
  status_value_kib-status_text is_k absent b u small =
      let found =
        find?-lines key before ((blanks ++ (to_string n ++ unit)) ++ (b'\n' ∷ after)) is_k absent in
      let line =
        take_while-append in_line (blanks ++ (to_string n ++ unit)) b'\n' after
          (value-in_line blanks unit n b u) refl in
      rw (found, status_value_kib)
        (rw (at_line_start, status_value_at)
          (rw (behind_key, line, parse_unsigned-shown blanks unit n b u small) refl))
