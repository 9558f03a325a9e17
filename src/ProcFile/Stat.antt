-- ===== src/ProcFile/Stat.antt =====
-- What `parse_proc_stat` reads off a line that the kernel prints: a number and a command in brackets,
-- then fields behind single spaces. The command may hold any bytes, brackets and spaces among them.
use peepbooth.Base.{
  ℕ, ◌+◌, ◌%◌, ◌<◌, ◌≡◌, List, [], ◌∷◌, ◌++◌, append_assoc, some, true, false, not, ◌==◌, ◌∙◌, ap,
  sym, length, drop, get_or, arith, length-append, drop-append, get_or-append, leb,
}
use peepbooth.Base.Text.{Text, to_string}
use peepbooth.Base.Lines.{all_in}
use peepbooth.SharedState.{u64_mod}
use peepbooth.ProcFile.{stat_values, stat_tail, parse_proc_stat}
use peepbooth.ProcFile.Fields.{split_fields-fields_of}
use peepbooth.ProcFile.Words.{
  all_fields, spaced, fields_of-spaced, rfind?-last, to_string-is_field, parse_unsigned-to_string,
  spaced-no_bracket,
}

length-spaced_pos :
    (f : Text) (fs : List Text) → all_fields (f ∷ fs) ≡ true → 0 < length (spaced (f ∷ fs))
length-spaced_pos [] fs h = cc
length-spaced_pos (c ∷ f) [] h = omega arith
length-spaced_pos (c ∷ f) (g ∷ fs) h = omega arith

stat_tail-spaced :
    (fs : List Text)
    → all_fields fs ≡ true
    → 19 < length fs
    → stat_tail (spaced fs) ≡ stat_values fs
unfolding stat_tail
stat_tail-spaced fs h enough =
    rw
      (split_fields-fields_of (length (spaced fs)) (spaced fs) (omega arith), fields_of-spaced fs h)
      (ground arith)

-- The line as the kernel prints it: whatever stands before the last bracket, then the fields.
abbrev pub stat_line : Text → List Text → Text
stat_line head fs = head ++ (b')' ∷ b' ' ∷ spaced fs)

parse_proc_stat-line :
    (head : Text) (fs : List Text)
    → all_fields fs ≡ true
    → 19 < length fs
    → parse_proc_stat (stat_line head fs) ≡ stat_values fs
unfolding parse_proc_stat
parse_proc_stat-line head [] h enough = absurd (omega arith)
parse_proc_stat-line head (f ∷ fs) h enough =
    let tail : Text = spaced (f ∷ fs) in
    let found = rfind?-last head (b' ' ∷ tail) (
      let t : all_in (λ c. not (c == b')')) (b' ' ∷ tail) ≡ true = spaced-no_bracket (f ∷ fs) h in
      t) in
    let long : leb (length (stat_line head (f ∷ fs))) (length head + 2) ≡ false =
      ground (arith, length-append head (b')' ∷ b' ' ∷ tail), length-spaced_pos f fs h) in
    let rest : drop (length head + 2) (stat_line head (f ∷ fs)) ≡ tail =
      ap (drop (length head + 2)) (sym (append_assoc head (b')' ∷ b' ' ∷ []) tail))
      ∙ drop-append (head ++ (b')' ∷ b' ' ∷ [])) tail (length head + 2)
          (omega (arith, length-append head (b')' ∷ b' ' ∷ []))) in
    ground (arith, found, long, rest, stat_tail-spaced (f ∷ fs) h enough)

-- The fields behind the command: eleven, the two times, six, the start time, and the others.
abbrev pub stat_fields : List Text → ℕ → ℕ → List Text → ℕ → List Text → List Text
stat_fields early user system middle start late =
    early ++ (to_string user ∷ to_string system ∷ (middle ++ (to_string start ∷ late)))

all_fields-append :
    (fs gs : List Text) → all_fields fs ≡ true → all_fields gs ≡ true → all_fields (fs ++ gs) ≡ true
all_fields-append [] gs hf hg = hg
all_fields-append (f ∷ fs) gs hf hg = grind (arith, hf, hg, all_fields-append fs gs)

module _ (early middle late : List Text) (user system start : ℕ) (eleven : length early ≡ 11)
    (six : length middle ≡ 6) where
  abbrev fields : List Text
  fields = stat_fields early user system middle start late

  fields-user : get_or fields 11 [] ≡ to_string user
  fields-user = get_or-append early _ 11 0 [] (omega (arith, eleven))

  fields-system : get_or fields 12 [] ≡ to_string system
  fields-system = get_or-append early _ 12 1 [] (omega (arith, eleven))

  fields-start : get_or fields 19 [] ≡ to_string start
  fields-start =
      get_or-append early _ 19 8 [] (omega (arith, eleven))
      ∙ get_or-append middle (to_string start ∷ late) 6 0 [] (omega (arith, six))

  fields-long : 19 < length fields
  fields-long = omega (
    arith,
    eleven,
    six,
    length-append {A = Text} middle (to_string start ∷ late),
    length-append {A = Text} early
        (to_string user ∷ to_string system ∷ (middle ++ (to_string start ∷ late))),
  )

  fields-all_fields :
      all_fields early ≡ true
      → all_fields middle ≡ true
      → all_fields late ≡ true
      → all_fields fields ≡ true
  fields-all_fields he hm hl = all_fields-append early _ he (
      grind (
        arith,
        to_string-is_field user,
        to_string-is_field system,
        to_string-is_field start,
        hm,
        hl,
        all_fields-append middle (to_string start ∷ late),
      ))

  stat_values-fields :
      user < u64_mod
      → system < u64_mod
      → start < u64_mod
      → stat_values fields
        ≡ some (record { cpu_ticks = (user + system) % u64_mod; start_ticks = start })
  unfolding stat_values
  stat_values-fields hu hs ht = ground (
    arith,
    fields-user,
    fields-system,
    fields-start,
    parse_unsigned-to_string user hu,
    parse_unsigned-to_string system hs,
    parse_unsigned-to_string start ht,
  )

-- What the kernel prints is read, whatever the process is called. For a line of any bytes, brackets
-- and spaces among them, a closing bracket, and twenty fields at least behind single spaces, none of
-- them empty or with a bracket, the result is the sum of the twelfth and the thirteenth, in 64 bits,
-- and the twentieth, as they were printed from 64-bit numbers.
pub parse_proc_stat-stat_line :
    (head : Text) (early middle late : List Text) (user system start : ℕ)
    → length early ≡ 11
    → length middle ≡ 6
    → all_fields early ≡ true
    → all_fields middle ≡ true
    → all_fields late ≡ true
    → user < u64_mod
    → system < u64_mod
    → start < u64_mod
    → parse_proc_stat (stat_line head (stat_fields early user system middle start late))
      ≡ some (record { cpu_ticks = (user + system) % u64_mod; start_ticks = start })
parse_proc_stat-stat_line head early middle late user system start eleven six he hm hl hu hs ht =
    parse_proc_stat-line head (stat_fields early user system middle start late)
      (fields-all_fields early middle late user system start eleven six he hm hl)
      (fields-long early middle late user system start eleven six)
    ∙ stat_values-fields early middle late user system start eleven six hu hs ht
