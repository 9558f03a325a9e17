-- ===== src/Main/Exits.antt =====
-- How core/src/main.cpp ends, whatever its arguments.
use peepbooth.Base.{
  ℕ, suc, ◌≤◌, ◌≡◌, refl, ◌∙◌, List, [], ◌∷◌, drop, length, Option, some, Bool, true, arith,
  ℕ_discrete,
}
use peepbooth.Base.Text.{Text}
use peepbooth.Base.Int.{ℤ}
use peepbooth.Float.{Float}
use peepbooth.Platform.Kernel.{Kernel, Call, World, signal}
use peepbooth.Platform.Resources.{held}
use peepbooth.Platform.ProcessWatch.{clock_ticks_of}
use peepbooth.ProcFile.{ProcessIdentity}
use peepbooth.CommandLine.{Action, Parsed, Options, run, help, error, parse_command_line}
use peepbooth.Console.{Report, usage}
use peepbooth.Console.Ends.{SignalledBy, returned}
use peepbooth.Console.Codes.{reported, run_console_watch-reported}
use peepbooth.Console.Ownership.{run_console_watch-restores}
use peepbooth.Main.{stop_flag, signalled, sigint, sigterm, act, main}

-- Once the handler has run, the flag stays up.
stop_flag-stays :
    (delivered : List Call → Bool) (m : ℕ)
    → ((h : List Call) → length h ≡ m → delivered h ≡ true)
    → (h : List Call) → m ≤ length h
    → stop_flag delivered h ≡ true
unfolding stop_flag
stop_flag-stays delivered m comes [] le = ground (arith, comes [])
stop_flag-stays delivered m comes (c ∷ h) le = elim (ℕ_discrete (length (c ∷ h)) m) [
  | yes now ↦ ground (arith, comes (c ∷ h) now)
  | no before ↦ ground (arith, stop_flag-stays delivered m comes h (omega arith))
]

-- What a run of the program comes to, by what the command line says.
abbrev pub Exits : (F : Float) → Action → Option (ℕ × List (Report F)) → Type 0
Exits F help r = r ≡ some (0, usage ∷ [])
Exits F error r = r ≡ some (2, usage ∷ [])
Exits F run r = (i : ProcessIdentity) × (reported F i r ≡ true)

act-Exits :
    (F : Float) (k : Kernel) (sysconf : ℤ) (m : ℕ) (action : Action) (options : Options) (w : World)
    → SignalledBy k m
    → let r = act F k sysconf (suc m) action options w in
      Exits F action r.0 × (returned r.0 ≡ true) × (held k r.1.calls ≡ held k w.calls)
unfolding act
act-Exits F k sysconf m help options w comes = (refl, refl, refl)
act-Exits F k sysconf m error options w comes = (refl, refl, refl)
act-Exits F k sysconf m run options w comes =
    let w' : World = record w { calls = signal sigterm ∷ signal sigint ∷ w.calls } in
    let ticks = clock_ticks_of sysconf in
    let (ends, restores) = run_console_watch-restores F k ticks m options w' comes in
    (
      (_, run_console_watch-reported F k ticks m options w' comes),
      ends,
      restores ∙ (unfold held in refl),
    )

-- One signal ends the program, and its exit code says why. On every kernel, whichever of its calls fail,
-- where a signal comes behind the `m`-th call, the program returns for every command line, with what it
-- held before: with 0 or 2 and the usage alone where the command line asks for help or is refused, and
-- else as a watch does, with 1 behind a failure and with 0 behind an exit of the process or none.
pub main-Exits :
    (F : Float) (k : Kernel) (delivered : List Call → Bool) (sysconf : ℤ) (argv : List Text) (m : ℕ)
    (w : World)
    → ((h : List Call) → length h ≡ m → delivered h ≡ true)
    → let kernel = signalled k delivered in
      let r = main F kernel sysconf argv (suc m) w in
      Exits F (parse_command_line (drop 1 argv)).action r.0
      × (returned r.0 ≡ true)
      × (held kernel r.1.calls ≡ held kernel w.calls)
unfolding main
main-Exits F k delivered sysconf argv m w comes =
    let parsed : Parsed = parse_command_line (drop 1 argv) in
    act-Exits F (signalled k delivered) sysconf m parsed.action parsed.options w
      (λ h le. stop_flag-stays delivered m comes h le)
