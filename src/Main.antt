-- ===== src/Main.antt =====
-- core/src/main.cpp: the program as a whole, with the flag that its signal handler sets.
pub mod Exits
use peepbooth.Base.{ℕ, List, [], ◌∷◌, drop, Option, some, Bool, true, false, if◌then◌else◌}
use peepbooth.Base.Text.{Text}
use peepbooth.Base.Int.{ℤ}
use peepbooth.Float.{Float}
use peepbooth.Platform.Kernel.{Kernel, Call, M, ◌>>=◌, ◌>>◌, pure, run_call, signal}
use peepbooth.Platform.ProcessWatch.{clock_ticks_of}
use peepbooth.CommandLine.{Parsed, Action, Options, run, help, error, parse_command_line}
use peepbooth.Console.{Report, usage, run_console_watch}

abbrev pub handle_signal : Bool → Bool
handle_signal flag = true

-- `stop_requested` by the calls made so far, the newest first. `delivered` says whether a signal comes
-- behind the newest of some calls.
unfoldable pub stop_flag : (List Call → Bool) → List Call → Bool
stop_flag delivered [] = if delivered [] then handle_signal false else false
stop_flag delivered (c ∷ h) =
    let flag = stop_flag delivered h in if delivered (c ∷ h) then handle_signal flag else flag

-- A kernel whose looks at the flag find what the handler has made of it.
abbrev pub signalled : Kernel → (List Call → Bool) → Kernel
signalled k delivered = record k { stopped = λ h. stop_flag delivered h }

abbrev pub sigint : ℕ
sigint = 2

abbrev pub sigterm : ℕ
sigterm = 15

module _ (F : Float) (k : Kernel) where
  -- Behind the parse: the usage alone, or a watch with the handler in place. `sysconf` is what that call
  -- returns for `_SC_CLK_TCK`.
  unfoldable pub act : ℤ → ℕ → Action → Options → M (Option (ℕ × List (Report F)))
  act sysconf fuel help options = pure (some (0, usage ∷ []))
  act sysconf fuel error options = pure (some (2, usage ∷ []))
  act sysconf fuel run options = do
    run_call (signal sigint)
    run_call (signal sigterm)
    run_console_watch F k (clock_ticks_of sysconf) options fuel

  -- `main` on its `argv`.
  unfoldable pub main : ℤ → List Text → ℕ → M (Option (ℕ × List (Report F)))
  unfolding act
  main sysconf argv fuel =
      let parsed : Parsed = parse_command_line (drop 1 argv) in
      act sysconf fuel parsed.action parsed.options
