-- ===== src/Tests/Command.antt =====
-- The command line and the /proc parsers.
use peepbooth.Base.{◌*◌, ◌≡◌, ◌≢◌, refl, [], ◌∷◌, some, none, true, arith}
use peepbooth.Base.Text.{codes, text_eq, from_chars, scan_digits, starts_with}
use peepbooth.Base.Int.{pos}
use peepbooth.CommandLine.{
  run, help, error, parse_command_line, parse_loop, take_value, kind, from_chars_int, parse_int,
  parse_unsigned32, default_options,
}
use peepbooth.CommandLine.Bounds.{IsGood, parse_command_line-IsGood}
use peepbooth.ProcFile.{parse_proc_status, parse_proc_stat}
use peepbooth.CommandLine.RoundTrip.{command_line, parse-command_line}

command_line_runs :
    (parse_command_line (codes "--interval-ms" ∷ codes "49" ∷ [])
      ≡ record { action = error; options = record default_options { interval_ms = pos 49 } })
    × (parse_command_line (codes "--once" ∷ codes "-h" ∷ [])
        ≡ record { action = help; options = record default_options { once = true } })
    × (parse_command_line (codes "--pid" ∷ codes "7x" ∷ [])
        ≡ record { action = error; options = record default_options { pid = 7 } })
unfolding parse_command_line parse_loop take_value kind text_eq parse_int parse_unsigned32
    from_chars_int from_chars scan_digits
command_line_runs = (refl, refl, refl)

parse-command_line_example : parse_command_line (command_line 42 50 250 true) ≡ record {
  action = run;
  options = record { pid = 42; interval_ms = pos 50; stale_ms = pos 250; once = true };
}
parse-command_line_example =
    parse-command_line 42 50 250 true (omega arith) (omega arith) (omega arith) (omega arith)
      (omega arith) (omega arith)

parse_command_line-IsGood_example :
    IsGood (parse_command_line (command_line 42 50 250 true)).options
    × ((parse_command_line (command_line 42 50 250 true)).options.pid ≢ 0)
parse_command_line-IsGood_example =
    parse_command_line-IsGood (command_line 42 50 250 true) (rw parse-command_line_example)

status_runs :
    (parse_proc_status (codes "Name:\ttest\nVmHWM:\t4096 kB\nVmRSS:\t2048 kB\nVmSwap:\t16 kB\n")
      ≡ some (record {
        rss_bytes = 2048 * 1024;
        high_water_bytes = 4096 * 1024;
        swap_bytes = 16 * 1024;
      }))
    × (parse_proc_status (codes "Name:\ttest\n") ≡ none)
unfolding parse_proc_status starts_with from_chars scan_digits
status_runs = (refl, refl)

stat_run :
    parse_proc_stat (codes "42 (a) b) S 1 2 3 4 5 6 7 8 9 10 11 12 13 14 15 16 17 18 190 20")
    ≡ some (record { cpu_ticks = 23; start_ticks = 190 })
unfolding parse_proc_stat from_chars scan_digits
stat_run = refl
