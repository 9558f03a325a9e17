-- ===== src/Tests/Console.antt =====
-- The console's lines and the run of the watch as a whole.
use peepbooth.Base.{◌≡◌, refl, [], ◌∷◌, some, true, le→leb, length}
use peepbooth.Base.Text.{codes, to_string}
use peepbooth.Base.Lines.{to_string-in_line}
use peepbooth.Health.{gui_stalled, health_name, channel_name}
use peepbooth.Observed.{Observation, sampled}
use peepbooth.CommandLine.{default_options}
use peepbooth.Platform.Resources.{held}
use peepbooth.Console.{run_console_watch}
use peepbooth.Console.Print.{write_console_observation}
use peepbooth.Console.Lines.{LinesOf, PrintsPlain, write_console_observation-LinesOf}
use peepbooth.Console.Ends.{returned}
use peepbooth.Console.Ownership.{run_console_watch-restores}
use peepbooth.Tests.Data.{whole, stalled_gui, loaded, observer, sample_at, watched_process}
use peepbooth.Tests.System.{interrupted, quiet_world}

abbrev seen : Observation whole
seen = record observer.latest {
  identity = watched_process;
  observed_at_ns = 1000;
  status = sampled;
  sample = some (sample_at 42 900 4096);
  watchdog = record stalled_gui { breadcrumbs = loaded ∷ [] };
  responsiveness = some gui_stalled;
}

prints : PrintsPlain whole
prints sign digits n = to_string-in_line n

write_console_observation-LinesOf_example : LinesOf 3 (write_console_observation whole seen)
write_console_observation-LinesOf_example =
    write_console_observation-LinesOf whole prints seen (sample_at 42 900 4096) gui_stalled refl
      refl refl refl

-- The process's line and the one of its heartbeats.
print_run :
    write_console_observation whole
      (record seen { watchdog = record seen.watchdog { breadcrumbs = [] } })
    ≡ codes
        "sample[42] state=GUI_STALLED cpu=0% rss=0MiB hwm=0MiB swap=0MiB\n  heartbeat: gui=0s core=0s\n"
unfolding write_console_observation observer to_string health_name channel_name
print_run = refl

run_console_watch-restores_example :
    let r =
      run_console_watch whole interrupted 100 (record default_options { pid = 42 }) 4 quiet_world in
    (returned r.0 ≡ true) × (held interrupted r.1.calls ≡ held interrupted [])
run_console_watch-restores_example =
    run_console_watch-restores whole interrupted 100 3 (record default_options { pid = 42 })
      quiet_world (λ h le. le→leb 3 (length h) le)
