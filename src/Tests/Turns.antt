-- ===== src/Tests/Turns.antt =====
-- Looks at the producer and its calls in turn.
use peepbooth.Platform.ProcessWatch
use peepbooth.Base.{leb, ◌<◌, ◌≡◌, refl, List, [], ◌∷◌, some, false, arith, ℕ_discrete, length}
use peepbooth.Base.Text.{codes, scan_digits}
use peepbooth.SharedState.{Channel, channel_index}
use peepbooth.ProcFile.{parse_proc_stat, parse_proc_status}
use peepbooth.Session.{valid, snapshot, renew_lease}
use peepbooth.Client.{heartbeat, breadcrumb}
use peepbooth.Platform.ProcessWatch.{alive, sample_process}
use peepbooth.Observed.{Observer, Observation, sampled, poll}
use peepbooth.Health.{healthy, classify_health}
use peepbooth.Platform.Kernel.{Kernel}
use peepbooth.Contract.{beat, leave, renew, run_board, run_request, seen}
use peepbooth.Contract.Polls.{
  Turn, ask, look, take_turn, take_turns, replay, requests_of, last_look,
}
use peepbooth.Contract.Refines.{AllAllowed}
use peepbooth.Contract.Polls.Seen.{poll-seen}
use peepbooth.Contract.Polls.Judged.{says_stalled, poll-working}
use peepbooth.Tests.Data.{whole, observer, loaded}
use peepbooth.Tests.System.{granting, quiet_world, self}
use peepbooth.Tests.Contract.{board, mapped, watching, shown}

-- One text that reads as the stat file of process 42 and as its status file.
abbrev pub both_files : Kernel
both_files = record granting {
  contents = λ _.
      some (codes "42 (a) S 1 2 3 4 5 6 7 8 9 10 11 12 13 14 15 16 17 18 190 20\nVmRSS:\t700 kB\n");
}

abbrev pub looking : Observer whole
looking = record observer {
  process = record { identity = self; pid_descriptor = some 3 };
  session = some watching;
  stale_after_ns = 100;
}

abbrev turns : List Turn
turns = ask (beat Channel.gui 400 0) ∷ look ∷ ask (leave loaded) ∷ []

-- The look in between finds the process alive.
replay_run :
    replay whole both_files watching turns (looking, mapped, quiet_world)
    ≡ beat Channel.gui 400 0 ∷ renew 500 3_000_000_000 ∷ leave loaded ∷ []
unfolding replay requests_of poll take_turn valid alive parse_proc_stat scan_digits sample_process
    parse_proc_status
replay_run = refl

abbrev later_look : Observation whole
later_look = last_look whole both_files watching turns (looking, mapped, quiet_world)

-- The look behind them has a verdict.
last_look_run : (later_look.status ≡ sampled) × (later_look.responsiveness ≡ some healthy)
unfolding poll take_turns take_turn valid alive parse_proc_stat scan_digits sample_process
    parse_proc_status classify_health snapshot run_request breadcrumb heartbeat ℕ_discrete
    renew_lease
last_look_run = (refl, refl)

allowed : AllAllowed (replay whole both_files watching turns (looking, mapped, quiet_world))
allowed = rw replay_run (omega arith, (omega arith, ((omega arith, omega arith), tt)))

few : length (replay whole both_files watching turns (looking, mapped, quiet_world)) < 4
few = rw replay_run (omega arith)

looked_at : later_look.observed_at_ns ≡ 500
unfolding poll take_turns take_turn valid alive parse_proc_stat scan_digits sample_process
    parse_proc_status
looked_at = refl

poll-seen_example :
    later_look.watchdog
    ≡ seen (run_board (replay whole both_files watching turns (looking, mapped, quiet_world)) board)
unfolding valid
poll-seen_example =
    poll-seen whole both_files watching turns 4096 board looking mapped quiet_world refl refl refl
      refl shown allowed (omega (arith, few))

poll-working_example : says_stalled later_look.responsiveness ≡ false
unfolding valid channel_index
poll-working_example =
    poll-working whole both_files watching Channel.gui 400 0 (look ∷ ask (leave loaded) ∷ []) 4096
      board looking mapped quiet_world refl refl refl refl shown refl (omega arith) (omega arith)
      (omega arith) (omega arith) allowed (rw replay_run (omega arith, (tt, (tt, tt))))
      (omega (arith, few)) (omega (arith, looked_at))

-- The signal comes when forty calls have been made.
abbrev signalled_late : Kernel
signalled_late = record both_files { stopped = λ h. leb 40 (length h) }
