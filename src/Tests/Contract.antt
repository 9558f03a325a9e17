-- ===== src/Tests/Contract.antt =====
-- Runs of producer and watcher against the board.
use peepbooth.Base.{
  ℕ_discrete, ◌==◌, Bool, ◌≡◌, refl, List, [], ◌∷◌, some, true, false, arith, length,
}
use peepbooth.Base.Text.{codes, take_while, from_chars, scan_digits, text_eq}
use peepbooth.SharedState.{channel_index, Channel, Lifecycle}
use peepbooth.Platform.Kernel.{Call}
use peepbooth.Base.Int.{pos}
use peepbooth.Platform.SharedMemory.{shared_memory_name}
use peepbooth.Console.{usage}
use peepbooth.Platform.Resources.{held}
use peepbooth.ProcFile.{parse_proc_stat}
use peepbooth.Client.{Client, Memory, start}
use peepbooth.Session.{Session, attach, snapshot, valid_state, default_watcher_lease_ns}
use peepbooth.Contract.{Board, Request, beat, switch, leave, renew, run_board, seen, run_requests}
use peepbooth.Contract.Shown.{Shows}
use peepbooth.Contract.Refines.{run_requests-seen}
use peepbooth.Contract.Start.{new_board, attached_at, start-attach-seen}
use peepbooth.CommandLine.{parse_command_line, parse_loop, kind}
use peepbooth.Console.Ends.{returned}
use peepbooth.Main.{main, signalled}
use peepbooth.Main.Exits.{Exits, main-Exits}
use peepbooth.Tests.Data.{whole, producer, leased, loaded, started}
use peepbooth.Tests.System.{granting, quiet_world, self}

abbrev pub board : Board
board = record {
  process_name = [];
  process_lifecycle = Lifecycle.starting;
  watched = true;
  lease_until = 1000;
  next = λ _. 0;
  channels = λ _. record { active = false; time = 0; number = 0 };
  log = [];
}

abbrev pub mapped : Client
mapped = record producer { state = some 4096 }

abbrev pub watching : Session
watching = record { mapping = record producer.mapping { state = some 4096 } }

abbrev pub memory : Memory
memory = λ _. leased

pub shown : Shows board mapped leased
unfolding take_while
shown = record {
  watched = refl;
  name = refl;
  lifecycle = refl;
  lease = refl;
  throttle = λ i. refl;
  pulses = λ i. record { flag = refl; stamp = refl; count = refl };
  logged = record { counted = refl; held = λ ticket recent. absurd (omega arith) };
}

-- The second heartbeat comes too early, and the last breadcrumb behind the end of the lease.
abbrev requests : List Request
requests =
    beat Channel.gui 700 1
    ∷ leave loaded
    ∷ renew 900 5_000_000_000
    ∷ beat Channel.gui 1000 0
    ∷ switch Channel.core true 2000 2
    ∷ switch Channel.gui false 3000 0
    ∷ leave (record started { timestamp_ns = 6_000_000_000 })
    ∷ []

run_requests-seen_example :
    snapshot watching (run_requests watching requests (mapped, memory)).1
    ≡ seen (run_board requests board)
run_requests-seen_example =
    run_requests-seen watching 4096 requests board mapped memory refl refl shown
      (
        omega arith,
        (
          (omega arith, omega arith),
          (
            omega arith,
            (omega arith, (omega arith, (omega arith, ((omega arith, omega arith), tt)))),
          ),
        ),
      )
      (omega arith)

-- The GUI has beaten once, is off, and the late entry was not taken.
board_run :
    (((run_board requests board).channels 1).number ≡ 1)
    × (((run_board requests board).channels 1).active ≡ false)
    × (((run_board requests board).channels 2).time ≡ 2000)
    × ((run_board requests board).log ≡ loaded ∷ [])
unfolding channel_index ℕ_discrete
board_run = (refl, refl, refl, refl)

-- The session that attaches to the producer's segment.
abbrev joined : Session
joined = record {
  mapping = record {
    state = some 4096;
    descriptor = some 3;
    owner = false;
    name = shared_memory_name granting 42;
  };
}

joined-attach :
    (attach granting self (start granting producer (codes "sample") quiet_world).1).0 ≡ some joined
unfolding attach start valid_state parse_proc_stat from_chars scan_digits ℕ_discrete
joined-attach = refl

started_at : (start granting producer (codes "sample") quiet_world).0.1.state ≡ some 4096
unfolding start
started_at = refl

start-attach-seen_example :
    let from_start = start granting producer (codes "sample") quiet_world in
    let attached = attach granting self from_start.1 in
    let first = renew (attached_at granting self from_start.1) default_watcher_lease_ns in
    snapshot joined
      (run_requests joined (beat Channel.gui 700 0 ∷ []) (from_start.0.1, attached.1.memory)).1
    ≡ seen (run_board (first ∷ beat Channel.gui 700 0 ∷ []) (new_board (codes "sample")))
start-attach-seen_example =
    start-attach-seen granting granting producer (codes "sample") self joined 4096
      (beat Channel.gui 700 0 ∷ []) quiet_world refl refl refl started_at joined-attach refl
      (omega arith, tt) (omega arith)

abbrev third : List Call → Bool
third h = length h == 3

-- A watch that the signal behind the third call ends.
main-Exits_example :
    let kernel = signalled granting third in
    let argv = codes "monitor" ∷ codes "--pid" ∷ codes "42" ∷ [] in
    let r = main whole kernel (pos 100) argv 4 quiet_world in
    Exits whole (parse_command_line (codes "--pid" ∷ codes "42" ∷ [])).action r.0
    × (returned r.0 ≡ true)
    × (held kernel r.1.calls ≡ held kernel [])
main-Exits_example =
    main-Exits whole granting third (pos 100) (codes "monitor" ∷ codes "--pid" ∷ codes "42" ∷ []) 3
      quiet_world (λ h e. ground (arith, e))

refused_run :
    (main whole granting (pos 100) (codes "monitor" ∷ codes "--pid" ∷ []) 1 quiet_world).0
    ≡ some (2, usage ∷ [])
unfolding main parse_command_line text_eq parse_loop kind
refused_run = refl
