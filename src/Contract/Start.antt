-- ===== src/Contract/Start.antt =====
-- The board of a producer that has just started and of a watcher that has just attached:
-- core/src/monitor/client.cpp, `start`, and core/src/monitor/watchdog.cpp, `watchdog_session::attach`.
use peepbooth.Base.{
  ℕ, ◌+◌, ◌-◌, ◌%◌, ◌<◌, ◌≡◌, refl, sym, ap, ◌∙◌, subst, List, [], ◌∷◌, Option, some, none, true,
  false, take, length, arith,
}
use peepbooth.Base.Text.{Text}
use peepbooth.Base.Lines.{all_in}
use peepbooth.SharedState.{Lifecycle, u64_mod, process_name_capacity}
use peepbooth.ProcFile.{ProcessIdentity}
use peepbooth.Platform.Kernel.{Kernel, World, clock}
use peepbooth.Platform.SharedMemory.{
  created_state, create_process_mapping, open_process_mapping, move_assign,
}
use peepbooth.Platform.ProcessWatch.{read_process_identity}
use peepbooth.Client.{Client, Memory, start}
use peepbooth.Session.{Session, attach, renew_lease, snapshot, default_watcher_lease_ns}
use peepbooth.Session.Handshake.{in_c_string, copied_name-read}
use peepbooth.Contract.{Board, Request, renew, run_board, seen, run_requests, run_request}
use peepbooth.Contract.Shown.{Shows}
use peepbooth.Contract.Refines.{AllAllowed, run_requests-seen}

-- No watcher, no heartbeat and no breadcrumb yet.
abbrev pub new_board : Text → Board
new_board process_name = record {
  process_name = take (process_name_capacity - 1) process_name;
  process_lifecycle = Lifecycle.running;
  watched = false;
  lease_until = 0;
  next = λ _. 0;
  channels = λ _. record { active = false; time = 0; number = 0 };
  log = [];
}

pub created_state-Shows :
    (k : Kernel) (process_name : Text) (identity : Option ProcessIdentity) (c : Client)
    → all_in in_c_string process_name ≡ true
    → c.next_heartbeat_ns ≡ (λ _. 0)
    → Shows (new_board process_name) c (created_state k process_name identity)
unfolding created_state
created_state-Shows k process_name identity c clean unclaimed = record {
  watched = refl;
  name = copied_name-read k process_name clean;
  lifecycle = refl;
  lease = refl;
  throttle = λ i. ap (λ (f : ℕ → ℕ). f i) unclaimed;
  pulses = λ i. record { flag = refl; stamp = refl; count = refl };
  logged = record { counted = refl; held = λ ticket recent. absurd (omega arith) };
}

-- A record but for its start time, which is the one that is in it.
start-created :
    (k : Kernel) (c : Client) (process_name : Text) (w : World) (a : ℕ)
    → c.state ≡ none
    → (start k c process_name w).0.1.state ≡ some a
    → let s = (start k c process_name w).1.memory a in
      s
      ≡ created_state k process_name
          (some (record { pid = 0; start_ticks = s.process_start_ticks }))
unfolding start create_process_mapping read_process_identity move_assign created_state
start-created k c process_name w a new at = grind (arith, new, at)

-- When the watcher read the clock.
abbrev pub attached_at : Kernel → ProcessIdentity → World → ℕ
attached_at k identity w =
    k.monotonic (clock ∷ (open_process_mapping k identity.pid w).1.calls) % u64_mod

attach-renewed :
    (k : Kernel) (identity : ProcessIdentity) (session : Session) (w : World)
    → (attach k identity w).0 ≡ some session
    → (attach k identity w).1.memory
      ≡ renew_lease session (attached_at k identity w) default_watcher_lease_ns w.memory
unfolding attach open_process_mapping
attach-renewed k identity session w done = grind (arith, done)

start-throttle :
    (k : Kernel) (c : Client) (process_name : Text) (w : World)
    → (start k c process_name w).0.1.next_heartbeat_ns ≡ c.next_heartbeat_ns
unfolding start
start-throttle k c process_name w = grind arith

-- From the start on, the watcher sees the board. A new client of a build with the instrumentation starts
-- under a name without a zero byte, on any kernel that gives it a record; a watcher, on any kernel of
-- its own, attaches to a process and gets the same record. Then after any sequence of heartbeats, switches
-- of channels, breadcrumbs and renewals, where every clock reading is more than half a second from its
-- end and every breadcrumb's numbers fit 16 bits, a snapshot shows what the empty board under that name
-- has after the watcher's first renewal and the same requests.
pub start-attach-seen :
    (k kw : Kernel) (c : Client) (process_name : Text) (identity : ProcessIdentity)
    (session : Session) (a : ℕ) (requests : List Request) (w : World)
    → c.state ≡ none
    → c.next_heartbeat_ns ≡ (λ _. 0)
    → all_in in_c_string process_name ≡ true
    → (start k c process_name w).0.1.state ≡ some a
    → (attach kw identity (start k c process_name w).1).0 ≡ some session
    → session.mapping.state ≡ some a
    → AllAllowed requests
    → length requests + 2 < u64_mod
    → let started = start k c process_name w in
      let attached = attach kw identity started.1 in
      let first = renew (attached_at kw identity started.1) default_watcher_lease_ns in
      snapshot session (run_requests session requests (started.0.1, attached.1.memory)).1
      ≡ seen (run_board (first ∷ requests) (new_board process_name))
unfolding run_requests run_request
start-attach-seen k kw c process_name identity session a requests w new unclaimed clean at done same
      ok small =
    let started = start k c process_name w in
    let now = attached_at kw identity started.1 in
    let shows : Shows (new_board process_name) started.0.1 (started.1.memory a) =
      subst (Shows (new_board process_name) started.0.1)
        (sym (start-created k c process_name w a new at))
        (created_state-Shows k process_name _ started.0.1 clean
          (start-throttle k c process_name w ∙ unclaimed)) in
    ap (λ (m : Memory). snapshot session (run_requests session requests (started.0.1, m)).1)
      (attach-renewed kw identity session started.1 done)
    ∙ run_requests-seen session a (renew now default_watcher_lease_ns ∷ requests)
        (new_board process_name) started.0.1 started.1.memory same at shows (omega arith, ok)
        (omega arith)
