-- ===== src/Session/Exit.antt =====
-- core/src/monitor/client.cpp, `stop`, and the next snapshot of core/src/monitor/watchdog.cpp.
use peepbooth.Base.{ℕ, ◌≡◌, sym, ap, ◌∙◌, some, true, arith, update, update_self}
use peepbooth.SharedState.{SharedState, clean_exit, lifecycle_raw}
use peepbooth.Base.Text.{take_while}
use peepbooth.Platform.Kernel.{World}
use peepbooth.Platform.SharedMemory.{move_assign, reset}
use peepbooth.Client.{Client, Memory, stop}
use peepbooth.Session.{Session, WatchdogSnapshot, snapshot, snapshot_of, breadcrumb_history}
use peepbooth.Session.Records.{snapshot-at}

stopped_record : SharedState → SharedState
stopped_record s = record s { process_lifecycle = lifecycle_raw clean_exit }

abbrev pub ended : WatchdogSnapshot → WatchdogSnapshot
ended seen = record seen { process_lifecycle = clean_exit }

stop-memory :
    (c : Client) (w : World) (a : ℕ)
    → c.built ≡ true
    → c.state ≡ some a
    → (stop c w).1.memory ≡ update w.memory a (stopped_record (w.memory a))
unfolding stop move_assign reset stopped_record
stop-memory c w a built at = grind (arith, built, at)

-- A producer that stops in order is seen to have done so. Where the client and a session have the
-- same record, the snapshot behind `stop` is the one before it with the lifecycle `clean_exit`: the
-- session goes on to read the record although its name is unlinked and the client's mapping gone.
pub stop-snapshot :
    (session : Session) (c : Client) (w : World) (a : ℕ)
    → session.mapping.state ≡ some a
    → c.built ≡ true
    → c.state ≡ some a
    → snapshot session (stop c w).1.memory ≡ ended (snapshot session w.memory)
unfolding snapshot_of stopped_record breadcrumb_history take_while
stop-snapshot session c w a attached built at =
    let s = w.memory a in
    let stopped = stopped_record s in
    snapshot-at session (stop c w).1.memory a attached
    ∙ ap (λ (m : Memory). snapshot_of (m a)) (stop-memory c w a built at)
    ∙ ap snapshot_of (update_self w.memory a stopped)
    ∙ sym (ap ended (snapshot-at session w.memory a attached))
