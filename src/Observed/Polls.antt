-- ===== src/Observed/Polls.antt =====
-- core/src/monitor/observed_process.cpp, `poll`, over the system calls and the shared records.
use peepbooth.Base.{ℕ, ◌≡◌, ◌≢◌, refl, none, some, Bool, true, false, arith, ◌∙◌, ap, if◌then◌else◌}
use peepbooth.Float.{Float}
use peepbooth.Platform.Kernel.{Kernel, World, M}
use peepbooth.Platform.ProcessWatch
use peepbooth.Platform.ProcessWatch.{sample_process, read_process_identity}
use peepbooth.Session.{Session, snapshot, renew_lease, default_watcher_lease_ns, valid}
use peepbooth.Observed.{Observer, exited, accept_sample, alive, poll, poll_session, poll_unattached}

sample_process-memory :
    (k : Kernel) (pid : ℕ) (w : World) → (sample_process k pid w).1.memory ≡ w.memory
unfolding sample_process
sample_process-memory k pid w = grind arith

alive-memory :
    (F : Float) (k : Kernel) (o : Observer F) (w : World) → (alive F k o w).1.memory ≡ w.memory
unfolding alive ProcessWatch.alive read_process_identity
alive-memory F k o w = grind arith

accept_sample-status :
    (F : Float) (o : Observer F) (sample : _) (watchdog : _) (now : ℕ)
    → (accept_sample F o sample watchdog now).latest.status ≢ exited
unfolding accept_sample
accept_sample-status F o none watchdog now = ground arith
accept_sample-status F o (some sample) watchdog now = ground arith

pub poll-attached :
    (F : Float) (k : Kernel) (o : Observer F) (session : Session) (w : World)
    → o.session ≡ some session
    → valid session ≡ true
    → poll F k o w ≡ poll_session F k o session w
unfolding poll
poll-attached F k o session w attached good =
    ap
      (λ x.
        (elim x as (λ _. M (Observer F)) [
          | none ↦ poll_unattached F k o
          | some s ↦ if valid s then poll_session F k o s else poll_unattached F k o
        ])
          w)
      attached
    ∙ ap (λ b. (if b then poll_session F k o session else poll_unattached F k o) w) good

-- What is left by a look that found the process dead, or alive.
abbrev pub Left : (F : Float) → Bool → Observer F → Session → World → Observer F → World → Type 0
Left F false o session w o' w' =
    (o'.latest.status ≡ exited)
    × (o'.latest.responsiveness ≡ none)
    × (o'.memory ≡ o.memory)
    × (w'.memory ≡ w.memory)
Left F true o session w o' w' =
    (o'.latest.status ≢ exited)
    × (w'.memory ≡ renew_lease session o'.latest.observed_at_ns default_watcher_lease_ns w.memory)

poll_session-Left :
    (F : Float) (k : Kernel) (o : Observer F) (session : Session) (w : World) (living : Bool)
    → (alive F k o (sample_process k o.process.identity.pid w).1).0 ≡ living
    → Left F living o session w (poll_session F k o session w).0 (poll_session F k o session w).1
unfolding poll_session accept_sample
poll_session-Left F k o session w false dead = grind (
  arith,
  dead,
  sample_process-memory k o.process.identity.pid w,
  alive-memory F k o (sample_process k o.process.identity.pid w).1,
)
poll_session-Left F k o session w true living = grind (
  arith,
  living,
  sample_process-memory k o.process.identity.pid w,
  alive-memory F k o (sample_process k o.process.identity.pid w).1,
)

poll_session-watchdog :
    (F : Float) (k : Kernel) (o : Observer F) (session : Session) (w : World)
    → (poll_session F k o session w).0.latest.watchdog ≡ snapshot session w.memory
unfolding poll_session accept_sample
poll_session-watchdog F k o session w =
    grind (arith, sample_process-memory k o.process.identity.pid w)

-- What a look at an attached process does. The observation shows the shared record as it was found.
-- If the process is no longer alive after the sample was taken, the observation says so and has no
-- verdict, and the trend and the shared memory stay as they are. If it is alive, the observation does
-- not say that it has exited, and the lease in the shared record is renewed from the time of the
-- observation, and nothing else in the shared memory is changed.
pub poll-effects :
    (F : Float) (k : Kernel) (o : Observer F) (session : Session) (w : World)
    → o.session ≡ some session
    → valid session ≡ true
    → (let r = poll F k o w in
        let living = (alive F k o (sample_process k o.process.identity.pid w).1).0 in
        (r.0.latest.watchdog ≡ snapshot session w.memory) × Left F living o session w r.0 r.1)
poll-effects F k o session w attached good =
    rw (poll-attached F k o session w attached good)
      (poll_session-watchdog F k o session w, poll_session-Left F k o session w _ refl)
