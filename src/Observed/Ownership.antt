-- ===== src/Observed/Ownership.antt =====
-- core/src/monitor/observed_process.cpp: what the observed process takes of the kernel with each of its
-- operations.
use peepbooth.Base.{ℕ, ◌≡◌, sym, ap, ◌∙◌, List, Option, some, none, Bool, true, arith}
use peepbooth.Float.{Float}
use peepbooth.Platform.Kernel.{Kernel, World}
use peepbooth.Platform.ProcessWatch
use peepbooth.Platform.ProcessWatch.{
  ProcessHandle, close_handle, sample_process, read_process_identity,
}
use peepbooth.Platform.Resources.{Resource, held, gained, open_file}
use peepbooth.Session
use peepbooth.Session.{Session, valid}
use peepbooth.Session.Ownership.{session_owned, attach-held}
use peepbooth.Observed.{Observer, poll, alive, wait_for_exit, try_attach, accept_sample}

abbrev pub handle_owned : ProcessHandle → List Resource → List Resource
handle_owned p rest = gained open_file p.pid_descriptor rest

abbrev pub handle_owned_if : Option ProcessHandle → List Resource → List Resource
handle_owned_if none rest = rest
handle_owned_if (some p) rest = handle_owned p rest

pub process_attach-held :
    (k : Kernel) (pid : ℕ) (w : World)
    → held k (ProcessWatch.attach k pid w).1.calls
      ≡ handle_owned_if (ProcessWatch.attach k pid w).0 (held k w.calls)
unfolding ProcessWatch.attach read_process_identity held
process_attach-held k pid w = grind arith

-- No session, or a session that has a record.
abbrev pub session_ok : Option Session → Bool
session_ok none = true
session_ok (some session) = valid session

module _ (F : Float) (k : Kernel) where
  handle_alive-held :
      (p : ProcessHandle) (w : World) → held k (ProcessWatch.alive k p w).1.calls ≡ held k w.calls
  unfolding ProcessWatch.alive read_process_identity held
  handle_alive-held p w = grind arith

  pub alive-held : (o : Observer F) (w : World) → held k (alive F k o w).1.calls ≡ held k w.calls
  unfolding alive ProcessWatch.alive read_process_identity held
  alive-held o w = grind arith

  pub wait_for_exit-held :
      (o : Observer F) (timeout : ℕ) (w : World)
      → held k (wait_for_exit F k o timeout w).1.calls ≡ held k w.calls
  unfolding wait_for_exit ProcessWatch.wait_for_exit ProcessWatch.alive read_process_identity held
  wait_for_exit-held o timeout w = grind arith

  poll-held : (o : Observer F) (w : World) → held k (poll F k o w).1.calls ≡ held k w.calls
  unfolding poll alive ProcessWatch.alive sample_process read_process_identity held
  poll-held o w = grind arith

  pub poll-session : (o : Observer F) (w : World) → (poll F k o w).0.session ≡ o.session
  unfolding poll accept_sample
  poll-session o w = grind arith

  pub poll-process : (o : Observer F) (w : World) → (poll F k o w).0.process ≡ o.process
  unfolding poll accept_sample
  poll-process o w = grind arith

  abbrev pub observer_owned : Observer F → List Resource → List Resource
  observer_owned o rest = session_owned o.session (handle_owned o.process rest)

  -- What is held is what the observer owns, over the rest.
  abbrev pub Owns : List Resource → Observer F → World → Type 0
  Owns rest o w = (held k w.calls ≡ observer_owned o rest) × (session_ok o.session ≡ true)

  pub attach-valid : (identity : _) (w : World) → session_ok (Session.attach k identity w).0 ≡ true
  unfolding Session.attach valid
  attach-valid identity w = grind arith

  try_attach-from :
      (rest : List Resource) (o : Observer F) (session : Option Session) (w : World)
      → (let before = record o { session = session } in
          Owns rest before w → Owns rest (try_attach F k before w).0.1 (try_attach F k before w).1)
  unfolding try_attach
  try_attach-from rest o none w owns =
      let w' = (ProcessWatch.alive k o.process w).1 in
      (
        grind (arith, owns.0, handle_alive-held o.process w, attach-held k o.process.identity w'),
        grind (arith, attach-valid o.process.identity w'),
      )
  try_attach-from rest o (some session) w (owns, good) = rw (good, try_attach) (owns, good)

  pub try_attach-Owns :
      (rest : List Resource) (o : Observer F) (w : World)
      → Owns rest o w
      → Owns rest (try_attach F k o w).0.1 (try_attach F k o w).1
  try_attach-Owns rest o w owns = try_attach-from rest o o.session w owns

  -- Calls that hold nothing and take nothing.
  pub same-Owns :
      (rest : List Resource) (o : Observer F) (w w' : World)
      → held k w'.calls ≡ held k w.calls
      → Owns rest o w
      → Owns rest o w'
  same-Owns rest o w w' e owns = (e ∙ owns.0, owns.1)

  pub poll-Owns :
      (rest : List Resource) (o : Observer F) (w : World)
      → Owns rest o w
      → Owns rest (poll F k o w).0 (poll F k o w).1
  poll-Owns rest o w owns = (
    poll-held o w
        ∙ owns.0
        ∙ sym (
            ap (λ s. session_owned s (handle_owned (poll F k o w).0.process rest))
              (poll-session o w)
            ∙ ap (λ p. session_owned o.session (handle_owned p rest)) (poll-process o w)),
    ap session_ok (poll-session o w) ∙ owns.1,
  )
