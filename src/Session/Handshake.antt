-- ===== src/Session/Handshake.antt =====
-- core/src/monitor/platform/shared_memory.cpp, `create_process_mapping`, against `valid_state` and
-- `snapshot` of core/src/monitor/watchdog.cpp: what a watcher makes of a record that is new.
use Prim.Native.Nat.{min}
use peepbooth.Base.{
  ℕ, zero, suc, ◌-◌, ◌≡◌, refl, ap, ◌∙◌, [], ◌∷◌, ◌++◌, Option, some, Bool, true, not, ◌==◌, length,
  take, replicate, arith,
}
use peepbooth.Base.Text.{Text, take_while}
use peepbooth.Base.Lines.{all_in}
use peepbooth.SharedState.{process_name_capacity, Lifecycle}
use peepbooth.Float.{Float}
use peepbooth.Health.{classify_health, awaiting_heartbeat}
use peepbooth.Platform.Kernel.{Kernel}
use peepbooth.Platform.SharedMemory.{created_state, copied_name}
use peepbooth.ProcFile.{ProcessIdentity}
use peepbooth.Session.{
  valid_state, snapshot_of, heartbeat_snapshots, read_heartbeat, attempt_result, breadcrumb_history,
  read_tickets,
}
use peepbooth.Observed.{same_process}

-- The record of a process is taken for that process and for no other. A record that a producer of
-- the same user has made, having read its own identity, passes the watcher's check against exactly the
-- identities that are the producer's, in process number and start time.
pub created_state-valid_state :
    (k : Kernel) (process_name : Text) (i j : ProcessIdentity)
    → i.pid ≡ k.process_id
    → valid_state k.user_id (created_state k process_name (some i)) j ≡ same_process i j
unfolding valid_state created_state
created_state-valid_state k process_name i j self = grind arith

-- A byte that does not end a name.
abbrev pub in_c_string : ℕ → Bool
in_c_string c = not (c == 0)

all_in-take :
    (p : ℕ → Bool) (n : ℕ) (text : Text) → all_in p text ≡ true → all_in p (take n text) ≡ true
all_in-take p zero text h = refl
all_in-take p (suc n) [] h = refl
all_in-take p (suc n) (c ∷ text) h = ground (arith, h, all_in-take p n text)

take_while-padded :
    (text : Text) (n : ℕ)
    → all_in in_c_string text ≡ true
    → take_while in_c_string (text ++ replicate (suc n) 0) ≡ text
unfolding take_while
take_while-padded [] n h = refl
take_while-padded (c ∷ text) n h = ground (arith, h, take_while-padded text n)

take-min : (n : ℕ) (xs : Text) → take (min (length xs) n) xs ≡ take n xs
take-min zero [] = refl
take-min zero (x ∷ xs) =
    let none_left : min (suc (length xs)) 0 ≡ 0 = omega arith in
    ap (λ (n : ℕ). take n (x ∷ xs)) none_left
take-min (suc n) [] =
    let none_left : min 0 (suc n) ≡ 0 = omega arith in ap (λ (m : ℕ). take m []) none_left
take-min (suc n) (x ∷ xs) =
    let one_more : min (suc (length xs)) (suc n) ≡ suc (min (length xs) n) = omega arith in
    ap (λ (m : ℕ). take m (x ∷ xs)) one_more ∙ ap (λ (ys : Text). x ∷ ys) (take-min n xs)

-- The name goes through the record.
pub copied_name-read :
    (k : Kernel) (name : Text)
    → all_in in_c_string name ≡ true
    → take_while in_c_string (copied_name k name) ≡ take (process_name_capacity - 1) name
unfolding copied_name
copied_name-read k name h =
    let copied = min (length name) (process_name_capacity - 1) in
    let ends : process_name_capacity - copied ≡ suc (process_name_capacity - 1 - copied) =
      omega arith in
    ap (λ (n : ℕ). take_while in_c_string (take copied name ++ replicate n 0)) ends
    ∙ take_while-padded (take copied name) (process_name_capacity - 1 - copied)
        (all_in-take in_c_string copied name h)
    ∙ take-min (process_name_capacity - 1) name

-- A new producer is shown as it is. Where the name has no zero byte, the snapshot of a record that
-- was just made shows the first 31 bytes of the name, a process that runs, and no breadcrumb, and the
-- verdict on it is at any time that the first heartbeat is awaited.
pub created_state-snapshot :
    (F : Float) (k : Kernel) (name : Text) (identity : Option ProcessIdentity) (now stale_after : ℕ)
    (cpu : F.Double)
    → all_in in_c_string name ≡ true
    → let seen = snapshot_of (created_state k name identity) in
      (seen.process_name ≡ take 31 name)
      × (seen.process_lifecycle ≡ Lifecycle.running)
      × (seen.breadcrumbs ≡ [])
      × (classify_health F seen now stale_after cpu ≡ awaiting_heartbeat)
unfolding created_state snapshot_of heartbeat_snapshots read_heartbeat attempt_result
    breadcrumb_history classify_health read_tickets
created_state-snapshot F k name identity now stale_after cpu h =
    (copied_name-read k name h, refl, refl, refl)
