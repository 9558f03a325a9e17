-- ===== src/Client/Process.antt =====
-- core/include/monitor/client.hpp, the inline functions on the client of the process, and
-- core/src/monitor/client.cpp, `client::process`. The function-local static is an option that is
-- `none` until the first call of `process`. `instrumented` is `instrumentation_enabled`, which the
-- build sets.
use peepbooth.Base.{ℕ, ◌≡◌, refl, List, [], ◌∷◌, Option, none, some, Bool, true, false, arith}
use peepbooth.Base.Text.{Text}
use peepbooth.SharedState.{Channel, Event, Breadcrumb}
use peepbooth.Platform.Kernel.{Kernel, World, M, ◌>>=◌, pure}
use peepbooth.Platform.SharedMemory.{create_process_mapping}
use peepbooth.Platform.ProcessWatch.{read_process_identity}
use peepbooth.Client.{
  Client, Memory, new_client, start, available, heartbeat, set_channel_active, event_breadcrumb,
}

-- The client of the process, if it has been constructed, and the shared records.
abbrev pub Process : Type 0
Process = Option Client × Memory

module _ (instrumented : Bool) where
  -- `client::process`
  unfoldable pub process : Option Client → Client
  process none = new_client instrumented
  process (some c) = c

  unfoldable pub start_process : Kernel → Option Client → Text → M (Bool × Option Client)
  unfolding process
  start_process k p process_name = elim instrumented [
    | false ↦ pure (false, p)
    | true ↦ do started ← start k (process p) process_name; pure (started.0, some started.1)
  ]

  unfoldable pub process_available : Option Client → Bool × Option Client
  unfolding process
  process_available p = elim instrumented [
    | false ↦ (false, p)
    | true ↦ (available (process p), some (process p))
  ]

  unfoldable pub process_heartbeat : Channel → ℕ → List ℕ → Process → Process
  unfolding process
  process_heartbeat value now failures (p, memory) = elim instrumented [
    | false ↦ (p, memory)
    | true ↦ let r = heartbeat (process p) value now failures memory in (some r.0, r.1)
  ]

  unfoldable pub process_channel_active : Channel → Bool → ℕ → List ℕ → Process → Process
  unfolding process
  process_channel_active value active now failures (p, memory) = elim instrumented [
    | false ↦ (p, memory)
    | true ↦
        let r = set_channel_active (process p) value active now failures memory in (some r.0, r.1)
  ]

  unfoldable pub record_breadcrumb : Event → Breadcrumb → Process → Process
  unfolding process
  record_breadcrumb value b (p, memory) = elim instrumented [
    | false ↦ (p, memory)
    | true ↦ (some (process p), event_breadcrumb (process p) value b memory)
  ]

-- A call of the producer, with what it reads of the clock and of failing exchanges.
pub data ProcessCall : Type 0 where
  heartbeat_call : Channel → ℕ → List ℕ → ProcessCall
  active_call : Channel → Bool → ℕ → List ℕ → ProcessCall
  breadcrumb_call : Event → Breadcrumb → ProcessCall

unfoldable pub call_process : Bool → ProcessCall → Process → Process
unfolding process_heartbeat process_channel_active record_breadcrumb
call_process instrumented (heartbeat_call value now failures) at =
    process_heartbeat instrumented value now failures at
call_process instrumented (active_call value active now failures) at =
    process_channel_active instrumented value active now failures at
call_process instrumented (breadcrumb_call value b) at = record_breadcrumb instrumented value b at

unfoldable pub call_process_all : Bool → List ProcessCall → Process → Process
unfolding call_process
call_process_all instrumented [] at = at
call_process_all instrumented (call ∷ calls) at =
    call_process_all instrumented calls (call_process instrumented call at)

-- Not available, and the records are `memory`.
abbrev Idle : Bool → Memory → Process → Type 0
Idle instrumented memory (p, m) = ((process_available instrumented p).0 ≡ false) × (m ≡ memory)

call_process-Idle :
    (instrumented : Bool) (memory : Memory) (call : ProcessCall) (at : Process)
    → Idle instrumented memory at
    → Idle instrumented memory (call_process instrumented call at)
unfolding call_process process_available available heartbeat set_channel_active event_breadcrumb
call_process-Idle false memory (heartbeat_call value now failures) (p, m) h = h
call_process-Idle false memory (active_call value active now failures) (p, m) h = h
call_process-Idle false memory (breadcrumb_call value b) (p, m) h = h
call_process-Idle true memory (heartbeat_call value now failures) (p, m) h = grind (arith, h)
call_process-Idle true memory (active_call value active now failures) (p, m) h = grind (arith, h)
call_process-Idle true memory (breadcrumb_call value b) (p, m) h = grind (arith, h)

-- Before it is started, a producer costs nothing. Where `process_available` is false, as it is before
-- `start_process` and always in a build without the instrumentation, no sequence of heartbeats, channel
-- settings and breadcrumbs writes anything to any shared record or makes the process available.
pub call_process_all-Idle :
    (instrumented : Bool) (calls : List ProcessCall) (p : Option Client) (memory : Memory)
    → (process_available instrumented p).0 ≡ false
    → (let r = call_process_all instrumented calls (p, memory) in
        ((process_available instrumented r.0).0 ≡ false) × (r.1 ≡ memory))
unfolding call_process_all
call_process_all-Idle instrumented calls p memory idle = idle_all calls (p, memory) (idle, refl)
  where
    idle_all :
        (calls : List ProcessCall) (at : Process)
        → Idle instrumented memory at
        → Idle instrumented memory (call_process_all instrumented calls at)
    idle_all [] at h = h
    idle_all (call ∷ calls) at h =
        idle_all calls (call_process instrumented call at)
          (call_process-Idle instrumented memory call at h)

-- What `start_process` returns is what `process_available` says after it: for every kernel, whichever
-- of its calls fail, and on every client that is built as the build is.
start_process-available :
    (instrumented : Bool) (k : Kernel) (p : Option Client) (process_name : Text) (w : World)
    → (process instrumented p).built ≡ instrumented
    → (let r = start_process instrumented k p process_name w in
        (process_available instrumented r.0.1).0 ≡ r.0.0)
unfolding start_process process_available process available start create_process_mapping
    read_process_identity new_client
start_process-available false k p process_name w built = refl
start_process-available true k none process_name w built = grind arith
start_process-available true k (some c) process_name w built = grind (arith, built)
