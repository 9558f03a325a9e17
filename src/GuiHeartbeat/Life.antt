-- ===== src/GuiHeartbeat/Life.antt =====
-- core/src/monitor/qt/gui_heartbeat.cpp, from the constructor to the destructor.
use peepbooth.Base.{
  ℕ, ◌<◌, if◌then◌else◌, ◌≡◌, refl, sym, subst, ap, ◌∙◌, List, [], ◌∷◌, Option, some, Bool, true,
  false, arith, update_self,
}
use peepbooth.Base.Int.{ℤ}
use peepbooth.SharedState.{SharedState, Channel, gui, channel_index, heartbeat_channel_count}
use peepbooth.Client.{
  Client, Memory, heartbeat, heartbeat_in, set_channel_active, channel_active_in, available,
  at_pointer,
}
use peepbooth.Client.Calls.{
  heartbeat-at, set_channel_active-at, heartbeat_in-state, channel_active_in-state,
}
use peepbooth.Client.Active.{heartbeat_in-active, channel_active_in-flag}
use peepbooth.Client.Process.{
  Process, process, ProcessCall, heartbeat_call, active_call, breadcrumb_call, call_process,
  call_process_all, process_available, process_heartbeat, process_channel_active, record_breadcrumb,
}
use peepbooth.GuiHeartbeat.{QTimer, new_gui_heartbeat, timed_out, drop_gui_heartbeat, started_timer}

-- The client of the process has its record at `a`.
abbrev pub At : ℕ → Process → Type 0
At a (p, memory) = (process true p).state ≡ some a

abbrev flag_of : SharedState → ℕ
flag_of s = (s.heartbeats (channel_index gui)).active

-- The flag of the `gui` channel in the record at `a`.
abbrev pub gui_flag : ℕ → Process → ℕ
gui_flag a (p, memory) = flag_of (memory a)

heartbeat-state :
    (c : Client) (value : Channel) (now : ℕ) (failures : List ℕ) (memory : Memory) (a : ℕ)
    → c.state ≡ some a
    → (heartbeat c value now failures memory).0.state ≡ some a
unfolding at_pointer
heartbeat-state c value now failures memory a at =
    ap (λ (r : Client × Memory). r.0.state) (heartbeat-at c value now failures memory a at)
    ∙ heartbeat_in-state c value now failures (memory a)
    ∙ at

set_channel_active-state :
    (c : Client) (value : Channel) (active : Bool) (now : ℕ) (failures : List ℕ) (memory : Memory)
    (a : ℕ)
    → c.state ≡ some a
    → (set_channel_active c value active now failures memory).0.state ≡ some a
unfolding at_pointer
set_channel_active-state c value active now failures memory a at =
    ap (λ (r : Client × Memory). r.0.state)
      (set_channel_active-at c value active now failures memory a at)
    ∙ channel_active_in-state c value active now failures (memory a)
    ∙ at

call_process-At :
    (a : ℕ) (call : ProcessCall) (at : Process) → At a at → At a (call_process true call at)
unfolding call_process process process_heartbeat process_channel_active record_breadcrumb
call_process-At a (heartbeat_call value now failures) (p, memory) at =
    heartbeat-state (process true p) value now failures memory a at
call_process-At a (active_call value active now failures) (p, memory) at =
    set_channel_active-state (process true p) value active now failures memory a at
call_process-At a (breadcrumb_call value b) (p, memory) at = at

call_process_all-At :
    (a : ℕ) (calls : List ProcessCall) (at : Process)
    → At a at
    → At a (call_process_all true calls at)
unfolding call_process_all
call_process_all-At a [] at h = h
call_process_all-At a (call ∷ calls) at h =
    call_process_all-At a calls (call_process true call at) (call_process-At a call at h)

gui_known : channel_index gui < heartbeat_channel_count
unfolding channel_index
gui_known = omega arith

process_heartbeat-flag :
    (a : ℕ) (now : ℕ) (failures : List ℕ) (at : Process)
    → At a at
    → gui_flag a at ≡ 1
    → gui_flag a (process_heartbeat true gui now failures at) ≡ 1
unfolding process_heartbeat at_pointer
process_heartbeat-flag a now failures (p, memory) at on =
    let c = process true p in
    ap (λ (r : Client × Memory). flag_of (r.1 a)) (heartbeat-at c gui now failures memory a at)
    ∙ ap flag_of (update_self memory a (heartbeat_in c gui now failures (memory a)).1)
    ∙ heartbeat_in-active c gui now failures (memory a) (channel_index gui) on

process_channel_active-flag :
    (a : ℕ) (active : Bool) (now : ℕ) (failures : List ℕ) (at : Process)
    → At a at
    → gui_flag a (process_channel_active true gui active now failures at)
      ≡ (if active then 1 else 0)
unfolding process_channel_active at_pointer
process_channel_active-flag a active now failures (p, memory) at =
    let c = process true p in
    ap (λ (r : Client × Memory). flag_of (r.1 a))
      (set_channel_active-at c gui active now failures memory a at)
    ∙ ap flag_of (update_self memory a (channel_active_in c gui active now failures (memory a)).1)
    ∙ channel_active_in-flag c gui active now failures (memory a) gui_known

-- The timer's signals: what each reads of the clock and of failing exchanges.
abbrev pub time_out_all : List (ℕ × List ℕ) → Process → Process
time_out_all [] at = at
time_out_all ((now, failures) ∷ signals) at = time_out_all signals (timed_out true now failures at)

time_out_all-flag :
    (a : ℕ) (signals : List (ℕ × List ℕ)) (at : Process)
    → At a at
    → gui_flag a at ≡ 1
    → gui_flag a (time_out_all signals at) ≡ 1
unfolding timed_out call_process
time_out_all-flag a [] at h on = on
time_out_all-flag a ((now, failures) ∷ signals) at h on =
    time_out_all-flag a signals (timed_out true now failures at)
      (call_process-At a (heartbeat_call gui now failures) at h)
      (process_heartbeat-flag a now failures at h on)

time_out_all-At :
    (a : ℕ) (signals : List (ℕ × List ℕ)) (at : Process) → At a at → At a (time_out_all signals at)
unfolding timed_out call_process
time_out_all-At a [] at h = h
time_out_all-At a ((now, failures) ∷ signals) at h =
    time_out_all-At a signals (timed_out true now failures at)
      (call_process-At a (heartbeat_call gui now failures) at h)

-- What Qt's documentation says of a timer: one that was made is not active, one that was started is.
abbrev pub TimerLaws : QTimer → Type 0
TimerLaws Q =
    (Q.is_active Q.new_timer ≡ false) × ((t : Q.Timer) → Q.is_active (Q.start_timer t) ≡ true)

available-some : (c : Client) (a : ℕ) → c.state ≡ some a → available c ≡ true
unfolding available
available-some c a at = rw at refl

module _ (Q : QTimer) (laws : TimerLaws Q) where
  constructed :
      (interval_ms : ℤ) (now a : ℕ) (failures : List ℕ) (p : Option Client) (memory : Memory)
      → At a (p, memory)
      → new_gui_heartbeat Q true interval_ms now failures (p, memory) ≡ (
        started_timer Q true interval_ms,
        process_channel_active true gui true now failures (some (process true p), memory),
      )
  unfolding new_gui_heartbeat process_available available
  constructed interval_ms now a failures p memory at =
      ap
        (λ (is_available : Bool).
          if is_available
          then (
            started_timer Q true interval_ms,
            process_channel_active true gui true now failures (some (process true p), memory),
          )
          else (Q.new_timer, (some (process true p), memory)))
        (available-some (process true p) a at)

  dropped :
      (interval_ms : ℤ) (now : ℕ) (failures : List ℕ) (at : Process)
      → drop_gui_heartbeat Q true (started_timer Q true interval_ms) now failures at
        ≡ process_channel_active true gui false now failures at
  unfolding drop_gui_heartbeat started_timer
  dropped interval_ms now failures at =
      ap (λ (on : Bool). if on then process_channel_active true gui false now failures at else at)
        (laws.1 (Q.connect_timeout (Q.set_coarse (Q.set_interval interval_ms Q.new_timer))))

  -- The `gui` channel is switched on and off with the object. With a timer that is active once it is
  -- started, and on a producer that has its record, whatever its lease and its throttle, the flag of
  -- `gui` is up behind the constructor and stays up over any number of the timer's signals; and it is
  -- down behind the destructor, whatever calls the producer made before.
  pub gui_heartbeat-flag :
      (interval_ms : ℤ) (now a : ℕ) (failures : List ℕ) (p : Option Client) (memory : Memory)
      (signals : List (ℕ × List ℕ)) (calls : List ProcessCall) (later : ℕ) (failed : List ℕ)
      → At a (p, memory)
      → (let (timer, at) = new_gui_heartbeat Q true interval_ms now failures (p, memory) in
          (gui_flag a (time_out_all signals at) ≡ 1)
          × (gui_flag a (
                drop_gui_heartbeat Q true timer later failed
                  (call_process_all true calls (time_out_all signals at)))
              ≡ 0))
  unfolding process process_channel_active call_process
  gui_heartbeat-flag interval_ms now a failures p memory signals calls later failed at =
      let on = process_channel_active true gui true now failures (some (process true p), memory) in
      let on_At : At a on =
        call_process-At a (active_call gui true now failures) (some (process true p), memory) at in
      let signalled = time_out_all signals on in
      let signalled_At : At a signalled = time_out_all-At a signals on on_At in
      let called = call_process_all true calls signalled in
      subst
        (λ (r : Q.Timer × Process).
          (gui_flag a (time_out_all signals r.1) ≡ 1)
          × (gui_flag a (
                drop_gui_heartbeat Q true r.0 later failed
                  (call_process_all true calls (time_out_all signals r.1)))
              ≡ 0))
        (sym (constructed interval_ms now a failures p memory at))
        (
          time_out_all-flag a signals on on_At
              (process_channel_active-flag a true now failures (some (process true p), memory) at),
          ap (gui_flag a) (dropped interval_ms later failed called)
              ∙ process_channel_active-flag a false later failed called
                  (call_process_all-At a calls signalled signalled_At),
        )

  -- Built where the process is not available, the object does nothing. With a timer that is not active
  -- before it is started, the constructor leaves the records as they are, and the destructor leaves
  -- them and the process's client as it finds them, whatever became of these in between.
  pub gui_heartbeat_if_unavailable :
      (instrumented : Bool) (interval_ms : ℤ) (now later : ℕ) (failures failed : List ℕ)
      (p : Option Client) (memory : Memory) (in_between : Process)
      → (process_available instrumented p).0 ≡ false
      → (let (timer, at) = new_gui_heartbeat Q instrumented interval_ms now failures (p, memory) in
          (at.1 ≡ memory)
          × (drop_gui_heartbeat Q instrumented timer later failed in_between ≡ in_between))
  unfolding new_gui_heartbeat drop_gui_heartbeat
  gui_heartbeat_if_unavailable instrumented interval_ms now later failures failed p memory
        in_between unavailable =
      grind (arith, unavailable, laws.0)
