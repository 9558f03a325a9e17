-- ===== src/Tests/Process.antt =====
-- The client of the process, and what a snapshot shows of its calls.
use peepbooth.Base.{ℕ_discrete, ◌≡◌, refl, List, [], ◌∷◌, some, none, Bool, true, false}
use peepbooth.Base.Text.{codes}
use peepbooth.Base.Int.{pos}
use peepbooth.SharedState.{Lifecycle, Channel, Event}
use peepbooth.Client.{Client, Memory, start, stop, new_client, available}
use peepbooth.Client.Process.{
  process, process_available, start_process, ProcessCall, heartbeat_call, active_call,
  breadcrumb_call, call_process_all, call_process_all-Idle,
}
use peepbooth.GuiHeartbeat.{QTimer, new_gui_heartbeat, drop_gui_heartbeat}
use peepbooth.GuiHeartbeat.Life.{gui_flag, time_out_all, gui_heartbeat-flag}
use peepbooth.Session.{Session, snapshot}
use peepbooth.Session.Exit.{ended, stop-snapshot}
use peepbooth.Tests.Data.{producer, leased, loaded}
use peepbooth.Tests.System.{granting, quiet_world}

abbrev memory : Memory
memory = λ _. leased

abbrev calls : List ProcessCall
calls =
    heartbeat_call Channel.gui 700 []
    ∷ active_call Channel.core true 800 []
    ∷ breadcrumb_call (Event.other 300) loaded
    ∷ []

call_process_all-Idle_example :
    let r = call_process_all true calls (none, memory) in
    ((process_available true r.0).0 ≡ false) × (r.1 ≡ memory)
unfolding process_available available new_client
call_process_all-Idle_example = call_process_all-Idle true calls none memory refl

start_process_run : (start_process true granting none (codes "sample") quiet_world).0.0 ≡ true
unfolding start_process start new_client
start_process_run = refl

abbrev mapped : Client
mapped = record producer { state = some 4096 }

-- A timer that only knows whether it was started.
abbrev flag_timer : QTimer
flag_timer = record {
  Timer = Bool;
  new_timer = false;
  set_interval = λ n t. t;
  set_coarse = λ t. t;
  connect_timeout = λ t. t;
  start_timer = λ t. true;
  is_active = λ t. t;
}

gui_heartbeat-flag_example :
    let (timer, at) = new_gui_heartbeat flag_timer true (pos 500) 700 [] (some mapped, memory) in
    (gui_flag 4096 (time_out_all ((900, []) ∷ (950, []) ∷ []) at) ≡ 1)
    × (gui_flag 4096 (
          drop_gui_heartbeat flag_timer true timer 990 []
            (call_process_all true calls (time_out_all ((900, []) ∷ (950, []) ∷ []) at)))
        ≡ 0)
unfolding process
gui_heartbeat-flag_example =
    gui_heartbeat-flag flag_timer (refl, λ t. refl) (pos 500) 700 4096 [] (some mapped) memory
      ((900, []) ∷ (950, []) ∷ []) calls 990 [] refl

abbrev watching : Session
watching = record { mapping = record producer.mapping { state = some 4096 } }

stop-snapshot_example :
    snapshot watching (stop mapped quiet_world).1.memory
    ≡ ended (snapshot watching quiet_world.memory)
stop-snapshot_example = stop-snapshot watching mapped quiet_world 4096 refl refl refl

stop_run :
    (snapshot watching (stop mapped quiet_world).1.memory).process_lifecycle ≡ Lifecycle.clean_exit
unfolding snapshot stop ℕ_discrete
stop_run = refl
