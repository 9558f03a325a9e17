-- ===== src/Client/Ownership.antt =====
-- core/src/monitor/client.cpp, `start` and `stop`: what the producer takes of the kernel and gives
-- back.
use peepbooth.Base.{◌≡◌, none, true, arith}
use peepbooth.Base.Text.{Text}
use peepbooth.Platform.Kernel.{Kernel, World, ◌>>=◌}
use peepbooth.Platform.SharedMemory.{
  no_mapping, shared_memory_name, create_process_mapping, move_assign,
}
use peepbooth.Platform.ProcessWatch.{read_process_identity}
use peepbooth.Platform.Resources.{held, segment, remove, remove_self}
use peepbooth.Client.{Client, start, stop}

-- A producer gives back all that it takes. For every kernel, whichever of its calls fail, `stop` after
-- `start` on a client that has nothing mapped leaves the process with the descriptors, mappings and
-- names that it held before, but for a segment of the same name left from earlier, which `start`
-- unlinks; and the client has nothing mapped again.
pub start-stop :
    (k : Kernel) (c : Client) (process_name : Text) (w : World)
    → c.built ≡ true
    → c.state ≡ none
    → c.mapping ≡ no_mapping
    → (let r = (start k c process_name >>= λ started. stop started.1) w in
        (held k r.1.calls ≡ remove (segment (shared_memory_name k k.process_id)) (held k w.calls))
        × (r.0.state ≡ none)
        × (r.0.mapping ≡ no_mapping))
unfolding start stop create_process_mapping read_process_identity shared_memory_name held
    move_assign
start-stop k c process_name w built unmapped empty = grind (arith, remove_self)
