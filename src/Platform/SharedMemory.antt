-- ===== src/Platform/SharedMemory.antt =====
-- core/src/monitor/platform/shared_memory.cpp: the owner of a mapped segment, its two makers, and
-- what it gives back when it is reset. `nullptr` and the descriptor -1 are `none`.
use Prim.Native.Nat.{min}
use peepbooth.Base.{
  ℕ, ◌-◌, [], ◌∷◌, ◌++◌, Option, none, some, Bool, true, false, ◌&&◌, ◌==◌, length, take, replicate,
  update,
}
use peepbooth.Base.Text.{Text, codes, to_string}
use peepbooth.SharedState.{
  SharedState, initial_state, offset_of_heartbeats, size_of_shared_state, process_name_capacity,
  lifecycle_raw, running,
}
use peepbooth.ProcFile.{ProcessIdentity}
use peepbooth.Platform.Kernel.{
  Kernel, Metadata, M, ◌>>=◌, ◌>>◌, pure, issue, run_call, shm_unlink, shm_create, shm_open,
  ftruncate, fchmod, fstat, mmap, munmap, close,
}

pub record SharedMapping : Type 0 where
  pub state : Option ℕ
  pub descriptor : Option ℕ
  pub owner : Bool
  pub name : Text

-- `shared_mapping {}`, also what a move leaves behind.
abbrev pub no_mapping : SharedMapping
no_mapping = record { state = none; descriptor = none; owner = false; name = [] }

unfoldable pub is_mapped : SharedMapping → Bool
is_mapped m = elim m.state [ none ↦ false | some _ ↦ true ]

unmap : Option ℕ → M (Unit {0})
unmap none = pure tt
unmap (some address) = run_call (munmap address)

close_descriptor : Option ℕ → M (Unit {0})
close_descriptor none = pure tt
close_descriptor (some d) = run_call (close d)

unlink_owned : Bool → Text → M (Unit {0})
unlink_owned true (c ∷ name) = run_call (shm_unlink (c ∷ name))
unlink_owned true [] = pure tt
unlink_owned false name = pure tt

-- The mapping that `reset` leaves, in the world after its calls.
unfoldable pub reset : SharedMapping → M SharedMapping
unfolding unmap close_descriptor unlink_owned
reset m = do
  unmap m.state
  close_descriptor m.descriptor
  unlink_owned m.owner m.name
  pure no_mapping

-- `shared_mapping(shared_mapping&&)`: the new object and what is left of the source.
unfoldable pub move_construct : SharedMapping → SharedMapping × SharedMapping
move_construct source = (source, no_mapping)

-- `operator=(shared_mapping&&)` between two objects: the target and what is left of the source.
unfoldable pub move_assign : SharedMapping → SharedMapping → M (SharedMapping × SharedMapping)
unfolding reset
move_assign target source = do reset target; pure (source, no_mapping)

module _ (k : Kernel) where
  unfoldable pub shared_memory_name : ℕ → Text
  shared_memory_name pid =
      codes "/cppr-watchdog-" ++ (to_string k.user_id ++ (codes "-" ++ to_string pid))

  -- The bytes of `process_name` after the copy: at most 31, then zeros, as the record was cleared.
  unfoldable pub copied_name : Text → Text
  copied_name process_name =
      let copied = min (length process_name) (process_name_capacity - 1) in
      take copied process_name ++ replicate (process_name_capacity - copied) 0

  -- What the new record holds when it is published. A failed look at the process's own start time
  -- leaves 0.
  unfoldable pub created_state : Text → Option ProcessIdentity → SharedState
  unfolding copied_name
  created_state process_name identity = record initial_state {
    header_size = offset_of_heartbeats;
    total_size = size_of_shared_state;
    pid = k.process_id;
    uid = k.user_id;
    process_start_ticks = elim identity [ none ↦ 0 | some i ↦ i.start_ticks ];
    process_name = copied_name process_name;
    process_lifecycle = lifecycle_raw running;
  }

  -- Closes the descriptor and unlinks the name: the error paths after the segment was opened.
  abandon : ℕ → Text → M (Option SharedMapping)
  abandon d name = do run_call (close d); run_call (shm_unlink name); pure none

  -- From the mapping on. `identity` is `read_process_identity` of this process.
  map_created : M (Option ProcessIdentity) → Text → Text → ℕ → M (Option SharedMapping)
  unfolding abandon created_state
  map_created identity process_name name d = do
    h ← issue (mmap d)
    elim (k.address h) [
      | none ↦ abandon d name
      | some address ↦ do
        found ← identity
        λ w. (
          some (record { state = some address; descriptor = some d; owner = true; name = name }),
          record w { memory = update w.memory address (created_state process_name found) },
        )
    ]

  -- From the opened descriptor on: `||` makes the second call only if the first succeeds.
  size_created : M (Option ProcessIdentity) → Text → Text → ℕ → M (Option SharedMapping)
  unfolding abandon map_created
  size_created identity process_name name d = do
    sized ← issue (ftruncate d size_of_shared_state)
    elim (k.succeeds sized) [
      | false ↦ abandon d name
      | true ↦ do
        moded ← issue (fchmod d)
        elim (k.succeeds moded) [
          | false ↦ abandon d name
          | true ↦ map_created identity process_name name d
        ]
    ]

  unfoldable pub create_process_mapping :
      M (Option ProcessIdentity) → Text → M (Option SharedMapping)
  unfolding shared_memory_name size_created
  create_process_mapping identity process_name = do
    run_call (shm_unlink (shared_memory_name k.process_id))
    h ← issue (shm_create (shared_memory_name k.process_id))
    elim (k.descriptor h) [
      | none ↦ pure none
      | some d ↦ size_created identity process_name (shared_memory_name k.process_id) d
    ]

  compatible : Option Metadata → Bool
  compatible none = false
  compatible (some m) = (m.st_size == size_of_shared_state) && (m.st_uid == k.user_id)

  unfoldable pub open_process_mapping : ℕ → M (Option SharedMapping)
  unfolding shared_memory_name compatible
  open_process_mapping pid = do
    h ← issue (shm_open (shared_memory_name pid))
    elim (k.descriptor h) [
      | none ↦ pure none
      | some d ↦ do
        s ← issue (fstat d)
        elim (compatible (k.metadata s)) [
          | false ↦ do run_call (close d); pure none
          | true ↦ do
            a ← issue (mmap d)
            elim (k.address a) [
              | none ↦ do run_call (close d); pure none
              | some address ↦ pure (
                  some (record {
                    state = some address;
                    descriptor = some d;
                    owner = false;
                    name = shared_memory_name pid;
                  }))
            ]
        ]
    ]
