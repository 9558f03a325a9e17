-- ===== src/Platform/ProcessWatch.antt =====
-- core/src/monitor/platform/process_watch.cpp, from line 125: a process's identity and resource
-- sample from its /proc files, and the handle that watches for its exit.
pub mod Identity
use peepbooth.Base.{ℕ, ◌++◌, Option, none, some, Bool, true, false, not, ◌==◌, if◌then◌else◌, ltb}
use peepbooth.Base.Text.{Text, codes, to_string}
use peepbooth.Base.Int.{ℤ, pos, negsuc}
use peepbooth.ProcFile.{ProcessIdentity, ProcessSample, StatValues, ProcessMemory}
use peepbooth.ProcFile.{parse_proc_stat, parse_proc_status}
use peepbooth.Platform.Kernel.{
  Kernel, M, ◌>>=◌, ◌>>◌, pure, issue, run_call, read_file, pidfd_open, poll, kill, sleep, close,
  monotonic_time_ns,
}

pub record ProcessHandle : Type 0 where
  pub identity : ProcessIdentity
  pub pid_descriptor : Option ℕ

abbrev pub no_process : ProcessHandle
no_process = record { identity = record { pid = 0; start_ticks = 0 }; pid_descriptor = none }

module _ (k : Kernel) where
  abbrev pub proc_path : ℕ → Text → Text
  proc_path pid file = codes "/proc/" ++ (to_string pid ++ file)

  read_text_file : Text → M (Option Text)
  read_text_file path = do h ← issue (read_file path); pure (k.contents h)

  identity_in : ℕ → Option Text → Option ProcessIdentity
  identity_in pid none = none
  identity_in pid (some contents) = elim (parse_proc_stat contents) [
    | none ↦ none
    | some values ↦ some (record { pid = pid; start_ticks = values.start_ticks })
  ]

  unfoldable pub read_process_identity : ℕ → M (Option ProcessIdentity)
  unfolding read_text_file identity_in
  read_process_identity pid = do
    contents ← read_text_file (proc_path pid (codes "/stat"))
    pure (identity_in pid contents)

  -- Both files are read before either is looked at; the clock is read last, for a whole sample only.
  sample_of : ℕ → Option ProcessMemory → Option StatValues → M (Option ProcessSample)
  sample_of pid none values = pure none
  sample_of pid (some memory) none = pure none
  sample_of pid (some memory) (some values) = do
    now ← monotonic_time_ns k
    pure (
        some (record {
          identity = record { pid = pid; start_ticks = values.start_ticks };
          memory = memory;
          cpu_ticks = values.cpu_ticks;
          sampled_at_ns = now;
        }))

  sample_texts : ℕ → Option Text → Option Text → M (Option ProcessSample)
  unfolding sample_of
  sample_texts pid none stat = pure none
  sample_texts pid (some status) none = pure none
  sample_texts pid (some status) (some stat) =
      sample_of pid (parse_proc_status status) (parse_proc_stat stat)

  unfoldable pub sample_process : ℕ → M (Option ProcessSample)
  unfolding read_text_file sample_texts
  sample_process pid = do
    status ← read_text_file (proc_path pid (codes "/status"))
    stat ← read_text_file (proc_path pid (codes "/stat"))
    sample_texts pid status stat

  attach_identity : ℕ → Option ProcessIdentity → M (Option ProcessHandle)
  attach_identity pid none = pure none
  attach_identity pid (some identity) = do
    h ← issue (pidfd_open pid)
    pure (some (record { identity = identity; pid_descriptor = k.descriptor h }))

  unfoldable pub attach : ℕ → M (Option ProcessHandle)
  unfolding read_process_identity attach_identity
  attach pid = do identity ← read_process_identity pid; attach_identity pid identity

  same_start : ProcessHandle → Option ProcessIdentity → Bool
  same_start handle none = false
  same_start handle (some current) = current.start_ticks == handle.identity.start_ticks

  -- `false` if the descriptor says that the process has gone, or, without one, `kill` does.
  may_live : ProcessHandle → M Bool
  may_live handle = elim handle.pid_descriptor [
    | some d ↦ do h ← issue (poll d 0); pure (not (k.readable h))
    | none ↦ do h ← issue (kill handle.identity.pid); pure (not (k.missing h))
  ]

  -- A process that has taken over the number starts at another time.
  unfoldable pub alive : ProcessHandle → M Bool
  unfolding may_live same_start read_process_identity
  alive handle = do
    living ← may_live handle
    elim living [
      | false ↦ pure false
      | true ↦ do
        current ← read_process_identity handle.identity.pid
        pure (same_start handle current)
    ]

  -- The timeout is not negative on any path of the program.
  unfoldable pub wait_for_exit : ProcessHandle → ℕ → M Bool
  unfolding alive
  wait_for_exit handle timeout_ms = elim handle.pid_descriptor [
    | some d ↦ do h ← issue (poll d timeout_ms); pure (k.readable h)
    | none ↦ do
      if ltb 0 timeout_ms then run_call (sleep timeout_ms) else pure tt
      living ← alive handle
      pure (not living)
  ]

-- The destructor, and `operator=(process_handle&&)` between two objects.
unfoldable pub close_handle : ProcessHandle → M (Unit {0})
close_handle handle = elim handle.pid_descriptor [ none ↦ pure tt | some d ↦ run_call (close d) ]

-- `process_handle(process_handle&&)`: the new object and what is left of the source.
unfoldable pub move_construct : ProcessHandle → ProcessHandle × ProcessHandle
move_construct source = (source, record source { pid_descriptor = none })

unfoldable pub move_assign : ProcessHandle → ProcessHandle → M (ProcessHandle × ProcessHandle)
unfolding close_handle
move_assign target source = do
  close_handle target
  pure (source, record source { pid_descriptor = none })

-- `clock_ticks_per_second`, where `value` is what `sysconf` returns for `_SC_CLK_TCK`.
unfoldable pub clock_ticks_of : ℤ → ℕ
clock_ticks_of (pos value) = if value == 0 then 100 else value
clock_ticks_of (negsuc value) = 100
