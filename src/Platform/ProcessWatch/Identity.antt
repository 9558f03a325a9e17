-- ===== src/Platform/ProcessWatch/Identity.antt =====
-- core/src/monitor/platform/process_watch.cpp, `alive`: a process number that has been taken over by
-- another process is not taken for the process that was watched.
use peepbooth.Base.{
  ℕ, ◌<◌, ◌≡◌, List, ◌∷◌, Option, some, none, Bool, true, not, ◌==◌, ◌&&◌, arith, length,
}
use peepbooth.Base.Text.{Text, codes}
use peepbooth.SharedState.{u64_mod}
use peepbooth.ProcFile.{ProcessIdentity}
use peepbooth.ProcFile.Stat.{stat_line, stat_fields, parse_proc_stat-stat_line}
use peepbooth.ProcFile.Words.{all_fields}
use peepbooth.Platform.Kernel.{Kernel, World, Call, poll, kill, read_file}
use peepbooth.Platform.ProcessWatch.{
  ProcessHandle, alive, read_process_identity, proc_path, identity_in, may_live, same_start,
}

-- What the kernel prints for a process: a line that has its start time.
pub record Printed (k : Kernel) (pid start : ℕ) : Type 0 where
  pub head : Text
  pub early : List Text
  pub middle : List Text
  pub late : List Text
  pub user : ℕ
  pub system : ℕ
  pub eleven : length early ≡ 11
  pub six : length middle ≡ 6
  pub early_fields : all_fields early ≡ true
  pub middle_fields : all_fields middle ≡ true
  pub late_fields : all_fields late ≡ true
  pub user_small : user < u64_mod
  pub system_small : system < u64_mod
  pub start_small : start < u64_mod
  pub text :
      (h : List Call)
      → k.contents (read_file (proc_path k pid (codes "/stat")) ∷ h)
        ≡ some (stat_line head (stat_fields early user system middle start late))

-- What the kernel says of the process without its file: by the descriptor, or without one by `kill`.
abbrev pub has_gone : Kernel → ProcessHandle → List Call → Bool
has_gone k handle h = elim handle.pid_descriptor [
  | some d ↦ k.readable (poll d 0 ∷ h)
  | none ↦ k.missing (kill handle.identity.pid ∷ h)
]

read_process_identity-Printed :
    (k : Kernel) (pid start : ℕ) (w : World)
    → Printed k pid start
    → (read_process_identity k pid w).0 ≡ some (record { pid = pid; start_ticks = start })
unfolding read_process_identity identity_in
read_process_identity-Printed k pid start w p = rw (
  p.text w.calls,
  parse_proc_stat-stat_line p.head p.early p.middle p.late p.user p.system start p.eleven p.six
      p.early_fields p.middle_fields p.late_fields p.user_small p.system_small p.start_small,
  identity_in,
)

alive-descriptor :
    (k : Kernel) (identity : ProcessIdentity) (d : Option ℕ) (start : ℕ) (w : World)
    → Printed k identity.pid start
    → (let handle : ProcessHandle = record { identity = identity; pid_descriptor = d } in
        (alive k handle w).0 ≡ (not (has_gone k handle w.calls) && (start == identity.start_ticks)))
unfolding alive may_live same_start
alive-descriptor k identity (some d) start w p = ground (
  arith,
  read_process_identity-Printed k identity.pid start (record w { calls = poll d 0 ∷ w.calls }) p,
)
alive-descriptor k identity none start w p = ground (
  arith,
  read_process_identity-Printed k identity.pid start
      (record w { calls = kill identity.pid ∷ w.calls }) p,
)

-- A reused process number is not taken for the process. Where the kernel prints, for the number of
-- the process that is watched, a line with some start time, `alive` holds exactly if the kernel has
-- not said that the process is gone and that start time is the watched process's.
pub alive-Printed :
    (k : Kernel) (handle : ProcessHandle) (start : ℕ) (w : World)
    → Printed k handle.identity.pid start
    → (alive k handle w).0
      ≡ (not (has_gone k handle w.calls) && (start == handle.identity.start_ticks))
alive-Printed k handle start w p =
    alive-descriptor k handle.identity handle.pid_descriptor start w p
