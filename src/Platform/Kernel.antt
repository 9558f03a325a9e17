-- ===== src/Platform/Kernel.antt =====
-- The system calls of core/src/monitor/platform as a parameter. A call's answer is a function of the
-- whole history of calls, the call itself at its head, so a kernel may fail any of them at any time.
use peepbooth.Base.{ℕ, ◌%◌, List, ◌∷◌, Option, Bool}
use peepbooth.Base.Text.{Text}
use peepbooth.SharedState.{SharedState, u64_mod}

pub data Call : Type 0 where
  shm_unlink : Text → Call
  shm_create : Text → Call  -- shm_open with O_CREAT | O_EXCL | O_RDWR | O_CLOEXEC
  shm_open : Text → Call  -- shm_open with O_RDWR | O_CLOEXEC
  ftruncate : ℕ → ℕ → Call
  fchmod : ℕ → Call
  fstat : ℕ → Call
  mmap : ℕ → Call
  munmap : ℕ → Call
  close : ℕ → Call
  read_file : Text → Call
  clock : Call
  pidfd_open : ℕ → Call
  poll : ℕ → ℕ → Call
  kill : ℕ → Call
  sleep : ℕ → Call
  signal : ℕ → Call  -- the handler of core/src/main.cpp for a signal
  load_stop : Call  -- a look at the flag that the signal handler sets

pub record Metadata : Type 0 where
  pub st_size : ℕ
  pub st_uid : ℕ

-- The answers. A descriptor below 0, MAP_FAILED and a stream that does not open are `none`.
pub record Kernel : Type 0 where
  pub descriptor : List Call → Option ℕ
  pub succeeds : List Call → Bool
  pub metadata : List Call → Option Metadata
  pub address : List Call → Option ℕ
  pub contents : List Call → Option Text
  pub monotonic : List Call → ℕ
  pub readable : List Call → Bool
  pub missing : List Call → Bool
  pub stopped : List Call → Bool
  pub process_id : ℕ
  pub user_id : ℕ

-- The shared records by address, and the calls made, the newest first. An address stands for the
-- record behind it: two mappings of one segment are two uses of one address.
pub record World : Type 0 where
  pub memory : ℕ → SharedState
  pub calls : List Call

abbrev pub M : Type 0 → Type 0
M A = World → A × World

infixl 5 ◌>>=◌ ◌>>◌
abbrev pub ◌>>=◌ : {A B : Type 0} → M A → (A → M B) → M B
◌>>=◌ m f w = let (a, w') = m w in f a w'

abbrev pub ◌>>◌ : {A B : Type 0} → M A → M B → M B
m >> k = m >>= λ _. k

abbrev pub pure : {A : Type 0} → A → M A
pure a w = (a, w)

-- Makes a call: the history that the kernel answers.
abbrev pub issue : Call → M (List Call)
issue c w = (c ∷ w.calls, record w { calls = c ∷ w.calls })

abbrev pub run_call : Call → M (Unit {0})
run_call c w = (tt, record w { calls = c ∷ w.calls })

-- `monotonic_time_ns`: a 64-bit reading.
abbrev pub monotonic_time_ns : Kernel → M ℕ
monotonic_time_ns k = do h ← issue clock; pure (k.monotonic h % u64_mod)
