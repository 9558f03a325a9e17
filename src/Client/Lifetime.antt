-- ===== src/Client/Lifetime.antt =====
-- core/src/monitor/client.cpp: how long the record is mapped, one access at a time. `start` and `stop`
-- take the mutex, `heartbeat`, `set_channel_active` and `breadcrumb` do not: they load the pointer and go
-- on with what they have loaded. What they read in the record is left open.
pub mod Mapped
pub mod Overtaken
use peepbooth.Base.{Bool, true, false, ℕ, suc, Option, some, none, ◌≡◌, update}

-- A thread outside the three calls, or in one of them and before its next access: of the first look at
-- `watcher_present`, of the pointer again, in `active_state` of `watcher_present` and of the lease, and of
-- what is left of its stores. The number is the record's address as it was loaded.
pub data Caller : Type 0 where
  outside : Caller
  checking : (address : ℕ) → Caller
  reloading : Caller
  looking : (address : ℕ) → Caller
  leasing : (address : ℕ) → Caller
  storing : (stores address : ℕ) → Caller

-- One step of a thread, where `state_` holds `pointer`.
pub data Move (pointer : Option ℕ) : Caller → Caller → Type 0 where
  call : (p : ℕ) → pointer ≡ some p → Move pointer outside (checking p)
  switch : (p : ℕ) → pointer ≡ some p → Move pointer outside (storing 1 p)
  unwatched : (p : ℕ) → Move pointer (checking p) outside
  watched : (p : ℕ) → Move pointer (checking p) reloading
  stopped : pointer ≡ none → Move pointer reloading outside
  reload : (p : ℕ) → pointer ≡ some p → Move pointer reloading (looking p)
  deserted : (p : ℕ) → Move pointer (looking p) outside
  present : (p : ℕ) → Move pointer (looking p) (leasing p)
  expired : (p : ℕ) → Move pointer (leasing p) (storing 1 p)
  refused : (p : ℕ) → Move pointer (leasing p) outside
  beat : (p : ℕ) → Move pointer (leasing p) (storing 3 p)
  append : (p : ℕ) → Move pointer (leasing p) (storing 9 p)
  store : (n p : ℕ) → Move pointer (storing (suc n) p) (storing n p)
  finish : (p : ℕ) → Move pointer (storing 0 p) outside

-- Who has the mutex: nobody, `stop` before it stores the lifecycle or before it drops the mapping, or
-- `start` before it stores the pointer.
pub data Owner : Type 0 where
  free : Owner
  ending : (address : ℕ) → Owner
  unmapping : Owner
  starting : (address : ℕ) → Owner

-- `mapping` is where the client's record is mapped, if it is.
pub record Life : Type 0 where
  pub pointer : Option ℕ
  pub mapping : Option ℕ
  pub owner : Owner
  pub caller : ℕ → Caller

abbrev pub unborn : Life
unborn = record { pointer = none; mapping = none; owner = free; caller = λ _. outside }

-- One access. `Allowed` says when the mapping may be dropped.
pub data Step (Allowed : Life → Type 0) (s : Life) : Life → Type 0 where
  move :
      (i : ℕ) (x : Caller)
      → Move s.pointer (s.caller i) x
      → Step Allowed s (record s { caller = update s.caller i x })
  create :
      (p : ℕ)
      → s.owner ≡ free
      → s.pointer ≡ none
      → Step Allowed s (record s { mapping = some p; owner = starting p })
  publish :
      (p : ℕ) → s.owner ≡ starting p → Step Allowed s (record s { pointer = some p; owner = free })
  exchange :
      (p : ℕ)
      → s.owner ≡ free
      → s.pointer ≡ some p
      → Step Allowed s (record s { pointer = none; owner = ending p })
  exchange_none :
      s.owner ≡ free → s.pointer ≡ none → Step Allowed s (record s { owner = unmapping })
  end : (p : ℕ) → s.owner ≡ ending p → Step Allowed s (record s { owner = unmapping })
  unmap :
      s.owner ≡ unmapping → Allowed s → Step Allowed s (record s { mapping = none; owner = free })

-- Any number of accesses, from `o` on.
pub data Run (Allowed : Life → Type 0) (o : Life) : Life → Type 0 where
  start : Run Allowed o o
  later : {s t : Life} → Run Allowed o s → Step Allowed s t → Run Allowed o t

abbrev pub Reach : (Life → Type 0) → Life → Type 0
Reach Allowed = Run Allowed unborn

-- The address that the next access of a thread goes to.
abbrev pub touched : Caller → Option ℕ
touched (checking p) = some p
touched (looking p) = some p
touched (leasing p) = some p
touched (storing (suc n) p) = some p
touched _ = none

abbrev pub ended : Owner → Option ℕ
ended (ending p) = some p
ended _ = none

-- Who makes the next access: a thread in a call, or the one that has the mutex.
pub data Actor : Type 0 where
  thread : (i : ℕ) → Actor
  mutex : Actor

abbrev pub accessed : Life → Actor → Option ℕ
accessed s (thread i) = touched (s.caller i)
accessed s mutex = ended s.owner

-- The steps that `stop` makes.
abbrev pub is_stop : {Allowed : Life → Type 0} {s t : Life} → Step Allowed s t → Bool
is_stop (exchange p is at) = true
is_stop (exchange_none is at) = true
is_stop (end p is) = true
is_stop (unmap is allowed) = true
is_stop _ = false

-- A run of `stop` alone, from `o` on, with every other thread where it is.
pub data StopRun (Allowed : Life → Type 0) (o : Life) : Life → Type 0 where
  stop_start : StopRun Allowed o o
  stop_later :
      {s t : Life}
      → StopRun Allowed o s
      → (step : Step Allowed s t) → is_stop step ≡ true
      → StopRun Allowed o t
