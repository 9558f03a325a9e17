-- ===== src/Platform/Resources.antt =====
-- What a process holds of the kernel, by the calls that it has made: open descriptors, mappings and
-- names of segments. This is the account against which core/src/monitor/platform/shared_memory.cpp is
-- held: what it makes, gives back and leaves behind.
use peepbooth.Base.{
  ℕ, ◌≡◌, refl, List, [], ◌∷◌, Option, none, some, Bool, true, false, ◌==◌, if◌then◌else◌, arith,
}
use peepbooth.Base.Text.{Text, text_eq}
use peepbooth.Platform.Kernel.{
  Kernel, Call, shm_unlink, shm_create, shm_open, mmap, munmap, close, pidfd_open,
}
use peepbooth.Platform.SharedMemory.{SharedMapping}

pub data Resource : Type 0 where
  open_file : ℕ → Resource
  mapped : ℕ → Resource
  segment : Text → Resource

unfoldable pub same : Resource → Resource → Bool
unfolding text_eq
same (open_file a) (open_file b) = a == b
same (mapped a) (mapped b) = a == b
same (segment a) (segment b) = text_eq a b
same _ _ = false

-- Without the newest that is the same.
unfoldable pub remove : Resource → List Resource → List Resource
unfolding same
remove r [] = []
remove r (x ∷ xs) = if same r x then xs else x ∷ remove r xs

abbrev pub gained : {A : Type 0} → (A → Resource) → Option A → List Resource → List Resource
gained f none rest = rest
gained f (some a) rest = f a ∷ rest

-- A segment that is made comes with its descriptor, the name below it.
abbrev pub made : Text → Option ℕ → List Resource → List Resource
made name none rest = rest
made name (some d) rest = open_file d ∷ segment name ∷ rest

-- What a call changes, given the calls before it and what was held then.
abbrev pub after_call : Kernel → Call → List Call → List Resource → List Resource
after_call k (shm_unlink name) h rest = remove (segment name) rest
after_call k (shm_create name) h rest = made name (k.descriptor (shm_create name ∷ h)) rest
after_call k (shm_open name) h rest = gained open_file (k.descriptor (shm_open name ∷ h)) rest
after_call k (mmap d) h rest = gained mapped (k.address (mmap d ∷ h)) rest
after_call k (munmap a) h rest = remove (mapped a) rest
after_call k (close d) h rest = remove (open_file d) rest
after_call k (pidfd_open pid) h rest = gained open_file (k.descriptor (pidfd_open pid ∷ h)) rest
after_call k _ h rest = rest

unfoldable pub held : Kernel → List Call → List Resource
held k [] = []
held k (c ∷ h) = after_call k c h (held k h)

-- What a mapping stands for, over what is held besides.
abbrev pub named : Bool → Text → List Resource → List Resource
named true (c ∷ name) rest = segment (c ∷ name) ∷ rest
named true [] rest = rest
named false name rest = rest

abbrev pub owned : SharedMapping → List Resource → List Resource
owned m rest = gained mapped m.state (gained open_file m.descriptor (named m.owner m.name rest))

text_eq_self : (t : Text) → text_eq t t ≡ true
unfolding text_eq
text_eq_self [] = refl
text_eq_self (c ∷ t) = ground (arith, text_eq_self t)

pub remove_self : (r : Resource) (rest : List Resource) → remove r (r ∷ rest) ≡ rest
unfolding remove same
remove_self (open_file a) rest = ground arith
remove_self (mapped a) rest = ground arith
remove_self (segment a) rest = rw (text_eq_self a) refl
