-- ===== src/Session/Ownership.antt =====
-- core/src/monitor/watchdog.cpp, `attach` and `release`: what the watcher takes of the kernel and
-- gives back.
use peepbooth.Base.{◌≡◌, Option, none, some, arith, List}
use peepbooth.Platform.Kernel.{Kernel, World, M, pure, ◌>>=◌}
use peepbooth.Platform.SharedMemory.{open_process_mapping, move_assign, reset}
use peepbooth.Platform.Resources.{held, owned, Resource, remove_self}
use peepbooth.ProcFile.{ProcessIdentity}
use peepbooth.Session.{Session, attach, release, valid_state}

abbrev pub session_owned : Option Session → List Resource → List Resource
session_owned none rest = rest
session_owned (some session) rest = owned session.mapping rest

pub attach-held :
    (k : Kernel) (identity : ProcessIdentity) (w : World)
    → held k (attach k identity w).1.calls ≡ session_owned (attach k identity w).0 (held k w.calls)
unfolding attach open_process_mapping held valid_state reset
attach-held k identity w = grind (arith, remove_self)

release-held :
    (k : Kernel) (session : Session) (rest : List Resource) (w : World)
    → held k w.calls ≡ owned session.mapping rest
    → held k (release session w).1.calls ≡ rest
unfolding release move_assign reset held
release-held k session rest w before = grind (arith, remove_self)

-- The destructor of what `attach` returned.
unfoldable pub drop_session : Option Session → M (Unit {0})
drop_session none = pure tt
drop_session (some session) = release session >>= λ _. pure tt

pub drop_session-held :
    (k : Kernel) (found : Option Session) (rest : List Resource) (w : World)
    → held k w.calls ≡ session_owned found rest
    → held k (drop_session found w).1.calls ≡ rest
unfolding drop_session
drop_session-held k none rest w before = before
drop_session-held k (some session) rest w before = release-held k session rest w before

-- A watcher gives back all that it takes. For every kernel, whichever of its calls fail, and every
-- record found behind the name, `attach` leaves held what the session that it returns owns, and nothing
-- more where it returns none; and when what it returned is destroyed, exactly what was held before is
-- held.
pub attach-release :
    (k : Kernel) (identity : ProcessIdentity) (w : World)
    → (let r = attach k identity w in
        (held k r.1.calls ≡ session_owned r.0 (held k w.calls))
        × (held k (drop_session r.0 r.1).1.calls ≡ held k w.calls))
attach-release k identity w = (
  attach-held k identity w,
  drop_session-held k (attach k identity w).0 (held k w.calls) (attach k identity w).1
      (attach-held k identity w),
)
