-- ===== src/Client/Lifetime/Overtaken.antt =====
-- core/src/monitor/client.cpp: `stop` while another thread is in a call.
use peepbooth.Base.{ℕ, some, none, ◌≡◌, refl}
use peepbooth.Client.Lifetime.{
  Life, free, exchange, end, unmap, StopRun, stop_start, stop_later, thread, accessed,
}

-- `stop` does not wait for the calls of other threads. From each state in which the client is started,
-- nobody has the mutex and the next step of some thread goes to the record, the steps of `stop` alone
-- lead on to a state in which every thread is where it was, and the next step of that thread goes to the
-- same address with nothing mapped.
pub stop-unmapped :
    (s : Life) (i p : ℕ)
    → s.owner ≡ free
    → s.pointer ≡ some p
    → accessed s (thread i) ≡ some p
    → (t : Life) × StopRun (λ _. Unit {0}) s t
      × (t.caller ≡ s.caller)
      × (accessed t (thread i) ≡ some p)
      × (t.mapping ≡ none)
stop-unmapped s i p is at next = (
  _,
  stop_later (stop_later (stop_later stop_start (exchange p is at) refl) (end p refl) refl)
      (unmap refl tt) refl,
  refl,
  next,
  refl,
)
