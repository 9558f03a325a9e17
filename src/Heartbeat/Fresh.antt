-- ===== src/Heartbeat/Fresh.antt =====
-- The time that `read_heartbeat` returns under interference.
use peepbooth.Base.{
  ℕ, zero, suc, ◌+◌, ◌%◌, ◌≤◌, ◌≡◌, refl, sym, ap, ◌∙◌, subst, update, update_self, update_ne,
  arith,
}
use peepbooth.SharedState.{HeartbeatSlot, u64_mod}
use peepbooth.Session.{Attempt}
use peepbooth.Heartbeat.Threads.{mark, in_between, in_between-le, in_between-update}
use peepbooth.Heartbeat.{
  idle, stamping, counting, Reader, ready, attempting, looked, flagged, timed, returned,
  next_attempt, load_step, Beating, Step, publish, stamp, count, switch, begin, load, Reach, start,
  later,
}

-- A time is that of a heartbeat with a number from `low` to `high`.
abbrev pub Between : (ℕ → ℕ) → ℕ → ℕ → ℕ → Type 0
Between issued low high time = (m : ℕ) × (low ≤ m) × (m ≤ high) × (time ≡ issued m)

-- What the reader has is in order, in a state whose slot holds the number `sequence` and the time of
-- number `newest`.
abbrev ReaderOk : ℕ → (ℕ → ℕ) → ℕ → ℕ → Reader → Type 0
ReaderOk threads issued sequence newest ready = Unit {0}
ReaderOk threads issued sequence newest (attempting attempt) = Unit {0}
ReaderOk threads issued sequence newest (looked attempt before) = before ≤ sequence
ReaderOk threads issued sequence newest (flagged attempt before active) = before ≤ sequence
ReaderOk threads issued sequence newest (timed attempt before active time) =
    (before ≤ sequence) × Between issued before newest time
ReaderOk threads issued sequence newest (returned a) =
    (a.after ≤ sequence)
    × ((m : ℕ) × (a.before ≤ m)
        × (m ≤ newest)
        × (m ≤ a.after + threads)
        × (a.timestamp_ns ≡ issued m))

record Inv (threads : ℕ) (s : Beating) : Type 0 where
  held : s.slot.timestamp_ns ≡ s.issued s.newest
  counted : s.newest ≡ s.slot.sequence + in_between threads s.publisher
  reading : ReaderOk threads s.issued s.slot.sequence s.newest s.reader

Between-mono :
    (issued later_issued : ℕ → ℕ) (low high newest time : ℕ)
    → high ≤ newest
    → ((m : ℕ) → m ≤ high → later_issued m ≡ issued m)
    → Between issued low high time
    → Between later_issued low newest time
Between-mono issued later_issued low high newest time le same (m, first, last, at) =
    (m, first, omega arith, at ∙ sym (same m last))

-- What was read stays true as the slot moves on.
ReaderOk-mono :
    (threads : ℕ) (issued later_issued : ℕ → ℕ) (sequence later_sequence newest later_newest : ℕ)
    (r : Reader)
    → sequence ≤ later_sequence
    → newest ≤ later_newest
    → ((m : ℕ) → m ≤ newest → later_issued m ≡ issued m)
    → ReaderOk threads issued sequence newest r
    → ReaderOk threads later_issued later_sequence later_newest r
ReaderOk-mono threads issued i' sequence s' newest n' ready le up same ok = tt
ReaderOk-mono threads issued i' sequence s' newest n' (attempting attempt) le up same ok = tt
ReaderOk-mono threads issued i' sequence s' newest n' (looked attempt before) le up same ok =
    omega arith
ReaderOk-mono threads issued i' sequence s' newest n' (flagged attempt before active) le up same
      ok =
    omega arith
ReaderOk-mono threads issued i' sequence s' newest n' (timed attempt before active time) le up same
      ok =
    (omega arith, Between-mono issued i' before newest n' time up same ok.1)
ReaderOk-mono threads issued i' sequence s' newest n' (returned a) le up same
      (counted, (m, first, last, near, at)) =
    (omega arith, (m, first, omega arith, near, at ∙ sym (same m last)))

-- One load.
next_attempt-Ok :
    (threads : ℕ) (issued : ℕ → ℕ) (sequence newest attempt before active time : ℕ)
    → newest ≤ sequence + threads
    → Between issued before newest time
    → ReaderOk threads issued sequence newest (
        next_attempt attempt
          (record { before = before; active = active; timestamp_ns = time; after = sequence }))
unfolding next_attempt
next_attempt-Ok threads issued sequence newest attempt before active time small
      (m, first, last, at) =
    let ended : ReaderOk threads issued sequence newest (
        returned
          (record { before = before; active = active; timestamp_ns = time; after = sequence })) =
      (omega arith, (m, first, last, omega arith, at)) in
    ground (arith, ended)

load_step-Ok :
    (threads : ℕ) (issued : ℕ → ℕ) (slot : HeartbeatSlot) (newest : ℕ) (r : Reader)
    → slot.timestamp_ns ≡ issued newest
    → slot.sequence ≤ newest
    → newest ≤ slot.sequence + threads
    → ReaderOk threads issued slot.sequence newest r
    → ReaderOk threads issued slot.sequence newest (load_step r slot)
unfolding load_step
load_step-Ok threads issued slot newest ready held le small ok = tt
load_step-Ok threads issued slot newest (attempting attempt) held le small ok = omega arith
load_step-Ok threads issued slot newest (looked attempt before) held le small ok = ok
load_step-Ok threads issued slot newest (flagged attempt before active) held le small ok =
    (ok, (newest, omega arith, omega arith, held))
load_step-Ok threads issued slot newest (timed attempt before active time) held le small ok =
    next_attempt-Ok threads issued slot.sequence newest attempt before active time small ok.1
load_step-Ok threads issued slot newest (returned a) held le small ok = ok

Step-Inv : {threads : ℕ} {s t : Beating} → Step threads s t → Inv threads s → Inv threads t
Step-Inv {threads} {s} (publish i now known out) v = record {
  held = v.held;
  counted =
      omega (
        arith,
        v.counted,
        in_between-update threads s.publisher i (stamping now) known,
        ap mark out,
      );
  reading = v.reading;
}
Step-Inv {threads} {s} (stamp i now known at) v =
    let moved = in_between-update threads s.publisher i counting known in
    let new = s.newest + 1 in
    record {
      held = sym (update_self s.issued new now);
      counted = omega (arith, v.counted, moved, ap mark at);
      reading =
          ReaderOk-mono threads s.issued (update s.issued new now) s.slot.sequence s.slot.sequence
            s.newest new s.reader (omega arith) (omega arith)
            (λ m le. update_ne s.issued new m now (λ same. absurd (omega (arith, same)))) v.reading;
    }
Step-Inv {threads} {s} (count i known at small) v =
    let n = s.slot.sequence in
    let moved = in_between-update threads s.publisher i idle known in
    let word : (n + 1) % u64_mod ≡ n + 1 = omega arith in
    subst
      (λ (next : ℕ). Inv threads (record s {
        slot = record s.slot { sequence = next };
        publisher = update s.publisher i idle;
      }))
      (sym word)
      (record {
        held = v.held;
        counted = omega (arith, v.counted, moved, ap mark at);
        reading =
            ReaderOk-mono threads s.issued s.issued n (n + 1) s.newest s.newest s.reader
              (omega arith) (omega arith) (λ m le. refl) v.reading;
      })
Step-Inv {threads} {s} (switch active) v = record {
  held = v.held;
  counted = v.counted;
  reading = v.reading;
}
Step-Inv {threads} {s} begin v = record { held = v.held; counted = v.counted; reading = tt }
Step-Inv {threads} {s} load v = record {
  held = v.held;
  counted = v.counted;
  reading =
      load_step-Ok threads s.issued s.slot s.newest s.reader v.held (omega (arith, v.counted))
        (omega (arith, v.counted, in_between-le threads s.publisher)) v.reading;
}

in_between_idle : (n : ℕ) → in_between n (λ _. idle) ≡ 0
unfolding in_between
in_between_idle zero = refl
in_between_idle (suc n) = omega (arith, in_between_idle n)

Reach-Inv : {threads : ℕ} {s : Beating} → Reach threads s → Inv threads s
Reach-Inv {threads} start = record {
  held = refl;
  counted = omega (arith, in_between_idle threads);
  reading = tt;
}
Reach-Inv (later r st) = Step-Inv st (Reach-Inv r)

-- The age that a watcher sees is right by one heartbeat for each thread. In every state that any number
-- of threads that publish, threads that switch the channel and the watcher can reach, one shared access
-- at a time and in any order, with a number that does not wrap, a call of `read_heartbeat` that has
-- returned gives the time of a heartbeat, by the order in which the times were stored. Its number is not
-- below the one that its last attempt saw first, and above the one that it returns by the number of
-- threads at most. So where one thread publishes and the two looks agree, it is the time of that
-- heartbeat or of the next.
pub returned-issued :
    {threads : ℕ} {s : Beating}
    → Reach threads s
    → (a : Attempt) → s.reader ≡ returned a
    → (a.after ≤ s.slot.sequence)
      × ((m : ℕ) × (a.before ≤ m) × (m ≤ a.after + threads) × (a.timestamp_ns ≡ s.issued m))
returned-issued {threads} {s} r a e =
    let ok = subst (ReaderOk threads s.issued s.slot.sequence s.newest) e (Reach-Inv r).reading in
    (ok.0, (ok.1.0, ok.1.1, ok.1.3, ok.1.4))
