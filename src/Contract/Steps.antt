-- ===== src/Contract/Steps.antt =====
-- One call of the code against one step of the board.
use Prim.Native.Nat.{min}
use peepbooth.Base.{
  ℕ, zero, suc, ◌+◌, ◌-◌, ◌%◌, ◌<◌, ◌≡◌, refl, [], ◌∷◌, ◌++◌, Bool, true, false, not, ◌||◌, ◌==◌,
  ltb, leb, if◌then◌else◌, update, length, replicate, some, none, arith,
}
use peepbooth.SharedState.{
  SharedState, Channel, Breadcrumb, channel_index, heartbeat_channel_count, u64_mod,
}
use peepbooth.Client.{
  Client, lease_check, claim, beat, heartbeat_in, channel_active_in, breadcrumb_in,
  append_breadcrumb, minimum_interval_ns,
}
use peepbooth.Session.{renewed}
use peepbooth.Session.History.{Fits, append-IsLogged}
use peepbooth.Contract.{Board, look, pulse_board, beat_board, switched, switch_board, leave_board}
use peepbooth.Contract.Shown.{
  pulses-update, Shows, Shows-if, Shows-if_record, Shows-look, lease_check-watched,
}

claim-replicate :
    (now next retries : ℕ)
    → claim now next (replicate retries next)
      ≡ (if ltb now next then none else some ((now + minimum_interval_ns) % u64_mod))
unfolding claim
claim-replicate now next zero = refl
claim-replicate now next (suc retries) = ground (arith, claim-replicate now next retries)

-- `heartbeat` on a record: past its three tests the slot is written.
heartbeat_in-tests :
    (c : Client) (value : Channel) (now retries : ℕ) (s : SharedState)
    → (let index = channel_index value in
        let next = c.next_heartbeat_ns index in
        let (good, looked) = lease_check now s in
        heartbeat_in c value now (replicate retries next) s ≡ (
          if not good || leb heartbeat_channel_count index || ltb now next then (c, looked) else (
            record c {
              next_heartbeat_ns =
                  update c.next_heartbeat_ns index ((now + minimum_interval_ns) % u64_mod);
            },
            record looked {
              heartbeats = update looked.heartbeats index (beat now (looked.heartbeats index));
            },
          )))
unfolding heartbeat_in lease_check
heartbeat_in-tests c value now retries s =
    ground (arith, claim-replicate now (c.next_heartbeat_ns (channel_index value)) retries)

Shows-pulse :
    (index now : ℕ) (b : Board) (c : Client) (s : SharedState)
    → now + minimum_interval_ns < u64_mod
    → Shows b c s
    → Shows
        (pulse_board index now b)
        (record c {
          next_heartbeat_ns =
              update c.next_heartbeat_ns index ((now + minimum_interval_ns) % u64_mod);
        })
        (record s { heartbeats = update s.heartbeats index (beat now (s.heartbeats index)) })
unfolding beat
Shows-pulse index now b c s fits h = record {
  watched = h.watched;
  lease = h.lease;
  name = h.name;
  lifecycle = h.lifecycle;
  throttle = λ i. ground (arith, h.throttle i);
  pulses =
      pulses-update b.channels s.heartbeats index _ _ h.pulses
        (record { flag = refl; stamp = refl; count = omega (arith, (h.pulses index).count) });
  logged = record { counted = h.logged.counted; held = h.logged.held };
}

Shows-switched :
    (index : ℕ) (active : ℕ) (b : Board) (c : Client) (s : SharedState)
    → Shows b c s
    → Shows (switched index (not (active == 0)) b) c (record s {
      heartbeats = update s.heartbeats index (record (s.heartbeats index) { active = active });
    })
Shows-switched index active b c s h = record {
  watched = h.watched;
  lease = h.lease;
  name = h.name;
  lifecycle = h.lifecycle;
  throttle = h.throttle;
  pulses =
      pulses-update b.channels s.heartbeats index _ _ h.pulses
        (record { flag = refl; stamp = (h.pulses index).stamp; count = (h.pulses index).count });
  logged = record { counted = h.logged.counted; held = h.logged.held };
}

breadcrumb_in-tests :
    (entry : Breadcrumb) (s : SharedState)
    → (let (good, looked) = lease_check entry.timestamp_ns s in
        breadcrumb_in entry s ≡ (if good then append_breadcrumb entry looked else looked))
unfolding breadcrumb_in lease_check
breadcrumb_in-tests entry s = ground arith

Shows-append :
    (entry : Breadcrumb) (b : Board) (c : Client) (s : SharedState)
    → Fits entry
    → length b.log + 1 < u64_mod
    → Shows b c s
    → Shows (record b { log = b.log ++ (entry ∷ []) }) c (append_breadcrumb entry s)
unfolding append_breadcrumb
Shows-append entry b c s fits small h = record {
  watched = h.watched;
  lease = h.lease;
  name = h.name;
  lifecycle = h.lifecycle;
  throttle = h.throttle;
  pulses = h.pulses;
  logged = append-IsLogged b.log entry s h.logged small fits;
}

-- `heartbeat`, `set_channel_active`, `breadcrumb` and `renew_lease` on a record that shows a board.
pub Shows-beat :
    (value : Channel) (now retries : ℕ) (b : Board) (c : Client) (s : SharedState)
    → now + minimum_interval_ns < u64_mod
    → Shows b c s
    → (let r =
          heartbeat_in c value now
            (replicate retries (c.next_heartbeat_ns (channel_index value)))
            s in
        Shows (beat_board (channel_index value) now b) r.0 r.1)
Shows-beat value now retries b c s fits h =
    let index = channel_index value in
    let looked = Shows-look now b c s h in
    rw (heartbeat_in-tests c value now retries s, lease_check-watched now b c s h, h.throttle index)
      (Shows-if
        (not (look now b).watched || leb heartbeat_channel_count index || ltb now (b.next index))
        (look now b) (pulse_board index now (look now b)) _ _ looked
        (Shows-pulse index now (look now b) c (lease_check now s).1 fits looked))

pub Shows-switch :
    (value : Channel) (active : Bool) (now retries : ℕ) (b : Board) (c : Client) (s : SharedState)
    → now + minimum_interval_ns < u64_mod
    → Shows b c s
    → (let r =
          channel_active_in c value active now
            (replicate retries (c.next_heartbeat_ns (channel_index value)))
            s in
        Shows (switch_board (channel_index value) active now b) r.0 r.1)
unfolding channel_active_in
Shows-switch value true now retries b c s fits h =
    let index = channel_index value in
    Shows-if (leb heartbeat_channel_count index) b (beat_board index now (switched index true b)) _
      _ h
      (Shows-beat value now retries (switched index true b) c _ fits
        (Shows-switched index 1 b c s h))
Shows-switch value false now retries b c s fits h =
    let index = channel_index value in
    Shows-if (leb heartbeat_channel_count index) b (switched index false b) _ _ h
      (Shows-switched index 0 b c s h)

pub Shows-leave :
    (entry : Breadcrumb) (b : Board) (c : Client) (s : SharedState)
    → Fits entry
    → length b.log + 1 < u64_mod
    → Shows b c s
    → Shows (leave_board entry b) c (breadcrumb_in entry s)
Shows-leave entry b c s fits small h =
    let now = entry.timestamp_ns in
    let looked = Shows-look now b c s h in
    rw (breadcrumb_in-tests entry s, lease_check-watched now b c s h)
      (Shows-if_record (look now b).watched (record (look now b) { log = b.log ++ (entry ∷ []) })
        (look now b) c _ _
        (Shows-append entry (look now b) c (lease_check now s).1 fits small looked) looked)

pub Shows-renew :
    (now duration : ℕ) (b : Board) (c : Client) (s : SharedState)
    → now < u64_mod
    → Shows b c s
    → Shows
        (record b { watched = true; lease_until = min (now + duration) (u64_mod - 1) })
        c
        (renewed now duration s)
unfolding renewed
Shows-renew now duration b c s small h = record {
  watched = refl;
  lease = ground arith;
  name = h.name;
  lifecycle = h.lifecycle;
  throttle = h.throttle;
  pulses = h.pulses;
  logged = record { counted = h.logged.counted; held = h.logged.held };
}
