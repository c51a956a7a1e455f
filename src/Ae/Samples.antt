-- ===== src/Ae/Samples.antt =====
-- The theorems on ae.c at a concrete loop. Its world is the log of the callbacks, latest first.
use decompose_redis.Base.{
  ℕ, zero, suc, ◌+◌, ◌<◌, ◌≤◌, ◌≡◌, refl, ◌⊎◌, inr, true, false, List, [], ◌∷◌, Option, some, none,
  ltb, ◌==◌, if◌then◌else◌, arith,
}
use decompose_redis.Base.Int.{pos}
use decompose_redis.Ae.{
  Mask, mask_or, is_none, FileEvent, FiredEvent, TimeEvent, EventLoop, Api, Clock, Procs, no_event,
  event_at,
}
use decompose_redis.Ae.FileEvents.{
  ae_get_file_events, ae_create_file_event, ae_delete_file_event, ae_resize_set_size,
}
use decompose_redis.Ae.FileEvents.Laws.{IsValid}
use decompose_redis.Ae.FileEvents.Create.{create_file_event-masks}
use decompose_redis.Ae.FileEvents.Delete.{left_of, delete_file_event-masks}
use decompose_redis.Ae.FileEvents.Resize.{resize_set_size-masks}
use decompose_redis.Ae.TimeEvents.{walked, process_time_events, ae_search_nearest_timer}
use decompose_redis.Ae.TimeEvents.Nearest.{In, here, NoneBefore, search_nearest_timer-NoneBefore}
use decompose_redis.Ae.TimeEvents.Walk.{DoPrepend, reset, process_time_events-sweep}
use decompose_redis.Ae.TimeEvents.Nodes.{Distinct, nodes}
use decompose_redis.Ae.TimeEvents.Sweep.{Sweeps}
use decompose_redis.Ae.Process.{Flags, dispatch, poll_timeout}
use decompose_redis.Ae.Process.Timeout.{IsAway, poll_timeout-time_to}
use decompose_redis.Ae.Process.Order.{calls, run_calls, dispatch-calls}

abbrev Log : Type 0
Log = List ℕ

abbrev willing : Api Log
willing = record {
  add_event = λ w old fd mask. some w;
  del_event = λ w old fd mask. w;
  resize = λ w n. some w;
  poll = λ w setsize timeout. ([], w);
}

-- Five seconds past the epoch.
abbrev five : Clock Log
five = record { get_time = λ w. (5, 250); time = λ w. 5 }

abbrev logged : ℕ → EventLoop Log → EventLoop Log
logged p el = record el { world = p ∷ el.world }

-- Every callback writes its address to the log; a timer runs once.
abbrev loggers : Procs Log
loggers = record {
  file_proc = λ p el fd d mask. logged p el;
  time_proc = λ p el id d. (logged p el, none);
  finalizer_proc = λ p el d. logged p el;
  sleep_proc = logged;
}

abbrev read_mask : Mask
read_mask = record { readable = true; writable = false; barrier = false }

abbrev write_mask : Mask
write_mask = record { readable = false; writable = true; barrier = true }

abbrev both : Mask
both = record { readable = true; writable = true; barrier = true }

abbrev slot : FileEvent
slot = record { mask = both; rfile_proc = 1; wfile_proc = 2; client_data = 9 }

abbrev timer : ℕ → Option ℕ → ℕ → ℕ → TimeEvent
timer node id sec ms = record {
  node = node;
  id = id;
  when_sec = sec;
  when_ms = ms;
  time_proc = 30 + node;
  finalizer_proc = some (40 + node);
  client_data = 0;
}

-- Descriptor 1 of three is registered; one timer is due, one is marked as deleted, one is early.
abbrev running : EventLoop Log
running = record {
  maxfd = pos 1;
  setsize = 3;
  time_event_next_id = 7;
  last_time = 4;
  events = no_event ∷ slot ∷ no_event ∷ [];
  table = 0;
  time_events = timer 3 (some 6) 5 200 ∷ timer 2 none 0 0 ∷ timer 1 (some 4) 6 0 ∷ [];
  stop = false;
  beforesleep = none;
  aftersleep = none;
  world = [];
}

above_one : (fd : ℕ) → 2 ≤ fd → is_none (event_at running.events fd).mask ≡ true
above_one zero h = absurd (omega arith)
above_one (suc zero) h = absurd (omega arith)
above_one (suc (suc zero)) h = refl
above_one (suc (suc (suc fd))) h = refl

running-IsValid : IsValid running
running-IsValid = record {
  size = refl;
  within = omega arith;
  above = above_one;
  top = inr (1, refl, refl);
}

loggers-DoPrepend : DoPrepend loggers
loggers-DoPrepend = record {
  timer = λ f el id d. record { front = []; kept = refl; distinct = λ h. h };
  finalizer = λ f el d. record { front = []; kept = refl; distinct = λ h. h };
}

create_file_event-masks_example :
    let r = ae_create_file_event willing running 2 read_mask 5 8 in
    IsValid r.0
    × ((r.1 ≡ true)
          × (2 < 3)
          × ((i : ℕ)
              → ae_get_file_events r.0 i ≡ (
                  if 2 == i
                  then mask_or (ae_get_file_events running 2) read_mask
                  else ae_get_file_events running i))
        ⊎ (r.1 ≡ false) × (r.0 ≡ running))
create_file_event-masks_example =
    create_file_event-masks willing running 2 read_mask 5 8 running-IsValid refl

delete_file_event-masks_example :
    let el' = ae_delete_file_event willing running 1 write_mask in
    IsValid el'
    × ((i : ℕ)
        → ae_get_file_events el' i ≡ (
            if 1 == i
            then left_of (ae_get_file_events running 1) write_mask
            else ae_get_file_events running i))
delete_file_event-masks_example =
    delete_file_event-masks willing running 1 write_mask running-IsValid

resize_set_size-masks_example :
    let r = ae_resize_set_size willing running (slot ∷ []) 4 in
    IsValid r.0
    × ((i : ℕ) → ae_get_file_events r.0 i ≡ ae_get_file_events running i)
    × ((r.1 ≡ true) × (r.0.setsize ≡ 4)
        ⊎ (r.1 ≡ false) × (r.0 ≡ running) × ((4 < 2) ⊎ (willing.resize [] 4 ≡ none)))
resize_set_size-masks_example =
    resize_set_size-masks willing running (slot ∷ []) 4 running-IsValid (omega arith)

search_nearest_timer-NoneBefore_example :
    ((running.time_events ≡ []) × (ae_search_nearest_timer running.time_events ≡ none))
    ⊎ ((m : TimeEvent) × (ae_search_nearest_timer running.time_events ≡ some m)
        × In m running.time_events
        × NoneBefore m running.time_events)
search_nearest_timer-NoneBefore_example = search_nearest_timer-NoneBefore running.time_events

running-Distinct : Distinct (nodes running.time_events)
running-Distinct = ground arith

process_time_events-sweep_example :
    let tes = if ltb 5 4 then reset running.time_events else running.time_events in
    (el' : EventLoop Log) × (n : ℕ) × (process_time_events five loggers running ≡ walked (el', n))
    × Sweeps five loggers 7
        (3 ∷ 2 ∷ 1 ∷ [])
        (record running { time_events = tes; last_time = 5 })
        el'
        n
process_time_events-sweep_example =
    process_time_events-sweep five loggers loggers-DoPrepend running running-Distinct

abbrev fired_both : FiredEvent
fired_both = record { fd = 1; mask = both }

dispatch-calls_example :
    dispatch loggers running fired_both
    ≡ some (run_calls loggers running 1 9 both (calls slot both))
dispatch-calls_example = dispatch-calls loggers running fired_both (λ p el'. refl) (λ p el'. refl)

-- With AE_BARRIER the writable callback, 2, comes before the readable one, 1.
barrier_inverts : dispatch loggers running fired_both ≡ some (record running { world = 1 ∷ 2 ∷ [] })
unfolding dispatch
barrier_inverts = refl

-- One timer in 650 milliseconds, one in 750.
abbrev waiting : EventLoop Log
waiting = record running { time_events = timer 2 (some 5) 6 0 ∷ timer 1 (some 4) 5 900 ∷ [] }

abbrev time_flags : Flags
time_flags = record {
  file_events = true;
  time_events = true;
  dont_wait = false;
  call_after_sleep = true;
}

poll_timeout-time_to_example :
    (t : ℕ) × (poll_timeout five waiting time_flags ≡ some t)
    × ((m : TimeEvent) × In m waiting.time_events × IsAway (5, 250) m t)
    × ((t ≡ 0) ⊎ (5250 + t ≤ 6000))
poll_timeout-time_to_example =
    poll_timeout-time_to five waiting time_flags (timer 2 (some 5) 6 0) refl refl
      (omega arith, (omega arith, tt)) here
