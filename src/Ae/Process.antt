-- ===== src/Ae/Process.antt =====
-- ae.c: one round of the event loop, and the loop.
pub mod Order
pub mod Timeout
use decompose_redis.Base.{
  ℕ, zero, suc, ◌+◌, ◌-◌, ◌*◌, ◌≡◌, Bool, true, false, not, ◌&&◌, ◌||◌, List, [], ◌∷◌, Option, some,
  none, ◌==◌, if◌then◌else◌, length,
}
use decompose_redis.Base.Int.{ℤ, pos, negsuc}
use decompose_redis.Ae.{
  Mask, FileEvent, FiredEvent, TimeEvent, EventLoop, Api, Clock, Procs, event_at,
}
use decompose_redis.Ae.FileEvents.{next_fd}
use decompose_redis.Ae.TimeEvents.{
  ae_search_nearest_timer, Walked, walked, dangling, out_of_fuel, process_time_events,
}

-- The bits AE_FILE_EVENTS, AE_TIME_EVENTS, AE_DONT_WAIT and AE_CALL_AFTER_SLEEP.
pub record Flags : Type 0 where
  pub file_events : Bool
  pub time_events : Bool
  pub dont_wait : Bool
  pub call_after_sleep : Bool

module _ {W : Type 0} (procs : Procs W) where
  -- The three calls for one fired event: readable, unless AE_BARRIER was set; writable; readable
  -- then, if it was. The slot `fe` is read again before each; `fired` is the number of calls made, and
  -- a second call is made only to another function.
  first_read : EventLoop W → FiredEvent → EventLoop W × ℕ
  first_read el f =
      let fe = event_at el.events f.fd in
      if not fe.mask.barrier && (fe.mask.readable && f.mask.readable)
      then (procs.file_proc fe.rfile_proc el f.fd fe.client_data f.mask, 1)
      else (el, 0)

  then_write : EventLoop W × ℕ → FiredEvent → EventLoop W × ℕ
  then_write (el, fired) f =
      let fe = event_at el.events f.fd in
      if (fe.mask.writable && f.mask.writable)
        && (fired == 0 || not (fe.wfile_proc == fe.rfile_proc))
      then (procs.file_proc fe.wfile_proc el f.fd fe.client_data f.mask, fired + 1)
      else (el, fired)

  last_read : Bool → EventLoop W × ℕ → FiredEvent → EventLoop W
  last_read invert (el, fired) f =
      let fe = event_at el.events f.fd in
      if invert
        && (fe.mask.readable && f.mask.readable)
        && (fired == 0 || not (fe.wfile_proc == fe.rfile_proc))
      then procs.file_proc fe.rfile_proc el f.fd fe.client_data f.mask
      else el

  -- `fe` points into the array `events`: `none` if a callback has reallocated the array and `fe` is
  -- read again.
  unfoldable pub dispatch : EventLoop W → FiredEvent → Option (EventLoop W)
  unfolding first_read then_write last_read
  dispatch el f =
      let invert = (event_at el.events f.fd).mask.barrier in
      let r1 = first_read el f in
      let r2 = then_write r1 f in
      if not (r1.0.table == el.table)
      then none
      else if invert && not (r2.0.table == el.table)
      then none
      else some (last_read invert r2 f)

  unfoldable pub dispatch_all : EventLoop W → List FiredEvent → Option (EventLoop W)
  dispatch_all el [] = some el
  dispatch_all el (f ∷ fs) = elim (dispatch el f) [ none ↦ none | some el' ↦ dispatch_all el' fs ]

  abbrev sleep_call : Option ℕ → EventLoop W → EventLoop W
  sleep_call none el = el
  sleep_call (some f) el = procs.sleep_proc f el

module _ {W : Type 0} (clock : Clock W) where
  -- The time until the event, in milliseconds, and 0 if it has passed.
  unfoldable pub time_to : ℕ × ℕ → TimeEvent → ℕ
  time_to (now_sec, now_ms) te = te.when_sec * 1000 + te.when_ms - (now_sec * 1000 + now_ms)

  -- The timeout for aeApiPoll; `none` waits for ever.
  abbrev timeout_for : Option TimeEvent → ℕ × ℕ → Bool → Option ℕ
  timeout_for (some te) now dont_wait = some (time_to now te)
  timeout_for none now dont_wait = if dont_wait then some 0 else none

  unfoldable pub poll_timeout : EventLoop W → Flags → Option ℕ
  poll_timeout el flags =
      timeout_for
        (if flags.time_events && not flags.dont_wait
          then ae_search_nearest_timer el.time_events
          else none)
        (clock.get_time el.world) flags.dont_wait

module _ {W : Type 0} (api : Api W) (clock : Clock W) (procs : Procs W) where
  -- The poll, the aftersleep callback, and the fired events. `fired` is taken as aeApiPoll left it.
  unfoldable pub process_file_events : EventLoop W → Flags → Walked (EventLoop W × ℕ)
  process_file_events el flags =
      let polled = api.poll el.world el.setsize (poll_timeout clock el flags) in
      let awake = record el { world = polled.1 } in
      let woken =
        if flags.call_after_sleep then sleep_call procs awake.aftersleep awake else awake in
      elim (dispatch_all procs woken polled.0) [
        | none ↦ dangling
        | some el' ↦ walked (el', length polled.0)
      ]

  abbrev count_more : ℕ → Walked (EventLoop W × ℕ) → Walked (EventLoop W × ℕ)
  count_more n (walked (el, m)) = walked (el, n + m)
  count_more n dangling = dangling
  count_more n out_of_fuel = out_of_fuel

  -- The time events, after the file events have been processed.
  abbrev then_time_events : Walked (EventLoop W × ℕ) → Walked (EventLoop W × ℕ)
  then_time_events (walked (el, n)) = count_more n (process_time_events clock procs el)
  then_time_events dangling = dangling
  then_time_events out_of_fuel = out_of_fuel

  unfoldable pub ae_process_events : EventLoop W → Flags → Walked (EventLoop W × ℕ)
  ae_process_events el flags =
      let polls = not (next_fd el.maxfd == 0) || (flags.time_events && not flags.dont_wait) in
      let done = if polls then process_file_events el flags else walked (el, 0) in
      if not flags.time_events && not flags.file_events
      then walked (el, 0)
      else if flags.time_events
      then then_time_events done
      else done

  abbrev all_events : Flags
  all_events = record {
    file_events = true;
    time_events = true;
    dont_wait = false;
    call_after_sleep = true;
  }

  -- `while (!eventLoop->stop)`, for as many rounds as the fuel allows.
  unfoldable pub main_loop : ℕ → EventLoop W → Walked (EventLoop W)
  main_loop zero el = if el.stop then walked el else out_of_fuel
  main_loop (suc fuel) el = elim el.stop [
    | true ↦ walked el
    | false ↦ elim (ae_process_events (sleep_call procs el.beforesleep el) all_events) [
      | walked (el', n) ↦ main_loop fuel el'
      | dangling ↦ dangling
      | out_of_fuel ↦ out_of_fuel
    ]
  ]

  unfoldable pub ae_main : ℕ → EventLoop W → Walked (EventLoop W)
  ae_main fuel el = main_loop fuel (record el { stop = false })

unfoldable pub ae_stop : {W : Type 0} → EventLoop W → EventLoop W
ae_stop el = record el { stop = true }

unfoldable pub ae_set_before_sleep_proc : {W : Type 0} → EventLoop W → Option ℕ → EventLoop W
ae_set_before_sleep_proc el f = record el { beforesleep = f }

unfoldable pub ae_set_after_sleep_proc : {W : Type 0} → EventLoop W → Option ℕ → EventLoop W
ae_set_after_sleep_proc el f = record el { aftersleep = f }

-- What poll(2) returns for one descriptor: 1, with the bits POLLIN, POLLOUT, POLLERR and POLLHUP of
-- `revents`, or another number.
pub data Polled : Type 0 where
  ready : (pollin pollout pollerr pollhup : Bool) → Polled
  returned : ℤ → Polled

-- A mask, or the number that poll(2) returned.
pub data Waited : Type 0 where
  waited : Mask → Waited
  not_ready : ℤ → Waited

wait_result : Polled → Waited
wait_result (ready pollin pollout pollerr pollhup) =
    waited (record { readable = pollin; writable = pollout || pollerr || pollhup; barrier = false })
wait_result (returned n) = not_ready n

-- `poll` is poll(2) on one descriptor, asked for POLLIN and POLLOUT and given the milliseconds.
unfoldable pub ae_wait : (ℕ → Bool → Bool → ℤ → Polled) → ℕ → Mask → ℤ → Waited
unfolding wait_result
ae_wait poll fd mask milliseconds = wait_result (poll fd mask.readable mask.writable milliseconds)
