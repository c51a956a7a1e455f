-- ===== src/Ae/TimeEvents.antt =====
-- ae.c: the timer list and its clock. A list is walked by its nodes, since the callbacks may add
-- events and mark others between two steps; a node that is not there is a dangling pointer.
pub mod Nearest
pub mod Nodes
pub mod Sweep
pub mod Walk
use decompose_redis.Base.{
  ℕ, zero, suc, ◌+◌, ◌-◌, ◌*◌, ◌/◌, ◌%◌, ◌≡◌, Bool, true, false, not, List, [], ◌∷◌, Option, some,
  none, leb, ltb, ◌==◌, ◌&&◌, ◌||◌, if◌then◌else◌, length,
}
use decompose_redis.Ae.{TimeEvent, EventLoop, Clock, Procs}

-- aeAddMillisecondsToNow, for a number of milliseconds that is not negative, from the time `now`.
unfoldable pub ae_add_milliseconds : ℕ × ℕ → ℕ → ℕ × ℕ
ae_add_milliseconds (sec, ms) n =
    if leb 1000 (ms + n % 1000)
    then (sec + n / 1000 + 1, ms + n % 1000 - 1000)
    else (sec + n / 1000, ms + n % 1000)

abbrev pub id_is : Option ℕ → ℕ → Bool
id_is none n = false
id_is (some i) n = i == n

-- The first event with the id is marked as deleted; `none` if there is none.
unfoldable pub mark_deleted : ℕ → List TimeEvent → Option (List TimeEvent)
mark_deleted n [] = none
mark_deleted n (te ∷ tes) =
    let rest = mark_deleted n tes in
    if id_is te.id n
    then some (record te { id = none } ∷ tes)
    else elim rest [ none ↦ none | some tes' ↦ some (te ∷ tes') ]

-- `!nearest || te->when < nearest->when`, the order of two times.
unfoldable pub when_before : TimeEvent → TimeEvent → Bool
when_before a b =
    ltb a.when_sec b.when_sec || ((a.when_sec == b.when_sec) && ltb a.when_ms b.when_ms)

unfoldable pub nearest_loop : Option TimeEvent → List TimeEvent → Option TimeEvent
nearest_loop nearest [] = nearest
nearest_loop none (te ∷ tes) = nearest_loop (some te) tes
nearest_loop (some n) (te ∷ tes) = nearest_loop (some (if when_before te n then te else n)) tes

unfoldable pub ae_search_nearest_timer : List TimeEvent → Option TimeEvent
unfolding nearest_loop
ae_search_nearest_timer tes = nearest_loop none tes

module _ {W : Type 0} (clock : Clock W) where
  -- `node` is the address of the new node, `none` when there is no memory; `none` is AE_ERR.
  unfoldable pub ae_create_time_event :
      EventLoop W → Option ℕ → ℕ → ℕ → ℕ → Option ℕ → EventLoop W × Option ℕ
  ae_create_time_event el none ms proc client_data finalizer =
      (record el { time_event_next_id = el.time_event_next_id + 1 }, none)
  ae_create_time_event el (some node) ms proc client_data finalizer =
      let at = ae_add_milliseconds (clock.get_time el.world) ms in
      (
        record el {
          time_event_next_id = el.time_event_next_id + 1;
          time_events =
              record {
                node = node;
                id = some el.time_event_next_id;
                when_sec = at.0;
                when_ms = at.1;
                time_proc = proc;
                finalizer_proc = finalizer;
                client_data = client_data;
              }
              ∷ el.time_events;
        },
        some el.time_event_next_id,
      )

  unfoldable pub ae_delete_time_event : EventLoop W → ℕ → EventLoop W × Bool
  ae_delete_time_event el n = elim (mark_deleted n el.time_events) [
    | none ↦ (el, false)
    | some tes ↦ (record el { time_events = tes }, true)
  ]

unfoldable pub find_node : ℕ → List TimeEvent → Option TimeEvent
find_node a [] = none
find_node a (te ∷ tes) = if te.node == a then some te else find_node a tes

abbrev pub head_node : List TimeEvent → Option ℕ
head_node [] = none
head_node (te ∷ tes) = some te.node

-- `te->next` of the node `a`.
unfoldable pub next_node : ℕ → List TimeEvent → Option ℕ
next_node a [] = none
next_node a (te ∷ tes) = if te.node == a then head_node tes else next_node a tes

-- The four writes that take a node out of the list.
unfoldable pub unlink : ℕ → List TimeEvent → List TimeEvent
unlink a [] = []
unlink a (te ∷ tes) = if te.node == a then tes else te ∷ unlink a tes

-- A write to the node `a`, which is in the list.
unfoldable pub update_node : ℕ → (TimeEvent → TimeEvent) → List TimeEvent → List TimeEvent
update_node a f [] = []
update_node a f (te ∷ tes) = if te.node == a then f te ∷ tes else te ∷ update_node a f tes

-- The clock went back: every event is made due.
unfoldable pub reset_when : List TimeEvent → List TimeEvent
reset_when [] = []
reset_when (te ∷ tes) = record te { when_sec = 0 } ∷ reset_when tes

unfoldable pub is_due : ℕ × ℕ → TimeEvent → Bool
is_due (now_sec, now_ms) te =
    ltb te.when_sec now_sec || ((now_sec == te.when_sec) && leb te.when_ms now_ms)

-- How a walk ends: with the loop and the number of events processed, at a dangling pointer, or with
-- no more fuel.
pub data Walked {ℓ} (A : Type ℓ) : Type ℓ where
  walked : A → Walked A
  dangling : Walked A
  out_of_fuel : Walked A

module _ {W : Type 0} (clock : Clock W) (procs : Procs W) where
  -- What the return value of a timer leaves at its node: the mark, or the next run.
  reschedule : EventLoop W → ℕ → Option ℕ → EventLoop W
  reschedule el a none = record el {
    time_events = update_node a (λ t. record t { id = none }) el.time_events;
  }
  reschedule el a (some ms) =
      let at = ae_add_milliseconds (clock.get_time el.world) ms in
      record el {
        time_events =
            update_node a (λ t. record t { when_sec = at.0; when_ms = at.1 }) el.time_events;
      }

  -- A due event: its callback, and what comes of the return value; `none` if the callback has freed
  -- the node, which is written to.
  unfoldable pub fire : EventLoop W → TimeEvent → ℕ → Option (EventLoop W)
  unfolding reschedule
  fire el te id =
      let r = procs.time_proc te.time_proc el id te.client_data in
      elim (find_node te.node r.0.time_events) [
        | none ↦ none
        | some t ↦ some (reschedule r.0 te.node r.1)
      ]

  run_finalizer : EventLoop W → Option ℕ → ℕ → EventLoop W
  run_finalizer el none client_data = el
  run_finalizer el (some f) client_data = procs.finalizer_proc f el client_data

  -- Unlinks a node that is marked as deleted and runs its finalizer.
  unfoldable pub finalize : EventLoop W → TimeEvent → EventLoop W
  unfolding run_finalizer
  finalize el te =
      run_finalizer (record el { time_events = unlink te.node el.time_events }) te.finalizer_proc
        te.client_data

  after_fire : ℕ → Option (EventLoop W) → Option (EventLoop W × Option ℕ × ℕ)
  after_fire a none = none
  after_fire a (some el) = some (el, next_node a el.time_events, 1)

  visit_id : ℕ → EventLoop W → TimeEvent → Option ℕ → Option (EventLoop W × Option ℕ × ℕ)
  unfolding after_fire
  visit_id next_id el te none = some (finalize el te, next_node te.node el.time_events, 0)
  visit_id next_id el te (some id) =
      if leb next_id id
      then some (el, next_node te.node el.time_events, 0)
      else if is_due (clock.get_time el.world) te
      then after_fire te.node (fire el te id)
      else some (el, next_node te.node el.time_events, 0)

  -- One round at the node `te`: the loop, the next node and the number of events processed; `none` at
  -- a dangling pointer. An id past `maxId` is one from `next_id` on.
  unfoldable pub visit : ℕ → EventLoop W → TimeEvent → Option (EventLoop W × Option ℕ × ℕ)
  unfolding visit_id
  visit next_id el te = visit_id next_id el te te.id

  unfoldable pub walk : ℕ → ℕ → EventLoop W → Option ℕ → ℕ → Walked (EventLoop W × ℕ)
  walk fuel next_id el none processed = walked (el, processed)
  walk zero next_id el (some a) processed = out_of_fuel
  walk (suc fuel) next_id el (some a) processed = elim (find_node a el.time_events) [
    | none ↦ dangling
    | some te ↦ elim (visit next_id el te) [
      | none ↦ dangling
      | some v ↦ walk fuel next_id v.0 v.1 (processed + v.2)
    ]
  ]

  unfoldable pub process_time_events : EventLoop W → Walked (EventLoop W × ℕ)
  process_time_events el =
      let now = clock.time el.world in
      let tes = if ltb now el.last_time then reset_when el.time_events else el.time_events in
      walk (length tes) el.time_event_next_id (record el { time_events = tes; last_time = now })
        (head_node tes) 0
