-- ===== src/Ae/TimeEvents/Sweep.antt =====
-- ae.c: what processTimeEvents is to do with each event that it visits, in terms of the callbacks.
use decompose_redis.Base.{
  ℕ, ◌+◌, ◌*◌, ◌≤◌, ◌<◌, ◌≡◌, ◌⊎◌, true, false, List, [], ◌∷◌, Option, some, none, arith,
}
use decompose_redis.Ae.{TimeEvent, EventLoop, Clock, Procs}
use decompose_redis.Ae.TimeEvents.{is_due}
use decompose_redis.Ae.TimeEvents.Nearest.{In}
use decompose_redis.Ae.TimeEvents.Nodes.{rewritten, without}

-- The time of the event is not after `now`.
abbrev pub Due : ℕ × ℕ → TimeEvent → Type 0
Due now te = (te.when_sec < now.0) ⊎ ((te.when_sec ≡ now.0) × (te.when_ms ≤ now.1))

pub is_due-Due : (now : ℕ × ℕ) (te : TimeEvent) → is_due now te ≡ true → Due now te
unfolding is_due
is_due-Due now te h = ground arith

pub is_due-early : (now : ℕ × ℕ) (te : TimeEvent) → is_due now te ≡ false → Due now te → ⊥
unfolding is_due
is_due-early now te h d = ground arith

module _ {W : Type 0} (clock : Clock W) (procs : Procs W) where
  -- The event is marked as deleted if its callback has returned AE_NOMORE, and else is due again so
  -- many milliseconds after the time now.
  pub data Rescheduled (el : EventLoop W) (a : ℕ) (ret : Option ℕ) (el' : EventLoop W)
      : Type 0 where
    no_more :
        ret ≡ none
        → el' ≡ record el { time_events = rewritten a (λ t. record t { id = none }) el.time_events }
        → Rescheduled el a ret el'
    again :
        (ms sec' ms' : ℕ)
        → ret ≡ some ms
        → sec' * 1000 + ms' ≡ (clock.get_time el.world).0 * 1000 + (clock.get_time el.world).1 + ms
        → ((clock.get_time el.world).1 < 1000 → ms' < 1000)
        → el' ≡ record el {
          time_events =
              rewritten a (λ t. record t { when_sec = sec'; when_ms = ms' }) el.time_events;
        }
        → Rescheduled el a ret el'

  -- The event is taken out of the list, and then its finalizer is called, if it has one.
  abbrev pub finalized : EventLoop W → TimeEvent → Option ℕ → EventLoop W
  finalized el te none = record el { time_events = without te.node el.time_events }
  finalized el te (some f) =
      procs.finalizer_proc f (record el { time_events = without te.node el.time_events })
        te.client_data

  -- What a visit of the event `te` makes of the loop, and how many events it counts as processed.
  pub data Visited (next_id : ℕ) (el : EventLoop W) (te : TimeEvent) (el' : EventLoop W) (n : ℕ)
      : Type 0 where
    deleted :
        te.id ≡ none → el' ≡ finalized el te te.finalizer_proc → n ≡ 0 → Visited next_id el te el' n
    too_new :
        (id : ℕ) → te.id ≡ some id → next_id ≤ id → el' ≡ el → n ≡ 0 → Visited next_id el te el' n
    early :
        (id : ℕ)
        → te.id ≡ some id
        → id < next_id
        → (Due (clock.get_time el.world) te → ⊥)
        → el' ≡ el
        → n ≡ 0
        → Visited next_id el te el' n
    ran :
        (id : ℕ)
        → te.id ≡ some id
        → id < next_id
        → Due (clock.get_time el.world) te
        → Rescheduled
            (procs.time_proc te.time_proc el id te.client_data).0
            te.node
            (procs.time_proc te.time_proc el id te.client_data).1
            el'
        → n ≡ 1
        → Visited next_id el te el' n

  -- The visits of the given nodes, one after the other, and the number of events processed.
  pub data Sweeps (next_id : ℕ) : List ℕ → EventLoop W → EventLoop W → ℕ → Type 0 where
    swept : (el : EventLoop W) → Sweeps next_id [] el el 0
    visited :
        (a : ℕ) (ns : List ℕ) (el el1 el2 : EventLoop W) (te : TimeEvent) (n m : ℕ)
        → In te el.time_events
        → te.node ≡ a
        → Visited next_id el te el1 n
        → Sweeps next_id ns el1 el2 m
        → Sweeps next_id (a ∷ ns) el el2 (n + m)
