-- ===== src/Ae/TimeEvents/Walk.antt =====
-- ae.c: processTimeEvents visits the events that its list held at the start, in order and once each,
-- whatever events the callbacks add meanwhile.
use decompose_redis.Base.{
  ℕ, zero, suc, ◌+◌, ◌≤◌, ◌<◌, ◌≡◌, refl, sym, ap, ◌∙◌, inl, inr, Bool-cases, List, [], ◌∷◌, ◌++◌,
  Option, some, none, leb, ltb, ◌==◌, leb→le, if◌then◌else◌, length, length-map, arith,
}
use mathlib.Core.List.{append_assoc}
use decompose_redis.Ae.{TimeEvent, EventLoop, Clock, Procs}
use decompose_redis.Ae.TimeEvents.{
  find_node, head_node, next_node, unlink, reset_when, is_due, fire, finalize, visit, visit_id,
  after_fire, reschedule, run_finalizer, walked, walk, process_time_events,
}
use decompose_redis.Ae.TimeEvents.Nearest.{In, here, there, add_milliseconds-exact}
use decompose_redis.Ae.TimeEvents.Nodes.{
  nodes, Distinct, head?, Distinct-front, Distinct-remove, head_node-nodes, find_node-split,
  next_node-split, unlink-split, nodes-update_node, without, update_node-rewritten, unlink-without,
}
use decompose_redis.Ae.TimeEvents.Sweep.{
  is_due-Due, is_due-early, Rescheduled, no_more, again, finalized, Visited, deleted, too_new,
  early, ran, Sweeps, swept, visited,
}

-- The callbacks keep the list's nodes and add others only in front of them, as aeCreateTimeEvent does;
-- what they add are new nodes.
pub record Prepend {W : Type 0} (el el' : EventLoop W) : Type 0 where
  pub front : List ℕ
  pub kept : nodes el'.time_events ≡ front ++ nodes el.time_events
  pub distinct : Distinct (nodes el.time_events) → Distinct (nodes el'.time_events)

pub record DoPrepend {W : Type 0} (procs : Procs W) : Type 0 where
  pub timer : (f : ℕ) (el : EventLoop W) (id d : ℕ) → Prepend el (procs.time_proc f el id d).0
  pub finalizer : (f : ℕ) (el : EventLoop W) (d : ℕ) → Prepend el (procs.finalizer_proc f el d)

-- The seconds of every event are set to 0.
abbrev pub reset : List TimeEvent → List TimeEvent
reset [] = []
reset (te ∷ tes) = record te { when_sec = 0 } ∷ reset tes

find_node-In :
    (a : ℕ) (tes : List TimeEvent) (te : TimeEvent) → find_node a tes ≡ some te → In te tes
unfolding find_node
find_node-In a [] te e = cc
find_node-In a (t ∷ tes) te e = elim (Bool-cases (t.node == a)) [
  | inl hit ↦ let found : some t ≡ some te = rw hit at e in let q : t ≡ te = cc in rw q here
  | inr miss ↦ there (find_node-In a tes te (rw miss at e))
]

module _ {W : Type 0} (clock : Clock W) (procs : Procs W) where
  -- A visit of the event `te` leaves `suf` at the end of the list, and goes on there.
  Onward : ℕ → List ℕ → EventLoop W → TimeEvent → Option (EventLoop W × Option ℕ × ℕ) → Type 0
  Onward next_id suf el te r =
      (el' : EventLoop W) × (n : ℕ) × (r ≡ some (el', head? suf, n))
      × Visited clock procs next_id el te el' n
      × (pre : List ℕ) × (nodes el'.time_events ≡ pre ++ suf)
      × Distinct (nodes el'.time_events)

  module _ (polite : DoPrepend procs) where
    run_finalizer-nodes :
        (el : EventLoop W) (f : Option ℕ) (d : ℕ) (pre suf : List ℕ)
        → nodes el.time_events ≡ pre ++ suf
        → Distinct (nodes el.time_events)
        → (pre' : List ℕ) × (nodes (run_finalizer clock procs el f d).time_events ≡ pre' ++ suf)
          × Distinct (nodes (run_finalizer clock procs el f d).time_events)
    unfolding run_finalizer
    run_finalizer-nodes el none d pre suf e apart = (pre, e, apart)
    run_finalizer-nodes el (some f) d pre suf e apart =
        let p = polite.finalizer f el d in
        (
          p.front ++ pre,
          p.kept ∙ ap (λ l. p.front ++ l) e ∙ sym (append_assoc p.front pre suf),
          p.distinct apart,
        )

    finalize-nodes :
        (el : EventLoop W) (te : TimeEvent) (pre suf : List ℕ)
        → nodes el.time_events ≡ pre ++ te.node ∷ suf
        → Distinct (nodes el.time_events)
        → (pre' : List ℕ) × (nodes (finalize clock procs el te).time_events ≡ pre' ++ suf)
          × Distinct (nodes (finalize clock procs el te).time_events)
    unfolding finalize
    finalize-nodes el te pre suf e d =
        let whole : Distinct (pre ++ te.node ∷ suf) = rw (← e) d in
        let left =
          unlink-split te.node suf pre el.time_events e (Distinct-front pre te.node suf whole) in
        run_finalizer-nodes (record el { time_events = unlink te.node el.time_events })
          te.finalizer_proc te.client_data pre suf left
          (rw left (Distinct-remove pre te.node suf whole))

    finalized_with :
        (el : EventLoop W) (te : TimeEvent) (f : Option ℕ) (tes : List TimeEvent)
        → tes ≡ without te.node el.time_events
        → run_finalizer clock procs (record el { time_events = tes }) f te.client_data
          ≡ finalized clock procs el te f
    unfolding run_finalizer
    finalized_with el te none tes e = rw e refl
    finalized_with el te (some f) tes e = rw e refl

    finalize-finalized :
        (el : EventLoop W) (te : TimeEvent)
        → Distinct (nodes el.time_events)
        → finalize clock procs el te ≡ finalized clock procs el te te.finalizer_proc
    unfolding finalize
    finalize-finalized el te d =
        finalized_with el te te.finalizer_proc _ (unlink-without te.node el.time_events d)

    reschedule-Rescheduled :
        (el : EventLoop W) (a : ℕ) (ret : Option ℕ)
        → Distinct (nodes el.time_events)
        → Rescheduled clock procs el a ret (reschedule clock procs el a ret)
          × (nodes (reschedule clock procs el a ret).time_events ≡ nodes el.time_events)
    unfolding reschedule
    reschedule-Rescheduled el a none d = (
      no_more refl (rw (update_node-rewritten a _ el.time_events d) refl),
      nodes-update_node a _ el.time_events (λ t. refl),
    )
    reschedule-Rescheduled el a (some ms) d =
        let now = clock.get_time el.world in
        let exact = add_milliseconds-exact now.0 now.1 ms in
        (
          again ms _ _ refl exact.1 exact.0 (rw (update_node-rewritten a _ el.time_events d) refl),
          nodes-update_node a _ el.time_events (λ t. refl),
        )

    fire-Rescheduled :
        (el : EventLoop W) (te : TimeEvent) (id : ℕ) (pre suf : List ℕ)
        → nodes el.time_events ≡ pre ++ te.node ∷ suf
        → Distinct (nodes el.time_events)
        → let r = procs.time_proc te.time_proc el id te.client_data in
          (el' : EventLoop W) × (fire clock procs el te id ≡ some el')
          × Rescheduled clock procs r.0 te.node r.1 el'
          × (pre' : List ℕ) × (nodes el'.time_events ≡ pre' ++ te.node ∷ suf)
          × Distinct (nodes el'.time_events)
    unfolding fire
    fire-Rescheduled el te id pre suf e d =
        let p = polite.timer te.time_proc el id te.client_data in
        let r = procs.time_proc te.time_proc el id te.client_data in
        let kept =
          p.kept ∙ ap (λ l. p.front ++ l) e ∙ sym (append_assoc p.front pre (te.node ∷ suf)) in
        let (t, found, same_node) =
          find_node-split te.node suf (p.front ++ pre) r.0.time_events kept in
        let (done, same) = reschedule-Rescheduled r.0 te.node r.1 (p.distinct d) in
        (
          reschedule clock procs r.0 te.node r.1,
          rw (found, fire) refl,
          done,
          p.front ++ pre,
          same ∙ kept,
          rw same (p.distinct d),
        )

    stay-Onward :
        (next_id : ℕ) (el el' : EventLoop W) (te : TimeEvent) (n : ℕ) (pre suf : List ℕ)
        → nodes el'.time_events ≡ pre ++ te.node ∷ suf
        → Distinct (nodes el'.time_events)
        → Visited clock procs next_id el te el' n
        → Onward next_id suf el te (some (el', next_node te.node el'.time_events, n))
    unfolding Onward
    stay-Onward next_id el el' te n pre suf e d v =
        let a = te.node in
        let whole : Distinct (pre ++ a ∷ suf) = rw (← e) d in
        (
          el',
          n,
          rw (next_node-split a suf pre el'.time_events e (Distinct-front pre a suf whole)) refl,
          v,
          pre ++ a ∷ [],
          e ∙ sym (append_assoc pre (a ∷ []) suf),
          d,
        )

    visit_id-Onward :
        (next_id : ℕ) (el : EventLoop W) (te : TimeEvent) (id : Option ℕ) (pre suf : List ℕ)
        → te.id ≡ id
        → nodes el.time_events ≡ pre ++ te.node ∷ suf
        → Distinct (nodes el.time_events)
        → Onward next_id suf el te (visit_id clock procs next_id el te id)
    unfolding visit_id after_fire
    visit_id-Onward next_id el te none pre suf i e d =
        let whole : Distinct (pre ++ te.node ∷ suf) = rw (← e) d in
        let (pre', left, apart) = finalize-nodes el te pre suf e d in
        unfold Onward in
        (
          finalize clock procs el te,
          0,
          rw
              (next_node-split te.node suf pre el.time_events e
                (Distinct-front pre te.node suf whole))
              refl,
          deleted i (finalize-finalized el te d) refl,
          pre',
          left,
          apart,
        )
    visit_id-Onward next_id el te (some id) pre suf i e d = elim (Bool-cases (leb next_id id)) [
      | inl new ↦ rw new (
          stay-Onward next_id el el te 0 pre suf e d
            (too_new id i (leb→le next_id id new) refl refl))
      | inr old ↦
          let lower : id < next_id = ground arith in
          elim (Bool-cases (is_due (clock.get_time el.world) te)) [
            | inl due ↦
                let (el', fired, done, pre', left, apart) = fire-Rescheduled el te id pre suf e d in
                rw (old, due, fired)
                  (stay-Onward next_id el el' te 1 pre' suf left apart
                    (ran id i lower (is_due-Due _ te due) done refl))
            | inr not_yet ↦
                rw (old, not_yet)
                  (stay-Onward next_id el el te 0 pre suf e d
                    (early id i lower (is_due-early _ te not_yet) refl refl))
          ]
    ]

    visit-Onward :
        (next_id : ℕ) (el : EventLoop W) (te : TimeEvent) (pre suf : List ℕ)
        → nodes el.time_events ≡ pre ++ te.node ∷ suf
        → Distinct (nodes el.time_events)
        → Onward next_id suf el te (visit clock procs next_id el te)
    unfolding visit
    visit-Onward next_id el te pre suf e d = visit_id-Onward next_id el te te.id pre suf refl e d

    walk-Sweeps :
        (fuel next_id : ℕ) (el : EventLoop W) (pre suf : List ℕ) (processed : ℕ)
        → nodes el.time_events ≡ pre ++ suf
        → Distinct (nodes el.time_events)
        → length suf ≤ fuel
        → (el' : EventLoop W) × (n : ℕ) × (walk clock procs fuel next_id el (head? suf) processed
            ≡ walked (el', processed + n))
          × Sweeps clock procs next_id suf el el' n
    unfolding walk Onward
    walk-Sweeps fuel next_id el pre [] processed e d h =
        (el, 0, ap (λ k. walked (el, k)) (omega arith), swept el)
    walk-Sweeps zero next_id el pre (a ∷ suf) processed e d h = absurd (omega arith)
    walk-Sweeps (suc fuel) next_id el pre (a ∷ suf) processed e d h =
        let (te, found, same) = find_node-split a suf pre el.time_events e in
        let (el1, n, seen, did, pre', left, apart) =
          visit-Onward next_id el te pre suf (rw same e) d in
        let (el2, m, run, rest) =
          walk-Sweeps fuel next_id el1 pre' suf (processed + n) left apart (omega arith) in
        (
          el2,
          n + m,
          rw (found, walk, seen) (run ∙ ap (λ k. walked (el2, k)) (omega arith)),
          visited a suf el el1 el2 te n m (find_node-In a el.time_events te found) same did rest,
        )

    walk_whole :
        (next_id : ℕ) (el : EventLoop W)
        → Distinct (nodes el.time_events)
        → (el' : EventLoop W) × (n : ℕ) × (walk clock procs
              (length el.time_events)
              next_id
              el
              (head_node el.time_events)
              0
            ≡ walked (el', n))
          × Sweeps clock procs next_id (nodes el.time_events) el el' n
    walk_whole next_id el d =
        let (el', n, run, sweeps) =
          walk-Sweeps (length el.time_events) next_id el [] (nodes el.time_events) 0 refl d
            (omega (arith, length-map el.time_events (λ (te : TimeEvent). te.node))) in
        (
          el',
          n,
          rw (head_node-nodes el.time_events) (run ∙ ap (λ k. walked (el', k)) (omega arith)),
          sweeps,
        )

    reset_when-reset : (tes : List TimeEvent) → reset_when tes ≡ reset tes
    unfolding reset_when
    reset_when-reset [] = refl
    reset_when-reset (te ∷ tes) = ap (◌∷◌ (record te { when_sec = 0 })) (reset_when-reset tes)

    nodes-reset : (tes : List TimeEvent) → nodes (reset tes) ≡ nodes tes
    nodes-reset [] = refl
    nodes-reset (te ∷ tes) = ap (◌∷◌ te.node) (nodes-reset tes)

    -- processTimeEvents on a list of distinct nodes, when the callbacks only add events in front of
    -- it: the walk over the pointers ends, meets no dangling one, and is the visit of each event that
    -- the list held at its start, once and in order. A visit takes out an event that is marked as
    -- deleted and calls its finalizer; it calls the callback of a due event whose id is not new, which
    -- is then marked or due again after the milliseconds that the callback has returned; it leaves any
    -- other. The result counts the callbacks. If the clock went back, the seconds of every event are
    -- set to 0 before.
    pub process_time_events-sweep :
        (el : EventLoop W)
        → Distinct (nodes el.time_events)
        → let now = clock.time el.world in
          let tes = if ltb now el.last_time then reset el.time_events else el.time_events in
          (el' : EventLoop W) × (n : ℕ) × (process_time_events clock procs el ≡ walked (el', n))
          × Sweeps clock procs el.time_event_next_id
              (nodes el.time_events)
              (record el { time_events = tes; last_time = now })
              el'
              n
    unfolding process_time_events
    process_time_events-sweep el d = elim (Bool-cases (ltb (clock.time el.world) el.last_time)) [
      | inl back ↦
          rw (back, reset_when-reset el.time_events, ← nodes-reset el.time_events)
            (walk_whole el.time_event_next_id
              (record el { last_time = clock.time el.world; time_events = reset el.time_events })
              (rw (nodes-reset el.time_events) d))
      | inr on ↦
          rw on (walk_whole el.time_event_next_id (record el { last_time = clock.time el.world }) d)
    ]
