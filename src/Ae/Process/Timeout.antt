-- ===== src/Ae/Process/Timeout.antt =====
-- ae.c: aeProcessEvents does not sleep past a timer.
use decompose_redis.Base.{
  ℕ, ◌+◌, ◌*◌, ◌<◌, ◌≤◌, ◌≡◌, refl, ◌⊎◌, true, false, inl, inr, List, [], ◌∷◌, some, arith,
}
use decompose_redis.Ae.{TimeEvent, EventLoop, Clock}
use decompose_redis.Ae.TimeEvents.Nearest.{
  In, here, there, NotAfter, NoneBefore, search_nearest_timer-NoneBefore,
}
use decompose_redis.Ae.Process.{Flags, time_to, poll_timeout}

-- The milliseconds of every event stay below 1000, as aeAddMillisecondsToNow leaves them.
abbrev pub AllBelow : List TimeEvent → Type 0
AllBelow [] = Unit {0}
AllBelow (te ∷ tes) = (te.when_ms < 1000) × AllBelow tes

In-below : (te : TimeEvent) (tes : List TimeEvent) → In te tes → AllBelow tes → te.when_ms < 1000
In-below te [] i h = elim i [ ]
In-below te (t ∷ tes) here h = h.0
In-below te (t ∷ tes) (there i) h = In-below te tes i h.1

NoneBefore-In :
    (n te : TimeEvent) (tes : List TimeEvent) → NoneBefore n tes → In te tes → NotAfter n te
NoneBefore-In n te [] h i = elim i [ ]
NoneBefore-In n te (t ∷ tes) h here = h.0
NoneBefore-In n te (t ∷ tes) h (there i) = NoneBefore-In n te tes h.1 i

absurd_member : {te : TimeEvent} {tes : List TimeEvent} → tes ≡ [] → In te tes → ⊥
absurd_member e here = cc
absurd_member e (there i) = cc

-- A time and that of an event, in milliseconds.
abbrev pub in_ms : ℕ × ℕ → ℕ
in_ms now = now.0 * 1000 + now.1

abbrev pub when : TimeEvent → ℕ
when te = te.when_sec * 1000 + te.when_ms

-- The event is `t` milliseconds away, or its time has come and `t` is 0.
abbrev pub IsAway : ℕ × ℕ → TimeEvent → ℕ → Type 0
IsAway now te t = (when te ≡ in_ms now + t) ⊎ ((t ≡ 0) × (when te ≤ in_ms now))

module _ {W : Type 0} (clock : Clock W) where
  time_to-IsAway : (now : ℕ × ℕ) (te : TimeEvent) → IsAway now te (time_to clock now te)
  unfolding time_to
  time_to-IsAway now te = omega arith

  time_to_mono :
      (now : ℕ × ℕ) (a b : TimeEvent)
      → a.when_ms < 1000
      → b.when_ms < 1000
      → NotAfter a b
      → (time_to clock now a ≡ 0) ⊎ (in_ms now + time_to clock now a ≤ when b)
  unfolding time_to
  time_to_mono now a b ha hb h = omega arith

  -- With AE_TIME_EVENTS and without AE_DONT_WAIT, and a timer in a list whose milliseconds stay below
  -- 1000, aeProcessEvents gives aeApiPoll a time to wait. It is the time from now to some timer of the
  -- list, and 0 if that timer's time has come; and the wait is over no later than the given timer's
  -- time, unless it is 0.
  pub poll_timeout-time_to :
      (el : EventLoop W) (flags : Flags) (te : TimeEvent)
      → flags.time_events ≡ true
      → flags.dont_wait ≡ false
      → AllBelow el.time_events
      → In te el.time_events
      → (t : ℕ) × (poll_timeout clock el flags ≡ some t)
        × ((m : TimeEvent) × In m el.time_events × IsAway (clock.get_time el.world) m t)
        × ((t ≡ 0) ⊎ (in_ms (clock.get_time el.world) + t ≤ when te))
  unfolding poll_timeout
  poll_timeout-time_to el flags te timers waits below i =
      elim (search_nearest_timer-NoneBefore el.time_events) [
        | inl (nothing, e) ↦ absurd (absurd_member nothing i)
        | inr (m, e, im, nb) ↦ (
          time_to clock (clock.get_time el.world) m,
          rw (timers, waits, e) refl,
          (m, im, time_to-IsAway (clock.get_time el.world) m),
          time_to_mono (clock.get_time el.world) m te (In-below m el.time_events im below)
              (In-below te el.time_events i below) (NoneBefore-In m te el.time_events nb i),
        )
      ]
