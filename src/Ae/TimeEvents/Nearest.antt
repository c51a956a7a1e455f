-- ===== src/Ae/TimeEvents/Nearest.antt =====
-- ae.c: aeSearchNearestTimer finds an event that is due no later than any other, and the times that
-- aeAddMillisecondsToNow gives are normalised.
use decompose_redis.Base.{
  ℕ, ◌+◌, ◌*◌, ◌<◌, ◌≤◌, ◌≡◌, refl, ◌⊎◌, inl, inr, true, false, Bool-cases, List, [], ◌∷◌, some,
  none, arith,
}
use decompose_redis.Ae.{TimeEvent}
use decompose_redis.Ae.TimeEvents.{
  ae_add_milliseconds, when_before, nearest_loop, ae_search_nearest_timer,
}

-- A list's event.
pub data In (te : TimeEvent) : List TimeEvent → Type 0 where
  here : {tes : List TimeEvent} → In te (te ∷ tes)
  there : {t : TimeEvent} {tes : List TimeEvent} → In te tes → In te (t ∷ tes)

-- `n` is due before `te` or with it: in an earlier second, or in the same one no later.
abbrev pub NotAfter : TimeEvent → TimeEvent → Type 0
NotAfter n te = (n.when_sec < te.when_sec) ⊎ ((n.when_sec ≡ te.when_sec) × (n.when_ms ≤ te.when_ms))

-- No event of the list is due before `n`.
abbrev pub NoneBefore : TimeEvent → List TimeEvent → Type 0
NoneBefore n [] = Unit {0}
NoneBefore n (te ∷ tes) = NotAfter n te × NoneBefore n tes

NotAfter-trans : (a b c : TimeEvent) → NotAfter a b → NotAfter b c → NotAfter a c
NotAfter-trans a b c h k = omega arith

before-NotAfter : (a b : TimeEvent) → when_before a b ≡ true → NotAfter a b
unfolding when_before
before-NotAfter a b h = ground arith

not_before-NotAfter : (a b : TimeEvent) → when_before a b ≡ false → NotAfter b a
unfolding when_before
not_before-NotAfter a b h = ground arith

NotAfter-refl : (a : TimeEvent) → NotAfter a a
NotAfter-refl a = inr (refl, omega arith)

skip_second :
    {m n : TimeEvent} {tes : List TimeEvent} (te : TimeEvent) → In m (n ∷ tes) → In m (n ∷ te ∷ tes)
skip_second te here = here
skip_second te (there i) = there (there i)

nearest_loop-some :
    (n : TimeEvent) (tes : List TimeEvent)
    → (m : TimeEvent) × (nearest_loop (some n) tes ≡ some m)
      × In m (n ∷ tes)
      × NoneBefore m (n ∷ tes)
unfolding nearest_loop
nearest_loop-some n [] = (n, refl, here, (NotAfter-refl n, tt))
nearest_loop-some n (te ∷ tes) = elim (Bool-cases (when_before te n)) [
  | inl sooner ↦
      let (m, run, found, (first, rest)) = nearest_loop-some te tes in
      (
        m,
        rw sooner run,
        there found,
        (NotAfter-trans m te n first (before-NotAfter te n sooner), (first, rest)),
      )
  | inr later ↦
      let (m, run, found, (first, rest)) = nearest_loop-some n tes in
      (
        m,
        rw later run,
        skip_second te found,
        (first, (NotAfter-trans m n te first (not_before-NotAfter te n later), rest)),
      )
]

-- aeSearchNearestTimer gives NULL exactly for the empty list, and otherwise an event of the list such
-- that no event of the list is due before it.
pub search_nearest_timer-NoneBefore :
    (tes : List TimeEvent)
    → ((tes ≡ []) × (ae_search_nearest_timer tes ≡ none))
      ⊎ ((m : TimeEvent) × (ae_search_nearest_timer tes ≡ some m) × In m tes × NoneBefore m tes)
unfolding ae_search_nearest_timer
search_nearest_timer-NoneBefore [] = inl (refl, refl)
search_nearest_timer-NoneBefore (te ∷ tes) = inr (nearest_loop-some te tes)

-- The time that aeAddMillisecondsToNow gives lies exactly the asked number of milliseconds after the
-- clock; if the milliseconds of the clock are below 1000, so are those of the result.
pub add_milliseconds-exact :
    (sec ms n : ℕ)
    → let at = ae_add_milliseconds (sec, ms) n in
      (ms < 1000 → at.1 < 1000) × (at.0 * 1000 + at.1 ≡ sec * 1000 + ms + n)
unfolding ae_add_milliseconds
add_milliseconds-exact sec ms n = (λ h. ground arith, ground arith)
