-- ===== src/Ae/FileEvents/Laws.antt =====
-- ae.c: the invariant of the table of file events, and its slots under a write.
use decompose_redis.Base.{
  ℕ, zero, suc, ◌≤◌, ◌<◌, ◌≡◌, ◌≢◌, refl, ap, ◌⊎◌, inl, inr, true, false, Bool-cases, List, [], ◌∷◌,
  ◌++◌, leb, ◌==◌, if◌then◌else◌, length, set, take, arith,
}
use decompose_redis.Base.Int.{ℤ, pos, negsuc}
use decompose_redis.Ae.{
  Mask, mask_or, mask_and_not, is_none, FileEvent, EventLoop, no_event, event_at,
}
use decompose_redis.Ae.FileEvents.{
  next_fd, clear_from, top_fd, registered, with_barrier, ae_get_file_events,
}

-- The table has `setsize` slots, nothing is registered above `maxfd`, and `maxfd` is -1 or registered.
pub record IsValid {W : Type 0} (el : EventLoop W) : Type 0 where
  pub size : length el.events ≡ el.setsize
  pub within : next_fd el.maxfd ≤ el.setsize
  pub above : (fd : ℕ) → next_fd el.maxfd ≤ fd → is_none (event_at el.events fd).mask ≡ true
  pub top :
      (el.maxfd ≡ negsuc 0)
      ⊎ ((m : ℕ) × (el.maxfd ≡ pos m) × (is_none (event_at el.events m).mask ≡ false))

pub event_at-set_self :
    (es : List FileEvent) (i : ℕ) (e : FileEvent) → i < length es → event_at (set es i e) i ≡ e
event_at-set_self [] i e h = absurd (omega arith)
event_at-set_self (x ∷ es) zero e h = refl
event_at-set_self (x ∷ es) (suc i) e h = event_at-set_self es i e (omega arith)

pub event_at-set_ne :
    (es : List FileEvent) (i j : ℕ) (e : FileEvent)
    → i ≢ j
    → event_at (set es i e) j ≡ event_at es j
event_at-set_ne [] i j e h = refl
event_at-set_ne (x ∷ es) zero zero e h = absurd (h refl)
event_at-set_ne (x ∷ es) zero (suc j) e h = refl
event_at-set_ne (x ∷ es) (suc i) zero e h = refl
event_at-set_ne (x ∷ es) (suc i) (suc j) e h = event_at-set_ne es i j e (λ q. h (ap suc q))

-- A write in `if` form, for a slot of the table.
pub event_at-set :
    (es : List FileEvent) (i j : ℕ) (e : FileEvent)
    → i < length es
    → event_at (set es i e) j ≡ (if i == j then e else event_at es j)
event_at-set es i j e h = elim (Bool-cases (i == j)) [
  | inl here ↦ let q : i ≡ j = ground arith in rw (here, ← q) (event_at-set_self es i e h)
  | inr off ↦ rw off (event_at-set_ne es i j e (ground arith))
]

pub length-clear_from : (n : ℕ) (es : List FileEvent) → length (clear_from n es) ≡ length es
unfolding clear_from
length-clear_from n [] = refl
length-clear_from zero (e ∷ es) = ap suc (length-clear_from zero es)
length-clear_from (suc n) (e ∷ es) = ap suc (length-clear_from n es)

pub event_at-clear_from :
    (n : ℕ) (es : List FileEvent) (i : ℕ)
    → (n ≤ i → is_none (event_at (clear_from n es) i).mask ≡ true)
      × (i < n → event_at (clear_from n es) i ≡ event_at es i)
unfolding clear_from
event_at-clear_from n [] i = (λ h. refl, λ h. refl)
event_at-clear_from zero (e ∷ es) zero = (λ h. refl, λ h. absurd (omega arith))
event_at-clear_from zero (e ∷ es) (suc i) =
    (λ h. (event_at-clear_from zero es i).0 (omega arith), λ h. absurd (omega arith))
event_at-clear_from (suc n) (e ∷ es) zero = (λ h. absurd (omega arith), λ h. refl)
event_at-clear_from (suc n) (e ∷ es) (suc i) = (
  λ h. (event_at-clear_from n es i).0 (omega arith),
  λ h. (event_at-clear_from n es i).1 (omega arith),
)

-- top_fd finds the highest registered slot below `j`.
pub record IsTop (es : List FileEvent) (j : ℕ) (m : ℤ) : Type 0 where
  pub below : next_fd m ≤ j
  pub above : (fd : ℕ) → next_fd m ≤ fd → fd < j → is_none (event_at es fd).mask ≡ true
  pub top : (m ≡ negsuc 0) ⊎ ((k : ℕ) × (m ≡ pos k) × (is_none (event_at es k).mask ≡ false))

pub top_fd-IsTop : (es : List FileEvent) (j : ℕ) → IsTop es j (top_fd es j)
unfolding top_fd
top_fd-IsTop es zero = record {
  below = omega arith;
  above = λ fd h k. absurd (omega arith);
  top = inl refl;
}
top_fd-IsTop es (suc j) =
    let ih = top_fd-IsTop es j in
    elim (Bool-cases (is_none (event_at es j).mask)) [
      | inl free ↦ rw free (record {
        below = omega (arith, ih.below);
        above = λ fd h k. elim (Bool-cases (fd == j)) [
          | inl last ↦ let q : fd ≡ j = ground arith in rw q free
          | inr less ↦ ih.above fd h (ground arith)
        ];
        top = ih.top;
      })
      | inr used ↦ rw used (record {
        below = omega arith;
        above = λ fd h k. absurd (omega arith);
        top = inr (j, refl, used);
      })
    ]

pub event_at_long : (es : List FileEvent) (i : ℕ) → length es ≤ i → event_at es i ≡ no_event
event_at_long [] i h = refl
event_at_long (x ∷ es) zero h = absurd (omega arith)
event_at_long (x ∷ es) (suc i) h = event_at_long es i (omega arith)

module _ {W : Type 0} where
  -- aeGetFileEvents of a slot of the table, and of no slot.
  pub get-event_at :
      (el : EventLoop W) (fd : ℕ)
      → IsValid el
      → ae_get_file_events el fd ≡ (event_at el.events fd).mask
  unfolding ae_get_file_events
  get-event_at el fd v = elim (Bool-cases (leb el.setsize fd)) [
    | inl off ↦ rw (off, event_at_long el.events fd (ground (arith, v.size)))
    | inr on ↦ rw on
  ]

pub eq_of_none : (a b : Mask) → is_none a ≡ true → is_none b ≡ true → a ≡ b
eq_of_none a b h k = ground arith

pub event_at-take_append :
    (es fs : List FileEvent) (n i : ℕ)
    → i < n
    → i < length es
    → event_at (take n (es ++ fs)) i ≡ event_at es i
event_at-take_append es fs zero i h k = absurd (omega arith)
event_at-take_append [] fs (suc n) i h k = absurd (omega arith)
event_at-take_append (x ∷ es) fs (suc n) zero h k = refl
event_at-take_append (x ∷ es) fs (suc n) (suc i) h k =
    event_at-take_append es fs n i (omega arith) (omega arith)

pub registered_some :
    (fe : FileEvent) (mask : Mask) (proc client_data : ℕ)
    → is_none mask ≡ false
    → is_none (registered fe mask proc client_data).mask ≡ false
unfolding registered
registered_some fe mask proc client_data h = ground arith

pub registered_mask :
    (fe : FileEvent) (mask : Mask) (proc client_data : ℕ)
    → (registered fe mask proc client_data).mask ≡ mask_or fe.mask mask
unfolding registered
registered_mask fe mask proc client_data = refl

pub with_barrier_none :
    (fe mask : Mask) → is_none fe ≡ true → mask_and_not fe (with_barrier mask) ≡ fe
with_barrier_none fe mask h = ground arith
