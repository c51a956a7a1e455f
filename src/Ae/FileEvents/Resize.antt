-- ===== src/Ae/FileEvents/Resize.antt =====
-- ae.c: what aeResizeSetSize leaves registered.
use decompose_redis.Base.{
  ℕ, ◌+◌, ◌≤◌, ◌<◌, ◌≡◌, refl, ap, ◌∙◌, ◌⊎◌, inl, inr, true, false, Bool-cases, List, ◌++◌, none,
  Option-cases, ltb, ◌==◌, length, take, length-take, length-append, arith,
}
use decompose_redis.Ae.{is_none, FileEvent, EventLoop, Api, event_at}
use decompose_redis.Ae.FileEvents.{next_fd, clear_from, ae_get_file_events, ae_resize_set_size}
use decompose_redis.Ae.FileEvents.Laws.{
  IsValid, length-clear_from, event_at-clear_from, get-event_at, eq_of_none, event_at-take_append,
}

module _ {W : Type 0} (api : Api W) where
  resized_event :
      (el : EventLoop W) (fresh : List FileEvent) (setsize : ℕ)
      → IsValid el
      → next_fd el.maxfd ≤ setsize
      → (i : ℕ)
      → (next_fd el.maxfd ≤ i
          → is_none
              (event_at (clear_from (next_fd el.maxfd) (take setsize (el.events ++ fresh))) i).mask
            ≡ true)
        × (i < next_fd el.maxfd
            → event_at (clear_from (next_fd el.maxfd) (take setsize (el.events ++ fresh))) i
              ≡ event_at el.events i)
  resized_event el fresh setsize v le i =
      let c = event_at-clear_from (next_fd el.maxfd) (take setsize (el.events ++ fresh)) i in
      (
        c.0,
        λ h.
            c.1 h
            ∙ event_at-take_append el.events fresh setsize i (omega arith)
                (omega (arith, v.size, v.within)),
      )

  resized_mask :
      (el : EventLoop W) (fresh : List FileEvent) (setsize : ℕ)
      → IsValid el
      → next_fd el.maxfd ≤ setsize
      → (i : ℕ)
      → (event_at (clear_from (next_fd el.maxfd) (take setsize (el.events ++ fresh))) i).mask
        ≡ (event_at el.events i).mask
  resized_mask el fresh setsize v le i =
      let c = resized_event el fresh setsize v le i in
      elim (Bool-cases (ltb i (next_fd el.maxfd))) [
        | inl kept ↦ ap (λ e. e.mask) (c.1 (ground arith))
        | inr above ↦ eq_of_none _ _ (c.0 (ground arith)) (v.above i (ground arith))
      ]

  resized-IsValid :
      (el : EventLoop W) (fresh : List FileEvent) (setsize : ℕ) (w : W)
      → IsValid el
      → setsize ≤ el.setsize + length fresh
      → next_fd el.maxfd ≤ setsize
      → IsValid (record el {
        events = clear_from (next_fd el.maxfd) (take setsize (el.events ++ fresh));
        table = el.table + 1;
        setsize = setsize;
        world = w;
      })
  resized-IsValid el fresh setsize w v room le = record {
    size = omega (
      arith,
      length-clear_from (next_fd el.maxfd) (take setsize (el.events ++ fresh)),
      length-take setsize (el.events ++ fresh),
      length-append el.events fresh,
      v.size,
    );
    within = le;
    above = λ i k. (resized_event el fresh setsize v le i).0 k;
    top = elim v.top [
      | inl e ↦ inl e
      | inr (m, at, used) ↦ inr (m, at, rw (resized_mask el fresh setsize v le m) used)
    ];
  }

  -- aeResizeSetSize on a valid loop, with as many fresh slots as the table grows by: the loop stays
  -- valid and no registration changes. Either the table gets the size, or nothing has changed, and
  -- the highest descriptor did not fit the size or the multiplexing layer refused.
  pub resize_set_size-masks :
      (el : EventLoop W) (fresh : List FileEvent) (setsize : ℕ)
      → IsValid el
      → setsize ≤ el.setsize + length fresh
      → let r = ae_resize_set_size api el fresh setsize in
        IsValid r.0
        × ((i : ℕ) → ae_get_file_events r.0 i ≡ ae_get_file_events el i)
        × ((r.1 ≡ true) × (r.0.setsize ≡ setsize)
            ⊎ (r.1 ≡ false)
              × (r.0 ≡ el)
              × ((setsize < next_fd el.maxfd) ⊎ (api.resize el.world setsize ≡ none)))
  unfolding ae_resize_set_size
  resize_set_size-masks el fresh setsize v room = elim (Bool-cases (setsize == el.setsize)) [
    | inl same ↦ rw same (v, λ i. refl, inl (refl, ground arith))
    | inr other ↦ elim (Bool-cases (ltb setsize (next_fd el.maxfd))) [
      | inl used ↦ rw (other, used) (v, λ i. refl, inr (refl, refl, inl (ground arith)))
      | inr free ↦ elim (Option-cases (api.resize el.world setsize)) [
        | inl e ↦ rw (other, free, e) (v, λ i. refl, inr (refl, refl, inr refl))
        | inr (w, e) ↦
            let v' = resized-IsValid el fresh setsize w v room (ground arith) in
            rw (other, free, e)
              (
                v',
                λ i.
                    rw (get-event_at _ i v', get-event_at el i v)
                      (resized_mask el fresh setsize v (ground arith) i),
                inl (refl, refl),
              )
      ]
    ]
  ]
