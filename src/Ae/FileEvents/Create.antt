-- ===== src/Ae/FileEvents/Create.antt =====
-- ae.c: what aeCreateFileEvent leaves registered.
use decompose_redis.Base.{
  ℕ, ◌≤◌, ◌<◌, ◌≡◌, refl, ◌∙◌, ◌⊎◌, inl, inr, true, false, Bool-cases, Option-cases, leb, ◌==◌,
  if◌then◌else◌, set, length-set, arith,
}
use decompose_redis.Base.Int.{pos, negsuc}
use decompose_redis.Ae.{Mask, mask_or, is_none, EventLoop, Api, event_at}
use decompose_redis.Ae.FileEvents.{next_fd, registered, ae_get_file_events, ae_create_file_event}
use decompose_redis.Ae.FileEvents.Laws.{
  IsValid, event_at-set_self, event_at-set, get-event_at, registered_some, registered_mask,
}

module _ {W : Type 0} (api : Api W) where
  created_above :
      (el : EventLoop W) (fd : ℕ) (mask : Mask) (proc client_data : ℕ)
      → IsValid el
      → (i : ℕ) → next_fd (if leb (next_fd el.maxfd) fd then pos fd else el.maxfd) ≤ i
      → is_none
          (if fd == i
            then registered (event_at el.events fd) mask proc client_data
            else event_at el.events i).mask
        ≡ true
  created_above el fd mask proc client_data v i k = ground (arith, v.above i)

  created_top :
      (el : EventLoop W) (fd : ℕ) (mask : Mask) (proc client_data : ℕ)
      → IsValid el
      → fd < el.setsize
      → is_none mask ≡ false
      → let m = if leb (next_fd el.maxfd) fd then pos fd else el.maxfd in
        (m ≡ negsuc 0)
        ⊎ ((k : ℕ) × (m ≡ pos k)
            × (is_none
                  (event_at
                    (set el.events fd (registered (event_at el.events fd) mask proc client_data))
                    k).mask
                ≡ false))
  created_top el fd mask proc client_data v h some_bit =
      let added = registered_some (event_at el.events fd) mask proc client_data some_bit in
      elim (Bool-cases (leb (next_fd el.maxfd) fd)) [
        | inl higher ↦ rw higher (
            inr (
              fd,
              refl,
              rw
                  (event_at-set_self el.events fd
                    (registered (event_at el.events fd) mask proc client_data)
                    (omega (arith, v.size)))
                  added,
            ))
        | inr lower ↦ rw lower (elim v.top [
          | inl nothing ↦ inl nothing
          | inr (m, at, used) ↦ inr (
            m,
            at,
            rw
                (event_at-set el.events fd m
                  (registered (event_at el.events fd) mask proc client_data)
                  (omega (arith, v.size)))
                (elim (Bool-cases (fd == m)) [ inl e ↦ rw e added | inr e ↦ rw e used ]),
          )
        ])
      ]

  created-IsValid :
      (el : EventLoop W) (fd : ℕ) (mask : Mask) (proc client_data : ℕ) (w : W)
      → IsValid el
      → fd < el.setsize
      → is_none mask ≡ false
      → IsValid (record el {
        events = set el.events fd (registered (event_at el.events fd) mask proc client_data);
        maxfd = if leb (next_fd el.maxfd) fd then pos fd else el.maxfd;
        world = w;
      })
  created-IsValid el fd mask proc client_data w v h some_bit = record {
    size = length-set el.events fd _ ∙ v.size;
    within = ground (arith, v.within);
    above = λ i k.
        rw (event_at-set el.events fd i _ (omega (arith, v.size)))
          (created_above el fd mask proc client_data v i k);
    top = created_top el fd mask proc client_data v h some_bit;
  }

  -- aeCreateFileEvent on a valid loop with a mask that has a bit: the loop stays valid. On AE_OK the descriptor has
  -- its old bits and those of the mask, and every other descriptor what it had; on AE_ERR, which a
  -- descriptor outside the table always gets, nothing has changed.
  pub create_file_event-masks :
      (el : EventLoop W) (fd : ℕ) (mask : Mask) (proc client_data : ℕ)
      → IsValid el
      → is_none mask ≡ false
      → let r = ae_create_file_event api el fd mask proc client_data in
        IsValid r.0
        × ((r.1 ≡ true)
              × (fd < el.setsize)
              × ((i : ℕ)
                  → ae_get_file_events r.0 i ≡ (
                      if fd == i
                      then mask_or (ae_get_file_events el fd) mask
                      else ae_get_file_events el i))
            ⊎ (r.1 ≡ false) × (r.0 ≡ el))
  unfolding ae_create_file_event
  create_file_event-masks el fd mask proc client_data v some_bit =
      elim (Bool-cases (leb el.setsize fd)) [
        | inl off ↦ rw off (v, inr (refl, refl))
        | inr on ↦
            elim (Option-cases (api.add_event el.world (event_at el.events fd).mask fd mask)) [
              | inl e ↦ rw (on, e) (v, inr (refl, refl))
              | inr (w, e) ↦
                  let h : fd < el.setsize = ground arith in
                  let v' = created-IsValid el fd mask proc client_data w v h some_bit in
                  rw (on, e)
                    (
                      v',
                      inl (
                        refl,
                        h,
                        λ i.
                            rw
                              (
                                get-event_at _ i v',
                                get-event_at el i v,
                                get-event_at el fd v,
                                event_at-set el.events fd i
                                    (registered (event_at el.events fd) mask proc client_data)
                                    (omega (arith, v.size)),
                              )
                              (elim (Bool-cases (fd == i)) [
                                | inl q ↦
                                    rw q (
                                      registered_mask (event_at el.events fd) mask proc client_data)
                                | inr q ↦ rw q refl
                              ]),
                      ),
                    )
            ]
      ]
