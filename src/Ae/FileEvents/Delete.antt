-- ===== src/Ae/FileEvents/Delete.antt =====
-- ae.c: what aeDeleteFileEvent leaves registered.
use decompose_redis.Base.{
  ℕ, suc, ◌<◌, ◌≡◌, refl, sym, ◌∙◌, inl, inr, true, false, not, ◌&&◌, ◌||◌, Bool-cases, leb, ltb,
  ◌==◌, if◌then◌else◌, set, length-set, arith,
}
use decompose_redis.Ae.{Mask, mask_and_not, is_none, EventLoop, Api, event_at}
use decompose_redis.Ae.FileEvents.{
  next_fd, top_fd, with_barrier, ae_get_file_events, ae_delete_file_event,
}
use decompose_redis.Ae.FileEvents.Laws.{
  IsValid, event_at-set, top_fd-IsTop, event_at_long, get-event_at, with_barrier_none,
}

-- The bits of `old` less those of `mask`; AE_BARRIER goes with AE_WRITABLE too.
abbrev pub left_of : Mask → Mask → Mask
left_of old mask = record {
  readable = old.readable && not mask.readable;
  writable = old.writable && not mask.writable;
  barrier = old.barrier && not (mask.barrier || mask.writable);
}

left_of_lem : (old mask : Mask) → mask_and_not old (with_barrier mask) ≡ left_of old mask
unfolding with_barrier
left_of_lem old mask = ground arith

module _ {W : Type 0} (api : Api W) where
  nothing_to_delete :
      (el : EventLoop W) (fd : ℕ) (mask : Mask)
      → is_none (ae_get_file_events el fd) ≡ true
      → (i : ℕ)
      → ae_get_file_events el i ≡ (
          if fd == i
          then mask_and_not (ae_get_file_events el fd) (with_barrier mask)
          else ae_get_file_events el i)
  nothing_to_delete el fd mask free i = elim (Bool-cases (fd == i)) [
    | inl q ↦
        let e : i ≡ fd = ground arith in
        rw (q, e) (sym (with_barrier_none (ae_get_file_events el fd) mask free))
    | inr q ↦ rw q refl
  ]

  -- The highest descriptor after a slot has been left with the mask `kept`, which adds no bit.
  deleted_top :
      (el : EventLoop W) (fd : ℕ) (kept : Mask) (w : W)
      → IsValid el
      → fd < el.setsize
      → is_none (event_at el.events fd).mask ≡ false
      → let events = set el.events fd (record (event_at el.events fd) { mask = kept }) in
        IsValid (record el {
          events = events;
          maxfd =
              if (next_fd el.maxfd == suc fd) && is_none kept then top_fd events fd else el.maxfd;
          world = w;
        })
  deleted_top el fd kept w v h used =
      elim (Bool-cases ((next_fd el.maxfd == suc fd) && is_none kept)) [
        | inl last ↦
            let t =
              top_fd-IsTop (set el.events fd (record (event_at el.events fd) { mask = kept })) fd in
            rw last (record {
              size = length-set el.events fd _ ∙ v.size;
              within = omega (arith, t.below);
              above = λ i k. elim (Bool-cases (ltb i fd)) [
                | inl lower ↦ t.above i k (ground arith)
                | inr rest ↦
                    rw
                      (event_at-set el.events fd i (record (event_at el.events fd) { mask = kept })
                        (omega (arith, v.size)))
                      (ground (arith, v.above i))
              ];
              top = t.top;
            })
        | inr other ↦ rw other (record {
          size = length-set el.events fd _ ∙ v.size;
          within = v.within;
          above = λ i k.
              rw
                (event_at-set el.events fd i (record (event_at el.events fd) { mask = kept })
                  (omega (arith, v.size)))
                (elim (Bool-cases (fd == i)) [
                  | inl e ↦ cc (sym (v.above fd (ground arith)) ∙ used)
                  | inr e ↦ rw e (v.above i k)
                ]);
          top = elim v.top [
            | inl e ↦ inl e
            | inr (m, at, u) ↦ inr (
              m,
              at,
              rw
                  (event_at-set el.events fd m (record (event_at el.events fd) { mask = kept })
                    (omega (arith, v.size)))
                  (elim (Bool-cases (fd == m)) [ inl e ↦ rw e (ground arith) | inr e ↦ rw e u ]),
            )
          ];
        })
      ]

  delete_file_event-kept :
      (el : EventLoop W) (fd : ℕ) (mask : Mask)
      → IsValid el
      → let el' = ae_delete_file_event api el fd mask in
        IsValid el'
        × ((i : ℕ)
            → ae_get_file_events el' i ≡ (
                if fd == i
                then mask_and_not (ae_get_file_events el fd) (with_barrier mask)
                else ae_get_file_events el i))
  unfolding ae_delete_file_event
  delete_file_event-kept el fd mask v = elim (Bool-cases (leb el.setsize fd)) [
    | inl off ↦ rw off (
      v,
      λ i.
          nothing_to_delete el fd mask
            (rw (get-event_at el fd v, event_at_long el.events fd (ground (arith, v.size))) refl) i,
    )
    | inr on ↦ elim (Bool-cases (is_none (event_at el.events fd).mask)) [
      | inl free ↦
          rw (on, free) (v, λ i. nothing_to_delete el fd mask (rw (get-event_at el fd v) free) i)
      | inr used ↦
          let fe = event_at el.events fd in
          let kept = mask_and_not fe.mask (with_barrier mask) in
          let v' =
            deleted_top el fd kept (api.del_event el.world fe.mask fd (with_barrier mask)) v
              (ground arith) used in
          rw (on, used)
            (
              v',
              λ i.
                  rw
                    (
                      get-event_at _ i v',
                      get-event_at el i v,
                      get-event_at el fd v,
                      event_at-set el.events fd i (record fe { mask = kept })
                          (ground (arith, v.size)),
                    )
                    (elim (Bool-cases (fd == i)) [ inl q ↦ rw q refl | inr q ↦ rw q refl ]),
            )
    ]
  ]

  -- aeDeleteFileEvent on a valid loop: the loop stays valid. The descriptor loses the bits of the mask, and
  -- AE_BARRIER with AE_WRITABLE; every other descriptor has what it had.
  pub delete_file_event-masks :
      (el : EventLoop W) (fd : ℕ) (mask : Mask)
      → IsValid el
      → let el' = ae_delete_file_event api el fd mask in
        IsValid el'
        × ((i : ℕ)
            → ae_get_file_events el' i ≡ (
                if fd == i
                then left_of (ae_get_file_events el fd) mask
                else ae_get_file_events el i))
  delete_file_event-masks el fd mask v =
      rw (← left_of_lem (ae_get_file_events el fd) mask) (delete_file_event-kept el fd mask v)
