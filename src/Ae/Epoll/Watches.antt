-- ===== src/Ae/Epoll/Watches.antt =====
-- ae_epoll.c below ae.c: the kernel watches what the event loop's table registers.
use decompose_redis.Base.{
  ℕ, suc, ◌+◌, ◌≤◌, ◌<◌, ◌≡◌, refl, sym, ap, ◌∙◌, inl, inr, true, false, ◌||◌, ◌⊎◌, Bool-cases,
  Option-cases, List, [], ◌∷◌, Option, some, none, leb, ◌==◌, if◌then◌else◌, length, set, ltb,
  arith,
}
use decompose_redis.Base.Int.{ℤ}
use decompose_redis.Ae.{
  Mask, mask_or, mask_and_not, is_none, FiredEvent, FileEvent, EventLoop, event_at,
}
use decompose_redis.Ae.FileEvents.{
  next_fd, registered, with_barrier, ae_get_file_events, ae_create_file_event, ae_delete_file_event,
  ae_resize_set_size,
}
use decompose_redis.Ae.FileEvents.Laws.{IsValid, event_at-set}
use decompose_redis.Ae.FileEvents.Resize.{resize_set_size-masks}
use decompose_redis.Ae.Epoll.{
  Interest, EpollEvent, Reported, AllReported, Kernel, ApiState, ctl_add, ctl_mod, ctl_del,
  after_ctl, interest, fired_of, fired_list, ae_api_add_event, ae_api_del_event, ae_api_resize,
  ae_api_poll, epoll,
}

-- What the kernel is to watch for a mask: EPOLLIN for AE_READABLE and EPOLLOUT for AE_WRITABLE, and
-- nothing for a mask with no bit.
abbrev pub interest_of : Mask → Option Interest
interest_of mask =
    if mask.readable || mask.writable || mask.barrier
    then some (record { epollin = mask.readable; epollout = mask.writable })
    else none

interest_lem :
    (mask : Mask) → (if is_none mask then none else some (interest mask)) ≡ interest_of mask
interest_lem mask = ground arith

interest-asks :
    (m : Mask) (i : Interest)
    → interest_of m ≡ some i
    → (is_none m ≡ false) × (i.epollin ≡ true → m.readable ≡ true)
interest-asks m i e = elim (Bool-cases (is_none m)) [
  | inl nothing ↦ ground arith
  | inr some_bit ↦ (some_bit, λ h. ground arith)
]

no_bits :
    (mask : Mask)
    → is_none mask ≡ true
    → interest mask ≡ record { epollin = false; epollout = false }
no_bits mask e = ground arith

same_fd : (fd : ℕ) → (fd == fd) ≡ true
same_fd fd = ground arith

-- epoll_ctl refuses to make a descriptor watched as given.
abbrev pub Refused : {K : Type 0} → Kernel K → K → ℕ → Option Interest → Type 0
Refused kernel k fd none =
    kernel.epoll_ctl k ctl_del fd (record { epollin = false; epollout = false }) ≡ none
Refused kernel k fd (some i) = kernel.epoll_ctl k ctl_mod fd i ≡ none

-- What aeApiAddEvent tells the kernel is what the new mask of the slot asks for.
told-registered :
    (fe : FileEvent) (mask : Mask) (proc client_data : ℕ)
    → is_none mask ≡ false
    → after_ctl (if is_none fe.mask then ctl_add else ctl_mod) (interest (mask_or mask fe.mask))
      ≡ interest_of (registered fe mask proc client_data).mask
unfolding registered
told-registered fe mask proc client_data h = ground arith

module _ {K : Type 0} (kernel : Kernel K) where
  -- The array for epoll_wait has a place for each slot of the table, and the kernel watches exactly
  -- the registered descriptors, for what their masks say.
  pub record Watches (el : EventLoop (ApiState K)) : Type 0 where
    pub slots : el.world.slots ≡ el.setsize
    pub watches : (i : ℕ) → kernel.watched el.world.kernel i ≡ interest_of (ae_get_file_events el i)

  -- One slot of the table and what the kernel watches for it are replaced by `e` and `k'`.
  replaced-Watches :
      (el : EventLoop (ApiState K)) (fd : ℕ) (e : FileEvent) (maxfd : ℤ) (k' : K)
      → IsValid el
      → Watches el
      → fd < el.setsize
      → ((i : ℕ)
          → kernel.watched k' i
            ≡ (if fd == i then interest_of e.mask else kernel.watched el.world.kernel i))
      → Watches (record el {
        events = set el.events fd e;
        maxfd = maxfd;
        world = record el.world { kernel = k' };
      })
  unfolding ae_get_file_events
  replaced-Watches el fd e maxfd k' v w h told = record {
    slots = w.slots;
    watches = λ i.
        told i
        ∙ rw (event_at-set el.events fd i e (omega (arith, v.size))) (elim (Bool-cases (fd == i)) [
          | inl here ↦ let on : leb el.setsize i ≡ false = ground arith in rw (here, on) refl
          | inr off ↦ rw off (w.watches i)
        ]);
  }

  resize-world :
      (el : EventLoop (ApiState K)) (fresh : List FileEvent) (setsize : ℕ)
      → Watches el
      → let el' = (ae_resize_set_size (epoll kernel) el fresh setsize).0 in
        (el'.world.slots ≡ el'.setsize) × (el'.world.kernel ≡ el.world.kernel)
  unfolding ae_resize_set_size ae_api_resize
  resize-world el fresh setsize w = elim (Bool-cases (setsize == el.setsize)) [
    | inl e ↦ rw e (w.slots, refl)
    | inr n ↦ elim (Bool-cases (ltb setsize (next_fd el.maxfd))) [
      | inl e ↦ rw (n, e) (w.slots, refl)
      | inr e ↦ rw (n, e) (refl, refl)
    ]
  ]

  -- aeResizeSetSize over epoll, on a valid loop with as many fresh slots as the table grows by: if the
  -- kernel watched what the loop registers, and the array for epoll_wait had a place for each slot of
  -- the table, then so it is afterwards.
  pub resize_set_size-Watches :
      (el : EventLoop (ApiState K)) (fresh : List FileEvent) (setsize : ℕ)
      → IsValid el
      → Watches el
      → setsize ≤ el.setsize + length fresh
      → Watches (ae_resize_set_size (epoll kernel) el fresh setsize).0
  resize_set_size-Watches el fresh setsize v w room =
      let world = resize-world el fresh setsize w in
      let same = (resize_set_size-masks (epoll kernel) el fresh setsize v room).1 in
      record {
        slots = world.0;
        watches =
            λ i. ap (λ k. kernel.watched k i) world.1 ∙ w.watches i ∙ ap interest_of (sym (same i));
      }

  -- aeCreateFileEvent over epoll, on a valid loop and with a mask that has a bit: if the kernel
  -- watched exactly what the loop registers, then so it does afterwards, whether the call succeeds or
  -- epoll_ctl refuses it.
  pub create_file_event-Watches :
      (el : EventLoop (ApiState K)) (fd : ℕ) (mask : Mask) (proc client_data : ℕ)
      → IsValid el
      → is_none mask ≡ false
      → Watches el
      → Watches (ae_create_file_event (epoll kernel) el fd mask proc client_data).0
  unfolding ae_create_file_event ae_api_add_event
  create_file_event-Watches el fd mask proc client_data v some_bit w =
      let old = (event_at el.events fd).mask in
      let op = if is_none old then ctl_add else ctl_mod in
      elim (Bool-cases (leb el.setsize fd)) [
        | inl off ↦ rw off w
        | inr on ↦
            elim (Option-cases
              (kernel.epoll_ctl el.world.kernel op fd (interest (mask_or mask old)))) [
                | inl refused ↦ rw (on, refused) w
                | inr (k', done) ↦
                    rw (on, done)
                      (replaced-Watches el fd
                        (registered (event_at el.events fd) mask proc client_data) _ k' v w
                        (ground arith)
                        λ i.
                          kernel.watched-ctl el.world.kernel k' op fd _ done i
                          ∙ rw
                              (told-registered (event_at el.events fd) mask proc client_data
                                some_bit)
                              refl)
              ]
      ]

  -- aeApiDelEvent on a descriptor that is left with the mask `kept`: the kernel watches what is left,
  -- or it refused just that and nothing has changed.
  deleted_kernel :
      (w : ApiState K) (fd : ℕ) (old delmask : Mask)
      → let kept = mask_and_not old delmask in
        ((k' : K) × (ae_api_del_event kernel w old fd delmask ≡ record w { kernel = k' })
          × ((i : ℕ)
              → kernel.watched k' i
                ≡ (if fd == i then interest_of kept else kernel.watched w.kernel i)))
        ⊎ ((ae_api_del_event kernel w old fd delmask ≡ w)
            × Refused kernel w.kernel fd (interest_of kept))
  unfolding ae_api_del_event
  deleted_kernel w fd old delmask =
      let kept = mask_and_not old delmask in
      rw (← interest_lem kept) (elim (Bool-cases (is_none kept)) [
        | inl e ↦ elim (Option-cases (kernel.epoll_ctl w.kernel ctl_del fd (interest kept))) [
          | inl no_ ↦ inr (
            rw (e, no_) refl,
            rw e (ap (kernel.epoll_ctl w.kernel ctl_del fd) (sym (no_bits kept e)) ∙ no_),
          )
          | inr (k', done) ↦ inl (
            k',
            rw (e, done) refl,
            rw e (kernel.watched-ctl w.kernel k' ctl_del fd (interest kept) done),
          )
        ]
        | inr e ↦ elim (Option-cases (kernel.epoll_ctl w.kernel ctl_mod fd (interest kept))) [
          | inl no_ ↦ inr (rw (e, no_) refl, rw e no_)
          | inr (k', done) ↦ inl (
            k',
            rw (e, done) refl,
            rw e (kernel.watched-ctl w.kernel k' ctl_mod fd (interest kept) done),
          )
        ]
      ])

  -- aeDeleteFileEvent over epoll, on a valid loop, when the kernel watched exactly what the loop
  -- registers: so it does afterwards, or epoll_ctl has refused to make it so for this descriptor, and
  -- the polling layer is as it was before. The loop is not told of the refusal.
  pub delete_file_event-Watches :
      (el : EventLoop (ApiState K)) (fd : ℕ) (mask : Mask)
      → IsValid el
      → Watches el
      → let el' = ae_delete_file_event (epoll kernel) el fd mask in
        Watches el'
        ⊎ ((el'.world ≡ el.world)
            × Refused kernel el.world.kernel fd (interest_of (ae_get_file_events el' fd)))
  unfolding ae_delete_file_event ae_get_file_events
  delete_file_event-Watches el fd mask v w =
      let fe = event_at el.events fd in
      elim (Bool-cases (leb el.setsize fd)) [
        | inl off ↦ rw off (inl w)
        | inr on ↦ elim (Bool-cases (is_none fe.mask)) [
          | inl nothing ↦ rw (on, nothing) (inl w)
          | inr some_bit ↦ elim (deleted_kernel el.world fd fe.mask (with_barrier mask)) [
            | inl (k', e, told) ↦
                rw (on, some_bit)
                  (inl (rw e (replaced-Watches el fd _ _ k' v w (ground arith) told)))
            | inr (e, r) ↦
                rw (on, some_bit)
                  (inr (
                    e,
                    rw
                        (
                          event_at-set el.events fd fd
                              (record fe { mask = mask_and_not fe.mask (with_barrier mask) })
                              (ground (arith, v.size)),
                          on,
                          same_fd fd,
                        )
                        r,
                  ))
          ]
        ]
      ]

  -- A fired event is one of a registered descriptor, readable only where AE_READABLE is registered.
  pub record Registered (el : EventLoop (ApiState K)) (f : FiredEvent) : Type 0 where
    pub some_bit : is_none (ae_get_file_events el f.fd) ≡ false
    pub asked : f.mask.readable ≡ true → (ae_get_file_events el f.fd).readable ≡ true

  abbrev pub AllRegistered : EventLoop (ApiState K) → List FiredEvent → Type 0
  AllRegistered el [] = Unit {0}
  AllRegistered el (f ∷ fs) = Registered el f × AllRegistered el fs

  fired_of-Registered :
      (el : EventLoop (ApiState K)) (e : EpollEvent)
      → Watches el
      → Reported (kernel.watched el.world.kernel) e
      → Registered el (fired_of e)
  fired_of-Registered el e w r =
      let mask = ae_get_file_events el e.fd in
      let known : interest_of mask ≡ some r.interest = sym (w.watches e.fd) ∙ r.is_watched in
      let a = interest-asks mask r.interest known in
      record { some_bit = a.0; asked = λ h. a.1 (r.asked_in h) }

  fired-Registered :
      (el : EventLoop (ApiState K)) (es : List EpollEvent)
      → Watches el
      → AllReported (kernel.watched el.world.kernel) es
      → (length (fired_list es) ≡ length es) × AllRegistered el (fired_list es)
  fired-Registered el [] w r = (refl, tt)
  fired-Registered el (e ∷ es) w r =
      let rest = fired-Registered el es w r.1 in
      (ap suc rest.0, (fired_of-Registered el e w r.0, rest.1))

  -- aeApiPoll over epoll, when the kernel watches exactly what the loop registers and the array for
  -- epoll_wait has a place for each slot: it fires at most as many events as the arrays hold, each of
  -- a registered descriptor and readable only where AE_READABLE is registered, and the kernel watches
  -- the same afterwards.
  pub poll-AllRegistered :
      (el : EventLoop (ApiState K)) (timeout : Option ℕ)
      → Watches el
      → let r = ae_api_poll kernel el.world el.setsize timeout in
        (length r.0 ≤ el.world.slots)
        × (length r.0 ≤ el.setsize)
        × AllRegistered el r.0
        × Watches (record el { world = r.1 })
  unfolding ae_api_poll ae_get_file_events
  poll-AllRegistered el timeout w =
      let waited = kernel.epoll_wait el.world.kernel el.setsize timeout in
      let after : Watches (record el { world = record el.world { kernel = waited.1 } }) = record {
        slots = w.slots;
        watches = λ i. kernel.watched-wait el.world.kernel el.setsize timeout i ∙ w.watches i;
      } in
      elim (Option-cases waited.0) [
        | inl e ↦ rw e (omega arith, omega arith, tt, after)
        | inr (es, e) ↦
            let l = kernel.length-wait el.world.kernel el.setsize timeout es e in
            let fired = fired-Registered el es w l.1 in
            rw e (omega (arith, l.0, fired.0, w.slots), omega (arith, l.0, fired.0), fired.1, after)
      ]
