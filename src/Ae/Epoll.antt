-- ===== src/Ae/Epoll.antt =====
-- ae_epoll.c: the polling layer over epoll. The kernel is a parameter, with what epoll_ctl(2) and
-- epoll_wait(2) document. Any call of epoll_ctl may fail, and then leaves what is watched as it was.
pub mod Watches
mod Samples
use decompose_redis.Base.{
  ℕ, ◌≤◌, ◌≡◌, Bool, true, false, ◌||◌, List, [], ◌∷◌, Option, some, none, ◌==◌, if◌then◌else◌,
  length,
}
use decompose_redis.Ae.{Mask, mask_or, mask_and_not, is_none, FiredEvent, EventLoop, Api}

-- EPOLL_CTL_ADD, EPOLL_CTL_MOD and EPOLL_CTL_DEL.
pub data Op : Type 0 where
  ctl_add ctl_mod ctl_del : Op

-- The bits EPOLLIN and EPOLLOUT of an `epoll_event` that is given to epoll_ctl.
pub record Interest : Type 0 where
  pub epollin : Bool
  pub epollout : Bool

-- An `epoll_event` that epoll_wait reports.
pub record EpollEvent : Type 0 where
  pub fd : ℕ
  pub epollin : Bool
  pub epollout : Bool
  pub epollerr : Bool
  pub epollhup : Bool

-- A report on a descriptor that is watched, EPOLLIN and EPOLLOUT only as far as they were asked for.
pub record Reported (watched : ℕ → Option Interest) (e : EpollEvent) : Type 0 where
  pub interest : Interest
  pub is_watched : watched e.fd ≡ some interest
  pub asked_in : e.epollin ≡ true → interest.epollin ≡ true
  pub asked_out : e.epollout ≡ true → interest.epollout ≡ true

abbrev pub AllReported : (ℕ → Option Interest) → List EpollEvent → Type 0
AllReported watched [] = Unit {0}
AllReported watched (e ∷ es) = Reported watched e × AllReported watched es

-- What a successful epoll_ctl leaves for its descriptor.
abbrev pub after_ctl : Op → Interest → Option Interest
after_ctl ctl_add i = some i
after_ctl ctl_mod i = some i
after_ctl ctl_del i = none

pub record Kernel (K : Type 0) : Type 0 where
  pub epoll_ctl : K → Op → ℕ → Interest → Option K
  pub epoll_wait : K → (maxevents : ℕ) → (timeout : Option ℕ) → Option (List EpollEvent) × K
  pub watched : K → ℕ → Option Interest
  pub watched-ctl :
      (k k' : K) (op : Op) (fd : ℕ) (i : Interest)
      → epoll_ctl k op fd i ≡ some k'
      → (j : ℕ) → watched k' j ≡ (if fd == j then after_ctl op i else watched k j)
  pub watched-wait :
      (k : K) (n : ℕ) (timeout : Option ℕ)
      → (j : ℕ) → watched (epoll_wait k n timeout).1 j ≡ watched k j
  pub length-wait :
      (k : K) (n : ℕ) (timeout : Option ℕ) (es : List EpollEvent)
      → (epoll_wait k n timeout).0 ≡ some es
      → (length es ≤ n) × AllReported (watched k) es

-- aeApiState: the room of the array `events`, and the kernel's side of `epfd`.
pub record ApiState (K : Type 0) : Type 0 where
  pub slots : ℕ
  pub kernel : K

abbrev pub interest : Mask → Interest
interest mask = record { epollin = mask.readable; epollout = mask.writable }

abbrev pub fired_of : EpollEvent → FiredEvent
fired_of e = record {
  fd = e.fd;
  mask = record {
    readable = e.epollin;
    writable = e.epollout || e.epollerr || e.epollhup;
    barrier = false;
  };
}

abbrev pub fired_list : List EpollEvent → List FiredEvent
fired_list [] = []
fired_list (e ∷ es) = fired_of e ∷ fired_list es

-- A return value of -1 reports nothing.
abbrev pub fired_events : Option (List EpollEvent) → List FiredEvent
fired_events none = []
fired_events (some es) = fired_list es

module _ {K : Type 0} (kernel : Kernel K) where
  -- The state after an epoll_ctl whose return value is not read.
  abbrev pub or_same : ApiState K → Option K → ApiState K
  or_same w none = w
  or_same w (some k) = record w { kernel = k }

  abbrev pub if_done : ApiState K → Option K → Option (ApiState K)
  if_done w none = none
  if_done w (some k) = some (record w { kernel = k })

  unfoldable pub ae_api_add_event : ApiState K → Mask → ℕ → Mask → Option (ApiState K)
  ae_api_add_event w old fd mask = if_done w (
      kernel.epoll_ctl w.kernel (if is_none old then ctl_add else ctl_mod) fd
        (interest (mask_or mask old)))

  unfoldable pub ae_api_del_event : ApiState K → Mask → ℕ → Mask → ApiState K
  ae_api_del_event w old fd delmask =
      let kept = mask_and_not old delmask in
      or_same w
        (kernel.epoll_ctl w.kernel (if is_none kept then ctl_del else ctl_mod) fd (interest kept))

  unfoldable pub ae_api_resize : ApiState K → ℕ → Option (ApiState K)
  ae_api_resize w setsize = some (record w { slots = setsize })

  unfoldable pub ae_api_poll : ApiState K → ℕ → Option ℕ → List FiredEvent × ApiState K
  ae_api_poll w setsize timeout =
      let waited = kernel.epoll_wait w.kernel setsize timeout in
      (fired_events waited.0, record w { kernel = waited.1 })

  abbrev pub epoll : Api (ApiState K)
  epoll = record {
    add_event = ae_api_add_event;
    del_event = ae_api_del_event;
    resize = ae_api_resize;
    poll = ae_api_poll;
  }
