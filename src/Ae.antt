-- ===== src/Ae.antt =====
-- ae.h: the data of the event loop. A mask is an `int` with the bits AE_READABLE (1), AE_WRITABLE (2)
-- and AE_BARRIER (4): the record of its three bits. A function pointer is a number, its address; the
-- functions behind the pointers are `Procs`. `W` is what lies outside the loop: the kernel's poll
-- state behind `apidata`, the clock, and the state of the callbacks' own.
pub mod FileEvents
pub mod TimeEvents
pub mod Process
pub mod Epoll
mod Samples
use decompose_redis.Base.{
  ℕ, zero, suc, ◌≡◌, Bool, true, false, not, ◌&&◌, ◌||◌, List, [], ◌∷◌, Option, some, none,
  get_elem?,
}
use decompose_redis.Base.Int.{ℤ, pos, negsuc}

pub record Mask : Type 0 where
  pub readable : Bool
  pub writable : Bool
  pub barrier : Bool

abbrev pub ae_none : Mask
ae_none = record { readable = false; writable = false; barrier = false }

-- `a | b`, `a & ~b`, and the test `a == AE_NONE`.
abbrev pub mask_or : Mask → Mask → Mask
mask_or a b = record {
  readable = a.readable || b.readable;
  writable = a.writable || b.writable;
  barrier = a.barrier || b.barrier;
}

abbrev pub mask_and_not : Mask → Mask → Mask
mask_and_not a b = record {
  readable = a.readable && not b.readable;
  writable = a.writable && not b.writable;
  barrier = a.barrier && not b.barrier;
}

abbrev pub is_none : Mask → Bool
is_none a = not (a.readable || a.writable || a.barrier)

pub record FileEvent : Type 0 where
  pub mask : Mask
  pub rfile_proc : ℕ
  pub wfile_proc : ℕ
  pub client_data : ℕ

pub record FiredEvent : Type 0 where
  pub fd : ℕ
  pub mask : Mask

-- An event of the timer list. `node` stands for its address: no two nodes of a list share it. `id` is
-- `none` for AE_DELETED_EVENT_ID.
pub record TimeEvent : Type 0 where
  pub node : ℕ
  pub id : Option ℕ
  pub when_sec : ℕ
  pub when_ms : ℕ
  pub time_proc : ℕ
  pub finalizer_proc : Option ℕ
  pub client_data : ℕ

-- The timer list, head first. `maxfd` is -1 when no descriptor is registered. `table` stands for the
-- address of the array `events`: it changes whenever the array is reallocated.
pub record EventLoop (W : Type 0) : Type 0 where
  pub maxfd : ℤ
  pub setsize : ℕ
  pub time_event_next_id : ℕ
  pub last_time : ℕ
  pub events : List FileEvent
  pub table : ℕ
  pub time_events : List TimeEvent
  pub stop : Bool
  pub beforesleep : Option ℕ
  pub aftersleep : Option ℕ
  pub world : W

-- The multiplexing layer: aeApiAddEvent and aeApiDelEvent are given the mask that is registered, the
-- descriptor and the new or deleted mask; `none` is -1. aeApiPoll is given the size of the table and the
-- time to wait in milliseconds, `none` to wait for ever, and gives the fired events.
pub record Api (W : Type 0) : Type 0 where
  pub add_event : W → Mask → ℕ → Mask → Option W
  pub del_event : W → Mask → ℕ → Mask → W
  pub resize : W → ℕ → Option W
  pub poll : W → ℕ → Option ℕ → List FiredEvent × W

-- gettimeofday, in seconds and milliseconds, and time(NULL).
pub record Clock (W : Type 0) : Type 0 where
  pub get_time : W → ℕ × ℕ
  pub time : W → ℕ

-- The functions behind the pointers: what a call leaves of the loop. A timer returns the milliseconds
-- to its next run, or `none` for AE_NOMORE.
pub record Procs (W : Type 0) : Type 0 where
  pub file_proc : ℕ → EventLoop W → ℕ → ℕ → Mask → EventLoop W
  pub time_proc : ℕ → EventLoop W → ℕ → ℕ → EventLoop W × Option ℕ
  pub finalizer_proc : ℕ → EventLoop W → ℕ → EventLoop W
  pub sleep_proc : ℕ → EventLoop W → EventLoop W

abbrev pub no_event : FileEvent
no_event = record { mask = ae_none; rfile_proc = 0; wfile_proc = 0; client_data = 0 }

-- `eventLoop->events[fd]`; a descriptor outside the table reads as an empty slot.
abbrev pub event_at : List FileEvent → ℕ → FileEvent
event_at [] fd = no_event
event_at (e ∷ es) zero = e
event_at (e ∷ es) (suc fd) = event_at es fd
