-- ===== src/Ae/FileEvents.antt =====
-- ae.c: the table of file events. Calls answer true for AE_OK and false for AE_ERR.
pub mod Laws
pub mod Create
pub mod Delete
pub mod Resize
use decompose_redis.Base.{
  ℕ, zero, suc, ◌+◌, ◌≡◌, Bool, true, false, List, [], ◌∷◌, ◌++◌, Option, some, none, leb, ltb,
  ◌==◌, ◌&&◌, ◌||◌, if◌then◌else◌, set, take, drop, replicate,
}
use decompose_redis.Base.Int.{ℤ, pos, negsuc, ltb_ℤ}
use decompose_redis.Ae.{
  Mask, ae_none, mask_or, mask_and_not, is_none, FileEvent, EventLoop, Api, no_event, event_at,
}

-- One past the highest descriptor.
abbrev pub next_fd : ℤ → ℕ
next_fd (pos n) = suc n
next_fd (negsuc n) = 0

-- `for (i = from; i < setsize; i++) events[i].mask = AE_NONE`, over the slots from `from` on.
unfoldable pub clear_from : ℕ → List FileEvent → List FileEvent
clear_from from [] = []
clear_from zero (e ∷ es) = record e { mask = ae_none } ∷ clear_from zero es
clear_from (suc from) (e ∷ es) = e ∷ clear_from from es

-- The `mask == AE_NONE` loop of aeDeleteFileEvent: the highest registered descriptor below `j`.
unfoldable pub top_fd : List FileEvent → ℕ → ℤ
top_fd events zero = negsuc 0
top_fd events (suc j) =
    let rest = top_fd events j in if is_none (event_at events j).mask then rest else pos j

unfoldable pub registered : FileEvent → Mask → ℕ → ℕ → FileEvent
registered fe mask proc client_data = record {
  mask = mask_or fe.mask mask;
  rfile_proc = if mask.readable then proc else fe.rfile_proc;
  wfile_proc = if mask.writable then proc else fe.wfile_proc;
  client_data = client_data;
}

unfoldable pub with_barrier : Mask → Mask
with_barrier mask = if mask.writable then record mask { barrier = true } else mask

module _ {W : Type 0} where
  -- `fresh` are the slots that zmalloc gave, `world` is what aeApiCreate left.
  unfoldable pub ae_create_event_loop : List FileEvent → ℕ → ℕ → W → EventLoop W
  unfolding clear_from
  ae_create_event_loop fresh setsize now world = record {
    maxfd = negsuc 0;
    setsize = setsize;
    time_event_next_id = 0;
    last_time = now;
    events = clear_from 0 fresh;
    table = 0;
    time_events = [];
    stop = false;
    beforesleep = none;
    aftersleep = none;
    world = world;
  }

  unfoldable pub ae_get_file_events : EventLoop W → ℕ → Mask
  ae_get_file_events el fd = if leb el.setsize fd then ae_none else (event_at el.events fd).mask

module _ {W : Type 0} (api : Api W) where
  unfoldable pub ae_create_file_event : EventLoop W → ℕ → Mask → ℕ → ℕ → EventLoop W × Bool
  ae_create_file_event el fd mask proc client_data =
      let fe = event_at el.events fd in
      if leb el.setsize fd then (el, false) else elim (api.add_event el.world fe.mask fd mask) [
        | none ↦ (el, false)
        | some world ↦ (
          record el {
            events = set el.events fd (registered fe mask proc client_data);
            maxfd = if leb (next_fd el.maxfd) fd then pos fd else el.maxfd;
            world = world;
          },
          true,
        )
      ]

  unfoldable pub ae_delete_file_event : EventLoop W → ℕ → Mask → EventLoop W
  ae_delete_file_event el fd mask =
      let fe = event_at el.events fd in
      let kept = mask_and_not fe.mask (with_barrier mask) in
      let events = set el.events fd (record fe { mask = kept }) in
      if leb el.setsize fd then el else if is_none fe.mask then el else record el {
        events = events;
        maxfd = if (next_fd el.maxfd == suc fd) && is_none kept then top_fd events fd else el.maxfd;
        world = api.del_event el.world fe.mask fd (with_barrier mask);
      }

  -- `fresh` are the slots that zrealloc adds behind the old ones when the table grows.
  unfoldable pub ae_resize_set_size : EventLoop W → List FileEvent → ℕ → EventLoop W × Bool
  ae_resize_set_size el fresh setsize =
      if setsize == el.setsize
      then (el, true)
      else if ltb setsize (next_fd el.maxfd)
      then (el, false)
      else elim (api.resize el.world setsize) [
        | none ↦ (el, false)
        | some world ↦ (
          record el {
            events = clear_from (next_fd el.maxfd) (take setsize (el.events ++ fresh));
            table = el.table + 1;
            setsize = setsize;
            world = world;
          },
          true,
        )
      ]
