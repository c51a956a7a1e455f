-- ===== src/Ae/Epoll/Samples.antt =====
-- The theorems on ae_epoll.c at a concrete kernel, whose state is the table of what it watches. It
-- grants every request, and epoll_wait reports descriptor 1 with what is asked of it.
use decompose_redis.Base.{
  ℕ, zero, suc, ◌≡◌, ◌≤◌, refl, ◌⊎◌, inr, true, false, List, [], ◌∷◌, Option, some, none, ap, sym,
  ◌==◌, if◌then◌else◌, length, arith,
}
use decompose_redis.Base.Int.{pos}
use decompose_redis.Ae.{Mask, EventLoop, FileEvent, no_event, event_at, is_none}
use decompose_redis.Ae.FileEvents.{ae_create_file_event, ae_delete_file_event, ae_get_file_events}
use decompose_redis.Ae.FileEvents.Laws.{IsValid}
use decompose_redis.Ae.Epoll.{
  Op, Interest, EpollEvent, AllReported, Kernel, ApiState, after_ctl, interest, epoll, ae_api_poll,
}
use decompose_redis.Ae.Epoll.Watches.{
  interest_of, Refused, Watches, AllRegistered, create_file_event-Watches,
  delete_file_event-Watches, poll-AllRegistered,
}

abbrev Table : Type 0
Table = ℕ → Option Interest

abbrev written : Table → Op → ℕ → Interest → Table
written k op fd i = λ j. if fd == j then after_ctl op i else k j

abbrev report_one : Option Interest → List EpollEvent
report_one none = []
report_one (some i) =
    record { fd = 1; epollin = i.epollin; epollout = i.epollout; epollerr = false; epollhup = true }
    ∷ []

abbrev report : Table → ℕ → List EpollEvent
report k zero = []
report k (suc n) = report_one (k 1)

written-watched :
    (k k' : Table) (op : Op) (fd : ℕ) (i : Interest)
    → some (written k op fd i) ≡ some k'
    → (j : ℕ) → k' j ≡ (if fd == j then after_ctl op i else k j)
written-watched k k' op fd i e j = let q : written k op fd i ≡ k' = cc in ap (λ t. t j) (sym q)

report_one-fits :
    (k : Table) (o : Option Interest) (n : ℕ)
    → k 1 ≡ o
    → (length (report_one o) ≤ suc n) × AllReported k (report_one o)
report_one-fits k none n e = (omega arith, tt)
report_one-fits k (some i) n e = (
  omega arith,
  (record { interest = i; is_watched = e; asked_in = λ h. h; asked_out = λ h. h }, tt),
)

report-fits :
    (k : Table) (n : ℕ) (es : List EpollEvent)
    → some (report k n) ≡ some es
    → (length es ≤ n) × AllReported k es
report-fits k zero es e = let q : [] ≡ es = cc in rw (← q) (omega arith, tt)
report-fits k (suc n) es e =
    let q : report_one (k 1) ≡ es = cc in rw (← q) (report_one-fits k (k 1) n refl)

abbrev granting : Kernel Table
granting = record {
  epoll_ctl = λ k op fd i. some (written k op fd i);
  epoll_wait = λ k n timeout. (some (report k n), k);
  watched = λ k. k;
  watched-ctl = written-watched;
  watched-wait = λ k n timeout j. refl;
  length-wait = λ k n timeout. report-fits k n;
}

abbrev read_write : Mask
read_write = record { readable = true; writable = true; barrier = true }

abbrev slot : FileEvent
slot = record { mask = read_write; rfile_proc = 1; wfile_proc = 2; client_data = 9 }

abbrev table : Table
table zero = none
table (suc zero) = some (interest read_write)
table (suc (suc n)) = none

-- Descriptor 1 of three is registered.
abbrev loop : EventLoop (ApiState Table)
loop = record {
  maxfd = pos 1;
  setsize = 3;
  time_event_next_id = 0;
  last_time = 4;
  events = no_event ∷ slot ∷ no_event ∷ [];
  table = 0;
  time_events = [];
  stop = false;
  beforesleep = none;
  aftersleep = none;
  world = record { slots = 3; kernel = table };
}

above_one : (fd : ℕ) → 2 ≤ fd → is_none (event_at loop.events fd).mask ≡ true
above_one zero h = absurd (omega arith)
above_one (suc zero) h = absurd (omega arith)
above_one (suc (suc zero)) h = refl
above_one (suc (suc (suc fd))) h = refl

loop-IsValid : IsValid loop
loop-IsValid = record {
  size = refl;
  within = omega arith;
  above = above_one;
  top = inr (1, refl, refl);
}

same_table : (i : ℕ) → table i ≡ interest_of (ae_get_file_events loop i)
unfolding ae_get_file_events
same_table zero = refl
same_table (suc zero) = refl
same_table (suc (suc zero)) = refl
same_table (suc (suc (suc i))) = ground arith

loop-Watches : Watches granting loop
loop-Watches = record { slots = refl; watches = same_table }

create_file_event-Watches_example :
    Watches granting (ae_create_file_event (epoll granting) loop 2 read_write 5 8).0
create_file_event-Watches_example =
    create_file_event-Watches granting loop 2 read_write 5 8 loop-IsValid refl loop-Watches

delete_file_event-Watches_example :
    let el' = ae_delete_file_event (epoll granting) loop 1 read_write in
    Watches granting el'
    ⊎ ((el'.world ≡ loop.world) × Refused granting table 1 (interest_of (ae_get_file_events el' 1)))
delete_file_event-Watches_example =
    delete_file_event-Watches granting loop 1 read_write loop-IsValid loop-Watches

poll-AllRegistered_example :
    let r = ae_api_poll granting loop.world 3 (some 100) in
    (length r.0 ≤ 3)
    × (length r.0 ≤ 3)
    × AllRegistered granting loop r.0
    × Watches granting (record loop { world = r.1 })
poll-AllRegistered_example = poll-AllRegistered granting loop (some 100) loop-Watches
