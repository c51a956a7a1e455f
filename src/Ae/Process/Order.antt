-- ===== src/Ae/Process/Order.antt =====
-- ae.c: which callbacks a fired event calls, and in which order.
use decompose_redis.Base.{
  ℕ, ◌≡◌, some, Bool, true, false, ◌&&◌, List, [], ◌∷◌, ◌==◌, if◌then◌else◌, arith,
}
use decompose_redis.Ae.{Mask, FileEvent, FiredEvent, EventLoop, Procs, event_at}
use decompose_redis.Ae.Process.{dispatch}

-- The callbacks due for a fired event in a slot, in order. Of a slot with AE_BARRIER the writable one
-- is first, of another the readable one; a function that is registered for both is called once.
abbrev pub second_call : ℕ → List ℕ → ℕ → Bool → List ℕ
second_call first rest proc false = first ∷ rest
second_call first rest proc true = if first == proc then first ∷ rest else first ∷ proc ∷ rest

abbrev ordered : Bool → ℕ → Bool → ℕ → List ℕ
ordered false p due q = if due then q ∷ [] else []
ordered true p due q = second_call p [] q due

abbrev pub calls : FileEvent → Mask → List ℕ
calls fe fired =
    let reads = fe.mask.readable && fired.readable in
    let writes = fe.mask.writable && fired.writable in
    if fe.mask.barrier
    then ordered writes fe.wfile_proc reads fe.rfile_proc
    else ordered reads fe.rfile_proc writes fe.wfile_proc

module _ {W : Type 0} (procs : Procs W) where
  abbrev pub run_calls : EventLoop W → ℕ → ℕ → Mask → List ℕ → EventLoop W
  run_calls el fd client_data mask [] = el
  run_calls el fd client_data mask (p ∷ ps) =
      run_calls (procs.file_proc p el fd client_data mask) fd client_data mask ps

  -- aeProcessEvents for one fired event, when the callbacks leave its slot as it is and do not
  -- reallocate the table: no dangling pointer is read, and exactly the due
  -- callbacks are called, in the order that AE_BARRIER asks for, and none twice.
  pub dispatch-calls :
      (el : EventLoop W) (f : FiredEvent)
      → ((p : ℕ) (el' : EventLoop W)
          → event_at
              (procs.file_proc p el' f.fd (event_at el.events f.fd).client_data f.mask).events
              f.fd
            ≡ event_at el'.events f.fd)
      → ((p : ℕ) (el' : EventLoop W)
          → (procs.file_proc p el' f.fd (event_at el.events f.fd).client_data f.mask).table
            ≡ el'.table)
      → dispatch procs el f
        ≡ some (
            run_calls el f.fd
              (event_at el.events f.fd).client_data
              f.mask
              (calls (event_at el.events f.fd) f.mask))
  unfolding dispatch
  dispatch-calls el f keeps stays =
      let fe = event_at el.events f.fd in
      let read = procs.file_proc fe.rfile_proc el f.fd fe.client_data f.mask in
      ground (
        arith,
        keeps fe.rfile_proc el,
        keeps fe.wfile_proc el,
        stays fe.rfile_proc el,
        stays fe.wfile_proc el,
        stays fe.wfile_proc read,
      )
