-- ===== src/Net/Reply/Laws.antt =====
-- networking.c: the stream of bytes that a client is still to be sent, and what queuing adds to it.
use mathlib.Core.List.{append_assoc, append-nil}
use decompose_redis.Base.{
  ℕ, suc, ◌+◌, ◌-◌, ◌%◌, ◌≤◌, ◌≡◌, refl, sym, ap, ◌∙◌, Bool, true, false, not, ◌&&◌, ◌||◌, List, [],
  ◌∷◌, ◌++◌, Option, some, none, ◌==◌, if◌then◌else◌, length, take, drop, length-append,
  length-take, take-append-drop, arith,
}
use decompose_redis.Net.{Client, ReplyBlock, State, reply_chunk_bytes, word}
use decompose_redis.Net.Limits.{
  async_close_client_on_output_buffer_limit_reached, free_client_async,
  check_client_output_buffer_limits, close_if, no_client, queued_to_close,
}
use decompose_redis.Net.Reply.{
  takes_replies, schedule, client_install_write_handler, client_has_pending_replies, may_write,
  queued_to_write, fill_tail,
}

abbrev pub block_bytes : Option ReplyBlock → List ℕ
block_bytes none = []
block_bytes (some b) = b.buf

abbrev pub block_size : Option ReplyBlock → ℕ
block_size none = 0
block_size (some b) = b.size

abbrev pub bytes_of : List (Option ReplyBlock) → List ℕ
bytes_of [] = []
bytes_of (b ∷ bs) = block_bytes b ++ bytes_of bs

abbrev pub size_of : List (Option ReplyBlock) → ℕ
size_of [] = 0
size_of (b ∷ bs) = block_size b + size_of bs

-- The bytes that writeToClient is still to send, in order.
unfoldable pub stream : Client → List ℕ
stream c = drop c.sentlen (c.buf ++ bytes_of c.reply)

-- How many bytes the object has that is sent next.
abbrev pub first_length : List (Option ReplyBlock) → ℕ
first_length [] = 0
first_length (b ∷ bs) = length (block_bytes b)

abbrev pub head_length : List ℕ → List (Option ReplyBlock) → ℕ
head_length [] bs = first_length bs
head_length (x ∷ s) bs = suc (length s)

-- No block is fuller than it is large.
abbrev pub Fit : List (Option ReplyBlock) → Type 0
Fit [] = Unit {0}
Fit (b ∷ bs) = (length (block_bytes b) ≤ block_size b) × Fit bs

pub record IsReply (c : Client) : Type 0 where
  pub buf_fits : length c.buf ≤ reply_chunk_bytes
  pub blocks_fit : Fit c.reply
  pub bytes : c.reply_bytes ≡ size_of c.reply % word
  pub sent : c.sentlen ≤ head_length c.buf c.reply

abbrev pub willing : Client → Bool
willing c = c.flags.lua || c.flags.module_ || takes_replies c

-- Whether the bytes of a reply are queued, or dropped.
unfoldable pub accepts : Client → Bool
accepts c = willing c && not c.flags.close_after_reply

-- Nothing of what is to be sent has changed.
pub record SameReply (c c' : Client) : Type 0 where
  pub same_buf : c'.buf ≡ c.buf
  pub same_reply : c'.reply ≡ c.reply
  pub same_bytes : c'.reply_bytes ≡ c.reply_bytes
  pub same_sent : c'.sentlen ≡ c.sentlen
  pub same_accepts : accepts c' ≡ accepts c
  pub same_willing : willing c' ≡ willing c
  pub same_resp : c'.resp ≡ c.resp

abbrev pub same_reply_refl : (c : Client) → SameReply c c
same_reply_refl c = record {
  same_buf = refl;
  same_reply = refl;
  same_bytes = refl;
  same_sent = refl;
  same_accepts = refl;
  same_willing = refl;
  same_resp = refl;
}

if_same :
    (c : Client) (b : Bool) (x y : State)
    → SameReply c x.client
    → SameReply c y.client
    → SameReply c (if b then x else y).client
if_same c true x y h k = h
if_same c false x y h k = k

pub free_client_async-SameReply : (s : State) → SameReply s.client (free_client_async s).client
unfolding free_client_async accepts
free_client_async-SameReply s =
    if_same s.client (s.client.flags.close_asap || s.client.flags.lua) s (queued_to_close s)
      (same_reply_refl s.client)
      (record {
        same_buf = refl;
        same_reply = refl;
        same_bytes = refl;
        same_sent = refl;
        same_accepts = refl;
        same_willing = refl;
        same_resp = refl;
      })

close_if-SameReply : (b : Bool) (s : State) → SameReply s.client (close_if b s).client
close_if-SameReply false s = same_reply_refl s.client
close_if-SameReply true s = free_client_async-SameReply s

pub async_close-SameReply :
    (item : ℕ) (s : State)
    → SameReply s.client (async_close_client_on_output_buffer_limit_reached item s).client
unfolding async_close_client_on_output_buffer_limit_reached accepts
    check_client_output_buffer_limits
async_close-SameReply item s =
    let checked = check_client_output_buffer_limits item s.server s.client in
    let s' : State = record s { client = checked.1 } in
    let k = close_if-SameReply checked.0 s' in
    if_same s.client
      (no_client s.client.fd || (s.client.reply_bytes == 0 || s.client.flags.close_asap)) s
      (close_if checked.0 s') (same_reply_refl s.client)
      (record {
        same_buf = k.same_buf;
        same_reply = k.same_reply;
        same_bytes = k.same_bytes;
        same_sent = k.same_sent;
        same_accepts = k.same_accepts;
        same_willing = k.same_willing;
        same_resp = k.same_resp;
      })

pub schedule-SameReply : (s : State) → SameReply s.client (schedule s).client
unfolding client_install_write_handler accepts
schedule-SameReply s =
    if_same s.client (not (client_has_pending_replies s.client)) (client_install_write_handler s) s
      (if_same s.client (not s.client.flags.pending_write && may_write s.client) (queued_to_write s)
        s
        (record {
          same_buf = refl;
          same_reply = refl;
          same_bytes = refl;
          same_sent = refl;
          same_accepts = refl;
          same_willing = refl;
          same_resp = refl;
        })
        (same_reply_refl s.client))
      (same_reply_refl s.client)

pub bytes_of-append :
    (bs cs : List (Option ReplyBlock)) → bytes_of (bs ++ cs) ≡ bytes_of bs ++ bytes_of cs
bytes_of-append [] cs = refl
bytes_of-append (b ∷ bs) cs =
    ap (◌++◌ (block_bytes b)) (bytes_of-append bs cs)
    ∙ sym (append_assoc (block_bytes b) (bytes_of bs) (bytes_of cs))

pub size_of-append :
    (bs cs : List (Option ReplyBlock)) → size_of (bs ++ cs) ≡ size_of bs + size_of cs
size_of-append [] cs = omega arith
size_of-append (b ∷ bs) cs = omega (arith, size_of-append bs cs)

pub Fit-append : (bs cs : List (Option ReplyBlock)) → Fit bs → Fit cs → Fit (bs ++ cs)
Fit-append [] cs h k = k
Fit-append (b ∷ bs) cs h k = (h.0, Fit-append bs cs h.1 k)

pub bytes_of-fill_tail :
    (bs : List (Option ReplyBlock)) (s : List ℕ)
    → bytes_of (fill_tail bs s).0 ++ (fill_tail bs s).1 ≡ bytes_of bs ++ s
bytes_of-fill_tail [] s = refl
bytes_of-fill_tail (none ∷ []) s = refl
bytes_of-fill_tail (some b ∷ []) s =
    let n : ℕ = b.size - length b.buf in
    ap (λ x. x ++ drop n s) (append-nil (b.buf ++ take n s))
    ∙ append_assoc b.buf (take n s) (drop n s)
    ∙ ap (◌++◌ b.buf) (take-append-drop n s)
    ∙ ap (λ x. x ++ s) (sym (append-nil b.buf))
bytes_of-fill_tail (b ∷ b' ∷ bs) s =
    append_assoc (block_bytes b) (bytes_of (fill_tail (b' ∷ bs) s).0) (fill_tail (b' ∷ bs) s).1
    ∙ ap (◌++◌ (block_bytes b)) (bytes_of-fill_tail (b' ∷ bs) s)
    ∙ sym (append_assoc (block_bytes b) (bytes_of (b' ∷ bs)) s)

pub size_of-fill_tail :
    (bs : List (Option ReplyBlock)) (s : List ℕ) → size_of (fill_tail bs s).0 ≡ size_of bs
size_of-fill_tail [] s = refl
size_of-fill_tail (none ∷ []) s = refl
size_of-fill_tail (some b ∷ []) s = refl
size_of-fill_tail (b ∷ b' ∷ bs) s = ap (λ n. block_size b + n) (size_of-fill_tail (b' ∷ bs) s)

pub Fit-fill_tail : (bs : List (Option ReplyBlock)) (s : List ℕ) → Fit bs → Fit (fill_tail bs s).0
Fit-fill_tail [] s h = tt
Fit-fill_tail (none ∷ []) s h = h
Fit-fill_tail (some b ∷ []) s h =
    let n : ℕ = b.size - length b.buf in
    (omega (arith, h.0, length-append b.buf (take n s), length-take n s), tt)
Fit-fill_tail (b ∷ b' ∷ bs) s h = (h.0, Fit-fill_tail (b' ∷ bs) s h.1)

pub first_length-fill_tail :
    (bs : List (Option ReplyBlock)) (s : List ℕ) → first_length bs ≤ first_length (fill_tail bs s).0
first_length-fill_tail [] s = omega arith
first_length-fill_tail (none ∷ []) s = omega arith
first_length-fill_tail (some b ∷ []) s =
    omega (arith, length-append b.buf (take (b.size - length b.buf) s))
first_length-fill_tail (b ∷ b' ∷ bs) s = omega arith
