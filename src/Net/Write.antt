-- ===== src/Net/Write.antt =====
-- networking.c: writeToClient sends the queued replies to the socket. write(2) is a parameter: what it
-- gives may be different at every call, and it takes no more bytes than it is given. The bytes that it
-- took are kept in `sent`. A read through a NULL in the reply list and a failing assertion are faults.
pub mod Laws
pub mod Blocks
pub mod Sent
pub mod Delivery
use decompose_redis.Base.{
  ℕ, zero, suc, ◌+◌, ◌-◌, ◌%◌, ◌≤◌, ◌≡◌, Bool, true, false, not, ◌&&◌, ◌||◌, List, [], ◌∷◌, ◌++◌,
  Option, some, none, leb, ltb, ◌==◌, if◌then◌else◌, length, take, drop,
}
use decompose_redis.Net.{Client, ReplyBlock, Server, State, word}
use decompose_redis.Net.Limits.{free_client_async}
use decompose_redis.Net.Reply.{is_empty, client_has_pending_replies}

-- The count of bytes, or -1 with EAGAIN or with another error.
pub data WriteResult : Type 0 where
  wrote : ℕ → WriteResult
  again error_ : WriteResult

-- `write` has the number of the call, from 0, before the bytes; `max_writes` is
-- NET_MAX_WRITES_PER_EVENT, and `used_memory` what zmalloc_used_memory gives.
pub record Socket : Type 0 where
  pub write : ℕ → List ℕ → WriteResult
  pub write_most : (k : ℕ) (s : List ℕ) (n : ℕ) → write k s ≡ wrote n → n ≤ length s
  pub max_writes : ℕ
  pub used_memory : ℕ

pub record Sending : Type 0 where
  pub client : Client
  pub totwritten : ℕ
  pub calls : ℕ
  pub sent : List ℕ
  pub failed : Bool

-- A round breaks off, goes to the test of the bytes written, goes to the next round at once, or is a
-- fault.
pub data WriteRound : Type 0 where
  breaks : Sending → WriteRound
  tests_ : Sending → WriteRound
  continues : Sending → WriteRound
  fault : WriteRound

abbrev pub delete_first : Option ReplyBlock → List (Option ReplyBlock) → Client → Client
delete_first none bs c = record c { reply = bs }
delete_first (some b) bs c = record c {
  reply = bs;
  reply_bytes = (c.reply_bytes + (word - b.size % word)) % word;
}

-- The bytes taken from `left`, after which the client is `c`.
abbrev pub took : ℕ → List ℕ → Client → Sending → Sending
took n left c s = record {
  client = c;
  totwritten = s.totwritten + n;
  calls = suc s.calls;
  sent = s.sent ++ take n left;
  failed = false;
}

abbrev pub broken : Bool → Sending → Sending
broken failed s = record s { calls = suc s.calls; failed = failed }

-- `if ((int)c->sentlen == c->bufpos)`
abbrev pub after_buffer : ℕ → Client → Client
after_buffer sentlen c =
    if sentlen == length c.buf
    then record c { buf = []; sentlen = 0 }
    else record c { sentlen = sentlen }

abbrev pub buffer_round : WriteResult → List ℕ → Sending → WriteRound
buffer_round (wrote zero) left s = breaks (broken false s)
buffer_round (wrote (suc n)) left s =
    tests_ (took (suc n) left (after_buffer (s.client.sentlen + suc n) s.client) s)
buffer_round again left s = breaks (broken false s)
buffer_round error_ left s = breaks (broken true s)

-- `if (listLength(c->reply) == 0) serverAssert(c->reply_bytes == 0)`
abbrev pub asserted : Client → Sending → WriteRound
asserted c s = if is_empty c.reply && not (c.reply_bytes == 0) then fault else tests_ s

abbrev pub block_sent : ℕ → ReplyBlock → List (Option ReplyBlock) → List ℕ → Sending → WriteRound
block_sent n b bs left s =
    let c : Client = record (delete_first (some b) bs s.client) { sentlen = 0 } in
    asserted c (took n left c s)

-- `left` is what is left of the block `b`.
abbrev pub block_round :
    WriteResult → ReplyBlock → List (Option ReplyBlock) → List ℕ → Sending → WriteRound
block_round (wrote zero) b bs left s = breaks (broken false s)
block_round (wrote (suc n)) b bs left s =
    if s.client.sentlen + suc n == length b.buf
    then block_sent (suc n) b bs left s
    else tests_ (took (suc n) left (record s.client { sentlen = s.client.sentlen + suc n }) s)
block_round again b bs left s = breaks (broken false s)
block_round error_ b bs left s = breaks (broken true s)

-- A block counts one more than its bytes.
abbrev pub blocks_length : List (Option ReplyBlock) → ℕ
blocks_length [] = 0
blocks_length (none ∷ bs) = suc (blocks_length bs)
blocks_length (some b ∷ bs) = suc (length b.buf + blocks_length bs)

-- What writeToClient gives: C_OK or not, whether it has called aeDeleteFileEvent for the socket, and
-- the bytes that the socket took.
pub record Written : Type 0 where
  pub state : State
  pub is_ok : Bool
  pub delete_event : Bool
  pub sent : List ℕ

abbrev pub start : Client → Sending
start c = record { client = c; totwritten = 0; calls = 0; sent = []; failed = false }

abbrev pub touch : Server → Sending → Client
touch server s =
    if not (s.totwritten == 0) && not s.client.flags.master
    then record s.client { lastinteraction = server.unixtime }
    else s.client

-- All has been sent.
abbrev pub all_sent : Bool → List ℕ → State → Written
all_sent handler_installed sent st =
    if st.client.flags.close_after_reply
    then record {
      state = free_client_async st;
      is_ok = false;
      delete_event = handler_installed;
      sent = sent;
    }
    else record { state = st; is_ok = true; delete_event = handler_installed; sent = sent }

abbrev pub some_left : List ℕ → State → Written
some_left sent st = record { state = st; is_ok = true; delete_event = false; sent = sent }

abbrev pub closing : List ℕ → State → Written
closing sent st = record {
  state = free_client_async st;
  is_ok = false;
  delete_event = false;
  sent = sent;
}

abbrev pub finish : Bool → Server → Sending → Written
finish handler_installed server s =
    if s.failed
    then closing s.sent (record { client = s.client; server = server })
    else let c : Client = touch server s in
      if not (client_has_pending_replies c)
      then all_sent handler_installed s.sent
          (record { client = record c { sentlen = 0 }; server = server })
      else some_left s.sent (record { client = c; server = server })

abbrev pub counted : Server → Sending → Server
counted server s = record server {
  stat_net_output_bytes = server.stat_net_output_bytes + s.totwritten;
}

abbrev pub after_loop : Bool → Server → Option Sending → Option Written
after_loop handler_installed server none = none
after_loop handler_installed server (some s) = some (finish handler_installed (counted server s) s)

-- Every round writes a byte or drops a block, or is the last.
abbrev pub rounds : Client → ℕ
rounds c = length c.buf + blocks_length c.reply + 1

module _ (k : Socket) where
  abbrev pub list_round : List (Option ReplyBlock) → Sending → WriteRound
  list_round [] s = fault
  list_round (none ∷ bs) s = fault
  list_round (some b ∷ bs) s =
      if length b.buf == 0
      then continues (record s { client = delete_first (some b) bs s.client })
      else let left : List ℕ = drop s.client.sentlen b.buf in
        block_round (k.write s.calls left) b bs left s

  unfoldable pub write_round : Sending → WriteRound
  write_round s =
      if is_empty s.client.buf
      then list_round s.client.reply s
      else let left : List ℕ = drop s.client.sentlen s.client.buf in
        buffer_round (k.write s.calls left) left s

  -- Enough has been written for this event.
  abbrev pub enough : Server → Sending → Bool
  enough server s =
      ltb k.max_writes s.totwritten
      && ((server.maxmemory == 0 || ltb k.used_memory server.maxmemory) && not s.client.flags.slave)

  abbrev pub next_round : Server → WriteRound → (Sending → Option Sending) → Option Sending
  next_round server (breaks s) rest = some s
  next_round server (tests_ s) rest = if enough server s then some s else rest s
  next_round server (continues s) rest = rest s
  next_round server fault rest = none

  -- The fuel is a bound on the rounds.
  unfoldable pub write_loop : ℕ → Server → Sending → Option Sending
  write_loop zero server s = none
  write_loop (suc fuel) server s =
      if not (client_has_pending_replies s.client)
      then some s
      else next_round server (write_round s) (write_loop fuel server)

  unfoldable pub write_to_client : State → Bool → Option Written
  write_to_client st handler_installed =
      after_loop handler_installed st.server
        (write_loop (rounds st.client) st.server (start st.client))
