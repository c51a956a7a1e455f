-- ===== src/Net/Request.antt =====
-- networking.c: the parser of requests. It works on the bytes of the query buffer from `qb_pos` on; a
-- C string function that reads them stops at a nul. string2ll, which no file of the repository
-- defines, is a parameter. What the log says of a protocol error is left out, and so is the room that
-- the query buffer is given ahead of a large argument.
pub mod Line
pub mod Unread
pub mod Bulk
pub mod Args
pub mod Resume
pub mod Feed
pub mod Inline
use decompose_redis.Base.{
  ℕ, zero, suc, ◌+◌, ◌-◌, ◌*◌, ◌≤◌, ◌≡◌, Bool, true, false, not, ◌&&◌, ◌||◌, List, [], ◌∷◌, ◌++◌,
  Option, some, none, leb, ltb, ◌==◌, if◌then◌else◌, length, take, drop, get_or,
}
use decompose_redis.Base.Int.{ℤ, pos, negsuc}
use decompose_redis.Sds.Ctype.{Ctype}
use decompose_redis.Sds.Repr.{Parsed, parsed, unbalanced, out_of_fuel, sdssplitargs}
use decompose_redis.Net.{
  Client, ReqType, proto_req_unknown, proto_req_inline, proto_req_multibulk, Server, State,
}
use decompose_redis.Net.Reply.{Platform, is_empty, add_reply_error_length}
use Prim.Native.Char.{code}
use Prim.Native.String.{String}

abbrev pub proto_inline_max_size : ℕ
proto_inline_max_size = 1024 * 64

abbrev pub proto_mbulk_big_arg : ℕ
proto_mbulk_big_arg = 1024 * 32

-- The bytes of a message.
abbrev pub codes : String → List ℕ
codes String.[] = []
codes (String.◌∷◌ c s) = code c ∷ codes s

-- The place of the first such byte in a C string.
unfoldable pub strchr : ℕ → List ℕ → Option ℕ
strchr c [] = none
strchr c (x ∷ s) =
    if x == c
    then some 0
    else if x == 0
    then none
    else elim (strchr c s) [ none ↦ none | some i ↦ some (suc i) ]

-- The bytes that are not parsed yet.
abbrev pub unread : Client → List ℕ
unread c = drop c.qb_pos c.querybuf

-- `text` is the decimal text of a number, which string2ll reads back.
pub record Numbers : Type 0 where
  pub string2ll : List ℕ → Option ℤ

abbrev pub set_protocol_error : State → State
set_protocol_error st = record st {
  client = record st.client { flags = record st.client.flags { close_after_reply = true } };
}

abbrev pub nonempty : List (List ℕ) → List (List ℕ)
nonempty [] = []
nonempty ([] ∷ argv) = nonempty argv
nonempty ((x ∷ s) ∷ argv) = (x ∷ s) ∷ nonempty argv

-- How a part of the parser ends: it goes on, it waits for more input, or the protocol is broken.
pub data Step : Type 0 where
  goes : State → Step
  waits : State → Step
  breaks : State → Step

-- `true` for C_OK.
abbrev pub then_ : Step → (State → Bool × State) → Bool × State
then_ (goes st) rest = rest st
then_ (waits st) rest = (false, st)
then_ (breaks st) rest = (false, st)

-- `\\r` before the newline at `i`.
abbrev pub has_cr : List ℕ → ℕ → Bool
has_cr line zero = false
has_cr line (suc i) = get_or line i 0 == 0x0d

abbrev pub take_line : ℕ → ℕ → List (List ℕ) → State → State
take_line querylen linefeed_chars argv st = record st {
  client = record st.client {
    repl_ack_time =
        if querylen == 0 && st.client.flags.slave
        then st.server.unixtime
        else st.client.repl_ack_time;
    qb_pos = st.client.qb_pos + (querylen + linefeed_chars);
    argv = nonempty argv;
  };
}

abbrev pub skip : ℕ → Client → Client
skip n c = record c { qb_pos = c.qb_pos + n }

-- A large argument is brought to the start of the query buffer, if nothing follows it yet.
abbrev pub to_front : ℕ → Client → Client
to_front ll c =
    if leb proto_mbulk_big_arg ll && leb (length (unread c)) (ll + 2)
    then record c { querybuf = unread c; qb_pos = 0 }
    else c

-- addReplyErrorFormat prints the byte in place of the `$`, a line end as a space.
abbrev pub shown : ℕ → ℕ
shown x = if x == 0x0d || x == 0x0a then b' ' else x

-- The buffer holds the argument and its CRLF only, and is large: it becomes the argument.
abbrev pub just_bulk : ℕ → Client → Bool
just_bulk n c = c.qb_pos == 0 && (leb proto_mbulk_big_arg n && length c.querybuf == n + 2)

abbrev pub push_arg : ℕ → Client → Client
push_arg n c =
    if just_bulk n c
    then record c { argv = c.argv ++ take n c.querybuf ∷ []; querybuf = [] }
    else record c { argv = c.argv ++ take n (unread c) ∷ []; qb_pos = c.qb_pos + (n + 2) }

abbrev pub take_arg : Option ℕ → State → Step
take_arg none st = breaks st
take_arg (some n) st =
    if ltb (length (unread st.client)) (n + 2)
    then waits st
    else let c : Client = push_arg n st.client in
      goes (record st { client = record c { bulklen = none; multibulklen = c.multibulklen - 1 } })

module _ (p : Platform) where
  unfoldable pub protocol_error : List ℕ → State → State
  protocol_error message st = set_protocol_error (add_reply_error_length p message st)

  -- No line end yet: the client waits, unless the line is too long already.
  abbrev pub no_line : List ℕ → State → Step
  no_line message st =
      if ltb proto_inline_max_size (length (unread st.client))
      then breaks (protocol_error message st)
      else waits st

module _ (p : Platform) (t : Ctype) where
  abbrev pub inline_args : ℕ → ℕ → Parsed (List (List ℕ)) → State → Option Step
  inline_args querylen linefeed_chars (parsed argv) st =
      some (goes (take_line querylen linefeed_chars argv st))
  inline_args querylen linefeed_chars unbalanced st =
      some (breaks (protocol_error p (codes "Protocol error: unbalanced quotes in request") st))
  inline_args querylen linefeed_chars out_of_fuel st = none

  abbrev pub inline_line : Option ℕ → State → Option Step
  inline_line none st = some (no_line p (codes "Protocol error: too big inline request") st)
  inline_line (some i) st =
      let line : List ℕ = unread st.client in
      if has_cr line i
      then inline_args (i - 1) 2 (sdssplitargs t (take (i - 1) line)) st
      else inline_args i 1 (sdssplitargs t (take i line)) st

  unfoldable pub process_inline_buffer : State → Option Step
  unfolding strchr
  process_inline_buffer st = inline_line (strchr 0x0a (unread st.client)) st

module _ (p : Platform) (num : Numbers) where
  -- The number between the byte at the start of the line and its end.
  abbrev pub line_number : ℕ → List ℕ → Option ℤ
  line_number i line = num.string2ll (take (i - 1) (drop 1 line))

  abbrev pub got_len : ℕ → Option ℤ → State → Step
  got_len i (some (pos ll)) st =
      if ltb st.server.proto_max_bulk_len ll
      then breaks (protocol_error p (codes "Protocol error: invalid bulk length") st)
      else let c : Client = to_front ll (skip (i + 2) st.client) in
        goes (record st { client = record c { bulklen = some ll } })
  got_len i (some (negsuc n)) st =
      breaks (protocol_error p (codes "Protocol error: invalid bulk length") st)
  got_len i none st = breaks (protocol_error p (codes "Protocol error: invalid bulk length") st)

  abbrev pub len_line : Option ℕ → State → Step
  len_line none st = no_line p (codes "Protocol error: too big bulk count string") st
  len_line (some i) st =
      let line : List ℕ = unread st.client in
      if ltb (length line) (i + 2)
      then waits st
      else if not (get_or line 0 0 == b'$')
      then breaks (
          protocol_error p
            (codes "Protocol error: expected '$', got '" ++ shown (get_or line 0 0) ∷ codes "'") st)
      else got_len i (line_number i line) st

  abbrev pub read_len_of : Option ℕ → State → Step
  read_len_of (some n) st = goes st
  read_len_of none st = len_line (strchr 0x0d (unread st.client)) st

  -- `if (c->bulklen == -1)`
  unfoldable pub read_len : State → Step
  unfolding strchr
  read_len st = read_len_of st.client.bulklen st

  -- `while(c->multibulklen)`, of which each round that goes on counts it down.
  unfoldable pub bulk_loop : ℕ → State → Bool × State
  unfolding read_len
  bulk_loop zero st = (true, st)
  bulk_loop (suc n) st =
      then_ (read_len st) λ st'. then_ (take_arg st'.client.bulklen st') (bulk_loop n)

  abbrev pub got_count : ℕ → Option ℤ → State → Step
  got_count i (some (pos ll)) st =
      if ltb (1024 * 1024) ll
      then breaks (protocol_error p (codes "Protocol error: invalid multibulk length") st)
      else goes (record st { client = record (skip (i + 2) st.client) { multibulklen = ll } })
  got_count i (some (negsuc n)) st = goes (record st { client = skip (i + 2) st.client })
  got_count i none st =
      breaks (protocol_error p (codes "Protocol error: invalid multibulk length") st)

  -- The assertion that the request starts with `*` holds.
  abbrev pub count_line : Option ℕ → State → Option Step
  count_line none st = some (no_line p (codes "Protocol error: too big mbulk count string") st)
  count_line (some i) st =
      let line : List ℕ = unread st.client in
      if ltb (length line) (i + 2)
      then some (waits st)
      else if not (get_or line 0 0 == b'*')
      then none
      else some (got_count i (line_number i line) st)

  abbrev pub after_count : Option Step → Option (Bool × State)
  after_count none = none
  after_count (some s) = some (then_ s λ st. bulk_loop st.client.multibulklen st)

  -- `none` is a failing assertion.
  unfoldable pub process_multibulk_buffer : State → Option (Bool × State)
  unfolding bulk_loop strchr
  process_multibulk_buffer st =
      if st.client.multibulklen == 0
      then if not (is_empty st.client.argv)
        then none
        else after_count (count_line (strchr 0x0d (unread st.client)) st)
      else some (bulk_loop st.client.multibulklen st)
