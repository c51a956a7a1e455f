-- ===== src/Net/Reply.antt =====
-- networking.c: the functions that queue replies. Replies go to the buffer of the client, and behind
-- its end to a list of blocks. zmalloc does not return on an allocation that fails; what it gives
-- beyond a request, the text of a number and the size of a block's header are parameters.
pub mod Laws
pub mod Queue
pub mod Stream
pub mod Kinds
use decompose_redis.Base.{
  ℕ, zero, suc, ◌+◌, ◌-◌, ◌*◌, ◌%◌, ◌≤◌, Bool, true, false, not, ◌&&◌, ◌||◌, List, [], ◌∷◌, ◌++◌,
  Option, some, none, leb, ltb, ◌==◌, if◌then◌else◌, length, take, drop,
}
use decompose_redis.Base.Int.{ℤ, pos, negsuc}
use decompose_redis.Net.{
  Client, ReplState, repl_state_none, slave_state_online, repl_state_other, ReplyBlock, Server,
  State, reply_chunk_bytes, word,
}
use decompose_redis.Net.Limits.{async_close_client_on_output_buffer_limit_reached}

-- `usable n` is what zmalloc_usable gives for a block of `n` requested, less the header;
-- `long_text` is what ll2string and `%ld` print.
pub record Platform : Type 0 where
  pub usable : ℕ → ℕ
  pub usable_enough : (n : ℕ) → n ≤ usable n
  pub long_text : ℤ → List ℕ
  pub item_size : ℕ

abbrev pub is_empty {ℓ} : {A : Type ℓ} → List A → Bool
is_empty [] = true
is_empty (x ∷ xs) = false

unfoldable pub client_has_pending_replies : Client → Bool
client_has_pending_replies c = not (is_empty c.buf) || not (is_empty c.reply)

-- The replication state lets the client be written to.
abbrev pub may_write : Client → Bool
may_write c = elim c.replstate [
  | repl_state_none ↦ true
  | slave_state_online ↦ not c.repl_put_online_on_ack
  | repl_state_other ↦ false
]

abbrev pub queued_to_write : State → State
queued_to_write s = record {
  client = record s.client { flags = record s.client.flags { pending_write = true } };
  server = record s.server { clients_pending_write = s.client.id ∷ s.server.clients_pending_write };
}

unfoldable pub client_install_write_handler : State → State
client_install_write_handler s =
    if not s.client.flags.pending_write && may_write s.client then queued_to_write s else s

-- `fd <= 0`
abbrev pub is_fake : ℤ → Bool
is_fake (pos n) = n == 0
is_fake (negsuc n) = true

-- Whether the client takes replies, and whether it has a socket that they go to.
abbrev pub takes_replies : Client → Bool
takes_replies c =
    not (c.flags.reply_off || c.flags.reply_skip)
    && (not (c.flags.master && not c.flags.master_force_reply) && not (is_fake c.fd))

abbrev pub schedule : State → State
schedule s = if not (client_has_pending_replies s.client) then client_install_write_handler s else s

-- `true` for C_OK.
unfoldable pub prepare_client_to_write : State → Bool × State
unfolding client_has_pending_replies client_install_write_handler
prepare_client_to_write s =
    if s.client.flags.lua || s.client.flags.module_
    then (true, s)
    else if takes_replies s.client
    then (true, schedule s)
    else (false, s)

unfoldable pub add_reply_to_buffer : List ℕ → Client → Bool × Client
add_reply_to_buffer s c =
    if c.flags.close_after_reply
    then (true, c)
    else if not (is_empty c.reply)
    then (false, c)
    else if ltb (reply_chunk_bytes - length c.buf) (length s)
    then (false, c)
    else (true, record c { buf = c.buf ++ s })

-- The last block with as much of the bytes as it has room for, and the bytes that are left.
abbrev pub fill_tail : List (Option ReplyBlock) → List ℕ → List (Option ReplyBlock) × List ℕ
fill_tail [] s = ([], s)
fill_tail (none ∷ []) s = (none ∷ [], s)
fill_tail (some b ∷ []) s = (
  some (record b { buf = b.buf ++ take (b.size - length b.buf) s }) ∷ [],
  drop (b.size - length b.buf) s,
)
fill_tail (b ∷ b' ∷ bs) s = let rest = fill_tail (b' ∷ bs) s in (b ∷ rest.0, rest.1)

abbrev pub crlf : List ℕ
crlf = 0x0d ∷ 0x0a ∷ []

abbrev pub err_prefix : List ℕ → List ℕ
err_prefix [] = b'-' ∷ b'E' ∷ b'R' ∷ b'R' ∷ b' ' ∷ []
err_prefix (c ∷ s) = if c == b'-' then [] else b'-' ∷ b'E' ∷ b'R' ∷ b'R' ∷ b' ' ∷ []

module _ (p : Platform) where
  abbrev pub new_reply_block : List ℕ → ReplyBlock
  new_reply_block s = record {
    buf = s;
    size = p.usable (if ltb (length s) reply_chunk_bytes then reply_chunk_bytes else length s);
  }

  -- `if (len)`: a new block for the bytes that are left.
  abbrev pub push_block : List ℕ → Client → Client
  push_block [] c = c
  push_block (x ∷ s) c = record c {
    reply = c.reply ++ some (new_reply_block (x ∷ s)) ∷ [];
    reply_bytes = (c.reply_bytes + (new_reply_block (x ∷ s)).size) % word;
  }

  abbrev pub append_blocks : List ℕ → Client → Client
  append_blocks s c =
      let filled = fill_tail c.reply s in push_block filled.1 (record c { reply = filled.0 })

  unfoldable pub add_reply_proto_to_list : List ℕ → State → State
  add_reply_proto_to_list s st =
      if st.client.flags.close_after_reply
      then st
      else async_close_client_on_output_buffer_limit_reached p.item_size
          (record st { client = append_blocks s st.client })

  abbrev pub buffer_or_list : List ℕ → Bool × Client → State → State
  buffer_or_list s (true, c) st = record st { client = c }
  buffer_or_list s (false, c) st = add_reply_proto_to_list s (record st { client = c })

  -- addReplyProto; addReply of a string object and addReplySds add its bytes the same way.
  abbrev pub add_prepared : List ℕ → Bool × State → State
  add_prepared s (false, st) = st
  add_prepared s (true, st) = buffer_or_list s (add_reply_to_buffer s st.client) st

  unfoldable pub add_reply_proto : List ℕ → State → State
  unfolding prepare_client_to_write add_reply_to_buffer add_reply_proto_to_list
  add_reply_proto s st = add_prepared s (prepare_client_to_write st)

  abbrev pub add_if : List ℕ → State → State
  add_if [] st = st
  add_if (c ∷ s) st = add_reply_proto (c ∷ s) st

  -- addReplyErrorLength, less the log line for replicas.
  unfoldable pub add_reply_error_length : List ℕ → State → State
  add_reply_error_length s st = add_reply_proto crlf (add_reply_proto s (add_if (err_prefix s) st))

  unfoldable pub add_reply_status_length : List ℕ → State → State
  add_reply_status_length s st =
      add_reply_proto crlf (add_reply_proto s (add_reply_proto (b'+' ∷ []) st))

  -- The shared objects for small numbers hold the same bytes.
  unfoldable pub add_reply_long_long_with_prefix : ℤ → ℕ → State → State
  add_reply_long_long_with_prefix ll prefix st =
      add_reply_proto (prefix ∷ p.long_text ll ++ crlf) st

  unfoldable pub add_reply_null : State → State
  add_reply_null st =
      if st.client.resp == 2
      then add_reply_proto (b'$' ∷ b'-' ∷ b'1' ∷ crlf) st
      else add_reply_proto (b'_' ∷ crlf) st

  unfoldable pub add_reply_null_array : State → State
  add_reply_null_array st =
      if st.client.resp == 2
      then add_reply_proto (b'*' ∷ b'-' ∷ b'1' ∷ crlf) st
      else add_reply_proto (b'_' ∷ crlf) st

  unfoldable pub add_reply_bulk_c_buffer : List ℕ → State → State
  unfolding add_reply_long_long_with_prefix
  add_reply_bulk_c_buffer s st =
      add_reply_proto crlf
        (add_reply_proto s (add_reply_long_long_with_prefix (pos (length s)) b'$' st))
