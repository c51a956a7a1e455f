-- ===== src/Net/Reply/Stream.antt =====
-- networking.c: addReplyProto and the functions on top of it append to the stream of a client.
use mathlib.Core.List.{append_assoc, append-nil}
use decompose_redis.Base.{
  if_case, ℕ, ◌-◌, ◌%◌, ◌≤◌, ◌≡◌, refl, sym, ap, ◌∙◌, Bool, true, false, not, ◌||◌, List, [], ◌∷◌,
  ◌++◌, Option, some, ltb, if◌then◌else◌, length, Bool-cases, inl, inr, arith, tests,
}
use decompose_redis.Net.{Client, ReplyBlock, State, reply_chunk_bytes, word}
use decompose_redis.Net.Limits.{async_close_client_on_output_buffer_limit_reached}
use decompose_redis.Net.Reply.{
  Platform, is_empty, takes_replies, schedule, prepare_client_to_write, add_reply_to_buffer,
  fill_tail, new_reply_block, push_block, append_blocks, add_reply_proto_to_list, buffer_or_list,
  add_prepared, add_reply_proto,
}
use decompose_redis.Net.Reply.Laws.{
  bytes_of, willing, IsReply, accepts, async_close-SameReply, schedule-SameReply, bytes_of-append,
  size_of-append, Fit-append, bytes_of-fill_tail, size_of-fill_tail, Fit-fill_tail,
  first_length-fill_tail,
}
use decompose_redis.Net.Reply.Queue.{
  first_length-append, head_length_mono, Pushes, Queues, IsReply-SameReply, Queues-SameReply,
  SameReply-Queues, Pushed-stream, is_empty-nil, Dropped, accepts-closing, accepts-open, room_left,
  buffer-Queues,
}

module _ (p : Platform) where
  block_fits : (s : List ℕ) → length s ≤ (new_reply_block p s).size
  block_fits s = elim (Bool-cases (ltb (length s) reply_chunk_bytes)) [
    | inl e ↦ rw e (omega (tests, p.usable_enough reply_chunk_bytes, e))
    | inr e ↦ rw e (p.usable_enough (length s))
  ]

  push_block-Pushes : (c : Client) (s : List ℕ) → IsReply c → Pushes c s (push_block p s c)
  unfolding accepts
  push_block-Pushes c [] is = record {
    valid = is;
    same_buf = refl;
    same_sent = refl;
    same_accepts = refl;
    same_resp = refl;
    pushed = sym (append-nil (bytes_of c.reply));
  }
  push_block-Pushes c (x ∷ s) is =
      let b : ReplyBlock = new_reply_block p (x ∷ s) in
      let last : List (Option ReplyBlock) = some b ∷ [] in
      record {
        valid = record {
          buf_fits = is.buf_fits;
          blocks_fit = Fit-append c.reply last is.blocks_fit (block_fits (x ∷ s), tt);
          bytes = omega (arith, is.bytes, size_of-append c.reply last);
          sent = omega (
            arith,
            is.sent,
            head_length_mono c.buf c.reply (c.reply ++ last) (first_length-append c.reply last),
          );
        };
        same_buf = refl;
        same_sent = refl;
        same_accepts = refl;
        same_resp = refl;
        pushed = bytes_of-append c.reply last ∙ ap (◌++◌ (bytes_of c.reply)) (append-nil (x ∷ s));
      }

  append_blocks-Pushes : (c : Client) (s : List ℕ) → IsReply c → Pushes c s (append_blocks p s c)
  unfolding accepts
  append_blocks-Pushes c s is =
      let filled = fill_tail c.reply s in
      let c' : Client = record c { reply = filled.0 } in
      let valid : IsReply c' = record {
        buf_fits = is.buf_fits;
        blocks_fit = Fit-fill_tail c.reply s is.blocks_fit;
        bytes = is.bytes ∙ ap (λ n. n % word) (sym (size_of-fill_tail c.reply s));
        sent = omega (
          arith,
          is.sent,
          head_length_mono c.buf c.reply filled.0 (first_length-fill_tail c.reply s),
        );
      } in
      let k = push_block-Pushes c' filled.1 valid in
      record {
        valid = k.valid;
        same_buf = k.same_buf;
        same_sent = k.same_sent;
        same_accepts = k.same_accepts;
        same_resp = k.same_resp;
        pushed = k.pushed ∙ bytes_of-fill_tail c.reply s;
      }

  append_blocks-Queues :
      (c : Client) (s : List ℕ) → IsReply c → accepts c ≡ true → Queues c s (append_blocks p s c)
  append_blocks-Queues c s is acc =
      let k = append_blocks-Pushes c s is in
      let c' : Client = append_blocks p s c in
      let all : c'.buf ++ bytes_of c'.reply ≡ c.buf ++ bytes_of c.reply ++ s =
        rw (k.same_buf, k.pushed) (sym (append_assoc c.buf (bytes_of c.reply) s)) in
      record {
        valid = k.valid;
        same_accepts = k.same_accepts;
        same_resp = k.same_resp;
        streams = rw acc (Pushed-stream c s c' is k.same_sent all);
      }

  to_list-Queues :
      (st : State) (s : List ℕ)
      → IsReply st.client
      → (st.client.flags.close_after_reply ≡ false → accepts st.client ≡ true)
      → (st.client.flags.close_after_reply ≡ true → accepts st.client ≡ false)
      → Queues st.client s (add_reply_proto_to_list p s st).client
  unfolding add_reply_proto_to_list
  to_list-Queues st s is acc drops =
      let st' : State = record st { client = append_blocks p s st.client } in
      let closed : State = async_close_client_on_output_buffer_limit_reached p.item_size st' in
      if_case (λ (r : State). Queues st.client s r.client) st.client.flags.close_after_reply st
        closed (λ y. Dropped st.client s is (drops y))
        λ n.
          SameReply-Queues st.client st'.client closed.client s
            (append_blocks-Queues st.client s is (acc n)) (async_close-SameReply p.item_size st')

  added-Queues :
      (st : State) (s : List ℕ)
      → IsReply st.client
      → willing st.client ≡ true
      → Queues st.client s (buffer_or_list p s (add_reply_to_buffer s st.client) st).client
  unfolding add_reply_to_buffer
  added-Queues st s is t =
      let c : Client = st.client in
      let Goal : Bool × Client → Type 0 = λ r. Queues c s (buffer_or_list p s r st).client in
      let listed = to_list-Queues st s is (accepts-open c t) (accepts-closing c) in
      let full : Bool = ltb (reply_chunk_bytes - length c.buf) (length s) in
      let buffered : Client = record c { buf = c.buf ++ s } in
      let at_end : Bool × Client = if full then (false, c) else (true, buffered) in
      let open_ : Bool × Client = if not (is_empty c.reply) then (false, c) else at_end in
      if_case Goal c.flags.close_after_reply (true, c) open_
        (λ y. Dropped c s is (accepts-closing c y))
        λ n.
          if_case Goal (not (is_empty c.reply)) (false, c) at_end (λ y. listed)
            λ e.
              if_case Goal full (false, c) (true, buffered) (λ y. listed)
                λ room.
                  buffer-Queues c s is (accepts-open c t n) (is_empty-nil c.reply e)
                    (room_left (length c.buf) (length s) reply_chunk_bytes is.buf_fits room)

  -- addReplyProto puts its bytes behind all that the client is still to be sent, in the buffer or in
  -- the blocks, and keeps the buffers well formed; or it queues nothing, when the client takes no
  -- replies or is closed after those it has. Which of the two does not change with the call.
  pub add_reply_proto-Queues :
      (st : State) (s : List ℕ)
      → IsReply st.client
      → Queues st.client s (add_reply_proto p s st).client
  unfolding add_reply_proto prepare_client_to_write accepts
  add_reply_proto-Queues st s is =
      let c : Client = st.client in
      let Goal : Bool × State → Type 0 = λ r. Queues c s (add_prepared p s r).client in
      let k = schedule-SameReply st in
      let out : Bool × State = if takes_replies c then (true, schedule st) else (false, st) in
      if_case Goal (c.flags.lua || c.flags.module_) (true, st) out
        (λ y. added-Queues st s is (rw y refl))
        λ n.
          if_case Goal (takes_replies c) (true, schedule st) (false, st)
            (λ t.
              Queues-SameReply c (schedule st).client (add_prepared p s (true, schedule st)).client
                s k
                (added-Queues (schedule st) s (IsReply-SameReply c (schedule st).client k is)
                  (k.same_willing ∙ rw (n, t) refl)))
            λ t. Dropped c s is (rw (n, t) refl)
