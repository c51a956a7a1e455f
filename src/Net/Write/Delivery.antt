-- ===== src/Net/Write/Delivery.antt =====
-- networking.c: how writeToClient ends, and what it delivers as a whole.
use decompose_redis.Base.{
  ℕ, ◌+◌, ◌<◌, ◌≡◌, refl, sym, ap, ◌∙◌, Bool, true, false, not, ◌&&◌, ◌||◌, List, [], ◌∷◌, ◌++◌,
  Option, some, none, ◌==◌, if◌then◌else◌, if_case, length, drop, length-append, length-drop,
  drop_long, arith,
}
use decompose_redis.Net.{Client, ReplyBlock, Server, State}
use decompose_redis.Net.Limits.{free_client_async}
use decompose_redis.Net.Reply.{is_empty, client_has_pending_replies}
use decompose_redis.Net.Reply.Laws.{
  bytes_of, stream, IsReply, SameReply, accepts, same_reply_refl, free_client_async-SameReply,
}
use decompose_redis.Net.Reply.Queue.{IsReply-SameReply, stream-SameReply}
use decompose_redis.Net.Write.{
  Socket, Sending, Written, start, touch, all_sent, some_left, closing, finish, counted, rounds,
  blocks_length, write_to_client,
}
use decompose_redis.Net.Write.Laws.{Filled, todo, empty_is}
use decompose_redis.Net.Write.Sent.{write_loop-Ends}

both_empty : (a b : Bool) → not (not a || not b) ≡ true → (a ≡ true) × (b ≡ true)
both_empty true true e = (refl, refl)
both_empty true false e = absurd (ground (arith, e))
both_empty false b e = absurd (ground (arith, e))

-- How writeToClient ends with the client as the loop left it.
pub record Finishes (c : Client) (server : Server) (sent : List ℕ) (w : Written) : Type 0 where
  pub valid : IsReply w.state.client
  pub same_stream : stream w.state.client ≡ stream c
  pub same_sent : w.sent ≡ sent
  pub same_count : w.state.server.stat_net_output_bytes ≡ server.stat_net_output_bytes
  pub nothing_left : w.delete_event ≡ true → stream w.state.client ≡ []

free_client_async-server :
    (st : State)
    → (free_client_async st).server.stat_net_output_bytes ≡ st.server.stat_net_output_bytes
unfolding free_client_async
free_client_async-server st =
    if_case (λ (r : State). r.server.stat_net_output_bytes ≡ st.server.stat_net_output_bytes)
      (st.client.flags.close_asap || st.client.flags.lua) st _ (λ e. refl) λ e. refl

freed-Finishes :
    (st : State) (sent : List ℕ) (is_ok delete_event : Bool)
    → IsReply st.client
    → (delete_event ≡ true → stream st.client ≡ [])
    → Finishes st.client st.server sent (record {
      state = free_client_async st;
      is_ok = is_ok;
      delete_event = delete_event;
      sent = sent;
    })
freed-Finishes st sent is_ok delete_event is none_ =
    let k = free_client_async-SameReply st in
    let same = stream-SameReply st.client (free_client_async st).client k in
    record {
      valid = IsReply-SameReply st.client (free_client_async st).client k is;
      same_stream = same;
      same_sent = refl;
      same_count = free_client_async-server st;
      nothing_left = λ e. same ∙ none_ e;
    }

kept-Finishes :
    (st : State) (sent : List ℕ) (is_ok delete_event : Bool)
    → IsReply st.client
    → (delete_event ≡ true → stream st.client ≡ [])
    → Finishes st.client st.server sent
        (record { state = st; is_ok = is_ok; delete_event = delete_event; sent = sent })
kept-Finishes st sent is_ok delete_event is none_ = record {
  valid = is;
  same_stream = refl;
  same_sent = refl;
  same_count = refl;
  nothing_left = none_;
}

none_pending :
    (c : Client) → not (client_has_pending_replies c) ≡ true → (c.buf ≡ []) × (c.reply ≡ [])
unfolding client_has_pending_replies
none_pending c e =
    let p : (is_empty c.buf ≡ true) × (is_empty c.reply ≡ true) =
      both_empty (is_empty c.buf) (is_empty c.reply) e in
    (empty_is c.buf p.0, empty_is c.reply p.1)

drop_nil : (n : ℕ) → drop {A = ℕ} n [] ≡ []
drop_nil n = drop_long {A = ℕ} [] n (omega arith)

-- The client with nothing pending, its `sentlen` reset.
reset_sent :
    (c : Client)
    → IsReply c
    → not (client_has_pending_replies c) ≡ true
    → IsReply (record c { sentlen = 0 })
      × (stream (record c { sentlen = 0 }) ≡ stream c)
      × (stream (record c { sentlen = 0 }) ≡ [])
unfolding stream
reset_sent c is e =
    let p = none_pending c e in
    (
      record {
        buf_fits = is.buf_fits;
        blocks_fit = is.blocks_fit;
        bytes = is.bytes;
        sent = omega arith;
      },
      rw (p.0, p.1) (sym (drop_nil c.sentlen)),
      rw (p.0, p.1) refl,
    )

Finishes-stream :
    (c c' : Client) (server : Server) (sent : List ℕ) (w : Written)
    → stream c ≡ stream c'
    → Finishes c server sent w
    → Finishes c' server sent w
Finishes-stream c c' server sent w e f = record {
  valid = f.valid;
  same_stream = f.same_stream ∙ e;
  same_sent = f.same_sent;
  same_count = f.same_count;
  nothing_left = f.nothing_left;
}

touch-SameReply : (server : Server) (s : Sending) → SameReply s.client (touch server s)
unfolding accepts
touch-SameReply server s =
    if_case (SameReply s.client) (not (s.totwritten == 0) && not s.client.flags.master)
      (record s.client { lastinteraction = server.unixtime }) s.client
      (λ e. record {
        same_buf = refl;
        same_reply = refl;
        same_bytes = refl;
        same_sent = refl;
        same_accepts = refl;
        same_willing = refl;
        same_resp = refl;
      })
      λ e. same_reply_refl s.client

finish-Finishes :
    (handler_installed : Bool) (server : Server) (s : Sending)
    → IsReply s.client
    → Finishes s.client server s.sent (finish handler_installed server s)
finish-Finishes h server s is =
    let c : Client = touch server s in
    let k = touch-SameReply server s in
    let valid = IsReply-SameReply s.client c k is in
    let same = stream-SameReply s.client c k in
    let reset : State = record { client = record c { sentlen = 0 }; server = server } in
    let sent_all_ : Written = all_sent h s.sent reset in
    let left : Written = some_left s.sent (record { client = c; server = server }) in
    let ended : Written = if not (client_has_pending_replies c) then sent_all_ else left in
    let Goal : Written → Type 0 = Finishes s.client server s.sent in
    if_case Goal s.failed (closing s.sent (record { client = s.client; server = server })) ended
      (λ e.
        freed-Finishes (record { client = s.client; server = server }) s.sent false false is
          λ f. absurd (ground (arith, f)))
      λ e.
        if_case Goal (not (client_has_pending_replies c)) sent_all_ left
          (λ none_.
            let r = reset_sent c valid none_ in
            Finishes-stream c s.client server s.sent sent_all_ same (
              Finishes-stream reset.client c server s.sent sent_all_ r.1 (
                if_case (Finishes reset.client server s.sent) c.flags.close_after_reply
                  (record {
                    state = free_client_async reset;
                    is_ok = false;
                    delete_event = h;
                    sent = s.sent;
                  })
                  (record { state = reset; is_ok = true; delete_event = h; sent = s.sent })
                  (λ f. freed-Finishes reset s.sent false h r.0 λ g. r.2)
                  λ f. kept-Finishes reset s.sent true h r.0 λ g. r.2)))
          λ some_. Finishes-stream c s.client server s.sent left same (
            kept-Finishes (record { client = c; server = server }) s.sent true false valid
              λ f. absurd (ground (arith, f)))

length-blocks :
    (bs : List (Option ReplyBlock))
    → Filled bs
    → length (bytes_of bs) + length bs ≡ blocks_length bs
length-blocks [] h = refl
length-blocks (none ∷ bs) h = absurd h
length-blocks (some b ∷ bs) h = omega (arith, length-blocks bs h, length-append b.buf (bytes_of bs))

rounds_enough : (c : Client) → Filled c.reply → todo c < rounds c
unfolding todo stream
rounds_enough c full = omega (
  arith,
  length-blocks c.reply full,
  length-append c.buf (bytes_of c.reply),
  length-drop c.sentlen (c.buf ++ bytes_of c.reply),
)

-- What a call of writeToClient has done.
pub record Delivers (st : State) (r : Option Written) : Type 0 where
  pub written : Written
  pub returns : r ≡ some written
  pub valid : IsReply written.state.client
  pub flow : written.sent ++ stream written.state.client ≡ stream st.client
  pub count :
      written.state.server.stat_net_output_bytes
      ≡ st.server.stat_net_output_bytes + length written.sent
  pub nothing_left : written.delete_event ≡ true → stream written.state.client ≡ []

-- writeToClient of a client with well-formed buffers and no deferred length still open ends, whatever
-- write(2) does at each call: no assertion fails and no NULL is read. The bytes that the socket took,
-- followed by those that the client is still to be sent, are those that it was to be sent before; the
-- statistics have counted the bytes taken; and the write handler is removed only when all is sent.
pub write_to_client-Delivers :
    (k : Socket) (st : State) (handler_installed : Bool)
    → IsReply st.client
    → Filled st.client.reply
    → Delivers st (write_to_client k st handler_installed)
unfolding write_to_client
write_to_client-Delivers k st h is full =
    let s : Sending = start st.client in
    let (s', e, m) =
      write_loop-Ends k st.server (rounds st.client) s is full (rounds_enough st.client full) in
    let server : Server = counted st.server s' in
    let f = finish-Finishes h server s' m.valid in
    record {
      written = finish h server s';
      returns = rw e refl;
      valid = f.valid;
      flow =
          ap (λ x. x ++ stream (finish h server s').state.client) f.same_sent
          ∙ ap (◌++◌ s'.sent) f.same_stream
          ∙ m.flow;
      count = omega (arith, f.same_count, m.count, ap length f.same_sent);
      nothing_left = f.nothing_left;
    }
