-- ===== src/Net/Write/Blocks.antt =====
-- networking.c: the rounds of writeToClient at the blocks of the reply list.
use mathlib.Core.Path.{subst}
use decompose_redis.Base.{
  ℕ, zero, suc, ◌+◌, ◌-◌, ◌%◌, ◌≤◌, ◌≡◌, refl, ap, Bool, true, false, not, ◌&&◌, ◌||◌, List, [],
  ◌∷◌, ◌++◌, Option, some, none, ◌==◌, ==_iff, if◌then◌else◌, if_case, length, drop, length-drop,
  arith,
}
use decompose_redis.Net.{Client, ReplyBlock, word}
use decompose_redis.Net.Reply.{is_empty, client_has_pending_replies}
use decompose_redis.Net.Reply.Laws.{
  bytes_of, size_of, stream, first_length, head_length, Fit, IsReply,
}
use decompose_redis.Net.Write.{
  WriteResult, wrote, again, error_, Socket, Sending, tests_, continues, fault, delete_first, took,
  buffer_round, block_sent, block_round, list_round, write_round,
}
use decompose_redis.Net.Write.Laws.{
  Filled, todo, RoundMoves, sent_part, sent_all, same_client-Moves, took-Moves, empty_is,
  buffer_round-Moves,
}

-- The client is at its first block.
pub record AtBlock (s : Sending) (b : ReplyBlock) (bs : List (Option ReplyBlock)) : Type 0 where
  pub valid : IsReply s.client
  pub no_buf : s.client.buf ≡ []
  pub reply_is : s.client.reply ≡ some b ∷ bs
  pub filled : Filled bs

length-zero : (xs : List ℕ) → length xs ≡ 0 → xs ≡ []
length-zero [] e = refl
length-zero (x ∷ xs) e = absurd (omega arith)

pending_list : (a b : Bool) → a ≡ true → (not a || not b) ≡ true → b ≡ false
pending_list a b e h = ground (arith, e, h)

-- The assertion on the counter of an empty list holds.
asserted_round :
    (s s' : Sending) (bs : List (Option ReplyBlock)) (n : ℕ)
    → n ≡ size_of bs % word
    → RoundMoves s (tests_ s')
    → RoundMoves s (if is_empty bs && not (n == 0) then fault else tests_ s')
asserted_round s s' [] n e k = let none_ : (n == 0) ≡ true = ground (arith, e) in rw none_ k
asserted_round s s' (b ∷ bs) n e k = k

module _ (s : Sending) (b : ReplyBlock) (bs : List (Option ReplyBlock)) (at : AtBlock s b bs) where
  abbrev left : List ℕ
  left = drop s.client.sentlen b.buf

  sent_fits : s.client.sentlen ≤ length b.buf
  sent_fits = omega (
    arith,
    at.valid.sent,
    ap (λ x. head_length x s.client.reply) at.no_buf,
    ap first_length at.reply_is,
  )

  stream_is : stream s.client ≡ drop s.client.sentlen (b.buf ++ bytes_of bs)
  unfolding stream
  stream_is = rw (at.no_buf, at.reply_is) refl

  fewer : length s.client.reply ≡ suc (length bs)
  fewer = ap length at.reply_is

  rest_fits : Fit bs
  rest_fits = (subst Fit at.reply_is at.valid.blocks_fit).1

  -- The counter without the block.
  without : ℕ
  without = (s.client.reply_bytes + (word - b.size % word)) % word

  without_lem : without ≡ size_of bs % word
  unfolding without
  without_lem = omega (arith, at.valid.bytes, ap size_of at.reply_is)

  block_part :
      (n : ℕ)
      → suc n ≤ length left
      → RoundMoves s
          (tests_ (took (suc n) left (record s.client { sentlen = s.client.sentlen + suc n }) s))
  unfolding stream
  block_part n most =
      let c : Client = s.client in
      let fits : c.sentlen + suc n ≤ length b.buf =
        omega (arith, sent_fits, length-drop c.sentlen b.buf) in
      took-Moves s n left (record c { sentlen = c.sentlen + suc n })
        (record {
          buf_fits = at.valid.buf_fits;
          blocks_fit = at.valid.blocks_fit;
          bytes = at.valid.bytes;
          sent = rw (at.no_buf, at.reply_is) fits;
        })
        (rw at.reply_is at.filled) refl (omega arith) most
        (rw (at.no_buf, at.reply_is) (sent_part (suc n) c.sentlen b.buf (bytes_of bs) fits))

  deleted-IsReply : IsReply (record (delete_first (some b) bs s.client) { sentlen = 0 })
  unfolding without
  deleted-IsReply = record {
    buf_fits = at.valid.buf_fits;
    blocks_fit = rest_fits;
    bytes = without_lem;
    sent = omega arith;
  }

  block_whole :
      (n : ℕ)
      → s.client.sentlen + suc n ≡ length b.buf
      → suc n ≤ length left
      → RoundMoves s (
          tests_ (took (suc n) left (record (delete_first (some b) bs s.client) { sentlen = 0 }) s))
  unfolding stream
  block_whole n all most =
      took-Moves s n left (record (delete_first (some b) bs s.client) { sentlen = 0 })
        deleted-IsReply at.filled refl (omega (arith, fewer)) most
        (rw (at.no_buf, at.reply_is) (sent_all (suc n) s.client.sentlen b.buf (bytes_of bs) all))

  block_round-Moves :
      (r : WriteResult)
      → ((n : ℕ) → r ≡ wrote n → n ≤ length left)
      → RoundMoves s (block_round r b bs left s)
  unfolding without
  block_round-Moves (wrote zero) most =
      same_client-Moves s false at.valid (rw at.reply_is at.filled)
  block_round-Moves again most = same_client-Moves s false at.valid (rw at.reply_is at.filled)
  block_round-Moves error_ most = same_client-Moves s true at.valid (rw at.reply_is at.filled)
  block_round-Moves (wrote (suc n)) most =
      let c : Client = s.client in
      let done : Client = record (delete_first (some b) bs c) { sentlen = 0 } in
      if_case (RoundMoves s) (c.sentlen + suc n == length b.buf) (block_sent (suc n) b bs left s)
        (tests_ (took (suc n) left (record c { sentlen = c.sentlen + suc n }) s))
        (λ e.
          asserted_round s (took (suc n) left done s) bs without without_lem
            (block_whole n ((==_iff (c.sentlen + suc n) (length b.buf)).0 e) (most (suc n) refl)))
        λ e. block_part n (most (suc n) refl)

  -- A block with no bytes is dropped.
  empty_block :
      length b.buf ≡ 0
      → RoundMoves s (continues (record s { client = delete_first (some b) bs s.client }))
  unfolding stream todo without
  empty_block e =
      let c : Client = delete_first (some b) bs s.client in
      let none_sent : s.client.sentlen ≡ 0 = omega (arith, e, sent_fits) in
      let same : stream c ≡ stream s.client =
        rw (at.no_buf, at.reply_is, none_sent, length-zero b.buf e) refl in
      (
        record {
          valid = record {
            buf_fits = at.valid.buf_fits;
            blocks_fit = rest_fits;
            bytes = without_lem;
            sent = omega (arith, none_sent);
          };
          filled = at.filled;
          flow = ap (◌++◌ s.sent) same;
          count = refl;
          same_flags = refl;
        },
        omega (arith, fewer, ap length same),
      )

module _ (k : Socket) where
  list_round-Moves :
      (s : Sending) (rs : List (Option ReplyBlock))
      → IsReply s.client
      → s.client.buf ≡ []
      → s.client.reply ≡ rs
      → Filled rs
      → is_empty rs ≡ false
      → RoundMoves s (list_round k rs s)
  list_round-Moves s [] is e f full some_ = absurd (ground (arith, some_))
  list_round-Moves s (none ∷ bs) is e f full some_ = full
  list_round-Moves s (some b ∷ bs) is e f full some_ =
      let at : AtBlock s b bs = record { valid = is; no_buf = e; reply_is = f; filled = full } in
      let left : List ℕ = drop s.client.sentlen b.buf in
      if_case (RoundMoves s) (length b.buf == 0)
        (continues (record s { client = delete_first (some b) bs s.client }))
        (block_round (k.write s.calls left) b bs left s)
        (λ z. empty_block s b bs at ((==_iff (length b.buf) 0).0 z))
        λ z. block_round-Moves s b bs at (k.write s.calls left) (k.write_most s.calls left)

  -- A round moves bytes from the front of the stream to the socket, and ends in no fault; if it is not
  -- the last it leaves less to do.
  pub write_round-Moves :
      (s : Sending)
      → IsReply s.client
      → Filled s.client.reply
      → client_has_pending_replies s.client ≡ true
      → RoundMoves s (write_round k s)
  unfolding write_round client_has_pending_replies
  write_round-Moves s is full pending =
      let c : Client = s.client in
      let left : List ℕ = drop c.sentlen c.buf in
      if_case (RoundMoves s) (is_empty c.buf) (list_round k c.reply s)
        (buffer_round (k.write s.calls left) left s)
        (λ e.
          list_round-Moves s c.reply is (empty_is c.buf e) refl full
            (pending_list (is_empty c.buf) (is_empty c.reply) e pending))
        λ e. buffer_round-Moves s (k.write s.calls left) is full e (k.write_most s.calls left)
