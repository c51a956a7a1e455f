-- ===== src/Net/Reply/Queue.antt =====
-- networking.c: what a call that queues bytes leaves of a client, and steps that are put together.
use mathlib.Core.List.{append-nil}
use decompose_redis.Base.{
  ℕ, zero, suc, ◌+◌, ◌-◌, ◌≤◌, ◌≡◌, refl, sym, ap, ◌∙◌, true, false, not, List, [], ◌∷◌, ◌++◌,
  Option, ltb, if◌then◌else◌, length, drop, length-append, arith,
}
use decompose_redis.Net.{Client, ReplyBlock, reply_chunk_bytes}
use decompose_redis.Net.Reply.{is_empty}
use decompose_redis.Net.Reply.Laws.{
  bytes_of, block_bytes, stream, willing, first_length, head_length, IsReply, accepts, SameReply,
}

pub drop-append : (n : ℕ) (xs ys : List ℕ) → n ≤ length xs → drop n (xs ++ ys) ≡ drop n xs ++ ys
drop-append zero xs ys h = refl
drop-append (suc n) [] ys h = absurd (omega arith)
drop-append (suc n) (x ∷ xs) ys h = drop-append n xs ys (omega arith)

pub first_length-append :
    (bs cs : List (Option ReplyBlock)) → first_length bs ≤ first_length (bs ++ cs)
first_length-append [] cs = omega arith
first_length-append (b ∷ bs) cs = omega arith

pub head_length_mono :
    (s : List ℕ) (bs cs : List (Option ReplyBlock))
    → first_length bs ≤ first_length cs
    → head_length s bs ≤ head_length s cs
head_length_mono [] bs cs h = h
head_length_mono (x ∷ s) bs cs h = omega arith

pub head_length-bytes :
    (s : List ℕ) (bs : List (Option ReplyBlock)) → head_length s bs ≤ length (s ++ bytes_of bs)
head_length-bytes [] [] = omega arith
head_length-bytes [] (b ∷ bs) = omega (arith, length-append (block_bytes b) (bytes_of bs))
head_length-bytes (x ∷ s) bs = omega (arith, length-append s (bytes_of bs))

-- The bytes have been put behind those of the blocks, and the rest is as it was.
pub record Pushes (c : Client) (s : List ℕ) (c' : Client) : Type 0 where
  pub valid : IsReply c'
  pub same_buf : c'.buf ≡ c.buf
  pub same_sent : c'.sentlen ≡ c.sentlen
  pub same_accepts : accepts c' ≡ accepts c
  pub same_resp : c'.resp ≡ c.resp
  pub pushed : bytes_of c'.reply ≡ bytes_of c.reply ++ s

-- What a call that queues `s` does: the bytes come behind those in the stream, or are dropped.
pub record Queues (c : Client) (s : List ℕ) (c' : Client) : Type 0 where
  pub valid : IsReply c'
  pub same_accepts : accepts c' ≡ accepts c
  pub same_resp : c'.resp ≡ c.resp
  pub streams : stream c' ≡ (if accepts c then stream c ++ s else stream c)

pub IsReply-SameReply : (c c' : Client) → SameReply c c' → IsReply c → IsReply c'
IsReply-SameReply c c' k is = record {
  buf_fits = rw k.same_buf is.buf_fits;
  blocks_fit = rw k.same_reply is.blocks_fit;
  bytes = rw (k.same_bytes, k.same_reply) is.bytes;
  sent = rw (k.same_sent, k.same_buf, k.same_reply) is.sent;
}

pub stream-SameReply : (c c' : Client) → SameReply c c' → stream c' ≡ stream c
unfolding stream
stream-SameReply c c' k = rw (k.same_sent, k.same_buf, k.same_reply) refl

-- More of the same client's replies, after a step that left them as they were.
pub Queues-SameReply :
    (c c' c'' : Client) (s : List ℕ) → SameReply c c' → Queues c' s c'' → Queues c s c''
Queues-SameReply c c' c'' s k q = record {
  valid = q.valid;
  same_accepts = q.same_accepts ∙ k.same_accepts;
  same_resp = q.same_resp ∙ k.same_resp;
  streams = q.streams ∙ rw (k.same_accepts, stream-SameReply c c' k) refl;
}

pub SameReply-Queues :
    (c c' c'' : Client) (s : List ℕ) → Queues c s c' → SameReply c' c'' → Queues c s c''
SameReply-Queues c c' c'' s q k = record {
  valid = IsReply-SameReply c' c'' k q.valid;
  same_accepts = k.same_accepts ∙ q.same_accepts;
  same_resp = k.same_resp ∙ q.same_resp;
  streams = stream-SameReply c' c'' k ∙ q.streams;
}

-- The bytes have come behind the buffer and the blocks.
pub Pushed-stream :
    (c : Client) (s : List ℕ) (c' : Client)
    → IsReply c
    → c'.sentlen ≡ c.sentlen
    → c'.buf ++ bytes_of c'.reply ≡ c.buf ++ bytes_of c.reply ++ s
    → stream c' ≡ stream c ++ s
unfolding stream
Pushed-stream c s c' is e k =
    let whole = head_length-bytes c.buf c.reply in
    rw (e, k) (drop-append c.sentlen (c.buf ++ bytes_of c.reply) s (omega (arith, is.sent, whole)))

pub is_empty-nil {ℓ} : {A : Type ℓ} (xs : List A) → not (is_empty xs) ≡ false → xs ≡ []
is_empty-nil [] e = refl
is_empty-nil (x ∷ xs) e = absurd (ground (arith, e))

pub Dropped : (c : Client) (s : List ℕ) → IsReply c → accepts c ≡ false → Queues c s c
Dropped c s is e = record { valid = is; same_accepts = refl; same_resp = refl; streams = rw e refl }

pub head_length-append : (b s : List ℕ) → head_length b [] ≤ head_length (b ++ s) []
head_length-append [] s = omega arith
head_length-append (x ∷ b) s = omega (arith, length-append b s)

pub accepts-closing : (c : Client) → c.flags.close_after_reply ≡ true → accepts c ≡ false
unfolding accepts
accepts-closing c e = ground (arith, e)

pub accepts-open :
    (c : Client) → willing c ≡ true → c.flags.close_after_reply ≡ false → accepts c ≡ true
unfolding accepts
accepts-open c e k = rw (e, k) refl

pub room_left : (a b n : ℕ) → a ≤ n → ltb (n - a) b ≡ false → a + b ≤ n
room_left a b n h e = ground arith

-- The buffer has room, and no block follows it.
pub buffer-Queues :
    (c : Client) (s : List ℕ)
    → IsReply c
    → accepts c ≡ true
    → c.reply ≡ []
    → length c.buf + length s ≤ reply_chunk_bytes
    → Queues c s (record c { buf = c.buf ++ s })
unfolding accepts
buffer-Queues c s is acc none_ room = record {
  valid = record {
    buf_fits = omega (arith, room, length-append c.buf s);
    blocks_fit = is.blocks_fit;
    bytes = is.bytes;
    sent =
        rw none_ (omega (arith, head_length-append c.buf s, ap (head_length c.buf) none_, is.sent));
  };
  same_accepts = refl;
  same_resp = refl;
  streams = rw acc (
      Pushed-stream c s (record c { buf = c.buf ++ s }) is refl
        (rw none_ (append-nil (c.buf ++ s) ∙ ap (λ x. x ++ s) (sym (append-nil c.buf)))));
}
