-- ===== src/Net/Write/Laws.antt =====
-- networking.c: a round of writeToClient moves bytes from the stream of a client to the socket.
use mathlib.Core.List.{append_assoc}
use decompose_redis.Base.{
  ℕ, zero, suc, ◌+◌, ◌≤◌, ◌<◌, ◌≡◌, refl, sym, ap, ◌∙◌, Bool, true, false, List, [], ◌∷◌, ◌++◌,
  Option, some, none, ◌==◌, ==_iff, if_case, length, take, drop, length-append, length-take,
  length-drop, take_long, drop_long, take-append-drop, arith,
}
use decompose_redis.Net.{Client, ReplyBlock}
use decompose_redis.Net.Reply.{is_empty}
use decompose_redis.Net.Reply.Laws.{bytes_of, stream, head_length, IsReply}
use decompose_redis.Net.Reply.Queue.{drop-append}
use decompose_redis.Net.Write.{
  WriteResult, wrote, again, error_, Sending, WriteRound, breaks, tests_, continues, fault, took,
  broken, buffer_round,
}

-- No place of a deferred length is still open.
abbrev pub Filled : List (Option ReplyBlock) → Type 0
Filled [] = Unit {0}
Filled (none ∷ bs) = ⊥
Filled (some b ∷ bs) = Filled bs

unfoldable pub todo : Client → ℕ
todo c = length (stream c) + length c.reply

-- Bytes have gone from the front of the stream to the socket, and none else.
pub record Moves (s s' : Sending) : Type 0 where
  pub valid : IsReply s'.client
  pub filled : Filled s'.client.reply
  pub flow : s'.sent ++ stream s'.client ≡ s.sent ++ stream s.client
  pub count : length s'.sent + s.totwritten ≡ length s.sent + s'.totwritten
  pub same_flags : s'.client.flags ≡ s.client.flags

abbrev pub RoundMoves : Sending → WriteRound → Type 0
RoundMoves s (breaks s') = Moves s s'
RoundMoves s (tests_ s') = Moves s s' × (todo s'.client < todo s.client)
RoundMoves s (continues s') = Moves s s' × (todo s'.client < todo s.client)
RoundMoves s fault = ⊥

take-drop_add : (n k : ℕ) (xs : List ℕ) → take n (drop k xs) ++ drop (k + n) xs ≡ drop k xs
take-drop_add n zero xs = ap (λ m. take n xs ++ drop m xs) (omega arith) ∙ take-append-drop n xs
take-drop_add n (suc k) [] =
    rw (take_long {A = ℕ} [] n (omega arith), drop_long {A = ℕ} [] (suc k + n) (omega arith)) refl
take-drop_add n (suc k) (x ∷ xs) =
    let e : suc k + n ≡ suc (k + n) = omega arith in
    ap (λ m. take n (drop k xs) ++ drop m (x ∷ xs)) e ∙ take-drop_add n k xs

-- A part of the first object has been sent.
pub sent_part :
    (n k : ℕ) (xs rest : List ℕ)
    → k + n ≤ length xs
    → take n (drop k xs) ++ drop (k + n) (xs ++ rest) ≡ drop k (xs ++ rest)
sent_part n k xs rest h =
    ap (◌++◌ (take n (drop k xs))) (drop-append (k + n) xs rest h)
    ∙ sym (append_assoc (take n (drop k xs)) (drop (k + n) xs) rest)
    ∙ ap (λ x. x ++ rest) (take-drop_add n k xs)
    ∙ sym (drop-append k xs rest (omega arith))

-- All of the first object has been sent.
pub sent_all :
    (n k : ℕ) (xs rest : List ℕ)
    → k + n ≡ length xs
    → take n (drop k xs) ++ rest ≡ drop k (xs ++ rest)
sent_all n k xs rest h =
    ap (λ x. x ++ rest) (take_long (drop k xs) n (omega (arith, length-drop k xs)))
    ∙ sym (drop-append k xs rest (omega arith))

pub same_client-Moves :
    (s : Sending) (b : Bool) → IsReply s.client → Filled s.client.reply → Moves s (broken b s)
same_client-Moves s b is full = record {
  valid = is;
  filled = full;
  flow = refl;
  count = refl;
  same_flags = refl;
}

-- The socket took `n` bytes, with which the stream began.
pub took-Moves :
    (s : Sending) (n : ℕ) (left : List ℕ) (c : Client)
    → IsReply c
    → Filled c.reply
    → c.flags ≡ s.client.flags
    → length c.reply ≤ length s.client.reply
    → suc n ≤ length left
    → take (suc n) left ++ stream c ≡ stream s.client
    → Moves s (took (suc n) left c s) × (todo c < todo s.client)
unfolding todo
took-Moves s n left c is full flags fewer most e =
    let taken : List ℕ = take (suc n) left in
    let taken_length : length taken ≡ suc n = omega (arith, length-take (suc n) left) in
    (
      record {
        valid = is;
        filled = full;
        flow = append_assoc s.sent taken (stream c) ∙ ap (◌++◌ s.sent) e;
        count = omega (arith, length-append s.sent taken);
        same_flags = flags;
      },
      omega (arith, length-append taken (stream c), ap length e),
    )

is_empty-some :
    (xs : List ℕ) (bs : List (Option ReplyBlock))
    → is_empty xs ≡ false
    → head_length xs bs ≡ length xs
is_empty-some [] bs e = absurd (ground arith)
is_empty-some (x ∷ xs) bs e = refl

pub empty_is : {A : Type 0} (xs : List A) → is_empty xs ≡ true → xs ≡ []
empty_is [] e = refl
empty_is (x ∷ xs) e = absurd (ground arith)

-- The buffer has been sent up to a place in it.
buffer_part :
    (s : Sending) (n : ℕ)
    → IsReply s.client
    → Filled s.client.reply
    → is_empty s.client.buf ≡ false
    → suc n ≤ length (drop s.client.sentlen s.client.buf)
    → RoundMoves s (
        tests_ (
          took
            (suc n)
            (drop s.client.sentlen s.client.buf)
            (record s.client { sentlen = s.client.sentlen + suc n })
            s))
unfolding stream
buffer_part s n is full some_ most =
    let c : Client = s.client in
    let fits : c.sentlen + suc n ≤ length c.buf = omega (arith, length-drop c.sentlen c.buf) in
    took-Moves s n (drop c.sentlen c.buf) (record c { sentlen = c.sentlen + suc n })
      (record {
        buf_fits = is.buf_fits;
        blocks_fit = is.blocks_fit;
        bytes = is.bytes;
        sent = omega (arith, fits, is_empty-some c.buf c.reply some_);
      })
      full refl (omega arith) most (sent_part (suc n) c.sentlen c.buf (bytes_of c.reply) fits)

buffer_whole :
    (s : Sending) (n : ℕ)
    → IsReply s.client
    → Filled s.client.reply
    → s.client.sentlen + suc n ≡ length s.client.buf
    → suc n ≤ length (drop s.client.sentlen s.client.buf)
    → RoundMoves s (
        tests_ (
          took
            (suc n)
            (drop s.client.sentlen s.client.buf)
            (record s.client { buf = []; sentlen = 0 })
            s))
unfolding stream
buffer_whole s n is full all most =
    let c : Client = s.client in
    took-Moves s n (drop c.sentlen c.buf) (record c { buf = []; sentlen = 0 })
      (record {
        buf_fits = omega arith;
        blocks_fit = is.blocks_fit;
        bytes = is.bytes;
        sent = omega arith;
      })
      full refl (omega arith) most (sent_all (suc n) c.sentlen c.buf (bytes_of c.reply) all)

pub buffer_round-Moves :
    (s : Sending) (r : WriteResult)
    → IsReply s.client
    → Filled s.client.reply
    → is_empty s.client.buf ≡ false
    → ((n : ℕ) → r ≡ wrote n → n ≤ length (drop s.client.sentlen s.client.buf))
    → RoundMoves s (buffer_round r (drop s.client.sentlen s.client.buf) s)
buffer_round-Moves s (wrote zero) is full some_ most = same_client-Moves s false is full
buffer_round-Moves s again is full some_ most = same_client-Moves s false is full
buffer_round-Moves s error_ is full some_ most = same_client-Moves s true is full
buffer_round-Moves s (wrote (suc n)) is full some_ most =
    let c : Client = s.client in
    let left : List ℕ = drop c.sentlen c.buf in
    if_case (λ (r : Client). RoundMoves s (tests_ (took (suc n) left r s)))
      (c.sentlen + suc n == length c.buf) (record c { buf = []; sentlen = 0 })
      (record c { sentlen = c.sentlen + suc n })
      (λ e.
        buffer_whole s n is full ((==_iff (c.sentlen + suc n) (length c.buf)).0 e)
          (most (suc n) refl))
      λ e. buffer_part s n is full some_ (most (suc n) refl)
