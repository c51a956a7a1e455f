-- ===== src/Net/Reply/Kinds.antt =====
-- networking.c: the replies of each kind, as the bytes that they add to the stream of a client.
use mathlib.Core.List.{append_assoc, append-nil}
use decompose_redis.Base.{
  ℕ, ◌≡◌, ◌≢◌, ◌⊎◌, refl, sym, ap, ◌∙◌, Bool, true, false, Bool-cases, inl, inr, List, [], ◌∷◌,
  ◌++◌, ◌==◌, if◌then◌else◌, if_case, length, arith,
}
use decompose_redis.Base.Int.{ℤ, pos}
use decompose_redis.Net.{Client, State}
use decompose_redis.Net.Reply.{
  Platform, crlf, err_prefix, add_if, add_reply_proto, add_reply_error_length,
  add_reply_status_length, add_reply_long_long_with_prefix, add_reply_null, add_reply_null_array,
  add_reply_bulk_c_buffer,
}
use decompose_redis.Net.Reply.Laws.{IsReply, accepts, stream}
use decompose_redis.Net.Reply.Stream.{add_reply_proto-Queues}
use decompose_redis.Net.Reply.Queue.{Queues}

Queues-append :
    (c c' c'' : Client) (s t : List ℕ) → Queues c s c' → Queues c' t c'' → Queues c (s ++ t) c''
Queues-append c c' c'' s t q r = record {
  valid = r.valid;
  same_accepts = r.same_accepts ∙ q.same_accepts;
  same_resp = r.same_resp ∙ q.same_resp;
  streams = elim (Bool-cases (accepts c)) [
    | inl y ↦
        let yes : accepts c' ≡ true = q.same_accepts ∙ y in
        r.streams ∙ rw (yes, q.streams, y) (append_assoc (stream c) s t)
    | inr n ↦
        let no : accepts c' ≡ false = q.same_accepts ∙ n in r.streams ∙ rw (no, q.streams, n) refl
  ];
}

Queues-nil : (c : Client) → IsReply c → Queues c [] c
Queues-nil c is = record {
  valid = is;
  same_accepts = refl;
  same_resp = refl;
  streams =
      if_case (λ x. stream c ≡ x) (accepts c) (stream c ++ []) (stream c)
        (λ y. sym (append-nil (stream c))) λ n. refl;
}

-- CR and LF.
abbrev pub line_end : List ℕ
line_end = 0x0d ∷ 0x0a ∷ []

-- An error reply is its text, if that starts with `-`, else the text behind `-ERR `; and CRLF.
abbrev pub IsError : List ℕ → List ℕ → Type 0
IsError s bytes =
    ((r : List ℕ) × (s ≡ b'-' ∷ r) × (bytes ≡ s ++ line_end))
    ⊎ (((r : List ℕ) → s ≢ b'-' ∷ r) × (bytes ≡ b'-' ∷ b'E' ∷ b'R' ∷ b'R' ∷ b' ' ∷ s ++ line_end))

err_prefix-IsError : (s : List ℕ) → IsError s (err_prefix s ++ s ++ crlf)
err_prefix-IsError [] = inr (λ r e. cc, refl)
err_prefix-IsError (c ∷ s) = elim (Bool-cases (c == b'-')) [
  | inl dash ↦ let q : c ≡ b'-' = ground arith in inl (s, ap (λ x. x ∷ s) q, rw dash refl)
  | inr other ↦ inr (λ r e. ground arith, rw other refl)
]

-- The null replies of the two versions of the protocol.
abbrev pub null_bytes : ℕ → ℕ → List ℕ
null_bytes resp prefix = if resp == 2 then prefix ∷ b'-' ∷ b'1' ∷ line_end else b'_' ∷ line_end

module _ (p : Platform) where
  -- Three calls of addReplyProto.
  pub three :
      (st st' : State) (a b d : List ℕ)
      → Queues st.client a st'.client
      → Queues st.client (a ++ b ++ d) (add_reply_proto p d (add_reply_proto p b st')).client
  three st st' a b d q =
      let st2 : State = add_reply_proto p b st' in
      let q2 = add_reply_proto-Queues p st' b q.valid in
      let q3 = add_reply_proto-Queues p st2 d q2.valid in
      Queues-append st.client st2.client (add_reply_proto p d st2).client (a ++ b) d
        (Queues-append st.client st'.client st2.client a b q q2) q3

  add_if-Queues :
      (st : State) (s : List ℕ) → IsReply st.client → Queues st.client s (add_if p s st).client
  add_if-Queues st [] is = Queues-nil st.client is
  add_if-Queues st (c ∷ s) is = add_reply_proto-Queues p st (c ∷ s) is

  null_-Queues :
      (st : State) (b : Bool) (s t : List ℕ)
      → IsReply st.client
      → Queues st.client
          (if b then s else t)
          (if b then add_reply_proto p s st else add_reply_proto p t st).client
  null_-Queues st true s t is = add_reply_proto-Queues p st s is
  null_-Queues st false s t is = add_reply_proto-Queues p st t is

  -- What each kind of reply queues, if the client takes replies: an error is its text, behind `-ERR `
  -- unless it starts with `-` itself, and CRLF; a status is `+`, the text and CRLF; a number is the
  -- prefix, its text and CRLF; a bulk string is `$` and its length, CRLF, the bytes and CRLF; and a
  -- null or null array is `$-1` or `*-1` for the protocol's version 2, else `_`, and CRLF.
  pub replies-Queue :
      (st : State) (s : List ℕ) (ll : ℤ) (prefix : ℕ)
      → IsReply st.client
      → ((bytes : List ℕ) × IsError s bytes
          × Queues st.client bytes (add_reply_error_length p s st).client)
        × Queues st.client (b'+' ∷ [] ++ s ++ line_end) (add_reply_status_length p s st).client
        × Queues st.client
            (prefix ∷ p.long_text ll ++ line_end)
            (add_reply_long_long_with_prefix p ll prefix st).client
        × Queues st.client
            (b'$' ∷ p.long_text (pos (length s)) ++ line_end ++ s ++ line_end)
            (add_reply_bulk_c_buffer p s st).client
        × Queues st.client (null_bytes st.client.resp b'$') (add_reply_null p st).client
        × Queues st.client (null_bytes st.client.resp b'*') (add_reply_null_array p st).client
  unfolding add_reply_error_length add_reply_status_length add_reply_long_long_with_prefix
      add_reply_bulk_c_buffer add_reply_null add_reply_null_array
  replies-Queue st s ll prefix is =
      let q : List ℕ → State = λ x. add_reply_proto p x st in
      let n : List ℕ = b'$' ∷ p.long_text (pos (length s)) ++ crlf in
      (
        (
          err_prefix s ++ s ++ crlf,
          err_prefix-IsError s,
          three st (add_if p (err_prefix s) st) (err_prefix s) s crlf
              (add_if-Queues st (err_prefix s) is),
        ),
        three st (q (b'+' ∷ [])) (b'+' ∷ []) s crlf (add_reply_proto-Queues p st (b'+' ∷ []) is),
        add_reply_proto-Queues p st (prefix ∷ p.long_text ll ++ crlf) is,
        three st (q n) n s crlf (add_reply_proto-Queues p st n is),
        null_-Queues st (st.client.resp == 2) (b'$' ∷ b'-' ∷ b'1' ∷ crlf) (b'_' ∷ crlf) is,
        null_-Queues st (st.client.resp == 2) (b'*' ∷ b'-' ∷ b'1' ∷ crlf) (b'_' ∷ crlf) is,
      )
