-- ===== src/Net/Headers.antt =====
-- networking.c: the replies that depend on the version of the protocol, as they are added and as the
-- bytes that they add to the stream of a client.
use decompose_redis.Base.{
  ℕ, zero, suc, ◌+◌, ◌*◌, ◌^◌, ◌<◌, ◌≡◌, ◌≢◌, ◌⊎◌, refl, inl, inr, Bool-cases, false, List, [], ◌∷◌,
  ◌++◌, Option, some, none, ◌==◌, leb, if◌then◌else◌, length, take, arith,
}
use decompose_redis.Base.Int.{pos}
use decompose_redis.Net.{State}
use decompose_redis.Net.Reply.{
  Platform, crlf, add_reply_proto, add_reply_long_long_with_prefix, add_reply_bulk_c_buffer,
}
use decompose_redis.Net.Reply.Laws.{IsReply}
use decompose_redis.Net.Reply.Queue.{Queues}
use decompose_redis.Net.Reply.Stream.{add_reply_proto-Queues}
use decompose_redis.Net.Reply.Kinds.{line_end, three, replies-Queue}

-- Version 2 has arrays for every aggregate.
abbrev pub header_prefix : ℕ → ℕ → ℕ
header_prefix resp prefix = if resp == 2 then b'*' else prefix

-- Version 2 counts the keys and the values of a map. The length has the type long: twice it, past
-- the range of that type, is undefined, `none` here.
abbrev pub pairs_length : ℕ → ℕ → Option ℕ
pairs_length resp length =
    if resp == 2 then if leb (2 ^ 63) (length * 2) then none else some (length * 2) else some length

-- The first three characters of an extension, with spaces behind a shorter one.
abbrev pub three_chars : ℕ → List ℕ → List ℕ
three_chars zero ext = []
three_chars (suc n) [] = b' ' ∷ three_chars n []
three_chars (suc n) (c ∷ ext) = c ∷ three_chars n ext

module _ (p : Platform) where
  -- A length is not negative here; the source reads before a table at a negative one.
  unfoldable pub add_reply_aggregate_len : ℕ → ℕ → State → State
  add_reply_aggregate_len length prefix st =
      add_reply_long_long_with_prefix p (pos length) prefix st

  abbrev pub add_reply_pairs_len : Option ℕ → ℕ → State → Option State
  add_reply_pairs_len none prefix st = none
  add_reply_pairs_len (some length) prefix st = some (add_reply_aggregate_len length prefix st)

  unfoldable pub add_reply_array_len : ℕ → State → State
  unfolding add_reply_aggregate_len
  add_reply_array_len length st = add_reply_aggregate_len length b'*' st

  unfoldable pub add_reply_map_len : ℕ → State → Option State
  add_reply_map_len length st =
      add_reply_pairs_len (pairs_length st.client.resp length) (header_prefix st.client.resp b'%')
        st

  unfoldable pub add_reply_set_len : ℕ → State → State
  unfolding add_reply_aggregate_len
  add_reply_set_len length st =
      add_reply_aggregate_len length (header_prefix st.client.resp b'~') st

  unfoldable pub add_reply_attribute_len : ℕ → State → Option State
  add_reply_attribute_len length st =
      add_reply_pairs_len (pairs_length st.client.resp length) (header_prefix st.client.resp b'|')
        st

  unfoldable pub add_reply_push_len : ℕ → State → State
  unfolding add_reply_aggregate_len
  add_reply_push_len length st =
      add_reply_aggregate_len length (header_prefix st.client.resp b'>') st

  abbrev pub verbatim_header : ℕ → List ℕ → List ℕ
  verbatim_header len ext =
      b'=' ∷ p.long_text (pos (len + 4)) ++ crlf ++ three_chars 3 ext ++ b':' ∷ []

  unfoldable pub add_reply_verbatim : List ℕ → List ℕ → State → State
  add_reply_verbatim s ext st =
      if st.client.resp == 2
      then add_reply_bulk_c_buffer p s st
      else add_reply_proto p crlf
          (add_reply_proto p s (add_reply_proto p (verbatim_header (length s) ext) st))

  abbrev pub header : ℕ → ℕ → List ℕ
  header prefix length = prefix ∷ p.long_text (pos length) ++ line_end

  -- Bytes for version 2 of the protocol, and bytes for another.
  abbrev pub ByVersion : State → (two three : List ℕ) → State → Type 0
  ByVersion st two three st' =
      ((st.client.resp ≡ 2) × Queues st.client two st'.client)
      ⊎ ((st.client.resp ≢ 2) × Queues st.client three st'.client)

  abbrev pub bulk_bytes : List ℕ → List ℕ
  bulk_bytes s = b'$' ∷ p.long_text (pos (length s)) ++ line_end ++ s ++ line_end

  -- The length counts the extension and the colon too. A short extension is filled up with spaces.
  abbrev pub verbatim_bytes : List ℕ → List ℕ → List ℕ
  verbatim_bytes s ext =
      b'=' ∷ p.long_text (pos (length s + 4))
      ++ line_end
      ++ take 3 (ext ++ b' ' ∷ b' ' ∷ b' ' ∷ [])
      ++ b':' ∷ []
      ++ s
      ++ line_end

  three_chars-take : (ext : List ℕ) → three_chars 3 ext ≡ take 3 (ext ++ b' ' ∷ b' ' ∷ b' ' ∷ [])
  three_chars-take [] = refl
  three_chars-take (a ∷ []) = refl
  three_chars-take (a ∷ b ∷ []) = refl
  three_chars-take (a ∷ b ∷ c ∷ ext) = refl

  verbatim-ByVersion :
      (st : State) (s ext : List ℕ)
      → IsReply st.client
      → ByVersion st (bulk_bytes s) (verbatim_bytes s ext) (add_reply_verbatim s ext st)
  unfolding add_reply_verbatim
  verbatim-ByVersion st s ext is = elim (Bool-cases (st.client.resp == 2)) [
    | inl two ↦ rw two (inl (ground arith, (replies-Queue p st s (pos 0) 0 is).3))
    | inr other ↦
        let start : List ℕ = verbatim_header (length s) ext in
        rw (other, ← three_chars-take ext)
          (inr (
            λ e. ground arith,
            three p st (add_reply_proto p start st) start s crlf
                (add_reply_proto-Queues p st start is),
          ))
  ]

  aggregate-Queues :
      (n prefix : ℕ) (st : State)
      → IsReply st.client
      → Queues st.client (header prefix n) (add_reply_aggregate_len n prefix st).client
  unfolding add_reply_aggregate_len add_reply_long_long_with_prefix
  aggregate-Queues n prefix st is = add_reply_proto-Queues p st (header prefix n) is

  aggregate-ByVersion :
      (n prefix : ℕ) (st : State)
      → IsReply st.client
      → ByVersion st
          (header b'*' n)
          (header prefix n)
          (add_reply_aggregate_len n (header_prefix st.client.resp prefix) st)
  aggregate-ByVersion n prefix st is = elim (Bool-cases (st.client.resp == 2)) [
    | inl two ↦ rw two (inl (ground arith, aggregate-Queues n b'*' st is))
    | inr other ↦ rw other (inr (λ e. ground arith, aggregate-Queues n prefix st is))
  ]

  pairs-ByVersion :
      (n prefix : ℕ) (st : State)
      → IsReply st.client
      → n < 2 ^ 62
      → (st' : State) × (add_reply_pairs_len
            (pairs_length st.client.resp n)
            (header_prefix st.client.resp prefix)
            st
          ≡ some st')
        × ByVersion st (header b'*' (n + n)) (header prefix n) st'
  pairs-ByVersion n prefix st is small = elim (Bool-cases (st.client.resp == 2)) [
    | inl two ↦
        let fits : leb (2 ^ 63) (n * 2) ≡ false = ground arith in
        let twice : n * 2 ≡ n + n = omega arith in
        rw (two, fits)
          (_, refl, inl (ground arith, rw (← twice) (aggregate-Queues (n * 2) b'*' st is)))
    | inr other ↦ rw other (_, refl, inr (λ e. ground arith, aggregate-Queues n prefix st is))
  ]

  -- What the headers of aggregates and a verbatim string queue, if the client takes replies, for a
  -- length below 2 ^ 62: in version 2 of the protocol every header is that of an array, `*`, and a map
  -- or an attribute counts keys and values; otherwise the prefix is that of the type, `%`, `~`, `|` or
  -- `>`, and the length the given one. A verbatim string is a bulk string in version 2, and otherwise
  -- has `=`, a length that counts four more bytes, the first three characters of its extension, filled
  -- up with spaces, and a colon before its own.
  pub headers-Queue :
      (st : State) (n : ℕ) (s ext : List ℕ)
      → IsReply st.client
      → n < 2 ^ 62
      → Queues st.client (header b'*' n) (add_reply_array_len n st).client
        × ((st' : State) × (add_reply_map_len n st ≡ some st')
            × ByVersion st (header b'*' (n + n)) (header b'%' n) st')
        × ByVersion st (header b'*' n) (header b'~' n) (add_reply_set_len n st)
        × ((st' : State) × (add_reply_attribute_len n st ≡ some st')
            × ByVersion st (header b'*' (n + n)) (header b'|' n) st')
        × ByVersion st (header b'*' n) (header b'>' n) (add_reply_push_len n st)
        × ByVersion st (bulk_bytes s) (verbatim_bytes s ext) (add_reply_verbatim s ext st)
  unfolding add_reply_array_len add_reply_map_len add_reply_set_len add_reply_attribute_len
      add_reply_push_len
  headers-Queue st n s ext is small = (
    aggregate-Queues n b'*' st is,
    pairs-ByVersion n b'%' st is small,
    aggregate-ByVersion n b'~' st is,
    pairs-ByVersion n b'|' st is small,
    aggregate-ByVersion n b'>' st is,
    verbatim-ByVersion st s ext is,
  )
