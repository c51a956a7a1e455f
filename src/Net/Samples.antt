-- ===== src/Net/Samples.antt =====
-- networking.c: the theorems at a client with a small request and replies of three kinds. The text of
-- a number is decimal; zmalloc gives what it is asked for.
use Prim.Native.Nat.{min}
use decompose_redis.Base.{
  leb, ◌&&◌, ◌||◌, ℕ, zero, suc, ◌+◌, ◌-◌, ◌*◌, ◌/◌, ◌%◌, ◌^◌, ◌≤◌, ◌<◌, ◌≡◌, refl, ap, ◌∙◌, inl,
  Bool, true, false, List, [], ◌∷◌, ◌++◌, Option, some, none, ltb, ◌==◌, if◌then◌else◌, if_case,
  length, arith,
}
use decompose_redis.Base.Int.{ℤ, pos, negsuc}
use decompose_redis.Net.{Client, ClientFlags, Server, State, proto_req_multibulk, repl_state_none}
use decompose_redis.Net.Reply.{
  Platform, crlf, add_reply_proto, add_reply_error_length, add_reply_status_length,
  add_reply_long_long_with_prefix, add_reply_bulk_c_buffer, add_reply_null, add_reply_null_array,
}
use decompose_redis.Net.Reply.Laws.{IsReply}
use decompose_redis.Net.Reply.Stream.{add_reply_proto-Queues}
use decompose_redis.Net.Reply.Queue.{Queues}
use decompose_redis.Net.Reply.Kinds.{IsError, replies-Queue, null_bytes}
use decompose_redis.Net.Headers.{
  header, add_reply_array_len, add_reply_map_len, add_reply_set_len, add_reply_attribute_len,
  add_reply_push_len, add_reply_verbatim, headers-Queue, ByVersion, bulk_bytes, verbatim_bytes,
}
use decompose_redis.Net.Write.{Socket, WriteResult, wrote, again, error_, write_to_client}
use decompose_redis.Net.Write.Delivery.{Delivers, write_to_client-Delivers}
use decompose_redis.Net.Request.{Numbers, codes, unread, process_multibulk_buffer}
use decompose_redis.Sds.Ctype.{Ctype}
use decompose_redis.Net.Request.Line.{IsPlain, Texts}
use decompose_redis.Net.Request.Resume.{receive, process_multibulk_buffer-Outcome}
use decompose_redis.Net.Request.Args.{InRequest, Outcome}

-- The digits of a number before others.
abbrev digits : ℕ → ℕ → List ℕ → List ℕ
digits zero n behind = behind
digits (suc f) n behind =
    let rest = digits f (n / 10) ((n % 10 + 48) ∷ behind) in
    if ltb n 10 then (n + 48) ∷ behind else rest

abbrev read_digits : List ℕ → ℕ → ℕ
read_digits [] n = n
read_digits (c ∷ s) n = read_digits s (n * 10 + (c - 48))

abbrev pow10 : ℕ → ℕ
pow10 zero = 1
pow10 (suc f) = pow10 f * 10

read_digits-digits :
    (f n : ℕ) (behind : List ℕ)
    → n < pow10 (suc f)
    → read_digits (digits (suc f) n behind) 0 ≡ read_digits behind n
read_digits-digits zero n behind h =
    if_case (λ xs. read_digits xs 0 ≡ read_digits behind n) (ltb n 10) ((n + 48) ∷ behind) _
      (λ e. ap (read_digits behind) (omega arith)) λ e. absurd (ground (arith, h, e))
read_digits-digits (suc f) n behind h =
    let rest = digits (suc f) (n / 10) ((n % 10 + 48) ∷ behind) in
    if_case (λ xs. read_digits xs 0 ≡ read_digits behind n) (ltb n 10) ((n + 48) ∷ behind) rest
      (λ e. ap (read_digits behind) (omega arith))
      λ e.
        read_digits-digits f (n / 10) ((n % 10 + 48) ∷ behind) (omega arith)
        ∙ ap (read_digits behind) (omega arith)

digits-IsPlain : (f n : ℕ) (behind : List ℕ) → IsPlain behind → IsPlain (digits f n behind)
digits-IsPlain zero n behind h = h
digits-IsPlain (suc f) n behind h =
    if_case IsPlain (ltb n 10) ((n + 48) ∷ behind) (digits f (n / 10) ((n % 10 + 48) ∷ behind))
      (λ e. ((ground arith, ground arith), h))
      λ e. digits-IsPlain f (n / 10) ((n % 10 + 48) ∷ behind) ((ground arith, ground arith), h)

length-digits : (f n : ℕ) (behind : List ℕ) → length (digits f n behind) ≤ f + length behind
length-digits zero n behind = omega arith
length-digits (suc f) n behind =
    let rest = digits f (n / 10) ((n % 10 + 48) ∷ behind) in
    if_case (λ xs. length xs ≤ suc f + length behind) (ltb n 10) ((n + 48) ∷ behind) rest
      (λ e. omega arith) λ e. omega (arith, length-digits f (n / 10) ((n % 10 + 48) ∷ behind))

abbrev count : WriteResult → ℕ
count (wrote n) = n
count again = 0
count error_ = 0

written_most : (b : Bool) (l n : ℕ) → (if b then again else wrote (min 3 l)) ≡ wrote n → n ≤ l
written_most true l n e = absurd (ground (arith, e))
written_most false l n e = omega (arith, ap count e)

abbrev decimal : Numbers
decimal = record { string2ll = λ s. some (pos (read_digits s 0)) }

decimal_reads : (n : ℕ) → n < 2 ^ 63 → decimal.string2ll (digits 20 n []) ≡ some (pos n)
decimal_reads n h = ap (λ m. some (pos m)) (read_digits-digits 19 n [] (omega arith))

abbrev decimal_texts : Texts decimal
decimal_texts = record {
  text = λ n. digits 20 n [];
  text-string2ll = decimal_reads;
  text-IsPlain = λ n. digits-IsPlain 20 n [] tt;
  text_short = λ n h. length-digits 20 n [];
}

abbrev long_text : ℤ → List ℕ
long_text (pos n) = digits 20 n []
long_text (negsuc n) = b'-' ∷ digits 20 (suc n) []

abbrev platform : Platform
platform = record {
  usable = λ n. n;
  usable_enough = λ n. omega arith;
  long_text = long_text;
  item_size = 40;
}

abbrev no_flags : ClientFlags
no_flags = record {
  lua = false;
  module_ = false;
  reply_off = false;
  reply_skip = false;
  master = false;
  master_force_reply = false;
  slave = false;
  monitor = false;
  pubsub = false;
  blocked = false;
  pending_write = false;
  pending_read = false;
  pending_command = false;
  close_after_reply = false;
  close_asap = false;
}

abbrev fresh : Client
fresh = record {
  id = 7;
  fd = pos 5;
  resp = 2;
  flags = no_flags;
  querybuf = [];
  qb_pos = 0;
  reqtype = proto_req_multibulk;
  argv = [];
  multibulklen = 0;
  bulklen = none;
  repl_ack_time = 0;
  replstate = repl_state_none;
  repl_put_online_on_ack = false;
  buf = [];
  reply = [];
  reply_bytes = 0;
  sentlen = 0;
  obuf_soft_limit_reached_time = 0;
  lastinteraction = 0;
}

abbrev server : Server
server = record {
  clients_pending_write = [];
  clients_to_close = [];
  client_obuf_limits =
      λ t. record { hard_limit_bytes = 0; soft_limit_bytes = 0; soft_limit_seconds = 0 };
  unixtime = 100;
  maxmemory = 0;
  proto_max_bulk_len = 512 * 1024 * 1024;
  stat_net_output_bytes = 0;
}

abbrev idle : State
idle = record { client = fresh; server = server }

-- A client with a reply in its buffer, of which a byte is sent, and one in a block.
abbrev busy : State
busy = record idle {
  client = record fresh {
    buf = codes "+OK" ++ crlf;
    reply = some (record { buf = codes ":7" ++ crlf; size = 16384 }) ∷ [];
    reply_bytes = 16384;
    sentlen = 1;
  };
}

busy-IsReply : IsReply busy.client
busy-IsReply = record {
  buf_fits = omega arith;
  blocks_fit = (omega arith, tt);
  bytes = refl;
  sent = omega arith;
}

add_reply_proto-Queues_example :
    Queues busy.client (codes "hi") (add_reply_proto platform (codes "hi") busy).client
add_reply_proto-Queues_example = add_reply_proto-Queues platform busy (codes "hi") busy-IsReply

replies-Queue_example :
    ((bytes : List ℕ) × IsError (codes "no") bytes
      × Queues busy.client bytes (add_reply_error_length platform (codes "no") busy).client)
    × Queues busy.client
        (b'+' ∷ [] ++ codes "no" ++ crlf)
        (add_reply_status_length platform (codes "no") busy).client
    × Queues busy.client
        (b':' ∷ long_text (pos 12) ++ crlf)
        (add_reply_long_long_with_prefix platform (pos 12) b':' busy).client
    × Queues busy.client
        (b'$' ∷ long_text (pos 2) ++ crlf ++ codes "no" ++ crlf)
        (add_reply_bulk_c_buffer platform (codes "no") busy).client
    × Queues busy.client (null_bytes 2 b'$') (add_reply_null platform busy).client
    × Queues busy.client (null_bytes 2 b'*') (add_reply_null_array platform busy).client
replies-Queue_example = replies-Queue platform busy (codes "no") (pos 12) b':' busy-IsReply

-- The socket takes three bytes at a time, and none at the third call.
abbrev socket : Socket
socket = record {
  write = λ k s. if k == 2 then again else wrote (min 3 (length s));
  write_most = λ k s n e. written_most (k == 2) (length s) n e;
  max_writes = 65536;
  used_memory = 0;
}

write_to_client-Delivers_example : Delivers busy (write_to_client socket busy true)
write_to_client-Delivers_example = write_to_client-Delivers socket busy true busy-IsReply tt

abbrev args : List (List ℕ)
args = codes "GET" ∷ codes "x" ∷ []

-- `*2`, `$3`, `GET`, `$1` and `x`, cut in two in the middle of GET.
abbrev piece : List ℕ
piece = b'*' ∷ b'2' ∷ crlf ++ b'$' ∷ b'3' ∷ crlf ++ codes "G"

abbrev rest : List ℕ
rest = codes "ET" ++ crlf ++ b'$' ∷ b'1' ∷ crlf ++ codes "x" ++ crlf

abbrev half : State
half = record idle { client = record fresh { querybuf = piece } }

half-InRequest : InRequest platform decimal decimal_texts half.client args [] rest
half-InRequest =
    inl (record { argv = refl; count = refl; bulklen = refl; input = refl; placed = omega arith })

process_multibulk_buffer-Outcome_example :
    (r : Bool × State) × (process_multibulk_buffer platform decimal half ≡ some r)
    × Outcome platform decimal decimal_texts half args [] rest r
process_multibulk_buffer-Outcome_example =
    process_multibulk_buffer-Outcome platform decimal decimal_texts half args [] rest half-InRequest
      (omega arith) (omega arith, (omega arith, tt)) (omega arith)

-- Of the whole request nothing is left in the query buffer.
abbrev read_of : Option (Bool × State) → Option (Bool × List (List ℕ) × List ℕ)
read_of none = none
read_of (some (b, st)) = some (b, st.client.argv, unread st.client)

whole :
    read_of (process_multibulk_buffer platform decimal (receive rest half)) ≡ some (true, args, [])
unfolding process_multibulk_buffer
whole = refl

abbrev ascii : Ctype
ascii = record {
  isprint = λ c. leb 0x20 c && leb c 0x7e;
  isspace = λ c. c == b' ' || (leb 0x09 c && leb c 0x0d);
  not_print_nul = refl;
  space_blank = refl;
  space_quote = refl;
}

-- `GET x` and a CRLF, with the start of the next line behind.
abbrev typed : State
typed = record idle { client = record fresh { querybuf = codes "GET x" ++ crlf ++ codes "PI" } }

headers-Queue_example :
    Queues busy.client (header platform b'*' 2) (add_reply_array_len platform 2 busy).client
    × ((st' : State) × (add_reply_map_len platform 2 busy ≡ some st')
        × ByVersion platform busy (header platform b'*' 4) (header platform b'%' 2) st')
    × ByVersion platform busy
        (header platform b'*' 2)
        (header platform b'~' 2)
        (add_reply_set_len platform 2 busy)
    × ((st' : State) × (add_reply_attribute_len platform 2 busy ≡ some st')
        × ByVersion platform busy (header platform b'*' 4) (header platform b'|' 2) st')
    × ByVersion platform busy
        (header platform b'*' 2)
        (header platform b'>' 2)
        (add_reply_push_len platform 2 busy)
    × ByVersion platform busy
        (bulk_bytes platform (codes "no"))
        (verbatim_bytes platform (codes "no") (codes "md"))
        (add_reply_verbatim platform (codes "no") (codes "md") busy)
headers-Queue_example =
    headers-Queue platform busy 2 (codes "no") (codes "md") busy-IsReply (omega arith)
