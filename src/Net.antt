-- ===== src/Net.antt =====
-- server.h, networking.c: the state of a client connection, and of the server as far as the
-- connections use it. A flag of `flags` is a field of ClientFlags. The bytes of `querybuf` are those
-- that its sds stands for, and `bufpos` is the length of `buf`; `argc` is the length of `argv`.
pub mod Limits
pub mod Reply
pub mod Headers
pub mod Write
pub mod Request
mod Samples
use decompose_redis.Base.{ℕ, ◌*◌, ◌^◌, Bool, true, false, List, [], ◌∷◌, Option, some, none}
use decompose_redis.Base.Int.{ℤ, pos, negsuc}

pub record ClientFlags : Type 0 where
  pub lua : Bool
  pub module_ : Bool
  pub reply_off : Bool
  pub reply_skip : Bool
  pub master : Bool
  pub master_force_reply : Bool
  pub slave : Bool
  pub monitor : Bool
  pub pubsub : Bool
  pub blocked : Bool
  pub pending_write : Bool
  pub pending_read : Bool
  pub pending_command : Bool
  pub close_after_reply : Bool
  pub close_asap : Bool

-- The values of `replstate` that the replies tell apart.
pub data ReplState : Type 0 where
  repl_state_none slave_state_online repl_state_other : ReplState

-- clientReplyBlock: the bytes in use of a block of `size`.
pub record ReplyBlock : Type 0 where
  pub buf : List ℕ
  pub size : ℕ

-- `reqtype`, with 0 for a type not known yet.
pub data ReqType : Type 0 where
  proto_req_unknown proto_req_inline proto_req_multibulk : ReqType

-- In `reply` a NULL is the place that addReplyDeferredLen keeps; a `bulklen` of -1 is `none`.
pub record Client : Type 0 where
  pub id : ℕ
  pub fd : ℤ
  pub resp : ℕ
  pub flags : ClientFlags
  pub querybuf : List ℕ
  pub qb_pos : ℕ
  pub reqtype : ReqType
  pub argv : List (List ℕ)
  pub multibulklen : ℕ
  pub bulklen : Option ℕ
  pub repl_ack_time : ℕ
  pub replstate : ReplState
  pub repl_put_online_on_ack : Bool
  pub buf : List ℕ
  pub reply : List (Option ReplyBlock)
  pub reply_bytes : ℕ
  pub sentlen : ℕ
  pub obuf_soft_limit_reached_time : ℕ
  pub lastinteraction : ℕ

pub data ClientType : Type 0 where
  client_type_normal client_type_slave client_type_pubsub client_type_master : ClientType

-- clientBufferLimitsConfig
pub record ObufLimit : Type 0 where
  pub hard_limit_bytes : ℕ
  pub soft_limit_bytes : ℕ
  pub soft_limit_seconds : ℕ

-- The clients that wait are known by their ids.
pub record Server : Type 0 where
  pub clients_pending_write : List ℕ
  pub clients_to_close : List ℕ
  pub client_obuf_limits : ClientType → ObufLimit
  pub unixtime : ℕ
  pub maxmemory : ℕ
  pub proto_max_bulk_len : ℕ
  pub stat_net_output_bytes : ℕ

pub record State : Type 0 where
  pub client : Client
  pub server : Server

abbrev pub reply_chunk_bytes : ℕ
reply_chunk_bytes = 16 * 1024

abbrev pub word : ℕ
word = 2 ^ 64
