-- ===== src/Net/Limits.antt =====
-- networking.c: the class of a client and the limits on its output buffers. A client over its limits is
-- queued to be closed. The assertion that reply_bytes is far below SIZE_MAX is left out.
use decompose_redis.Base.{
  ℕ, zero, suc, ◌+◌, ◌-◌, ◌*◌, ◌%◌, Bool, true, false, not, ◌&&◌, ◌||◌, [], ◌∷◌, ◌++◌, leb, ◌==◌,
  if◌then◌else◌, length,
}
use decompose_redis.Base.Int.{ℤ, pos, negsuc}
use decompose_redis.Net.{
  Client, ClientType, client_type_normal, client_type_slave, client_type_pubsub, client_type_master,
  ObufLimit, Server, State, word,
}

unfoldable pub get_client_type : Client → ClientType
get_client_type c =
    if c.flags.master
    then client_type_master
    else if c.flags.slave && not c.flags.monitor
    then client_type_slave
    else if c.flags.pubsub
    then client_type_pubsub
    else client_type_normal

-- Masters have the limits of normal clients.
abbrev pub limited_as : ClientType → ClientType
limited_as client_type_normal = client_type_normal
limited_as client_type_slave = client_type_slave
limited_as client_type_pubsub = client_type_pubsub
limited_as client_type_master = client_type_normal

-- A limit of 0 is none.
abbrev pub reaches : ℕ → ℕ → Bool
reaches limit used = not (limit == 0) && leb limit used

-- The time at which the soft limit was reached, and whether it has lasted too long.
abbrev pub soft_state : Bool → ℕ → ℕ → ℕ → Bool × ℕ
soft_state false since now seconds = (false, 0)
soft_state true zero now seconds = (false, now)
soft_state true (suc since) now seconds = (not (leb (now - suc since) seconds), suc since)

abbrev pub set_soft_time : ℕ → Client → Client
set_soft_time t c = record c { obuf_soft_limit_reached_time = t }

abbrev pub queued_to_close : State → State
queued_to_close s = record {
  client = record s.client { flags = record s.client.flags { close_asap = true } };
  server = record s.server { clients_to_close = s.server.clients_to_close ++ s.client.id ∷ [] };
}

unfoldable pub free_client_async : State → State
free_client_async s =
    if s.client.flags.close_asap || s.client.flags.lua then s else queued_to_close s

abbrev pub close_if : Bool → State → State
close_if true s = free_client_async s
close_if false s = s

abbrev pub no_client : ℤ → Bool
no_client (pos n) = false
no_client (negsuc zero) = true
no_client (negsuc (suc n)) = false

-- `item` is sizeof(listNode) + sizeof(clientReplyBlock).
module _ (item : ℕ) where
  unfoldable pub get_client_output_buffer_memory_usage : Client → ℕ
  get_client_output_buffer_memory_usage c = (c.reply_bytes + item * length c.reply) % word

  unfoldable pub check_client_output_buffer_limits : Server → Client → Bool × Client
  unfolding get_client_type get_client_output_buffer_memory_usage
  check_client_output_buffer_limits server c =
      let limit : ObufLimit = server.client_obuf_limits (limited_as (get_client_type c)) in
      let used : ℕ = get_client_output_buffer_memory_usage c in
      let hard : Bool = reaches limit.hard_limit_bytes used in
      let soft =
        soft_state (reaches limit.soft_limit_bytes used) c.obuf_soft_limit_reached_time
          server.unixtime limit.soft_limit_seconds in
      (soft.0 || hard, set_soft_time soft.1 c)

  unfoldable pub async_close_client_on_output_buffer_limit_reached : State → State
  unfolding check_client_output_buffer_limits free_client_async
  async_close_client_on_output_buffer_limit_reached s =
      if no_client s.client.fd || (s.client.reply_bytes == 0 || s.client.flags.close_asap)
      then s
      else let checked = check_client_output_buffer_limits s.server s.client in
        close_if checked.0 (record s { client = checked.1 })
