-- ===== src/Net/Write/Sent.antt =====
-- networking.c: what writeToClient as a whole sends.
use decompose_redis.Base.{
  ℕ, zero, suc, ◌<◌, ◌≡◌, refl, ◌∙◌, Bool, true, false, not, Option, some, if_case, arith,
}
use decompose_redis.Net.{Server}
use decompose_redis.Net.Reply.{client_has_pending_replies}
use decompose_redis.Net.Reply.Laws.{IsReply}
use decompose_redis.Net.Write.{
  Socket, Sending, WriteRound, breaks, tests_, continues, fault, enough, next_round, write_round,
  write_loop,
}
use decompose_redis.Net.Write.Laws.{Filled, todo, Moves, RoundMoves}
use decompose_redis.Net.Write.Blocks.{write_round-Moves}

Moves-refl : (s : Sending) → IsReply s.client → Filled s.client.reply → Moves s s
Moves-refl s is full = record {
  valid = is;
  filled = full;
  flow = refl;
  count = refl;
  same_flags = refl;
}

Moves-trans : (s s' s'' : Sending) → Moves s s' → Moves s' s'' → Moves s s''
Moves-trans s s' s'' m n = record {
  valid = n.valid;
  filled = n.filled;
  flow = n.flow ∙ m.flow;
  count = omega (arith, m.count, n.count);
  same_flags = n.same_flags ∙ m.same_flags;
}

-- The loop ends in a state that has moved bytes.
abbrev pub Ends : Sending → Option Sending → Type 0
Ends s r = (s' : Sending) × (r ≡ some s') × Moves s s'

Ends-trans : (s s' : Sending) (r : Option Sending) → Moves s s' → Ends s' r → Ends s r
Ends-trans s s' r m (s'', e, n) = (s'', e, Moves-trans s s' s'' m n)

not-not : (b : Bool) → not b ≡ false → b ≡ true
not-not b e = ground (arith, e)

module _ (k : Socket) (server : Server) where
  next_round-Ends :
      (s : Sending) (r : WriteRound) (rest : Sending → Option Sending)
      → RoundMoves s r
      → ((s' : Sending) → Moves s s' → todo s'.client < todo s.client → Ends s' (rest s'))
      → Ends s (next_round k server r rest)
  next_round-Ends s (breaks s') rest m go = (s', refl, m)
  next_round-Ends s (tests_ s') rest m go =
      if_case (Ends s) (enough k server s') (some s') (rest s') (λ e. (s', refl, m.0))
        λ e. Ends-trans s s' (rest s') m.0 (go s' m.0 m.1)
  next_round-Ends s (continues s') rest m go = Ends-trans s s' (rest s') m.0 (go s' m.0 m.1)
  next_round-Ends s fault rest m go = absurd m

  pub write_loop-Ends :
      (fuel : ℕ) (s : Sending)
      → IsReply s.client
      → Filled s.client.reply
      → todo s.client < fuel
      → Ends s (write_loop k fuel server s)
  unfolding write_loop
  write_loop-Ends zero s is full h = absurd (omega arith)
  write_loop-Ends (suc fuel) s is full h =
      let rest : Sending → Option Sending = write_loop k fuel server in
      if_case (Ends s) (not (client_has_pending_replies s.client)) (some s)
        (next_round k server (write_round k s) rest) (λ e. (s, refl, Moves-refl s is full))
        λ e.
          next_round-Ends s (write_round k s) rest
            (write_round-Moves k s is full (not-not (client_has_pending_replies s.client) e))
            λ s' m less. write_loop-Ends fuel s' m.valid m.filled (omega arith)
