-- ===== src/Net/Request/Feed.antt =====
-- networking.c: a request that arrives in pieces is read as it is in one piece.
use decompose_redis.Base.{ℕ, ◌≡◌, Bool, true, false, List, [], ◌∷◌, Option, some, none}
use decompose_redis.Net.{State}
use decompose_redis.Net.Reply.{Platform}
use decompose_redis.Net.Request.{Numbers, process_multibulk_buffer}
use decompose_redis.Net.Request.Line.{Texts}
use decompose_redis.Net.Request.Resume.{receive, concat}
use decompose_redis.Net.Request.Args.{Ready}

abbrev pub Feeding : Type 0
Feeding = Option (Bool × State × List (List ℕ))

abbrev feed_next : Option (Bool × State) → List (List ℕ) → (State → Feeding) → Feeding
feed_next none chunks rest = none
feed_next (some (true, st)) chunks rest = some (true, st, chunks)
feed_next (some (false, st)) chunks rest = rest st

-- processMultibulkBuffer after each piece that arrives, until it returns C_OK; with the state the
-- pieces that are left.
unfoldable pub feed : Platform → Numbers → List (List ℕ) → State → Feeding
feed p num [] st = some (false, st, [])
feed p num (chunk ∷ chunks) st =
    feed_next (process_multibulk_buffer p num (receive chunk st)) chunks (feed p num chunks)

module _ (p : Platform) (num : Numbers) (tx : Texts num) where
  -- The request has been read, with what has arrived and not been read, or not yet arrived, behind it.
  abbrev pub Fed : List (List ℕ) → List ℕ → Feeding → Type 0
  Fed args more r =
      (st : State) × (chunks : List (List ℕ)) × (r ≡ some (true, st, chunks))
      × Ready p num tx st.client args more (concat chunks)
