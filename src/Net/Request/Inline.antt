-- ===== src/Net/Request/Inline.antt =====
-- networking.c: processInlineBuffer reads one line of words.
use decompose_redis.Base.{
  ℕ, ◌-◌, ◌≡◌, ◌⊎◌, true, false, List, [], ◌∷◌, Option, some, ◌==◌, if◌then◌else◌, length, take,
}
use decompose_redis.Sds.Ctype.{Ctype}
use decompose_redis.Sds.Repr.{Parsed, parsed, unbalanced}
use decompose_redis.Net.{State}
use decompose_redis.Net.Reply.{Platform}
use decompose_redis.Net.Request.{unread, Step, goes, breaks, has_cr}

-- No line end and no nul.
abbrev pub IsOneLine : List ℕ → Type 0
IsOneLine [] = Unit {0}
IsOneLine (x ∷ s) = (((x == 0x0a) ≡ false) × ((x == 0) ≡ false)) × IsOneLine s

-- The line less a CR at its end.
abbrev pub chomp : List ℕ → List ℕ
chomp [] = []
chomp (x ∷ []) = if x == 0x0d then [] else x ∷ []
chomp (x ∷ y ∷ line) = x ∷ chomp (y ∷ line)

chomped : List ℕ → List ℕ
chomped line = if has_cr line (length line) then take (length line - 1) line else line

-- The words that have a byte.
abbrev pub with_bytes : List (List ℕ) → List (List ℕ)
with_bytes [] = []
with_bytes (a ∷ argv) = if length a == 0 then with_bytes argv else a ∷ with_bytes argv

module _ (p : Platform) (t : Ctype) where
  -- The words of the line are the arguments and the line has been read; or the quotes are unbalanced,
  -- and the client is closed after the reply that says so.
  abbrev pub ReadsLine : State → Parsed (List (List ℕ)) → List ℕ → Option Step → Type 0
  ReadsLine st words rest r =
      ((argv : List (List ℕ)) × (words ≡ parsed argv)
        × (st' : State) × (r ≡ some (goes st'))
        × (st'.client.argv ≡ with_bytes argv)
        × (unread st'.client ≡ rest))
      ⊎ ((words ≡ unbalanced)
          × (st' : State) × (r ≡ some (breaks st'))
          × (st'.client.flags.close_after_reply ≡ true))
