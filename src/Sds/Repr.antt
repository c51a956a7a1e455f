-- ===== src/Sds/Repr.antt =====
-- sds.c: sdscatrepr, which prints bytes as a quoted literal, and sdssplitargs, which reads a line
-- of words and literals. 0x5c is the backslash, 0x22 the double quote and 0x27 the single quote.
-- A line is a C string: the list of its bytes up to the nul, which is read as 0 behind its end. The
-- tokens are lists of bytes: what the sds strings that the code builds byte by byte hold.
pub mod RoundTrip
pub mod Append
pub mod Fuel
use decompose_redis.Base.{
  ℕ, zero, suc, ◌+◌, ◌-◌, ◌*◌, ◌/◌, ◌%◌, ◌≡◌, Bool, true, false, not, ◌&&◌, ◌||◌, List, [], ◌∷◌,
  ◌++◌, Option, some, none, leb, ltb, ◌==◌, if◌then◌else◌, length, drop, get_or,
}
use decompose_redis.Base.Outcome.{Outcome, ok, used, ◌>>=◌}
use decompose_redis.Sds.{Sds}
use decompose_redis.Sds.Memory.{Allocator}
use decompose_redis.Sds.Write.{sdscatlen}
use decompose_redis.Sds.Ctype.{Ctype}

-- One digit of printf's `%02x`.
unfoldable pub hex_digit : ℕ → ℕ
hex_digit n = if ltb n 10 then b'0' + n else b'a' + (n - 10)

module _ (t : Ctype) where
  -- What sdscatrepr appends for one byte.
  unfoldable pub escape : ℕ → List ℕ
  escape c =
      if c == 0x5c || c == 0x22
      then 0x5c ∷ c ∷ []
      else if c == 0x0a
      then 0x5c ∷ b'n' ∷ []
      else if c == 0x0d
      then 0x5c ∷ b'r' ∷ []
      else if c == 0x09
      then 0x5c ∷ b't' ∷ []
      else if c == 0x07
      then 0x5c ∷ b'a' ∷ []
      else if c == 0x08
      then 0x5c ∷ b'b' ∷ []
      else if t.isprint c
      then c ∷ []
      else 0x5c ∷ b'x' ∷ hex_digit (c / 16) ∷ hex_digit (c % 16) ∷ []

  unfoldable pub escape_all : List ℕ → List ℕ
  escape_all [] = []
  escape_all (c ∷ p) = escape c ++ escape_all p

  repr_loop : Allocator → Sds → List ℕ → Outcome Sds
  repr_loop m s [] = ok s
  repr_loop m s (c ∷ p) =
      used (sdscatlen m s (escape c) (length (escape c))) >>= λ s'. repr_loop m s' p

  -- `p` is the block of `len` bytes to print. What a call gives is used by the next one, with no test
  -- for NULL.
  unfoldable pub sdscatrepr : Allocator → Sds → List ℕ → Outcome Sds
  unfolding repr_loop
  sdscatrepr m s p = do
    opened ← used (sdscatlen m s (0x22 ∷ []) 1)
    printed ← repr_loop m opened p
    sdscatlen m printed (0x22 ∷ []) 1

unfoldable pub is_hex_digit : ℕ → Bool
is_hex_digit c =
    (leb b'0' c && leb c b'9') || (leb b'a' c && leb c b'f') || (leb b'A' c && leb c b'F')

-- The sixteen cases of the switch, by range.
unfoldable pub hex_digit_to_int : ℕ → ℕ
hex_digit_to_int c =
    if leb b'0' c && leb c b'9'
    then c - b'0'
    else if leb b'a' c && leb c b'f'
    then c - b'a' + 10
    else if leb b'A' c && leb c b'F'
    then c - b'A' + 10
    else 0

unfoldable pub unescape : ℕ → ℕ
unescape c =
    if c == b'n'
    then 0x0a
    else if c == b'r'
    then 0x0d
    else if c == b't'
    then 0x09
    else if c == b'b'
    then 0x08
    else if c == b'a'
    then 0x07
    else c

-- `inq` and `insq` of the source; both are never set at once.
pub data Quote : Type 0 where
  bare inq insq : Quote

-- One round of the token loop: an error, the end of the token after `n` bytes of the line, or `n`
-- bytes read that add `bs` to the token.
pub data Round : Type 0 where
  failed : Round
  closes : ℕ → Round
  goes : Quote → ℕ → List ℕ → Round

module _ (t : Ctype) where
  -- A closing quote must be followed by a space or the end of the line.
  close_round : List ℕ → Round
  close_round p =
      if not (get_or p 1 0 == 0) && not (t.isspace (get_or p 1 0)) then failed else closes 1

  unfoldable pub token_round : Quote → List ℕ → Round
  unfolding close_round
  token_round inq p =
      if get_or p 0 0 == 0x5c
        && get_or p 1 0 == b'x'
        && is_hex_digit (get_or p 2 0)
        && is_hex_digit (get_or p 3 0)
      then goes inq 4
          ((hex_digit_to_int (get_or p 2 0) * 16 + hex_digit_to_int (get_or p 3 0)) ∷ [])
      else if get_or p 0 0 == 0x5c && not (get_or p 1 0 == 0)
      then goes inq 2 (unescape (get_or p 1 0) ∷ [])
      else if get_or p 0 0 == 0x22
      then close_round p
      else if get_or p 0 0 == 0
      then failed
      else goes inq 1 (get_or p 0 0 ∷ [])
  token_round insq p =
      if get_or p 0 0 == 0x5c && get_or p 1 0 == 0x27
      then goes insq 2 (0x27 ∷ [])
      else if get_or p 0 0 == 0x27
      then close_round p
      else if get_or p 0 0 == 0
      then failed
      else goes insq 1 (get_or p 0 0 ∷ [])
  token_round bare p =
      if get_or p 0 0 == b' '
        || get_or p 0 0 == 0x0a
        || get_or p 0 0 == 0x0d
        || get_or p 0 0 == 0x09
      then closes 1
      else if get_or p 0 0 == 0
      then closes 0
      else if get_or p 0 0 == 0x22
      then goes inq 1 []
      else if get_or p 0 0 == 0x27
      then goes insq 1 []
      else goes bare 1 (get_or p 0 0 ∷ [])

-- What came of a line: the tokens, the `err` exit, or no more fuel.
pub data Parsed {ℓ} (A : Type ℓ) : Type ℓ where
  parsed : A → Parsed A
  unbalanced : Parsed A
  out_of_fuel : Parsed A

module _ (t : Ctype) where
  -- `while (!done)`: the rest of the line and the token.
  unfoldable pub token_loop : ℕ → Quote → List ℕ → List ℕ → Parsed (List ℕ × List ℕ)
  token_loop zero q p current = out_of_fuel
  token_loop (suc f) q p current = elim (token_round t q p) [
    | failed ↦ unbalanced
    | closes n ↦ parsed (drop n p, current)
    | goes q' n bs ↦ token_loop f q' (drop n p) (current ++ bs)
  ]

  unfoldable pub skip_blanks : List ℕ → List ℕ
  skip_blanks [] = []
  skip_blanks (c ∷ p) = if t.isspace c then skip_blanks p else c ∷ p

  unfoldable pub args_loop : ℕ → List ℕ → List (List ℕ) → Parsed (List (List ℕ))
  args_loop zero p vector = out_of_fuel
  args_loop (suc f) p vector = elim (skip_blanks p) [
    | [] ↦ parsed vector
    | c ∷ r ↦ elim (token_loop (length (c ∷ r) + 1) bare (c ∷ r) []) [
      | unbalanced ↦ unbalanced
      | out_of_fuel ↦ out_of_fuel
      | parsed (rest, current) ↦ args_loop f rest (vector ++ current ∷ [])
    ]
  ]

  unfoldable pub sdssplitargs : List ℕ → Parsed (List (List ℕ))
  unfolding token_loop skip_blanks args_loop
  sdssplitargs line = args_loop (length line + 1) line []
