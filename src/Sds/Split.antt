-- ===== src/Sds/Split.antt =====
-- sds.c: strings cut at a separator, joined, and compared. A list of tokens stands for the array of
-- pointers to them: `slots` counts its places, and a write past them is a fault. Of its own block
-- only the size is asked for, 8 bytes for each place.
pub mod Laws
pub mod Join
pub mod Compare
mod Samples
use decompose_redis.Base.{
  ℕ, zero, suc, ◌+◌, ◌-◌, ◌*◌, ◌%◌, ◌^◌, ◌≡◌, Bool, true, false, not, ◌&&◌, ◌||◌, List, [], ◌∷◌,
  Option, some, none, leb, ltb, ◌==◌, if◌then◌else◌, length, drop, take,
}
use decompose_redis.Base.Int.{ℤ, pos, negsuc}
use decompose_redis.Base.Outcome.{Outcome, ok, null, fault, used, ◌>>=◌}
use decompose_redis.Sds.{Sds, size_mod, sdslen}
use decompose_redis.Sds.Memory.{Allocator, or_null, read_bytes}
use decompose_redis.Sds.Write.{Init, bytes, sdsnewlen, sdsempty, sdscat, sdscatlen, sdscatsds}

-- memcmp(a, b, n) == 0, over the two blocks' bytes.
unfoldable pub same_bytes : List ℕ → List ℕ → Bool
same_bytes [] [] = true
same_bytes [] (y ∷ b) = false
same_bytes (x ∷ a) [] = false
same_bytes (x ∷ a) (y ∷ b) = x == y && same_bytes a b

module _ (m : Allocator) (s : List ℕ) (len : ℕ) (sep : List ℕ) (seplen : ℕ) where
  -- `tokens[elements] = sdsnewlen(s+start, n)`.
  unfoldable pub new_token : (slots elements start n : ℕ) → Outcome Sds
  new_token slots elements start n = do
    part ← read_bytes s start n
    t ← sdsnewlen m (bytes part) n
    if ltb elements slots then ok t else fault

  -- Twice the places if there is no room for the next element and the final one. The counts have the
  -- type int: places past its range are undefined, a fault here, and the elements are fewer.
  unfoldable pub more_slots : (slots elements : ℕ) → Outcome ℕ
  more_slots slots elements =
      if ltb slots (elements + 2)
      then if ltb (slots * 2) (2 ^ 31)
        then (or_null (m.realloc 0 [] ((8 * (slots * 2)) % size_mod)) >>= λ block. ok (slots * 2))
        else fault
      else ok slots

  -- The test of a single byte and the memcmp both ask whether the separator stands at `j`.
  unfoldable pub sep_at : ℕ → Outcome Bool
  sep_at j = do
    here ← read_bytes s j seplen
    want ← read_bytes sep 0 seplen
    ok (same_bytes here want)

  -- The `for` over `j`.
  unfoldable pub split_loop : (fuel j start slots elements : ℕ) → Outcome (List Sds)
  split_loop zero j start slots elements = fault
  split_loop (suc fuel) j start slots elements = elim (ltb j (len - (seplen - 1))) [
    | false ↦ do t ← new_token slots elements start (len - start); ok (t ∷ [])
    | true ↦ do
      slots' ← more_slots slots elements
      found ← sep_at j
      elim found [
        | true ↦ do
          t ← new_token slots' elements start (j - start)
          ts ← split_loop fuel (j + seplen) (j + seplen) slots' (elements + 1)
          ok (t ∷ ts)
        | false ↦ split_loop fuel (j + 1) start slots' elements
      ]
  ]

module _ (m : Allocator) where
  split_len : List ℕ → ℕ → List ℕ → ℕ → Outcome (List Sds)
  split_len s len sep seplen = do
    block ← or_null (m.malloc 0 ((8 * 5) % size_mod))
    if len == 0 then ok [] else split_loop m s len sep seplen (len + 1) 0 0 5 0

  -- Tokens are read from the block `s` of `len` bytes, at each place where `sep` stands in it.
  unfoldable pub sdssplitlen : List ℕ → ℤ → List ℕ → ℤ → Outcome (List Sds)
  unfolding split_len
  sdssplitlen s (negsuc len) sep seplen = null
  sdssplitlen s (pos len) sep (negsuc seplen) = null
  sdssplitlen s (pos len) sep (pos zero) = null
  sdssplitlen s (pos len) sep (pos (suc seplen)) = split_len s len sep (suc seplen)

  -- `join` is what the calls so far came back with, which the next call uses with no test for NULL.
  join_loop : Outcome Sds → List (List ℕ) → List ℕ → Outcome Sds
  join_loop join [] sep = join
  join_loop join (a ∷ []) sep = used join >>= λ s. sdscat m s a
  join_loop join (a ∷ b ∷ argv) sep =
      join_loop (used (used join >>= λ s. sdscat m s a) >>= λ s. sdscat m s sep) (b ∷ argv) sep

  unfoldable pub sdsjoin : List (List ℕ) → List ℕ → Outcome Sds
  unfolding join_loop
  sdsjoin argv sep = join_loop (sdsempty m) argv sep

  unfoldable pub joinsds_loop : Outcome Sds → List Sds → List ℕ → ℕ → Outcome Sds
  joinsds_loop join [] sep seplen = join
  joinsds_loop join (a ∷ []) sep seplen = used join >>= λ s. sdscatsds m s a
  joinsds_loop join (a ∷ b ∷ argv) sep seplen =
      joinsds_loop (used (used join >>= λ s. sdscatsds m s a) >>= λ s. sdscatlen m s sep seplen)
        (b ∷ argv) sep seplen

  unfoldable pub sdsjoinsds : List Sds → List ℕ → ℕ → Outcome Sds
  sdsjoinsds argv sep seplen = joinsds_loop (sdsempty m) argv sep seplen

-- memcmp: the order of the first two bytes that differ, as -1, 0 or 1.
unfoldable pub memcmp : List ℕ → List ℕ → ℕ → ℤ
memcmp a b zero = pos 0
memcmp [] b (suc n) = pos 0
memcmp (x ∷ a) [] (suc n) = pos 0
memcmp (x ∷ a) (y ∷ b) (suc n) =
    let rest = memcmp a b n in if ltb x y then negsuc 0 else if ltb y x then pos 1 else rest

abbrev pub is_zero : ℤ → Bool
is_zero (pos n) = n == 0
is_zero (negsuc n) = false

unfoldable pub sdscmp : Sds → Sds → ℤ
sdscmp s1 s2 =
    let l1 = sdslen s1 in
    let l2 = sdslen s2 in
    let cmp = memcmp s1.buf s2.buf (if ltb l1 l2 then l1 else l2) in
    if is_zero cmp
    then (if ltb l2 l1 then pos 1 else if ltb l1 l2 then negsuc 0 else pos 0)
    else cmp
