-- ===== src/Sds/Edit.antt =====
-- sds.c: the functions that change a string in place. `tolower` and `toupper` belong to the C library
-- and are arguments. An index into the string counts from the start of `buf`.
pub mod Laws
pub mod Trim
use decompose_redis.Base.{
  ℕ, zero, suc, ◌+◌, ◌-◌, ◌≡◌, Bool, true, false, ◌&&◌, ◌||◌, List, [], ◌∷◌, ◌++◌, map, leb, ltb,
  ◌==◌, if◌then◌else◌, length, take, drop, get_or,
}
use decompose_redis.Base.Int.{ℤ, pos, negsuc}
use decompose_redis.Base.Outcome.{Outcome, ok, ◌>>=◌}
use decompose_redis.Sds.{Sds, sdslen, sdssetlen}
use decompose_redis.Sds.Memory.{memcpy, read_bytes, poke}

-- `strchr(cset, c)` is not NULL: `c` is in the set, or is the nul that ends it.
unfoldable pub strchr : List ℕ → ℕ → Bool
strchr [] c = c == 0
strchr (x ∷ cset) c = c == x || strchr cset c

-- `while(sp <= end && strchr(cset, *sp)) sp++`, over the bytes that are left.
unfoldable pub trim_left : List ℕ → List ℕ → ℕ
trim_left cset [] = 0
trim_left cset (c ∷ p) = let rest = trim_left cset p in if strchr cset c then rest + 1 else 0

-- `while(ep > sp && strchr(cset, *ep)) ep--`, over the position behind `ep`.
unfoldable pub trim_right : List ℕ → List ℕ → ℕ → ℕ → ℕ
trim_right cset b sp zero = zero
trim_right cset b sp (suc ep) =
    let rest = trim_right cset b sp ep in
    if ltb sp ep && strchr cset (get_or b ep 0) then rest else suc ep

unfoldable pub sdstrim : Sds → List ℕ → Outcome Sds
sdstrim s cset =
    let sp = trim_left cset (take (sdslen s) s.buf) in
    let ep = trim_right cset s.buf sp (sdslen s) in
    let len = ep - sp in
    do
      moved ← (if sp == 0 then ok s.buf else read_bytes s.buf sp len >>= memcpy s.buf 0)
      buf ← poke moved len 0
      ok (sdssetlen (record s { buf = buf }) len)

-- A negative index counts from the end; one before the start is 0.
unfoldable pub range_index : ℕ → ℤ → ℕ
range_index len (pos n) = n
range_index len (negsuc n) = len - (n + 1)

abbrev pub span : ℕ → ℕ → ℕ
span start end = if ltb end start then 0 else end - start + 1

-- The start and the length of the part that sdsrange keeps.
unfoldable pub range_part : ℕ → ℕ → ℕ → ℕ × ℕ
range_part len start end =
    if span start end == 0
    then (0, 0)
    else if leb len start
    then (start, 0)
    else if leb len end
    then (start, span start (len - 1))
    else (start, span start end)

unfoldable pub sdsrange : Sds → ℤ → ℤ → Outcome Sds
unfolding range_index range_part
sdsrange s start end =
    let len = sdslen s in
    let part = range_part len (range_index len start) (range_index len end) in
    if len == 0 then ok s else do
      moved ←
          (if part.0 == 0 || part.1 == 0
            then ok s.buf
            else (read_bytes s.buf part.0 part.1 >>= memcpy s.buf 0))
      buf ← poke moved part.1 0
      ok (sdssetlen (record s { buf = buf }) part.1)

-- `for (j = 0; j < len; j++) s[j] = f(s[j])`
unfoldable pub map_bytes : (ℕ → ℕ) → Sds → Outcome Sds
map_bytes f s = do
  old ← read_bytes s.buf 0 (sdslen s)
  buf ← memcpy s.buf 0 (map f old)
  ok (record s { buf = buf })

unfoldable pub sdstolower : (ℕ → ℕ) → Sds → Outcome Sds
sdstolower tolower s = map_bytes tolower s

unfoldable pub sdstoupper : (ℕ → ℕ) → Sds → Outcome Sds
sdstoupper toupper s = map_bytes toupper s

-- The first of the `setlen` bytes of `from` that is `c` gives the byte of `to` at its place.
unfoldable pub map_char : List ℕ → List ℕ → ℕ → ℕ → ℕ
map_char from to zero c = c
map_char [] to (suc n) c = c
map_char (x ∷ from) [] (suc n) c = c
map_char (x ∷ from) (y ∷ to) (suc n) c = if c == x then y else map_char from to n c

unfoldable pub sdsmapchars : Sds → List ℕ → List ℕ → ℕ → Outcome Sds
unfolding map_char
sdsmapchars s from to setlen = map_bytes (map_char from to setlen) s
