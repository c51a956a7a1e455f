-- ===== src/Sds/Write.antt =====
-- sds.c: the functions that create a string and those that write to its end.
pub mod Laws
pub mod Appends
pub mod Ends
use decompose_redis.Base.{
  ℕ, suc, ◌+◌, ◌-◌, ◌%◌, ◌≡◌, List, [], ◌∷◌, Option, some, none, leb, ltb, ◌==◌, if◌then◌else◌, ◌^◌,
  Bool, ◌&&◌, length, replicate,
}
use decompose_redis.Base.Int.{ℤ, pos, negsuc}
use decompose_redis.Base.Outcome.{Outcome, ok, null, fault, ◌>>=◌}
use decompose_redis.Sds.{
  SdsType, sds_type_5, sds_type_8, sds_type_16, sds_type_32, sds_type_64, Sds, size_mod, sds_bound,
  sds_hdr_size, sds_req_type, sdslen, sdsalloc, sdsavail, sdssetlen,
}
use decompose_redis.Sds.Memory.{Allocator, or_null, memcpy, read_bytes, poke}
use decompose_redis.Sds.Room.{sds_make_room_for, not_type_5, strlen}

-- The `init` argument of sdsnewlen: SDS_NOINIT, NULL, or the block that it points to.
pub data Init : Type 0 where
  noinit zeroed : Init
  bytes : List ℕ → Init

unfoldable pub newlen_type : ℕ → SdsType
newlen_type n = if n == 0 then not_type_5 (sds_req_type n) else sds_req_type n

-- `memset` on the new block stands before the test of `sh` for NULL, so it writes through NULL when
-- there is no memory.
abbrev pub new_block : Init → ℕ → Option (List ℕ) → Outcome (List ℕ)
new_block noinit n b = or_null b
new_block zeroed n none = fault
new_block zeroed n (some b) = memcpy b 0 (replicate (n + 1) 0)
new_block (bytes src) n b = or_null b

abbrev pub fill : Init → ℕ → List ℕ → Outcome (List ℕ)
fill noinit n b = ok b
fill zeroed n b = ok b
fill (bytes src) n b = if n == 0 then ok b else do t ← read_bytes src 0 n; memcpy b 0 t

module _ (m : Allocator) where
  unfoldable pub sdsnewlen : Init → ℕ → Outcome Sds
  sdsnewlen init n =
      let type = newlen_type n in
      do
        block ←
            new_block init n (m.malloc (sds_hdr_size type) ((sds_hdr_size type + n + 1) % size_mod))
        filled ← fill init n block
        buf ← poke filled n 0
        ok (record { type = type; len = n % sds_bound type; alloc = n % sds_bound type; buf = buf })

  unfoldable pub sdsempty : Outcome Sds
  sdsempty = sdsnewlen (bytes (0 ∷ [])) 0

  -- `none` is a NULL argument.
  unfoldable pub sdsnew : Option (List ℕ) → Outcome Sds
  sdsnew none = sdsnewlen zeroed 0
  sdsnew (some c) = do n ← strlen c; sdsnewlen (bytes c) n

  unfoldable pub sdsdup : Sds → Outcome Sds
  sdsdup s = sdsnewlen (bytes s.buf) (sdslen s)

  unfoldable pub sdsgrowzero : Sds → ℕ → Outcome Sds
  sdsgrowzero s n = if leb n (sdslen s) then ok s else do
    s' ← sds_make_room_for m s (n - sdslen s)
    buf ← memcpy s'.buf (sdslen s) (replicate (n - sdslen s + 1) 0)
    ok (sdssetlen (record s' { buf = buf }) n)

  -- `t` is a block outside the string.
  unfoldable pub sdscatlen : Sds → List ℕ → ℕ → Outcome Sds
  sdscatlen s t n = do
    s' ← sds_make_room_for m s n
    src ← read_bytes t 0 n
    buf ← memcpy s'.buf (sdslen s) src
    buf' ← poke buf ((sdslen s + n) % size_mod) 0
    ok (record (sdssetlen (record s' { buf = buf }) ((sdslen s + n) % size_mod)) { buf = buf' })

  unfoldable pub sdscat : Sds → List ℕ → Outcome Sds
  sdscat s c = do n ← strlen c; sdscatlen s c n

  unfoldable pub sdscatsds : Sds → Sds → Outcome Sds
  sdscatsds s t = sdscatlen s t.buf (sdslen t)

  unfoldable pub sdscpylen : Sds → List ℕ → ℕ → Outcome Sds
  sdscpylen s t n = do
    s' ← (if ltb (sdsalloc s) n then sds_make_room_for m s (n - sdslen s) else ok s)
    src ← read_bytes t 0 n
    buf ← memcpy s'.buf 0 src
    buf' ← poke buf n 0
    ok (sdssetlen (record s' { buf = buf' }) n)

  unfoldable pub sdscpy : Sds → List ℕ → Outcome Sds
  sdscpy s c = do n ← strlen c; sdscpylen s c n

-- The guard of the `assert` in sdsIncrLen, by type; the sums are those of the promoted operands.
abbrev incr_guard : SdsType → ℕ → ℕ → ℤ → Bool
incr_guard sds_type_5 len avail (pos n) = ltb 0 n && ltb (len + n) 32
incr_guard sds_type_8 len avail (pos n) = leb n avail
incr_guard sds_type_16 len avail (pos n) = leb n avail
incr_guard sds_type_32 len avail (pos n) = leb (n % 2 ^ 32) avail
incr_guard sds_type_64 len avail (pos n) = leb n avail
incr_guard sds_type_5 len avail (negsuc n) = leb ((n + 1) % 2 ^ 32) len
incr_guard sds_type_8 len avail (negsuc n) = leb ((n + 1) % 2 ^ 32) len
incr_guard sds_type_16 len avail (negsuc n) = leb ((n + 1) % 2 ^ 32) len
incr_guard sds_type_32 len avail (negsuc n) = leb ((n + 1) % 2 ^ 32) len
incr_guard sds_type_64 len avail (negsuc n) = leb (n + 1) len

abbrev incr_len : SdsType → ℕ → ℤ → ℕ
incr_len t len (pos n) = (len + n) % sds_bound t
incr_len t len (negsuc n) = (len + size_mod - (n + 1)) % sds_bound t

-- Where the nul byte goes: at the length, except that type 5 keeps its length unreduced there.
abbrev incr_end : SdsType → ℕ → ℤ → ℕ
incr_end sds_type_5 len (pos n) = (len + n) % size_mod
incr_end sds_type_5 len (negsuc n) = (len + size_mod - (n + 1)) % size_mod
incr_end sds_type_8 len incr = incr_len sds_type_8 len incr
incr_end sds_type_16 len incr = incr_len sds_type_16 len incr
incr_end sds_type_32 len incr = incr_len sds_type_32 len incr
incr_end sds_type_64 len incr = incr_len sds_type_64 len incr

-- A failed assertion stops the program: `none`.
unfoldable pub sds_incr_len : Sds → ℤ → Option (Outcome Sds)
sds_incr_len s incr =
    if incr_guard s.type s.len (sdsavail s) incr
    then some (do
      buf ← poke s.buf (incr_end s.type s.len incr) 0
      ok (record s { len = incr_len s.type s.len incr; buf = buf }))
    else none
