-- ===== src/Sds/Room.antt =====
-- sds.c: the functions that change how much room a string has.
pub mod Laws
use decompose_redis.Base.{ℕ, ◌+◌, ◌*◌, ◌%◌, ◌≡◌, List, [], ◌∷◌, leb, ltb, if◌then◌else◌, take, ◌==◌}
use decompose_redis.Base.Outcome.{Outcome, ok, null, fault, ◌>>=◌}
use decompose_redis.Sds.{
  SdsType, sds_type_5, sds_type_8, sds_type_16, sds_type_32, sds_type_64, Sds, size_mod,
  sds_max_prealloc, sds_hdr_size, sds_req_type, sdslen, sdsalloc, sdsavail, sdssetlen, sdssetalloc,
}
use decompose_redis.Sds.Memory.{Allocator, or_null, memcpy, read_bytes, poke}

-- The number of a type, as the flags byte holds it.
abbrev pub type_code : SdsType → ℕ
type_code sds_type_5 = 0
type_code sds_type_8 = 1
type_code sds_type_16 = 2
type_code sds_type_32 = 3
type_code sds_type_64 = 4

abbrev pub not_type_5 : SdsType → SdsType
not_type_5 sds_type_5 = sds_type_8
not_type_5 sds_type_8 = sds_type_8
not_type_5 sds_type_16 = sds_type_16
not_type_5 sds_type_32 = sds_type_32
not_type_5 sds_type_64 = sds_type_64

-- Twice the needed length below SDS_MAX_PREALLOC, that much more above it.
unfoldable pub prealloc : ℕ → ℕ
prealloc n =
    if ltb n sds_max_prealloc then (n * 2) % size_mod else (n + sds_max_prealloc) % size_mod

module _ (m : Allocator) where
  -- The block grows under its old header.
  unfoldable pub resize : Sds → ℕ → Outcome Sds
  resize s n = do
    buf ← or_null (m.realloc (sds_hdr_size s.type) s.buf ((sds_hdr_size s.type + n + 1) % size_mod))
    ok (sdssetalloc (record s { buf = buf }) n)

  -- A new block under a header of another type. Until `sdssetlen` and `sdssetalloc` have written
  -- them its `len` and `alloc` stand for whatever the memory holds.
  unfoldable pub move : Sds → SdsType → ℕ → Outcome Sds
  move s type n = do
    fresh ← or_null (m.malloc (sds_hdr_size type) ((sds_hdr_size type + n + 1) % size_mod))
    old ← read_bytes s.buf 0 (sdslen s + 1)
    buf ← memcpy fresh 0 old
    ok (sdssetalloc (sdssetlen (record s { type = type; buf = buf }) (sdslen s)) n)

  unfoldable pub sds_make_room_for : Sds → ℕ → Outcome Sds
  sds_make_room_for s addlen =
      let newlen = prealloc ((sdslen s + addlen) % size_mod) in
      let type = not_type_5 (sds_req_type newlen) in
      if leb addlen (sdsavail s)
      then ok s
      else if type_code s.type == type_code type
      then resize s newlen
      else move s type newlen

  unfoldable pub sds_remove_free_space : Sds → Outcome Sds
  sds_remove_free_space s =
      let len = sdslen s in
      let type = sds_req_type len in
      if sdsavail s == 0
      then ok s
      else if type_code s.type == type_code type
      then resize s len
      else if ltb 1 (type_code type)
      then resize s len
      else move s type len

-- The whole allocation, in bytes.
unfoldable pub sds_alloc_size : Sds → ℕ
sds_alloc_size s = (sds_hdr_size s.type + sdsalloc s + 1) % size_mod

-- `strlen` of libc: a `fault` when the block has no nul byte, and it reads past the end.
unfoldable pub strlen : List ℕ → Outcome ℕ
strlen [] = fault
strlen (c ∷ b) = if c == 0 then ok 0 else do n ← strlen b; ok (n + 1)

unfoldable pub sds_update_len : Sds → Outcome Sds
unfolding strlen
sds_update_len s = do n ← strlen s.buf; ok (sdssetlen s n)

unfoldable pub sds_clear : Sds → Outcome Sds
sds_clear s = do buf ← poke s.buf 0 0; ok (sdssetlen (record s { buf = buf }) 0)
