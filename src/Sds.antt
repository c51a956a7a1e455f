-- ===== src/Sds.antt =====
-- sds.h: the header of a dynamic string and its accessors. `Sds` is one string: the type bits of
-- its flags byte, the `len` and `alloc` of its header, and the bytes from `buf` to the end of the
-- block. Type 5 keeps its length in the flags byte and has no `alloc` field: its `alloc` is not
-- read. A field holds a number below `2 ^ w` for its width `w`, so a write is reduced.
pub mod Memory
pub mod Room
pub mod Write
pub mod Ctype
pub mod Repr
pub mod Edit
pub mod Split
mod Samples
use decompose_redis.Base.{
  ℕ, ◌+◌, ◌-◌, ◌*◌, ◌/◌, ◌%◌, ◌^◌, ◌<◌, ◌≤◌, ◌≡◌, Bool, true, false, List, Option, some, none, ltb,
  leb, if◌then◌else◌, length, take, get_elem?,
}

pub data SdsType : Type 0 where
  sds_type_5 sds_type_8 sds_type_16 sds_type_32 sds_type_64 : SdsType

pub record Sds : Type 0 where
  pub type : SdsType
  pub len : ℕ
  pub alloc : ℕ
  pub buf : List ℕ

-- The numbers that the length field of a header holds lie below this.
abbrev pub sds_bound : SdsType → ℕ
sds_bound sds_type_5 = 2 ^ 5
sds_bound sds_type_8 = 2 ^ 8
sds_bound sds_type_16 = 2 ^ 16
sds_bound sds_type_32 = 2 ^ 32
sds_bound sds_type_64 = 2 ^ 64

-- `size_t` has 64 bits.
abbrev pub size_mod : ℕ
size_mod = 2 ^ 64

abbrev pub sds_max_prealloc : ℕ
sds_max_prealloc = 1024 * 1024

-- `sizeof` of the packed headers.
unfoldable pub sds_hdr_size : SdsType → ℕ
sds_hdr_size sds_type_5 = 1
sds_hdr_size sds_type_8 = 3
sds_hdr_size sds_type_16 = 5
sds_hdr_size sds_type_32 = 9
sds_hdr_size sds_type_64 = 17

-- On a 64-bit build, where LONG_MAX is LLONG_MAX.
unfoldable pub sds_req_type : ℕ → SdsType
sds_req_type n =
    if ltb n (2 ^ 5)
    then sds_type_5
    else if ltb n (2 ^ 8)
    then sds_type_8
    else if ltb n (2 ^ 16)
    then sds_type_16
    else if ltb n (2 ^ 32)
    then sds_type_32
    else sds_type_64

abbrev pub sdslen : Sds → ℕ
sdslen s = s.len

abbrev alloc_of : SdsType → ℕ → ℕ → ℕ
alloc_of sds_type_5 len alloc = len
alloc_of sds_type_8 len alloc = alloc
alloc_of sds_type_16 len alloc = alloc
alloc_of sds_type_32 len alloc = alloc
alloc_of sds_type_64 len alloc = alloc

abbrev pub sdsalloc : Sds → ℕ
sdsalloc s = alloc_of s.type s.len s.alloc

-- `sh->alloc - sh->len`, as a `size_t`: of 32 bits under type 32, of 64 bits under the others.
abbrev avail_of : SdsType → ℕ → ℕ → ℕ
avail_of sds_type_5 len alloc = 0
avail_of sds_type_8 len alloc = (alloc + 2 ^ 64 - len) % 2 ^ 64
avail_of sds_type_16 len alloc = (alloc + 2 ^ 64 - len) % 2 ^ 64
avail_of sds_type_32 len alloc = (alloc + 2 ^ 32 - len) % 2 ^ 32
avail_of sds_type_64 len alloc = (alloc + 2 ^ 64 - len) % 2 ^ 64

unfoldable pub sdsavail : Sds → ℕ
sdsavail s = avail_of s.type s.len s.alloc

-- Under type 5 the length is shifted into an `unsigned char`, which keeps its 5 low bits.
unfoldable pub sdssetlen : Sds → ℕ → Sds
sdssetlen s n = record s { len = n % sds_bound s.type }

unfoldable pub sdsinclen : Sds → ℕ → Sds
sdsinclen s n = record s { len = (s.len + n) % sds_bound s.type }

abbrev set_alloc_of : SdsType → ℕ → ℕ → ℕ
set_alloc_of sds_type_5 old n = old
set_alloc_of sds_type_8 old n = n % 2 ^ 8
set_alloc_of sds_type_16 old n = n % 2 ^ 16
set_alloc_of sds_type_32 old n = n % 2 ^ 32
set_alloc_of sds_type_64 old n = n % 2 ^ 64

unfoldable pub sdssetalloc : Sds → ℕ → Sds
sdssetalloc s n = record s { alloc = set_alloc_of s.type s.alloc n }

-- The bytes that the string stands for.
abbrev pub content : Sds → List ℕ
content s = take s.len s.buf

-- The layout that every function of sds.c expects and keeps: the length fits the allocation, the
-- allocation fits its field, the block has a byte more than the allocation at least, and a nul byte
-- stands behind the content.
pub record IsValid (s : Sds) : Type 0 where
  pub within : s.len ≤ sdsalloc s
  pub fits : sdsalloc s < sds_bound s.type
  pub room : sdsalloc s + 1 ≤ length s.buf
  pub terminated : get_elem? s.buf s.len ≡ some 0

-- A valid string with the content `bs`.
pub record Holds (bs : List ℕ) (s : Sds) : Type 0 where
  pub valid : IsValid s
  pub holds : content s ≡ bs
