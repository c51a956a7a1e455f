-- ===== src/Endian.antt =====
-- endianconv.c: byte order. A block is the list of its bytes; a read or write outside it is a fault.
-- The host is little endian: an integer lies in memory with its lowest byte first.
pub mod Laws
mod Samples
use decompose_redis.Base.{
  ℕ, zero, suc, ◌+◌, ◌*◌, ◌/◌, ◌%◌, List, [], ◌∷◌, none, some, get_elem?, set,
}
use decompose_redis.Base.Outcome.{Outcome, ok, null, fault, ◌>>=◌}

-- `t = x[i]; x[i] = x[j]; x[j] = t`
unfoldable pub swap_bytes : ℕ → ℕ → List ℕ → Outcome (List ℕ)
swap_bytes i j x = elim (get_elem? x i) [
  | none ↦ fault
  | some t ↦ elim (get_elem? x j) [ none ↦ fault | some u ↦ ok (set (set x i u) j t) ]
]

unfoldable pub memrev16 : List ℕ → Outcome (List ℕ)
memrev16 p = swap_bytes 0 1 p

unfoldable pub memrev32 : List ℕ → Outcome (List ℕ)
memrev32 p = do x ← swap_bytes 0 3 p; swap_bytes 1 2 x

unfoldable pub memrev64 : List ℕ → Outcome (List ℕ)
memrev64 p = do x ← swap_bytes 0 7 p; y ← swap_bytes 1 6 x; z ← swap_bytes 2 5 y; swap_bytes 3 4 z

-- The `n` bytes of an integer in memory, and the integer that they are.
abbrev pub stored : ℕ → ℕ → List ℕ
stored zero v = []
stored (suc n) v = v % 256 ∷ stored n (v / 256)

abbrev pub loaded : List ℕ → ℕ
loaded [] = 0
loaded (c ∷ b) = c + 256 * loaded b

unfoldable pub intrev16 : ℕ → Outcome ℕ
intrev16 v = do b ← memrev16 (stored 2 v); ok (loaded b)

unfoldable pub intrev32 : ℕ → Outcome ℕ
intrev32 v = do b ← memrev32 (stored 4 v); ok (loaded b)

unfoldable pub intrev64 : ℕ → Outcome ℕ
intrev64 v = do b ← memrev64 (stored 8 v); ok (loaded b)
