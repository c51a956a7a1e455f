-- ===== src/Sds/Memory.antt =====
-- The blocks that sds.c works on. `s_malloc` and `s_realloc` are the allocator that sdsalloc.h chooses
-- at compile time: a parameter with the documented laws of malloc and realloc, since sds.c tests for
-- NULL whichever it is. Of the zmalloc.c that the build chooses only its handler decides whether a
-- refused request comes back; the one it starts with stops the program. A block is named by
-- the bytes behind its first `hdr` bytes, its header. Reads and writes outside a block are faults.
pub mod Laws
use decompose_redis.Base.{
  ℕ, suc, zero, ◌+◌, ◌-◌, ◌≤◌, ◌<◌, ◌≡◌, List, [], ◌∷◌, Option, some, none, leb, ltb, if◌then◌else◌,
  length, take, drop, set,
}
use decompose_redis.Base.Outcome.{Outcome, ok, null, fault}

pub record Allocator : Type 0 where
  pub malloc : (hdr size : ℕ) → Option (List ℕ)
  pub realloc : (hdr : ℕ) → List ℕ → (size : ℕ) → Option (List ℕ)
  pub length-malloc : (hdr size : ℕ) (b : List ℕ) → malloc hdr size ≡ some b → length b ≡ size - hdr
  pub length-realloc :
      (hdr size : ℕ) (a b : List ℕ) → realloc hdr a size ≡ some b → length b ≡ size - hdr
  pub take-realloc :
      (hdr size n : ℕ) (a b : List ℕ)
      → realloc hdr a size ≡ some b
      → n ≤ length a
      → n ≤ size - hdr
      → take n b ≡ take n a

-- The allocator refuses some request.
pub data RunsOut (m : Allocator) : Type 0 where
  no_malloc : (hdr size : ℕ) → m.malloc hdr size ≡ none → RunsOut m
  no_realloc : (hdr : ℕ) (b : List ℕ) (size : ℕ) → m.realloc hdr b size ≡ none → RunsOut m

abbrev pub or_null {ℓ} : {A : Type ℓ} → Option A → Outcome A
or_null none = null
or_null (some a) = ok a

-- Writes `t` over the bytes from position `i`; what does not fit is dropped.
abbrev pub splice : List ℕ → ℕ → List ℕ → List ℕ
splice [] i t = []
splice (x ∷ xs) (suc i) t = x ∷ splice xs i t
splice (x ∷ xs) zero [] = x ∷ xs
splice (x ∷ xs) zero (b ∷ t) = b ∷ splice xs zero t

-- memcpy and memmove into a block, a read of `n` bytes from `i`, and a write of one byte.
unfoldable pub memcpy : List ℕ → ℕ → List ℕ → Outcome (List ℕ)
memcpy b i t = if leb (i + length t) (length b) then ok (splice b i t) else fault

unfoldable pub read_bytes : List ℕ → ℕ → ℕ → Outcome (List ℕ)
read_bytes b i n = if leb (i + n) (length b) then ok (take n (drop i b)) else fault

unfoldable pub poke : List ℕ → ℕ → ℕ → Outcome (List ℕ)
poke b i v = if ltb i (length b) then ok (set b i v) else fault
