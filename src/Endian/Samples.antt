-- ===== src/Endian/Samples.antt =====
-- The theorems on endianconv.c at concrete blocks and integers.
use decompose_redis.Base.{◌≡◌, refl, arith}
use decompose_redis.Base.Outcome.{ok}
use decompose_redis.Endian.{swap_bytes, memrev32, intrev32, intrev64}
use decompose_redis.Endian.Laws.{eight, Swaps, intrev-Swaps}

intrev-Swaps_example : Swaps 8 intrev64 0x1122334455667788
intrev-Swaps_example = intrev-Swaps eight 0x1122334455667788 (omega arith)

swapped_word : intrev32 0x11223344 ≡ ok 0x44332211
unfolding intrev32 memrev32 swap_bytes
swapped_word = refl
