-- ===== src/Sds/Samples.antt =====
-- The theorems on sds.c at concrete strings, and runs of its functions.
use decompose_redis.Base.{
  ℕ, zero, suc, ◌+◌, ◌-◌, ◌≤◌, ◌<◌, ◌≡◌, ◌≢◌, refl, ap, ◌∙◌, ◌⊎◌, List, [], ◌∷◌, ◌++◌, some, none,
  length, take, drop, replicate, length-take, length-append, leb, ◌==◌, ◌&&◌, ◌||◌, arith,
}
use decompose_redis.Base.Int.{pos, negsuc}
use decompose_redis.Base.Outcome.{Outcome, null, ok, fault, Safe, Unless}
use decompose_redis.Sds.{
  Sds, sds_type_8, IsValid, Holds, content, sdslen, sds_hdr_size, sds_req_type, sdsavail, sdssetlen,
  sdssetalloc,
}
use decompose_redis.Sds.Memory.{Allocator, RunsOut, memcpy, read_bytes, poke}
use decompose_redis.Sds.Memory.Laws.{take-take}
use decompose_redis.Sds.Room.{sds_make_room_for, sds_remove_free_space, prealloc, resize, move}
use decompose_redis.Sds.Room.Laws.{
  HasRoom, Resized, make_room_for-HasRoom, remove_free_space-Resized,
}
use decompose_redis.Sds.Write.{bytes, zeroed, sdsnewlen, sdscatlen, sds_incr_len}
use decompose_redis.Sds.Write.Laws.{sdsnewlen-Holds, sdscatlen-Holds}
use decompose_redis.Sds.Write.Ends.{newlen_request, sdsnewlen-zeroed, sds_incr_len-grow}
use decompose_redis.Sds.Ctype.{Ctype}
use decompose_redis.Sds.Repr.{
  token_round, is_hex_digit, hex_digit_to_int, unescape, escape_all, sdscatrepr, parsed, unbalanced,
  out_of_fuel, sdssplitargs,
}
use decompose_redis.Sds.Repr.RoundTrip.{literals, sdssplitargs-quoted}
use decompose_redis.Sds.Write.Appends.{NoRoom}
use decompose_redis.Sds.Repr.Append.{sdssplitargs-sdscatrepr}
use decompose_redis.Sds.Repr.Fuel.{sdssplitargs-ends}
use decompose_redis.Sds.Edit.{trim_left, trim_right, strchr, sdsrange, sdstrim}
use decompose_redis.Sds.Edit.Trim.{IsTrim, sdstrim-IsTrim}

-- An allocator that always has memory, and fills it with the byte 0xaa.
abbrev pub fresh_block : ℕ → List ℕ
fresh_block n = replicate n 0xaa

abbrev pub regrown : List ℕ → ℕ → List ℕ
regrown b n = take n (b ++ fresh_block n)

pub length-fresh : (n : ℕ) → length (fresh_block n) ≡ n
length-fresh zero = refl
length-fresh (suc n) = ap suc (length-fresh n)

pub length-regrown : (b : List ℕ) (n : ℕ) → length (regrown b n) ≡ n
length-regrown b n =
    omega
      (arith, length-take n (b ++ fresh_block n), length-append b (fresh_block n), length-fresh n)

take-front : (b c : List ℕ) (m : ℕ) → m ≤ length b → take m (b ++ c) ≡ take m b
take-front b c zero h = refl
take-front [] c (suc m) h = absurd (omega arith)
take-front (x ∷ b) c (suc m) h = ap (◌∷◌ x) (take-front b c m (omega arith))

take-regrown : (b : List ℕ) (m n : ℕ) → m ≤ length b → m ≤ n → take m (regrown b n) ≡ take m b
take-regrown b m n h k = take-take (b ++ fresh_block n) m n k ∙ take-front b (fresh_block n) m h

pub length-plenty : (n : ℕ) (b c : List ℕ) → length c ≡ n → some c ≡ some b → length b ≡ n
length-plenty n b c h e = let q : c ≡ b = cc in rw (← q) h

pub take-plenty :
    (a b : List ℕ) (m n : ℕ)
    → some (regrown a n) ≡ some b
    → m ≤ length a
    → m ≤ n
    → take m b ≡ take m a
take-plenty a b m n e h k = let q : regrown a n ≡ b = cc in rw (← q) (take-regrown a m n h k)

abbrev pub plenty : Allocator
plenty = record {
  malloc = λ hdr size. some (fresh_block (size - hdr));
  realloc = λ hdr b size. some (regrown b (size - hdr));
  length-malloc = λ hdr size b e. length-plenty (size - hdr) b _ (length-fresh (size - hdr)) e;
  length-realloc =
      λ hdr size a b e. length-plenty (size - hdr) b _ (length-regrown a (size - hdr)) e;
  take-realloc = λ hdr size n a b e h k. take-plenty a b n (size - hdr) e h k;
}

abbrev pub hello_block : List ℕ
hello_block = b'h' ∷ b'e' ∷ b'l' ∷ b'l' ∷ b'o' ∷ 0 ∷ 0xaa ∷ 0xaa ∷ 0xaa ∷ []

-- "hello", with three free bytes.
abbrev pub hello : Sds
hello = record { type = sds_type_8; len = 5; alloc = 8; buf = hello_block }

pub hello-IsValid : IsValid hello
hello-IsValid = record {
  within = omega arith;
  fits = omega arith;
  room = omega arith;
  terminated = refl;
}

abbrev empty : Sds
empty = record { type = sds_type_8; len = 0; alloc = 8; buf = 0 ∷ hello_block }

empty-IsValid : IsValid empty
empty-IsValid = record {
  within = omega arith;
  fits = omega arith;
  room = omega arith;
  terminated = refl;
}

abbrev c_locale : Ctype
c_locale = record {
  isprint = λ c. leb 0x20 c && leb c 0x7e;
  isspace = λ c. c == b' ' || (leb 0x09 c && leb c 0x0d);
  not_print_nul = refl;
  space_blank = refl;
  space_quote = refl;
}

-- A quote, a line feed, a nul byte and a byte above ASCII.
abbrev odd_bytes : List ℕ
odd_bytes = 0x22 ∷ 0x0a ∷ 0x00 ∷ b'x' ∷ 0xff ∷ []

sdssplitargs-sdscatrepr_example :
    Unless
      (NoRoom plenty (0x22 ∷ (escape_all c_locale odd_bytes ++ 0x22 ∷ [])))
      (λ s'. sdssplitargs c_locale (content s') ≡ parsed (odd_bytes ∷ []))
      (sdscatrepr c_locale plenty empty odd_bytes)
sdssplitargs-sdscatrepr_example =
    sdssplitargs-sdscatrepr c_locale plenty empty odd_bytes empty-IsValid refl (omega arith)
      (omega arith)

sdssplitargs-quoted_example :
    sdssplitargs c_locale
      (0x22 ∷ (escape_all c_locale odd_bytes ++ 0x22 ∷ literals c_locale (hello_block ∷ [] ∷ [])))
    ≡ parsed (odd_bytes ∷ hello_block ∷ [] ∷ [])
sdssplitargs-quoted_example =
    sdssplitargs-quoted c_locale odd_bytes (hello_block ∷ [] ∷ []) (omega arith) (omega arith)

sdssplitargs-ends_example : sdssplitargs c_locale (b'a' ∷ b' ' ∷ 0x22 ∷ b'b' ∷ []) ≢ out_of_fuel
sdssplitargs-ends_example =
    sdssplitargs-ends c_locale (b'a' ∷ b' ' ∷ 0x22 ∷ b'b' ∷ []) (omega arith)

make_room_for-HasRoom_example :
    Safe (RunsOut plenty) (HasRoom hello 300) (sds_make_room_for plenty hello 300)
make_room_for-HasRoom_example = make_room_for-HasRoom plenty hello 300 hello-IsValid (omega arith)

remove_free_space-Resized_example :
    Safe (RunsOut plenty) (Resized hello 5) (sds_remove_free_space plenty hello)
remove_free_space-Resized_example =
    remove_free_space-Resized plenty hello hello-IsValid (omega arith)

sdsnewlen-Holds_example :
    Safe (RunsOut plenty) (Holds (take 4 odd_bytes)) (sdsnewlen plenty (bytes odd_bytes) 4)
sdsnewlen-Holds_example = sdsnewlen-Holds plenty odd_bytes 4 (omega arith) (omega arith)

sdsnewlen-zeroed_example :
    ((newlen_request plenty 3 ≡ none) × (sdsnewlen plenty zeroed 3 ≡ fault))
    ⊎ ((s : Sds) × (sdsnewlen plenty zeroed 3 ≡ ok s) × Holds (replicate 3 0) s)
sdsnewlen-zeroed_example = sdsnewlen-zeroed plenty 3 (omega arith)

sdscatlen-Holds_example :
    Safe
      (RunsOut plenty)
      (Holds (content hello ++ take 5 odd_bytes))
      (sdscatlen plenty hello odd_bytes 5)
sdscatlen-Holds_example =
    sdscatlen-Holds plenty hello odd_bytes 5 hello-IsValid (omega arith) (omega arith)

sds_incr_len-grow_example :
    ((2 ≤ sdsavail hello)
      × (t : Sds) × (sds_incr_len hello (pos 2) ≡ some (ok t))
      × Holds (take (5 + 2) hello_block) t)
    ⊎ ((sdsavail hello < 2) × (sds_incr_len hello (pos 2) ≡ none))
sds_incr_len-grow_example = sds_incr_len-grow hello 2 hello-IsValid (ground arith) (omega arith)

sdstrim-IsTrim_example :
    (t : Sds) × (from to : ℕ) × (sdstrim hello (b'h' ∷ b'o' ∷ []) ≡ ok t)
    × IsTrim (b'h' ∷ b'o' ∷ []) (content hello) from to
    × Holds (take (to - from) (drop from (content hello))) t
sdstrim-IsTrim_example = sdstrim-IsTrim hello (b'h' ∷ b'o' ∷ []) hello-IsValid

-- The string that a run leaves, or a byte that no string holds.
abbrev held : Outcome Sds → List ℕ
held (ok s) = content s
held null = 256 ∷ []
held fault = 257 ∷ []

abbrev held_len : Outcome Sds → ℕ
held_len (ok s) = sdslen s
held_len null = 0
held_len fault = 0

-- Cases of the tests at the end of sds.c.
trim_hello : held (sdstrim hello (b'h' ∷ b'o' ∷ [])) ≡ b'e' ∷ b'l' ∷ b'l' ∷ []
unfolding sdstrim memcpy read_bytes poke sdssetlen trim_left trim_right strchr
trim_hello = refl

range_tail : held (sdsrange hello (negsuc 1) (negsuc 0)) ≡ b'l' ∷ b'o' ∷ []
unfolding sdsrange memcpy read_bytes poke sdssetlen
range_tail = refl

range_crossed : held (sdsrange hello (pos 2) (pos 1)) ≡ []
unfolding sdsrange memcpy read_bytes poke sdssetlen
range_crossed = refl

-- Past the free bytes of type 8 the string moves to a header of type 16.
cat_moves : held_len (sdscatlen plenty hello (fresh_block 300) 300) ≡ 305
unfolding sdscatlen sds_make_room_for memcpy read_bytes poke sdssetlen sdssetalloc sdsavail move
    prealloc sds_req_type sds_hdr_size resize
cat_moves = refl

-- `"a\x41" b`, and a quote with no end.
split_words :
    sdssplitargs c_locale (0x22 ∷ b'a' ∷ 0x5c ∷ b'x' ∷ b'4' ∷ b'1' ∷ 0x22 ∷ b' ' ∷ b'b' ∷ [])
    ≡ parsed ((b'a' ∷ b'A' ∷ []) ∷ (b'b' ∷ []) ∷ [])
unfolding sdssplitargs token_round is_hex_digit hex_digit_to_int unescape
split_words = refl

split_open_quote : sdssplitargs c_locale (b'a' ∷ b' ' ∷ 0x22 ∷ b'b' ∷ []) ≡ unbalanced
unfolding sdssplitargs token_round
split_open_quote = refl
