-- ===== src/Sds/Edit/Laws.antt =====
-- sds.c: what a string holds after each function that changes it in place.
use decompose_redis.Base.{
  ℕ, ◌+◌, ◌≤◌, ◌≡◌, refl, sym, ◌∙◌, ◌⊎◌, inl, inr, true, false, List, if◌then◌else◌, length, take,
  drop, arith, length-drop, drop-take, Bool,
}
use decompose_redis.Base.Int.{ℤ, pos, negsuc, pos_part, ◌+ℤ◌}
use decompose_redis.Base.Outcome.{ok, ◌>>=◌}
use decompose_redis.Sds.{Sds, IsValid, Holds, content, sdssetlen}
use decompose_redis.Sds.Memory.{splice, memcpy, read_bytes, poke}
use decompose_redis.Sds.Memory.Laws.{
  memcpy-ok, read_bytes-ok, poke-ok, length-splice, take-splice, length-take_le, take-take,
}
use decompose_redis.Sds.Write.Laws.{set_end-Holds}

length-part : (b : List ℕ) (i n : ℕ) → i + n ≤ length b → length (take n (drop i b)) ≡ n
length-part b i n h = length-take_le (drop i b) n (omega (arith, length-drop i b))

-- `n` bytes of a valid string from `i`, moved to its start.
move_part :
    (s : Sds) (i n : ℕ)
    → IsValid s
    → i + n ≤ s.len
    → (b : List ℕ) × ((read_bytes s.buf i n >>= memcpy s.buf 0) ≡ ok b)
      × (length b ≡ length s.buf)
      × (take n b ≡ take n (drop i (content s)))
move_part s i n v h =
    let part = length-part s.buf i n (omega (arith, v.within, v.room)) in
    (
      splice s.buf 0 (take n (drop i s.buf)),
      rw (read_bytes-ok s.buf i n (omega (arith, v.within, v.room)))
          (memcpy-ok s.buf 0 (take n (drop i s.buf)) (omega (arith, part, v.within, v.room))),
      length-splice s.buf 0 (take n (drop i s.buf)),
      take-splice s.buf 0 n _ (omega (arith, part)) (omega (arith, v.within, v.room))
          ∙ sym (drop-take s.buf i s.len n h),
    )

-- The same under the test that skips a move which would change nothing.
move_part_if :
    (s : Sds) (i n : ℕ) (skip : Bool)
    → IsValid s
    → n ≤ s.len
    → (skip ≡ false → i + n ≤ s.len)
    → (skip ≡ true → (i ≡ 0) ⊎ (n ≡ 0))
    → (b : List ℕ) × ((if skip then ok s.buf else (read_bytes s.buf i n >>= memcpy s.buf 0)) ≡ ok b)
      × (length b ≡ length s.buf)
      × (take n b ≡ take n (drop i (content s)))
move_part_if s i n false v le h idle = move_part s i n v (h refl)
move_part_if s i n true v le h idle = (s.buf, refl, refl, same (idle refl))
  where
    same : (i ≡ 0) ⊎ (n ≡ 0) → take n s.buf ≡ take n (drop i (content s))
    same (inl e) = rw e (sym (take-take s.buf n s.len (omega arith)))
    same (inr e) = rw e

-- What sdsrange and sdstrim do last: terminate the part and set the length.
pub part-Holds :
    (s : Sds) (i n : ℕ) (skip : Bool)
    → IsValid s
    → n ≤ s.len
    → (skip ≡ false → i + n ≤ s.len)
    → (skip ≡ true → (i ≡ 0) ⊎ (n ≡ 0))
    → (t : Sds) × ((do
      moved ← (if skip then ok s.buf else (read_bytes s.buf i n >>= memcpy s.buf 0))
      buf ← poke moved n 0
      ok (sdssetlen (record s { buf = buf }) n))
        ≡ ok t)
      × Holds (take n (drop i (content s))) t
unfolding sdssetlen
part-Holds s i n skip v le h idle =
    let (b, moved, size, same) = move_part_if s i n skip v le h idle in
    (
      _,
      rw (moved, poke-ok b n 0 (omega (arith, size, v.within, v.room))),
      set_end-Holds s n b _ v (omega (arith, v.within)) size same,
    )

-- A place counted from the start or, if negative, from the end; the start if it lies before that.
abbrev pub place : ℕ → ℤ → ℕ
place len (pos n) = n
place len (negsuc n) = pos_part (pos len +ℤ negsuc n)
