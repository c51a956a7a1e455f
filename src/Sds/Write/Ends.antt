-- ===== src/Sds/Write/Ends.antt =====
-- sds.c: a NULL `init`, and the functions that move the end of a string.
use decompose_redis.Base.{
  ℕ, zero, ◌+◌, ◌-◌, ◌%◌, ◌^◌, ◌≤◌, ◌<◌, ◌≡◌, ◌≢◌, refl, sym, ap, ◌∙◌, ◌⊎◌, inl, inr, List, [],
  Option, length-set, some, none, Option-cases, Bool-cases, leb, length, take, replicate,
  length-replicate, take-replicate, arith,
}
use decompose_redis.Base.Int.{pos, negsuc}
use decompose_redis.Base.Outcome.{ok, fault}
use decompose_redis.Sds.{
  SdsType, sds_type_5, Sds, IsValid, Holds, content, sds_bound, size_mod, sds_hdr_size, sdsavail,
  sdssetlen,
}
use decompose_redis.Sds.Memory.{Allocator, splice}
use decompose_redis.Sds.Memory.Laws.{memcpy-ok, poke-ok, length-splice, take-splice, take-take}
use decompose_redis.Sds.Room.{sds_clear}
use decompose_redis.Sds.Room.Laws.{hdr_size_bounds, sdsavail-add}
use decompose_redis.Sds.Write.{
  zeroed, newlen_type, sdsnewlen, sds_incr_len, incr_guard, incr_len, incr_end,
}
use decompose_redis.Sds.Write.Laws.{newlen_type-bound, new-Holds, set_end-Holds, len_mod}

module _ (m : Allocator) where
  -- The request that sdsnewlen makes for `n` bytes.
  abbrev pub newlen_request : ℕ → Option (List ℕ)
  newlen_request n =
      m.malloc (sds_hdr_size (newlen_type n)) ((sds_hdr_size (newlen_type n) + n + 1) % size_mod)

  -- sdsnewlen with a NULL `init` and a length 32 below the range of size_t: if the allocator gives memory, a valid string of `n` zero bytes; if
  -- it refuses, not NULL but a write through NULL.
  pub sdsnewlen-zeroed :
      (n : ℕ)
      → n + 32 < size_mod
      → ((newlen_request n ≡ none) × (sdsnewlen m zeroed n ≡ fault))
        ⊎ ((s : Sds) × (sdsnewlen m zeroed n ≡ ok s) × Holds (replicate n 0) s)
  unfolding sdsnewlen
  sdsnewlen-zeroed n small = elim (Option-cases (newlen_request n)) [
    | inl e ↦ inl (e, rw e)
    | inr (b, e) ↦
        let t = newlen_type n in
        let zs : List ℕ = replicate (n + 1) 0 in
        let lz = length-replicate (n + 1) zero in
        let room : length b ≡ n + 1 = omega (arith, m.length-malloc _ _ _ e, hdr_size_bounds t) in
        let size = length-splice b 0 zs in
        let whole = take-splice b 0 (n + 1) zs (omega (arith, lz)) (omega (arith, room)) in
        inr (
          _,
          rw (
            e,
            memcpy-ok b 0 zs (omega (arith, lz, room)),
            poke-ok (splice b 0 zs) n 0 (omega (arith, size, room)),
          ),
          new-Holds n (splice b 0 zs) _ t (newlen_type-bound n (omega arith))
              (omega (arith, size, room))
              (sym (take-take (splice b 0 zs) n (n + 1) (omega arith))
                ∙ ap (take n) whole
                ∙ take-replicate n (n + 1) 0 (omega arith)),
        )
  ]

guard_pos :
    (t : SdsType) (len avail n : ℕ)
    → t ≢ sds_type_5
    → n < 2 ^ 32
    → incr_guard t len avail (pos n) ≡ leb n avail
guard_pos t len avail n ne h = ground arith

guard_neg :
    (t : SdsType) (len avail n : ℕ)
    → n + 1 < 2 ^ 32
    → incr_guard t len avail (negsuc n) ≡ leb (n + 1) len
guard_neg t len avail n h = ground arith

end_pos :
    (t : SdsType) (len n : ℕ) → t ≢ sds_type_5 → incr_end t len (pos n) ≡ incr_len t len (pos n)
end_pos t len n ne = ground arith

end_trim :
    (t : SdsType) (len n : ℕ)
    → len < sds_bound t
    → n + 1 ≤ len
    → incr_end t len (negsuc n) ≡ len - (n + 1)
end_trim t len n h le = ground arith

len_trim :
    (t : SdsType) (len n : ℕ)
    → len < sds_bound t
    → n + 1 ≤ len
    → (len + size_mod - (n + 1)) % sds_bound t ≡ len - (n + 1)
len_trim t len n h le = ground arith

-- sdsIncrLen by a number from 0 below 2 ^ 32, on a valid string that is not of type 5: up to the
-- free bytes a valid string is left, longer by the bytes that stood behind the content; past them
-- the assertion stops the program.
pub sds_incr_len-grow :
    (s : Sds) (n : ℕ)
    → IsValid s
    → s.type ≢ sds_type_5
    → n < 2 ^ 32
    → ((n ≤ sdsavail s)
        × (t : Sds) × (sds_incr_len s (pos n) ≡ some (ok t))
        × Holds (take (s.len + n) s.buf) t)
      ⊎ ((sdsavail s < n) × (sds_incr_len s (pos n) ≡ none))
unfolding sds_incr_len
sds_incr_len-grow s n v ne small =
    let have = sdsavail-add s v in
    let guard = guard_pos s.type s.len (sdsavail s) n ne small in
    elim (Bool-cases (leb n (sdsavail s))) [
      | inl fits ↦
          let le : n ≤ sdsavail s = ground arith in
          let kept = len_mod (s.len + n) s.type (omega (arith, v.fits, have)) in
          inl (
            le,
            _,
            rw (
              guard,
              fits,
              end_pos s.type s.len n ne,
              kept,
              poke-ok s.buf (s.len + n) 0 (omega (arith, v.room, have)),
            ),
            rw kept at (set_end-Holds s (s.len + n) s.buf _ v (omega (arith, have)) refl refl),
          )
      | inr past ↦ inr (ground arith, rw (guard, past))
    ]

-- sdsIncrLen by a negative number above -(2 ^ 32) on a valid string: within the content it cuts that
-- many bytes off its end and the string stays valid; past it the assertion stops the program.
pub sds_incr_len-trim :
    (s : Sds) (n : ℕ)
    → IsValid s
    → n + 1 < 2 ^ 32
    → ((n + 1 ≤ s.len)
        × (t : Sds) × (sds_incr_len s (negsuc n) ≡ some (ok t))
        × Holds (take (s.len - (n + 1)) (content s)) t)
      ⊎ ((s.len < n + 1) × (sds_incr_len s (negsuc n) ≡ none))
unfolding sds_incr_len
sds_incr_len-trim s n v small =
    let guard = guard_neg s.type s.len (sdsavail s) n small in
    elim (Bool-cases (leb (n + 1) s.len)) [
      | inl fits ↦
          let le : n + 1 ≤ s.len = ground arith in
          let bound : s.len < sds_bound s.type = omega (arith, v.within, v.fits) in
          let kept = len_trim s.type s.len n bound le in
          let short = len_mod (s.len - (n + 1)) s.type (omega arith) in
          inl (
            le,
            _,
            rw (
              guard,
              fits,
              end_trim s.type s.len n bound le,
              kept,
              poke-ok s.buf (s.len - (n + 1)) 0 (omega (arith, v.room, v.within)),
            ),
            rw short at (
                set_end-Holds s (s.len - (n + 1)) s.buf _ v (omega (arith, v.within)) refl
                  (sym (take-take s.buf _ s.len (omega arith)))),
          )
      | inr past ↦ inr (ground arith, rw (guard, past))
    ]

-- sdsclear leaves the empty string, and its block.
pub sds_clear-Holds :
    (s : Sds)
    → IsValid s
    → (t : Sds) × (sds_clear s ≡ ok t) × Holds [] t × (length t.buf ≡ length s.buf)
unfolding sds_clear sdssetlen
sds_clear-Holds s v = (
  _,
  rw (poke-ok s.buf 0 0 (omega (arith, v.room))),
  set_end-Holds s 0 s.buf [] v (omega arith) refl refl,
  length-set s.buf 0 0,
)
