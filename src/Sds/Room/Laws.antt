-- ===== src/Sds/Room/Laws.antt =====
-- sds.c: room can be made and given back without a change of the content.
use decompose_redis.Base.{
  ℕ, ◌+◌, ◌%◌, ◌^◌, ◌≤◌, ◌<◌, ◌≡◌, ◌≢◌, refl, true, false, sym, ◌∙◌, inl, inr, ap, Bool-cases, List,
  leb, ltb, Option-cases, length, take, get_elem?, arith, ◌==◌,
}
use decompose_redis.Base.Outcome.{Safe, safe_ok, safe_null, Safe-mono}
use decompose_redis.Sds.{
  SdsType, sds_type_5, Sds, IsValid, content, sds_bound, size_mod, sds_max_prealloc, sds_hdr_size,
  sds_req_type, sdsalloc, sdsavail, sdssetlen, sdssetalloc,
}
use decompose_redis.Sds.Memory.{Allocator, RunsOut, no_malloc, no_realloc}
use decompose_redis.Sds.Memory.Laws.{
  memcpy-ok, read_bytes-ok, length-splice, take-splice, length-take_le, get_elem?-take, take-take,
}
use decompose_redis.Sds.Room.{
  type_code, not_type_5, prealloc, resize, move, sds_make_room_for, sds_remove_free_space,
}

-- sds.h says it of a valid string: the free bytes and the used ones are the allocated ones.
pub sdsavail-add : (s : Sds) → IsValid s → sdsavail s + s.len ≡ sdsalloc s
unfolding sdsavail
sdsavail-add s v = ground arith

pub req_type-bound : (n : ℕ) → n < size_mod → n < sds_bound (sds_req_type n)
unfolding sds_req_type
req_type-bound n h = ground arith

pub not_type_5-bound : (n : ℕ) (t : SdsType) → n < sds_bound t → n < sds_bound (not_type_5 t)
not_type_5-bound n t h = ground arith

pub eq_of_type_code : (t u : SdsType) → (type_code t == type_code u) ≡ true → t ≡ u
eq_of_type_code t u h = ground arith

pub hdr_size_bounds : (t : SdsType) → (1 ≤ sds_hdr_size t) × (sds_hdr_size t ≤ 17)
unfolding sds_hdr_size
hdr_size_bounds t = ground arith

-- `t` has the content of `s` and `n` allocated bytes.
pub record Resized (s : Sds) (n : ℕ) (t : Sds) : Type 0 where
  pub valid : IsValid t
  pub same : content t ≡ content s
  pub len : t.len ≡ s.len
  pub alloc : sdsalloc t ≡ n

-- Blocks that agree on `len + 1` bytes hold the same content and terminator.
pub get_elem?-of_take :
    (a b : List ℕ) (n : ℕ) → take (n + 1) a ≡ take (n + 1) b → get_elem? a n ≡ get_elem? b n
get_elem?-of_take a b n e =
    sym (get_elem?-take a n (n + 1) (omega arith))
    ∙ ap (λ l. get_elem? l n) e
    ∙ get_elem?-take b n (n + 1) (omega arith)

pub take-of_take : (a b : List ℕ) (n : ℕ) → take (n + 1) a ≡ take (n + 1) b → take n a ≡ take n b
take-of_take a b n e =
    sym (take-take a n (n + 1) (omega arith)) ∙ ap (take n) e ∙ take-take b n (n + 1) (omega arith)

alloc_set :
    (s : Sds) (n : ℕ) → s.type ≢ sds_type_5 → n < sds_bound s.type → sdsalloc (sdssetalloc s n) ≡ n
unfolding sdssetalloc
alloc_set s n h b = ground arith

-- The block `b` under the header of `s`, with `n` allocated bytes.
reblock-Resized :
    (s : Sds) (n : ℕ) (b : List ℕ)
    → IsValid s
    → s.type ≢ sds_type_5
    → s.len ≤ n
    → n < sds_bound s.type
    → length b ≡ n + 1
    → take (s.len + 1) b ≡ take (s.len + 1) s.buf
    → Resized s n (sdssetalloc (record s { buf = b }) n)
unfolding sdssetalloc
reblock-Resized s n b v ne le bound size same =
    let e = alloc_set (record s { buf = b }) n ne bound in
    record {
      valid = record {
        within = omega (arith, e);
        fits = omega (arith, e);
        room = omega (arith, e);
        terminated = get_elem?-of_take b s.buf s.len same ∙ v.terminated;
      };
      same = take-of_take b s.buf s.len same;
      len = refl;
      alloc = e;
    }

len_fits : (len n : ℕ) (t : SdsType) → len ≤ n → n < sds_bound t → len % sds_bound t ≡ len
len_fits len n t le bound = ground arith

moved_alloc :
    (s : Sds) (t : SdsType) (n : ℕ) (b : List ℕ)
    → (t ≡ sds_type_5 → n ≡ s.len)
    → s.len ≤ n
    → n < sds_bound t
    → sdsalloc (sdssetalloc (sdssetlen (record s { type = t; buf = b }) s.len) n) ≡ n
unfolding sdssetalloc sdssetlen
moved_alloc s t n b exact le bound = ground arith

module _ (m : Allocator) where
  pub resize-Resized :
      (s : Sds) (n : ℕ)
      → IsValid s
      → s.type ≢ sds_type_5
      → s.len ≤ n
      → n < sds_bound s.type
      → n + 18 < size_mod
      → Safe (RunsOut m) (Resized s n) (resize m s n)
  unfolding resize
  resize-Resized s n v ne le bound small =
      let h = hdr_size_bounds s.type in
      let size = (sds_hdr_size s.type + n + 1) % size_mod in
      elim (Option-cases (m.realloc (sds_hdr_size s.type) s.buf size)) [
        | inl e ↦ rw e (safe_null (no_realloc _ _ _ e))
        | inr (b, e) ↦ rw e (
            safe_ok (
              reblock-Resized s n b v ne le bound (omega (arith, m.length-realloc _ _ _ _ e))
                (m.take-realloc _ _ _ _ _ e (omega (arith, v.within, v.room)) (omega arith))))
      ]

  moved-Resized :
      (s : Sds) (t : SdsType) (n : ℕ) (b : List ℕ)
      → IsValid s
      → (t ≡ sds_type_5 → n ≡ s.len)
      → s.len ≤ n
      → n < sds_bound t
      → length b ≡ n + 1
      → take (s.len + 1) b ≡ take (s.len + 1) s.buf
      → Resized s n (sdssetalloc (sdssetlen (record s { type = t; buf = b }) s.len) n)
  unfolding sdssetalloc sdssetlen
  moved-Resized s t n b v exact le bound size same =
      let kept = len_fits s.len n t le bound in
      let e = moved_alloc s t n b exact le bound in
      record {
        valid = record {
          within = omega (arith, e, kept);
          fits = omega (arith, e);
          room = omega (arith, e);
          terminated = rw kept (get_elem?-of_take b s.buf s.len same ∙ v.terminated);
        };
        same = rw kept (take-of_take b s.buf s.len same);
        len = kept;
        alloc = e;
      }

  pub move-Resized :
      (s : Sds) (t : SdsType) (n : ℕ)
      → IsValid s
      → (t ≡ sds_type_5 → n ≡ s.len)
      → s.len ≤ n
      → n < sds_bound t
      → n + 18 < size_mod
      → Safe (RunsOut m) (Resized s n) (move m s t n)
  unfolding move
  move-Resized s t n v exact le bound small =
      let h = hdr_size_bounds t in
      let size = (sds_hdr_size t + n + 1) % size_mod in
      elim (Option-cases (m.malloc (sds_hdr_size t) size)) [
        | inl e ↦ rw e (safe_null (no_malloc _ _ e))
        | inr (b, e) ↦
            let room = m.length-malloc _ _ _ e in
            let held = length-take_le s.buf (s.len + 1) (omega (arith, v.within, v.room)) in
            rw
              (
                e,
                read_bytes-ok s.buf 0 (s.len + 1) (omega (arith, v.within, v.room)),
                memcpy-ok b 0 (take (s.len + 1) s.buf) (omega (arith, held)),
              )
              (safe_ok (
                moved-Resized s t n _ v exact le bound
                  (omega (arith, length-splice b 0 (take (s.len + 1) s.buf)))
                  (take-splice b 0 (s.len + 1) _ (omega (arith, held)) (omega arith))))
      ]

-- `t` has the content of `s` and `n` free bytes at least.
pub record HasRoom (s : Sds) (n : ℕ) (t : Sds) : Type 0 where
  pub valid : IsValid t
  pub same : content t ≡ content s
  pub len : t.len ≡ s.len
  pub free : s.len + n ≤ sdsalloc t

Resized-HasRoom :
    (s t : Sds) (addlen n : ℕ) → s.len + addlen ≤ n → Resized s n t → HasRoom s addlen t
Resized-HasRoom s t addlen n le r = record {
  valid = r.valid;
  same = r.same;
  len = r.len;
  free = omega (arith, r.alloc);
}

sdsavail_ne : (s : Sds) → (sdsavail s == 0) ≡ false → s.type ≢ sds_type_5
unfolding sdsavail
sdsavail_ne s h = ground arith

prealloc_bounds :
    (n : ℕ) → n + 2 ^ 21 < size_mod → (n ≤ prealloc n) × (prealloc n ≤ n + sds_max_prealloc)
unfolding prealloc
prealloc_bounds n h = ground arith

not_type_5-ne : (t : SdsType) → not_type_5 t ≢ sds_type_5
not_type_5-ne t = ground arith

module _ (m : Allocator) where
  -- sdsMakeRoomFor on a valid string, when the length and the room asked for are together 2 ^ 21
  -- below the range of size_t: no access leaves a block, NULL comes only from the allocator, and otherwise the result is valid, has the
  -- same content, and has the room asked for.
  pub make_room_for-HasRoom :
      (s : Sds) (addlen : ℕ)
      → IsValid s
      → s.len + addlen + 2 ^ 21 < size_mod
      → Safe (RunsOut m) (HasRoom s addlen) (sds_make_room_for m s addlen)
  unfolding sds_make_room_for
  make_room_for-HasRoom s addlen v small =
      let have = sdsavail-add s v in
      let need : (s.len + addlen) % size_mod ≡ s.len + addlen = omega arith in
      let newlen = prealloc ((s.len + addlen) % size_mod) in
      let b = prealloc_bounds (s.len + addlen) (omega arith) in
      let type = not_type_5 (sds_req_type newlen) in
      let big : newlen < size_mod = rw need (omega (arith, b)) in
      let fits : newlen < sds_bound type = not_type_5-bound newlen _ (req_type-bound newlen big) in
      let le : s.len ≤ newlen = rw need (omega (arith, b)) in
      let enough : s.len + addlen ≤ newlen = rw need (omega (arith, b)) in
      let grown =
        λ (t : Sds) (r : Resized s newlen t). Resized-HasRoom s t addlen newlen enough r in
      elim (Bool-cases (leb addlen (sdsavail s))) [
        | inl yes_room ↦
            rw yes_room
              (safe_ok record { valid = v; same = refl; len = refl; free = ground (arith, have) })
        | inr full ↦ elim (Bool-cases (type_code s.type == type_code type)) [
          | inl alike ↦
              rw (full, alike)
                (Safe-mono
                  (resize-Resized m s newlen v (rw (eq_of_type_code _ _ alike) (not_type_5-ne _)) le
                    (rw (eq_of_type_code _ _ alike) fits) (rw need (omega (arith, b))))
                  grown)
          | inr other ↦
              rw (full, other)
                (Safe-mono
                  (move-Resized m s type newlen v (λ e. absurd (not_type_5-ne _ e)) le fits
                    (rw need (omega (arith, b))))
                  grown)
        ]
      ]

  -- sdsRemoveFreeSpace on a valid string whose length is 2 ^ 21 below the range of size_t: no access
  -- leaves a block, NULL comes only from the allocator, and otherwise the result is valid, has the
  -- same content, and has as many allocated bytes as the content has.
  pub remove_free_space-Resized :
      (s : Sds)
      → IsValid s
      → s.len + 2 ^ 21 < size_mod
      → Safe (RunsOut m) (Resized s s.len) (sds_remove_free_space m s)
  unfolding sds_remove_free_space
  remove_free_space-Resized s v small =
      let have = sdsavail-add s v in
      let bound : s.len < sds_bound s.type = omega (arith, v.within, v.fits) in
      let shrink = λ (h : (sdsavail s == 0) ≡ false).
        resize-Resized m s s.len v (sdsavail_ne s h) (omega arith) bound (omega arith) in
      elim (Bool-cases (sdsavail s == 0)) [
        | inl tight ↦
            rw tight (
              safe_ok (record { valid = v; same = refl; len = refl; alloc = ground (arith, have) }))
        | inr loose ↦ elim (Bool-cases (type_code s.type == type_code (sds_req_type s.len))) [
          | inl alike ↦ rw (loose, alike) (shrink loose)
          | inr other ↦ elim (Bool-cases (ltb 1 (type_code (sds_req_type s.len)))) [
            | inl wide ↦ rw (loose, other, wide) (shrink loose)
            | inr narrow ↦
                rw (loose, other, narrow)
                  (move-Resized m s (sds_req_type s.len) s.len v (λ e. refl) (omega arith)
                    (req_type-bound s.len (omega arith)) (omega arith))
          ]
        ]
      ]
