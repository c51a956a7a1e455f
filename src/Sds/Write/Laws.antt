-- ===== src/Sds/Write/Laws.antt =====
-- sds.c: what a string holds after each function that writes to its end.
use decompose_redis.Base.{
  ℕ, zero, ◌+◌, ◌-◌, ◌%◌, ◌^◌, ◌≤◌, ◌<◌, ◌≡◌, refl, sym, ap, ◌∙◌, inl, inr, List, ◌++◌, some,
  Option-cases, Bool-cases, leb, ltb, ◌==◌, if◌then◌else◌, length, take, set, replicate, get_elem?,
  get_elem?-set_self, get_elem?-append_add, get_elem?-replicate, take-replicate, take-append_add,
  length-set, length-replicate, arith,
}
use mathlib.Core.Path.{ap₂}
use mathlib.Core.List.{append-nil}
use decompose_redis.Base.Outcome.{ok, Safe, safe_ok, safe_null, Safe-bind, Safe-mono}
use decompose_redis.Sds.{
  SdsType, Sds, IsValid, Holds, content, sds_bound, size_mod, sds_hdr_size, sds_req_type, sdsalloc,
  sdssetlen,
}
use decompose_redis.Sds.Memory.{Allocator, RunsOut, no_malloc, splice}
use decompose_redis.Sds.Memory.Laws.{
  memcpy-ok, read_bytes-ok, poke-ok, length-splice, take-splice, take-set, take-take,
  get_elem?-take, length-take_le,
}
use decompose_redis.Sds.Room.{sds_make_room_for}
use decompose_redis.Sds.Room.Laws.{
  hdr_size_bounds, req_type-bound, not_type_5-bound, make_room_for-HasRoom,
}
use decompose_redis.Sds.Write.{
  bytes, newlen_type, fill, sdsnewlen, sdsdup, sdsgrowzero, sdscatlen, sdscpylen,
}

pub len_mod : (n : ℕ) (t : SdsType) → n < sds_bound t → n % sds_bound t ≡ n
len_mod n t h = ground arith

alloc_cut :
    (s : Sds) (n : ℕ) (b : List ℕ)
    → n ≤ sdsalloc s
    → (n ≤ sdsalloc (record s { len = n; buf = b }))
      × (sdsalloc (record s { len = n; buf = b }) ≤ sdsalloc s)
alloc_cut s n b h = ground arith

-- A valid string whose block is overwritten by `b` and cut at a nul byte after `n` bytes.
pub cut-Holds :
    (s : Sds) (n : ℕ) (b bs : List ℕ)
    → IsValid s
    → n ≤ sdsalloc s
    → length b ≡ length s.buf
    → get_elem? b n ≡ some 0
    → take n b ≡ bs
    → Holds bs (record s { len = n % sds_bound s.type; buf = b })
cut-Holds s n b bs v le size nul e =
    let small : n < sds_bound s.type = omega (arith, v.fits) in
    let kept : n % sds_bound s.type ≡ n = len_mod n s.type small in
    let cut = alloc_cut s n b le in
    record {
      valid = record {
        within = rw kept cut.0;
        fits = rw kept (omega (arith, cut, v.fits));
        room = rw kept (omega (arith, cut, v.room));
        terminated = rw kept nul;
      };
      holds = rw kept e;
    }

-- The same where the nul byte is written last.
pub set_end-Holds :
    (s : Sds) (n : ℕ) (b bs : List ℕ)
    → IsValid s
    → n ≤ sdsalloc s
    → length b ≡ length s.buf
    → take n b ≡ bs
    → Holds bs (record s { len = n % sds_bound s.type; buf = set b n 0 })
set_end-Holds s n b bs v le size e =
    cut-Holds s n (set b n 0) bs v le (length-set b n 0 ∙ size)
      (get_elem?-set_self b n 0 (omega (arith, v.room))) (take-set b n n 0 (omega arith) ∙ e)

-- The header that sdsnewlen writes over a block of `n + 1` bytes.
pub new-Holds :
    (n : ℕ) (b bs : List ℕ) (t : SdsType)
    → n < sds_bound t
    → length b ≡ n + 1
    → take n b ≡ bs
    → Holds bs
        (record { type = t; len = n % sds_bound t; alloc = n % sds_bound t; buf = set b n 0 })
new-Holds n b bs t small size e =
    let kept : n % sds_bound t ≡ n = len_mod n t small in
    let total = length-set b n 0 in
    record {
      valid = record {
        within = rw kept (ground arith);
        fits = rw kept (ground arith);
        room = rw kept (ground (arith, total));
        terminated = rw kept (get_elem?-set_self b n 0 (omega arith));
      };
      holds = rw kept (take-set b n n 0 (omega arith) ∙ e);
    }

pub newlen_type-bound : (n : ℕ) → n < size_mod → n < sds_bound (newlen_type n)
unfolding newlen_type
newlen_type-bound n h =
    let r = req_type-bound n h in ground (arith, r, not_type_5-bound n (sds_req_type n) r)

fill_bytes :
    (src : List ℕ) (n : ℕ) (b : List ℕ)
    → n ≤ length src
    → length b ≡ n + 1
    → (b' : List ℕ) × (fill (bytes src) n b ≡ ok b')
      × (length b' ≡ n + 1)
      × (take n b' ≡ take n src)
fill_bytes src n b le room =
    let held = length-take_le src n le in
    elim (Bool-cases (n == 0)) [
      | inl empty ↦ let none_left : n ≡ 0 = ground arith in (b, rw empty, room, rw none_left)
      | inr full ↦ (
        splice b 0 (take n src),
        rw (
          full,
          read_bytes-ok src 0 n (omega arith),
          memcpy-ok b 0 (take n src) (omega (arith, held, room)),
        ),
        omega (arith, length-splice b 0 (take n src), room),
        take-splice b 0 n _ (omega (arith, held)) (omega (arith, room)),
      )
    ]

module _ (m : Allocator) where
  -- sdsnewlen with the first `n` bytes of a block that has them, `n` being 32 below the range of
  -- size_t: no access leaves a block, NULL comes only from the allocator, and otherwise a valid
  -- string holds those bytes.
  pub sdsnewlen-Holds :
      (src : List ℕ) (n : ℕ)
      → n ≤ length src
      → n + 32 < size_mod
      → Safe (RunsOut m) (Holds (take n src)) (sdsnewlen m (bytes src) n)
  unfolding sdsnewlen
  sdsnewlen-Holds src n le small =
      let t = newlen_type n in
      let h = hdr_size_bounds t in
      let bound = newlen_type-bound n (omega arith) in
      elim (Option-cases (m.malloc (sds_hdr_size t) ((sds_hdr_size t + n + 1) % size_mod))) [
        | inl e ↦ rw e (safe_null (no_malloc _ _ e))
        | inr (b, e) ↦
            let room : length b ≡ n + 1 = omega (arith, m.length-malloc _ _ _ e, h) in
            let (b', filled, size, same) = fill_bytes src n b le room in
            rw (e, filled, poke-ok b' n 0 (omega (arith, size)))
              (safe_ok (new-Holds n b' _ t bound size same))
      ]

module _ (m : Allocator) where
  -- sdscatlen on a valid string, with a block of `n` bytes at least and a sum of lengths 2 ^ 21 below
  -- the range of size_t: no access leaves a block, NULL comes only from the allocator, and otherwise
  -- a valid string holds the old content and the block's first `n` bytes behind it.
  pub sdscatlen-Holds :
      (s : Sds) (t : List ℕ) (n : ℕ)
      → IsValid s
      → n ≤ length t
      → s.len + n + 2 ^ 21 < size_mod
      → Safe (RunsOut m) (Holds (content s ++ take n t)) (sdscatlen m s t n)
  unfolding sdscatlen sdssetlen
  sdscatlen-Holds s t n v le small =
      let held = length-take_le t n le in
      let total : (s.len + n) % size_mod ≡ s.len + n = omega arith in
      Safe-bind (make_room_for-HasRoom m s n v small) λ s' r.
        let fits : s.len + n + 1 ≤ length s'.buf = omega (arith, r.free, r.valid.room) in
        let b = splice s'.buf s.len (take n t) in
        let size = length-splice s'.buf s.len (take n t) in
        let front : take s.len s'.buf ≡ content s = rw r.len at r.same in
        rw
          (
            read_bytes-ok t 0 n (omega arith),
            memcpy-ok s'.buf s.len (take n t) (omega (arith, held)),
            total,
            poke-ok b (s.len + n) 0 (omega (arith, size)),
          )
          (safe_ok (
            set_end-Holds s' (s.len + n) b _ r.valid r.free size (
              take-splice s'.buf s.len (s.len + n) _ (omega (arith, held)) (omega arith)
              ∙ ap (λ l. l ++ take n t) front)))

  cpy_room :
      (s : Sds) (n : ℕ)
      → IsValid s
      → s.len + n + 2 ^ 21 < size_mod
      → Safe
          (RunsOut m)
          (λ s'. IsValid s' × (n ≤ sdsalloc s'))
          (if ltb (sdsalloc s) n then sds_make_room_for m s (n - s.len) else ok s)
  cpy_room s n v small = elim (Bool-cases (ltb (sdsalloc s) n)) [
    | inl short ↦ rw short (
        Safe-mono (make_room_for-HasRoom m s (n - s.len) v (omega arith))
          λ s' r. (r.valid, omega (arith, r.free)))
    | inr fits ↦ rw fits (safe_ok (v, ground arith))
  ]

  -- sdscpylen on a valid string, with a block of `n` bytes at least and a sum of lengths 2 ^ 21 below
  -- the range of size_t: no access leaves a block, NULL comes only from the allocator, and otherwise
  -- a valid string holds the block's first `n` bytes and nothing else.
  pub sdscpylen-Holds :
      (s : Sds) (t : List ℕ) (n : ℕ)
      → IsValid s
      → n ≤ length t
      → s.len + n + 2 ^ 21 < size_mod
      → Safe (RunsOut m) (Holds (take n t)) (sdscpylen m s t n)
  unfolding sdscpylen sdssetlen
  sdscpylen-Holds s t n v le small =
      let held = length-take_le t n le in
      Safe-bind (cpy_room s n v small) λ s' (v', free).
        let b = splice s'.buf 0 (take n t) in
        let size = length-splice s'.buf 0 (take n t) in
        rw
          (
            read_bytes-ok t 0 n (omega arith),
            memcpy-ok s'.buf 0 (take n t) (omega (arith, held, v'.room)),
            poke-ok b n 0 (omega (arith, size, v'.room)),
          )
          (safe_ok (
            set_end-Holds s' n b _ v' free size
              (take-splice s'.buf 0 n _ (omega (arith, held)) (omega (arith, v'.room)))))

  -- sdsgrowzero on a valid string, with a sum of lengths 2 ^ 21 below the range of size_t: no access
  -- leaves a block, NULL comes only from the allocator, and otherwise a valid string holds the old
  -- content with zero bytes behind it up to `n`, or the old content alone if it is that long.
  pub sdsgrowzero-Holds :
      (s : Sds) (n : ℕ)
      → IsValid s
      → s.len + n + 2 ^ 21 < size_mod
      → Safe (RunsOut m) (Holds (content s ++ replicate (n - s.len) 0)) (sdsgrowzero m s n)
  unfolding sdsgrowzero sdssetlen
  sdsgrowzero-Holds s n v small = elim (Bool-cases (leb n s.len)) [
    | inl long ↦
        let nothing : n - s.len ≡ 0 = ground arith in
        rw (long, nothing, append-nil) (safe_ok (record { valid = v; holds = refl }))
    | inr short ↦ rw short (
        Safe-bind (make_room_for-HasRoom m s (n - s.len) v (ground arith)) λ s' r.
          let k : ℕ = n - s.len in
          let zs : List ℕ = replicate (k + 1) 0 in
          let b = splice s'.buf s.len zs in
          let front : take s.len s'.buf ≡ content s = rw r.len at r.same in
          let lz = length-replicate (k + 1) zero in
          let fits : s.len + (k + 1) ≤ length s'.buf = omega (arith, r.free, r.valid.room) in
          let whole =
            take-splice s'.buf s.len (n + 1) zs (ground (arith, lz)) (ground (arith, fits)) in
          let lf = length-take_le s'.buf s.len (omega (arith, fits)) in
          rw (memcpy-ok s'.buf s.len zs (omega (arith, lz, fits))) (
            safe_ok (
              cut-Holds s' n b _ r.valid (ground (arith, r.free)) (length-splice s'.buf s.len zs)
                (sym (get_elem?-take b n (n + 1) (omega arith))
                  ∙ ap (λ l. get_elem? l n) whole
                  ∙ get_elem?-append_add (take s.len s'.buf) zs k n (ground (arith, lf))
                  ∙ get_elem?-replicate (k + 1) k 0 (omega arith))
                (sym (take-take b n (n + 1) (omega arith))
                  ∙ ap (take n) whole
                  ∙ take-append_add (take s.len s'.buf) zs k n (ground (arith, lf))
                  ∙ ap₂ (◌++◌) front (take-replicate k (k + 1) 0 (omega arith))))))
  ]

  -- sdsdup: a valid copy.
  pub sdsdup-Holds :
      (s : Sds)
      → IsValid s
      → s.len + 32 < size_mod
      → Safe (RunsOut m) (Holds (content s)) (sdsdup m s)
  unfolding sdsdup
  sdsdup-Holds s v small = sdsnewlen-Holds m s.buf s.len (omega (arith, v.within, v.room)) small
