-- ===== src/Endian/Laws.antt =====
-- endianconv.c: the bytes come out in reverse order, and a second reversal restores them.
use decompose_redis.Base.{
  ℕ, zero, suc, ◌+◌, ◌*◌, ◌/◌, ◌%◌, ◌^◌, ◌<◌, ◌≤◌, ◌≡◌, refl, sym, ap, ◌∙◌, List, [], ◌∷◌, ◌++◌,
  length, take, drop, arith,
}
use decompose_redis.Base.Outcome.{Outcome, ok}
use decompose_redis.Endian.{
  swap_bytes, memrev16, memrev32, memrev64, stored, loaded, intrev16, intrev32, intrev64,
}

-- The first `n` elements in reverse order, before `back`.
abbrev pub reversed_onto : List ℕ → List ℕ → List ℕ
reversed_onto [] back = back
reversed_onto (c ∷ b) back = reversed_onto b (c ∷ back)

abbrev pub reversed : List ℕ → List ℕ
reversed b = reversed_onto b []

rev16 : (b : List ℕ) → 2 ≤ length b → memrev16 b ≡ ok (reversed (take 2 b) ++ drop 2 b)
unfolding memrev16 swap_bytes
rev16 [] h = absurd (omega arith)
rev16 (x ∷ []) h = absurd (omega arith)
rev16 (x ∷ y ∷ b) h = refl

rev32 : (b : List ℕ) → 4 ≤ length b → memrev32 b ≡ ok (reversed (take 4 b) ++ drop 4 b)
unfolding memrev32 swap_bytes
rev32 [] h = absurd (omega arith)
rev32 (x ∷ []) h = absurd (omega arith)
rev32 (x ∷ y ∷ []) h = absurd (omega arith)
rev32 (x ∷ y ∷ z ∷ []) h = absurd (omega arith)
rev32 (x ∷ y ∷ z ∷ w ∷ b) h = refl

rev64 : (b : List ℕ) → 8 ≤ length b → memrev64 b ≡ ok (reversed (take 8 b) ++ drop 8 b)
unfolding memrev64 swap_bytes
rev64 [] h = absurd (omega arith)
rev64 (x ∷ []) h = absurd (omega arith)
rev64 (x ∷ y ∷ []) h = absurd (omega arith)
rev64 (x ∷ y ∷ z ∷ []) h = absurd (omega arith)
rev64 (x ∷ y ∷ z ∷ w ∷ []) h = absurd (omega arith)
rev64 (x ∷ y ∷ z ∷ w ∷ p ∷ []) h = absurd (omega arith)
rev64 (x ∷ y ∷ z ∷ w ∷ p ∷ q ∷ []) h = absurd (omega arith)
rev64 (x ∷ y ∷ z ∷ w ∷ p ∷ q ∷ r ∷ []) h = absurd (omega arith)
rev64 (x ∷ y ∷ z ∷ w ∷ p ∷ q ∷ r ∷ s ∷ b) h = refl

-- The three functions of a kind, by the number of bytes.
pub data Width : Type 0 where
  two four eight : Width

abbrev pub byte_count : Width → ℕ
byte_count two = 2
byte_count four = 4
byte_count eight = 8

abbrev pub memrev : Width → List ℕ → Outcome (List ℕ)
memrev two = memrev16
memrev four = memrev32
memrev eight = memrev64

abbrev pub intrev : Width → ℕ → Outcome ℕ
intrev two = intrev16
intrev four = intrev32
intrev eight = intrev64

-- memrev16, memrev32 and memrev64 on a block of that many bits at least: no access leaves the block,
-- its first bytes come out in reverse order, and the others stay.
pub memrev-reversed :
    (w : Width) (b : List ℕ)
    → byte_count w ≤ length b
    → memrev w b ≡ ok (reversed (take (byte_count w) b) ++ drop (byte_count w) b)
memrev-reversed two b h = rev16 b h
memrev-reversed four b h = rev32 b h
memrev-reversed eight b h = rev64 b h

abbrev pub AreBytes : List ℕ → Type 0
AreBytes [] = Unit {0}
AreBytes (c ∷ b) = (c < 256) × AreBytes b

stored-AreBytes : (n v : ℕ) → AreBytes (stored n v)
stored-AreBytes zero v = tt
stored-AreBytes (suc n) v = (omega arith, stored-AreBytes n (v / 256))

stored-loaded : (b : List ℕ) → AreBytes b → stored (length b) (loaded b) ≡ b
stored-loaded [] h = refl
stored-loaded (c ∷ b) h =
    let low : (c + 256 * loaded b) % 256 ≡ c = omega (arith, h.0) in
    let high : (c + 256 * loaded b) / 256 ≡ loaded b = omega (arith, h.0) in
    rw (low, high, stored-loaded b h.1) refl

reversed_onto-AreBytes :
    (b back : List ℕ) → AreBytes b → AreBytes back → AreBytes (reversed_onto b back)
reversed_onto-AreBytes [] back h k = k
reversed_onto-AreBytes (c ∷ b) back h k = reversed_onto-AreBytes b (c ∷ back) h.1 (h.0, k)

-- 256 ^ n, by clauses.
abbrev pub values : ℕ → ℕ
values zero = 1
values (suc n) = 256 * values n

loaded-stored : (n v : ℕ) → v < values n → loaded (stored n v) ≡ v
loaded-stored zero v h = omega arith
loaded-stored (suc n) v h =
    let ih : loaded (stored n (v / 256)) ≡ v / 256 = loaded-stored n (v / 256) (omega arith) in
    rw ih (omega arith)

loaded-below : (b : List ℕ) → AreBytes b → loaded b < values (length b)
loaded-below [] h = omega arith
loaded-below (c ∷ b) h = omega (arith, h.0, loaded-below b h.1)

-- `w` is the integer of `n` bytes with those of `v` in the other order.
pub record IsSwapped (n v w : ℕ) : Type 0 where
  pub in_range : w < values n
  pub other_order : stored n w ≡ reversed (stored n v)

stored-injective : (n u v : ℕ) → u < values n → v < values n → stored n u ≡ stored n v → u ≡ v
stored-injective n u v hu hv e = sym (loaded-stored n u hu) ∙ ap loaded e ∙ loaded-stored n v hv

swapped16 : (v : ℕ) → (w : ℕ) × (intrev16 v ≡ ok w) × IsSwapped 2 v w
unfolding intrev16 memrev16 swap_bytes
swapped16 v =
    let b : List ℕ = reversed (stored 2 v) in
    let bytes : AreBytes b = reversed_onto-AreBytes (stored 2 v) [] (stored-AreBytes 2 v) tt in
    (
      loaded b,
      refl,
      record { in_range = loaded-below b bytes; other_order = stored-loaded b bytes },
    )

swapped32 : (v : ℕ) → (w : ℕ) × (intrev32 v ≡ ok w) × IsSwapped 4 v w
unfolding intrev32 memrev32 swap_bytes
swapped32 v =
    let b : List ℕ = reversed (stored 4 v) in
    let bytes : AreBytes b = reversed_onto-AreBytes (stored 4 v) [] (stored-AreBytes 4 v) tt in
    (
      loaded b,
      refl,
      record { in_range = loaded-below b bytes; other_order = stored-loaded b bytes },
    )

swapped64 : (v : ℕ) → (w : ℕ) × (intrev64 v ≡ ok w) × IsSwapped 8 v w
unfolding intrev64 memrev64 swap_bytes
swapped64 v =
    let b : List ℕ = reversed (stored 8 v) in
    let bytes : AreBytes b = reversed_onto-AreBytes (stored 8 v) [] (stored-AreBytes 8 v) tt in
    (
      loaded b,
      refl,
      record { in_range = loaded-below b bytes; other_order = stored-loaded b bytes },
    )

-- An integer that `f` reverses to one of `n` bytes in the other order, and that one to it again.
abbrev pub Swaps : ℕ → (ℕ → Outcome ℕ) → ℕ → Type 0
Swaps n f v = (w : ℕ) × (f v ≡ ok w) × IsSwapped n v w × (f w ≡ ok v)

twice16 : (v : ℕ) → v < 2 ^ 16 → Swaps 2 intrev16 v
twice16 v h =
    let (w, e, s) = swapped16 v in
    let (u, e', s') = swapped16 w in
    let same : stored 2 u ≡ stored 2 v = s'.other_order ∙ ap reversed s.other_order in
    (w, e, s, e' ∙ ap ok (stored-injective 2 u v s'.in_range h same))

twice32 : (v : ℕ) → v < 2 ^ 32 → Swaps 4 intrev32 v
twice32 v h =
    let (w, e, s) = swapped32 v in
    let (u, e', s') = swapped32 w in
    let same : stored 4 u ≡ stored 4 v = s'.other_order ∙ ap reversed s.other_order in
    (w, e, s, e' ∙ ap ok (stored-injective 4 u v s'.in_range h same))

twice64 : (v : ℕ) → v < 2 ^ 64 → Swaps 8 intrev64 v
twice64 v h =
    let (w, e, s) = swapped64 v in
    let (u, e', s') = swapped64 w in
    let same : stored 8 u ≡ stored 8 v = s'.other_order ∙ ap reversed s.other_order in
    (w, e, s, e' ∙ ap ok (stored-injective 8 u v s'.in_range h same))

-- intrev16, intrev32 and intrev64 on an integer in their range: the result is in the range, its bytes
-- in memory are those of the argument in the other order, and reversed again it is the argument.
pub intrev-Swaps :
    (w : Width) (v : ℕ) → v < 2 ^ (8 * byte_count w) → Swaps (byte_count w) (intrev w) v
intrev-Swaps two v h = twice16 v h
intrev-Swaps four v h = twice32 v h
intrev-Swaps eight v h = twice64 v h
