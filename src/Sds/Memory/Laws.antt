-- ===== src/Sds/Memory/Laws.antt =====
-- The laws of blocks of bytes: what a read gives after a write.
use decompose_redis.Base.{
  ℕ, suc, zero, ◌+◌, ◌≤◌, ◌<◌, ◌≡◌, refl, ap, List, [], ◌∷◌, ◌++◌, arith, length, take, drop, set,
  get_elem?,
}
use decompose_redis.Base.Outcome.{ok}
use decompose_redis.Sds.Memory.{splice, memcpy, read_bytes, poke}

pub memcpy-ok :
    (b : List ℕ) (i : ℕ) (t : List ℕ) → i + length t ≤ length b → memcpy b i t ≡ ok (splice b i t)
unfolding memcpy
memcpy-ok b i t h = ground arith

pub read_bytes-ok :
    (b : List ℕ) (i n : ℕ) → i + n ≤ length b → read_bytes b i n ≡ ok (take n (drop i b))
unfolding read_bytes
read_bytes-ok b i n h = ground arith

pub poke-ok : (b : List ℕ) (i v : ℕ) → i < length b → poke b i v ≡ ok (set b i v)
unfolding poke
poke-ok b i v h = ground arith

pub length-splice : (b : List ℕ) (i : ℕ) (t : List ℕ) → length (splice b i t) ≡ length b
length-splice [] i t = refl
length-splice (x ∷ xs) (suc i) t = ap suc (length-splice xs i t)
length-splice (x ∷ xs) zero [] = refl
length-splice (x ∷ xs) zero (c ∷ t) = ap suc (length-splice xs zero t)

-- After a write of `t` at `i` the first `n = i + length t` bytes are the old first `i`, then `t`.
pub take-splice :
    (b : List ℕ) (i n : ℕ) (t : List ℕ)
    → n ≡ i + length t
    → n ≤ length b
    → take n (splice b i t) ≡ take i b ++ t
take-splice [] i zero t e h = ground (arith)
take-splice [] i (suc n) t e h = absurd (omega arith)
take-splice (x ∷ xs) zero zero [] e h = refl
take-splice (x ∷ xs) zero zero (c ∷ t) e h = absurd (omega arith)
take-splice (x ∷ xs) zero (suc n) [] e h = absurd (omega arith)
take-splice (x ∷ xs) zero (suc n) (c ∷ t) e h =
    ap (◌∷◌ c) (take-splice xs zero n t (omega arith) (omega arith))
take-splice (x ∷ xs) (suc i) zero t e h = absurd (omega arith)
take-splice (x ∷ xs) (suc i) (suc n) t e h =
    ap (◌∷◌ x) (take-splice xs i n t (omega arith) (omega arith))

-- A write behind the first `n` bytes leaves them.
pub take-set : (b : List ℕ) (i n v : ℕ) → n ≤ i → take n (set b i v) ≡ take n b
take-set [] i zero v h = refl
take-set [] i (suc n) v h = refl
take-set (x ∷ xs) i zero v h = refl
take-set (x ∷ xs) zero (suc n) v h = absurd (omega arith)
take-set (x ∷ xs) (suc i) (suc n) v h = ap (◌∷◌ x) (take-set xs i n v (omega arith))

pub take-take : (b : List ℕ) (m n : ℕ) → m ≤ n → take m (take n b) ≡ take m b
take-take b zero n h = refl
take-take b (suc m) zero h = absurd (omega arith)
take-take [] (suc m) (suc n) h = refl
take-take (x ∷ xs) (suc m) (suc n) h = ap (◌∷◌ x) (take-take xs m n (omega arith))

pub length-take_le : (b : List ℕ) (n : ℕ) → n ≤ length b → length (take n b) ≡ n
length-take_le b zero h = refl
length-take_le [] (suc n) h = absurd (omega arith)
length-take_le (x ∷ xs) (suc n) h = ap suc (length-take_le xs n (omega arith))

-- Blocks that agree on their first `n` bytes agree at every position below.
pub get_elem?-take : (b : List ℕ) (i n : ℕ) → i < n → get_elem? (take n b) i ≡ get_elem? b i
get_elem?-take b i zero h = absurd (omega arith)
get_elem?-take [] i (suc n) h = refl
get_elem?-take (x ∷ xs) zero (suc n) h = refl
get_elem?-take (x ∷ xs) (suc i) (suc n) h = get_elem?-take xs i n (omega arith)

pub take-append_length : (xs ys : List ℕ) → take (length xs) (xs ++ ys) ≡ xs
take-append_length [] ys = refl
take-append_length (x ∷ xs) ys = ap (◌∷◌ x) (take-append_length xs ys)

pub take-length : (xs : List ℕ) → take (length xs) xs ≡ xs
take-length [] = refl
take-length (x ∷ xs) = ap (◌∷◌ x) (take-length xs)
