-- ===== src/Sds/Repr/Append.antt =====
-- sdscatrepr on a string: what it appends, and that sdssplitargs reads it back.
use decompose_redis.Base.{
  ℕ, ◌+◌, ◌*◌, ◌^◌, ◌≤◌, ◌<◌, ◌≡◌, refl, sym, ap, ◌∙◌, List, [], ◌∷◌, ◌++◌, length, arith,
  length-append,
}
use mathlib.Core.List.{append-nil, append_assoc}
use decompose_redis.Base.Outcome.{Unless, unless_ok, used-Unless, Unless-bind, Unless-mono}
use decompose_redis.Sds.{Sds, IsValid, Holds, content, size_mod}
use decompose_redis.Sds.Memory.{Allocator}
use decompose_redis.Sds.Write.Appends.{NoRoom, sdscatlen-whole}
use decompose_redis.Sds.Ctype.{Ctype}
use decompose_redis.Sds.Repr.{escape, escape_all, repr_loop, sdscatrepr, parsed, sdssplitargs}
use decompose_redis.Sds.Repr.RoundTrip.{AreBytes, sdssplitargs-quoted}

module _ (t : Ctype) where
  length-escape : (c : ℕ) → length (escape t c) ≤ 4
  unfolding escape
  length-escape c = ground arith

module _ (t : Ctype) where
  length-escape_all : (p : List ℕ) → length (escape_all t p) ≤ 4 * length p
  unfolding escape_all
  length-escape_all [] = omega arith
  length-escape_all (c ∷ p) =
      omega
        (arith, length-escape t c, length-escape_all p, length-append (escape t c) (escape_all t p))

module _ (t : Ctype) (m : Allocator) where
  repr_loop-Holds :
      (p : List ℕ) (s : Sds) (bs rest whole : List ℕ)
      → Holds bs s
      → length bs + 4 * length p + 2 ^ 21 < size_mod
      → bs ++ (escape_all t p ++ rest) ≡ whole
      → Unless (NoRoom m whole) (Holds (bs ++ escape_all t p)) (repr_loop t m s p)
  unfolding repr_loop escape_all
  repr_loop-Holds [] s bs rest whole h small e =
      unless_ok (record { valid = h.valid; holds = h.holds ∙ sym (append-nil bs) })
  repr_loop-Holds (c ∷ p) s bs rest whole h small e =
      let short = length-escape t c in
      let l = length-append bs (escape t c) in
      let next : bs ++ (escape t c ++ (escape_all t p ++ rest)) ≡ whole =
        ap (λ x. bs ++ x) (sym (append_assoc (escape t c) (escape_all t p) rest)) ∙ e in
      Unless-bind
        (used-Unless (
          sdscatlen-whole m s bs (escape t c) (escape_all t p ++ rest) whole h
            (omega (arith, short)) next))
        λ s' h'.
          Unless-mono
            (repr_loop-Holds p s' (bs ++ escape t c) rest whole h' (omega (arith, short, l))
              (append_assoc bs (escape t c) (escape_all t p ++ rest) ∙ next))
            λ s'' k. record {
              valid = k.valid;
              holds = k.holds ∙ append_assoc bs (escape t c) (escape_all t p);
            }

  -- sdscatrepr on a valid empty string, of bytes whose printed form is sure to stay 2 ^ 21 below the
  -- range of size_t: a valid string holds a double quote, the printed bytes and a double quote, or
  -- sdscatlen was refused memory on the way.
  pub sdscatrepr-Holds :
      (s : Sds) (p : List ℕ)
      → Holds [] s
      → 4 * length p + 2 + 2 ^ 21 < size_mod
      → let whole = 0x22 ∷ (escape_all t p ++ 0x22 ∷ []) in
        Unless (NoRoom m whole) (Holds whole) (sdscatrepr t m s p)
  unfolding sdscatrepr
  sdscatrepr-Holds s p h small =
      let whole : List ℕ = 0x22 ∷ (escape_all t p ++ 0x22 ∷ []) in
      let printed : List ℕ = 0x22 ∷ escape_all t p in
      let quote : List ℕ = 0x22 ∷ [] in
      Unless-bind
        (used-Unless
          (sdscatlen-whole m s [] quote (escape_all t p ++ quote) whole h (omega arith) refl))
        λ s1 h1. Unless-bind (repr_loop-Holds p s1 quote quote whole h1 (omega arith) refl) λ s2 h2.
          sdscatlen-whole m s2 printed quote [] whole h2 (omega (arith, length-escape_all t p)) refl

  -- What sdscatrepr prints of some bytes on a valid empty string, sdssplitargs reads as one argument,
  -- those bytes, if the printed form is sure to stay 2 ^ 21 below the range of size_t. sdscatrepr gives
  -- that string, unless a call of sdscatlen is refused memory when a first part of it has been printed;
  -- only then the result is NULL, or NULL is gone through.
  pub sdssplitargs-sdscatrepr :
      (s : Sds) (p : List ℕ)
      → IsValid s
      → s.len ≡ 0
      → AreBytes p
      → 4 * length p + 2 + 2 ^ 21 < size_mod
      → Unless
          (NoRoom m (0x22 ∷ (escape_all t p ++ 0x22 ∷ [])))
          (λ s'. sdssplitargs t (content s') ≡ parsed (p ∷ []))
          (sdscatrepr t m s p)
  sdssplitargs-sdscatrepr s p v empty b small =
      let none_before : content s ≡ [] = rw empty in
      Unless-mono (sdscatrepr-Holds s p (record { valid = v; holds = none_before }) small)
        λ s' h. rw h.holds (sdssplitargs-quoted t p [] b tt)
