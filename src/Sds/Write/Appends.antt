-- ===== src/Sds/Write/Appends.antt =====
-- sds.c: bytes put behind the content of a string, by a run of calls of which each may be refused.
use decompose_redis.Base.{ℕ, ◌+◌, ◌^◌, ◌≤◌, ◌<◌, ◌≡◌, sym, ap, ◌∙◌, List, ◌++◌, length, take, arith}
use decompose_redis.Base.Outcome.{null, Unless, refusing, Unless-mono}
use decompose_redis.Sds.{Sds, IsValid, Holds, content, size_mod}
use decompose_redis.Sds.Memory.{Allocator}
use decompose_redis.Sds.Memory.Laws.{length-take_le, take-length}
use decompose_redis.Sds.Write.{sdscatlen}
use decompose_redis.Sds.Write.Laws.{sdscatlen-Holds}

-- The length field counts the bytes held.
pub Holds-len : (s : Sds) {bs : List ℕ} → Holds bs s → s.len ≡ length bs
Holds-len s h =
    sym (length-take_le s.buf s.len (omega (arith, h.valid.within, h.valid.room)))
    ∙ ap length h.holds

-- sdscatlen gives NULL in the middle of the work: for a valid string that holds the first bytes of
-- `whole`, and the bytes that follow them there.
pub record NoRoom (m : Allocator) (whole : List ℕ) : Type 0 where
  pub so_far : Sds
  pub source : List ℕ
  pub count : ℕ
  pub rest : List ℕ
  pub valid : IsValid so_far
  pub cut : content so_far ++ (take count source ++ rest) ≡ whole
  pub refused : sdscatlen m so_far source count ≡ null

module _ (m : Allocator) where
  -- sdscatlen goes on from the bytes `bs` of `whole` to the next.
  pub sdscatlen-part :
      (s : Sds) (bs t : List ℕ) (n : ℕ) (rest whole : List ℕ)
      → Holds bs s
      → n ≤ length t
      → length bs + n + 2 ^ 21 < size_mod
      → bs ++ (take n t ++ rest) ≡ whole
      → Unless (NoRoom m whole) (Holds (bs ++ take n t)) (sdscatlen m s t n)
  sdscatlen-part s bs t n rest whole h le small e =
      Unless-mono
        (refusing (sdscatlen-Holds m s t n h.valid le (omega (arith, Holds-len s h))) λ r. record {
          so_far = s;
          source = t;
          count = n;
          rest = rest;
          valid = h.valid;
          cut = ap (λ x. x ++ (take n t ++ rest)) h.holds ∙ e;
          refused = r;
        })
        λ s' k. record { valid = k.valid; holds = k.holds ∙ ap (λ x. x ++ take n t) h.holds }

  -- The same with a whole block.
  pub sdscatlen-whole :
      (s : Sds) (bs t rest whole : List ℕ)
      → Holds bs s
      → length bs + length t + 2 ^ 21 < size_mod
      → bs ++ (t ++ rest) ≡ whole
      → Unless (NoRoom m whole) (Holds (bs ++ t)) (sdscatlen m s t (length t))
  sdscatlen-whole s bs t rest whole h small e =
      Unless-mono
        (sdscatlen-part s bs t (length t) rest whole h (omega arith) small
          (ap (λ x. bs ++ (x ++ rest)) (take-length t) ∙ e))
        λ s' k. record { valid = k.valid; holds = k.holds ∙ ap (λ x. bs ++ x) (take-length t) }
