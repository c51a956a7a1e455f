-- ===== src/Sds/Split/Compare.antt =====
-- sds.c: what the sign of sdscmp says.
use decompose_redis.Base.{
  ℕ, zero, suc, ◌≤◌, ◌≡◌, ◌↔◌, refl, sym, ap, ◌∙◌, false, List, [], ◌∷◌, ltb, if◌then◌else◌, length,
  take, arith,
}
use decompose_redis.Base.Int.{ℤ, pos, negsuc}
use decompose_redis.Sds.{Sds, IsValid, content}
use decompose_redis.Sds.Memory.Laws.{length-take_le}
use decompose_redis.Sds.Split.{memcmp, is_zero, sdscmp}

memcmp-same : (a b : List ℕ) (n : ℕ) → take n a ≡ take n b → memcmp a b n ≡ pos 0
unfolding memcmp
memcmp-same a b zero e = refl
memcmp-same [] b (suc n) e = refl
memcmp-same (x ∷ a) [] (suc n) e = refl
memcmp-same (x ∷ a) (y ∷ b) (suc n) e =
    let h : x ≡ y = cc in
    let t : take n a ≡ take n b = cc in rw (h, memcmp-same a b n t) (ground arith)

memcmp-zero :
    (a b : List ℕ) (n : ℕ)
    → n ≤ length a
    → n ≤ length b
    → memcmp a b n ≡ pos 0
    → take n a ≡ take n b
unfolding memcmp
memcmp-zero a b zero ha hb e = refl
memcmp-zero [] b (suc n) ha hb e = absurd (omega arith)
memcmp-zero (x ∷ a) [] (suc n) ha hb e = absurd (omega arith)
memcmp-zero (x ∷ a) (y ∷ b) (suc n) ha hb e =
    let h : x ≡ y = ground arith in
    let r : memcmp a b n ≡ pos 0 = ground arith in
    rw (h, memcmp-zero a b n (omega arith) (omega arith) r) refl

-- The lengths decide where no byte differs.
by_length :
    (l1 l2 : ℕ) (c : ℤ)
    → (if is_zero c
        then (if ltb l2 l1 then pos 1 else if ltb l1 l2 then negsuc 0 else pos 0)
        else c)
      ≡ pos 0
    → (c ≡ pos 0) × (l1 ≡ l2)
by_length l1 l2 (pos zero) e = (refl, ground arith)
by_length l1 l2 (pos (suc n)) e = ground arith
by_length l1 l2 (negsuc n) e = ground arith

-- sdscmp of two valid strings is 0 exactly when they hold the same bytes.
pub sdscmp-zero :
    (s t : Sds) → IsValid s → IsValid t → (sdscmp s t ≡ pos 0) ↔ (content s ≡ content t)
unfolding sdscmp
sdscmp-zero s t v w = (
  λ e.
      let n : ℕ = if ltb s.len t.len then s.len else t.len in
      let d = by_length s.len t.len (memcmp s.buf t.buf n) e in
      let same : n ≡ s.len = ground arith in
      let z : memcmp s.buf t.buf s.len ≡ pos 0 = rw same at d.0 in
      let b : take s.len s.buf ≡ take s.len t.buf =
        memcmp-zero s.buf t.buf s.len (omega (arith, v.within, v.room))
          (omega (arith, w.within, w.room, d.1)) z in
      b ∙ ap (λ k. take k t.buf) d.1,
  λ e.
      let l : s.len ≡ t.len =
        sym (length-take_le s.buf s.len (omega (arith, v.within, v.room)))
        ∙ ap length e
        ∙ length-take_le t.buf t.len (omega (arith, w.within, w.room)) in
      let z : memcmp s.buf t.buf s.len ≡ pos 0 =
        memcmp-same s.buf t.buf s.len (e ∙ ap (λ k. take k t.buf) (sym l)) in
      let z' : memcmp s.buf t.buf t.len ≡ pos 0 = ap (λ k. memcmp s.buf t.buf k) (sym l) ∙ z in
      let below : ltb s.len t.len ≡ false = ground arith in
      let above : ltb t.len s.len ≡ false = ground arith in rw (below, above, z') refl,
)
