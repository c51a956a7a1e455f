-- ===== src/Sds/Split/Laws.antt =====
-- sds.c: what sdssplitlen cuts and what sdsjoinsds puts together.
use decompose_redis.Base.{
  ℕ, zero, suc, ◌+◌, ◌-◌, ◌*◌, ◌%◌, ◌≤◌, ◌<◌, ◌≡◌, refl, sym, ap, ◌∙◌, ◌⊎◌, true, false, Bool-cases,
  List, [], ◌∷◌, ◌++◌, ltb, ◌==◌, length, drop, take, length-drop, take_long, Option-cases, arith,
  tests, lt→ltb, ltb→lt, ◌^◌, inl, inr,
}
use decompose_redis.Base.Int.{pos}
use decompose_redis.Base.Outcome.{ok, Safe, safe_ok, safe_null, Safe-bind, Safe-mono}
use decompose_redis.Sds.{Sds, IsValid, Holds, content, size_mod}
use decompose_redis.Sds.Memory.{Allocator, RunsOut, no_malloc, no_realloc}
use decompose_redis.Sds.Memory.Laws.{read_bytes-ok, length-take_le, take-take}
use decompose_redis.Sds.Write.Laws.{sdsnewlen-Holds}
use decompose_redis.Sds.Split.{same_bytes, sep_at, new_token, more_slots, split_loop, sdssplitlen}

-- The contents with the separator between them.
abbrev pub joined : List ℕ → List Sds → List ℕ
joined sep [] = []
joined sep (t ∷ []) = content t
joined sep (t ∷ u ∷ ts) = content t ++ (sep ++ joined sep (u ∷ ts))

abbrev pub AllValid : List Sds → Type 0
AllValid [] = Unit {0}
AllValid (t ∷ ts) = IsValid t × AllValid ts

-- Tokens of which there is one at least, with the contents `bs` in all.
pub record Cuts (sep bs : List ℕ) (ts : List Sds) : Type 0 where
  pub valid : AllValid ts
  pub whole : joined sep ts ≡ bs
  pub some_token : 1 ≤ length ts

same_bytes-eq : (a b : List ℕ) → same_bytes a b ≡ true → a ≡ b
unfolding same_bytes
same_bytes-eq [] [] h = refl
same_bytes-eq [] (y ∷ b) h = ground arith
same_bytes-eq (x ∷ a) [] h = ground arith
same_bytes-eq (x ∷ a) (y ∷ b) h = elim (Bool-cases (x == y)) [
  | inl e ↦
      let q : x ≡ y = ground arith in
      let r : same_bytes a b ≡ true = ground arith in rw (q, same_bytes-eq a b r) refl
  | inr e ↦ ground arith
]

take-add : (n k c : ℕ) (s : List ℕ) → c ≡ n + k → take c s ≡ take n s ++ take k (drop n s)
take-add zero k c s e = ap (λ i. take i s) (omega arith)
take-add (suc n) k zero s e = absurd (omega arith)
take-add (suc n) zero (suc c) [] e = refl
take-add (suc n) (suc k) (suc c) [] e = refl
take-add (suc n) k (suc c) (x ∷ s) e = ap (◌∷◌ x) (take-add n k c s (omega arith))

drop-add : (i n c : ℕ) (s : List ℕ) → c ≡ i + n → drop n (drop i s) ≡ drop c s
drop-add zero n c s e = ap (λ i. drop i s) (omega arith)
drop-add (suc i) n zero s e = absurd (omega arith)
drop-add (suc i) zero (suc c) [] e = refl
drop-add (suc i) (suc n) (suc c) [] e = refl
drop-add (suc i) n (suc c) (x ∷ s) e = drop-add i n c s (omega arith)

-- The separator at `j` parts what is left from `start`.
part-eq :
    (s sep : List ℕ) (len start j w : ℕ)
    → start ≤ j
    → j + w ≤ len
    → take w (drop j s) ≡ sep
    → take (len - start) (drop start s)
      ≡ take (j - start) (drop start s) ++ (sep ++ take (len - (j + w)) (drop (j + w) s))
part-eq s sep len start j w h k e =
    take-add (j - start) (len - j) (len - start) (drop start s) (omega arith)
    ∙ rw (drop-add start (j - start) j s (omega arith)) (
        rw
          (
            take-add w (len - (j + w)) (len - j) (drop j s) (omega arith),
            drop-add j w (j + w) s refl,
            e,
          )
          refl)

joined-cons :
    (sep bs : List ℕ) (t : Sds) (ts : List Sds)
    → Cuts sep bs ts
    → joined sep (t ∷ ts) ≡ content t ++ (sep ++ bs)
joined-cons sep bs t [] c = absurd (omega (arith, c.some_token))
joined-cons sep bs t (u ∷ ts) c = rw c.whole refl

cut :
    {bs cs whole : List ℕ} (sep : List ℕ) (t : Sds) (ts : List Sds)
    → Holds cs t
    → Cuts sep bs ts
    → whole ≡ cs ++ (sep ++ bs)
    → Cuts sep whole (t ∷ ts)
cut {bs} sep t ts h c e = record {
  valid = (h.valid, c.valid);
  whole = joined-cons sep bs t ts c ∙ ap (λ x. x ++ (sep ++ bs)) h.holds ∙ sym e;
  some_token = omega arith;
}

module _ (m : Allocator) (s : List ℕ) (len : ℕ) (sep : List ℕ) (k : ℕ) where
  new_token-Holds :
      (slots elements start n : ℕ)
      → start + n ≤ length s
      → n + 32 < size_mod
      → elements < slots
      → Safe
          (RunsOut m)
          (Holds (take n (drop start s)))
          (new_token m s len sep (suc k) slots elements start n)
  unfolding new_token
  new_token-Holds slots elements start n h small room =
      let part = take n (drop start s) in
      let same : take n part ≡ part = take-take (drop start s) n n (omega arith) in
      let l : length part ≡ n =
        length-take_le (drop start s) n (omega (arith, length-drop start s)) in
      rw (read_bytes-ok s start n h) (
        Safe-bind (sdsnewlen-Holds m part n (omega (arith, l)) small) λ t holds.
          let h : Holds part t = rw same at holds in rw (lt→ltb elements slots room) (safe_ok h))

  more_slots-room :
      (slots elements : ℕ)
      → elements < slots
      → elements ≤ len
      → len + 2 ≤ 2 ^ 30
      → Safe
          (RunsOut m)
          (λ slots'. elements + 1 < slots')
          (more_slots m s len sep (suc k) slots elements)
  unfolding more_slots
  more_slots-room slots elements room few small = elim (Bool-cases (ltb slots (elements + 2))) [
    | inl e ↦
        let within : ltb (slots * 2) (2 ^ 31) ≡ true =
          lt→ltb (slots * 2) (2 ^ 31) (omega (arith, ltb→lt slots (elements + 2) e)) in
        elim (Option-cases (m.realloc 0 [] ((8 * (slots * 2)) % size_mod))) [
          | inl n ↦ rw (e, within, n) (safe_null (no_realloc _ _ _ n))
          | inr (b, n) ↦ rw (e, within, n) (safe_ok (omega arith))
        ]
    | inr e ↦ rw e (safe_ok (ground arith))
  ]

  sep_at-cases :
      (j : ℕ)
      → j + suc k ≤ len
      → len ≤ length s
      → length sep ≡ suc k
      → ((sep_at m s len sep (suc k) j ≡ ok true) × (take (suc k) (drop j s) ≡ sep))
        ⊎ (sep_at m s len sep (suc k) j ≡ ok false)
  unfolding sep_at
  sep_at-cases j h hl hs =
      let here : List ℕ = take (suc k) (drop j s) in
      let want : List ℕ = take (suc k) sep in
      let whole : want ≡ sep = take_long sep (suc k) (omega arith) in
      elim (Bool-cases (same_bytes here want)) [
        | inl e ↦ inl (
          rw (read_bytes-ok s j (suc k) (omega arith), read_bytes-ok sep 0 (suc k) (omega arith), e)
              refl,
          same_bytes-eq here want e ∙ whole,
        )
        | inr e ↦ inr (
            rw
              (
                read_bytes-ok s j (suc k) (omega arith),
                read_bytes-ok sep 0 (suc k) (omega arith),
                e,
              )
              refl)
      ]

  split_loop-Cuts :
      (fuel j start slots elements : ℕ)
      → len ≤ length s
      → length sep ≡ suc k
      → len + 2 ≤ 2 ^ 30
      → len < j + fuel
      → elements ≤ start
      → start ≤ j
      → j ≤ len
      → elements < slots
      → Safe
          (RunsOut m)
          (Cuts sep (take (len - start) (drop start s)))
          (split_loop m s len sep (suc k) fuel j start slots elements)
  unfolding split_loop
  split_loop-Cuts zero j start slots elements hl hs small hf few hj hle room = absurd (omega arith)
  split_loop-Cuts (suc fuel) j start slots elements hl hs small hf few hj hle room =
      let last =
        new_token-Holds slots elements start (len - start) (omega arith) (omega arith) room in
      elim (Bool-cases (ltb j (len - (suc k - 1)))) [
        | inr e ↦
            rw (e, split_loop)
              (Safe-bind last λ t h.
                safe_ok
                  (record { valid = (h.valid, tt); whole = h.holds; some_token = omega arith }))
        | inl e ↦
            let at : j + suc k ≤ len = omega tests in
            elim (sep_at-cases j at hl hs) [
              | inr differ ↦
                  rw (e, split_loop, differ)
                    (Safe-bind (more_slots-room slots elements room (omega arith) small)
                      λ slots' more.
                        split_loop-Cuts fuel (j + 1) start slots' elements hl hs small (omega arith)
                          few (omega arith) (omega arith) (omega arith))
              | inl (found, same) ↦
                  rw (e, split_loop, found)
                    (Safe-bind (more_slots-room slots elements room (omega arith) small)
                      λ slots' more.
                        Safe-bind
                          (new_token-Holds slots' elements start (j - start) (omega arith)
                            (omega arith) (omega arith))
                          λ t h.
                            Safe-bind
                              (split_loop-Cuts fuel (j + suc k) (j + suc k) slots' (elements + 1) hl
                                hs small (omega arith) (omega arith) (omega arith) at more)
                              λ ts c.
                                safe_ok
                                  (cut sep t ts h c (part-eq s sep len start j (suc k) hj at same)))
            ]
      ]

module _ (m : Allocator) where
  -- sdssplitlen of the first `len` bytes of a block, `len` being positive and 2 below 2 ^ 30, at a separator that is not empty: no access leaves a block or the array of tokens, NULL
  -- comes only from the allocator, and otherwise the tokens are valid strings whose contents, with the
  -- separator between them, are those bytes.
  pub sdssplitlen-Cuts :
      (s : List ℕ) (len : ℕ) (sep : List ℕ) (k : ℕ)
      → len ≤ length s
      → length sep ≡ suc k
      → 0 < len
      → len + 2 ≤ 2 ^ 30
      → Safe (RunsOut m) (Cuts sep (take len s)) (sdssplitlen m s (pos len) sep (pos (suc k)))
  unfolding sdssplitlen
  sdssplitlen-Cuts s len sep k hl hs positive small =
      let some_byte : (len == 0) ≡ false = ground arith in
      let all : take (len - 0) (drop 0 s) ≡ take len s = ap (λ n. take n s) (omega arith) in
      elim (Option-cases (m.malloc 0 ((8 * 5) % size_mod))) [
        | inl e ↦ rw e (safe_null (no_malloc _ _ e))
        | inr (b, e) ↦
            rw (e, some_byte)
              (Safe-mono
                (split_loop-Cuts m s len sep k (len + 1) 0 0 5 0 hl hs small (omega arith)
                  (omega arith) (omega arith) (omega arith) (omega arith))
                λ ts c. rw all at c)
      ]
