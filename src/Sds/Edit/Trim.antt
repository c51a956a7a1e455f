-- ===== src/Sds/Edit/Trim.antt =====
-- sds.c: sdstrim takes off the bytes of the set at both ends, and no others.
use decompose_redis.Base.{
  ℕ, zero, suc, ◌+◌, ◌-◌, ◌≤◌, ◌<◌, ◌≡◌, refl, ◌⊎◌, inl, inr, true, false, ◌&&◌, Bool-cases, List,
  [], ◌∷◌, ltb, ◌==◌, length, take, drop, get_or, arith,
}
use native.Mathlib.Numerals.{add-one}
use decompose_redis.Base.Outcome.{ok}
use decompose_redis.Sds.{Sds, IsValid, Holds, content}
use decompose_redis.Sds.Memory.Laws.{length-take_le}
use decompose_redis.Sds.Edit.{strchr, trim_left, trim_right, sdstrim}
use decompose_redis.Sds.Edit.Laws.{part-Holds}

-- `from` and `to` bound what is left of `bs` when all bytes that strchr finds in `cset` are taken off
-- its ends: it is empty, or begins and ends with a byte that strchr does not find.
pub record IsTrim (cset bs : List ℕ) (from to : ℕ) : Type 0 where
  pub order : from ≤ to
  pub fits : to ≤ length bs
  pub before : (i : ℕ) → i < from → strchr cset (get_or bs i 0) ≡ true
  pub behind : (i : ℕ) → to ≤ i → i < length bs → strchr cset (get_or bs i 0) ≡ true
  pub ends :
      (from ≡ to)
      ⊎ ((strchr cset (get_or bs from 0) ≡ false) × (strchr cset (get_or bs (to - 1) 0) ≡ false))

module _ (cset : List ℕ) where
  trim_left-le : (p : List ℕ) → trim_left cset p ≤ length p
  unfolding trim_left
  trim_left-le [] = omega arith
  trim_left-le (c ∷ p) = ground (arith, trim_left-le p)

  trim_left-before : (p : List ℕ) (i : ℕ) → i < trim_left cset p → strchr cset (get_or p i 0) ≡ true
  unfolding trim_left
  trim_left-before [] i h = absurd (omega arith)
  trim_left-before (c ∷ p) zero h = ground arith
  trim_left-before (c ∷ p) (suc i) h = ground (arith, trim_left-before p i)

  trim_left-stop :
      (p : List ℕ)
      → trim_left cset p < length p
      → strchr cset (get_or p (trim_left cset p) 0) ≡ false
  unfolding trim_left
  trim_left-stop [] h = absurd (omega arith)
  trim_left-stop (c ∷ p) h = elim (Bool-cases (strchr cset c)) [
    | inl found ↦ rw (found, add-one) (trim_left-stop p (ground arith))
    | inr other ↦ rw other other
  ]

  trim_right-bounds :
      (b : List ℕ) (sp n : ℕ)
      → (trim_right cset b sp n ≤ n) × (sp < n → sp < trim_right cset b sp n)
  unfolding trim_right
  trim_right-bounds b sp zero = (omega arith, λ h. h)
  trim_right-bounds b sp (suc n) =
      let ih = trim_right-bounds b sp n in (ground (arith, ih), λ h. ground (arith, ih.1))

  trim_right-behind :
      (b : List ℕ) (sp n i : ℕ)
      → trim_right cset b sp n ≤ i
      → i < n
      → strchr cset (get_or b i 0) ≡ true
  unfolding trim_right
  trim_right-behind b sp zero i h k = absurd (omega arith)
  trim_right-behind b sp (suc n) i h k =
      elim (Bool-cases (ltb sp n && strchr cset (get_or b n 0))) [
        | inl found ↦
            let ih = trim_right-behind b sp n i (rw found at h) in
            elim (Bool-cases (i == n)) [
              | inl last ↦ let e : i ≡ n = ground arith in rw e (ground arith)
              | inr less ↦ ih (ground arith)
            ]
        | inr stop ↦ absurd (let le : suc n ≤ i = rw stop at h in omega arith)
      ]

  trim_right-stop :
      (b : List ℕ) (sp n : ℕ)
      → sp < n
      → (trim_right cset b sp n ≡ sp + 1)
        ⊎ (strchr cset (get_or b (trim_right cset b sp n - 1) 0) ≡ false)
  unfolding trim_right
  trim_right-stop b sp zero h = absurd (omega arith)
  trim_right-stop b sp (suc n) h = elim (Bool-cases (ltb sp n && strchr cset (get_or b n 0))) [
    | inl found ↦ rw found (trim_right-stop b sp n (ground arith))
    | inr stop ↦ rw stop (elim (Bool-cases (ltb sp n)) [
      | inl more ↦ inr (let e : suc n - 1 ≡ n = omega arith in rw e (ground arith))
      | inr last ↦ inl (ground arith)
    ])
  ]

trim_right_at : (cset b : List ℕ) (sp n : ℕ) → sp ≡ n → sp ≤ trim_right cset b sp n
unfolding trim_right
trim_right_at cset b sp zero e = omega arith
trim_right_at cset b sp (suc n) e = ground arith

trim_order : (cset b : List ℕ) (sp n : ℕ) → sp ≤ n → sp ≤ trim_right cset b sp n
trim_order cset b sp zero h = omega arith
trim_order cset b sp (suc n) h = elim (Bool-cases (ltb sp (suc n))) [
  | inl more ↦ omega (arith, (trim_right-bounds cset b sp (suc n)).1 (ground arith))
  | inr last ↦ trim_right_at cset b sp (suc n) (ground arith)
]

get_or-take : (b : List ℕ) (i n : ℕ) → i < n → get_or (take n b) i 0 ≡ get_or b i 0
get_or-take b i zero h = absurd (omega arith)
get_or-take [] i (suc n) h = refl
get_or-take (x ∷ b) zero (suc n) h = refl
get_or-take (x ∷ b) (suc i) (suc n) h = get_or-take b i n (omega arith)

trim_ends :
    (cset b : List ℕ) (n : ℕ)
    → n ≤ length b
    → trim_left cset (take n b) ≤ n
    → let from = trim_left cset (take n b) in
      let to = trim_right cset b from n in
      (from ≡ to)
      ⊎ ((strchr cset (get_or (take n b) from 0) ≡ false)
          × (strchr cset (get_or (take n b) (to - 1) 0) ≡ false))
trim_ends cset b n room le =
    let from = trim_left cset (take n b) in
    let to = trim_right cset b from n in
    let size = length-take_le b n room in
    let bounds = trim_right-bounds cset b from n in
    elim (Bool-cases (ltb from n)) [
      | inl some_left ↦
          let first = trim_left-stop cset (take n b) (ground (arith, size)) in
          inr (
            first,
            elim (trim_right-stop cset b from n (ground arith)) [
              | inl one ↦ let e : to - 1 ≡ from = omega (arith, one) in rw e first
              | inr last ↦ rw (get_or-take b (to - 1) n (ground (arith, bounds.0, bounds.1))) last
            ],
          )
      | inr none_left ↦ inl (ground (arith, bounds.0, trim_order cset b from n le))
    ]

-- sdstrim on a valid string: no access leaves the block, and the content is cut down to the part
-- between the bytes of its ends that strchr finds in the set.
pub sdstrim-IsTrim :
    (s : Sds) (cset : List ℕ)
    → IsValid s
    → (t : Sds) × (from to : ℕ) × (sdstrim s cset ≡ ok t)
      × IsTrim cset (content s) from to
      × Holds (take (to - from) (drop from (content s))) t
unfolding sdstrim
sdstrim-IsTrim s cset v =
    let bs = content s in
    let size = length-take_le s.buf s.len (omega (arith, v.within, v.room)) in
    let from = trim_left cset bs in
    let to = trim_right cset s.buf from s.len in
    let le : from ≤ s.len = omega (arith, trim_left-le cset bs, size) in
    let bounds = trim_right-bounds cset s.buf from s.len in
    let order = trim_order cset s.buf from s.len le in
    let (t, run, holds) =
      part-Holds s from (to - from) (from == 0) v (omega (arith, bounds.0))
        (λ moves. omega (arith, bounds.0, order)) (λ h. inl (ground arith)) in
    (
      t,
      from,
      to,
      run,
      record {
        order = order;
        fits = omega (arith, bounds.0, size);
        before = trim_left-before cset bs;
        behind = λ i h k.
            rw (get_or-take s.buf i s.len (omega (arith, size)))
              (trim_right-behind cset s.buf from s.len i h (omega (arith, size)));
        ends = trim_ends cset s.buf s.len (omega (arith, v.within, v.room)) le;
      },
      holds,
    )
