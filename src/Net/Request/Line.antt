-- ===== src/Net/Request/Line.antt =====
-- networking.c: lines of a request in the unread bytes, and the bytes of a request in RESP.
use mathlib.Core.List.{head-eq_of_cons-eq, tail-eq_of_cons-eq}
use decompose_redis.Base.{
  ℕ, zero, suc, ◌+◌, ◌^◌, ◌≤◌, ◌<◌, ◌≡◌, refl, sym, ap, ◌∙◌, ◌⊎◌, inl, inr, false, List, [], ◌∷◌,
  ◌++◌, some, none, ◌==◌, length, take, drop, drop_long, arith,
}
use decompose_redis.Base.Int.{pos}
use decompose_redis.Net.Request.{Numbers, strchr}

-- A text that strchr goes through in the search of a CR.
abbrev pub IsPlain : List ℕ → Type 0
IsPlain [] = Unit {0}
IsPlain (x ∷ s) = (((x == 0x0d) ≡ false) × ((x == 0) ≡ false)) × IsPlain s

-- `text` prints numbers as string2ll reads them, in at most 20 bytes with no CR and no nul.
pub record Texts (num : Numbers) : Type 0 where
  pub text : ℕ → List ℕ
  pub text-string2ll : (n : ℕ) → n < 2 ^ 63 → num.string2ll (text n) ≡ some (pos n)
  pub text-IsPlain : (n : ℕ) → IsPlain (text n)
  pub text_short : (n : ℕ) → n < 2 ^ 63 → length (text n) ≤ 20

-- The part that has arrived of `s`, a CR and more: either all of `s` and the CR, or not yet the CR.
pub arrived :
    (line future s rest : List ℕ)
    → IsPlain s
    → line ++ future ≡ s ++ 0x0d ∷ rest
    → ((strchr 0x0d line ≡ none) × (length line ≤ length s))
      ⊎ ((more : List ℕ) × (line ≡ s ++ 0x0d ∷ more)
          × (strchr 0x0d line ≡ some (length s))
          × (more ++ future ≡ rest))
unfolding strchr
arrived [] future s rest h e = inl (refl, omega arith)
arrived (x ∷ line) future [] rest h e =
    let e0 = head-eq_of_cons-eq e in
    inr (line, ap (λ y. y ∷ line) e0, rw e0 refl, tail-eq_of_cons-eq e)
arrived (x ∷ line) future (y ∷ s) rest h e =
    let e0 = head-eq_of_cons-eq e in
    let e1 = tail-eq_of_cons-eq e in
    elim (arrived line future s rest h.1 e1) [
      | inl (a, b) ↦ inl (rw (e0, h.0.0, h.0.1, a) refl, omega arith)
      | inr (more, a, b, d) ↦ inr (more, rw (e0, a) refl, rw (e0, h.0.0, h.0.1, b) refl, d)
    ]

-- The bytes of a request in RESP, and those that come behind it.
module _ (num : Numbers) (t : Texts num) where
  abbrev pub bulks : List (List ℕ) → List ℕ → List ℕ
  bulks [] more = more
  bulks (a ∷ args) more =
      b'$' ∷ (t.text (length a) ++ 0x0d ∷ 0x0a ∷ (a ++ 0x0d ∷ 0x0a ∷ bulks args more))

  abbrev pub request : List (List ℕ) → List ℕ → List ℕ
  request args more = b'*' ∷ (t.text (length args) ++ 0x0d ∷ 0x0a ∷ bulks args more)

pub drop-drop : {A : Type 0} (n m : ℕ) (xs : List A) → drop (n + m) xs ≡ drop m (drop n xs)
drop-drop {A} zero m xs = ap (λ k. drop k xs) (omega arith)
drop-drop {A} (suc n) m [] =
    drop_long {A = A} [] (suc n + m) (omega arith) ∙ sym (drop_long {A = A} [] m (omega arith))
drop-drop {A} (suc n) m (x ∷ xs) =
    let e : suc n + m ≡ suc (n + m) = omega arith in ap (λ k. drop k (x ∷ xs)) e ∙ drop-drop n m xs

pub drop-append_length :
    {A : Type 0} (xs ys : List A) (n : ℕ) → n ≡ length xs → drop n (xs ++ ys) ≡ ys
drop-append_length [] ys n e = ap (λ k. drop k ys) e
drop-append_length (x ∷ xs) ys zero e = absurd (omega arith)
drop-append_length (x ∷ xs) ys (suc n) e = drop-append_length xs ys n (omega arith)

pub take-append_length :
    {A : Type 0} (xs ys : List A) (n : ℕ) → n ≡ length xs → take n (xs ++ ys) ≡ xs
take-append_length [] ys n e = ap (λ k. take k ys) e
take-append_length (x ∷ xs) ys zero e = absurd (omega arith)
take-append_length (x ∷ xs) ys (suc n) e = ap (◌∷◌ x) (take-append_length xs ys n (omega arith))

-- Of `s` and more, at least as much as `s` has arrived.
pub arrived_all :
    (line future s rest : List ℕ)
    → length s ≤ length line
    → line ++ future ≡ s ++ rest
    → (more : List ℕ) × (line ≡ s ++ more) × (more ++ future ≡ rest)
arrived_all line future [] rest h e = (line, refl, e)
arrived_all [] future (y ∷ s) rest h e = absurd (omega arith)
arrived_all (x ∷ line) future (y ∷ s) rest h e =
    let (more, a, b) = arrived_all line future s rest (omega arith) (tail-eq_of_cons-eq e) in
    (more, rw (head-eq_of_cons-eq e, a) refl, b)
