-- ===== src/Adlist/Chain.antt =====
-- adlist.c: what a list stands for, and the writes that keep it a chain in both directions.
use decompose_redis.Base.{
  ℕ, ◌<◌, ◌≡◌, refl, sym, ap, ◌∙◌, Bool, true, false, ◌||◌, Bool-cases, inl, inr, List, [], ◌∷◌,
  ◌++◌, Option, some, none, ◌==◌, length, arith,
}
use decompose_redis.Adlist.{same_ptr, ListNode, node, Nodes, write, AdList, len_mod}

-- Address and value of each node, in order.
abbrev pub Cells : Type 0
Cells = List (ℕ × ℕ)

abbrev pub has : ℕ → Cells → Bool
has a [] = false
has a ((b, v) ∷ xs) = a == b || has a xs

abbrev pub Distinct : Cells → Type 0
Distinct [] = Unit {0}
Distinct ((a, v) ∷ xs) = (has a xs ≡ false) × Distinct xs

-- The first address, or what comes behind; the last one, or what comes before.
abbrev pub first : Cells → Option ℕ → Option ℕ
first [] q = q
first ((a, v) ∷ xs) q = some a

abbrev pub last : Option ℕ → Cells → Option ℕ
last p [] = p
last p ((a, v) ∷ xs) = last (some a) xs

-- The nodes lead through the cells, from `p` before the first to `q` behind the last.
abbrev pub Chain : Nodes → Option ℕ → Cells → Option ℕ → Type 0
Chain f p [] q = Unit {0}
Chain f p ((a, v) ∷ xs) q = (f a ≡ some (node p (first xs q) v)) × Chain f (some a) xs q

pub record IsAdList (f : Nodes) (l : AdList) (xs : Cells) : Type 0 where
  pub chain : Chain f none xs none
  pub distinct : Distinct xs
  pub head : l.head ≡ first xs none
  pub tail : l.tail ≡ last none xs
  pub len : l.len ≡ length xs
  pub fits : length xs < len_mod

pub frame :
    (f g : Nodes) (p : Option ℕ) (xs : Cells) (q : Option ℕ)
    → Chain f p xs q
    → ((a : ℕ) → has a xs ≡ true → g a ≡ f a)
    → Chain g p xs q
frame f g p [] q c same = tt
frame f g p ((a, v) ∷ xs) q c same =
    (same a (ground arith) ∙ c.0, frame f g (some a) xs q c.1 λ b h. same b (ground arith))

pub write_self : (f : Nodes) (a : ℕ) (c : Option ListNode) → write f a c a ≡ c
write_self f a c = ground arith

pub write_ne : (f : Nodes) (a b : ℕ) (c : Option ListNode) → (a == b) ≡ false → write f a c b ≡ f b
write_ne f a b c h = rw h refl

pub frame-write :
    (f : Nodes) (p : Option ℕ) (xs : Cells) (q : Option ℕ) (a : ℕ) (c : Option ListNode)
    → Chain f p xs q
    → has a xs ≡ false
    → Chain (write f a c) p xs q
frame-write f p [] q a c k h = tt
frame-write f p ((b, v) ∷ xs) q a c k h =
    (write_ne f a b c (ground arith) ∙ k.0, frame-write f (some b) xs q a c k.1 (ground arith))

pub first-append : (xs ys : Cells) (q : Option ℕ) → first (xs ++ ys) q ≡ first xs (first ys q)
first-append [] ys q = refl
first-append ((a, v) ∷ xs) ys q = refl

pub last-append : (p : Option ℕ) (xs ys : Cells) → last p (xs ++ ys) ≡ last (last p xs) ys
last-append p [] ys = refl
last-append p ((a, v) ∷ xs) ys = last-append (some a) xs ys

pub Chain-append :
    (f : Nodes) (p : Option ℕ) (xs ys : Cells) (q : Option ℕ)
    → Chain f p xs (first ys q)
    → Chain f (last p xs) ys q
    → Chain f p (xs ++ ys) q
Chain-append f p [] ys q c k = k
Chain-append f p ((a, v) ∷ xs) ys q c k =
    (rw (first-append xs ys q) c.0, Chain-append f (some a) xs ys q c.1 k)

pub Chain-split :
    (f : Nodes) (p : Option ℕ) (xs ys : Cells) (q : Option ℕ)
    → Chain f p (xs ++ ys) q
    → Chain f p xs (first ys q) × Chain f (last p xs) ys q
Chain-split f p [] ys q c = (tt, c)
Chain-split f p ((a, v) ∷ xs) ys q c =
    let rest = Chain-split f (some a) xs ys q c.1 in
    let here : f a ≡ some (node p (first xs (first ys q)) v) =
      c.0 ∙ rw (first-append xs ys q) refl in
    ((here, rest.0), rest.1)

pub has-append : (a : ℕ) (xs ys : Cells) → has a (xs ++ ys) ≡ (has a xs || has a ys)
has-append a [] ys = refl
has-append a ((b, v) ∷ xs) ys = ground (arith, has-append a xs ys)

-- No cell of one list is one of the other.
abbrev pub Apart : Cells → Cells → Type 0
Apart [] ys = Unit {0}
Apart ((a, v) ∷ xs) ys = (has a ys ≡ false) × Apart xs ys

pub Apart-has : (a : ℕ) (xs ys : Cells) → Apart xs ys → has a ys ≡ true → has a xs ≡ false
Apart-has a [] ys h i = refl
Apart-has a ((b, v) ∷ xs) ys h i = elim (Bool-cases (a == b)) [
  | inl e ↦ let q : a ≡ b = ground arith in ground (arith, ap (λ c. has c ys) q)
  | inr e ↦ ground (arith, Apart-has a xs ys h.1 i)
]

pub Distinct-append :
    (xs ys : Cells) → Distinct xs → Distinct ys → Apart xs ys → Distinct (xs ++ ys)
Distinct-append [] ys h k a = k
Distinct-append ((b, v) ∷ xs) ys h k a =
    (rw (has-append b xs ys, h.0) a.0, Distinct-append xs ys h.1 k a.1)

pub Distinct-split : (xs ys : Cells) → Distinct (xs ++ ys) → Distinct xs × Distinct ys × Apart xs ys
Distinct-split [] ys h = (tt, h, tt)
Distinct-split ((b, v) ∷ xs) ys h =
    let rest = Distinct-split xs ys h.1 in
    let parts : (has b xs || has b ys) ≡ false = sym (has-append b xs ys) ∙ h.0 in
    ((ground arith, rest.0), rest.1, (ground arith, rest.2))

pub has_ne : (a b : ℕ) (xs : Cells) → has a xs ≡ true → has b xs ≡ false → (a == b) ≡ false
has_ne a b xs h k = elim (Bool-cases (a == b)) [
  | inl e ↦ let q : a ≡ b = ground arith in ground (arith, ap (λ c. has c xs) q)
  | inr e ↦ e
]

pub Apart-single : (xs : Cells) (a v : ℕ) → has a xs ≡ false → Apart xs ((a, v) ∷ [])
Apart-single [] a v h = tt
Apart-single ((b, w) ∷ xs) a v h = (ground arith, Apart-single xs a v (ground arith))

pub ne_comm : (a b : ℕ) → (a == b) ≡ false → (b == a) ≡ false
ne_comm a b h = ground arith

pub not_has-cons :
    (a b v : ℕ) (xs : Cells) → has a ((b, v) ∷ xs) ≡ false → ((a == b) ≡ false) × (has a xs ≡ false)
not_has-cons a b v xs h = ground arith

pub not_has-append :
    (a : ℕ) (xs ys : Cells) → has a xs ≡ false → has a ys ≡ false → has a (xs ++ ys) ≡ false
not_has-append a xs ys h k = has-append a xs ys ∙ rw (h, k) refl

pub not_has-split :
    (a : ℕ) (xs ys : Cells) → has a (xs ++ ys) ≡ false → (has a xs ≡ false) × (has a ys ≡ false)
not_has-split a xs ys h =
    let parts : (has a xs || has a ys) ≡ false = sym (has-append a xs ys) ∙ h in
    (ground arith, ground arith)

pub Apart-cons :
    (xs : Cells) (a v : ℕ) (ys : Cells) → has a xs ≡ false → Apart xs ys → Apart xs ((a, v) ∷ ys)
Apart-cons [] a v ys h k = tt
Apart-cons ((b, w) ∷ xs) a v ys h k =
    let s = not_has-cons a b w xs h in
    let ba : (b == a) ≡ false = ne_comm a b s.0 in (rw (ba, k.0) refl, Apart-cons xs a v ys s.1 k.1)

pub Apart-not_has : (c : ℕ) (xs ys : Cells) → Apart xs ys → has c xs ≡ true → has c ys ≡ false
Apart-not_has c xs ys h i = elim (Bool-cases (has c ys)) [
  | inl e ↦ let off = Apart-has c xs ys h e in cc
  | inr e ↦ e
]

-- The last of the cells is none but one of them.
pub last_ne :
    (o y u : ℕ) (ys : Cells)
    → has o ((y, u) ∷ ys) ≡ false
    → same_ptr (last (some y) ys) (some o) ≡ false
last_ne o y u [] h = ne_comm o y (not_has-cons o y u [] h).0
last_ne o y u ((z, w) ∷ ys) h = last_ne o z w ys (not_has-cons o y u ((z, w) ∷ ys) h).1
