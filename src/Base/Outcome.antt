-- ===== src/Base/Outcome.antt =====
-- What a C function that allocates comes back with: a value, NULL when the allocator gave no
-- memory, or, for an access outside a block or through NULL, a `fault`.
use mathlib.Core.Path.{◌≡◌, refl}

pub data Outcome {ℓ} (A : Type ℓ) : Type ℓ where
  ok : A → Outcome A
  null : Outcome A
  fault : Outcome A

infixl 5 ◌>>=◌
abbrev pub ◌>>=◌ {ℓ κ} : {A : Type ℓ} {B : Type κ} → Outcome A → (A → Outcome B) → Outcome B
ok a >>= f = f a
null >>= f = null
fault >>= f = fault

-- No access outside a block; a value meets `P`; and NULL comes only if `Oom` can be.
pub data Safe {ℓ κ ι} {A : Type ℓ} (Oom : Type κ) (P : A → Type ι)
    : Outcome A → Type (ℓ ⊔ κ ⊔ ι) where
  safe_ok : {a : A} → P a → Safe Oom P (ok a)
  safe_null : Oom → Safe Oom P null

module _ {ℓ κ ι} {A : Type ℓ} {Oom : Type κ} {P : A → Type ι} where
  pub Safe-bind {ℓ' ι'} :
      {B : Type ℓ'} {Q : B → Type ι'} {r : Outcome A} {f : A → Outcome B}
      → Safe Oom P r
      → ((a : A) → P a → Safe Oom Q (f a))
      → Safe Oom Q (r >>= f)
  Safe-bind (safe_ok p) next = next _ p
  Safe-bind (safe_null o) next = safe_null o

  pub Safe-mono {ι'} :
      {Q : A → Type ι'} {r : Outcome A} → Safe Oom P r → ((a : A) → P a → Q a) → Safe Oom Q r
  Safe-mono (safe_ok p) weaken = safe_ok (weaken _ p)
  Safe-mono (safe_null o) weaken = safe_null o

-- A result that the code goes on with untested: a use of NULL is a fault.
abbrev pub used {ℓ} : {A : Type ℓ} → Outcome A → Outcome A
used (ok a) = ok a
used null = fault
used fault = fault

-- A value meets `P`; and NULL or a fault come only if `Oom` can be.
pub data Unless {ℓ κ ι} {A : Type ℓ} (Oom : Type κ) (P : A → Type ι)
    : Outcome A → Type (ℓ ⊔ κ ⊔ ι) where
  unless_ok : {a : A} → P a → Unless Oom P (ok a)
  unless_null : Oom → Unless Oom P null
  unless_fault : Oom → Unless Oom P fault

module _ {ℓ κ ι} {A : Type ℓ} {Oom : Type κ} {P : A → Type ι} where
  -- `Safe` as `Unless`, with a reason of its own for a NULL.
  pub refusing {ι'} :
      {Oom' : Type ι'} {r : Outcome A} → Safe Oom P r → (r ≡ null → Oom') → Unless Oom' P r
  refusing (safe_ok p) because = unless_ok p
  refusing (safe_null o) because = unless_null (because refl)

  pub refusing_why {ι'} :
      {Oom' : Type ι'} {r : Outcome A} → Safe Oom P r → (r ≡ null → Oom → Oom') → Unless Oom' P r
  refusing_why (safe_ok p) because = unless_ok p
  refusing_why (safe_null o) because = unless_null (because refl o)

  pub Unless-why {ι'} :
      {Oom' : Type ι'} {r : Outcome A} → Unless Oom P r → (Oom → Oom') → Unless Oom' P r
  Unless-why (unless_ok p) why = unless_ok p
  Unless-why (unless_null o) why = unless_null (why o)
  Unless-why (unless_fault o) why = unless_fault (why o)

  pub used-Unless : {r : Outcome A} → Unless Oom P r → Unless Oom P (used r)
  used-Unless (unless_ok p) = unless_ok p
  used-Unless (unless_null o) = unless_fault o
  used-Unless (unless_fault o) = unless_fault o

  pub Unless-bind {ℓ' ι'} :
      {B : Type ℓ'} {Q : B → Type ι'} {r : Outcome A} {f : A → Outcome B}
      → Unless Oom P r
      → ((a : A) → P a → Unless Oom Q (f a))
      → Unless Oom Q (r >>= f)
  Unless-bind (unless_ok p) next = next _ p
  Unless-bind (unless_null o) next = unless_null o
  Unless-bind (unless_fault o) next = unless_fault o

  pub Unless-mono {ι'} :
      {Q : A → Type ι'} {r : Outcome A} → Unless Oom P r → ((a : A) → P a → Q a) → Unless Oom Q r
  Unless-mono (unless_ok p) weaken = unless_ok (weaken _ p)
  Unless-mono (unless_null o) weaken = unless_null o
  Unless-mono (unless_fault o) weaken = unless_fault o
