-- ===== src/Base/Outcome.antt =====
-- The outcome of a C++ call: it returns, it throws, or it reads or writes outside an object.
use mathlib.Core.Path.{◌≡◌, refl, subst}
use mathlib.Core.Logic.{◌⊎◌, ◌≢◌, inl, inr}
use mathlib.Core.Bool.{Bool, true, false}
use mathlib.Core.Option.{Option, none, some}

pub data Result {ℓ} (S : Type ℓ) : Type ℓ where
  fault : Result S
  thrown : Result S
  ok : S → Result S

infixl 5 ◌>>=◌
-- The second call is made where the first has returned.
abbrev pub ◌>>=◌ {ℓ κ} : {S : Type ℓ} {R : Type κ} → Result S → (S → Result R) → Result R
fault >>= next = fault
thrown >>= next = thrown
ok s >>= next = next s

-- Execution goes on only where `b` holds; otherwise memory is accessed out of bounds.
abbrev pub require : Bool → Result (Unit {0})
require true = ok tt
require false = fault

infixl 5 ◌>>◌
abbrev pub ◌>>◌ {ℓ} : {R : Type ℓ} → Result (Unit {0}) → Result R → Result R
first >> next = first >>= λ _. next

abbrev pub or_fault {ℓ} : {A : Type ℓ} → Option A → Result A
or_fault none = fault
or_fault (some a) = ok a

-- The call returns a value that satisfies `P`: it neither throws nor faults.
abbrev pub Returns {ℓ} : {A : Type ℓ} → (A → Type 0) → Result A → Type 0
Returns P (ok a) = P a
Returns P thrown = ⊥
Returns P fault = ⊥

-- A sequence returned, so its first call did.
pub >>=-eq-ok {ℓ κ} :
    {S : Type ℓ} {R : Type κ} (first : Result S) (next : S → Result R) {r : R}
    → (first >>= next) ≡ ok r
    → (s : S) × (first ≡ ok s) × (next s ≡ ok r)
>>=-eq-ok fault next e = cc
>>=-eq-ok thrown next e = cc
>>=-eq-ok (ok s) next e = (s, refl, e)

pub Result-cases {ℓ} :
    {A : Type ℓ} (r : Result A) → ((a : A) × (r ≡ ok a)) ⊎ (r ≡ thrown) ⊎ (r ≡ fault)
Result-cases (ok a) = inl (a, refl)
Result-cases thrown = inr (inl refl)
Result-cases fault = inr (inr refl)

-- A sequence returns what its second call does, from every value that the first may return.
pub Returns-bind {ℓ κ} :
    {A : Type ℓ} {B : Type κ} (P : A → Type 0) (Q : B → Type 0) (m : Result A) (f : A → Result B)
    → Returns P m
    → ((a : A) → P a → Returns Q (f a))
    → Returns Q (m >>= f)
Returns-bind P Q (ok a) f h k = k a h
Returns-bind P Q thrown f h k = absurd h
Returns-bind P Q fault f h k = absurd h

-- The call accesses no memory out of bounds, and where it returns, its value satisfies `P`. It may throw.
abbrev pub Safe {ℓ} : {A : Type ℓ} → (A → Type 0) → Result A → Type 0
Safe P (ok a) = P a
Safe P thrown = Unit
Safe P fault = ⊥

pub Safe-bind {ℓ κ} :
    {A : Type ℓ} {B : Type κ} (P : A → Type 0) (Q : B → Type 0) (m : Result A) (f : A → Result B)
    → Safe P m
    → ((a : A) → P a → Safe Q (f a))
    → Safe Q (m >>= f)
Safe-bind P Q (ok a) f h k = k a h
Safe-bind P Q thrown f h k = tt
Safe-bind P Q fault f h k = absurd h

pub Safe-ne-fault {ℓ} : {A : Type ℓ} (P : A → Type 0) (r : Result A) → Safe P r → r ≢ fault
Safe-ne-fault P (ok a) h e = cc
Safe-ne-fault P thrown h e = cc
Safe-ne-fault P fault h e = h

pub Safe-ok {ℓ} : {A : Type ℓ} (P : A → Type 0) (r : Result A) (a : A) → Safe P r → r ≡ ok a → P a
Safe-ok P r a h e = subst (Safe P) e h

-- Where the call returns, its value satisfies `P`.
abbrev pub Leaves {ℓ} : {A : Type ℓ} → (A → Type 0) → Result A → Type 0
Leaves P (ok a) = P a
Leaves P thrown = Unit
Leaves P fault = Unit

pub Leaves-bind {ℓ κ} :
    {A : Type ℓ} {B : Type κ} (P : A → Type 0) (Q : B → Type 0) (m : Result A) (f : A → Result B)
    → Leaves P m
    → ((a : A) → P a → Leaves Q (f a))
    → Leaves Q (m >>= f)
Leaves-bind P Q (ok a) f h k = k a h
Leaves-bind P Q thrown f h k = tt
Leaves-bind P Q fault f h k = tt

pub Leaves-ok {ℓ} :
    {A : Type ℓ} (P : A → Type 0) (r : Result A) (a : A) → Leaves P r → r ≡ ok a → P a
Leaves-ok P r a h e = subst (Leaves P) e h

pub Safe-Leaves {ℓ} : {A : Type ℓ} (P : A → Type 0) (r : Result A) → Safe P r → Leaves P r
Safe-Leaves P (ok a) h = h
Safe-Leaves P thrown h = tt
Safe-Leaves P fault h = tt

-- what holds wherever the call may end
pub Leaves-all {ℓ} : {A : Type ℓ} (P : A → Type 0) (r : Result A) → ((a : A) → P a) → Leaves P r
Leaves-all P (ok a) h = h a
Leaves-all P thrown h = tt
Leaves-all P fault h = tt
