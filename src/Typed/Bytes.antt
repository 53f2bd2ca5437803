-- ===== src/Typed/Bytes.antt =====
-- Octets in lists: what is cut, copied, written and read back.
use arpwith_mfc.Base.{
  ℕ, zero, suc, ◌<◌, inl, inr, List, [], ◌∷◌, ◌++◌, some, arith, All, Leaves, Bool-cases, ◌&&◌, leb,
  length, take, drop, replicate, get_or, get_elem?, set, memcpy, ◌≡◌, take,
}
use mathlib.Core.Path.{subst}

abbrev pub Octets : List ℕ → Type 0
Octets = All (λ x. x < 256)

module _ {A : Type 0} (P : A → Type 0) where
  pub All-append : (xs ys : List A) → All P xs → All P ys → All P (xs ++ ys)
  All-append [] ys h k = k
  All-append (x ∷ xs) ys (p, h) k = (p, All-append xs ys h k)

  pub All-take : (n : ℕ) (xs : List A) → All P xs → All P (take n xs)
  All-take zero xs h = tt
  All-take (suc n) [] h = tt
  All-take (suc n) (x ∷ xs) (p, h) = (p, All-take n xs h)

  pub All-drop : (n : ℕ) (xs : List A) → All P xs → All P (drop n xs)
  All-drop zero xs h = h
  All-drop (suc n) [] h = tt
  All-drop (suc n) (x ∷ xs) (p, h) = All-drop n xs h

  pub All-replicate : (n : ℕ) (a : A) → P a → All P (replicate n a)
  All-replicate zero a p = tt
  All-replicate (suc n) a p = (p, All-replicate n a p)

  pub All-set : (xs : List A) (i : ℕ) (a : A) → P a → All P xs → All P (set xs i a)
  All-set [] i a p h = tt
  All-set (x ∷ xs) zero a p (q, h) = (p, h)
  All-set (x ∷ xs) (suc i) a p (q, h) = (q, All-set xs i a p h)

  pub All-get_elem? : (xs : List A) (i : ℕ) (a : A) → All P xs → get_elem? xs i ≡ some a → P a
  All-get_elem? [] i a h e = cc
  All-get_elem? (x ∷ xs) zero a (p, h) e = let same : x ≡ a = cc in subst P same p
  All-get_elem? (x ∷ xs) (suc i) a (p, h) e = All-get_elem? xs i a h e

pub get_or-Octets : (b : List ℕ) (i : ℕ) → Octets b → get_or b i 0 < 256
get_or-Octets [] i h = omega arith
get_or-Octets (x ∷ b) zero (p, h) = p
get_or-Octets (x ∷ b) (suc i) (p, h) = get_or-Octets b i h

pub memcpy-Octets :
    (dst src : List ℕ) (n : ℕ) → Octets dst → Octets src → Leaves Octets (memcpy dst src n)
unfolding memcpy
memcpy-Octets dst src n d s = elim (Bool-cases (leb n (length dst) && leb n (length src))) [
  | inl fits ↦
      rw fits (All-append _ (take n src) (drop n dst) (All-take _ n src s) (All-drop _ n dst d))
  | inr out ↦ rw out tt
]
