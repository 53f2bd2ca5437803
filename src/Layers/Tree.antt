-- ===== src/Layers/Tree.antt =====
-- The notation that ConnectLayers reads, and what it stands for. A layer is followed by the layers to be
-- joined to it, in brackets; each of these has a mode before its name.
use arpwith_mfc.Base.{
  ℕ, suc, ◌+◌, ◌≤◌, ◌<◌, ◌≡◌, refl, ap, ◌∙◌, List, [], ◌∷◌, ◌++◌, Option, none, some, Result, ok,
  fault, ◌>>=◌, >>=-eq-ok, arith, length,
}
use Prim.Native.Nat.{max}
use mathlib.Core.List.{append_assoc}
use arpwith_mfc.Layers.{
  Objects, max_layer_number, set_upper_layer, set_under_layer, set_upper_under_layer,
}
use arpwith_mfc.Layers.Manager.{
  Linking, get_layer, push, pop, top, link_mode, link_token, link_one, link_layer,
}

-- `*`, `+` and `-`: the layer is joined above and its own lower end below, above only, or below only.
pub data Mode : Type 0 where
  both upper lower : Mode

-- The layers below one bracket. `single` has no bracket of its own behind it.
pub data Forest : Type 0 where
  leaf : Forest
  single : Mode → List ℕ → Forest → Forest
  grouped : Mode → List ℕ → Forest → Forest → Forest

abbrev pub sign : Mode → ℕ
sign both = b'*'
sign upper = b'+'
sign lower = b'-'

abbrev pub open_token : List ℕ
open_token = b'(' ∷ []

abbrev pub close_token : List ℕ
close_token = b')' ∷ []

-- the tokens of the notation
unfoldable pub print : Forest → List (List ℕ)
print leaf = []
print (single m n next) = (sign m ∷ n) ∷ print next
print (grouped m n kids next) = (sign m ∷ n) ∷ open_token ∷ (print kids ++ close_token ∷ print next)

-- how deep the brackets go
unfoldable pub depth : Forest → ℕ
depth leaf = 0
depth (single m n next) = depth next
depth (grouped m n kids next) = max (suc (depth kids)) (depth next)

-- One layer joined to the layer `p`.
abbrev pub join : Mode → Objects → ℕ → ℕ → Result Objects
join both os p c = set_upper_under_layer os p (some c)
join upper os p c = set_upper_layer os p (some c)
join lower os p c = set_under_layer os p (some c)

abbrev pub found : Option ℕ → Result ℕ
found none = fault
found (some c) = ok c

found-some : (r : Option ℕ) (c : ℕ) → found r ≡ ok c → r ≡ some c
found-some none c e = cc
found-some (some d) c e = cc

-- What the notation means: every layer of the forest is joined to `p`, and the layers in its bracket
-- to it, in the order in which they stand. Every name must be that of a layer.
unfoldable pub attach : List ℕ → Objects → ℕ → Forest → Result Objects
attach layers os p leaf = ok os
attach layers os p (single m n next) = do
  r ← get_layer os layers n
  c ← found r
  os1 ← join m os p c
  attach layers os1 p next
attach layers os p (grouped m n kids next) = do
  r ← get_layer os layers n
  c ← found r
  os1 ← join m os p c
  os2 ← attach layers os1 c kids
  attach layers os2 p next

-- a token with a mode, where a layer is at hand and the stack has a top
link_join :
    (layers : List ℕ) (os os' : Objects) (p l c : ℕ) (st : List ℕ) (m : Mode) (n : List ℕ)
    → get_layer os layers n ≡ ok (some c)
    → join m os p c ≡ ok os'
    → link_one layers
        (record { objects = os; stack = p ∷ st; current = some l })
        (some l)
        (sign m ∷ n)
      ≡ ok (record { objects = os'; stack = p ∷ st; current = some c })
unfolding link_one link_token link_mode top
link_join layers os os' p l c st both n e j = rw e (rw j)
link_join layers os os' p l c st upper n e j = rw e (rw j)
link_join layers os os' p l c st lower n e j = rw e (rw j)

push-ok : (st : List ℕ) (p : ℕ) → length st < max_layer_number → push st p ≡ ok (p ∷ st)
unfolding push
push-ok st p h = ground arith

-- brackets
link_open :
    (layers : List ℕ) (os : Objects) (st : List ℕ) (c : ℕ)
    → length st < max_layer_number
    → link_one layers (record { objects = os; stack = st; current = some c }) (some c) open_token
      ≡ ok (record { objects = os; stack = c ∷ st; current = some c })
unfolding link_one link_token
link_open layers os st c h = rw (push-ok st c h)

link_close :
    (layers : List ℕ) (os : Objects) (st : List ℕ) (p c : ℕ)
    → link_one layers
        (record { objects = os; stack = p ∷ st; current = some c })
        (some c)
        close_token
      ≡ ok (record { objects = os; stack = st; current = some c })
unfolding link_one link_token pop
link_close layers os st p c = refl

attach_first :
    (layers : List ℕ) (os : Objects) (p : ℕ) (m : Mode) (n : List ℕ)
    (k : ℕ → Objects → Result Objects) {os' : Objects}
    → (get_layer os layers n >>= λ r. found r >>= λ c. join m os p c >>= λ os1. k c os1) ≡ ok os'
    → (c : ℕ) × (os1 : Objects) × (get_layer os layers n ≡ ok (some c))
      × (join m os p c ≡ ok os1)
      × (k c os1 ≡ ok os')
attach_first layers os p m n k e =
    let (r, g, e1) = >>=-eq-ok (get_layer os layers n) _ e in
    let (c, f, e2) = >>=-eq-ok (found r) _ e1 in
    let (os1, j, e3) = >>=-eq-ok (join m os p c) _ e2 in
    (c, os1, g ∙ ap ok (found-some r c f), j, e3)

abbrev pub at : Objects → List ℕ → ℕ → Linking
at os st c = record { objects = os; stack = st; current = some c }

-- LinkLayer on the tokens of a forest, with the layer that it hangs from on top of the stack, joins as the
-- notation says, leaves the stack as it was, and goes on with the tokens behind.
link_layer-print :
    (f : Forest) (layers : List ℕ) (os os' : Objects) (p l : ℕ) (st : List ℕ) (rest : List (List ℕ))
    → attach layers os p f ≡ ok os'
    → suc (length st) + depth f ≤ max_layer_number
    → (l' : ℕ) × (link_layer layers (at os (p ∷ st) l) (print f ++ rest)
        ≡ link_layer layers (at os' (p ∷ st) l') rest)
unfolding link_layer print attach depth
link_layer-print leaf layers os os' p l st rest e h =
    (l, ap (λ o. link_layer layers (at o (p ∷ st) l) rest) (ground arith))
link_layer-print (single m n next) layers os os' p l st rest e h =
    let (c, os1, g, j, a) = attach_first layers os p m n _ e in
    let (l', r) = link_layer-print next layers os1 os' p c st rest a h in
    (l', rw (link_join layers os os1 p l c st m n g j) r)
link_layer-print (grouped m n kids next) layers os os' p l st rest e h =
    let (c, os1, g, j, a) = attach_first layers os p m n _ e in
    let (os2, inside, behind) = >>=-eq-ok (attach layers os1 c kids) _ a in
    let (k, r) =
      link_layer-print kids layers os1 os2 c c (p ∷ st) (close_token ∷ (print next ++ rest)) inside
        (omega arith) in
    let (l', r') = link_layer-print next layers os2 os' p k st rest behind (omega arith) in
    (
      l',
      rw (append_assoc (print kids) (close_token ∷ print next) rest) (
          rw (link_join layers os os1 p l c st m n g j) (
            rw (link_open layers os1 (p ∷ st) c (omega arith))
              (r ∙ rw (link_close layers os2 (p ∷ st) c k) r'))),
    )

link_root :
    (layers : List ℕ) (os : Objects) (root : List ℕ) (r : ℕ)
    → get_layer os layers root ≡ ok (some r)
    → link_one layers (record { objects = os; stack = []; current = none }) none root
      ≡ ok (at os [] r)
unfolding link_one
link_root layers os root r g = rw g

-- LinkLayer on the notation of a whole stack of layers: the lowest layer by its name, and the forest
-- above it in brackets.
pub link_layer-rooted :
    (f : Forest) (layers : List ℕ) (os os' : Objects) (root : List ℕ) (r : ℕ)
    → get_layer os layers root ≡ ok (some r)
    → attach layers os r f ≡ ok os'
    → depth f < max_layer_number
    → (l : ℕ) × (link_layer layers
          (record { objects = os; stack = []; current = none })
          (root ∷ open_token ∷ (print f ++ close_token ∷ []))
        ≡ ok (at os' [] l))
unfolding link_layer
link_layer-rooted f layers os os' root r g e h =
    let (l, step) = link_layer-print f layers os os' r r [] (close_token ∷ []) e (omega arith) in
    (
      l,
      rw (link_root layers os root r g)
          (rw (link_open layers os [] r (omega arith)) (step ∙ rw (link_close layers os' [] r l))),
    )
