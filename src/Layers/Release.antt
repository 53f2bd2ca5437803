-- ===== src/Layers/Release.antt =====
-- CLayerManager::DeAllocLayer (ARP/LayerManager.cpp): the layer objects are deleted. A list tells of each
-- object whether it is still there; to delete one that is not is a fault.
use arpwith_mfc.Base.{
  ℕ, zero, suc, ◌≡◌, ◌≢◌, refl, ap, ◌∙◌, Bool, true, false, List, [], ◌∷◌, some, Result, ok, fault,
  ◌>>=◌, All, if◌then◌else◌, get_elem?,
}

unfoldable pub delete_object : List Bool → ℕ → Result (List Bool)
delete_object [] p = fault
delete_object (b ∷ bs) zero = if b then ok (false ∷ bs) else fault
delete_object (b ∷ bs) (suc p) = delete_object bs p >>= λ r. ok (b ∷ r)

-- CLayerManager::DeAllocLayer, of the layers of the manager
unfoldable pub de_alloc_layer : List Bool → List ℕ → Result (List Bool)
unfolding delete_object
de_alloc_layer there [] = ok there
de_alloc_layer there (p ∷ ps) = delete_object there p >>= λ t. de_alloc_layer t ps

-- no layer was added twice
abbrev pub Once : List ℕ → Type 0
Once [] = Unit
Once (p ∷ ps) = All (λ q. q ≢ p) ps × Once ps

record Deleted (bs : List Bool) (p : ℕ) : Type 0 where
  left : List Bool
  returns : delete_object bs p ≡ ok left
  gone : get_elem? left p ≡ some false
  others : (q : ℕ) → q ≢ p → get_elem? left q ≡ get_elem? bs q

delete_object-Deleted : (bs : List Bool) (p : ℕ) → get_elem? bs p ≡ some true → Deleted bs p
unfolding delete_object
delete_object-Deleted [] p e = absurd (cc)
delete_object-Deleted (true ∷ bs) zero e = record {
  left = false ∷ bs;
  returns = refl;
  gone = refl;
  others = elim [ zero ↦ λ n. absurd (n refl) | suc q ↦ λ n. refl ];
}
delete_object-Deleted (false ∷ bs) zero e = absurd (cc)
delete_object-Deleted (b ∷ bs) (suc p) e =
    let d = delete_object-Deleted bs p e in
    record {
      left = b ∷ d.left;
      returns = rw d.returns refl;
      gone = d.gone;
      others = elim [ zero ↦ λ n. refl | suc q ↦ λ n. d.others q (λ z. n (ap suc z)) ];
    }

still_there :
    (bs cs : List Bool) (p : ℕ) (ps : List ℕ)
    → ((q : ℕ) → q ≢ p → get_elem? cs q ≡ get_elem? bs q)
    → All (λ q. q ≢ p) ps
    → All (λ q. get_elem? bs q ≡ some true) ps
    → All (λ q. get_elem? cs q ≡ some true) ps
still_there bs cs p [] same n t = tt
still_there bs cs p (q ∷ ps) same (n, ns) (t, ts) =
    (same q n ∙ t, still_there bs cs p ps same ns ts)

-- The objects of layers that were added once each are deleted once each, and no others: the call returns.
pub de_alloc_layer_lem :
    (there : List Bool) (ps : List ℕ) (q : ℕ)
    → Once ps
    → All (λ p. get_elem? there p ≡ some true) ps
    → All (λ p. q ≢ p) ps
    → (left : List Bool) × (de_alloc_layer there ps ≡ ok left)
      × (get_elem? left q ≡ get_elem? there q)
unfolding de_alloc_layer
de_alloc_layer_lem there [] q o t n = (there, refl, refl)
de_alloc_layer_lem there (p ∷ ps) q (o, os) (t, ts) (n, ns) =
    let d = delete_object-Deleted there p t in
    let (left, e, same) =
      de_alloc_layer_lem d.left ps q os (still_there there d.left p ps d.others o ts) ns in
    (left, rw d.returns e, same ∙ d.others q n)
