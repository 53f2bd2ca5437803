-- ===== src/Arp/Cache.antt =====
-- The ARP table as a finite map from IP addresses to nodes: the first node of an address counts.
-- Each loop and update of `Arp/Table.antt` is an operation of that map.
use arpwith_mfc.Base.{
  ℕ, zero, suc, ◌+◌, ◌≡◌, refl, sym, ap, ◌∙◌, ◌⊎◌, inl, inr, true, false, List, [], ◌∷◌, ◌++◌,
  Option, none, some, arith, if◌then◌else◌, get_elem?, set, Bool-cases,
}
use arpwith_mfc.Wire.Address.{Ip, same_ip, same_ip_iff}
use arpwith_mfc.State.{ArpNode}
use arpwith_mfc.Arp.Table.{in_cache_from, in_cache}

-- the node that the map gives for an address
unfoldable pub lookup : List ArpNode → Ip → Option ArpNode
lookup [] a = none
lookup (n ∷ t) a = if same_ip n.protocol_addr a then some n else lookup t a

-- The node at index `k` is `n`, and the first of the address `a`.
abbrev pub FirstAt : List ArpNode → Ip → ℕ → ArpNode → Type 0
FirstAt [] a k n = ⊥
FirstAt (m ∷ t) a zero n = (m ≡ n) × (same_ip m.protocol_addr a ≡ true)
FirstAt (m ∷ t) a (suc k) n = (same_ip m.protocol_addr a ≡ false) × FirstAt t a k n

-- Either the search fails and the map has no node of the address, or it stops at the first one.
abbrev pub Searched : List ArpNode → Ip → Option ℕ → ℕ → Type 0
Searched t a r i =
    ((r ≡ none) × (lookup t a ≡ none))
    ⊎ ((k : ℕ) × (n : ArpNode) × (r ≡ some (i + k)) × FirstAt t a k n)

in_cache_from-Searched : (i : ℕ) (t : List ArpNode) (a : Ip) → Searched t a (in_cache_from i t a) i
unfolding in_cache_from lookup
in_cache_from-Searched i [] a = inl (refl, refl)
in_cache_from-Searched i (m ∷ t) a = elim (Bool-cases (same_ip m.protocol_addr a)) [
  | inl hit ↦ inr (0, m, rw hit (ap some (omega arith)), (refl, hit))
  | inr miss ↦ elim (in_cache_from-Searched (i + 1) t a) [
    | inl (e, l) ↦ inl (rw (miss, e), rw (miss, l))
    | inr (k, n, e, f) ↦ inr (suc k, n, rw (miss, e) (ap some (omega arith)), (miss, f))
  ]
]

pub in_cache-Searched : (t : List ArpNode) (a : Ip) → Searched t a (in_cache t a) 0
unfolding in_cache
in_cache-Searched t a = in_cache_from-Searched 0 t a

pub FirstAt-get_elem? :
    (t : List ArpNode) (a : Ip) (k : ℕ) (n : ArpNode) → FirstAt t a k n → get_elem? t k ≡ some n
FirstAt-get_elem? [] a k n f = absurd f
FirstAt-get_elem? (m ∷ t) a zero n f = ap some f.0
FirstAt-get_elem? (m ∷ t) a (suc k) n f = FirstAt-get_elem? t a k n f.1

pub FirstAt-lookup :
    (t : List ArpNode) (a : Ip) (k : ℕ) (n : ArpNode) → FirstAt t a k n → lookup t a ≡ some n
unfolding lookup
FirstAt-lookup [] a k n f = absurd f
FirstAt-lookup (m ∷ t) a zero n f = rw f.1 (ap some f.0)
FirstAt-lookup (m ∷ t) a (suc k) n f = rw f.0 (FirstAt-lookup t a k n f.1)

pub FirstAt-addr :
    (t : List ArpNode) (a : Ip) (k : ℕ) (n : ArpNode) → FirstAt t a k n → n.protocol_addr ≡ a
FirstAt-addr [] a k n f = absurd f
FirstAt-addr (m ∷ t) a zero n f =
    sym (ap (λ (x : ArpNode). x.protocol_addr) f.0) ∙ (same_ip_iff m.protocol_addr a).0 f.1
FirstAt-addr (m ∷ t) a (suc k) n f = FirstAt-addr t a k n f.1

-- inCache gives the index of the first node of the address, and -1 where the map has none.
pub in_cache-lookup :
    (t : List ArpNode) (a : Ip)
    → ((in_cache t a ≡ none) × (lookup t a ≡ none))
      ⊎ ((k : ℕ) × (n : ArpNode) × (in_cache t a ≡ some k)
          × FirstAt t a k n
          × (get_elem? t k ≡ some n)
          × (lookup t a ≡ some n))
in_cache-lookup t a = elim (in_cache-Searched t a) [
  | inl r ↦ inl r
  | inr (k, n, e, f) ↦
      inr
        (k, n, e ∙ ap some (omega arith), f, FirstAt-get_elem? t a k n f, FirstAt-lookup t a k n f)
]

-- Writing a node of the same address at the first place of it overrides the map there.
pub lookup-set :
    (t : List ArpNode) (a : Ip) (k : ℕ) (n m : ArpNode)
    → FirstAt t a k n
    → m.protocol_addr ≡ a
    → (b : Ip) → lookup (set t k m) b ≡ (if same_ip a b then some m else lookup t b)
unfolding lookup
lookup-set [] a k n m f e b = absurd f
lookup-set (x ∷ t) a zero n m f e b =
    ground (arith, same_ip_iff x.protocol_addr a, same_ip_iff a b, same_ip_iff x.protocol_addr b)
lookup-set (x ∷ t) a (suc k) n m f e b = ground (
  arith,
  lookup-set t a k n m f.1 e b,
  same_ip_iff x.protocol_addr a,
  same_ip_iff a b,
  same_ip_iff x.protocol_addr b,
)

-- A node pushed back counts where its address had none.
pub lookup-push_back :
    (t : List ArpNode) (m : ArpNode) (b : Ip)
    → lookup (t ++ m ∷ []) b ≡ elim (lookup t b) [
      | some n ↦ some n
      | none ↦ if same_ip m.protocol_addr b then some m else none
    ]
unfolding lookup
lookup-push_back [] m b = refl
lookup-push_back (x ∷ t) m b = elim (Bool-cases (same_ip x.protocol_addr b)) [
  | inl hit ↦ rw hit
  | inr miss ↦ rw miss (lookup-push_back t m b)
]
