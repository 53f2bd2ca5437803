-- ===== src/Arp/Distinct.antt =====
-- Whether each IP address has at most one node in the ARP table.
use arpwith_mfc.Base.{
  ℕ, zero, suc, ◌≡◌, refl, sym, ap, ◌∙◌, ◌⊎◌, inl, inr, List, [], ◌∷◌, ◌++◌, none, some, ok, fault,
  arith, if◌then◌else◌, Bool-cases, Option-cases, set,
}
use mathlib.Core.List.{append_assoc}
use arpwith_mfc.Wire.Address.{Ip, same_ip, same_ip_iff, mac_prefix}
use arpwith_mfc.Wire.Formats.{ArpHeader}
use arpwith_mfc.State.{ArpNode}
use arpwith_mfc.Arp.Table.{
  in_cache, note_sender, note_target, learn, refresh, arp_node, age, update_table, delete_item,
  complete,
}
use arpwith_mfc.Arp.Cache.{lookup, FirstAt, in_cache-lookup, lookup-push_back}

-- No address stands twice.
abbrev pub Distinct : List ArpNode → Type 0
Distinct [] = Unit
Distinct (n ∷ t) = (lookup t n.protocol_addr ≡ none) × Distinct t

-- Whether an address has a node depends on the addresses alone.
abbrev addrs : List ArpNode → List Ip
addrs [] = []
addrs (n ∷ t) = n.protocol_addr ∷ addrs t

lookup-addrs :
    (t u : List ArpNode) (a : Ip) → addrs t ≡ addrs u → lookup t a ≡ none → lookup u a ≡ none
unfolding lookup
lookup-addrs [] [] a e h = refl
lookup-addrs [] (m ∷ u) a e h = absurd (cc)
lookup-addrs (n ∷ t) [] a e h = absurd (cc)
lookup-addrs (n ∷ t) (m ∷ u) a e h =
    let same : n.protocol_addr ≡ m.protocol_addr = cc in
    let rest : addrs t ≡ addrs u = cc in ground (arith, same, lookup-addrs t u a rest)

Distinct-addrs : (t u : List ArpNode) → addrs t ≡ addrs u → Distinct t → Distinct u
Distinct-addrs [] [] e d = tt
Distinct-addrs [] (m ∷ u) e d = absurd (cc)
Distinct-addrs (n ∷ t) [] e d = absurd (cc)
Distinct-addrs (n ∷ t) (m ∷ u) e d =
    let same : n.protocol_addr ≡ m.protocol_addr = cc in
    let rest : addrs t ≡ addrs u = cc in
    (rw (← same) (lookup-addrs t u n.protocol_addr rest d.0), Distinct-addrs t u rest d.1)

addrs-set :
    (t : List ArpNode) (a : Ip) (k : ℕ) (n m : ArpNode)
    → FirstAt t a k n
    → m.protocol_addr ≡ a
    → addrs t ≡ addrs (set t k m)
addrs-set [] a k n m f e = absurd f
addrs-set (x ∷ t) a zero n m f e =
    ap (λ b. b ∷ addrs t) ((same_ip_iff x.protocol_addr a).0 f.1 ∙ sym e)
addrs-set (x ∷ t) a (suc k) n m f e = ap (◌∷◌ x.protocol_addr) (addrs-set t a k n m f.1 e)

Distinct-push_back :
    (t : List ArpNode) (m : ArpNode)
    → lookup t m.protocol_addr ≡ none
    → Distinct t
    → Distinct (t ++ m ∷ [])
unfolding lookup
Distinct-push_back [] m h d = (refl, tt)
Distinct-push_back (x ∷ t) m h d = (
  ground (
    arith,
    lookup-push_back t m x.protocol_addr,
    same_ip_iff m.protocol_addr x.protocol_addr,
    same_ip_iff x.protocol_addr m.protocol_addr,
  ),
  Distinct-push_back t m (ground arith) d.1,
)

-- Send keeps the addresses of the table distinct.
pub note_target-Distinct :
    (t : List ArpNode) (n : ArpNode) → Distinct t → Distinct (note_target t n)
unfolding note_target
note_target-Distinct t n d = elim (in_cache-lookup t n.protocol_addr) [
  | inl (e, l) ↦ rw (e, note_target) (Distinct-push_back t n l d)
  | inr (k, m, e, f, g, l) ↦
      rw (e, note_target)
        (Distinct-addrs t (set t k n) (addrs-set t n.protocol_addr k m n f refl) d)
]

addrs-learn : (t : List ArpNode) (q : ArpHeader) (now : ℕ) → addrs t ≡ addrs (learn t q now)
unfolding learn refresh
addrs-learn [] q now = refl
addrs-learn (x ∷ t) q now = ground (arith, addrs-learn t q now)

pub learn-Distinct :
    (t : List ArpNode) (q : ArpHeader) (now : ℕ) → Distinct t → Distinct (learn t q now)
learn-Distinct t q now = Distinct-addrs t (learn t q now) (addrs-learn t q now)

addrs-update_table : (now : ℕ) (t : List ArpNode) → addrs t ≡ addrs (update_table now t)
unfolding update_table age
addrs-update_table now [] = refl
addrs-update_table now (x ∷ t) = ground (arith, addrs-update_table now t)

pub update_table-Distinct :
    (now : ℕ) (t : List ArpNode) → Distinct t → Distinct (update_table now t)
update_table-Distinct now t = Distinct-addrs t (update_table now t) (addrs-update_table now t)

-- What deleteItem leaves where the addresses are distinct: the deleted address has no node any
-- more, every other has what it had, and the addresses stay distinct. Where the address has no
-- node, `end()` is erased.
pub delete_item_lem :
    (t : List ArpNode) (a : Ip)
    → Distinct t
    → ((lookup t a ≡ none) × (delete_item t a ≡ fault))
      ⊎ ((u : List ArpNode) × (delete_item t a ≡ ok u)
          × Distinct u
          × ((b : Ip) → lookup u b ≡ (if same_ip a b then none else lookup t b)))
unfolding delete_item lookup
delete_item_lem [] a d = inl (refl, refl)
delete_item_lem (x ∷ t) a d = elim (Bool-cases (same_ip x.protocol_addr a)) [
  | inl hit ↦ inr (
    t,
    rw hit,
    d.1,
    λ b.
        ground (
          arith,
          same_ip_iff x.protocol_addr a,
          same_ip_iff a b,
          same_ip_iff x.protocol_addr b,
          d.0,
        ),
  )
  | inr miss ↦ elim (delete_item_lem t a d.1) [
    | inl (l, e) ↦ inl (rw miss l, rw (miss, e))
    | inr (u, e, v, f) ↦ inr (
      x ∷ u,
      rw (miss, e),
      (ground (arith, f x.protocol_addr, d.0), v),
      λ b. ground (
        arith,
        f b,
        same_ip_iff x.protocol_addr a,
        same_ip_iff a b,
        same_ip_iff x.protocol_addr b,
      ),
    )
  ]
]

not-Distinct-push_back :
    (t : List ArpNode) (m n : ArpNode)
    → lookup t m.protocol_addr ≡ some n
    → ¬ Distinct (t ++ m ∷ [])
unfolding lookup
not-Distinct-push_back [] m n l d = cc
not-Distinct-push_back (x ∷ t) m n l d =
    not-Distinct-push_back t m n
      (ground (
        arith,
        l,
        d.0,
        lookup-push_back t m x.protocol_addr,
        same_ip_iff m.protocol_addr x.protocol_addr,
        same_ip_iff x.protocol_addr m.protocol_addr,
        Option-cases (lookup t x.protocol_addr),
      ))
      d.1

lookup_split :
    (t : List ArpNode) (a : Ip) (n : ArpNode)
    → lookup t a ≡ some n
    → (before after : List ArpNode) × (t ≡ before ++ n ∷ after) × (n.protocol_addr ≡ a)
unfolding lookup
lookup_split [] a n l = cc
lookup_split (x ∷ t) a n l = elim (Bool-cases (same_ip x.protocol_addr a)) [
  | inl hit ↦
      let same : x ≡ n = ground (arith, hit, l) in
      (
        [],
        t,
        ap (λ y. y ∷ t) same,
        sym (ap (λ (y : ArpNode). y.protocol_addr) same) ∙ (same_ip_iff x.protocol_addr a).0 hit,
      )
  | inr miss ↦
      let (before, after, split, same) = lookup_split t a n (rw miss at l) in
      (x ∷ before, after, ap (◌∷◌ x) split, same)
]

-- What the request case does where no node's IP address agrees with the first four bytes of the sender's
-- Ethernet address, and the sender's IP address has a node already.
pub note_sender-not-Distinct :
    (t : List ArpNode) (q : ArpHeader) (now : ℕ) (n : ArpNode)
    → Distinct t
    → lookup t (mac_prefix q.hardware_srcaddr) ≡ none
    → lookup t q.protocol_srcaddr ≡ some n
    → (before after : List ArpNode) × (t ≡ before ++ n ∷ after)
      × (note_sender t (in_cache t (mac_prefix q.hardware_srcaddr)) q now
          ≡ before
            ++ n ∷ (after ++ arp_node q.protocol_srcaddr q.hardware_srcaddr complete now ∷ []))
      × (n.protocol_addr ≡ q.protocol_srcaddr)
      × (¬ Distinct (note_sender t (in_cache t (mac_prefix q.hardware_srcaddr)) q now))
unfolding note_sender arp_node
note_sender-not-Distinct t q now n distinct h l =
    let m = arp_node q.protocol_srcaddr q.hardware_srcaddr complete now in
    let (before, after, split, same) = lookup_split t q.protocol_srcaddr n l in
    let pushed : note_sender t (in_cache t (mac_prefix q.hardware_srcaddr)) q now ≡ t ++ m ∷ [] =
      elim (in_cache-lookup t (mac_prefix q.hardware_srcaddr)) [
        | inl (e, _) ↦ rw (e, note_sender) refl
        | inr (k, x, e, f, g, found) ↦ absurd (cc)
      ] in
    (
      before,
      after,
      split,
      pushed ∙ ap (λ u. u ++ m ∷ []) split ∙ append_assoc before (n ∷ after) (m ∷ []),
      same,
      rw pushed (not-Distinct-push_back t m n l),
    )
