-- ===== src/Arp/Refine.antt =====
-- What each operation of CARPLayer on its table does to the map that the table stands for.
use arpwith_mfc.Base.{
  ℕ, zero, suc, set, ◌⊎◌, ◌++◌, Bool-cases, ap, ◌≡◌, refl, ◌∙◌, inl, inr, true, false, List, [],
  ◌∷◌, none, some, ok, arith, if◌then◌else◌,
}
use arpwith_mfc.Wire.Address.{Ip, Mac, same_ip, same_ip_iff, mac_prefix}
use arpwith_mfc.Wire.Formats.{ArpHeader}
use arpwith_mfc.State.{ArpNode, ArpLayer}
use arpwith_mfc.Arp.Table.{in_cache, note_sender, note_target, learn, refresh, arp_node, complete}
use arpwith_mfc.Arp.{get_mac_in_arp}
use arpwith_mfc.Arp.Cache.{
  lookup, FirstAt, FirstAt-addr, in_cache-lookup, lookup-set, lookup-push_back,
}

-- Send's update of the table is an update of the map: afterwards the address has the new node,
-- and every other address what it had.
pub lookup-note_target :
    (t : List ArpNode) (n : ArpNode) (b : Ip)
    → lookup (note_target t n) b ≡ (if same_ip n.protocol_addr b then some n else lookup t b)
unfolding note_target
lookup-note_target t n b = elim (in_cache-lookup t n.protocol_addr) [
  | inl (e, l) ↦
      rw (e, note_target)
        (lookup-push_back t n b ∙ ground (arith, l, same_ip_iff n.protocol_addr b))
  | inr (k, m, e, f, g, l) ↦ rw (e, note_target) (lookup-set t n.protocol_addr k m n f refl b)
]

-- The table `t'` is `t` with `m` in the place of the first node of its address, or behind all nodes where
-- the address has none.
abbrev pub Noted : List ArpNode → ArpNode → List ArpNode → Type 0
Noted t m t' =
    ((lookup t m.protocol_addr ≡ none) × (t' ≡ t ++ m ∷ []))
    ⊎ ((n : ArpNode) × (before after : List ArpNode) × (t ≡ before ++ n ∷ after)
        × (n.protocol_addr ≡ m.protocol_addr)
        × (lookup before m.protocol_addr ≡ none)
        × (t' ≡ before ++ m ∷ after))

-- A table cut at the first node of an address.
pub FirstAt-split :
    (t : List ArpNode) (a : Ip) (k : ℕ) (n m : ArpNode)
    → FirstAt t a k n
    → (before after : List ArpNode) × (t ≡ before ++ n ∷ after)
      × (lookup before a ≡ none)
      × (set t k m ≡ before ++ m ∷ after)
unfolding lookup
FirstAt-split [] a k n m f = absurd f
FirstAt-split (x ∷ t) a zero n m f = ([], t, ap (λ y. y ∷ t) f.0, refl, refl)
FirstAt-split (x ∷ t) a (suc k) n m f =
    let (before, after, split, other, put) = FirstAt-split t a k n m f.1 in
    (x ∷ before, after, ap (◌∷◌ x) split, rw f.0 other, ap (◌∷◌ x) put)

pub note_target-Noted : (t : List ArpNode) (m : ArpNode) → Noted t m (note_target t m)
unfolding note_target
note_target-Noted t m = elim (in_cache-lookup t m.protocol_addr) [
  | inl (e, l) ↦ rw (e, note_target) (inl (l, refl))
  | inr (k, n, e, f, g, l) ↦
      let (before, after, split, other, put) = FirstAt-split t m.protocol_addr k n m f in
      rw (e, note_target)
        (inr (n, before, after, split, FirstAt-addr t m.protocol_addr k n f, other, put))
]

-- The loop of the reply case brings the first node of the sender's address up to date.
pub learn_split :
    (t : List ArpNode) (q : ArpHeader) (now : ℕ)
    → ((lookup t q.protocol_srcaddr ≡ none) × (learn t q now ≡ t))
      ⊎ ((n : ArpNode) × (before after : List ArpNode) × (t ≡ before ++ n ∷ after)
          × (n.protocol_addr ≡ q.protocol_srcaddr)
          × (lookup before q.protocol_srcaddr ≡ none)
          × (learn t q now
              ≡ before ++ arp_node q.protocol_srcaddr q.hardware_srcaddr complete now ∷ after))
unfolding learn lookup refresh arp_node
learn_split [] q now = inl (refl, refl)
learn_split (x ∷ t) q now = elim (Bool-cases (same_ip x.protocol_addr q.protocol_srcaddr)) [
  | inl hit ↦
      let same = (same_ip_iff x.protocol_addr q.protocol_srcaddr).0 hit in
      inr (
        x,
        [],
        t,
        refl,
        same,
        refl,
        rw hit (ap (λ ip. arp_node ip q.hardware_srcaddr complete now ∷ t) same),
      )
  | inr miss ↦ elim (learn_split t q now) [
    | inl (l, e) ↦ inl (rw miss l, rw miss (ap (◌∷◌ x) e))
    | inr (n, before, after, split, same, other, e) ↦
        inr (n, x ∷ before, after, ap (◌∷◌ x) split, same, rw miss other, rw miss (ap (◌∷◌ x) e))
  ]
]

-- The reply case of Receive updates the sender's node where the map has one, and nothing else.
pub lookup-learn :
    (t : List ArpNode) (q : ArpHeader) (now : ℕ) (b : Ip)
    → lookup (learn t q now) b ≡ elim (lookup t b) [
      | none ↦ none
      | some n ↦
          if same_ip q.protocol_srcaddr b then some (refresh n q.hardware_srcaddr now) else some n
    ]
unfolding lookup learn refresh
lookup-learn [] q now b = refl
lookup-learn (x ∷ t) q now b = ground (
  arith,
  lookup-learn t q now b,
  same_ip_iff x.protocol_addr q.protocol_srcaddr,
  same_ip_iff q.protocol_srcaddr b,
  same_ip_iff x.protocol_addr b,
)

-- The request case of Receive looks for the sender's Ethernet address among the IP addresses. Where
-- no node's address agrees with its first four bytes, a node is pushed back, and the map keeps what
-- it had for the sender, however old.
pub lookup-note_sender_missed :
    (t : List ArpNode) (q : ArpHeader) (now : ℕ) (b : Ip)
    → lookup t (mac_prefix q.hardware_srcaddr) ≡ none
    → lookup (note_sender t (in_cache t (mac_prefix q.hardware_srcaddr)) q now) b
      ≡ elim (lookup t b) [
        | some n ↦ some n
        | none ↦
            if same_ip q.protocol_srcaddr b
            then some (arp_node q.protocol_srcaddr q.hardware_srcaddr complete now)
            else none
      ]
unfolding note_sender
lookup-note_sender_missed t q now b h = elim (in_cache-lookup t (mac_prefix q.hardware_srcaddr)) [
  | inl (e, l) ↦
      rw (e, note_sender)
        (lookup-push_back t (arp_node q.protocol_srcaddr q.hardware_srcaddr complete now) b)
  | inr (k, n, e, f, g, l) ↦ absurd (cc)
]

-- Where some node's IP address agrees with the first four bytes of the sender's Ethernet address,
-- that node is given the sender's Ethernet address, and the sender's own IP address has what it had.
pub lookup-note_sender_hit :
    (t : List ArpNode) (q : ArpHeader) (now : ℕ) (n : ArpNode) (b : Ip)
    → lookup t (mac_prefix q.hardware_srcaddr) ≡ some n
    → lookup (note_sender t (in_cache t (mac_prefix q.hardware_srcaddr)) q now) b ≡ (
        if same_ip (mac_prefix q.hardware_srcaddr) b
        then some (refresh n q.hardware_srcaddr now)
        else lookup t b)
unfolding note_sender refresh
lookup-note_sender_hit t q now n b h = elim (in_cache-lookup t (mac_prefix q.hardware_srcaddr)) [
  | inl (e, l) ↦ absurd (cc)
  | inr (k, m, e, f, g, l) ↦
      let same : m ≡ n = cc in
      rw (e, note_sender)
        (rw g (
          rw (← same) (
            lookup-set t (mac_prefix q.hardware_srcaddr) k m (refresh m q.hardware_srcaddr now) f
              (FirstAt-addr t (mac_prefix q.hardware_srcaddr) k m f) b)))
]

-- getMACinARP answers from the map: the node's Ethernet address where there is a node, and the
-- caller's buffer unchanged where there is none. It never reads outside the table.
pub get_mac_in_arp-lookup :
    (a : ArpLayer) (ip : Ip) (mac : Mac)
    → get_mac_in_arp a ip mac ≡ elim (lookup a.arp_table ip) [
      | none ↦ ok (false, mac)
      | some n ↦ ok (true, n.hardware_addr)
    ]
unfolding get_mac_in_arp
get_mac_in_arp-lookup a ip mac = elim (in_cache-lookup a.arp_table ip) [
  | inl (e, l) ↦ rw (e, l, get_mac_in_arp)
  | inr (k, n, e, f, g, l) ↦ rw (e, l, get_mac_in_arp) (rw g)
]
