-- ===== src/Typed/Tables.antt =====
-- What the layers read from and write to their tables is as well typed as what they hold.
use arpwith_mfc.Base.{
  ℕ, zero, suc, ◌<◌, ◌≡◌, inl, inr, List, [], ◌∷◌, Option, none, some, arith, All, Leaves,
  Leaves-bind, Bool-cases, Option-cases, get_elem?,
}
use mathlib.Core.Path.{subst}
use arpwith_mfc.Wire.Address.{Ip, Mac, same_ip}
use arpwith_mfc.Wire.Formats.{ArpHeader}
use arpwith_mfc.State.{ArpNode, ProxyNode}
use arpwith_mfc.Arp.Table.{
  in_cache, note_sender, note_target, learn, refresh, arp_node, age, update_table, delete_item,
  complete,
}
use arpwith_mfc.Arp.Proxy.{find_proxy, delete_proxy}
use arpwith_mfc.Typed.{IsIp, IsMac, ArpTyped, NodeTyped, ProxyTyped}
use arpwith_mfc.Typed.Bytes.{All-append, All-set, All-get_elem?}

pub arp_node-NodeTyped :
    (ip : Ip) (mac : Mac) (status now : ℕ)
    → IsIp ip
    → IsMac mac
    → status < 3
    → NodeTyped (arp_node ip mac status now)
unfolding arp_node
arp_node-NodeTyped ip mac status now i m h = record {
  protocol_typed = i;
  hardware_typed = m;
  status_fits = h;
}

refresh-NodeTyped :
    (n : ArpNode) (mac : Mac) (now : ℕ) → IsMac mac → NodeTyped n → NodeTyped (refresh n mac now)
unfolding refresh
refresh-NodeTyped n mac now m h = record {
  protocol_typed = h.protocol_typed;
  hardware_typed = m;
  status_fits = omega arith;
}

pub note_target-NodeTyped :
    (t : List ArpNode) (n : ArpNode)
    → NodeTyped n
    → All NodeTyped t
    → All NodeTyped (note_target t n)
unfolding note_target
note_target-NodeTyped t n h k = elim (Option-cases (in_cache t n.protocol_addr)) [
  | inl e ↦ rw (note_target, e) (All-append NodeTyped t (n ∷ []) k (h, tt))
  | inr (i, e) ↦ rw (note_target, e) (All-set NodeTyped t i n h k)
]

pub note_sender-NodeTyped :
    (t : List ArpNode) (index : Option ℕ) (q : ArpHeader) (now : ℕ)
    → ArpTyped q
    → All NodeTyped t
    → All NodeTyped (note_sender t index q now)
unfolding note_sender
note_sender-NodeTyped t none q now h k =
    All-append NodeTyped t (arp_node q.protocol_srcaddr q.hardware_srcaddr complete now ∷ []) k (
      arp_node-NodeTyped _ _ complete now h.protocol_src_typed h.hardware_src_typed (omega arith),
      tt,
    )
note_sender-NodeTyped t (some i) q now h k = elim (Option-cases (get_elem? t i)) [
  | inl e ↦ rw (note_sender, e) k
  | inr (n, e) ↦
      rw (note_sender, e)
        (All-set NodeTyped t i (refresh n q.hardware_srcaddr now)
          (refresh-NodeTyped n _ now h.hardware_src_typed (All-get_elem? NodeTyped t i n k e)) k)
]

pub learn-NodeTyped :
    (t : List ArpNode) (q : ArpHeader) (now : ℕ)
    → ArpTyped q
    → All NodeTyped t
    → All NodeTyped (learn t q now)
unfolding learn
learn-NodeTyped [] q now h k = tt
learn-NodeTyped (n ∷ t) q now h (p, k) =
    elim (Bool-cases (same_ip n.protocol_addr q.protocol_srcaddr)) [
      | inl e ↦ rw e (refresh-NodeTyped n _ now h.hardware_src_typed p, k)
      | inr e ↦ rw e (p, learn-NodeTyped t q now h k)
    ]

age-NodeTyped : (now : ℕ) (n : ArpNode) → NodeTyped n → NodeTyped (age now n)
age-NodeTyped now n h = record {
  protocol_typed = rw (same_address now n) h.protocol_typed;
  hardware_typed = rw (same_mac_address now n) h.hardware_typed;
  status_fits = status now n h.status_fits;
}
  where
    same_address : (now : ℕ) (n : ArpNode) → (age now n).protocol_addr ≡ n.protocol_addr
    same_address now n = unfold age in ground arith

    same_mac_address : (now : ℕ) (n : ArpNode) → (age now n).hardware_addr ≡ n.hardware_addr
    same_mac_address now n = unfold age in ground arith

    status : (now : ℕ) (n : ArpNode) → n.status < 3 → (age now n).status < 3
    status now n h = unfold age in ground arith

pub update_table-NodeTyped :
    (now : ℕ) (t : List ArpNode) → All NodeTyped t → All NodeTyped (update_table now t)
unfolding update_table
update_table-NodeTyped now [] k = tt
update_table-NodeTyped now (n ∷ t) (h, k) = (age-NodeTyped now n h, update_table-NodeTyped now t k)

pub delete_item-NodeTyped :
    (t : List ArpNode) (a : Ip) → All NodeTyped t → Leaves (All NodeTyped) (delete_item t a)
unfolding delete_item
delete_item-NodeTyped [] a k = tt
delete_item-NodeTyped (n ∷ t) a (h, k) = elim (Bool-cases (same_ip n.protocol_addr a)) [
  | inl e ↦ rw e k
  | inr e ↦ rw e (
      Leaves-bind (All NodeTyped) (All NodeTyped) (delete_item t a) _ (delete_item-NodeTyped t a k)
        (λ r j. (h, j)))
]

pub find_proxy-ProxyTyped :
    (t : List ProxyNode) (a : Ip) (p : ProxyNode)
    → All ProxyTyped t
    → find_proxy t a ≡ some p
    → ProxyTyped p
unfolding find_proxy
find_proxy-ProxyTyped [] a p k e = cc
find_proxy-ProxyTyped (x ∷ t) a p (h, k) e = elim (Bool-cases (same_ip x.protocol_addr a)) [
  | inl hit ↦ let same : x ≡ p = ground (arith, hit, e) in subst ProxyTyped same h
  | inr miss ↦ find_proxy-ProxyTyped t a p k (rw miss at e)
]

pub delete_proxy-ProxyTyped :
    (t : List ProxyNode) (i : ℕ) → All ProxyTyped t → Leaves (All ProxyTyped) (delete_proxy t i)
unfolding delete_proxy
delete_proxy-ProxyTyped [] i k = tt
delete_proxy-ProxyTyped (p ∷ t) zero (h, k) = k
delete_proxy-ProxyTyped (p ∷ t) (suc i) (h, k) =
    Leaves-bind (All ProxyTyped) (All ProxyTyped) (delete_proxy t i) _
      (delete_proxy-ProxyTyped t i k) (λ r j. (h, j))
