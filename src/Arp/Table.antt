-- ===== src/Arp/Table.antt =====
-- The ARP table of CARPLayer: a vector of nodes, the newest last.
use arpwith_mfc.Base.{
  ℕ, ◌+◌, ◌-◌, List, [], ◌∷◌, ◌++◌, Option, none, some, Result, ok, fault, ◌>>=◌, if◌then◌else◌,
  ◌==◌, ltb, get_elem?, set,
}
use arpwith_mfc.Wire.Address.{Ip, Mac, same_ip}
use arpwith_mfc.Wire.Formats.{ArpHeader}
use arpwith_mfc.State.{ArpNode}

-- the statuses
abbrev pub incomplete : ℕ
incomplete = 0

abbrev pub complete : ℕ
complete = 1

abbrev pub arp_time_out : ℕ
arp_time_out = 2

-- ARP_NODE(cipaddr, cenetaddr, bincomplete) at the time `now`
unfoldable pub arp_node : Ip → Mac → ℕ → ℕ → ArpNode
arp_node ip mac status now = record {
  protocol_addr = ip;
  hardware_addr = mac;
  status = status;
  span_time = now;
}

-- The loop of CARPLayer::inCache from index `i` on; `none` stands for -1.
unfoldable pub in_cache_from : ℕ → List ArpNode → Ip → Option ℕ
in_cache_from i [] a = none
in_cache_from i (n ∷ t) a = if same_ip n.protocol_addr a then some i else in_cache_from (i + 1) t a

-- CARPLayer::inCache
unfoldable pub in_cache : List ArpNode → Ip → Option ℕ
in_cache t a = in_cache_from 0 t a

-- What Receive does to a node: it takes the sender's Ethernet address, the status TRUE and the time.
unfoldable pub refresh : ArpNode → Mac → ℕ → ArpNode
refresh n mac now = record n { hardware_addr = mac; status = complete; span_time = now }

-- The first lines of the request case of Receive: the node at `index` takes the sender's Ethernet
-- address, or a new node is pushed back where there is no index.
unfoldable pub note_sender : List ArpNode → Option ℕ → ArpHeader → ℕ → List ArpNode
unfolding arp_node
note_sender t none q now = t ++ arp_node q.protocol_srcaddr q.hardware_srcaddr complete now ∷ []
note_sender t (some i) q now = elim (get_elem? t i) [
  | none ↦ t
  | some n ↦ set t i (refresh n q.hardware_srcaddr now)
]

-- The loop of the reply case of Receive: the first node of the sender's address is brought up to date.
unfoldable pub learn : List ArpNode → ArpHeader → ℕ → List ArpNode
learn [] q now = []
learn (n ∷ t) q now =
    if same_ip n.protocol_addr q.protocol_srcaddr
    then refresh n q.hardware_srcaddr now ∷ t
    else n ∷ learn t q now

-- What Send does to the table: the node of that address is replaced, or the new one pushed back.
unfoldable pub note_target : List ArpNode → ArpNode → List ArpNode
note_target t n = elim (in_cache t n.protocol_addr) [ none ↦ t ++ n ∷ [] | some i ↦ set t i n ]

-- how long a node of that status may stay without news
abbrev pub life : ℕ → ℕ
life status = if status == complete then 600 else 180

-- The body of the loop of CARPLayer::updateTable.
unfoldable pub age : ℕ → ArpNode → ArpNode
age now n =
    if n.status == arp_time_out
    then n
    else if ltb (life n.status) (now - n.span_time)
    then record n { status = arp_time_out }
    else n

-- CARPLayer::updateTable
unfoldable pub update_table : ℕ → List ArpNode → List ArpNode
update_table now [] = []
update_table now (n ∷ t) = age now n ∷ update_table now t

-- CARPLayer::deleteItem, from where the text is read on. Where no node has the address, `end()` is erased.
unfoldable pub delete_item : List ArpNode → Ip → Result (List ArpNode)
delete_item [] a = fault
delete_item (n ∷ t) a =
    if same_ip n.protocol_addr a then ok t else delete_item t a >>= λ r. ok (n ∷ r)

-- CARPLayer::clearTable
unfoldable pub clear_table : List ArpNode → List ArpNode
clear_table t = []
