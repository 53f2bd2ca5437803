-- ===== src/Arp/Proxy.antt =====
-- The proxy table of CARPLayer.
use arpwith_mfc.Base.{
  ℕ, zero, suc, List, [], ◌∷◌, ◌++◌, Option, none, some, Result, ok, fault, ◌>>=◌, if◌then◌else◌,
}
use arpwith_mfc.Wire.Address.{Ip, Mac, fill_ip, fill_mac, same_ip}
use arpwith_mfc.State.{ProxyNode}

-- The loops over the proxy table in Receive and in RSend: the first node of the address.
unfoldable pub find_proxy : List ProxyNode → Ip → Option ProxyNode
find_proxy [] a = none
find_proxy (p ∷ t) a = if same_ip p.protocol_addr a then some p else find_proxy t a

-- the copy of an address through a pointer that may be null
abbrev or_cleared : {A : Type 0} → Option A → A → A
or_cleared none a = a
or_cleared (some b) a = b

-- PROXY_ARP_NODE(srcenet, dstip, dstenet)
unfoldable pub proxy_node : Option Mac → Option Ip → Option Mac → ProxyNode
proxy_node srcenet dstip dstenet = record {
  srchardware_addr = or_cleared srcenet (fill_mac 0);
  protocol_addr = or_cleared dstip (fill_ip 0);
  hardware_addr = or_cleared dstenet (fill_mac 0);
}

-- CARPLayer::createProxy
unfoldable pub create_proxy : List ProxyNode → Option Mac → Option Ip → Option Mac → List ProxyNode
unfolding proxy_node
create_proxy t src ip enet = t ++ proxy_node src ip enet ∷ []

-- CARPLayer::deleteProxy, at an index from 0 on
unfoldable pub delete_proxy : List ProxyNode → ℕ → Result (List ProxyNode)
delete_proxy [] i = fault
delete_proxy (p ∷ t) zero = ok t
delete_proxy (p ∷ t) (suc i) = delete_proxy t i >>= λ r. ok (p ∷ r)
