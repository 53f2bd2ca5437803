-- ===== src/Arp/Nodes.antt =====
-- The constructors, the copies and the comparisons of the structs of CARPLayer.
use arpwith_mfc.Base.{ℕ, ◌%◌, Bool, ◌&&◌, List, not, ◌==◌}
use arpwith_mfc.Wire.Address.{ip_bytes, fill_ip, fill_mac, same_ip, same_mac}
use arpwith_mfc.Wire.Formats.{ArpHeader}
use arpwith_mfc.State.{ArpNode, ProxyNode, ArpLayer}
use arpwith_mfc.Arp.{blank_header}

-- ARP_NODE(ipaddr, enetaddr, incomplete) on numbers: memset fills with their lowest byte.
unfoldable pub filled_node : ℕ → ℕ → ℕ → ℕ → ArpNode
filled_node ipaddr enetaddr status now = record {
  protocol_addr = fill_ip (ipaddr % 256);
  hardware_addr = fill_mac (enetaddr % 256);
  status = status;
  span_time = now;
}

-- ARP_NODE(const ARP_NODE&)
unfoldable pub copy_node : ArpNode → ArpNode
copy_node ot = record {
  protocol_addr = ot.protocol_addr;
  hardware_addr = ot.hardware_addr;
  status = ot.status;
  span_time = ot.span_time;
}

-- ARP_HEADER(const ARP_HEADER&)
unfoldable pub copy_header : ArpHeader → ArpHeader
copy_header ot = record {
  hardware_type = ot.hardware_type;
  protocol_type = ot.protocol_type;
  hardware_length = ot.hardware_length;
  protocol_length = ot.protocol_length;
  opercode = ot.opercode;
  hardware_srcaddr = ot.hardware_srcaddr;
  hardware_dstaddr = ot.hardware_dstaddr;
  protocol_srcaddr = ot.protocol_srcaddr;
  protocol_dstaddr = ot.protocol_dstaddr;
}

-- CARPLayer::ResetHeader
unfoldable pub reset_header : ArpLayer → ArpLayer
reset_header a = record a { headers = record { at_inner = blank_header; at_outer = blank_header } }

-- `operator==` of two nodes
unfoldable pub same_node : ArpNode → ArpNode → Bool
same_node n ot = same_ip n.protocol_addr ot.protocol_addr

-- What memcmp of the C library returns: whether it is negative, and its absolute value.
pub record Order : Type 0 where
  pub negative : Bool
  pub size : ℕ

-- `operator<` and `operator>`, with memcmp as a parameter. They test for -1 and for 1.
unfoldable pub node_below : (List ℕ → List ℕ → Order) → ArpNode → ArpNode → Bool
node_below memcmp n ot =
    let r = memcmp (ip_bytes n.protocol_addr) (ip_bytes ot.protocol_addr) in
    r.negative && r.size == 1

unfoldable pub node_above : (List ℕ → List ℕ → Order) → ArpNode → ArpNode → Bool
node_above memcmp n ot =
    let r = memcmp (ip_bytes n.protocol_addr) (ip_bytes ot.protocol_addr) in
    not r.negative && r.size == 1

-- `operator==` of two nodes of the proxy table
unfoldable pub same_proxy : ProxyNode → ProxyNode → Bool
same_proxy n ot =
    same_mac ot.hardware_addr n.hardware_addr
    && same_mac ot.srchardware_addr n.srchardware_addr
    && same_ip ot.protocol_addr n.protocol_addr
