-- ===== src/Typed.antt =====
-- The widths of the C++ types, which the model's numbers do not have: every octet of an address, of a
-- buffer and of a frame fits an `unsigned char`, and every `unsigned short` its 16 bits.
pub mod Bytes
pub mod Tables
pub mod Formats
pub mod Sends
pub mod Forwards
pub mod Answers
pub mod Packets
pub mod Receives
pub mod Texts
pub mod Handlers
pub mod Steps
pub mod Chosen
pub mod Windows
use arpwith_mfc.Base.{ℕ, ◌<◌, Bool, List, All}
use arpwith_mfc.Wire.Address.{Ip, Mac, ip_bytes, mac_bytes}
use arpwith_mfc.Wire.Formats.{EthernetHeader, ArpHeader, IpHeader}
use arpwith_mfc.Wire.RoundTrip.{ArpFits}
use arpwith_mfc.State.{
  Port, sel, put, put-ind, ArpNode, ProxyNode, Route, ArpLayer, Sent, Stack, Env, with_arp,
}
use Bytes.{Octets}

abbrev pub IsIp : Ip → Type 0
IsIp a = Octets (ip_bytes a)

abbrev pub IsMac : Mac → Type 0
IsMac a = Octets (mac_bytes a)

pub record EthernetTyped (h : EthernetHeader) : Type 0 where
  pub dst_typed : IsMac h.enet_dstaddr
  pub src_typed : IsMac h.enet_srcaddr
  pub type_fits : h.enet_type < 65536
  pub data_typed : Octets h.enet_data

pub record ArpTyped (h : ArpHeader) : Type 0 where
  pub fits : ArpFits h
  pub hardware_length_fits : h.hardware_length < 256
  pub protocol_length_fits : h.protocol_length < 256
  pub hardware_src_typed : IsMac h.hardware_srcaddr
  pub protocol_src_typed : IsIp h.protocol_srcaddr
  pub hardware_dst_typed : IsMac h.hardware_dstaddr
  pub protocol_dst_typed : IsIp h.protocol_dstaddr

-- The numbers of an IP header fit their `unsigned char`s and `unsigned short`s.
abbrev pub NumbersFit : IpHeader → Type 0
NumbersFit h =
    (h.ver_hlegnth < 256)
    × (h.tos < 256)
    × (h.tlength < 65536)
    × (h.id < 65536)
    × (h.offset < 65536)
    × (h.ttl < 256)
    × (h.ptype < 256)
    × (h.checksum < 65536)

pub record IpTyped (h : IpHeader) : Type 0 where
  pub numbers_fit : NumbersFit h
  pub ip_src_typed : IsIp h.ip_srcaddr
  pub ip_dst_typed : IsIp h.ip_dstaddr
  pub ip_data_typed : Octets h.ip_data

-- A node's status is one of the three.
pub record NodeTyped (n : ArpNode) : Type 0 where
  pub protocol_typed : IsIp n.protocol_addr
  pub hardware_typed : IsMac n.hardware_addr
  pub status_fits : n.status < 3

pub record ProxyTyped (p : ProxyNode) : Type 0 where
  pub given_typed : IsMac p.srchardware_addr
  pub address_typed : IsIp p.protocol_addr
  pub target_typed : IsMac p.hardware_addr

pub record RouteTyped (r : Route) : Type 0 where
  pub destination_typed : IsIp r.destination_ip
  pub netmask_typed : IsIp r.netmask
  pub gateway_typed : IsIp r.gateway
  pub flag_fits : r.flag < 256
  pub interface_fits : r.interface < 256

abbrev pub SentTyped : Sent → Type 0
SentTyped f = Octets f.bytes

pub record LayerTyped (a : ArpLayer) : Type 0 where
  pub myip_typed : (p : Port) → IsIp (sel a.myip p)
  pub mymac_typed : (p : Port) → IsMac (sel a.mymac p)
  pub headers_typed : (p : Port) → ArpTyped (sel a.headers p)
  pub nodes_typed : All NodeTyped a.arp_table
  pub proxies_typed : All ProxyTyped a.proxy_table

-- All that the layers hold, and all that they have sent, fits its type.
pub record IsTyped (s : Stack) : Type 0 where
  pub ethernet_typed : (p : Port) → EthernetTyped (sel s.ethernet p)
  pub arp_typed : LayerTyped s.arp
  pub ip_typed : (p : Port) → IpTyped (sel s.ip p)
  pub routes_typed : All RouteTyped s.route_table
  pub sent_typed : All SentTyped s.sent

abbrev pub KeptTyped : Bool × Stack → Type 0
KeptTyped x = IsTyped x.1

-- What goes on during a wait keeps the types.
abbrev pub WaitsTyped : Env → Type 0
WaitsTyped env = (t : Stack) → IsTyped t → IsTyped (env.wait t)

pub with_arp-IsTyped :
    (s : Stack) (a : ArpLayer) → LayerTyped a → IsTyped s → IsTyped (with_arp s a)
with_arp-IsTyped s a l v = record {
  ethernet_typed = v.ethernet_typed;
  arp_typed = l;
  ip_typed = v.ip_typed;
  routes_typed = v.routes_typed;
  sent_typed = v.sent_typed;
}

pub nodes-LayerTyped :
    (a : ArpLayer) (t : List ArpNode)
    → All NodeTyped t
    → LayerTyped a
    → LayerTyped (record a { arp_table = t })
nodes-LayerTyped a t n l = record {
  myip_typed = l.myip_typed;
  mymac_typed = l.mymac_typed;
  headers_typed = l.headers_typed;
  nodes_typed = n;
  proxies_typed = l.proxies_typed;
}

pub proxies-LayerTyped :
    (a : ArpLayer) (t : List ProxyNode)
    → All ProxyTyped t
    → LayerTyped a
    → LayerTyped (record a { proxy_table = t })
proxies-LayerTyped a t p l = record {
  myip_typed = l.myip_typed;
  mymac_typed = l.mymac_typed;
  headers_typed = l.headers_typed;
  nodes_typed = l.nodes_typed;
  proxies_typed = p;
}

pub header-LayerTyped :
    (a : ArpLayer) (port : Port) (h : ArpHeader)
    → ArpTyped h
    → LayerTyped a
    → LayerTyped (record a { headers = put a.headers port h })
header-LayerTyped a port h t l = record {
  myip_typed = l.myip_typed;
  mymac_typed = l.mymac_typed;
  headers_typed = put-ind ArpTyped a.headers port h l.headers_typed t;
  nodes_typed = l.nodes_typed;
  proxies_typed = l.proxies_typed;
}
