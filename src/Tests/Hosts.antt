-- ===== src/Tests/Hosts.antt =====
-- Two hosts on one wire, and a router's tables.
use arpwith_mfc.Base.{ℕ, ◌+◌, Bool, true, List, [], replicate, length-replicate}
use arpwith_mfc.Wire.Address.{Ip, Mac, fill_ip, fill_mac}
use arpwith_mfc.Wire.Formats.{EthernetHeader, ArpHeader, IpHeader}
use arpwith_mfc.State.{inner, outer, ArpNode, ProxyNode, Route, Stack, Env}
use arpwith_mfc.Sized.{IsSized}

abbrev pub ip_of : ℕ → Ip
ip_of n = record { o0 = 10; o1 = 0; o2 = 0; o3 = n }

abbrev pub mac_of : ℕ → Mac
mac_of n = record { m0 = 2; m1 = 0; m2 = 0; m3 = 0; m4 = 0; m5 = n }

unfoldable pub blank_data : List ℕ
blank_data = replicate 1500 0

unfoldable pub blank_ip_data : List ℕ
blank_ip_data = replicate 1480 0

abbrev pub ethernet_header : Mac → ℕ → EthernetHeader
ethernet_header own type = record {
  enet_dstaddr = fill_mac 0;
  enet_srcaddr = own;
  enet_type = type;
  enet_data = blank_data;
}

abbrev pub arp_header : ArpHeader
arp_header = record {
  hardware_type = 0x0100;
  protocol_type = 0x0008;
  hardware_length = 6;
  protocol_length = 4;
  opercode = 0;
  hardware_srcaddr = fill_mac 0;
  protocol_srcaddr = fill_ip 0;
  hardware_dstaddr = fill_mac 0;
  protocol_dstaddr = fill_ip 0;
}

abbrev pub ip_header : Ip → Ip → IpHeader
ip_header src dst = record {
  ver_hlegnth = 0x45;
  tos = 0;
  tlength = 0;
  id = 0;
  offset = 0;
  ttl = 64;
  ptype = 17;
  checksum = 0;
  ip_srcaddr = src;
  ip_dstaddr = dst;
  ip_data = blank_ip_data;
}

-- The host of that number, whose outer adapter has the number 100 more. `type` is what its Ethernet
-- headers hold.
abbrev pub host : ℕ → ℕ → Bool → List ArpNode → List ProxyNode → List Route → Stack
host n type garp table proxies routes = record {
  ethernet = record {
    at_inner = ethernet_header (mac_of n) type;
    at_outer = ethernet_header (mac_of (n + 100)) type;
  };
  arp = record {
    myip = record { at_inner = ip_of n; at_outer = ip_of (n + 100) };
    mymac = record { at_inner = mac_of n; at_outer = mac_of (n + 100) };
    is_garp = garp;
    headers = record { at_inner = arp_header; at_outer = arp_header };
    arp_table = table;
    proxy_table = proxies;
  };
  ip = record {
    at_inner = ip_header (ip_of n) (fill_ip 0);
    at_outer = ip_header (ip_of (n + 100)) (fill_ip 0);
  };
  route_table = routes;
  sent = [];
}

pub host-IsSized :
    (n type : ℕ) (garp : Bool) (table : List ArpNode) (proxies : List ProxyNode)
    (routes : List Route)
    → IsSized (host n type garp table proxies routes)
unfolding blank_data blank_ip_data
host-IsSized n type garp table proxies routes = record {
  ethernet_full = elim [
    | inner ↦ length-replicate {A = ℕ} 1500 0
    | outer ↦ length-replicate {A = ℕ} 1500 0
  ];
  ip_whole = elim [
    | inner ↦ length-replicate {A = ℕ} 1480 0
    | outer ↦ length-replicate {A = ℕ} 1480 0
  ];
}

-- pcap_sendpacket succeeds, and nothing happens during a wait.
abbrev pub env_at : ℕ → Env
env_at now = record {
  now = now;
  transmit = λ _. true;
  uninit = ip_header (fill_ip 0) (fill_ip 0);
  wait = λ s. s;
}

abbrev pub node : ℕ → ℕ → ℕ → ArpNode
node n status time = record {
  protocol_addr = ip_of n;
  hardware_addr = mac_of n;
  status = status;
  span_time = time;
}

abbrev pub proxy : ProxyNode
proxy = record { srchardware_addr = mac_of 1; protocol_addr = ip_of 50; hardware_addr = mac_of 50 }
