-- ===== src/Typed/Formats.antt =====
-- Structs that lie over octets are typed, and a typed struct is written in octets.
use arpwith_mfc.Base.{ℕ, ◌+◌, ◌<◌, List, ◌++◌, arith, drop}
use arpwith_mfc.Wire.Address.{ip_at, mac_at, short_at, short_bytes, mac_bytes}
use arpwith_mfc.Wire.Formats.{
  EthernetHeader, ArpHeader, encode_ethernet, encode_arp, decode_arp, decode_ip, decode_ethernet,
  ether_max_data_size, ip_max_data_size, ether_header_size, ip_header_size,
}
use arpwith_mfc.Typed.{IsIp, IsMac, ArpTyped, EthernetTyped, IpTyped}
use arpwith_mfc.Typed.Bytes.{Octets, All-append, All-take, All-drop, get_or-Octets}

short_at-fits : (b : List ℕ) (i : ℕ) → Octets b → short_at b i < 65536
short_at-fits b i h = omega (arith, get_or-Octets b i h, get_or-Octets b (i + 1) h)

pub ip_at-IsIp : (b : List ℕ) (i : ℕ) → Octets b → IsIp (ip_at b i)
ip_at-IsIp b i h = (
  get_or-Octets b i h,
  (get_or-Octets b (i + 1) h, (get_or-Octets b (i + 2) h, (get_or-Octets b (i + 3) h, tt))),
)

pub mac_at-IsMac : (b : List ℕ) (i : ℕ) → Octets b → IsMac (mac_at b i)
mac_at-IsMac b i h = (
  get_or-Octets b i h,
  (
    get_or-Octets b (i + 1) h,
    (
      get_or-Octets b (i + 2) h,
      (get_or-Octets b (i + 3) h, (get_or-Octets b (i + 4) h, (get_or-Octets b (i + 5) h, tt))),
    ),
  ),
)

pub decode_arp-ArpTyped : (b : List ℕ) → Octets b → ArpTyped (decode_arp b)
unfolding decode_arp
decode_arp-ArpTyped b h = record {
  fits = record {
    hardware_fits = short_at-fits b 0 h;
    protocol_fits = short_at-fits b 2 h;
    opercode_fits = short_at-fits b 6 h;
  };
  hardware_length_fits = get_or-Octets b 4 h;
  protocol_length_fits = get_or-Octets b 5 h;
  hardware_src_typed = mac_at-IsMac b 8 h;
  protocol_src_typed = ip_at-IsIp b 14 h;
  hardware_dst_typed = mac_at-IsMac b 18 h;
  protocol_dst_typed = ip_at-IsIp b 24 h;
}

pub decode_ip-IpTyped : (b : List ℕ) → Octets b → IpTyped (decode_ip b)
unfolding decode_ip
decode_ip-IpTyped b h = record {
  numbers_fit = (
    get_or-Octets b 0 h,
    get_or-Octets b 1 h,
    short_at-fits b 2 h,
    short_at-fits b 4 h,
    short_at-fits b 6 h,
    get_or-Octets b 8 h,
    get_or-Octets b 9 h,
    short_at-fits b 10 h,
  );
  ip_src_typed = ip_at-IsIp b 12 h;
  ip_dst_typed = ip_at-IsIp b 16 h;
  ip_data_typed =
      All-take _ ip_max_data_size (drop ip_header_size b) (All-drop _ ip_header_size b h);
}

pub decode_ethernet-EthernetTyped : (b : List ℕ) → Octets b → EthernetTyped (decode_ethernet b)
unfolding decode_ethernet
decode_ethernet-EthernetTyped b h = record {
  dst_typed = mac_at-IsMac b 0 h;
  src_typed = mac_at-IsMac b 6 h;
  type_fits = short_at-fits b 12 h;
  data_typed =
      All-take _ ether_max_data_size (drop ether_header_size b) (All-drop _ ether_header_size b h);
}

short_bytes-Octets : (n : ℕ) → Octets (short_bytes n)
short_bytes-Octets n = (omega arith, (omega arith, tt))

pub encode_ethernet-Octets : (h : EthernetHeader) → EthernetTyped h → Octets (encode_ethernet h)
unfolding encode_ethernet
encode_ethernet-Octets h t =
    let octet = λ (x : ℕ). x < 256 in
    let rest = short_bytes h.enet_type ++ h.enet_data in
    All-append octet (mac_bytes h.enet_dstaddr) (mac_bytes h.enet_srcaddr ++ rest) t.dst_typed (
      All-append octet (mac_bytes h.enet_srcaddr) rest t.src_typed (
        All-append octet (short_bytes h.enet_type) h.enet_data (short_bytes-Octets h.enet_type)
          t.data_typed))

pub encode_arp-Octets : (h : ArpHeader) → ArpTyped h → Octets (encode_arp h)
unfolding encode_arp
encode_arp-Octets h t = omega (
  arith, t.hardware_length_fits, t.protocol_length_fits, t.hardware_src_typed, t.protocol_src_typed,
  t.hardware_dst_typed, t.protocol_dst_typed,
)
