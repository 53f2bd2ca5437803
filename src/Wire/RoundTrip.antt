-- ===== src/Wire/RoundTrip.antt =====
-- A struct read back from the bytes that it was written to.
use arpwith_mfc.Base.{ℕ, ◌<◌, ◌≡◌, refl, List, ◌++◌, arith, length, take_all}
use arpwith_mfc.Wire.Formats.{
  EthernetHeader, ArpHeader, IpHeader, encode_ethernet, encode_arp, encode_ip, decode_ethernet,
  decode_arp, decode_ip, ether_max_data_size, ip_max_data_size, ip_max_size, arp_header_size,
}

-- The numbers of an ARP header fit their `unsigned short`s.
pub record ArpFits (h : ArpHeader) : Type 0 where
  pub hardware_fits : h.hardware_type < 65536
  pub protocol_fits : h.protocol_type < 65536
  pub opercode_fits : h.opercode < 65536

pub record IpFits (h : IpHeader) : Type 0 where
  pub tlength_fits : h.tlength < 65536
  pub id_fits : h.id < 65536
  pub offset_fits : h.offset < 65536
  pub checksum_fits : h.checksum < 65536
  pub data_size : length h.ip_data ≡ ip_max_data_size

-- An ARP header whose numbers fit their fields is read back from its 28 bytes, whatever bytes follow
-- them in the buffer.
pub decode_arp-encode_arp :
    (h : ArpHeader) (rest : List ℕ) → ArpFits h → decode_arp (encode_arp h ++ rest) ≡ h
unfolding decode_arp encode_arp
decode_arp-encode_arp h rest v = ground arith

pub length-encode_arp : (h : ArpHeader) → length (encode_arp h) ≡ arp_header_size
unfolding encode_arp
length-encode_arp h = refl

-- An IP header whose numbers fit their fields and whose data has 1480 bytes is read back from its
-- bytes.
pub decode_ip-encode_ip : (h : IpHeader) → IpFits h → decode_ip (encode_ip h) ≡ h
unfolding decode_ip encode_ip
decode_ip-encode_ip h v = ground (arith, take_all ip_max_data_size h.ip_data)

pub length-encode_ip : (h : IpHeader) → IpFits h → length (encode_ip h) ≡ ip_max_size
unfolding encode_ip
length-encode_ip h v = omega arith

-- An Ethernet header whose type is a short and whose data has 1500 bytes is read back from its bytes.
pub decode_ethernet-encode_ethernet :
    (h : EthernetHeader)
    → h.enet_type < 65536
    → length h.enet_data ≡ ether_max_data_size
    → decode_ethernet (encode_ethernet h) ≡ h
unfolding decode_ethernet encode_ethernet
decode_ethernet-encode_ethernet h t d = ground (arith, take_all ether_max_data_size h.enet_data)
