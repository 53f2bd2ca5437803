-- ===== src/Wire/Formats.antt =====
-- The packed structs that the layers cast buffers to: ETHERNET_HEADER, ARP_HEADER and IP_HEADER.
-- No padding stands between the fields of any of them.
use arpwith_mfc.Base.{ℕ, List, [], ◌∷◌, ◌++◌, take, drop, get_or}
use arpwith_mfc.Wire.Address.{Ip, Mac, ip_bytes, mac_bytes, ip_at, mac_at, short_bytes, short_at}

-- the sizes and numbers of ARP/stdafx.h
abbrev pub ether_max_size : ℕ
ether_max_size = 1514

abbrev pub ether_header_size : ℕ
ether_header_size = 14

abbrev pub ether_max_data_size : ℕ
ether_max_data_size = 1500

abbrev pub ip_max_size : ℕ
ip_max_size = 1500

abbrev pub ip_header_size : ℕ
ip_header_size = 20

abbrev pub ip_max_data_size : ℕ
ip_max_data_size = 1480

abbrev pub arp_header_size : ℕ
arp_header_size = 28

abbrev pub arp_ip_type : ℕ
arp_ip_type = 0x0008

abbrev pub arp_enet_type : ℕ
arp_enet_type = 0x0100

abbrev pub ether_arp_type : ℕ
ether_arp_type = 0x0608

abbrev pub ether_ip_type : ℕ
ether_ip_type = 0x0008

abbrev pub arp_opcode_request : ℕ
arp_opcode_request = 0x0100

abbrev pub arp_opcode_reply : ℕ
arp_opcode_reply = 0x0200

abbrev pub arp_opcode_rrequest : ℕ
arp_opcode_rrequest = 0x0300

abbrev pub arp_opcode_rreply : ℕ
arp_opcode_rreply = 0x0400

pub record EthernetHeader : Type 0 where
  pub enet_dstaddr : Mac
  pub enet_srcaddr : Mac
  pub enet_type : ℕ
  pub enet_data : List ℕ

pub record ArpHeader : Type 0 where
  pub hardware_type : ℕ
  pub protocol_type : ℕ
  pub hardware_length : ℕ
  pub protocol_length : ℕ
  pub opercode : ℕ
  pub hardware_srcaddr : Mac
  pub protocol_srcaddr : Ip
  pub hardware_dstaddr : Mac
  pub protocol_dstaddr : Ip

pub record IpHeader : Type 0 where
  pub ver_hlegnth : ℕ
  pub tos : ℕ
  pub tlength : ℕ
  pub id : ℕ
  pub offset : ℕ
  pub ttl : ℕ
  pub ptype : ℕ
  pub checksum : ℕ
  pub ip_srcaddr : Ip
  pub ip_dstaddr : Ip
  pub ip_data : List ℕ

-- What stands in memory where such a struct does.
unfoldable pub encode_ethernet : EthernetHeader → List ℕ
encode_ethernet h =
    mac_bytes h.enet_dstaddr
    ++ (mac_bytes h.enet_srcaddr ++ (short_bytes h.enet_type ++ h.enet_data))

unfoldable pub encode_arp : ArpHeader → List ℕ
encode_arp h =
    short_bytes h.hardware_type
    ++ (short_bytes h.protocol_type
        ++ (h.hardware_length ∷ h.protocol_length ∷ [])
        ++ (short_bytes h.opercode
            ++ (mac_bytes h.hardware_srcaddr
                ++ (ip_bytes h.protocol_srcaddr
                    ++ (mac_bytes h.hardware_dstaddr ++ ip_bytes h.protocol_dstaddr)))))

unfoldable pub encode_ip : IpHeader → List ℕ
encode_ip h =
    (h.ver_hlegnth ∷ h.tos ∷ [])
    ++ (short_bytes h.tlength
        ++ (short_bytes h.id
            ++ (short_bytes h.offset
                ++ ((h.ttl ∷ h.ptype ∷ [])
                    ++ (short_bytes h.checksum
                        ++ (ip_bytes h.ip_srcaddr ++ (ip_bytes h.ip_dstaddr ++ h.ip_data)))))))

-- `(PETHERNET_HEADER)ppayload`, `(PARP_HEADER)ppayload` and `(PIP_HEADER)ppayload`
unfoldable pub decode_ethernet : List ℕ → EthernetHeader
decode_ethernet b = record {
  enet_dstaddr = mac_at b 0;
  enet_srcaddr = mac_at b 6;
  enet_type = short_at b 12;
  enet_data = take ether_max_data_size (drop ether_header_size b);
}

unfoldable pub decode_arp : List ℕ → ArpHeader
decode_arp b = record {
  hardware_type = short_at b 0;
  protocol_type = short_at b 2;
  hardware_length = get_or b 4 0;
  protocol_length = get_or b 5 0;
  opercode = short_at b 6;
  hardware_srcaddr = mac_at b 8;
  protocol_srcaddr = ip_at b 14;
  hardware_dstaddr = mac_at b 18;
  protocol_dstaddr = ip_at b 24;
}

unfoldable pub decode_ip : List ℕ → IpHeader
decode_ip b = record {
  ver_hlegnth = get_or b 0 0;
  tos = get_or b 1 0;
  tlength = short_at b 2;
  id = short_at b 4;
  offset = short_at b 6;
  ttl = get_or b 8 0;
  ptype = get_or b 9 0;
  checksum = short_at b 10;
  ip_srcaddr = ip_at b 12;
  ip_dstaddr = ip_at b 16;
  ip_data = take ip_max_data_size (drop ip_header_size b);
}
