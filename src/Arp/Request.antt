-- ===== src/Arp/Request.antt =====
-- CARPLayer::Send: the request frame, and what it leaves in the table.
use arpwith_mfc.Base.{
  ℕ, ◌≡◌, ◌≢◌, ◌∙◌, ◌⊎◌, inl, inr, refl, subst, Bool, true, false, Bool-cases, List, [], ◌∷◌, ◌++◌,
  ok, arith, if◌then◌else◌, take_all,
}
use arpwith_mfc.Wire.Address.{Ip, Mac, same_ip, same_ip_iff, mac_bytes, ip_bytes, short_bytes}
use arpwith_mfc.Wire.Formats.{
  ArpHeader, IpHeader, encode_arp, arp_opcode_request, arp_header_size, ether_arp_type,
}
use arpwith_mfc.Wire.RoundTrip.{length-encode_arp}
use arpwith_mfc.State.{Port, inner, outer, sel, put, Stack, Env, ArpLayer, ArpNode, with_arp}
use arpwith_mfc.Ni
use arpwith_mfc.Ether
use arpwith_mfc.Ether.Laws.{frame}
use arpwith_mfc.Sized.{IsSized, with_arp-IsSized}
use arpwith_mfc.Delivers.{Delivers, send_header-Delivers, Delivers-from}
use arpwith_mfc.Arp.{send, broadcast_addr, set_opcode, set_src_addr, set_dst_addr}
use arpwith_mfc.Arp.Table.{arp_node, note_target, incomplete}
use arpwith_mfc.Arp.Refine.{Noted, note_target-Noted}

-- The header that Send fills in for the port.
abbrev pub request_of : Stack → IpHeader → Port → ArpHeader
request_of s h port = record (sel s.arp.headers port) {
  opercode = arp_opcode_request;
  hardware_srcaddr = Ether.get_source_address s port;
  protocol_srcaddr = h.ip_srcaddr;
  hardware_dstaddr = broadcast_addr s.arp;
  protocol_dstaddr = h.ip_dstaddr;
}

-- The table that Send leaves: with an incomplete node for the asked address, unless the host asks
-- for its own.
abbrev pub asked_table : Env → Stack → IpHeader → List ArpNode
asked_table env s h =
    if same_ip h.ip_srcaddr h.ip_dstaddr
    then s.arp.arp_table
    else note_target s.arp.arp_table
        (arp_node h.ip_dstaddr (broadcast_addr s.arp) incomplete env.now)

abbrev pub asked_arp : Env → Stack → IpHeader → Port → ArpLayer
asked_arp env s h port = record (s.arp) {
  headers = put s.arp.headers port (request_of s h port);
  arp_table = asked_table env s h;
}

abbrev pub request_frame : Stack → IpHeader → Port → List ℕ
request_frame s h port =
    frame
      (record (sel s.ethernet port) {
        enet_dstaddr = broadcast_addr s.arp;
        enet_type = ether_arp_type;
      })
      (encode_arp (request_of s h port))

sends :
    (env : Env) (s : Stack) (h : IpHeader) (port : Port)
    → IsSized s
    → Delivers env s (asked_arp env s h port) (request_frame s h port) port (
        Ether.send env
          (Ether.set_header
            (with_arp s (asked_arp env s h port))
            port
            (record (sel s.ethernet port) {
              enet_dstaddr = broadcast_addr s.arp;
              enet_type = ether_arp_type;
            }))
          (encode_arp (request_of s h port))
          arp_header_size
          port)
sends env s h port v =
    Delivers-from env s (asked_arp env s h port) (request_frame s h port) port _ (
      rw
        (take_all arp_header_size (encode_arp (request_of s h port))
          (omega (arith, length-encode_arp (request_of s h port))))
        at
        (send_header-Delivers env (with_arp s (asked_arp env s h port))
          (record (sel s.ethernet port) {
            enet_dstaddr = broadcast_addr s.arp;
            enet_type = ether_arp_type;
          })
          (encode_arp (request_of s h port)) arp_header_size port
          (with_arp-IsSized s (asked_arp env s h port) v) (v.ethernet_full port) refl (omega arith)
          (omega (arith, length-encode_arp (request_of s h port)))))

pub send-Delivers :
    (env : Env) (s : Stack) (h : IpHeader) (port : Port)
    → IsSized s
    → Delivers env s (asked_arp env s h port) (request_frame s h port) port (send env s h port)
unfolding send set_opcode set_src_addr set_dst_addr Ether.set_destin_address Ether.set_type
send-Delivers env s h inner v = sends env s h inner v
send-Delivers env s h outer v = sends env s h outer v

-- What stands for an Ethernet address that is not known: all ones in the normal mode, 0 in gratuitous mode.
abbrev pub unknown_mac : Bool → Mac
unknown_mac true = record { m0 = 255; m1 = 255; m2 = 255; m3 = 255; m4 = 255; m5 = 255 }
unknown_mac false = record { m0 = 0; m1 = 0; m2 = 0; m3 = 0; m4 = 0; m5 = 0 }

pub broadcast_addr_lem : (a : ArpLayer) → broadcast_addr a ≡ unknown_mac a.is_garp
broadcast_addr_lem a = elim (Bool-cases a.is_garp) [ inl e ↦ rw e refl | inr e ↦ rw e refl ]

-- The frame of a request to `target`: the type 0x0806, and the operation code 1, each with its high
-- byte first; the formats are those that the header of the port has.
abbrev pub request_to : Mac → Stack → IpHeader → Port → List ℕ
request_to target s h port =
    let g = sel s.arp.headers port in
    let own = (sel s.ethernet port).enet_srcaddr in
    (mac_bytes target ++ (mac_bytes own ++ 8 ∷ 6 ∷ []))
    ++ (short_bytes g.hardware_type
        ++ (short_bytes g.protocol_type
            ++ (g.hardware_length ∷ g.protocol_length ∷ 0 ∷ 1 ∷ [])
            ++ (mac_bytes own
                ++ (ip_bytes h.ip_srcaddr ++ (mac_bytes target ++ ip_bytes h.ip_dstaddr)))))

pub request_frame-request_to :
    (s : Stack) (h : IpHeader) (port : Port)
    → request_frame s h port ≡ request_to (unknown_mac s.arp.is_garp) s h port
unfolding encode_arp
request_frame-request_to s h port = elim (Bool-cases s.arp.is_garp) [
  | inl e ↦ rw e refl
  | inr e ↦ rw e refl
]

-- the node that a request for the address leaves
abbrev pub asked_node : Env → Stack → Ip → ArpNode
asked_node env s ip = record {
  protocol_addr = ip;
  hardware_addr = unknown_mac s.arp.is_garp;
  status = incomplete;
  span_time = env.now;
}

-- In a state whose buffers have the size of the structs, Send hands the adapter of the port one ARP request
-- for the IP header's destination, from the adapter's Ethernet address and the IP header's source, and
-- returns what pcap_sendpacket says of it. It is addressed to ff:ff:ff:ff:ff:ff in the normal mode and to
-- 00:00:00:00:00:00 in gratuitous mode, and has the same as its target. Where the two IP addresses agree
-- the table stays; else an incomplete node takes the place of the asked address's first node, or is
-- pushed back where there is none, and all other nodes stay.
pub send_lem :
    (env : Env) (s : Stack) (h : IpHeader) (port : Port)
    → IsSized s
    → (s' : Stack) × (let f = request_to (unknown_mac s.arp.is_garp) s h port in
        (send env s h port ≡ ok (env.transmit (record { port = port; bytes = f }), s'))
        × (s'.sent ≡ s.sent ++ record { port = port; bytes = f } ∷ [])
        × (((h.ip_srcaddr ≡ h.ip_dstaddr) × (s'.arp.arp_table ≡ s.arp.arp_table))
            ⊎ ((h.ip_srcaddr ≢ h.ip_dstaddr)
                × Noted s.arp.arp_table (asked_node env s h.ip_dstaddr) s'.arp.arp_table))
        × (s'.arp.proxy_table ≡ s.arp.proxy_table)
        × (s'.route_table ≡ s.route_table)
        × (s'.ip ≡ s.ip)
        × ((p : Port) → Ether.get_source_address s' p ≡ Ether.get_source_address s p))
unfolding Ni.send arp_node
send_lem env s h port v =
    let d = send-Delivers env s h port v in
    let e = request_frame-request_to s h port in
    let u = (Ni.send env (d.left) (request_frame s h port) port).1 in
    (
      u,
      (
        d.returns ∙ rw e refl,
        rw (d.sent_left, e) refl,
        elim (Bool-cases (same_ip h.ip_srcaddr h.ip_dstaddr)) [
          | inl own ↦ inl ((same_ip_iff h.ip_srcaddr h.ip_dstaddr).0 own, rw (d.arp_left, own) refl)
          | inr other ↦ inr (
            λ x. absurd (cc ((same_ip_iff h.ip_srcaddr h.ip_dstaddr).1 x, other)),
            subst
                (λ (m : Mac).
                  Noted s.arp.arp_table (arp_node h.ip_dstaddr m incomplete env.now)
                    u.arp.arp_table)
                (broadcast_addr_lem s.arp)
                (rw (d.arp_left, other)
                  (note_target-Noted s.arp.arp_table
                    (arp_node h.ip_dstaddr (broadcast_addr s.arp) incomplete env.now))),
          )
        ],
        rw (d.arp_left) refl,
        d.routes_left,
        d.ip_left,
        d.own_left,
      ),
    )
