-- ===== src/Typed/Sends.antt =====
-- CEthernetLayer::Send and CARPLayer::Send keep the types, and send octets.
use arpwith_mfc.Base.{ℕ, ◌<◌, inl, inr, List, arith, All, Leaves, Leaves-bind, Bool-cases}
use arpwith_mfc.Wire.Address.{Mac, same_ip}
use arpwith_mfc.Wire.Formats.{
  EthernetHeader, IpHeader, encode_ethernet, encode_arp, ether_arp_type, arp_header_size,
}
use arpwith_mfc.State.{Port, inner, outer, sel, put-ind, ArpLayer, Stack, Env, with_arp}
use arpwith_mfc.Ni
use arpwith_mfc.Ether
use arpwith_mfc.Arp
use arpwith_mfc.Arp.Table.{incomplete}
use arpwith_mfc.Arp.Request.{request_of, asked_table, asked_arp}
use arpwith_mfc.Typed.{
  IsIp, IsMac, EthernetTyped, ArpTyped, NodeTyped, IsTyped, KeptTyped, with_arp-IsTyped,
  header-LayerTyped, nodes-LayerTyped,
}
use arpwith_mfc.Typed.Bytes.{Octets, All-append, All-take, memcpy-Octets}
use arpwith_mfc.Typed.Formats.{encode_ethernet-Octets, encode_arp-Octets}
use arpwith_mfc.Typed.Tables.{note_target-NodeTyped, arp_node-NodeTyped}

pub set_header-IsTyped :
    (s : Stack) (port : Port) (h : EthernetHeader)
    → EthernetTyped h
    → IsTyped s
    → IsTyped (Ether.set_header s port h)
set_header-IsTyped s port h t v = record {
  ethernet_typed = put-ind EthernetTyped s.ethernet port h v.ethernet_typed t;
  arp_typed = v.arp_typed;
  ip_typed = v.ip_typed;
  routes_typed = v.routes_typed;
  sent_typed = v.sent_typed;
}

ni_send-KeptTyped :
    (env : Env) (s : Stack) (bytes : List ℕ) (port : Port)
    → Octets bytes
    → IsTyped s
    → KeptTyped (Ni.send env s bytes port)
unfolding Ni.send
ni_send-KeptTyped env s bytes port b v = record {
  ethernet_typed = v.ethernet_typed;
  arp_typed = v.arp_typed;
  ip_typed = v.ip_typed;
  routes_typed = v.routes_typed;
  sent_typed = All-append _ s.sent _ v.sent_typed (b, tt);
}

pub ether_send-KeptTyped :
    (env : Env) (s : Stack) (payload : List ℕ) (n : ℕ) (port : Port)
    → Octets payload
    → IsTyped s
    → Leaves KeptTyped (Ether.send env s payload n port)
unfolding Ether.send
ether_send-KeptTyped env s payload n port b v =
    let h = sel s.ethernet port in
    let t = v.ethernet_typed port in
    Leaves-bind Octets KeptTyped _ _ (memcpy-Octets h.enet_data payload n t.data_typed b)
      (λ content c.
        let g : EthernetHeader = record h { enet_data = content } in
        let typed : EthernetTyped g = record {
          dst_typed = t.dst_typed;
          src_typed = t.src_typed;
          type_fits = t.type_fits;
          data_typed = c;
        } in
        ni_send-KeptTyped env (Ether.set_header s port g) _ port
          (All-take _ (Ether.frame_length n) (encode_ethernet g) (encode_ethernet-Octets g typed))
          (set_header-IsTyped s port g typed v))

pub set_mac_address-IsTyped :
    (s : Stack) (mac : Mac) (port : Port)
    → IsMac mac
    → IsTyped s
    → IsTyped (Ether.set_destin_address s mac port)
unfolding Ether.set_destin_address
set_mac_address-IsTyped s mac port m v =
    let t = v.ethernet_typed port in
    set_header-IsTyped s port _
      (record {
        dst_typed = m;
        src_typed = t.src_typed;
        type_fits = t.type_fits;
        data_typed = t.data_typed;
      })
      v

pub set_type-IsTyped :
    (s : Stack) (type : ℕ) (port : Port)
    → type < 65536
    → IsTyped s
    → IsTyped (Ether.set_type s type port)
unfolding Ether.set_type
set_type-IsTyped s type port h v =
    let t = v.ethernet_typed port in
    set_header-IsTyped s port _
      (record {
        dst_typed = t.dst_typed;
        src_typed = t.src_typed;
        type_fits = h;
        data_typed = t.data_typed;
      })
      v

broadcast-IsMac : (a : ArpLayer) → IsMac (Arp.broadcast_addr a)
broadcast-IsMac a = elim (Bool-cases a.is_garp) [
  | inl e ↦ rw e omega arith
  | inr e ↦ rw e omega arith
]

asked_table-NodeTyped :
    (env : Env) (s : Stack) (h : IpHeader)
    → IsIp h.ip_dstaddr
    → IsTyped s
    → All NodeTyped (asked_table env s h)
asked_table-NodeTyped env s h i v = elim (Bool-cases (same_ip h.ip_srcaddr h.ip_dstaddr)) [
  | inl e ↦ rw e v.arp_typed.nodes_typed
  | inr e ↦ rw e (
      note_target-NodeTyped s.arp.arp_table _
        (arp_node-NodeTyped h.ip_dstaddr (Arp.broadcast_addr s.arp) incomplete env.now i
          (broadcast-IsMac s.arp) (omega arith))
        v.arp_typed.nodes_typed)
]

request_of-ArpTyped :
    (s : Stack) (h : IpHeader) (port : Port)
    → IsIp h.ip_srcaddr
    → IsIp h.ip_dstaddr
    → IsTyped s
    → ArpTyped (request_of s h port)
request_of-ArpTyped s h port i j v =
    let t = v.arp_typed.headers_typed port in
    record {
      fits = record {
        hardware_fits = t.fits.hardware_fits;
        protocol_fits = t.fits.protocol_fits;
        opercode_fits = omega arith;
      };
      hardware_length_fits = t.hardware_length_fits;
      protocol_length_fits = t.protocol_length_fits;
      hardware_src_typed = (v.ethernet_typed port).src_typed;
      protocol_src_typed = i;
      hardware_dst_typed = broadcast-IsMac s.arp;
      protocol_dst_typed = j;
    }

asking-KeptTyped :
    (env : Env) (s : Stack) (h : IpHeader) (port : Port)
    → IsIp h.ip_srcaddr
    → IsIp h.ip_dstaddr
    → IsTyped s
    → Leaves KeptTyped (
        Ether.send env
          (Ether.set_header
            (with_arp s (asked_arp env s h port))
            port
            (record (sel s.ethernet port) {
              enet_dstaddr = Arp.broadcast_addr s.arp;
              enet_type = ether_arp_type;
            }))
          (encode_arp (request_of s h port))
          arp_header_size
          port)
asking-KeptTyped env s h port i j v =
    let q = request_of-ArpTyped s h port i j v in
    let t = v.ethernet_typed port in
    ether_send-KeptTyped env _ (encode_arp (request_of s h port)) arp_header_size port
      (encode_arp-Octets (request_of s h port) q)
      (set_header-IsTyped (with_arp s (asked_arp env s h port)) port _
        (record {
          dst_typed = broadcast-IsMac s.arp;
          src_typed = t.src_typed;
          type_fits = omega arith;
          data_typed = t.data_typed;
        })
        (with_arp-IsTyped s (asked_arp env s h port)
          (header-LayerTyped (record (s.arp) { arp_table = asked_table env s h }) port
            (request_of s h port) q
            (nodes-LayerTyped s.arp (asked_table env s h) (asked_table-NodeTyped env s h j v)
              v.arp_typed))
          v))

pub arp_send-KeptTyped :
    (env : Env) (s : Stack) (h : IpHeader) (port : Port)
    → IsIp h.ip_srcaddr
    → IsIp h.ip_dstaddr
    → IsTyped s
    → Leaves KeptTyped (Arp.send env s h port)
unfolding Arp.send Arp.set_opcode Arp.set_src_addr Arp.set_dst_addr Ether.set_destin_address
    Ether.set_type
arp_send-KeptTyped env s h inner i j v = asking-KeptTyped env s h inner i j v
arp_send-KeptTyped env s h outer i j v = asking-KeptTyped env s h outer i j v
