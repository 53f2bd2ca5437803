-- ===== src/IpLayer/Forwarding.antt =====
-- What CIPLayer::Receive does with a packet.
use arpwith_mfc.Base.{
  ℕ, ◌+◌, ◌%◌, ap, [], ◌∷◌, ◌++◌, ◌≤◌, ◌<◌, ◌≡◌, refl, ◌∙◌, inl, inr, Bool, false, ◌&&◌, List,
  Option, none, some, ok, ◌>>=◌, arith, if◌then◌else◌, length, drop, get_or, copied_all,
  length-take, length-drop, get_or-take, Option-cases, Bool-cases,
}
use arpwith_mfc.Wire.Address.{Ip, Mac}
use arpwith_mfc.Wire.Formats.{IpHeader, decode_ip, ip_max_data_size, ip_header_size}
use arpwith_mfc.State.{Port, inner, outer, Both, sel, sel-put_self, put-ind, Stack, Env, Route}
use arpwith_mfc.Ni
use arpwith_mfc.Sized.{IsSized, Whole}
use arpwith_mfc.Arp
use arpwith_mfc.Arp.Forward.{ip_frame, known_mac, rsend-known, clamp_le}
use arpwith_mfc.IpLayer.{
  set_header, set_header_fields, receive, routing, take_route, send_via, port_of, has_flag,
  ip_route_up, ip_route_host, ip_route_gateway, pred_ttl,
}
use arpwith_mfc.IpLayer.Routes.{match_route}

-- The address that a row sends a packet to: the destination itself for a host row, the gateway for
-- a gateway row, and none where the row is not up or is neither.
unfoldable pub next_hop : Route → Ip → Option Ip
next_hop r dest =
    if has_flag r ip_route_up && has_flag r ip_route_host
    then some dest
    else if has_flag r ip_route_up && has_flag r ip_route_gateway
    then some r.gateway
    else none

-- The header of the port after Receive copied the packet's fields: the time to live is one less,
-- the offset is what it was.
abbrev pub received_header : IpHeader → IpHeader → IpHeader
received_header h f = record h {
  ver_hlegnth = f.ver_hlegnth;
  tos = f.tos;
  tlength = f.tlength;
  id = f.id;
  ttl = pred_ttl f.ttl;
  ptype = f.ptype;
  checksum = f.checksum;
  ip_srcaddr = f.ip_srcaddr;
  ip_dstaddr = f.ip_dstaddr;
  ip_data = f.ip_data;
}

-- The state in which Routing is called.
abbrev pub received : Stack → List ℕ → Port → Stack
received s payload port = set_header s port (received_header (sel s.ip port) (decode_ip payload))

length-ip_data :
    (payload : List ℕ) → length payload ≡ 1500 → length (decode_ip payload).ip_data ≡ 1480
unfolding decode_ip
length-ip_data payload l =
    omega
      (arith, length-take ip_max_data_size (drop ip_header_size payload), length-drop 20 payload)

fields_received :
    (s : Stack) (f : IpHeader) (port : Port)
    → set_header_fields (set_header s port (record (sel s.ip port) { ip_data = f.ip_data })) f port
      ≡ set_header s port (received_header (sel s.ip port) f)
unfolding set_header_fields
fields_received s f inner = refl
fields_received s f outer = refl

pub receive-received :
    (env : Env) (s : Stack) (payload : List ℕ) (port : Port)
    → IsSized s
    → length payload ≡ 1500
    → receive env s payload port ≡ (
        routing env (received s payload port) (decode_ip payload).ip_dstaddr payload >>= λ t.
        ok (false, t))
unfolding receive
receive-received env s payload port v l =
    rw
      (copied_all (sel s.ip port).ip_data (decode_ip payload).ip_data ip_max_data_size
        (v.ip_whole port) (length-ip_data payload l))
      (rw (fields_received s (decode_ip payload) port))

pub received-IsSized :
    (s : Stack) (payload : List ℕ) (port : Port)
    → IsSized s
    → length payload ≡ 1500
    → IsSized (received s payload port)
received-IsSized s payload port v l = record {
  ethernet_full = v.ethernet_full;
  ip_whole = put-ind Whole s.ip port _ v.ip_whole (length-ip_data payload l);
}

pub take_route-next_hop :
    (env : Env) (s : Stack) (payload : List ℕ) (tlength : ℕ) (dest : Ip) (r : Route)
    → take_route env s payload tlength dest r
      ≡ elim (next_hop r dest) [ none ↦ ok s | some a ↦ send_via env s payload tlength r a ]
unfolding take_route next_hop
take_route-next_hop env s payload tlength dest r =
    elim (Bool-cases (has_flag r ip_route_up && has_flag r ip_route_host)) [
      | inl a ↦ rw a
      | inr a ↦ elim (Bool-cases (has_flag r ip_route_up && has_flag r ip_route_gateway)) [
        | inl b ↦ rw (a, b)
        | inr b ↦ rw (a, b)
      ]
    ]

-- A packet of 1500 bytes that no row fits, or whose first fitting row gives no next hop, is dropped, the
-- buffers having the size of the structs: Receive returns FALSE, and only the IP header of the port has
-- changed, to the one that came in but for the time to live, which is one less modulo 256, and the
-- offset, which is what it was. Later rows are not tried.
pub receive_drops :
    (env : Env) (s : Stack) (payload : List ℕ) (port : Port)
    → IsSized s
    → length payload ≡ 1500
    → ((r : Route)
        → match_route s.route_table (decode_ip payload).ip_dstaddr ≡ some r
        → next_hop r (decode_ip payload).ip_dstaddr ≡ none)
    → receive env s payload port ≡ ok (false, received s payload port)
unfolding routing
receive_drops env s payload port v l h =
    receive-received env s payload port v l
    ∙ elim (Option-cases (match_route s.route_table (decode_ip payload).ip_dstaddr)) [
      | inl e ↦ rw (e, routing)
      | inr (r, e) ↦
          rw (e, routing)
            (rw
              (take_route-next_hop env (received s payload port) payload (decode_ip payload).tlength
                (decode_ip payload).ip_dstaddr r)
              (rw (h r e)))
    ]

-- Routing by a row with a next hop is RSend to it.
pub receive-routed :
    (env : Env) (s left : Stack) (payload : List ℕ) (port out : Port) (r : Route) (hop : Ip)
    (d : Bool)
    → IsSized s
    → length payload ≡ 1500
    → match_route s.route_table (decode_ip payload).ip_dstaddr ≡ some r
    → next_hop r (decode_ip payload).ip_dstaddr ≡ some hop
    → port_of r.interface ≡ some out
    → Arp.rsend env (received s payload port) payload (decode_ip payload).tlength hop out
      ≡ ok (d, left)
    → receive env s payload port ≡ ok (false, left)
unfolding routing send_via
receive-routed env s left payload port out r hop d v l e n p k =
    receive-received env s payload port v l
    ∙ rw (e, routing)
        (rw
          (take_route-next_hop env (received s payload port) payload (decode_ip payload).tlength
            (decode_ip payload).ip_dstaddr r)
          (rw n (rw (p, send_via) (rw k))))

-- A packet of 1500 bytes whose first fitting row gives a next hop with a known Ethernet address, the
-- row's port being one of the two and the buffers having the size of the structs, goes out on the row's
-- port, to that Ethernet address, in one frame with the bytes that came in. The ARP layer, the routing
-- table and what was sent before are as they were, and Receive returns FALSE all the same.
pub receive_forwards :
    (env : Env) (s : Stack) (payload : List ℕ) (port out : Port) (r : Route) (hop : Ip) (mac : Mac)
    → IsSized s
    → length payload ≡ 1500
    → match_route s.route_table (decode_ip payload).ip_dstaddr ≡ some r
    → next_hop r (decode_ip payload).ip_dstaddr ≡ some hop
    → port_of r.interface ≡ some out
    → known_mac s.arp hop ≡ some mac
    → (left : Stack) × (receive env s payload port
        ≡ ok (
          false,
          (Ni.send env left (ip_frame s mac payload (decode_ip payload).tlength out) out).1,
        ))
      × (left.arp ≡ s.arp)
      × (left.route_table ≡ s.route_table)
      × (left.sent ≡ s.sent)
      × (left.ip ≡ (received s payload port).ip)
receive_forwards env s payload port out r hop mac v l e n p k =
    let t = received s payload port in
    let d =
      rsend-known env t payload (decode_ip payload).tlength hop out mac
        (received-IsSized s payload port v l) (fits payload (decode_ip payload).tlength l) k in
    (
      d.left,
      receive-routed env s _ payload port out r hop _ v l e n p (d.returns),
      d.arp_left,
      d.routes_left,
      d.sent_left,
      d.ip_left,
    )
  where
    fits : (payload : List ℕ) (n : ℕ) → length payload ≡ 1500 → Arp.clamp_length n ≤ length payload
    fits payload n l = omega (arith, clamp_le n)

forwarded_ttl :
    (s : Stack) (payload : List ℕ) (tlength : ℕ) (mac : Mac) (out : Port)
    → 8 < tlength
    → get_or (ip_frame s mac payload tlength out) 22 0 ≡ get_or payload 8 0
forwarded_ttl s payload tlength mac out h =
    get_or-take (Arp.clamp_length tlength) payload 8 0 (ground arith)

decoded_ttl : (payload : List ℕ) → (decode_ip payload).ttl ≡ get_or payload 8 0
unfolding decode_ip
decoded_ttl payload = refl

-- In a packet that is forwarded as in `receive_forwards` and of which more than 8 bytes are sent, the time to
-- live leaves as it came in: byte 8 of the packet is byte 22 of the frame that Receive hands to the
-- adapter, behind the 14 bytes of the Ethernet header. The time to live less one, modulo 256, is in the
-- IP header of the incoming port only. So a packet whose time to live is 0 is forwarded too.
pub receive_keeps_ttl :
    (env : Env) (s : Stack) (payload : List ℕ) (port out : Port) (r : Route) (hop : Ip) (mac : Mac)
    → IsSized s
    → length payload ≡ 1500
    → match_route s.route_table (decode_ip payload).ip_dstaddr ≡ some r
    → next_hop r (decode_ip payload).ip_dstaddr ≡ some hop
    → port_of r.interface ≡ some out
    → known_mac s.arp hop ≡ some mac
    → 8 < (decode_ip payload).tlength
    → (s' : Stack) × (f : List ℕ) × (receive env s payload port ≡ ok (false, s'))
      × (s'.sent ≡ s.sent ++ record { port = out; bytes = f } ∷ [])
      × (get_or f 22 0 ≡ get_or payload 8 0)
      × ((sel s'.ip port).ttl ≡ (get_or payload 8 0 + 255) % 256)
unfolding Ni.send
receive_keeps_ttl env s payload port out r hop mac v l e n p k h =
    let (left, returns, _, _, queue, header) =
      receive_forwards env s payload port out r hop mac v l e n p k in
    let tlength = (decode_ip payload).tlength in
    let f = ip_frame s mac payload tlength out in
    (
      (Ni.send env left f out).1,
      f,
      returns,
      rw queue refl,
      forwarded_ttl s payload tlength mac out h,
      ap (λ (h : Both IpHeader). (sel h port).ttl) header
          ∙ ap (λ (h : IpHeader). h.ttl) (sel-put_self s.ip port _)
          ∙ ap pred_ttl (decoded_ttl payload),
    )
