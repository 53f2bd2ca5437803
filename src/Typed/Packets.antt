-- ===== src/Typed/Packets.antt =====
-- CIPLayer::Receive keeps the types.
use arpwith_mfc.Base.{
  ℕ, ◌<◌, arith, ◌≡◌, inl, inr, List, none, some, Leaves, Leaves-bind, Bool-cases, Option-cases,
  ◌&&◌,
}
use mathlib.Core.Path.{subst}
use arpwith_mfc.Wire.Address.{Ip}
use arpwith_mfc.Wire.Formats.{IpHeader, decode_ip, ip_max_data_size}
use arpwith_mfc.State.{Port, sel, put-ind, Route, Stack, Env}
use arpwith_mfc.Arp
use arpwith_mfc.IpLayer
use arpwith_mfc.IpLayer.Routes.{match_route}
use arpwith_mfc.IpLayer.Forwarding.{next_hop, take_route-next_hop}
use arpwith_mfc.Sound.Frames.{match_route-All}
use arpwith_mfc.Typed.{IsIp, IpTyped, RouteTyped, IsTyped, KeptTyped, WaitsTyped}
use arpwith_mfc.Typed.Bytes.{Octets, memcpy-Octets}
use arpwith_mfc.Typed.Formats.{decode_ip-IpTyped}
use arpwith_mfc.Typed.Forwards.{rsend-KeptTyped}

send_via-IsTyped :
    (env : Env) (s : Stack) (payload : List ℕ) (n : ℕ) (r : Route) (ip : Ip)
    → WaitsTyped env
    → Octets payload
    → IsIp ip
    → IsTyped s
    → Leaves IsTyped (IpLayer.send_via env s payload n r ip)
unfolding IpLayer.send_via
send_via-IsTyped env s payload n r ip w b i v = elim (Option-cases (IpLayer.port_of r.interface)) [
  | inl e ↦ rw e tt
  | inr (port, e) ↦ rw e (
      Leaves-bind KeptTyped IsTyped (Arp.rsend env s payload n ip port) _
        (rsend-KeptTyped env s payload n ip port w i b v) (λ x u. u))
]

next_hop-IsIp :
    (r : Route) (dest hop : Ip) → RouteTyped r → IsIp dest → next_hop r dest ≡ some hop → IsIp hop
unfolding next_hop
next_hop-IsIp r dest hop t i e =
    elim (Bool-cases
      (IpLayer.has_flag r IpLayer.ip_route_up && IpLayer.has_flag r IpLayer.ip_route_host)) [
        | inl h ↦
            let same : some dest ≡ some hop = rw h at e in
            let same_ip : dest ≡ hop = cc in subst IsIp same_ip i
        | inr h ↦
            elim (Bool-cases (
              IpLayer.has_flag r IpLayer.ip_route_up
              && IpLayer.has_flag r IpLayer.ip_route_gateway)) [
                | inl g ↦
                    let same : some r.gateway ≡ some hop = rw (h, g) at e in
                    let same_ip : r.gateway ≡ hop = cc in subst IsIp same_ip t.gateway_typed
                | inr g ↦ let none_some : none ≡ some hop = rw (h, g) at e in absurd (cc)
              ]
      ]

routing-IsTyped :
    (env : Env) (s : Stack) (payload : List ℕ) (dest : Ip)
    → WaitsTyped env
    → Octets payload
    → IsIp dest
    → IsTyped s
    → Leaves IsTyped (IpLayer.routing env s dest payload)
unfolding IpLayer.routing
routing-IsTyped env s payload dest w b i v = elim (Option-cases (match_route s.route_table dest)) [
  | inl e ↦ rw (IpLayer.routing, e) v
  | inr (r, e) ↦
      rw (IpLayer.routing, e, take_route-next_hop env s payload (decode_ip payload).tlength dest r)
        (elim (Option-cases (next_hop r dest)) [
          | inl gone ↦ rw gone v
          | inr (hop, h) ↦ rw h (
              send_via-IsTyped env s payload (decode_ip payload).tlength r hop w b
                (next_hop-IsIp r dest hop
                  (match_route-All RouteTyped s.route_table dest r v.routes_typed e) i h)
                v)
        ])
]

pub set_ip_header-IsTyped :
    (s : Stack) (port : Port) (h : IpHeader)
    → IpTyped h
    → IsTyped s
    → IsTyped (IpLayer.set_header s port h)
set_ip_header-IsTyped s port h t v = record {
  ethernet_typed = v.ethernet_typed;
  arp_typed = v.arp_typed;
  ip_typed = put-ind IpTyped s.ip port h v.ip_typed t;
  routes_typed = v.routes_typed;
  sent_typed = v.sent_typed;
}

pub set_source_address-IsTyped :
    (s : Stack) (a : Ip) (port : Port)
    → IsIp a
    → IsTyped s
    → IsTyped (IpLayer.set_source_address s a port)
unfolding IpLayer.set_source_address
set_source_address-IsTyped s a port i v =
    let t = v.ip_typed port in
    set_ip_header-IsTyped s port _
      (record {
        numbers_fit = t.numbers_fit;
        ip_src_typed = i;
        ip_dst_typed = t.ip_dst_typed;
        ip_data_typed = t.ip_data_typed;
      })
      v

pub set_destin_address-IsTyped :
    (s : Stack) (a : Ip) (port : Port)
    → IsIp a
    → IsTyped s
    → IsTyped (IpLayer.set_destin_address s a port)
unfolding IpLayer.set_destin_address
set_destin_address-IsTyped s a port i v =
    let t = v.ip_typed port in
    set_ip_header-IsTyped s port _
      (record {
        numbers_fit = t.numbers_fit;
        ip_src_typed = t.ip_src_typed;
        ip_dst_typed = i;
        ip_data_typed = t.ip_data_typed;
      })
      v

pred_ttl-fits : (t : ℕ) → IpLayer.pred_ttl t < 256
pred_ttl-fits t = omega arith

set_header_fields-IsTyped :
    (s : Stack) (f : IpHeader) (port : Port)
    → IpTyped f
    → IsTyped s
    → IsTyped (IpLayer.set_header_fields s f port)
unfolding IpLayer.set_header_fields
set_header_fields-IsTyped s f port t v =
    set_destin_address-IsTyped _ f.ip_dstaddr port t.ip_dst_typed (
      set_source_address-IsTyped _ f.ip_srcaddr port t.ip_src_typed (
        set_ip_header-IsTyped s port _
          (record {
            numbers_fit = (
              t.numbers_fit.0,
              t.numbers_fit.1,
              t.numbers_fit.2,
              t.numbers_fit.3,
              (v.ip_typed port).numbers_fit.4,
              pred_ttl-fits f.ttl,
              t.numbers_fit.6,
              t.numbers_fit.7,
            );
            ip_src_typed = (v.ip_typed port).ip_src_typed;
            ip_dst_typed = (v.ip_typed port).ip_dst_typed;
            ip_data_typed = (v.ip_typed port).ip_data_typed;
          })
          v))

pub ip_receive-KeptTyped :
    (env : Env) (s : Stack) (payload : List ℕ) (port : Port)
    → WaitsTyped env
    → Octets payload
    → IsTyped s
    → Leaves KeptTyped (IpLayer.receive env s payload port)
unfolding IpLayer.receive
ip_receive-KeptTyped env s payload port w b v =
    let f = decode_ip payload in
    let t = decode_ip-IpTyped payload b in
    let h = v.ip_typed port in
    Leaves-bind Octets KeptTyped _ _
      (memcpy-Octets (sel s.ip port).ip_data f.ip_data ip_max_data_size h.ip_data_typed
        t.ip_data_typed)
      (λ content c.
        let s1 = IpLayer.set_header s port (record (sel s.ip port) { ip_data = content }) in
        Leaves-bind IsTyped KeptTyped
          (IpLayer.routing env (IpLayer.set_header_fields s1 f port) f.ip_dstaddr payload) _
          (routing-IsTyped env (IpLayer.set_header_fields s1 f port) payload f.ip_dstaddr w b
            t.ip_dst_typed
            (set_header_fields-IsTyped s1 f port t (
              set_ip_header-IsTyped s port _
                (record {
                  numbers_fit = h.numbers_fit;
                  ip_src_typed = h.ip_src_typed;
                  ip_dst_typed = h.ip_dst_typed;
                  ip_data_typed = c;
                })
                v)))
          (λ x u. u))
