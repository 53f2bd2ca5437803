-- ===== src/Sound/Frames.antt =====
-- A frame from the wire, up to both layers, and the loop of a receiving thread.
use arpwith_mfc.Base.{
  ℕ, ◌≤◌, ◌<◌, ◌≡◌, ◌∙◌, ◌++◌, sym, inl, inr, true, false, Bool, List, [], ◌∷◌, Option, none, some,
  ok, arith, All, length, Safe, Safe-bind, Bool-cases, Option-cases, refl, if◌then◌else◌, ◌==◌,
  length-take, length-drop, drop, take, ◌>>=◌, ==_iff, replicate, length-replicate, memcpy-ok,
  length-copied, has_bytes-le,
}
use mathlib.Core.Path.{subst}
use arpwith_mfc.Wire.Address.{Ip, same_mac}
use arpwith_mfc.Wire.Formats.{
  decode_ip, decode_ethernet, ether_ip_type, ether_arp_type, ether_max_data_size, ether_header_size,
  ether_max_size,
}
use arpwith_mfc.State.{Port, inner, outer, Stack, Env, Route}
use arpwith_mfc.Arp
use arpwith_mfc.Arp.Forward.{clamp_le}
use arpwith_mfc.IpLayer
use arpwith_mfc.IpLayer.{port_of, take_route, send_via, routing}
use arpwith_mfc.IpLayer.Routes.{match_route, matches}
use arpwith_mfc.IpLayer.Forwarding.{
  next_hop, take_route-next_hop, receive-received, received, received-IsSized,
}
use arpwith_mfc.Ether.{get_source_address}
use arpwith_mfc.Ether.Receive.{receive, deliver, broad, ni_receive, receive_loop}
use arpwith_mfc.Sound.{IsSound, Named, Kept, Waits}
use arpwith_mfc.Sound.Layers.{arp_receive-Safe, rsend-Safe}

pub match_route-All :
    (P : Route → Type 0) (rs : List Route) (dest : Ip) (r : Route)
    → All P rs
    → match_route rs dest ≡ some r
    → P r
unfolding match_route
match_route-All P [] dest r h e = cc
match_route-All P (x ∷ rs) dest r (p, ps) e = elim (Bool-cases (matches x dest)) [
  | inl m ↦ let same : x ≡ r = ground (arith, m, e) in subst P same p
  | inr n ↦ match_route-All P rs dest r ps (rw n at e)
]

port_of-Named : (i : ℕ) → i < 2 → (p : Port) × (port_of i ≡ some p)
port_of-Named i h = elim (Bool-cases (i == 0)) [
  | inl e ↦ (inner, rw e refl)
  | inr e ↦ (outer, rw (e, (==_iff i 1).1 (ground arith)) refl)
]

send_via-Safe :
    (env : Env) (s : Stack) (payload : List ℕ) (n : ℕ) (r : Route) (ip : Ip)
    → IsSound s
    → Waits env
    → length payload ≡ 1500
    → Named r
    → Safe IsSound (send_via env s payload n r ip)
unfolding send_via
send_via-Safe env s payload n r ip v w l named =
    let (port, e) = port_of-Named r.interface named in
    rw e (
      Safe-bind Kept IsSound (Arp.rsend env s payload n ip port) _
        (rsend-Safe env s payload n ip port v w (omega (arith, clamp_le n))) (λ x u. u))

routing-Safe :
    (env : Env) (s : Stack) (payload : List ℕ) (dest : Ip)
    → IsSound s
    → Waits env
    → length payload ≡ 1500
    → Safe IsSound (routing env s dest payload)
unfolding routing
routing-Safe env s payload dest v w l = elim (Option-cases (match_route s.route_table dest)) [
  | inl e ↦ rw (routing, e) v
  | inr (r, e) ↦
      rw (routing, e, take_route-next_hop env s payload (decode_ip payload).tlength dest r)
        (elim (Option-cases (next_hop r dest)) [
          | inl gone ↦ rw gone v
          | inr (hop, h) ↦ rw h (
              send_via-Safe env s payload (decode_ip payload).tlength r hop v w l
                (match_route-All Named s.route_table dest r v.named e))
        ])
]

pub ip_receive-Safe :
    (env : Env) (s : Stack) (payload : List ℕ) (port : Port)
    → IsSound s
    → Waits env
    → length payload ≡ 1500
    → Safe Kept (IpLayer.receive env s payload port)
ip_receive-Safe env s payload port v w l = rw (receive-received env s payload port v.sized l) (
    Safe-bind IsSound Kept
      (routing env (received s payload port) (decode_ip payload).ip_dstaddr payload) _
      (routing-Safe env (received s payload port) payload (decode_ip payload).ip_dstaddr
        (record { sized = received-IsSized s payload port v.sized l; named = v.named }) w l)
      (λ t u. u))

deliver-Safe :
    (env : Env) (s : Stack) (type : ℕ) (payload : List ℕ) (port : Port)
    → IsSound s
    → Waits env
    → length payload ≡ 1500
    → Safe Kept (deliver env s type payload port)
unfolding deliver
deliver-Safe env s type payload port v w l = elim (Bool-cases (type == ether_ip_type)) [
  | inl i ↦ rw i (ip_receive-Safe env s payload port v w l)
  | inr o ↦ elim (Bool-cases (type == ether_arp_type)) [
    | inl a ↦ rw (o, a) (arp_receive-Safe env s payload port v (omega arith))
    | inr n ↦ rw (o, n) v
  ]
]

length-enet_data : (b : List ℕ) → length b ≡ 1514 → length (decode_ethernet b).enet_data ≡ 1500
unfolding decode_ethernet
length-enet_data b l =
    omega (arith, length-take ether_max_data_size (drop ether_header_size b), length-drop 14 b)

receive-Safe :
    (env : Env) (s : Stack) (b : List ℕ) (port : Port)
    → IsSound s
    → Waits env
    → length b ≡ 1514
    → Safe Kept (receive env s b port)
unfolding receive
receive-Safe env s b port v w l =
    let whole = has_bytes-le ether_header_size b (omega arith) in
    let up =
      deliver-Safe env s (decode_ethernet b).enet_type (decode_ethernet b).enet_data port v w
        (length-enet_data b l) in
    elim (Bool-cases (same_mac (decode_ethernet b).enet_srcaddr (get_source_address s port))) [
      | inl own ↦ rw (whole, own) v
      | inr other ↦
          elim (Bool-cases
            (same_mac (decode_ethernet b).enet_dstaddr (get_source_address s port))) [
              | inl me ↦ rw (whole, other, me) up
              | inr not_me ↦ elim (Bool-cases (same_mac (decode_ethernet b).enet_dstaddr broad)) [
                | inl all ↦ rw (whole, other, not_me, all) up
                | inr neither ↦ rw (whole, other, not_me, neither) v
              ]
            ]
    ]

passed_on :
    (x : Bool × Stack) → Kept x → Safe Kept (if x.0 then ok (true, x.1) else ok (false, x.1))
passed_on (true, t) u = u
passed_on (false, t) u = u

pub ni_receive-Safe :
    (env : Env) (s : Stack) (b : List ℕ) (port : Port)
    → IsSound s
    → Waits env
    → length b ≡ 1514
    → Safe Kept (ni_receive env s (some b) port)
unfolding ni_receive
ni_receive-Safe env s b port v w l =
    Safe-bind Kept Kept (receive env s b port) _ (receive-Safe env s b port v w l) passed_on

-- What pcap hands over in a round: nothing, or a packet with the memory behind it.
abbrev pub Given : Env × Option (List ℕ) → Type 0
Given (env, none) = Waits env
Given (env, some pkt_data) = Waits env × (ether_max_size ≤ length pkt_data)

-- The loop of a receive thread accesses no memory out of bounds, and keeps the invariant, whatever packets
-- come in, if each has at least 1514 bytes of memory and what goes on during a wait keeps the invariant.
pub receive_loop-Safe :
    (s : Stack) (rounds : List (Env × Option (List ℕ))) (port : Port)
    → IsSound s
    → All Given rounds
    → Safe IsSound (receive_loop s rounds port)
unfolding receive_loop
receive_loop-Safe s [] port v g = v
receive_loop-Safe s ((env, none) ∷ rounds) port v (w, gs) = receive_loop-Safe s rounds port v gs
receive_loop-Safe s ((env, some pkt) ∷ rounds) port v ((w, l), gs) =
    let blank = replicate {A = ℕ} ether_max_size 0 in
    let fits : ether_max_size ≤ length blank =
      omega (arith, length-replicate {A = ℕ} ether_max_size 0) in
    let copy = take ether_max_size pkt ++ drop ether_max_size blank in
    subst
      (λ m.
        Safe IsSound
          (m >>= λ b. ni_receive env s (some b) port >>= λ x. receive_loop x.1 rounds port))
      (sym (memcpy-ok blank pkt ether_max_size fits l))
      (Safe-bind Kept IsSound (ni_receive env s (some copy) port) _
        (ni_receive-Safe env s copy port v w (
          length-copied blank pkt ether_max_size fits l
          ∙ length-replicate {A = ℕ} ether_max_size 0))
        (λ x u. receive_loop-Safe x.1 rounds port u gs))
