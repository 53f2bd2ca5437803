-- ===== src/Typed/Receives.antt =====
-- CEthernetLayer::Receive and CNILayer::Receive keep the types.
use arpwith_mfc.Base.{
  ℕ, inl, inr, true, false, Bool, List, some, ok, Leaves, Leaves-bind, Bool-cases, if◌then◌else◌,
  ◌==◌, has_bytes,
}
use arpwith_mfc.Wire.Address.{same_mac}
use arpwith_mfc.Wire.Formats.{decode_ethernet, ether_header_size, ether_ip_type, ether_arp_type}
use arpwith_mfc.State.{Port, Stack, Env}
use arpwith_mfc.Ether
use arpwith_mfc.Ether.Receive.{receive, deliver, broad, ni_receive}
use arpwith_mfc.Typed.{IsTyped, KeptTyped, WaitsTyped}
use arpwith_mfc.Typed.Bytes.{Octets}
use arpwith_mfc.Typed.Formats.{decode_ethernet-EthernetTyped}
use arpwith_mfc.Typed.Answers.{arp_receive-KeptTyped}
use arpwith_mfc.Typed.Packets.{ip_receive-KeptTyped}

deliver-KeptTyped :
    (env : Env) (s : Stack) (type : ℕ) (payload : List ℕ) (port : Port)
    → WaitsTyped env
    → Octets payload
    → IsTyped s
    → Leaves KeptTyped (deliver env s type payload port)
unfolding deliver
deliver-KeptTyped env s type payload port w b v = elim (Bool-cases (type == ether_ip_type)) [
  | inl i ↦ rw i (ip_receive-KeptTyped env s payload port w b v)
  | inr o ↦ elim (Bool-cases (type == ether_arp_type)) [
    | inl a ↦ rw (o, a) (arp_receive-KeptTyped env s payload port b v)
    | inr n ↦ rw (o, n) v
  ]
]

receive-KeptTyped :
    (env : Env) (s : Stack) (b : List ℕ) (port : Port)
    → WaitsTyped env
    → Octets b
    → IsTyped s
    → Leaves KeptTyped (receive env s b port)
unfolding receive
receive-KeptTyped env s b port w o v =
    let f = decode_ethernet b in
    let up =
      deliver-KeptTyped env s f.enet_type f.enet_data port w
        (decode_ethernet-EthernetTyped b o).data_typed v in
    elim (Bool-cases (has_bytes ether_header_size b)) [
      | inr short ↦ rw short tt
      | inl whole ↦ elim (Bool-cases (same_mac f.enet_srcaddr (Ether.get_source_address s port))) [
        | inl own ↦ rw (whole, own) v
        | inr other ↦
            elim (Bool-cases (same_mac f.enet_dstaddr (Ether.get_source_address s port))) [
              | inl me ↦ rw (whole, other, me) up
              | inr not_me ↦ elim (Bool-cases (same_mac f.enet_dstaddr broad)) [
                | inl all ↦ rw (whole, other, not_me, all) up
                | inr neither ↦ rw (whole, other, not_me, neither) v
              ]
            ]
      ]
    ]

passed_on :
    (x : Bool × Stack)
    → KeptTyped x
    → Leaves KeptTyped (if x.0 then ok (true, x.1) else ok (false, x.1))
passed_on (true, t) u = u
passed_on (false, t) u = u

-- A frame of octets that comes in leaves typed layers.
pub ni_receive-KeptTyped :
    (env : Env) (s : Stack) (b : List ℕ) (port : Port)
    → WaitsTyped env
    → Octets b
    → IsTyped s
    → Leaves KeptTyped (ni_receive env s (some b) port)
unfolding ni_receive
ni_receive-KeptTyped env s b port w o v =
    Leaves-bind KeptTyped KeptTyped (receive env s b port) _ (receive-KeptTyped env s b port w o v)
      passed_on
