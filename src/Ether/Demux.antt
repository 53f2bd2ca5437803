-- ===== src/Ether/Demux.antt =====
-- Which frames CEthernetLayer::Receive passes up, and to whom.
use arpwith_mfc.Base.{
  ℕ, ◌≤◌, ◌<◌, length, fault, has_bytes, le-has_bytes, lt-has_bytes, ◌≡◌, ◌∙◌, ◌≢◌, ◌⊎◌, inl, inr,
  true, false, List, some, ok, arith, if◌then◌else◌, ◌==◌, Bool-cases, Result-cases,
}
use arpwith_mfc.Wire.Address.{Mac, same_mac, same_mac_iff, same_mac_ne}
use arpwith_mfc.Wire.Formats.{
  EthernetHeader, decode_ethernet, ether_header_size, ether_arp_type, ether_ip_type,
}
use arpwith_mfc.State.{Port, Stack, Env}
use arpwith_mfc.Arp
use arpwith_mfc.IpLayer
use arpwith_mfc.Ether.{get_source_address}
use arpwith_mfc.Ether.Receive.{receive, deliver, broad, ni_receive}

-- The frame was not sent by this adapter, and is for it or for all.
abbrev pub Accepts : Mac → EthernetHeader → Type 0
Accepts me f = (f.enet_srcaddr ≢ me) × ((f.enet_dstaddr ≡ me) ⊎ (f.enet_dstaddr ≡ broad))

pub receive-accepted :
    (env : Env) (s : Stack) (b : List ℕ) (port : Port)
    → has_bytes ether_header_size b ≡ true
    → Accepts (get_source_address s port) (decode_ethernet b)
    → receive env s b port
      ≡ deliver env s (decode_ethernet b).enet_type (decode_ethernet b).enet_data port
unfolding receive
receive-accepted env s b port whole (other, to) =
    rw (whole, same_mac_ne _ _ other)
      (elim (Bool-cases (same_mac (decode_ethernet b).enet_dstaddr (get_source_address s port))) [
        | inl me ↦ rw me
        | inr not_me ↦ elim to [
          | inl e ↦ absurd (cc ((same_mac_iff _ _).1 e, not_me))
          | inr e ↦ rw (not_me, (same_mac_iff (decode_ethernet b).enet_dstaddr broad).1 e)
        ]
      ])

pub receive-refused :
    (env : Env) (s : Stack) (b : List ℕ) (port : Port)
    → has_bytes ether_header_size b ≡ true
    → ¬ Accepts (get_source_address s port) (decode_ethernet b)
    → receive env s b port ≡ ok (false, s)
unfolding receive
receive-refused env s b port whole h = ground (
  arith,
  whole,
  same_mac_iff (decode_ethernet b).enet_srcaddr (get_source_address s port),
  same_mac_iff (decode_ethernet b).enet_dstaddr (get_source_address s port),
  same_mac_iff (decode_ethernet b).enet_dstaddr broad,
)

Accepts-dec : (me : Mac) (f : EthernetHeader) → Accepts me f ⊎ (¬ Accepts me f)
Accepts-dec me f = elim (Bool-cases (same_mac f.enet_srcaddr me)) [
  | inl own ↦ inr (λ a. a.0 ((same_mac_iff f.enet_srcaddr me).0 own))
  | inr other ↦ elim (Bool-cases (same_mac f.enet_dstaddr me)) [
    | inl e ↦ inl (differs other, inl ((same_mac_iff f.enet_dstaddr me).0 e))
    | inr not_me ↦ elim (Bool-cases (same_mac f.enet_dstaddr broad)) [
      | inl e ↦ inl (differs other, inr ((same_mac_iff f.enet_dstaddr broad).0 e))
      | inr not_broad ↦ inr λ a. elim a.1 [
        | inl e ↦ cc ((same_mac_iff f.enet_dstaddr me).1 e, not_me)
        | inr e ↦ cc ((same_mac_iff f.enet_dstaddr broad).1 e, not_broad)
      ]
    ]
  ]
]
  where
    differs : same_mac f.enet_srcaddr me ≡ false → f.enet_srcaddr ≢ me
    differs h e = cc ((same_mac_iff f.enet_srcaddr me).1 e, h)

-- CNILayer::Receive passes on what CEthernetLayer::Receive returns.
ni_receive_lem :
    (env : Env) (s : Stack) (b : List ℕ) (port : Port)
    → ni_receive env s (some b) port ≡ receive env s b port
unfolding ni_receive
ni_receive_lem env s b port = elim (Result-cases (receive env s b port)) [
  | inl ((true, t), e) ↦ rw e
  | inl ((false, t), e) ↦ rw e
  | inr (inl e) ↦ rw e
  | inr (inr e) ↦ rw e
]

receive_short :
    (env : Env) (s : Stack) (b : List ℕ) (port : Port)
    → has_bytes ether_header_size b ≡ false
    → receive env s b port ≡ fault
unfolding receive
receive_short env s b port short = simp short

-- A frame that comes in from an adapter is passed to the layer that its type names exactly when
-- another host sent it and it is for this adapter or for all. Any other frame changes nothing. Where the
-- memory has fewer bytes than the header, it is read out of bounds.
pub demultiplexed :
    (env : Env) (s : Stack) (b : List ℕ) (port : Port)
    → ((length b < ether_header_size) × (ni_receive env s (some b) port ≡ fault))
      ⊎ ((ether_header_size ≤ length b)
          × Accepts (get_source_address s port) (decode_ethernet b)
          × (ni_receive env s (some b) port ≡ (
              if (decode_ethernet b).enet_type == ether_ip_type
              then IpLayer.receive env s (decode_ethernet b).enet_data port
              else if (decode_ethernet b).enet_type == ether_arp_type
              then Arp.receive env s (decode_ethernet b).enet_data port
              else ok (false, s))))
      ⊎ ((ether_header_size ≤ length b)
          × (¬ Accepts (get_source_address s port) (decode_ethernet b))
          × (ni_receive env s (some b) port ≡ ok (false, s)))
unfolding deliver
demultiplexed env s b port = elim (Bool-cases (has_bytes ether_header_size b)) [
  | inr short ↦ inl (
    lt-has_bytes ether_header_size b short,
    ni_receive_lem env s b port ∙ receive_short env s b port short,
  )
  | inl whole ↦
      let l = le-has_bytes ether_header_size b whole in
      elim (Accepts-dec (get_source_address s port) (decode_ethernet b)) [
        | inl a ↦
            inr (inl (l, a, ni_receive_lem env s b port ∙ receive-accepted env s b port whole a))
        | inr a ↦
            inr (inr (l, a, ni_receive_lem env s b port ∙ receive-refused env s b port whole a))
      ]
]
