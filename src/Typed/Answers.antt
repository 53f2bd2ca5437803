-- ===== src/Typed/Answers.antt =====
-- CARPLayer::Receive keeps the types.
use arpwith_mfc.Base.{
  ℕ, has_bytes, inl, inr, List, Option, arith, Leaves, Bool-cases, Option-cases, ◌==◌,
}
use arpwith_mfc.Wire.Address.{Mac, same_ip, mac_prefix}
use arpwith_mfc.Wire.Formats.{
  ArpHeader, encode_arp, decode_arp, arp_opcode_request, arp_opcode_reply, arp_opcode_rrequest,
  arp_opcode_rreply, arp_header_size,
}
use arpwith_mfc.State.{Port, inner, Stack, Env, with_table}
use arpwith_mfc.Arp
use arpwith_mfc.Arp.Table.{in_cache, note_sender, learn}
use arpwith_mfc.Arp.Proxy.{find_proxy}
use arpwith_mfc.Arp.Reply.{reply_of}
use arpwith_mfc.Typed.{IsMac, ArpTyped, IsTyped, KeptTyped, with_arp-IsTyped, nodes-LayerTyped}
use arpwith_mfc.Typed.Bytes.{Octets}
use arpwith_mfc.Typed.Formats.{decode_arp-ArpTyped, encode_arp-Octets}
use arpwith_mfc.Typed.Tables.{note_sender-NodeTyped, learn-NodeTyped, find_proxy-ProxyTyped}
use arpwith_mfc.Typed.Sends.{ether_send-KeptTyped, set_mac_address-IsTyped}

reply_of-ArpTyped : (q : ArpHeader) (mac : Mac) → IsMac mac → ArpTyped q → ArpTyped (reply_of q mac)
reply_of-ArpTyped q mac m t = record {
  fits = record {
    hardware_fits = t.fits.hardware_fits;
    protocol_fits = t.fits.protocol_fits;
    opercode_fits = omega arith;
  };
  hardware_length_fits = t.hardware_length_fits;
  protocol_length_fits = t.protocol_length_fits;
  hardware_src_typed = m;
  protocol_src_typed = t.protocol_dst_typed;
  hardware_dst_typed = t.hardware_src_typed;
  protocol_dst_typed = t.protocol_src_typed;
}

answer-KeptTyped :
    (env : Env) (s : Stack) (q : ArpHeader) (mac : Mac) (port : Port)
    → IsMac mac
    → ArpTyped q
    → IsTyped s
    → Leaves KeptTyped (Arp.answer env s q mac port)
unfolding Arp.answer Arp.reply_to
answer-KeptTyped env s q mac port m t v =
    ether_send-KeptTyped env _ (encode_arp (reply_of q mac)) arp_header_size port
      (encode_arp-Octets (reply_of q mac) (reply_of-ArpTyped q mac m t))
      (set_mac_address-IsTyped s q.hardware_srcaddr port t.hardware_src_typed v)

receive_request-KeptTyped :
    (env : Env) (s : Stack) (q : ArpHeader) (index : Option ℕ) (port : Port)
    → ArpTyped q
    → IsTyped s
    → Leaves KeptTyped (Arp.receive_request env s q index port)
unfolding Arp.receive_request
receive_request-KeptTyped env s q index port t v =
    let nodes = note_sender s.arp.arp_table index q env.now in
    let noted : IsTyped (with_table s nodes) =
      with_arp-IsTyped s _
        (nodes-LayerTyped s.arp nodes
          (note_sender-NodeTyped s.arp.arp_table index q env.now t v.arp_typed.nodes_typed)
          v.arp_typed)
        v in
    elim (Bool-cases (same_ip q.protocol_dstaddr s.arp.myip.at_inner)) [
      | inl mine ↦ rw mine (
          answer-KeptTyped env (with_table s nodes) q s.arp.mymac.at_inner port
            (v.arp_typed.mymac_typed inner) t noted)
      | inr other ↦ elim (Option-cases (find_proxy s.arp.proxy_table q.protocol_dstaddr)) [
        | inl e ↦ rw (other, e) noted
        | inr (p, e) ↦
            rw (other, e)
              (answer-KeptTyped env (with_table s nodes) q p.srchardware_addr port
                (find_proxy-ProxyTyped s.arp.proxy_table q.protocol_dstaddr p
                  v.arp_typed.proxies_typed e).given_typed
                t noted)
      ]
    ]

pub arp_receive-KeptTyped :
    (env : Env) (s : Stack) (payload : List ℕ) (port : Port)
    → Octets payload
    → IsTyped s
    → Leaves KeptTyped (Arp.receive env s payload port)
unfolding Arp.receive
arp_receive-KeptTyped env s payload port b v =
    let q = decode_arp payload in
    let t = decode_arp-ArpTyped payload b in
    elim (Bool-cases (has_bytes arp_header_size payload)) [
      | inr short ↦ rw short tt
      | inl whole ↦ elim (Bool-cases (same_ip s.arp.myip.at_inner q.protocol_srcaddr)) [
        | inl own ↦ rw (whole, own) v
        | inr own ↦ elim (Bool-cases (q.opercode == arp_opcode_request)) [
          | inl r ↦
              rw (whole, own, r)
                (receive_request-KeptTyped env s q
                  (in_cache s.arp.arp_table (mac_prefix q.hardware_srcaddr)) port t v)
          | inr r ↦ elim (Bool-cases (q.opercode == arp_opcode_reply)) [
            | inl a ↦
                rw (whole, own, r, a)
                  (with_arp-IsTyped s _
                    (nodes-LayerTyped s.arp (learn s.arp.arp_table q env.now)
                      (learn-NodeTyped s.arp.arp_table q env.now t v.arp_typed.nodes_typed)
                      v.arp_typed)
                    v)
            | inr a ↦ elim (Bool-cases (q.opercode == arp_opcode_rrequest)) [
              | inl c ↦ rw (whole, own, r, a, c) v
              | inr c ↦ elim (Bool-cases (q.opercode == arp_opcode_rreply)) [
                | inl d ↦ rw (whole, own, r, a, c, d) v
                | inr d ↦ rw (whole, own, r, a, c, d) tt
              ]
            ]
          ]
        ]
      ]
    ]
