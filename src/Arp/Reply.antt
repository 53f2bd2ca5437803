-- ===== src/Arp/Reply.antt =====
-- How CARPLayer::Receive answers requests.
use arpwith_mfc.Base.{
  ℕ, ◌≤◌, ◌≡◌, length, has_bytes-le, inl, inr, Bool, true, false, List, Option, none, some, Result,
  ok, arith, if◌then◌else◌, take_all, Bool-cases, Option-cases,
}
use arpwith_mfc.Wire.Address.{Ip, Mac, mac_prefix, same_ip}
use arpwith_mfc.Wire.Formats.{
  ArpHeader, encode_arp, decode_arp, arp_opcode_request, arp_opcode_reply, arp_header_size,
}
use arpwith_mfc.Wire.RoundTrip.{length-encode_arp}
use arpwith_mfc.State.{Port, sel, Stack, Env, ArpLayer, with_table}
use arpwith_mfc.Ether.Laws.{frame}
use arpwith_mfc.Sized.{IsSized, with_arp-IsSized}
use arpwith_mfc.Delivers.{Delivers, send_to-Delivers}
use arpwith_mfc.Arp.{reply_to, answer, receive_request, receive}
use arpwith_mfc.Arp.Table.{in_cache, note_sender}
use arpwith_mfc.Arp.Proxy.{find_proxy}

-- The Ethernet address that is given out for an IP address: the inner adapter's for its own, the one
-- of the first proxy entry for a proxied address, and none for another.
unfoldable pub answered : ArpLayer → Ip → Option Mac
answered a ip =
    if same_ip ip a.myip.at_inner
    then some a.mymac.at_inner
    else elim (find_proxy a.proxy_table ip) [ none ↦ none | some p ↦ some p.srchardware_addr ]

-- The reply to a request: the asker's addresses are the target, and the asked IP address with the
-- given Ethernet address is the sender.
abbrev pub reply_of : ArpHeader → Mac → ArpHeader
reply_of q mac = record {
  hardware_type = q.hardware_type;
  protocol_type = q.protocol_type;
  hardware_length = q.hardware_length;
  protocol_length = q.protocol_length;
  opercode = arp_opcode_reply;
  hardware_srcaddr = mac;
  protocol_srcaddr = q.protocol_dstaddr;
  hardware_dstaddr = q.hardware_srcaddr;
  protocol_dstaddr = q.protocol_srcaddr;
}

-- Its frame, to the asker, with the type that the header of the port has already.
abbrev pub reply_frame : Stack → ArpHeader → Mac → Port → List ℕ
reply_frame s q mac port =
    frame (record (sel s.ethernet port) { enet_dstaddr = q.hardware_srcaddr })
      (encode_arp (reply_of q mac))

pub answer-Delivers :
    (env : Env) (s : Stack) (q : ArpHeader) (mac : Mac) (port : Port)
    → IsSized s
    → Delivers env s s.arp (reply_frame s q mac port) port (answer env s q mac port)
unfolding answer reply_to
answer-Delivers env s q mac port v =
    rw
      (take_all arp_header_size (encode_arp (reply_of q mac))
        (omega (arith, length-encode_arp (reply_of q mac))))
      at
      (send_to-Delivers env s q.hardware_srcaddr (encode_arp (reply_of q mac)) arp_header_size port
        v (omega arith) (omega (arith, length-encode_arp (reply_of q mac))))

-- The table after the first lines of the request case.
abbrev pub noted : Env → Stack → ArpHeader → Stack
noted env s q = with_table s (
    note_sender s.arp.arp_table (in_cache s.arp.arp_table (mac_prefix q.hardware_srcaddr)) q
      env.now)

-- What becomes of a request: one reply goes out on the same port where there is an address to give,
-- and nothing is sent where there is none. In both cases the sender was noted in the table.
abbrev pub Answers : Env → Stack → ArpHeader → Port → Option Mac → Result (Bool × Stack) → Type 0
Answers env s q port none r = r ≡ ok (true, noted env s q)
Answers env s q port (some mac) r =
    Delivers env (noted env s q) (noted env s q).arp (reply_frame s q mac port) port r

receive_request-Answers :
    (env : Env) (s : Stack) (q : ArpHeader) (port : Port)
    → IsSized s
    → Answers env s q port
        (answered s.arp q.protocol_dstaddr)
        (receive_request env s q (in_cache s.arp.arp_table (mac_prefix q.hardware_srcaddr)) port)
unfolding receive_request answered
receive_request-Answers env s q port v =
    elim (Bool-cases (same_ip q.protocol_dstaddr s.arp.myip.at_inner)) [
      | inl mine ↦
          rw mine
            (answer-Delivers env (noted env s q) q s.arp.mymac.at_inner port (noted-IsSized v))
      | inr other ↦ elim (Option-cases (find_proxy s.arp.proxy_table q.protocol_dstaddr)) [
        | inl e ↦ rw (other, e)
        | inr (p, e) ↦
            rw (other, e)
              (answer-Delivers env (noted env s q) q p.srchardware_addr port (noted-IsSized v))
      ]
    ]
  where
    noted-IsSized : IsSized s → IsSized (noted env s q)
    noted-IsSized v = with_arp-IsSized s (noted env s q).arp v

pub receive-Answers :
    (env : Env) (s : Stack) (payload : List ℕ) (port : Port)
    → IsSized s
    → arp_header_size ≤ length payload
    → same_ip s.arp.myip.at_inner (decode_arp payload).protocol_srcaddr ≡ false
    → (decode_arp payload).opercode ≡ arp_opcode_request
    → Answers env s
        (decode_arp payload)
        port
        (answered s.arp (decode_arp payload).protocol_dstaddr)
        (receive env s payload port)
unfolding receive
receive-Answers env s payload port v whole own op =
    simp (has_bytes-le arp_header_size payload whole, own, op)
      (receive_request-Answers env s (decode_arp payload) port v)
