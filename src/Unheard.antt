-- ===== src/Unheard.antt =====
-- Frames of CARPLayer that do not get where they are meant to, and a request that gets no answer.
use arpwith_mfc.Base.{
  ℕ, ◌≡◌, refl, sym, ap, ◌∙◌, ◌≢◌, inl, inr, Bool, true, false, none, List, [], ◌∷◌, ◌++◌, ok,
  arith, take,
}
use mathlib.Core.Path.{subst}
use arpwith_mfc.Wire.Address.{Mac, fill_mac, same_ip_ne}
use arpwith_mfc.Wire.Formats.{
  EthernetHeader, ArpHeader, IpHeader, encode_arp, decode_arp, ether_ip_type, ether_arp_type,
  ether_max_data_size,
}
use arpwith_mfc.State.{Port, outer, sel, Stack, Env, with_table}
use arpwith_mfc.Ether.Receive.{receive, deliver, broad}
use arpwith_mfc.Ether.Demux.{Accepts, receive-accepted, receive-refused}
use arpwith_mfc.Sized.{IsSized}
use arpwith_mfc.Ni
use arpwith_mfc.Arp
use arpwith_mfc.IpLayer
use arpwith_mfc.Arp.Request.{
  request_frame, request_of, request_to, request_frame-request_to, unknown_mac, send_lem,
}
use arpwith_mfc.Arp.Reply.{
  reply_frame, reply_of, answer-Delivers, answered, noted, Answers, receive-Answers,
}
use arpwith_mfc.Arp.Proxy.{find_proxy}
use arpwith_mfc.Wire.RoundTrip.{ArpFits}
use arpwith_mfc.Exchange.{
  decode_frame, frame_whole, own_mac, decode_padded, padded_whole, arp_frame_received,
}

zero-ne-broad : fill_mac 0 ≢ broad
zero-ne-broad e = absurd (ground arith)

-- In gratuitous mode, in a state whose buffers have the size of the structs, Send returns, and the one frame
-- that it hands to the adapter is for the Ethernet address 0, not for all: a host whose adapter has
-- another address than 0 does not take it in, whatever the request says.
pub gratuitous_unheard :
    (ea eb : Env) (a b : Stack) (h : IpHeader) (pa pb : Port) (rest : List ℕ)
    → IsSized a
    → a.arp.is_garp ≡ false
    → own_mac b pb ≢ fill_mac 0
    → (d : Bool) × (a' : Stack) × (f : List ℕ) × (Arp.send ea a h pa ≡ ok (d, a'))
      × (a'.sent ≡ a.sent ++ record { port = pa; bytes = f } ∷ [])
      × (receive eb b (f ++ rest) pb ≡ ok (false, b))
gratuitous_unheard ea eb a b h pa pb rest v garp other =
    let (a', (sends, queue, _, _, _, _, _)) = send_lem ea a h pa v in
    let f = request_to (unknown_mac a.arp.is_garp) a h pa in
    let g : EthernetHeader = record (sel a.ethernet pa) {
      enet_dstaddr = Arp.broadcast_addr a.arp;
      enet_type = ether_arp_type;
    } in
    let e = decode_frame g (encode_arp (request_of a h pa) ++ rest) (omega arith) in
    let zero_dst : Arp.broadcast_addr a.arp ≡ fill_mac 0 = rw garp in
    let refused =
      receive-refused eb b (request_frame a h pa ++ rest) pb
        (frame_whole g (encode_arp (request_of a h pa) ++ rest))
        λ acc. elim (subst (Accepts (own_mac b pb)) e acc).1 [
          | inl me ↦ other (sym me ∙ zero_dst)
          | inr all ↦ zero-ne-broad (sym zero_dst ∙ all)
        ] in
    (
      _,
      a',
      f,
      sends,
      queue,
      subst (λ t. receive eb b (t ++ rest) pb ≡ ok (false, b)) (request_frame-request_to a h pa)
          refused,
    )

-- A reply keeps the type that the Ethernet header of the port has from the frame before. Where an IP packet
-- was sent there last, the answer to a request, in a state whose buffers have the size of the structs, is
-- one frame of the type of IP. The asker, if its adapter has the asking Ethernet address and the
-- answering adapter another, hands the bytes of the reply to its IP layer.
pub reply_mistyped :
    (eb ea : Env) (b a : Stack) (q : ArpHeader) (mac : Mac) (port pa : Port) (rest : List ℕ)
    → IsSized b
    → (sel b.ethernet port).enet_type ≡ ether_ip_type
    → own_mac a pa ≡ q.hardware_srcaddr
    → own_mac b port ≢ q.hardware_srcaddr
    → (d : Bool) × (b' : Stack) × (f : List ℕ) × (Arp.answer eb b q mac port ≡ ok (d, b'))
      × (b'.sent ≡ b.sent ++ record { port = port; bytes = f } ∷ [])
      × (receive ea a (f ++ rest) pa
          ≡ IpLayer.receive ea a
              (take ether_max_data_size (encode_arp (reply_of q mac) ++ rest))
              pa)
unfolding deliver Ni.send
reply_mistyped eb ea b a q mac port pa rest v typed me other =
    let r = answer-Delivers eb b q mac port v in
    let g : EthernetHeader = record (sel b.ethernet port) { enet_dstaddr = q.hardware_srcaddr } in
    let bytes = encode_arp (reply_of q mac) ++ rest in
    let e = decode_frame g bytes (omega arith) in
    (
      _,
      (Ni.send eb (r.left) (reply_frame b q mac port) port).1,
      reply_frame b q mac port,
      r.returns,
      rw (r.sent_left) refl,
      receive-accepted ea a _ pa (frame_whole g bytes)
            (subst (Accepts (own_mac a pa)) (sym e) (λ x. other (x ∙ me), inl (sym me)))
          ∙ ap (λ (k : EthernetHeader). deliver ea a k.enet_type k.enet_data pa) e
          ∙ rw typed,
    )

-- A neighbour broadcasts a request for the outer adapter's own IP address, and gets no answer. The neighbour
-- is not in gratuitous mode, the adapters have different Ethernet addresses, and the header of the request
-- fits its fields; the asked address is neither proxied nor the inner one too, the asking address is not
-- the inner one, and the buffers have the size of the structs. Then Send of the neighbour hands one frame
-- to its adapter, and the outer adapter takes it in, with TRUE, and sends nothing; all that changes is the
-- ARP table.
pub outer_unanswered :
    (ea eb : Env) (a b : Stack) (h : IpHeader) (pa : Port) (rest : List ℕ)
    → IsSized a
    → IsSized b
    → a.arp.is_garp ≡ true
    → own_mac a pa ≢ own_mac b outer
    → ArpFits (request_of a h pa)
    → b.arp.myip.at_inner ≢ h.ip_srcaddr
    → h.ip_dstaddr ≡ b.arp.myip.at_outer
    → b.arp.myip.at_outer ≢ b.arp.myip.at_inner
    → find_proxy b.arp.proxy_table b.arp.myip.at_outer ≡ none
    → (d : Bool) × (a' b' : Stack) × (f : List ℕ) × (Arp.send ea a h pa ≡ ok (d, a'))
      × (a'.sent ≡ a.sent ++ record { port = pa; bytes = f } ∷ [])
      × (receive eb b (f ++ rest) outer ≡ ok (true, b'))
      × (b' ≡ with_table b b'.arp.arp_table)
unfolding answered
outer_unanswered ea eb a b h pa rest va vb asks differ fits own asked other unproxied =
    let (a', (sends, queue, _, _, _, _, _)) = send_lem ea a h pa va in
    let q = request_of a h pa in
    let bytes = take ether_max_data_size (encode_arp q ++ rest) in
    let e : decode_arp bytes ≡ q = decode_padded q rest fits in
    let unanswered : answered b.arp q.protocol_dstaddr ≡ none =
      rw (asked, same_ip_ne _ _ other) (rw unproxied) in
    let r =
      subst
        (λ (g : ArpHeader).
          Answers eb b g outer (answered b.arp g.protocol_dstaddr) (Arp.receive eb b bytes outer))
        e
        (receive-Answers eb b bytes outer vb (padded_whole q rest)
          (rw e (same_ip_ne b.arp.myip.at_inner h.ip_srcaddr own)) (rw e refl)) in
    let silent : Arp.receive eb b bytes outer ≡ ok (true, noted eb b q) = rw unanswered at r in
    let taken =
      arp_frame_received eb b
        (record (sel a.ethernet pa) {
          enet_dstaddr = Arp.broadcast_addr a.arp;
          enet_type = ether_arp_type;
        })
        q rest outer (differ, inr (rw asks)) refl in
    (
      _,
      a',
      noted eb b q,
      request_to (unknown_mac a.arp.is_garp) a h pa,
      sends,
      queue,
      subst (λ t. receive eb b (t ++ rest) outer ≡ ok (true, noted eb b q))
          (request_frame-request_to a h pa) (taken ∙ silent),
      refl,
    )
