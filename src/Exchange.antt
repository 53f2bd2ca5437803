-- ===== src/Exchange.antt =====
-- Two hosts: a request of CARPLayer::Send on one, the reply of CARPLayer::Receive on the other, and
-- what the first has learned when the reply comes back. The frames pass through
-- CEthernetLayer::Receive on both sides, and may be followed by any bytes in the receiver's buffer.
use arpwith_mfc.Base.{
  ℕ, ◌<◌, ◌≤◌, length, length-take, length-append, has_bytes, has_bytes-le, ◌≡◌, refl, sym, ap, ◌∙◌,
  ◌≢◌, inl, inr, Bool, true, List, [], ◌∷◌, ◌++◌, some, ok, arith, take,
}
use mathlib.Core.Path.{subst}
use arpwith_mfc.Wire.Address.{Mac, same_ip_ne, same_ip_refl}
use arpwith_mfc.Wire.Formats.{
  EthernetHeader, ArpHeader, IpHeader, decode_ethernet, encode_arp, decode_arp, ether_arp_type,
  ether_max_data_size, ether_header_size, arp_header_size, arp_opcode_request, arp_opcode_reply,
}
use arpwith_mfc.Wire.RoundTrip.{ArpFits, decode_arp-encode_arp, length-encode_arp}
use arpwith_mfc.State.{Port, sel, Stack, Env, ArpNode}
use arpwith_mfc.Ni
use arpwith_mfc.Ether
use arpwith_mfc.Ether.Laws.{frame}
use arpwith_mfc.Ether.Receive.{receive, deliver}
use arpwith_mfc.Ether.Demux.{Accepts, receive-accepted}
use arpwith_mfc.Sized.{IsSized}
use arpwith_mfc.Delivers.{Delivers}
use arpwith_mfc.Arp
use arpwith_mfc.Arp.Table.{arp_node, incomplete}
use arpwith_mfc.Arp.Cache.{lookup}
use arpwith_mfc.Arp.Refine.{lookup-note_target}
use arpwith_mfc.Arp.Request.{request_of, request_frame, asked_arp, send-Delivers}
use arpwith_mfc.Arp.Reply.{answered, reply_of, reply_frame, noted, receive-Answers, Answers}
use arpwith_mfc.Arp.Opcodes.{receive_reply_resolves}

pub decode_frame :
    (h : EthernetHeader) (payload : List ℕ)
    → h.enet_type < 65536
    → decode_ethernet (frame h payload) ≡ record h { enet_data = take ether_max_data_size payload }
unfolding decode_ethernet
decode_frame h payload t = ground arith

pub frame_whole :
    (h : EthernetHeader) (payload : List ℕ) → has_bytes ether_header_size (frame h payload) ≡ true
frame_whole h payload = has_bytes-le ether_header_size (frame h payload) (omega arith)

-- An ARP frame that is accepted reaches the ARP layer, which reads the header that was sent.
pub arp_frame_received :
    (env : Env) (s : Stack) (h : EthernetHeader) (q : ArpHeader) (rest : List ℕ) (port : Port)
    → Accepts (Ether.get_source_address s port) h
    → h.enet_type ≡ ether_arp_type
    → receive env s (frame h (encode_arp q) ++ rest) port
      ≡ Arp.receive env s (take ether_max_data_size (encode_arp q ++ rest)) port
unfolding deliver
arp_frame_received env s h q rest port a t =
    let e = decode_frame h (encode_arp q ++ rest) (omega arith) in
    receive-accepted env s _ port (frame_whole h (encode_arp q ++ rest))
      (subst (Accepts (Ether.get_source_address s port)) (sym e) a)
    ∙ ap (λ (g : EthernetHeader). deliver env s g.enet_type g.enet_data port) e
    ∙ rw t

pub decode_padded :
    (q : ArpHeader) (rest : List ℕ)
    → ArpFits q
    → decode_arp (take ether_max_data_size (encode_arp q ++ rest)) ≡ q
decode_padded q rest v = unfold encode_arp in decode_arp-encode_arp q (take 1472 rest) v

pub padded_whole :
    (q : ArpHeader) (rest : List ℕ)
    → arp_header_size ≤ length (take ether_max_data_size (encode_arp q ++ rest))
padded_whole q rest = omega (
  arith,
  length-take ether_max_data_size (encode_arp q ++ rest),
  length-append (encode_arp q) rest,
  length-encode_arp q,
)

abbrev pub own_mac : Stack → Port → Mac
own_mac = Ether.get_source_address

replied :
    (env : Env) (b : Stack) (bytes : List ℕ) (q : ArpHeader) (pb : Port) (mac : Mac)
    → decode_arp bytes ≡ q
    → arp_header_size ≤ length bytes
    → IsSized b
    → b.arp.myip.at_inner ≢ q.protocol_srcaddr
    → q.opercode ≡ arp_opcode_request
    → answered b.arp q.protocol_dstaddr ≡ some mac
    → Delivers env
        (noted env b q)
        (noted env b q).arp
        (reply_frame b q mac pb)
        pb
        (Arp.receive env b bytes pb)
replied env b bytes q pb mac e whole v own op found = rw found at (
    subst
      (λ (g : ArpHeader).
        Answers env b g pb (answered b.arp g.protocol_dstaddr) (Arp.receive env b bytes pb))
      e
      (receive-Answers env b bytes pb v whole
        (rw e (same_ip_ne b.arp.myip.at_inner q.protocol_srcaddr own)) (rw e op)))

-- The receiver turns the request into its reply.
pub request_answered :
    (env : Env) (a b : Stack) (h : IpHeader) (pa pb : Port) (mac : Mac) (rest : List ℕ)
    → IsSized b
    → a.arp.is_garp ≡ true
    → own_mac a pa ≢ own_mac b pb
    → ArpFits (request_of a h pa)
    → b.arp.myip.at_inner ≢ h.ip_srcaddr
    → answered b.arp h.ip_dstaddr ≡ some mac
    → Delivers env
        (noted env b (request_of a h pa))
        (noted env b (request_of a h pa)).arp
        (reply_frame b (request_of a h pa) mac pb)
        pb
        (receive env b (request_frame a h pa ++ rest) pb)
request_answered env a b h pa pb mac rest v garp other fits own found =
    let q = request_of a h pa in
    let bytes = take ether_max_data_size (encode_arp q ++ rest) in
    let e : decode_arp bytes ≡ q = decode_padded q rest fits in
    rw
      (arp_frame_received env b
        (record (sel a.ethernet pa) {
          enet_dstaddr = Arp.broadcast_addr a.arp;
          enet_type = ether_arp_type;
        })
        q rest pb (other, inr (rw garp)) refl)
      (replied env b bytes q pb mac e (padded_whole q rest) v own refl found)

-- The asker learns from the reply.
reply_learned :
    (env : Env) (a1 : Stack) (g : EthernetHeader) (q : ArpHeader) (n : ArpNode) (port : Port)
    (rest : List ℕ) (buffer : Mac)
    → Accepts (own_mac a1 port) g
    → g.enet_type ≡ ether_arp_type
    → ArpFits q
    → q.opercode ≡ arp_opcode_reply
    → a1.arp.myip.at_inner ≢ q.protocol_srcaddr
    → lookup a1.arp.arp_table q.protocol_srcaddr ≡ some n
    → (a2 : Stack) × (receive env a1 (frame g (encode_arp q) ++ rest) port ≡ ok (true, a2))
      × (a2.sent ≡ a1.sent)
      × (Arp.get_mac_in_arp a2.arp q.protocol_srcaddr buffer ≡ ok (true, q.hardware_srcaddr))
reply_learned env a1 g q n port rest buffer acc t fits op own found =
    let bytes = take ether_max_data_size (encode_arp q ++ rest) in
    let e : decode_arp bytes ≡ q = decode_padded q rest fits in
    let (a2, r, quiet, known) =
      receive_reply_resolves env a1 bytes port n buffer
        (has_bytes-le arp_header_size bytes (padded_whole q rest))
        (rw e (same_ip_ne a1.arp.myip.at_inner q.protocol_srcaddr own)) (rw e op) (rw e found) in
    (a2, arp_frame_received env a1 g q rest port acc t ∙ r, quiet, rw e at known)

-- What the asker's table has for the address meanwhile.
pub asked :
    (env : Env) (a a1 : Stack) (h : IpHeader) (port : Port)
    → a1.arp ≡ asked_arp env a h port
    → h.ip_srcaddr ≢ h.ip_dstaddr
    → lookup a1.arp.arp_table h.ip_dstaddr
      ≡ some (arp_node h.ip_dstaddr (Arp.broadcast_addr a.arp) incomplete env.now)
unfolding arp_node
asked env a a1 h port e ask =
    rw (e, same_ip_ne h.ip_srcaddr h.ip_dstaddr ask)
      (lookup-note_target a.arp.arp_table
          (arp_node h.ip_dstaddr (Arp.broadcast_addr a.arp) incomplete env.now) h.ip_dstaddr
        ∙ rw (same_ip_refl h.ip_dstaddr))

-- The first host sends its request, the second takes it in and sends one reply, and the first takes the
-- reply in; then getMACinARP has `mac` for the address that was asked.
abbrev pub Resolved :
    Env → Env → Stack → Stack → IpHeader → Port → Port → Mac → Mac → List ℕ → List ℕ → Type 0
Resolved ea eb a b h pa pb mac buffer ra rb =
    (sent_a sent_b : Bool) × (a1 a2 b1 : Stack) × (reply : List ℕ) × (Arp.send ea a h pa
      ≡ ok (sent_a, a1))
    × (a1.sent ≡ a.sent ++ record { port = pa; bytes = request_frame a h pa } ∷ [])
    × (receive eb b (request_frame a h pa ++ rb) pb ≡ ok (sent_b, b1))
    × (b1.sent ≡ b.sent ++ record { port = pb; bytes = reply } ∷ [])
    × (receive ea a1 (reply ++ ra) pa ≡ ok (true, a2))
    × (Arp.get_mac_in_arp a2.arp h.ip_dstaddr buffer ≡ ok (true, mac))

-- Address resolution works between two hosts on one wire. The first, not in gratuitous mode, sends a
-- request for an address that the second answers for with `mac`; the addresses and formats of the
-- request fit their fields, the buffers have the size of the structs, the adapters have different
-- Ethernet addresses, the first asks for another address than its own, neither's inner address is the
-- address of the other that the request names, and the second's Ethernet header has the type of ARP
-- already. Then the second sends one frame back, and once the first has received it, getMACinARP
-- gives `mac` for the address.
pub resolves :
    (ea eb : Env) (a b : Stack) (h : IpHeader) (pa pb : Port) (mac buffer : Mac) (ra rb : List ℕ)
    → IsSized a
    → IsSized b
    → a.arp.is_garp ≡ true
    → own_mac a pa ≢ own_mac b pb
    → ArpFits (request_of a h pa)
    → (sel b.ethernet pb).enet_type ≡ ether_arp_type
    → h.ip_srcaddr ≢ h.ip_dstaddr
    → b.arp.myip.at_inner ≢ h.ip_srcaddr
    → a.arp.myip.at_inner ≢ h.ip_dstaddr
    → answered b.arp h.ip_dstaddr ≡ some mac
    → Resolved ea eb a b h pa pb mac buffer ra rb
unfolding Ni.send
resolves ea eb a b h pa pb mac buffer ra rb va vb garp other fits typed ask ownb owna found =
    let q = request_of a h pa in
    let f1 = request_frame a h pa in
    let f2 = reply_frame b q mac pb in
    let d1 = send-Delivers ea a h pa va in
    let d2 = request_answered eb a b h pa pb mac rb vb garp other fits ownb found in
    let (s1, a1) = Ni.send ea (d1.left) f1 pa in
    let (s2, b1) = Ni.send eb (d2.left) f2 pb in
    let own : own_mac a1 pa ≡ own_mac a pa = d1.own_left pa in
    let (a2, r, _, known) =
      reply_learned ea a1 (record (sel b.ethernet pb) { enet_dstaddr = own_mac a pa })
        (reply_of q mac) (arp_node h.ip_dstaddr (Arp.broadcast_addr a.arp) incomplete ea.now) pa ra
        buffer (λ e. other (sym (e ∙ own)), inl (sym own)) typed
        (record {
          hardware_fits = fits.hardware_fits;
          protocol_fits = fits.protocol_fits;
          opercode_fits = omega arith;
        })
        refl (rw (d1.arp_left) owna) (asked ea a a1 h pa (d1.arp_left) ask) in
    (s1, s2, a1, a2, b1, f2, d1.returns, rw (d1.sent_left), d2.returns, rw (d2.sent_left), r, known)
