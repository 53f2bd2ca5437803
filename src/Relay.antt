-- ===== src/Relay.antt =====
-- A packet on its way through two hosts: CIPLayer::Receive on a router, whose CARPLayer::RSend asks for
-- the next hop, the reply that CARPLayer::Receive of the next hop gives, and the packet's arrival in
-- its CIPLayer::Receive. What the router's other thread does while CARPLayer::Wait runs is to take in
-- that reply.
pub mod Neighbour
use arpwith_mfc.Base.{
  ℕ, ◌≤◌, ◌≡◌, refl, sym, ap, ◌∙◌, ◌≢◌, inl, inr, Bool, true, false, List, [], ◌∷◌, ◌++◌, some,
  none, Result, ok, arith, take, length,
}
use mathlib.Core.Path.{subst}
use mathlib.Core.List.{append_assoc}
use arpwith_mfc.Wire.Address.{Ip, Mac, same_ip_ne, same_ip_refl}
use arpwith_mfc.Wire.Formats.{
  EthernetHeader, ArpHeader, IpHeader, encode_arp, decode_arp, decode_ip, ether_arp_type,
  ether_ip_type, ether_max_data_size, arp_opcode_reply,
}
use arpwith_mfc.Wire.RoundTrip.{ArpFits}
use arpwith_mfc.State.{Port, sel, Stack, Env, ArpNode, Route, with_table}
use arpwith_mfc.Ni
use arpwith_mfc.Ether.Laws.{frame}
use arpwith_mfc.Ether.Receive.{receive, deliver}
use arpwith_mfc.Ether.Demux.{Accepts, receive-accepted}
use arpwith_mfc.Sized.{IsSized, with_arp-IsSized}
use arpwith_mfc.Delivers.{Delivers}
use arpwith_mfc.Arp
use arpwith_mfc.IpLayer
use arpwith_mfc.Arp.Table.{arp_node, learn, refresh, incomplete}
use arpwith_mfc.Arp.Cache.{lookup}
use arpwith_mfc.Arp.Refine.{lookup-learn}
use arpwith_mfc.Arp.Request.{request_of, request_frame, asked_arp, send-Delivers}
use arpwith_mfc.Arp.Reply.{answered, reply_of, reply_frame, noted}
use arpwith_mfc.Arp.Forward.{ip_frame, known_mac, clamp_le}
use arpwith_mfc.Arp.Unknown.{asking, rsend-asked, after_found}
use arpwith_mfc.IpLayer.Routes.{match_route}
use arpwith_mfc.IpLayer.Forwarding.{next_hop, received, receive-routed, received-IsSized}
use arpwith_mfc.Exchange.{
  decode_frame, arp_frame_received, decode_padded, own_mac, request_answered, asked,
}
use Neighbour.{
  ip_frame_received, IsNeighbour, ask_frame, answer_frame, taught, Asked, send-Asked, rsend-taught,
}

-- What happens to a packet for the neighbour: the neighbour answers the request; CIPLayer::Receive of
-- the router has sent the request and then the frame `bytes`; and the neighbour's CIPLayer::Receive is
-- given the packet when that frame comes in.
abbrev pub Relayed :
    Env → Env → Stack → Stack → List ℕ → Ip → Port → Port → Port → List ℕ → List ℕ → Type 0
Relayed ea eb s b payload hop port out pb rb rest =
    (done : Bool) × (t b1 : Stack) × (bytes : List ℕ) × (receive eb b (ask_frame ea s hop out ++ rb)
        pb
      ≡ ok (done, b1))
    × (b1.sent ≡ b.sent ++ record { port = pb; bytes = answer_frame ea s b hop out pb } ∷ [])
    × (IpLayer.receive ea s payload port ≡ ok (false, t))
    × (t.sent
        ≡ s.sent
          ++ record { port = out; bytes = ask_frame ea s hop out }
            ∷ record { port = out; bytes = bytes }
            ∷ [])
    × (receive eb b1 (bytes ++ rest) pb
        ≡ IpLayer.receive eb b1
            (take ether_max_data_size
              (take (Arp.clamp_length (decode_ip payload).tlength) payload ++ rest))
            pb)

pub received-IsNeighbour :
    (env : Env) (s b : Stack) (payload : List ℕ) (hop : Ip) (port out pb : Port)
    → length payload ≡ 1500
    → IsNeighbour env s b hop out pb
    → IsNeighbour env (received s payload port) b hop out pb
received-IsNeighbour env s b payload hop port out pb l n = record {
  sized_a = received-IsSized s payload port (n.sized_a) l;
  sized_b = n.sized_b;
  asks_all = n.asks_all;
  macs_differ = n.macs_differ;
  request_fits = record {
    hardware_fits = n.request_fits.hardware_fits;
    protocol_fits = n.request_fits.protocol_fits;
    opercode_fits = n.request_fits.opercode_fits;
  };
  reply_typed = n.reply_typed;
  asker_other = n.asker_other;
  answerer_other = n.answerer_other;
  inner_other = n.inner_other;
  answers = n.answers;
}

-- Routing sends a packet on through a next hop whose Ethernet address nobody knows yet. A packet of 1500
-- bytes whose first fitting row gives a next hop, on the row's port, of which the ARP layer knows
-- nothing, has a request sent first. Where the next hop is a neighbour, and during the wait the
-- router takes in the neighbour's reply and nothing else, the router has sent exactly two frames,
-- the request and then the packet, and the neighbour passes the packet to its CIPLayer::Receive.
-- Any bytes may follow the frames in the receivers' buffers.
pub receive_relays :
    (ea eb : Env) (s b t : Stack) (d : Bool) (payload : List ℕ) (port out pb : Port) (r : Route)
    (hop : Ip) (ra rb rest : List ℕ)
    → IsSized s
    → length payload ≡ 1500
    → match_route s.route_table (decode_ip payload).ip_dstaddr ≡ some r
    → next_hop r (decode_ip payload).ip_dstaddr ≡ some hop
    → IpLayer.port_of r.interface ≡ some out
    → known_mac s.arp hop ≡ none
    → IsNeighbour ea s b hop out pb
    → Arp.send ea (received s payload port) (asking ea s hop out) out ≡ ok (d, t)
    → receive ea t (answer_frame ea s b hop out pb ++ ra) out ≡ ok (true, ea.wait t)
    → Relayed ea eb s b payload hop port out pb rb rest
unfolding Ni.send
receive_relays ea eb s b t d payload port out pb r hop ra rb rest v l e hops p unknown n sent
      meanwhile =
    let s1 = received s payload port in
    let n1 = received-IsNeighbour ea s b payload hop port out pb l n in
    let tlength = (decode_ip payload).tlength in
    let k = send-Asked ea s1 (asking ea s1 hop out) out d t (n1.sized_a) sent in
    let left = taught ea s1 b t hop out pb in
    let mac = own_mac b pb in
    let f = ip_frame left mac payload tlength out in
    let d1 =
      request_answered eb s b (asking ea s hop out) out pb mac rb (n.sized_b) (n.asks_all)
        (n.macs_differ) (n.request_fits) (n.answerer_other) (n.answers) in
    let d2 =
      rsend-taught ea s1 b t d payload tlength hop out pb ra n1 (omega (arith, clamp_le tlength))
        unknown sent meanwhile in
    let (done, b1) = Ni.send eb (d1.left) (answer_frame ea s b hop out pb) pb in
    let (passed, u) = Ni.send ea (d2.left) f out in
    (
      done,
      u,
      b1,
      f,
      d1.returns,
      rw (d1.sent_left),
      receive-routed ea s u payload port out r hop passed v l e hops p (d2.returns),
      rw (d2.sent_left, k.sent_asked) (search append_assoc),
      ip_frame_received eb left b1 mac payload tlength out pb rest
          (λ same. n.macs_differ (sym (k.own_asked) ∙ same ∙ d1.own_left pb))
          (sym (d1.own_left pb)),
    )
