-- ===== src/Relay/Neighbour.antt =====
-- CARPLayer::RSend to a next hop that answers while CARPLayer::Wait runs: the reply that
-- CARPLayer::Receive of the next hop gives, and what the asking host has learned from it.
use arpwith_mfc.Base.{
  ℕ, ◌≤◌, has_bytes-le, ◌≡◌, refl, sym, ap, ◌∙◌, ◌≢◌, inl, Bool, true, List, [], ◌∷◌, ◌++◌, some,
  none, ok, arith, take, length,
}
use mathlib.Core.Path.{subst}
use arpwith_mfc.Wire.Address.{Ip, Mac, same_ip_ne, same_ip_refl}
use arpwith_mfc.Wire.Formats.{
  EthernetHeader, ArpHeader, IpHeader, encode_arp, ether_arp_type, ether_ip_type,
  ether_max_data_size, arp_header_size, arp_opcode_reply,
}
use arpwith_mfc.Wire.RoundTrip.{ArpFits}
use arpwith_mfc.State.{Port, sel, Stack, Env, ArpNode, with_table}
use arpwith_mfc.Ni
use arpwith_mfc.Ether.Laws.{frame}
use arpwith_mfc.Ether.Receive.{receive, deliver}
use arpwith_mfc.Ether.Demux.{Accepts, receive-accepted}
use arpwith_mfc.Sized.{IsSized, with_arp-IsSized}
use arpwith_mfc.Delivers.{Delivers}
use arpwith_mfc.Arp
use arpwith_mfc.IpLayer
use arpwith_mfc.Arp.Table.{arp_node, learn, refresh, incomplete}
use arpwith_mfc.Arp.Cache.{lookup}
use arpwith_mfc.Arp.Refine.{lookup-learn}
use arpwith_mfc.Arp.Request.{request_of, request_frame, asked_arp, send-Delivers}
use arpwith_mfc.Arp.Reply.{answered, reply_of, reply_frame}
use arpwith_mfc.Arp.Forward.{ip_frame, known_mac}
use arpwith_mfc.Arp.Unknown.{asking, rsend-asked, after_found}
use arpwith_mfc.Exchange.{
  decode_frame, frame_whole, padded_whole, arp_frame_received, decode_padded, own_mac, asked,
}

-- A reply that is accepted brings the sender's node up to date.
reply_taken :
    (env : Env) (s : Stack) (g : EthernetHeader) (q : ArpHeader) (port : Port) (rest : List ℕ)
    → Accepts (own_mac s port) g
    → g.enet_type ≡ ether_arp_type
    → ArpFits q
    → q.opercode ≡ arp_opcode_reply
    → s.arp.myip.at_inner ≢ q.protocol_srcaddr
    → receive env s (frame g (encode_arp q) ++ rest) port
      ≡ ok (true, with_table s (learn s.arp.arp_table q env.now))
unfolding Arp.receive
reply_taken env s g q port rest acc t fits op own =
    arp_frame_received env s g q rest port acc t
    ∙ rw (decode_padded q rest fits)
        (rw (has_bytes-le arp_header_size _ (padded_whole q rest), same_ip_ne _ _ own) (rw op))

-- An IP frame that is accepted reaches the IP layer.
pub ip_frame_received :
    (env : Env) (a b : Stack) (mac : Mac) (payload : List ℕ) (nlength : ℕ) (pa pb : Port)
    (rest : List ℕ)
    → own_mac a pa ≢ own_mac b pb
    → mac ≡ own_mac b pb
    → receive env b (ip_frame a mac payload nlength pa ++ rest) pb
      ≡ IpLayer.receive env b
          (take ether_max_data_size (take (Arp.clamp_length nlength) payload ++ rest))
          pb
unfolding deliver
ip_frame_received env a b mac payload nlength pa pb rest other mine =
    let g : EthernetHeader = record (sel a.ethernet pa) {
      enet_dstaddr = mac;
      enet_type = ether_ip_type;
    } in
    let e = decode_frame g (take (Arp.clamp_length nlength) payload ++ rest) (omega arith) in
    receive-accepted env b _ pb (frame_whole g (take (Arp.clamp_length nlength) payload ++ rest))
      (subst (Accepts (own_mac b pb)) (sym e) (other, inl mine))
    ∙ ap (λ (h : EthernetHeader). deliver env b h.enet_type h.enet_data pb) e

-- The host `b` is on the wire of the port `pa` of `a`, and answers there for `hop` with its own Ethernet
-- address: `a` is not in gratuitous mode, the adapters have different Ethernet addresses and the inner
-- and asking IP addresses do not stand in the way, the header of the request fits its fields, and the
-- Ethernet header of `b` has the type of ARP.
pub record IsNeighbour (env : Env) (a b : Stack) (hop : Ip) (pa pb : Port) : Type 0 where
  pub sized_a : IsSized a
  pub sized_b : IsSized b
  pub asks_all : a.arp.is_garp ≡ true
  pub macs_differ : own_mac a pa ≢ own_mac b pb
  pub request_fits : ArpFits (request_of a (asking env a hop pa) pa)
  pub reply_typed : (sel b.ethernet pb).enet_type ≡ ether_arp_type
  pub asker_other : sel a.arp.myip pa ≢ hop
  pub answerer_other : b.arp.myip.at_inner ≢ sel a.arp.myip pa
  pub inner_other : a.arp.myip.at_inner ≢ hop
  pub answers : answered b.arp hop ≡ some (own_mac b pb)

-- the request of `a` for the address, and the reply of `b` to it
abbrev pub ask_frame : Env → Stack → Ip → Port → List ℕ
ask_frame env a hop pa = request_frame a (asking env a hop pa) pa

abbrev pub answer_frame : Env → Stack → Stack → Ip → Port → Port → List ℕ
answer_frame env a b hop pa pb =
    reply_frame b (request_of a (asking env a hop pa) pa) (own_mac b pb) pb

-- What the router has when the wait is over.
abbrev pub taught : Env → Stack → Stack → Stack → Ip → Port → Port → Stack
taught env a b asked hop pa pb = with_table asked (
    learn asked.arp.arp_table (reply_of (request_of a (asking env a hop pa) pa) (own_mac b pb))
      env.now)

-- What Send leaves, whatever the adapter says.
pub record Asked (env : Env) (a : Stack) (h : IpHeader) (port : Port) (t : Stack) : Type 0 where
  pub arp_asked : t.arp ≡ asked_arp env a h port
  pub own_asked : own_mac t port ≡ own_mac a port
  pub sent_asked : t.sent ≡ a.sent ++ record { port = port; bytes = request_frame a h port } ∷ []
  pub sized_asked : IsSized t

pub send-Asked :
    (env : Env) (a : Stack) (h : IpHeader) (port : Port) (d : Bool) (t : Stack)
    → IsSized a
    → Arp.send env a h port ≡ ok (d, t)
    → Asked env a h port t
unfolding Ni.send
send-Asked env a h port d t v sent =
    let r = send-Delivers env a h port v in
    let left : (Ni.send env (r.left) (request_frame a h port) port).1 ≡ t = cc (r.returns, sent) in
    subst (Asked env a h port) left (record {
      arp_asked = r.arp_left;
      own_asked = r.own_left port;
      sent_asked = rw (r.sent_left);
      sized_asked = record {
        ethernet_full = r.sized_left.ethernet_full;
        ip_whole = r.sized_left.ip_whole;
      };
    })

pub answer_taken :
    (env : Env) (a b t : Stack) (hop : Ip) (pa pb : Port) (ra : List ℕ)
    → IsNeighbour env a b hop pa pb
    → Asked env a (asking env a hop pa) pa t
    → receive env t (answer_frame env a b hop pa pb ++ ra) pa
      ≡ ok (true, taught env a b t hop pa pb)
answer_taken env a b t hop pa pb ra n k =
    reply_taken env t (record (sel b.ethernet pb) { enet_dstaddr = own_mac a pa })
      (reply_of (request_of a (asking env a hop pa) pa) (own_mac b pb)) pa ra
      (λ e. n.macs_differ (sym (e ∙ k.own_asked)), inl (sym k.own_asked)) n.reply_typed
      (record {
        hardware_fits = n.request_fits.hardware_fits;
        protocol_fits = n.request_fits.protocol_fits;
        opercode_fits = omega arith;
      })
      refl (rw (k.arp_asked) n.inner_other)

-- the node that the router then has for the next hop
abbrev hop_node : Env → Stack → Stack → Ip → Port → ArpNode
hop_node env a b hop pb =
    refresh (arp_node hop (Arp.broadcast_addr a.arp) incomplete env.now) (own_mac b pb) env.now

lookup-taught :
    (env : Env) (a b t : Stack) (hop : Ip) (pa pb : Port)
    → IsNeighbour env a b hop pa pb
    → Asked env a (asking env a hop pa) pa t
    → lookup (taught env a b t hop pa pb).arp.arp_table hop ≡ some (hop_node env a b hop pb)
lookup-taught env a b t hop pa pb n k =
    lookup-learn t.arp.arp_table (reply_of (request_of a (asking env a hop pa) pa) (own_mac b pb))
      env.now hop
    ∙ rw (asked env a t (asking env a hop pa) pa (k.arp_asked) (n.asker_other))
        (rw (same_ip_refl hop))

-- RSend of a packet for the neighbour, whose request is answered during the wait: the packet goes to the
-- Ethernet address that answered.
pub rsend-taught :
    (env : Env) (a b t : Stack) (d : Bool) (payload : List ℕ) (nlength : ℕ) (hop : Ip)
    (pa pb : Port) (ra : List ℕ)
    → IsNeighbour env a b hop pa pb
    → Arp.clamp_length nlength ≤ length payload
    → known_mac a.arp hop ≡ none
    → Arp.send env a (asking env a hop pa) pa ≡ ok (d, t)
    → receive env t (answer_frame env a b hop pa pb ++ ra) pa ≡ ok (true, env.wait t)
    → Delivers env
        (taught env a b t hop pa pb)
        (taught env a b t hop pa pb).arp
        (ip_frame (taught env a b t hop pa pb) (own_mac b pb) payload nlength pa)
        pa
        (Arp.rsend env a payload nlength hop pa)
unfolding refresh
rsend-taught env a b t d payload nlength hop pa pb ra n l unknown sent meanwhile =
    let k = send-Asked env a (asking env a hop pa) pa d t (n.sized_a) sent in
    let e : env.wait t ≡ taught env a b t hop pa pb =
      cc (answer_taken env a b t hop pa pb ra n k, meanwhile) in
    let found = lookup-taught env a b t hop pa pb n k in
    after_found env (env.wait t) (taught env a b t hop pa pb) payload nlength hop pa
      (hop_node env a b hop pb) _ e (rw e found)
      (rsend-asked env a payload nlength hop pa d t l unknown sent
        (rw e (with_arp-IsSized t (taught env a b t hop pa pb).arp (k.sized_asked))))
