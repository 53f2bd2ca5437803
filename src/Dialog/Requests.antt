-- ===== src/Dialog/Requests.antt =====
-- The two buttons of CARPDlg that send ARP requests.
use arpwith_mfc.Base.{
  ℕ, ◌≤◌, ◌≡◌, refl, Bool, true, List, [], ◌∷◌, ◌++◌, Result, ok, ap, ◌∙◌, arith, length, take,
  drop, memcpy-ok, length-copied,
}
use arpwith_mfc.Wire.Address.{Ip}
use arpwith_mfc.Wire.Formats.{IpHeader, ip_max_data_size}
use arpwith_mfc.State.{Port, inner, outer, sel, put, put-ind, Stack, Env, with_arp}
use arpwith_mfc.Sized.{IsSized, Whole}
use arpwith_mfc.Ether
use arpwith_mfc.Ni
use arpwith_mfc.Arp
use arpwith_mfc.Arp.Request.{asked_arp, request_frame, send-Delivers}
use arpwith_mfc.IpLayer
use arpwith_mfc.Dialog.{address_self, set_addr}

-- The IP header that CIPLayer::Send hands down.
abbrev pub filled : IpHeader → List ℕ → ℕ → IpHeader
filled h payload n = record h { ip_data = take n payload ++ drop n h.ip_data }

-- What CIPLayer::Send of a short payload comes to: the request that the header of the port asks for.
pub record Requests (env : Env) (s : Stack) (h : IpHeader) (payload : List ℕ) (n : ℕ) (port : Port)
    (r : Result (Bool × Stack)) : Type 0 where
  pub done : Bool
  pub after : Stack
  pub returned : r ≡ ok (done, after)
  pub arp_after : after.arp ≡ asked_arp env s h port
  pub sent_after :
      after.sent ≡ s.sent ++ record { port = port; bytes = request_frame s h port } ∷ []
  pub routes_after : after.route_table ≡ s.route_table
  pub ip_after : after.ip ≡ put s.ip port (filled h payload n)
  pub own_after : (p : Port) → Ether.get_source_address after p ≡ Ether.get_source_address s p
  pub sized_after : IsSized after

pub send-Requests :
    (env : Env) (s : Stack) (payload : List ℕ) (n : ℕ) (port : Port)
    → IsSized s
    → n ≤ ip_max_data_size
    → n ≤ length payload
    → Requests env s (sel s.ip port) payload n port (IpLayer.send env s payload n port)
unfolding IpLayer.send Ni.send
send-Requests env s payload n port v b k =
    let h = sel s.ip port in
    let t = IpLayer.set_header s port (filled h payload n) in
    let w : IsSized t = record {
      ethernet_full = v.ethernet_full;
      ip_whole =
          put-ind Whole s.ip port _ v.ip_whole (
            length-copied h.ip_data payload n (omega (arith, v.ip_whole port)) k ∙ v.ip_whole port);
    } in
    let d = send-Delivers env t (filled h payload n) port w in
    record {
      done = (Ni.send env d.left (request_frame t (filled h payload n) port) port).0;
      after = (Ni.send env d.left (request_frame t (filled h payload n) port) port).1;
      returned =
          rw (IpLayer.send, memcpy-ok h.ip_data payload n (omega (arith, v.ip_whole port)) k)
            d.returns;
      arp_after = d.arp_left;
      sent_after =
          ap (λ l. l ++ record { port = port; bytes = request_frame s h port } ∷ []) d.sent_left;
      routes_after = d.routes_left;
      ip_after = d.ip_left;
      own_after = d.own_left;
      sized_after = record {
        ethernet_full = d.sized_left.ethernet_full;
        ip_whole = d.sized_left.ip_whole;
      };
    }

-- A request frame depends on no more than this.
pub request_frame_same :
    (s t : Stack) (h k : IpHeader) (port : Port)
    → Ether.get_source_address s port ≡ Ether.get_source_address t port
    → s.arp.is_garp ≡ t.arp.is_garp
    → sel s.arp.headers port ≡ sel t.arp.headers port
    → h.ip_srcaddr ≡ k.ip_srcaddr
    → h.ip_dstaddr ≡ k.ip_dstaddr
    → request_frame s h port ≡ request_frame t k port
request_frame_same s t h k port o g a x y = rw (o, g, a, x, y) refl

pub address_self-IsSized :
    (s : Stack) (a : Ip) (port : Port) → IsSized s → IsSized (address_self s a port)
unfolding address_self IpLayer.set_source_address IpLayer.set_destin_address
address_self-IsSized s a inner v = record {
  ethernet_full = v.ethernet_full;
  ip_whole = put-ind Whole s.ip inner _ v.ip_whole (v.ip_whole inner);
}
address_self-IsSized s a outer v = record {
  ethernet_full = v.ethernet_full;
  ip_whole = put-ind Whole s.ip outer _ v.ip_whole (v.ip_whole outer);
}

pub set_addr-IsSized :
    (s : Stack) (mac ip : List ℕ) (a : Ip) (port : Port)
    → IsSized s
    → IsSized (set_addr s mac ip a port)
unfolding set_addr IpLayer.set_source_address IpLayer.set_destin_address
set_addr-IsSized s mac ip a port v = record {
  ethernet_full = v.ethernet_full;
  ip_whole = twice port;
}
  where
    twice : (port q : Port) → Whole (sel (set_addr s mac ip a port).ip q)
    twice inner = put-ind Whole s.ip inner _ v.ip_whole (v.ip_whole inner)
    twice outer = put-ind Whole s.ip outer _ v.ip_whole (v.ip_whole outer)

-- the gratuitous request for the address `a` by the adapter of the port
abbrev pub garp_frame : Stack → Ip → Port → List ℕ
garp_frame s a port =
    request_frame (with_arp s (Arp.set_garp s.arp true))
      (record (sel s.ip port) { ip_srcaddr = a; ip_dstaddr = a }) port
