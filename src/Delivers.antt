-- ===== src/Delivers.antt =====
-- The contract of a call that hands one frame to an adapter.
use arpwith_mfc.Base.{ℕ, ◌≤◌, ◌≡◌, refl, Bool, List, Result, ok, length, take, ◌∙◌, ap}
use arpwith_mfc.Wire.Address.{Mac}
use arpwith_mfc.Wire.Formats.{EthernetHeader}
use arpwith_mfc.State.{Port, inner, outer, sel, sel-put_self, Stack, Env, ArpLayer, with_arp}
use arpwith_mfc.Ether
use arpwith_mfc.Ether.Laws.{frame}
use arpwith_mfc.Ni
use arpwith_mfc.Sized.{IsSized, Full, after_send, send-IsSized, set_header-IsSized}

-- The call, made in the state `s`, returns what the adapter of the port says of the one frame
-- `bytes`. It leaves the ARP layer `a`; the adapters' own addresses, the IP layer and the frames sent
-- before are those of `s`.
pub record Delivers (env : Env) (s : Stack) (a : ArpLayer) (bytes : List ℕ) (port : Port)
    (r : Result (Bool × Stack)) : Type 0 where
  pub left : Stack
  pub returns : r ≡ ok (Ni.send env left bytes port)
  pub arp_left : left.arp ≡ a
  pub sent_left : left.sent ≡ s.sent
  pub routes_left : left.route_table ≡ s.route_table
  pub ip_left : left.ip ≡ s.ip
  pub own_left : (p : Port) → Ether.get_source_address left p ≡ Ether.get_source_address s p
  pub sized_left : IsSized left

own_kept :
    (s t : Stack) (port : Port) (h : EthernetHeader)
    → h.enet_srcaddr ≡ Ether.get_source_address s port
    → ((p : Port) → Ether.get_source_address t p ≡ Ether.get_source_address s p)
    → (p : Port)
    → Ether.get_source_address (Ether.set_header t port h) p ≡ Ether.get_source_address s p
own_kept s t inner h e k inner = e
own_kept s t inner h e k outer = k outer
own_kept s t outer h e k inner = k inner
own_kept s t outer h e k outer = e

-- CEthernetLayer::Send from a state whose header of the port was just made `h`.
pub send_header-Delivers :
    (env : Env) (s : Stack) (h : EthernetHeader) (payload : List ℕ) (n : ℕ) (port : Port)
    → IsSized s
    → Full h
    → h.enet_srcaddr ≡ Ether.get_source_address s port
    → n ≤ 1500
    → n ≤ length payload
    → Delivers env s s.arp
        (frame h (take n payload))
        port
        (Ether.send env (Ether.set_header s port h) payload n port)
send_header-Delivers env s h payload n port v f own b k =
    let t = Ether.set_header s port h in
    let here : sel t.ethernet port ≡ h = sel-put_self s.ethernet port h in
    let (sends, sized) = send-IsSized env t payload n port (set_header-IsSized s port h v f) b k in
    record {
      left = after_send t payload n port;
      returns =
          sends
          ∙ ap (λ g. ok (Ni.send env (after_send t payload n port) (frame g (take n payload)) port))
              here;
      arp_left = refl;
      sent_left = refl;
      routes_left = refl;
      ip_left = refl;
      own_left =
          own_kept s t port _ (ap (λ (g : EthernetHeader). g.enet_srcaddr) here ∙ own)
            (own_kept s s port h own (λ p. refl));
      sized_left = sized;
    }

-- CEthernetLayer::Send with a new destination. The type of the header is the one it had.
pub send_to-Delivers :
    (env : Env) (s : Stack) (mac : Mac) (payload : List ℕ) (n : ℕ) (port : Port)
    → IsSized s
    → n ≤ 1500
    → n ≤ length payload
    → Delivers env s s.arp
        (frame (record (sel s.ethernet port) { enet_dstaddr = mac }) (take n payload))
        port
        (Ether.send env (Ether.set_destin_address s mac port) payload n port)
unfolding Ether.set_destin_address
send_to-Delivers env s mac payload n port v b k =
    send_header-Delivers env s (record (sel s.ethernet port) { enet_dstaddr = mac }) payload n port
      v (v.ethernet_full port) refl b k

-- Setting the destination and then the type is one change of the header.
pub set_type-set_destin_address :
    (s : Stack) (mac : Mac) (type : ℕ) (port : Port)
    → Ether.set_type (Ether.set_destin_address s mac port) type port
      ≡ Ether.set_header s port
          (record (sel s.ethernet port) { enet_dstaddr = mac; enet_type = type })
unfolding Ether.set_destin_address Ether.set_type
set_type-set_destin_address s mac type inner = refl
set_type-set_destin_address s mac type outer = refl

-- CEthernetLayer::Send with a new destination and a new type.
pub send_typed-Delivers :
    (env : Env) (s : Stack) (mac : Mac) (type : ℕ) (payload : List ℕ) (n : ℕ) (port : Port)
    → IsSized s
    → n ≤ 1500
    → n ≤ length payload
    → Delivers env s s.arp
        (frame
          (record (sel s.ethernet port) { enet_dstaddr = mac; enet_type = type })
          (take n payload))
        port
        (Ether.send env
          (Ether.set_type (Ether.set_destin_address s mac port) type port)
          payload
          n
          port)
send_typed-Delivers env s mac type payload n port v b k =
    rw (set_type-set_destin_address s mac type port) (
      send_header-Delivers env s
        (record (sel s.ethernet port) { enet_dstaddr = mac; enet_type = type }) payload n port v
        (v.ethernet_full port) refl b k)

-- Only the ARP layer differed before the call.
pub Delivers-from :
    (env : Env) (s : Stack) (a : ArpLayer) (bytes : List ℕ) (port : Port)
    (r : Result (Bool × Stack))
    → Delivers env (with_arp s a) a bytes port r
    → Delivers env s a bytes port r
Delivers-from env s a bytes port r d = record {
  left = d.left;
  returns = d.returns;
  arp_left = d.arp_left;
  sent_left = d.sent_left;
  routes_left = d.routes_left;
  ip_left = d.ip_left;
  own_left = d.own_left;
  sized_left = d.sized_left;
}
