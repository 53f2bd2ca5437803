-- ===== src/Threads/Race.antt =====
-- Two threads that send by the same adapter: CARPLayer::RSend of a packet that came in by one adapter, and
-- CARPLayer::Receive that answers a request at the other.
use arpwith_mfc.Base.{ℕ, ◌≤◌, ◌≡◌, refl, List, [], ◌∷◌, ◌++◌, ok, arith, length, take, take_all}
use mathlib.Core.List.{append_assoc}
use arpwith_mfc.Wire.Address.{Mac}
use arpwith_mfc.Wire.Formats.{EthernetHeader, ArpHeader, encode_arp, ether_ip_type, arp_header_size}
use arpwith_mfc.Wire.RoundTrip.{length-encode_arp}
use arpwith_mfc.State.{Port, inner, outer, sel, Stack, Env}
use arpwith_mfc.Ni
use arpwith_mfc.Ether
use arpwith_mfc.Ether.Laws.{frame}
use arpwith_mfc.Sized.{IsSized, after_send, send-IsSized, set_header-IsSized}
use arpwith_mfc.Threads.{
  Call, set_to, set_as, hand, call, run, forward_calls, answer_calls, Merge, both_done, first,
  second,
}

-- Send of bytes that fit, in a state of the right sizes.
record Handed (env : Env) (p : Port) (s : Stack) (payload : List ℕ) (n : ℕ) : Type 0 where
  left : Stack
  returns : call env (hand p payload n) s ≡ ok left
  sent :
      left.sent
      ≡ s.sent ++ record { port = p; bytes = frame (sel s.ethernet p) (take n payload) } ∷ []
  framed : (x : List ℕ) → frame (sel left.ethernet p) x ≡ frame (sel s.ethernet p) x
  sized : IsSized left

same_frame :
    (s : Stack) (payload : List ℕ) (n : ℕ) (p : Port) (x : List ℕ)
    → frame (sel (after_send s payload n p).ethernet p) x ≡ frame (sel s.ethernet p) x
same_frame s payload n inner x = refl
same_frame s payload n outer x = refl

hand-Handed :
    (env : Env) (p : Port) (s : Stack) (payload : List ℕ) (n : ℕ)
    → IsSized s
    → n ≤ 1500
    → n ≤ length payload
    → Handed env p s payload n
unfolding call Ni.send
hand-Handed env p s payload n v b k =
    let (e, w) = send-IsSized env s payload n p v b k in
    record {
      left =
          (Ni.send env (after_send s payload n p) (frame (sel s.ethernet p) (take n payload)) p).1;
      returns = rw e;
      sent = refl;
      framed = same_frame s payload n p;
      sized = record { ethernet_full = w.ethernet_full; ip_whole = w.ip_whole };
    }

-- The three calls before the first Send, in the order that the race has.
mixed :
    (s : Stack) (mac other : Mac) (p : Port)
    → Ether.set_destin_address
        (Ether.set_type (Ether.set_destin_address s mac p) ether_ip_type p)
        other
        p
      ≡ Ether.set_header s p
          (record (sel s.ethernet p) { enet_dstaddr = other; enet_type = ether_ip_type })
unfolding Ether.set_destin_address Ether.set_type
mixed s mac other inner = refl
mixed s mac other outer = refl

header_of :
    (s : Stack) (p : Port) (h : EthernetHeader) → sel (Ether.set_header s p h).ethernet p ≡ h
header_of s inner h = refl
header_of s outer h = refl

-- A packet and a reply that are handed over one after the other, with one header.
handed_both :
    (env : Env) (s : Stack) (temp : List ℕ) (n : ℕ) (r : ArpHeader) (p : Port)
    → IsSized s
    → n ≤ 1500
    → n ≤ length temp
    → (t : Stack) × (run env (hand p temp n ∷ hand p (encode_arp r) arp_header_size ∷ []) s ≡ ok t)
      × (t.sent
          ≡ s.sent
            ++ record { port = p; bytes = frame (sel s.ethernet p) (take n temp) }
              ∷ record { port = p; bytes = frame (sel s.ethernet p) (encode_arp r) }
              ∷ [])
unfolding run
handed_both env s temp n r p v b k =
    let d = hand-Handed env p s temp n v b k in
    let e =
      hand-Handed env p (d.left) (encode_arp r) arp_header_size (d.sized) (omega arith)
        (omega (arith, length-encode_arp r)) in
    let whole : take arp_header_size (encode_arp r) ≡ encode_arp r =
      take_all arp_header_size (encode_arp r) (omega (arith, length-encode_arp r)) in
    (
      e.left,
      rw (d.returns) (rw (e.returns)),
      rw (e.sent, d.sent, d.framed (take arp_header_size (encode_arp r)), whole)
          (search append_assoc),
    )

-- Where a thread forwards a packet by the adapter by which another answers a request, there is an order of
-- their calls in which the packet goes to the Ethernet address of the asker, whatever address it was for,
-- and the reply goes out as an IP frame. Each thread's own calls are in their order, the buffers have the
-- size of the structs, and the packet has its bytes, 1500 at most.
pub race_misdirects :
    (env : Env) (s : Stack) (mac : Mac) (temp : List ℕ) (n : ℕ) (r : ArpHeader) (p : Port)
    → IsSized s
    → n ≤ 1500
    → n ≤ length temp
    → (zs : List Call) × (t : Stack) × Merge (forward_calls mac temp n p) (answer_calls r p) zs
      × (run env zs s ≡ ok t)
      × (t.sent
          ≡ s.sent
            ++ record {
              port = p;
              bytes =
                  frame
                    (record (sel s.ethernet p) {
                      enet_dstaddr = r.hardware_dstaddr;
                      enet_type = ether_ip_type;
                    })
                    (take n temp);
            }
              ∷ record {
                port = p;
                bytes =
                    frame
                      (record (sel s.ethernet p) {
                        enet_dstaddr = r.hardware_dstaddr;
                        enet_type = ether_ip_type;
                      })
                      (encode_arp r);
              }
              ∷ [])
unfolding run call forward_calls answer_calls
race_misdirects env s mac temp n r p v b k =
    let h : EthernetHeader = record (sel s.ethernet p) {
      enet_dstaddr = r.hardware_dstaddr;
      enet_type = ether_ip_type;
    } in
    let (t, e, sent) =
      handed_both env (Ether.set_header s p h) temp n r p
        (set_header-IsSized s p h v (v.ethernet_full p)) b k in
    (
      set_to p mac
          ∷ set_as p ether_ip_type
          ∷ set_to p r.hardware_dstaddr
          ∷ hand p temp n
          ∷ hand p (encode_arp r) arp_header_size
          ∷ [],
      t,
      first (first (second (first (second both_done)))),
      rw (mixed s mac r.hardware_dstaddr p) e,
      rw (header_of s p h) at sent,
    )
