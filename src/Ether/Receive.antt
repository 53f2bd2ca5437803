-- ===== src/Ether/Receive.antt =====
-- CEthernetLayer::Receive (ARP/EthernetLayer.cpp), and CNILayer::Receive (ARP/NILayer.cpp), which
-- calls it. The layers above are those that the constructor of the dialog links: the IP layer at
-- index 0 and the ARP layer at index 1.
use arpwith_mfc.Base.{
  ℕ, Bool, true, false, List, Option, none, some, Result, ok, fault, not, has_bytes, ◌>>=◌,
  if◌then◌else◌, ◌==◌, [], ◌∷◌, memcpy, replicate,
}
use arpwith_mfc.Wire.Address.{Mac, fill_mac, same_mac}
use arpwith_mfc.Wire.Formats.{
  decode_ethernet, ether_header_size, ether_arp_type, ether_ip_type, ether_max_size,
}
use arpwith_mfc.State.{Port, Stack, Env}
use arpwith_mfc.Arp
use arpwith_mfc.IpLayer
use arpwith_mfc.Ether.{get_source_address}

abbrev pub broad : Mac
broad = fill_mac 255

-- which layer above gets a payload of that type, by either of the two `if` ladders
unfoldable pub deliver : Env → Stack → ℕ → List ℕ → Port → Result (Bool × Stack)
deliver env s type payload port =
    if type == ether_ip_type
    then IpLayer.receive env s payload port
    else if type == ether_arp_type
    then Arp.receive env s payload port
    else ok (false, s)

-- CEthernetLayer::Receive. The addresses and the type of the struct that the pointer is cast to have 14 bytes;
-- where they are not all there, other memory is taken for them.
unfoldable pub receive : Env → Stack → List ℕ → Port → Result (Bool × Stack)
receive env s payload port =
    let f = decode_ethernet payload in
    let me = get_source_address s port in
    if not (has_bytes ether_header_size payload)
    then fault
    else if same_mac f.enet_srcaddr me
    then ok (false, s)
    else if same_mac f.enet_dstaddr me
    then deliver env s f.enet_type f.enet_data port
    else if same_mac f.enet_dstaddr broad
    then deliver env s f.enet_type f.enet_data port
    else ok (false, s)

-- CNILayer::Receive
unfoldable pub ni_receive : Env → Stack → Option (List ℕ) → Port → Result (Bool × Stack)
ni_receive env s none port = ok (false, s)
ni_receive env s (some pkt) port = do
  (done, s') ← receive env s pkt port
  if done then ok (true, s') else ok (false, s')

-- CNILayer::ThreadFunction_RECEIVE2 at the inner port and CNILayer::ThreadFunction_RECEIVE at the
-- outer one: the rounds that are made while `canRead` holds. In each, pcap_next_ex gives the memory
-- that the packet begins, or nothing; 1514 bytes of it are copied, however long the packet is.
unfoldable pub receive_loop : Stack → List (Env × Option (List ℕ)) → Port → Result Stack
receive_loop s [] port = ok s
receive_loop s ((env, none) ∷ rounds) port = receive_loop s rounds port
receive_loop s ((env, some pkt_data) ∷ rounds) port = do
  pkt ← memcpy (replicate ether_max_size 0) pkt_data ether_max_size
  (_, s') ← ni_receive env s (some pkt) port
  receive_loop s' rounds port
