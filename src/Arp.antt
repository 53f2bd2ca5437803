-- ===== src/Arp.antt =====
-- CARPLayer (ARP/ARPLayer.cpp). The tables alone stand in `Arp/Table.antt` and
-- `Arp/Proxy.antt`; here are the members that work on the whole layer.
pub mod Table
pub mod Proxy
pub mod Cache
pub mod Request
pub mod Forward
pub mod Unknown
pub mod Opcodes
pub mod Reply
pub mod Distinct
pub mod Notes
pub mod Aging
pub mod Refine
pub mod Nodes
pub mod Wait
use arpwith_mfc.Base.{
  ℕ, ◌≡◌, Bool, true, false, not, ◌&&◌, List, [], ◌∷◌, Option, none, some, Result, ok, thrown,
  fault, ◌>>=◌, or_fault, has_bytes, if◌then◌else◌, ◌==◌, leb, ltb, take, replicate, memcpy,
  get_elem?,
}
use arpwith_mfc.Wire.Address.{Ip, Mac, fill_ip, fill_mac, mac_prefix, same_ip}
use arpwith_mfc.Wire.Formats.{
  ArpHeader, IpHeader, encode_arp, decode_arp, arp_enet_type, arp_ip_type, arp_header_size,
  arp_opcode_request, arp_opcode_reply, arp_opcode_rrequest, arp_opcode_rreply, ether_arp_type,
  ether_ip_type, ip_max_size,
}
use arpwith_mfc.State.{
  Port, inner, outer, Both, sel, put, ArpNode, ProxyNode, ArpLayer, Stack, Env, with_arp,
  with_table,
}
use arpwith_mfc.Ether
use arpwith_mfc.Text.{str_to_ip, str_to_mac}
use Table.{delete_item, arp_node, in_cache, refresh, learn, note_sender, note_target}
use Proxy.{find_proxy}

-- ARP_HEADER()
unfoldable pub blank_header : ArpHeader
blank_header = record {
  hardware_type = 0;
  protocol_type = 0;
  hardware_length = 0;
  protocol_length = 0;
  opercode = 0;
  hardware_srcaddr = fill_mac 0;
  protocol_srcaddr = fill_ip 0;
  hardware_dstaddr = fill_mac 0;
  protocol_dstaddr = fill_ip 0;
}

abbrev pub set_header : ArpLayer → Port → ArpHeader → ArpLayer
set_header a port h = record a { headers = put a.headers port h }

-- CARPLayer::setType
unfoldable pub set_type : ArpLayer → ℕ → ℕ → Port → Result ArpLayer
set_type a htype ptype port =
    if htype == arp_enet_type
    then (if ptype == arp_ip_type then ok (set_header a port typed) else thrown)
    else thrown
  where
    typed : ArpHeader
    typed = record (sel a.headers port) {
      hardware_type = htype;
      protocol_type = ptype;
      hardware_length = 6;
      protocol_length = 4;
    }

-- CARPLayer::setOpcode
unfoldable pub set_opcode : ArpLayer → ℕ → Port → Result ArpLayer
set_opcode a opcode port =
    if leb arp_opcode_request opcode && leb opcode arp_opcode_rreply
    then ok (set_header a port (record (sel a.headers port) { opercode = opcode }))
    else thrown

-- CARPLayer::setSrcAddr
unfoldable pub set_src_addr : ArpLayer → Mac → Ip → Port → ArpLayer
set_src_addr a enet ip port =
    set_header a port
      (record (sel a.headers port) { hardware_srcaddr = enet; protocol_srcaddr = ip })

-- CARPLayer::setDstAddr
unfoldable pub set_dst_addr : ArpLayer → Mac → Ip → Port → ArpLayer
set_dst_addr a enet ip port =
    set_header a port
      (record (sel a.headers port) { hardware_dstaddr = enet; protocol_dstaddr = ip })

-- CARPLayer::CARPLayer. The constructor clears the first of the two addresses that `myip` and
-- `mymac` hold; what the second holds is left as it was found.
unfoldable pub init : Ip → Mac → Result ArpLayer
unfolding blank_header
init found_ip found_mac = do
  a ← set_type cleared arp_enet_type arp_ip_type inner
  set_type a arp_enet_type arp_ip_type outer
  where
    cleared : ArpLayer
    cleared = record {
      myip = record { at_inner = fill_ip 0; at_outer = found_ip };
      mymac = record { at_inner = fill_mac 0; at_outer = found_mac };
      is_garp = true;
      headers = record { at_inner = blank_header; at_outer = blank_header };
      arp_table = [];
      proxy_table = [];
    }

-- CARPLayer::isGARP
unfoldable pub set_garp : ArpLayer → Bool → ArpLayer
set_garp a yes_garp = record a { is_garp = if yes_garp then false else true }

-- CARPLayer::setmyAddr
unfoldable pub set_my_addr : ArpLayer → List ℕ → List ℕ → Port → ArpLayer
set_my_addr a mac ip port = record a {
  myip = put a.myip port (str_to_ip (sel a.myip port) ip);
  mymac = put a.mymac port (str_to_mac (sel a.mymac port) mac);
}

-- CARPLayer::deleteItem
unfoldable pub delete_item_text : List ArpNode → List ℕ → Result (List ArpNode)
delete_item_text t ip = delete_item t (str_to_ip (fill_ip 0) ip)

-- CARPLayer::getMACinARP: whether the address is cached, and what `MAC` holds afterwards
unfoldable pub get_mac_in_arp : ArpLayer → Ip → Mac → Result (Bool × Mac)
get_mac_in_arp a dst_ip mac = elim (in_cache a.arp_table dst_ip) [
  | none ↦ ok (false, mac)
  | some i ↦ or_fault (get_elem? a.arp_table i) >>= λ n. ok (true, n.hardware_addr)
]

-- CARPLayer::swapaddr
unfoldable pub swap_addr : {A : Type 0} → A → A → A × A
swap_addr l r = (r, l)

-- The frame that a request is turned into: the addresses change places after the asked one is
-- filled in.
unfoldable pub reply_to : ArpHeader → Mac → ArpHeader
unfolding swap_addr
reply_to q mac =
    let (hs, hd) = swap_addr q.hardware_srcaddr mac in
    let (ps, pd) = swap_addr q.protocol_srcaddr q.protocol_dstaddr in
    record q {
      opercode = arp_opcode_reply;
      hardware_srcaddr = hs;
      protocol_srcaddr = ps;
      hardware_dstaddr = hd;
      protocol_dstaddr = pd;
    }

-- How CARPLayer::Receive answers a request: the destination of the Ethernet header is set, and
-- the 28 bytes go down.
unfoldable pub answer : Env → Stack → ArpHeader → Mac → Port → Result (Bool × Stack)
answer env s q mac port =
    let r = reply_to q mac in
    Ether.send env (Ether.set_destin_address s r.hardware_dstaddr port) (encode_arp r)
      arp_header_size port

-- The case ARP_OPCODE_REQUEST of CARPLayer::Receive, `index` being inCache of the sender's
-- Ethernet address.
unfoldable pub receive_request : Env → Stack → ArpHeader → Option ℕ → Port → Result (Bool × Stack)
receive_request env s q index port =
    let s1 = with_table s (note_sender s.arp.arp_table index q env.now) in
    if same_ip q.protocol_dstaddr s.arp.myip.at_inner
    then answer env s1 q s.arp.mymac.at_inner port
    else elim (find_proxy s.arp.proxy_table q.protocol_dstaddr) [
      | none ↦ ok (true, s1)
      | some p ↦ answer env s1 q p.srchardware_addr port
    ]

-- CARPLayer::Receive. The struct that the pointer is cast to has 28 bytes; where they are not all there, other
-- memory is taken for it.
unfoldable pub receive : Env → Stack → List ℕ → Port → Result (Bool × Stack)
receive env s payload port =
    let q = decode_arp payload in
    let index = in_cache s.arp.arp_table (mac_prefix q.hardware_srcaddr) in
    if not (has_bytes arp_header_size payload)
    then fault
    else if same_ip s.arp.myip.at_inner q.protocol_srcaddr
    then ok (false, s)
    else if q.opercode == arp_opcode_request
    then receive_request env s q index port
    else if q.opercode == arp_opcode_reply
    then ok (true, with_table s (learn s.arp.arp_table q env.now))
    else if q.opercode == arp_opcode_rrequest
    then ok (true, s)
    else if q.opercode == arp_opcode_rreply
    then ok (true, s)
    else thrown

-- what Send and the Ethernet header take for the unknown address
abbrev pub broadcast_addr : ArpLayer → Mac
broadcast_addr a = fill_mac (if a.is_garp then 255 else 0)

-- CARPLayer::Send
unfoldable pub send : Env → Stack → IpHeader → Port → Result (Bool × Stack)
send env s ip_data port = do
  let target = broadcast_addr s.arp
  let new_node = arp_node ip_data.ip_dstaddr target 0 env.now
  let table : List ArpNode =
      if same_ip ip_data.ip_srcaddr ip_data.ip_dstaddr
      then s.arp.arp_table
      else note_target s.arp.arp_table new_node
  let s1 = Ether.set_destin_address (with_table s table) target port
  let s2 = Ether.set_type s1 ether_arp_type port
  a ← set_opcode s2.arp arp_opcode_request port
  let a1 = set_src_addr a (Ether.get_source_address s2 port) ip_data.ip_srcaddr port
  let a2 = set_dst_addr a1 target ip_data.ip_dstaddr port
  Ether.send env (with_arp s2 a2) (encode_arp (sel a2.headers port)) arp_header_size port

-- `nlength > IP_MAX_SIZE ? IP_MAX_SIZE : nlength`
abbrev pub clamp_length : ℕ → ℕ
clamp_length n = if ltb ip_max_size n then ip_max_size else n

-- The last lines of CARPLayer::RSend: an IP frame to a known Ethernet address.
unfoldable pub forward : Env → Stack → Mac → List ℕ → ℕ → Port → Result (Bool × Stack)
forward env s mac temp nlength port =
    Ether.send env (Ether.set_type (Ether.set_destin_address s mac port) ether_ip_type port) temp
      nlength port

-- The same, to the entry `index` of the ARP table.
unfoldable pub forward_cached : Env → Stack → ℕ → List ℕ → ℕ → Port → Result (Bool × Stack)
forward_cached env s index temp nlength port = or_fault (get_elem? s.arp.arp_table index) >>= λ n.
    forward env s n.hardware_addr temp nlength port

-- The branch of RSend for an address that is in neither table: a request is sent, three seconds
-- pass, and the table is searched once more.
unfoldable pub ask_and_forward : Env → Stack → Ip → List ℕ → ℕ → Port → Result (Bool × Stack)
ask_and_forward env s gateway_ip temp nlength port = do
  (_, asked) ←
      send env s (record (env.uninit) { ip_srcaddr = sel s.arp.myip port; ip_dstaddr = gateway_ip })
        port
  let s1 = env.wait asked
  elim (in_cache s1.arp.arp_table gateway_ip) [
    | none ↦ ok (false, s1)
    | some i ↦ forward_cached env s1 i temp nlength port
  ]

-- CARPLayer::RSend
unfoldable pub rsend : Env → Stack → List ℕ → ℕ → Ip → Port → Result (Bool × Stack)
rsend env s payload nlength gateway_ip port = do
  let n = clamp_length nlength
  temp ← memcpy (replicate ip_max_size 0) payload n
  elim (find_proxy s.arp.proxy_table gateway_ip) [
    | some p ↦ forward env s p.hardware_addr temp n port
    | none ↦ elim (in_cache s.arp.arp_table gateway_ip) [
      | some i ↦ forward_cached env s i temp n port
      | none ↦ ask_and_forward env s gateway_ip temp n port
    ]
  ]
