-- ===== src/IpLayer.antt =====
-- CIPLayer (ARP/IPLayer.cpp).
pub mod Routes
pub mod Selection
pub mod Gateway
pub mod Forwarding
use arpwith_mfc.Base.{
  ℕ, ◌+◌, ◌-◌, ◌%◌, ◌≡◌, Bool, true, false, not, ◌&&◌, List, [], ◌∷◌, Option, none, some, Result,
  ok, fault, ◌>>=◌, or_fault, if◌then◌else◌, ◌==◌, bit_and, memcpy, replicate,
}
use arpwith_mfc.Wire.Address.{Ip, fill_ip}
use arpwith_mfc.Wire.Formats.{IpHeader, decode_ip, ip_max_data_size, ip_header_size}
use arpwith_mfc.State.{Port, inner, outer, Both, sel, put, Route, Stack, Env}
use arpwith_mfc.Arp
use Routes.{match_route}

abbrev pub ip_route_host : ℕ
ip_route_host = 0x01

abbrev pub ip_route_gateway : ℕ
ip_route_gateway = 0x02

abbrev pub ip_route_up : ℕ
ip_route_up = 0x40

abbrev pub set_header : Stack → Port → IpHeader → Stack
set_header s port h = record s { ip = put s.ip port h }

-- CIPLayer::ResetHeader: the other fields keep what they hold.
unfoldable pub reset_header : IpHeader → IpHeader
reset_header h = record h {
  ip_srcaddr = fill_ip 0;
  ip_dstaddr = fill_ip 0;
  ip_data = replicate ip_max_data_size 0;
}

-- CIPLayer::CIPLayer, where the memory of the two headers held `found`
unfoldable pub init : Both IpHeader → Both IpHeader
unfolding reset_header
init found = record {
  at_inner = reset_header found.at_inner;
  at_outer = reset_header found.at_outer;
}

-- CIPLayer::SetSourceAddress
unfoldable pub set_source_address : Stack → Ip → Port → Stack
set_source_address s addr port = set_header s port (record (sel s.ip port) { ip_srcaddr = addr })

-- CIPLayer::SetDestinAddress
unfoldable pub set_destin_address : Stack → Ip → Port → Stack
set_destin_address s addr port = set_header s port (record (sel s.ip port) { ip_dstaddr = addr })

-- CIPLayer::GetSourceAddress
abbrev pub get_source_address : Stack → Port → Ip
get_source_address s port = (sel s.ip port).ip_srcaddr

-- CIPLayer::GetDestinAddress
abbrev pub get_destin_address : Stack → Port → Ip
get_destin_address s port = (sel s.ip port).ip_dstaddr

-- `ttl - 1` in an unsigned char
abbrev pub pred_ttl : ℕ → ℕ
pred_ttl t = (t + 255) % 256

-- CIPLayer::SetHeaderFields
unfoldable pub set_header_fields : Stack → IpHeader → Port → Stack
unfolding set_source_address set_destin_address
set_header_fields s f port =
    let h : IpHeader = record (sel s.ip port) {
      ver_hlegnth = f.ver_hlegnth;
      tos = f.tos;
      tlength = f.tlength;
      id = f.id;
      ttl = pred_ttl f.ttl;
      ptype = f.ptype;
      checksum = f.checksum;
    } in
    set_destin_address (set_source_address (set_header s port h) f.ip_srcaddr port) f.ip_dstaddr
      port

-- CIPLayer::Send: the whole header goes down; the length is not read by the layer below.
unfoldable pub send : Env → Stack → List ℕ → ℕ → Port → Result (Bool × Stack)
send env s payload nlength port = do
  content ← memcpy (sel s.ip port).ip_data payload nlength
  let h : IpHeader = record (sel s.ip port) { ip_data = content }
  Arp.send env (set_header s port h) h port

-- CIPLayer::RSend
unfoldable pub rsend : Env → Stack → List ℕ → ℕ → Ip → Port → Result (Bool × Stack)
rsend env s payload nlength gateway_ip port = Arp.rsend env s payload nlength gateway_ip port

-- An index into an array of two; any other is out of bounds.
abbrev pub port_of : ℕ → Option Port
port_of i = if i == 0 then some inner else if i == 1 then some outer else none

abbrev pub has_flag : Route → ℕ → Bool
has_flag r f = not (bit_and r.flag f == 0)

-- The call of RSend in Routing, to the address `a` on the row's port.
unfoldable pub send_via : Env → Stack → List ℕ → ℕ → Route → Ip → Result Stack
send_via env s payload tlength r a = do
  port ← or_fault (port_of r.interface)
  (_, s') ← Arp.rsend env s payload tlength a port
  ok s'

-- What Routing does with the first row that fits the destination.
unfoldable pub take_route : Env → Stack → List ℕ → ℕ → Ip → Route → Result Stack
take_route env s payload tlength dest_ip r =
    if has_flag r ip_route_up && has_flag r ip_route_host
    then send_via env s payload tlength r dest_ip
    else if has_flag r ip_route_up && has_flag r ip_route_gateway
    then send_via env s payload tlength r r.gateway
    else ok s

-- CIPLayer::Routing
unfoldable pub routing : Env → Stack → Ip → List ℕ → Result Stack
routing env s dest_ip payload = elim (match_route s.route_table dest_ip) [
  | none ↦ ok s
  | some r ↦ take_route env s payload (decode_ip payload).tlength dest_ip r
]

-- CIPLayer::Receive
unfoldable pub receive : Env → Stack → List ℕ → Port → Result (Bool × Stack)
receive env s payload port = do
  let f = decode_ip payload
  content ← memcpy (sel s.ip port).ip_data f.ip_data ip_max_data_size
  let s1 = set_header s port (record (sel s.ip port) { ip_data = content })
  s2 ← routing env (set_header_fields s1 f port) f.ip_dstaddr payload
  ok (false, s2)
