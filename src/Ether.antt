-- ===== src/Ether.antt =====
-- CEthernetLayer (ARP/EthernetLayer.cpp): the accessors and Send. `Ether/Receive.antt` has Receive,
-- which calls the layers above.
pub mod Laws
pub mod Receive
pub mod Demux
use arpwith_mfc.Base.{
  ℕ, ◌+◌, ◌<◌, ◌≡◌, Bool, List, ◌∷◌, Result, ok, fault, ◌>>=◌, memcpy, take, replicate, ltb,
  if◌then◌else◌,
}
use arpwith_mfc.Wire.Address.{Mac, fill_mac}
use arpwith_mfc.Wire.Formats.{
  EthernetHeader, encode_ethernet, ether_header_size, ether_max_size, ether_max_data_size,
}
use arpwith_mfc.State.{Port, Both, sel, put, Stack, Env}
use arpwith_mfc.Ni

-- CEthernetLayer::ResetHeader, for one header
unfoldable pub reset_header : EthernetHeader
reset_header = record {
  enet_dstaddr = fill_mac 0;
  enet_srcaddr = fill_mac 0;
  enet_type = 0;
  enet_data = replicate ether_max_data_size 0;
}

-- CEthernetLayer::CEthernetLayer
unfoldable pub init : Both EthernetHeader
unfolding reset_header
init = record { at_inner = reset_header; at_outer = reset_header }

-- CEthernetLayer::GetSourceAddress
abbrev pub get_source_address : Stack → Port → Mac
get_source_address s port = (sel s.ethernet port).enet_srcaddr

abbrev pub set_header : Stack → Port → EthernetHeader → Stack
set_header s port h = record s { ethernet = put s.ethernet port h }

-- CEthernetLayer::GetDestinAddress
abbrev pub get_destin_address : Stack → Port → Mac
get_destin_address s port = (sel s.ethernet port).enet_dstaddr

-- CEthernetLayer::SetSourceAddress
unfoldable pub set_source_address : Stack → Mac → Port → Stack
set_source_address s addr port =
    set_header s port (record (sel s.ethernet port) { enet_srcaddr = addr })

-- CEthernetLayer::SetDestinAddress
unfoldable pub set_destin_address : Stack → Mac → Port → Stack
set_destin_address s addr port =
    set_header s port (record (sel s.ethernet port) { enet_dstaddr = addr })

-- CEthernetLayer::SetType
unfoldable pub set_type : Stack → ℕ → Port → Stack
set_type s type port = set_header s port (record (sel s.ethernet port) { enet_type = type })

-- the length that CEthernetLayer::Send passes on
abbrev pub frame_length : ℕ → ℕ
frame_length nlength =
    if ltb ether_max_size (ether_header_size + nlength)
    then ether_max_size
    else ether_header_size + nlength

-- CEthernetLayer::Send: the payload is copied over the start of `enet_data`, and the header with
-- that much data goes down.
unfoldable pub send : Env → Stack → List ℕ → ℕ → Port → Result (Bool × Stack)
send env s payload nlength port = do
  content ← memcpy (sel s.ethernet port).enet_data payload nlength
  let h : EthernetHeader = record (sel s.ethernet port) { enet_data = content }
  ok (Ni.send env (set_header s port h) (take (frame_length nlength) (encode_ethernet h)) port)
