-- ===== src/Ni/Adapters.antt =====
-- The adapters of CNILayer (ARP/NILayer.cpp). The calls of pcap and Packet32 are parameters, `Pcap`.
-- A pointer into the list of devices is an index, and NULL is the length of the list or, in a member,
-- `none`.
pub mod Queries
use arpwith_mfc.Base.{
  ℕ, ◌<◌, ◌≡◌, ◌≢◌, refl, Bool, true, false, not, List, [], ◌∷◌, ◌++◌, Option, none, some, Result,
  ok, fault, ◌>>=◌, or_fault, if◌then◌else◌, ◌==◌, ltb, length, get_elem?, map,
}
use arpwith_mfc.Wire.Address.{Mac, fill_mac}
use arpwith_mfc.State.{Port, inner, outer, Both, sel, put, sel-put_self}

-- An address of a device: its family, and the text that inet_ntop makes of it.
pub record DeviceAddress : Type 0 where
  pub family : ℕ
  pub text : List ℕ

-- `pcap_if_t`
pub record Device : Type 0 where
  pub name : List ℕ
  pub description : List ℕ
  pub addresses : List DeviceAddress

-- pcap_open_live gives a handle or NULL, and PacketRequest puts the adapter's Ethernet address into
-- the data that it is given.
pub record Pcap : Type 0 where
  pub open_live : List ℕ → Option ℕ
  pub request : List ℕ → Mac → Mac

-- AF_INET and AF_INET6
abbrev pub af_inet : ℕ
af_inet = 2

abbrev pub af_inet6 : ℕ
af_inet6 = 23

-- the members of CNILayer
pub record Adapters : Type 0 where
  pub all_devices : List Device
  pub device : Both (Option ℕ)
  pub adapter_object : Both (Option ℕ)
  pub oid_data : Both Mac
  pub can_read : Bool

-- CNILayer::CNILayer, where pcap_findalldevs gives the devices and malloc the data
unfoldable pub init : List Device → Both Mac → Adapters
init devices found = record {
  all_devices = devices;
  device = record { at_inner = none; at_outer = none };
  adapter_object = record { at_inner = none; at_outer = none };
  oid_data = found;
  can_read = false;
}

-- The descriptions of the devices, which CNILayer::SetAdapterComboBox adds to a box.
unfoldable pub descriptions : List Device → List (List ℕ)
descriptions [] = []
descriptions (d ∷ ds) = d.description ∷ descriptions ds

-- CNILayer::GetMacAddressList
unfoldable pub get_mac_address_list : Adapters → List (List ℕ) → List (List ℕ)
unfolding descriptions
get_mac_address_list a adapterlist = adapterlist ++ descriptions a.all_devices

-- The last lines of CNILayer::SetAdapter, from the test of the handle on.
unfoldable pub request_address :
    Pcap → Adapters → Option Device → Port → Result (Option Mac × Adapters)
request_address pcap a d port = elim (sel a.adapter_object port) [
  | none ↦ ok (none, a)
  | some h ↦ elim d [
    | none ↦ fault
    | some dev ↦
        let got = pcap.request dev.name (sel a.oid_data port) in
        ok (some got, record a { oid_data = put a.oid_data port got })
  ]
]

-- CNILayer::SetAdapter, at an index from 0 on. The loop has no test for the end of the list.
unfoldable pub set_adapter : Pcap → Adapters → ℕ → Port → Result (Option Mac × Adapters)
unfolding request_address
set_adapter pcap a index port =
    if ltb (length a.all_devices) index then fault else elim (get_elem? a.all_devices index) [
      | none ↦ request_address pcap (record a { device = put a.device port none }) none port
      | some dev ↦
          request_address pcap
            (record a {
              device = put a.device port (some index);
              adapter_object = put a.adapter_object port (pcap.open_live dev.name);
            })
            (some dev) port
    ]

-- whether two pointers into the list of devices are the same
unfoldable pub same_device : Option ℕ → Option ℕ → Bool
same_device none none = true
same_device none (some j) = false
same_device (some i) none = false
same_device (some i) (some j) = i == j

-- CNILayer::GetMacAddress: the address that it copies, and what the data hold afterwards
unfoldable pub get_mac_address : Pcap → Adapters → ℕ → Port → Result (Mac × Adapters)
unfolding same_device
get_mac_address pcap a index port = elim (get_elem? a.all_devices index) [
  | none ↦ if same_device none (sel a.device port) then ok (sel a.oid_data port, a) else fault
  | some dev ↦
      if same_device (some index) (sel a.device port)
      then ok (sel a.oid_data port, a)
      else (let got = pcap.request dev.name (sel a.oid_data port) in
          ok (got, record a { oid_data = put a.oid_data port got }))
]

-- DEFAULT_EDIT_TEXT
abbrev pub default_edit_text : List ℕ
default_edit_text = b'-' ∷ []

-- The loop of CNILayer::GetIPAddress: the last address of each family, up to one of another family.
unfoldable pub ip_texts : List DeviceAddress → List ℕ → List ℕ → List ℕ × List ℕ
ip_texts [] v4 v6 = (v4, v6)
ip_texts (a ∷ rest) v4 v6 =
    if a.family == af_inet
    then ip_texts rest a.text v6
    else if a.family == af_inet6
    then ip_texts rest v4 a.text
    else (v4, v6)

-- CNILayer::GetIPAddress. The walk to the device of number `iosel` is made, and its addresses are
-- read, even where those of the selected device are asked for.
unfoldable pub get_ip_address : Adapters → ℕ → Option Port → Result (List ℕ × List ℕ)
unfolding ip_texts
get_ip_address a iosel selected = do
  d ← or_fault (get_elem? a.all_devices iosel)
  elim selected [
    | none ↦ ok (ip_texts d.addresses default_edit_text default_edit_text)
    | some port ↦ do
      i ← or_fault (sel a.device port)
      chosen ← or_fault (get_elem? a.all_devices i)
      ok (ip_texts chosen.addresses default_edit_text default_edit_text)
  ]

-- CNILayer::Receiveflip
unfoldable pub receive_flip : Adapters → Adapters
receive_flip a = record a { can_read = not a.can_read }
