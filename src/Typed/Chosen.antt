-- ===== src/Typed/Chosen.antt =====
-- The choice of the adapters keeps the types: SetAdapter, OnCbnSelchangeComboAdapter and SetADDR.
use arpwith_mfc.Base.{
  ℕ, inl, inr, List, [], Option, none, some, ok, ◌>>=◌, Leaves, Leaves-bind, Leaves-all,
  Option-cases, Bool-cases, ltb, length, get_elem?,
}
use arpwith_mfc.Wire.Address.{Ip, Mac}
use arpwith_mfc.State.{Port, sel, put, put-ind, Stack, with_arp}
use arpwith_mfc.Ether
use arpwith_mfc.Arp
use arpwith_mfc.Text.{mac_to_plain}
use arpwith_mfc.Ni.Adapters.{
  Device, Pcap, Adapters, set_adapter, request_address, get_ip_address, default_edit_text,
}
use arpwith_mfc.Dialog.{set_addr}
use arpwith_mfc.Dialog.Select.{AddressControl, Window, number, steps, show_adapter, adapter_changed}
use arpwith_mfc.Typed.{IsIp, IsMac, IsTyped, with_arp-IsTyped}
use arpwith_mfc.Typed.Sends.{set_header-IsTyped}
use arpwith_mfc.Typed.Packets.{set_source_address-IsTyped, set_destin_address-IsTyped}
use arpwith_mfc.Typed.Texts.{str_to_mac-IsMac, str_to_ip-IsIp}

-- PacketRequest writes octets, and CIPAddressCtrl holds octets.
abbrev pub PcapTyped : Pcap → Type 0
PcapTyped pcap = (name : List ℕ) (mac : Mac) → IsMac mac → IsMac (pcap.request name mac)

abbrev pub ControlTyped : AddressControl → Type 0
ControlTyped control = (text : List ℕ) → IsIp (control.shows text)

-- The layers, the addresses that the adapters gave and those in the controls.
pub record WindowTyped (w : Window) : Type 0 where
  pub layers_typed : IsTyped w.stack
  pub oid_typed : (p : Port) → IsMac (sel w.adapters.oid_data p)
  pub src_typed : (p : Port) → IsIp (sel w.controls.src_address p)
  pub dst_typed : IsIp w.controls.dst_address

-- What SetAdapter gives: an address of octets, if it gives one, and data of octets.
abbrev GivenTyped : Option Mac × Adapters → Type 0
GivenTyped (none, a) = (p : Port) → IsMac (sel a.oid_data p)
GivenTyped (some mac, a) = IsMac mac × ((p : Port) → IsMac (sel a.oid_data p))

request_address-GivenTyped :
    (pcap : Pcap) (a : Adapters) (d : Option Device) (port : Port)
    → PcapTyped pcap
    → ((p : Port) → IsMac (sel a.oid_data p))
    → Leaves GivenTyped (request_address pcap a d port)
unfolding request_address
request_address-GivenTyped pcap a none port y o = elim (Option-cases (sel a.adapter_object port)) [
  | inl e ↦ rw (request_address, e) o
  | inr (h, e) ↦ rw (request_address, e) tt
]
request_address-GivenTyped pcap a (some d) port y o =
    let got = y d.name (sel a.oid_data port) (o port) in
    elim (Option-cases (sel a.adapter_object port)) [
      | inl e ↦ rw (request_address, e) o
      | inr (h, e) ↦ rw (request_address, e) (got, put-ind IsMac a.oid_data port _ o got)
    ]

set_adapter-GivenTyped :
    (pcap : Pcap) (a : Adapters) (i : ℕ) (port : Port)
    → PcapTyped pcap
    → ((p : Port) → IsMac (sel a.oid_data p))
    → Leaves GivenTyped (set_adapter pcap a i port)
unfolding set_adapter
set_adapter-GivenTyped pcap a i port y o = elim (Bool-cases (ltb (length a.all_devices) i)) [
  | inl far ↦ rw far tt
  | inr near ↦ elim (Option-cases (get_elem? a.all_devices i)) [
    | inl e ↦
        rw (near, e)
          (request_address-GivenTyped pcap (record a { device = put a.device port none }) none port
            y o)
    | inr (d, e) ↦ rw (near, e) (request_address-GivenTyped pcap _ (some d) port y o)
  ]
]

show_adapter-WindowTyped :
    (control : AddressControl) (w : Window) (port : Port) (mac ip : List ℕ)
    → ControlTyped control
    → WindowTyped w
    → WindowTyped (show_adapter control w port mac ip)
unfolding show_adapter
show_adapter-WindowTyped control w port mac ip c v = record {
  layers_typed = v.layers_typed;
  oid_typed = v.oid_typed;
  src_typed = put-ind IsIp w.controls.src_address port _ v.src_typed (c ip);
  dst_typed = v.dst_typed;
}

source-IsTyped :
    (s : Stack) (mac : Mac) (port : Port)
    → IsMac mac
    → IsTyped s
    → IsTyped (Ether.set_source_address s mac port)
unfolding Ether.set_source_address
source-IsTyped s mac port m v =
    let t = v.ethernet_typed port in
    set_header-IsTyped s port _
      (record {
        dst_typed = t.dst_typed;
        src_typed = m;
        type_fits = t.type_fits;
        data_typed = t.data_typed;
      })
      v

pub adapter_changed-WindowTyped :
    (pcap : Pcap) (control : AddressControl) (w : Window) (port : Port)
    → PcapTyped pcap
    → ControlTyped control
    → WindowTyped w
    → Leaves WindowTyped (adapter_changed pcap control w port)
unfolding adapter_changed
adapter_changed-WindowTyped pcap control w port y c v =
    Leaves-bind GivenTyped WindowTyped
      (set_adapter pcap w.adapters (steps (sel w.cur_sel port)) port) _
      (set_adapter-GivenTyped pcap w.adapters (steps (sel w.cur_sel port)) port y v.oid_typed) shown
  where
    shown :
        (x : Option Mac × Adapters)
        → GivenTyped x
        → Leaves WindowTyped (elim x.0 [
          | none ↦ ok (show_adapter control (record w { adapters = x.1 }) port default_edit_text [])
          | some mac ↦ get_ip_address x.1 (number port) (some port) >>= λ t. ok (
              show_adapter control
                (record w { adapters = x.1; stack = Ether.set_source_address w.stack mac port })
                port
                (mac_to_plain mac)
                t.0)
        ])
    shown (none, a) o =
        show_adapter-WindowTyped control (record w { adapters = a }) port default_edit_text [] c
          (record {
            layers_typed = v.layers_typed;
            oid_typed = o;
            src_typed = v.src_typed;
            dst_typed = v.dst_typed;
          })
    shown (some mac, a) (m, o) =
        Leaves-bind (λ _. Unit {0}) WindowTyped (get_ip_address a (number port) (some port)) _
          (Leaves-all (λ _. Unit {0}) _ (λ _. tt))
          (λ t _.
            show_adapter-WindowTyped control
              (record w { adapters = a; stack = Ether.set_source_address w.stack mac port }) port
              (mac_to_plain mac) t.0 c
              (record {
                layers_typed = source-IsTyped w.stack mac port m v.layers_typed;
                oid_typed = o;
                src_typed = v.src_typed;
                dst_typed = v.dst_typed;
              }))

-- The addresses that the user chose become the layers' own.
my_addr-IsTyped :
    (s : Stack) (mac ip : List ℕ) (port : Port)
    → IsTyped s
    → IsTyped (with_arp s (Arp.set_my_addr s.arp mac ip port))
unfolding Arp.set_my_addr
my_addr-IsTyped s mac ip port v =
    let l = v.arp_typed in
    with_arp-IsTyped s _
      (record {
        myip_typed =
            put-ind IsIp s.arp.myip port _ l.myip_typed
              (str_to_ip-IsIp (sel s.arp.myip port) ip (l.myip_typed port));
        mymac_typed =
            put-ind IsMac s.arp.mymac port _ l.mymac_typed
              (str_to_mac-IsMac (sel s.arp.mymac port) mac (l.mymac_typed port));
        headers_typed = l.headers_typed;
        nodes_typed = l.nodes_typed;
        proxies_typed = l.proxies_typed;
      })
      v

pub set_addr-IsTyped :
    (s : Stack) (mac ip : List ℕ) (a : Ip) (port : Port)
    → IsIp a
    → IsTyped s
    → IsTyped (set_addr s mac ip a port)
unfolding set_addr
set_addr-IsTyped s mac ip a port i v =
    set_destin_address-IsTyped _ a port i
      (set_source_address-IsTyped _ a port i (my_addr-IsTyped s mac ip port v))
