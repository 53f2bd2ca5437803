-- ===== src/Dialog/Select/Chosen.antt =====
-- What the choice of an adapter comes to.
use arpwith_mfc.Base.{ℕ, ◌≡◌, refl, sym, ap, ◌∙◌, some, ok, get_elem?}
use arpwith_mfc.Wire.Address.{Mac}
use arpwith_mfc.State.{Port, inner, outer, sel, sel-put_self, Stack}
use arpwith_mfc.Sized.{IsSized}
use arpwith_mfc.Ether
use arpwith_mfc.Ni.Adapters.{Device, Pcap, get_ip_address, ip_texts, default_edit_text}
use arpwith_mfc.Ni.Adapters.Queries.{selected, set_adapter-selected}
use arpwith_mfc.Text.{mac_to_plain}
use arpwith_mfc.Dialog.Select.{AddressControl, Window, number, show_adapter, adapter_changed}

pub set_source_address-IsSized :
    (s : Stack) (mac : Mac) (port : Port)
    → IsSized s
    → IsSized (Ether.set_source_address s mac port)
unfolding Ether.set_source_address
set_source_address-IsSized s mac inner v = record {
  ethernet_full = elim [ inner ↦ v.ethernet_full inner | outer ↦ v.ethernet_full outer ];
  ip_whole = v.ip_whole;
}
set_source_address-IsSized s mac outer v = record {
  ethernet_full = elim [ inner ↦ v.ethernet_full inner | outer ↦ v.ethernet_full outer ];
  ip_whole = v.ip_whole;
}

own_address :
    (s : Stack) (mac : Mac) (port : Port)
    → Ether.get_source_address (Ether.set_source_address s mac port) port ≡ mac
unfolding Ether.set_source_address
own_address s mac inner = refl
own_address s mac outer = refl

-- Where an adapter is chosen that pcap opens, its Ethernet address becomes the source of the frames and
-- is shown, and so is the last of its IPv4 addresses. The list of devices reaches to the number of the
-- port, and the buffers have the size of the structs, before the call and after it.
pub adapter_changed_lem :
    (pcap : Pcap) (control : AddressControl) (w : Window) (port : Port) (i h : ℕ) (d e : Device)
    → sel w.cur_sel port ≡ some i
    → get_elem? w.adapters.all_devices i ≡ some d
    → pcap.open_live d.name ≡ some h
    → get_elem? w.adapters.all_devices (number port) ≡ some e
    → IsSized w.stack
    → (w' : Window) × (adapter_changed pcap control w port ≡ ok w')
      × (Ether.get_source_address w'.stack port
          ≡ pcap.request d.name (sel w.adapters.oid_data port))
      × (sel w'.hw_text port ≡ mac_to_plain (Ether.get_source_address w'.stack port))
      × (sel w'.controls.src_address port
          ≡ control.shows (ip_texts d.addresses default_edit_text default_edit_text).0)
      × (w'.stack.arp ≡ w.stack.arp)
      × (w'.stack.sent ≡ w.stack.sent)
      × IsSized w'.stack
unfolding show_adapter Ether.set_source_address adapter_changed get_ip_address
adapter_changed_lem pcap control w port i h d e chosen listed opened reach v =
    let mac = pcap.request d.name (sel w.adapters.oid_data port) in
    let own = own_address w.stack mac port in
    (
      show_adapter control
          (record w {
            adapters = selected w.adapters i h mac port;
            stack = Ether.set_source_address w.stack mac port;
          })
          port (mac_to_plain mac) (ip_texts d.addresses default_edit_text default_edit_text).0,
      rw
          (
            adapter_changed,
            chosen,
            set_adapter-selected pcap w.adapters i h d port listed opened,
            get_ip_address,
            reach,
            sel-put_self w.adapters.device port (some i),
            listed,
          )
          refl,
      own,
      sel-put_self w.hw_text port _ ∙ ap mac_to_plain (sym own),
      sel-put_self w.controls.src_address port _,
      refl,
      refl,
      set_source_address-IsSized w.stack mac port v,
    )
