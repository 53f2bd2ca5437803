-- ===== src/Dialog/Select.antt =====
-- The choice of the adapters in CARPDlg (ARP/ARPDlg.cpp): OnCbnSelchangeComboAdapter and
-- OnCbnSelchangeComboAdapter2, which are one function of the port here, and OnBnClickedButtonSelect.
pub mod Chosen
pub mod Started
use arpwith_mfc.Base.{
  ℕ, ◌+◌, Bool, true, false, not, ◌&&◌, List, [], ◌∷◌, Option, none, some, Result, ok, ◌>>=◌,
  if◌then◌else◌,
}
use arpwith_mfc.Wire.Address.{Ip}
use arpwith_mfc.State.{Port, inner, outer, Both, sel, put, Stack, Env}
use arpwith_mfc.Ether
use arpwith_mfc.Ni.Adapters.{
  Pcap, Adapters, set_adapter, get_ip_address, receive_flip, default_edit_text,
}
use arpwith_mfc.Layers.Manager.{same_text}
use arpwith_mfc.Text.{mac_to_plain}
use arpwith_mfc.Dialog.{Controls, set_addr, garp_send}

-- CIPAddressCtrl: the address that a control holds after SetWindowText of a text, and the text that
-- GetWindowText then gives.
pub record AddressControl : Type 0 where
  pub shows : List ℕ → Ip
  pub window_text : Ip → List ℕ

-- The members of CARPDlg. A box where nothing is selected has no `cur_sel`. `threads` counts the calls
-- of AfxBeginThread.
pub record Window : Type 0 where
  pub stack : Stack
  pub adapters : Adapters
  pub controls : Controls
  pub hw_text : Both (List ℕ)
  pub cur_sel : Both (Option ℕ)
  pub address_enabled : Both Bool
  pub inner_adapter_enabled : Bool
  pub caption : List ℕ
  pub timer : Bool
  pub threads : ℕ

-- the value of INNER and of OUTER
abbrev pub number : Port → ℕ
number inner = 0
number outer = 1

-- The index that the loop of SetAdapter goes to; it makes no step at -1.
abbrev pub steps : Option ℕ → ℕ
steps none = 0
steps (some i) = i

-- the last two lines of OnCbnSelchangeComboAdapter
unfoldable pub show_adapter : AddressControl → Window → Port → List ℕ → List ℕ → Window
show_adapter control w port mac ipv4 = record w {
  hw_text = put w.hw_text port mac;
  controls = record (w.controls) {
    src_address = put w.controls.src_address port (control.shows ipv4);
  };
}

-- What the two handlers for a selected adapter do at their port.
unfoldable pub adapter_changed : Pcap → AddressControl → Window → Port → Result Window
unfolding show_adapter
adapter_changed pcap control w port = do
  (macaddr, a) ← set_adapter pcap w.adapters (steps (sel w.cur_sel port)) port
  elim macaddr [
    | none ↦ ok (show_adapter control (record w { adapters = a }) port default_edit_text [])
    | some mac ↦ do
      (ipv4, _) ← get_ip_address a (number port) (some port)
      ok (
          show_adapter control
            (record w { adapters = a; stack = Ether.set_source_address w.stack mac port }) port
            (mac_to_plain mac) ipv4)
  ]

-- CARPDlg::OnCbnSelchangeComboAdapter
abbrev pub outer_adapter_changed : Pcap → AddressControl → Window → Result Window
outer_adapter_changed pcap control w = adapter_changed pcap control w outer

-- CARPDlg::OnCbnSelchangeComboAdapter2
abbrev pub inner_adapter_changed : Pcap → AddressControl → Window → Result Window
inner_adapter_changed pcap control w = adapter_changed pcap control w inner

-- CARPDlg::GetADDRINFO: the texts of the two controls, and the octets of the address
unfoldable pub get_addr_info : AddressControl → Window → Port → List ℕ × List ℕ × Ip
get_addr_info control w port =
    let a = sel w.controls.src_address port in (sel w.hw_text port, control.window_text a, a)

-- CARPDlg::SetVisible
unfoldable pub set_visible : Window → Port → Bool → Window
set_visible w inner is_on = record w {
  inner_adapter_enabled = is_on;
  address_enabled = put w.address_enabled inner is_on;
}
set_visible w outer is_on = record w {
  controls = record (w.controls) { adapter_enabled = is_on };
  address_enabled = put w.address_enabled outer is_on;
}

-- `m_DstIPADDRESS.EnableWindow` and Receiveflip
unfoldable pub switch : Window → Bool → Window
switch w is_on = record w {
  controls = record (w.controls) { dst_enabled = is_on };
  adapters = receive_flip w.adapters;
}

-- `"0.0.0.0"`, `"Select"` and `"ReSelect"`
abbrev pub no_address : List ℕ
no_address = b'0' ∷ b'.' ∷ b'0' ∷ b'.' ∷ b'0' ∷ b'.' ∷ b'0' ∷ []

abbrev pub select_text : List ℕ
select_text = b'S' ∷ b'e' ∷ b'l' ∷ b'e' ∷ b'c' ∷ b't' ∷ []

abbrev pub reselect_text : List ℕ
reselect_text = b'R' ∷ b'e' ∷ b'S' ∷ b'e' ∷ b'l' ∷ b'e' ∷ b'c' ∷ b't' ∷ []

-- The branch of OnBnClickedButtonSelect that starts the program's work.
unfoldable pub start : Env → Window → List ℕ × List ℕ × Ip → List ℕ × List ℕ × Ip → Result Window
unfolding set_visible switch
start env w (imac, iip, isrc) (omac, oip, osrc) = do
  let u = switch (set_visible (set_visible w outer false) inner false) true
  let s = set_addr (set_addr u.stack imac iip isrc inner) omac oip osrc outer
  s' ← garp_send env s u.controls
  ok (record u { stack = s'; caption = reselect_text; timer = true; threads = u.threads + 2 })

-- The branch that ends it.
unfoldable pub stop : Window → Window
unfolding set_visible switch
stop w = record (switch (set_visible (set_visible w outer true) inner true) false) {
  caption = select_text;
  timer = false;
}

-- CARPDlg::OnBnClickedButtonSelect. The texts are read before the two boxes are handled again.
unfoldable pub select : Env → Pcap → AddressControl → Window → Result Window
unfolding adapter_changed get_addr_info start stop
select env pcap control w =
    if w.controls.adapter_enabled
    then (outer_adapter_changed pcap control w >>= λ v.
        inner_adapter_changed pcap control v >>= λ u.
        let i = get_addr_info control w inner in
        let o = get_addr_info control w outer in
        if not (same_text o.0 default_edit_text) && not (same_text o.1 no_address)
        then start env u i o
        else ok u)
    else ok (stop w)
