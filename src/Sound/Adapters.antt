-- ===== src/Sound/Adapters.antt =====
-- The invariant of the dialog, and what choosing an adapter does to it.
use arpwith_mfc.Base.{
  ℕ, ◌≡◌, refl, ◌∙◌, not, List, [], Option, none, some, ok, ◌>>=◌, Option-cases, Bool-cases, inl,
  inr, ltb, length, get_elem?, Leaves, Leaves-bind, Leaves-all,
}
use arpwith_mfc.Wire.Address.{Mac}
use arpwith_mfc.State.{Port, sel, put, Stack}
use arpwith_mfc.Ether
use arpwith_mfc.Ni.Adapters.{
  Device, Pcap, Adapters, set_adapter, request_address, get_ip_address, default_edit_text,
}
use arpwith_mfc.Text.{mac_to_plain}
use arpwith_mfc.Dialog.Select.{AddressControl, Window, number, steps, show_adapter, adapter_changed}
use arpwith_mfc.Dialog.Select.Chosen.{set_source_address-IsSized}
use arpwith_mfc.Sound.{IsSound}

-- The layers are sound. The adapters are read, the timer runs and a destination can be put in just where
-- the adapters are chosen, and there the four controls for the choice are disabled.
pub record IsConsistent (w : Window) : Type 0 where
  pub layers : IsSound w.stack
  pub reading : w.adapters.can_read ≡ not w.controls.adapter_enabled
  pub timing : w.timer ≡ not w.controls.adapter_enabled
  pub destination : w.controls.dst_enabled ≡ not w.controls.adapter_enabled
  pub inner_box : w.inner_adapter_enabled ≡ w.controls.adapter_enabled
  pub inner_address : w.address_enabled.at_inner ≡ w.controls.adapter_enabled
  pub outer_address : w.address_enabled.at_outer ≡ w.controls.adapter_enabled

requested :
    (pcap : Pcap) (a : Adapters) (d : Option Device) (port : Port)
    → Leaves (λ x. x.1.can_read ≡ a.can_read) (request_address pcap a d port)
unfolding request_address
requested pcap a none port = elim (Option-cases (sel a.adapter_object port)) [
  | inl e ↦ rw (request_address, e) refl
  | inr (h, e) ↦ rw (request_address, e) tt
]
requested pcap a (some d) port = elim (Option-cases (sel a.adapter_object port)) [
  | inl e ↦ rw (request_address, e) refl
  | inr (h, e) ↦ rw (request_address, e) refl
]

-- SetAdapter leaves the switch for reading alone.
set_adapter-can_read :
    (pcap : Pcap) (a : Adapters) (i : ℕ) (port : Port)
    → Leaves (λ x. x.1.can_read ≡ a.can_read) (set_adapter pcap a i port)
unfolding set_adapter
set_adapter-can_read pcap a i port = elim (Bool-cases (ltb (length a.all_devices) i)) [
  | inl y ↦ rw y tt
  | inr n ↦ elim (Option-cases (get_elem? a.all_devices i)) [
    | inl e ↦ rw (n, e) (requested pcap (record a { device = put a.device port none }) none port)
    | inr (d, e) ↦ rw (n, e) (requested pcap _ (some d) port)
  ]
]

-- The choice of an adapter keeps the invariant, and it enables or disables nothing.
abbrev pub Alike : Window → Window → Type 0
Alike w u = IsConsistent u × (u.controls.adapter_enabled ≡ w.controls.adapter_enabled)

changed-Alike :
    (control : AddressControl) (w : Window) (a : Adapters) (s : Stack) (port : Port)
    (mac ip : List ℕ)
    → IsConsistent w
    → IsSound s
    → a.can_read ≡ w.adapters.can_read
    → Alike w (show_adapter control (record w { adapters = a; stack = s }) port mac ip)
unfolding show_adapter
changed-Alike control w a s port mac ip v u r = (
  record {
    layers = u;
    reading = r ∙ v.reading;
    timing = v.timing;
    destination = v.destination;
    inner_box = v.inner_box;
    inner_address = v.inner_address;
    outer_address = v.outer_address;
  },
  refl,
)

set_source_address-IsSound :
    (s : Stack) (mac : Mac) (port : Port)
    → IsSound s
    → IsSound (Ether.set_source_address s mac port)
unfolding Ether.set_source_address
set_source_address-IsSound s mac port v = record {
  sized = set_source_address-IsSized s mac port v.sized;
  named = v.named;
}

pub adapter_changed-Alike :
    (pcap : Pcap) (control : AddressControl) (w : Window) (port : Port)
    → IsConsistent w
    → Leaves (Alike w) (adapter_changed pcap control w port)
unfolding adapter_changed
adapter_changed-Alike pcap control w port v =
    Leaves-bind (λ x. x.1.can_read ≡ w.adapters.can_read) (Alike w)
      (set_adapter pcap w.adapters (steps (sel w.cur_sel port)) port) _
      (set_adapter-can_read pcap w.adapters (steps (sel w.cur_sel port)) port) shown
  where
    shown :
        (x : Option Mac × Adapters)
        → x.1.can_read ≡ w.adapters.can_read
        → Leaves (Alike w) (elim x.0 [
          | none ↦ ok (show_adapter control (record w { adapters = x.1 }) port default_edit_text [])
          | some mac ↦ get_ip_address x.1 (number port) (some port) >>= λ t. ok (
              show_adapter control
                (record w { adapters = x.1; stack = Ether.set_source_address w.stack mac port })
                port
                (mac_to_plain mac)
                t.0)
        ])
    shown (none, a) r = changed-Alike control w a w.stack port default_edit_text [] v v.layers r
    shown (some mac, a) r =
        Leaves-bind (λ _. Unit {0}) (Alike w) (get_ip_address a (number port) (some port)) _
          (Leaves-all (λ _. Unit {0}) _ (λ _. tt))
          (λ t _.
            changed-Alike control w a (Ether.set_source_address w.stack mac port) port
              (mac_to_plain mac) t.0 v (set_source_address-IsSound w.stack mac port v.layers) r)
