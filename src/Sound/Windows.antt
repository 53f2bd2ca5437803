-- ===== src/Sound/Windows.antt =====
-- What the dialog goes through, with its layers: frames, the user's input, the choice of the adapters.
use arpwith_mfc.Base.{
  ℕ, ◌≢◌, some, fault, length, Safe-ne-fault, ◌≡◌, refl, sym, ap, ◌∙◌, true, false, not, ◌&&◌, List,
  Option, ok, Bool-cases, inl, inr, if◌then◌else◌, Leaves, Leaves-bind, Leaves-ok, Safe-Leaves,
}
use mathlib.Core.Path.{subst}
use arpwith_mfc.Wire.Address.{Ip, Mac}
use arpwith_mfc.State.{Port, inner, outer, Both, Stack, Env}
use arpwith_mfc.IpLayer
use arpwith_mfc.Layers.Manager.{same_text}
use arpwith_mfc.Ni.Adapters
use arpwith_mfc.Ni.Adapters.{
  Device, Pcap, Adapters, set_adapter, request_address, get_ip_address, receive_flip,
  default_edit_text,
}
use arpwith_mfc.Wire.Formats.{ether_max_size}
use arpwith_mfc.Ether.Receive.{ni_receive}
use arpwith_mfc.Dialog.{set_addr, garp_send, send_arp}
use arpwith_mfc.Dialog.Requests.{set_addr-IsSized}
use arpwith_mfc.Dialog.Select.{
  AddressControl, Window, adapter_changed, get_addr_info, set_visible, switch, start, stop, select,
  no_address,
}
use arpwith_mfc.Start.{Found, new_layers, new_window}
use arpwith_mfc.Sound.{IsSound, Kept, Waits}
use arpwith_mfc.Sound.Frames.{ni_receive-Safe}
use arpwith_mfc.Sound.Adapters.{IsConsistent, Alike, adapter_changed-Alike}
use arpwith_mfc.Sound.Buttons.{garp_send-Safe, send_arp-Safe}
use arpwith_mfc.Sound.Reach.{Step, Step-IsSound, new_layers-IsSound}

set_addr-IsSound :
    (s : Stack) (mac ip : List ℕ) (a : Ip) (port : Port)
    → IsSound s
    → IsSound (set_addr s mac ip a port)
unfolding set_addr IpLayer.set_source_address IpLayer.set_destin_address
set_addr-IsSound s mac ip a port v = record {
  sized = set_addr-IsSized s mac ip a port v.sized;
  named = v.named;
}

-- The button switches between the two states that the invariant allows.
start-IsConsistent :
    (env : Env) (w : Window) (i o : List ℕ × List ℕ × Ip)
    → IsConsistent w
    → w.controls.adapter_enabled ≡ true
    → Leaves IsConsistent (start env w i o)
unfolding start set_visible switch receive_flip
start-IsConsistent env w (imac, iip, isrc) (omac, oip, osrc) v on =
    Leaves-bind IsSound IsConsistent (garp_send env _ _) _
      (Safe-Leaves IsSound _ (
        garp_send-Safe env _ _ (
          set_addr-IsSound _ omac oip osrc outer
            (set_addr-IsSound w.stack imac iip isrc inner v.layers))))
      (λ s u. record {
        layers = u;
        reading = ap not (v.reading ∙ ap not on);
        timing = refl;
        destination = refl;
        inner_box = refl;
        inner_address = refl;
        outer_address = refl;
      })

stop-IsConsistent :
    (w : Window) → IsConsistent w → w.controls.adapter_enabled ≡ false → IsConsistent (stop w)
unfolding stop set_visible switch receive_flip
stop-IsConsistent w v off = record {
  layers = v.layers;
  reading = ap not (v.reading ∙ ap not off);
  timing = refl;
  destination = refl;
  inner_box = refl;
  inner_address = refl;
  outer_address = refl;
}

select-IsConsistent :
    (env : Env) (pcap : Pcap) (control : AddressControl) (w : Window)
    → IsConsistent w
    → Leaves IsConsistent (select env pcap control w)
unfolding select
select-IsConsistent env pcap control w v = elim (Bool-cases w.controls.adapter_enabled) [
  | inr off ↦ rw off (stop-IsConsistent w v off)
  | inl on ↦ rw on (
      Leaves-bind (Alike w) IsConsistent (adapter_changed pcap control w outer) _
        (adapter_changed-Alike pcap control w outer v)
        (λ u (c, e).
          Leaves-bind (Alike u) IsConsistent (adapter_changed pcap control u inner) _
            (adapter_changed-Alike pcap control u inner c) (λ t (d, f). started t d (f ∙ e ∙ on))))
]
  where
    started :
        (t : Window)
        → IsConsistent t
        → t.controls.adapter_enabled ≡ true
        → Leaves IsConsistent (
            let i = get_addr_info control w inner in
            let o = get_addr_info control w outer in
            if not (same_text o.0 default_edit_text) && not (same_text o.1 no_address)
            then start env t i o
            else ok t)
    started t d on =
        let o = get_addr_info control w outer in
        elim (Bool-cases
          (not (same_text o.0 default_edit_text) && not (same_text o.1 no_address))) [
            | inl y ↦ rw y (start-IsConsistent env t (get_addr_info control w inner) o d on)
            | inr n ↦ rw n d
          ]

-- One step of the dialog: its layers go on, the user types an address or selects an adapter in a box, or
-- one of the three handlers for the choice of the adapters returns.
pub data Event (w v : Window) : Type 0 where
  works : (t : Stack) → Step w.stack t → v ≡ record w { stack = t } → Event w v
  typed :
      (src : Both Ip) (dst : Ip) (boxes : Both (Option ℕ))
      → v ≡ record w {
        controls = record (w.controls) { src_address = src; dst_address = dst };
        cur_sel = boxes;
      }
      → Event w v
  chosen :
      (pcap : Pcap) (control : AddressControl) (port : Port)
      → adapter_changed pcap control w port ≡ ok v
      → Event w v
  selected :
      (env : Env) (pcap : Pcap) (control : AddressControl)
      → select env pcap control w ≡ ok v
      → Event w v

pub data Run (w : Window) : Window → Type 0 where
  begin : Run w w
  after : {v u : Window} → Run w v → Event v u → Run w u

Event-IsConsistent : (w v : Window) → Event w v → IsConsistent w → IsConsistent v
Event-IsConsistent w v (works t st e) c = subst IsConsistent (sym e) (record {
  layers = Step-IsSound w.stack t st c.layers;
  reading = c.reading;
  timing = c.timing;
  destination = c.destination;
  inner_box = c.inner_box;
  inner_address = c.inner_address;
  outer_address = c.outer_address;
})
Event-IsConsistent w v (typed src dst boxes e) c = subst IsConsistent (sym e) (record {
  layers = c.layers;
  reading = c.reading;
  timing = c.timing;
  destination = c.destination;
  inner_box = c.inner_box;
  inner_address = c.inner_address;
  outer_address = c.outer_address;
})
Event-IsConsistent w v (chosen pcap control port e) c =
    (Leaves-ok (Alike w) _ v (adapter_changed-Alike pcap control w port c) e).0
Event-IsConsistent w v (selected env pcap control e) c =
    Leaves-ok IsConsistent _ v (select-IsConsistent env pcap control w c) e

-- In every state that the dialog comes to from its start, by frames, by its handlers and by the user's
-- input, the adapters are read and the timer runs just where the controls for the choice of the adapters
-- are disabled and the one for the destination is enabled. The invariant of the layers holds there too.
pub window-IsConsistent :
    (found : Found) (s : Stack) (devices : List Device) (oid : Both Mac) (src : Both Ip) (dst : Ip)
    (w : Window)
    → new_layers found ≡ ok s
    → Run (new_window s devices oid src dst) w
    → IsConsistent w
unfolding new_window Adapters.init
window-IsConsistent found s devices oid src dst w e begin =
    let (u, made, v) = new_layers-IsSound found in
    record {
      layers = Leaves-ok IsSound (new_layers found) s (subst (Leaves IsSound) (sym made) v) e;
      reading = refl;
      timing = refl;
      destination = refl;
      inner_box = refl;
      inner_address = refl;
      outer_address = refl;
    }
window-IsConsistent found s devices oid src dst w e (after r ev) =
    Event-IsConsistent _ w ev (window-IsConsistent found s devices oid src dst _ e r)

-- In every state that the dialog comes to from its start, by frames, by its handlers, the choice of the
-- adapters among them, and by the user's input, the invariant of the layers holds, no frame of 1514 bytes
-- that comes in accesses memory out of bounds, and neither do the two buttons that send requests for the
-- addresses in the controls, if what goes on during a wait keeps the invariant.
pub window_safe :
    (found : Found) (s : Stack) (devices : List Device) (oid : Both Mac) (src : Both Ip) (dst : Ip)
    (w : Window) (env : Env) (pkt : List ℕ) (port : Port)
    → new_layers found ≡ ok s
    → Run (new_window s devices oid src dst) w
    → Waits env
    → length pkt ≡ ether_max_size
    → IsSound w.stack
      × (ni_receive env w.stack (some pkt) port ≢ fault)
      × (garp_send env w.stack w.controls ≢ fault)
      × (send_arp env w.stack w.controls ≢ fault)
window_safe found s devices oid src dst w env pkt port e r waits l =
    let v = (window-IsConsistent found s devices oid src dst w e r).layers in
    (
      v,
      Safe-ne-fault Kept _ (ni_receive-Safe env w.stack pkt port v waits l),
      Safe-ne-fault IsSound _ (garp_send-Safe env w.stack w.controls v),
      Safe-ne-fault IsSound _ (send_arp-Safe env w.stack w.controls v),
    )
