-- ===== src/Typed/Windows.antt =====
-- The types over all that the dialog goes through.
use arpwith_mfc.Base.{
  ℕ, ◌≡◌, sym, inl, inr, not, ◌&&◌, List, ok, Bool-cases, if◌then◌else◌, Leaves, Leaves-bind,
  Leaves-ok,
}
use mathlib.Core.Path.{subst}
use arpwith_mfc.Wire.Address.{Ip, Mac}
use arpwith_mfc.State.{Port, inner, outer, Both, sel, Stack, Env}
use arpwith_mfc.Layers.Manager.{same_text}
use arpwith_mfc.Ni.Adapters
use arpwith_mfc.Ni.Adapters.{Device, Pcap, receive_flip, default_edit_text}
use arpwith_mfc.Dialog.{garp_send}
use arpwith_mfc.Dialog.Select.{
  AddressControl, Window, adapter_changed, get_addr_info, set_visible, switch, start, stop, select,
  no_address,
}
use arpwith_mfc.Start.{Found, new_layers, new_window}
use arpwith_mfc.Sound.Windows.{Event, works, typed, chosen, selected, Run, begin, after}
use arpwith_mfc.Typed.{IsIp, IsMac, IsTyped}
use arpwith_mfc.Typed.Handlers.{garp_send-IsTyped}
use arpwith_mfc.Typed.Steps.{StepTyped, Step-IsTyped, FoundTyped, new_layers-IsTyped}
use arpwith_mfc.Typed.Chosen.{
  PcapTyped, ControlTyped, WindowTyped, adapter_changed-WindowTyped, set_addr-IsTyped,
}

start-WindowTyped :
    (env : Env) (w : Window) (i o : List ℕ × List ℕ × Ip)
    → IsIp i.2
    → IsIp o.2
    → WindowTyped w
    → Leaves WindowTyped (start env w i o)
unfolding start set_visible switch receive_flip
start-WindowTyped env w (imac, iip, isrc) (omac, oip, osrc) ti to v =
    Leaves-bind IsTyped WindowTyped (garp_send env _ _) _
      (garp_send-IsTyped env _ _
        (record {
          inner_typed = v.src_typed inner;
          outer_typed = v.src_typed outer;
          asked_typed = v.dst_typed;
        })
        (set_addr-IsTyped _ omac oip osrc outer to
          (set_addr-IsTyped w.stack imac iip isrc inner ti v.layers_typed)))
      (λ s u. record {
        layers_typed = u;
        oid_typed = v.oid_typed;
        src_typed = v.src_typed;
        dst_typed = v.dst_typed;
      })

stop-WindowTyped : (w : Window) → WindowTyped w → WindowTyped (stop w)
unfolding stop set_visible switch receive_flip
stop-WindowTyped w v = record {
  layers_typed = v.layers_typed;
  oid_typed = v.oid_typed;
  src_typed = v.src_typed;
  dst_typed = v.dst_typed;
}

select-WindowTyped :
    (env : Env) (pcap : Pcap) (control : AddressControl) (w : Window)
    → PcapTyped pcap
    → ControlTyped control
    → WindowTyped w
    → Leaves WindowTyped (select env pcap control w)
unfolding select get_addr_info
select-WindowTyped env pcap control w y c v = elim (Bool-cases w.controls.adapter_enabled) [
  | inr off ↦ rw off (stop-WindowTyped w v)
  | inl on ↦ rw on (
      Leaves-bind WindowTyped WindowTyped (adapter_changed pcap control w outer) _
        (adapter_changed-WindowTyped pcap control w outer y c v)
        (λ u a.
          Leaves-bind WindowTyped WindowTyped (adapter_changed pcap control u inner) _
            (adapter_changed-WindowTyped pcap control u inner y c a) started))
]
  where
    started :
        (t : Window)
        → WindowTyped t
        → Leaves WindowTyped (
            let i = get_addr_info control w inner in
            let o = get_addr_info control w outer in
            if not (same_text o.0 default_edit_text) && not (same_text o.1 no_address)
            then start env t i o
            else ok t)
    started t d =
        let o = get_addr_info control w outer in
        elim (Bool-cases
          (not (same_text o.0 default_edit_text) && not (same_text o.1 no_address))) [
            | inl all ↦ rw all (
                start-WindowTyped env t (get_addr_info control w inner) o (v.src_typed inner)
                  (v.src_typed outer) d)
            | inr none_given ↦ rw none_given d
          ]

-- What comes in with the event is typed.
abbrev pub EventTyped : {w v : Window} → Event w v → Type 0
EventTyped (works t st e) = StepTyped st
EventTyped (typed src dst boxes e) = ((p : Port) → IsIp (sel src p)) × IsIp dst
EventTyped (chosen pcap control port e) = PcapTyped pcap × ControlTyped control
EventTyped (selected env pcap control e) = PcapTyped pcap × ControlTyped control

abbrev pub RunTyped : {w v : Window} → Run w v → Type 0
RunTyped begin = Unit
RunTyped (after r ev) = RunTyped r × EventTyped ev

Event-WindowTyped : (w u : Window) (ev : Event w u) → EventTyped ev → WindowTyped w → WindowTyped u
Event-WindowTyped w u (works t st e) i v = subst WindowTyped (sym e) (record {
  layers_typed = Step-IsTyped w.stack t st i v.layers_typed;
  oid_typed = v.oid_typed;
  src_typed = v.src_typed;
  dst_typed = v.dst_typed;
})
Event-WindowTyped w u (typed src dst boxes e) (i, j) v = subst WindowTyped (sym e) (record {
  layers_typed = v.layers_typed;
  oid_typed = v.oid_typed;
  src_typed = i;
  dst_typed = j;
})
Event-WindowTyped w u (chosen pcap control port e) (y, c) v =
    Leaves-ok WindowTyped _ u (adapter_changed-WindowTyped pcap control w port y c v) e
Event-WindowTyped w u (selected env pcap control e) (y, c) v =
    Leaves-ok WindowTyped _ u (select-WindowTyped env pcap control w y c v) e

Run-WindowTyped : {w u : Window} (r : Run w u) → RunTyped r → WindowTyped w → WindowTyped u
Run-WindowTyped begin i v = v
Run-WindowTyped (after r ev) (i, j) v = Event-WindowTyped _ _ ev j (Run-WindowTyped r i v)

-- In every state that the dialog comes to from its start, by frames of octets, by its handlers and by
-- addresses of octets that the user puts in, all that the layers hold but the times has the width of its
-- C++ type: the octets of addresses, buffers and frames sent, all fields of the Ethernet, ARP and IP
-- headers, the addresses that the adapters gave, and the flags and interfaces of routes; the status of a node is one of the three. So none of these
-- numbers leaves the range that its type has, also where the model does not wrap it around. What goes on
-- during a wait keeps this, PacketRequest and CIPAddressCtrl give octets, what the constructors find in
-- memory fits too, and texts may be any.
pub window-IsTyped :
    (found : Found) (s : Stack) (devices : List Device) (oid : Both Mac) (src : Both Ip) (dst : Ip)
    (w : Window) (r : Run (new_window s devices oid src dst) w)
    → FoundTyped found
    → ((p : Port) → IsMac (sel oid p))
    → ((p : Port) → IsIp (sel src p))
    → IsIp dst
    → new_layers found ≡ ok s
    → RunTyped r
    → IsTyped w.stack × ((p : Port) → IsMac (sel w.adapters.oid_data p))
unfolding new_window Adapters.init
window-IsTyped found s devices oid src dst w r f m i d e t =
    let v = Run-WindowTyped r t (record {
      layers_typed = Leaves-ok IsTyped (new_layers found) s (new_layers-IsTyped found f) e;
      oid_typed = m;
      src_typed = i;
      dst_typed = d;
    }) in
    (v.layers_typed, v.oid_typed)
