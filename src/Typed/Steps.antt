-- ===== src/Typed/Steps.antt =====
-- The steps of the layers keep the types, and the constructors make typed layers.
use arpwith_mfc.Base.{ℕ, ◌<◌, sym, Leaves, Leaves-ok, arith}
use mathlib.Core.Path.{subst}
use arpwith_mfc.Wire.Address.{fill_ip, fill_mac}
use arpwith_mfc.Wire.Formats.{
  IpHeader, ether_max_data_size, ip_max_data_size, arp_enet_type, arp_ip_type,
}
use arpwith_mfc.State.{Port, sel, inner, outer, Stack}
use arpwith_mfc.Ether
use arpwith_mfc.Arp
use arpwith_mfc.IpLayer
use arpwith_mfc.Start.{Found, new_layers}
use arpwith_mfc.Sound.Reach.{
  Step, frame, gratuitous, request, tick, forget, clear, proxied, unproxied, routed,
}
use arpwith_mfc.Typed.{
  IsIp, IsMac, EthernetTyped, ArpTyped, IpTyped, NumbersFit, IsTyped, KeptTyped, WaitsTyped,
}
use arpwith_mfc.Typed.Bytes.{Octets, All-replicate}
use arpwith_mfc.Typed.Receives.{ni_receive-KeptTyped}
use arpwith_mfc.Typed.Handlers.{
  ControlsTyped, garp_send-IsTyped, send_arp-IsTyped, on_timer-IsTyped, item_del-IsTyped,
  all_del-IsTyped, device_ok-IsTyped, delete_selected-IsTyped, routing_entry_ok-IsTyped,
}

-- What comes in with the step is typed: the frame, the addresses in the controls and dialogs, and what
-- goes on during a wait. Texts may be any.
abbrev pub StepTyped : {s t : Stack} → Step s t → Type 0
StepTyped (frame env pkt port done w l e) = WaitsTyped env × Octets pkt
StepTyped (gratuitous env c e) = ControlsTyped c
StepTyped (request env c e) = ControlsTyped c
StepTyped (tick env e) = Unit
StepTyped (forget text e) = Unit
StepTyped (clear e) = Unit
StepTyped (proxied mac ip text e) = IsMac mac × IsIp ip
StepTyped (unproxied row e) = Unit
StepTyped (routed dst mask gateway up via host k h e) = IsIp dst × (IsIp mask × IsIp gateway)

pub Step-IsTyped : (s t : Stack) (st : Step s t) → StepTyped st → IsTyped s → IsTyped t
Step-IsTyped s t (frame env pkt port done w l e) (u, o) v =
    Leaves-ok KeptTyped _ (done, t) (ni_receive-KeptTyped env s pkt port u o v) e
Step-IsTyped s t (gratuitous env c e) u v = Leaves-ok IsTyped _ t (garp_send-IsTyped env s c u v) e
Step-IsTyped s t (request env c e) u v = Leaves-ok IsTyped _ t (send_arp-IsTyped env s c u v) e
Step-IsTyped s t (tick env e) u v = subst IsTyped (sym e) (on_timer-IsTyped env s v)
Step-IsTyped s t (forget text e) u v = Leaves-ok IsTyped _ t (item_del-IsTyped s text v) e
Step-IsTyped s t (clear e) u v = subst IsTyped (sym e) (all_del-IsTyped s v)
Step-IsTyped s t (proxied mac ip text e) (m, i) v =
    subst IsTyped (sym e) (device_ok-IsTyped s mac ip text m i v)
Step-IsTyped s t (unproxied row e) u v = Leaves-ok IsTyped _ t (delete_selected-IsTyped s row v) e
Step-IsTyped s t (routed dst mask gateway up via host k h e) (d, (m, g)) v =
    subst IsTyped (sym e)
      (routing_entry_ok-IsTyped s dst mask gateway up via host k d m g (omega arith) v)

-- the memory that the constructors leave alone
pub record FoundTyped (found : Found) : Type 0 where
  pub ip_found : IsIp found.ip
  pub mac_found : IsMac found.mac
  pub numbers_found : (p : Port) → NumbersFit (sel found.headers p)

zero-IsMac : IsMac (fill_mac 0)
zero-IsMac = omega arith

zero-IsIp : IsIp (fill_ip 0)
zero-IsIp = omega arith

reset_ethernet-EthernetTyped : EthernetTyped Ether.reset_header
unfolding Ether.reset_header
reset_ethernet-EthernetTyped = record {
  dst_typed = zero-IsMac;
  src_typed = zero-IsMac;
  type_fits = omega arith;
  data_typed = All-replicate {A = ℕ} (λ x. x < 256) ether_max_data_size 0 (omega arith);
}

-- what setType leaves of a new header
set_header-ArpTyped : ArpTyped (record (Arp.blank_header) {
  hardware_type = arp_enet_type;
  protocol_type = arp_ip_type;
  hardware_length = 6;
  protocol_length = 4;
})
unfolding Arp.blank_header
set_header-ArpTyped = record {
  fits = omega arith;
  hardware_length_fits = omega arith;
  protocol_length_fits = omega arith;
  hardware_src_typed = zero-IsMac;
  protocol_src_typed = zero-IsIp;
  hardware_dst_typed = zero-IsMac;
  protocol_dst_typed = zero-IsIp;
}

reset_ip-IpTyped : (h : IpHeader) → NumbersFit h → IpTyped (IpLayer.reset_header h)
unfolding IpLayer.reset_header
reset_ip-IpTyped h n = record {
  numbers_fit = n;
  ip_src_typed = zero-IsIp;
  ip_dst_typed = zero-IsIp;
  ip_data_typed = All-replicate {A = ℕ} (λ x. x < 256) ip_max_data_size 0 (omega arith);
}

pub new_layers-IsTyped : (found : Found) → FoundTyped found → Leaves IsTyped (new_layers found)
unfolding new_layers Arp.init Arp.set_type Arp.blank_header Ether.init IpLayer.init
new_layers-IsTyped found f = record {
  ethernet_typed = elim [
    | inner ↦ reset_ethernet-EthernetTyped
    | outer ↦ reset_ethernet-EthernetTyped
  ];
  arp_typed = record {
    myip_typed = elim [ inner ↦ zero-IsIp | outer ↦ f.ip_found ];
    mymac_typed = elim [ inner ↦ zero-IsMac | outer ↦ f.mac_found ];
    headers_typed = elim [ inner ↦ set_header-ArpTyped | outer ↦ set_header-ArpTyped ];
    nodes_typed = tt;
    proxies_typed = tt;
  };
  ip_typed = elim [
    | inner ↦ reset_ip-IpTyped found.headers.at_inner (f.numbers_found inner)
    | outer ↦ reset_ip-IpTyped found.headers.at_outer (f.numbers_found outer)
  ];
  routes_typed = tt;
  sent_typed = tt;
}
