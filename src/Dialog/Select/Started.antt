-- ===== src/Dialog/Select/Started.antt =====
-- What the button `Select` comes to where it starts the program's work.
use arpwith_mfc.Base.{
  ℕ, ◌/◌, ◌<◌, ◌+◌, ◌≡◌, ◌≢◌, refl, sym, subst, ◌∙◌, true, false, not, [], ◌∷◌, ◌++◌, ok, All,
  Bool-cases, inl, inr, ◌==◌, ltb, arith,
}
use arpwith_mfc.Wire.Address.{Ip, Mac, ip_bytes, mac_bytes, fill_ip}
use arpwith_mfc.State.{inner, outer, Stack, Env}
use arpwith_mfc.Sized.{IsSized}
use arpwith_mfc.Arp
use arpwith_mfc.IpLayer
use arpwith_mfc.Ni.Adapters.{Pcap, receive_flip, default_edit_text}
use arpwith_mfc.Layers.Manager.{same_text}
use arpwith_mfc.Text.{
  ip_to_str, mac_to_plain, print_fields, print_plain_hex, print_hex, hex_digit, print_decimal,
}
use arpwith_mfc.Text.Same.{same_text-eq, ip_to_str-injective, str_to_ip-whole, str_to_mac-whole}
use arpwith_mfc.Dialog.{set_addr}
use arpwith_mfc.Dialog.Requests.{garp_frame, set_addr-IsSized}
use arpwith_mfc.Dialog.Buttons.{garp_send_lem}
use arpwith_mfc.Dialog.Select.{
  AddressControl, Window, adapter_changed, get_addr_info, set_visible, switch, start, select,
  no_address, reselect_text,
}

hex_digit-dash : (d : ℕ) → (hex_digit d == b'-') ≡ false
unfolding hex_digit
hex_digit-dash d = ground arith

-- The text of an Ethernet address is never the one that stands for no address.
mac_to_plain-default :
    (a : Mac)
    → All (λ n. n < 256) (mac_bytes a)
    → same_text (mac_to_plain a) default_edit_text ≡ false
unfolding mac_to_plain print_fields print_plain_hex print_hex same_text
mac_to_plain-default a (h, _) = elim (Bool-cases (ltb a.m0 16)) [
  | inl y ↦ rw (y, hex_digit-dash a.m0) refl
  | inr n ↦ rw (n, hex_digit-dash (a.m0 / 16)) refl
]

ip_to_str-no_address :
    (a : Ip)
    → All (λ n. n < 256) (ip_bytes a)
    → a ≢ fill_ip 0
    → same_text (ip_to_str a) no_address ≡ false
unfolding ip_to_str print_fields print_decimal
ip_to_str-no_address a h n = elim (Bool-cases (same_text (ip_to_str a) no_address)) [
  | inl y ↦ absurd (
      n (
        ip_to_str-injective a (fill_ip 0) h
          (omega arith, (omega arith, (omega arith, (omega arith, tt)))) (same_text-eq _ _ y)))
  | inr z ↦ z
]

-- The layers when the addresses of the controls are their own.
abbrev pub addressed : AddressControl → Window → Stack → Stack
addressed control w s =
    let i = get_addr_info control w inner in
    let o = get_addr_info control w outer in
    set_addr (set_addr s i.0 i.1 i.2 inner) o.0 o.1 o.2 outer

addressed-myip :
    (control : AddressControl) (w : Window) (s : Stack)
    → control.window_text w.controls.src_address.at_inner
      ≡ ip_to_str w.controls.src_address.at_inner
    → control.window_text w.controls.src_address.at_outer
      ≡ ip_to_str w.controls.src_address.at_outer
    → All (λ n. n < 256) (ip_bytes w.controls.src_address.at_inner)
    → All (λ n. n < 256) (ip_bytes w.controls.src_address.at_outer)
    → (addressed control w s).arp.myip ≡ w.controls.src_address
unfolding get_addr_info set_addr Arp.set_my_addr IpLayer.set_source_address
    IpLayer.set_destin_address
addressed-myip control w s ti to pi po =
    rw
      (
        ti,
        to,
        str_to_ip-whole w.controls.src_address.at_inner s.arp.myip.at_inner pi,
        str_to_ip-whole w.controls.src_address.at_outer s.arp.myip.at_outer po,
      )
      refl

addressed-mymac :
    (control : AddressControl) (w : Window) (s : Stack) (imac omac : Mac)
    → w.hw_text.at_inner ≡ mac_to_plain imac
    → w.hw_text.at_outer ≡ mac_to_plain omac
    → All (λ n. n < 256) (mac_bytes imac)
    → All (λ n. n < 256) (mac_bytes omac)
    → (addressed control w s).arp.mymac ≡ record { at_inner = imac; at_outer = omac }
unfolding get_addr_info set_addr Arp.set_my_addr IpLayer.set_source_address
    IpLayer.set_destin_address
addressed-mymac control w s imac omac hi ho bi bo =
    rw
      (
        hi,
        ho,
        str_to_mac-whole imac s.arp.mymac.at_inner bi,
        str_to_mac-whole omac s.arp.mymac.at_outer bo,
      )
      refl

-- The button `Select`, where the boxes are enabled, addresses are shown and the selections succeed. The
-- layers take the addresses that the controls showed before the button, which are read back from the
-- texts, as their own. Then the adapters' own addresses, which the selections show instead, are announced
-- by one gratuitous request each. Reading is switched, the timer runs and the two threads are started.
-- The octets of the addresses fit a byte, the text of an address control is the address in decimal
-- numbers, and the buffers have the size of the structs, before the call and after it.
pub select_lem :
    (env : Env) (pcap : Pcap) (control : AddressControl) (w w1 w2 : Window) (imac omac : Mac)
    → ((a : Ip) → All (λ n. n < 256) (ip_bytes a) → control.window_text a ≡ ip_to_str a)
    → w.controls.adapter_enabled ≡ true
    → w.hw_text.at_inner ≡ mac_to_plain imac
    → w.hw_text.at_outer ≡ mac_to_plain omac
    → All (λ n. n < 256) (mac_bytes imac)
    → All (λ n. n < 256) (mac_bytes omac)
    → All (λ n. n < 256) (ip_bytes w.controls.src_address.at_inner)
    → All (λ n. n < 256) (ip_bytes w.controls.src_address.at_outer)
    → w.controls.src_address.at_outer ≢ fill_ip 0
    → adapter_changed pcap control w outer ≡ ok w1
    → adapter_changed pcap control w1 inner ≡ ok w2
    → IsSized w2.stack
    → (w' : Window) × (select env pcap control w ≡ ok w')
      × (w'.stack.arp.myip ≡ w.controls.src_address)
      × (w'.stack.arp.mymac ≡ record { at_inner = imac; at_outer = omac })
      × (w'.stack.sent
          ≡ w2.stack.sent
            ++ record {
              port = outer;
              bytes =
                  garp_frame (addressed control w w2.stack) w2.controls.src_address.at_outer outer;
            }
              ∷ record {
                port = inner;
                bytes =
                    garp_frame
                      (addressed control w w2.stack)
                      w2.controls.src_address.at_inner
                      inner;
              }
              ∷ [])
      × (w'.adapters.can_read ≡ not w2.adapters.can_read)
      × (w'.controls.adapter_enabled ≡ false)
      × (w'.controls.dst_enabled ≡ true)
      × (w'.timer ≡ true)
      × (w'.threads ≡ w2.threads + 2)
      × IsSized w'.stack
unfolding select start set_visible switch receive_flip get_addr_info IpLayer.set_source_address
    IpLayer.set_destin_address set_addr
select_lem env pcap control w w1 w2 imac omac text on hi ho bi bo pi po z e1 e2 v =
    let s = addressed control w w2.stack in
    let u = switch (set_visible (set_visible w2 outer false) inner false) true in
    let (s', sends, sent, _, _, myip, mymac, sized) =
      garp_send_lem env s u.controls
        (set_addr-IsSized _ _ _ _ outer (set_addr-IsSized w2.stack _ _ _ inner v)) in
    (
      record u { stack = s'; caption = reselect_text; timer = true; threads = u.threads + 2 },
      rw
          (
            on,
            e1,
            e2,
            subst (λ t. same_text t default_edit_text ≡ false) (sym ho)
                (mac_to_plain-default omac bo),
            subst (λ t. same_text t no_address ≡ false)
                (sym (text w.controls.src_address.at_outer po))
                (ip_to_str-no_address w.controls.src_address.at_outer po z),
            sends,
          )
          refl,
      myip
          ∙ addressed-myip control w w2.stack (text w.controls.src_address.at_inner pi)
              (text w.controls.src_address.at_outer po) pi po,
      mymac ∙ addressed-mymac control w w2.stack imac omac hi ho bi bo,
      sent,
      refl,
      refl,
      refl,
      refl,
      refl,
      sized,
    )
