-- ===== src/Tests/SelectTests.antt =====
-- The choice of two network cards.
use arpwith_mfc.Base.{
  ◌%◌, codes, ℕ, ◌+◌, ◌≡◌, ◌≢◌, refl, ap, true, false, not, [], ◌∷◌, ◌++◌, some, none, ok, get_or,
  arith,
}
use arpwith_mfc.Wire.Address.{fill_ip, fill_mac}
use arpwith_mfc.State.{inner, outer}
use arpwith_mfc.Sized.{IsSized}
use arpwith_mfc.Ether
use arpwith_mfc.Ni.Adapters.{
  Device, Pcap, af_inet, ip_texts, set_adapter, request_address, get_ip_address,
}
use arpwith_mfc.Text.{ip_to_str, str_to_ip, mac_to_plain, str_to_mac, digit_value}
use arpwith_mfc.Text.RoundTrip.{str_to_mac-mac_to_plain}
use arpwith_mfc.Dialog.Requests.{garp_frame}
use arpwith_mfc.Dialog.Select.{AddressControl, Window, adapter_changed, show_adapter, select}
use arpwith_mfc.Dialog.Select.Chosen.{set_source_address-IsSized}
use arpwith_mfc.Dialog.Select.Started.{select_lem, addressed}
use arpwith_mfc.Tests.Hosts.{ip_of, mac_of, host, host-IsSized, env_at}

not_zero : ◌≢◌ {A = ℕ} 10 0
not_zero e = omega (arith, e)

-- The card of that number has one IPv4 address, and an Ethernet address of the same number.
abbrev pub card_of : ℕ → Device
card_of n = record {
  name = n ∷ [];
  description = [];
  addresses = record { family = af_inet; text = ip_to_str (ip_of n) } ∷ [];
}

abbrev pub card_pcap : Pcap
card_pcap = record { open_live = λ _. some 3; request = λ name _. mac_of (get_or name 0 0 % 256) }

-- A control shows the address that it reads in the text.
abbrev pub read_control : AddressControl
read_control = record { shows = str_to_ip (fill_ip 0); window_text = ip_to_str }

-- The second card is chosen for the outer network, the first one for the inner, and the user has put
-- other addresses in.
abbrev typed_window : Window
typed_window = record {
  stack = host 1 0 true [] [] [];
  adapters = record {
    all_devices = card_of 1 ∷ card_of 2 ∷ [];
    device = record { at_inner = none; at_outer = none };
    adapter_object = record { at_inner = none; at_outer = none };
    oid_data = record { at_inner = fill_mac 0; at_outer = fill_mac 0 };
    can_read = false;
  };
  controls = record {
    src_address = record { at_inner = ip_of 31; at_outer = ip_of 32 };
    dst_address = ip_of 7;
    adapter_enabled = true;
    dst_enabled = false;
  };
  hw_text = record { at_inner = mac_to_plain (mac_of 1); at_outer = mac_to_plain (mac_of 2) };
  cur_sel = record { at_inner = some 0; at_outer = some 1 };
  address_enabled = record { at_inner = true; at_outer = true };
  inner_adapter_enabled = true;
  caption = codes "Select";
  timer = false;
  threads = 0;
}

-- The window when the outer card is handled again, and when both are.
abbrev outer_shown : Window
outer_shown =
    show_adapter read_control
      (record typed_window {
        adapters = record (typed_window.adapters) {
          device = record { at_inner = none; at_outer = some 1 };
          adapter_object = record { at_inner = none; at_outer = some 3 };
          oid_data = record { at_inner = fill_mac 0; at_outer = mac_of 2 };
        };
        stack = Ether.set_source_address typed_window.stack (mac_of 2) outer;
      })
      outer (mac_to_plain (mac_of 2)) (ip_to_str (ip_of 2))

abbrev both_shown : Window
both_shown =
    show_adapter read_control
      (record outer_shown {
        adapters = record (typed_window.adapters) {
          device = record { at_inner = some 0; at_outer = some 1 };
          adapter_object = record { at_inner = some 3; at_outer = some 3 };
          oid_data = record { at_inner = mac_of 1; at_outer = mac_of 2 };
        };
        stack = Ether.set_source_address outer_shown.stack (mac_of 1) inner;
      })
      inner (mac_to_plain (mac_of 1)) (ip_to_str (ip_of 1))

outer_changes : adapter_changed card_pcap read_control typed_window outer ≡ ok outer_shown
unfolding adapter_changed set_adapter request_address get_ip_address ip_texts
outer_changes = refl

inner_changes : adapter_changed card_pcap read_control outer_shown inner ≡ ok both_shown
unfolding adapter_changed set_adapter request_address get_ip_address ip_texts show_adapter
inner_changes = refl

both_shown-IsSized : IsSized both_shown.stack
unfolding show_adapter
both_shown-IsSized =
    set_source_address-IsSized _ (mac_of 1) inner
      (set_source_address-IsSized _ (mac_of 2) outer (host-IsSized 1 0 true [] [] []))

select_lem_example :
    (w' : Window) × (select (env_at 5) card_pcap read_control typed_window ≡ ok w')
    × (w'.stack.arp.myip ≡ record { at_inner = ip_of 31; at_outer = ip_of 32 })
    × (w'.stack.arp.mymac ≡ record { at_inner = mac_of 1; at_outer = mac_of 2 })
    × (w'.stack.sent
        ≡ both_shown.stack.sent
          ++ record {
            port = outer;
            bytes =
                garp_frame
                  (addressed read_control typed_window both_shown.stack)
                  both_shown.controls.src_address.at_outer
                  outer;
          }
            ∷ record {
              port = inner;
              bytes =
                  garp_frame
                    (addressed read_control typed_window both_shown.stack)
                    both_shown.controls.src_address.at_inner
                    inner;
            }
            ∷ [])
    × (w'.adapters.can_read ≡ not both_shown.adapters.can_read)
    × (w'.controls.adapter_enabled ≡ false)
    × (w'.controls.dst_enabled ≡ true)
    × (w'.timer ≡ true)
    × (w'.threads ≡ both_shown.threads + 2)
    × IsSized w'.stack
select_lem_example =
    select_lem (env_at 5) card_pcap read_control typed_window outer_shown both_shown (mac_of 1)
      (mac_of 2) (λ a h. refl) refl refl refl
      (omega arith, (omega arith, (omega arith, (omega arith, (omega arith, (omega arith, tt))))))
      (omega arith, (omega arith, (omega arith, (omega arith, (omega arith, (omega arith, tt))))))
      (omega arith, (omega arith, (omega arith, (omega arith, tt))))
      (omega arith, (omega arith, (omega arith, (omega arith, tt))))
      (λ e. not_zero (ap (λ a. a.o0) e)) outer_changes inner_changes both_shown-IsSized

str_to_mac-mac_to_plain_example :
    str_to_mac (fill_mac 9) (mac_to_plain (mac_of 10) ++ b' ' ∷ []) ≡ mac_of 10
unfolding digit_value
str_to_mac-mac_to_plain_example =
    str_to_mac-mac_to_plain (mac_of 10) (fill_mac 9) (b' ' ∷ [])
      (omega arith, (omega arith, (omega arith, (omega arith, (omega arith, (omega arith, tt))))))
      (refl, refl, refl)
