-- ===== src/Tests/SoundTests.antt =====
-- Runs from the constructors on.
use arpwith_mfc.Base.{
  ℕ, true, false, ◌≡◌, ◌≢◌, refl, List, [], ◌∷◌, ◌++◌, none, some, Option, ok, fault, Safe,
  replicate, length-replicate, arith,
}
use arpwith_mfc.Wire.Address.{fill_ip, fill_mac}
use arpwith_mfc.Wire.Formats.{ether_max_size}
use arpwith_mfc.State.{inner, outer, Stack, Env}
use arpwith_mfc.Ether
use arpwith_mfc.Ether.Receive.{ni_receive, receive_loop}
use arpwith_mfc.Arp
use arpwith_mfc.IpLayer
use arpwith_mfc.Arp.Wait.{wait_loop, turns_of, wait_ends}
use arpwith_mfc.Dialog.{garp_send, send_arp, all_del, routing_entry_ok}
use arpwith_mfc.Dialog.Select.{Window, adapter_changed, show_adapter}
use arpwith_mfc.Start.{Found, new_layers, new_window}
use arpwith_mfc.Sound.{IsSound}
use arpwith_mfc.Sound.Frames.{receive_loop-Safe}
use arpwith_mfc.Sound.Adapters.{IsConsistent}
use arpwith_mfc.Sound.Reach.{routed, clear}
use arpwith_mfc.Sound.Windows.{
  Run, begin, after, works, typed, chosen, window-IsConsistent, window_safe,
}
use arpwith_mfc.Tests.Hosts.{ip_of, mac_of, host, host-IsSized, env_at, node, ip_header, arp_header}
use arpwith_mfc.Tests.SelectTests.{card_of, card_pcap, read_control}
use arpwith_mfc.Text.{ip_to_str, mac_to_plain}
use arpwith_mfc.Ni.Adapters.{set_adapter, request_address, get_ip_address, ip_texts}

abbrev pub memory : Found
memory = record {
  ip = ip_of 3;
  mac = mac_of 3;
  headers = record {
    at_inner = ip_header (ip_of 3) (ip_of 4);
    at_outer = ip_header (ip_of 3) (ip_of 4);
  };
}

-- the layers that the constructors make
abbrev pub fresh : Stack
fresh = record {
  ethernet = Ether.init;
  arp = record {
    myip = record { at_inner = fill_ip 0; at_outer = ip_of 3 };
    mymac = record { at_inner = fill_mac 0; at_outer = mac_of 3 };
    is_garp = true;
    headers = record { at_inner = arp_header; at_outer = arp_header };
    arp_table = [];
    proxy_table = [];
  };
  ip = IpLayer.init (memory.headers);
  route_table = [];
  sent = [];
}

pub fresh_made : new_layers memory ≡ ok fresh
unfolding new_layers Arp.init Arp.set_type Arp.blank_header
fresh_made = refl

abbrev rounds : List (Env × Option (List ℕ))
rounds =
    (env_at 5, none)
    ∷ (env_at 6, some (replicate 1600 255))
    ∷ (env_at 7, some (replicate 1514 0))
    ∷ []

receive_loop-Safe_example :
    Safe IsSound (receive_loop (host 1 0 true (node 9 1 3 ∷ []) [] []) rounds outer)
receive_loop-Safe_example =
    receive_loop-Safe (host 1 0 true (node 9 1 3 ∷ []) [] []) rounds outer
      (record { sized = host-IsSized 1 0 true (node 9 1 3 ∷ []) [] []; named = tt })
      (
        (λ t v. v),
        (
          ((λ t v. v), omega (arith, length-replicate {A = ℕ} 1600 255)),
          (((λ t v. v), omega (arith, length-replicate {A = ℕ} 1514 0)), tt),
        ),
      )

-- The window at first, when the second card is selected in the outer box, and when it was handled.
abbrev pub opened : Window
opened =
    new_window fresh (card_of 1 ∷ card_of 2 ∷ [])
      (record { at_inner = fill_mac 0; at_outer = fill_mac 0 })
      (record { at_inner = fill_ip 0; at_outer = fill_ip 0 }) (fill_ip 0)

abbrev pub boxed : Window
boxed = record opened { cur_sel = record { at_inner = none; at_outer = some 1 } }

abbrev pub handled : Window
handled =
    show_adapter read_control
      (record boxed {
        adapters = record (boxed.adapters) {
          device = record { at_inner = none; at_outer = some 1 };
          adapter_object = record { at_inner = none; at_outer = some 3 };
          oid_data = record { at_inner = fill_mac 0; at_outer = mac_of 2 };
        };
        stack = Ether.set_source_address fresh (mac_of 2) outer;
      })
      outer (mac_to_plain (mac_of 2)) (ip_to_str (ip_of 2))

unfoldable pub handled_reached : Run opened handled
unfolding new_window adapter_changed set_adapter request_address get_ip_address ip_texts
handled_reached =
    after
      (after begin
        (typed (boxed.controls.src_address) (boxed.controls.dst_address) (boxed.cur_sel) refl))
      (chosen card_pcap read_control outer refl)

window-IsConsistent_example : IsConsistent handled
window-IsConsistent_example =
    window-IsConsistent memory fresh (card_of 1 ∷ card_of 2 ∷ [])
      (record { at_inner = fill_mac 0; at_outer = fill_mac 0 })
      (record { at_inner = fill_ip 0; at_outer = fill_ip 0 }) (fill_ip 0) handled fresh_made
      handled_reached

-- Then a route is put in, and the ARP table is cleared.
abbrev later : Window
later = record handled {
  stack =
      all_del (routing_entry_ok handled.stack (ip_of 0) (fill_ip 255) (ip_of 9) true true false 1);
}

later_reached : Run opened later
later_reached =
    after
      (after handled_reached (
        works (routing_entry_ok handled.stack (ip_of 0) (fill_ip 255) (ip_of 9) true true false 1)
          (routed (ip_of 0) (fill_ip 255) (ip_of 9) true true false 1 (omega arith) refl) refl))
      (works later.stack (clear refl) refl)

window_safe_example :
    IsSound later.stack
    × (ni_receive (env_at 5) later.stack (some (replicate ether_max_size 255)) inner ≢ fault)
    × (garp_send (env_at 5) later.stack later.controls ≢ fault)
    × (send_arp (env_at 5) later.stack later.controls ≢ fault)
window_safe_example =
    window_safe memory fresh (card_of 1 ∷ card_of 2 ∷ [])
      (record { at_inner = fill_mac 0; at_outer = fill_mac 0 })
      (record { at_inner = fill_ip 0; at_outer = fill_ip 0 }) (fill_ip 0) later (env_at 5)
      (replicate ether_max_size 255) inner fresh_made later_reached (λ t v. v)
      (length-replicate {A = ℕ} ether_max_size 255)

-- The counter runs over during a wait of three seconds; the message is to clear the ARP table.
abbrev ticks : List (ℕ × List (Unit {0}))
ticks = (0, []) ∷ (900, tt ∷ []) ∷ []

wait_ends_example :
    (s' : Stack) × (wait_loop
        (λ _. all_del)
        4294967000
        3000
        (turns_of 4294967000 (ticks ++ (3100, []) ∷ (3200, []) ∷ []))
        (host 1 0 true (node 9 1 3 ∷ []) [] [])
      ≡ some s')
    × (s'.arp.is_garp ≡ true)
unfolding all_del
wait_ends_example =
    wait_ends (λ t. t.arp.is_garp ≡ true) (λ _. all_del) 4294967000 3000 3100 ticks []
      ((3200, []) ∷ []) (host 1 0 true (node 9 1 3 ∷ []) [] []) (λ m t e. e) (omega arith)
      (omega arith) (omega arith, (omega arith, (omega arith, tt))) refl
