-- ===== src/Tests/ScreenTests.antt =====
-- What the handlers put into a list and into a box.
use arpwith_mfc.Base.{
  ◌≤◌, ◌<◌, ◌⊎◌, fault, codes, ap, length, ℕ, suc, ◌≡◌, ◌≢◌, refl, true, false, List, [], ◌∷◌, ◌++◌,
  Option, none, some, if◌then◌else◌, ◌==◌, take, drop, ok, All, arith,
}
use arpwith_mfc.State.{Route, Stack}
use arpwith_mfc.IpLayer.Selection.{NoneBelow, FirstBelow}
use arpwith_mfc.Text.{ip_to_str, mac_to_str}
use arpwith_mfc.Arp.Cache.{lookup}
use arpwith_mfc.Wire.Address.{same_ip}
use arpwith_mfc.Arp.Table.{update_table}
use arpwith_mfc.Ni.Adapters.{Device}
use arpwith_mfc.Screen.{entry_ok, checked_text, print_number}
use arpwith_mfc.Screen.Shown.{Shown}
use arpwith_mfc.Screen.Cleared.{item_del_clicked, timer_fired, item_del_clicked_lem}
use arpwith_mfc.Screen.Entries.{entry_ok_lem}
use arpwith_mfc.Screen.Devices.{
  ComboBox, BoxLaws, add_clicked, init_device_add_dlg, set_adapter_list, set_adapter_combo_box,
}
use arpwith_mfc.Ni.Adapters.{Adapters}
use arpwith_mfc.Screen.Proxies.{add_proxy, delete_clicked, Mirrors, proxies-Mirrors}
use arpwith_mfc.Tests.SelectTests.{card_pcap}
use arpwith_mfc.Tests.Hosts.{mac_of, proxy, ip_of, host, env_at, node}
use arpwith_mfc.Tests.Grid.{Grid, grid, grid-Laws}

-- Two hosts in the ARP table, and a row on the screen that is there already.
abbrev two_hosts : Stack
two_hosts = host 1 0 true (node 9 1 3 ∷ node 8 0 4 ∷ []) [] []

abbrev old_row : Grid
old_row = record {
  rows = 1;
  columns = 3;
  cells = λ k l. if l == 0 then ip_to_str (ip_of 8) else [];
}

eight : ◌≢◌ {A = ℕ} 8 9
eight e = omega (arith, e)

item_del_clicked_lem_example :
    (s1 s2 : Stack) × (c1 c2 : Grid) × (item_del_clicked grid two_hosts old_row (some 0)
      ≡ ok (s1, c1))
    × (timer_fired grid (env_at 999) s1 c1 1 ≡ (s2, c2))
    × (lookup s1.arp.arp_table (ip_of 8) ≡ none)
    × (lookup s1.arp.arp_table (ip_of 9) ≡ lookup two_hosts.arp.arp_table (ip_of 9))
    × (s2.arp.arp_table ≡ update_table 999 s1.arp.arp_table)
    × (c2.rows ≡ length s2.arp.arp_table)
    × All (Shown grid c2) s2.arp.arp_table
unfolding lookup same_ip
item_del_clicked_lem_example =
    item_del_clicked_lem grid grid-Laws (env_at 999) two_hosts old_row 0 (ip_of 8) (ip_of 9)
      (node 8 0 4) refl refl (λ e. eight (ap (λ a. a.o3) e))
      (omega arith, (omega arith, (omega arith, (omega arith, tt)))) (refl, (refl, tt))
      (
        ((omega arith, (omega arith, (omega arith, (omega arith, tt)))), omega arith),
        (((omega arith, (omega arith, (omega arith, (omega arith, tt)))), omega arith), tt),
      )
      (omega arith)

abbrev old_route : Grid
old_route = record { rows = 1; columns = 6; cells = λ k l. if l == 5 then codes "1" else [] }

entry_ok_lem_example :
    (before after : List Route) × (c' : Grid) × (two_hosts.route_table ≡ before ++ after)
    × All (λ x. NoneBelow x.gateway (ip_of 9)) before
    × FirstBelow (ip_of 9) after
    × (entry_ok grid two_hosts old_route
          (ip_of 0)
          (ip_of 255)
          (ip_of 9)
          true
          true
          false
          (codes "1")
          1
        ≡ (
          record two_hosts {
            route_table =
                before
                ++ record {
                  destination_ip = ip_of 0;
                  netmask = ip_of 255;
                  gateway = ip_of 9;
                  flag = 66;
                  interface = 1;
                }
                  ∷ after;
          },
          c',
        ))
    × (c'.rows ≡ 2)
    × (c'.cells 1 3 ≡ codes "UG")
    × ((1 ≤ 0) ⊎ (c'.cells 0 5 ≡ codes "1"))
unfolding checked_text
entry_ok_lem_example =
    entry_ok_lem grid grid-Laws two_hosts old_route (ip_of 0) (ip_of 255) (ip_of 9) true true false
      (codes "1") 1 0 5 3 (codes "UG") (omega arith) refl

-- The rows are numbered from 1 on.
print_number_runs : print_number 3 107 ≡ codes "107"
unfolding print_number
print_number_runs = refl

-- A box: its entries, and the one that is selected.
record Choices : Type 0 where
  entries : List (List ℕ)
  at : Option ℕ

abbrev choices : ComboBox
choices = record {
  Box = Choices;
  items = λ b. b.entries;
  get_cur_sel = λ b. b.at;
  add_string = λ b t. record b { entries = b.entries ++ t ∷ [] };
  insert_string = λ b i t. record b { entries = take i b.entries ++ t ∷ drop i b.entries };
  delete_string = λ b i. record b { entries = take i b.entries ++ drop (suc i) b.entries };
  reset_content = λ b. record { entries = []; at = none };
  set_cur_sel = λ b i. record b { at = some i };
}

choices-BoxLaws : BoxLaws choices
choices-BoxLaws = record {
  added = λ b t. refl;
  inserted_at = λ b i t h. refl;
  deleted = λ b i h. refl;
  emptied = λ b. refl;
  selected = λ b i h. refl;
  selected_items = λ b i. refl;
}

abbrev described : List ℕ → Device
described t = record { name = []; description = t; addresses = [] }

add_clicked_runs :
    add_clicked choices
      (described (codes "WiFi") ∷ described (codes "LAN") ∷ [])
      (record { entries = []; at = some 0 })
      (record { entries = codes "old" ∷ []; at = none })
    ≡ record { entries = codes "Default" ∷ codes "LAN" ∷ []; at = some 0 }
unfolding add_clicked init_device_add_dlg set_adapter_list set_adapter_combo_box
add_clicked_runs = refl

-- One proxy in the table and on the screen.
abbrev one_proxy : Stack
one_proxy = host 1 0 true [] (proxy ∷ []) []

abbrev proxy_row : Grid
proxy_row = record {
  rows = 1;
  columns = 3;
  cells = λ k l. if l == 1 then ip_to_str (ip_of 50) else mac_to_str (mac_of 50);
}

abbrev two_cards : Adapters
two_cards = record {
  all_devices = described (codes "WiFi") ∷ described (codes "LAN") ∷ [];
  device = record { at_inner = none; at_outer = some 0 };
  adapter_object = record { at_inner = none; at_outer = some 3 };
  oid_data = record { at_inner = mac_of 1; at_outer = mac_of 2 };
  can_read = false;
}

proxies-Mirrors_example :
    ((s' : Stack) × (a' : Adapters) × (c' : Grid) × (add_proxy grid card_pcap two_cards one_proxy
          proxy_row
          (codes "LAN")
          1
          (ip_of 60)
          (mac_of 60)
        ≡ ok (s', a', c'))
      × Mirrors grid c' s'.arp.proxy_table)
    × (((1 ≤ 0) × (delete_clicked grid one_proxy proxy_row (some 0) ≡ fault))
        ⊎ ((s' : Stack) × (c' : Grid) × (0 < 1)
            × (delete_clicked grid one_proxy proxy_row (some 0) ≡ ok (s', c'))
            × Mirrors grid c' s'.arp.proxy_table))
proxies-Mirrors_example =
    proxies-Mirrors grid grid-Laws card_pcap two_cards one_proxy proxy_row (codes "LAN") 1
      (described (codes "LAN")) (ip_of 60) (mac_of 60) 0 (refl, (refl, refl, tt)) (omega arith) refl
