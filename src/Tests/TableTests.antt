-- ===== src/Tests/TableTests.antt =====
-- The laws of the ARP table at a table of two nodes.
use arpwith_mfc.Base.{ℕ, ◌≡◌, refl, ◌⊎◌, List, [], ◌∷◌, none, ok, fault, if◌then◌else◌}
use arpwith_mfc.Wire.Address.{Ip, same_ip}
use arpwith_mfc.Wire.Formats.{ArpHeader}
use arpwith_mfc.State.{ArpNode}
use arpwith_mfc.Arp.{get_mac_in_arp}
use arpwith_mfc.Arp.Table.{
  in_cache, note_target, note_sender, learn, refresh, update_table, delete_item, arp_node, complete,
  arp_time_out,
}
use arpwith_mfc.Arp.Cache.{lookup}
use arpwith_mfc.Arp.Aging.{update_table_lem, AllAged}
use arpwith_mfc.Arp.Distinct.{Distinct, delete_item_lem}
use arpwith_mfc.Tests.Hosts.{ip_of, mac_of, node, arp_header}

abbrev table : List ArpNode
table = node 2 1 100 ∷ node 3 0 100 ∷ []

-- a header that the host of that number sends
abbrev from_host : ℕ → ArpHeader
from_host n = record (arp_header) { hardware_srcaddr = mac_of n; protocol_srcaddr = ip_of n }

table-Distinct : Distinct table
unfolding lookup same_ip
table-Distinct = (refl, (refl, tt))

-- with a second node of an address
abbrev doubled : List ArpNode
doubled = node 2 1 100 ∷ node 3 0 100 ∷ node 2 1 700 ∷ []

update_table_lem_example : AllAged 800 doubled (update_table 800 doubled)
update_table_lem_example = update_table_lem 800 doubled

update_table_runs : update_table 300 table ≡ node 2 1 100 ∷ node 3 2 100 ∷ []
unfolding update_table arpwith_mfc.Arp.Table.age
update_table_runs = refl

delete_item_lem_example :
    ((lookup table (ip_of 2) ≡ none) × (delete_item table (ip_of 2) ≡ fault))
    ⊎ ((u : List ArpNode) × (delete_item table (ip_of 2) ≡ ok u)
        × Distinct u
        × ((b : Ip) → lookup u b ≡ (if same_ip (ip_of 2) b then none else lookup table b)))
delete_item_lem_example = delete_item_lem table (ip_of 2) table-Distinct
