-- ===== src/Screen.antt =====
-- The lists and boxes on the screen: what CARPDlg (ARP/ARPDlg.cpp), CDeviceAdd (ARP/CDeviceAdd.cpp)
-- and CRoutingTableEntry (ARP/CRoutingTableEntry.cpp) put into them. CListCtrl and CComboBox are
-- parameters: a record of operations each, and a record of the laws that they obey.
pub mod Shown
pub mod Entries
pub mod Devices
pub mod Updated
pub mod Proxies
pub mod Exact
pub mod Cleared
use arpwith_mfc.Base.{
  codes, ℕ, zero, suc, ◌+◌, ◌/◌, ◌%◌, ◌<◌, ◌≤◌, ◌≡◌, ◌≢◌, ◌⊎◌, Bool, List, [], ◌∷◌, ◌++◌, Option,
  none, some, if◌then◌else◌, ◌==◌, ltb, length, take, drop,
}
use arpwith_mfc.Wire.Address.{Ip, Mac}
use arpwith_mfc.State.{ArpNode, Stack, Env}
use arpwith_mfc.Ni.Adapters.{Device}
use arpwith_mfc.Text.{ip_to_str, mac_to_str}
use arpwith_mfc.Dialog.{on_timer, routing_entry_ok}

-- CListCtrl. FindItem looks for the text of a row's first column.
pub record ListControl : Type 1 where
  pub Control : Type 0
  pub get_item_count : Control → ℕ
  pub get_column_count : Control → ℕ
  pub get_item_text : Control → ℕ → ℕ → List ℕ
  pub insert_column : Control → ℕ → List ℕ → Control
  pub insert_item : Control → ℕ → List ℕ → Control
  pub set_item_text : Control → ℕ → ℕ → List ℕ → Control
  pub delete_item : Control → ℕ → Control
  pub delete_all_items : Control → Control
  pub find_item : Control → List ℕ → Option ℕ

-- What the code relies on: rows are inserted behind the last one, and a text is set in a row and a
-- column that exist.
pub record Laws (L : ListControl) : Type 0 where
  pub found :
      (c : L.Control) (t : List ℕ) (i : ℕ)
      → L.find_item c t ≡ some i
      → (i < L.get_item_count c) × (L.get_item_text c i 0 ≡ t)
  pub inserted :
      (c : L.Control) (t : List ℕ)
      → L.get_item_text (L.insert_item c (L.get_item_count c) t) (L.get_item_count c) 0 ≡ t
  pub inserted_other :
      (c : L.Control) (t : List ℕ) (i j : ℕ)
      → i < L.get_item_count c
      → L.get_item_text (L.insert_item c (L.get_item_count c) t) i j ≡ L.get_item_text c i j
  pub inserted_count :
      (c : L.Control) (t : List ℕ)
      → L.get_item_count (L.insert_item c (L.get_item_count c) t) ≡ suc (L.get_item_count c)
  pub inserted_columns :
      (c : L.Control) (i : ℕ) (t : List ℕ)
      → L.get_column_count (L.insert_item c i t) ≡ L.get_column_count c
  pub column_inserted :
      (c : L.Control) (i : ℕ) (t : List ℕ)
      → L.get_column_count (L.insert_column c i t) ≡ suc (L.get_column_count c)
  pub text_set :
      (c : L.Control) (i j : ℕ) (t : List ℕ)
      → i < L.get_item_count c
      → j < L.get_column_count c
      → L.get_item_text (L.set_item_text c i j t) i j ≡ t
  pub text_other :
      (c : L.Control) (i j : ℕ) (t : List ℕ) (k l : ℕ)
      → (k ≢ i) ⊎ (l ≢ j)
      → L.get_item_text (L.set_item_text c i j t) k l ≡ L.get_item_text c k l
  pub text_count :
      (c : L.Control) (i j : ℕ) (t : List ℕ)
      → L.get_item_count (L.set_item_text c i j t) ≡ L.get_item_count c
  pub text_columns :
      (c : L.Control) (i j : ℕ) (t : List ℕ)
      → L.get_column_count (L.set_item_text c i j t) ≡ L.get_column_count c
  pub cleared_columns :
      (c : L.Control) → L.get_column_count (L.delete_all_items c) ≡ L.get_column_count c
  pub cleared : (c : L.Control) → L.get_item_count (L.delete_all_items c) ≡ 0
  pub deleted_count :
      (c : L.Control) (i : ℕ)
      → i < L.get_item_count c
      → suc (L.get_item_count (L.delete_item c i)) ≡ L.get_item_count c
  pub deleted_before :
      (c : L.Control) (i k l : ℕ)
      → i < L.get_item_count c
      → k < i
      → L.get_item_text (L.delete_item c i) k l ≡ L.get_item_text c k l
  pub deleted_behind :
      (c : L.Control) (i k l : ℕ)
      → i < L.get_item_count c
      → i ≤ k
      → L.get_item_text (L.delete_item c i) k l ≡ L.get_item_text c (suc k) l

-- The columns that are inserted with the numbers from `i` on. Their widths are left out.
unfoldable pub insert_columns : (L : ListControl) → L.Control → ℕ → List (List ℕ) → L.Control
insert_columns L c i [] = c
insert_columns L c i (t ∷ ts) = insert_columns L (L.insert_column c i t) (suc i) ts

-- CARPDlg::SetTable: the columns of the lists for the ARP table and for the routing table
unfoldable pub set_table : (L : ListControl) → L.Control × L.Control → L.Control × L.Control
unfolding insert_columns
set_table L (arp, routes) = (
  insert_columns L arp 1 (codes "IP Address" ∷ codes "MAC Address" ∷ codes "Status" ∷ []),
  insert_columns L routes 1 (
      codes "Destination"
      ∷ codes "NetMask"
      ∷ codes "GateWay"
      ∷ codes "Flag"
      ∷ codes "Interface"
      ∷ codes "Metric"
      ∷ []),
)

-- The columns that CARPDlg::InitFn inserts into the list for the proxy table.
unfoldable pub init_fn : (L : ListControl) → L.Control → L.Control
unfolding insert_columns
init_fn L c =
    insert_columns L c 1 (codes "Device" ∷ codes "IP Address" ∷ codes "Ethernet Address" ∷ [])

-- the `switch` of CARPDlg::updateTable
unfoldable pub status_text : ℕ → Option (List ℕ)
status_text status =
    if status == 2
    then some (codes "Timeout")
    else if status == 0
    then some (codes "incomplete")
    else if status == 1
    then some (codes "Complete")
    else none

-- the row of an address, which is a new one behind the others if there is none
unfoldable pub row_of : (L : ListControl) → L.Control → List ℕ → ℕ × L.Control
row_of L c dstip = elim (L.find_item c dstip) [
  | none ↦ (L.get_item_count c, L.insert_item c (L.get_item_count c) dstip)
  | some fi ↦ (fi, c)
]

unfoldable pub show_status : (L : ListControl) → L.Control → ℕ → Option (List ℕ) → L.Control
show_status L c fi none = c
show_status L c fi (some t) = L.set_item_text c fi 2 t

-- The body of the loop of CARPDlg::updateTable.
unfoldable pub show_node : (L : ListControl) → L.Control → ArpNode → L.Control
unfolding row_of show_status status_text
show_node L c n =
    let r = row_of L c (ip_to_str n.protocol_addr) in
    show_status L (L.set_item_text r.1 r.0 1 (mac_to_str n.hardware_addr)) r.0
      (status_text n.status)

-- The loop of CARPDlg::updateTable.
unfoldable pub show_table : (L : ListControl) → L.Control → List ArpNode → L.Control
unfolding show_node
show_table L c [] = c
show_table L c (n ∷ t) = show_table L (show_node L c n) t

-- CARPDlg::updateTable
unfoldable pub update_list : (L : ListControl) → Env → Stack → L.Control → Stack × L.Control
unfolding show_table
update_list L env s c = let s' = on_timer env s in (s', show_table L c s'.arp.arp_table)

-- The row that CARPDlg::AddProxyArpCache inserts.
unfoldable pub add_proxy_row : (L : ListControl) → L.Control → List ℕ → Ip → Mac → L.Control
add_proxy_row L c device ip addr =
    let i = L.get_item_count c in
    L.set_item_text (L.set_item_text (L.insert_item c i device) i 1 (ip_to_str ip)) i 2
      (mac_to_str addr)

-- `%d` of a number, with fuel for the digits
unfoldable pub print_number : ℕ → ℕ → List ℕ
print_number zero n = []
print_number (suc fuel) n =
    let rest = print_number fuel (n / 10) in
    if ltb n 10 then (48 + n) ∷ [] else rest ++ (48 + n % 10) ∷ []

-- CARPDlg::AddRoutingTable. The texts that it reads into `_ip` are not used.
unfoldable pub add_routing_row :
    (L : ListControl) → L.Control → List ℕ → List ℕ → List ℕ → List ℕ → List ℕ → L.Control
unfolding print_number
add_routing_row L c ip1 ip2 ip3 flag interface =
    let i = L.get_item_count c in
    let c0 = L.set_item_text (L.insert_item c i []) i 0 ip1 in
    let c1 = L.set_item_text c0 i 1 ip2 in
    let c2 = L.set_item_text c1 i 2 ip3 in
    let c3 = L.set_item_text c2 i 3 flag in
    let c4 = L.set_item_text c3 i 4 interface in
    L.set_item_text c4 i 5 (print_number (i + 2) (i + 1))

-- CARPDlg::OnBnClickedButtonDelRoutingTableEntry, where a row is selected
unfoldable pub delete_routing_row : (L : ListControl) → L.Control → ℕ → L.Control
delete_routing_row L c mark = L.delete_item c mark

-- what the check boxes of CRoutingTableEntry add to the text
unfoldable pub checked_text : Bool → Bool → Bool → List ℕ
checked_text up gateway host =
    (if up then b'U' ∷ [] else [])
    ++ (if gateway then b'G' ∷ [] else [])
    ++ (if host then b'H' ∷ [] else [])

-- CRoutingTableEntry::OnBnClickedOk, with the list on the screen
unfoldable pub entry_ok :
    (L : ListControl)
    → Stack
    → L.Control
    → Ip
    → Ip
    → Ip
    → Bool
    → Bool
    → Bool
    → List ℕ
    → ℕ
    → Stack × L.Control
unfolding add_routing_row checked_text
entry_ok L s c dstip maskip gateway up via host interface_text interface = (
  routing_entry_ok s dstip maskip gateway up via host interface,
  add_routing_row L c (ip_to_str dstip) (ip_to_str maskip) (ip_to_str gateway)
      (checked_text up via host) interface_text,
)
