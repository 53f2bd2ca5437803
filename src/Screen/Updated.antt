-- ===== src/Screen/Updated.antt =====
-- CARPDlg::updateTable after CARPDlg::SetTable.
use arpwith_mfc.Base.{ℕ, suc, ◌+◌, ◌<◌, ◌≡◌, List, [], ◌∷◌, length, All, arith}
use arpwith_mfc.State.{ArpNode}
use arpwith_mfc.Arp.Table.{update_table, age}
use arpwith_mfc.Arp.Distinct.{Distinct}
use arpwith_mfc.Screen.{ListControl, Laws, insert_columns, set_table}
use arpwith_mfc.Screen.Shown.{Fits, Shown}

insert_columns-count :
    (L : ListControl) (law : Laws L) (c : L.Control) (i : ℕ) (ts : List (List ℕ))
    → L.get_column_count (insert_columns L c i ts) ≡ L.get_column_count c + length ts
unfolding insert_columns
insert_columns-count L law c i [] = omega arith
insert_columns-count L law c i (t ∷ ts) = omega (
  arith,
  insert_columns-count L law (L.insert_column c i t) (suc i) ts,
  law.column_inserted c i t,
)

-- The lists have the columns that the handlers fill.
pub set_table-columns :
    (L : ListControl) (law : Laws L) (arp routes : L.Control)
    → (2 < L.get_column_count (set_table L (arp, routes)).0)
      × (5 < L.get_column_count (set_table L (arp, routes)).1)
unfolding set_table
set_table-columns L law arp routes = (
  omega (arith, insert_columns-count L law arp 1 _),
  omega (arith, insert_columns-count L law routes 1 _),
)

-- Time leaves the addresses alone, and the status stays one of the three.
age-protocol_addr : (now : ℕ) (n : ArpNode) → (age now n).protocol_addr ≡ n.protocol_addr
unfolding age
age-protocol_addr now n = ground arith

age-status : (now : ℕ) (n : ArpNode) → n.status < 3 → (age now n).status < 3
unfolding age
age-status now n h = ground arith

age-Fits : (now : ℕ) (n : ArpNode) → Fits n → Fits (age now n)
age-Fits now n (f, k) = (rw (age-protocol_addr now n) f, age-status now n k)

pub update_table-Fits : (now : ℕ) (t : List ArpNode) → All Fits t → All Fits (update_table now t)
unfolding update_table
update_table-Fits now [] f = tt
update_table-Fits now (n ∷ t) (f, fs) = (age-Fits now n f, update_table-Fits now t fs)
