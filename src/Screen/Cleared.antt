-- ===== src/Screen/Cleared.antt =====
-- The two buttons of CARPDlg that delete from the ARP table and clear its list, and the timer.
use arpwith_mfc.Base.{
  ℕ, ◌<◌, ◌==◌, ◌≡◌, ◌≢◌, refl, ◌∙◌, inl, inr, List, [], ◌∷◌, Option, none, some, Result, ok, ◌>>=◌,
  if◌then◌else◌, All, length, Bool-cases, Leaves, Leaves-bind, Leaves-ok, arith,
}
use arpwith_mfc.Wire.Address.{Ip, ip_bytes, fill_ip, same_ip, same_ip_refl, same_ip_ne}
use arpwith_mfc.State.{ArpNode, Stack, Env, with_table}
use arpwith_mfc.Arp
use arpwith_mfc.Arp.Table.{update_table, delete_item}
use arpwith_mfc.Arp.Cache.{lookup}
use arpwith_mfc.Arp.Distinct.{Distinct, delete_item_lem, update_table-Distinct}
use arpwith_mfc.Text.{ip_to_str}
use arpwith_mfc.Text.Same.{str_to_ip-whole}
use arpwith_mfc.Dialog.{item_del, all_del, on_timer}
use arpwith_mfc.Screen.{ListControl, Laws, update_list, show_table}
use arpwith_mfc.Screen.Shown.{Fits, Shown, show_table-Shown}
use arpwith_mfc.Screen.Updated.{update_table-Fits}
use arpwith_mfc.Screen.Exact.{show_table-exact}

-- CARPDlg::OnBnClickedButtonItemDel; `mark` is GetSelectionMark, and a row that is not there is -1.
unfoldable pub item_del_clicked :
    (L : ListControl) → Stack → L.Control → Option ℕ → Result (Stack × L.Control)
item_del_clicked L s c none = ok (s, c)
item_del_clicked L s c (some mark) = do
  s' ← item_del s (some (L.get_item_text c mark 0))
  ok (s', L.delete_all_items c)

-- CARPDlg::OnBnClickedButtonAllDel
unfoldable pub all_del_clicked : (L : ListControl) → Stack → L.Control → Stack × L.Control
all_del_clicked L s c = (all_del s, L.delete_all_items c)

-- CARPDlg::OnTimer
unfoldable pub timer_fired : (L : ListControl) → Env → Stack → L.Control → ℕ → Stack × L.Control
timer_fired L env s c event = if event == 1 then update_list L env s c else (s, c)

delete_item-Fits : (t : List ArpNode) (a : Ip) → All Fits t → Leaves (All Fits) (delete_item t a)
unfolding delete_item
delete_item-Fits [] a f = tt
delete_item-Fits (n ∷ t) a (f, fs) = elim (Bool-cases (same_ip n.protocol_addr a)) [
  | inl y ↦ rw y fs
  | inr z ↦ rw z (
      Leaves-bind (All Fits) (All Fits) (delete_item t a) _ (delete_item-Fits t a fs)
        (λ u us. (f, us)))
]

-- The selected row shows an address of the table. Then the button deletes that address's node and no
-- other, and when the timer fires next, the list has exactly one row for each node that is left, with its
-- addresses and its status. No two nodes have the same address, the octets fit a byte, each status is one
-- of the three, and the list has at least three columns.
pub item_del_clicked_lem :
    (L : ListControl) (law : Laws L) (env : Env) (s : Stack) (c : L.Control) (mark : ℕ) (a b : Ip)
    (n : ArpNode)
    → L.get_item_text c mark 0 ≡ ip_to_str a
    → lookup s.arp.arp_table a ≡ some n
    → a ≢ b
    → All (λ x. x < 256) (ip_bytes a)
    → Distinct s.arp.arp_table
    → All Fits s.arp.arp_table
    → 2 < L.get_column_count c
    → (s1 s2 : Stack) × (c1 c2 : L.Control) × (item_del_clicked L s c (some mark) ≡ ok (s1, c1))
      × (timer_fired L env s1 c1 1 ≡ (s2, c2))
      × (lookup s1.arp.arp_table a ≡ none)
      × (lookup s1.arp.arp_table b ≡ lookup s.arp.arp_table b)
      × (s2.arp.arp_table ≡ update_table env.now s1.arp.arp_table)
      × (L.get_item_count c2 ≡ length s2.arp.arp_table)
      × All (Shown L c2) s2.arp.arp_table
unfolding item_del_clicked item_del Arp.delete_item_text timer_fired update_list on_timer
item_del_clicked_lem L law env s c mark a b n row found ne h d f k =
    elim (delete_item_lem s.arp.arp_table a d) [
      | inl (l, e) ↦ absurd (cc)
      | inr (u, e, v, after) ↦
          let t = update_table env.now u in
          let fits = Leaves-ok (All Fits) _ u (delete_item-Fits s.arp.arp_table a f) e in
          let shown = update_table-Fits env.now u fits in
          let apart = update_table-Distinct env.now u v in
          let c1 = L.delete_all_items c in
          (
            with_table s u,
            with_table s t,
            c1,
            show_table L c1 t,
            rw (row, str_to_ip-whole a (fill_ip 0) h, e) refl,
            refl,
            after a ∙ rw (same_ip_refl a) refl,
            after b ∙ rw (same_ip_ne a b ne) refl,
            refl,
            show_table-exact L law c1 t (law.cleared c) apart shown,
            show_table-Shown L law c1 t (omega (arith, law.cleared_columns c)) apart shown,
          )
    ]
