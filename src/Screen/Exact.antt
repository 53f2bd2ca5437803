-- ===== src/Screen/Exact.antt =====
-- How many rows CARPDlg::updateTable leaves in a list that was empty.
use arpwith_mfc.Base.{
  ℕ, suc, ◌+◌, ◌<◌, ◌≡◌, ◌≢◌, refl, sym, ap, ◌∙◌, inl, inr, List, [], ◌∷◌, Option, none, some, All,
  Option-cases, Bool-cases, ltb, ltb→lt, ltb→le, length, arith,
}
use mathlib.Core.Path.{subst}
use arpwith_mfc.State.{ArpNode}
use arpwith_mfc.Arp.Distinct.{Distinct}
use arpwith_mfc.Text.{ip_to_str, mac_to_str}
use arpwith_mfc.Screen.{ListControl, Laws, row_of, show_status, show_node, show_table, status_text}
use arpwith_mfc.Screen.Shown.{Fits, show_node-Keeps, texts_apart}

-- no row shows the node's IP address
abbrev Absent : (L : ListControl) → L.Control → ArpNode → Type 0
Absent L c n = (i : ℕ) → i < L.get_item_count c → L.get_item_text c i 0 ≢ ip_to_str n.protocol_addr

module _ (L : ListControl) (law : Laws L) where
  find_item-none :
      (c : L.Control) (n : ArpNode)
      → Absent L c n
      → L.find_item c (ip_to_str n.protocol_addr) ≡ none
  find_item-none c n h = elim (Option-cases (L.find_item c (ip_to_str n.protocol_addr))) [
    | inl e ↦ e
    | inr (i, e) ↦ absurd (h i (law.found c _ i e).0 (law.found c _ i e).1)
  ]

  status_keeps :
      (d : L.Control) (i : ℕ) (t : Option (List ℕ)) (k : ℕ)
      → (L.get_item_count (show_status L d i t) ≡ L.get_item_count d)
        × (L.get_item_text (show_status L d i t) k 0 ≡ L.get_item_text d k 0)
  unfolding show_status
  status_keeps d i none k = (refl, refl)
  status_keeps d i (some t) k =
      (law.text_count d i 2 t, law.text_other d i 2 t k 0 (inr (λ z. absurd (omega arith))))

  -- The node's row is a new one behind the others.
  show_node-last :
      (c : L.Control) (n : ArpNode)
      → Absent L c n
      → (L.get_item_count (show_node L c n) ≡ suc (L.get_item_count c))
        × (L.get_item_text (show_node L c n) (L.get_item_count c) 0 ≡ ip_to_str n.protocol_addr)
  unfolding show_node row_of
  show_node-last c n h =
      let ip = ip_to_str n.protocol_addr in
      let i = L.get_item_count c in
      let d = L.insert_item c i ip in
      let mac = mac_to_str n.hardware_addr in
      let (counted, first) = status_keeps (L.set_item_text d i 1 mac) i (status_text n.status) i in
      let row : row_of L c ip ≡ (i, d) = rw (row_of, find_item-none c n h) refl in
      subst
        (λ r.
          (L.get_item_count
              (show_status L (L.set_item_text r.1 r.0 1 mac) r.0 (status_text n.status))
            ≡ suc i)
          × (L.get_item_text
                (show_status L (L.set_item_text r.1 r.0 1 mac) r.0 (status_text n.status)) i 0
              ≡ ip))
        (sym row)
        (
          counted ∙ law.text_count d i 1 mac ∙ law.inserted_count c ip,
          first
              ∙ law.text_other d i 1 mac i 0 (inr (λ z. absurd (omega arith)))
              ∙ law.inserted c ip,
        )

  show_node-Absent :
      (c : L.Control) (n m : ArpNode)
      → Absent L c n
      → Absent L c m
      → ip_to_str n.protocol_addr ≢ ip_to_str m.protocol_addr
      → Absent L (show_node L c n) m
  show_node-Absent c n m h k ne i b e =
      let (counted, last) = show_node-last c n h in
      elim (Bool-cases (ltb i (L.get_item_count c))) [
        | inl y ↦
            let l : i < L.get_item_count c = omega (arith, ltb→lt) in
            k i l (sym ((show_node-Keeps L law c n i l (h i l)).same 0) ∙ e)
        | inr z ↦
            let at : i ≡ L.get_item_count c = omega (arith, ltb→le, counted) in
            ne (sym last ∙ ap (λ x. L.get_item_text (show_node L c n) x 0) (sym at) ∙ e)
      ]

  show_node-All-Absent :
      (c : L.Control) (n : ArpNode) (t : List ArpNode)
      → Absent L c n
      → All (Absent L c) t
      → All (λ m. ip_to_str n.protocol_addr ≢ ip_to_str m.protocol_addr) t
      → All (Absent L (show_node L c n)) t
  show_node-All-Absent c n [] h k ne = tt
  show_node-All-Absent c n (m ∷ t) h (k, ks) (ne, nes) =
      (show_node-Absent c n m h k ne, show_node-All-Absent c n t h ks nes)

  empty-Absent : (c : L.Control) (t : List ArpNode) → L.get_item_count c ≡ 0 → All (Absent L c) t
  empty-Absent c [] e = tt
  empty-Absent c (n ∷ t) e = ((λ i b. absurd (omega arith)), empty-Absent c t e)

-- One row more for each node, where no row shows the address of a node before.
show_table-count :
    (L : ListControl) (law : Laws L) (c : L.Control) (t : List ArpNode)
    → All (Absent L c) t
    → Distinct t
    → All Fits t
    → L.get_item_count (show_table L c t) ≡ L.get_item_count c + length t
unfolding show_table
show_table-count L law c [] h d f = omega arith
show_table-count L law c (n ∷ t) (h, hs) (u, d) (f, fs) = omega (
  arith,
  (show_node-last L law c n h).0,
  show_table-count L law (show_node L c n) t
      (show_node-All-Absent L law c n t h hs (texts_apart t n.protocol_addr f.0 fs u)) d fs,
)

-- From an empty list on, there are as many rows as nodes.
pub show_table-exact :
    (L : ListControl) (law : Laws L) (c : L.Control) (t : List ArpNode)
    → L.get_item_count c ≡ 0
    → Distinct t
    → All Fits t
    → L.get_item_count (show_table L c t) ≡ length t
show_table-exact L law c t e d f =
    omega (arith, e, show_table-count L law c t (empty-Absent L law c t e) d f)
