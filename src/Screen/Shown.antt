-- ===== src/Screen/Shown.antt =====
-- The rows that CARPDlg::updateTable leaves on the screen.
use arpwith_mfc.Base.{
  ℕ, zero, suc, ◌<◌, ◌≤◌, ◌≡◌, ◌≢◌, refl, sym, ap, ◌∙◌, inl, inr, List, [], ◌∷◌, Option, none, some,
  All, Option-cases, Bool-cases, arith,
}
use mathlib.Core.Path.{subst}
use mathlib.Core.Bool.{true≢false}
use arpwith_mfc.Wire.Address.{Ip, ip_bytes, same_ip, same_ip_iff}
use arpwith_mfc.State.{ArpNode}
use arpwith_mfc.Arp.Cache.{lookup}
use arpwith_mfc.Arp.Distinct.{Distinct}
use arpwith_mfc.Text.{ip_to_str, mac_to_str}
use arpwith_mfc.Text.Same.{ip_to_str-injective}
use arpwith_mfc.Screen.{ListControl, Laws, row_of, show_status, show_node, show_table, status_text}

-- the octets of its address fit a byte, and the status is one of the three
abbrev pub Fits : ArpNode → Type 0
Fits n = All (λ x. x < 256) (ip_bytes n.protocol_addr) × (n.status < 3)

-- some row shows the node's addresses and its status
abbrev pub Shown : (L : ListControl) → L.Control → ArpNode → Type 0
Shown L c n =
    (i : ℕ) × (i < L.get_item_count c)
    × (L.get_item_text c i 0 ≡ ip_to_str n.protocol_addr)
    × (L.get_item_text c i 1 ≡ mac_to_str n.hardware_addr)
    × (status_text n.status ≡ some (L.get_item_text c i 2))

status_text-some : (k : ℕ) → k < 3 → (t : List ℕ) × (status_text k ≡ some t)
unfolding status_text
status_text-some zero h = (_, refl)
status_text-some (suc zero) h = (_, refl)
status_text-some (suc (suc zero)) h = (_, refl)
status_text-some (suc (suc (suc k))) h = absurd (omega arith)

module _ (L : ListControl) (law : Laws L) where
  -- What row_of gives: a row that exists and shows the text, the other rows being what they were.
  record RowOf (c : L.Control) (t : List ℕ) (r : ℕ × L.Control) : Type 0 where
    there : r.0 < L.get_item_count r.1
    shows : L.get_item_text r.1 r.0 0 ≡ t
    columns : L.get_column_count r.1 ≡ L.get_column_count c
    more : L.get_item_count c ≤ L.get_item_count r.1
    others : (k j : ℕ) → k < L.get_item_count c → L.get_item_text r.1 k j ≡ L.get_item_text c k j

  row_of-RowOf : (c : L.Control) (t : List ℕ) → RowOf c t (row_of L c t)
  unfolding row_of
  row_of-RowOf c t = elim (Option-cases (L.find_item c t)) [
    | inl e ↦
        rw (row_of, e)
          (record {
            there = omega (arith, law.inserted_count c t);
            shows = law.inserted c t;
            columns = law.inserted_columns c (L.get_item_count c) t;
            more = omega (arith, law.inserted_count c t);
            others = λ k j h. law.inserted_other c t k j h;
          })
    | inr (i, e) ↦
        rw (row_of, e)
          (record {
            there = (law.found c t i e).0;
            shows = (law.found c t i e).1;
            columns = refl;
            more = omega arith;
            others = λ k j h. refl;
          })
  ]

  -- A node's row is there when the body of the loop is done.
  show_node-Shown :
      (c : L.Control) (n : ArpNode)
      → 2 < L.get_column_count c
      → n.status < 3
      → Shown L (show_node L c n) n
  unfolding show_node show_status
  show_node-Shown c n h k =
      let r = row_of L c (ip_to_str n.protocol_addr) in
      let v = row_of-RowOf c (ip_to_str n.protocol_addr) in
      let u = L.set_item_text r.1 r.0 1 (mac_to_str n.hardware_addr) in
      let (t, e) = status_text-some n.status k in
      subst (λ x. Shown L (show_status L u r.0 x) n) (sym e)
        (
          r.0,
          omega (
            arith,
            v.there,
            law.text_count u r.0 2 t,
            law.text_count r.1 r.0 1 (mac_to_str n.hardware_addr),
          ),
          law.text_other u r.0 2 t r.0 0 (inr (λ z. absurd (omega arith)))
              ∙ law.text_other r.1 r.0 1 (mac_to_str n.hardware_addr) r.0 0
                  (inr (λ z. absurd (omega arith)))
              ∙ v.shows,
          law.text_other u r.0 2 t r.0 1 (inr (λ z. absurd (omega arith)))
              ∙ law.text_set r.1 r.0 1 (mac_to_str n.hardware_addr) v.there
                  (omega (arith, v.columns)),
          e
              ∙ ap some (
                  sym (
                    law.text_set u r.0 2 t
                      (omega
                        (arith, v.there, law.text_count r.1 r.0 1 (mac_to_str n.hardware_addr)))
                      (omega (
                        arith,
                        v.columns,
                        law.text_columns r.1 r.0 1 (mac_to_str n.hardware_addr),
                      )))),
        )

  -- The row of another address stays as it is.
  pub record Keeps (c d : L.Control) (k : ℕ) : Type 0 where
    pub still : k < L.get_item_count d
    pub same : (j : ℕ) → L.get_item_text d k j ≡ L.get_item_text c k j

  set_item_text-Keeps :
      (c : L.Control) (i j : ℕ) (t : List ℕ) (k : ℕ)
      → k ≢ i
      → k < L.get_item_count c
      → Keeps c (L.set_item_text c i j t) k
  set_item_text-Keeps c i j t k n h = record {
    still = omega (arith, law.text_count c i j t);
    same = λ l. law.text_other c i j t k l (inl n);
  }

  show_status-Keeps :
      (c : L.Control) (i : ℕ) (t : Option (List ℕ)) (k : ℕ)
      → k ≢ i
      → k < L.get_item_count c
      → Keeps c (show_status L c i t) k
  unfolding show_status
  show_status-Keeps c i none k n h = record { still = h; same = λ j. refl }
  show_status-Keeps c i (some t) k n h = set_item_text-Keeps c i 2 t k n h

  pub show_node-Keeps :
      (c : L.Control) (n : ArpNode) (k : ℕ)
      → k < L.get_item_count c
      → L.get_item_text c k 0 ≢ ip_to_str n.protocol_addr
      → Keeps c (show_node L c n) k
  unfolding show_node
  show_node-Keeps c n k h ne =
      let r = row_of L c (ip_to_str n.protocol_addr) in
      let v = row_of-RowOf c (ip_to_str n.protocol_addr) in
      let apart : k ≢ r.0 =
        λ z. ne (sym (v.others k 0 h) ∙ ap (λ i. L.get_item_text r.1 i 0) z ∙ v.shows) in
      let p =
        set_item_text-Keeps r.1 r.0 1 (mac_to_str n.hardware_addr) k apart
          (omega (arith, v.more)) in
      let q =
        show_status-Keeps (L.set_item_text r.1 r.0 1 (mac_to_str n.hardware_addr)) r.0
          (status_text n.status) k apart p.still in
      record { still = q.still; same = λ j. q.same j ∙ p.same j ∙ v.others k j h }

  status_columns :
      (d : L.Control) (i : ℕ) (t : Option (List ℕ))
      → L.get_column_count (show_status L d i t) ≡ L.get_column_count d
  unfolding show_status
  status_columns d i none = refl
  status_columns d i (some t) = law.text_columns d i 2 t

  show_node-columns :
      (c : L.Control) (n : ArpNode) → L.get_column_count (show_node L c n) ≡ L.get_column_count c
  unfolding show_node
  show_node-columns c n =
      let r = row_of L c (ip_to_str n.protocol_addr) in
      status_columns (L.set_item_text r.1 r.0 1 (mac_to_str n.hardware_addr)) r.0
        (status_text n.status)
      ∙ law.text_columns r.1 r.0 1 (mac_to_str n.hardware_addr)
      ∙ (row_of-RowOf c (ip_to_str n.protocol_addr)).columns

  show_table-Keeps :
      (c : L.Control) (t : List ArpNode) (m : ArpNode)
      → All (λ n. ip_to_str m.protocol_addr ≢ ip_to_str n.protocol_addr) t
      → Shown L c m
      → Shown L (show_table L c t) m
  unfolding show_table
  show_table-Keeps c [] m ne s = s
  show_table-Keeps c (n ∷ t) m (ne, nes) (i, h, ip, mac, st) =
      let p = show_node-Keeps c n i h (λ z. ne (sym ip ∙ z)) in
      show_table-Keeps (show_node L c n) t m nes
        (i, p.still, p.same 0 ∙ ip, p.same 1 ∙ mac, st ∙ ap some (sym (p.same 2)))

-- The texts of the nodes behind a node of another address are others.
pub texts_apart :
    (t : List ArpNode) (a : Ip)
    → All (λ x. x < 256) (ip_bytes a)
    → All Fits t
    → lookup t a ≡ none
    → All (λ n. ip_to_str a ≢ ip_to_str n.protocol_addr) t
unfolding lookup
texts_apart [] a b f e = tt
texts_apart (n ∷ t) a b (f, fs) e = elim (Bool-cases (same_ip n.protocol_addr a)) [
  | inl y ↦ cc
  | inr z ↦ (
    (λ w. true≢false (
        sym
          ((same_ip_iff n.protocol_addr a).1 (sym (ip_to_str-injective a n.protocol_addr b f.0 w)))
        ∙ z)),
    texts_apart t a b fs (rw z at e),
  )
]

-- After the loop of CARPDlg::updateTable each node of the table has a row with its addresses and its
-- status, whatever rows were there before. No two nodes have the same address, their octets fit a byte,
-- their status is one of the three, and the list has at least three columns.
pub show_table-Shown :
    (L : ListControl) (law : Laws L) (c : L.Control) (t : List ArpNode)
    → 2 < L.get_column_count c
    → Distinct t
    → All Fits t
    → All (Shown L (show_table L c t)) t
unfolding show_table
show_table-Shown L law c [] h d f = tt
show_table-Shown L law c (n ∷ t) h (u, d) (f, fs) = (
  show_table-Keeps L law (show_node L c n) t n (texts_apart t n.protocol_addr f.0 fs u)
      (show_node-Shown L law c n h f.1),
  show_table-Shown L law (show_node L c n) t (omega (arith, show_node-columns L law c n)) d fs,
)
