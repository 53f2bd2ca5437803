-- ===== src/Screen/Devices.antt =====
-- The boxes that list the adapters: CARPDlg::SetComboBox (ARP/ARPDlg.cpp) and the box of CDeviceAdd
-- (ARP/CDeviceAdd.cpp). CComboBox is a parameter.
use arpwith_mfc.Base.{
  codes, ℕ, zero, suc, ◌<◌, ◌≤◌, ◌≡◌, ◌≢◌, refl, sym, ap, ap₂, ◌∙◌, List, [], ◌∷◌, ◌++◌, Option,
  none, some, get_elem?, length, take, drop, arith,
}
use mathlib.Core.Path.{subst}
use mathlib.Core.List.{append_assoc, append-nil}
use arpwith_mfc.Ni.Adapters.{Device, descriptions}

-- CComboBox
pub record ComboBox : Type 1 where
  pub Box : Type 0
  pub items : Box → List (List ℕ)
  pub get_cur_sel : Box → Option ℕ
  pub add_string : Box → List ℕ → Box
  pub insert_string : Box → ℕ → List ℕ → Box
  pub delete_string : Box → ℕ → Box
  pub reset_content : Box → Box
  pub set_cur_sel : Box → ℕ → Box

-- The boxes are made without CBS_SORT, so that a string is added behind the others.
pub record BoxLaws (B : ComboBox) : Type 0 where
  pub added : (b : B.Box) (t : List ℕ) → B.items (B.add_string b t) ≡ B.items b ++ t ∷ []
  pub inserted_at :
      (b : B.Box) (i : ℕ) (t : List ℕ)
      → i ≤ length (B.items b)
      → B.items (B.insert_string b i t) ≡ take i (B.items b) ++ t ∷ drop i (B.items b)
  pub deleted :
      (b : B.Box) (i : ℕ)
      → i < length (B.items b)
      → B.items (B.delete_string b i) ≡ take i (B.items b) ++ drop (suc i) (B.items b)
  pub emptied : (b : B.Box) → B.items (B.reset_content b) ≡ []
  pub selected :
      (b : B.Box) (i : ℕ) → i < length (B.items b) → B.get_cur_sel (B.set_cur_sel b i) ≡ some i
  pub selected_items : (b : B.Box) (i : ℕ) → B.items (B.set_cur_sel b i) ≡ B.items b

-- CNILayer::SetAdapterComboBox
unfoldable pub set_adapter_combo_box : (B : ComboBox) → List Device → B.Box → B.Box
set_adapter_combo_box B [] b = b
set_adapter_combo_box B (d ∷ ds) b = set_adapter_combo_box B ds (B.add_string b d.description)

-- CARPDlg::SetComboBox
unfoldable pub set_combo_box : (B : ComboBox) → List Device → B.Box × B.Box → B.Box × B.Box
unfolding set_adapter_combo_box
set_combo_box B ds (outer_box, inner_box) =
    (set_adapter_combo_box B ds outer_box, set_adapter_combo_box B ds inner_box)

-- CDeviceAdd::SetAdapterList
unfoldable pub set_adapter_list : (B : ComboBox) → List Device → B.Box → B.Box
set_adapter_list B ds b = set_adapter_combo_box B ds (B.reset_content b)

-- CDeviceAdd::InitDeviceAddDlg, without the two empty texts. `none` stands for an index of -1.
unfoldable pub init_device_add_dlg : (B : ComboBox) → List Device → B.Box → Option ℕ → B.Box
unfolding set_adapter_list
init_device_add_dlg B ds b none = set_adapter_list B ds b
init_device_add_dlg B ds b (some i) =
    B.set_cur_sel
      (B.insert_string (B.delete_string (set_adapter_list B ds b) i) i (codes "Default")) i

-- CARPDlg::OnBnClickedButtonAdd
unfoldable pub add_clicked : (B : ComboBox) → List Device → B.Box → B.Box → B.Box
unfolding init_device_add_dlg
add_clicked B ds adapter device_list = init_device_add_dlg B ds device_list (B.get_cur_sel adapter)

-- CDeviceAdd::OnInitDialog
unfoldable pub init_device_dialog : (B : ComboBox) → List Device → B.Box → B.Box
init_device_dialog B ds b = set_adapter_list B ds b

-- CRoutingTableEntry::OnInitDialog: the first entry of the box for the interface is selected.
unfoldable pub init_routing_dialog : (B : ComboBox) → B.Box → B.Box
init_routing_dialog B b = B.set_cur_sel b 0

set_adapter_combo_box-items :
    (B : ComboBox) (law : BoxLaws B) (ds : List Device) (b : B.Box)
    → B.items (set_adapter_combo_box B ds b) ≡ B.items b ++ descriptions ds
unfolding set_adapter_combo_box descriptions
set_adapter_combo_box-items B law [] b = sym (append-nil (B.items b))
set_adapter_combo_box-items B law (d ∷ ds) b =
    set_adapter_combo_box-items B law ds (B.add_string b d.description)
    ∙ ap (λ x. x ++ descriptions ds) (law.added b d.description)
    ∙ append_assoc (B.items b) _ _

set_adapter_list-items :
    (B : ComboBox) (law : BoxLaws B) (ds : List Device) (b : B.Box)
    → B.items (set_adapter_list B ds b) ≡ descriptions ds
unfolding set_adapter_list
set_adapter_list-items B law ds b =
    set_adapter_combo_box-items B law ds (B.reset_content b)
    ∙ ap (λ x. x ++ descriptions ds) (law.emptied b)

-- the element at an index that the list has
take-drop_at :
    (xs : List (List ℕ)) (i : ℕ)
    → i < length xs
    → (take i (take i xs ++ drop (suc i) xs) ≡ take i xs)
      × (drop i (take i xs ++ drop (suc i) xs) ≡ drop (suc i) xs)
      × (i ≤ length (take i xs ++ drop (suc i) xs))
take-drop_at [] i h = absurd (omega arith)
take-drop_at (x ∷ xs) zero h = (refl, refl, omega arith)
take-drop_at (x ∷ xs) (suc i) h =
    let (a, b, c) = take-drop_at xs i (omega arith) in (ap (λ l. x ∷ l) a, b, omega arith)

replaced :
    (xs : List (List ℕ)) (t : List ℕ) (i j : ℕ) (d : List ℕ)
    → i < length xs
    → get_elem? xs j ≡ some d
    → i ≢ j
    → get_elem? (take i xs ++ t ∷ drop (suc i) xs) j ≡ some d
replaced [] t i j d h e n = absurd (omega arith)
replaced (x ∷ xs) t zero zero d h e n = absurd (n refl)
replaced (x ∷ xs) t zero (suc j) d h e n = e
replaced (x ∷ xs) t (suc i) zero d h e n = e
replaced (x ∷ xs) t (suc i) (suc j) d h e n =
    replaced xs t i j d (omega arith) e (λ z. n (ap suc z))

replaced_at :
    (xs : List (List ℕ)) (t : List ℕ) (i : ℕ)
    → i < length xs
    → (get_elem? (take i xs ++ t ∷ drop (suc i) xs) i ≡ some t)
      × (length (take i xs ++ t ∷ drop (suc i) xs) ≡ length xs)
replaced_at [] t i h = absurd (omega arith)
replaced_at (x ∷ xs) t zero h = (refl, refl)
replaced_at (x ∷ xs) t (suc i) h = let (a, b) = replaced_at xs t i (omega arith) in (a, ap suc b)

length-descriptions : (ds : List Device) → length (descriptions ds) ≡ length ds
unfolding descriptions
length-descriptions [] = refl
length-descriptions (d ∷ ds) = ap suc (length-descriptions ds)

init_device_add_dlg-items :
    (B : ComboBox) (law : BoxLaws B) (ds : List Device) (b : B.Box) (i : ℕ)
    → i < length (descriptions ds)
    → (B.get_cur_sel (init_device_add_dlg B ds b (some i)) ≡ some i)
      × (B.items (init_device_add_dlg B ds b (some i))
          ≡ take i (descriptions ds) ++ codes "Default" ∷ drop (suc i) (descriptions ds))
unfolding init_device_add_dlg
init_device_add_dlg-items B law ds b i h =
    let full = set_adapter_list B ds b in
    let all = set_adapter_list-items B law ds b in
    let cut = B.delete_string full i in
    let rest : B.items cut ≡ take i (descriptions ds) ++ drop (suc i) (descriptions ds) =
      law.deleted full i (subst (λ x. i < length x) (sym all) h)
      ∙ ap (λ x. take i x ++ drop (suc i) x) all in
    let (front, back, long) = take-drop_at (descriptions ds) i h in
    let filled : B.items (B.insert_string cut i (codes "Default"))
        ≡ take i (descriptions ds) ++ codes "Default" ∷ drop (suc i) (descriptions ds) =
      law.inserted_at cut i (codes "Default") (subst (λ x. i ≤ length x) (sym rest) long)
      ∙ ap (λ x. take i x ++ codes "Default" ∷ drop i x) rest
      ∙ ap₂ (λ x y. x ++ codes "Default" ∷ y) front back in
    (
      law.selected _ i (
          subst (λ x. i < length x) (sym filled)
            (omega (arith, (replaced_at (descriptions ds) (codes "Default") i h).1, h))),
      law.selected_items _ i ∙ filled,
    )

-- The button `Add`, where an adapter is selected in the main dialog, selects the same index in the other
-- dialog. There the entry reads "Default", every other index has the description of its device, and
-- there are as many entries as devices: the indices of the two boxes mean the same devices.
pub add_clicked_lem :
    (B : ComboBox) (law : BoxLaws B) (ds : List Device) (adapter b : B.Box) (i j : ℕ) (d : List ℕ)
    → B.get_cur_sel adapter ≡ some i
    → i < length ds
    → get_elem? (descriptions ds) j ≡ some d
    → i ≢ j
    → (b' : B.Box) × (add_clicked B ds adapter b ≡ b')
      × (B.get_cur_sel b' ≡ some i)
      × (get_elem? (B.items b') i ≡ some (codes "Default"))
      × (get_elem? (B.items b') j ≡ some d)
      × (length (B.items b') ≡ length ds)
unfolding add_clicked
add_clicked_lem B law ds adapter b i j d chosen h e n =
    let h' : i < length (descriptions ds) = omega (arith, length-descriptions ds) in
    let (sel, all) = init_device_add_dlg-items B law ds b i h' in
    let (at, long) = replaced_at (descriptions ds) (codes "Default") i h' in
    (
      init_device_add_dlg B ds b (some i),
      rw chosen refl,
      sel,
      subst (λ x. get_elem? x i ≡ some (codes "Default")) (sym all) at,
      subst (λ x. get_elem? x j ≡ some d) (sym all)
          (replaced (descriptions ds) (codes "Default") i j d h' e n),
      ap length all ∙ long ∙ length-descriptions ds,
    )
