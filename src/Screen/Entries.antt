-- ===== src/Screen/Entries.antt =====
-- The rows that the dialogs add to the lists for the routing table and the proxy table.
use arpwith_mfc.Base.{
  ℕ, zero, suc, ◌+◌, ◌/◌, ◌%◌, ap, ◌++◌, Bool-cases, ltb, ltb→le, ltb→lt, true, false, All,
  if◌then◌else◌, ◌⊎◌, ◌<◌, ◌≤◌, ◌≡◌, ◌≢◌, refl, ◌∙◌, inl, inr, Bool, List, [], ◌∷◌, some, get_elem?,
  length, arith,
}
use mathlib.Core.Path.{subst}
use arpwith_mfc.Wire.Address.{Ip}
use arpwith_mfc.State.{Route, Stack}
use arpwith_mfc.IpLayer.Selection.{NoneBelow, FirstBelow, add_route_lem}
use arpwith_mfc.Text.{ip_to_str}
use arpwith_mfc.Dialog.{checked_flags, routing_entry_ok}
use arpwith_mfc.Screen.{ListControl, Laws, add_routing_row, entry_ok, checked_text, print_number}

-- the texts set in the columns from `j` on
abbrev set_all : (L : ListControl) → L.Control → ℕ → ℕ → List (List ℕ) → L.Control
set_all L c i j [] = c
set_all L c i j (t ∷ ts) = set_all L (L.set_item_text c i j t) i (suc j) ts

module _ (L : ListControl) (law : Laws L) where
  set_all-count :
      (c : L.Control) (i j : ℕ) (ts : List (List ℕ))
      → L.get_item_count (set_all L c i j ts) ≡ L.get_item_count c
  set_all-count c i j [] = refl
  set_all-count c i j (t ∷ ts) =
      set_all-count (L.set_item_text c i j t) i (suc j) ts ∙ law.text_count c i j t

  set_all_before :
      (c : L.Control) (i j : ℕ) (ts : List (List ℕ)) (l : ℕ)
      → l < j
      → L.get_item_text (set_all L c i j ts) i l ≡ L.get_item_text c i l
  set_all_before c i j [] l h = refl
  set_all_before c i j (t ∷ ts) l h =
      set_all_before (L.set_item_text c i j t) i (suc j) ts l (omega arith)
      ∙ law.text_other c i j t i l (inr (λ z. omega arith))

  set_all_other :
      (c : L.Control) (i j : ℕ) (ts : List (List ℕ)) (k l : ℕ)
      → k ≢ i
      → L.get_item_text (set_all L c i j ts) k l ≡ L.get_item_text c k l
  set_all_other c i j [] k l n = refl
  set_all_other c i j (t ∷ ts) k l n =
      set_all_other (L.set_item_text c i j t) i (suc j) ts k l n
      ∙ law.text_other c i j t k l (inl n)

  -- Each text stands in its column.
  set_all_at :
      (c : L.Control) (i j : ℕ) (ts : List (List ℕ)) (m : ℕ) (t : List ℕ)
      → i < L.get_item_count c
      → j + length ts ≤ L.get_column_count c
      → get_elem? ts m ≡ some t
      → L.get_item_text (set_all L c i j ts) i (j + m) ≡ t
  set_all_at c i j [] m t h k e = cc
  set_all_at c i j (u ∷ ts) zero t h k e =
      subst (λ x. L.get_item_text (set_all L (L.set_item_text c i j u) i (suc j) ts) i x ≡ t)
        (omega arith)
        (set_all_before (L.set_item_text c i j u) i (suc j) ts j (omega arith)
          ∙ law.text_set c i j u h (omega arith)
          ∙ cc)
  set_all_at c i j (u ∷ ts) (suc m) t h k e =
      subst (λ x. L.get_item_text (set_all L (L.set_item_text c i j u) i (suc j) ts) i x ≡ t)
        (omega arith)
        (set_all_at (L.set_item_text c i j u) i (suc j) ts m t
          (omega (arith, law.text_count c i j u)) (omega (arith, law.text_columns c i j u)) e)

-- More fuel than the number gives no other text.
print_number-enough : (f g n : ℕ) → n < f → n < g → print_number f n ≡ print_number g n
unfolding print_number
print_number-enough zero g n h k = absurd (omega arith)
print_number-enough (suc f) zero n h k = absurd (omega arith)
print_number-enough (suc f) (suc g) n h k = elim (Bool-cases (ltb n 10)) [
  | inl y ↦ rw y refl
  | inr z ↦ rw z (
      ap (λ t. t ++ (48 + n % 10) ∷ [])
        (print_number-enough f g (n / 10) (omega (arith, ltb→le)) (omega (arith, ltb→le))))
]

-- the flags of a route: Up is 64, Gateway 2 and Host 1
abbrev pub flags_of : Bool → Bool → Bool → ℕ
flags_of up via host = (if up then 64 else 0) + ((if via then 2 else 0) + (if host then 1 else 0))

checked_flags_lem : (up via host : Bool) → checked_flags up via host ≡ flags_of up via host
unfolding checked_flags
checked_flags_lem true true true = refl
checked_flags_lem true true false = refl
checked_flags_lem true false true = refl
checked_flags_lem true false false = refl
checked_flags_lem false true true = refl
checked_flags_lem false true false = refl
checked_flags_lem false false true = refl
checked_flags_lem false false false = refl

-- The button `OK` of the dialog for a route adds one route, of the three addresses, the flags of the boxes and
-- the interface. It stands behind the rows whose gateways have no octet below its own, up to the first
-- that has one, and the other routes and all else that the layers hold stay. A row comes behind the others on the
-- screen and shows the three addresses, the flags, the interface and the number of the row, in this
-- order; the other rows, if there are any, stay as they are. The list has at least six columns.
pub entry_ok_lem :
    (L : ListControl) (law : Laws L) (s : Stack) (c : L.Control) (dst mask gateway : Ip)
    (up via host : Bool) (interface_text : List ℕ) (interface k l m : ℕ) (t : List ℕ)
    → 5 < L.get_column_count c
    → get_elem?
        (ip_to_str dst
          ∷ ip_to_str mask
          ∷ ip_to_str gateway
          ∷ checked_text up via host
          ∷ interface_text
          ∷ print_number (L.get_item_count c + 2) (L.get_item_count c + 1)
          ∷ [])
        m
      ≡ some t
    → (before after : List Route) × (c' : L.Control) × (s.route_table ≡ before ++ after)
      × All (λ x. NoneBelow x.gateway gateway) before
      × FirstBelow gateway after
      × (entry_ok L s c dst mask gateway up via host interface_text interface ≡ (
        record s {
          route_table =
              before
              ++ record {
                destination_ip = dst;
                netmask = mask;
                gateway = gateway;
                flag = flags_of up via host;
                interface = interface;
              }
                ∷ after;
        },
        c',
      ))
      × (L.get_item_count c' ≡ suc (L.get_item_count c))
      × (L.get_item_text c' (L.get_item_count c) m ≡ t)
      × ((L.get_item_count c ≤ k) ⊎ (L.get_item_text c' k l ≡ L.get_item_text c k l))
unfolding entry_ok add_routing_row routing_entry_ok
entry_ok_lem L law s c dst mask gateway up via host interface_text interface k l m t h e =
    let i = L.get_item_count c in
    let ts =
      ip_to_str dst
      ∷ ip_to_str mask
      ∷ ip_to_str gateway
      ∷ checked_text up via host
      ∷ interface_text
      ∷ print_number (i + 2) (i + 1)
      ∷ [] in
    let d = L.insert_item c i [] in
    let (before, after, split, run, stop, (added, _)) =
      add_route_lem s.route_table dst mask gateway (checked_flags up via host) interface in
    (
      before,
      after,
      set_all L d i 0 ts,
      split,
      run,
      stop,
      ap (λ rs. (record s { route_table = rs }, set_all L d i 0 ts))
          (added
            ∙ ap
                (λ n.
                  before
                  ++ record {
                    destination_ip = dst;
                    netmask = mask;
                    gateway = gateway;
                    flag = n;
                    interface = interface;
                  }
                    ∷ after)
                (checked_flags_lem up via host)),
      set_all-count L law d i 0 ts ∙ law.inserted_count c [],
      subst (λ x. L.get_item_text (set_all L d i 0 ts) i x ≡ t) (omega arith)
          (set_all_at L law d i 0 ts m t (omega (arith, law.inserted_count c []))
            (omega (arith, law.inserted_columns c i [])) e),
      elim (Bool-cases (ltb k i)) [
        | inr z ↦ inl (ltb→le k i z)
        | inl y ↦ inr (
            set_all_other L law d i 0 ts k l (λ z. omega (arith, ltb→lt k i y))
            ∙ law.inserted_other c [] k l (ltb→lt k i y))
      ],
    )
