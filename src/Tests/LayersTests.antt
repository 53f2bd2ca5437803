-- ===== src/Tests/LayersTests.antt =====
-- The layers as the constructor of the dialog links them (ARP/ARPDlg.cpp).
use arpwith_mfc.Base.{codes, ℕ, ◌≡◌, refl, List, [], ◌∷◌, none, some, ok, arith, All, map, ◌>>=◌}
use arpwith_mfc.Layers.{
  Objects, base_layer, set_upper_under_layer, set_upper_layer, set_under_layer,
}
use arpwith_mfc.Start.{link_layers, layer_text}
use arpwith_mfc.Layers.Tokens.{make_list}
use arpwith_mfc.Layers.Manager.{
  Manager, init, add_layer, connect_layers, get_layer, link_layer, link_one,
}
use arpwith_mfc.Layers.Tree.{Forest, leaf, single, grouped, both, lower, print, attach, depth}
use arpwith_mfc.Layers.Links.{fresh, text_of, IsToken, connect_layers_lem}

-- the layers in the order in which the constructor adds them
abbrev layers : Objects
layers = map (λ s. base_layer (codes s)) ("ARP" ∷ "Network" ∷ "Ethernet" ∷ "NI" ∷ "Dlg" ∷ [])

abbrev added : List ℕ
added = 0 ∷ 1 ∷ 2 ∷ 3 ∷ 4 ∷ []

-- with the links that the layers work by: Ethernet passes IP packets to the first layer above it and ARP
-- packets to the second, and what the IP layer sends goes to ARP
abbrev linked : Objects
linked =
    record { name = codes "ARP"; under = some 2; uppers = [] }
    ∷ record { name = codes "Network"; under = some 0; uppers = 4 ∷ [] }
    ∷ record { name = codes "Ethernet"; under = some 3; uppers = 1 ∷ 0 ∷ [] }
    ∷ record { name = codes "NI"; under = none; uppers = 2 ∷ [] }
    ∷ record { name = codes "Dlg"; under = some 1; uppers = [] }
    ∷ []

-- The text in the source has two blanks before `-ARP`, which is read twice on that account.
link_layers_runs : (link_layers >>= λ m. ok m.objects) ≡ ok linked
unfolding link_layers init add_layer connect_layers base_layer make_list get_layer link_layer
    link_one set_upper_under_layer set_upper_layer set_under_layer
link_layers_runs = refl

-- the tokens of the text in the source, as they are read
abbrev above_ni : Forest
above_ni =
    grouped both (codes "Ethernet")
      (grouped both (codes "Network")
        (single both (codes "Dlg") (single lower (codes "ARP") (single lower (codes "ARP") leaf)))
        (single both (codes "ARP") leaf))
      leaf

above_ni-IsToken : All IsToken (print above_ni)
unfolding print
above_ni-IsToken = ground arith

-- the tokens of the text, with the number of blanks more than one before each
abbrev spaced : List (ℕ × List ℕ)
spaced =
    (0, codes "(")
    ∷ (0, codes "*Ethernet")
    ∷ (0, codes "(")
    ∷ (0, codes "*Network")
    ∷ (0, codes "(")
    ∷ (0, codes "*Dlg")
    ∷ (1, codes "-ARP")
    ∷ (0, codes ")")
    ∷ (0, codes "*ARP")
    ∷ (0, codes ")")
    ∷ (0, codes ")")
    ∷ []

text_of-spaced : text_of (codes "NI") spaced ≡ layer_text
text_of-spaced = refl

connect_layers_lem_example :
    (m : Manager) × (connect_layers (fresh layers added) layer_text ≡ ok m)
    × (m.objects ≡ linked)
    × (m.layers ≡ added)
    × (m.stack ≡ [])
unfolding base_layer get_layer attach depth print set_upper_under_layer set_upper_layer
    set_under_layer
connect_layers_lem_example =
    connect_layers_lem above_ni layers linked added (codes "NI") spaced 3 refl refl (omega arith)
      (omega arith, omega arith, (refl, (refl, tt))) above_ni-IsToken refl
