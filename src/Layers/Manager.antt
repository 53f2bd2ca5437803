-- ===== src/Layers/Manager.antt =====
-- CLayerManager (ARP/LayerManager.h, ARP/LayerManager.cpp).
use arpwith_mfc.Base.{
  ℕ, Bool, true, false, ◌&&◌, List, [], ◌∷◌, ◌++◌, Option, none, some, Result, ok, fault, ◌>>=◌,
  or_fault, if◌then◌else◌, ◌==◌, ltb, length, get_elem?,
}
use arpwith_mfc.Layers.{
  Objects, max_layer_number, set_upper_layer, set_under_layer, set_upper_under_layer,
  get_layer_name,
}
use arpwith_mfc.Layers.Tokens.{make_list}

-- The members of CLayerManager, with the layer objects that its pointers lead to. The stack's top is
-- the head of its list, so `m_nTop` is one less than the length.
pub record Manager : Type 0 where
  pub objects : Objects
  pub layers : List ℕ
  pub stack : List ℕ
  pub tokens : List (List ℕ)

-- CLayerManager::CLayerManager
unfoldable pub init : Objects → Manager
init os = record { objects = os; layers = []; stack = []; tokens = [] }

-- CLayerManager::AddLayer
unfoldable pub add_layer : Manager → ℕ → Result Manager
add_layer m p =
    if ltb (length m.layers) max_layer_number
    then ok (record m { layers = m.layers ++ p ∷ [] })
    else fault

-- CLayerManager::GetLayer(int). Behind the last layer the array was never written.
unfoldable pub get_layer_at : Manager → ℕ → Result ℕ
get_layer_at m index = or_fault (get_elem? m.layers index)

-- `!strcmp(a, b)`
unfoldable pub same_text : List ℕ → List ℕ → Bool
same_text [] [] = true
same_text [] (d ∷ ds) = false
same_text (c ∷ cs) [] = false
same_text (c ∷ cs) (d ∷ ds) = c == d && same_text cs ds

-- the loop of CLayerManager::GetLayer(char*)
unfoldable pub get_layer : Objects → List ℕ → List ℕ → Result (Option ℕ)
unfolding same_text get_layer_name
get_layer os [] name = ok none
get_layer os (p ∷ ps) name = elim (get_elem? os p) [
  | none ↦ fault
  | some l ↦ if same_text name (get_layer_name l) then ok (some p) else get_layer os ps name
]

-- CLayerManager::Push. The test lets one layer too many through: it is written past the array.
unfoldable pub push : List ℕ → ℕ → Result (List ℕ)
push st p =
    if ltb max_layer_number (length st)
    then ok st
    else if length st == max_layer_number
    then fault
    else ok (p ∷ st)

-- CLayerManager::Pop
unfoldable pub pop : List ℕ → List ℕ
pop [] = []
pop (p ∷ st) = st

-- CLayerManager::Top
unfoldable pub top : List ℕ → Option ℕ
top [] = none
top (p ∷ st) = some p

-- What LinkLayer goes on with from node to node.
pub record Linking : Type 0 where
  pub objects : Objects
  pub stack : List ℕ
  pub current : Option ℕ

-- The three modes of a name: `*`, `+`, `-`; the call is made on the top of the stack, which must be there.
unfoldable pub link_mode : Objects → List ℕ → ℕ → Option ℕ → Result Objects
unfolding top
link_mode os st mode p =
    if mode == b'*'
    then (or_fault (top st) >>= λ t. set_upper_under_layer os t p)
    else if mode == b'+'
    then (or_fault (top st) >>= λ t. set_upper_layer os t p)
    else if mode == b'-'
    then (or_fault (top st) >>= λ t. set_under_layer os t p)
    else ok os

-- The body of the loop of LinkLayer where a layer is at hand.
unfoldable pub link_token : List ℕ → Linking → ℕ → ℕ → List ℕ → Result Linking
unfolding push pop link_mode get_layer
link_token layers s current c name =
    if c == b'('
    then (push s.stack current >>= λ st. ok (record s { stack = st }))
    else if c == b')'
    then ok (record s { stack = pop s.stack })
    else (get_layer s.objects layers name >>= λ p.
        link_mode s.objects s.stack c p >>= λ os. ok (record s { objects = os; current = p }))

-- One round of the loop. A token has at least one character.
unfoldable pub link_one : List ℕ → Linking → Option ℕ → List ℕ → Result Linking
unfolding link_token
link_one layers s none t = get_layer s.objects layers t >>= λ p. ok (record s { current = p })
link_one layers s (some l) [] = fault
link_one layers s (some l) (c ∷ name) = link_token layers s l c name

-- The loop of CLayerManager::LinkLayer.
unfoldable pub link_layer : List ℕ → Linking → List (List ℕ) → Result Linking
link_layer layers s [] = ok s
link_layer layers s (t ∷ ts) = link_one layers s s.current t >>= λ s'. link_layer layers s' ts

-- CLayerManager::ConnectLayers: the new tokens stand behind those of earlier calls, and all are linked.
unfoldable pub connect_layers : Manager → List ℕ → Result Manager
connect_layers m text = do
  ts ← make_list text
  let all = m.tokens ++ ts
  s ← link_layer m.layers (record { objects = m.objects; stack = m.stack; current = none }) all
  ok (record m { objects = s.objects; stack = s.stack; tokens = all })
