-- ===== src/Layers.antt =====
-- CBaseLayer (ARP/BaseLayer.h, ARP/BaseLayer.cpp): layer objects that point at one another. A pointer
-- is an index into the list of the objects, and NULL is `none`.
pub mod Tokens
pub mod Manager
pub mod Release
pub mod Tree
pub mod Links
use arpwith_mfc.Base.{
  ℕ, ◌+◌, ◌≡◌, List, [], ◌∷◌, ◌++◌, Option, none, some, Result, ok, fault, ◌>>=◌, ◌>>◌, or_fault,
  require, if◌then◌else◌, ◌==◌, ltb, length, get_elem?, set,
}

-- MAX_LAYER_NUMBER
abbrev pub max_layer_number : ℕ
max_layer_number = 0xff

-- The members of CBaseLayer. Of `mp_aUpperLayer` the first `m_nUpperLayerCount` entries are kept, the
-- others were never written.
pub record Layer : Type 0 where
  pub name : List ℕ
  pub under : Option ℕ
  pub uppers : List ℕ

abbrev pub Objects : Type 0
Objects = List Layer

-- CBaseLayer::CBaseLayer
unfoldable pub base_layer : List ℕ → Layer
base_layer name = record { name = name; under = none; uppers = [] }

-- CBaseLayer::SetUpperLayer. The array has no room for a layer past MAX_LAYER_NUMBER.
unfoldable pub set_upper_layer : Objects → ℕ → Option ℕ → Result Objects
set_upper_layer os this none = ok os
set_upper_layer os this (some p) = do
  l ← or_fault (get_elem? os this)
  require (ltb (length l.uppers) max_layer_number)
  ok (set os this (record l { uppers = l.uppers ++ p ∷ [] }))

-- CBaseLayer::SetUnderLayer
unfoldable pub set_under_layer : Objects → ℕ → Option ℕ → Result Objects
set_under_layer os this none = ok os
set_under_layer os this (some p) = do
  l ← or_fault (get_elem? os this)
  ok (set os this (record l { under = some p }))

-- CBaseLayer::SetUpperUnderLayer
unfoldable pub set_upper_under_layer : Objects → ℕ → Option ℕ → Result Objects
set_upper_under_layer os this none = ok os
set_upper_under_layer os this (some p) = do
  os1 ← set_upper_layer os this (some p)
  set_under_layer os1 p (some this)

-- CBaseLayer::SetUnderUpperLayer
unfoldable pub set_under_upper_layer : Objects → ℕ → Option ℕ → Result Objects
set_under_upper_layer os this none = ok os
set_under_upper_layer os this (some p) = do
  os1 ← set_under_layer os this (some p)
  set_upper_layer os1 p (some this)

-- CBaseLayer::GetUpperLayer, at an index from 0 on. The index that equals the count passes the test,
-- and reads an entry that was never written.
unfoldable pub get_upper_layer : Layer → ℕ → Result (Option ℕ)
get_upper_layer l nindex =
    if ltb (length l.uppers) nindex
    then ok none
    else or_fault (get_elem? l.uppers nindex) >>= λ p. ok (some p)

-- CBaseLayer::GetUnderLayer
unfoldable pub get_under_layer : Layer → Option ℕ
get_under_layer l = l.under

-- CBaseLayer::GetLayerName
unfoldable pub get_layer_name : Layer → List ℕ
get_layer_name l = l.name
