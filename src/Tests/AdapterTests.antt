-- ===== src/Tests/AdapterTests.antt =====
-- Two network cards.
use arpwith_mfc.Base.{ℕ, some, get_or, ◌≡◌, refl, [], ◌∷◌, ok, arith}
use arpwith_mfc.Wire.Address.{Mac, fill_mac}
use arpwith_mfc.State.{outer}
use arpwith_mfc.Ni.Adapters.{Device, Pcap, Adapters, init, set_adapter, get_mac_address}
use arpwith_mfc.Ni.Adapters.Queries.{get_mac_address_lem}
use arpwith_mfc.Tests.Hosts.{mac_of}

abbrev card : ℕ → Device
card n = record { name = n ∷ []; description = []; addresses = [] }

abbrev cards : Adapters
cards = init (card 1 ∷ card 2 ∷ []) (record { at_inner = fill_mac 0; at_outer = fill_mac 0 })

-- A card of the name `n` has the Ethernet address that ends in `n`.
abbrev cards_pcap : Pcap
cards_pcap = record { open_live = λ _. some 3; request = λ name _. mac_of (get_or name 0 0) }

get_mac_address_lem_example :
    (own other : Mac) × (a1 a2 : Adapters) × (own ≡ mac_of 1)
    × (other ≡ mac_of 2)
    × (set_adapter cards_pcap cards 0 outer ≡ ok (some own, a1))
    × (get_mac_address cards_pcap a1 0 outer ≡ ok (own, a1))
    × (get_mac_address cards_pcap a1 1 outer ≡ ok (other, a2))
    × (get_mac_address cards_pcap a2 0 outer ≡ ok (other, a2))
unfolding init
get_mac_address_lem_example =
    get_mac_address_lem cards_pcap cards 0 1 3 (card 1) (card 2) outer refl refl (omega arith) refl
