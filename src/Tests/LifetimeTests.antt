-- ===== src/Tests/LifetimeTests.antt =====
-- A list of two devices that WinPcap gives, made and released.
use arpwith_mfc.Base.{codes, ℕ, true, false, ok, refl, ◌≡◌, ◌⊎◌, List, [], ◌∷◌, Option, some, none}
use arpwith_mfc.Wire.Address.{fill_mac}
use arpwith_mfc.Ni.Adapters.{Device}
use arpwith_mfc.Ni.Lifetime.{
  delete_devices, OidData, Made, Ready, listed, failed, new_adapters, adapters_of, both,
  new_adapters_lem,
}

abbrev block : OidData
block = record { oid = 7; length = 9; address = fill_mac 205 }

abbrev card : Device
card = record { name = 1 ∷ []; description = []; addresses = [] }

abbrev made : Made
made = new_adapters (listed (card ∷ [])) (both (some block) (some block))

new_adapters_lem_example :
    ((errbuf : List ℕ) × (listed (card ∷ []) ≡ failed errbuf)
      × (made.messages ≡ errbuf ∷ [])
      × (made.all_devices ≡ [])
      × (adapters_of made ≡ none))
    ⊎ ((ds : List Device) × (listed (card ∷ []) ≡ listed ds)
        × ((some block ≡ none) ⊎ (some block ≡ none))
        × (made.messages ≡ codes "MALLOC FAIL" ∷ [])
        × (made.all_devices ≡ ds)
        × (adapters_of made ≡ none))
    ⊎ ((ds : List Device) × (i o : OidData) × (listed (card ∷ []) ≡ listed ds)
        × (some block ≡ some i)
        × (some block ≡ some o)
        × Ready ds i o made)
new_adapters_lem_example = new_adapters_lem (listed (card ∷ [])) (some block) (some block)

-- device 2 leads to device 0, and object 1 is something else
abbrev heap : List (Option ℕ)
heap = none ∷ none ∷ some 0 ∷ []

delete_devices_runs :
    delete_devices heap 2 (true ∷ true ∷ true ∷ []) (some 2) ≡ ok (false ∷ true ∷ false ∷ [])
unfolding delete_devices
delete_devices_runs = refl
