-- ===== src/Ni/Lifetime.antt =====
-- The constructor and the destructor of CNILayer (ARP/NILayer.cpp), with what pcap_findalldevs and malloc
-- give as parameters.
use arpwith_mfc.Base.{
  codes, ℕ, zero, suc, ◌≤◌, ◌≡◌, ◌≢◌, refl, ◌⊎◌, inl, inr, ◌∙◌, Bool, true, false, ◌++◌, List, [],
  ◌∷◌, Option, none, some, Result, ok, fault, ◌>>=◌, or_fault, arith, All, Result-cases, length,
  get_elem?,
}
use arpwith_mfc.Wire.Address.{Mac}
use arpwith_mfc.State.{Both}
use arpwith_mfc.Layers.Release.{delete_object, de_alloc_layer, Once, de_alloc_layer_lem}
use arpwith_mfc.Ni.Adapters.{Device, Adapters}

-- `PACKET_OID_DATA`; `address` is its `Data`
pub record OidData : Type 0 where
  pub oid : ℕ
  pub length : ℕ
  pub address : Mac

-- pcap_findalldevs gives the devices, or -1 and a text in `errbuf`.
pub data Listing : Type 0 where
  listed : List Device → Listing
  failed : List ℕ → Listing

-- The members of CNILayer, `none` standing for a null pointer, and the message boxes that were shown.
pub record Made : Type 0 where
  pub all_devices : List Device
  pub device : Both (Option ℕ)
  pub adapter_object : Both (Option ℕ)
  pub oid_data : Both (Option OidData)
  pub can_read : Bool
  pub messages : List (List ℕ)

abbrev malloc_fail : List ℕ
malloc_fail = codes "MALLOC FAIL"

-- the fields that are written once both were allocated
abbrev pub for_address : OidData → OidData
for_address o = record o { oid = 0x01010101; length = 6 }

-- an array of two
abbrev pub both : {A : Type 0} → A → A → Both A
both i o = record { at_inner = i; at_outer = o }

-- The initialisers `device()`, `m_AdapterObject()` and `canRead(false)`, and the first lines of the body. The
-- list of the devices is what pcap_findalldevs writes.
abbrev blank : List Device → Made
blank ds = record {
  all_devices = ds;
  device = both none none;
  adapter_object = both none none;
  oid_data = both none none;
  can_read = false;
  messages = [];
}

-- The second `try` of the constructor, and its handler.
unfoldable pub allocate : Made → Option OidData → Option OidData → Made
allocate m none o = record m { oid_data = both none o; messages = m.messages ++ malloc_fail ∷ [] }
allocate m (some i) none = record m {
  oid_data = both (some i) none;
  messages = m.messages ++ malloc_fail ∷ [];
}
allocate m (some i) (some o) = record m {
  oid_data = both (some (for_address i)) (some (for_address o));
  adapter_object = both none none;
}

-- CNILayer::CNILayer, where malloc gives `found`
unfoldable pub new_adapters : Listing → Both (Option OidData) → Made
new_adapters (failed errbuf) found = record (blank []) { messages = errbuf ∷ [] }
new_adapters (listed ds) found = allocate (blank ds) found.at_inner found.at_outer

-- The members as the other functions of CNILayer take them: both data are there.
unfoldable pub adapters_of : Made → Option Adapters
adapters_of m = elim m.oid_data.at_inner [
  | none ↦ none
  | some i ↦ elim m.oid_data.at_outer [
    | none ↦ none
    | some o ↦ some (record {
      all_devices = m.all_devices;
      device = m.device;
      adapter_object = m.adapter_object;
      oid_data = both i.address o.address;
      can_read = m.can_read;
    })
  ]
]

-- The loop of CNILayer::~CNILayer. `next` holds the `next` pointer of each device, and `there` tells which
-- were not deleted yet; to delete one twice is a fault, and so are more rounds than `fuel`.
unfoldable pub delete_devices : List (Option ℕ) → ℕ → List Bool → Option ℕ → Result (List Bool)
unfolding delete_object
delete_devices next fuel there none = ok there
delete_devices next zero there (some temp) = fault
delete_devices next (suc fuel) there (some temp) = do
  rest ← or_fault (get_elem? next temp)
  left ← delete_object there temp
  delete_devices next fuel left rest

-- CNILayer::~CNILayer. After the loop the member array `OidData` is deleted, which no `new` gave.
unfoldable pub destroy : List (Option ℕ) → ℕ → List Bool → Option ℕ → Result (List Bool)
unfolding delete_devices
destroy next fuel there all_devices = delete_devices next fuel there all_devices >>= λ _. fault

-- Both data were allocated: no message is shown, both ask by the number 0x01010101 for six bytes, no device is
-- chosen, no handle is open, nothing is read, and the devices are those that were listed.
abbrev pub Ready : List Device → OidData → OidData → Made → Type 0
Ready ds i o m =
    (m.messages ≡ [])
    × (m.oid_data
        ≡ both (some (record { oid = 16843009; length = 6; address = i.address }))
            (some (record { oid = 16843009; length = 6; address = o.address })))
    × (adapters_of m
        ≡ some (record {
          all_devices = ds;
          device = both none none;
          adapter_object = both none none;
          oid_data = both i.address o.address;
          can_read = false;
        }))

-- The constructor of CNILayer, in all cases. Where the listing fails there are no devices, its text is the one
-- message, and no data are there. Where a datum cannot be allocated the devices stay and the one message
-- is MALLOC FAIL; with a missing datum the other functions do not find what they need. Where both are
-- allocated there is no message, both data ask for an Ethernet address (0x01010101) of six bytes, and
-- the members are as the other functions take them: no device chosen, no handle open, nothing read.
pub new_adapters_lem :
    (l : Listing) (found_inner found_outer : Option OidData)
    → (let m = new_adapters l (both found_inner found_outer) in
        ((errbuf : List ℕ) × (l ≡ failed errbuf)
          × (m.messages ≡ errbuf ∷ [])
          × (m.all_devices ≡ [])
          × (adapters_of m ≡ none))
        ⊎ ((ds : List Device) × (l ≡ listed ds)
            × ((found_inner ≡ none) ⊎ (found_outer ≡ none))
            × (m.messages ≡ codes "MALLOC FAIL" ∷ [])
            × (m.all_devices ≡ ds)
            × (adapters_of m ≡ none))
        ⊎ ((ds : List Device) × (i o : OidData) × (l ≡ listed ds)
            × (found_inner ≡ some i)
            × (found_outer ≡ some o)
            × Ready ds i o m))
unfolding new_adapters allocate adapters_of
new_adapters_lem (failed e) i o = inl (e, refl, refl, refl, refl)
new_adapters_lem (listed ds) none o = inr (inl (ds, refl, inl refl, refl, refl, refl))
new_adapters_lem (listed ds) (some i) none = inr (inl (ds, refl, inr refl, refl, refl, refl))
new_adapters_lem (listed ds) (some i) (some o) =
    inr (inr (ds, i, o, refl, refl, refl, (refl, refl, refl)))

-- The devices that the pointer leads to, one after the other.
abbrev pub Chain : List (Option ℕ) → Option ℕ → List ℕ → Type 0
Chain next none [] = Unit {0}
Chain next none (p ∷ ps) = ⊥
Chain next (some q) [] = ⊥
Chain next (some q) (p ∷ ps) =
    (q ≡ p) × ((rest : Option ℕ) × (get_elem? next p ≡ some rest) × Chain next rest ps)

delete_devices-de_alloc_layer :
    (next : List (Option ℕ)) (fuel : ℕ) (there : List Bool) (p : Option ℕ) (ps : List ℕ)
    → Chain next p ps
    → length ps ≤ fuel
    → delete_devices next fuel there p ≡ de_alloc_layer there ps
unfolding delete_devices de_alloc_layer
delete_devices-de_alloc_layer next fuel there none [] c h = refl
delete_devices-de_alloc_layer next fuel there none (p ∷ ps) c h = absurd c
delete_devices-de_alloc_layer next fuel there (some q) [] c h = absurd c
delete_devices-de_alloc_layer next zero there (some q) (p ∷ ps) c h = absurd (omega arith)
delete_devices-de_alloc_layer next (suc fuel) there (some q) (p ∷ ps) (e, (rest, n, c)) h =
    rw (e, n)
      (elim (Result-cases (delete_object there p)) [
        | inl (left, d) ↦
            rw d (delete_devices-de_alloc_layer next fuel left rest ps c (omega arith))
        | inr (inl d) ↦ rw d
        | inr (inr d) ↦ rw d
      ])

-- The loop of the destructor deletes each device of a list without repetitions once, reads the `next` of
-- each before it is gone, and ends; whatever else is there stays. Then the destructor deletes an
-- array that no `new` gave.
pub destroy_lem :
    (next : List (Option ℕ)) (fuel : ℕ) (there : List Bool) (p : Option ℕ) (ps : List ℕ) (q : ℕ)
    → Chain next p ps
    → Once ps
    → All (λ d. get_elem? there d ≡ some true) ps
    → length ps ≤ fuel
    → All (λ d. q ≢ d) ps
    → ((left : List Bool) × (delete_devices next fuel there p ≡ ok left)
        × (get_elem? left q ≡ get_elem? there q))
      × (destroy next fuel there p ≡ fault)
unfolding destroy
destroy_lem next fuel there p ps q c o t h n =
    let (left, e, same) = de_alloc_layer_lem there ps q o t n in
    let d = delete_devices-de_alloc_layer next fuel there p ps c h ∙ e in ((left, d, same), rw d)
