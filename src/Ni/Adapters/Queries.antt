-- ===== src/Ni/Adapters/Queries.antt =====
-- CNILayer::SetAdapter and the Ethernet addresses that CNILayer::GetMacAddress then gives.
use arpwith_mfc.Base.{
  ℕ, zero, suc, ◌<◌, ◌≡◌, ◌≢◌, refl, ap, List, [], ◌∷◌, some, ok, arith, length, get_elem?, le→ltb,
}
use arpwith_mfc.Wire.Address.{Mac}
use arpwith_mfc.State.{Port, inner, outer, Both, sel, put, sel-put_self}
use arpwith_mfc.Ni.Adapters.{
  Device, Pcap, Adapters, set_adapter, request_address, get_mac_address, same_device,
}

get_elem?-lt : {A : Type 0} (xs : List A) (i : ℕ) {x : A} → get_elem? xs i ≡ some x → i < length xs
get_elem?-lt [] i e = cc
get_elem?-lt (y ∷ xs) zero e = omega arith
get_elem?-lt (y ∷ xs) (suc i) e = omega (arith, get_elem?-lt xs i e)

-- The state in which SetAdapter leaves the members of the port.
abbrev pub selected : Adapters → ℕ → ℕ → Mac → Port → Adapters
selected a i h mac port = record a {
  device = put a.device port (some i);
  adapter_object = put a.adapter_object port (some h);
  oid_data = put a.oid_data port mac;
}

pub set_adapter-selected :
    (pcap : Pcap) (a : Adapters) (i h : ℕ) (d : Device) (port : Port)
    → get_elem? a.all_devices i ≡ some d
    → pcap.open_live d.name ≡ some h
    → set_adapter pcap a i port
      ≡ ok (
        some (pcap.request d.name (sel a.oid_data port)),
        selected a i h (pcap.request d.name (sel a.oid_data port)) port,
      )
unfolding set_adapter request_address
set_adapter-selected pcap a i h d port e o =
    rw
      (
        le→ltb (length a.all_devices) i (omega (arith, get_elem?-lt a.all_devices i e)),
        e,
        request_address,
        sel-put_self a.adapter_object port (pcap.open_live d.name),
        o,
      )
      (ap
        (λ x. ok (
          some (pcap.request d.name (sel a.oid_data port)),
          record a {
            device = put a.device port (some i);
            adapter_object = put a.adapter_object port x;
            oid_data = put a.oid_data port (pcap.request d.name (sel a.oid_data port));
          },
        ))
        o)

get_mac_address-selected :
    (pcap : Pcap) (a : Adapters) (i h : ℕ) (d : Device) (mac : Mac) (port : Port)
    → get_elem? a.all_devices i ≡ some d
    → get_mac_address pcap (selected a i h mac port) i port ≡ ok (mac, selected a i h mac port)
unfolding get_mac_address same_device
get_mac_address-selected pcap a i h d mac port e =
    rw (get_mac_address, e, sel-put_self a.device port (some i), sel-put_self a.oid_data port mac)
      ground arith

put-put :
    {A : Type 0} (b : Both A) (port : Port) (x y : A) → put (put b port x) port y ≡ put b port y
put-put b inner x y = refl
put-put b outer x y = refl

get_mac_address-other :
    (pcap : Pcap) (a : Adapters) (i j h : ℕ) (d : Device) (mac : Mac) (port : Port)
    → get_elem? a.all_devices j ≡ some d
    → i ≢ j
    → get_mac_address pcap (selected a i h mac port) j port
      ≡ ok (pcap.request d.name mac, selected a i h (pcap.request d.name mac) port)
unfolding get_mac_address same_device
get_mac_address-other pcap a i j h d mac port e n =
    rw
      (
        get_mac_address,
        e,
        sel-put_self a.device port (some i),
        sel-put_self a.oid_data port mac,
        put-put a.oid_data port mac (pcap.request d.name mac),
      )
      ground arith

-- After a selection of the adapter `i` that pcap opens, GetMacAddress of `i` gives the Ethernet
-- address that SetAdapter found. A query about another adapter `j` of the list gives that adapter's
-- address, and from then on GetMacAddress of `i` gives the address of `j`.
pub get_mac_address_lem :
    (pcap : Pcap) (a : Adapters) (i j h : ℕ) (di dj : Device) (port : Port)
    → get_elem? a.all_devices i ≡ some di
    → get_elem? a.all_devices j ≡ some dj
    → i ≢ j
    → pcap.open_live di.name ≡ some h
    → (own other : Mac) × (a1 a2 : Adapters) × (own ≡ pcap.request di.name (sel a.oid_data port))
      × (other ≡ pcap.request dj.name own)
      × (set_adapter pcap a i port ≡ ok (some own, a1))
      × (get_mac_address pcap a1 i port ≡ ok (own, a1))
      × (get_mac_address pcap a1 j port ≡ ok (other, a2))
      × (get_mac_address pcap a2 i port ≡ ok (other, a2))
get_mac_address_lem pcap a i j h di dj port ei ej n o =
    let own = pcap.request di.name (sel a.oid_data port) in
    let other = pcap.request dj.name own in
    (
      own,
      other,
      selected a i h own port,
      selected a i h other port,
      refl,
      refl,
      set_adapter-selected pcap a i h di port ei o,
      get_mac_address-selected pcap a i h di own port ei,
      get_mac_address-other pcap a i j h dj own port ej n,
      get_mac_address-selected pcap a i h di other port ei,
    )
