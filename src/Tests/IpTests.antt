-- ===== src/Tests/IpTests.antt =====
-- The routing table at three rows, and packets through a router.
use arpwith_mfc.Base.{
  ℕ, ◌≢◌, if◌then◌else◌, ◌-◌, ◌≤◌, ◌≡◌, refl, ◌⊎◌, true, false, List, [], ◌∷◌, ◌++◌, none, some, ok,
  fault, arith, length, All, replicate, length-replicate, get_or,
}
use arpwith_mfc.Wire.Address.{Ip, fill_ip, same_ip, mask_ip}
use arpwith_mfc.Wire.Formats.{decode_ip}
use arpwith_mfc.State.{Route, inner, outer, sel, Stack}
use arpwith_mfc.Ni
use arpwith_mfc.Arp.Forward.{ip_frame, known_mac}
use arpwith_mfc.Arp.Cache.{lookup}
use arpwith_mfc.Arp.Proxy.{find_proxy}
use arpwith_mfc.IpLayer.{receive}
use arpwith_mfc.IpLayer.Routes.{matches, match_route, add_route, del_route, set_default_gateway}
use arpwith_mfc.IpLayer.Gateway.{default_route, set_default_gateway_lem}
use arpwith_mfc.IpLayer.Selection.{NoneBelow, FirstBelow, add_route_lem, del_route_lem}
use arpwith_mfc.IpLayer.Forwarding.{
  receive_drops, receive_forwards, receive_keeps_ttl, received, next_hop,
}
use arpwith_mfc.Tests.Hosts.{ip_of, mac_of, host, host-IsSized, env_at, node}

-- 10.0.0.0/8 through 10.0.0.9, and everything through 10.0.0.8, both on the outer port
abbrev to_ten : Route
to_ten = record {
  destination_ip = record { o0 = 10; o1 = 0; o2 = 0; o3 = 0 };
  netmask = record { o0 = 255; o1 = 0; o2 = 0; o3 = 0 };
  gateway = ip_of 9;
  flag = 0x42;
  interface = 1;
}

abbrev to_all : Route
to_all = record {
  destination_ip = fill_ip 0;
  netmask = fill_ip 0;
  gateway = ip_of 8;
  flag = 0x42;
  interface = 1;
}

abbrev rows : List Route
rows = to_ten ∷ to_all ∷ []

add_route_lem_example :
    (before after : List Route) × (rows ≡ before ++ after)
    × All (λ x. NoneBelow x.gateway (ip_of 9)) before
    × FirstBelow (ip_of 9) after
    × (let r : Route = record {
      destination_ip = ip_of 7;
      netmask = fill_ip 255;
      gateway = ip_of 9;
      flag = 0x42;
      interface = 0;
    } in
        (add_route rows (ip_of 7) (fill_ip 255) (ip_of 9) 0x42 0 ≡ before ++ r ∷ after)
        × ((d : Ip)
            → match_route (add_route rows (ip_of 7) (fill_ip 255) (ip_of 9) 0x42 0) d
              ≡ elim (match_route before d) [
                | some x ↦ some x
                | none ↦
                    if same_ip (mask_ip d (fill_ip 255)) (ip_of 7)
                    then some r
                    else match_route after d
              ]))
add_route_lem_example = add_route_lem rows (ip_of 7) (fill_ip 255) (ip_of 9) 0x42 0

del_route_lem_example :
    ((length rows ≤ 2 - 1) × (del_route rows 2 ≡ fault))
    ⊎ ((r : Route) × (before after : List Route) × (rows ≡ before ++ r ∷ after)
        × (length before ≡ 2 - 1)
        × (del_route rows 2 ≡ ok (before ++ after)))
del_route_lem_example = del_route_lem rows 2

-- A packet of 40 bytes for 10.0.0.7 in a buffer of 1500. The length field is as the program reads it.
abbrev packet_start : List ℕ
packet_start =
    0x45 ∷ 0 ∷ 40 ∷ 0 ∷ 0 ∷ 0 ∷ 0 ∷ 0 ∷ 64 ∷ 17 ∷ 0 ∷ 0 ∷ 10 ∷ 0 ∷ 0 ∷ 5 ∷ 10 ∷ 0 ∷ 0 ∷ 7 ∷ []

padding : List ℕ
padding = replicate 1480 0

abbrev packet : List ℕ
packet = packet_start ++ padding

length-packet : length packet ≡ 1500
unfolding padding
length-packet = omega (arith, length-replicate {A = ℕ} 1480 0)

abbrev router : List Route → Stack
router routes = host 1 0 true (node 9 1 0 ∷ []) [] routes

receive_drops_example :
    receive (env_at 5) (router []) packet inner ≡ ok (false, received (router []) packet inner)
unfolding match_route
receive_drops_example =
    receive_drops (env_at 5) (router []) packet inner
      (host-IsSized 1 0 true (node 9 1 0 ∷ []) [] []) length-packet (λ r e. absurd (cc))

receive_forwards_example :
    (left : Stack) × (receive (env_at 5) (router rows) packet inner
      ≡ ok (
        false,
        (Ni.send (env_at 5) left (ip_frame (router rows) (mac_of 9) packet 40 outer) outer).1,
      ))
    × (left.arp ≡ (router rows).arp)
    × (left.route_table ≡ rows)
    × (left.sent ≡ [])
    × (left.ip ≡ (received (router rows) packet inner).ip)
unfolding match_route matches same_ip mask_ip next_hop known_mac lookup find_proxy decode_ip
receive_forwards_example =
    receive_forwards (env_at 5) (router rows) packet inner outer to_ten (ip_of 9) (mac_of 9)
      (host-IsSized 1 0 true (node 9 1 0 ∷ []) [] rows) length-packet refl refl refl refl

receive_keeps_ttl_example :
    (s' : Stack) × (f : List ℕ) × (receive (env_at 5) (router rows) packet inner ≡ ok (false, s'))
    × (s'.sent ≡ record { port = outer; bytes = f } ∷ [])
    × (get_or f 22 0 ≡ 64)
    × ((sel s'.ip inner).ttl ≡ 63)
unfolding match_route matches same_ip mask_ip next_hop known_mac lookup find_proxy decode_ip
receive_keeps_ttl_example =
    receive_keeps_ttl (env_at 5) (router rows) packet inner outer to_ten (ip_of 9) (mac_of 9)
      (host-IsSized 1 0 true (node 9 1 0 ∷ []) [] rows) length-packet refl refl refl refl
      (omega arith)

set_default_gateway_lem_example :
    (set_default_gateway [] (ip_of 6) 0x42 0 ≡ fault)
    × ((rs : List Route) × (set_default_gateway rows (ip_of 6) 0x42 0 ≡ ok rs)
        × (((to_all.destination_ip ≢ fill_ip 0)
              × ((d : Ip)
                  → match_route rs d ≡ elim (match_route rows d) [
                    | some r ↦ some r
                    | none ↦ some (default_route (ip_of 6) 0x42 0)
                  ]))
            ⊎ ((to_all.destination_ip ≡ fill_ip 0)
                × ((d : Ip)
                    → match_route rs d ≡ elim (match_route (to_ten ∷ []) d) [
                      | some r ↦ some r
                      | none ↦
                          if matches to_all d
                          then some
                              (record to_all { gateway = ip_of 6; flag = 0x42; interface = 0 })
                          else none
                    ]))))
set_default_gateway_lem_example = set_default_gateway_lem (to_ten ∷ []) to_all (ip_of 6) 0x42 0
