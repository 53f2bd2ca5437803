-- ===== src/IpLayer/Routes.antt =====
-- The routing table of CIPLayer: a list of rows, searched from the front.
use arpwith_mfc.Base.{
  ℕ, zero, suc, ◌-◌, Bool, not, ◌&&◌, List, [], ◌∷◌, Option, none, some, Result, ok, fault, ◌>>=◌,
  if◌then◌else◌, ltb,
}
use arpwith_mfc.Wire.Address.{Ip, fill_ip, mask_ip, same_ip}
use arpwith_mfc.State.{Route}

-- ROUTING_TABLE_NODE()
unfoldable pub blank_route : Route
blank_route = record {
  destination_ip = fill_ip 0;
  netmask = fill_ip 0;
  gateway = fill_ip 0;
  flag = 0;
  interface = 1;
}

-- ROUTING_TABLE_NODE(const ROUTING_TABLE_NODE&)
unfoldable pub copy_route : Route → Route
copy_route other = record {
  destination_ip = other.destination_ip;
  gateway = other.gateway;
  netmask = other.netmask;
  flag = other.flag;
  interface = other.interface;
}

-- The test of the loop in Routing.
unfoldable pub matches : Route → Ip → Bool
matches r dest = same_ip (mask_ip dest r.netmask) r.destination_ip

-- The loop of CIPLayer::Routing: the first row whose masked destination agrees.
unfoldable pub match_route : List Route → Ip → Option Route
match_route [] dest = none
match_route (r ∷ rs) dest = if matches r dest then some r else match_route rs dest

-- CIPLayer::LongestPrefix: no octet of `a` lies below that of `b`.
unfoldable pub longest_prefix : Ip → Ip → Bool
longest_prefix a b =
    not (ltb a.o0 b.o0) && not (ltb a.o1 b.o1) && not (ltb a.o2 b.o2) && not (ltb a.o3 b.o3)

-- The loop and the insertion of CIPLayer::AddRouteTable.
unfoldable pub insert_route : Route → List Route → List Route
insert_route r [] = r ∷ []
insert_route r (x ∷ xs) =
    if longest_prefix x.gateway r.gateway then x ∷ insert_route r xs else r ∷ x ∷ xs

-- CIPLayer::AddRouteTable
unfoldable pub add_route : List Route → Ip → Ip → Ip → ℕ → ℕ → List Route
add_route rs destination netmask gateway flag interface =
    insert_route
      (record {
        destination_ip = destination;
        netmask = netmask;
        gateway = gateway;
        flag = flag;
        interface = interface;
      })
      rs

-- `erase` at the place that the iterator reached after so many steps; at `end()` it is a fault.
unfoldable pub erase_at : List Route → ℕ → Result (List Route)
erase_at [] i = fault
erase_at (r ∷ rs) zero = ok rs
erase_at (r ∷ rs) (suc i) = erase_at rs i >>= λ q. ok (r ∷ q)

-- CIPLayer::DelRouteTable: the iterator takes `index - 1` steps, none at 0.
unfoldable pub del_route : List Route → ℕ → Result (List Route)
unfolding erase_at
del_route rs index = erase_at rs (index - 1)

-- CIPLayer::SetDefaultGateway: the last row is changed if its destination is 0.0.0.0, and else a
-- new one is pushed back. `back()` of an empty list is a fault.
unfoldable pub set_default_gateway : List Route → Ip → ℕ → ℕ → Result (List Route)
set_default_gateway [] gateway flag interface = fault
set_default_gateway (r ∷ []) gateway flag interface =
    if same_ip r.destination_ip (fill_ip 0)
    then ok (record r { gateway = gateway; flag = flag; interface = interface } ∷ [])
    else ok (
        r
        ∷ record {
          destination_ip = fill_ip 0;
          netmask = fill_ip 0;
          gateway = gateway;
          flag = flag;
          interface = interface;
        }
        ∷ [])
set_default_gateway (r ∷ q ∷ rs) gateway flag interface =
    set_default_gateway (q ∷ rs) gateway flag interface >>= λ t. ok (r ∷ t)
