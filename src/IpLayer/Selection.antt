-- ===== src/IpLayer/Selection.antt =====
-- Which row CIPLayer::Routing takes, and where AddRouteTable puts a new one.
use arpwith_mfc.Base.{
  ℕ, zero, suc, ◌-◌, ◌≤◌, ◌≡◌, refl, ap, ◌∙◌, ◌⊎◌, inl, inr, true, false, List, [], ◌∷◌, ◌++◌, none,
  some, ok, fault, arith, if◌then◌else◌, length, All, Bool-cases,
}
use arpwith_mfc.Wire.Address.{Ip, same_ip, mask_ip}
use arpwith_mfc.State.{Route}
use arpwith_mfc.IpLayer.Routes.{
  matches, match_route, longest_prefix, insert_route, add_route, erase_at, del_route,
}

-- Routing takes the first row that fits the destination, and takes none only where none fits.
pub match_route_lem :
    (rs : List Route) (d : Ip)
    → ((match_route rs d ≡ none) × All (λ r. matches r d ≡ false) rs)
      ⊎ ((r : Route) × (before after : List Route) × (match_route rs d ≡ some r)
          × (rs ≡ before ++ r ∷ after)
          × (matches r d ≡ true)
          × All (λ x. matches x d ≡ false) before)
unfolding match_route
match_route_lem [] d = inl (refl, tt)
match_route_lem (x ∷ rs) d = elim (Bool-cases (matches x d)) [
  | inl hit ↦ inr (x, [], rs, rw hit, refl, hit, tt)
  | inr miss ↦ elim (match_route_lem rs d) [
    | inl (e, a) ↦ inl (rw (miss, e), (miss, a))
    | inr (r, before, after, e, split, hit, a) ↦
        inr (r, x ∷ before, after, rw (miss, e), ap (◌∷◌ x) split, hit, (miss, a))
  ]
]

-- The first row of the rest, if there is one, does not dominate the gateway.
abbrev pub Stops : Ip → List Route → Type 0
Stops g [] = Unit {0}
Stops g (x ∷ xs) = longest_prefix x.gateway g ≡ false

-- The new row stands behind the longest run of rows from the front whose gateways have no octet below
-- the new gateway's. The netmask, which a longest prefix match would go by, has no part in this.
pub insert_route_lem :
    (r : Route) (rs : List Route)
    → (before after : List Route) × (rs ≡ before ++ after)
      × (insert_route r rs ≡ before ++ r ∷ after)
      × All (λ x. longest_prefix x.gateway r.gateway ≡ true) before
      × Stops r.gateway after
unfolding insert_route
insert_route_lem r [] = ([], [], refl, refl, tt, tt)
insert_route_lem r (x ∷ xs) = elim (Bool-cases (longest_prefix x.gateway r.gateway)) [
  | inl keep ↦
      let (before, after, split, at, a, s) = insert_route_lem r xs in
      (x ∷ before, after, ap (◌∷◌ x) split, rw keep (ap (◌∷◌ x) at), (keep, a), s)
  | inr stop ↦ ([], x ∷ xs, refl, rw stop, tt, stop)
]

-- No octet of the first address is below that of the second.
abbrev pub NoneBelow : Ip → Ip → Type 0
NoneBelow a b = (b.o0 ≤ a.o0) × (b.o1 ≤ a.o1) × (b.o2 ≤ a.o2) × (b.o3 ≤ a.o3)

NoneBelow-longest_prefix : (a b : Ip) → longest_prefix a b ≡ true → NoneBelow a b
unfolding longest_prefix
NoneBelow-longest_prefix a b h = ground arith

not-longest_prefix : (a b : Ip) → longest_prefix a b ≡ false → ¬ NoneBelow a b
unfolding longest_prefix
not-longest_prefix a b h k = ground arith

All-NoneBelow :
    (g : Ip) (rs : List Route)
    → All (λ x. longest_prefix x.gateway g ≡ true) rs
    → All (λ x. NoneBelow x.gateway g) rs
All-NoneBelow g [] a = tt
All-NoneBelow g (x ∷ rs) (h, a) = (NoneBelow-longest_prefix x.gateway g h, All-NoneBelow g rs a)

-- The first row, if there is one, has a gateway with an octet below.
abbrev pub FirstBelow : Ip → List Route → Type 0
FirstBelow g [] = Unit {0}
FirstBelow g (x ∷ xs) = ¬ NoneBelow x.gateway g

Stops-FirstBelow : (g : Ip) (rs : List Route) → Stops g rs → FirstBelow g rs
Stops-FirstBelow g [] h = tt
Stops-FirstBelow g (x ∷ xs) h = not-longest_prefix x.gateway g h

-- The first row of a list that fits, and the first of the rest where none does.
match_route-append :
    (before after : List Route) (d : Ip)
    → match_route (before ++ after) d
      ≡ elim (match_route before d) [ some x ↦ some x | none ↦ match_route after d ]
unfolding match_route
match_route-append [] after d = refl
match_route-append (x ∷ before) after d = elim (Bool-cases (matches x d)) [
  | inl hit ↦ rw hit
  | inr miss ↦ rw miss (match_route-append before after d)
]

-- AddRouteTable puts the one new row, with the fields that it is given, behind the longest run of rows from the
-- front whose gateways have no octet below the new gateway's, and leaves the other rows and their order;
-- the netmask has no part in this. Afterwards a destination that a row of that run fits goes by the first
-- such row, every other that fits the new row goes by the new row, and any other by the rows behind.
pub add_route_lem :
    (rs : List Route) (destination netmask gateway : Ip) (flag interface : ℕ)
    → (before after : List Route) × (rs ≡ before ++ after)
      × All (λ x. NoneBelow x.gateway gateway) before
      × FirstBelow gateway after
      × (let r : Route = record {
        destination_ip = destination;
        netmask = netmask;
        gateway = gateway;
        flag = flag;
        interface = interface;
      } in
          (add_route rs destination netmask gateway flag interface ≡ before ++ r ∷ after)
          × ((d : Ip)
              → match_route (add_route rs destination netmask gateway flag interface) d
                ≡ elim (match_route before d) [
                  | some x ↦ some x
                  | none ↦
                      if same_ip (mask_ip d netmask) destination
                      then some r
                      else match_route after d
                ]))
unfolding add_route match_route matches
add_route_lem rs destination netmask gateway flag interface =
    let r : Route = record {
      destination_ip = destination;
      netmask = netmask;
      gateway = gateway;
      flag = flag;
      interface = interface;
    } in
    let (before, after, split, at, run, stop) = insert_route_lem r rs in
    (
      before,
      after,
      split,
      All-NoneBelow gateway before run,
      Stops-FirstBelow gateway after stop,
      (at, λ d. ap (λ u. match_route u d) at ∙ match_route-append before (r ∷ after) d),
    )

-- A row whose gateway has no octet above any gateway of the table comes last: every destination that
-- some row fits already keeps that row, however short its netmask is.
pub match_route-dominated :
    (r : Route) (rs : List Route) (d : Ip)
    → All (λ x. longest_prefix x.gateway r.gateway ≡ true) rs
    → match_route (insert_route r rs) d
      ≡ elim (match_route rs d) [ some x ↦ some x | none ↦ if matches r d then some r else none ]
unfolding match_route insert_route
match_route-dominated r [] d a = refl
match_route-dominated r (x ∷ xs) d a = ground (arith, match_route-dominated r xs d a.1)

erase_at_lem :
    (rs : List Route) (i : ℕ)
    → ((length rs ≤ i) × (erase_at rs i ≡ fault))
      ⊎ ((r : Route) × (before after : List Route) × (rs ≡ before ++ r ∷ after)
          × (length before ≡ i)
          × (erase_at rs i ≡ ok (before ++ after)))
unfolding erase_at
erase_at_lem [] i = inl (omega arith, refl)
erase_at_lem (r ∷ rs) zero = inr (r, [], rs, refl, refl, refl)
erase_at_lem (r ∷ rs) (suc i) = elim (erase_at_lem rs i) [
  | inl (h, e) ↦ inl (omega arith, rw e)
  | inr (x, before, after, split, at, e) ↦
      inr (x, r ∷ before, after, ap (◌∷◌ r) split, ap suc at, rw e)
]

-- DelRouteTable takes out the row of that number, counted from 1, and nothing else; the number 0 counts
-- as 1. Past the end the iterator `end()` is erased.
pub del_route_lem :
    (rs : List Route) (index : ℕ)
    → ((length rs ≤ index - 1) × (del_route rs index ≡ fault))
      ⊎ ((r : Route) × (before after : List Route) × (rs ≡ before ++ r ∷ after)
          × (length before ≡ index - 1)
          × (del_route rs index ≡ ok (before ++ after)))
unfolding del_route
del_route_lem rs index = erase_at_lem rs (index - 1)
