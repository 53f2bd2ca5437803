-- ===== src/IpLayer/Gateway.antt =====
-- CIPLayer::SetDefaultGateway and the rows that CIPLayer::Routing takes afterwards.
use Prim.Native.Nat.{digits, bit_and-bitwise, min}
use arpwith_mfc.Base.{
  ℕ, zero, suc, ◌/◌, ◌∙◌, ◌≡◌, refl, ◌≢◌, ◌⊎◌, inl, inr, true, List, [], ◌∷◌, ◌++◌, none, some, ok,
  fault, arith, if◌then◌else◌, Bool-cases, bit_and,
}
use arpwith_mfc.Wire.Address.{Ip, fill_ip, mask_ip, same_ip, same_ip_iff}
use arpwith_mfc.State.{Route}
use arpwith_mfc.IpLayer.Routes.{matches, match_route, set_default_gateway}

-- the row for all destinations
abbrev pub default_route : Ip → ℕ → ℕ → Route
default_route gateway flag interface = record {
  destination_ip = fill_ip 0;
  netmask = fill_ip 0;
  gateway = gateway;
  flag = flag;
  interface = interface;
}

digits_zero : (n a : ℕ) → digits (λ b. 0) min n a 0 ≡ 0
digits_zero zero a = refl
digits_zero (suc n) zero = refl
digits_zero (suc n) (suc a) = omega (arith, digits_zero n (suc a / 2))

bit_and_zero : (a : ℕ) → bit_and a 0 ≡ 0
bit_and_zero a = bit_and-bitwise a 0 ∙ digits_zero a a

matches-default_route :
    (gateway : Ip) (flag interface : ℕ) (d : Ip)
    → matches (default_route gateway flag interface) d ≡ true
unfolding matches mask_ip same_ip
matches-default_route gateway flag interface d =
    rw (bit_and_zero d.o0, bit_and_zero d.o1, bit_and_zero d.o2, bit_and_zero d.o3)

match_route-append :
    (rs qs : List Route) (d : Ip)
    → match_route (rs ++ qs) d
      ≡ elim (match_route rs d) [ some r ↦ some r | none ↦ match_route qs d ]
unfolding match_route
match_route-append [] qs d = refl
match_route-append (r ∷ rs) qs d = elim (Bool-cases (matches r d)) [
  | inl hit ↦ rw hit
  | inr miss ↦ rw miss (match_route-append rs qs d)
]

-- What SetDefaultGateway makes of the table with the last row `last`.
abbrev pub with_gateway : List Route → Route → Ip → ℕ → ℕ → List Route
with_gateway before last gateway flag interface =
    if same_ip last.destination_ip (fill_ip 0)
    then before ++ record last { gateway = gateway; flag = flag; interface = interface } ∷ []
    else before ++ last ∷ default_route gateway flag interface ∷ []

set_default_gateway-with_gateway :
    (before : List Route) (last : Route) (gateway : Ip) (flag interface : ℕ)
    → set_default_gateway (before ++ last ∷ []) gateway flag interface
      ≡ ok (with_gateway before last gateway flag interface)
unfolding set_default_gateway
set_default_gateway-with_gateway [] last gateway flag interface = ground arith
set_default_gateway-with_gateway (r ∷ []) last gateway flag interface =
    rw (set_default_gateway-with_gateway [] last gateway flag interface) ground arith
set_default_gateway-with_gateway (r ∷ q ∷ before) last gateway flag interface =
    rw (set_default_gateway-with_gateway (q ∷ before) last gateway flag interface) ground arith

-- SetDefaultGateway of an empty table reads `back()` of it. Otherwise, where the last row is for another
-- destination than 0.0.0.0, a row is added that every destination without one takes, and all others keep
-- theirs. Where the last row is for 0.0.0.0 it takes the gateway, the flags and the port, and keeps its
-- netmask: a destination that no row before it fits takes it only where it fitted it already.
pub set_default_gateway_lem :
    (before : List Route) (last : Route) (gateway : Ip) (flag interface : ℕ)
    → (set_default_gateway [] gateway flag interface ≡ fault)
      × ((rs : List Route) × (set_default_gateway (before ++ last ∷ []) gateway flag interface
            ≡ ok rs)
          × (((last.destination_ip ≢ fill_ip 0)
                × ((d : Ip)
                    → match_route rs d ≡ elim (match_route (before ++ last ∷ []) d) [
                      | some r ↦ some r
                      | none ↦ some (default_route gateway flag interface)
                    ]))
              ⊎ ((last.destination_ip ≡ fill_ip 0)
                  × ((d : Ip)
                      → match_route rs d ≡ elim (match_route before d) [
                        | some r ↦ some r
                        | none ↦
                            if matches last d
                            then some (record last {
                              gateway = gateway;
                              flag = flag;
                              interface = interface;
                            })
                            else none
                      ]))))
unfolding set_default_gateway matches match_route
set_default_gateway_lem before last gateway flag interface = (
  refl,
  (
    with_gateway before last gateway flag interface,
    set_default_gateway-with_gateway before last gateway flag interface,
    elim (Bool-cases (same_ip last.destination_ip (fill_ip 0))) [
      | inl e ↦ inr (
        (same_ip_iff last.destination_ip (fill_ip 0)).0 e,
        λ d. rw e (match_route-append before _ d),
      )
      | inr n ↦ inl (
        λ e. absurd (cc ((same_ip_iff last.destination_ip (fill_ip 0)).1 e, n)),
        λ d. rw n (
            match_route-append before _ d
            ∙ ground (
              arith,
              match_route-append before (last ∷ []) d,
              matches-default_route gateway flag interface d,
            )),
      )
    ],
  ),
)
