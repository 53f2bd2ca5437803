-- ===== src/Sound/Buttons.antt =====
-- The handlers of the dialogs are safe in a sound state, and leave one.
use arpwith_mfc.Base.{
  ℕ, ◌≤◌, ◌<◌, inl, inr, not, ◌&&◌, ◌||◌, Bool, List, [], ◌∷◌, arith, All, length, Safe, Safe-bind,
  Bool-cases, ◌==◌, ◌*◌, sym,
}
use mathlib.Core.Path.{subst}
use arpwith_mfc.Wire.Address.{Ip}
use arpwith_mfc.Wire.Formats.{ip_max_data_size}
use arpwith_mfc.State.{Port, inner, outer, Stack, Env, Route}
use arpwith_mfc.IpLayer
use arpwith_mfc.IpLayer.Routes.{add_route, insert_route, longest_prefix}
use arpwith_mfc.Dialog.{
  Controls, garp_send, send_arp, address_self, address_request, dummy, dummy_data, octet_sum,
  routing_entry_ok,
}
use arpwith_mfc.Dialog.Requests.{send-Requests, address_self-IsSized}
use arpwith_mfc.Dialog.Buttons.{address_request-IsSized}
use arpwith_mfc.Sound.{IsSound, Named, Kept, with_arp-IsSound}

pub ip_send-Safe :
    (env : Env) (s : Stack) (payload : List ℕ) (n : ℕ) (port : Port)
    → IsSound s
    → n ≤ ip_max_data_size
    → n ≤ length payload
    → Safe Kept (IpLayer.send env s payload n port)
ip_send-Safe env s payload n port v b k =
    let r = send-Requests env s payload n port v.sized b k in
    subst (Safe Kept) (sym r.returned)
      (record { sized = r.sized_after; named = subst (All Named) (sym r.routes_after) v.named })

address_self-IsSound :
    (s : Stack) (a : Ip) (port : Port) → IsSound s → IsSound (address_self s a port)
unfolding address_self IpLayer.set_source_address IpLayer.set_destin_address
address_self-IsSound s a port v = record {
  sized = address_self-IsSized s a port v.sized;
  named = v.named;
}

pub garp_send-Safe :
    (env : Env) (s : Stack) (c : Controls) → IsSound s → Safe IsSound (garp_send env s c)
unfolding garp_send
garp_send-Safe env s c v =
    Safe-bind Kept IsSound _ _
      (ip_send-Safe env _ dummy 6 outer (address_self-IsSound _ _ outer (with_arp-IsSound s _ v))
        (omega arith) (omega arith))
      (λ x u.
        Safe-bind Kept IsSound _ _
          (ip_send-Safe env _ dummy 6 inner (address_self-IsSound x.1 _ inner u) (omega arith)
            (omega arith))
          (λ y w. with_arp-IsSound y.1 _ w))

pub send_arp-Safe :
    (env : Env) (s : Stack) (c : Controls) → IsSound s → Safe IsSound (send_arp env s c)
unfolding send_arp address_request IpLayer.set_source_address IpLayer.set_destin_address
send_arp-Safe env s c v =
    let a : IsSound (address_request s c) = record {
      sized = address_request-IsSized s c v.sized;
      named = v.named;
    } in
    elim (Bool-cases (c.dst_enabled && not c.adapter_enabled)) [
      | inl on ↦
          elim (Bool-cases (octet_sum c.dst_address == 0 || octet_sum c.dst_address == 255 * 4)) [
            | inl bad ↦ rw (on, bad) a
            | inr good ↦
                rw (on, good)
                  (Safe-bind Kept IsSound _ _
                    (ip_send-Safe env _ dummy_data 11 inner a (omega arith) (omega arith))
                    (λ x u.
                      Safe-bind Kept IsSound _ _
                        (ip_send-Safe env x.1 dummy_data 11 outer u (omega arith) (omega arith))
                        (λ y w. w)))
          ]
      | inr off ↦ rw off v
    ]

pub insert_route-All :
    (P : Route → Type 0) (r : Route) (rs : List Route) → P r → All P rs → All P (insert_route r rs)
unfolding insert_route
insert_route-All P r [] n ns = (n, tt)
insert_route-All P r (x ∷ rs) n (m, ms) = elim (Bool-cases (longest_prefix x.gateway r.gateway)) [
  | inl e ↦ rw e (m, insert_route-All P r rs n ms)
  | inr e ↦ rw e (n, (m, ms))
]

pub routing_entry_ok-IsSound :
    (s : Stack) (dstip maskip gateway : Ip) (up via host : Bool) (interface : ℕ)
    → interface < 2
    → IsSound s
    → IsSound (routing_entry_ok s dstip maskip gateway up via host interface)
unfolding routing_entry_ok add_route
routing_entry_ok-IsSound s dstip maskip gateway up via host interface h v = record {
  sized = record { ethernet_full = v.sized.ethernet_full; ip_whole = v.sized.ip_whole };
  named = insert_route-All Named _ s.route_table h v.named;
}
