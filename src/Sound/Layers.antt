-- ===== src/Sound/Layers.antt =====
-- Each layer's Receive and RSend is safe in a sound state, and leaves one.
use arpwith_mfc.Base.{
  ℕ, ◌≤◌, true, has_bytes, has_bytes-le, le-has_bytes, ◌≡◌, inl, inr, false, Bool, List, Option,
  none, some, Result, length, Safe, Safe-bind, Bool-cases, Option-cases, sym,
}
use mathlib.Core.Path.{subst}
use arpwith_mfc.Wire.Address.{Ip, Mac, same_ip}
use arpwith_mfc.Wire.Formats.{decode_arp, arp_header_size}
use arpwith_mfc.State.{Port, Stack, Env, ArpNode}
use arpwith_mfc.Arp
use arpwith_mfc.Arp.Opcodes.{Known, Known-dec, receive_own, receive_unknown}
use arpwith_mfc.Arp.Reply.{Answers, answered, noted, receive-Answers}
use arpwith_mfc.Arp.Request.{send-Delivers}
use arpwith_mfc.Arp.Forward.{known_mac, rsend-known, rsend-routed, temp}
use arpwith_mfc.Arp.Unknown.{asking, AfterWait, routed_unknown, after_wait}
use arpwith_mfc.Sound.{IsSound, Kept, Waits, with_arp-IsSound, Delivers-Safe}

Answers-Safe :
    (env : Env) (s : Stack) (port : Port) (payload : List ℕ) (m : Option Mac)
    (r : Result (Bool × Stack))
    → IsSound s
    → Answers env s (decode_arp payload) port m r
    → Safe Kept r
Answers-Safe env s port payload none r v a =
    subst (Safe Kept) (sym a) (with_arp-IsSound s (noted env s (decode_arp payload)).arp v)
Answers-Safe env s port payload (some mac) r v a =
    Delivers-Safe env (noted env s (decode_arp payload)) _ _ port r v.named a

receive-Known-Safe :
    (env : Env) (s : Stack) (payload : List ℕ) (port : Port)
    → IsSound s
    → has_bytes arp_header_size payload ≡ true
    → same_ip s.arp.myip.at_inner (decode_arp payload).protocol_srcaddr ≡ false
    → Known (decode_arp payload).opercode
    → Safe Kept (Arp.receive env s payload port)
unfolding Arp.receive
receive-Known-Safe env s payload port v whole own (inl op) =
    Answers-Safe env s port payload (answered s.arp (decode_arp payload).protocol_dstaddr) _ v (
      receive-Answers env s payload port v.sized (le-has_bytes arp_header_size payload whole) own
        op)
receive-Known-Safe env s payload port v whole own (inr (inl op)) =
    simp (whole, own, op) (with_arp-IsSound s _ v)
receive-Known-Safe env s payload port v whole own (inr (inr (inl op))) = simp (whole, own, op) v
receive-Known-Safe env s payload port v whole own (inr (inr (inr op))) = simp (whole, own, op) v

pub arp_receive-Safe :
    (env : Env) (s : Stack) (payload : List ℕ) (port : Port)
    → IsSound s
    → arp_header_size ≤ length payload
    → Safe Kept (Arp.receive env s payload port)
arp_receive-Safe env s payload port v l =
    let whole = has_bytes-le arp_header_size payload l in
    elim (Bool-cases (same_ip s.arp.myip.at_inner (decode_arp payload).protocol_srcaddr)) [
      | inl own ↦ rw (receive_own env s payload port whole own) v
      | inr own ↦ elim (Known-dec (decode_arp payload).opercode) [
        | inl known ↦ receive-Known-Safe env s payload port v whole own known
        | inr unknown ↦ rw (receive_unknown env s payload port whole own unknown) tt
      ]
    ]

AfterWait-Safe :
    (env : Env) (t : Stack) (payload : List ℕ) (n : ℕ) (ip : Ip) (port : Port) (m : Option ArpNode)
    (r : Result (Bool × Stack))
    → IsSound t
    → AfterWait env t payload n ip port m r
    → Safe Kept r
AfterWait-Safe env t payload n ip port none r v a = subst (Safe Kept) (sym a) v
AfterWait-Safe env t payload n ip port (some m) r v a = Delivers-Safe env t t.arp _ port r v.named a

asked-Safe :
    (env : Env) (s : Stack) (payload : List ℕ) (n : ℕ) (ip : Ip) (port : Port)
    → IsSound s
    → Waits env
    → Arp.clamp_length n ≤ length payload
    → Safe Kept
        (Arp.ask_and_forward env s ip (temp payload (Arp.clamp_length n)) (Arp.clamp_length n) port)
unfolding Arp.ask_and_forward
asked-Safe env s payload n ip port v w k =
    Safe-bind Kept Kept (Arp.send env s (asking env s ip port) port) _
      (Delivers-Safe env s _ _ port _ v.named
        (send-Delivers env s (asking env s ip port) port v.sized))
      (λ x u.
        AfterWait-Safe env (env.wait x.1) payload n ip port _ _ (w x.1 u)
          (after_wait env (env.wait x.1) payload n ip port (w x.1 u).sized k))

pub rsend-Safe :
    (env : Env) (s : Stack) (payload : List ℕ) (n : ℕ) (ip : Ip) (port : Port)
    → IsSound s
    → Waits env
    → Arp.clamp_length n ≤ length payload
    → Safe Kept (Arp.rsend env s payload n ip port)
rsend-Safe env s payload n ip port v w k = elim (Option-cases (known_mac s.arp ip)) [
  | inl e ↦
      rw (rsend-routed env s payload n ip port k, routed_unknown env s payload n ip port e)
        (asked-Safe env s payload n ip port v w k)
  | inr (mac, e) ↦
      Delivers-Safe env s s.arp _ port _ v.named
        (rsend-known env s payload n ip port mac v.sized k e)
]
