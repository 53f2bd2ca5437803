-- ===== src/Sound/Reach.antt =====
-- What the layers go through: frames that come in, and what the user does in the dialogs.
use arpwith_mfc.Base.{
  ℕ, ◌<◌, ◌≡◌, refl, sym, Bool, List, Option, none, some, Result, ok, length, Safe-ok, >>=-eq-ok,
  ◌>>=◌, length-replicate,
}
use mathlib.Core.Path.{subst}
use arpwith_mfc.Wire.Address.{Ip, Mac}
use arpwith_mfc.Wire.Formats.{ether_max_size}
use arpwith_mfc.State.{Port, inner, outer, ArpLayer, Stack, Env, with_arp}
use arpwith_mfc.Ether
use arpwith_mfc.Ether.Receive.{ni_receive}
use arpwith_mfc.Arp
use arpwith_mfc.IpLayer
use arpwith_mfc.Dialog.{
  Controls, garp_send, send_arp, item_del, all_del, on_timer, device_ok, delete_selected,
  routing_entry_ok, add_proxy_arp_cache,
}
use arpwith_mfc.Start.{Found, new_layers}
use arpwith_mfc.Sound.{IsSound, Kept, Waits, with_arp-IsSound}
use arpwith_mfc.Sound.Frames.{ni_receive-Safe}
use arpwith_mfc.Sound.Buttons.{garp_send-Safe, send_arp-Safe, routing_entry_ok-IsSound}

-- One step from `s` to `t`: a frame of the size of the receiving buffer is received by either adapter, or
-- one of the handlers returns.
pub data Step (s t : Stack) : Type 0 where
  frame :
      (env : Env) (pkt : List ℕ) (port : Port) (done : Bool)
      → Waits env
      → length pkt ≡ ether_max_size
      → ni_receive env s (some pkt) port ≡ ok (done, t)
      → Step s t
  gratuitous : (env : Env) (c : Controls) → garp_send env s c ≡ ok t → Step s t
  request : (env : Env) (c : Controls) → send_arp env s c ≡ ok t → Step s t
  tick : (env : Env) → t ≡ on_timer env s → Step s t
  forget : (text : Option (List ℕ)) → item_del s text ≡ ok t → Step s t
  clear : t ≡ all_del s → Step s t
  proxied : (mac : Mac) (ip : Ip) (text : List ℕ) → t ≡ device_ok s mac ip text → Step s t
  unproxied : (row : Option ℕ) → delete_selected s row ≡ ok t → Step s t
  routed :
      (dst mask gateway : Ip) (up via host : Bool) (interface : ℕ)
      → interface < 2
      → t ≡ routing_entry_ok s dst mask gateway up via host interface
      → Step s t

-- A handler that ends by changing the ARP layer.
ends-IsSound :
    {A : Type 0} (s t : Stack) (m : Result A) (a : A → ArpLayer)
    → IsSound s
    → (m >>= λ x. ok (with_arp s (a x))) ≡ ok t
    → IsSound t
ends-IsSound s t m a v e =
    let (x, _, last) = >>=-eq-ok m (λ x. ok (with_arp s (a x))) e in
    Safe-ok IsSound _ t (with_arp-IsSound s (a x) v) last

item_del-IsSound :
    (s t : Stack) (text : Option (List ℕ)) → IsSound s → item_del s text ≡ ok t → IsSound t
unfolding item_del
item_del-IsSound s t none v e = Safe-ok IsSound (ok s) t v e
item_del-IsSound s t (some text) v e = ends-IsSound s t _ _ v e

delete_selected-IsSound :
    (s t : Stack) (row : Option ℕ) → IsSound s → delete_selected s row ≡ ok t → IsSound t
unfolding delete_selected
delete_selected-IsSound s t none v e = cc
delete_selected-IsSound s t (some i) v e = ends-IsSound s t _ _ v e

pub Step-IsSound : (s t : Stack) → Step s t → IsSound s → IsSound t
unfolding on_timer all_del device_ok add_proxy_arp_cache
Step-IsSound s t (frame env pkt port done w l e) v =
    Safe-ok Kept _ (done, t) (ni_receive-Safe env s pkt port v w l) e
Step-IsSound s t (gratuitous env c e) v = Safe-ok IsSound _ t (garp_send-Safe env s c v) e
Step-IsSound s t (request env c e) v = Safe-ok IsSound _ t (send_arp-Safe env s c v) e
Step-IsSound s t (tick env e) v = subst IsSound (sym e) (with_arp-IsSound s _ v)
Step-IsSound s t (forget text e) v = item_del-IsSound s t text v e
Step-IsSound s t (clear e) v = subst IsSound (sym e) (with_arp-IsSound s _ v)
Step-IsSound s t (proxied mac ip text e) v = subst IsSound (sym e) (with_arp-IsSound s _ v)
Step-IsSound s t (unproxied row e) v = delete_selected-IsSound s t row v e
Step-IsSound s t (routed dst mask gateway up via host k h e) v =
    subst IsSound (sym e) (routing_entry_ok-IsSound s dst mask gateway up via host k h v)

-- The constructors make layers that satisfy the invariant, whatever the memory held.
pub new_layers-IsSound : (found : Found) → (s : Stack) × (new_layers found ≡ ok s) × IsSound s
unfolding new_layers Arp.init Arp.set_type Ether.init Ether.reset_header IpLayer.init
    IpLayer.reset_header
new_layers-IsSound found = (
  _,
  refl,
  record {
    sized = record {
      ethernet_full = elim [
        | inner ↦ length-replicate {A = ℕ} 1500 0
        | outer ↦ length-replicate {A = ℕ} 1500 0
      ];
      ip_whole = elim [
        | inner ↦ length-replicate {A = ℕ} 1480 0
        | outer ↦ length-replicate {A = ℕ} 1480 0
      ];
    };
    named = tt;
  },
)
