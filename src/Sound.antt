-- ===== src/Sound.antt =====
-- The invariant of the layers: the arrays in the headers have their sizes, and the rows of the routing
-- table name one of the two adapters.
pub mod Layers
pub mod Frames
pub mod Buttons
pub mod Reach
pub mod Adapters
pub mod Windows
use arpwith_mfc.Base.{ℕ, ◌<◌, ◌≡◌, sym, Bool, List, Result, Safe, All}
use mathlib.Core.Path.{subst}
use arpwith_mfc.State.{Port, Stack, Env, Route, ArpLayer, with_arp}
use arpwith_mfc.Ni
use arpwith_mfc.Sized.{IsSized, with_arp-IsSized}
use arpwith_mfc.Delivers.{Delivers}

abbrev pub Named : Route → Type 0
Named r = r.interface < 2

pub record IsSound (s : Stack) : Type 0 where
  pub sized : IsSized s
  pub named : All Named s.route_table

-- What a call that returns a BOOL leaves is sound.
abbrev pub Kept : Bool × Stack → Type 0
Kept x = IsSound x.1

-- The activity of the message loop and of the other thread during a wait keeps the invariant.
abbrev pub Waits : Env → Type 0
Waits env = (t : Stack) → IsSound t → IsSound (env.wait t)

pub with_arp-IsSound : (s : Stack) (a : ArpLayer) → IsSound s → IsSound (with_arp s a)
with_arp-IsSound s a v = record { sized = with_arp-IsSized s a v.sized; named = v.named }

pub sent-IsSound :
    (env : Env) (s : Stack) (bytes : List ℕ) (port : Port)
    → IsSound s
    → Kept (Ni.send env s bytes port)
unfolding Ni.send
sent-IsSound env s bytes port v = record {
  sized = record { ethernet_full = v.sized.ethernet_full; ip_whole = v.sized.ip_whole };
  named = v.named;
}

-- A call that delivers a frame is safe.
pub Delivers-Safe :
    (env : Env) (s : Stack) (a : ArpLayer) (bytes : List ℕ) (port : Port)
    (r : Result (Bool × Stack))
    → All Named s.route_table
    → Delivers env s a bytes port r
    → Safe Kept r
Delivers-Safe env s a bytes port r n d = subst (Safe Kept) (sym d.returns) (
    sent-IsSound env d.left bytes port
      (record { sized = d.sized_left; named = subst (All Named) (sym d.routes_left) n }))
