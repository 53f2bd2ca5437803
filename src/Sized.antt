-- ===== src/Sized.antt =====
-- The sizes of the arrays inside the headers, which no operation changes.
use arpwith_mfc.Base.{
  ℕ, ◌+◌, ◌≤◌, ◌≡◌, ◌∙◌, Bool, List, ◌++◌, arith, Returns, length, take, drop, length-copied,
}
use arpwith_mfc.Wire.Address.{Mac}
use arpwith_mfc.Wire.Formats.{EthernetHeader, IpHeader, ether_max_data_size, ip_max_data_size}
use arpwith_mfc.State.{Port, sel, put-ind, Stack, Env, ArpLayer, with_arp}
use arpwith_mfc.Ether
use arpwith_mfc.Ether.Laws.{loaded, send_lem, frame}
use arpwith_mfc.Ni

abbrev pub Full : EthernetHeader → Type 0
Full h = length h.enet_data ≡ ether_max_data_size

abbrev pub Whole : IpHeader → Type 0
Whole h = length h.ip_data ≡ ip_max_data_size

-- Each `enet_data` has 1500 bytes and each `ip_data` 1480.
pub record IsSized (s : Stack) : Type 0 where
  pub ethernet_full : (p : Port) → Full (sel s.ethernet p)
  pub ip_whole : (p : Port) → Whole (sel s.ip p)

pub set_header-IsSized :
    (s : Stack) (port : Port) (h : EthernetHeader)
    → IsSized s
    → Full h
    → IsSized (Ether.set_header s port h)
set_header-IsSized s port h v f = record {
  ethernet_full = put-ind Full s.ethernet port h v.ethernet_full f;
  ip_whole = v.ip_whole;
}

pub set_destin_address-IsSized :
    (s : Stack) (addr : Mac) (port : Port)
    → IsSized s
    → IsSized (Ether.set_destin_address s addr port)
unfolding Ether.set_destin_address
set_destin_address-IsSized s addr port v = set_header-IsSized s port _ v (v.ethernet_full port)

pub set_type-IsSized :
    (s : Stack) (type : ℕ) (port : Port) → IsSized s → IsSized (Ether.set_type s type port)
unfolding Ether.set_type
set_type-IsSized s type port v = set_header-IsSized s port _ v (v.ethernet_full port)

pub with_arp-IsSized : (s : Stack) (a : ArpLayer) → IsSized s → IsSized (with_arp s a)
with_arp-IsSized s a v = record { ethernet_full = v.ethernet_full; ip_whole = v.ip_whole }

-- The state that CEthernetLayer::Send leaves behind.
abbrev pub after_send : Stack → List ℕ → ℕ → Port → Stack
after_send s payload n port = Ether.set_header s port (loaded (sel s.ethernet port) payload n)

-- CEthernetLayer::Send of at most 1500 bytes that the payload has: it returns what the adapter
-- says of the one frame, and the arrays keep their sizes.
pub send-IsSized :
    (env : Env) (s : Stack) (payload : List ℕ) (n : ℕ) (port : Port)
    → IsSized s
    → n ≤ 1500
    → n ≤ length payload
    → (Ether.send env s payload n port
        ≡ arpwith_mfc.Base.ok (
            Ni.send env
              (after_send s payload n port)
              (frame (sel s.ethernet port) (take n payload))
              port))
      × IsSized (after_send s payload n port)
send-IsSized env s payload n port v b k = (
  send_lem env s payload n port (v.ethernet_full port) b k,
  set_header-IsSized s port _ v (
      length-copied (sel s.ethernet port).enet_data payload n (omega (arith, v.ethernet_full port))
        k
      ∙ v.ethernet_full port),
)
