-- ===== src/Arp/Forward.antt =====
-- CARPLayer::RSend: where an IP packet goes.
use arpwith_mfc.Base.{
  ℕ, ◌≤◌, ◌≡◌, inl, inr, Bool, List, ◌++◌, Option, none, some, Result, arith, length, take, drop,
  replicate, get_elem?, memcpy-ok, length-copied, length-replicate, take-copied, Option-cases,
}
use arpwith_mfc.Wire.Address.{Ip, Mac}
use arpwith_mfc.Wire.Formats.{ether_ip_type, ip_max_size}
use arpwith_mfc.State.{Port, sel, Stack, Env, ArpLayer, ArpNode}
use arpwith_mfc.Ether.Laws.{frame}
use arpwith_mfc.Sized.{IsSized}
use arpwith_mfc.Delivers.{Delivers, send_typed-Delivers}
use arpwith_mfc.Arp.{forward, forward_cached, ask_and_forward, rsend, clamp_length}
use arpwith_mfc.Arp.Table.{in_cache}
use arpwith_mfc.Arp.Proxy.{find_proxy}
use arpwith_mfc.Arp.Cache.{lookup, in_cache-lookup}

-- The frame of an IP packet for a known Ethernet address: at most 1500 bytes of it.
abbrev pub ip_frame : Stack → Mac → List ℕ → ℕ → Port → List ℕ
ip_frame s mac payload nlength port =
    frame (record (sel s.ethernet port) { enet_dstaddr = mac; enet_type = ether_ip_type })
      (take (clamp_length nlength) payload)

-- The Ethernet address that an IP address is known under without asking: a proxy entry comes
-- before the ARP table.
unfoldable pub known_mac : ArpLayer → Ip → Option Mac
known_mac a ip = elim (find_proxy a.proxy_table ip) [
  | some p ↦ some p.hardware_addr
  | none ↦ elim (lookup a.arp_table ip) [ none ↦ none | some n ↦ some n.hardware_addr ]
]

abbrev pub temp : List ℕ → ℕ → List ℕ
temp payload n = take n payload ++ drop n (replicate ip_max_size 0)

pub clamp_le : (n : ℕ) → clamp_length n ≤ 1500
clamp_le n = ground arith

room : (n : ℕ) → clamp_length n ≤ length (replicate {A = ℕ} ip_max_size 0)
room n = clamp_le n

pub forward-Delivers :
    (env : Env) (s : Stack) (mac : Mac) (payload : List ℕ) (nlength : ℕ) (port : Port)
    → IsSized s
    → clamp_length nlength ≤ length payload
    → Delivers env s s.arp
        (ip_frame s mac payload nlength port)
        port
        (forward env s mac (temp payload (clamp_length nlength)) (clamp_length nlength) port)
unfolding forward
forward-Delivers env s mac payload nlength port v k =
    rw (take-copied (replicate ip_max_size 0) payload (clamp_length nlength) k) at (
      send_typed-Delivers env s mac ether_ip_type (temp payload (clamp_length nlength))
        (clamp_length nlength) port v (clamp_le nlength)
        (omega (
          arith,
          length-copied (replicate ip_max_size 0) payload (clamp_length nlength) (room nlength) k,
          clamp_le nlength,
          length-replicate {A = ℕ} ip_max_size 0,
        )))

pub forward_cached-Delivers :
    (env : Env) (s : Stack) (k : ℕ) (n : ArpNode) (payload : List ℕ) (nlength : ℕ) (port : Port)
    → IsSized s
    → clamp_length nlength ≤ length payload
    → get_elem? s.arp.arp_table k ≡ some n
    → Delivers env s s.arp
        (ip_frame s n.hardware_addr payload nlength port)
        port
        (forward_cached env s k (temp payload (clamp_length nlength)) (clamp_length nlength) port)
unfolding forward_cached
forward_cached-Delivers env s k n payload nlength port v l e =
    rw e (forward-Delivers env s n.hardware_addr payload nlength port v l)

-- what RSend does once the packet is copied
abbrev pub routed : Env → Stack → List ℕ → ℕ → Ip → Port → Result (Bool × Stack)
routed env s payload nlength ip port = elim (find_proxy s.arp.proxy_table ip) [
  | some p ↦
      forward env s p.hardware_addr (temp payload (clamp_length nlength)) (clamp_length nlength)
        port
  | none ↦ elim (in_cache s.arp.arp_table ip) [
    | some i ↦
        forward_cached env s i (temp payload (clamp_length nlength)) (clamp_length nlength) port
    | none ↦
        ask_and_forward env s ip (temp payload (clamp_length nlength)) (clamp_length nlength) port
  ]
]

pub rsend-routed :
    (env : Env) (s : Stack) (payload : List ℕ) (nlength : ℕ) (ip : Ip) (port : Port)
    → clamp_length nlength ≤ length payload
    → rsend env s payload nlength ip port ≡ routed env s payload nlength ip port
unfolding rsend
rsend-routed env s payload nlength ip port k =
    rw (memcpy-ok (replicate ip_max_size 0) payload (clamp_length nlength) (room nlength) k)

-- A packet for an address that the proxy table or the ARP table knows is sent at once, to that Ethernet
-- address, if the buffers have the size of the structs and the packet has the bytes that are copied.
pub rsend-known :
    (env : Env) (s : Stack) (payload : List ℕ) (nlength : ℕ) (ip : Ip) (port : Port) (mac : Mac)
    → IsSized s
    → clamp_length nlength ≤ length payload
    → known_mac s.arp ip ≡ some mac
    → Delivers env s s.arp
        (ip_frame s mac payload nlength port)
        port
        (rsend env s payload nlength ip port)
unfolding known_mac
rsend-known env s payload nlength ip port mac v k e =
    rw (rsend-routed env s payload nlength ip port k)
      (elim (Option-cases (find_proxy s.arp.proxy_table ip)) [
        | inr (p, f) ↦
            let same : p.hardware_addr ≡ mac = ground arith in
            rw (f, routed, ← same) (forward-Delivers env s p.hardware_addr payload nlength port v k)
        | inl f ↦ elim (in_cache-lookup s.arp.arp_table ip) [
          | inl (c, l) ↦ absurd (ground arith)
          | inr (i, n, c, _, g, l) ↦
              let same : n.hardware_addr ≡ mac = ground arith in
              rw (f, routed)
                (rw (c, ← same) (forward_cached-Delivers env s i n payload nlength port v k g))
        ]
      ])
