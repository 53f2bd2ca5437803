-- ===== src/Typed/Forwards.antt =====
-- CARPLayer::RSend keeps the types, and sends octets.
use arpwith_mfc.Base.{
  ℕ, ◌<◌, inl, inr, List, arith, Leaves, Leaves-bind, Option-cases, replicate, get_elem?,
}
use arpwith_mfc.Wire.Address.{Ip, Mac}
use arpwith_mfc.Wire.Formats.{ether_ip_type, ip_max_size}
use arpwith_mfc.State.{Port, Stack, Env}
use arpwith_mfc.Arp
use arpwith_mfc.Arp.Table.{in_cache}
use arpwith_mfc.Arp.Proxy.{find_proxy}
use arpwith_mfc.Arp.Unknown.{asking}
use arpwith_mfc.Typed.{IsIp, IsMac, NodeTyped, IsTyped, KeptTyped, WaitsTyped}
use arpwith_mfc.Typed.Bytes.{Octets, All-replicate, All-get_elem?, memcpy-Octets}
use arpwith_mfc.Typed.Tables.{find_proxy-ProxyTyped}
use arpwith_mfc.Typed.Sends.{
  ether_send-KeptTyped, set_mac_address-IsTyped, set_type-IsTyped, arp_send-KeptTyped,
}

forward-KeptTyped :
    (env : Env) (s : Stack) (mac : Mac) (temp : List ℕ) (n : ℕ) (port : Port)
    → IsMac mac
    → Octets temp
    → IsTyped s
    → Leaves KeptTyped (Arp.forward env s mac temp n port)
unfolding Arp.forward
forward-KeptTyped env s mac temp n port m b v =
    ether_send-KeptTyped env _ temp n port b
      (set_type-IsTyped _ ether_ip_type port (omega arith) (set_mac_address-IsTyped s mac port m v))

forward_cached-KeptTyped :
    (env : Env) (s : Stack) (i : ℕ) (temp : List ℕ) (n : ℕ) (port : Port)
    → Octets temp
    → IsTyped s
    → Leaves KeptTyped (Arp.forward_cached env s i temp n port)
unfolding Arp.forward_cached
forward_cached-KeptTyped env s i temp n port b v =
    elim (Option-cases (get_elem? s.arp.arp_table i)) [
      | inl e ↦ rw e tt
      | inr (node, e) ↦ rw e (
          forward-KeptTyped env s node.hardware_addr temp n port
            (All-get_elem? NodeTyped s.arp.arp_table i node v.arp_typed.nodes_typed
              e).hardware_typed
            b v)
    ]

ask_and_forward-KeptTyped :
    (env : Env) (s : Stack) (ip : Ip) (temp : List ℕ) (n : ℕ) (port : Port)
    → WaitsTyped env
    → IsIp ip
    → Octets temp
    → IsTyped s
    → Leaves KeptTyped (Arp.ask_and_forward env s ip temp n port)
unfolding Arp.ask_and_forward
ask_and_forward-KeptTyped env s ip temp n port w i b v =
    Leaves-bind KeptTyped KeptTyped (Arp.send env s (asking env s ip port) port) _
      (arp_send-KeptTyped env s (asking env s ip port) port (v.arp_typed.myip_typed port) i v)
      (λ x u.
        let later = w x.1 u in
        elim (Option-cases (in_cache (env.wait x.1).arp.arp_table ip)) [
          | inl e ↦ rw e later
          | inr (k, e) ↦ rw e (forward_cached-KeptTyped env (env.wait x.1) k temp n port b later)
        ])

pub rsend-KeptTyped :
    (env : Env) (s : Stack) (payload : List ℕ) (n : ℕ) (ip : Ip) (port : Port)
    → WaitsTyped env
    → IsIp ip
    → Octets payload
    → IsTyped s
    → Leaves KeptTyped (Arp.rsend env s payload n ip port)
unfolding Arp.rsend
rsend-KeptTyped env s payload n ip port w i b v =
    Leaves-bind Octets KeptTyped _ _
      (memcpy-Octets (replicate ip_max_size 0) payload (Arp.clamp_length n)
        (All-replicate {A = ℕ} (λ x. x < 256) ip_max_size 0 (omega arith)) b)
      (λ temp t. elim (Option-cases (find_proxy s.arp.proxy_table ip)) [
        | inr (p, e) ↦ rw e (
            forward-KeptTyped env s p.hardware_addr temp (Arp.clamp_length n) port
              (find_proxy-ProxyTyped s.arp.proxy_table ip p v.arp_typed.proxies_typed
                e).target_typed
              t v)
        | inl e ↦ elim (Option-cases (in_cache s.arp.arp_table ip)) [
          | inr (k, c) ↦
              rw (e, c) (forward_cached-KeptTyped env s k temp (Arp.clamp_length n) port t v)
          | inl c ↦
              rw (e, c) (ask_and_forward-KeptTyped env s ip temp (Arp.clamp_length n) port w i t v)
        ]
      ])
