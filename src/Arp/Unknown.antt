-- ===== src/Arp/Unknown.antt =====
-- CARPLayer::RSend for an address that is in neither table: what is asked, and what the wait decides.
use arpwith_mfc.Base.{
  ℕ, ◌≤◌, ◌≡◌, ◌∙◌, ◌≢◌, inl, inr, Bool, false, List, [], ◌∷◌, ◌++◌, Option, none, some, Result, ok,
  arith, length, Option-cases,
}
use mathlib.Core.Path.{subst}
use mathlib.Core.List.{append_assoc}
use arpwith_mfc.Wire.Address.{Ip, Mac, same_ip_ne, same_ip_refl}
use arpwith_mfc.Wire.Formats.{IpHeader}
use arpwith_mfc.State.{Port, sel, Stack, Env, ArpNode}
use arpwith_mfc.Ni
use arpwith_mfc.Sized.{IsSized}
use arpwith_mfc.Delivers.{Delivers}
use arpwith_mfc.Arp.{send, forward_cached, ask_and_forward, rsend, clamp_length, broadcast_addr}
use arpwith_mfc.Arp.Table.{in_cache, arp_node, incomplete}
use arpwith_mfc.Arp.Proxy.{find_proxy}
use arpwith_mfc.Arp.Cache.{lookup, in_cache-lookup}
use arpwith_mfc.Arp.Refine.{lookup-note_target}
use arpwith_mfc.Arp.Request.{
  send-Delivers, asked_arp, request_frame, send_lem, request_to, unknown_mac, broadcast_addr_lem,
}
use arpwith_mfc.Arp.Forward.{
  ip_frame, known_mac, temp, routed, rsend-routed, forward_cached-Delivers,
}

-- The IP header that RSend makes up for the request.
abbrev pub asking : Env → Stack → Ip → Port → IpHeader
asking env s ip port = record (env.uninit) { ip_srcaddr = sel s.arp.myip port; ip_dstaddr = ip }

-- What becomes of a packet after the three seconds, in the state `t`: where the table has a node of the
-- address the packet is sent to that node's Ethernet address, and else RSend returns FALSE.
abbrev pub AfterWait :
    Env → Stack → List ℕ → ℕ → Ip → Port → Option ArpNode → Result (Bool × Stack) → Type 0
AfterWait env t payload nlength ip port none r = r ≡ ok (false, t)
AfterWait env t payload nlength ip port (some n) r =
    Delivers env t t.arp (ip_frame t n.hardware_addr payload nlength port) port r

pub routed_unknown :
    (env : Env) (s : Stack) (payload : List ℕ) (nlength : ℕ) (ip : Ip) (port : Port)
    → known_mac s.arp ip ≡ none
    → routed env s payload nlength ip port
      ≡ ask_and_forward env s ip (temp payload (clamp_length nlength)) (clamp_length nlength) port
unfolding known_mac
routed_unknown env s payload nlength ip port e =
    elim (Option-cases (find_proxy s.arp.proxy_table ip)) [
      | inr (p, f) ↦ absurd (ground arith)
      | inl f ↦ elim (in_cache-lookup s.arp.arp_table ip) [
        | inl (c, l) ↦ rw (f, routed) (rw c)
        | inr (i, n, c, _, g, l) ↦ absurd (ground arith)
      ]
    ]

-- The table decides, in the state after the wait.
pub after_wait :
    (env : Env) (t : Stack) (payload : List ℕ) (nlength : ℕ) (ip : Ip) (port : Port)
    → IsSized t
    → clamp_length nlength ≤ length payload
    → AfterWait env t payload nlength ip port
        (lookup t.arp.arp_table ip)
        (elim (in_cache t.arp.arp_table ip) [
          | none ↦ ok (false, t)
          | some i ↦
              forward_cached env t i
                (temp payload (clamp_length nlength))
                (clamp_length nlength)
                port
        ])
after_wait env t payload nlength ip port v k = elim (in_cache-lookup t.arp.arp_table ip) [
  | inl (c, l) ↦ rw (c, l)
  | inr (i, n, c, _, g, l) ↦
      rw (c, l) (forward_cached-Delivers env t i n payload nlength port v k g)
]

-- The same of RSend, once the request was sent and the wait is over.
pub rsend-asked :
    (env : Env) (s : Stack) (payload : List ℕ) (nlength : ℕ) (ip : Ip) (port : Port) (d : Bool)
    (asked : Stack)
    → clamp_length nlength ≤ length payload
    → known_mac s.arp ip ≡ none
    → send env s (asking env s ip port) port ≡ ok (d, asked)
    → IsSized (env.wait asked)
    → AfterWait env
        (env.wait asked)
        payload
        nlength
        ip
        port
        (lookup (env.wait asked).arp.arp_table ip)
        (rsend env s payload nlength ip port)
unfolding ask_and_forward
rsend-asked env s payload nlength ip port d asked k e sent v =
    rw (rsend-routed env s payload nlength ip port k) (
      rw (routed_unknown env s payload nlength ip port e)
        (rw (sent, ask_and_forward) (after_wait env (env.wait asked) payload nlength ip port v k)))

-- A packet for an unknown address has a request sent first, as Send does it for an IP header from the
-- port's own address. After the wait the table decides: the packet goes to the node's Ethernet address,
-- or RSend returns FALSE. The buffers have the size of the structs, before the call and after a wait
-- that begins with such buffers, and the packet has the bytes that are copied.
pub rsend-unknown :
    (env : Env) (s : Stack) (payload : List ℕ) (nlength : ℕ) (ip : Ip) (port : Port)
    → IsSized s
    → ((t : Stack) → IsSized t → IsSized (env.wait t))
    → clamp_length nlength ≤ length payload
    → known_mac s.arp ip ≡ none
    → (d : Bool) × (asked : Stack) × (send env s (asking env s ip port) port ≡ ok (d, asked))
      × (asked.arp ≡ asked_arp env s (asking env s ip port) port)
      × AfterWait env
          (env.wait asked)
          payload
          nlength
          ip
          port
          (lookup (env.wait asked).arp.arp_table ip)
          (rsend env s payload nlength ip port)
unfolding Ni.send
rsend-unknown env s payload nlength ip port v waits k e =
    let d = send-Delivers env s (asking env s ip port) port v in
    let (done, asked) = Ni.send env (d.left) (request_frame s (asking env s ip port) port) port in
    (
      done,
      asked,
      d.returns,
      d.arp_left,
      rsend-asked env s payload nlength ip port done asked k e (d.returns) (
          waits asked (record {
            ethernet_full = d.sized_left.ethernet_full;
            ip_whole = d.sized_left.ip_whole;
          })),
    )

pub after_found :
    (env : Env) (t asked : Stack) (payload : List ℕ) (nlength : ℕ) (ip : Ip) (port : Port)
    (n : ArpNode) (r : Result (Bool × Stack))
    → t ≡ asked
    → lookup t.arp.arp_table ip ≡ some n
    → AfterWait env t payload nlength ip port (lookup t.arp.arp_table ip) r
    → Delivers env asked asked.arp (ip_frame asked n.hardware_addr payload nlength port) port r
after_found env t asked payload nlength ip port n r e found after =
    subst
      (λ (u : Stack). Delivers env u u.arp (ip_frame u n.hardware_addr payload nlength port) port r)
      e (rw found at after)

-- Where nothing comes during the wait, the packet is not dropped. The request is sent, as Send does it; after
-- the wait the node that the request itself left is found, and the packet is handed to the adapter too,
-- for the Ethernet address that the node holds: all ones, or 0 in gratuitous mode. RSend returns what
-- pcap_sendpacket says of that frame. This is so for every unknown address but the port's own, if the
-- buffers have the size of the structs and the packet has the bytes that are copied.
pub rsend-unanswered :
    (env : Env) (s : Stack) (payload : List ℕ) (nlength : ℕ) (ip : Ip) (port : Port)
    → IsSized s
    → ((t : Stack) → env.wait t ≡ t)
    → clamp_length nlength ≤ length payload
    → known_mac s.arp ip ≡ none
    → sel s.arp.myip port ≢ ip
    → (d : Bool) × (asked s' : Stack) × (send env s (asking env s ip port) port ≡ ok (d, asked))
      × (let f = ip_frame asked (unknown_mac s.arp.is_garp) payload nlength port in
          (rsend env s payload nlength ip port
            ≡ ok (env.transmit (record { port = port; bytes = f }), s'))
          × (s'.sent
              ≡ s.sent
                ++ record {
                  port = port;
                  bytes = request_to (unknown_mac s.arp.is_garp) s (asking env s ip port) port;
                }
                  ∷ record { port = port; bytes = f }
                  ∷ []))
unfolding arp_node Ni.send
rsend-unanswered env s payload nlength ip port v quiet k e other =
    let (d, asked, sends, left, after) =
      rsend-unknown env s payload nlength ip port v (λ t w. rw (quiet t) w) k e in
    let (u, (sends', queue, _, _, _, _, _)) = send_lem env s (asking env s ip port) port v in
    let same : u ≡ asked = cc (sends, sends') in
    let found : lookup (env.wait asked).arp.arp_table ip
        ≡ some (arp_node ip (broadcast_addr s.arp) incomplete env.now) =
      rw (quiet asked, left, same_ip_ne _ _ other)
        (lookup-note_target s.arp.arp_table (arp_node ip (broadcast_addr s.arp) incomplete env.now)
            ip
          ∙ rw (same_ip_refl ip)) in
    let g =
      subst
        (λ (m : Mac).
          Delivers env asked asked.arp (ip_frame asked m payload nlength port) port
            (rsend env s payload nlength ip port))
        (broadcast_addr_lem s.arp)
        (after_found env (env.wait asked) asked payload nlength ip port
          (arp_node ip (broadcast_addr s.arp) incomplete env.now) _ (quiet asked) found after) in
    let queued : asked.sent
        ≡ s.sent
          ++ record {
            port = port;
            bytes = request_to (unknown_mac s.arp.is_garp) s (asking env s ip port) port;
          }
            ∷ [] =
      rw same at queue in
    (
      d,
      asked,
      (Ni.send env g.left (ip_frame asked (unknown_mac s.arp.is_garp) payload nlength port) port).1,
      sends,
      (g.returns, rw (g.sent_left, queued) (search append_assoc)),
    )
