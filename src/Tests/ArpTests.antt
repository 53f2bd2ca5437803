-- ===== src/Tests/ArpTests.antt =====
-- CARPLayer on concrete hosts: 10.0.0.1 and 10.0.0.2 on one wire.
use arpwith_mfc.Base.{
  ℕ, ◌≡◌, refl, ◌≢◌, ◌⊎◌, ◌↔◌, Bool, true, false, List, [], ◌∷◌, ◌++◌, some, none, ok, thrown,
  fault, arith, length, ◌≤◌, ◌<◌, has_bytes, if◌then◌else◌, take,
}
use arpwith_mfc.Wire.Address.{Ip, same_ip, fill_mac}
use arpwith_mfc.Wire.Formats.{
  ArpHeader, encode_arp, decode_arp, decode_ethernet, ether_ip_type, ether_arp_type,
  ether_max_data_size,
}
use arpwith_mfc.State.{Port, inner, outer, ArpNode, Stack, with_table}
use arpwith_mfc.Ether.Receive.{receive, ni_receive}
use arpwith_mfc.Ether.Demux.{Accepts, demultiplexed}
use arpwith_mfc.Arp
use arpwith_mfc.IpLayer
use arpwith_mfc.Arp.Cache.{lookup}
use arpwith_mfc.Arp.Proxy.{find_proxy}
use arpwith_mfc.Arp.Reply.{answered, reply_of}
use arpwith_mfc.Arp.Refine.{Noted}
use arpwith_mfc.Arp.Notes.{resolved, receive_reply_lem, request_overwrites, request_doubles}
use arpwith_mfc.Arp.Distinct.{Distinct}
use arpwith_mfc.Arp.Request.{send_lem, asked_arp, asked_node, request_frame, request_of, request_to}
use arpwith_mfc.Arp.Forward.{ip_frame, known_mac}
use arpwith_mfc.Arp.Unknown.{rsend-unknown, rsend-unanswered, asking, AfterWait}
use arpwith_mfc.Arp.Opcodes.{Known, receive_throws}
use arpwith_mfc.Exchange.{Resolved, resolves, own_mac}
use arpwith_mfc.Unheard.{gratuitous_unheard, outer_unanswered, reply_mistyped}
use arpwith_mfc.Tests.Hosts.{
  ip_of, mac_of, host, host-IsSized, env_at, node, proxy, arp_header, ip_header,
}

abbrev first : Stack
first = host 1 0 true [] (proxy ∷ []) []

abbrev second : Stack
second = host 2 ether_arp_type true (node 1 0 3 ∷ []) [] []

abbrev ask_second : ArpHeader
ask_second = request_of first (ip_header (ip_of 1) (ip_of 2)) inner

resolves_example :
    Resolved
      (env_at 5)
      (env_at 6)
      first
      second
      (ip_header (ip_of 1) (ip_of 2))
      inner
      inner
      (mac_of 2)
      (fill_mac 0)
      []
      []
unfolding answered same_ip
resolves_example =
    resolves (env_at 5) (env_at 6) first second (ip_header (ip_of 1) (ip_of 2)) inner inner
      (mac_of 2) (fill_mac 0) [] [] (host-IsSized 1 0 true [] (proxy ∷ []) [])
      (host-IsSized 2 ether_arp_type true (node 1 0 3 ∷ []) [] []) refl (λ e. ground arith)
      (omega arith) refl (λ e. ground arith) (λ e. ground arith) (λ e. ground arith) refl

send_lem_example :
    (s' : Stack) × (let f = request_to (fill_mac 255) first (ip_header (ip_of 1) (ip_of 2)) inner in
      (Arp.send (env_at 5) first (ip_header (ip_of 1) (ip_of 2)) inner ≡ ok (true, s'))
      × (s'.sent ≡ record { port = inner; bytes = f } ∷ [])
      × (((ip_of 1 ≡ ip_of 2) × (s'.arp.arp_table ≡ []))
          ⊎ ((ip_of 1 ≢ ip_of 2)
              × Noted [] (asked_node (env_at 5) first (ip_of 2)) s'.arp.arp_table))
      × (s'.arp.proxy_table ≡ first.arp.proxy_table)
      × (s'.route_table ≡ [])
      × (s'.ip ≡ first.ip)
      × ((p : Port) → own_mac s' p ≡ own_mac first p))
send_lem_example =
    send_lem (env_at 5) first (ip_header (ip_of 1) (ip_of 2)) inner
      (host-IsSized 1 0 true [] (proxy ∷ []) [])

abbrev short_packet : List ℕ
short_packet = 0x45 ∷ 0 ∷ 3 ∷ []

rsend-unknown_example :
    (d : Bool) × (asked : Stack) × (Arp.send
        (env_at 5)
        first
        (asking (env_at 5) first (ip_of 7) outer)
        outer
      ≡ ok (d, asked))
    × (asked.arp ≡ asked_arp (env_at 5) first (asking (env_at 5) first (ip_of 7) outer) outer)
    × AfterWait
        (env_at 5)
        asked
        short_packet
        3
        (ip_of 7)
        outer
        (lookup asked.arp.arp_table (ip_of 7))
        (Arp.rsend (env_at 5) first short_packet 3 (ip_of 7) outer)
unfolding known_mac find_proxy same_ip lookup
rsend-unknown_example =
    rsend-unknown (env_at 5) first short_packet 3 (ip_of 7) outer
      (host-IsSized 1 0 true [] (proxy ∷ []) []) (λ t v. v) (omega arith) refl

rsend-unanswered_example :
    (d : Bool) × (asked s' : Stack) × (Arp.send
        (env_at 5)
        first
        (asking (env_at 5) first (ip_of 7) outer)
        outer
      ≡ ok (d, asked))
    × (let f = ip_frame asked (fill_mac 255) short_packet 3 outer in
        (Arp.rsend (env_at 5) first short_packet 3 (ip_of 7) outer ≡ ok (true, s'))
        × (s'.sent
            ≡ record {
              port = outer;
              bytes =
                  request_to (fill_mac 255) first (asking (env_at 5) first (ip_of 7) outer) outer;
            }
              ∷ record { port = outer; bytes = f }
              ∷ []))
unfolding known_mac find_proxy same_ip lookup
rsend-unanswered_example =
    rsend-unanswered (env_at 5) first short_packet 3 (ip_of 7) outer
      (host-IsSized 1 0 true [] (proxy ∷ []) []) (λ t. refl) (omega arith) refl (λ e. ground arith)

-- the reply of the first host, as the second gets it
abbrev reply_first : ArpHeader
reply_first = record (arp_header) {
  opercode = 0x0200;
  hardware_srcaddr = mac_of 1;
  protocol_srcaddr = ip_of 1;
  hardware_dstaddr = mac_of 2;
  protocol_dstaddr = ip_of 2;
}

receive_throws_example :
    ((Arp.receive (env_at 5) first (encode_arp arp_header) inner ≡ fault)
      ↔ (length (encode_arp arp_header) < 28))
    × ((Arp.receive (env_at 5) first (encode_arp arp_header) inner ≡ thrown) ↔ (
        (28 ≤ length (encode_arp arp_header))
        × (same_ip (ip_of 1) (decode_arp (encode_arp arp_header)).protocol_srcaddr ≡ false)
        × ¬ Known (decode_arp (encode_arp arp_header)).opercode))
receive_throws_example =
    receive_throws (env_at 5) first (encode_arp arp_header) inner
      (host-IsSized 1 0 true [] (proxy ∷ []) [])

-- Three bytes are not enough.
receive_short_runs : Arp.receive (env_at 5) first short_packet inner ≡ fault
unfolding Arp.receive has_bytes
receive_short_runs = refl

-- the reply of the second host, which the table has been waiting for
abbrev reply_second : ArpHeader
reply_second = record (arp_header) {
  opercode = 0x0200;
  hardware_srcaddr = mac_of 2;
  protocol_srcaddr = ip_of 2;
  hardware_dstaddr = mac_of 1;
  protocol_dstaddr = ip_of 1;
}

abbrev waiting : Stack
waiting = host 1 0 true (node 2 0 3 ∷ []) [] []

receive_reply_lem_example :
    (let q = decode_arp (encode_arp reply_second) in
      ((lookup (node 2 0 3 ∷ []) q.protocol_srcaddr ≡ none)
        × (Arp.receive (env_at 5) waiting (encode_arp reply_second) inner ≡ ok (true, waiting)))
      ⊎ ((n : ArpNode) × (before after : List ArpNode) × (node 2 0 3 ∷ [] ≡ before ++ n ∷ after)
          × (n.protocol_addr ≡ q.protocol_srcaddr)
          × (lookup before q.protocol_srcaddr ≡ none)
          × (Arp.receive (env_at 5) waiting (encode_arp reply_second) inner
              ≡ ok (
                true,
                with_table waiting
                    (before ++ resolved q.protocol_srcaddr q.hardware_srcaddr 5 ∷ after),
              ))))
unfolding same_ip decode_arp encode_arp
receive_reply_lem_example =
    receive_reply_lem (env_at 5) waiting (encode_arp reply_second) inner (omega arith) refl refl

-- A request of a host that has a node already.
abbrev again : ArpHeader
again = record reply_second { opercode = 0x0100 }

request_doubles_example :
    (d : Bool) × (s' : Stack) × (before after : List ArpNode) × (Arp.receive
        (env_at 5)
        waiting
        (encode_arp again)
        inner
      ≡ ok (d, s'))
    × (node 2 0 3 ∷ [] ≡ before ++ node 2 0 3 ∷ after)
    × (s'.arp.arp_table ≡ before ++ node 2 0 3 ∷ (after ++ resolved (ip_of 2) (mac_of 2) 5 ∷ []))
    × (◌≡◌ {A = Ip} (ip_of 2) (ip_of 2))
    × (¬ Distinct s'.arp.arp_table)
    × (lookup s'.arp.arp_table (ip_of 2) ≡ some (node 2 0 3))
unfolding same_ip decode_arp encode_arp lookup
request_doubles_example =
    request_doubles (env_at 5) waiting (encode_arp again) inner (node 2 0 3)
      (host-IsSized 1 0 true (node 2 0 3 ∷ []) [] []) (omega arith) refl refl (refl, tt) refl refl

-- A request whose sender's Ethernet address begins with the bytes of the IP address of host 2.
abbrev forged : ArpHeader
forged = record (arp_header) {
  opercode = 0x0100;
  hardware_srcaddr = record { m0 = 10; m1 = 0; m2 = 0; m3 = 2; m4 = 6; m5 = 6 };
  protocol_srcaddr = ip_of 9;
  protocol_dstaddr = ip_of 1;
}

request_overwrites_example :
    (d : Bool) × (s' : Stack) × (Arp.receive (env_at 5) waiting (encode_arp forged) inner
      ≡ ok (d, s'))
    × ((b : Ip)
        → lookup s'.arp.arp_table b ≡ (
            if same_ip (ip_of 2) b
            then some (resolved (ip_of 2) (forged.hardware_srcaddr) 5)
            else lookup (node 2 0 3 ∷ []) b))
unfolding same_ip decode_arp encode_arp lookup
request_overwrites_example =
    request_overwrites (env_at 5) waiting (encode_arp forged) inner (node 2 0 3)
      (host-IsSized 1 0 true (node 2 0 3 ∷ []) [] []) (omega arith) refl refl refl

abbrev gratuitous : Stack
gratuitous = host 1 0 false [] [] []

gratuitous_unheard_example :
    (d : Bool) × (a' : Stack) × (f : List ℕ) × (Arp.send
        (env_at 5)
        gratuitous
        (ip_header (ip_of 1) (ip_of 1))
        inner
      ≡ ok (d, a'))
    × (a'.sent ≡ record { port = inner; bytes = f } ∷ [])
    × (receive (env_at 6) second (f ++ []) inner ≡ ok (false, second))
gratuitous_unheard_example =
    gratuitous_unheard (env_at 5) (env_at 6) gratuitous second (ip_header (ip_of 1) (ip_of 1)) inner
      inner [] (host-IsSized 1 0 false [] [] []) refl (λ e. ground arith)

-- The second host asks for the outer address of the first.
outer_unanswered_example :
    (d : Bool) × (a' b' : Stack) × (f : List ℕ) × (Arp.send
        (env_at 5)
        second
        (ip_header (ip_of 2) (ip_of 101))
        inner
      ≡ ok (d, a'))
    × (a'.sent ≡ record { port = inner; bytes = f } ∷ [])
    × (receive (env_at 6) first (f ++ []) outer ≡ ok (true, b'))
    × (b' ≡ with_table first b'.arp.arp_table)
unfolding find_proxy same_ip
outer_unanswered_example =
    outer_unanswered (env_at 5) (env_at 6) second first (ip_header (ip_of 2) (ip_of 101)) inner []
      (host-IsSized 2 ether_arp_type true (node 1 0 3 ∷ []) [] [])
      (host-IsSized 1 0 true [] (proxy ∷ []) []) refl (λ e. ground arith) (omega arith)
      (λ e. ground arith) refl (λ e. ground arith) refl

-- the second host's headers hold the type of IP
abbrev forwarder : Stack
forwarder = host 2 ether_ip_type true [] [] []

reply_mistyped_example :
    (d : Bool) × (b' : Stack) × (f : List ℕ) × (Arp.answer
        (env_at 5)
        forwarder
        ask_second
        (mac_of 2)
        inner
      ≡ ok (d, b'))
    × (b'.sent ≡ record { port = inner; bytes = f } ∷ [])
    × (receive (env_at 6) first (f ++ []) inner
        ≡ IpLayer.receive
            (env_at 6)
            first
            (take ether_max_data_size (encode_arp (reply_of ask_second (mac_of 2)) ++ []))
            inner)
reply_mistyped_example =
    reply_mistyped (env_at 5) (env_at 6) forwarder first ask_second (mac_of 2) inner inner []
      (host-IsSized 2 ether_ip_type true [] [] []) refl refl (λ e. ground arith)

abbrev incoming : List ℕ
incoming = request_frame first (ip_header (ip_of 1) (ip_of 2)) inner

demultiplexed_example :
    ((length incoming < 14) × (ni_receive (env_at 5) second (some incoming) inner ≡ fault))
    ⊎ ((14 ≤ length incoming)
        × Accepts (own_mac second inner) (decode_ethernet incoming)
        × (ni_receive (env_at 5) second (some incoming) inner
            ≡ Arp.receive (env_at 5) second (decode_ethernet incoming).enet_data inner))
    ⊎ ((14 ≤ length incoming)
        × (¬ Accepts (own_mac second inner) (decode_ethernet incoming))
        × (ni_receive (env_at 5) second (some incoming) inner ≡ ok (false, second)))
unfolding decode_ethernet
demultiplexed_example = demultiplexed (env_at 5) second incoming inner
