-- ===== src/Tests/RelayTests.antt =====
-- A packet through a router, 10.0.0.1, to 10.0.0.9 behind its outer adapter.
use arpwith_mfc.Base.{ℕ, ◌≡◌, refl, true, List, [], ◌∷◌, arith, length, replicate, length-replicate}
use arpwith_mfc.Wire.Address.{same_ip, mask_ip}
use arpwith_mfc.Wire.Formats.{ether_arp_type, decode_ip}
use arpwith_mfc.State.{Route, inner, outer, Stack, Env, with_table}
use arpwith_mfc.Arp
use arpwith_mfc.Arp.Table.{learn}
use arpwith_mfc.Arp.Reply.{answered, reply_of}
use arpwith_mfc.Arp.Request.{request_of, asked_arp, send-Delivers}
use arpwith_mfc.Delivers.{Delivers}
use arpwith_mfc.Ni
use arpwith_mfc.Arp.Forward.{known_mac}
use arpwith_mfc.Arp.Cache.{lookup}
use arpwith_mfc.Arp.Proxy.{find_proxy}
use arpwith_mfc.Arp.Unknown.{asking}
use arpwith_mfc.IpLayer.Routes.{matches, match_route}
use arpwith_mfc.IpLayer.Forwarding.{next_hop, received, received-IsSized}
use arpwith_mfc.Relay.{Relayed, receive_relays, received-IsNeighbour}
use arpwith_mfc.Relay.Neighbour.{IsNeighbour, ask_frame, answer_taken, send-Asked}
use arpwith_mfc.Tests.Hosts.{ip_of, mac_of, host, host-IsSized, env_at}

-- 10.0.0.0/8 through 10.0.0.9 on the outer port
abbrev row : Route
row = record {
  destination_ip = record { o0 = 10; o1 = 0; o2 = 0; o3 = 0 };
  netmask = record { o0 = 255; o1 = 0; o2 = 0; o3 = 0 };
  gateway = ip_of 9;
  flag = 0x42;
  interface = 1;
}

abbrev router : Stack
router = host 1 0 true [] [] (row ∷ [])

abbrev next : Stack
next = host 9 ether_arp_type true [] [] []

-- During the wait the router learns from the reply.
abbrev answered_env : Env
answered_env = record (env_at 5) {
  wait = λ t. with_table t (
      learn t.arp.arp_table
        (reply_of (request_of router (asking (env_at 5) router (ip_of 9) outer) outer) (mac_of 9))
        5);
}

router-IsNeighbour : IsNeighbour answered_env router next (ip_of 9) outer inner
unfolding answered same_ip
router-IsNeighbour = record {
  sized_a = host-IsSized 1 0 true [] [] (row ∷ []);
  sized_b = host-IsSized 9 ether_arp_type true [] [] [];
  asks_all = refl;
  macs_differ = λ e. ground arith;
  request_fits = omega arith;
  reply_typed = refl;
  asker_other = λ e. ground arith;
  answerer_other = λ e. ground arith;
  inner_other = λ e. ground arith;
  answers = refl;
}

-- 1500 bytes of 10: a packet for 10.10.10.10
abbrev packet : List ℕ
packet = replicate 1500 10

length-packet : length packet ≡ 1500
length-packet = length-replicate {A = ℕ} 1500 10

-- what CARPLayer::Send of the router leaves when it asks
abbrev asking_router :
    Delivers answered_env
      (received router packet inner)
      (asked_arp answered_env
        (received router packet inner)
        (asking answered_env router (ip_of 9) outer)
        outer)
      (ask_frame answered_env router (ip_of 9) outer)
      outer
      (Arp.send answered_env
        (received router packet inner)
        (asking answered_env router (ip_of 9) outer)
        outer)
asking_router =
    send-Delivers answered_env (received router packet inner)
      (asking answered_env router (ip_of 9) outer) outer
      (received-IsSized router packet inner (host-IsSized 1 0 true [] [] (row ∷ [])) length-packet)

abbrev asked_router : Stack
unfolding Ni.send
asked_router =
    (Ni.send answered_env (asking_router.left) (ask_frame answered_env router (ip_of 9) outer)
      outer).1

receive_relays_example :
    Relayed answered_env (env_at 6) router next packet (ip_of 9) inner outer inner [] []
unfolding match_route matches same_ip mask_ip next_hop known_mac lookup find_proxy decode_ip Ni.send
receive_relays_example =
    receive_relays answered_env (env_at 6) router next asked_router true packet inner outer inner
      row (ip_of 9) [] [] [] (host-IsSized 1 0 true [] [] (row ∷ [])) length-packet refl refl refl
      refl router-IsNeighbour (asking_router.returns)
      (answer_taken answered_env (received router packet inner) next asked_router (ip_of 9) outer
        inner []
        (received-IsNeighbour answered_env router next packet (ip_of 9) inner outer inner
          length-packet router-IsNeighbour)
        (send-Asked answered_env (received router packet inner)
          (asking answered_env router (ip_of 9) outer) outer true asked_router
          (received-IsSized router packet inner (host-IsSized 1 0 true [] [] (row ∷ []))
            length-packet)
          (asking_router.returns)))
