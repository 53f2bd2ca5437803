-- ===== src/Tests/ThreadsTests.antt =====
-- A host that forwards three bytes to 10.0.0.9 and answers a request of 10.0.0.2.
use arpwith_mfc.Base.{ℕ, ◌≡◌, true, List, [], ◌∷◌, ok, arith}
use arpwith_mfc.Wire.Formats.{ArpHeader, encode_arp, ether_ip_type}
use arpwith_mfc.State.{inner, outer, sel, Stack}
use arpwith_mfc.Ni
use arpwith_mfc.Arp
use arpwith_mfc.Ether.Laws.{frame}
use arpwith_mfc.Delivers.{Delivers}
use arpwith_mfc.Arp.Forward.{ip_frame, temp, forward-Delivers}
use arpwith_mfc.Arp.Reply.{reply_frame, reply_of, answer-Delivers}
use arpwith_mfc.Threads.{
  Call, set_to, set_as, hand, run, forward_calls, answer_calls, Merge, both_done, first, second,
}
use arpwith_mfc.Threads.Apart.{frames, forward-answer_apart}
use arpwith_mfc.Threads.Race.{race_misdirects}
use arpwith_mfc.Tests.Hosts.{ip_of, mac_of, host, host-IsSized, env_at, arp_header}

abbrev busy : Stack
busy = host 1 0 true [] [] []

abbrev asked_by_two : ArpHeader
asked_by_two = record (arp_header) {
  opercode = 0x0100;
  hardware_srcaddr = mac_of 2;
  protocol_srcaddr = ip_of 2;
  protocol_dstaddr = ip_of 1;
}

abbrev three : List ℕ
three = 0x45 ∷ 0 ∷ 3 ∷ []

abbrev forwarded :
    Delivers
      (env_at 5)
      busy
      busy.arp
      (ip_frame busy (mac_of 9) three 3 outer)
      outer
      (Arp.forward (env_at 5) busy (mac_of 9) (temp three 3) 3 outer)
forwarded =
    forward-Delivers (env_at 5) busy (mac_of 9) three 3 outer (host-IsSized 1 0 true [] [] [])
      (omega arith)

abbrev after_forward : Stack
unfolding Ni.send
after_forward =
    (Ni.send (env_at 5) (forwarded.left) (ip_frame busy (mac_of 9) three 3 outer) outer).1

abbrev replied :
    Delivers
      (env_at 5)
      busy
      busy.arp
      (reply_frame busy asked_by_two (mac_of 1) inner)
      inner
      (Arp.answer (env_at 5) busy asked_by_two (mac_of 1) inner)
replied =
    answer-Delivers (env_at 5) busy asked_by_two (mac_of 1) inner (host-IsSized 1 0 true [] [] [])

abbrev after_reply : Stack
unfolding Ni.send
after_reply =
    (Ni.send (env_at 5) (replied.left) (reply_frame busy asked_by_two (mac_of 1) inner) inner).1

-- the reply is handed over between SetType and Send of the packet
abbrev between : List Call
between =
    set_to outer (mac_of 9)
    ∷ set_to inner (mac_of 2)
    ∷ set_as outer ether_ip_type
    ∷ hand inner (encode_arp (reply_of asked_by_two (mac_of 1))) 28
    ∷ hand outer (temp three 3) 3
    ∷ []

between-Merge :
    Merge
      (forward_calls (mac_of 9) (temp three 3) 3 outer)
      (answer_calls (Arp.reply_to asked_by_two (mac_of 1)) inner)
      between
unfolding forward_calls answer_calls Arp.reply_to
between-Merge = first (second (first (second (first both_done))))

forward-answer_apart_example :
    (t : Stack) × (run (env_at 5) between busy ≡ ok t)
    × (sel t.ethernet outer ≡ sel after_forward.ethernet outer)
    × (frames outer t.sent ≡ frames outer after_forward.sent)
    × (sel t.ethernet inner ≡ sel after_reply.ethernet inner)
    × (frames inner t.sent ≡ frames inner after_reply.sent)
unfolding Ni.send
forward-answer_apart_example =
    forward-answer_apart (env_at 5) busy after_forward after_reply (mac_of 9) (mac_of 1)
      (temp three 3) 3 asked_by_two outer inner true true between (λ e. ground arith)
      (forwarded.returns) (replied.returns) between-Merge

race_misdirects_example :
    (zs : List Call) × (t : Stack) × Merge
      (forward_calls (mac_of 9) three 3 inner)
      (answer_calls (reply_of asked_by_two (mac_of 1)) inner)
      zs
    × (run (env_at 5) zs busy ≡ ok t)
    × (t.sent
        ≡ record {
          port = inner;
          bytes =
              frame
                (record (sel busy.ethernet inner) {
                  enet_dstaddr = mac_of 2;
                  enet_type = ether_ip_type;
                })
                three;
        }
          ∷ record {
            port = inner;
            bytes =
                frame
                  (record (sel busy.ethernet inner) {
                    enet_dstaddr = mac_of 2;
                    enet_type = ether_ip_type;
                  })
                  (encode_arp (reply_of asked_by_two (mac_of 1)));
          }
          ∷ [])
race_misdirects_example =
    race_misdirects (env_at 5) busy (mac_of 9) three 3 (reply_of asked_by_two (mac_of 1)) inner
      (host-IsSized 1 0 true [] [] []) (omega arith) (omega arith)
