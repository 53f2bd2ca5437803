-- ===== src/Arp/Notes.antt =====
-- What CARPLayer::Receive leaves in the ARP table.
use arpwith_mfc.Base.{
  ℕ, ◌≤◌, ◌≡◌, refl, ap, ◌∙◌, ◌⊎◌, inl, inr, Bool, true, false, List, [], ◌∷◌, ◌++◌, Option, none,
  some, Result, ok, if◌then◌else◌, length, has_bytes-le,
}
use arpwith_mfc.Wire.Address.{Ip, Mac, same_ip, mac_prefix}
use arpwith_mfc.Wire.Formats.{
  ArpHeader, decode_arp, arp_header_size, arp_opcode_request, arp_opcode_reply,
}
use arpwith_mfc.State.{Port, Stack, Env, ArpNode, with_table}
use arpwith_mfc.Ni
use arpwith_mfc.Sized.{IsSized}
use arpwith_mfc.Arp.{receive}
use arpwith_mfc.Arp.Table.{arp_node, refresh}
use arpwith_mfc.Arp.Cache.{lookup}
use arpwith_mfc.Arp.Refine.{learn_split, lookup-note_sender_hit, lookup-note_sender_missed}
use arpwith_mfc.Arp.Distinct.{Distinct, note_sender-not-Distinct}
use arpwith_mfc.Arp.Reply.{Answers, answered, noted, receive-Answers}

-- The node of a resolved address: the status is TRUE.
abbrev pub resolved : Ip → Mac → ℕ → ArpNode
resolved ip mac now = record {
  protocol_addr = ip;
  hardware_addr = mac;
  status = 1;
  span_time = now;
}

-- Receive of a reply of 28 bytes at least from another sender than the inner address returns TRUE and sends
-- nothing. Where no node has the sender's IP address nothing changes at all: nothing is learned from an
-- answer that was not asked for. Else the first node of that address takes the sender's Ethernet
-- address, the status TRUE and the time, and all other nodes and the rest of the layers stay.
pub receive_reply_lem :
    (env : Env) (s : Stack) (payload : List ℕ) (port : Port)
    → arp_header_size ≤ length payload
    → same_ip s.arp.myip.at_inner (decode_arp payload).protocol_srcaddr ≡ false
    → (decode_arp payload).opercode ≡ arp_opcode_reply
    → (let q = decode_arp payload in
        ((lookup s.arp.arp_table q.protocol_srcaddr ≡ none)
          × (receive env s payload port ≡ ok (true, s)))
        ⊎ ((n : ArpNode) × (before after : List ArpNode) × (s.arp.arp_table ≡ before ++ n ∷ after)
            × (n.protocol_addr ≡ q.protocol_srcaddr)
            × (lookup before q.protocol_srcaddr ≡ none)
            × (receive env s payload port
                ≡ ok (
                  true,
                  with_table s
                      (before ++ resolved q.protocol_srcaddr q.hardware_srcaddr env.now ∷ after),
                ))))
unfolding receive arp_node
receive_reply_lem env s payload port l own op =
    let whole = has_bytes-le arp_header_size payload l in
    elim (learn_split s.arp.arp_table (decode_arp payload) env.now) [
      | inl (none_there, e) ↦
          inl (none_there, simp (whole, own, op) (ap (λ t. ok (true, with_table s t)) e))
      | inr (n, before, after, split, same, other, e) ↦ inr (
        n,
        before,
        after,
        split,
        same,
        other,
        simp (whole, own, op) (ap (λ t. ok (true, with_table s t)) e),
      )
    ]

-- In both cases of an answer the table is the one with the asker noted.
Answers-noted :
    (env : Env) (s : Stack) (q : ArpHeader) (port : Port) (m : Option Mac)
    (r : Result (Bool × Stack))
    → Answers env s q port m r
    → (d : Bool) × (s' : Stack) × (r ≡ ok (d, s'))
      × (s'.arp.arp_table ≡ (noted env s q).arp.arp_table)
unfolding Ni.send
Answers-noted env s q port none r a = (true, noted env s q, a, refl)
Answers-noted env s q port (some mac) r a = (_, _, a.returns, rw (a.arp_left) refl)

-- Receive of a request of 28 bytes at least from another sender than the inner address, where the IP address of
-- some node agrees with the first four bytes of the sender's Ethernet address, in a state whose buffers
-- have the size of the structs. Receive returns, and that node, of whatever host, has the sender's
-- Ethernet address, the status TRUE and the time afterwards. Every other address, the sender's own
-- among them, has what it had: the sender is not noted.
pub request_overwrites :
    (env : Env) (s : Stack) (payload : List ℕ) (port : Port) (n : ArpNode)
    → IsSized s
    → arp_header_size ≤ length payload
    → same_ip s.arp.myip.at_inner (decode_arp payload).protocol_srcaddr ≡ false
    → (decode_arp payload).opercode ≡ arp_opcode_request
    → lookup s.arp.arp_table (mac_prefix (decode_arp payload).hardware_srcaddr) ≡ some n
    → (d : Bool) × (s' : Stack) × (receive env s payload port ≡ ok (d, s'))
      × ((b : Ip)
          → lookup s'.arp.arp_table b ≡ (
              if same_ip (mac_prefix (decode_arp payload).hardware_srcaddr) b
              then some (resolved n.protocol_addr (decode_arp payload).hardware_srcaddr env.now)
              else lookup s.arp.arp_table b))
unfolding refresh
request_overwrites env s payload port n v l own op found =
    let q = decode_arp payload in
    let (d, s', returns, table) =
      Answers-noted env s q port (answered s.arp q.protocol_dstaddr) _
        (receive-Answers env s payload port v l own op) in
    (
      d,
      s',
      returns,
      λ b. ap (λ t. lookup t b) table ∙ lookup-note_sender_hit s.arp.arp_table q env.now n b found,
    )

-- Receive of a request of 28 bytes at least from another sender than the inner address, where the addresses of
-- the table are distinct, no node's IP address agrees with the first four bytes of the sender's Ethernet
-- address, and the sender's IP address has a node already, in a state whose buffers have the size of the
-- structs. Receive returns, the old node of the sender stays as it was, and a new one of the same IP
-- address is pushed back: the address stands twice afterwards, and the old node is found first.
pub request_doubles :
    (env : Env) (s : Stack) (payload : List ℕ) (port : Port) (n : ArpNode)
    → IsSized s
    → arp_header_size ≤ length payload
    → same_ip s.arp.myip.at_inner (decode_arp payload).protocol_srcaddr ≡ false
    → (decode_arp payload).opercode ≡ arp_opcode_request
    → Distinct s.arp.arp_table
    → lookup s.arp.arp_table (mac_prefix (decode_arp payload).hardware_srcaddr) ≡ none
    → lookup s.arp.arp_table (decode_arp payload).protocol_srcaddr ≡ some n
    → (d : Bool) × (s' : Stack) × (before after : List ArpNode) × (receive env s payload port
        ≡ ok (d, s'))
      × (s.arp.arp_table ≡ before ++ n ∷ after)
      × (s'.arp.arp_table
          ≡ before
            ++ n
              ∷ (after
                  ++ resolved
                      (decode_arp payload).protocol_srcaddr
                      (decode_arp payload).hardware_srcaddr
                      env.now
                    ∷ []))
      × (n.protocol_addr ≡ (decode_arp payload).protocol_srcaddr)
      × (¬ Distinct s'.arp.arp_table)
      × (lookup s'.arp.arp_table (decode_arp payload).protocol_srcaddr ≡ some n)
unfolding arp_node
request_doubles env s payload port n v l own op distinct missed known =
    let q = decode_arp payload in
    let (d, s', returns, table) =
      Answers-noted env s q port (answered s.arp q.protocol_dstaddr) _
        (receive-Answers env s payload port v l own op) in
    let (before, after, split, noted_at, same, twice) =
      note_sender-not-Distinct s.arp.arp_table q env.now n distinct missed known in
    (
      d,
      s',
      before,
      after,
      returns,
      split,
      table ∙ noted_at,
      same,
      rw table twice,
      ap (λ t. lookup t q.protocol_srcaddr) table
          ∙ lookup-note_sender_missed s.arp.arp_table q env.now q.protocol_srcaddr missed
          ∙ rw known,
    )
