-- ===== src/Arp/Opcodes.antt =====
-- The other branches of CARPLayer::Receive.
use arpwith_mfc.Base.{
  ℕ, ◌≤◌, ◌<◌, length, has_bytes, le-has_bytes, lt-has_bytes, ◌≡◌, refl, ◌⊎◌, inl, inr, ◌≢◌, Bool,
  true, false, List, Option, none, some, Result, ok, thrown, fault, arith, ◌==◌, ◌↔◌, Bool-cases,
  ◌∙◌,
}
use native.Mathlib.Decide.{ℕ_discrete}
use arpwith_mfc.Wire.Address.{Mac, same_ip, same_ip_refl}
use arpwith_mfc.Wire.Formats.{
  ArpHeader, decode_arp, arp_header_size, arp_opcode_request, arp_opcode_reply, arp_opcode_rrequest,
  arp_opcode_rreply,
}
use arpwith_mfc.State.{Port, Stack, Env, ArpNode, with_table}
use arpwith_mfc.Sized.{IsSized}
use arpwith_mfc.Arp.{receive, get_mac_in_arp}
use arpwith_mfc.Arp.Table.{learn, refresh}
use arpwith_mfc.Arp.Cache.{lookup}
use arpwith_mfc.Arp.Refine.{lookup-learn, get_mac_in_arp-lookup}
use arpwith_mfc.Arp.Reply.{Answers, receive-Answers}

-- A reply resolves its sender: if the sender is not the inner address and the table has a node of the
-- sender's IP address, Receive returns TRUE and sends nothing, and getMACinARP then finds that address
-- with the sender's Ethernet address.
pub receive_reply_resolves :
    (env : Env) (s : Stack) (payload : List ℕ) (port : Port) (n : ArpNode) (buffer : Mac)
    → has_bytes arp_header_size payload ≡ true
    → same_ip s.arp.myip.at_inner (decode_arp payload).protocol_srcaddr ≡ false
    → (decode_arp payload).opercode ≡ arp_opcode_reply
    → lookup s.arp.arp_table (decode_arp payload).protocol_srcaddr ≡ some n
    → (s' : Stack) × (receive env s payload port ≡ ok (true, s'))
      × (s'.sent ≡ s.sent)
      × (get_mac_in_arp s'.arp (decode_arp payload).protocol_srcaddr buffer
          ≡ ok (true, (decode_arp payload).hardware_srcaddr))
unfolding receive refresh
receive_reply_resolves env s payload port n buffer whole own op found = (
  with_table s (learn s.arp.arp_table (decode_arp payload) env.now),
  simp (whole, own, op),
  refl,
  get_mac_in_arp-lookup _ (decode_arp payload).protocol_srcaddr buffer
      ∙ rw
          (lookup-learn s.arp.arp_table (decode_arp payload) env.now
            (decode_arp payload).protocol_srcaddr)
          (rw (found, same_ip_refl (decode_arp payload).protocol_srcaddr)),
)

-- The operation codes of ARP and RARP.
abbrev pub Known : ℕ → Type 0
Known op =
    (op ≡ arp_opcode_request)
    ⊎ (op ≡ arp_opcode_reply)
    ⊎ (op ≡ arp_opcode_rrequest)
    ⊎ (op ≡ arp_opcode_rreply)

request-returns :
    (env : Env) (s : Stack) (q : ArpHeader) (port : Port) (m : Option Mac)
    (r : Result (Bool × Stack))
    → Answers env s q port m r
    → (r ≢ thrown) × (r ≢ fault)
request-returns env s q port none r a = (λ e. cc, λ e. cc)
request-returns env s q port (some mac) r a = (λ e. cc (a.returns), λ e. cc (a.returns))

-- neither an exception nor an access out of bounds
abbrev Fine : Result (Bool × Stack) → Type 0
Fine r = (r ≢ thrown) × (r ≢ fault)

receive-Known :
    (env : Env) (s : Stack) (payload : List ℕ) (port : Port)
    → IsSized s
    → has_bytes arp_header_size payload ≡ true
    → same_ip s.arp.myip.at_inner (decode_arp payload).protocol_srcaddr ≡ false
    → Known (decode_arp payload).opercode
    → Fine (receive env s payload port)
unfolding receive
receive-Known env s payload port v whole own (inl op) =
    request-returns env s (decode_arp payload) port _ _
      (receive-Answers env s payload port v (le-has_bytes arp_header_size payload whole) own op)
receive-Known env s payload port v whole own (inr (inl op)) =
    simp (whole, own, op) (λ e. cc, λ e. cc)
receive-Known env s payload port v whole own (inr (inr (inl op))) =
    simp (whole, own, op) (λ e. cc, λ e. cc)
receive-Known env s payload port v whole own (inr (inr (inr op))) =
    simp (whole, own, op) (λ e. cc, λ e. cc)

pub receive_own :
    (env : Env) (s : Stack) (payload : List ℕ) (port : Port)
    → has_bytes arp_header_size payload ≡ true
    → same_ip s.arp.myip.at_inner (decode_arp payload).protocol_srcaddr ≡ true
    → receive env s payload port ≡ ok (false, s)
unfolding receive
receive_own env s payload port whole own = simp (whole, own)

pub receive_unknown :
    (env : Env) (s : Stack) (payload : List ℕ) (port : Port)
    → has_bytes arp_header_size payload ≡ true
    → same_ip s.arp.myip.at_inner (decode_arp payload).protocol_srcaddr ≡ false
    → ¬ Known (decode_arp payload).opercode
    → receive env s payload port ≡ thrown
unfolding receive
receive_unknown env s payload port whole own unknown = simp (
  whole,
  own,
  test _ (λ e. unknown (inl e)),
  test _ (λ e. unknown (inr (inl e))),
  test _ (λ e. unknown (inr (inr (inl e)))),
  test _ (λ e. unknown (inr (inr (inr e)))),
)
  where
    test :
        (k : ℕ) → (decode_arp payload).opercode ≢ k → ((decode_arp payload).opercode == k) ≡ false
    test k h = ground arith

pub Known-dec : (op : ℕ) → Known op ⊎ (¬ Known op)
Known-dec op = elim (ℕ_discrete op arp_opcode_request) [
  | yes e ↦ inl (inl e)
  | no a ↦ elim (ℕ_discrete op arp_opcode_reply) [
    | yes e ↦ inl (inr (inl e))
    | no b ↦ elim (ℕ_discrete op arp_opcode_rrequest) [
      | yes e ↦ inl (inr (inr (inl e)))
      | no c ↦ elim (ℕ_discrete op arp_opcode_rreply) [
        | yes e ↦ inl (inr (inr (inr e)))
        | no d ↦ inr (λ k. ground arith)
      ]
    ]
  ]
]

pub receive_short :
    (env : Env) (s : Stack) (payload : List ℕ) (port : Port)
    → has_bytes arp_header_size payload ≡ false
    → receive env s payload port ≡ fault
unfolding receive
receive_short env s payload port short = simp short

-- Of a payload of 28 bytes at least.
whole_throws :
    (env : Env) (s : Stack) (payload : List ℕ) (port : Port)
    → IsSized s
    → has_bytes arp_header_size payload ≡ true
    → (receive env s payload port ≢ fault)
      × ((receive env s payload port ≡ thrown) ↔ (
          (same_ip s.arp.myip.at_inner (decode_arp payload).protocol_srcaddr ≡ false)
          × ¬ Known (decode_arp payload).opercode))
whole_throws env s payload port v whole =
    elim (Bool-cases (same_ip s.arp.myip.at_inner (decode_arp payload).protocol_srcaddr)) [
      | inl own ↦
          let e = receive_own env s payload port whole own in
          (λ f. cc, (λ t. absurd (cc), λ (o, _). absurd (cc)))
      | inr own ↦ elim (Known-dec (decode_arp payload).opercode) [
        | inl known ↦
            let fine = receive-Known env s payload port v whole own known in
            (fine.1, (λ t. absurd (fine.0 t), λ (_, unknown). absurd (unknown known)))
        | inr unknown ↦
            let e = receive_unknown env s payload port whole own unknown in
            (λ f. cc, (λ _. (own, unknown), λ _. e))
      ]
    ]

-- In a state whose buffers have the size of the structs, Receive accesses memory out of bounds exactly
-- where fewer than 28 bytes stand behind the pointer, and otherwise it throws exactly on an operation
-- code that is none of the four, from another sender than the inner address.
pub receive_throws :
    (env : Env) (s : Stack) (payload : List ℕ) (port : Port)
    → IsSized s
    → ((receive env s payload port ≡ fault) ↔ (length payload < arp_header_size))
      × ((receive env s payload port ≡ thrown) ↔ (
          (arp_header_size ≤ length payload)
          × (same_ip s.arp.myip.at_inner (decode_arp payload).protocol_srcaddr ≡ false)
          × ¬ Known (decode_arp payload).opercode))
receive_throws env s payload port v = elim (Bool-cases (has_bytes arp_header_size payload)) [
  | inl whole ↦
      let fine = whole_throws env s payload port v whole in
      let l = le-has_bytes arp_header_size payload whole in
      (
        (λ f. absurd (fine.0 f), λ short. absurd (omega arith)),
        (λ t. let u = fine.1.0 t in (l, u.0, u.1), λ (_, own, unknown). fine.1.1 (own, unknown)),
      )
  | inr short ↦
      let e = receive_short env s payload port short in
      let l = lt-has_bytes arp_header_size payload short in
      ((λ _. l, λ _. e), (λ t. absurd (cc), λ (k, _, _). absurd (omega arith)))
]
