-- ===== src/Threads.antt =====
-- The calls that CARPLayer makes of CEthernetLayer, one after the other, and two threads that make them at
-- the same time: CNILayer starts one receiving thread for each adapter, and both send through the two
-- Ethernet headers of one CEthernetLayer. A step is one call.
pub mod Apart
pub mod Race
use arpwith_mfc.Base.{
  ℕ, ◌≡◌, refl, inl, inr, Bool, true, false, List, [], ◌∷◌, ◌++◌, Result, ok, ◌>>=◌, Result-cases,
}
use arpwith_mfc.Wire.Address.{Mac}
use arpwith_mfc.Wire.Formats.{ArpHeader, encode_arp, ether_ip_type, arp_header_size}
use arpwith_mfc.State.{Port, inner, outer, sel, Sent, Stack, Env}
use arpwith_mfc.Ether
use arpwith_mfc.Arp

-- SetDestinAddress, SetType and Send of CEthernetLayer
pub data Call : Type 0 where
  set_to : Port → Mac → Call
  set_as : Port → ℕ → Call
  hand : Port → List ℕ → ℕ → Call

-- The call made in a state; the BOOL that Send returns is dropped.
unfoldable pub call : Env → Call → Stack → Result Stack
call env (set_to port mac) s = ok (Ether.set_destin_address s mac port)
call env (set_as port type) s = ok (Ether.set_type s type port)
call env (hand port payload n) s = Ether.send env s payload n port >>= λ r. ok r.1

unfoldable pub run : Env → List Call → Stack → Result Stack
unfolding call
run env [] s = ok s
run env (c ∷ cs) s = call env c s >>= λ t. run env cs t

-- The last lines of CARPLayer::RSend.
unfoldable pub forward_calls : Mac → List ℕ → ℕ → Port → List Call
forward_calls mac temp n port = set_to port mac ∷ set_as port ether_ip_type ∷ hand port temp n ∷ []

-- How CARPLayer::Receive sends the reply `r`.
unfoldable pub answer_calls : ArpHeader → Port → List Call
answer_calls r port = set_to port r.hardware_dstaddr ∷ hand port (encode_arp r) arp_header_size ∷ []

-- The calls of one thread between those of another: every order that keeps each thread's own.
pub data Merge : List Call → List Call → List Call → Type 0 where
  both_done : Merge [] [] []
  first : {c : Call} {xs ys zs : List Call} → Merge xs ys zs → Merge (c ∷ xs) ys (c ∷ zs)
  second : {c : Call} {xs ys zs : List Call} → Merge xs ys zs → Merge xs (c ∷ ys) (c ∷ zs)

dropped : (m : Result (Bool × Stack)) → (m >>= λ r. ok r.1) ≡ ((m >>= λ r. ok r.1) >>= λ t. ok t)
dropped m = elim (Result-cases m) [ inl (r, e) ↦ rw e | inr (inl e) ↦ rw e | inr (inr e) ↦ rw e ]

-- The functions of CARPLayer are runs of their calls.
pub forward-run :
    (env : Env) (s : Stack) (mac : Mac) (temp : List ℕ) (n : ℕ) (port : Port)
    → (Arp.forward env s mac temp n port >>= λ r. ok r.1)
      ≡ run env (forward_calls mac temp n port) s
unfolding Arp.forward run call forward_calls
forward-run env s mac temp n port = dropped _

pub answer-run :
    (env : Env) (s : Stack) (q : ArpHeader) (mac : Mac) (port : Port)
    → (Arp.answer env s q mac port >>= λ r. ok r.1)
      ≡ run env (answer_calls (Arp.reply_to q mac) port) s
unfolding Arp.answer run call answer_calls
answer-run env s q mac port = dropped _
