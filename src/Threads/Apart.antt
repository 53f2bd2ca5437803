-- ===== src/Threads/Apart.antt =====
-- Threads that send by different adapters.
use arpwith_mfc.Base.{
  ℕ, ◌≡◌, ◌≢◌, refl, sym, ap, ◌∙◌, inl, inr, Bool, true, false, List, [], ◌∷◌, ◌++◌, Option, none,
  some, Result, ok, ◌>>=◌, Result-cases, if◌then◌else◌, Bool-cases, All, memcpy, take, >>=-eq-ok,
}
use mathlib.Core.Path.{subst}
use mathlib.Core.List.{append-nil}
use arpwith_mfc.Wire.Address.{Mac}
use arpwith_mfc.Wire.Formats.{EthernetHeader, ArpHeader, encode_ethernet}
use arpwith_mfc.Arp
use arpwith_mfc.State.{Port, inner, outer, sel, sel-put_self, sel-put_ne, Sent, Stack, Env}
use arpwith_mfc.Ni
use arpwith_mfc.Ether
use arpwith_mfc.Threads.{
  Call, set_to, set_as, hand, call, run, forward_calls, answer_calls, Merge, both_done, first,
  second, forward-run, answer-run,
}

-- the port that a call is about
abbrev pub port_of_call : Call → Port
port_of_call (set_to port mac) = port
port_of_call (set_as port type) = port
port_of_call (hand port payload n) = port

abbrev same_port : Port → Port → Bool
same_port inner inner = true
same_port inner outer = false
same_port outer inner = false
same_port outer outer = true

-- the frames that were handed to the adapter of the port, in their order
abbrev pub frames : Port → List Sent → List (List ℕ)
frames p [] = []
frames p (f ∷ fs) = if same_port p f.port then f.bytes ∷ frames p fs else frames p fs

-- Nothing that is seen at the port differs: its Ethernet header, and what was sent by it.
pub record Alike (p : Port) (s t : Stack) : Type 0 where
  pub header_alike : sel s.ethernet p ≡ sel t.ethernet p
  pub frames_alike : frames p s.sent ≡ frames p t.sent

-- What a call does to the header of its port, and the frame that it sends.
abbrev effect : Call → EthernetHeader → Result (EthernetHeader × Option (List ℕ))
effect (set_to port mac) h = ok (record h { enet_dstaddr = mac }, none)
effect (set_as port type) h = ok (record h { enet_type = type }, none)
effect (hand port payload n) h = memcpy h.enet_data payload n >>= λ content. ok (
  record h { enet_data = content },
  some (take (Ether.frame_length n) (encode_ethernet (record h { enet_data = content }))),
)

abbrev after : Stack → Port → EthernetHeader × Option (List ℕ) → Stack
after s p (h, none) = Ether.set_header s p h
after s p (h, some b) = record (Ether.set_header s p h) {
  sent = s.sent ++ record { port = p; bytes = b } ∷ [];
}

call-effect :
    (env : Env) (c : Call) (s : Stack)
    → call env c s
      ≡ (effect c (sel s.ethernet (port_of_call c)) >>= λ e. ok (after s (port_of_call c) e))
unfolding call Ether.set_destin_address Ether.set_type Ether.send Ni.send
call-effect env (set_to port mac) s = refl
call-effect env (set_as port type) s = refl
call-effect env (hand port payload n) s =
    elim (Result-cases (memcpy (sel s.ethernet port).enet_data payload n)) [
      | inl (content, e) ↦ rw e
      | inr (inl e) ↦ rw e
      | inr (inr e) ↦ rw e
    ]

frames-append : (p : Port) (xs ys : List Sent) → frames p (xs ++ ys) ≡ frames p xs ++ frames p ys
frames-append p [] ys = refl
frames-append p (x ∷ xs) ys = elim (Bool-cases (same_port p x.port)) [
  | inl e ↦ rw e (ap (◌∷◌ x.bytes) (frames-append p xs ys))
  | inr e ↦ rw e (frames-append p xs ys)
]

after-here :
    (p : Port) (s t : Stack) (e : EthernetHeader × Option (List ℕ))
    → Alike p s t
    → Alike p (after s p e) (after t p e)
after-here p s t (h, none) a = record {
  header_alike = sel-put_self s.ethernet p h ∙ sym (sel-put_self t.ethernet p h);
  frames_alike = a.frames_alike;
}
after-here p s t (h, some b) a = record {
  header_alike = sel-put_self s.ethernet p h ∙ sym (sel-put_self t.ethernet p h);
  frames_alike =
      frames-append p s.sent _
      ∙ ap (λ fs. fs ++ frames p (record { port = p; bytes = b } ∷ [])) a.frames_alike
      ∙ sym (frames-append p t.sent _);
}

other_port : (p q : Port) (b : List ℕ) → p ≢ q → frames q (record { port = p; bytes = b } ∷ []) ≡ []
other_port inner inner b n = absurd (n refl)
other_port inner outer b n = refl
other_port outer inner b n = refl
other_port outer outer b n = absurd (n refl)

after-there :
    (p q : Port) (s : Stack) (e : EthernetHeader × Option (List ℕ))
    → p ≢ q
    → Alike q (after s p e) s
after-there p q s (h, none) n = record {
  header_alike = sel-put_ne s.ethernet p q h n;
  frames_alike = refl;
}
after-there p q s (h, some b) n = record {
  header_alike = sel-put_ne s.ethernet p q h n;
  frames_alike =
      frames-append q s.sent _
      ∙ ap (λ fs. frames q s.sent ++ fs) (other_port p q b n)
      ∙ append-nil (frames q s.sent);
}

Alike-trans : (p : Port) (s t u : Stack) → Alike p s t → Alike p t u → Alike p s u
Alike-trans p s t u a b = record {
  header_alike = a.header_alike ∙ b.header_alike;
  frames_alike = a.frames_alike ∙ b.frames_alike;
}

Alike-refl : (p : Port) (s : Stack) → Alike p s s
Alike-refl p s = record { header_alike = refl; frames_alike = refl }

-- A call sees and changes only its own port.
record Called (env : Env) (c : Call) (s u : Stack) : Type 0 where
  left : Stack
  returns : call env c s ≡ ok left
  here : Alike (port_of_call c) left u
  there : (q : Port) → port_of_call c ≢ q → Alike q left s

call-Called :
    (env : Env) (c : Call) (s t u : Stack)
    → Alike (port_of_call c) s t
    → call env c t ≡ ok u
    → Called env c s u
call-Called env c s t u a called =
    let p = port_of_call c in
    let (x, e, last) =
      >>=-eq-ok (effect c (sel t.ethernet p)) (λ e. ok (after t p e))
        (sym (call-effect env c t) ∙ called) in
    let same : after t p x ≡ u = cc in
    record {
      left = after s p x;
      returns =
          call-effect env c s
          ∙ ap (λ h. effect c h >>= λ e. ok (after s p e)) a.header_alike
          ∙ ap (λ m. m >>= λ e. ok (after s p e)) e;
      here = subst (Alike p (after s p x)) same (after-here p s t x a);
      there = λ q n. after-there p q s x n;
    }

-- The threads' own runs, from states that are alike at their ports.
merged :
    (env : Env) (p q : Port) {xs ys zs : List Call} (s s1 s2 a b : Stack)
    → Merge xs ys zs
    → p ≢ q
    → All (λ c. port_of_call c ≡ p) xs
    → All (λ c. port_of_call c ≡ q) ys
    → Alike p s s1
    → Alike q s s2
    → run env xs s1 ≡ ok a
    → run env ys s2 ≡ ok b
    → (t : Stack) × (run env zs s ≡ ok t) × Alike p t a × Alike q t b
unfolding run
merged env p q s s1 s2 a b both_done n us vs i j ra rb =
    let ea : s1 ≡ a = cc in
    let eb : s2 ≡ b = cc in (s, refl, subst (Alike p s) ea i, subst (Alike q s) eb j)
merged env p q s s1 s2 a b (first {c} {xs} {ys} {zs} m) n (u, us) vs i j ra rb =
    let (s3, called, rest) = >>=-eq-ok (call env c s1) (λ t. run env xs t) ra in
    let d = call-Called env c s s1 s3 (subst (λ o. Alike o s s1) (sym u) i) called in
    let (t, e, k, l) =
      merged env p q d.left s3 s2 a b m n us vs (subst (λ o. Alike o d.left s3) u d.here)
        (Alike-trans q d.left s s2 (d.there q (λ o. n (sym u ∙ o))) j) rest rb in
    (t, rw (d.returns) e, k, l)
merged env p q s s1 s2 a b (second {c} {xs} {ys} {zs} m) n us (v, vs) i j ra rb =
    let (s3, called, rest) = >>=-eq-ok (call env c s2) (λ t. run env ys t) rb in
    let d = call-Called env c s s2 s3 (subst (λ o. Alike o s s2) (sym v) j) called in
    let (t, e, k, l) =
      merged env p q d.left s1 s3 a b m n us vs
        (Alike-trans p d.left s s1 (d.there p (λ o. n (sym (sym v ∙ o)))) i)
        (subst (λ o. Alike o d.left s3) v d.here) ra rest in
    (t, rw (d.returns) e, k, l)

-- A thread that forwards a packet by one adapter and a thread that answers a request at the other do not
-- disturb each other: in whatever order their calls of CEthernetLayer are made, each adapter is handed
-- the frames that it would be handed, and its header is left as it would be left, if the other thread made
-- no call. Both functions return when they run alone.
pub forward-answer_apart :
    (env : Env) (s a b : Stack) (mac answered : Mac) (temp : List ℕ) (n : ℕ) (r : ArpHeader)
    (p q : Port) (sent_a sent_b : Bool) (zs : List Call)
    → p ≢ q
    → Arp.forward env s mac temp n p ≡ ok (sent_a, a)
    → Arp.answer env s r answered q ≡ ok (sent_b, b)
    → Merge (forward_calls mac temp n p) (answer_calls (Arp.reply_to r answered) q) zs
    → (t : Stack) × (run env zs s ≡ ok t)
      × (sel t.ethernet p ≡ sel a.ethernet p)
      × (frames p t.sent ≡ frames p a.sent)
      × (sel t.ethernet q ≡ sel b.ethernet q)
      × (frames q t.sent ≡ frames q b.sent)
unfolding forward_calls answer_calls
forward-answer_apart env s a b mac answered temp n r p q sent_a sent_b zs apart fa fb m =
    let ra : run env (forward_calls mac temp n p) s ≡ ok a =
      sym (forward-run env s mac temp n p) ∙ rw fa in
    let rb : run env (answer_calls (Arp.reply_to r answered) q) s ≡ ok b =
      sym (answer-run env s r answered q) ∙ rw fb in
    let (t, e, k, l) =
      merged env p q s s s a b m apart (refl, (refl, (refl, tt))) (refl, (refl, tt))
        (Alike-refl p s) (Alike-refl q s) ra rb in
    (t, e, k.header_alike, k.frames_alike, l.header_alike, l.frames_alike)
