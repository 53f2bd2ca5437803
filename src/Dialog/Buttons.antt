-- ===== src/Dialog/Buttons.antt =====
-- What the two buttons of CARPDlg that send ARP requests come to.
use arpwith_mfc.Base.{
  ℕ, ◌≡◌, ◌≢◌, refl, sym, true, false, not, ◌&&◌, ◌||◌, List, [], ◌∷◌, ◌++◌, ok, ap, ◌∙◌, ◌>>=◌,
  ◌<◌, ◌*◌, ◌⊎◌, ◌↔◌, inl, inr, All, Bool-cases, arith, ◌==◌,
}
use mathlib.Core.Bool.{true≢false}
use mathlib.Core.List.{append_assoc}
use arpwith_mfc.Wire.Address.{Ip, ip_bytes, fill_ip, same_ip_refl}
use arpwith_mfc.Wire.Formats.{IpHeader}
use arpwith_mfc.State.{Port, inner, outer, sel, Stack, Env, with_arp}
use arpwith_mfc.Sized.{IsSized, Whole, with_arp-IsSized}
use arpwith_mfc.Arp
use arpwith_mfc.Arp.Request.{request_frame}
use arpwith_mfc.IpLayer
use arpwith_mfc.Dialog.{
  Controls, garp_send, send_arp, address_self, address_request, dummy, dummy_data, octet_sum,
}
use arpwith_mfc.Dialog.Requests.{
  send-Requests, request_frame_same, address_self-IsSized, garp_frame,
}

-- The button for gratuitous ARP sends one gratuitous request by each adapter, the outer one first, for
-- the address in its control. The ARP table and the layer's own addresses are what they were, and the
-- mode is the normal one afterwards. The buffers have the size of the structs, before the call and after it.
pub garp_send_lem :
    (env : Env) (s : Stack) (c : Controls)
    → IsSized s
    → (s' : Stack) × (garp_send env s c ≡ ok s')
      × (s'.sent
          ≡ s.sent
            ++ record { port = outer; bytes = garp_frame s c.src_address.at_outer outer }
              ∷ record { port = inner; bytes = garp_frame s c.src_address.at_inner inner }
              ∷ [])
      × (s'.arp.arp_table ≡ s.arp.arp_table)
      × (s'.arp.is_garp ≡ true)
      × (s'.arp.myip ≡ s.arp.myip)
      × (s'.arp.mymac ≡ s.arp.mymac)
      × IsSized s'
unfolding garp_send address_self IpLayer.set_source_address IpLayer.set_destin_address Arp.set_garp
garp_send_lem env s c v =
    let a = c.src_address.at_outer in
    let b = c.src_address.at_inner in
    let g = with_arp s (Arp.set_garp s.arp true) in
    let u = address_self g a outer in
    let p =
      send-Requests env u dummy 6 outer (address_self-IsSized g a outer (with_arp-IsSized s _ v))
        (omega arith) (omega arith) in
    let w = address_self p.after b inner in
    let q =
      send-Requests env w dummy 6 inner (address_self-IsSized p.after b inner p.sized_after)
        (omega arith) (omega arith) in
    (
      with_arp q.after (Arp.set_garp q.after.arp false),
      rw (p.returned, q.returned) refl,
      q.sent_after
          ∙ ap
              (λ l.
                l ++ record { port = inner; bytes = request_frame w (sel w.ip inner) inner } ∷ [])
              p.sent_after
          ∙ append_assoc s.sent _ _
          ∙ ap
              (λ f.
                s.sent
                ++ record { port = outer; bytes = garp_frame s a outer }
                  ∷ record { port = inner; bytes = f }
                  ∷ [])
              (request_frame_same w g (sel w.ip inner)
                (record (sel s.ip inner) { ip_srcaddr = b; ip_dstaddr = b }) inner
                (p.own_after inner) (ap (λ x. x.is_garp) p.arp_after)
                (ap (λ x. sel x.headers inner) p.arp_after) refl refl),
      ap (λ x. x.arp_table) q.arp_after
          ∙ rw (same_ip_refl b) (ap (λ x. x.arp_table) p.arp_after ∙ rw (same_ip_refl a) refl),
      refl,
      ap (λ x. x.myip) q.arp_after ∙ ap (λ x. x.myip) p.arp_after,
      ap (λ x. x.mymac) q.arp_after ∙ ap (λ x. x.mymac) p.arp_after,
      with_arp-IsSized q.after _ q.sized_after,
    )

-- the request for the destination in the control, by the adapter of the port
abbrev pub ask_frame : Stack → Controls → Port → List ℕ
ask_frame s c port =
    request_frame s
      (record (sel s.ip port) { ip_srcaddr = sel c.src_address port; ip_dstaddr = c.dst_address })
      port

pub address_request-IsSized : (s : Stack) (c : Controls) → IsSized s → IsSized (address_request s c)
unfolding address_request IpLayer.set_source_address IpLayer.set_destin_address
address_request-IsSized s c v = record { ethernet_full = v.ethernet_full; ip_whole = whole }
  where
    whole : (p : Port) → Whole (sel (address_request s c).ip p)
    whole inner = v.ip_whole inner
    whole outer = v.ip_whole outer

-- Two requests, the inner one first.
send_both :
    (env : Env) (s : Stack) (c : Controls)
    → IsSized s
    → (s' : Stack) × ((IpLayer.send env (address_request s c) dummy_data 11 inner >>= λ r.
          IpLayer.send env r.1 dummy_data 11 outer >>= λ q. ok q.1)
        ≡ ok s')
      × (s'.sent
          ≡ s.sent
            ++ record { port = inner; bytes = ask_frame s c inner }
              ∷ record { port = outer; bytes = ask_frame s c outer }
              ∷ [])
      × IsSized s'
unfolding address_request IpLayer.set_source_address IpLayer.set_destin_address
send_both env s c v =
    let u = address_request s c in
    let p =
      send-Requests env u dummy_data 11 inner (address_request-IsSized s c v) (omega arith)
        (omega arith) in
    let q =
      send-Requests env p.after dummy_data 11 outer p.sized_after (omega arith) (omega arith) in
    (
      q.after,
      rw (p.returned, q.returned) refl,
      q.sent_after
          ∙ ap
              (λ l.
                l
                ++ record {
                  port = outer;
                  bytes = request_frame p.after (sel p.after.ip outer) outer;
                }
                  ∷ [])
              p.sent_after
          ∙ append_assoc s.sent _ _
          ∙ ap
              (λ f.
                s.sent
                ++ record { port = inner; bytes = ask_frame s c inner }
                  ∷ record { port = outer; bytes = f }
                  ∷ [])
              (request_frame_same p.after s (sel p.after.ip outer)
                (record (sel s.ip outer) {
                  ip_srcaddr = c.src_address.at_outer;
                  ip_dstaddr = c.dst_address;
                })
                outer (p.own_after outer) (ap (λ x. x.is_garp) p.arp_after)
                (ap (λ x. sel x.headers outer) p.arp_after)
                (ap (λ i. (sel {A = IpHeader} i outer).ip_srcaddr) p.ip_after)
                (ap (λ i. (sel {A = IpHeader} i outer).ip_dstaddr) p.ip_after)),
      q.sized_after,
    )

-- The sum of the octets tells the two addresses from the others.
octet_sum_lem :
    (a : Ip)
    → All (λ n. n < 256) (ip_bytes a)
    → ((octet_sum a == 0 || octet_sum a == 255 * 4) ≡ true) ↔ ((a ≡ fill_ip 0) ⊎ (a ≡ fill_ip 255))
octet_sum_lem a f = ground arith

-- The button for a request does nothing before the adapters are chosen, and sends nothing for the
-- addresses 0.0.0.0 and 255.255.255.255. For any other it sends one request by each adapter, the inner
-- one first. The octets of the address fit a byte, and the buffers have the size of the structs.
pub send_arp_lem :
    (env : Env) (s : Stack) (c : Controls)
    → IsSized s
    → All (λ n. n < 256) (ip_bytes c.dst_address)
    → (((c.dst_enabled && not c.adapter_enabled) ≡ false) × (send_arp env s c ≡ ok s))
      ⊎ (((c.dst_enabled && not c.adapter_enabled) ≡ true)
          × ((c.dst_address ≡ fill_ip 0) ⊎ (c.dst_address ≡ fill_ip 255))
          × (send_arp env s c ≡ ok (address_request s c)))
      ⊎ (((c.dst_enabled && not c.adapter_enabled) ≡ true)
          × (c.dst_address ≢ fill_ip 0)
          × (c.dst_address ≢ fill_ip 255)
          × (s' : Stack) × (send_arp env s c ≡ ok s')
          × (s'.sent
              ≡ s.sent
                ++ record { port = inner; bytes = ask_frame s c inner }
                  ∷ record { port = outer; bytes = ask_frame s c outer }
                  ∷ [])
          × IsSized s')
unfolding send_arp
send_arp_lem env s c v f = elim (Bool-cases (c.dst_enabled && not c.adapter_enabled)) [
  | inl on ↦
      elim (Bool-cases (octet_sum c.dst_address == 0 || octet_sum c.dst_address == 255 * 4)) [
        | inl bad ↦ inr (inl (on, (octet_sum_lem c.dst_address f).0 bad, rw (on, bad) refl))
        | inr good ↦
            let (s', e, t, w) = send_both env s c v in
            inr (
              inr (
                on,
                (λ z. true≢false (sym ((octet_sum_lem c.dst_address f).1 (inl z)) ∙ good)),
                (λ z. true≢false (sym ((octet_sum_lem c.dst_address f).1 (inr z)) ∙ good)),
                s',
                rw (on, good) e,
                t,
                w,
              ))
      ]
  | inr off ↦ inl (off, rw off refl)
]
