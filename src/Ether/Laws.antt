-- ===== src/Ether/Laws.antt =====
-- What CEthernetLayer::Send puts on the wire, and when it copies out of bounds.
use arpwith_mfc.Base.{
  ℕ, ◌+◌, ◌≤◌, ◌≡◌, ap, ◌∙◌, List, ◌++◌, arith, ok, length, take, drop, memcpy-ok, take-copied,
  take-add-append, le→ltb,
}
use arpwith_mfc.Wire.Address.{mac_bytes, short_bytes}
use arpwith_mfc.Wire.Formats.{EthernetHeader, encode_ethernet, ether_header_size, ether_max_size}
use arpwith_mfc.State.{Port, sel, Stack, Env}
use arpwith_mfc.Ni
use arpwith_mfc.Ether.{set_header, frame_length, send}

-- The 14 bytes of an Ethernet header, and then a payload.
abbrev pub frame : EthernetHeader → List ℕ → List ℕ
frame h payload =
    (mac_bytes h.enet_dstaddr ++ mac_bytes h.enet_srcaddr ++ short_bytes h.enet_type) ++ payload

-- The header that is left behind holds the payload in place of the first bytes of its data.
abbrev pub loaded : EthernetHeader → List ℕ → ℕ → EthernetHeader
loaded h payload n = record h { enet_data = take n payload ++ drop n h.enet_data }

take-encode_ethernet :
    (h : EthernetHeader) (n : ℕ)
    → n ≤ 1500
    → take (frame_length n) (encode_ethernet h) ≡ frame h (take n h.enet_data)
unfolding encode_ethernet
take-encode_ethernet h n b = rw (le→ltb ether_max_size (ether_header_size + n) (omega arith)) (
    take-add-append
      (mac_bytes h.enet_dstaddr ++ mac_bytes h.enet_srcaddr ++ short_bytes h.enet_type) h.enet_data
      n)

-- Send hands the adapter one frame: the header's addresses and type, then the payload's first
-- `n` bytes, whatever the header's data held before. The payload has `n` bytes, 1500 at most, and the
-- header's data has its 1500.
pub send_lem :
    (env : Env) (s : Stack) (payload : List ℕ) (n : ℕ) (port : Port)
    → length (sel s.ethernet port).enet_data ≡ 1500
    → n ≤ 1500
    → n ≤ length payload
    → send env s payload n port
      ≡ ok (
          Ni.send env
            (set_header s port (loaded (sel s.ethernet port) payload n))
            (frame (sel s.ethernet port) (take n payload))
            port)
unfolding send
send_lem env s payload n port size b k =
    rw (memcpy-ok (sel s.ethernet port).enet_data payload n (omega arith) k) (
      ap
        (λ bytes.
          ok (Ni.send env (set_header s port (loaded (sel s.ethernet port) payload n)) bytes port))
        (take-encode_ethernet (loaded (sel s.ethernet port) payload n) n b
          ∙ ap (frame (sel s.ethernet port))
              (take-copied (sel s.ethernet port).enet_data payload n k)))
