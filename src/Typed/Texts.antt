-- ===== src/Typed/Texts.antt =====
-- StrToaddr writes octets, whatever the text is.
use arpwith_mfc.Base.{
  ℕ, ◌-◌, ◌%◌, ◌<◌, ◌≡◌, inl, inr, Bool, true, false, List, [], ◌∷◌, none, some, arith,
  Option-cases, if◌then◌else◌, ◌==◌,
}
use mathlib.Core.Path.{subst}
use arpwith_mfc.Wire.Address.{Ip, Mac, mac_bytes, ip_bytes}
use arpwith_mfc.Text.{
  str_to_mac, str_to_ip, scan_fields, scan_number, scan_unsigned, scan_sign, scan_digits_one,
  skip_spaces, skip_prefix, expect,
}
use arpwith_mfc.Typed.{IsIp, IsMac}
use arpwith_mfc.Typed.Bytes.{Octets}
use arpwith_mfc.Typed.Formats.{mac_at-IsMac, ip_at-IsIp}

signed_octet : (minus : Bool) (k : ℕ) → (if minus then (256 - k % 256) % 256 else k % 256) < 256
signed_octet true k = omega arith
signed_octet false k = omega arith

scan_unsigned-fits :
    (base : ℕ) (minus : Bool) (t : List ℕ) (n : ℕ) (rest : List ℕ)
    → scan_unsigned base (minus, t) ≡ some (n, rest)
    → n < 256
unfolding scan_unsigned
scan_unsigned-fits base minus t n rest e =
    elim (Option-cases (scan_digits_one base (if base == 16 then skip_prefix t else t))) [
      | inl none_read ↦
          let stuck : none ≡ some (n, rest) = rw (scan_unsigned, none_read) at e in absurd (cc)
      | inr ((k, u), read) ↦
          let same : some ((if minus then (256 - k % 256) % 256 else k % 256), u) ≡ some (n, rest) =
            rw (scan_unsigned, read) at e in
          let octet : (if minus then (256 - k % 256) % 256 else k % 256) ≡ n = cc in
          subst (λ x. x < 256) octet (signed_octet minus k)
    ]

scan_number-fits :
    (base : ℕ) (t : List ℕ) (n : ℕ) (rest : List ℕ) → scan_number base t ≡ some (n, rest) → n < 256
unfolding scan_number
scan_number-fits base t n rest e =
    scan_unsigned-fits base (scan_sign (skip_spaces t)).0 (scan_sign (skip_spaces t)).1 n rest e

-- The octets that are read from a text, and those that the text leaves as they were.
scan_fields-Octets : (base sep : ℕ) (xs t : List ℕ) → Octets xs → Octets (scan_fields base sep xs t)
unfolding scan_fields
scan_fields-Octets base sep [] t h = tt
scan_fields-Octets base sep (x ∷ xs) t (p, h) = elim (Option-cases (scan_number base t)) [
  | inl e ↦ rw (scan_fields, e) (p, h)
  | inr ((n, rest), e) ↦
      rw (scan_fields, e)
        (
          scan_number-fits base t n rest e,
          elim (Option-cases (expect sep rest)) [
            | inl f ↦ rw f h
            | inr (u, f) ↦ rw f (scan_fields-Octets base sep xs u h)
          ],
        )
]

pub str_to_mac-IsMac : (dst : Mac) (src : List ℕ) → IsMac dst → IsMac (str_to_mac dst src)
unfolding str_to_mac
str_to_mac-IsMac dst src m =
    mac_at-IsMac (scan_fields 16 b':' (mac_bytes dst) src) 0
      (scan_fields-Octets 16 b':' (mac_bytes dst) src m)

pub str_to_ip-IsIp : (dst : Ip) (src : List ℕ) → IsIp dst → IsIp (str_to_ip dst src)
unfolding str_to_ip
str_to_ip-IsIp dst src i =
    ip_at-IsIp (scan_fields 10 b'.' (ip_bytes dst) src) 0
      (scan_fields-Octets 10 b'.' (ip_bytes dst) src i)
