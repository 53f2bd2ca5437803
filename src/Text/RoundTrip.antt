-- ===== src/Text/RoundTrip.antt =====
-- Addresses that are printed and read back.
use arpwith_mfc.Base.{
  ℕ, suc, length, All, ◌<◌, inl, inr, Option-cases, ==_iff, ◌≡◌, refl, ap, ◌∙◌, List, [], ◌∷◌, ◌++◌,
  none, some, arith,
}
use mathlib.Core.List.{append_assoc}
use arpwith_mfc.Wire.Address.{Ip, Mac, ip_bytes, mac_bytes}
use arpwith_mfc.Text.{
  ip_to_str, str_to_ip, mac_to_str, str_to_mac, scan_fields, print_fields, expect, print_decimal,
  digit_value, scan_number, print_hex, mac_to_plain, print_plain_hex,
}
use arpwith_mfc.Text.Numbers.{
  PlainEnds, scan_number-print_plain_hex, Ends, scan_number-print_hex, scan_number-print_decimal,
}

scan_fields_step :
    (base sep d n : ℕ) (ds t rest : List ℕ)
    → scan_number base t ≡ some (n, rest)
    → scan_fields base sep (d ∷ ds) t
      ≡ n ∷ elim (expect sep rest) [ none ↦ ds | some u ↦ scan_fields base sep ds u ]
unfolding scan_fields
scan_fields_step base sep d n ds t rest e = rw (scan_fields, e) refl

scan_fields_last :
    (base sep d n : ℕ) (t rest : List ℕ)
    → scan_number base t ≡ some (n, rest)
    → scan_fields base sep (d ∷ []) t ≡ n ∷ []
unfolding scan_fields
scan_fields_last base sep d n t rest e = elim (Option-cases (expect sep rest)) [
  | inl h ↦ rw (scan_fields_step base sep d n [] t rest e, h) refl
  | inr (u, h) ↦ rw (scan_fields_step base sep d n [] t rest e, h) refl
]

scan_fields_next :
    (base sep d n : ℕ) (ds t rest : List ℕ)
    → scan_number base t ≡ some (n, sep ∷ rest)
    → scan_fields base sep (d ∷ ds) t ≡ n ∷ scan_fields base sep ds rest
unfolding expect
scan_fields_next base sep d n ds t rest e =
    rw (scan_fields_step base sep d n ds t (sep ∷ rest) e, (==_iff sep sep).1 refl) refl

-- What the octets `xs` print as is read back, whatever the destination held, if each of them is
-- read back in front of what stops a number, and the separator is such a thing.
scan_fields-print_fields :
    (Stop : List ℕ → Type 0) (print : ℕ → List ℕ) (base sep x : ℕ) (xs dst rest : List ℕ)
    → ((n : ℕ) (rest : List ℕ)
        → n < 256
        → Stop rest
        → scan_number base (print n ++ rest) ≡ some (n, rest))
    → ((t : List ℕ) → Stop (sep ∷ t))
    → Stop rest
    → length dst ≡ suc (length xs)
    → All (λ n. n < 256) (x ∷ xs)
    → scan_fields base sep dst (print_fields print sep (x ∷ xs) ++ rest) ≡ x ∷ xs
unfolding print_fields
scan_fields-print_fields Stop print base sep x xs [] rest reads e r l p = absurd (omega arith)
scan_fields-print_fields Stop print base sep x [] (d ∷ []) rest reads e r l (p, _) =
    scan_fields_last base sep d x (print x ++ rest) rest (reads x rest p r)
scan_fields-print_fields Stop print base sep x [] (d ∷ c ∷ ds) rest reads e r l (p, _) =
    absurd (omega arith)
scan_fields-print_fields Stop print base sep x (y ∷ xs) (d ∷ ds) rest reads e r l (p, ps) =
    let others = print_fields print sep (y ∷ xs) ++ rest in
    ap (scan_fields base sep (d ∷ ds))
      (append_assoc (print x) (sep ∷ print_fields print sep (y ∷ xs)) rest)
    ∙ scan_fields_next base sep d x ds (print x ++ sep ∷ others) others
        (reads x (sep ∷ others) p (e others))
    ∙ ap (λ t. x ∷ t)
        (scan_fields-print_fields Stop print base sep y xs ds rest reads e r (omega arith) ps)

-- An IP address whose octets fit a byte is read back from its text, whatever the destination held
-- and whatever stands behind the text, if that is no digit.
pub str_to_ip-ip_to_str :
    (a dst : Ip) (rest : List ℕ)
    → All (λ n. n < 256) (ip_bytes a)
    → Ends 10 rest
    → str_to_ip dst (ip_to_str a ++ rest) ≡ a
unfolding str_to_ip ip_to_str digit_value
str_to_ip-ip_to_str a dst rest h e =
    rw
      (scan_fields-print_fields (Ends 10) print_decimal 10 b'.' a.o0 (a.o1 ∷ a.o2 ∷ a.o3 ∷ [])
        (ip_bytes dst) rest scan_number-print_decimal (λ t. refl) e refl h)
      refl

-- The same of an Ethernet address, written with two hexadecimal digits an octet.
pub str_to_mac-mac_to_str :
    (a dst : Mac) (rest : List ℕ)
    → All (λ n. n < 256) (mac_bytes a)
    → Ends 16 rest
    → str_to_mac dst (mac_to_str a ++ rest) ≡ a
unfolding str_to_mac mac_to_str digit_value
str_to_mac-mac_to_str a dst rest h e =
    rw
      (scan_fields-print_fields (Ends 16) print_hex 16 b':' a.m0
        (a.m1 ∷ a.m2 ∷ a.m3 ∷ a.m4 ∷ a.m5 ∷ []) (mac_bytes dst) rest scan_number-print_hex
        (λ t. refl) e refl h)
      refl

-- An Ethernet address whose octets fit a byte is read back from the text of the adapter's control,
-- where an octet below 16 has one digit, whatever the destination held and whatever stands behind the
-- text, if that is neither a digit nor an `x`.
pub str_to_mac-mac_to_plain :
    (a dst : Mac) (rest : List ℕ)
    → All (λ n. n < 256) (mac_bytes a)
    → PlainEnds rest
    → str_to_mac dst (mac_to_plain a ++ rest) ≡ a
unfolding str_to_mac mac_to_plain digit_value
str_to_mac-mac_to_plain a dst rest h e =
    rw
      (scan_fields-print_fields PlainEnds print_plain_hex 16 b':' a.m0
        (a.m1 ∷ a.m2 ∷ a.m3 ∷ a.m4 ∷ a.m5 ∷ []) (mac_bytes dst) rest scan_number-print_plain_hex
        (λ t. (refl, refl, refl)) e refl h)
      refl
