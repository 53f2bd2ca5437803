-- ===== src/Text.antt =====
-- The texts of addresses: addrToStr and StrToaddr (ARP/ARPLayer.cpp). A text is the list of its
-- characters. Each call of the two names its type as a constant, so that the two cases of their
-- `switch` stand here as functions of their own.
pub mod Numbers
pub mod RoundTrip
pub mod Same
use arpwith_mfc.Base.{
  ℕ, ◌+◌, ◌-◌, ◌*◌, ◌/◌, ◌%◌, Bool, true, false, ◌&&◌, ◌||◌, List, [], ◌∷◌, ◌++◌, Option, none,
  some, if◌then◌else◌, ◌==◌, leb, ltb,
}
use arpwith_mfc.Wire.Address.{Ip, Mac, ip_bytes, ip_at, mac_bytes, mac_at}
use arpwith_mfc.Layers.Tokens.{is_space}

-- `%hhu` of an octet
unfoldable pub print_decimal : ℕ → List ℕ
print_decimal n =
    if ltb n 10
    then (48 + n) ∷ []
    else if ltb n 100
    then (48 + n / 10) ∷ (48 + n % 10) ∷ []
    else (48 + n / 100) ∷ (48 + n / 10 % 10) ∷ (48 + n % 10) ∷ []

unfoldable pub hex_digit : ℕ → ℕ
hex_digit d = if ltb d 10 then 48 + d else 87 + d

-- `%02hhx` of an octet
unfoldable pub print_hex : ℕ → List ℕ
unfolding hex_digit
print_hex n = hex_digit (n / 16) ∷ hex_digit (n % 16) ∷ []

-- `%hhx` of an octet
unfoldable pub print_plain_hex : ℕ → List ℕ
unfolding hex_digit print_hex
print_plain_hex n = if ltb n 16 then hex_digit n ∷ [] else print_hex n

-- the octets with a separator between two of them
unfoldable pub print_fields : (ℕ → List ℕ) → ℕ → List ℕ → List ℕ
print_fields print sep [] = []
print_fields print sep (x ∷ []) = print x
print_fields print sep (x ∷ y ∷ xs) = print x ++ sep ∷ print_fields print sep (y ∷ xs)

-- addrToStr(ARP_IP_TYPE, …)
unfoldable pub ip_to_str : Ip → List ℕ
ip_to_str a = print_fields print_decimal b'.' (ip_bytes a)

-- addrToStr(ARP_ENET_TYPE, …)
unfoldable pub mac_to_str : Mac → List ℕ
mac_to_str a = print_fields print_hex b':' (mac_bytes a)

-- the text that OnCbnSelchangeComboAdapter of the dialog makes of the adapter's address
unfoldable pub mac_to_plain : Mac → List ℕ
mac_to_plain a = print_fields print_plain_hex b':' (mac_bytes a)

-- the value of a character as a digit to the base 10 or 16
unfoldable pub digit_value : ℕ → ℕ → Option ℕ
digit_value base c =
    if leb 48 c && leb c 57
    then some (c - 48)
    else if base == 16 && leb 97 c && leb c 102
    then some (c - 87)
    else if base == 16 && leb 65 c && leb c 70
    then some (c - 55)
    else none

unfoldable pub skip_spaces : List ℕ → List ℕ
skip_spaces [] = []
skip_spaces (c ∷ cs) = if is_space c then skip_spaces cs else c ∷ cs

-- an optional sign, and whether it is a minus
unfoldable pub scan_sign : List ℕ → Bool × List ℕ
scan_sign [] = (false, [])
scan_sign (c ∷ cs) =
    if c == b'-' then (true, cs) else if c == b'+' then (false, cs) else (false, c ∷ cs)

-- the optional `0x` of a hexadecimal number
unfoldable pub skip_prefix : List ℕ → List ℕ
skip_prefix [] = []
skip_prefix (c ∷ []) = c ∷ []
skip_prefix (c ∷ d ∷ cs) = if c == b'0' && (d == b'x' || d == b'X') then cs else c ∷ d ∷ cs

-- the number that begins with `n`, and what is left
unfoldable pub scan_digits : ℕ → ℕ → List ℕ → ℕ × List ℕ
scan_digits base n [] = (n, [])
scan_digits base n (c ∷ cs) = elim (digit_value base c) [
  | none ↦ (n, c ∷ cs)
  | some d ↦ scan_digits base (n * base + d) cs
]

-- at least one digit must be there
unfoldable pub scan_digits_one : ℕ → List ℕ → Option (ℕ × List ℕ)
unfolding scan_digits
scan_digits_one base [] = none
scan_digits_one base (c ∷ cs) = elim (digit_value base c) [
  | none ↦ none
  | some d ↦ some (scan_digits base d cs)
]

-- the octet behind a sign, and what is left of the text
unfoldable pub scan_unsigned : ℕ → Bool × List ℕ → Option (ℕ × List ℕ)
unfolding scan_digits_one skip_prefix
scan_unsigned base (minus, t) =
    elim (scan_digits_one base (if base == 16 then skip_prefix t else t)) [
      | none ↦ none
      | some (n, rest) ↦ some ((if minus then (256 - n % 256) % 256 else n % 256), rest)
    ]

-- `%hhu` at the base 10, `%hhx` at the base 16
unfoldable pub scan_number : ℕ → List ℕ → Option (ℕ × List ℕ)
unfolding scan_unsigned scan_sign skip_spaces
scan_number base t = scan_unsigned base (scan_sign (skip_spaces t))

unfoldable pub expect : ℕ → List ℕ → Option (List ℕ)
expect sep [] = none
expect sep (c ∷ cs) = if c == sep then some cs else none

-- The octets of `dst` are overwritten from the front, as far as the text is read.
unfoldable pub scan_fields : ℕ → ℕ → List ℕ → List ℕ → List ℕ
unfolding scan_number expect
scan_fields base sep [] t = []
scan_fields base sep (x ∷ xs) t = elim (scan_number base t) [
  | none ↦ x ∷ xs
  | some (n, rest) ↦ n ∷ elim (expect sep rest) [ none ↦ xs | some u ↦ scan_fields base sep xs u ]
]

-- StrToaddr(ARP_IP_TYPE, dst, src)
unfoldable pub str_to_ip : Ip → List ℕ → Ip
str_to_ip dst src = ip_at (scan_fields 10 b'.' (ip_bytes dst) src) 0

-- StrToaddr(ARP_ENET_TYPE, dst, src)
unfoldable pub str_to_mac : Mac → List ℕ → Mac
str_to_mac dst src = mac_at (scan_fields 16 b':' (mac_bytes dst) src) 0
