-- ===== src/Tests/DialogTests.antt =====
-- The buttons of the dialog, and texts of addresses.
use arpwith_mfc.Base.{◌≡◌, ◌≢◌, ◌⊎◌, refl, true, false, not, ◌&&◌, [], ◌∷◌, ok, arith}
use arpwith_mfc.Wire.Address.{fill_ip, fill_mac}
use arpwith_mfc.State.{inner, outer, Stack}
use arpwith_mfc.Sized.{IsSized}
use arpwith_mfc.Text.{
  ip_to_str, str_to_ip, str_to_mac, print_fields, print_decimal, scan_fields, scan_number,
  scan_unsigned, scan_sign, skip_spaces, skip_prefix, scan_digits_one, scan_digits, digit_value,
  expect,
}
use arpwith_mfc.Dialog.{Controls, garp_send, send_arp, address_request}
use arpwith_mfc.Dialog.Requests.{garp_frame}
use arpwith_mfc.Dialog.Buttons.{garp_send_lem, send_arp_lem, ask_frame}
use arpwith_mfc.Tests.Hosts.{ip_of, host, host-IsSized, env_at, node}

abbrev pc : Stack
pc = host 1 0 true (node 9 1 3 ∷ []) [] []

abbrev chosen : Controls
chosen = record {
  src_address = record { at_inner = ip_of 1; at_outer = ip_of 101 };
  dst_address = ip_of 7;
  adapter_enabled = false;
  dst_enabled = true;
}

garp_send_lem_example :
    (s' : Stack) × (garp_send (env_at 5) pc chosen ≡ ok s')
    × (s'.sent
        ≡ record { port = outer; bytes = garp_frame pc (ip_of 101) outer }
          ∷ record { port = inner; bytes = garp_frame pc (ip_of 1) inner }
          ∷ [])
    × (s'.arp.arp_table ≡ node 9 1 3 ∷ [])
    × (s'.arp.is_garp ≡ true)
    × (s'.arp.myip ≡ pc.arp.myip)
    × (s'.arp.mymac ≡ pc.arp.mymac)
    × IsSized s'
garp_send_lem_example =
    garp_send_lem (env_at 5) pc chosen (host-IsSized 1 0 true (node 9 1 3 ∷ []) [] [])

send_arp_lem_example :
    (((chosen.dst_enabled && not chosen.adapter_enabled) ≡ false)
      × (send_arp (env_at 5) pc chosen ≡ ok pc))
    ⊎ (((chosen.dst_enabled && not chosen.adapter_enabled) ≡ true)
        × ((ip_of 7 ≡ fill_ip 0) ⊎ (ip_of 7 ≡ fill_ip 255))
        × (send_arp (env_at 5) pc chosen ≡ ok (address_request pc chosen)))
    ⊎ (((chosen.dst_enabled && not chosen.adapter_enabled) ≡ true)
        × (ip_of 7 ≢ fill_ip 0)
        × (ip_of 7 ≢ fill_ip 255)
        × (s' : Stack) × (send_arp (env_at 5) pc chosen ≡ ok s')
        × (s'.sent
            ≡ record { port = inner; bytes = ask_frame pc chosen inner }
              ∷ record { port = outer; bytes = ask_frame pc chosen outer }
              ∷ [])
        × IsSized s')
send_arp_lem_example =
    send_arp_lem (env_at 5) pc chosen (host-IsSized 1 0 true (node 9 1 3 ∷ []) [] [])
      (omega arith, (omega arith, (omega arith, (omega arith, tt))))

ip_to_str_runs :
    ip_to_str (ip_of 207) ≡ b'1' ∷ b'0' ∷ b'.' ∷ b'0' ∷ b'.' ∷ b'0' ∷ b'.' ∷ b'2' ∷ b'0' ∷ b'7' ∷ []
unfolding ip_to_str print_fields print_decimal
ip_to_str_runs = refl

-- A text that breaks off leaves the octets that are not reached.
str_to_ip_breaks :
    str_to_ip (fill_ip 1) (b'7' ∷ b'.' ∷ b'x' ∷ []) ≡ record { o0 = 7; o1 = 1; o2 = 1; o3 = 1 }
unfolding str_to_ip scan_fields scan_number scan_unsigned scan_sign skip_spaces scan_digits_one
    scan_digits digit_value expect
str_to_ip_breaks = refl

-- Hexadecimal digits are read in either case, and a field of one digit is read too.
str_to_mac_runs :
    str_to_mac (fill_mac 0) (b'0' ∷ b'x' ∷ b'A' ∷ b':' ∷ b'f' ∷ b'F' ∷ b'-' ∷ [])
    ≡ record { m0 = 10; m1 = 255; m2 = 0; m3 = 0; m4 = 0; m5 = 0 }
unfolding str_to_mac scan_fields scan_number scan_unsigned scan_sign skip_spaces skip_prefix
    scan_digits_one scan_digits digit_value expect
str_to_mac_runs = refl
