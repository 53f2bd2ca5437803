-- ===== src/Tests/TypedTests.antt =====
-- Octets in all that the layers hold, after the choice of an adapter and a new proxy.
use arpwith_mfc.Base.{ℕ, codes, refl, List, [], ◌∷◌, arith, ◌%◌}
use arpwith_mfc.Wire.Address.{fill_ip, fill_mac}
use arpwith_mfc.State.{Port, sel, inner, outer}
use arpwith_mfc.Dialog.{device_ok}
use arpwith_mfc.Dialog.Select.{Window}
use arpwith_mfc.Sound.Reach.{proxied}
use arpwith_mfc.Sound.Windows.{Run, after, works}
use arpwith_mfc.Typed.{IsMac, IsTyped}
use arpwith_mfc.Typed.Texts.{str_to_ip-IsIp}
use arpwith_mfc.Typed.Windows.{window-IsTyped}
use arpwith_mfc.Tests.Hosts.{ip_of, mac_of}
use arpwith_mfc.Tests.SelectTests.{card_of}
use arpwith_mfc.Tests.SoundTests.{memory, fresh, fresh_made, opened, handled, handled_reached}

-- the text of the proxy's Ethernet address, with a number that does not fit an octet
abbrev text : List ℕ
text = codes "1fa:2:c:d:e:f"

abbrev last : Window
last = record handled { stack = device_ok handled.stack (mac_of 1) (ip_of 50) text }

unfoldable last_reached : Run opened last
last_reached = after handled_reached (
    works (device_ok handled.stack (mac_of 1) (ip_of 50) text)
      (proxied (mac_of 1) (ip_of 50) text refl) refl)

card-IsMac : (n : ℕ) → IsMac (mac_of (n % 256))
card-IsMac n = omega arith

window-IsTyped_example : IsTyped last.stack × ((p : Port) → IsMac (sel last.adapters.oid_data p))
unfolding handled_reached last_reached
window-IsTyped_example =
    window-IsTyped memory fresh (card_of 1 ∷ card_of 2 ∷ [])
      (record { at_inner = fill_mac 0; at_outer = fill_mac 0 })
      (record { at_inner = fill_ip 0; at_outer = fill_ip 0 }) (fill_ip 0) last last_reached
      (record {
        ip_found = omega arith;
        mac_found = omega arith;
        numbers_found = elim [ inner ↦ omega arith | outer ↦ omega arith ];
      })
      (elim [ inner ↦ omega arith | outer ↦ omega arith ])
      (elim [ inner ↦ omega arith | outer ↦ omega arith ]) (omega arith) fresh_made
      (
        (
          (tt, ((elim [ inner ↦ omega arith | outer ↦ omega arith ]), omega arith)),
          ((λ name mac m. card-IsMac _), (λ t. str_to_ip-IsIp (fill_ip 0) t (omega arith))),
        ),
        (omega arith, omega arith),
      )
