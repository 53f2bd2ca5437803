-- ===== src/Text/Same.antt =====
-- Texts of addresses that are compared.
use arpwith_mfc.Base.{
  ℕ, ◌<◌, ◌≡◌, refl, sym, ap, ◌∙◌, true, List, [], ◌∷◌, ◌++◌, ◌==◌, All, Bool-cases, inl, inr,
  ==_iff,
}
use mathlib.Core.List.{append-nil}
use arpwith_mfc.Wire.Address.{Ip, Mac, ip_bytes, mac_bytes, fill_ip}
use arpwith_mfc.Layers.Manager.{same_text}
use arpwith_mfc.Text.{ip_to_str, str_to_ip, mac_to_plain, str_to_mac}
use arpwith_mfc.Text.RoundTrip.{str_to_ip-ip_to_str, str_to_mac-mac_to_plain}

pub same_text-eq : (s t : List ℕ) → same_text s t ≡ true → s ≡ t
unfolding same_text
same_text-eq [] [] e = refl
same_text-eq [] (d ∷ ds) e = cc
same_text-eq (c ∷ cs) [] e = cc
same_text-eq (c ∷ cs) (d ∷ ds) e = elim (Bool-cases (c == d)) [
  | inl y ↦ rw ((==_iff c d).0 y, same_text-eq cs ds (rw y at e)) refl
  | inr n ↦ cc
]

-- Two addresses with the same text are the same. Their octets fit a byte.
pub ip_to_str-injective :
    (a b : Ip)
    → All (λ n. n < 256) (ip_bytes a)
    → All (λ n. n < 256) (ip_bytes b)
    → ip_to_str a ≡ ip_to_str b
    → a ≡ b
ip_to_str-injective a b h k e =
    sym (str_to_ip-ip_to_str a (fill_ip 0) [] h tt)
    ∙ ap (λ t. str_to_ip (fill_ip 0) (t ++ [])) e
    ∙ str_to_ip-ip_to_str b (fill_ip 0) [] k tt

-- the two texts of the dialog's controls, read back
pub str_to_ip-whole :
    (a dst : Ip) → All (λ n. n < 256) (ip_bytes a) → str_to_ip dst (ip_to_str a) ≡ a
str_to_ip-whole a dst h =
    ap (str_to_ip dst) (sym (append-nil (ip_to_str a))) ∙ str_to_ip-ip_to_str a dst [] h tt

pub str_to_mac-whole :
    (a dst : Mac) → All (λ n. n < 256) (mac_bytes a) → str_to_mac dst (mac_to_plain a) ≡ a
str_to_mac-whole a dst h =
    ap (str_to_mac dst) (sym (append-nil (mac_to_plain a))) ∙ str_to_mac-mac_to_plain a dst [] h tt
