-- ===== src/Wire/Address.antt =====
-- Ethernet and IP addresses: `unsigned char[ENET_ADDR_SIZE]` and `unsigned char[IP_ADDR_SIZE]`
-- of ARP/stdafx.h, and the comparison `memcmp(a, b, size) == 0` that the layers use.
use arpwith_mfc.Base.{
  ℕ, ◌+◌, ◌*◌, ◌/◌, ◌%◌, ◌≡◌, refl, ◌↔◌, Bool, true, false, ◌&&◌, List, [], ◌∷◌, arith, ◌==◌,
  get_or, inl, inr, ◌≢◌, Bool-cases, bit_and,
}

pub record Ip : Type 0 where
  pub o0 : ℕ
  pub o1 : ℕ
  pub o2 : ℕ
  pub o3 : ℕ

pub record Mac : Type 0 where
  pub m0 : ℕ
  pub m1 : ℕ
  pub m2 : ℕ
  pub m3 : ℕ
  pub m4 : ℕ
  pub m5 : ℕ

abbrev pub ip_bytes : Ip → List ℕ
ip_bytes a = a.o0 ∷ a.o1 ∷ a.o2 ∷ a.o3 ∷ []

abbrev pub mac_bytes : Mac → List ℕ
mac_bytes a = a.m0 ∷ a.m1 ∷ a.m2 ∷ a.m3 ∷ a.m4 ∷ a.m5 ∷ []

-- The address that stands at index `i` of a buffer.
abbrev pub ip_at : List ℕ → ℕ → Ip
ip_at b i = record {
  o0 = get_or b i 0;
  o1 = get_or b (i + 1) 0;
  o2 = get_or b (i + 2) 0;
  o3 = get_or b (i + 3) 0;
}

abbrev pub mac_at : List ℕ → ℕ → Mac
mac_at b i = record {
  m0 = get_or b i 0;
  m1 = get_or b (i + 1) 0;
  m2 = get_or b (i + 2) 0;
  m3 = get_or b (i + 3) 0;
  m4 = get_or b (i + 4) 0;
  m5 = get_or b (i + 5) 0;
}

-- `memset(a, v, size)`
abbrev pub fill_ip : ℕ → Ip
fill_ip v = record { o0 = v; o1 = v; o2 = v; o3 = v }

abbrev pub fill_mac : ℕ → Mac
fill_mac v = record { m0 = v; m1 = v; m2 = v; m3 = v; m4 = v; m5 = v }

-- What a function that expects an IP address reads where it is given an Ethernet address.
abbrev pub mac_prefix : Mac → Ip
mac_prefix a = record { o0 = a.m0; o1 = a.m1; o2 = a.m2; o3 = a.m3 }

-- `memcmp(a, b, IP_ADDR_SIZE) == 0`
unfoldable pub same_ip : Ip → Ip → Bool
same_ip a b = a.o0 == b.o0 && a.o1 == b.o1 && a.o2 == b.o2 && a.o3 == b.o3

-- `memcmp(a, b, ENET_ADDR_SIZE) == 0`
unfoldable pub same_mac : Mac → Mac → Bool
same_mac a b =
    a.m0 == b.m0 && a.m1 == b.m1 && a.m2 == b.m2 && a.m3 == b.m3 && a.m4 == b.m4 && a.m5 == b.m5

pub same_ip_iff : (a b : Ip) → (same_ip a b ≡ true) ↔ (a ≡ b)
unfolding same_ip
same_ip_iff a b = ground arith

pub same_mac_iff : (a b : Mac) → (same_mac a b ≡ true) ↔ (a ≡ b)
unfolding same_mac
same_mac_iff a b = ground arith

pub same_ip_refl : (a : Ip) → same_ip a a ≡ true
same_ip_refl a = (same_ip_iff a a).1 refl

pub same_mac_refl : (a : Mac) → same_mac a a ≡ true
same_mac_refl a = (same_mac_iff a a).1 refl

pub same_ip_ne : (a b : Ip) → a ≢ b → same_ip a b ≡ false
same_ip_ne a b h = elim (Bool-cases (same_ip a b)) [
  | inl e ↦ absurd (h ((same_ip_iff a b).0 e))
  | inr e ↦ e
]

pub same_mac_ne : (a b : Mac) → a ≢ b → same_mac a b ≡ false
same_mac_ne a b h = elim (Bool-cases (same_mac a b)) [
  | inl e ↦ absurd (h ((same_mac_iff a b).0 e))
  | inr e ↦ e
]

pub same_ip_comm : (a b : Ip) → same_ip a b ≡ same_ip b a
same_ip_comm a b = elim (Bool-cases (same_ip a b)) [
  | inl e ↦ ground (arith, same_ip_iff a b, same_ip_iff b a)
  | inr e ↦ ground (arith, same_ip_iff a b, same_ip_iff b a)
]

-- `addr[i] & netmask[i]` for each octet
unfoldable pub mask_ip : Ip → Ip → Ip
mask_ip a m = record {
  o0 = bit_and a.o0 m.o0;
  o1 = bit_and a.o1 m.o1;
  o2 = bit_and a.o2 m.o2;
  o3 = bit_and a.o3 m.o3;
}

-- An `unsigned short` in memory: the low byte first.
abbrev pub short_bytes : ℕ → List ℕ
short_bytes n = (n % 256) ∷ (n / 256 % 256) ∷ []

abbrev pub short_at : List ℕ → ℕ → ℕ
short_at b i = get_or b i 0 + 256 * get_or b (i + 1) 0
