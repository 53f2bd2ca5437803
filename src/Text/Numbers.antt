-- ===== src/Text/Numbers.antt =====
-- Octets that are printed and read back.
use arpwith_mfc.Base.{
  ℕ, ◌+◌, ◌*◌, ◌/◌, ◌%◌, ◌<◌, ltb, ◌==◌, if◌then◌else◌, Bool-cases, inl, inr, ltb→lt, ltb→le, ◌≡◌,
  refl, ap, ◌∙◌, List, [], ◌∷◌, ◌++◌, Option, none, some, false, arith,
}
use arpwith_mfc.Layers.Tokens.{is_space}
use arpwith_mfc.Text.{
  scan_unsigned, print_decimal, digit_value, scan_number, scan_digits, scan_digits_one, skip_spaces,
  scan_sign, skip_prefix, print_hex, hex_digit, print_plain_hex,
}

-- no digit follows
abbrev pub Ends : ℕ → List ℕ → Type 0
Ends base [] = Unit
Ends base (c ∷ cs) = digit_value base c ≡ none

scan_digits-Ends : (base n : ℕ) (t : List ℕ) → Ends base t → scan_digits base n t ≡ (n, t)
unfolding scan_digits
scan_digits-Ends base n [] e = refl
scan_digits-Ends base n (c ∷ cs) e = rw (scan_digits, e)

digit_value-decimal : (base d : ℕ) → d < 10 → digit_value base (48 + d) ≡ some d
unfolding digit_value
digit_value-decimal base d h = ground arith

digit_value-hex_digit : (d : ℕ) → d < 16 → digit_value 16 (hex_digit d) ≡ some d
unfolding digit_value hex_digit
digit_value-hex_digit d h = ground arith

-- a character that is neither a blank nor a sign
abbrev IsPlain : ℕ → Type 0
IsPlain c = (is_space c ≡ false) × ((c == b'-') ≡ false) × ((c == b'+') ≡ false)

IsPlain-decimal : (d : ℕ) → d < 10 → IsPlain (48 + d)
IsPlain-decimal d h = (ground arith, ground arith, ground arith)

IsPlain-hex_digit : (d : ℕ) → d < 16 → IsPlain (hex_digit d)
unfolding hex_digit
IsPlain-hex_digit d h = (ground arith, ground arith, ground arith)

no_prefix :
    (c d : ℕ) (t : List ℕ) → d < 16 → skip_prefix (c ∷ hex_digit d ∷ t) ≡ c ∷ hex_digit d ∷ t
unfolding skip_prefix hex_digit
no_prefix c d t h = ground arith

scan_digits_more :
    (base n c d : ℕ) (t : List ℕ)
    → digit_value base c ≡ some d
    → scan_digits base n (c ∷ t) ≡ scan_digits base (n * base + d) t
unfolding scan_digits
scan_digits_more base n c d t e = rw (scan_digits, e)

scan_digits_first :
    (base c d : ℕ) (t : List ℕ)
    → digit_value base c ≡ some d
    → scan_digits_one base (c ∷ t) ≡ some (scan_digits base d t)
unfolding scan_digits_one scan_digits
scan_digits_first base c d t e = rw (scan_digits_one, e)

same_number :
    (m n : ℕ) (rest : List ℕ)
    → m ≡ n
    → ◌≡◌ {A = Option (ℕ × List ℕ)} (some (m, rest)) (some (n, rest))
same_number m n rest e = rw e refl

skip_spaces_plain : (c : ℕ) (t : List ℕ) → IsPlain c → skip_spaces (c ∷ t) ≡ c ∷ t
unfolding skip_spaces
skip_spaces_plain c t (b, _, _) = rw b refl

scan_sign_plain : (c : ℕ) (t : List ℕ) → IsPlain c → scan_sign (c ∷ t) ≡ (false, c ∷ t)
unfolding scan_sign
scan_sign_plain c t (_, m, p) = rw (m, p) refl

scan_unsigned_plain :
    (base : ℕ) (t : List ℕ) (n : ℕ) (rest : List ℕ)
    → (if base == 16 then skip_prefix t else t) ≡ t
    → scan_digits_one base t ≡ some (n, rest)
    → n < 256
    → scan_unsigned base (false, t) ≡ some (n, rest)
unfolding scan_unsigned
scan_unsigned_plain base t n rest x d h =
    rw (scan_unsigned, x, d) (same_number (n % 256) n rest (omega arith))

-- A number in front of the text, where nothing is to be skipped.
scan_number_plain :
    (base c : ℕ) (t : List ℕ) (n : ℕ) (rest : List ℕ)
    → IsPlain c
    → (if base == 16 then skip_prefix (c ∷ t) else c ∷ t) ≡ c ∷ t
    → scan_digits_one base (c ∷ t) ≡ some (n, rest)
    → n < 256
    → scan_number base (c ∷ t) ≡ some (n, rest)
unfolding scan_number
scan_number_plain base c t n rest pl x d h =
    ap (λ u. scan_unsigned base (scan_sign u)) (skip_spaces_plain c t pl)
    ∙ ap (scan_unsigned base) (scan_sign_plain c t pl)
    ∙ scan_unsigned_plain base (c ∷ t) n rest x d h

pub scan_number-print_hex :
    (n : ℕ) (rest : List ℕ)
    → n < 256
    → Ends 16 rest
    → scan_number 16 (print_hex n ++ rest) ≡ some (n, rest)
unfolding print_hex
scan_number-print_hex n rest h e =
    scan_number_plain 16 (hex_digit (n / 16)) (hex_digit (n % 16) ∷ rest) n rest
      (IsPlain-hex_digit _ (omega arith)) (no_prefix _ _ _ (omega arith))
      (rw
        (
          scan_digits_first 16 _ (n / 16) (hex_digit (n % 16) ∷ rest)
              (digit_value-hex_digit _ (omega arith)),
          scan_digits_more 16 (n / 16) _ (n % 16) rest (digit_value-hex_digit _ (omega arith)),
          scan_digits-Ends 16 (n / 16 * 16 + n % 16) rest e,
        )
        (same_number _ n rest (omega arith)))
      h

pub scan_number-print_decimal :
    (n : ℕ) (rest : List ℕ)
    → n < 256
    → Ends 10 rest
    → scan_number 10 (print_decimal n ++ rest) ≡ some (n, rest)
unfolding print_decimal
scan_number-print_decimal n rest h e = elim (Bool-cases (ltb n 10)) [
  | inl a ↦ rw a (
      scan_number_plain 10 (48 + n) rest n rest (IsPlain-decimal _ (omega (arith, ltb→lt, ltb→le)))
        refl
        (rw (
          scan_digits_first 10 _ n rest (digit_value-decimal 10 _ (omega (arith, ltb→lt, ltb→le))),
          scan_digits-Ends 10 n rest e,
        ))
        h)
  | inr a ↦ elim (Bool-cases (ltb n 100)) [
    | inl b ↦
        rw (a, b)
          (scan_number_plain 10 (48 + n / 10) ((48 + n % 10) ∷ rest) n rest
            (IsPlain-decimal _ (omega (arith, ltb→lt, ltb→le))) refl
            (rw
              (
                scan_digits_first 10 _ (n / 10) ((48 + n % 10) ∷ rest)
                    (digit_value-decimal 10 _ (omega (arith, ltb→lt, ltb→le))),
                scan_digits_more 10 (n / 10) _ (n % 10) rest
                    (digit_value-decimal 10 _ (omega (arith, ltb→lt, ltb→le))),
                scan_digits-Ends 10 (n / 10 * 10 + n % 10) rest e,
              )
              (same_number _ n rest (omega (arith, ltb→lt, ltb→le))))
            h)
    | inr b ↦
        rw (a, b)
          (scan_number_plain 10 (48 + n / 100) ((48 + n / 10 % 10) ∷ (48 + n % 10) ∷ rest) n rest
            (IsPlain-decimal _ (omega (arith, ltb→lt, ltb→le))) refl
            (rw
              (
                scan_digits_first 10 _ (n / 100) ((48 + n / 10 % 10) ∷ (48 + n % 10) ∷ rest)
                    (digit_value-decimal 10 _ (omega (arith, ltb→lt, ltb→le))),
                scan_digits_more 10 (n / 100) _ (n / 10 % 10) ((48 + n % 10) ∷ rest)
                    (digit_value-decimal 10 _ (omega (arith, ltb→lt, ltb→le))),
                scan_digits_more 10 (n / 100 * 10 + n / 10 % 10) _ (n % 10) rest
                    (digit_value-decimal 10 _ (omega (arith, ltb→lt, ltb→le))),
                scan_digits-Ends 10 ((n / 100 * 10 + n / 10 % 10) * 10 + n % 10) rest e,
              )
              (same_number _ n rest (omega (arith, ltb→lt, ltb→le))))
            h)
  ]
]

-- neither a digit follows nor what would make a prefix of a zero
abbrev pub PlainEnds : List ℕ → Type 0
PlainEnds [] = Unit
PlainEnds (c ∷ cs) = (digit_value 16 c ≡ none) × ((c == b'x') ≡ false) × ((c == b'X') ≡ false)

PlainEnds-Ends : (t : List ℕ) → PlainEnds t → Ends 16 t
PlainEnds-Ends [] e = tt
PlainEnds-Ends (c ∷ cs) e = e.0

PlainEnds-skip_prefix : (c : ℕ) (t : List ℕ) → PlainEnds t → skip_prefix (c ∷ t) ≡ c ∷ t
unfolding skip_prefix
PlainEnds-skip_prefix c [] e = refl
PlainEnds-skip_prefix c (d ∷ t) (_, x, y) = ground arith

pub scan_number-print_plain_hex :
    (n : ℕ) (rest : List ℕ)
    → n < 256
    → PlainEnds rest
    → scan_number 16 (print_plain_hex n ++ rest) ≡ some (n, rest)
unfolding print_plain_hex
scan_number-print_plain_hex n rest h e = elim (Bool-cases (ltb n 16)) [
  | inl a ↦ rw a (
      scan_number_plain 16 (hex_digit n) rest n rest (IsPlain-hex_digit _ (omega (arith, ltb→lt)))
        (PlainEnds-skip_prefix (hex_digit n) rest e)
        (rw
          (
            scan_digits_first 16 _ n rest (digit_value-hex_digit _ (omega (arith, ltb→lt))),
            scan_digits-Ends 16 n rest (PlainEnds-Ends rest e),
          )
          refl)
        h)
  | inr a ↦ rw a (scan_number-print_hex n rest h (PlainEnds-Ends rest e))
]
