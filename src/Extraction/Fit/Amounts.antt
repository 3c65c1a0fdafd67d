-- ===== src/Extraction/Fit/Amounts.antt =====
-- extraction/general_extractor.py: amounts as they are written.
use email_budget_api.Common.{
  ℕ, zero, suc, ◌+◌, ◌-◌, ◌*◌, ◌/◌, ◌%◌, ◌≤◌, ◌<◌, ◌≡◌, refl, ap, ◌∙◌, true, Bool-cases, inl, inr,
  some, [], ◌∷◌, ◌++◌, ◌==◌, arith, ==_iff,
}
use email_budget_api.Common.Text.{Text}
use email_budget_api.Strings.{remove}
use email_budget_api.Regex.{is_digit}
use email_budget_api.Extraction.General.Numerals.{hundredths, units, decimal_of, amount_of}
use email_budget_api.Extraction.Pipeline.{decimal, digits}

digit_is_digit : (d : ℕ) → d < 10 → is_digit (b'0' + d) ≡ true
digit_is_digit d h = ground arith

digit_value : (d : ℕ) → b'0' + d - b'0' ≡ d
digit_value d = omega arith

units_digit : (n d : ℕ) (t : Text) → d < 10 → units n ((b'0' + d) ∷ t) ≡ units (n * 10 + d) t
unfolding units
units_digit n d t h = rw (digit_is_digit d h, digit_value d, units) refl

-- Reading what was printed goes on from the number.
units-digits :
    (f n : ℕ) (acc rest : Text) → n ≤ f → units 0 (digits f n acc ++ rest) ≡ units n (acc ++ rest)
unfolding digits
units-digits zero n acc rest h = let z : n ≡ 0 = omega (arith, h) in rw z refl
units-digits (suc f) n acc rest h = elim (Bool-cases (n == 0)) [
  | inl e ↦ let z : n ≡ 0 = (==_iff n 0).0 e in rw (e, digits) (rw z refl)
  | inr e ↦
      let nonzero : 1 ≤ n = ground (arith, e) in
      let less : n / 10 ≤ f = omega (arith, nonzero, h) in
      let small : n % 10 < 10 = omega arith in
      let whole : n / 10 * 10 + n % 10 ≡ n = omega arith in
      rw (e, digits)
        (units-digits f (n / 10) ((b'0' + n % 10) ∷ acc) rest less
          ∙ units_digit (n / 10) (n % 10) (acc ++ rest) small
          ∙ ap (λ (m : ℕ). units m (acc ++ rest)) whole)
]

units-decimal : (n : ℕ) (rest : Text) → units 0 (decimal n ++ rest) ≡ units n rest
unfolding decimal
units-decimal n rest = elim (Bool-cases (n == 0)) [
  | inl e ↦
      let z : n ≡ 0 = (==_iff n 0).0 e in
      rw (e, decimal) (units_digit 0 0 rest (omega arith) ∙ rw z refl)
  | inr e ↦ rw (e, decimal) (units-digits n n [] rest (omega arith))
]

decimal_of-units :
    (t : Text) (c : ℕ) (rest : Text) → decimal_of (t ++ c ∷ rest) ≡ units 0 (t ++ c ∷ rest)
unfolding decimal_of
decimal_of-units [] c rest = refl
decimal_of-units (x ∷ t) c rest = refl

-- The two digits behind the point.
abbrev pub cents_of : ℕ → ℕ → Text
cents_of a b = b'.' ∷ (b'0' + a) ∷ (b'0' + b) ∷ []

units-cents : (n a b : ℕ) → a < 10 → b < 10 → units n (cents_of a b) ≡ some (n * 100 + a * 10 + b)
unfolding units hundredths
units-cents n a b h k =
    rw (digit_is_digit a h, digit_is_digit b k, digit_value a, digit_value b, units, hundredths)
      refl

-- An amount that is written out, in units with two digits behind the point and with any commas
-- between, is read back as its number of hundredths.
pub amount_of-decimal :
    (n a b : ℕ) (written : Text)
    → a < 10
    → b < 10
    → remove b',' written ≡ decimal n ++ cents_of a b
    → amount_of written ≡ some (n * 100 + a * 10 + b)
unfolding amount_of
amount_of-decimal n a b written h k e =
    ap decimal_of e
    ∙ decimal_of-units (decimal n) b'.' ((b'0' + a) ∷ (b'0' + b) ∷ [])
    ∙ units-decimal n (cents_of a b)
    ∙ units-cents n a b h k
