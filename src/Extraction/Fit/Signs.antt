-- ===== src/Extraction/Fit/Signs.antt =====
-- extraction/general_extractor.py: the signs and the codes of a currency, and numerals.
use email_budget_api.Common.{
  ℕ, ◌≡◌, ◌≤◌, ◌⊎◌, refl, sym, subst, ◌∙◌, true, false, Option-cases, inl, inr, [], ◌∷◌, ◌++◌,
  arith, length, All, All-halves, is_some, ◌==◌,
}
use email_budget_api.Common.Text.{Text, codes, lower_code}
use email_budget_api.Regex.{Regex, match, text_i, one_of, in_range}
use email_budget_api.Regex.Meaning.{Spells}
use email_budget_api.Regex.Found.{match-IsFound}
use email_budget_api.Regex.Widths.{Takes, Spells-longest, Spells-All, text-Takes}
use email_budget_api.Regex.Bodies.{IsKeptBy}
use email_budget_api.Extraction.General.Patterns.{
  digit_or_comma_code, num, prefixed_sign, ccy_codes, amount_patterns,
}

abbrev pub IsShort : Text → Type 0
IsShort t = length t ≤ 3

-- No character of a numeral.
abbrev pub IsSignCode : ℕ → Type 0
IsSignCode c = digit_or_comma_code c ≡ false

abbrev pub IsSign : Text → Type 0
IsSign w = IsShort w × All IsSignCode w

numeral_head :
    (w : Text)
    → Spells num w
    → (c : ℕ) × (rest : Text) × (w ≡ c ∷ rest) × (digit_or_comma_code c ≡ true)
numeral_head w
      (_, _, no_start, (_, v2, (_, v3, (_, v4, (c, passed, e4), _, e3), _, e2), _, e1), e) =
    (c, (v4 ++ v3) ++ v2, e ∙ rw (no_start, e1, e2, e3, e4) refl, passed)

-- A text that the pattern of a numeral matches has a character of a numeral.
pub sign_no_num : (w : Text) → IsSign w → is_some (match num w) ≡ true → ⊥
sign_no_num w h e = elim (Option-cases (match num w)) [
  | inl miss ↦ cc (rw miss at e)
  | inr (m, hit) ↦
      let f = match-IsFound num w m hit in
      let (c, rest, whole, digit) = numeral_head m.whole f.spelled in
      let later =
        (All-halves IsSignCode f.prefix (m.whole ++ f.suffix)
          (subst (All IsSignCode) f.place h.1)).1 in
      let first =
        (subst (All IsSignCode) whole (All-halves IsSignCode m.whole f.suffix later).0).0 in
      cc (sym first ∙ digit)
]

-- One of the two groups of the pattern is the currency.
abbrev pub HasSign : Regex → Type 0
HasSign r = IsKeptBy (λ n w. n ≡ 1 → IsSign w) r ⊎ IsKeptBy (λ n w. n ≡ 2 → IsSign w) r

sign_char : (x : ℕ) → one_of (b'$' ∷ 163 ∷ 8364 ∷ 165 ∷ []) x ≡ true → IsSignCode x
sign_char x e = ground arith

prefixed_sign-IsSign : (w : Text) → Spells prefixed_sign w → IsSign w
prefixed_sign-IsSign w h =
    let chars = λ (t : Text) (k : All IsSignCode t). text-Takes IsSignCode t k in
    (
      Spells-longest prefixed_sign w refl h,
      Spells-All IsSignCode prefixed_sign w
          (
            (
              tt,
              (
                chars (codes "J") (ground arith),
                (
                  chars (codes "TT") (ground arith),
                  (
                    chars (codes "BB") (ground arith),
                    (
                      chars (codes "US") (ground arith),
                      (
                        chars (codes "CA") (ground arith),
                        (
                          chars (codes "C") (ground arith),
                          (chars (codes "A") (ground arith), chars (codes "EC") (ground arith)),
                        ),
                      ),
                    ),
                  ),
                ),
              ),
            ),
            sign_char,
          )
          h,
    )

-- A letter, in either case.
letter_i :
    (c : ℕ)
    → in_range b'a' b'z' (lower_code c) ≡ true
    → (x : ℕ) → (lower_code x == lower_code c) ≡ true
    → IsSignCode x
unfolding lower_code
letter_i c h x e = ground arith

ccy_code-Takes :
    (c d e : ℕ)
    → in_range b'a' b'z' (lower_code c) ≡ true
    → in_range b'a' b'z' (lower_code d) ≡ true
    → in_range b'a' b'z' (lower_code e) ≡ true
    → Takes IsSignCode (text_i (c ∷ d ∷ e ∷ []))
ccy_code-Takes c d e h k l = (letter_i c h, (letter_i d k, letter_i e l))

ccy_codes-IsSign : (w : Text) → Spells ccy_codes w → IsSign w
unfolding lower_code
ccy_codes-IsSign w h = (
  Spells-longest ccy_codes w refl h,
  Spells-All IsSignCode ccy_codes w
      (
        ccy_code-Takes b'U' b'S' b'D' refl refl refl,
        (
          ccy_code-Takes b'J' b'M' b'D' refl refl refl,
          (
            ccy_code-Takes b'E' b'U' b'R' refl refl refl,
            (
              ccy_code-Takes b'G' b'B' b'P' refl refl refl,
              (
                ccy_code-Takes b'C' b'A' b'D' refl refl refl,
                (
                  ccy_code-Takes b'A' b'U' b'D' refl refl refl,
                  (
                    ccy_code-Takes b'T' b'T' b'D' refl refl refl,
                    (
                      ccy_code-Takes b'B' b'B' b'D' refl refl refl,
                      ccy_code-Takes b'X' b'C' b'D' refl refl refl,
                    ),
                  ),
                ),
              ),
            ),
          ),
        ),
      )
      h,
)

pub amount_patterns-HasSign : All HasSign amount_patterns
amount_patterns-HasSign = (
  inl (λ w h _. prefixed_sign-IsSign w h, (λ w h e. absurd (omega (arith, e)), tt)),
  (
    inl (λ w h _. ccy_codes-IsSign w h, (λ w h e. absurd (omega (arith, e)), tt)),
    (inr (λ w h e. absurd (omega (arith, e)), (λ w h _. ccy_codes-IsSign w h, tt)), tt),
  ),
)
