-- ===== src/Extraction/Fit/Card.antt =====
-- extraction/general_extractor.py and extraction/template_extractor.py: the digits of a card.
use mathlib.Core.Option.{some-injective}
use email_budget_api.Common.{
  ℕ, ◌≡◌, ◌≤◌, refl, ap, subst, true, some, Option-cases, inl, inr, List, [], ◌∷◌, arith, length,
  All,
}
use email_budget_api.Common.Text.{Text}
use email_budget_api.Regex.{Regex, search, group_of, is_digit, exactly}
use email_budget_api.Regex.Meaning.{Spells}
use email_budget_api.Regex.Widths.{Spells-longest, Spells-shortest, Spells-All}
use email_budget_api.Regex.Bodies.{IsKeptBy, group_of-IsKeptBy}
use email_budget_api.Extraction.General.{card, card_by}
use email_budget_api.Extraction.General.Patterns.{digit, card_label, card_patterns}

-- Four digits.
abbrev pub IsLastFour : Text → Type 0
IsLastFour w = (length w ≡ 4) × All (λ (c : ℕ). is_digit c ≡ true) w

pub four_digits : (w : Text) → Spells (exactly 4 digit) w → IsLastFour w
four_digits w h =
    let upper : length w ≤ 4 = Spells-longest (exactly 4 digit) w refl h in
    let lower : 4 ≤ length w = Spells-shortest (exactly 4 digit) w h in
    let plain = λ (c : ℕ) (e : is_digit c ≡ true). e in
    (
      omega (arith, upper, lower),
      Spells-All (λ (c : ℕ). is_digit c ≡ true) (exactly 4 digit) w
          (plain, (plain, (plain, (plain, tt)))) h,
    )

-- The pattern takes a card's digits as its only group.
abbrev pub TakesCard : Regex → Type 0
TakesCard r = IsKeptBy (λ _. IsLastFour) r

card_by-IsLastFour :
    (patterns : List Regex) (text w s : Text)
    → All TakesCard patterns
    → card_by patterns text ≡ some (w, s)
    → IsLastFour w
unfolding card_by
card_by-IsLastFour [] text w s h e = absurd (cc e)
card_by-IsLastFour (r ∷ rest) text w s h e = elim (Option-cases (search r text)) [
  | inl miss ↦ card_by-IsLastFour rest text w s h.1 (rw (miss, card_by) at e)
  | inr (m, hit) ↦ elim (Option-cases (group_of 1 m)) [
    | inl gone ↦ absurd (cc (rw (hit, gone, card_by) at e))
    | inr (d, held) ↦
        let same : some (d, m.whole) ≡ some (w, s) = rw (hit, held, card_by) at e in
        subst IsLastFour (ap (λ (x : Text × Text). x.0) (some-injective _ _ same))
          (group_of-IsKeptBy (λ _. IsLastFour) r text m 1 d h.0 hit held)
  ]
]

pub card-IsLastFour : (text w s : Text) → card text ≡ some (w, s) → IsLastFour w
unfolding card
card-IsLastFour text w s e = elim (Option-cases (search card_label text)) [
  | inl miss ↦
      card_by-IsLastFour card_patterns text w s
        ((four_digits, tt), ((four_digits, tt), ((four_digits, tt), tt))) (rw (miss, card) at e)
  | inr (m, hit) ↦ elim (Option-cases (group_of 1 m)) [
    | inl gone ↦ absurd (cc (rw (hit, gone, card) at e))
    | inr (d, held) ↦
        let same = some-injective _ _ (rw (hit, held, card) at e) in
        subst IsLastFour (ap (λ (x : Text × Text). x.0) same)
          (group_of-IsKeptBy (λ _. IsLastFour) card_label text m 1 d (four_digits, tt) hit held)
  ]
]
