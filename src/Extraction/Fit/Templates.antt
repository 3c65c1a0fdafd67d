-- ===== src/Extraction/Fit/Templates.antt =====
-- extraction/template_extractor.py: what the templates take fits the columns.
use email_budget_api.Common.{
  ℕ, ◌≡◌, refl, sym, subst, true, false, Option, none, some, Option-cases, inl, inr, List, [], ◌∷◌,
  arith, All, All-map,
}
use email_budget_api.Common.Text.{Text}
use email_budget_api.Strings.{strip}
use email_budget_api.Strings.Sizes.{strip_le, strip-All}
use email_budget_api.Regex.{Regex, search, group_of, is_digit, is_space, exactly}
use email_budget_api.Regex.Meaning.{Spells}
use email_budget_api.Regex.Widths.{Spells-longest}
use email_budget_api.Regex.Bodies.{IsKeptBy, group_of-IsKeptBy}
use email_budget_api.Extraction.Models.{Field, Fields}
use email_budget_api.Extraction.General.{DateOrder}
use email_budget_api.Extraction.General.Patterns.{digit, letter}
use email_budget_api.Extraction.Templates.{
  Template, templates, template_of, template_value, template_extract,
}
use email_budget_api.Extraction.Fit.Card.{IsLastFour, four_digits}
use email_budget_api.Extraction.Fit.Signs.{IsShort}
use email_budget_api.Extraction.Fit.Currency.{get-All}

-- A value that is there has the property.
abbrev pub Holds : (Text → Type 0) → Option (Field Text) → Type 0
Holds P none = Unit
Holds P (some f) = P f.value

template_value-Holds :
    (P : Text → Type 0) (patterns : List Regex) (text : Text)
    → All (IsKeptBy (λ _ w. P (strip w))) patterns
    → Holds P (template_value some patterns text)
unfolding template_value
template_value-Holds P [] text h = tt
template_value-Holds P (r ∷ rest) text h = elim (Option-cases (search r text)) [
  | inl miss ↦ rw (miss, template_value) (template_value-Holds P rest text h.1)
  | inr (m, hit) ↦ elim (Option-cases (group_of 1 m)) [
    | inl gone ↦ rw (hit, gone, template_value) (template_value-Holds P rest text h.1)
    | inr (raw, held) ↦
        rw (hit, held, template_value)
          (group_of-IsKeptBy (λ _ w. P (strip w)) r text m 1 raw h.0 hit held)
  ]
]

digit_no_space : (c : ℕ) → is_digit c ≡ true → is_space c ≡ false
digit_no_space c e = ground arith

stripped_digits : (w : Text) → Spells (exactly 4 digit) w → IsLastFour (strip w)
stripped_digits w h =
    let four = four_digits w h in
    subst IsLastFour (sym (strip-All w (All-map digit_no_space w four.1))) four

stripped_letters : (w : Text) → Spells (exactly 3 letter) w → IsShort (strip w)
stripped_letters w h = omega (arith, strip_le w, Spells-longest (exactly 3 letter) w refl h)

abbrev IsFittingTemplate : Template → Type 0
IsFittingTemplate tpl =
    All (IsKeptBy (λ _ w. IsLastFour (strip w))) tpl.card_last4
    × All (IsKeptBy (λ _ w. IsShort (strip w))) tpl.currency

templates-IsFitting : All (λ (x : Text × Template). IsFittingTemplate x.1) templates
templates-IsFitting = (
  (((stripped_digits, tt), tt), ((stripped_letters, tt), tt)),
  ((((stripped_digits, tt), ((stripped_digits, tt), ((stripped_digits, tt), tt))), tt), tt),
)

-- The digits of the card and the currency have the sizes of their columns.
pub record IsFitting (fields : Fields) : Type 0 where
  pub card_last4 : Holds IsLastFour fields.card_last4
  pub currency : Holds IsShort fields.currency

template_of-All :
    (domain : Option Text) (tpl : Template) → template_of domain ≡ some tpl → IsFittingTemplate tpl
unfolding template_of
template_of-All none tpl e = get-All IsFittingTemplate [] templates tpl templates-IsFitting e
template_of-All (some d) tpl e = get-All IsFittingTemplate d templates tpl templates-IsFitting e

pub template_extract-IsFitting :
    (dateparser : DateOrder → Text → Option ℕ) (domain : Option Text) (text : Text)
    → IsFitting (template_extract dateparser domain text)
unfolding template_extract
template_extract-IsFitting dateparser domain text = elim (Option-cases (template_of domain)) [
  | inl other ↦ rw (other, template_extract) (record { card_last4 = tt; currency = tt })
  | inr (tpl, found) ↦
      let (digits, letters) = template_of-All domain tpl found in
      rw (found, template_extract)
        (record {
          card_last4 = template_value-Holds IsLastFour tpl.card_last4 text digits;
          currency = template_value-Holds IsShort tpl.currency text letters;
        })
]
