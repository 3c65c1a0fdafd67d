-- ===== src/Extraction/Scorer/Bounds.antt =====
-- extraction/confidence_scorer.py: what the scores and the bands are.
use email_budget_api.Common.{
  ℕ, ◌≤◌, ◌≡◌, true, Bool, ◌&&◌, Option, some, Option-cases, inl, inr, arith, is_some, leb,
  Bool-cases,
}
use email_budget_api.Extraction.Models.{template, Field, Fields, high}
use email_budget_api.Extraction.Scorer.Defs.{
  method_conf, conf_of, field_confidences, weigh, score, is_complete, route, high_band,
}

conf_of_le : {A : Type 0} (o : Option (Field A)) → conf_of o ≤ 97
unfolding conf_of method_conf
conf_of_le o = ground arith

conf_of_template : {A : Type 0} (f : Field A) → 76 ≤ conf_of (some f) → f.method ≡ template
unfolding conf_of method_conf
conf_of_template f h = ground arith

weigh_le : (fields : Fields) → weigh (field_confidences fields) ≤ 9215
unfolding weigh field_confidences
weigh_le fields = omega (
  arith,
  conf_of_le fields.amount,
  conf_of_le fields.transaction_date,
  conf_of_le fields.merchant,
  conf_of_le fields.currency,
  conf_of_le fields.card_last4,
)

-- The score is the weighted sum of the confidences and at most 0.9215: the cap at 1.0 never acts.
pub cap_never_acts :
    (fields : Fields)
    → ((score fields).0 ≡ weigh (field_confidences fields)) × ((score fields).0 ≤ 9215)
unfolding score
cap_never_acts fields = let h = weigh_le fields in (omega (arith, h), omega (arith, h))

-- What a result of the high band has.
pub record IsEarned (fields : Fields) : Type 0 where
  pub amount : Field ℕ
  pub has_amount : fields.amount ≡ some amount
  pub by_template : amount.method ≡ template
  pub has_merchant : is_some fields.merchant ≡ true
  pub has_date : is_some fields.transaction_date ≡ true

both : (a b c d : Bool) → (a && (b && c)) && d ≡ true → (b ≡ true) × (c ≡ true) × (d ≡ true)
both a b c d h = ground arith

heavy_amount :
    (fields : Fields) → high_band ≤ weigh (field_confidences fields) → 76 ≤ conf_of fields.amount
unfolding weigh field_confidences
heavy_amount fields h = omega (
  arith,
  conf_of_le fields.transaction_date,
  conf_of_le fields.merchant,
  conf_of_le fields.currency,
  conf_of_le fields.card_last4,
)

high_complete :
    (overall : ℕ) (fields : Fields) (f : Field ℕ)
    → fields.amount ≡ some f
    → (route overall fields).1 ≡ high
    → (is_complete fields && leb high_band overall) ≡ true
unfolding route
high_complete overall fields f e h =
    elim (Bool-cases (is_complete fields && leb high_band overall)) [
      | inl hit ↦ hit
      | inr miss ↦ absurd (ground arith)
    ]

-- The high band is earned by a template: its results have an amount that a template found, a
-- merchant and a date. What the general extractor alone finds is never of the high band.
pub high_band_needs_template :
    (fields : Fields) → (route (score fields).0 fields).1 ≡ high → IsEarned fields
unfolding is_complete route
high_band_needs_template fields h = elim (Option-cases fields.amount) [
  | inl e ↦ absurd (ground arith)
  | inr (f, e) ↦
      let (merchant, date, enough) =
        both (is_some fields.amount) (is_some fields.merchant) (is_some fields.transaction_date)
          (leb high_band (score fields).0) (high_complete (score fields).0 fields f e h) in
      let (same, _) = cap_never_acts fields in
      let heavy : high_band ≤ weigh (field_confidences fields) = ground arith in
      record {
        amount = f;
        has_amount = e;
        by_template = conf_of_template f (rw e at (heavy_amount fields heavy));
        has_merchant = merchant;
        has_date = date;
      }
]
