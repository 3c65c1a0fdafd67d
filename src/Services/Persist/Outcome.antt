-- ===== src/Services/Persist/Outcome.antt =====
-- services/extraction_service.py: what the field mapping guarantees of a row, and what is announced.
use email_budget_api.Common.{
  ℕ, ◌<◌, ◌≤◌, ◌≡◌, ◌⊎◌, refl, sym, ◌∙◌, true, false, Option, none, some, arith, leb, Bool-cases,
  inl, inr, is_some,
}
use mathlib.Core.Option.{some-injective}
use email_budget_api.Common.Text.{Text}
use email_budget_api.Extraction.Models.{PipelineResult, Status, field_value}
use email_budget_api.Models.Extraction.{ExtractionResult, ResultStatus}
use email_budget_api.Services.Persist.Mapper.{
  max_amount, clamp_amount, keep_fingerprint, status_value, apply_result_fields,
}

in_range : (a b : ℕ) → leb max_amount a ≡ false → a ≡ b → b < max_amount
in_range a b h e = ground arith

clamp_cases :
    (o : Option ℕ) (s : ResultStatus)
    → ((clamp_amount o s ≡ (o, s)) × ((a : ℕ) → o ≡ some a → a < max_amount))
      ⊎ ((a : ℕ) × (o ≡ some a)
          × (max_amount ≤ a)
          × (clamp_amount o s ≡ (none, ResultStatus.extraction_failed)))
unfolding clamp_amount
clamp_cases none s = inl (refl, λ a e. absurd (cc))
clamp_cases (some a) s = elim (Bool-cases (leb max_amount a)) [
  | inl big ↦ inr (a, refl, ground arith, rw big)
  | inr small ↦ inl (rw small, λ b e. in_range a b small (some-injective _ _ e))
]

-- What a row is once a result is mapped onto it.
pub record IsMapped (row : ExtractionResult) (result : PipelineResult) (row' : ExtractionResult)
    : Type 0 where
  pub fits : (a : ℕ) → row'.amount ≡ some a → a < max_amount
  pub amount : (a : ℕ) → row'.amount ≡ some a → field_value result.fields.amount ≡ some a
  pub fingerprint : (f : Text) → row'.fingerprint ≡ some f → is_some row'.amount ≡ true
  pub too_large :
      (a : ℕ)
      → field_value result.fields.amount ≡ some a
      → max_amount ≤ a
      → (row'.amount ≡ none)
        × (row'.fingerprint ≡ none)
        × (row'.status ≡ ResultStatus.extraction_failed)
  -- An amount that fits is stored, with the result's status and fingerprint.
  pub kept :
      (a : ℕ)
      → field_value result.fields.amount ≡ some a
      → a < max_amount
      → (row'.amount ≡ some a)
        × (row'.fingerprint ≡ result.fingerprint)
        × (row'.status ≡ status_value result.status)
  pub no_amount :
      field_value result.fields.amount ≡ none
      → (row'.amount ≡ none)
        × (row'.fingerprint ≡ none)
        × (row'.status ≡ status_value result.status)
  pub currency : row'.currency ≡ field_value result.fields.currency
  pub merchant_raw : row'.merchant_raw ≡ field_value result.fields.merchant
  pub merchant : row'.merchant_normalized ≡ result.merchant_normalized
  pub category : row'.category_suggestion ≡ result.category_suggestion
  pub date : row'.transaction_date ≡ field_value result.fields.transaction_date
  pub card : row'.card_last4 ≡ field_value result.fields.card_last4
  pub confidence : row'.extraction_confidence ≡ result.extraction_confidence
  pub band : row'.confidence_band ≡ result.confidence_band
  pub flags :
      (row'.direction ≡ result.direction)
      × (row'.is_probable_refund ≡ result.is_probable_refund)
      × (row'.is_declined ≡ result.is_declined)
  pub reviewable : row'.status ≡ ResultStatus.pending_review → result.status ≡ Status.pending_review
  pub id : row'.id ≡ row.id
  pub email_id : row'.email_id ≡ row.email_id
  pub user : row'.external_user_id ≡ row.external_user_id
  pub confirmed : row'.category_confirmed ≡ row.category_confirmed
  pub dismissed : row'.dismissed_reason ≡ row.dismissed_reason

status_value-pending :
    (s : Status) → status_value s ≡ ResultStatus.pending_review → s ≡ Status.pending_review
unfolding status_value
status_value-pending s h = ground arith

keep_none :
    (o : Option ℕ) (f : Option Text) (t : Text) → keep_fingerprint o f ≡ some t → is_some o ≡ true
unfolding keep_fingerprint
keep_none none f t h = cc
keep_none (some a) f t h = refl

-- The mapping stores an amount that fits its column, with the result's fingerprint and status;
-- without an amount there is no fingerprint, and the status is the result's; an amount that is too
-- large becomes a failed extraction with no amount and no fingerprint. So the status of the row,
-- a confirmed or dismissed one too, is overwritten, and nothing is up for review that the pipeline
-- did not route there. The currency, the names of the merchant, the suggested category, the date,
-- the card, the confidence, its band and the flags are the result's. The id, the email, the user,
-- the confirmed category and the reason of a dismissal are the row's, as before.
pub apply_result_fields-IsMapped :
    (row : ExtractionResult) (result : PipelineResult)
    → IsMapped row result (apply_result_fields row result)
unfolding keep_fingerprint apply_result_fields
apply_result_fields-IsMapped row result =
    elim (clamp_cases (field_value result.fields.amount) (status_value result.status)) [
      | inl (e, small) ↦
          rw (e, apply_result_fields)
            (record {
              fits = small;
              amount = λ a h. h;
              fingerprint = λ f h. keep_none _ _ f h;
              too_large = λ a h big. absurd (omega (arith, small a h));
              kept = λ a h k. (h, rw (h, keep_fingerprint) refl, refl);
              no_amount = λ h. (h, rw (h, keep_fingerprint) refl, refl);
              currency = refl;
              merchant_raw = refl;
              merchant = refl;
              category = refl;
              date = refl;
              card = refl;
              confidence = refl;
              band = refl;
              flags = (refl, refl, refl);
              reviewable = λ h. status_value-pending result.status h;
              id = refl;
              email_id = refl;
              user = refl;
              confirmed = refl;
              dismissed = refl;
            })
      | inr (b, over, big, e) ↦
          rw (e, apply_result_fields)
            (record {
              fits = λ a h. absurd (cc);
              amount = λ a h. absurd (cc);
              fingerprint = λ f h. absurd (cc);
              too_large = λ a h k. (refl, refl, refl);
              kept = λ a h k. absurd (
                  let same : b ≡ a = some-injective _ _ (sym over ∙ h) in
                  omega (arith, same, big, k));
              no_amount = λ h. absurd (cc (sym over ∙ h));
              currency = refl;
              merchant_raw = refl;
              merchant = refl;
              category = refl;
              date = refl;
              card = refl;
              confidence = refl;
              band = refl;
              flags = (refl, refl, refl);
              reviewable = λ h. absurd (cc);
              id = refl;
              email_id = refl;
              user = refl;
              confirmed = refl;
              dismissed = refl;
            })
    ]
