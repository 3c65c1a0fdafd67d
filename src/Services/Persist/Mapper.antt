-- ===== src/Services/Persist/Mapper.antt =====
-- services/extraction_service.py, the field mapping `apply_result_fields`.
use email_budget_api.Common.{
  ℕ, ◌^◌, Bool, true, false, Option, none, some, List, [], ◌∷◌, leb, if◌then◌else◌,
}
use email_budget_api.Extraction.Models.{Status, Method, Field, Fields, PipelineResult, field_value}
use email_budget_api.Models.Ops.{EmailStatus}
use email_budget_api.Models.Extraction.{ResultStatus, ResultMethod, ExtractionResult}

-- 1e11, in hundredths.
abbrev pub max_amount : ℕ
max_amount = 10 ^ 13

-- `_EMAIL_STATUS`
unfoldable pub email_status : Status → EmailStatus
email_status Status.pending_review = EmailStatus.processed
email_status Status.extraction_failed = EmailStatus.extraction_failed
email_status Status.non_financial = EmailStatus.non_financial
email_status Status.forwarding_verification = EmailStatus.forwarding_verification

-- `status.value`, as it is written to the column `extraction_results.status`.
unfoldable pub status_value : Status → ResultStatus
status_value Status.pending_review = ResultStatus.pending_review
status_value Status.extraction_failed = ResultStatus.extraction_failed
status_value Status.non_financial = ResultStatus.non_financial
status_value Status.forwarding_verification = ResultStatus.forwarding_verification

unfoldable pub method_value : Method → ResultMethod
method_value Method.template = ResultMethod.template
method_value Method.regex = ResultMethod.regex
method_value Method.default = ResultMethod.default

unfoldable pub method_eq : Method → Method → Bool
method_eq Method.template Method.template = true
method_eq Method.regex Method.regex = true
method_eq Method.default Method.default = true
method_eq _ _ = false

-- The methods of the fields that a result has.
unfoldable pub push_method {ℓ} : {A : Type ℓ} → Option (Field A) → List Method → List Method
push_method none rest = rest
push_method (some f) rest = f.method ∷ rest

unfoldable pub methods : Fields → List Method
unfolding push_method
methods f = push_method f.amount (
    push_method f.currency (
      push_method f.transaction_date (
        push_method f.card_last4 (
          push_method f.merchant
            (push_method f.verification_code (push_method f.confirmation_url []))))))

-- `all(n == m for n in rest)`
unfoldable pub all_are : Method → List Method → Bool
unfolding method_eq
all_are m [] = true
all_are m (n ∷ rest) = if method_eq m n then all_are m rest else false

-- `"mixed" if len(set(methods)) > 1 else next(iter(methods), None)`
unfoldable pub method_summary : List Method → Option ResultMethod
unfolding all_are method_value
method_summary [] = none
method_summary (m ∷ rest) =
    if all_are m rest then some (method_value m) else some ResultMethod.mixed

-- The amount that fits the column, and the status that goes with it.
unfoldable pub clamp_amount : Option ℕ → ResultStatus → Option ℕ × ResultStatus
clamp_amount none status = (none, status)
clamp_amount (some amount) status =
    if leb max_amount amount then (none, ResultStatus.extraction_failed) else (some amount, status)

-- `fingerprint if amount is not None else None`
unfoldable pub keep_fingerprint {ℓ} : {A : Type ℓ} → Option ℕ → Option A → Option A
keep_fingerprint none fingerprint = none
keep_fingerprint (some amount) fingerprint = fingerprint

unfoldable pub apply_result_fields : ExtractionResult → PipelineResult → ExtractionResult
unfolding clamp_amount keep_fingerprint status_value methods method_summary
apply_result_fields row result =
    let (amount, status) =
      clamp_amount (field_value result.fields.amount) (status_value result.status) in
    record row {
      amount = amount;
      currency = field_value result.fields.currency;
      merchant_raw = field_value result.fields.merchant;
      merchant_normalized = result.merchant_normalized;
      category_suggestion = result.category_suggestion;
      transaction_date = field_value result.fields.transaction_date;
      card_last4 = field_value result.fields.card_last4;
      extraction_confidence = result.extraction_confidence;
      confidence_band = result.confidence_band;
      field_confidences = result.field_confidences;
      method = method_summary (methods result.fields);
      status = status;
      fingerprint = keep_fingerprint amount result.fingerprint;
      direction = result.direction;
      is_probable_refund = result.is_probable_refund;
      is_declined = result.is_declined;
    }
