-- ===== src/Extraction/Models.antt =====
-- extraction/models.py: the typed results passed between the stages of the pipeline. A confidence
-- is a number of hundredths, a money value a number of hundredths of the currency's unit, a date
-- or an instant a number. A dictionary of fields is a record with an optional field for each key.
use email_budget_api.Common.{ℕ, Bool, Option, none, some, List}
use email_budget_api.Common.Text.{Text}

pub data SenderSource : Type 0 where
  dkim header body no_source : SenderSource

pub data EmailType : Type 0 where
  bank_alert receipt subscription payment unknown non_financial forwarding_verification : EmailType

pub data Status : Type 0 where
  pending_review extraction_failed non_financial forwarding_verification : Status

pub record ParsedEmail : Type 0 where
  pub subject : Text
  pub from_header : Text
  pub dkim_signatures : List Text
  pub headers : List (Text × Text)
  pub text_body : Text
  pub html_body : Text

pub record ResolvedSender : Type 0 where
  pub domain : Option Text
  pub source : SenderSource
  pub confidence : ℕ

pub data ClassificationMethod : Type 0 where
  registry by_subject verification_sender no_method : ClassificationMethod

pub record Classification : Type 0 where
  pub is_financial : Bool
  pub email_type : EmailType
  pub confidence : ℕ
  pub method : ClassificationMethod

pub data Method : Type 0 where
  template regex default : Method

pub record Field {ℓ} (A : Type ℓ) : Type ℓ where
  pub value : A
  pub method : Method
  pub snippet : Option Text

pub data FieldKey : Type 0 where
  amount currency transaction_date card_last4 merchant verification_code confirmation_url : FieldKey

-- The dictionaries `fields`: their keys are those of `FieldKey`.
pub record Fields : Type 0 where
  pub amount : Option (Field ℕ)
  pub currency : Option (Field Text)
  pub transaction_date : Option (Field ℕ)
  pub card_last4 : Option (Field Text)
  pub merchant : Option (Field Text)
  pub verification_code : Option (Field Text)
  pub confirmation_url : Option (Field Text)

abbrev pub no_fields : Fields
no_fields = record {
  amount = none;
  currency = none;
  transaction_date = none;
  card_last4 = none;
  merchant = none;
  verification_code = none;
  confirmation_url = none;
}

pub data Band : Type 0 where
  high low_confidence not_applicable : Band

pub data Direction : Type 0 where
  debit credit : Direction

pub record FieldConfidences : Type 0 where
  pub amount : ℕ
  pub transaction_date : ℕ
  pub merchant : ℕ
  pub currency : ℕ
  pub card_last4 : ℕ

-- `ExtractionResult` of the pipeline, which extraction_service.py imports as `PipelineResult`.
-- `field_confidences` is `{}`, modelled by `none`, for an email that is not financial;
-- `extraction_confidence` is in thousandths.
pub record PipelineResult : Type 0 where
  pub resolved_sender : ResolvedSender
  pub classification : Classification
  pub fields : Fields
  pub merchant_normalized : Option Text
  pub category_suggestion : Option Text
  pub field_confidences : Option FieldConfidences
  pub extraction_confidence : ℕ
  pub confidence_band : Band
  pub status : Status
  pub fingerprint : Option Text
  pub direction : Direction
  pub is_probable_refund : Bool
  pub is_declined : Bool

-- `result.value(key)`
abbrev pub field_value {ℓ} : {A : Type ℓ} → Option (Field A) → Option A
field_value none = none
field_value (some f) = some f.value
