-- ===== src/Models/Extraction.antt =====
-- models/extraction.py, the audit log of models/email.py and the outbox of models/ops.py, with the
-- response schema that a webhook carries (schemas/extractions.py).
use email_budget_api.Common.{ℕ, Bool, Option, List}
use email_budget_api.Common.Text.{Text}
use email_budget_api.Extraction.Models.{Band, Direction, FieldConfidences, FieldKey}
use email_budget_api.Models.Ops.{EmailStatus}

-- The column `extraction_results.status` takes the values of the pipeline's `Status` too.
pub data ResultStatus : Type 0 where
  pending_review confirmed dismissed extraction_failed duplicate_suppressed : ResultStatus
  non_financial forwarding_verification : ResultStatus

pub data ResultMethod : Type 0 where
  template regex default mixed : ResultMethod

pub record ExtractionResult : Type 0 where
  pub id : ℕ
  pub email_id : ℕ
  pub external_user_id : Text
  pub alias_hash : Text
  pub amount : Option ℕ
  pub currency : Option Text
  pub merchant_raw : Option Text
  pub merchant_normalized : Option Text
  pub category_suggestion : Option Text
  pub transaction_date : Option ℕ
  pub card_last4 : Option Text
  pub extraction_confidence : ℕ
  pub confidence_band : Band
  pub field_confidences : Option FieldConfidences
  pub method : Option ResultMethod
  pub status : ResultStatus
  pub category_confirmed : Option Text
  pub dismissed_reason : Option Text
  pub fingerprint : Option Text
  pub duplicate_confidence : ℕ
  pub direction : Direction
  pub is_probable_refund : Bool
  pub is_declined : Bool
  pub created_at : ℕ

pub record ExtractionSnippet : Type 0 where
  pub id : ℕ
  pub extraction_id : ℕ
  pub raw_snippet : Text
  pub snippet_type : FieldKey

pub data CandidateType : Type 0 where
  exact_fingerprint : CandidateType

pub record DuplicateMatch : Type 0 where
  pub id : ℕ
  pub extraction_id : ℕ
  pub candidate_id : ℕ
  pub candidate_type : CandidateType
  pub duplicate_confidence : ℕ
  pub created_at : ℕ

pub data Action : Type 0 where
  confirm dismiss reprocess raw_email_purged user_data_deletion_requested : Action

-- The two status columns of the audit log hold statuses of emails and of extractions.
pub data AuditStatus : Type 0 where
  of_email : EmailStatus → AuditStatus
  of_result : ResultStatus → AuditStatus
  scheduled : AuditStatus

pub record ImportAuditLog : Type 0 where
  pub id : ℕ
  pub email_id : Option ℕ
  pub action : Action
  pub previous_status : Option AuditStatus
  pub new_status : Option AuditStatus
  pub timestamp : ℕ

pub record DuplicateMatchOut : Type 0 where
  pub candidate_id : ℕ
  pub candidate_type : CandidateType
  pub duplicate_confidence : ℕ

-- `ExtractionDetail`: the columns of the row that it validates, and the matches.
pub record ExtractionDetail : Type 0 where
  pub row : ExtractionResult
  pub duplicate_matches : List DuplicateMatchOut

pub data EventType : Type 0 where
  extraction_created extraction_failed forwarding_verified alias_first_email_received : EventType

pub data Provider : Type 0 where
  gmail : Provider

-- `payload_json`
pub data Payload : Type 0 where
  verification :
      (alias_hash : Text)
      → Provider
      → (code confirmation_url : Option Text) → (received_at : Option ℕ) → Payload
  extraction : ExtractionDetail → Payload
  first_email : (alias_hash external_user_id : Text) → (email_id : ℕ) → Payload

pub data OutboxStatus : Type 0 where
  pending delivered failed : OutboxStatus

pub record WebhookOutbox : Type 0 where
  pub id : ℕ
  pub api_key_id : Option ℕ
  pub event_type : EventType
  pub payload_json : Payload
  pub target_url : Option Text
  pub status : OutboxStatus
  pub attempts : ℕ
  pub next_attempt_at : ℕ
  pub last_error : Option Text
  pub created_at : ℕ
  pub delivered_at : Option ℕ
