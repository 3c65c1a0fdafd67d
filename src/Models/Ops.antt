-- ===== src/Models/Ops.antt =====
-- models/email.py, alias.py, ops.py and rules.py: the rows of the tables. A UUID is a number, an
-- instant a number of seconds; a column with a fixed vocabulary is a data type.
use email_budget_api.Common.{ℕ, Bool, Option}
use email_budget_api.Common.Text.{Text}
use email_budget_api.Extraction.Models.{EmailType, SenderSource, ClassificationMethod}

pub record Alias : Type 0 where
  pub id : ℕ
  pub alias_hash : Text
  pub external_user_id : Text
  pub api_key_id : Option ℕ
  pub label : Option Text
  pub is_active : Bool
  pub emails_received : ℕ
  pub created_at : ℕ

pub data EmailStatus : Type 0 where
  received processed extraction_failed non_financial forwarding_verification error : EmailStatus

pub record ImportedEmail : Type 0 where
  pub id : ℕ
  pub alias_hash : Text
  pub r2_key : Option Text
  pub from_address : Option Text
  pub resolved_sender_domain : Option Text
  pub sender_source : Option SenderSource
  pub subject : Option Text
  pub message_id : Option Text
  pub received_at : Option ℕ
  pub status : EmailStatus
  pub processing_errors : Option Text
  pub pending_deletion_at : Option ℕ
  pub created_at : ℕ

pub record EmailClassification : Type 0 where
  pub id : ℕ
  pub email_id : ℕ
  pub is_financial : Bool
  pub email_type : EmailType
  pub confidence : ℕ
  pub method : ClassificationMethod

pub record ApiKey : Type 0 where
  pub id : ℕ
  pub key_hash : Text
  pub label : Option Text
  pub created_at : ℕ
  pub last_used_at : Option ℕ

pub record WebhookConfig : Type 0 where
  pub id : ℕ
  pub api_key_id : Option ℕ
  pub webhook_url : Text
  pub webhook_secret_encrypted : Text
  pub created_at : ℕ

pub data MatchType : Type 0 where
  starts_with contains exact regex : MatchType

pub record MerchantRule : Type 0 where
  pub id : ℕ
  pub pattern : Text
  pub match_type : MatchType
  pub normalized_name : Text
  pub category : Option Text
  pub priority : ℕ
  pub confirmation_count : ℕ
  pub created_at : ℕ

pub record CategoryFeedbackLog : Type 0 where
  pub id : ℕ
  pub extraction_id : Option ℕ
  pub merchant_normalized : Text
  pub category_confirmed : Text
  pub created_at : ℕ
