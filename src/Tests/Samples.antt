-- ===== src/Tests/Samples.antt =====
-- The rows, the settings and the stand-ins for outside code that the tests share.
use email_budget_api.Common.{true, false, none, some, [], ◌∷◌}
use email_budget_api.Common.Text.{Text, codes}
use email_budget_api.Extraction.Models.{
  ResolvedSender, dkim, Fields, no_fields, template, debit, high, PipelineResult, bank_alert,
  registry, Status,
}
use email_budget_api.Extraction.Pipeline.{Stages}
use email_budget_api.Models.Ops.{Alias, ImportedEmail, EmailStatus}
use email_budget_api.Models.Extraction.{
  ExtractionResult, ResultStatus, WebhookOutbox, extraction_created, first_email, pending,
}
use email_budget_api.Models.Db.{Db, empty}
use email_budget_api.Api.Internal.{Env, World, EmailReceivedPayload, found}

abbrev pub user : Text
user = codes "u1"

abbrev pub hash : Text
hash = codes "ab"

abbrev pub key : Text
key = codes "k1"

abbrev pub chase : ResolvedSender
chase = record { domain = some (codes "chase.com"); source = dkim; confidence = 98 }

abbrev pub purchase : Fields
purchase = record no_fields {
  amount = some (record { value = 2500; method = template; snippet = some (codes "$25.00") });
  transaction_date = some (record { value = 20000; method = template; snippet = none });
  merchant = some (record { value = codes "Shop"; method = template; snippet = none });
  currency = some (record { value = codes "USD"; method = template; snippet = none });
}

-- Stages that read the same purchase from every email.
abbrev pub stages : Stages
stages = record {
  parse = λ raw. record {
    subject = codes "Purchase";
    from_header = [];
    dkim_signatures = [];
    headers = [];
    text_body = raw;
    html_body = [];
  };
  resolve = λ _. some chase;
  detect = λ _. none;
  subject_search = λ _. false;
  prepare = λ parsed. parsed.text_body;
  general_extract = λ _. no_fields;
  template_extract = λ _ _. purchase;
  transaction_flags = λ _. (debit, false, false);
  normalize_merchant = λ name. (name, none);
  round_3 = λ n. n;
  sha256 = λ text. text;
  isoformat = λ _. codes "2024-10-04";
}

abbrev pub result : PipelineResult
result = record {
  resolved_sender = chase;
  classification = record {
    is_financial = true;
    email_type = bank_alert;
    confidence = 95;
    method = registry;
  };
  fields = purchase;
  merchant_normalized = some (codes "Shop");
  category_suggestion = none;
  field_confidences = none;
  extraction_confidence = 873;
  confidence_band = high;
  status = Status.pending_review;
  fingerprint = some (codes "f1");
  direction = debit;
  is_probable_refund = false;
  is_declined = false;
}

abbrev pub alias : Alias
alias = record {
  id = 1;
  alias_hash = hash;
  external_user_id = user;
  api_key_id = some 7;
  label = none;
  is_active = true;
  emails_received = 0;
  created_at = 10;
}

abbrev pub email : ImportedEmail
email = record {
  id = 2;
  alias_hash = hash;
  r2_key = some key;
  from_address = none;
  resolved_sender_domain = none;
  sender_source = none;
  subject = none;
  message_id = some (codes "m1");
  received_at = some 90;
  status = EmailStatus.received;
  processing_errors = none;
  pending_deletion_at = none;
  created_at = 100;
}

abbrev pub row : ExtractionResult
row = record {
  id = 3;
  email_id = 2;
  external_user_id = user;
  alias_hash = hash;
  amount = some 2500;
  currency = some (codes "USD");
  merchant_raw = some (codes "Shop");
  merchant_normalized = some (codes "Shop");
  category_suggestion = none;
  transaction_date = some 20000;
  card_last4 = none;
  extraction_confidence = 873;
  confidence_band = high;
  field_confidences = none;
  method = none;
  status = ResultStatus.pending_review;
  category_confirmed = none;
  dismissed_reason = none;
  fingerprint = some (codes "f1");
  duplicate_confidence = 0;
  direction = debit;
  is_probable_refund = false;
  is_declined = false;
  created_at = 50;
}

abbrev pub confirmed_row : ExtractionResult
confirmed_row = record row { status = ResultStatus.confirmed }

abbrev pub registered : Db
registered = record empty { aliases = alias ∷ []; next_id = 4 }

abbrev pub imported : Db
imported = record registered { emails = email ∷ [] }

abbrev pub world : World
world = record { db = registered; deletions = [] }

abbrev pub env : Env
env = record {
  now = 1000;
  rate_limit_per_alias = 2;
  rate_limit_window_seconds = 3600;
  get_object = λ _. found (codes "raw");
  fromisoformat = λ _. none;
  run_pipeline = λ _. some result;
}

abbrev pub payload : EmailReceivedPayload
payload = record {
  alias_hash = codes "AB";
  r2_key = codes "k2";
  from_address = codes "a@chase.com";
  subject = codes "Purchase";
  message_id = codes "m2";
  received_at = [];
}

abbrev pub waiting : WebhookOutbox
waiting = record {
  id = 9;
  api_key_id = some 7;
  event_type = extraction_created;
  payload_json = first_email hash user 2;
  target_url = none;
  status = pending;
  attempts = 0;
  next_attempt_at = 50;
  last_error = none;
  created_at = 50;
  delivered_at = none;
}
