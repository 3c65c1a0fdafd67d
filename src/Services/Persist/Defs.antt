-- ===== src/Services/Persist/Defs.antt =====
-- services/extraction_service.py, the persistence of a result and its webhook events.
use email_budget_api.Common.{
  ℕ, ◌+◌, false, Option, none, some, List, [], ◌∷◌, ◌++◌, map, ◌==◌, where_, update_where,
}
use email_budget_api.Common.Text.{Text}
use email_budget_api.Extraction.Models.{
  Status, Field, FieldKey, Fields, PipelineResult, Classification, field_value, not_applicable,
  debit,
}
use email_budget_api.Models.Ops.{ImportedEmail, EmailStatus}
use email_budget_api.Models.Extraction.{
  ResultStatus, ExtractionResult, DuplicateMatch, DuplicateMatchOut, ExtractionDetail, EventType,
  extraction_created, forwarding_verified, Payload, verification, extraction, gmail, pending,
}
use email_budget_api.Models.Db.{Db}
use email_budget_api.Services.Duplicates.{check_and_flag}
use email_budget_api.Services.Persist.Mapper.{email_status, apply_result_fields}

-- The session writes a changed email object back.
unfoldable pub save_email : ImportedEmail → Db → Db
save_email email db = record db {
  emails = update_where (λ e. e.id == email.id) (λ _. email) db.emails;
}

unfoldable pub add_classification : ℕ → Classification → Db → Db
add_classification email_id c db = record db {
  classifications =
      db.classifications
      ++ record {
        id = db.next_id;
        email_id = email_id;
        is_financial = c.is_financial;
        email_type = c.email_type;
        confidence = c.confidence;
        method = c.method;
      }
        ∷ [];
  next_id = db.next_id + 1;
}

-- A new outbox row is pending, and due at once.
unfoldable pub add_event : ℕ → Option ℕ → EventType → Payload → Db → Db
add_event now api_key_id event_type payload db = record db {
  outbox =
      db.outbox
      ++ record {
        id = db.next_id;
        api_key_id = api_key_id;
        event_type = event_type;
        payload_json = payload;
        target_url = none;
        status = pending;
        attempts = 0;
        next_attempt_at = now;
        last_error = none;
        created_at = now;
        delivered_at = none;
      }
        ∷ [];
  next_id = db.next_id + 1;
}

-- A snippet is stored if it is not empty.
unfoldable pub push_snippet {ℓ} :
    {A : Type ℓ} → FieldKey → Option (Field A) → List (FieldKey × Text) → List (FieldKey × Text)
push_snippet key none rest = rest
push_snippet key (some f) rest = elim f.snippet [
  | none ↦ rest
  | some snippet ↦ elim snippet [ [] ↦ rest | c ∷ s ↦ (key, c ∷ s) ∷ rest ]
]

unfoldable pub snippets_of : Fields → List (FieldKey × Text)
unfolding push_snippet
snippets_of f = push_snippet FieldKey.amount f.amount (
    push_snippet FieldKey.currency f.currency (
      push_snippet FieldKey.transaction_date f.transaction_date (
        push_snippet FieldKey.card_last4 f.card_last4 (
          push_snippet FieldKey.merchant f.merchant (
            push_snippet FieldKey.verification_code f.verification_code
              (push_snippet FieldKey.confirmation_url f.confirmation_url []))))))

unfoldable pub add_snippets : ℕ → List (FieldKey × Text) → Db → Db
add_snippets extraction_id [] db = db
add_snippets extraction_id ((key, snippet) ∷ rest) db = add_snippets extraction_id rest (record db {
  snippets =
      db.snippets
      ++ record {
        id = db.next_id;
        extraction_id = extraction_id;
        raw_snippet = snippet;
        snippet_type = key;
      }
        ∷ [];
  next_id = db.next_id + 1;
})

unfoldable pub match_out : DuplicateMatch → DuplicateMatchOut
match_out m = record {
  candidate_id = m.candidate_id;
  candidate_type = m.candidate_type;
  duplicate_confidence = m.duplicate_confidence;
}

-- `ExtractionDetail` of a row; `_extraction_event_payload` and `_detail` build the same.
unfoldable pub detail_of : Db → ExtractionResult → ExtractionDetail
unfolding match_out
detail_of db row = record {
  row = row;
  duplicate_matches = map match_out (where_ (λ m. m.extraction_id == row.id) db.duplicate_matches);
}

-- A new row of `extraction_results`, with the defaults of its columns.
unfoldable pub new_extraction : ℕ → ℕ → ImportedEmail → Text → ExtractionResult
new_extraction now id email external_user_id = record {
  id = id;
  email_id = email.id;
  external_user_id = external_user_id;
  alias_hash = email.alias_hash;
  amount = none;
  currency = none;
  merchant_raw = none;
  merchant_normalized = none;
  category_suggestion = none;
  transaction_date = none;
  card_last4 = none;
  extraction_confidence = 0;
  confidence_band = not_applicable;
  field_confidences = none;
  method = none;
  status = ResultStatus.extraction_failed;
  category_confirmed = none;
  dismissed_reason = none;
  fingerprint = none;
  duplicate_confidence = 0;
  direction = debit;
  is_probable_refund = false;
  is_declined = false;
  created_at = now;
}

unfoldable pub add_extraction : ExtractionResult → Db → Db
add_extraction row db = record db {
  extractions = db.extractions ++ row ∷ [];
  next_id = db.next_id + 1;
}

-- `if status_value == "extraction_failed": email.status = …`
unfoldable pub fail_email : ResultStatus → ImportedEmail → ImportedEmail
fail_email ResultStatus.extraction_failed email = record email {
  status = EmailStatus.extraction_failed;
}
fail_email _ email = email

unfoldable pub event_for : ResultStatus → EventType
event_for ResultStatus.pending_review = extraction_created
event_for _ = EventType.extraction_failed

-- The sender and the status that every result writes to the email.
unfoldable pub resolved_email : ImportedEmail → PipelineResult → ImportedEmail
unfolding email_status
resolved_email email result = record email {
  resolved_sender_domain = result.resolved_sender.domain;
  sender_source = some result.resolved_sender.source;
  status = email_status result.status;
}

-- The part of `persist_result` for a financial email.
unfoldable pub persist_extraction :
    ℕ
    → ImportedEmail
    → Text
    → PipelineResult
    → Option ℕ
    → Db
    → ImportedEmail × Option ExtractionResult × Db
unfolding new_extraction apply_result_fields fail_email add_extraction add_snippets snippets_of
    add_event detail_of event_for save_email check_and_flag
persist_extraction now email external_user_id result api_key_id db =
    let fresh = new_extraction now db.next_id email external_user_id in
    let row = apply_result_fields fresh result in
    let email' = fail_email row.status email in
    let added = add_extraction row (save_email email' db) in
    let (row', flagged, _) = check_and_flag now row added in
    let stored = add_snippets row.id (snippets_of result.fields) flagged in
    let payload = extraction (detail_of stored row') in
    (email', some row', add_event now api_key_id (event_for row.status) payload stored)

-- The returns of `persist_result`, by the pipeline's status.
unfoldable pub persist_by_status :
    Status
    → ℕ
    → ImportedEmail
    → Text
    → PipelineResult
    → Option ℕ
    → Db
    → ImportedEmail × Option ExtractionResult × Db
unfolding add_event persist_extraction
persist_by_status Status.forwarding_verification now email external_user_id result api_key_id db =
    let payload =
      verification email.alias_hash gmail (field_value result.fields.verification_code)
        (field_value result.fields.confirmation_url) email.received_at in
    (email, none, add_event now api_key_id forwarding_verified payload db)
persist_by_status Status.non_financial now email external_user_id result api_key_id db =
    (email, none, db)
persist_by_status Status.pending_review now email external_user_id result api_key_id db =
    persist_extraction now email external_user_id result api_key_id db
persist_by_status Status.extraction_failed now email external_user_id result api_key_id db =
    persist_extraction now email external_user_id result api_key_id db

-- The email after the call, the extraction row if one is created, and the database.
unfoldable pub persist_result :
    ℕ
    → ImportedEmail
    → Text
    → PipelineResult
    → Option ℕ
    → Db
    → ImportedEmail × Option ExtractionResult × Db
unfolding resolved_email add_classification save_email persist_by_status
persist_result now email external_user_id result api_key_id db =
    let email' = resolved_email email result in
    persist_by_status result.status now email' external_user_id result api_key_id
      (add_classification email.id result.classification (save_email email' db))
