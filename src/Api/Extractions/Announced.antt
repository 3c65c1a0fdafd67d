-- ===== src/Api/Extractions/Announced.antt =====
-- services/extraction_service.py against api/v1/extractions.py: the event that announces an
-- extraction carries what the API then serves.
use email_budget_api.Common.{
  ℕ, ◌<◌, ◌≡◌, refl, ◌∙◌, ap, Option, none, some, Option-cases, inl, inr, List, [], ◌∷◌, ◌++◌,
  arith, first, All, All-map, save_last, ◌==◌,
}
use email_budget_api.Common.Text.{Text}
use email_budget_api.Extraction.Models.{PipelineResult, Status}
use email_budget_api.Models.Ops.{ImportedEmail}
use email_budget_api.Models.Extraction.{
  ExtractionResult, ExtractionDetail, extraction, WebhookOutbox, pending,
}
use email_budget_api.Models.Db.{Db}
use email_budget_api.Services.Duplicates.{earlier, check_and_flag, save_extraction, add_match}
use email_budget_api.Services.Persist.{
  apply_result_fields, add_snippets, snippets_of, persist_result, persist_by_status,
  persist_extraction, save_email, add_classification, add_event, add_extraction, fail_email,
  resolved_email, new_extraction, detail_of, event_for,
}
use email_budget_api.Services.Persist.Frame.{add_snippets_frame, check_and_flag_frame}
use email_budget_api.Api.Extractions.Defs.{ok, get_row, get_extraction}

abbrev IsBelow : ℕ → List ExtractionResult → Type 0
IsBelow n rows = All (λ (r : ExtractionResult). r.id < n) rows

-- The last row of the table is the one that `check_and_flag` returns.
flagged_last :
    (now : ℕ) (row : ExtractionResult) (db : Db) (rows : List ExtractionResult)
    → IsBelow row.id rows
    → db.extractions ≡ rows ++ row ∷ []
    → (check_and_flag now row db).1.extractions ≡ rows ++ (check_and_flag now row db).0 ∷ []
unfolding check_and_flag add_match save_extraction
flagged_last now row db rows below e = elim (Option-cases (earlier row db.extractions)) [
  | inl miss ↦ rw (miss, check_and_flag) e
  | inr (found, hit) ↦
      rw (hit, check_and_flag, e)
        (save_last (λ (r : ExtractionResult). r.id) (record row { duplicate_confidence = 1000 }) row
          rows below refl)
]

flagged_id :
    (now : ℕ) (row : ExtractionResult) (db : Db) → (check_and_flag now row db).0.id ≡ row.id
unfolding check_and_flag
flagged_id now row db = ground arith

flagged_status :
    (now : ℕ) (row : ExtractionResult) (db : Db) → (check_and_flag now row db).0.status ≡ row.status
unfolding check_and_flag
flagged_status now row db = ground arith

-- A query by identifier finds a row that was appended with a fresh one.
first_last :
    (n : ℕ) (row : ExtractionResult) (rows : List ExtractionResult)
    → IsBelow n rows
    → row.id ≡ n
    → first (λ (r : ExtractionResult). r.id == n) (rows ++ row ∷ []) ≡ some row
unfolding first
first_last n row [] h e = ground arith
first_last n row (x ∷ xs) h e = ground (arith, first_last n row xs h.1 e)

-- The event that announces `row`, as it is put into the outbox.
abbrev pub announcement : ℕ → ℕ → Option ℕ → ExtractionResult → ExtractionDetail → WebhookOutbox
announcement id now api_key_id row detail = record {
  id = id;
  api_key_id = api_key_id;
  event_type = event_for row.status;
  payload_json = extraction detail;
  target_url = none;
  status = pending;
  attempts = 0;
  next_attempt_at = now;
  last_error = none;
  created_at = now;
  delivered_at = none;
}

-- The row that a call created and the event that it queued, against what the API serves then.
pub record IsAnnounced (now : ℕ) (api_key_id : Option ℕ) (db : Db)
    (created : Option ExtractionResult) (db' : Db) : Type 0 where
  pub row : ExtractionResult
  pub detail : ExtractionDetail
  pub event_id : ℕ
  pub created_row : created ≡ some row
  pub served : get_extraction row.id db' ≡ ok detail
  pub queued : db'.outbox ≡ db.outbox ++ announcement event_id now api_key_id row detail ∷ []

served_row :
    (db : Db) (row : ExtractionResult)
    → get_row row.id db ≡ some row
    → get_extraction row.id db ≡ ok (detail_of db row)
unfolding get_extraction
served_row db row h = rw (h, get_extraction)

stored_row :
    (db : Db) (rows : List ExtractionResult) (row : ExtractionResult)
    → db.extractions ≡ rows ++ row ∷ []
    → IsBelow row.id rows
    → get_row row.id db ≡ some row
unfolding get_row
stored_row db rows row e below = rw e (first_last row.id row rows below refl)

module _ (now : ℕ) (email : ImportedEmail) (user : Text) (result : PipelineResult)
    (api_key_id : Option ℕ) (db : Db) (below : IsBelow db.next_id db.extractions) where
  persist_extraction-IsAnnounced :
      let x = persist_extraction now email user result api_key_id db in
      IsAnnounced now api_key_id db x.1 x.2
  unfolding persist_extraction
  persist_extraction-IsAnnounced =
      let row = apply_result_fields (new_extraction now db.next_id email user) result in
      let added = add_extraction row (save_email (fail_email row.status email) db) in
      let flagged = check_and_flag now row added in
      let stored = add_snippets db.next_id (snippets_of result.fields) flagged.1 in
      let kept =
        ap (λ (d : Db). d.extractions)
          (add_snippets_frame db.next_id (snippets_of result.fields) flagged.1) in
      let last = flagged_last now row added db.extractions below refl in
      record {
        row = flagged.0;
        detail = detail_of stored flagged.0;
        event_id = stored.next_id;
        created_row = refl;
        served = served_row _ flagged.0 (
            unfold add_event in
            (stored_row _ db.extractions flagged.0 (kept ∙ last)
              (rw (flagged_id now row added) below)));
        queued = cc (
          ap (λ (d : Db). d.outbox)
              (add_snippets_frame db.next_id (snippets_of result.fields) flagged.1),
          ap (λ (d : Db). d.outbox) (check_and_flag_frame now row added),
          flagged_status now row added,
        );
      }

-- The pipeline's statuses for which a row is created.
abbrev pub IsExtraction : Status → Type 0
IsExtraction Status.pending_review = Unit
IsExtraction Status.extraction_failed = Unit
IsExtraction _ = ⊥

by_status-IsAnnounced :
    (s : Status) (now : ℕ) (email : ImportedEmail) (user : Text) (result : PipelineResult)
    (api_key_id : Option ℕ) (db : Db)
    → IsBelow db.next_id db.extractions
    → IsExtraction s
    → let x = persist_by_status s now email user result api_key_id db in
      IsAnnounced now api_key_id db x.1 x.2
unfolding persist_by_status
by_status-IsAnnounced Status.pending_review now email user result api_key_id db below k =
    persist_extraction-IsAnnounced now email user result api_key_id db below
by_status-IsAnnounced Status.extraction_failed now email user result api_key_id db below k =
    persist_extraction-IsAnnounced now email user result api_key_id db below
by_status-IsAnnounced Status.non_financial now email user result api_key_id db below k = absurd k
by_status-IsAnnounced Status.forwarding_verification now email user result api_key_id db below k =
    absurd k

-- Where the identifiers of the extractions lie below the next one, persisting a financial result
-- creates a row and queues exactly one event for it, due at once and
-- routed by the alias's key; the event is `extraction.created` for a row to review and
-- `extraction.failed` otherwise, and its payload is the detail that GET then serves for the row.
pub event_carries_detail :
    (now : ℕ) (email : ImportedEmail) (user : Text) (result : PipelineResult)
    (api_key_id : Option ℕ) (db : Db)
    → All (λ (r : ExtractionResult). r.id < db.next_id) db.extractions
    → IsExtraction result.status
    → let x = persist_result now email user result api_key_id db in
      IsAnnounced now api_key_id db x.1 x.2
unfolding persist_result add_classification save_email
event_carries_detail now email user result api_key_id db below k =
    let email' = resolved_email email result in
    let x =
      by_status-IsAnnounced result.status now email' user result api_key_id
        (add_classification email.id result.classification (save_email email' db))
        (All-map (λ r h. omega arith) db.extractions below) k in
    record {
      row = x.row;
      detail = x.detail;
      event_id = x.event_id;
      created_row = x.created_row;
      served = x.served;
      queued = x.queued;
    }
