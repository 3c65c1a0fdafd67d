-- ===== src/Api/Extractions/Defs.antt =====
-- api/v1/extractions.py. A handler returns the response and the committed database; a route that
-- raises has committed nothing. Authentication stands before every route and is not part of them.
use email_budget_api.Common.{
  ℕ, ◌+◌, Bool, true, false, Option, none, some, List, [], ◌∷◌, ◌++◌, map, ◌==◌, first, where_,
  delete_where,
}
use email_budget_api.Common.Text.{Text}
use email_budget_api.Extraction.Models.{PipelineResult, Status, FieldKey}
use email_budget_api.Models.Ops.{ImportedEmail, EmailStatus}
use email_budget_api.Models.Extraction.{
  ResultStatus, ExtractionResult, ExtractionSnippet, ExtractionDetail, Action, confirm, dismiss,
  reprocess, of_result,
}
use email_budget_api.Models.Db.{Db}
use email_budget_api.Services.Duplicates.{check_and_flag, save_extraction}
use email_budget_api.Services.Persist.{
  apply_result_fields, status_value, save_email, detail_of, add_snippets, snippets_of,
}
use email_budget_api.Api.Internal.{Fetch, found, object_missing, failure}

-- The HTTP statuses of the routes, and an exception that none of them handles.
pub data Result {ℓ} (A : Type ℓ) : Type ℓ where
  ok : A → Result A
  not_found : Result A
  conflict : Result A
  server_error : Result A

unfoldable pub get_row : ℕ → Db → Option ExtractionResult
get_row id db = first (λ r. r.id == id) db.extractions

-- GET /{extraction_id}
unfoldable pub get_extraction : ℕ → Db → Result ExtractionDetail
unfolding get_row detail_of
get_extraction id db = elim (get_row id db) [ none ↦ not_found | some row ↦ ok (detail_of db row) ]

-- GET /{extraction_id}/preview: the detail, and the snippets as pairs of type and text.
unfoldable pub preview_extraction : ℕ → Db → Result (ExtractionDetail × List (FieldKey × Text))
unfolding get_row detail_of
preview_extraction id db = elim (get_row id db) [
  | none ↦ not_found
  | some row ↦ ok (
    detail_of db row,
    map (λ s. (s.snippet_type, s.raw_snippet))
        (where_ (λ (s : ExtractionSnippet). s.extraction_id == row.id) db.snippets),
  )
]

unfoldable pub add_audit : ℕ → ExtractionResult → Action → ResultStatus → Db → Db
add_audit now row action new_status db = record db {
  audit_logs =
      db.audit_logs
      ++ record {
        id = db.next_id;
        email_id = some row.email_id;
        action = action;
        previous_status = some (of_result row.status);
        new_status = some (of_result new_status);
        timestamp = now;
      }
        ∷ [];
  next_id = db.next_id + 1;
}

-- A decision of the user: the audit entry, the new row, and its detail.
unfoldable pub decide :
    ℕ → Action → ExtractionResult → ExtractionResult → Db → Result ExtractionDetail × Db
unfolding add_audit save_extraction detail_of
decide now action row row' db =
    let db' = save_extraction row' (add_audit now row action row'.status db) in
    (ok (detail_of db' row'), db')

-- POST /{extraction_id}/confirm, by the status of the row.
unfoldable pub confirm_row :
    ResultStatus → ℕ → Option Text → ExtractionResult → Db → Result ExtractionDetail × Db
unfolding decide detail_of
confirm_row ResultStatus.confirmed now category row db = (ok (detail_of db row), db)
confirm_row ResultStatus.dismissed now category row db = (conflict, db)
confirm_row _ now category row db =
    decide now confirm row
      (record row { status = ResultStatus.confirmed; category_confirmed = category }) db

unfoldable pub confirm_extraction : ℕ → ℕ → Option Text → Db → Result ExtractionDetail × Db
unfolding get_row confirm_row
confirm_extraction now id category db = elim (get_row id db) [
  | none ↦ (not_found, db)
  | some row ↦ confirm_row row.status now category row db
]

-- POST /{extraction_id}/dismiss, by the status of the row.
unfoldable pub dismiss_row :
    ResultStatus → ℕ → Option Text → ExtractionResult → Db → Result ExtractionDetail × Db
unfolding decide detail_of
dismiss_row ResultStatus.dismissed now reason row db = (ok (detail_of db row), db)
dismiss_row ResultStatus.confirmed now reason row db = (conflict, db)
dismiss_row _ now reason row db =
    decide now dismiss row
      (record row { status = ResultStatus.dismissed; dismissed_reason = reason }) db

unfoldable pub dismiss_extraction : ℕ → ℕ → Option Text → Db → Result ExtractionDetail × Db
unfolding get_row dismiss_row
dismiss_extraction now id reason db = elim (get_row id db) [
  | none ↦ (not_found, db)
  | some row ↦ dismiss_row row.status now reason row db
]

-- `row.status in ("confirmed", "dismissed")`
unfoldable pub is_decided : ResultStatus → Bool
is_decided ResultStatus.confirmed = true
is_decided ResultStatus.dismissed = true
is_decided _ = false

-- `email.r2_key`, where a missing email, NULL and the empty key are alike.
unfoldable pub raw_key : Option ImportedEmail → Option (ImportedEmail × Text)
raw_key none = none
raw_key (some email) = elim email.r2_key [
  | none ↦ none
  | some key ↦ elim key [ [] ↦ none | c ∷ s ↦ some (email, c ∷ s) ]
]

-- `"processed" if row.status == "pending_review" else "extraction_failed"`
unfoldable pub reprocessed_status : ResultStatus → EmailStatus
reprocessed_status ResultStatus.pending_review = EmailStatus.processed
reprocessed_status _ = EmailStatus.extraction_failed

-- The row with the new result, not flagged yet.
unfoldable pub remapped : ExtractionResult → PipelineResult → ExtractionResult
unfolding apply_result_fields
remapped row result = record (apply_result_fields row result) { duplicate_confidence = 0 }

-- The database before the duplicate check: audited, the row and the email written back, the old
-- matches deleted.
unfoldable pub cleared : ℕ → ImportedEmail → ExtractionResult → PipelineResult → Db → Db
unfolding add_audit save_extraction save_email reprocessed_status remapped status_value
cleared now email row result db =
    let row' = remapped row result in
    let audited = add_audit now row reprocess (status_value result.status) db in
    let email' : ImportedEmail = record email { status = reprocessed_status row'.status } in
    let saved = save_email email' (save_extraction row' audited) in
    record saved {
      duplicate_matches = delete_where (λ m. m.extraction_id == row.id) saved.duplicate_matches;
    }

-- The snippets reflect the latest extraction.
unfoldable pub replace_snippets : ℕ → PipelineResult → Db → Db
unfolding add_snippets snippets_of
replace_snippets id result db =
    add_snippets id (snippets_of result.fields)
      (record db { snippets = delete_where (λ s. s.extraction_id == id) db.snippets })

-- The part of `reprocess_extraction` that writes.
unfoldable pub rewrite :
    ℕ → ImportedEmail → ExtractionResult → PipelineResult → Db → Result ExtractionDetail × Db
unfolding remapped cleared check_and_flag replace_snippets detail_of
rewrite now email row result db =
    let (row', flagged, _) =
      check_and_flag now (remapped row result) (cleared now email row result db) in
    let stored = replace_snippets row.id result flagged in (ok (detail_of stored row'), stored)

-- A result that is not an extraction is refused.
unfoldable pub rewrite_if_financial :
    Status
    → ℕ
    → ImportedEmail
    → ExtractionResult
    → PipelineResult
    → Db
    → Result ExtractionDetail × Db
unfolding rewrite
rewrite_if_financial Status.pending_review now email row result db = rewrite now email row result db
rewrite_if_financial Status.extraction_failed now email row result db =
    rewrite now email row result db
rewrite_if_financial _ now email row result db = (conflict, db)

unfoldable pub refetched :
    Fetch
    → (Text → Option PipelineResult)
    → ℕ
    → ImportedEmail
    → ExtractionResult
    → Db
    → Result ExtractionDetail × Db
unfolding rewrite_if_financial
refetched failure run_pipeline now email row db = (server_error, db)
refetched object_missing run_pipeline now email row db = (conflict, db)
refetched (found raw) run_pipeline now email row db = elim (run_pipeline raw) [
  | none ↦ (server_error, db)
  | some result ↦ rewrite_if_financial result.status now email row result db
]

-- POST /{extraction_id}/reprocess, for a row that is there.
unfoldable pub reprocess_row :
    (Text → Fetch)
    → (Text → Option PipelineResult)
    → ℕ
    → ExtractionResult
    → Db
    → Result ExtractionDetail × Db
unfolding is_decided raw_key refetched
reprocess_row get_object run_pipeline now row db = elim (is_decided row.status) [
  | true ↦ (conflict, db)
  | false ↦ elim (raw_key (first (λ (e : ImportedEmail). e.id == row.email_id) db.emails)) [
    | none ↦ (conflict, db)
    | some (email, key) ↦ refetched (get_object key) run_pipeline now email row db
  ]
]

unfoldable pub reprocess_extraction :
    (Text → Fetch) → (Text → Option PipelineResult) → ℕ → ℕ → Db → Result ExtractionDetail × Db
unfolding get_row reprocess_row
reprocess_extraction get_object run_pipeline now id db = elim (get_row id db) [
  | none ↦ (not_found, db)
  | some row ↦ reprocess_row get_object run_pipeline now row db
]
