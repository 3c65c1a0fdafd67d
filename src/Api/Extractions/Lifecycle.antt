-- ===== src/Api/Extractions/Lifecycle.antt =====
-- api/v1/extractions.py: the life of an extraction under review.
use email_budget_api.Common.{
  ℕ, ◌≡◌, refl, sym, ◌∙◌, ap, subst, Bool, true, false, Option, none, some, Option-cases,
  Bool-cases, inl, inr, List, arith, first, first_sound, ==_iff, ◌==◌, save, save-save,
}
use email_budget_api.Common.Text.{Text}
use email_budget_api.Extraction.Models.{PipelineResult, Status, field_value}
use email_budget_api.Models.Ops.{ImportedEmail}
use email_budget_api.Models.Extraction.{ResultStatus, ExtractionResult, ExtractionDetail}
use email_budget_api.Models.Db.{Db}
use email_budget_api.Services.Duplicates.{earlier, check_and_flag, save_extraction, add_match}
use email_budget_api.Services.Persist.{
  apply_result_fields, clamp_amount, status_value, save_email, snippets_of,
}
use email_budget_api.Services.Persist.Frame.{add_snippets_frame}
use email_budget_api.Services.Persist.Outcome.{apply_result_fields-IsMapped}
use email_budget_api.Api.Internal.{Fetch, found, object_missing, failure}
use email_budget_api.Api.Extractions.Announced.{IsExtraction}
use email_budget_api.Api.Extractions.Defs.{
  Result, get_row, add_audit, decide, confirm_row, confirm_extraction, dismiss_row,
  dismiss_extraction, is_decided, raw_key, remapped, cleared, replace_snippets, rewrite,
  rewrite_if_financial, refetched, reprocess_row, reprocess_extraction,
}

-- The requests of a client that change a row, with what each carries.
pub data ReviewRequest : Type 0 where
  confirms : (id : ℕ) (category : Option Text) → ReviewRequest
  dismisses : (id : ℕ) (reason : Option Text) → ReviewRequest
  reprocesses : (id : ℕ) → ReviewRequest

pub handle :
    (Text → Fetch)
    → (Text → Option PipelineResult)
    → ℕ
    → ReviewRequest
    → Db
    → Result ExtractionDetail × Db
unfolding confirm_extraction dismiss_extraction reprocess_extraction
handle get_object run_pipeline now (confirms id category) db = confirm_extraction now id category db
handle get_object run_pipeline now (dismisses id reason) db = dismiss_extraction now id reason db
handle get_object run_pipeline now (reprocesses id) db =
    reprocess_extraction get_object run_pipeline now id db

-- The statuses that a row of `extraction_results` may have.
unfoldable pub is_review : ResultStatus → Bool
is_review ResultStatus.pending_review = true
is_review ResultStatus.confirmed = true
is_review ResultStatus.dismissed = true
is_review ResultStatus.extraction_failed = true
is_review _ = false

mapped_status :
    (amount : Option ℕ) (s : ResultStatus)
    → is_review s ≡ true
    → is_review (clamp_amount amount s).1 ≡ true
unfolding clamp_amount is_review
mapped_status none s h = h
mapped_status (some a) s h = ground arith

financial_status : (s : Status) → IsExtraction s → is_review (status_value s) ≡ true
unfolding status_value is_review
financial_status Status.pending_review k = refl
financial_status Status.extraction_failed k = refl
financial_status Status.non_financial k = absurd k
financial_status Status.forwarding_verification k = absurd k

applied_status :
    (row : ExtractionResult) (result : PipelineResult)
    → IsExtraction result.status
    → is_review (apply_result_fields row result).status ≡ true
unfolding apply_result_fields
applied_status row result k =
    mapped_status (field_value result.fields.amount) (status_value result.status)
      (financial_status result.status k)

-- The row that `check_and_flag` returns has its identifier and its status; it is written back.
flagged_table :
    (now : ℕ) (row : ExtractionResult) (rows : List ExtractionResult) (db : Db)
    → db.extractions ≡ save (λ (r : ExtractionResult). r.id) row rows
    → (check_and_flag now row db).1.extractions
      ≡ save (λ (r : ExtractionResult). r.id) (check_and_flag now row db).0 rows
unfolding check_and_flag add_match save_extraction
flagged_table now row rows db e = elim (Option-cases (earlier row db.extractions)) [
  | inl miss ↦ rw (miss, check_and_flag) e
  | inr (candidate, hit) ↦
      rw (hit, check_and_flag, e)
        (save-save (λ (r : ExtractionResult). r.id) row (record row { duplicate_confidence = 1000 })
          rows refl)
]

flagged_same :
    (now : ℕ) (row : ExtractionResult) (db : Db)
    → ((check_and_flag now row db).0.id ≡ row.id)
      × ((check_and_flag now row db).0.status ≡ row.status)
unfolding check_and_flag
flagged_same now row db = ground arith

-- What a request does to the table of extractions: nothing, or it writes one undecided row back,
-- under its identifier.
pub data Change (db db' : Db) : Type 0 where
  unchanged : db'.extractions ≡ db.extractions → Change db db'
  written :
      (row row' : ExtractionResult)
      → get_row row.id db ≡ some row
      → is_decided row.status ≡ false
      → row'.id ≡ row.id
      → is_review row'.status ≡ true
      → db'.extractions ≡ save (λ (r : ExtractionResult). r.id) row' db.extractions
      → Change db db'

confirm_row-Change :
    (s : ResultStatus) (now : ℕ) (category : Option Text) (row : ExtractionResult) (db : Db)
    → get_row row.id db ≡ some row
    → row.status ≡ s
    → Change db (confirm_row s now category row db).1
unfolding confirm_row decide save_extraction add_audit is_decided is_review
confirm_row-Change ResultStatus.confirmed now category row db h e = unchanged refl
confirm_row-Change ResultStatus.dismissed now category row db h e = unchanged refl
confirm_row-Change _ now category row db h e = written row _ h (rw e) refl refl refl

dismiss_row-Change :
    (s : ResultStatus) (now : ℕ) (reason : Option Text) (row : ExtractionResult) (db : Db)
    → get_row row.id db ≡ some row
    → row.status ≡ s
    → Change db (dismiss_row s now reason row db).1
unfolding dismiss_row decide save_extraction add_audit is_decided is_review
dismiss_row-Change ResultStatus.confirmed now reason row db h e = unchanged refl
dismiss_row-Change ResultStatus.dismissed now reason row db h e = unchanged refl
dismiss_row-Change _ now reason row db h e = written row _ h (rw e) refl refl refl

extractions-replace_snippets :
    (id : ℕ) (result : PipelineResult) (db : Db)
    → (replace_snippets id result db).extractions ≡ db.extractions
unfolding replace_snippets
extractions-replace_snippets id result db =
    ap (λ (d : Db). d.extractions) (add_snippets_frame id (snippets_of result.fields) _)

extractions-cleared :
    (now : ℕ) (email : ImportedEmail) (row : ExtractionResult) (result : PipelineResult) (db : Db)
    → (cleared now email row result db).extractions
      ≡ save (λ (r : ExtractionResult). r.id) (remapped row result) db.extractions
unfolding cleared save_email save_extraction add_audit
extractions-cleared now email row result db = refl

remapped_same :
    (row : ExtractionResult) (result : PipelineResult)
    → ((remapped row result).id ≡ row.id)
      × ((remapped row result).status ≡ (apply_result_fields row result).status)
unfolding remapped
remapped_same row result = ((apply_result_fields-IsMapped row result).id, refl)

rewrite-Change :
    (now : ℕ) (email : ImportedEmail) (row : ExtractionResult) (result : PipelineResult) (db : Db)
    → get_row row.id db ≡ some row
    → is_decided row.status ≡ false
    → IsExtraction result.status
    → Change db (rewrite now email row result db).1
unfolding rewrite
rewrite-Change now email row result db h open_row k =
    let row' = remapped row result in
    let db' = cleared now email row result db in
    let flagged = check_and_flag now row' db' in
    let same = flagged_same now row' db' in
    let mapped = remapped_same row result in
    written row flagged.0 h open_row (same.0 ∙ mapped.0)
      (rw (same.1, mapped.1) (applied_status row result k))
      (extractions-replace_snippets row.id result flagged.1
        ∙ flagged_table now row' db.extractions db' (extractions-cleared now email row result db))

rewrite_if_financial-Change :
    (s : Status) (now : ℕ) (email : ImportedEmail) (row : ExtractionResult)
    (result : PipelineResult) (db : Db)
    → get_row row.id db ≡ some row
    → is_decided row.status ≡ false
    → result.status ≡ s
    → Change db (rewrite_if_financial s now email row result db).1
unfolding rewrite_if_financial
rewrite_if_financial-Change Status.pending_review now email row result db h o e =
    rewrite-Change now email row result db h o (rw e tt)
rewrite_if_financial-Change Status.extraction_failed now email row result db h o e =
    rewrite-Change now email row result db h o (rw e tt)
rewrite_if_financial-Change _ now email row result db h o e = unchanged refl

refetched-Change :
    (f : Fetch) (run_pipeline : Text → Option PipelineResult) (now : ℕ) (email : ImportedEmail)
    (row : ExtractionResult) (db : Db)
    → get_row row.id db ≡ some row
    → is_decided row.status ≡ false
    → Change db (refetched f run_pipeline now email row db).1
unfolding refetched
refetched-Change failure run_pipeline now email row db h o = unchanged refl
refetched-Change object_missing run_pipeline now email row db h o = unchanged refl
refetched-Change (found raw) run_pipeline now email row db h o =
    elim (Option-cases (run_pipeline raw)) [
      | inl failed ↦ rw (failed, refetched) (unchanged refl)
      | inr (result, done) ↦
          rw (done, refetched)
            (rewrite_if_financial-Change result.status now email row result db h o refl)
    ]

reprocess_row-Change :
    (get_object : Text → Fetch) (run_pipeline : Text → Option PipelineResult) (now : ℕ)
    (row : ExtractionResult) (db : Db)
    → get_row row.id db ≡ some row
    → Change db (reprocess_row get_object run_pipeline now row db).1
unfolding reprocess_row
reprocess_row-Change get_object run_pipeline now row db h =
    elim (Bool-cases (is_decided row.status)) [
      | inl d ↦ rw (d, reprocess_row) (unchanged refl)
      | inr o ↦
          elim (Option-cases
            (raw_key (first (λ (e : ImportedEmail). e.id == row.email_id) db.emails))) [
              | inl gone ↦ rw (o, gone, reprocess_row) (unchanged refl)
              | inr ((email, key), there) ↦
                  rw (o, there, reprocess_row)
                    (refetched-Change (get_object key) run_pipeline now email row db h o)
            ]
    ]

own_row :
    (id : ℕ) (db : Db) (row : ExtractionResult)
    → get_row id db ≡ some row
    → get_row row.id db ≡ some row
unfolding get_row
own_row id db row h =
    subst (λ (i : ℕ). get_row i db ≡ some row)
      (sym (
        (==_iff row.id id).0
          (first_sound (λ (r : ExtractionResult). r.id == id) db.extractions row h)))
      h

-- Every request leaves the table of extractions alone, or writes one undecided row back.
pub handle-Change :
    (get_object : Text → Fetch) (run_pipeline : Text → Option PipelineResult) (now : ℕ)
    (q : ReviewRequest) (db : Db)
    → Change db (handle get_object run_pipeline now q db).1
unfolding handle
handle-Change get_object run_pipeline now (confirms id category) db =
    elim (Option-cases (get_row id db)) [
      | inl gone ↦ rw (gone, confirm_extraction) (unchanged refl)
      | inr (row, e) ↦
          rw (e, confirm_extraction)
            (confirm_row-Change row.status now category row db (own_row id db row e) refl)
    ]
handle-Change get_object run_pipeline now (dismisses id reason) db =
    elim (Option-cases (get_row id db)) [
      | inl gone ↦ rw (gone, dismiss_extraction) (unchanged refl)
      | inr (row, e) ↦
          rw (e, dismiss_extraction)
            (dismiss_row-Change row.status now reason row db (own_row id db row e) refl)
    ]
handle-Change get_object run_pipeline now (reprocesses id) db =
    elim (Option-cases (get_row id db)) [
      | inl gone ↦ rw (gone, reprocess_extraction) (unchanged refl)
      | inr (row, e) ↦
          rw (e, reprocess_extraction)
            (reprocess_row-Change get_object run_pipeline now row db (own_row id db row e))
    ]
