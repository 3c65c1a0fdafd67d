-- ===== src/Api/Extractions/Review.antt =====
-- api/v1/extractions.py: what no sequence of requests can do to the rows under review.
use mathlib.Core.Bool.{false≢true}
use mathlib.Core.Option.{some-injective}
use email_budget_api.Common.{
  ℕ, ◌≡◌, sym, ap, subst, ◌∙◌, true, false, Option, some, List, [], ◌∷◌, arith, first-save_ne, All,
  All-save, Bool-cases, inl, inr, ==_iff, ◌==◌,
}
use email_budget_api.Common.Text.{Text}
use email_budget_api.Extraction.Models.{PipelineResult}
use email_budget_api.Models.Extraction.{ExtractionResult}
use email_budget_api.Models.Db.{Db}
use email_budget_api.Api.Internal.{Fetch}
use email_budget_api.Api.Extractions.Defs.{get_row, is_decided}
use email_budget_api.Api.Extractions.Lifecycle.{
  ReviewRequest, handle, Change, unchanged, written, handle-Change, is_review,
}

-- A row that a query finds decided is not the undecided row that is written.
decided_ne :
    (id : ℕ) (row old : ExtractionResult) (db : Db)
    → get_row old.id db ≡ some old
    → is_decided old.status ≡ false
    → get_row id db ≡ some row
    → is_decided row.status ≡ true
    → (old.id == id) ≡ true
    → ⊥
decided_ne id row old db h' o h d hit =
    let here = subst (λ (i : ℕ). get_row i db ≡ some old) ((==_iff old.id id).0 hit) h' in
    let same = some-injective _ _ (sym here ∙ h) in
    false≢true (sym o ∙ ap (λ (r : ExtractionResult). is_decided r.status) same ∙ d)

Change-final :
    (id : ℕ) (row : ExtractionResult) {db db' : Db}
    → Change db db'
    → get_row id db ≡ some row
    → is_decided row.status ≡ true
    → get_row id db' ≡ some row
unfolding get_row
Change-final id row (unchanged e) h d = rw e h
Change-final id row {db} (written old new h' o same _ e) h d = elim (Bool-cases (old.id == id)) [
  | inl hit ↦ absurd (decided_ne id row old db h' o h d hit)
  | inr miss ↦
      rw e (first-save_ne (λ (r : ExtractionResult). r.id) id new db.extractions (ground arith) ∙ h)
]

-- The requests of a history, each at its time.
pub run_requests :
    (Text → Fetch) → (Text → Option PipelineResult) → List (ℕ × ReviewRequest) → Db → Db
run_requests get_object run_pipeline [] db = db
run_requests get_object run_pipeline ((now, q) ∷ rest) db =
    run_requests get_object run_pipeline rest (handle get_object run_pipeline now q db).1

module _ (get_object : Text → Fetch) (run_pipeline : Text → Option PipelineResult) where
  -- A user's decision is final: once a row is confirmed or dismissed, no sequence of requests to
  -- confirm, dismiss or reprocess any rows changes anything of it.
  pub decision_is_final :
      (history : List (ℕ × ReviewRequest)) (db : Db) (id : ℕ) (row : ExtractionResult)
      → get_row id db ≡ some row
      → is_decided row.status ≡ true
      → get_row id (run_requests get_object run_pipeline history db) ≡ some row
  unfolding run_requests
  decision_is_final [] db id row h d = h
  decision_is_final ((now, q) ∷ rest) db id row h d =
      decision_is_final rest (handle get_object run_pipeline now q db).1 id row
        (Change-final id row (handle-Change get_object run_pipeline now q db) h d) d

  Change-vocabulary :
      {db db' : Db}
      → Change db db'
      → All (λ (r : ExtractionResult). is_review r.status ≡ true) db.extractions
      → All (λ (r : ExtractionResult). is_review r.status ≡ true) db'.extractions
  Change-vocabulary (unchanged e) h = rw e h
  Change-vocabulary (written old new _ _ _ good e) h =
      rw e (All-save (λ (r : ExtractionResult). r.id) _ new _ good h)

  -- The extraction rows keep to the statuses of a review, whatever the pipeline makes of a raw
  -- email that is reprocessed: pending, confirmed, dismissed or failed, and no status of an email
  -- that is not financial.
  pub statuses_stay_in_vocabulary :
      (history : List (ℕ × ReviewRequest)) (db : Db)
      → All (λ (r : ExtractionResult). is_review r.status ≡ true) db.extractions
      → All
          (λ (r : ExtractionResult). is_review r.status ≡ true)
          (run_requests get_object run_pipeline history db).extractions
  unfolding run_requests
  statuses_stay_in_vocabulary [] db h = h
  statuses_stay_in_vocabulary ((now, q) ∷ rest) db h =
      statuses_stay_in_vocabulary rest (handle get_object run_pipeline now q db).1
        (Change-vocabulary (handle-Change get_object run_pipeline now q db) h)
