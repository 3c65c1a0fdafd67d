-- ===== src/Services/Duplicates/Defs.antt =====
-- services/duplicate_service.py. The mutated row object and its table row are kept equal by
-- `save_extraction`.
use email_budget_api.Common.{
  ℕ, ◌+◌, Bool, true, false, not, ◌&&◌, Option, none, some, List, [], ◌∷◌, ◌++◌, ◌==◌, head?,
  where_, order_by, update_where,
}
use email_budget_api.Common.Text.{Text, text_eq}
use email_budget_api.Models.Extraction.{
  ResultStatus, pending_review, confirmed, ExtractionResult, exact_fingerprint,
}
use email_budget_api.Models.Db.{Db}

-- `status == "pending_review"`
unfoldable pub is_pending : ResultStatus → Bool
is_pending pending_review = true
is_pending _ = false

-- `status.in_(("pending_review", "confirmed"))`
unfoldable pub is_live : ResultStatus → Bool
is_live pending_review = true
is_live confirmed = true
is_live _ = false

-- `column == value`, where NULL is equal to nothing.
unfoldable pub column_eq : Option Text → Text → Bool
column_eq none value = false
column_eq (some column) value = text_eq column value

-- The WHERE clause of the query for an earlier row.
unfoldable pub is_candidate : Text → ExtractionResult → ExtractionResult → Bool
unfolding column_eq is_live
is_candidate fingerprint row other =
    column_eq other.fingerprint fingerprint
    && (text_eq other.external_user_id row.external_user_id
        && (not (other.id == row.id) && is_live other.status))

-- The row that the query returns, after the two guards.
unfoldable pub earlier : ExtractionResult → List ExtractionResult → Option ExtractionResult
earlier row rows = elim row.fingerprint [
  | none ↦ none
  | some fingerprint ↦ elim (is_pending row.status) [
    | false ↦ none
    | true ↦ head? (order_by (λ r. r.created_at) (where_ (is_candidate fingerprint row) rows))
  ]
]

-- The session writes a changed row object back.
unfoldable pub save_extraction : ExtractionResult → Db → Db
save_extraction row db = record db {
  extractions = update_where (λ r. r.id == row.id) (λ _. row) db.extractions;
}

unfoldable pub add_match : ℕ → ℕ → ℕ → Db → Db
add_match now extraction_id candidate_id db = record db {
  duplicate_matches =
      db.duplicate_matches
      ++ record {
        id = db.next_id;
        extraction_id = extraction_id;
        candidate_id = candidate_id;
        candidate_type = exact_fingerprint;
        duplicate_confidence = 1000;
        created_at = now;
      }
        ∷ [];
  next_id = db.next_id + 1;
}

-- The row and the database after the call, and its result.
unfoldable pub check_and_flag : ℕ → ExtractionResult → Db → ExtractionResult × Db × Bool
unfolding earlier
check_and_flag now row db = elim (earlier row db.extractions) [
  | none ↦ (row, db, false)
  | some found ↦
      let flagged : ExtractionResult = record row { duplicate_confidence = 1000 } in
      (flagged, add_match now row.id found.id (save_extraction flagged db), true)
]
