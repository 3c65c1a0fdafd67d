-- ===== src/Tests/Persisting.antt =====
-- services/duplicate_service.py and extraction_service.py at a purchase.
use email_budget_api.Common.{◌≡◌, ◌++◌, ◌∷◌, [], false, refl, some, All, head?, order_by, where_}
use email_budget_api.Common.Text.{codes, text_eq}
use email_budget_api.Models.Extraction.{ExtractionResult, pending_review, exact_fingerprint}
use email_budget_api.Models.Db.{Db}
use email_budget_api.Services.Duplicates.{check_and_flag, is_candidate, is_pending}
use email_budget_api.Services.Duplicates.Laws.{IsEarliest, flag_has_evidence, no_flag_no_candidate}
use email_budget_api.Services.Persist.{apply_result_fields, persist_result}
use email_budget_api.Services.Persist.Outcome.{IsMapped, apply_result_fields-IsMapped}
use email_budget_api.Api.Extractions.Announced.{IsAnnounced, event_carries_detail}
use email_budget_api.Tests.Samples.{row, confirmed_row, result, email, user, imported}

-- An earlier purchase with the fingerprint is confirmed already.
abbrev twin : ExtractionResult
twin = record confirmed_row { id = 1; created_at = 10 }

abbrev twins : Db
twins = record imported { extractions = twin ∷ row ∷ [] }

abbrev single : Db
single = record imported { extractions = row ∷ [] }

flag_has_evidence_example :
    (found : ExtractionResult) × IsEarliest row found twins.extractions
    × (row.status ≡ pending_review)
    × ((check_and_flag 100 row twins).0.duplicate_confidence ≡ 1000)
    × ((check_and_flag 100 row twins).1.duplicate_matches
        ≡ twins.duplicate_matches
          ++ record {
            id = twins.next_id;
            extraction_id = row.id;
            candidate_id = found.id;
            candidate_type = exact_fingerprint;
            duplicate_confidence = 1000;
            created_at = 100;
          }
            ∷ [])
unfolding check_and_flag is_pending head? order_by where_ is_candidate text_eq
flag_has_evidence_example = flag_has_evidence 100 row twins refl

no_flag_no_candidate_example :
    (check_and_flag 100 row single ≡ (row, single, false))
    × All (λ (r : ExtractionResult). is_candidate (codes "f1") row r ≡ false) single.extractions
unfolding check_and_flag is_pending head? order_by where_ is_candidate text_eq
no_flag_no_candidate_example = no_flag_no_candidate 100 row single (codes "f1") refl refl refl

apply_result_fields-IsMapped_example : IsMapped row result (apply_result_fields row result)
apply_result_fields-IsMapped_example = apply_result_fields-IsMapped row result

event_carries_detail_example :
    IsAnnounced 100
      (some 7)
      imported
      (persist_result 100 email user result (some 7) imported).1
      (persist_result 100 email user result (some 7) imported).2
event_carries_detail_example = event_carries_detail 100 email user result (some 7) imported tt tt
