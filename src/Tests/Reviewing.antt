-- ===== src/Tests/Reviewing.antt =====
-- api/v1/extractions.py: a user confirms a row and then tries everything else on it.
use email_budget_api.Common.{ℕ, ◌≡◌, [], ◌∷◌, true, refl, none, some, List, All, first}
use email_budget_api.Common.Text.{codes}
use email_budget_api.Models.Extraction.{ExtractionResult}
use email_budget_api.Models.Db.{Db}
use email_budget_api.Api.Extractions.{get_row, is_decided}
use email_budget_api.Api.Extractions.Lifecycle.{
  ReviewRequest, confirms, dismisses, reprocesses, is_review,
}
use email_budget_api.Api.Extractions.Review.{
  run_requests, decision_is_final, statuses_stay_in_vocabulary,
}
use email_budget_api.Tests.Samples.{imported, confirmed_row, row, env}

abbrev decided : Db
decided = record imported { extractions = confirmed_row ∷ [] }

abbrev undecided : Db
undecided = record imported { extractions = row ∷ [] }

abbrev history : List (ℕ × ReviewRequest)
history = (1, confirms 3 (some (codes "food"))) ∷ (2, dismisses 3 none) ∷ (3, reprocesses 3) ∷ []

decision_is_final_example :
    get_row 3 (run_requests env.get_object env.run_pipeline history decided) ≡ some confirmed_row
unfolding get_row is_decided first
decision_is_final_example =
    decision_is_final env.get_object env.run_pipeline history decided 3 confirmed_row refl refl

statuses_stay_in_vocabulary_example :
    All
      (λ (r : ExtractionResult). is_review r.status ≡ true)
      (run_requests env.get_object env.run_pipeline history undecided).extractions
unfolding is_review
statuses_stay_in_vocabulary_example =
    statuses_stay_in_vocabulary env.get_object env.run_pipeline history undecided (refl, tt)
