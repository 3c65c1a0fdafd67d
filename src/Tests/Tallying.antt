-- ===== src/Tests/Tallying.antt =====
-- api/v1/feedback.py, GET /stats/extraction: a user with one row.
use email_budget_api.Common.{[], ◌∷◌}
use email_budget_api.Models.Db.{Db}
use email_budget_api.Api.Statistics.{extraction_stats}
use email_budget_api.Api.Statistics.Tallies.{IsTallied, extraction_stats-IsTallied}
use email_budget_api.Tests.Samples.{imported, row, confirmed_row, user}

abbrev two_rows : Db
two_rows = record imported { extractions = row ∷ confirmed_row ∷ [] }

extraction_stats-IsTallied_example :
    IsTallied
      (λ ok total. ok)
      two_rows.emails
      two_rows.extractions
      user
      (extraction_stats (λ ok total. ok) user two_rows)
extraction_stats-IsTallied_example = extraction_stats-IsTallied (λ ok total. ok) user two_rows
