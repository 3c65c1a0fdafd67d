-- ===== src/Tests/Listing.antt =====
-- api/v1/extractions.py, GET "", with two extractions of a user.
use email_budget_api.Common.{◌+◌, none, [], ◌∷◌}
use email_budget_api.Models.Db.{Db}
use email_budget_api.Api.Extractions.Listing.{ListQuery, list_extractions}
use email_budget_api.Api.Extractions.Listing.Pages.{IsAnswer, list_extractions-IsAnswer}
use email_budget_api.Tests.Samples.{row, user, imported}

abbrev listed : Db
listed = record imported {
  extractions = row ∷ record row { id = 5; created_at = row.created_at + 1 } ∷ [];
}

abbrev query : ListQuery
query = record {
  external_user_id = user;
  status = none;
  date_from = none;
  date_to = none;
  limit = 1;
  offset = 1;
}

list_extractions-IsAnswer_example :
    IsAnswer query listed.extractions (list_extractions query listed)
list_extractions-IsAnswer_example = list_extractions-IsAnswer query listed
