-- ===== src/Tests/Feeding.antt =====
-- api/v1/feedback.py at a first confirmation, and api/v1/aliases.py at a first alias.
use email_budget_api.Common.{ℕ, ◌≡◌, refl, true, none, first}
use email_budget_api.Common.Text.{Text, codes, text_eq, lower, lower_code}
use email_budget_api.Models.Db.{empty}
use email_budget_api.Api.Internal.{check_alias, active, deactivated}
use email_budget_api.Api.Aliases.{
  AliasCreate, AliasOut, create_alias, deactivate_alias, find_alias, find_hash,
}
use email_budget_api.Api.Aliases.Entrance.{created_alias_is_active, deactivated_alias_is_refused}
use email_budget_api.Api.Feedback.{CategoryFeedbackBody, category_feedback}
use email_budget_api.Api.Feedback.Learning.{IsRecorded, category_feedback-IsRecorded}
use email_budget_api.Tests.Samples.{registered, alias, user}

abbrev feedback : CategoryFeedbackBody
feedback = record {
  extraction_id = none;
  merchant_normalized = codes "Shop";
  category_confirmed = codes "food";
}

category_feedback-IsRecorded_example :
    IsRecorded feedback registered
      (category_feedback 5 feedback registered).0
      (category_feedback 5 feedback registered).1
category_feedback-IsRecorded_example = category_feedback-IsRecorded 5 feedback registered

abbrev token : ℕ → Text
token left = codes "Xy"

abbrev wanted : AliasCreate
wanted = record { external_user_id = user; label = none }

abbrev created : AliasOut
created = record {
  id = 0;
  alias_hash = codes "xy";
  email_address = codes "xy@m.io";
  external_user_id = user;
  label = none;
  is_active = true;
  emails_received = 0;
  created_at = 5;
}

created_alias_is_active_example :
    check_alias (codes "XY") (create_alias (codes "m.io") token 5 7 wanted empty).1 ≡ active
unfolding create_alias first lower lower_code
created_alias_is_active_example =
    created_alias_is_active (codes "m.io") token 5 7 wanted empty created (codes "XY") refl refl

deactivated_alias_is_refused_example :
    check_alias (codes "AB") (deactivate_alias 1 registered).1 ≡ deactivated
unfolding find_alias find_hash first text_eq lower lower_code
deactivated_alias_is_refused_example =
    deactivated_alias_is_refused 1 alias registered (codes "AB") refl refl refl
