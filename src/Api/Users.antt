-- ===== src/Api/Users.antt =====
-- api/v1/users.py.
use email_budget_api.Common.{ℕ}
use email_budget_api.Common.Text.{Text}
use email_budget_api.Models.Db.{Db}
use email_budget_api.Services.Privacy.{Scheduled, schedule_user_deletion}

-- DELETE /{external_user_id}/data, with the setting deletion_grace_days
unfoldable pub delete_user_data : ℕ → ℕ → Text → Db → Scheduled × Db
unfolding schedule_user_deletion
delete_user_data now deletion_grace_days external_user_id db =
    schedule_user_deletion now deletion_grace_days external_user_id db

-- GET /{external_user_id}/data-export: the status of its only answer
unfoldable pub export_user_data : Text → ℕ
export_user_data external_user_id = 501
