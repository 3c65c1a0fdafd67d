-- ===== src/Tests/Closing.antt =====
-- api/internal.py: mail for a user whose deletion is scheduled.
use email_budget_api.Common.{◌≡◌, refl, first}
use email_budget_api.Common.Text.{text_eq, lower, lower_code}
use email_budget_api.Services.Privacy.{schedule_user_deletion, owned_by}
use email_budget_api.Api.Internal.{
  World, email_received, acked, dropped, unknown_or_inactive_alias, delete_orphan, clamped_key,
}
use email_budget_api.Api.Internal.Closed.{closed_user_is_dropped}
use email_budget_api.Tests.Samples.{env, payload, world, user, alias}

abbrev closed : World
closed = record world { db = (schedule_user_deletion 500 30 user world.db).1 }

closed_user_is_dropped_example :
    email_received env payload closed
    ≡ (acked (dropped unknown_or_inactive_alias), delete_orphan (clamped_key payload) closed)
unfolding first text_eq lower lower_code owned_by
closed_user_is_dropped_example =
    closed_user_is_dropped env payload world 500 30 user alias refl refl refl
