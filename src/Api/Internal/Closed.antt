-- ===== src/Api/Internal/Closed.antt =====
-- api/internal.py after services/privacy_service.py: an alias whose user has asked for deletion.
use email_budget_api.Common.{
  ℕ, ◌≡◌, refl, true, false, none, some, List, first, update_where, first-update_where,
  first-update_where-none, ◌+◌, ◌*◌,
}
use email_budget_api.Common.Text.{Text, text_eq, lower}
use email_budget_api.Models.Ops.{Alias, ImportedEmail}
use email_budget_api.Services.Privacy.{
  schedule_user_deletion, owned_by, hashes_of, is_schedulable, seconds_per_day, add_audit,
}
use email_budget_api.Api.Internal.Defs.{
  Env, World, EmailReceivedPayload, acked, dropped, unknown_or_inactive_alias, clamped_key, has_key,
  active_alias, email_received, delete_orphan,
}

scheduled_key :
    (key : Text) (hashes : List Text) (deadline : ℕ) (emails : List ImportedEmail)
    → first (has_key key) emails ≡ none
    → first (has_key key) (
        update_where
          (is_schedulable hashes)
          (λ e. record e { pending_deletion_at = some deadline })
          emails)
      ≡ none
unfolding has_key
scheduled_key key hashes deadline emails h =
    first-update_where-none (has_key key) (is_schedulable hashes)
      (λ e. record e { pending_deletion_at = some deadline }) (λ x. refl) emails h

deactivated :
    (alias_hash user : Text) (aliases : List Alias) (a : Alias)
    → first (λ (a : Alias). text_eq a.alias_hash alias_hash) aliases ≡ some a
    → owned_by user a ≡ true
    → active_alias alias_hash
        (update_where (owned_by user) (λ a. record a { is_active = false }) aliases)
      ≡ none
unfolding active_alias
deactivated alias_hash user aliases a h own =
    let found =
      first-update_where (λ (a : Alias). text_eq a.alias_hash alias_hash) (owned_by user)
        (λ a. record a { is_active = false }) (λ x. refl) aliases a h in
    rw (found, own, active_alias)

-- Once a user's deletion is scheduled, mail to the user's aliases is not stored any more: a
-- delivery whose object no row names is acknowledged as dropped, and changes nothing but to try
-- the deletion of its object.
pub closed_user_is_dropped :
    (env : Env) (payload : EmailReceivedPayload) (w : World) (now grace : ℕ) (user : Text)
    (a : Alias)
    → first (λ (a : Alias). text_eq a.alias_hash (lower payload.alias_hash)) w.aliases ≡ some a
    → owned_by user a ≡ true
    → first (has_key (clamped_key payload)) w.emails ≡ none
    → let w' : World = record w { db = (schedule_user_deletion now grace user w.db).1 } in
      email_received env payload w'
      ≡ (acked (dropped unknown_or_inactive_alias), delete_orphan (clamped_key payload) w')
unfolding email_received schedule_user_deletion add_audit
closed_user_is_dropped env payload w now grace user a h own new = rw (
  scheduled_key (clamped_key payload) (hashes_of user w.aliases) (now + grace * seconds_per_day)
      w.emails new,
  deactivated (lower payload.alias_hash) user w.aliases a h own,
  email_received,
)
