-- ===== src/Tests/Deleting.antt =====
-- services/privacy_service.py: one email, scheduled and then swept.
use email_budget_api.Common.{
  ℕ, ◌≤◌, ◌≢◌, [], ◌∷◌, All-self, map, some, count, arith, ◌+◌, length, ◌≡◌, true, false, refl, All,
  is_some, first,
}
use email_budget_api.Common.Text.{Text}
use email_budget_api.Models.Ops.{Alias, ImportedEmail}
use email_budget_api.Services.Privacy.{
  schedule_user_deletion, Sweep, deleted, purge_due, retention_sweep, is_due, is_expired,
  unavailable,
}
use email_budget_api.Models.Db.{Db}
use email_budget_api.Services.Privacy.Drained.{IsShuffle, purge_due_drains}
use email_budget_api.Services.Privacy.Audit.{purges_are_logged}
use email_budget_api.Services.Privacy.Schedule.{
  schedule_is_idempotent, schedule_covers_user, alias_columns, email_columns,
}
use email_budget_api.Services.Privacy.Purge.{
  KeepsRows, IsOnly, purge_due_spares, retention_sweep_spares,
}
use email_budget_api.Tests.Samples.{user, imported, email}

schedule_is_idempotent_example :
    let db' = (schedule_user_deletion 100 30 user imported).1 in
    let again = schedule_user_deletion 200 30 user db' in
    (again.0 ≡ record { aliases_deactivated = 0; emails_scheduled_for_deletion = 0 })
    × (again.1.aliases ≡ db'.aliases)
    × (again.1.emails ≡ db'.emails)
schedule_is_idempotent_example = schedule_is_idempotent 100 200 30 30 user imported

schedule_covers_user_example :
    let db' = (schedule_user_deletion 100 30 user imported).1 in
    All (λ (a : Alias). a.external_user_id ≡ user → a.is_active ≡ false) db'.aliases
    × All
        (λ (a : Alias).
          a.external_user_id ≡ user
          → All
              (λ (e : ImportedEmail).
                e.alias_hash ≡ a.alias_hash
                → is_some e.r2_key ≡ true
                → is_some e.pending_deletion_at ≡ true)
              db'.emails)
        imported.aliases
    × (map alias_columns db'.aliases ≡ map alias_columns imported.aliases)
    × (map email_columns db'.emails ≡ map email_columns imported.emails)
schedule_covers_user_example = schedule_covers_user 100 30 user imported

abbrev sweep : Sweep
sweep = record { order = λ round rows. rows; delete = λ round key. deleted }

sweep-KeepsRows : KeepsRows sweep
sweep-KeepsRows round P rows h = h

email-IsOnly : IsOnly 2 email imported
unfolding first
email-IsOnly = record { found = refl; only = (λ _. refl, tt) }

purge_due_spares_example : IsOnly 2 email (purge_due sweep 1000 imported).1
unfolding is_due
purge_due_spares_example =
    purge_due_spares sweep 1000 2 email imported sweep-KeepsRows refl email-IsOnly

retention_sweep_spares_example : IsOnly 2 email (retention_sweep sweep 1000 90 imported).1
unfolding is_expired
retention_sweep_spares_example =
    retention_sweep_spares sweep 1000 90 2 email imported sweep-KeepsRows refl email-IsOnly

purges_are_logged_example :
    let due = purge_due sweep 1000 imported in
    let old = retention_sweep sweep 1000 90 imported in
    (length due.1.audit_logs ≡ due.0 + length imported.audit_logs)
    × (length old.1.audit_logs ≡ old.0 + length imported.audit_logs)
purges_are_logged_example = purges_are_logged sweep 1000 90 imported

sweep-IsShuffle : IsShuffle sweep
sweep-IsShuffle = record {
  rows = λ round xs. All-self xs;
  size = λ round xs. refl;
  distinct = λ round xs h. h;
}

sweep_answers : (round : ℕ) (key : Text) → sweep.delete round key ≢ unavailable
sweep_answers round key = λ e. cc

-- The deadline of the email has passed.
abbrev overdue : Db
overdue = record imported { emails = record email { pending_deletion_at = some 500 } ∷ [] }

few_due : count (is_due 1000) overdue.emails ≤ 5000
unfolding count is_due
few_due = omega arith

purge_due_drains_example :
    (count (is_due 1000) (purge_due sweep 1000 overdue).1.emails ≡ 0)
    × ((purge_due sweep 1000 overdue).0 ≡ count (is_due 1000) overdue.emails)
purge_due_drains_example =
    purge_due_drains sweep 1000 overdue sweep-IsShuffle sweep_answers (tt, tt) few_due
