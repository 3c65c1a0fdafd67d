-- ===== src/Services/Privacy/Defs.antt =====
-- services/privacy_service.py. What `r2_client.delete_object` does and the random order of a query
-- are parameters, given for each batch of a sweep.
use email_budget_api.Common.{
  ℕ, zero, suc, ◌+◌, ◌-◌, ◌*◌, Bool, false, not, ◌&&◌, Option, none, some, List, [], ◌∷◌, ◌++◌, map,
  ◌==◌, leb, ltb, if◌then◌else◌, is_some, any, take, where_, count, update_where,
}
use email_budget_api.Common.Text.{Text, text_eq}
use email_budget_api.Models.Ops.{Alias, ImportedEmail}
use email_budget_api.Models.Extraction.{
  Action, raw_email_purged, user_data_deletion_requested, AuditStatus, of_email, scheduled,
}
use email_budget_api.Models.Db.{Db}
use email_budget_api.Services.Persist.{save_email}

abbrev pub purge_batch_size : ℕ
purge_batch_size = 100

abbrev pub max_drain_batches : ℕ
max_drain_batches = 50

abbrev pub seconds_per_day : ℕ
seconds_per_day = 86400

unfoldable pub add_audit : ℕ → Option ℕ → Action → Option AuditStatus → Option AuditStatus → Db → Db
add_audit now email_id action previous_status new_status db = record db {
  audit_logs =
      db.audit_logs
      ++ record {
        id = db.next_id;
        email_id = email_id;
        action = action;
        previous_status = previous_status;
        new_status = new_status;
        timestamp = now;
      }
        ∷ [];
  next_id = db.next_id + 1;
}

-- The WHERE clause of the UPDATE that schedules.
unfoldable pub is_schedulable : List Text → ImportedEmail → Bool
is_schedulable alias_hashes e =
    any (λ h. text_eq e.alias_hash h) alias_hashes
    && (is_some e.r2_key && not (is_some e.pending_deletion_at))

unfoldable pub owned_by : Text → Alias → Bool
owned_by external_user_id a = text_eq a.external_user_id external_user_id

unfoldable pub hashes_of : Text → List Alias → List Text
unfolding owned_by
hashes_of external_user_id aliases =
    map (λ a. a.alias_hash) (where_ (owned_by external_user_id) aliases)

-- `{"aliases_deactivated": …, "emails_scheduled_for_deletion": …}`
pub record Scheduled : Type 0 where
  pub aliases_deactivated : ℕ
  pub emails_scheduled_for_deletion : ℕ

-- `schedule_user_deletion`. An UPDATE over no hashes, which the source skips, changes no row.
unfoldable pub schedule_user_deletion : ℕ → ℕ → Text → Db → Scheduled × Db
unfolding is_schedulable hashes_of add_audit
schedule_user_deletion now grace_days external_user_id db =
    let mine = owned_by external_user_id in
    let hashes = hashes_of external_user_id db.aliases in
    let deadline = now + grace_days * seconds_per_day in
    (
      record {
        aliases_deactivated = count (λ a. mine a && a.is_active) db.aliases;
        emails_scheduled_for_deletion = count (is_schedulable hashes) db.emails;
      },
      add_audit now none user_data_deletion_requested none (some scheduled) (record db {
        aliases = update_where mine (λ a. record a { is_active = false }) db.aliases;
        emails =
            update_where (is_schedulable hashes)
              (λ e. record e { pending_deletion_at = some deadline }) db.emails;
      }),
    )

-- What the deletion of an object does: it is deleted, it is missing, or another exception.
pub data Deletion : Type 0 where
  deleted missing unavailable : Deletion

-- The UPDATE and the audit entry for an email whose object is gone.
unfoldable pub purge_email : ℕ → ImportedEmail → Db → Db
unfolding add_audit save_email
purge_email now email db =
    save_email (record email { r2_key = none })
      (add_audit now (some email.id) raw_email_purged (some (of_email email.status))
        (some (of_email email.status)) db)

-- `delete_object(email.r2_key)`; every row of a batch has a key.
unfoldable pub deletion_of : (Text → Deletion) → ImportedEmail → Deletion
deletion_of delete email = elim email.r2_key [ none ↦ unavailable | some key ↦ delete key ]

-- One round of the loop of `_purge_batch`, by what the deletion did: whether it counts.
unfoldable pub purge_one : Deletion → ℕ → ImportedEmail → Db → ℕ × Db
unfolding purge_email
purge_one unavailable now email db = (0, db)
purge_one _ now email db = (1, purge_email now email db)

-- `_purge_batch`: the number of emails purged, and the database.
unfoldable pub purge_batch : (Text → Deletion) → ℕ → List ImportedEmail → Db → ℕ × Db
unfolding deletion_of purge_one
purge_batch delete now [] db = (0, db)
purge_batch delete now (email ∷ rows) db =
    let (one, db') = purge_one (deletion_of delete email) now email db in
    let (rest, db'') = purge_batch delete now rows db' in (one + rest, db'')

-- The outside world of one sweep, batch by batch: the order of the rows and the deletions.
pub record Sweep : Type 0 where
  pub order : ℕ → List ImportedEmail → List ImportedEmail
  pub delete : ℕ → Text → Deletion

-- The two tests that end `_drain`, given the batch, what purging it did and what is left to do.
unfoldable pub after_batch : List ImportedEmail → Db → ℕ × Db → ℕ × Db → ℕ × Db
after_batch [] db (purged, db') (rest, db'') = (0, db)
after_batch (_ ∷ _) db (purged, db') (rest, db'') =
    if purged == 0 then (0, db') else (purged + rest, db'')

-- `_drain`, with the rounds that are left.
unfoldable pub drain : Sweep → ℕ → (ImportedEmail → Bool) → ℕ → Db → ℕ × Db
unfolding purge_batch after_batch
drain sweep now query zero db = (0, db)
drain sweep now query (suc rounds) db =
    let rows = take purge_batch_size (sweep.order rounds (where_ query db.emails)) in
    let batch = purge_batch (sweep.delete rounds) now rows db in
    after_batch rows db batch (drain sweep now query rounds batch.1)

-- The WHERE clause of `purge_due`.
unfoldable pub is_due : ℕ → ImportedEmail → Bool
is_due now e =
    elim e.pending_deletion_at [ none ↦ false | some deadline ↦ leb deadline now ]
    && is_some e.r2_key

unfoldable pub purge_due : Sweep → ℕ → Db → ℕ × Db
unfolding drain is_due
purge_due sweep now db = drain sweep now (is_due now) max_drain_batches db

-- The WHERE clause of `retention_sweep`. A cutoff before the epoch selects nothing.
unfoldable pub is_expired : ℕ → ImportedEmail → Bool
is_expired cutoff e =
    elim e.received_at [ none ↦ false | some received ↦ ltb received cutoff ] && is_some e.r2_key

unfoldable pub retention_sweep : Sweep → ℕ → ℕ → Db → ℕ × Db
unfolding drain is_expired
retention_sweep sweep now retention_days db =
    drain sweep now (is_expired (now - retention_days * seconds_per_day)) max_drain_batches db
