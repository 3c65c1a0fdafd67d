-- ===== src/Services/Privacy/Audit.antt =====
-- services/privacy_service.py: every purge is on record.
use email_budget_api.Common.{
  ℕ, zero, suc, ◌+◌, ◌-◌, ◌*◌, ◌≡◌, Bool, Bool-cases, inl, inr, List, [], ◌∷◌, arith, ◌==◌, length,
  length-append, take, where_,
}
use email_budget_api.Common.Text.{Text}
use email_budget_api.Models.Ops.{ImportedEmail}
use email_budget_api.Models.Db.{Db}
use email_budget_api.Services.Persist.{save_email}
use email_budget_api.Services.Privacy.Defs.{
  Deletion, deleted, missing, unavailable, Sweep, purge_one, purge_email, purge_batch, deletion_of,
  drain, after_batch, purge_batch_size, max_drain_batches, purge_due, retention_sweep, is_due,
  is_expired, add_audit, seconds_per_day,
}

-- The audit log of the second database has `n` entries more.
abbrev pub Logs : ℕ → Db → Db → Type 0
Logs n db db' = length db'.audit_logs ≡ n + length db.audit_logs

Logs-purge_email :
    (now : ℕ) (email : ImportedEmail) (db : Db) → Logs 1 db (purge_email now email db)
unfolding purge_email save_email add_audit
Logs-purge_email now email db = omega (arith, length-append db.audit_logs (_ ∷ []))

Logs-purge_one :
    (d : Deletion) (now : ℕ) (email : ImportedEmail) (db : Db)
    → let x = purge_one d now email db in Logs x.0 db x.1
unfolding purge_one
Logs-purge_one unavailable now email db = omega arith
Logs-purge_one deleted now email db = Logs-purge_email now email db
Logs-purge_one missing now email db = Logs-purge_email now email db

Logs-purge_batch :
    (delete : Text → Deletion) (now : ℕ) (rows : List ImportedEmail) (db : Db)
    → let x = purge_batch delete now rows db in Logs x.0 db x.1
unfolding purge_batch
Logs-purge_batch delete now [] db = omega arith
Logs-purge_batch delete now (email ∷ rows) db =
    let one = Logs-purge_one (deletion_of delete email) now email db in
    let rest =
      Logs-purge_batch delete now rows (purge_one (deletion_of delete email) now email db).1 in
    omega (arith, one, rest)

Logs-after_batch :
    (rows : List ImportedEmail) (db : Db) (x y : ℕ × Db)
    → Logs x.0 db x.1
    → Logs y.0 x.1 y.1
    → let z = after_batch rows db x y in Logs z.0 db z.1
unfolding after_batch
Logs-after_batch [] db x y h k = omega arith
Logs-after_batch (_ ∷ _) db x y h k = elim (Bool-cases (x.0 == 0)) [
  | inl none_purged ↦ rw none_purged (ground (arith, h))
  | inr more ↦ rw more (omega (arith, h, k))
]

Logs-drain :
    (sweep : Sweep) (now : ℕ) (query : ImportedEmail → Bool) (rounds : ℕ) (db : Db)
    → let x = drain sweep now query rounds db in Logs x.0 db x.1
unfolding drain
Logs-drain sweep now query zero db = omega arith
Logs-drain sweep now query (suc rounds) db =
    let rows = take purge_batch_size (sweep.order rounds (where_ query db.emails)) in
    let batch = purge_batch (sweep.delete rounds) now rows db in
    Logs-after_batch rows db batch (drain sweep now query rounds batch.1)
      (Logs-purge_batch (sweep.delete rounds) now rows db)
      (Logs-drain sweep now query rounds batch.1)

-- Both sweeps report as many purges as they put on record: the audit log grows by the number that
-- is returned, whatever R2 answers and in whatever order the rows come.
pub purges_are_logged :
    (sweep : Sweep) (now retention_days : ℕ) (db : Db)
    → let due = purge_due sweep now db in
      let old = retention_sweep sweep now retention_days db in
      (length due.1.audit_logs ≡ due.0 + length db.audit_logs)
      × (length old.1.audit_logs ≡ old.0 + length db.audit_logs)
unfolding purge_due retention_sweep
purges_are_logged sweep now retention_days db = (
  Logs-drain sweep now (is_due now) max_drain_batches db,
  Logs-drain sweep now (is_expired (now - retention_days * seconds_per_day)) max_drain_batches db,
)
