-- ===== src/Services/Privacy/Purge.antt =====
-- services/privacy_service.py: what a sweep may delete.
use mathlib.Core.Bool.{false≢true}
use email_budget_api.Common.{
  ℕ, zero, suc, ◌-◌, ◌*◌, ◌≡◌, ◌≢◌, sym, ◌∙◌, ap, Bool, false, Bool-cases, inl, inr, none, some,
  List, [], ◌∷◌, ◌==◌, first, first-save_ne, All, All-map, All-take, All-where, All-save, take,
  where_,
}
use email_budget_api.Common.Text.{Text}
use email_budget_api.Models.Ops.{ImportedEmail}
use email_budget_api.Models.Db.{Db}
use email_budget_api.Services.Persist.{save_email}
use email_budget_api.Services.Privacy.Defs.{
  Deletion, deleted, missing, unavailable, Sweep, purge_one, purge_email, purge_batch, deletion_of,
  drain, after_batch, purge_batch_size, max_drain_batches, purge_due, retention_sweep, is_due,
  is_expired, add_audit, seconds_per_day,
}

-- The order of a query gives rows of the query.
abbrev pub KeepsRows : Sweep → Type 1
KeepsRows sweep =
    (round : ℕ) (P : ImportedEmail → Type 0) (rows : List ImportedEmail)
    → All P rows
    → All P (sweep.order round rows)

-- The email that the identifier names, and no other row of the table has the identifier.
pub record IsOnly (id : ℕ) (e : ImportedEmail) (db : Db) : Type 0 where
  pub found : first (λ (x : ImportedEmail). x.id == id) db.emails ≡ some e
  pub only : All (λ (x : ImportedEmail). x.id ≡ id → x ≡ e) db.emails

purge_one-IsOnly :
    (d : Deletion) (now id : ℕ) (e email : ImportedEmail) (db : Db)
    → email.id ≢ id
    → IsOnly id e db
    → IsOnly id e (purge_one d now email db).1
unfolding purge_one purge_email save_email add_audit
purge_one-IsOnly unavailable now id e email db ne h = h
purge_one-IsOnly deleted now id e email db ne h = record {
  found = first-save_ne (λ (x : ImportedEmail). x.id) id _ db.emails ne ∙ h.found;
  only =
      All-save (λ (x : ImportedEmail). x.id) _ (record email { r2_key = none }) db.emails
        (λ same. absurd (ne same)) h.only;
}
purge_one-IsOnly missing now id e email db ne h = record {
  found = first-save_ne (λ (x : ImportedEmail). x.id) id _ db.emails ne ∙ h.found;
  only =
      All-save (λ (x : ImportedEmail). x.id) _ (record email { r2_key = none }) db.emails
        (λ same. absurd (ne same)) h.only;
}

purge_batch-IsOnly :
    (delete : Text → Deletion) (now id : ℕ) (e : ImportedEmail) (rows : List ImportedEmail)
    (db : Db)
    → All (λ (x : ImportedEmail). x.id ≢ id) rows
    → IsOnly id e db
    → IsOnly id e (purge_batch delete now rows db).1
unfolding purge_batch
purge_batch-IsOnly delete now id e [] db ne h = h
purge_batch-IsOnly delete now id e (email ∷ rows) db ne h =
    purge_batch-IsOnly delete now id e rows _ ne.1
      (purge_one-IsOnly (deletion_of delete email) now id e email db ne.0 h)

-- The rows of a batch do not name an email that the query leaves out.
batch_spares :
    (sweep : Sweep) (round : ℕ) (query : ImportedEmail → Bool) (id : ℕ) (e : ImportedEmail)
    (db : Db)
    → KeepsRows sweep
    → query e ≡ false
    → IsOnly id e db
    → All
        (λ (x : ImportedEmail). x.id ≢ id)
        (take purge_batch_size (sweep.order round (where_ query db.emails)))
batch_spares sweep round query id e db keeps out h =
    All-take (λ (x : ImportedEmail). x.id ≢ id) purge_batch_size _
      (keeps round (λ (x : ImportedEmail). x.id ≢ id) _
        (All-map {Q = λ (x : ImportedEmail). x.id ≢ id}
          (λ x k same. false≢true (sym out ∙ ap query (sym (k.0 same)) ∙ k.1))
          (where_ query db.emails)
          (All-where (λ (x : ImportedEmail). x.id ≡ id → x ≡ e) query db.emails h.only)))

after_batch_keeps :
    (P : Db → Type 0) (rows : List ImportedEmail) (db : Db) (x y : ℕ × Db)
    → P db
    → P x.1
    → P y.1
    → P (after_batch rows db x y).1
unfolding after_batch
after_batch_keeps P [] db x y p q r = p
after_batch_keeps P (_ ∷ _) db x y p q r = elim (Bool-cases (x.0 == 0)) [
  | inl none_purged ↦ rw none_purged q
  | inr more ↦ rw more r
]

drain-IsOnly :
    (sweep : Sweep) (now : ℕ) (query : ImportedEmail → Bool) (rounds id : ℕ) (e : ImportedEmail)
    (db : Db)
    → KeepsRows sweep
    → query e ≡ false
    → IsOnly id e db
    → IsOnly id e (drain sweep now query rounds db).1
unfolding drain
drain-IsOnly sweep now query zero id e db keeps out h = h
drain-IsOnly sweep now query (suc rounds) id e db keeps out h =
    let rows = take purge_batch_size (sweep.order rounds (where_ query db.emails)) in
    let batch = purge_batch (sweep.delete rounds) now rows db in
    let purged =
      purge_batch-IsOnly (sweep.delete rounds) now id e rows db
        (batch_spares sweep rounds query id e db keeps out h) h in
    after_batch_keeps (IsOnly id e) rows db batch (drain sweep now query rounds batch.1) h purged
      (drain-IsOnly sweep now query rounds id e batch.1 keeps out purged)

-- If the order of a query gives rows of the query, the deletion sweep leaves an email with an
-- identifier of its own alone whose grace period has not passed, or that has no
-- deadline: its row is the same after the whole sweep, whatever R2 does.
pub purge_due_spares :
    (sweep : Sweep) (now id : ℕ) (e : ImportedEmail) (db : Db)
    → KeepsRows sweep
    → is_due now e ≡ false
    → IsOnly id e db
    → IsOnly id e (purge_due sweep now db).1
unfolding purge_due
purge_due_spares sweep now id e db keeps out h =
    drain-IsOnly sweep now (is_due now) max_drain_batches id e db keeps out h

-- If the order of a query gives rows of the query, the retention sweep leaves an email with an
-- identifier of its own alone that is not older than the retention period, or whose
-- time of receipt is unknown.
pub retention_sweep_spares :
    (sweep : Sweep) (now retention_days id : ℕ) (e : ImportedEmail) (db : Db)
    → KeepsRows sweep
    → is_expired (now - retention_days * seconds_per_day) e ≡ false
    → IsOnly id e db
    → IsOnly id e (retention_sweep sweep now retention_days db).1
unfolding retention_sweep
retention_sweep_spares sweep now retention_days id e db keeps out h =
    drain-IsOnly sweep now (is_expired (now - retention_days * seconds_per_day)) max_drain_batches
      id e db keeps out h
