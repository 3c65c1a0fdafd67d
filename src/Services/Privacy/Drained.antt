-- ===== src/Services/Privacy/Drained.antt =====
-- services/privacy_service.py: a sweep that R2 answers drains its queue.
use email_budget_api.Common.{
  is_some, none, Option-cases, length-take, length-where_, min, ℕ, zero, suc, ◌+◌, ◌*◌, ◌≤◌, ◌≡◌,
  ◌≢◌, refl, ◌∙◌, ap, Bool, true, false, Bool-cases, inl, inr, List, [], ◌∷◌, arith, ◌==◌, length,
  count, All, All-map, All-map₂, All-take, Row, Row-where, take, where_,
}
use email_budget_api.Common.Text.{Text}
use email_budget_api.Models.Ops.{ImportedEmail}
use email_budget_api.Models.Db.{Db}
use email_budget_api.Services.Persist.{save_email}
use email_budget_api.Services.Privacy.Rows.{
  Distinct, count-save, Row-save, Distinct-save, Distinct-take, Distinct-where_,
}
use email_budget_api.Services.Privacy.Defs.{
  Deletion, deleted, missing, unavailable, Sweep, purge_one, purge_email, purge_batch, deletion_of,
  drain, after_batch, purge_batch_size, max_drain_batches, purge_due, is_due, add_audit,
}

-- The order of a query gives the rows of the query, each once.
pub record IsShuffle (sweep : Sweep) : Type 0 where
  pub rows : (round : ℕ) (xs : List ImportedEmail) → All (λ r. Row r xs) (sweep.order round xs)
  pub size : (round : ℕ) (xs : List ImportedEmail) → length (sweep.order round xs) ≡ length xs
  pub distinct :
      (round : ℕ) (xs : List ImportedEmail) → Distinct xs → Distinct (sweep.order round xs)

-- A query for rows with an object, which a purged row does not answer.
record IsPurgeQuery (q : ImportedEmail → Bool) : Type 0 where
  keyed : (e : ImportedEmail) → q e ≡ true → is_some e.r2_key ≡ true
  purged : (e : ImportedEmail) → q (record e { r2_key = none }) ≡ false

-- What a batch does to the rows that the query finds.
record Shrinks (q : ImportedEmail → Bool) (n : ℕ) (db : Db) (x : ℕ × Db) : Type 0 where
  reported : x.0 ≡ n
  fewer : count q x.1.emails + n ≡ count q db.emails
  distinct : Distinct x.1.emails

answered :
    (delete : Text → Deletion) (e : ImportedEmail)
    → ((key : Text) → delete key ≢ unavailable)
    → is_some e.r2_key ≡ true
    → deletion_of delete e ≢ unavailable
unfolding deletion_of
answered delete e h k = elim (Option-cases e.r2_key) [
  | inl none_left ↦ absurd (cc (k, none_left))
  | inr (key, some_key) ↦ rw (some_key, deletion_of) (h key)
]

purge_one_answered :
    (d : Deletion) (now : ℕ) (e : ImportedEmail) (db : Db)
    → d ≢ unavailable
    → purge_one d now e db ≡ (1, purge_email now e db)
unfolding purge_one
purge_one_answered unavailable now e db h = absurd (h refl)
purge_one_answered deleted now e db h = refl
purge_one_answered missing now e db h = refl

module _ (q : ImportedEmail → Bool) (v : IsPurgeQuery q) (now : ℕ) where
  purge_batch-Shrinks :
      (delete : Text → Deletion) (rows : List ImportedEmail) (db : Db)
      → ((key : Text) → delete key ≢ unavailable)
      → Distinct rows
      → All (λ r. Row r db.emails × (q r ≡ true)) rows
      → Distinct db.emails
      → Shrinks q (length rows) db (purge_batch delete now rows db)
  unfolding purge_batch purge_email save_email add_audit
  purge_batch-Shrinks delete [] db h d k e = record {
    reported = refl;
    fewer = omega arith;
    distinct = e;
  }
  purge_batch-Shrinks delete (x ∷ rows) db h d k e =
      let x' : ImportedEmail = record x { r2_key = none } in
      let one =
        purge_one_answered (deletion_of delete x) now x db
          (answered delete x h (v.keyed x k.0.1)) in
      let db' = purge_email now x db in
      let gone = count-save q x x' db.emails refl k.0.1 (v.purged x) e k.0.0 in
      let rest =
        purge_batch-Shrinks delete rows db' h d.1
          (All-map₂ (λ r apart found. (Row-save r x' db.emails apart found.0, found.1)) rows d.0
            k.1)
          (Distinct-save x' db.emails e) in
      rw one (record {
        reported = omega (arith, rest.reported);
        fewer = omega (arith, rest.fewer, gone);
        distinct = rest.distinct;
      })

  -- A sweep that finds nothing any more has reported all that there was.
  Drains : Db → ℕ × Db → Type 0
  Drains db x = (count q x.1.emails ≡ 0) × (x.0 ≡ count q db.emails)

  after_batch-Drains :
      (rows : List ImportedEmail) (db : Db) (x y : ℕ × Db)
      → length rows ≡ min purge_batch_size (count q db.emails)
      → Shrinks q (length rows) db x
      → Drains x.1 y
      → Drains db (after_batch rows db x y)
  unfolding after_batch Drains
  after_batch-Drains [] db x y size s h = (omega (arith, size), omega (arith, size))
  after_batch-Drains (r ∷ rows) db x y size s h = elim (Bool-cases (x.0 == 0)) [
    | inl none_purged ↦
        let stuck : x.0 ≡ 0 = ground arith in absurd (omega (arith, stuck, s.reported))
    | inr more ↦ rw more (h.0, omega (arith, h.1, s.reported, s.fewer))
  ]

  drain-Drains :
      (sweep : Sweep) (rounds : ℕ) (db : Db)
      → IsShuffle sweep
      → ((round : ℕ) (key : Text) → sweep.delete round key ≢ unavailable)
      → Distinct db.emails
      → count q db.emails ≤ purge_batch_size * rounds
      → Drains db (drain sweep now q rounds db)
  unfolding drain Drains
  drain-Drains sweep zero db shuffle answers d h = (omega arith, omega arith)
  drain-Drains sweep (suc rounds) db shuffle answers d h =
      let found = where_ q db.emails in
      let rows = take purge_batch_size (sweep.order rounds found) in
      let size : length rows ≡ min purge_batch_size (count q db.emails) =
        length-take purge_batch_size (sweep.order rounds found)
        ∙ ap (min purge_batch_size) (shuffle.size rounds found ∙ length-where_ q db.emails) in
      let s =
        purge_batch-Shrinks (sweep.delete rounds) rows db (answers rounds)
          (Distinct-take purge_batch_size _
            (shuffle.distinct rounds found (Distinct-where_ q db.emails d)))
          (All-take _ purge_batch_size _
            (All-map (λ r k. Row-where q db.emails r k) _ (shuffle.rows rounds found)))
          d in
      let batch = purge_batch (sweep.delete rounds) now rows db in
      after_batch-Drains rows db batch (drain sweep now q rounds batch.1) size s (
        drain-Drains sweep rounds batch.1 shuffle answers s.distinct
          (omega (arith, size, s.fewer, h)))

is_due-IsPurgeQuery : (now : ℕ) → IsPurgeQuery (is_due now)
unfolding is_due
is_due-IsPurgeQuery now = record { keyed = λ e h. ground arith; purged = λ e. ground arith }

-- A deletion sweep that R2 answers leaves no email due and reports as many as were due, if the due
-- emails fit into its rounds: at most 5000, with identifiers of their own, and with the random order
-- giving each row once.
pub purge_due_drains :
    (sweep : Sweep) (now : ℕ) (db : Db)
    → IsShuffle sweep
    → ((round : ℕ) (key : Text) → sweep.delete round key ≢ unavailable)
    → Distinct db.emails
    → count (is_due now) db.emails ≤ 5000
    → (count (is_due now) (purge_due sweep now db).1.emails ≡ 0)
      × ((purge_due sweep now db).0 ≡ count (is_due now) db.emails)
unfolding purge_due Drains
purge_due_drains sweep now db shuffle answers d h =
    drain-Drains (is_due now) (is_due-IsPurgeQuery now) now sweep max_drain_batches db shuffle
      answers d h
