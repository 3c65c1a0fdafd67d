-- ===== src/Services/Persist/Frame.antt =====
-- services/extraction_service.py: which tables each helper leaves alone, and what the email is
-- after `persist_result`.
use email_budget_api.Common.{
  ℕ, ◌+◌, ◌≤◌, ◌≡◌, refl, sym, ap, ◌∙◌, Option, List, [], ◌∷◌, arith, save, save-save,
}
use email_budget_api.Common.Text.{Text}
use email_budget_api.Extraction.Models.{FieldKey, PipelineResult, Status}
use email_budget_api.Models.Ops.{ImportedEmail}
use email_budget_api.Models.Extraction.{ExtractionResult, ResultStatus}
use email_budget_api.Models.Db.{Db}
use email_budget_api.Services.Duplicates.{check_and_flag, save_extraction, add_match}
use email_budget_api.Services.Persist.Mapper.{apply_result_fields}
use email_budget_api.Services.Persist.Defs.{
  add_snippets, snippets_of, persist_result, persist_by_status, persist_extraction, save_email,
  add_classification, add_event, add_extraction, fail_email, resolved_email, new_extraction,
}

-- Snippets are all that `add_snippets` adds.
pub add_snippets_frame :
    (id : ℕ) (l : List (FieldKey × Text)) (db : Db)
    → add_snippets id l db ≡ record db {
      snippets = (add_snippets id l db).snippets;
      next_id = (add_snippets id l db).next_id;
    }
unfolding add_snippets
add_snippets_frame id [] db = refl
add_snippets_frame id ((key, s) ∷ l) db =
    cc (add_snippets_frame id l (record db { snippets = _; next_id = _ }))

-- The flag writes extractions and matches.
pub check_and_flag_frame :
    (now : ℕ) (row : ExtractionResult) (db : Db)
    → (check_and_flag now row db).1 ≡ record db {
      extractions = (check_and_flag now row db).1.extractions;
      duplicate_matches = (check_and_flag now row db).1.duplicate_matches;
      next_id = (check_and_flag now row db).1.next_id;
    }
unfolding check_and_flag add_match save_extraction
check_and_flag_frame now row db = ground arith

-- Two states of one email: what identifies it, where it came in and its raw object are the same.
pub record SameEmail (a b : ImportedEmail) : Type 0 where
  pub id : a.id ≡ b.id
  pub alias_hash : a.alias_hash ≡ b.alias_hash
  pub r2_key : a.r2_key ≡ b.r2_key
  pub message_id : a.message_id ≡ b.message_id
  pub received_at : a.received_at ≡ b.received_at
  pub pending_deletion_at : a.pending_deletion_at ≡ b.pending_deletion_at
  pub created_at : a.created_at ≡ b.created_at

pub SameEmail-refl : (a : ImportedEmail) → SameEmail a a
SameEmail-refl a = ground arith

SameEmail-trans : {a b c : ImportedEmail} → SameEmail a b → SameEmail b c → SameEmail a c
SameEmail-trans h k = ground arith

fail_email-SameEmail : (s : ResultStatus) (e : ImportedEmail) → SameEmail e (fail_email s e)
unfolding fail_email
fail_email-SameEmail s e = ground arith

resolved_email-SameEmail :
    (e : ImportedEmail) (result : PipelineResult) → SameEmail e (resolved_email e result)
unfolding resolved_email
resolved_email-SameEmail e result = ground arith

module _ (now : ℕ) (email : ImportedEmail) (user : Text) (result : PipelineResult)
    (api_key_id : Option ℕ) (db : Db) where
  pub persist_extraction-SameEmail :
      SameEmail email (persist_extraction now email user result api_key_id db).0
  unfolding persist_extraction
  persist_extraction-SameEmail = fail_email-SameEmail _ email

  pub emails-persist_extraction :
      (persist_extraction now email user result api_key_id db).2.emails
      ≡ save
          (λ (e : ImportedEmail). e.id)
          (persist_extraction now email user result api_key_id db).0
          db.emails
  unfolding persist_extraction save_email add_event
  emails-persist_extraction =
      let row = apply_result_fields (new_extraction now db.next_id email user) result in
      let added = add_extraction row (save_email (fail_email row.status email) db) in
      let flagged = (check_and_flag now row added).1 in
      cc (
        ap (λ (d : Db). d.emails)
            (add_snippets_frame db.next_id (snippets_of result.fields) flagged),
        ap (λ (d : Db). d.emails) (check_and_flag_frame now row added),
      )

  by_status-SameEmail :
      (s : Status) → SameEmail email (persist_by_status s now email user result api_key_id db).0
  unfolding persist_by_status
  by_status-SameEmail Status.pending_review = persist_extraction-SameEmail
  by_status-SameEmail Status.extraction_failed = persist_extraction-SameEmail
  by_status-SameEmail _ = ground arith

  emails-by_status :
      (s : Status)
      → db.emails ≡ save (λ (e : ImportedEmail). e.id) email db.emails
      → (persist_by_status s now email user result api_key_id db).2.emails
        ≡ save
            (λ (e : ImportedEmail). e.id)
            (persist_by_status s now email user result api_key_id db).0
            db.emails
  unfolding persist_by_status add_event
  emails-by_status Status.pending_review h = emails-persist_extraction
  emails-by_status Status.extraction_failed h = emails-persist_extraction
  emails-by_status _ h = h

module _ (now : ℕ) (email : ImportedEmail) (user : Text) (result : PipelineResult)
    (api_key_id : Option ℕ) (db : Db) where
  -- Persisting changes nothing of the email but its sender and its status.
  pub persist_result-SameEmail :
      SameEmail email (persist_result now email user result api_key_id db).0
  unfolding persist_result
  persist_result-SameEmail =
      SameEmail-trans (resolved_email-SameEmail email result) (
        by_status-SameEmail now (resolved_email email result) user result api_key_id _
          result.status)

  pub emails-persist_result :
      (persist_result now email user result api_key_id db).2.emails
      ≡ save
          (λ (e : ImportedEmail). e.id)
          (persist_result now email user result api_key_id db).0
          db.emails
  unfolding persist_result save_email add_classification
  emails-persist_result =
      let key = λ (e : ImportedEmail). e.id in
      let email' = resolved_email email result in
      let db' = add_classification email.id result.classification (save_email email' db) in
      let same = by_status-SameEmail now email' user result api_key_id db' result.status in
      emails-by_status now email' user result api_key_id db' result.status
        (sym (save-save key email' email' db.emails refl))
      ∙ save-save key email' (persist_result now email user result api_key_id db).0 db.emails
          same.id

-- Identifiers are never given back.
pub next_id-add_snippets :
    (id : ℕ) (l : List (FieldKey × Text)) (db : Db) → db.next_id ≤ (add_snippets id l db).next_id
unfolding add_snippets
next_id-add_snippets id [] db = omega arith
next_id-add_snippets id ((key, s) ∷ l) db =
    omega (arith, next_id-add_snippets id l (record db { snippets = _; next_id = db.next_id + 1 }))

pub next_id-check_and_flag :
    (now : ℕ) (row : ExtractionResult) (db : Db)
    → db.next_id ≤ (check_and_flag now row db).1.next_id
unfolding check_and_flag add_match save_extraction
next_id-check_and_flag now row db = ground arith

module _ (now : ℕ) (email : ImportedEmail) (user : Text) (result : PipelineResult)
    (api_key_id : Option ℕ) (db : Db) where
  next_id-persist_extraction :
      db.next_id ≤ (persist_extraction now email user result api_key_id db).2.next_id
  unfolding persist_extraction save_email add_event
  next_id-persist_extraction =
      let row = apply_result_fields (new_extraction now db.next_id email user) result in
      let added = add_extraction row (save_email (fail_email row.status email) db) in
      let flagged = (check_and_flag now row added).1 in
      omega (
        arith,
        next_id-add_snippets db.next_id (snippets_of result.fields) flagged,
        next_id-check_and_flag now row added,
      )

  next_id-by_status :
      (s : Status)
      → db.next_id ≤ (persist_by_status s now email user result api_key_id db).2.next_id
  unfolding persist_by_status add_event
  next_id-by_status Status.pending_review = next_id-persist_extraction
  next_id-by_status Status.extraction_failed = next_id-persist_extraction
  next_id-by_status _ = omega arith

pub next_id-persist_result :
    (now : ℕ) (email : ImportedEmail) (user : Text) (result : PipelineResult)
    (api_key_id : Option ℕ) (db : Db)
    → db.next_id ≤ (persist_result now email user result api_key_id db).2.next_id
unfolding persist_result save_email add_classification
next_id-persist_result now email user result api_key_id db = omega (
  arith,
  next_id-by_status now (resolved_email email result) user result api_key_id
      (add_classification email.id result.classification
        (save_email (resolved_email email result) db))
      result.status,
)
