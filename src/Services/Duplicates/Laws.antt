-- ===== src/Services/Duplicates/Laws.antt =====
-- services/duplicate_service.py: flagged, never suppressed, and by the right evidence.
use email_budget_api.Common.{
  refl, All-map, ℕ, ◌≤◌, ◌≡◌, ◌≢◌, Bool, true, false, not, ◌&&◌, ◌==◌, ap, Option, none, some,
  Option-cases, inl, inr, List, [], ◌∷◌, ◌++◌, arith, All, Row, where_, head?, order_by,
  head?-order_by, head?-order_by-none, sym, ◌∙◌, subst, ◌⊎◌,
}
use mathlib.Core.Option.{some-injective}
use email_budget_api.Common.Text.{Text, text_eq, text_eq_iff}
use email_budget_api.Models.Extraction.{ExtractionResult, pending_review, exact_fingerprint}
use email_budget_api.Models.Db.{Db}
use email_budget_api.Services.Duplicates.Defs.{
  is_pending, is_live, column_eq, is_candidate, earlier, save_extraction, add_match, check_and_flag,
}

-- What `found` is evidence of for `row`: an earlier live row of the same user with the same
-- fingerprint.
pub record IsEvidence (row found : ExtractionResult) : Type 0 where
  pub fingerprint : (fp : Text) → row.fingerprint ≡ some fp → found.fingerprint ≡ some fp
  pub user : found.external_user_id ≡ row.external_user_id
  pub other : found.id ≢ row.id
  pub live : is_live found.status ≡ true

all_four :
    (a b c d : Bool)
    → (a && (b && (c && d))) ≡ true
    → (a ≡ true) × (b ≡ true) × (c ≡ true) × (d ≡ true)
all_four a b c d h = ground arith

column_eq_sound :
    (column : Option Text) (value : Text) → column_eq column value ≡ true → column ≡ some value
unfolding column_eq
column_eq_sound none value h = cc
column_eq_sound (some c) value h = ap some ((text_eq_iff c value).0 h)

not_same : (a b : ℕ) → not (a == b) ≡ true → a ≢ b
not_same a b h = ground arith

is_candidate-IsEvidence :
    (fp : Text) (row found : ExtractionResult)
    → row.fingerprint ≡ some fp
    → is_candidate fp row found ≡ true
    → IsEvidence row found
unfolding is_candidate
is_candidate-IsEvidence fp row found e h =
    let (mark, user, other, live) =
      all_four (column_eq found.fingerprint fp)
        (text_eq found.external_user_id row.external_user_id) (not (found.id == row.id))
        (is_live found.status) h in
    record {
      fingerprint = λ k same. cc (column_eq_sound found.fingerprint fp mark);
      user = (text_eq_iff _ _).0 user;
      other = not_same found.id row.id other;
      live = live;
    }

-- The guards and the query of `check_and_flag`, for a row with a fingerprint that is pending.
earlier_query :
    (fp : Text) (row : ExtractionResult) (rows : List ExtractionResult)
    → row.fingerprint ≡ some fp
    → is_pending row.status ≡ true
    → earlier row rows
      ≡ head?
          (order_by (λ (r : ExtractionResult). r.created_at) (where_ (is_candidate fp row) rows))
unfolding earlier
earlier_query fp row rows e p = ground arith

-- Only a pending row with a fingerprint is compared.
earlier_guards :
    (row found : ExtractionResult) (rows : List ExtractionResult)
    → earlier row rows ≡ some found
    → ((fp : Text) × (row.fingerprint ≡ some fp)) × (is_pending row.status ≡ true)
unfolding earlier
earlier_guards row found rows h = ground arith

-- Of the candidates, the one that was created first.
pub record IsEarliest (row found : ExtractionResult) (rows : List ExtractionResult) : Type 0 where
  pub stored : Row found rows
  pub evidence : IsEvidence row found
  pub first :
      (fp : Text)
      → row.fingerprint ≡ some fp
      → All
          (λ (r : ExtractionResult). is_candidate fp row r ≡ true → found.created_at ≤ r.created_at)
          rows

earlier-IsEarliest :
    (row found : ExtractionResult) (rows : List ExtractionResult)
    → earlier row rows ≡ some found
    → IsEarliest row found rows
earlier-IsEarliest row found rows h =
    let ((fp, e), p) = earlier_guards row found rows h in
    let created_at = λ (r : ExtractionResult). r.created_at in
    let q =
      head?-order_by (is_candidate fp row) created_at rows found
        (sym (earlier_query fp row rows e p) ∙ h) in
    record {
      stored = q.found;
      evidence = is_candidate-IsEvidence fp row found e q.hit;
      first = λ k same.
          subst
            (λ (t : Text).
              All
                (λ (r : ExtractionResult).
                  is_candidate t row r ≡ true → found.created_at ≤ r.created_at)
                rows)
            (some-injective _ _ (sym e ∙ same)) q.least;
    }

not_true : (b : Bool) → (b ≡ true → ⊥) → b ≡ false
not_true true h = absurd (h refl)
not_true false h = refl

-- The flag is raised exactly when there is such a row.
flag_cases :
    (now : ℕ) (row : ExtractionResult) (db : Db)
    → ((earlier row db.extractions ≡ none) × (check_and_flag now row db ≡ (row, db, false)))
      ⊎ ((found : ExtractionResult) × (earlier row db.extractions ≡ some found)
          × (check_and_flag now row db ≡ (
            record row { duplicate_confidence = 1000 },
            add_match now row.id found.id
                (save_extraction (record row { duplicate_confidence = 1000 }) db),
            true,
          )))
unfolding check_and_flag
flag_cases now row db = elim (Option-cases (earlier row db.extractions)) [
  | inl e ↦ inl (e, rw (e, check_and_flag))
  | inr (found, e) ↦ inr (found, e, rw (e, check_and_flag))
]

-- A raised flag rests on evidence: a pending row with a fingerprint, and the earliest live row of
-- the same user with that fingerprint, which the new match names.
pub flag_has_evidence :
    (now : ℕ) (row : ExtractionResult) (db : Db)
    → (check_and_flag now row db).2 ≡ true
    → (found : ExtractionResult) × IsEarliest row found db.extractions
      × (row.status ≡ pending_review)
      × ((check_and_flag now row db).0.duplicate_confidence ≡ 1000)
      × ((check_and_flag now row db).1.duplicate_matches
          ≡ db.duplicate_matches
            ++ record {
              id = db.next_id;
              extraction_id = row.id;
              candidate_id = found.id;
              candidate_type = exact_fingerprint;
              duplicate_confidence = 1000;
              created_at = now;
            }
              ∷ [])
unfolding add_match save_extraction is_pending
flag_has_evidence now row db h = elim (flag_cases now row db) [
  | inl (_, e) ↦ absurd (cc (ap (λ (x : ExtractionResult × Db × Bool). x.2) e))
  | inr (found, e, r) ↦ (
    found,
    earlier-IsEarliest row found db.extractions e,
    ground (arith, (earlier_guards row found db.extractions e).1),
    rw r,
    rw r,
  )
]

-- A pending row with a fingerprint that is not flagged has no candidate in the table, and nothing
-- changes: no duplicate is missed.
pub no_flag_no_candidate :
    (now : ℕ) (row : ExtractionResult) (db : Db) (fp : Text)
    → row.fingerprint ≡ some fp
    → row.status ≡ pending_review
    → (check_and_flag now row db).2 ≡ false
    → (check_and_flag now row db ≡ (row, db, false))
      × All (λ (r : ExtractionResult). is_candidate fp row r ≡ false) db.extractions
unfolding is_pending
no_flag_no_candidate now row db fp mark p h = elim (flag_cases now row db) [
  | inr (_, _, e) ↦ absurd (cc (ap (λ (x : ExtractionResult × Db × Bool). x.2) e))
  | inl (e, r) ↦ (
    r,
    All-map (λ x k. not_true (is_candidate fp row x) k) db.extractions
        (head?-order_by-none (is_candidate fp row) (λ (x : ExtractionResult). x.created_at)
          db.extractions (sym (earlier_query fp row db.extractions mark (rw p)) ∙ e)),
  )
]

-- Flagging never suppresses: nothing of the row changes but its duplicate confidence.
pub flag_keeps_row :
    (now : ℕ) (row : ExtractionResult) (db : Db)
    → (check_and_flag now row db).0
      ≡ record row { duplicate_confidence = (check_and_flag now row db).0.duplicate_confidence }
unfolding check_and_flag
flag_keeps_row now row db = ground arith
