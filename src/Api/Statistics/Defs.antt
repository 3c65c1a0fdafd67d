-- ===== src/Api/Statistics/Defs.antt =====
-- api/v1/feedback.py, GET /stats/extraction. `round(ok / total, 3)` is the parameter `rate`, in
-- thousandths. Of senders with the same count the query may show any first; here it is the one
-- that the tally has first.
use email_budget_api.Common.{
  ℕ, ◌+◌, Bool, true, false, ◌&&◌, Option, none, some, List, [], ◌∷◌, ◌++◌, ◌==◌, if◌then◌else◌,
  leb, take, where_, map,
}
use email_budget_api.Common.Text.{Text, text_eq}
use email_budget_api.Models.Ops.{ImportedEmail}
use email_budget_api.Models.Extraction.{ExtractionResult, ResultStatus}
use email_budget_api.Models.Db.{Db}
use email_budget_api.Api.Extractions.Listing.{status_eq}

-- One more row of a group.
unfoldable pub bump {ℓ} : {A : Type ℓ} → (A → A → Bool) → A → List (A × ℕ) → List (A × ℕ)
bump eq key [] = (key, 1) ∷ []
bump eq key ((k, n) ∷ rest) = elim (eq k key) [
  | true ↦ (k, n + 1) ∷ rest
  | false ↦ (k, n) ∷ bump eq key rest
]

-- `select(key, func.count()).group_by(key)`
unfoldable pub group_count {ℓ} : {A : Type ℓ} → (A → A → Bool) → List A → List (A × ℕ)
unfolding bump
group_count eq [] = []
group_count eq (key ∷ keys) = bump eq key (group_count eq keys)

-- `by_status.get(s, 0)`
unfoldable pub count_of {ℓ} : {A : Type ℓ} → (A → A → Bool) → A → List (A × ℕ) → ℕ
count_of eq key [] = 0
count_of eq key ((k, n) ∷ rest) = elim (eq k key) [ true ↦ n | false ↦ count_of eq key rest ]

-- `sum(by_status.values())`
unfoldable pub sum_counts {ℓ} : {A : Type ℓ} → List (A × ℕ) → ℕ
sum_counts [] = 0
sum_counts ((k, n) ∷ rest) = n + sum_counts rest

unfoldable pub insert_most {ℓ} : {A : Type ℓ} → A × ℕ → List (A × ℕ) → List (A × ℕ)
insert_most x [] = x ∷ []
insert_most x (y ∷ ys) = elim (leb y.1 x.1) [ true ↦ x ∷ y ∷ ys | false ↦ y ∷ insert_most x ys ]

-- `.order_by(func.count().desc())`
unfoldable pub most_first {ℓ} : {A : Type ℓ} → List (A × ℕ) → List (A × ℕ)
unfolding insert_most
most_first [] = []
most_first (x ∷ xs) = insert_most x (most_first xs)

-- The domain of a joined row, where it is not null.
unfoldable pub domains_of : List ImportedEmail → List Text
domains_of [] = []
domains_of (e ∷ es) = elim e.resolved_sender_domain [
  | none ↦ domains_of es
  | some domain ↦ domain ∷ domains_of es
]

-- The join with the emails, for the selected rows.
unfoldable pub sender_domains : List ImportedEmail → List ExtractionResult → List Text
unfolding domains_of
sender_domains emails [] = []
sender_domains emails (row ∷ rows) =
    domains_of (where_ (λ (e : ImportedEmail). e.id == row.email_id) emails)
    ++ sender_domains emails rows

unfoldable pub top_five : List ImportedEmail → List ExtractionResult → List (Text × ℕ)
unfolding sender_domains group_count most_first
top_five emails rows = take 5 (most_first (group_count text_eq (sender_domains emails rows)))

pub record Statistics : Type 0 where
  pub external_user_id : Text
  pub total_extractions : ℕ
  pub by_status : List (ResultStatus × ℕ)
  pub success_rate : Option ℕ
  pub top_senders : List (Text × ℕ)
  pub top_failing_senders : List (Text × ℕ)

unfoldable pub is_of_user : Text → ExtractionResult → Bool
is_of_user external_user_id row = text_eq row.external_user_id external_user_id

unfoldable pub is_failed_of : Text → ExtractionResult → Bool
unfolding is_of_user
is_failed_of external_user_id row =
    is_of_user external_user_id row && status_eq row.status ResultStatus.extraction_failed

-- `ok`
unfoldable pub successes : List (ResultStatus × ℕ) → ℕ
unfolding count_of
successes by_status =
    count_of status_eq ResultStatus.pending_review by_status
    + count_of status_eq ResultStatus.confirmed by_status

unfoldable pub success_rate_of : (ℕ → ℕ → ℕ) → List (ResultStatus × ℕ) → Option ℕ
unfolding successes sum_counts
success_rate_of rate by_status =
    let total = sum_counts by_status in
    if total == 0 then none else some (rate (successes by_status) total)

unfoldable pub extraction_stats : (ℕ → ℕ → ℕ) → Text → Db → Statistics
unfolding group_count sum_counts success_rate_of top_five is_of_user is_failed_of
extraction_stats rate external_user_id db =
    let mine = where_ (is_of_user external_user_id) db.extractions in
    let by_status = group_count status_eq (map (λ (r : ExtractionResult). r.status) mine) in
    record {
      external_user_id = external_user_id;
      total_extractions = sum_counts by_status;
      by_status = by_status;
      success_rate = success_rate_of rate by_status;
      top_senders = top_five db.emails mine;
      top_failing_senders =
          top_five db.emails (where_ (is_failed_of external_user_id) db.extractions);
    }
