-- ===== src/Api/Statistics/Tallies.antt =====
-- api/v1/feedback.py, GET /stats/extraction: what the numbers count.
use email_budget_api.Common.{
  ℕ, suc, ◌+◌, ◌≤◌, ◌≡◌, refl, ap, ap₂, ◌∙◌, none, some, ◌==◌, if◌then◌else◌, Bool, ◌&&◌,
  Bool-cases, inl, inr, List, [], ◌∷◌, arith, length, where_, count, map,
}
use email_budget_api.Common.Text.{Text, text_eq, text_eq_iff}
use email_budget_api.Models.Ops.{ImportedEmail}
use email_budget_api.Models.Extraction.{ExtractionResult, ResultStatus}
use email_budget_api.Models.Db.{Db}
use email_budget_api.Api.Extractions.Listing.{status_eq}
use email_budget_api.Api.Extractions.Listing.Pages.{status_eq_iff}
use email_budget_api.Api.Statistics.Ranking.{IsRanking}
use email_budget_api.Api.Statistics.Senders.{
  is_mine, is_my_failure, sender_total, top_five-IsRanking,
}
use email_budget_api.Api.Statistics.Groups.{sum_counts-group_count, count_of-group_count}
use email_budget_api.Api.Statistics.Defs.{
  count_of, Statistics, is_of_user, is_failed_of, successes, success_rate_of, extraction_stats,
}

-- The statuses of the selected rows.
abbrev statuses : List ExtractionResult → List ResultStatus
statuses rows = map (λ (r : ExtractionResult). r.status) rows

length-statuses :
    (p : ExtractionResult → Bool) (rows : List ExtractionResult)
    → length (statuses (where_ p rows)) ≡ count p rows
unfolding where_ count
length-statuses p [] = refl
length-statuses p (r ∷ rows) = elim (Bool-cases (p r)) [
  | inl hit ↦ rw (hit, where_, count) (ap suc (length-statuses p rows))
  | inr miss ↦ rw (miss, where_, count) (length-statuses p rows)
]

count-statuses :
    (p : ExtractionResult → Bool) (s : ResultStatus) (rows : List ExtractionResult)
    → count (λ k. status_eq k s) (statuses (where_ p rows))
      ≡ count (λ (r : ExtractionResult). p r && status_eq r.status s) rows
unfolding where_ count
count-statuses p s [] = refl
count-statuses p s (r ∷ rows) = elim (Bool-cases (p r)) [
  | inr miss ↦ rw (miss, where_, count) (count-statuses p s rows)
  | inl hit ↦ elim (Bool-cases (status_eq r.status s)) [
    | inl e ↦ rw (hit, e, where_, count) (ap suc (count-statuses p s rows))
    | inr e ↦ rw (hit, e, where_, count) (count-statuses p s rows)
  ]
]

count_two_le :
    (keys : List ResultStatus)
    → count (λ k. status_eq k ResultStatus.pending_review) keys
        + count (λ k. status_eq k ResultStatus.confirmed) keys
      ≤ length keys
unfolding count status_eq
count_two_le [] = omega arith
count_two_le (k ∷ keys) = ground (arith, count_two_le keys)

-- What holds of the statistics of a user.
pub record IsTallied (rate : ℕ → ℕ → ℕ) (emails : List ImportedEmail) (rows : List ExtractionResult)
    (user : Text) (stats : Statistics) : Type 0 where
  pub owner : stats.external_user_id ≡ user
  pub total : stats.total_extractions ≡ count (is_mine user) rows
  pub each :
      (s : ResultStatus)
      → count_of status_eq s stats.by_status
        ≡ count (λ (r : ExtractionResult). is_mine user r && status_eq r.status s) rows
  pub good :
      successes stats.by_status
      ≡ count
          (λ (r : ExtractionResult).
            is_mine user r && status_eq r.status ResultStatus.pending_review)
          rows
        + count
            (λ (r : ExtractionResult). is_mine user r && status_eq r.status ResultStatus.confirmed)
            rows
  pub at_most_all : successes stats.by_status ≤ stats.total_extractions
  pub success_rate : stats.success_rate ≡ (
      if stats.total_extractions == 0
      then none
      else some (rate (successes stats.by_status) stats.total_extractions))
  pub senders :
      IsRanking text_eq text_eq_iff 5 (sender_total (is_mine user) emails rows) stats.top_senders
  pub failing :
      IsRanking text_eq text_eq_iff 5
        (sender_total (is_my_failure user) emails rows)
        stats.top_failing_senders

-- The statistics of a user count the user's rows only: the total is the number of those rows, the
-- number for each status is that of the rows with the status, the successes are the rows under
-- review and the confirmed ones, no more than the total, and the rate is taken of the two numbers,
-- if there is a row. Each list of senders has at most five domains, the most frequent first, each
-- with the number of pairs of a row of the user, in the second list a failed one, and its email,
-- where that came from the domain; a domain that is not listed has no such pair, or the list is
-- full and no listed domain has fewer.
pub extraction_stats-IsTallied :
    (rate : ℕ → ℕ → ℕ) (user : Text) (db : Db)
    → IsTallied rate db.emails db.extractions user (extraction_stats rate user db)
unfolding extraction_stats successes success_rate_of is_of_user is_failed_of
extraction_stats-IsTallied rate user db =
    let mine = where_ (is_of_user user) db.extractions in
    let keys = statuses mine in
    let counted = λ (s : ResultStatus). count_of-group_count status_eq status_eq_iff s keys in
    let sum = sum_counts-group_count status_eq keys in
    let each_status =
      λ (s : ResultStatus). counted s ∙ count-statuses (is_of_user user) s db.extractions in
    record {
      owner = refl;
      total = sum ∙ length-statuses (is_of_user user) db.extractions;
      each = each_status;
      good =
          ap₂ (λ (a b : ℕ). a + b) (each_status ResultStatus.pending_review)
            (each_status ResultStatus.confirmed);
      success_rate = refl;
      at_most_all =
          let two = count_two_le keys in
          let a = counted ResultStatus.pending_review in
          let b = counted ResultStatus.confirmed in omega (arith, two, a, b, sum);
      senders = top_five-IsRanking db.emails (is_mine user) db.extractions;
      failing = top_five-IsRanking db.emails (is_my_failure user) db.extractions;
    }
