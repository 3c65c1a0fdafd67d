-- ===== src/Api/Statistics/Senders.antt =====
-- api/v1/feedback.py, GET /stats/extraction: the lists of senders, against a count of the rows.
use email_budget_api.Common.{
  ℕ, ◌+◌, ◌≡◌, refl, ap₂, ◌∙◌, Bool, false, ◌&&◌, Bool-cases, inl, inr, none, some, List, [], ◌∷◌,
  arith, where_, count, count-append, ◌==◌, if◌then◌else◌,
}
use email_budget_api.Common.Text.{Text, text_eq, text_eq_iff}
use email_budget_api.Models.Ops.{ImportedEmail}
use email_budget_api.Models.Extraction.{ExtractionResult, ResultStatus}
use email_budget_api.Api.Extractions.Listing.{status_eq}
use email_budget_api.Api.Statistics.Defs.{top_five, sender_domains, domains_of}
use email_budget_api.Api.Statistics.Ranking.{IsRanking, top-IsRanking}

abbrev pub is_mine : Text → ExtractionResult → Bool
is_mine user r = text_eq r.external_user_id user

abbrev pub is_my_failure : Text → ExtractionResult → Bool
is_my_failure user r = is_mine user r && status_eq r.status ResultStatus.extraction_failed

-- The email came from the domain.
abbrev pub is_from : Text → ImportedEmail → Bool
is_from domain e = elim e.resolved_sender_domain [ none ↦ false | some d ↦ text_eq d domain ]

-- How many pairs there are of a row with the property and its email, if it came from the domain.
abbrev pub sender_total :
    (ExtractionResult → Bool) → List ImportedEmail → List ExtractionResult → Text → ℕ
sender_total p emails [] domain = 0
sender_total p emails (r ∷ rows) domain =
    (if p r
      then count (λ (e : ImportedEmail). (e.id == r.email_id) && is_from domain e) emails
      else 0)
    + sender_total p emails rows domain

count-domains_of :
    (p : ImportedEmail → Bool) (domain : Text) (emails : List ImportedEmail)
    → count (λ k. text_eq k domain) (domains_of (where_ p emails))
      ≡ count (λ (e : ImportedEmail). p e && is_from domain e) emails
unfolding count domains_of where_
count-domains_of p domain [] = refl
count-domains_of p domain (e ∷ emails) = ground (arith, count-domains_of p domain emails)

count-sender_domains :
    (p : ExtractionResult → Bool) (emails : List ImportedEmail) (rows : List ExtractionResult)
    (domain : Text)
    → count (λ k. text_eq k domain) (sender_domains emails (where_ p rows))
      ≡ sender_total p emails rows domain
unfolding count sender_domains where_
count-sender_domains p emails [] domain = refl
count-sender_domains p emails (r ∷ rows) domain =
    let rest = count-sender_domains p emails rows domain in
    elim (Bool-cases (p r)) [
      | inr miss ↦ rw (miss, where_) (omega (arith, rest))
      | inl hit ↦
          let own = count-domains_of (λ (e : ImportedEmail). e.id == r.email_id) domain emails in
          rw (hit, where_)
            (count-append (λ k. text_eq k domain)
                (domains_of (where_ (λ (e : ImportedEmail). e.id == r.email_id) emails))
                (sender_domains emails (where_ p rows))
              ∙ ap₂ (λ (a b : ℕ). a + b) own rest)
    ]

pub top_five-IsRanking :
    (emails : List ImportedEmail) (p : ExtractionResult → Bool) (rows : List ExtractionResult)
    → IsRanking text_eq text_eq_iff 5 (sender_total p emails rows) (top_five emails (where_ p rows))
unfolding top_five
top_five-IsRanking emails p rows =
    top-IsRanking text_eq text_eq_iff 5 (sender_total p emails rows)
      (sender_domains emails (where_ p rows)) (count-sender_domains p emails rows)
