-- ===== src/Extraction/Pipeline/Outcome.antt =====
-- extraction/pipeline.py: what every result of `run` keeps to, whatever the text stages find.
use email_budget_api.Common.{
  ℕ, ◌≡◌, ◌⊎◌, refl, true, false, Option, none, some, Option-cases, Bool-cases, inl, inr, arith,
  is_some,
}
use email_budget_api.Common.Text.{Text}
use email_budget_api.Extraction.Models.{
  ParsedEmail, ResolvedSender, Classification, EmailType, Fields, no_fields, Status, PipelineResult,
}
use email_budget_api.Extraction.Scorer.{score, route}
use email_budget_api.Extraction.Pipeline.Defs.{
  Stages, run, sender_result, classify, financial_result, non_financial_result, verification_result,
  extract_fields, fill_currency, fingerprint, refine,
}

-- What holds of a result, for each status.
pub record IsRouted (r : PipelineResult) : Type 0 where
  pub reviewable : r.status ≡ Status.pending_review → is_some r.fields.amount ≡ true
  pub failed : r.status ≡ Status.extraction_failed → r.fields.amount ≡ none
  pub currency : is_some r.fields.amount ≡ true → is_some r.fields.currency ≡ true
  pub fingerprint :
      (t : Text)
      → r.fingerprint ≡ some t
      → (is_some r.fields.amount ≡ true)
        × (is_some r.fields.transaction_date ≡ true)
        × (is_some r.merchant_normalized ≡ true)
  pub financial :
      (r.status ≡ Status.pending_review) ⊎ (r.status ≡ Status.extraction_failed)
      → r.classification.is_financial ≡ true
  pub quiet :
      r.status ≡ Status.non_financial
      → (r.fields ≡ no_fields) × (r.classification.is_financial ≡ false)

fill_currency_lem :
    (domain : Option Text) (fields : Fields)
    → is_some (fill_currency domain fields).amount ≡ true
    → is_some (fill_currency domain fields).currency ≡ true
unfolding fill_currency
fill_currency_lem domain fields h = ground arith

fingerprint_lem :
    (stages : Stages) (fields : Fields) (name : Option Text) (t : Text)
    → fingerprint stages fields name ≡ some t
    → (is_some fields.amount ≡ true)
      × (is_some fields.transaction_date ≡ true)
      × (is_some name ≡ true)
unfolding fingerprint
fingerprint_lem stages fields name t h = ground arith

refine_financial :
    (o : Option EmailType) (c : Classification)
    → c.is_financial ≡ true
    → (refine o c).is_financial ≡ true
unfolding refine
refine_financial o c h = ground arith

route_status :
    (overall : ℕ) (fields : Fields)
    → ((route overall fields).0 ≡ Status.pending_review) × (is_some fields.amount ≡ true)
      ⊎ ((route overall fields).0 ≡ Status.extraction_failed) × (fields.amount ≡ none)
unfolding route
route_status overall fields = elim (Option-cases fields.amount) [
  | inl e ↦ inr (rw (e, route) (refl, refl))
  | inr (f, e) ↦ inl (rw (e, route) (refl, refl))
]

module _ (stages : Stages) (sender : ResolvedSender) (classification : Classification) where
  financial_result-IsRouted :
      (parsed : ParsedEmail)
      → classification.is_financial ≡ true
      → IsRouted (financial_result stages parsed sender classification)
  unfolding financial_result extract_fields
  financial_result-IsRouted parsed h =
      let fields = extract_fields stages sender (stages.prepare parsed) in
      let routed = route_status (score fields).0 fields in
      record {
        reviewable = λ e. elim routed [ inl (_, k) ↦ k | inr (k, _) ↦ absurd (cc) ];
        failed = λ e. elim routed [ inl (k, _) ↦ absurd (cc) | inr (_, k) ↦ k ];
        currency = fill_currency_lem sender.domain _;
        fingerprint = fingerprint_lem stages fields _;
        financial = λ _. refine_financial _ classification h;
        quiet = λ e. elim routed [ inl (k, _) ↦ absurd (cc) | inr (k, _) ↦ absurd (cc) ];
      }

  non_financial_result-IsRouted :
      classification.is_financial ≡ false → IsRouted (non_financial_result sender classification)
  unfolding non_financial_result
  non_financial_result-IsRouted h = record {
    reviewable = λ e. absurd (cc);
    failed = λ e. absurd (cc);
    currency = λ e. absurd (cc);
    fingerprint = λ t e. absurd (cc);
    financial = λ e. elim e [ inl k ↦ absurd (cc) | inr k ↦ absurd (cc) ];
    quiet = λ _. (refl, h);
  }

sender_result-IsRouted :
    (stages : Stages) (parsed : ParsedEmail) (sender : ResolvedSender)
    → IsRouted (sender_result stages parsed sender)
unfolding sender_result verification_result
sender_result-IsRouted stages parsed sender =
    let classification = classify stages sender parsed.subject in
    elim (Option-cases (stages.detect parsed)) [
      | inr (v, e) ↦
          rw (e, sender_result)
            (record {
              reviewable = λ k. absurd (cc);
              failed = λ k. absurd (cc);
              currency = λ k. absurd (cc);
              fingerprint = λ t k. absurd (cc);
              financial = λ k. elim k [ inl l ↦ absurd (cc) | inr l ↦ absurd (cc) ];
              quiet = λ k. absurd (cc);
            })
      | inl e ↦ elim (Bool-cases classification.is_financial) [
        | inl hit ↦
            rw (e, hit, sender_result)
              (financial_result-IsRouted stages sender classification parsed hit)
        | inr miss ↦
            rw (e, miss, sender_result)
              (non_financial_result-IsRouted stages sender classification miss)
      ]
    ]

-- The pipeline returns a result exactly for the emails whose sender the resolver returns, and every
-- result is routed soundly: it is offered for review only with an amount and fails only without
-- one, every amount has a currency, a fingerprint rests on an amount, a date and a merchant, only
-- financial emails get either status, and one that is not leaves no field.
pub run-IsRouted :
    (stages : Stages) (raw : Text)
    → ((stages.resolve (stages.parse raw) ≡ none) × (run stages raw ≡ none))
      ⊎ ((sender : ResolvedSender) × (result : PipelineResult) × (stages.resolve (stages.parse raw)
            ≡ some sender)
          × (run stages raw ≡ some result)
          × IsRouted result)
unfolding run
run-IsRouted stages raw =
    let parsed = stages.parse raw in
    elim (Option-cases (stages.resolve parsed)) [
      | inl e ↦ inl (e, rw (e, run) refl)
      | inr (sender, e) ↦ inr (
        sender,
        sender_result stages parsed sender,
        e,
        rw (e, run) refl,
        sender_result-IsRouted stages parsed sender,
      )
    ]
