-- ===== src/Api/Feedback/Learning.antt =====
-- api/v1/feedback.py: when a rule is learned, and what it says.
use email_budget_api.Common.{
  ℕ, ◌+◌, ◌≤◌, ◌<◌, ◌≡◌, refl, ap, ◌∙◌, true, Bool-cases, Option, none, some, Option-cases, inl,
  inr, arith, leb, first, first_sound, count, count-append, first-save_found, first-last,
}
use email_budget_api.Strings.{upper}
use email_budget_api.Common.Text.{text_eq_refl}
use email_budget_api.Models.Ops.{MerchantRule}
use email_budget_api.Models.Db.{Db}
use email_budget_api.Api.Feedback.Defs.{
  CategoryFeedbackBody, FeedbackOut, rule_threshold, category_feedback, add_feedback,
  is_confirmation, is_rule_of, is_exact, learn, new_rule,
}

-- The query of the route for the rule of the merchant of a request.
abbrev pub rule_for : CategoryFeedbackBody → Db → Option MerchantRule
rule_for body db = first (is_rule_of (upper body.merchant_normalized)) db.merchant_rules

-- How often the category of a request was confirmed for its merchant.
abbrev pub confirmed_times : CategoryFeedbackBody → Db → ℕ
confirmed_times body db =
    count (is_confirmation body.merchant_normalized body.category_confirmed) db.feedback_log

-- A rule that says what the request confirms.
pub record IsLearned (body : CategoryFeedbackBody) (confirmations : ℕ) (db : Db) : Type 0 where
  pub rule : MerchantRule
  pub in_force : rule_for body db ≡ some rule
  pub category : rule.category ≡ some body.category_confirmed
  pub counted : rule.confirmation_count ≡ confirmations

new_rule_applies :
    (now id : ℕ) (body : CategoryFeedbackBody) (n : ℕ)
    → is_rule_of (upper body.merchant_normalized) (new_rule now id body n) ≡ true
unfolding is_rule_of new_rule is_exact
new_rule_applies now id body n = rw (text_eq_refl (upper body.merchant_normalized)) refl

learn-IsLearned :
    (now : ℕ) (body : CategoryFeedbackBody) (n : ℕ) (db : Db)
    → IsLearned body n (learn now body n db).1
unfolding learn is_rule_of new_rule
learn-IsLearned now body n db = elim (Option-cases (rule_for body db)) [
  | inl miss ↦
      rw (miss, learn)
        (record {
          rule = new_rule now db.next_id body n;
          in_force =
              first-last (is_rule_of (upper body.merchant_normalized)) db.merchant_rules _ miss
                (new_rule_applies now db.next_id body n);
          category = refl;
          counted = refl;
        })
  | inr (rule, hit) ↦
      let rule' : MerchantRule = record rule {
        category = some body.category_confirmed;
        confirmation_count = n;
      } in
      rw (hit, learn)
        (record {
          rule = rule';
          in_force =
              first-save_found (λ (r : MerchantRule). r.id)
                (is_rule_of (upper body.merchant_normalized)) rule rule' db.merchant_rules hit refl
                (first_sound (is_rule_of (upper body.merchant_normalized)) db.merchant_rules rule
                  hit);
          category = refl;
          counted = refl;
        })
]

learn_created :
    (now : ℕ) (body : CategoryFeedbackBody) (n : ℕ) (db : Db)
    → (learn now body n db).0 ≡ true
    → rule_for body db ≡ none
unfolding learn
learn_created now body n db h = elim (Option-cases (rule_for body db)) [
  | inl miss ↦ miss
  | inr (rule, hit) ↦ absurd (cc (rw (hit, learn) at h))
]

-- What a confirmation of a category does.
pub record IsRecorded (body : CategoryFeedbackBody) (db : Db) (out : FeedbackOut) (db' : Db)
    : Type 0 where
  pub counted : out.confirmations ≡ confirmed_times body db + 1
  pub logged : confirmed_times body db' ≡ out.confirmations
  pub waiting : out.confirmations < rule_threshold → db'.merchant_rules ≡ db.merchant_rules
  pub learned : rule_threshold ≤ out.confirmations → IsLearned body out.confirmations db'
  pub created :
      out.rule_created ≡ true → (rule_threshold ≤ out.confirmations) × (rule_for body db ≡ none)

entry_counts :
    (now : ℕ) (body : CategoryFeedbackBody) (db : Db)
    → confirmed_times body (add_feedback now body db) ≡ confirmed_times body db + 1
unfolding add_feedback is_confirmation count
entry_counts now body db =
    count-append _ db.feedback_log _
    ∙ rw (text_eq_refl body.merchant_normalized, text_eq_refl body.category_confirmed) refl

feedback_log-learn :
    (now : ℕ) (body : CategoryFeedbackBody) (n : ℕ) (db : Db)
    → (learn now body n db).1.feedback_log ≡ db.feedback_log
unfolding learn
feedback_log-learn now body n db = ground arith

-- Each confirmation is counted; below the threshold of three no rule changes, and from the third
-- on the rule for the merchant has the confirmed category and the count, created only if there was
-- none.
pub category_feedback-IsRecorded :
    (now : ℕ) (body : CategoryFeedbackBody) (db : Db)
    → let x = category_feedback now body db in IsRecorded body db x.0 x.1
unfolding category_feedback
category_feedback-IsRecorded now body db =
    let logged = add_feedback now body db in
    let n = confirmed_times body logged in
    elim (Bool-cases (leb rule_threshold n)) [
      | inl enough ↦
          rw (enough, category_feedback)
            (record {
              counted = entry_counts now body db;
              logged =
                  ap (count (is_confirmation body.merchant_normalized body.category_confirmed))
                    (feedback_log-learn now body n logged);
              waiting = λ h. absurd (ground arith);
              learned = λ _. learn-IsLearned now body n logged;
              created =
                  λ h. (ground arith, unfold add_feedback in learn_created now body n logged h);
            })
      | inr few ↦
          rw (few, category_feedback)
            (record {
              counted = entry_counts now body db;
              logged = refl;
              waiting = λ _. unfold add_feedback in refl;
              learned = λ h. absurd (ground arith);
              created = λ h. absurd (cc);
            })
    ]
