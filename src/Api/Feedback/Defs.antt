-- ===== src/Api/Feedback/Defs.antt =====
-- api/v1/feedback.py, POST /feedback/category.
use email_budget_api.Common.{
  ℕ, ◌+◌, Bool, true, false, ◌&&◌, Option, none, some, [], ◌∷◌, ◌++◌, ◌==◌, leb, if◌then◌else◌,
  first, count, update_where,
}
use email_budget_api.Strings.{upper}
use email_budget_api.Common.Text.{Text, text_eq}
use email_budget_api.Models.Ops.{MerchantRule, MatchType, CategoryFeedbackLog}
use email_budget_api.Models.Db.{Db}

abbrev pub rule_threshold : ℕ
rule_threshold = 3

pub record CategoryFeedbackBody : Type 0 where
  pub extraction_id : Option ℕ
  pub merchant_normalized : Text
  pub category_confirmed : Text

pub record FeedbackOut : Type 0 where
  pub confirmations : ℕ
  pub rule_created_or_updated : Bool
  pub rule_created : Bool

unfoldable pub is_exact : MatchType → Bool
is_exact MatchType.exact = true
is_exact _ = false

-- The log entries that the count ranges over.
unfoldable pub is_confirmation : Text → Text → CategoryFeedbackLog → Bool
is_confirmation merchant category entry =
    text_eq entry.merchant_normalized merchant && text_eq entry.category_confirmed category

unfoldable pub add_feedback : ℕ → CategoryFeedbackBody → Db → Db
add_feedback now body db = record db {
  feedback_log =
      db.feedback_log
      ++ record {
        id = db.next_id;
        extraction_id = body.extraction_id;
        merchant_normalized = body.merchant_normalized;
        category_confirmed = body.category_confirmed;
        created_at = now;
      }
        ∷ [];
  next_id = db.next_id + 1;
}

-- The WHERE clause of the query for the rule of a merchant.
unfoldable pub is_rule_of : Text → MerchantRule → Bool
unfolding is_exact
is_rule_of pattern rule = text_eq rule.pattern pattern && is_exact rule.match_type

unfoldable pub new_rule : ℕ → ℕ → CategoryFeedbackBody → ℕ → MerchantRule
unfolding upper
new_rule now id body confirmations = record {
  id = id;
  pattern = upper body.merchant_normalized;
  match_type = MatchType.exact;
  normalized_name = body.merchant_normalized;
  category = some body.category_confirmed;
  priority = 50;
  confirmation_count = confirmations;
  created_at = now;
}

-- The rule is created or brought up to date: whether it was created, and the database.
unfoldable pub learn : ℕ → CategoryFeedbackBody → ℕ → Db → Bool × Db
unfolding is_rule_of new_rule
learn now body confirmations db =
    elim (first (is_rule_of (upper body.merchant_normalized)) db.merchant_rules) [
      | none ↦ (
        true,
        record db {
          merchant_rules = db.merchant_rules ++ new_rule now db.next_id body confirmations ∷ [];
          next_id = db.next_id + 1;
        },
      )
      | some rule ↦ (
        false,
        record db {
          merchant_rules =
              update_where (λ r. r.id == rule.id)
                (λ _. record rule {
                  category = some body.category_confirmed;
                  confirmation_count = confirmations;
                })
                db.merchant_rules;
        },
      )
    ]

unfoldable pub category_feedback : ℕ → CategoryFeedbackBody → Db → FeedbackOut × Db
unfolding add_feedback is_confirmation learn
category_feedback now body db =
    let logged = add_feedback now body db in
    let confirmations =
      count (is_confirmation body.merchant_normalized body.category_confirmed)
        logged.feedback_log in
    let enough = leb rule_threshold confirmations in
    let (rule_created, learned) = learn now body confirmations logged in
    (
      record {
        confirmations = confirmations;
        rule_created_or_updated = enough;
        rule_created = if enough then rule_created else false;
      },
      if enough then learned else logged,
    )
