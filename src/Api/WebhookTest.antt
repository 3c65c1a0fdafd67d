-- ===== src/Api/WebhookTest.antt =====
-- api/v1/config.py, POST /webhook/test.
use email_budget_api.Common.{ℕ, Bool, none, some}
use email_budget_api.Common.Text.{Text, codes}
use email_budget_api.Models.Ops.{ApiKey}
use email_budget_api.Models.Db.{Db}
use email_budget_api.Services.Webhook.{
  Client, Request, Reply, response, exception, is_success, sign, get_config,
}

-- `exception` is an `httpx.HTTPError`.
pub data TestAnswer : Type 0 where
  not_configured : TestAnswer
  answered : (is_delivered : Bool) → (status_code : ℕ) → TestAnswer
  unreachable : (error : Text) → TestAnswer

-- The JSON body, of which the quotes are code 34.
abbrev pub test_body : Text
test_body = codes "{\"event\":\"test\",\"data\":{\"message\":\"Email Budget API webhook test\"}}"

unfoldable pub answer_of : Reply → TestAnswer
unfolding is_success
answer_of (response status_code) = answered (is_success status_code) status_code
answer_of (exception description) = unreachable description

unfoldable pub test_webhook : Client → ApiKey → Db → TestAnswer
unfolding get_config sign answer_of
test_webhook client key db = elim (get_config client (some key.id) db.webhook_configs) [
  | none ↦ not_configured
  | some (url, secret) ↦
      let request : Request = record {
        body = test_body;
        timestamp = client.time;
        signature = sign client secret client.time test_body;
      } in
      answer_of (client.post url request)
]
