-- ===== src/Tests/Webhooks.antt =====
-- services/webhook_delivery_service.py: one waiting event and its receiver.
use email_budget_api.Common.{
  ℕ, ◌≡◌, ◌≢◌, [], ◌∷◌, Bool, false, refl, some, List, All, arith, where_,
}
use email_budget_api.Common.Text.{Text, codes}
use email_budget_api.Models.Ops.{WebhookConfig}
use email_budget_api.Models.Extraction.{pending, failed}
use email_budget_api.Models.Db.{Db}
use email_budget_api.Services.Webhook.{
  Client, response, process_due, settle, deliver_all, get_config,
}
use email_budget_api.Services.Webhook.Attempts.{
  IsConsistent, process_due-IsConsistent, settle_all, settle_all_ends, failing_schedule,
}
use email_budget_api.Services.Webhook.Routing.{
  deliver_uncached, cache_is_transparent, Receiver, keyed_event_routing,
}
use email_budget_api.Tests.Samples.{imported, waiting}

abbrev client : Client
client = record {
  decrypt = λ s. some s;
  hmac_sha256 = λ secret message. secret;
  json_body = λ _. codes "{}";
  time = 60;
  post = λ url request. response 503;
}

abbrev config : WebhookConfig
config = record {
  id = 8;
  api_key_id = some 7;
  webhook_url = codes "https://a";
  webhook_secret_encrypted = codes "s";
  created_at = 5;
}

abbrev queued : Db
queued = record imported { webhook_configs = config ∷ []; outbox = waiting ∷ [] }

process_due-IsConsistent_example : All IsConsistent (process_due client 60 queued).1.outbox
process_due-IsConsistent_example = process_due-IsConsistent client 60 queued (omega arith, tt)

abbrev refusals : List (ℕ × Bool × Text)
refusals =
    (60, false, codes "a")
    ∷ (120, false, codes "b")
    ∷ (420, false, codes "c")
    ∷ (1320, false, codes "d")
    ∷ (4920, false, codes "e")
    ∷ []

settle_all_ends_example : (settle_all refusals (codes "https://a") waiting).status ≢ pending
settle_all_ends_example =
    settle_all_ends refusals (codes "https://a") waiting (omega arith) (omega arith)

failing_schedule_example :
    let a = settle 60 (codes "https://a") (false, codes "a") waiting in
    let b = settle a.next_attempt_at (codes "https://a") (false, codes "a") a in
    let c = settle b.next_attempt_at (codes "https://a") (false, codes "a") b in
    let d = settle c.next_attempt_at (codes "https://a") (false, codes "a") c in
    let e = settle d.next_attempt_at (codes "https://a") (false, codes "a") d in
    (a.next_attempt_at ≡ 120)
    × (b.next_attempt_at ≡ 420)
    × (c.next_attempt_at ≡ 1320)
    × (d.next_attempt_at ≡ 4920)
    × (d.status ≡ pending)
    × (e.status ≡ failed)
failing_schedule_example = failing_schedule 60 (codes "https://a") (codes "a") waiting refl refl

cache_is_transparent_example :
    deliver_all client 60 queued.webhook_configs [] (waiting ∷ waiting ∷ []) queued.outbox
    ≡ deliver_uncached client queued.webhook_configs 60 (waiting ∷ waiting ∷ []) queued.outbox
cache_is_transparent_example =
    cache_is_transparent client queued.webhook_configs 60 (waiting ∷ waiting ∷ []) queued.outbox

keyed_event_routing_example :
    Receiver client 7 queued.webhook_configs (codes "https://a") (codes "s")
unfolding get_config where_
keyed_event_routing_example =
    keyed_event_routing client 7 queued.webhook_configs (codes "https://a") (codes "s") refl
