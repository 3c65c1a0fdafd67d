-- ===== src/Tests/Configuring.antt =====
-- api/v1/config.py and security/api_key.py with one key.
use email_budget_api.Common.{◌≡◌, refl, true, none, some, [], ◌∷◌, arith, first}
use email_budget_api.Common.Text.{codes, text_eq}
use email_budget_api.Models.Ops.{ApiKey}
use email_budget_api.Models.Db.{Db}
use email_budget_api.Services.Webhook.{Client, response, get_config}
use email_budget_api.Api.Config.{
  WebhookConfigBody, set_webhook_config, require_api_key, find_key, authenticated, configured,
}
use email_budget_api.Api.Config.Receivers.{configured_receiver_is_used, other_keys_keep_receiver}
use email_budget_api.Api.Config.Keys.{key_stays_valid}
use email_budget_api.Tests.Samples.{registered}

abbrev poster : Client
poster = record {
  decrypt = λ s. some s;
  hmac_sha256 = λ secret message. secret;
  json_body = λ _. codes "{}";
  time = 60;
  post = λ url request. response 200;
}

abbrev api_key : ApiKey
api_key = record { id = 7; key_hash = codes "h"; label = none; created_at = 1; last_used_at = none }

abbrev keyed : Db
keyed = record registered { api_keys = api_key ∷ [] }

abbrev receiver : WebhookConfigBody
receiver = record { webhook_url = codes "https://b"; webhook_secret = codes "s" }

configured_receiver_is_used_example :
    let (answer, db') = set_webhook_config (λ _. true) (λ s. some s) 9 api_key receiver keyed in
    (answer ≡ configured (codes "https://b"))
    × (get_config poster (some 7) db'.webhook_configs ≡ some (codes "https://b", codes "s"))
configured_receiver_is_used_example =
    configured_receiver_is_used poster (λ _. true) (λ s. some s) (codes "s") 9 api_key receiver
      keyed refl refl refl tt

other_keys_keep_receiver_example :
    get_config poster
      (some 6)
      (set_webhook_config (λ _. true) (λ s. some s) 9 api_key receiver keyed).1.webhook_configs
    ≡ get_config poster (some 6) keyed.webhook_configs
other_keys_keep_receiver_example =
    other_keys_keep_receiver poster (λ _. true) (λ s. some s) 9 6 api_key receiver keyed
      (omega arith)

key_stays_valid_example :
    (find_key (λ s. s) (codes "h") keyed ≡ some api_key)
    × ((require_api_key (λ s. s) 8 (codes "h") (require_api_key (λ s. s) 5 (codes "h") keyed).1).0
        ≡ authenticated (record api_key { last_used_at = some 5 }))
unfolding require_api_key first text_eq
key_stays_valid_example = key_stays_valid (λ s. s) 5 8 (codes "h") api_key keyed refl
