-- ===== src/Api/Config/Defs.antt =====
-- api/v1/config.py, POST /webhook, security/api_key.py and seed/create_api_key.py. The check of a URL by httpx, Fernet and
-- sha256 are parameters.
use email_budget_api.Common.{
  ℕ, ◌+◌, Bool, Option, none, some, [], ◌∷◌, ◌++◌, ◌==◌, if◌then◌else◌, first, update_where,
}
use email_budget_api.Common.Text.{Text, codes, text_eq}
use email_budget_api.Models.Ops.{ApiKey, WebhookConfig}
use email_budget_api.Models.Db.{Db}

-- 401, or the key.
pub data Auth : Type 0 where
  missing_key invalid_key : Auth
  authenticated : ApiKey → Auth

unfoldable pub touch : ℕ → ApiKey → Db → Db
touch now key db = record db {
  api_keys =
      update_where (λ k. k.id == key.id) (λ k. record k { last_used_at = some now }) db.api_keys;
}

-- The key that is stored for a raw key.
unfoldable pub find_key : (Text → Text) → Text → Db → Option ApiKey
find_key hash_key raw db = first (λ k. text_eq k.key_hash (hash_key raw)) db.api_keys

unfoldable pub require_api_key : (Text → Text) → ℕ → Text → Db → Auth × Db
unfolding find_key touch
require_api_key hash_key now [] db = (missing_key, db)
require_api_key hash_key now (c ∷ raw) db = elim (find_key hash_key (c ∷ raw) db) [
  | none ↦ (invalid_key, db)
  | some key ↦ (authenticated key, touch now key db)
]

pub record WebhookConfigBody : Type 0 where
  pub webhook_url : Text
  pub webhook_secret : Text

pub data ConfigAnswer : Type 0 where
  configured : (webhook_url : Text) → ConfigAnswer
  invalid_url : ConfigAnswer
  server_error : ConfigAnswer

-- The row for a secret that is encrypted already.
unfoldable pub new_config : Text → ℕ → ℕ → ApiKey → WebhookConfigBody → WebhookConfig
new_config encrypted now id key body = record {
  id = id;
  api_key_id = some key.id;
  webhook_url = body.webhook_url;
  webhook_secret_encrypted = encrypted;
  created_at = now;
}

-- seed/create_api_key.py, for the random part of the key: the raw key that is printed, and the
-- database.
unfoldable pub create_api_key : (Text → Text) → ℕ → Text → Text → Db → Text × Db
create_api_key hash_key now token label db =
    let raw = codes "eb_" ++ token in
    (
      raw,
      record db {
        api_keys =
            db.api_keys
            ++ record {
              id = db.next_id;
              key_hash = hash_key raw;
              label = some label;
              created_at = now;
              last_used_at = none;
            }
              ∷ [];
        next_id = db.next_id + 1;
      },
    )

-- POST /webhook, for an authenticated key. The encryption raises, here `none`, if no key for it is
-- set.
unfoldable pub set_webhook_config :
    (Text → Bool) → (Text → Option Text) → ℕ → ApiKey → WebhookConfigBody → Db → ConfigAnswer × Db
unfolding new_config
set_webhook_config is_valid_url encrypt now key body db =
    if is_valid_url body.webhook_url
    then elim (encrypt body.webhook_secret) [
      | none ↦ (server_error, db)
      | some encrypted ↦ (
        configured body.webhook_url,
        record db {
          webhook_configs = db.webhook_configs ++ new_config encrypted now db.next_id key body ∷ [];
          next_id = db.next_id + 1;
        },
      )
    ]
    else (invalid_url, db)
