-- ===== src/Services/Webhook/Defs.antt =====
-- services/webhook_delivery_service.py. `decrypt` (Fernet), `hmac_sha256`, the JSON encoding and
-- the HTTP client are parameters; a poll runs alone, with one reading of the clock.
use email_budget_api.Common.{
  ℕ, zero, suc, ◌+◌, ◌-◌, min, Bool, true, false, ◌&&◌, Option, none, some, List, [], ◌∷◌, ◌++◌,
  ◌==◌, leb, if◌then◌else◌, take, length, where_, order_by, update_where,
}
use email_budget_api.Common.Text.{Text, codes}
use email_budget_api.Extraction.Pipeline.{decimal}
use email_budget_api.Models.Ops.{WebhookConfig}
use email_budget_api.Models.Extraction.{WebhookOutbox, pending, delivered, failed}
use email_budget_api.Models.Db.{Db}

abbrev pub max_attempts : ℕ
max_attempts = 5

abbrev pub batch : ℕ
batch = 20

abbrev pub no_config_retry_seconds : ℕ
no_config_retry_seconds = 60

-- `BACKOFF_SECONDS[min(attempts - 1, 3)]`
unfoldable pub backoff_seconds : ℕ → ℕ
backoff_seconds zero = 60
backoff_seconds (suc zero) = 300
backoff_seconds (suc (suc zero)) = 900
backoff_seconds _ = 3600

-- The request that `build_request` makes: its body, and the headers that vary.
pub record Request : Type 0 where
  pub body : Text
  pub timestamp : ℕ
  pub signature : Text

-- What the HTTP client does: a status code, or an exception with its description.
pub data Reply : Type 0 where
  response : (status_code : ℕ) → Reply
  exception : (description : Text) → Reply

pub record Client : Type 0 where
  pub decrypt : Text → Option Text
  pub hmac_sha256 : (secret message : Text) → Text
  pub json_body : WebhookOutbox → Text
  pub time : ℕ
  pub post : (url : Text) → Request → Reply

-- `resp.is_success`
unfoldable pub is_success : ℕ → Bool
is_success status_code = leb 200 status_code && leb status_code 299

unfoldable pub outcome_of : Reply → Bool × Text
unfolding is_success
outcome_of (response status_code) = (is_success status_code, codes "HTTP " ++ decimal status_code)
outcome_of (exception description) = (false, description)

-- An optional UUID, compared as a dictionary key.
unfoldable pub key_eq : Option ℕ → Option ℕ → Bool
key_eq none none = true
key_eq none (some b) = false
key_eq (some a) none = false
key_eq (some a) (some b) = a == b

unfoldable pub is_due : ℕ → WebhookOutbox → Bool
is_due now row = elim row.status [ pending ↦ leb row.next_attempt_at now | _ ↦ false ]

-- The first of the rows with the latest `created_at`: `.order_by(created_at.desc()).limit(1)`.
unfoldable pub latest : List WebhookConfig → Option WebhookConfig
latest [] = none
latest (c ∷ cs) = elim (latest cs) [
  | none ↦ some c
  | some d ↦ if leb d.created_at c.created_at then some c else some d
]

-- The rows that the query of `get_config` ranges over.
unfoldable pub configs_for : Option ℕ → List WebhookConfig → List WebhookConfig
unfolding key_eq
configs_for none configs = configs
configs_for (some id) configs = where_ (λ c. key_eq c.api_key_id (some id)) configs

-- `info[:1000]`
unfoldable pub clip : Text → Text
clip = take 1000

-- The row after an attempt that was answered.
unfoldable pub settle : ℕ → Text → Bool × Text → WebhookOutbox → WebhookOutbox
unfolding backoff_seconds
settle now url (ok, info) row =
    let attempts = row.attempts + 1 in
    let tried : WebhookOutbox = record row { attempts = attempts; target_url = some url } in
    if ok
    then record tried { status = delivered; delivered_at = some now; last_error = none }
    else if leb max_attempts attempts
    then record tried { last_error = some (clip info); status = failed }
    else record tried {
      last_error = some (clip info);
      next_attempt_at = now + backoff_seconds (min (attempts - 1) 3);
    }

-- The rows of one batch: due, the longest due first.
unfoldable pub due_rows : ℕ → List WebhookOutbox → List WebhookOutbox
unfolding is_due
due_rows now outbox = take batch (order_by (λ r. r.next_attempt_at) (where_ (is_due now) outbox))

-- `cfg_cache`
abbrev pub Cache : Type 0
Cache = List (Option ℕ × Option (Text × Text))

unfoldable pub cached : Option ℕ → Cache → Option (Option (Text × Text))
unfolding key_eq
cached key [] = none
cached key ((k, cfg) ∷ rest) = if key_eq k key then some cfg else cached key rest

unfoldable pub save_outbox : WebhookOutbox → List WebhookOutbox → List WebhookOutbox
save_outbox row = update_where (λ r. r.id == row.id) (λ _. row)

module _ (client : Client) where
  open client use {decrypt, hmac_sha256, json_body, time, post}

  -- HMAC over "{timestamp}.{body}".
  unfoldable pub sign : Text → ℕ → Text → Text
  sign secret timestamp body = hmac_sha256 secret (decimal timestamp ++ b'.' ∷ body)

  unfoldable pub build_request : WebhookOutbox → Text → Request
  unfolding sign
  build_request row secret =
      let body = json_body row in
      record { body = body; timestamp = time; signature = sign secret time body }

  unfoldable pub decrypted : WebhookConfig → Option (Text × Text)
  decrypted cfg = elim (decrypt cfg.webhook_secret_encrypted) [
    | none ↦ none
    | some secret ↦ some (cfg.webhook_url, secret)
  ]

  unfoldable pub get_config : Option ℕ → List WebhookConfig → Option (Text × Text)
  unfolding decrypted configs_for latest
  get_config api_key_id configs = elim (latest (configs_for api_key_id configs)) [
    | none ↦ none
    | some cfg ↦ decrypted cfg
  ]

  -- One round of the loop, once the receiver is looked up.
  unfoldable pub attempt : ℕ → Option (Text × Text) → WebhookOutbox → WebhookOutbox
  unfolding outcome_of build_request settle
  attempt now none row = record row { next_attempt_at = now + no_config_retry_seconds }
  attempt now (some (url, secret)) row =
      settle now url (outcome_of (post url (build_request row secret))) row

  unfoldable pub cfg_for : List WebhookConfig → Option ℕ → Cache → Option (Text × Text) × Cache
  unfolding cached get_config
  cfg_for configs key cache = elim (cached key cache) [
    | some cfg ↦ (cfg, cache)
    | none ↦ let cfg = get_config key configs in (cfg, (key, cfg) ∷ cache)
  ]

  -- `for row in rows:`
  unfoldable pub deliver_all :
      ℕ → List WebhookConfig → Cache → List WebhookOutbox → List WebhookOutbox → List WebhookOutbox
  unfolding cfg_for attempt save_outbox
  deliver_all now configs cache [] outbox = outbox
  deliver_all now configs cache (row ∷ rows) outbox =
      let (cfg, cache') = cfg_for configs row.api_key_id cache in
      deliver_all now configs cache' rows (save_outbox (attempt now cfg row) outbox)

  -- The number of rows processed, and the database after the commit.
  unfoldable pub process_due : ℕ → Db → ℕ × Db
  unfolding due_rows deliver_all
  process_due now db =
      let rows = due_rows now db.outbox in
      (length rows, record db { outbox = deliver_all now db.webhook_configs [] rows db.outbox })
