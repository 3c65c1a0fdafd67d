-- ===== src/Api/Config/Receivers.antt =====
-- api/v1/config.py against services/webhook_delivery_service.py: where events go once a receiver is
-- configured.
use email_budget_api.Common.{
  ℕ, ◌<◌, ◌≡◌, ◌≢◌, refl, ◌∙◌, Bool, true, false, Bool-cases, Option-cases, inl, inr, Option, some,
  List, [], ◌∷◌, ◌++◌, arith, where_, All, All-where, All-map, ==_refl, ◌==◌,
}
use email_budget_api.Common.Text.{Text}
use email_budget_api.Models.Ops.{ApiKey, WebhookConfig}
use email_budget_api.Models.Db.{Db}
use email_budget_api.Services.Webhook.{Client, get_config, configs_for, latest, decrypted, key_eq}
use email_budget_api.Api.Config.Defs.{WebhookConfigBody, set_webhook_config, new_config, configured}

where_hit :
    (p : WebhookConfig → Bool) (xs : List WebhookConfig) (c : WebhookConfig)
    → p c ≡ true
    → where_ p (xs ++ c ∷ []) ≡ where_ p xs ++ c ∷ []
unfolding where_
where_hit p [] c h = ground arith
where_hit p (x ∷ xs) c h = ground (arith, where_hit p xs c h)

where_miss :
    (p : WebhookConfig → Bool) (xs : List WebhookConfig) (c : WebhookConfig)
    → p c ≡ false
    → where_ p (xs ++ c ∷ []) ≡ where_ p xs
unfolding where_
where_miss p [] c h = ground arith
where_miss p (x ∷ xs) c h = ground (arith, where_miss p xs c h)

latest_last :
    (xs : List WebhookConfig) (c : WebhookConfig)
    → All (λ (d : WebhookConfig). d.created_at < c.created_at) xs
    → latest (xs ++ c ∷ []) ≡ some c
unfolding latest
latest_last [] c h = refl
latest_last (x ∷ xs) c h = rw (latest_last xs c h.1, latest) (ground (arith, h.0))

get_config_last :
    (client : Client) (key : ℕ) (configs : List WebhookConfig) (c : WebhookConfig)
    → key_eq c.api_key_id (some key) ≡ true
    → All (λ (d : WebhookConfig). d.created_at < c.created_at) configs
    → get_config client (some key) (configs ++ c ∷ []) ≡ decrypted client c
unfolding get_config configs_for
get_config_last client key configs c own newest =
    let mine = λ (d : WebhookConfig). key_eq d.api_key_id (some key) in
    let last = latest_last (where_ mine configs) c (
      All-map (λ d k. k.0) _
        (All-where (λ (d : WebhookConfig). d.created_at < c.created_at) mine configs newest)) in
    rw (where_hit mine configs c own, last, get_config) refl

get_config_other :
    (client : Client) (key : ℕ) (configs : List WebhookConfig) (c : WebhookConfig)
    → key_eq c.api_key_id (some key) ≡ false
    → get_config client (some key) (configs ++ c ∷ []) ≡ get_config client (some key) configs
unfolding get_config configs_for
get_config_other client key configs c other =
    rw
      (
        where_miss (λ (d : WebhookConfig). key_eq d.api_key_id (some key)) configs c other,
        get_config,
      )
      refl

-- A key's new receiver is in force at once: every event of the key goes to the configured URL with
-- the configured secret, if the secret can be encrypted and decrypted again and no configuration
-- is as new.
pub configured_receiver_is_used :
    (client : Client) (is_valid_url : Text → Bool) (encrypt : Text → Option Text) (cipher : Text)
    (now : ℕ) (key : ApiKey) (body : WebhookConfigBody) (db : Db)
    → is_valid_url body.webhook_url ≡ true
    → encrypt body.webhook_secret ≡ some cipher
    → client.decrypt cipher ≡ some body.webhook_secret
    → All (λ (d : WebhookConfig). d.created_at < now) db.webhook_configs
    → let (answer, db') = set_webhook_config is_valid_url encrypt now key body db in
      (answer ≡ configured body.webhook_url)
      × (get_config client (some key.id) db'.webhook_configs
          ≡ some (body.webhook_url, body.webhook_secret))
unfolding set_webhook_config new_config decrypted key_eq
configured_receiver_is_used client is_valid_url encrypt cipher now key body db valid sealed readable
      newest =
    let c = new_config cipher now db.next_id key body in
    rw (valid, sealed)
      (
        refl,
        get_config_last client key.id db.webhook_configs c (==_refl key.id) newest
            ∙ rw (readable, decrypted) refl,
      )

-- Configuring one key leaves the events of every other key where they went, whether or not the URL
-- is valid and the secret can be encrypted.
pub other_keys_keep_receiver :
    (client : Client) (is_valid_url : Text → Bool) (encrypt : Text → Option Text) (now other : ℕ)
    (key : ApiKey) (body : WebhookConfigBody) (db : Db)
    → key.id ≢ other
    → get_config client
        (some other)
        (set_webhook_config is_valid_url encrypt now key body db).1.webhook_configs
      ≡ get_config client (some other) db.webhook_configs
unfolding set_webhook_config new_config key_eq
other_keys_keep_receiver client is_valid_url encrypt now other key body db ne =
    let miss : (key.id == other) ≡ false = ground arith in
    elim (Bool-cases (is_valid_url body.webhook_url)) [
      | inr bad ↦ rw bad refl
      | inl valid ↦ elim (Option-cases (encrypt body.webhook_secret)) [
        | inl raised ↦ rw (valid, raised) refl
        | inr (cipher, sealed) ↦
            rw (valid, sealed)
              (get_config_other client other db.webhook_configs
                (new_config cipher now db.next_id key body) miss)
      ]
    ]
