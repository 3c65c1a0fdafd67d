-- ===== src/Services/Webhook/Routing.antt =====
-- services/webhook_delivery_service.py: whose receiver an event goes to, and the cache of a batch.
use email_budget_api.Common.{
  ℕ, ◌≤◌, ◌≡◌, ◌↔◌, refl, true, Option, none, some, Option-cases, subst, sym, ap, inl, inr, List,
  [], ◌∷◌, arith, All, All-map, All-of-where, Row, Row-where, leb, Bool-cases,
}
use email_budget_api.Common.Text.{Text}
use email_budget_api.Models.Ops.{WebhookConfig}
use email_budget_api.Models.Extraction.{WebhookOutbox}
use email_budget_api.Services.Webhook.Defs.{
  Client, Cache, key_eq, latest, configs_for, decrypted, get_config, cached, cfg_for, attempt,
  save_outbox, deliver_all,
}

key_eq_iff : (a b : Option ℕ) → (key_eq a b ≡ true) ↔ (a ≡ b)
unfolding key_eq
key_eq_iff a b = ground arith

module _ (client : Client) (configs : List WebhookConfig) where
  -- Every entry of the cache is what the query would give.
  abbrev IsCurrent : Cache → Type 0
  IsCurrent [] = Unit
  IsCurrent ((key, cfg) ∷ rest) = (cfg ≡ get_config client key configs) × IsCurrent rest

  cached_current :
      (key : Option ℕ) (cache : Cache) (cfg : Option (Text × Text))
      → IsCurrent cache
      → cached key cache ≡ some cfg
      → cfg ≡ get_config client key configs
  unfolding cached
  cached_current key [] cfg v h = cc
  cached_current key ((k, c) ∷ rest) cfg v h =
      ground (arith, key_eq_iff k key, cached_current key rest cfg v.1)

  cfg_for-IsCurrent :
      (key : Option ℕ) (cache : Cache)
      → IsCurrent cache
      → ((cfg_for client configs key cache).0 ≡ get_config client key configs)
        × IsCurrent (cfg_for client configs key cache).1
  unfolding cfg_for
  cfg_for-IsCurrent key cache v = elim (Option-cases (cached key cache)) [
    | inl miss ↦ rw (miss, cfg_for) (refl, (refl, v))
    | inr (cfg, hit) ↦ rw (hit, cfg_for) (cached_current key cache cfg v hit, v)
  ]

  -- The loop of `process_due` with a query for each row.
  pub deliver_uncached : ℕ → List WebhookOutbox → List WebhookOutbox → List WebhookOutbox
  deliver_uncached now [] outbox = outbox
  deliver_uncached now (row ∷ rows) outbox =
      deliver_uncached now rows
        (save_outbox (attempt client now (get_config client row.api_key_id configs) row) outbox)

  deliver_all_current :
      (now : ℕ) (cache : Cache) (rows outbox : List WebhookOutbox)
      → IsCurrent cache
      → deliver_all client now configs cache rows outbox ≡ deliver_uncached now rows outbox
  unfolding deliver_all deliver_uncached
  deliver_all_current now cache [] outbox v = refl
  deliver_all_current now cache (row ∷ rows) outbox v =
      let (same, v') = cfg_for-IsCurrent row.api_key_id cache v in
      rw (← same)
        (deliver_all_current now (cfg_for client configs row.api_key_id cache).1 rows _ v')

  -- The cache of a batch changes nothing: each row of the batch goes to the receiver that
  -- `get_config` finds for the row's own key.
  pub cache_is_transparent :
      (now : ℕ) (rows outbox : List WebhookOutbox)
      → deliver_all client now configs [] rows outbox ≡ deliver_uncached now rows outbox
  cache_is_transparent now rows outbox = deliver_all_current now [] rows outbox tt

IsLatest : WebhookConfig → List WebhookConfig → Type 0
IsLatest c configs =
    Row c configs × All (λ (d : WebhookConfig). d.created_at ≤ c.created_at) configs

IsLatest-newer :
    (x d : WebhookConfig) (xs : List WebhookConfig)
    → IsLatest d xs
    → d.created_at ≤ x.created_at
    → IsLatest x (x ∷ xs)
unfolding IsLatest
IsLatest-newer x d xs h le = (inl refl, (omega arith, All-map (λ y k. omega arith) xs h.1))

IsLatest-older :
    (x d : WebhookConfig) (xs : List WebhookConfig)
    → IsLatest d xs
    → x.created_at ≤ d.created_at
    → IsLatest d (x ∷ xs)
unfolding IsLatest
IsLatest-older x d xs h le = (inr h.0, (le, h.1))

latest_single :
    (x c : WebhookConfig) (xs : List WebhookConfig) → latest xs ≡ none → x ≡ c → IsLatest c (x ∷ xs)
unfolding latest IsLatest
latest_single x c [] h e =
    (inl (sym e), (ground (arith, ap (λ (k : WebhookConfig). k.created_at) e), tt))
latest_single x c (y ∷ ys) h e = absurd (ground arith)

latest-IsLatest :
    (configs : List WebhookConfig) (c : WebhookConfig)
    → latest configs ≡ some c
    → IsLatest c configs
unfolding latest
latest-IsLatest [] c h = cc
latest-IsLatest (x ∷ xs) c h = elim (Option-cases (latest xs)) [
  | inl e ↦ latest_single x c xs e (ground arith)
  | inr (d, e) ↦ elim (Bool-cases (leb d.created_at x.created_at)) [
    | inl le ↦
        let same : x ≡ c = ground arith in
        subst (λ (y : WebhookConfig). IsLatest y (x ∷ xs)) same
          (IsLatest-newer x d xs (latest-IsLatest xs d e) (ground arith))
    | inr gt ↦
        let same : d ≡ c = ground arith in
        subst (λ (y : WebhookConfig). IsLatest y (x ∷ xs)) same
          (IsLatest-older x d xs (latest-IsLatest xs d e) (ground arith))
  ]
]

-- What the receiver of a keyed event was read from.
pub record Receiver (client : Client) (key : ℕ) (configs : List WebhookConfig) (url secret : Text)
    : Type 0 where
  pub config : WebhookConfig
  pub stored : Row config configs
  pub own : config.api_key_id ≡ some key
  pub address : config.webhook_url ≡ url
  pub readable : client.decrypt config.webhook_secret_encrypted ≡ some secret
  pub newest :
      All
        (λ (d : WebhookConfig). d.api_key_id ≡ some key → d.created_at ≤ config.created_at)
        configs

decrypted_lem :
    (client : Client) (c : WebhookConfig) (url secret : Text)
    → decrypted client c ≡ some (url, secret)
    → (c.webhook_url ≡ url) × (client.decrypt c.webhook_secret_encrypted ≡ some secret)
unfolding decrypted
decrypted_lem client c url secret h = ground arith

-- A keyed event goes to the receiver of its own key and to no other: to the newest configuration
-- that was stored for the key, with its URL and its decrypted secret.
pub keyed_event_routing :
    (client : Client) (key : ℕ) (configs : List WebhookConfig) (url secret : Text)
    → get_config client (some key) configs ≡ some (url, secret)
    → Receiver client key configs url secret
unfolding get_config configs_for IsLatest
keyed_event_routing client key configs url secret h =
    elim (Option-cases (latest (configs_for (some key) configs))) [
      | inl e ↦ absurd (ground arith)
      | inr (c, e) ↦
          let own = λ (d : WebhookConfig). key_eq d.api_key_id (some key) in
          let (found, newest) = latest-IsLatest (configs_for (some key) configs) c e in
          let (stored, mine) = Row-where own configs c found in
          let (address, readable) = decrypted_lem client c url secret (ground arith) in
          record {
            config = c;
            stored = stored;
            own = (key_eq_iff c.api_key_id (some key)).0 mine;
            address = address;
            readable = readable;
            newest =
                All-map (λ d k same. k ((key_eq_iff d.api_key_id (some key)).1 same)) configs
                  (All-of-where _ own configs newest);
          }
    ]
