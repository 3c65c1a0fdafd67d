-- ===== src/Api/Aliases/Defs.antt =====
-- api/v1/aliases.py, with schemas/aliases.py. `secrets.token_urlsafe` is a parameter, a token for
-- each attempt; the settings' domain too.
use email_budget_api.Common.{
  ℕ, zero, suc, ◌+◌, Bool, true, false, Option, none, some, List, [], ◌∷◌, ◌++◌, ◌==◌, map, first,
  where_, order_by, update_where,
}
use email_budget_api.Common.Text.{Text, text_eq, lower}
use email_budget_api.Models.Ops.{Alias}
use email_budget_api.Models.Db.{Db}

pub record AliasOut : Type 0 where
  pub id : ℕ
  pub alias_hash : Text
  pub email_address : Text
  pub external_user_id : Text
  pub label : Option Text
  pub is_active : Bool
  pub emails_received : ℕ
  pub created_at : ℕ

-- `_to_out`
unfoldable pub to_out : Text → Alias → AliasOut
to_out email_domain alias = record {
  id = alias.id;
  alias_hash = alias.alias_hash;
  email_address = alias.alias_hash ++ b'@' ∷ email_domain;
  external_user_id = alias.external_user_id;
  label = alias.label;
  is_active = alias.is_active;
  emails_received = alias.emails_received;
  created_at = alias.created_at;
}

abbrev pub max_token_attempts : ℕ
max_token_attempts = 5

pub record AliasCreate : Type 0 where
  pub external_user_id : Text
  pub label : Option Text

-- A new row, with the defaults of its columns.
unfoldable pub new_alias : ℕ → ℕ → Text → ℕ → AliasCreate → Alias
new_alias now id token key_id body = record {
  id = id;
  alias_hash = token;
  external_user_id = body.external_user_id;
  api_key_id = some key_id;
  label = body.label;
  is_active = true;
  emails_received = 0;
  created_at = now;
}

unfoldable pub add_alias : Alias → Db → Db
add_alias alias db = record db { aliases = db.aliases ++ alias ∷ []; next_id = db.next_id + 1 }

unfoldable pub find_hash : Text → Db → Option Alias
find_hash token db = first (λ a. text_eq a.alias_hash token) db.aliases

-- The loop of `create_alias`, with the attempts that are left: the row and the database, or none if
-- every token is taken.
unfoldable pub attempt_tokens : ℕ → (ℕ → Text) → ℕ → ℕ → AliasCreate → Db → Option (Alias × Db)
unfolding find_hash new_alias add_alias
attempt_tokens zero token_urlsafe now key_id body db = none
attempt_tokens (suc left) token_urlsafe now key_id body db =
    let token = lower (token_urlsafe left) in
    let rest = attempt_tokens left token_urlsafe now key_id body db in
    elim (find_hash token db) [
      | some taken ↦ rest
      | none ↦
          let alias = new_alias now db.next_id token key_id body in some (alias, add_alias alias db)
    ]

-- The responses of the routes: a body, 404, or 500.
pub data Answer {ℓ} (A : Type ℓ) : Type ℓ where
  ok : A → Answer A
  not_found : Answer A
  server_error : Answer A

-- POST
unfoldable pub create_alias : Text → (ℕ → Text) → ℕ → ℕ → AliasCreate → Db → Answer AliasOut × Db
unfolding attempt_tokens to_out
create_alias email_domain token_urlsafe now key_id body db =
    elim (attempt_tokens max_token_attempts token_urlsafe now key_id body db) [
      | none ↦ (server_error, db)
      | some (alias, db') ↦ (ok (to_out email_domain alias), db')
    ]

-- GET
unfoldable pub list_aliases : Text → Text → Db → List AliasOut
unfolding to_out
list_aliases email_domain external_user_id db = map (to_out email_domain) (
    order_by (λ a. a.created_at)
      (where_ (λ a. text_eq a.external_user_id external_user_id) db.aliases))

unfoldable pub find_alias : ℕ → Db → Option Alias
find_alias id db = first (λ a. a.id == id) db.aliases

-- GET /{alias_id}
unfoldable pub get_alias : Text → ℕ → Db → Answer AliasOut
unfolding find_alias to_out
get_alias email_domain id db = elim (find_alias id db) [
  | none ↦ not_found
  | some alias ↦ ok (to_out email_domain alias)
]

-- DELETE /{alias_id}
unfoldable pub deactivate_alias : ℕ → Db → Answer {0} Unit × Db
unfolding find_alias
deactivate_alias id db = elim (find_alias id db) [
  | none ↦ (not_found, db)
  | some alias ↦ (
    ok tt,
    record db {
      aliases =
          update_where (λ a. a.id == alias.id) (λ a. record a { is_active = false }) db.aliases;
    },
  )
]
