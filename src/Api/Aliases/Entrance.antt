-- ===== src/Api/Aliases/Entrance.antt =====
-- api/v1/aliases.py against api/internal.py: which addresses let mail in.
use email_budget_api.Common.{
  ℕ, zero, suc, ◌≡◌, refl, sym, ◌∙◌, ap, true, false, none, some, Option-cases, inl, inr, List, [],
  ◌∷◌, ◌++◌, first, first-append, subst, first-update_where, ==_refl, ◌==◌,
}
use mathlib.Core.Option.{some-injective}
use email_budget_api.Common.Text.{Text, text_eq, text_eq_refl, lower, lower-lower}
use email_budget_api.Models.Ops.{Alias}
use email_budget_api.Models.Db.{Db}
use email_budget_api.Api.Internal.{check_alias, active, deactivated}
use email_budget_api.Api.Aliases.Defs.{
  AliasCreate, AliasOut, ok, attempt_tokens, find_hash, new_alias, add_alias, create_alias, to_out,
  find_alias, deactivate_alias, max_token_attempts,
}

-- A token that is stored: new, in lower case, active, and of the row that was added.
pub record IsAdmitted (alias : Alias) (db db' : Db) : Type 0 where
  pub fresh : find_hash alias.alias_hash db ≡ none
  pub added : db'.aliases ≡ db.aliases ++ alias ∷ []
  pub lowered : lower alias.alias_hash ≡ alias.alias_hash
  pub is_open : alias.is_active ≡ true

attempt_tokens-IsAdmitted :
    (left : ℕ) (token_urlsafe : ℕ → Text) (now key_id : ℕ) (body : AliasCreate) (db : Db)
    (alias : Alias) (db' : Db)
    → attempt_tokens left token_urlsafe now key_id body db ≡ some (alias, db')
    → IsAdmitted alias db db'
unfolding attempt_tokens new_alias add_alias
attempt_tokens-IsAdmitted zero token_urlsafe now key_id body db alias db' h = cc
attempt_tokens-IsAdmitted (suc left) token_urlsafe now key_id body db alias db' h =
    elim (Option-cases (find_hash (lower (token_urlsafe left)) db)) [
      | inr (taken, e) ↦
          attempt_tokens-IsAdmitted left token_urlsafe now key_id body db alias db'
            (rw (e, attempt_tokens) at h)
      | inl e ↦
          let q = some-injective _ _ (rw (e, attempt_tokens) at h) in
          subst (λ (x : Alias × Db). IsAdmitted x.0 db x.1) q
            (record {
              fresh = e;
              added = refl;
              lowered = lower-lower (token_urlsafe left);
              is_open = refl;
            })
    ]

single :
    (alias : Alias)
    → first (λ (a : Alias). text_eq a.alias_hash alias.alias_hash) (alias ∷ []) ≡ some alias
unfolding first
single alias = rw (text_eq_refl alias.alias_hash) refl

admitted_found :
    (alias : Alias) (db db' : Db)
    → IsAdmitted alias db db'
    → first (λ (a : Alias). text_eq a.alias_hash alias.alias_hash) db'.aliases ≡ some alias
unfolding find_hash
admitted_found alias db db' v =
    subst
      (λ (aliases : List Alias).
        first (λ (a : Alias). text_eq a.alias_hash alias.alias_hash) aliases ≡ some alias)
      (sym v.added)
      (first-append (λ (a : Alias). text_eq a.alias_hash alias.alias_hash) db.aliases (alias ∷ [])
          v.fresh
        ∙ single alias)

admitted_open :
    (alias : Alias) (db db' : Db)
    → IsAdmitted alias db db'
    → (address : Text) → lower address ≡ alias.alias_hash
    → check_alias address db' ≡ active
unfolding check_alias
admitted_open alias db db' v address e =
    rw (e, admitted_found alias db db' v, v.is_open, check_alias)

created :
    (email_domain : Text) (token_urlsafe : ℕ → Text) (now key_id : ℕ) (body : AliasCreate) (db : Db)
    (out : AliasOut)
    → (create_alias email_domain token_urlsafe now key_id body db).0 ≡ ok out
    → (alias : Alias) × (out ≡ to_out email_domain alias)
      × IsAdmitted alias db (create_alias email_domain token_urlsafe now key_id body db).1
unfolding create_alias
created email_domain token_urlsafe now key_id body db out h =
    elim (Option-cases (attempt_tokens max_token_attempts token_urlsafe now key_id body db)) [
      | inl e ↦ absurd (cc (rw (e, create_alias) at h))
      | inr ((alias, db'), e) ↦
          rw (e, create_alias)
            (
              alias,
              cc (rw (e, create_alias) at h),
              attempt_tokens-IsAdmitted max_token_attempts token_urlsafe now key_id body db alias
                  db' e,
            )
    ]

-- An alias that is created lets mail in at once, in whatever case its address is written.
pub created_alias_is_active :
    (email_domain : Text) (token_urlsafe : ℕ → Text) (now key_id : ℕ) (body : AliasCreate) (db : Db)
    (out : AliasOut) (address : Text)
    → (create_alias email_domain token_urlsafe now key_id body db).0 ≡ ok out
    → lower address ≡ out.alias_hash
    → check_alias address (create_alias email_domain token_urlsafe now key_id body db).1 ≡ active
unfolding to_out
created_alias_is_active email_domain token_urlsafe now key_id body db out address h e =
    let (alias, same, v) = created email_domain token_urlsafe now key_id body db out h in
    admitted_open alias db _ v address (e ∙ ap (λ (x : AliasOut). x.alias_hash) same)

-- An alias that is deactivated is refused at the edge, in whatever case its address is written, if
-- no other alias has its hash.
pub deactivated_alias_is_refused :
    (id : ℕ) (alias : Alias) (db : Db) (address : Text)
    → find_alias id db ≡ some alias
    → find_hash alias.alias_hash db ≡ some alias
    → lower address ≡ alias.alias_hash
    → check_alias address (deactivate_alias id db).1 ≡ deactivated
unfolding deactivate_alias check_alias find_hash
deactivated_alias_is_refused id alias db address h own e = rw (
  h,
  e,
  first-update_where (λ (a : Alias). text_eq a.alias_hash alias.alias_hash) (λ a. a.id == alias.id)
      (λ a. record a { is_active = false }) (λ x. refl) db.aliases alias own,
  ==_refl alias.id,
  deactivate_alias,
  check_alias,
)
