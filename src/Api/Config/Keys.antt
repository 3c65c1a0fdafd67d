-- ===== src/Api/Config/Keys.antt =====
-- security/api_key.py: what using a key leaves behind.
use email_budget_api.Common.{
  ℕ, ◌≡◌, refl, ap, ◌∙◌, Option, none, some, Option-cases, inl, inr, [], ◌∷◌, first-update_where,
  ◌==◌, ==_refl,
}
use email_budget_api.Common.Text.{Text, text_eq}
use email_budget_api.Models.Ops.{ApiKey}
use email_budget_api.Models.Db.{Db}
use email_budget_api.Api.Config.Defs.{Auth, authenticated, find_key, touch, require_api_key}

the_key : Auth → Option ApiKey
the_key (authenticated key) = some key
the_key _ = none

find_key-touch :
    (hash_key : Text → Text) (now : ℕ) (raw : Text) (key : ApiKey) (db : Db)
    → find_key hash_key raw db ≡ some key
    → find_key hash_key raw (touch now key db) ≡ some (record key { last_used_at = some now })
unfolding find_key touch
find_key-touch hash_key now raw key db h =
    rw
      (
        first-update_where (λ (k : ApiKey). text_eq k.key_hash (hash_key raw)) (λ k. k.id == key.id)
            (λ k. record k { last_used_at = some now }) (λ x. refl) db.api_keys key h,
        ==_refl key.id,
      )
      refl

-- A key that is accepted is the stored key of the hash, and is accepted again by the next request,
-- at any time, with the time of this use on it.
pub key_stays_valid :
    (hash_key : Text → Text) (now later : ℕ) (raw : Text) (key : ApiKey) (db : Db)
    → (require_api_key hash_key now raw db).0 ≡ authenticated key
    → (find_key hash_key raw db ≡ some key)
      × ((require_api_key hash_key later raw (require_api_key hash_key now raw db).1).0
          ≡ authenticated (record key { last_used_at = some now }))
unfolding require_api_key the_key
key_stays_valid hash_key now later [] key db h = absurd (cc)
key_stays_valid hash_key now later (c ∷ raw) key db h =
    elim (Option-cases (find_key hash_key (c ∷ raw) db)) [
      | inl miss ↦ absurd (cc (rw (miss, require_api_key) at h))
      | inr (k, hit) ↦
          let same : some k ≡ some key = ap the_key (rw (hit, require_api_key) at h) in
          let found = hit ∙ same in
          (
            found,
            rw (found, require_api_key, find_key-touch hash_key now (c ∷ raw) key db found) refl,
          )
    ]
