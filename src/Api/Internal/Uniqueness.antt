-- ===== src/Api/Internal/Uniqueness.antt =====
-- api/internal.py and the unique indexes of models/email.py: what the dedup queries keep true of
-- the table of emails, and what the rate limit bounds.
use email_budget_api.Common.{
  ℕ, ◌-◌, ◌≤◌, ◌<◌, ◌≡◌, ◌≢◌, sym, subst, ◌∙◌, Bool, false, Option, none, some, List, [], ◌∷◌, ◌++◌,
  arith, first, save_last, All, All-append, All-pure, All-map, All-map₂, first-none, count,
  count-append,
}
use mathlib.Core.Option.{some-injective}
use email_budget_api.Common.Text.{Text, text_eq_iff, lower}
use email_budget_api.Models.Ops.{ImportedEmail}
use email_budget_api.Services.Duplicates.{column_eq}
use email_budget_api.Services.Persist.Frame.{SameEmail}
use email_budget_api.Api.Internal.Defs.{
  Env, World, EmailReceivedPayload, Outcome, Response, clamped_key, clamped_message_id, has_key,
  has_message, find_message, is_recent, over_limit, new_email, email_received, delete_orphan,
}
use email_budget_api.Api.Internal.Delivery.{
  IsStored, Delivery, repeated, refused, crashed, stored, email_received-Delivery,
}

-- Two rows that the unique indexes allow together.
pub record Apart (x y : ImportedEmail) : Type 0 where
  pub ids : x.id ≢ y.id
  pub keys : (k : Text) → x.r2_key ≡ some k → y.r2_key ≢ some k
  pub messages :
      (m : Text) → x.alias_hash ≡ y.alias_hash → x.message_id ≡ some m → y.message_id ≢ some m

abbrev pub Unique : List ImportedEmail → Type 0
Unique [] = Unit
Unique (x ∷ xs) = All (Apart x) xs × Unique xs

-- The table of emails: identifiers that were given, and rows that the indexes allow.
pub record IsKeyed (w : World) : Type 0 where
  pub given : All (λ (e : ImportedEmail). e.id < w.next_id) w.emails
  pub unique : Unique w.emails

Unique-append :
    (xs : List ImportedEmail) (e : ImportedEmail)
    → All (λ x. Apart x e) xs
    → Unique xs
    → Unique (xs ++ e ∷ [])
Unique-append [] e h u = (tt, tt)
Unique-append (x ∷ xs) e h u =
    (All-append (Apart x) xs (e ∷ []) u.0 (h.0, tt), Unique-append xs e h.1 u.1)

no_key : (k : Text) (x : ImportedEmail) → has_key k x ≡ false → x.r2_key ≢ some k
unfolding has_key column_eq
no_key k x h = ground (arith, text_eq_iff k k)

has_message_complete :
    (a m : Text) (x : ImportedEmail)
    → has_message a m x ≡ false
    → x.alias_hash ≡ a
    → x.message_id ≢ some m
unfolding has_message column_eq
has_message_complete a m x h e = ground (arith, text_eq_iff a a, text_eq_iff m m)

-- No email of the alias has the message identifier, if there is one.
abbrev NoMessage : Text → Option Text → ImportedEmail → Type 0
NoMessage a o x = (m : Text) → o ≡ some m → x.alias_hash ≡ a → x.message_id ≢ some m

no_message :
    (a : Text) (o : Option Text) (emails : List ImportedEmail)
    → find_message a o emails ≡ none
    → All (NoMessage a o) emails
unfolding find_message
no_message a none emails h = All-pure _ (λ x m e. absurd (cc)) emails
no_message a (some m) emails h =
    All-map
      (λ x miss n e same.
        subst (λ (k : Text). x.message_id ≢ some k) (some-injective _ _ e)
          (has_message_complete a m x miss same))
      emails (first-none (has_message a m) emails h)

module _ (env : Env) (payload : EmailReceivedPayload) (w : World) (final : ImportedEmail) where
  Apart-final :
      SameEmail (new_email env w.next_id (lower payload.alias_hash) payload) final
      → (x : ImportedEmail) → (x.id < w.next_id) × (has_key (clamped_key payload) x ≡ false)
      → NoMessage (lower payload.alias_hash) (clamped_message_id payload) x
      → Apart x final
  unfolding new_email
  Apart-final same x (given, key) message = record {
    ids = omega (arith, same.id);
    keys = λ k e f. no_key (clamped_key payload) x key (cc (e, f, same.r2_key));
    messages = λ m a e f. message m (cc (f, same.message_id)) (cc (a, same.alias_hash)) e;
  }

  -- A stored email is appended.
  emails-stored :
      {w' : World} {r : Response}
      → All (λ (e : ImportedEmail). e.id < w.next_id) w.emails
      → IsStored (new_email env w.next_id (lower payload.alias_hash) payload) final w w' r
      → w'.emails ≡ w.emails ++ final ∷ []
  unfolding new_email
  emails-stored given s =
      s.emails
      ∙ save_last (λ (e : ImportedEmail). e.id) final _ w.emails
          (All-map (λ x h. omega (arith, s.same.id)) w.emails given) s.same.id

  stored-IsKeyed :
      {w' : World} {r : Response}
      → first (has_key (clamped_key payload)) w.emails ≡ none
      → find_message (lower payload.alias_hash) (clamped_message_id payload) w.emails ≡ none
      → IsStored (new_email env w.next_id (lower payload.alias_hash) payload) final w w' r
      → IsKeyed w
      → IsKeyed w'
  unfolding new_email
  stored-IsKeyed {w'} nokey nomessage s v =
      let apart =
        All-map₂ {R = λ x. Apart x final} (Apart-final s.same) w.emails
          (All-map₂ (λ x h k. (h, k)) w.emails v.given
            (first-none (has_key (clamped_key payload)) w.emails nokey))
          (no_message (lower payload.alias_hash) (clamped_message_id payload) w.emails nomessage) in
      record {
        given = rw (emails-stored v.given s) (
            All-append _ w.emails (final ∷ [])
              (All-map (λ x h. omega (arith, s.fresh)) w.emails v.given)
              (omega (arith, s.same.id, s.fresh), tt));
        unique = rw (emails-stored v.given s) (Unique-append w.emails final apart v.unique);
      }

Delivery-IsKeyed :
    {env : Env} {payload : EmailReceivedPayload} {w w' : World} {o : Outcome}
    → Delivery env payload w o w'
    → IsKeyed w
    → IsKeyed w'
unfolding delete_orphan
Delivery-IsKeyed (repeated _ _ _ same) v = subst IsKeyed (sym same) v
Delivery-IsKeyed (refused _ _ _ same _) v =
    subst IsKeyed (sym same) (record { given = v.given; unique = v.unique })
Delivery-IsKeyed (crashed _ same) v = subst IsKeyed (sym same) v
Delivery-IsKeyed {env} {payload} {w} (stored r final nokey nomessage _ _ s) v =
    stored-IsKeyed env payload w final nokey nomessage s v

-- Every delivery, however it ends, keeps the table of emails as its two unique indexes demand: no
-- two rows share an R2 key, nor a message identifier under one alias; all identifiers differ and
-- lie below the next one.
pub email_received-IsKeyed :
    (env : Env) (payload : EmailReceivedPayload) (w : World)
    → IsKeyed w
    → IsKeyed (email_received env payload w).1
email_received-IsKeyed env payload w v = Delivery-IsKeyed (email_received-Delivery env payload w) v

-- The emails of the alias that the rate limit counts at the time of a request.
abbrev pub recent_count : Env → Text → World → ℕ
recent_count env a w = count (is_recent a (env.now - env.rate_limit_window_seconds)) w.emails

count_one : (p : ImportedEmail → Bool) (e : ImportedEmail) → count p (e ∷ []) ≤ 1
unfolding count
count_one p e = ground arith

Delivery-rate :
    {env : Env} {payload : EmailReceivedPayload} {w w' : World} {o : Outcome}
    → Delivery env payload w o w'
    → IsKeyed w
    → 0 < env.rate_limit_per_alias
    → recent_count env (lower payload.alias_hash) w ≤ env.rate_limit_per_alias
    → recent_count env (lower payload.alias_hash) w' ≤ env.rate_limit_per_alias
unfolding delete_orphan over_limit
Delivery-rate (repeated _ _ _ same) v on h = rw same h
Delivery-rate (refused _ _ _ same _) v on h = rw same h
Delivery-rate (crashed _ same) v on h = rw same h
Delivery-rate {env} {payload} {w} (stored r final _ _ room _ s) v on h =
    let p = is_recent (lower payload.alias_hash) (env.now - env.rate_limit_window_seconds) in
    rw (emails-stored env payload w final v.given s, count-append p w.emails (final ∷ []))
      (ground (arith, count_one p final))

-- With the limit on, and a table of emails as the indexes demand, a delivery never takes the number of an alias's emails in the window above
-- the limit.
pub rate_limit_holds :
    (env : Env) (payload : EmailReceivedPayload) (w : World)
    → IsKeyed w
    → 0 < env.rate_limit_per_alias
    → recent_count env (lower payload.alias_hash) w ≤ env.rate_limit_per_alias
    → recent_count env (lower payload.alias_hash) (email_received env payload w).1
      ≤ env.rate_limit_per_alias
rate_limit_holds env payload w v on h = Delivery-rate (email_received-Delivery env payload w) v on h
