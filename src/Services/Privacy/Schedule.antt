-- ===== src/Services/Privacy/Schedule.antt =====
-- services/privacy_service.py: what scheduling a user's deletion leaves to do.
use email_budget_api.Common.{
  ℕ, ◌+◌, ◌*◌, ◌≡◌, refl, Bool, true, false, ◌&&◌, some, Option, List, [], ◌∷◌, arith, any, where_,
  count, update_where, is_some, All, All-map, All-self, Row, map, map-update_where, inl, inr, ap,
  Bool-cases, if◌then◌else◌,
}
use email_budget_api.Common.Text.{Text, text_eq, text_eq_iff}
use email_budget_api.Models.Ops.{Alias, ImportedEmail}
use email_budget_api.Models.Db.{Db}
use email_budget_api.Services.Privacy.Defs.{
  schedule_user_deletion, is_schedulable, owned_by, hashes_of, add_audit, seconds_per_day,
}

abbrev deactivate : Alias → Alias
deactivate a = record a { is_active = false }

abbrev mark : ℕ → ImportedEmail → ImportedEmail
mark deadline e = record e { pending_deletion_at = some deadline }

hashes-deactivate :
    (user : Text) (aliases : List Alias)
    → hashes_of user (update_where (owned_by user) deactivate aliases) ≡ hashes_of user aliases
unfolding hashes_of where_ update_where owned_by
hashes-deactivate user [] = refl
hashes-deactivate user (a ∷ aliases) = ground (arith, hashes-deactivate user aliases)

none_active :
    (user : Text) (aliases : List Alias)
    → count (λ a. owned_by user a && a.is_active) (update_where (owned_by user) deactivate aliases)
      ≡ 0
unfolding count update_where owned_by
none_active user [] = refl
none_active user (a ∷ aliases) = ground (arith, none_active user aliases)

deactivate_twice :
    (user : Text) (aliases : List Alias)
    → update_where (owned_by user) deactivate (update_where (owned_by user) deactivate aliases)
      ≡ update_where (owned_by user) deactivate aliases
unfolding update_where owned_by
deactivate_twice user [] = refl
deactivate_twice user (a ∷ aliases) = ground (arith, deactivate_twice user aliases)

none_schedulable :
    (hashes : List Text) (deadline : ℕ) (emails : List ImportedEmail)
    → count (is_schedulable hashes) (update_where (is_schedulable hashes) (mark deadline) emails)
      ≡ 0
unfolding count update_where is_schedulable
none_schedulable hashes deadline [] = refl
none_schedulable hashes deadline (e ∷ emails) =
    ground (arith, none_schedulable hashes deadline emails)

update_where_none :
    {A : Type 0} (p : A → Bool) (f : A → A) (xs : List A)
    → count p xs ≡ 0
    → update_where p f xs ≡ xs
unfolding count update_where
update_where_none p f [] h = refl
update_where_none p f (x ∷ xs) h = ground (arith, update_where_none p f xs)

-- Scheduling a user's deletion again, at any later time and with any grace, deactivates no alias,
-- schedules no email, and leaves aliases and emails, their deadlines included, as they are.
pub schedule_is_idempotent :
    (now later grace grace' : ℕ) (user : Text) (db : Db)
    → let db' = (schedule_user_deletion now grace user db).1 in
      let again = schedule_user_deletion later grace' user db' in
      (again.0 ≡ record { aliases_deactivated = 0; emails_scheduled_for_deletion = 0 })
      × (again.1.aliases ≡ db'.aliases)
      × (again.1.emails ≡ db'.emails)
unfolding schedule_user_deletion add_audit
schedule_is_idempotent now later grace grace' user db =
    let deadline = now + grace * seconds_per_day in
    let hashes = hashes-deactivate user db.aliases in
    let done = none_schedulable (hashes_of user db.aliases) deadline db.emails in
    (
      rw (none_active user db.aliases, hashes, done),
      deactivate_twice user db.aliases,
      rw hashes (update_where_none _ _ _ done),
    )

owned : (user : Text) (a : Alias) → a.external_user_id ≡ user → owned_by user a ≡ true
unfolding owned_by
owned user a own = (text_eq_iff a.external_user_id user).1 own

deactivated :
    (user : Text) (a : Alias) (mine : Bool)
    → owned_by user a ≡ mine
    → (if mine then deactivate a else a).external_user_id ≡ user
    → (if mine then deactivate a else a).is_active ≡ false
deactivated user a true e own = refl
deactivated user a false e own = absurd (cc (owned user a own, e))

-- The hash of each of a user's aliases is among those that are scheduled.
hashes-Row :
    (user : Text) (a : Alias) (aliases : List Alias)
    → Row a aliases
    → a.external_user_id ≡ user
    → any (λ h. text_eq a.alias_hash h) (hashes_of user aliases) ≡ true
unfolding hashes_of where_ any
hashes-Row user a [] row own = elim row [ ]
hashes-Row user a (b ∷ aliases) (inl same) own =
    let mine : owned_by user b ≡ true = rw same at (owned user a own) in
    let hash : text_eq a.alias_hash b.alias_hash ≡ true =
      (text_eq_iff a.alias_hash b.alias_hash).1 (ap (λ (c : Alias). c.alias_hash) same) in
    rw (mine, where_) (rw (hash, any) refl)
hashes-Row user a (b ∷ aliases) (inr row) own =
    let rest = hashes-Row user a aliases row own in
    elim (Bool-cases (owned_by user b)) [
      | inl mine ↦ rw (mine, where_) (rw (rest, any) (ground arith))
      | inr other ↦ rw (other, where_) rest
    ]

all_inactive :
    (user : Text) (aliases : List Alias)
    → All
        (λ (a : Alias). a.external_user_id ≡ user → a.is_active ≡ false)
        (update_where (owned_by user) deactivate aliases)
unfolding update_where owned_by
all_inactive user [] = tt
all_inactive user (a ∷ aliases) =
    (deactivated user a (owned_by user a) refl, all_inactive user aliases)

all_marked :
    (hashes : List Text) (deadline : ℕ) (emails : List ImportedEmail)
    → All
        (λ (e : ImportedEmail).
          any (λ h. text_eq e.alias_hash h) hashes ≡ true
          → is_some e.r2_key ≡ true
          → is_some e.pending_deletion_at ≡ true)
        (update_where (is_schedulable hashes) (mark deadline) emails)
unfolding update_where is_schedulable
all_marked hashes deadline [] = tt
all_marked hashes deadline (e ∷ emails) = ((λ h k. ground arith), all_marked hashes deadline emails)

-- The emails under a hash have a deadline.
abbrev HasDeadlines : List ImportedEmail → Text → Type 0
HasDeadlines emails hash =
    All
      (λ (e : ImportedEmail).
        e.alias_hash ≡ hash → is_some e.r2_key ≡ true → is_some e.pending_deletion_at ≡ true)
      emails

marked-HasDeadlines :
    (hashes : List Text) (deadline : ℕ) (hash : Text) (emails : List ImportedEmail)
    → any (λ h. text_eq hash h) hashes ≡ true
    → HasDeadlines (update_where (is_schedulable hashes) (mark deadline) emails) hash
marked-HasDeadlines hashes deadline hash emails listed =
    All-map
      {Q = λ (e : ImportedEmail).
        e.alias_hash ≡ hash → is_some e.r2_key ≡ true → is_some e.pending_deletion_at ≡ true}
      (λ e marked same. marked (rw (same, listed) refl)) _ (all_marked hashes deadline emails)

all_covered :
    (user : Text) (deadline : ℕ) (emails : List ImportedEmail) (table aliases : List Alias)
    → All (λ (a : Alias). Row a table) aliases
    → All
        (λ (a : Alias).
          a.external_user_id ≡ user
          → HasDeadlines
              (update_where (is_schedulable (hashes_of user table)) (mark deadline) emails)
              a.alias_hash)
        aliases
all_covered user deadline emails table [] rows = tt
all_covered user deadline emails table (a ∷ aliases) rows = (
  (λ own.
      marked-HasDeadlines (hashes_of user table) deadline a.alias_hash emails
        (hashes-Row user a table rows.0 own)),
  all_covered user deadline emails table aliases rows.1,
)

-- What scheduling leaves of an alias and of an email.
abbrev pub alias_columns : Alias → ℕ × Text × Text
alias_columns a = (a.id, a.alias_hash, a.external_user_id)

abbrev pub email_columns : ImportedEmail → ℕ × Text × Option Text
email_columns e = (e.id, e.alias_hash, e.r2_key)

-- After scheduling no alias of the user is active, and every raw email that came in under the hash
-- of an alias which the user had before, active or not, has a deadline for its deletion. All aliases
-- and emails stay, under the same hashes, with their users and their objects.
pub schedule_covers_user :
    (now grace : ℕ) (user : Text) (db : Db)
    → let db' = (schedule_user_deletion now grace user db).1 in
      All (λ (a : Alias). a.external_user_id ≡ user → a.is_active ≡ false) db'.aliases
      × All
          (λ (a : Alias).
            a.external_user_id ≡ user
            → All
                (λ (e : ImportedEmail).
                  e.alias_hash ≡ a.alias_hash
                  → is_some e.r2_key ≡ true
                  → is_some e.pending_deletion_at ≡ true)
                db'.emails)
          db.aliases
      × (map alias_columns db'.aliases ≡ map alias_columns db.aliases)
      × (map email_columns db'.emails ≡ map email_columns db.emails)
unfolding schedule_user_deletion add_audit
schedule_covers_user now grace user db = (
  all_inactive user db.aliases,
  all_covered user (now + grace * seconds_per_day) db.emails db.aliases db.aliases
      (All-self db.aliases),
  map-update_where _ _ _ (λ a. refl) db.aliases,
  map-update_where _ _ _ (λ e. refl) db.emails,
)
