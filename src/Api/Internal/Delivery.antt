-- ===== src/Api/Internal/Delivery.antt =====
-- api/internal.py: the four ways in which a delivery ends.
use email_budget_api.Common.{
  ℕ, ◌<◌, ◌≡◌, refl, false, Bool-cases, Option, none, some, Option-cases, inl, inr, [], ◌∷◌, ◌++◌,
  arith, first, save,
}
use email_budget_api.Common.Text.{lower}
use email_budget_api.Extraction.Models.{PipelineResult}
use email_budget_api.Models.Ops.{Alias, ImportedEmail}
use email_budget_api.Services.Persist.{persist_result, add_event}
use email_budget_api.Services.Persist.Frame.{
  SameEmail, persist_result-SameEmail, emails-persist_result, next_id-persist_result,
}
use email_budget_api.Api.Internal.Defs.{
  Env, World, EmailReceivedPayload, Outcome, acked, raised, Response, duplicate, dropped,
  unknown_or_inactive_alias, rate_limited, r2_object_missing, accepted, Fetch, found,
  object_missing, failure, clamped_key, clamped_message_id, has_key, find_message, over_limit,
  new_email, add_email, record_missing, process, fetched, missing_email, ingest, admit,
  active_alias, email_received, delete_orphan, count_email, announce_first,
}

-- The identifier of the email that a response names.
abbrev pub names_email : Response → Option ℕ
names_email (duplicate id) = some id
names_email (dropped _) = none
names_email (r2_object_missing id) = some id
names_email (accepted id _ _) = some id

-- The responses of the deliveries that store a row.
abbrev pub IsKept : Response → Type 0
IsKept (r2_object_missing _) = Unit
IsKept (accepted _ _ _) = Unit
IsKept _ = ⊥

-- The email row that a stored delivery adds, and what it is when the request ends.
pub record IsStored (email final : ImportedEmail) (w w' : World) (r : Response) : Type 0 where
  pub same : SameEmail email final
  pub emails : w'.emails ≡ save (λ (e : ImportedEmail). e.id) final (w.emails ++ email ∷ [])
  pub deletions : w'.deletions ≡ w.deletions
  pub named : names_email r ≡ some final.id
  pub fresh : w.next_id < w'.next_id

-- What a request did, from the world `w` to the outcome `o` and the world `w'`.
pub data Delivery (env : Env) (payload : EmailReceivedPayload) (w : World) (o : Outcome)
    (w' : World) : Type 0 where
  repeated :
      (e : ImportedEmail)
      → first (has_key (clamped_key payload)) w.emails ≡ some e
      → o ≡ acked (duplicate e.id)
      → w' ≡ w
      → Delivery env payload w o w'
  refused :
      (r : Response)
      → first (has_key (clamped_key payload)) w.emails ≡ none
      → o ≡ acked r
      → w' ≡ delete_orphan (clamped_key payload) w
      → ¬ IsKept r
      → Delivery env payload w o w'
  crashed : o ≡ raised → w' ≡ w → Delivery env payload w o w'
  stored :
      (r : Response) (final : ImportedEmail)
      → first (has_key (clamped_key payload)) w.emails ≡ none
      → find_message (lower payload.alias_hash) (clamped_message_id payload) w.emails ≡ none
      → over_limit env (lower payload.alias_hash) w.emails ≡ false
      → o ≡ acked r
      → IsStored (new_email env w.next_id (lower payload.alias_hash) payload) final w w' r
      → Delivery env payload w o w'

module _ (env : Env) where
  module _ (alias : Alias) (payload : EmailReceivedPayload) (w : World) where
    email_added : ImportedEmail
    email_added = new_email env w.next_id (lower payload.alias_hash) payload

    process-IsStored :
        (result : PipelineResult)
        → (x : ImportedEmail) × IsStored email_added x w
            (record w {
              db =
                  (process env alias
                    (lower payload.alias_hash)
                    email_added
                    result
                    (add_email email_added w.db)).1;
            })
            (process env alias
              (lower payload.alias_hash)
              email_added
              result
              (add_email email_added w.db)).0
    unfolding process count_email announce_first add_event add_email
    process-IsStored result =
        let db = add_email email_added w.db in
        let stored =
          persist_result env.now email_added alias.external_user_id result alias.api_key_id db in
        (
          stored.0,
          record {
            same =
                persist_result-SameEmail env.now email_added alias.external_user_id result
                  alias.api_key_id db;
            emails = ground (
              arith,
              emails-persist_result env.now email_added alias.external_user_id result
                  alias.api_key_id db,
            );
            deletions = refl;
            named = refl;
            fresh = ground (
              arith,
              next_id-persist_result env.now email_added alias.external_user_id result
                  alias.api_key_id db,
            );
          },
        )

    missing-IsStored :
        IsStored email_added
          (missing_email email_added)
          w
          (record w { db = record_missing email_added (add_email email_added w.db) })
          (r2_object_missing email_added.id)
    unfolding record_missing add_email
    missing-IsStored = record {
      same = ground arith;
      emails = refl;
      deletions = refl;
      named = refl;
      fresh = omega arith;
    }

    fetched-Delivery :
        (f : Fetch)
        → first (has_key (clamped_key payload)) w.emails ≡ none
        → find_message (lower payload.alias_hash) (clamped_message_id payload) w.emails ≡ none
        → over_limit env (lower payload.alias_hash) w.emails ≡ false
        → let x = fetched env f alias (lower payload.alias_hash) email_added w in
          Delivery env payload w x.0 x.1
    unfolding fetched email_added
    fetched-Delivery failure nokey nomessage room = crashed refl refl
    fetched-Delivery object_missing nokey nomessage room =
        stored _ (missing_email email_added) nokey nomessage room refl missing-IsStored
    fetched-Delivery (found raw) nokey nomessage room = elim (Option-cases (env.run_pipeline raw)) [
      | inl failed ↦ rw (failed, fetched) (crashed refl refl)
      | inr (result, done) ↦
          let (final, s) = process-IsStored result in
          rw (done, fetched) (stored _ final nokey nomessage room refl s)
    ]

    admit-Delivery :
        first (has_key (clamped_key payload)) w.emails ≡ none
        → let x = admit env alias (lower payload.alias_hash) payload w in
          Delivery env payload w x.0 x.1
    unfolding admit ingest email_added
    admit-Delivery nokey =
        elim (Option-cases
          (find_message (lower payload.alias_hash) (clamped_message_id payload) w.emails)) [
            | inr (e, old) ↦ rw (old, admit) (refused (duplicate e.id) nokey refl refl (λ k. k))
            | inl new ↦ elim (Bool-cases (over_limit env (lower payload.alias_hash) w.emails)) [
              | inl full ↦
                  rw (new, full, admit) (refused (dropped rate_limited) nokey refl refl (λ k. k))
              | inr room ↦
                  rw (new, room, admit)
                    (fetched-Delivery (env.get_object (clamped_key payload)) nokey new room)
            ]
          ]

  -- Every delivery is a repetition, is refused, crashes or is stored.
  pub email_received-Delivery :
      (payload : EmailReceivedPayload) (w : World)
      → Delivery env payload w (email_received env payload w).0 (email_received env payload w).1
  unfolding email_received
  email_received-Delivery payload w =
      elim (Option-cases (first (has_key (clamped_key payload)) w.emails)) [
        | inr (e, old) ↦ rw (old, email_received) (repeated e old refl refl)
        | inl new ↦ elim (Option-cases (active_alias (lower payload.alias_hash) w.aliases)) [
          | inl unknown ↦
              rw (new, unknown, email_received)
                (refused (dropped unknown_or_inactive_alias) new refl refl (λ k. k))
          | inr (alias, is_active) ↦
              rw (new, is_active, email_received) (admit-Delivery alias payload w new)
        ]
      ]
