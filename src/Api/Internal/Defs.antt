-- ===== src/Api/Internal/Defs.antt =====
-- api/internal.py, with schemas/internal.py. A request runs alone; a route that raises has
-- committed nothing. Deletions of objects from R2 are effects outside the database: the world
-- lists the keys on which one was tried.
use email_budget_api.Common.{
  ℕ, ◌+◌, ◌-◌, Bool, ◌&&◌, Option, none, some, List, [], ◌∷◌, ◌++◌, ◌==◌, ltb, leb, if◌then◌else◌,
  take, first, count, update_where,
}
use email_budget_api.Common.Text.{Text, codes, text_eq, lower, or_none}
use email_budget_api.Extraction.Models.{PipelineResult}
use email_budget_api.Models.Ops.{Alias, ImportedEmail, EmailStatus}
use email_budget_api.Models.Extraction.{ExtractionResult, alias_first_email_received, first_email}
use email_budget_api.Models.Db.{Db}
use email_budget_api.Services.Duplicates.{column_eq}
use email_budget_api.Services.Persist.{persist_result, save_email, add_event}

pub record EmailReceivedPayload : Type 0 where
  pub alias_hash : Text
  pub r2_key : Text
  pub from_address : Text
  pub subject : Text
  pub message_id : Text
  pub received_at : Text

-- What `r2_client.get_object` does: bytes, `R2ObjectMissing`, or any other exception.
pub data Fetch : Type 0 where
  found : Text → Fetch
  object_missing : Fetch
  failure : Fetch

-- What a request reads from outside: the clock, the settings, R2, and the parts of the program
-- that are used through what they return.
pub record Env : Type 0 where
  pub now : ℕ
  pub rate_limit_per_alias : ℕ
  pub rate_limit_window_seconds : ℕ
  pub get_object : Text → Fetch
  pub fromisoformat : Text → Option ℕ
  -- none where it raises
  pub run_pipeline : Text → Option PipelineResult

pub record World : Type 0 where
  pub db : Db
  pub open db use *
  pub deletions : List Text

pub data DropReason : Type 0 where
  unknown_or_inactive_alias rate_limited : DropReason

pub data Response : Type 0 where
  duplicate : (email_id : ℕ) → Response
  dropped : DropReason → Response
  r2_object_missing : (email_id : ℕ) → Response
  accepted : (email_id : ℕ) → EmailStatus → (extraction_id : Option ℕ) → Response

-- A response with status 200, or an exception: 500, and the queue tries again.
pub data Outcome : Type 0 where
  acked : Response → Outcome
  raised : Outcome

pub data AliasCheck : Type 0 where
  active deactivated unknown : AliasCheck

-- GET /internal/aliases/{alias_hash}: 200, 410 or 404.
unfoldable pub check_alias : Text → Db → AliasCheck
check_alias alias_hash db = elim (first (λ a. text_eq a.alias_hash (lower alias_hash)) db.aliases) [
  | none ↦ unknown
  | some alias ↦ if alias.is_active then active else deactivated
]

-- `value.replace("Z", "+00:00")`
unfoldable pub replace_z : Text → Text
replace_z [] = []
replace_z (c ∷ s) = if c == b'Z' then codes "+00:00" ++ replace_z s else c ∷ replace_z s

unfoldable pub delete_orphan : Text → World → World
delete_orphan r2_key w = record w { deletions = w.deletions ++ r2_key ∷ [] }

-- The clamped columns.
abbrev pub clamped_key : EmailReceivedPayload → Text
clamped_key payload = take 512 payload.r2_key

abbrev pub clamped_message_id : EmailReceivedPayload → Option Text
clamped_message_id payload = or_none (take 998 payload.message_id)

-- Which emails the queries of steps 1 and 3 and of the rate limit select.
unfoldable pub has_key : Text → ImportedEmail → Bool
unfolding column_eq
has_key r2_key e = column_eq e.r2_key r2_key

unfoldable pub has_message : Text → Text → ImportedEmail → Bool
unfolding column_eq
has_message alias_hash message_id e =
    text_eq e.alias_hash alias_hash && column_eq e.message_id message_id

unfoldable pub is_recent : Text → ℕ → ImportedEmail → Bool
is_recent alias_hash cutoff e = text_eq e.alias_hash alias_hash && leb cutoff e.created_at

unfoldable pub find_message : Text → Option Text → List ImportedEmail → Option ImportedEmail
unfolding has_message
find_message alias_hash none emails = none
find_message alias_hash (some message_id) emails = first (has_message alias_hash message_id) emails

unfoldable pub add_email : ImportedEmail → Db → Db
add_email email db = record db { emails = db.emails ++ email ∷ []; next_id = db.next_id + 1 }

-- Step 4, the branch of a missing object.
unfoldable pub missing_email : ImportedEmail → ImportedEmail
missing_email email = record email {
  status = EmailStatus.error;
  processing_errors = elim email.r2_key [
    | none ↦ none
    | some r2_key ↦ some (codes "R2 object missing: " ++ r2_key)
  ];
}

unfoldable pub record_missing : ImportedEmail → Db → Db
unfolding save_email missing_email
record_missing email db = save_email (missing_email email) db

-- Step 6, the counter.
unfoldable pub count_email : Alias → Db → Db
count_email alias db = record db {
  aliases =
      update_where (λ a. a.id == alias.id)
        (λ a. record a { emails_received = a.emails_received + 1 }) db.aliases;
}

extraction_id_of : Option ExtractionResult → Option ℕ
extraction_id_of none = none
extraction_id_of (some row) = some row.id

-- `scalar_one_or_none` of an alias, then the test `alias is None or not alias.is_active`.
unfoldable pub active_alias : Text → List Alias → Option Alias
active_alias alias_hash aliases = elim (first (λ a. text_eq a.alias_hash alias_hash) aliases) [
  | none ↦ none
  | some alias ↦ if alias.is_active then some alias else none
]

module _ (env : Env) where
  open env use {
    now, rate_limit_per_alias, rate_limit_window_seconds, get_object, fromisoformat, run_pipeline,
  }

  -- The rate limit of step 3b; 0 disables it.
  unfoldable pub over_limit : Text → List ImportedEmail → Bool
  unfolding is_recent
  over_limit alias_hash emails =
      ltb 0 rate_limit_per_alias
      && leb rate_limit_per_alias
          (count (is_recent alias_hash (now - rate_limit_window_seconds)) emails)

  -- The email record of step 3.
  unfoldable pub new_email : ℕ → Text → EmailReceivedPayload → ImportedEmail
  unfolding replace_z
  new_email id alias_hash payload = record {
    id = id;
    alias_hash = alias_hash;
    r2_key = some (clamped_key payload);
    from_address = or_none (take 320 payload.from_address);
    resolved_sender_domain = none;
    sender_source = none;
    subject = or_none payload.subject;
    message_id = clamped_message_id payload;
    received_at = fromisoformat (replace_z payload.received_at);
    status = EmailStatus.received;
    processing_errors = none;
    pending_deletion_at = none;
    created_at = now;
  }

  -- Step 6, the event of the first email.
  unfoldable pub announce_first : Alias → Text → ℕ → Db → Db
  unfolding add_event
  announce_first alias alias_hash email_id db =
      if alias.emails_received == 0
      then add_event now alias.api_key_id alias_first_email_received
          (first_email alias_hash alias.external_user_id email_id) db
      else db

  -- Steps 5 to 7, behind the run of the pipeline.
  unfoldable pub process : Alias → Text → ImportedEmail → PipelineResult → Db → Response × Db
  unfolding count_email announce_first persist_result extraction_id_of
  process alias alias_hash email result db =
      let (email', row, stored) =
        persist_result now email alias.external_user_id result alias.api_key_id db in
      (
        accepted email'.id email'.status (extraction_id_of row),
        announce_first alias alias_hash email'.id (count_email alias stored),
      )

  -- Steps 4 to 7, by what the fetch of the raw bytes did.
  unfoldable pub fetched : Fetch → Alias → Text → ImportedEmail → World → Outcome × World
  unfolding add_email record_missing process
  fetched failure alias alias_hash email w = (raised, w)
  fetched object_missing alias alias_hash email w = (
    acked (r2_object_missing email.id),
    record w { db = record_missing email (add_email email w.db) },
  )
  fetched (found raw) alias alias_hash email w = elim (run_pipeline raw) [
    | none ↦ (raised, w)
    | some result ↦
        let (response, db') = process alias alias_hash email result (add_email email w.db) in
        (acked response, record w { db = db' })
  ]

  -- Steps 3 to 7 for an email that is let in.
  unfoldable pub ingest : Alias → Text → EmailReceivedPayload → World → Outcome × World
  unfolding new_email fetched
  ingest alias alias_hash payload w =
      fetched (get_object (clamped_key payload)) alias alias_hash
        (new_email w.next_id alias_hash payload) w

  -- Steps 3 and 3b, once the alias is known to be active.
  unfoldable pub admit : Alias → Text → EmailReceivedPayload → World → Outcome × World
  unfolding find_message over_limit ingest delete_orphan
  admit alias alias_hash payload w =
      elim (find_message alias_hash (clamped_message_id payload) w.emails) [
        | some existing ↦ (acked (duplicate existing.id), delete_orphan (clamped_key payload) w)
        | none ↦
            if over_limit alias_hash w.emails
            then (acked (dropped rate_limited), delete_orphan (clamped_key payload) w)
            else ingest alias alias_hash payload w
      ]

  -- POST /internal/email-received
  unfoldable pub email_received : EmailReceivedPayload → World → Outcome × World
  unfolding has_key active_alias admit delete_orphan
  email_received payload w =
      let alias_hash = lower payload.alias_hash in
      elim (first (has_key (clamped_key payload)) w.emails) [
        | some existing ↦ (acked (duplicate existing.id), w)
        | none ↦ elim (active_alias alias_hash w.aliases) [
          | none ↦
              (acked (dropped unknown_or_inactive_alias), delete_orphan (clamped_key payload) w)
          | some alias ↦ admit alias alias_hash payload w
        ]
      ]
