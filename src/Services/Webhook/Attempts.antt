-- ===== src/Services/Webhook/Attempts.antt =====
-- services/webhook_delivery_service.py: the attempts at a row of the outbox.
use email_budget_api.Common.{
  ℕ, ◌+◌, ◌≤◌, ◌<◌, ◌≡◌, ◌≢◌, refl, Bool, true, false, Option, none, some, List, [], ◌∷◌, arith,
  All, All-where, All-order_by, All-take, All-update_where, length, is_some, leb, Bool-cases, inl,
  inr, ◌⊎◌, subst, sym, ap,
}
use email_budget_api.Common.Text.{Text}
use email_budget_api.Models.Ops.{WebhookConfig}
use email_budget_api.Models.Extraction.{WebhookOutbox, OutboxStatus, pending, delivered, failed}
use email_budget_api.Models.Db.{Db}
use email_budget_api.Services.Webhook.Defs.{
  Client, max_attempts, batch, backoff_seconds, is_due, due_rows, settle, attempt, outcome_of,
  build_request, cfg_for, save_outbox, deliver_all, process_due, Cache,
}

-- What holds of the counters of a row in each status.
abbrev CountsOf : OutboxStatus → WebhookOutbox → Type 0
CountsOf pending row = row.attempts < max_attempts
CountsOf delivered row =
    (row.attempts ≤ max_attempts)
    × (0 < row.attempts)
    × (is_some row.delivered_at ≡ true)
    × (row.last_error ≡ none)
CountsOf failed row = (row.attempts ≡ max_attempts) × (is_some row.last_error ≡ true)

abbrev pub IsConsistent : WebhookOutbox → Type 0
IsConsistent row = CountsOf row.status row

settle-IsConsistent :
    (now : ℕ) (url : Text) (ok : Bool) (info : Text) (row : WebhookOutbox)
    → row.status ≡ pending
    → row.attempts < max_attempts
    → IsConsistent (settle now url (ok, info) row)
unfolding settle
settle-IsConsistent now url true info row p h = ground arith
settle-IsConsistent now url false info row p h =
    elim (Bool-cases (leb max_attempts (row.attempts + 1))) [
      | inl last ↦ rw (last, settle) (ground arith)
      | inr more ↦ rw (more, settle) (ground arith)
    ]

pending_counts :
    (row : WebhookOutbox) → IsConsistent row → row.status ≡ pending → row.attempts < max_attempts
pending_counts row v p = rw p at v

attempt-IsConsistent :
    (client : Client) (now : ℕ) (cfg : Option (Text × Text)) (row : WebhookOutbox)
    → IsConsistent row
    → row.status ≡ pending
    → IsConsistent (attempt client now cfg row)
unfolding attempt
attempt-IsConsistent client now none row v p = rw p (rw p at v)
attempt-IsConsistent client now (some (url, secret)) row v p =
    let (ok, info) = outcome_of (client.post url (build_request client row secret)) in
    settle-IsConsistent now url ok info row p (rw p at v)

is_due-pending : (now : ℕ) (row : WebhookOutbox) → is_due now row ≡ true → row.status ≡ pending
unfolding is_due
is_due-pending now row h = ground arith

-- The rows of a batch are pending rows of the table.
due_rows-All :
    (P : WebhookOutbox → Type 0) (now : ℕ) (outbox : List WebhookOutbox)
    → All P outbox
    → All (λ r. P r × (is_due now r ≡ true)) (due_rows now outbox)
unfolding due_rows
due_rows-All P now outbox h =
    All-take _ batch _ (All-order_by _ _ _ (All-where P (is_due now) outbox h))

deliver_all-IsConsistent :
    (client : Client) (now : ℕ) (configs : List WebhookConfig) (cache : Cache)
    (rows outbox : List WebhookOutbox)
    → All (λ r. IsConsistent r × (is_due now r ≡ true)) rows
    → All IsConsistent outbox
    → All IsConsistent (deliver_all client now configs cache rows outbox)
unfolding deliver_all save_outbox
deliver_all-IsConsistent client now configs cache [] outbox h k = k
deliver_all-IsConsistent client now configs cache (row ∷ rows) outbox h k =
    let (cfg, cache') = cfg_for client configs row.api_key_id cache in
    deliver_all-IsConsistent client now configs cache' rows _ h.1 (
      All-update_where IsConsistent _ _ outbox
        (λ r _ _. attempt-IsConsistent client now cfg row h.0.0 (is_due-pending now row h.0.1)) k)

-- A poll keeps every row of the outbox consistent: a pending row has had fewer than five attempts,
-- a failed one exactly five and the last error, a delivered one between one and five, the time of
-- delivery and no error.
pub process_due-IsConsistent :
    (client : Client) (now : ℕ) (db : Db)
    → All IsConsistent db.outbox
    → All IsConsistent (process_due client now db).1.outbox
unfolding process_due
process_due-IsConsistent client now db h =
    deliver_all-IsConsistent client now db.webhook_configs [] (due_rows now db.outbox) db.outbox
      (due_rows-All IsConsistent now db.outbox h) h

-- The answers that a row meets, one for each poll that finds it due with a receiver; a row that is
-- not pending is not tried again.
pub settle_all : List (ℕ × Bool × Text) → Text → WebhookOutbox → WebhookOutbox
settle_all [] url row = row
settle_all ((now, ok, info) ∷ rest) url row = elim row.status [
  | pending ↦ settle_all rest url (settle now url (ok, info) row)
  | _ ↦ row
]

-- An answer either ends the row or uses up an attempt.
settle_progress :
    (now : ℕ) (url : Text) (ok : Bool) (info : Text) (row : WebhookOutbox)
    → (settle now url (ok, info) row).attempts ≡ row.attempts + 1
unfolding settle
settle_progress now url true info row = refl
settle_progress now url false info row = ground arith

settle_all_terminal :
    (answers : List (ℕ × Bool × Text)) (url : Text) (row : WebhookOutbox)
    → row.status ≢ pending
    → settle_all answers url row ≡ row
unfolding settle_all
settle_all_terminal [] url row h = refl
settle_all_terminal (a ∷ answers) url row h = ground arith

pending-cases : (s : OutboxStatus) → (s ≡ pending) ⊎ (s ≢ pending)
pending-cases pending = inl refl
pending-cases delivered = inr (λ e. cc)
pending-cases failed = inr (λ e. cc)

-- Whatever the receiver answers and whenever, a consistent row is not pending any more after as
-- many answered attempts as it had left: delivery ends.
pub settle_all_ends :
    (answers : List (ℕ × Bool × Text)) (url : Text) (row : WebhookOutbox)
    → IsConsistent row
    → max_attempts ≤ row.attempts + length answers
    → (settle_all answers url row).status ≢ pending
unfolding settle_all
settle_all_ends [] url row v h = λ p. absurd (omega (arith, pending_counts row v p))
settle_all_ends ((now, ok, info) ∷ rest) url row v h = elim (pending-cases row.status) [
  | inl p ↦
      rw (p, settle_all)
        (settle_all_ends rest url (settle now url (ok, info) row)
          (settle-IsConsistent now url ok info row p (pending_counts row v p))
          (omega (arith, settle_progress now url ok info row)))
  | inr n ↦
      subst (λ (r : WebhookOutbox). r.status ≢ pending)
        (sym (settle_all_terminal ((now, ok, info) ∷ rest) url row n)) n
]

-- A row that was tried `k` times and waits for `due`.
record Waits (row : WebhookOutbox) (k due : ℕ) : Type 0 where
  is_pending : row.status ≡ pending
  tried : row.attempts ≡ k
  due_at : row.next_attempt_at ≡ due

failing_step :
    (t k : ℕ) (url info : Text) (row : WebhookOutbox)
    → row.status ≡ pending
    → row.attempts ≡ k
    → k < 4
    → Waits (settle t url (false, info) row) (k + 1) (t + backoff_seconds k)
unfolding settle
failing_step t k url info row p e h =
    let more : leb max_attempts (row.attempts + 1) ≡ false = ground arith in
    rw (more, settle)
      (record {
        is_pending = p;
        tried = omega arith;
        due_at = ap (λ (n : ℕ). t + backoff_seconds n) (omega arith);
      })

failing_end :
    (t : ℕ) (url info : Text) (row : WebhookOutbox)
    → row.attempts ≡ 4
    → (settle t url (false, info) row).status ≡ failed
unfolding settle
failing_end t url info row e = ground arith

-- The schedule of a row whose receiver never answers well: the five attempts, polled as soon as
-- they are due, fall one, five, fifteen and sixty minutes apart.
pub failing_schedule :
    (t : ℕ) (url info : Text) (row : WebhookOutbox)
    → row.status ≡ pending
    → row.attempts ≡ 0
    → let a = settle t url (false, info) row in
      let b = settle a.next_attempt_at url (false, info) a in
      let c = settle b.next_attempt_at url (false, info) b in
      let d = settle c.next_attempt_at url (false, info) c in
      let e = settle d.next_attempt_at url (false, info) d in
      (a.next_attempt_at ≡ t + 60)
      × (b.next_attempt_at ≡ t + 360)
      × (c.next_attempt_at ≡ t + 1260)
      × (d.next_attempt_at ≡ t + 4860)
      × (d.status ≡ pending)
      × (e.status ≡ failed)
unfolding backoff_seconds
failing_schedule t url info row p z =
    let a = failing_step t 0 url info row p z (omega arith) in
    let b = failing_step _ 1 url info _ a.is_pending a.tried (omega arith) in
    let c = failing_step _ 2 url info _ b.is_pending b.tried (omega arith) in
    let d = failing_step _ 3 url info _ c.is_pending c.tried (omega arith) in
    (
      a.due_at,
      omega (arith, a.due_at, b.due_at),
      omega (arith, a.due_at, b.due_at, c.due_at),
      omega (arith, a.due_at, b.due_at, c.due_at, d.due_at),
      d.is_pending,
      failing_end _ url info _ d.tried,
    )
