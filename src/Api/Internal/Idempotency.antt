-- ===== src/Api/Internal/Idempotency.antt =====
-- api/internal.py: what a delivery leaves behind for the raw object and for the next delivery of it.
use email_budget_api.Common.{
  ℕ, ◌≡◌, refl, subst, true, none, some, ◌⊎◌, inl, inr, List, [], ◌∷◌, ◌++◌, is_some, first,
  first-save, Row,
}
use email_budget_api.Common.Text.{Text, text_eq_refl, lower}
use email_budget_api.Models.Ops.{ImportedEmail}
use email_budget_api.Services.Duplicates.{column_eq}
use email_budget_api.Services.Persist.Frame.{SameEmail}
use email_budget_api.Api.Internal.Defs.{
  Env, World, EmailReceivedPayload, Outcome, acked, Response, duplicate, clamped_key, has_key,
  new_email, email_received, delete_orphan,
}
use email_budget_api.Api.Internal.Delivery.{
  names_email, IsKept, IsStored, Delivery, repeated, refused, crashed, stored,
  email_received-Delivery,
}

final_has_key :
    (env : Env) (payload : EmailReceivedPayload) (id : ℕ) (h : Text) (final : ImportedEmail)
    → SameEmail (new_email env id h payload) final
    → has_key (clamped_key payload) final ≡ true
unfolding has_key column_eq new_email
final_has_key env payload id h final same = rw (← same.r2_key) (text_eq_refl (clamped_key payload))

-- A stored email is what the query by its key finds.
stored_found :
    (env : Env) (payload : EmailReceivedPayload) (w w' : World) (r : Response)
    (final : ImportedEmail)
    → first (has_key (clamped_key payload)) w.emails ≡ none
    → IsStored (new_email env w.next_id (lower payload.alias_hash) payload) final w w' r
    → first (has_key (clamped_key payload)) w'.emails ≡ some final
stored_found env payload w w' r final new s = rw s.emails (
    first-save (λ (e : ImportedEmail). e.id) (has_key (clamped_key payload)) final
      (new_email env w.next_id (lower payload.alias_hash) payload) w.emails new
      (final_has_key env payload w.next_id (lower payload.alias_hash) final s.same) s.same.id)

-- The raw object has an owner: a row with its key.
abbrev pub IsOwned : EmailReceivedPayload → World → Type 0
IsOwned payload w = is_some (first (has_key (clamped_key payload)) w.emails) ≡ true

Row-last : {A : Type 0} (xs : List A) (a : A) → Row a (xs ++ a ∷ [])
Row-last [] a = inl refl
Row-last (x ∷ xs) a = inr (Row-last xs a)

same_response : {o : Outcome} {r s : Response} → o ≡ acked r → o ≡ acked s → r ≡ s
same_response h p = cc

module _ (env : Env) (payload : EmailReceivedPayload) (w : World) where
  IsOwned-or_deleted :
      {o : Outcome} {w' : World} {r : Response}
      → Delivery env payload w o w'
      → o ≡ acked r
      → IsOwned payload w' ⊎ Row (clamped_key payload) w'.deletions
  IsOwned-or_deleted (repeated e old _ same) h = inl (rw (same, old))
  IsOwned-or_deleted (refused _ _ _ same _) h =
      inr (rw same (unfold delete_orphan in Row-last w.deletions (clamped_key payload)))
  IsOwned-or_deleted (crashed e _) h = absurd (cc)
  IsOwned-or_deleted {w'} (stored r final new _ _ _ s) h =
      inl (rw (stored_found env payload w w' r final new s))

  -- Every acknowledged delivery leaves the raw object owned by an email row, or a deletion of it
  -- was tried: no object is orphaned.
  pub no_orphan :
      (r : Response)
      → (email_received env payload w).0 ≡ acked r
      → IsOwned payload (email_received env payload w).1
        ⊎ Row (clamped_key payload) (email_received env payload w).1.deletions
  no_orphan r h = IsOwned-or_deleted (email_received-Delivery env payload w) h

  kept_found :
      {o : Outcome} {w' : World} {r : Response} {id : ℕ}
      → Delivery env payload w o w'
      → o ≡ acked r
      → IsKept r
      → names_email r ≡ some id
      → (e : ImportedEmail) × (first (has_key (clamped_key payload)) w'.emails ≡ some e)
        × (e.id ≡ id)
  kept_found (repeated e old p _) h k n = absurd (subst IsKept (same_response h p) k)
  kept_found (refused _ _ p _ not_kept) h k n =
      absurd (not_kept (subst IsKept (same_response h p) k))
  kept_found (crashed p _) h k n = absurd (cc)
  kept_found {w'} (stored r final new _ _ p s) h k n =
      (final, stored_found env payload w w' r final new s, cc (s.named, same_response h p))

-- A retry of a delivery that stored a row, at any later time, with any settings and whatever R2
-- and the pipeline then do, is acknowledged as a duplicate of that row and changes nothing.
pub retry_is_duplicate :
    (env later : Env) (payload : EmailReceivedPayload) (w : World) (r : Response) (id : ℕ)
    → (email_received env payload w).0 ≡ acked r
    → IsKept r
    → names_email r ≡ some id
    → email_received later payload (email_received env payload w).1
      ≡ (acked (duplicate id), (email_received env payload w).1)
unfolding email_received
retry_is_duplicate env later payload w r id h k n =
    let (e, found, same) = kept_found env payload w (email_received-Delivery env payload w) h k n in
    rw (found, email_received) (cc same)
