-- ===== src/Tests/Ingest.antt =====
-- api/internal.py: the first email of a registered alias.
use email_budget_api.Common.{
  ◌≡◌, ◌≤◌, ◌⊎◌, refl, some, arith, Row, first, count, head?, order_by, where_,
}
use email_budget_api.Common.Text.{lower, lower_code, text_eq, or_none}
use email_budget_api.Models.Ops.{EmailStatus}
use email_budget_api.Services.Duplicates.{is_pending, is_candidate}
use email_budget_api.Api.Internal.{
  email_received, acked, Response, accepted, duplicate, clamped_key,
}
use email_budget_api.Api.Internal.Idempotency.{IsOwned, no_orphan, retry_is_duplicate}
use email_budget_api.Api.Internal.Uniqueness.{
  IsKeyed, email_received-IsKeyed, recent_count, rate_limit_holds,
}
use email_budget_api.Tests.Samples.{env, payload, world}

abbrev answer : Response
answer = accepted 4 EmailStatus.processed (some 6)

ingested : (email_received env payload world).0 ≡ acked answer
unfolding email_received first text_eq lower lower_code or_none count is_pending head? order_by
    where_ is_candidate
ingested = refl

world-IsKeyed : IsKeyed world
world-IsKeyed = record { given = tt; unique = tt }

no_orphan_example :
    IsOwned payload (email_received env payload world).1
    ⊎ Row (clamped_key payload) (email_received env payload world).1.deletions
no_orphan_example = no_orphan env payload world answer ingested

retry_is_duplicate_example :
    email_received env payload (email_received env payload world).1
    ≡ (acked (duplicate 4), (email_received env payload world).1)
retry_is_duplicate_example = retry_is_duplicate env env payload world answer 4 ingested tt refl

email_received-IsKeyed_example : IsKeyed (email_received env payload world).1
email_received-IsKeyed_example = email_received-IsKeyed env payload world world-IsKeyed

none_recent : recent_count env (lower payload.alias_hash) world ≤ 2
unfolding lower count
none_recent = omega arith

rate_limit_holds_example :
    recent_count env (lower payload.alias_hash) (email_received env payload world).1 ≤ 2
rate_limit_holds_example =
    rate_limit_holds env payload world world-IsKeyed (omega arith) none_recent
