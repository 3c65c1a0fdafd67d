-- ===== src/Integrations.antt =====
-- integrations/r2_client.py, over what the S3 client of boto3 does with a key.
use email_budget_api.Common.Text.{Text}
use email_budget_api.Api.Internal.{Fetch, found, object_missing, failure}

-- A body that was read, the exception NoSuchKey, or any other exception.
pub data S3Reply : Type 0 where
  body : Text → S3Reply
  no_such_key : S3Reply
  s3_error : S3Reply

-- `get_object`
unfoldable pub get_object : (Text → S3Reply) → Text → Fetch
get_object client r2_key = elim (client r2_key) [
  | body raw ↦ found raw
  | no_such_key ↦ object_missing
  | s3_error ↦ failure
]
