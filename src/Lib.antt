-- ===== src/Lib.antt =====
-- Verification of the backend of the email budget API (backend/app): emails that users forward to
-- an alias are received, their purchases are extracted and stored for review, and a budgeting app
-- learns of them by webhooks.
--
-- The parts, and the files that model them; the paths of the source are from backend/app:
-- - Models (backend/app/models): a record for each row; Models.Db is the database, a list of rows
--   for each table, oldest first. A UUID is a number and uuid4 a counter, next_id; an instant is a
--   number of seconds. The column updated_at and the lengths of columns are left out.
-- - Regex and Strings: what the extraction uses of Python's re and str. Regex is a backtracking
--   matcher with the source's order of choices; Regex.Meaning says what a pattern means without that
--   order. Every pattern of the extraction is a value of Regex, beside the source's text. Letters,
--   digits and case are those of ASCII. An unbounded repetition has as many rounds as there are
--   characters ahead, which is enough, as the body of each takes one.
-- - Extraction (extraction/, services/classification_service.py, rules_engine.py, seed/): the pure
--   pipeline run and its stages, a module each: Mime (mime_parser.py), Resolver
--   (sender_resolver.py), Verification (verification_detector.py), Content (content_preparer.py),
--   General (general_extractor.py), Templates (template_extractor.py, seed/templates.py), Merchants
--   (rules_engine.py, seed/merchant_rules.py) and Scorer (confidence_scorer.py). Pipeline is over a
--   record Stages, and Program fills it with these stages. What they take from elsewhere is the
--   record Outside: the message that the email package makes, decode_header, parseaddr, html2text,
--   dateparser, the rounding of floats, sha256 and isoformat. A stage that raises is none:
--   resolve, where it calls a function that is defined nowhere. Confidences are hundredths, scores
--   units of 0.0001, money hundredths; the extractors read digits only, so an amount is never
--   negative. A dictionary of fields is a record with an optional field for each key.
-- - Services.Persist and Services.Duplicates (services/extraction_service.py,
--   duplicate_service.py): apply_result_fields, persist_result and check_and_flag, which write the
--   rows of an extraction and its event in the outbox.
-- - Services.Webhook (services/webhook_delivery_service.py): process_due delivers the due rows of
--   the outbox, a batch of 20 at a time. Fernet, HMAC, the JSON encoding and the HTTP client are the
--   fields of Client.
-- - Services.Privacy (services/privacy_service.py): schedule_user_deletion marks what the sweeps
--   purge_due and retention_sweep later delete. A sweep has at most 50 rounds of 100 rows, which are
--   the source's own bounds; the random order of the rows and the answers of R2 are the fields of
--   Sweep, for each round.
-- - Api.Internal (api/internal.py): check_alias and email_received, the route by which every email
--   enters. A request reads the clock, the settings, R2 and the pipeline from Env. It returns the
--   response and the world afterwards: the database, and the keys on which a deletion in R2 was
--   tried. An exception leaves the database as it was.
-- - Api.Extractions (api/v1/extractions.py): list, get, preview, confirm, dismiss and reprocess. A
--   raised HTTPException is a case of the result, and leaves the database as it was; so is the 422
--   for a listing whose limit is not from 1 to 200. An offset is a natural number.
-- - Api.Aliases (api/v1/aliases.py), Api.Feedback and Api.Statistics (api/v1/feedback.py),
--   Api.Config and Api.WebhookTest (api/v1/config.py, security/api_key.py), Api.Users
--   (api/v1/users.py), Security (security/internal_secret.py, crypto.py) and Integrations
--   (integrations/r2_client.py); seed/create_api_key.py is in Api.Config. The tokens of
--   create_alias are a function of the attempts that are left, of which there are five as in the
--   source; the checks of httpx, Fernet, whose encryption raises if no key is set, and sha256 are
--   parameters.
-- - Shell (config.py, db/session.py, main.py): the settings, the URL of the database, the scrubbing
--   of Sentry events, and an iteration of the maintenance loop.
-- - Common: Python strings as lists of code points, and lists with the queries that SQLAlchemy
--   sends: where_, first, count, order_by, update_where, delete_where.
-- - Tests: every theorem at a concrete input.
--
-- Requests run one at a time: row locks and interleavings are not modelled, nor are logging, the
-- endless loops of the poller and of the maintenance, the schema checks of request bodies, the
-- command lines, and the fallbacks for a missing html2text or dateparser. The fuel of decimal is the
-- number itself, which has fewer digits than that.
mod Common
pub mod Regex
pub mod Strings
pub mod Extraction
pub mod Models
pub mod Services
pub mod Api
pub mod Security
pub mod Shell
pub mod Integrations
mod Tests
