-- ===== src/Models/Db.antt =====
-- The database as a session sees it: a list of rows for each table, oldest first. `uuid4` never
-- gives an identifier twice: it is a counter, whose value is the next row's.
use email_budget_api.Common.{ℕ, List, []}
use email_budget_api.Models.Ops.{
  Alias, ImportedEmail, EmailClassification, ApiKey, WebhookConfig, MerchantRule,
  CategoryFeedbackLog,
}
use email_budget_api.Models.Extraction.{
  ExtractionResult, ExtractionSnippet, DuplicateMatch, ImportAuditLog, WebhookOutbox,
}

pub record Db : Type 0 where
  pub aliases : List Alias
  pub emails : List ImportedEmail
  pub classifications : List EmailClassification
  pub audit_logs : List ImportAuditLog
  pub extractions : List ExtractionResult
  pub snippets : List ExtractionSnippet
  pub duplicate_matches : List DuplicateMatch
  pub api_keys : List ApiKey
  pub webhook_configs : List WebhookConfig
  pub outbox : List WebhookOutbox
  pub merchant_rules : List MerchantRule
  pub feedback_log : List CategoryFeedbackLog
  pub next_id : ℕ

abbrev pub empty : Db
empty = record {
  aliases = [];
  emails = [];
  classifications = [];
  audit_logs = [];
  extractions = [];
  snippets = [];
  duplicate_matches = [];
  api_keys = [];
  webhook_configs = [];
  outbox = [];
  merchant_rules = [];
  feedback_log = [];
  next_id = 0;
}
