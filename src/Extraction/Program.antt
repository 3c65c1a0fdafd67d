-- ===== src/Extraction/Program.antt =====
-- extraction/pipeline.py with the stages of the repository, over the code that it takes from
-- elsewhere: the standard library's `email` and `hashlib`, html2text, dateparser, and the float
-- rounding and the printing of a date.
use email_budget_api.Common.{ℕ, Option, [], ◌∷◌, is_some}
use email_budget_api.Common.Text.{Text, codes}
use email_budget_api.Extraction.Models.{PipelineResult}
use email_budget_api.Extraction.General.{DateOrder, extract, transaction_flags}
use email_budget_api.Extraction.Mime.{Message, parse}
use email_budget_api.Extraction.Templates.{template_extract}
use email_budget_api.Extraction.Verification.{detect}
use email_budget_api.Extraction.Resolver.{resolve}
use email_budget_api.Extraction.Content.{prepare}
use email_budget_api.Extraction.Merchants.{normalize_merchant}
use email_budget_api.Extraction.Pipeline.{Stages, run}
use email_budget_api.Regex.{Regex, search, alts, text_i}

pub record Outside : Type 0 where
  pub message_from_bytes : Text → Message
  pub decode_header : Text → Option Text
  pub parseaddr : Text → Text
  pub html_to_text : Text → Text
  pub dateparser : DateOrder → Text → Option ℕ
  pub round_3 : ℕ → ℕ
  pub sha256 : Text → Text
  pub isoformat : ℕ → Text

-- `_SUBJECT_RE`, the alternatives of `FINANCIAL_SUBJECT_PATTERNS`
abbrev pub subject_pattern : Regex
subject_pattern = alts (text_i (codes "receipt")) (
    text_i (codes "invoice")
    ∷ text_i (codes "payment")
    ∷ text_i (codes "charged")
    ∷ text_i (codes "purchase")
    ∷ text_i (codes "order")
    ∷ text_i (codes "transaction")
    ∷ text_i (codes "statement")
    ∷ text_i (codes "alert")
    ∷ text_i (codes "refund")
    ∷ text_i (codes "credit")
    ∷ text_i (codes "debit")
    ∷ text_i (codes "withdrawal")
    ∷ text_i (codes "deposit")
    ∷ text_i (codes "subscription")
    ∷ text_i (codes "renewal")
    ∷ text_i (codes "bill")
    ∷ text_i (codes "confirmation")
    ∷ [])

unfoldable pub program : Outside → Stages
program outside = record {
  parse = λ raw. parse outside.decode_header (outside.message_from_bytes raw);
  resolve = resolve outside.parseaddr outside.html_to_text;
  detect = detect outside.parseaddr;
  subject_search = λ subject. is_some (search subject_pattern subject);
  prepare = prepare outside.html_to_text;
  general_extract = extract outside.dateparser;
  template_extract = template_extract outside.dateparser;
  transaction_flags = transaction_flags;
  normalize_merchant = normalize_merchant;
  round_3 = outside.round_3;
  sha256 = outside.sha256;
  isoformat = outside.isoformat;
}

-- `run`, as api/internal.py and api/v1/extractions.py import it.
unfoldable pub run_program : Outside → Text → Option PipelineResult
unfolding program
run_program outside = run (program outside)
