-- ===== src/Tests/Mails.antt =====
-- Mails for the extraction, and simple stand-ins for the code that it takes from elsewhere.
use email_budget_api.Common.{false, some, [], ◌∷◌}
use email_budget_api.Common.Text.{Text, codes}
use email_budget_api.Extraction.Models.{ParsedEmail, ResolvedSender, dkim}
use email_budget_api.Extraction.Mime.{Message, Part}
use email_budget_api.Extraction.Program.{Outside, run_program}
use email_budget_api.Api.Internal.{Env}
use email_budget_api.Tests.Samples.{env}

-- Every message is one text part without headers.
abbrev pub plain_part : Text → Part
plain_part raw = record {
  is_multipart = false;
  content_disposition = [];
  content_type = codes "text/plain";
  content = some raw;
}

abbrev pub plain_message : Text → Message
plain_message raw = record {
  items = [];
  subject = [];
  from_header = [];
  dkim_signatures = [];
  itself = plain_part raw;
  parts = plain_part raw ∷ [];
}

abbrev pub outside : Outside
outside = record {
  message_from_bytes = plain_message;
  decode_header = λ value. some value;
  parseaddr = λ header. header;
  html_to_text = λ html. html;
  dateparser = λ _ _. some 20000;
  round_3 = λ n. n;
  sha256 = λ text. text;
  isoformat = λ _. codes "2024-10-04";
}

abbrev pub bank_sender : ResolvedSender
bank_sender = record { domain = some (codes "jncb.com"); source = dkim; confidence = 97 }

abbrev pub refund_text : Text
refund_text = codes "Merchant: KFC\nAmount: J$1,234.50\nCard Number Ending: ***4321\nType: Refund"

abbrev pub bank_mail : ParsedEmail
bank_mail = record {
  subject = codes "Transaction alert";
  from_header = codes "no-reply@jncb.com";
  dkim_signatures = codes "v=1; d=mail.jncb.com; s=x" ∷ [];
  headers = [];
  text_body = refund_text;
  html_body = [];
}

-- A bank's alert that a user forwarded by hand.
abbrev pub forwarded_mail : ParsedEmail
forwarded_mail = record bank_mail {
  from_header = codes "me@gmail.com";
  dkim_signatures = codes "v=1; d=gmail.com" ∷ [];
  text_body = codes "FYI\n> *From:* NCB <a@alerts.jncb.com>\nhi";
}

abbrev pub provider_mail : ParsedEmail
provider_mail = record bank_mail {
  from_header = codes "forwarding-noreply@google.com";
  subject = codes "(#123456789) Confirmation";
  text_body =
      codes
        "https://mail.google.com/mail/uf-x cancels, https://mail.google.com/mail/vf-abc confirms";
}

-- The routes over the extraction of the repository.
abbrev pub program_env : Env
program_env = record env { run_pipeline = run_program outside }
