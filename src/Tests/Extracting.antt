-- ===== src/Tests/Extracting.antt =====
-- extraction/: the stages at the mails of a bank and of a provider of mail.
use email_budget_api.Common.{
  arith, ◌++◌, length, ◌≤◌, ◌≡◌, ◌⊎◌, refl, true, false, none, some, first, any, count,
}
use email_budget_api.Common.Text.{codes, lower, lower_code, text_eq, or_none}
use email_budget_api.Strings.{
  strip_by, strip, is_blank, upper, title, is_upper, contains, remove, split, splitlines, join,
  after_last, sub, find_all, is_in, get,
}
use email_budget_api.Regex.{match_at, match, search, group_of}
use email_budget_api.Extraction.Models.{ResolvedSender, credit, body}
use email_budget_api.Extraction.General.{amount, merchant, transaction_flags}
use email_budget_api.Extraction.General.Names.{IsName, merchant-IsName}
use email_budget_api.Extraction.General.Flags.{IsFlagged, transaction_flags-IsFlagged}
use email_budget_api.Extraction.General.Numerals.{amount_of}
use email_budget_api.Extraction.Mime.{parse}
use email_budget_api.Extraction.Verification.{ForwardingVerification, detect}
use email_budget_api.Extraction.Verification.Links.{IsGenuine, body_of, detect-IsGenuine}
use email_budget_api.Extraction.Resolver.{resolve, dkim_domain, from_domain}
use email_budget_api.Extraction.Resolver.Outcome.{IsResolved, resolve-IsResolved}
use email_budget_api.Extraction.Content.{prepare}
use email_budget_api.Extraction.Merchants.{normalize_merchant}
use email_budget_api.Extraction.Pipeline.{sender_result, decimal}
use email_budget_api.Extraction.Program.{program}
use email_budget_api.Extraction.Fit.Templates.{IsFitting}
use email_budget_api.Extraction.Fit.Amounts.{cents_of, amount_of-decimal}
use email_budget_api.Extraction.Fit.Fields.{fields_fit_columns}
use email_budget_api.Api.Internal.{raised, email_received, active_alias, find_message, over_limit}
use email_budget_api.Api.Internal.Senderless.{senderless_email_raises}
use email_budget_api.Tests.Samples.{payload, world, alias}
use email_budget_api.Tests.Mails.{
  outside, refund_text, bank_sender, bank_mail, forwarded_mail, provider_mail, program_env,
}

refund_amount :
    amount refund_text
    ≡ some (record { value = 123450; currency = some (codes "JMD"); snippet = codes "J$1,234.50" })
unfolding amount search lower_code group_of is_blank match amount_of remove text_eq upper strip
refund_amount = refl

refund_merchant : merchant refund_text ≡ some (codes "KFC", codes "Merchant: KFC")
unfolding merchant search lower_code group_of is_blank strip match contains is_in any text_eq lower
refund_merchant = refl

merchant-IsName_example : IsName (codes "KFC") × (length (codes "Merchant: KFC") ≤ 60)
merchant-IsName_example =
    merchant-IsName refund_text (codes "KFC") (codes "Merchant: KFC") refund_merchant

separated : remove b',' (codes "1,234.50") ≡ decimal 1234 ++ cents_of 5 0
unfolding remove decimal
separated = refl

amount_of-decimal_example : amount_of (codes "1,234.50") ≡ some 123450
amount_of-decimal_example =
    amount_of-decimal 1234 5 0 (codes "1,234.50") (omega arith) (omega arith) separated

refund_flags : transaction_flags refund_text ≡ (credit, true, false)
unfolding transaction_flags search lower_code
refund_flags = refl

-- The bank behind a forwarded mail is found in the body.
forwarded_sender :
    resolve outside.parseaddr outside.html_to_text forwarded_mail
    ≡ some (record { domain = some (codes "jncb.com"); source = body; confidence = 80 })
unfolding resolve search group_of split lower strip_by strip lower_code is_blank is_in any text_eq
    join find_all after_last
forwarded_sender = refl

prepared_content :
    prepare outside.html_to_text
      (record bank_mail { text_body = codes "a  b\n> x|y\nUnsubscribe here\n\n\n\nc" })
    ≡ codes "a b\nx\ny\n\nc"
unfolding prepare strip sub join splitlines is_blank contains match split search lower_code any
    lower
prepared_content = refl

merchant_names :
    normalize_merchant (some (codes "AMZN Mktp*2K4"))
    ≡ (some (codes "Amazon"), some (codes "Shopping"))
unfolding normalize_merchant contains upper strip
merchant_names = refl

merchant_cleanup :
    normalize_merchant (some (codes "KFC  KINGSTON *12")) ≡ (some (codes "Kfc Kingston"), none)
unfolding normalize_merchant contains upper strip or_none get is_upper any sub match_at title
    text_eq
merchant_cleanup = refl

transaction_flags-IsFlagged_example : IsFlagged refund_text credit true false
unfolding transaction_flags search lower_code
transaction_flags-IsFlagged_example = transaction_flags-IsFlagged refund_text

fields_fit_columns_example :
    IsFitting (sender_result (program outside) bank_mail bank_sender).fields
fields_fit_columns_example = fields_fit_columns outside bank_mail bank_sender

resolve-IsResolved_example :
    ((resolve outside.parseaddr outside.html_to_text forwarded_mail ≡ none)
      × (dkim_domain forwarded_mail.dkim_signatures ≡ none)
      × (from_domain outside.parseaddr forwarded_mail ≡ none))
    ⊎ ((sender : ResolvedSender) × (resolve outside.parseaddr outside.html_to_text forwarded_mail
          ≡ some sender)
        × IsResolved outside.parseaddr outside.html_to_text forwarded_mail sender)
resolve-IsResolved_example =
    resolve-IsResolved outside.parseaddr outside.html_to_text forwarded_mail

abbrev verification : ForwardingVerification
verification = record {
  code = some (codes "123456789");
  confirmation_url = some (codes "https://mail.google.com/mail/vf-abc");
}

verification_found : detect outside.parseaddr provider_mail ≡ some verification
unfolding detect any text_eq lower lower_code search group_of
verification_found = refl

detect-IsGenuine_example :
    IsGenuine
      (lower (outside.parseaddr provider_mail.from_header))
      (body_of provider_mail)
      verification
detect-IsGenuine_example =
    detect-IsGenuine outside.parseaddr provider_mail verification verification_found

senderless_email_raises_example : email_received program_env payload world ≡ (raised, world)
unfolding first active_alias text_eq lower lower_code find_message or_none over_limit count
    dkim_domain parse from_domain contains
senderless_email_raises_example =
    senderless_email_raises program_env outside payload world alias (codes "raw") refl refl refl
      refl refl refl refl refl
