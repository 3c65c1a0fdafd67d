-- ===== src/Extraction/Fit/Fields.antt =====
-- extraction/pipeline.py: the fields of a result against the columns that they are stored in.
use email_budget_api.Common.{ℕ, Bool-cases, Option, none, some, Option-cases, inl, inr, arith}
use email_budget_api.Common.Text.{Text}
use email_budget_api.Strings.{is_blank, get}
use email_budget_api.Extraction.Models.{Field, Fields, no_fields, ParsedEmail, ResolvedSender}
use email_budget_api.Extraction.General.{DateOrder, amount, card, extract, found_field}
use email_budget_api.Extraction.Pipeline.{
  overwrite, update_fields, fill_currency, currency_of_sender, sender_default_currency, or_empty,
  extract_fields, financial_result, non_financial_result, verification_result, sender_result,
  classify,
}
use email_budget_api.Extraction.Program.{Outside, program}
use email_budget_api.Extraction.Fit.Card.{IsLastFour, card-IsLastFour}
use email_budget_api.Extraction.Fit.Signs.{IsShort}
use email_budget_api.Extraction.Fit.Currency.{get-All, amount-IsShort}
use email_budget_api.Extraction.Fit.Templates.{Holds, IsFitting, template_extract-IsFitting}

card-Holds : (text : Text) → Holds IsLastFour (found_field (card text))
card-Holds text = elim (Option-cases (card text)) [
  | inl no_card ↦ rw no_card tt
  | inr ((w, s), found) ↦ rw found (card-IsLastFour text w s found)
]

extract-card :
    (dateparser : DateOrder → Text → Option ℕ) (text : Text)
    → Holds IsLastFour (extract dateparser text).card_last4
unfolding extract
extract-card dateparser text = elim (Option-cases (amount text)) [
  | inl a ↦ rw (a, extract) (card-Holds text)
  | inr (x, a) ↦ rw (a, extract) (card-Holds text)
]

extract-currency :
    (dateparser : DateOrder → Text → Option ℕ) (text : Text)
    → Holds IsShort (extract dateparser text).currency
unfolding extract
extract-currency dateparser text = elim (Option-cases (amount text)) [
  | inl a ↦ rw (a, extract) tt
  | inr (x, a) ↦ elim (Option-cases x.currency) [
    | inl c ↦ rw (a, c, extract) tt
    | inr (c, e) ↦ elim (Bool-cases (is_blank c)) [
      | inl blank ↦ rw (a, e, blank, extract) tt
      | inr filled ↦ rw (a, e, filled, extract) (amount-IsShort text c x a e)
    ]
  ]
]

overwrite-Holds :
    (P : Text → Type 0) (old new : Option (Field Text))
    → Holds P old
    → Holds P new
    → Holds P (overwrite old new)
unfolding overwrite
overwrite-Holds P old none h k = h
overwrite-Holds P old (some f) h k = k

update_fields-IsFitting :
    (old new : Fields) → IsFitting old → IsFitting new → IsFitting (update_fields old new)
unfolding update_fields
update_fields-IsFitting old new h k = record {
  card_last4 = overwrite-Holds IsLastFour old.card_last4 new.card_last4 h.card_last4 k.card_last4;
  currency = overwrite-Holds IsShort old.currency new.currency h.currency k.currency;
}

currency_of_sender-IsShort : (domain : Option Text) → IsShort (currency_of_sender domain)
unfolding currency_of_sender
currency_of_sender-IsShort domain =
    elim (Option-cases (get (or_empty domain) sender_default_currency)) [
      | inl other ↦ rw (other, currency_of_sender) (omega arith)
      | inr (c, found) ↦
          rw (found, currency_of_sender)
            (get-All IsShort (or_empty domain) sender_default_currency c (ground arith) found)
    ]

fill_currency-IsFitting :
    (domain : Option Text) (fields : Fields)
    → IsFitting fields
    → IsFitting (fill_currency domain fields)
unfolding fill_currency
fill_currency-IsFitting domain fields h = elim (Option-cases fields.amount) [
  | inl a ↦ rw (a, fill_currency) h
  | inr (x, a) ↦ elim (Option-cases fields.currency) [
    | inr (c, e) ↦ rw (a, e, fill_currency) h
    | inl e ↦
        rw (a, e, fill_currency)
          (record { card_last4 = h.card_last4; currency = currency_of_sender-IsShort domain })
  ]
]

no_fields-IsFitting : IsFitting no_fields
no_fields-IsFitting = record { card_last4 = tt; currency = tt }

extract_fields-IsFitting :
    (outside : Outside) (sender : ResolvedSender) (content : Text)
    → IsFitting (extract_fields (program outside) sender content)
unfolding extract_fields program
extract_fields-IsFitting outside sender content = fill_currency-IsFitting sender.domain _ (
    update_fields-IsFitting _ _
      (update_fields-IsFitting no_fields _ no_fields-IsFitting (record {
        card_last4 = extract-card outside.dateparser content;
        currency = extract-currency outside.dateparser content;
      }))
      (template_extract-IsFitting outside.dateparser sender.domain content))

-- Whatever an email says and whoever sent it, the pipeline's fields fit the columns that they are
-- stored in: the digits of the card are four digits, and the currency has at most three characters.
pub fields_fit_columns :
    (outside : Outside) (parsed : ParsedEmail) (sender : ResolvedSender)
    → IsFitting (sender_result (program outside) parsed sender).fields
unfolding sender_result verification_result non_financial_result financial_result
fields_fit_columns outside parsed sender =
    let stages = program outside in
    let classification = classify stages sender parsed.subject in
    elim (Option-cases (stages.detect parsed)) [
      | inr (v, e) ↦ rw (e, sender_result) (record { card_last4 = tt; currency = tt })
      | inl e ↦ elim (Bool-cases classification.is_financial) [
        | inr miss ↦ rw (e, miss, sender_result) no_fields-IsFitting
        | inl hit ↦
            rw (e, hit, sender_result)
              (extract_fields-IsFitting outside sender (stages.prepare parsed))
      ]
    ]
