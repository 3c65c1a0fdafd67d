-- ===== src/Extraction/Pipeline/Defs.antt =====
-- extraction/pipeline.py, with services/classification_service.py, over the stages that it calls:
-- `Program` has those of the repository.
use email_budget_api.Common.{
  ℕ, zero, suc, ◌+◌, ◌/◌, ◌%◌, Bool, true, false, Option, none, some, [], ◌∷◌, ◌++◌, ◌==◌,
  if◌then◌else◌,
}
use email_budget_api.Common.Text.{Text, lower}
use email_budget_api.Strings.{get}
use email_budget_api.Extraction.Models.{
  ParsedEmail, ResolvedSender, Classification, registry, by_subject, verification_sender, no_method,
  EmailType, unknown, template, default, Field, Fields, no_fields, Status, PipelineResult,
  not_applicable, Direction, debit, field_value,
}
use email_budget_api.Extraction.Pipeline.Senders.{
  financial_sender_registry, default_currency, or_empty, currency_of_sender,
}
use email_budget_api.Extraction.Templates.{email_type_for}
use email_budget_api.Extraction.Verification.{ForwardingVerification}
use email_budget_api.Extraction.Scorer.{score, route}

pub record Stages : Type 0 where
  pub parse : Text → ParsedEmail
  pub resolve : ParsedEmail → Option ResolvedSender
  pub detect : ParsedEmail → Option ForwardingVerification
  pub subject_search : Text → Bool
  pub prepare : ParsedEmail → Text
  pub general_extract : Text → Fields
  pub template_extract : Option Text → Text → Fields
  pub transaction_flags : Text → Direction × Bool × Bool
  pub normalize_merchant : Option Text → Option Text × Option Text
  pub round_3 : ℕ → ℕ
  pub sha256 : Text → Text
  pub isoformat : ℕ → Text

is_empty : Text → Bool
is_empty [] = true
is_empty (c ∷ s) = false

-- `fields.update(other)`, for one key.
unfoldable pub overwrite {ℓ} : {A : Type ℓ} → Option A → Option A → Option A
overwrite old none = old
overwrite old (some new) = some new

unfoldable pub update_fields : Fields → Fields → Fields
unfolding overwrite
update_fields old new = record {
  amount = overwrite old.amount new.amount;
  currency = overwrite old.currency new.currency;
  transaction_date = overwrite old.transaction_date new.transaction_date;
  card_last4 = overwrite old.card_last4 new.card_last4;
  merchant = overwrite old.merchant new.merchant;
  verification_code = overwrite old.verification_code new.verification_code;
  confirmation_url = overwrite old.confirmation_url new.confirmation_url;
}

-- `if "amount" in fields and "currency" not in fields: …`
unfoldable pub fill_currency : Option Text → Fields → Fields
fill_currency domain fields = elim fields.amount [
  | none ↦ fields
  | some _ ↦ elim fields.currency [
    | none ↦ record fields {
      currency =
          some (record { value = currency_of_sender domain; method = default; snippet = none });
    }
    | some _ ↦ fields
  ]
]

-- A decimal numeral, with one round of fuel for each digit.
unfoldable pub digits : ℕ → ℕ → Text → Text
digits zero n acc = acc
digits (suc f) n acc =
    let rest = digits f (n / 10) ((b'0' + n % 10) ∷ acc) in if n == 0 then acc else rest

unfoldable pub decimal : ℕ → Text
unfolding digits
decimal n = if n == 0 then b'0' ∷ [] else digits n n []

-- `if verification.code: fields[…] = Field(code, "template")`
unfoldable pub template_field : Option Text → Option (Field Text)
template_field none = none
template_field (some []) = none
template_field (some (c ∷ s)) = some (record { value = c ∷ s; method = template; snippet = none })

-- A template's declared type refines a generic classification.
unfoldable pub refine : Option EmailType → Classification → Classification
refine none c = c
refine (some tmpl_type) c = elim c.email_type [
  | unknown ↦ record {
    is_financial = true;
    email_type = tmpl_type;
    confidence = c.confidence;
    method = c.method;
  }
  | _ ↦ c
]

-- The result for forwarding-verification mail.
unfoldable pub verification_result : ResolvedSender → ForwardingVerification → PipelineResult
verification_result sender verification = record {
  resolved_sender = sender;
  classification = record {
    is_financial = false;
    email_type = EmailType.forwarding_verification;
    confidence = 99;
    method = verification_sender;
  };
  fields = record no_fields {
    verification_code = template_field verification.code;
    confirmation_url = template_field verification.confirmation_url;
  };
  merchant_normalized = none;
  category_suggestion = none;
  field_confidences = none;
  extraction_confidence = 0;
  confidence_band = not_applicable;
  status = Status.forwarding_verification;
  fingerprint = none;
  direction = debit;
  is_probable_refund = false;
  is_declined = false;
}

unfoldable pub non_financial_result : ResolvedSender → Classification → PipelineResult
non_financial_result sender classification = record {
  resolved_sender = sender;
  classification = classification;
  fields = no_fields;
  merchant_normalized = none;
  category_suggestion = none;
  field_confidences = none;
  extraction_confidence = 0;
  confidence_band = not_applicable;
  status = Status.non_financial;
  fingerprint = none;
  direction = debit;
  is_probable_refund = false;
  is_declined = false;
}

module _ (stages : Stages) where
  open stages use {
    parse, resolve, detect, subject_search, prepare, general_extract, template_extract,
    transaction_flags, normalize_merchant, round_3, sha256, isoformat,
  }

  unfoldable pub classify : ResolvedSender → Text → Classification
  unfolding is_empty
  classify sender subject = elim (get (or_empty sender.domain) financial_sender_registry) [
    | some etype ↦ record {
      is_financial = true;
      email_type = etype;
      confidence = 95;
      method = registry;
    }
    | none ↦
        if (if is_empty subject then false else subject_search subject)
        then record {
          is_financial = true;
          email_type = unknown;
          confidence = 60;
          method = by_subject;
        }
        else record {
          is_financial = false;
          email_type = EmailType.non_financial;
          confidence = 50;
          method = no_method;
        }
  ]

  -- `not (amount and txn_date and merchant_normalized)`: the last may be empty.
  unfoldable pub fingerprint : Fields → Option Text → Option Text
  fingerprint fields none = none
  fingerprint fields (some []) = none
  fingerprint fields (some (c ∷ name)) = elim fields.amount [
    | none ↦ none
    | some amount ↦ elim fields.transaction_date [
      | none ↦ none
      | some txn_date ↦
          let currency : Text = elim (field_value fields.currency) [
            | none ↦ default_currency
            | some ccy ↦ ccy
          ] in
          some (
            sha256 (
              decimal amount.value
              ++ b'|' ∷ currency
              ++ b'|' ∷ lower (c ∷ name)
              ++ b'|' ∷ isoformat txn_date.value))
    ]
  ]

  -- `fields` after the general extractor, the template and the default currency.
  unfoldable pub extract_fields : ResolvedSender → Text → Fields
  unfolding update_fields fill_currency
  extract_fields sender content = fill_currency sender.domain (
      update_fields (update_fields no_fields (general_extract content))
        (template_extract sender.domain content))

  -- The part of `run` for a financial email, from `content_preparer.prepare` on.
  unfoldable pub financial_result : ParsedEmail → ResolvedSender → Classification → PipelineResult
  unfolding extract_fields refine fingerprint
  financial_result parsed sender classification =
      let content = prepare parsed in
      let fields = extract_fields sender content in
      let (normalized, category) = normalize_merchant (field_value fields.merchant) in
      let (overall, conf) = score fields in
      let (status, band) = route overall fields in
      let (direction, is_probable_refund, is_declined) = transaction_flags content in
      record {
        resolved_sender = sender;
        classification = refine (email_type_for sender.domain) classification;
        fields = fields;
        merchant_normalized = normalized;
        category_suggestion = category;
        field_confidences = some conf;
        extraction_confidence = round_3 overall;
        confidence_band = band;
        status = status;
        fingerprint = fingerprint fields normalized;
        direction = direction;
        is_probable_refund = is_probable_refund;
        is_declined = is_declined;
      }

  -- `run`, once the sender is known.
  unfoldable pub sender_result : ParsedEmail → ResolvedSender → PipelineResult
  unfolding verification_result classify non_financial_result financial_result
  sender_result parsed sender =
      let classification = classify sender parsed.subject in
      elim (detect parsed) [
        | some verification ↦ verification_result sender verification
        | none ↦
            if classification.is_financial
            then financial_result parsed sender classification
            else non_financial_result sender classification
      ]

  -- None where `resolve` raises.
  unfoldable pub run : Text → Option PipelineResult
  unfolding sender_result
  run raw =
      let parsed = parse raw in
      elim (resolve parsed) [ none ↦ none | some sender ↦ some (sender_result parsed sender) ]
