-- ===== src/Extraction/Scorer/Defs.antt =====
-- extraction/confidence_scorer.py. Confidences are in hundredths and weights too, so an overall
-- score is in units of 0.0001 and the thresholds 0.85 and 1.0 are 8500 and 10000.
use email_budget_api.Common.{
  ℕ, ◌+◌, ◌*◌, min, Bool, ◌&&◌, Option, none, some, leb, is_some, if◌then◌else◌,
}
use email_budget_api.Extraction.Models.{
  Method, template, regex, default, Field, Fields, FieldConfidences, Status, Band, high,
  low_confidence, not_applicable,
}

abbrev pub high_band : ℕ
high_band = 8500

unfoldable pub method_conf : Method → ℕ
method_conf template = 97
method_conf regex = 75
method_conf default = 60

unfoldable pub conf_of {ℓ} : {A : Type ℓ} → Option (Field A) → ℕ
unfolding method_conf
conf_of none = 0
conf_of (some f) = method_conf f.method

unfoldable pub field_confidences : Fields → FieldConfidences
unfolding conf_of
field_confidences fields = record {
  amount = conf_of fields.amount;
  transaction_date = conf_of fields.transaction_date;
  merchant = conf_of fields.merchant;
  currency = conf_of fields.currency;
  card_last4 = conf_of fields.card_last4;
}

unfoldable pub weigh : FieldConfidences → ℕ
weigh conf =
    35 * conf.amount
    + 20 * conf.transaction_date
    + 25 * conf.merchant
    + 10 * conf.currency
    + 5 * conf.card_last4

unfoldable pub score : Fields → ℕ × FieldConfidences
unfolding field_confidences weigh
score fields = let conf = field_confidences fields in (min (weigh conf) 10000, conf)

-- `all(k in fields for k in REQUIRED_FIELDS)`
unfoldable pub is_complete : Fields → Bool
is_complete fields =
    is_some fields.amount && (is_some fields.merchant && is_some fields.transaction_date)

unfoldable pub route : ℕ → Fields → Status × Band
unfolding is_complete
route overall fields = elim fields.amount [
  | none ↦ (Status.extraction_failed, not_applicable)
  | some _ ↦ (
    Status.pending_review,
    if is_complete fields && leb high_band overall then high else low_confidence,
  )
]
