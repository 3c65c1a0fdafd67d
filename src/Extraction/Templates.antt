-- ===== src/Extraction/Templates.antt =====
-- extraction/template_extractor.py, with seed/templates.py: the patterns of a sender, all under
-- re.I, each beside the source's.
use email_budget_api.Common.{ℕ, false, not, ◌||◌, Option, none, some, List, [], ◌∷◌, ◌==◌}
use email_budget_api.Common.Text.{Text, codes}
use email_budget_api.Extraction.Models.{EmailType, bank_alert, Field, Fields, no_fields, template}
use email_budget_api.Regex.{
  Regex, char, then, either, repeat, group, search, group_of, is_alnum, is_space, one_of, newline,
  seq, alts, exactly, star, maybe, plus, between, at_least, text_i, boundary, text_start,
}
use email_budget_api.Strings.{strip, get}
use email_budget_api.Extraction.General.{DateOrder, parse_date}
use email_budget_api.Extraction.General.Numerals.{amount_of}
use email_budget_api.Extraction.General.Patterns.{digit, digit_or_comma, not_newline, space, letter}

pub record Template : Type 0 where
  pub email_type : EmailType
  pub amount : List Regex
  pub currency : List Regex
  pub merchant : List Regex
  pub transaction_date : List Regex
  pub card_last4 : List Regex

abbrev break : Regex
break = char (λ c. c == newline)

-- `\s*\n\s*`
abbrev line_end : Regex
line_end = seq (star space ∷ break ∷ star space ∷ [])

-- `[\d,]+\.\d{2}`
abbrev pub with_cents : Regex
with_cents = seq (plus digit_or_comma ∷ text_i (codes ".") ∷ exactly 2 digit ∷ [])

abbrev jncb : Template
jncb = record {
  email_type = bank_alert;
  -- `Amount\s*\n\s*(?:[A-Z]{3}\s*)?([\d,]+\.\d{2})`
  amount =
      seq (
        text_i (codes "Amount")
        ∷ line_end
        ∷ maybe (then (exactly 3 letter) (star space))
        ∷ group 1 with_cents
        ∷ [])
      ∷ [];
  -- `Amount\s*\n\s*([A-Z]{3})\s*[\d,]+\.\d{2}`
  currency =
      seq (
        text_i (codes "Amount")
        ∷ line_end
        ∷ group 1 (exactly 3 letter)
        ∷ star space
        ∷ with_cents
        ∷ [])
      ∷ [];
  -- `Merchant\s*\n\s*([^\n]+?)\s*\n`
  merchant =
      seq (
        text_i (codes "Merchant")
        ∷ line_end
        ∷ group 1 (then not_newline (repeat false none not_newline))
        ∷ star space
        ∷ break
        ∷ [])
      ∷ [];
  -- `(?:^|\n)\s*Date\s*\n\s*(\d{1,2}/[A-Za-z]{3}/\d{4})`
  transaction_date =
      seq (
        either text_start break
        ∷ star space
        ∷ text_i (codes "Date")
        ∷ line_end
        ∷ group 1 (
            seq (
              between 1 2 digit
              ∷ text_i (codes "/")
              ∷ exactly 3 letter
              ∷ text_i (codes "/")
              ∷ exactly 4 digit
              ∷ []))
        ∷ [])
      ∷ [];
  -- `Card Number Ending\s*\n\s*[*.\s]*(\d{4})`
  card_last4 =
      seq (
        text_i (codes "Card Number Ending")
        ∷ line_end
        ∷ star (char (λ c. one_of (codes "*.") c || is_space c))
        ∷ group 1 (exactly 4 digit)
        ∷ [])
      ∷ [];
}

-- `\$\s?([\d,]+\.\d{2})`
abbrev dollars : Regex
dollars = seq (text_i (codes "$") ∷ maybe space ∷ group 1 with_cents ∷ [])

-- `(?:transaction|purchase|payment)`
abbrev deal : Regex
deal =
    alts (text_i (codes "transaction")) (text_i (codes "purchase") ∷ text_i (codes "payment") ∷ [])

-- `\s*:?\s*`
abbrev colon : Regex
colon = seq (star space ∷ maybe (text_i (codes ":")) ∷ star space ∷ [])

-- `[A-Z][a-z]{2,8}\.?\s+\d{1,2},?\s+\d{4}`, under re.I
abbrev month_first_i : Regex
month_first_i = seq (
    letter
    ∷ between 2 8 letter
    ∷ maybe (text_i (codes "."))
    ∷ plus space
    ∷ between 1 2 digit
    ∷ maybe (text_i (codes ","))
    ∷ plus space
    ∷ exactly 4 digit
    ∷ [])

-- The patterns of `card_last4` are those of `_CARD_PATTERNS`, here all under re.I.
abbrev chase : Template
chase = record {
  email_type = bank_alert;
  amount =
      -- `\$\s?([\d,]+\.\d{2})\s+(?:transaction|purchase|payment)`
      seq (dollars ∷ plus space ∷ deal ∷ [])
      -- `(?:amount|total)\s*:?\s*\$\s?([\d,]+\.\d{2})`
      ∷ seq (either (text_i (codes "amount")) (text_i (codes "total")) ∷ colon ∷ dollars ∷ [])
      ∷ dollars
      ∷ [];
  currency = [];
  merchant =
      -- `(?:transaction|purchase|payment)\s+(?:with|at|to)\s+([A-Z0-9][^\n.]+?)(?:\s+on\b|[.\n])`
      seq (
        deal
        ∷ plus space
        ∷ alts (text_i (codes "with")) (text_i (codes "at") ∷ text_i (codes "to") ∷ [])
        ∷ plus space
        ∷ group 1 (
            seq (
              char is_alnum
              ∷ char (λ c. not (c == newline || c == b'.'))
              ∷ repeat false none (char (λ c. not (c == newline || c == b'.')))
              ∷ []))
        ∷ either (seq (plus space ∷ text_i (codes "on") ∷ boundary ∷ []))
            (char (λ c. c == b'.' || c == newline))
        ∷ [])
      -- `merchant\s*:?\s*([^\n]+)`
      ∷ seq (text_i (codes "merchant") ∷ colon ∷ group 1 (plus not_newline) ∷ [])
      ∷ [];
  transaction_date =
      -- `on\s+([A-Z][a-z]{2,8}\.?\s+\d{1,2},?\s+\d{4})`
      seq (text_i (codes "on") ∷ plus space ∷ group 1 month_first_i ∷ [])
      -- `date\s*:?\s*([A-Z][a-z]{2,8}\.?\s+\d{1,2},?\s+\d{4})`
      ∷ seq (text_i (codes "date") ∷ colon ∷ group 1 month_first_i ∷ [])
      -- `on\s+(\d{1,2}/\d{1,2}/\d{4})`
      ∷ seq (
          text_i (codes "on")
          ∷ plus space
          ∷ group 1 (
              seq (
                between 1 2 digit
                ∷ text_i (codes "/")
                ∷ between 1 2 digit
                ∷ text_i (codes "/")
                ∷ exactly 4 digit
                ∷ []))
          ∷ [])
      ∷ [];
  card_last4 =
      -- `ending in\s*\(?\.*(\d{4})\)?`
      seq (
        text_i (codes "ending in")
        ∷ star space
        ∷ maybe (text_i (codes "("))
        ∷ star (text_i (codes "."))
        ∷ group 1 (exactly 4 digit)
        ∷ maybe (text_i (codes ")"))
        ∷ [])
      -- `\(\.\.\.(\d{4})\)`
      ∷ seq (text_i (codes "(...") ∷ group 1 (exactly 4 digit) ∷ text_i (codes ")") ∷ [])
      -- `[x\*]{2,}\s?(\d{4})`
      ∷ seq
          (at_least 2 (char (one_of (codes "xX*"))) ∷ maybe space ∷ group 1 (exactly 4 digit) ∷ [])
      ∷ [];
}

-- `TEMPLATES`
abbrev pub templates : List (Text × Template)
templates = (codes "jncb.com", jncb) ∷ (codes "chase.com", chase) ∷ []

-- `TEMPLATES.get(domain or "")`
unfoldable pub template_of : Option Text → Option Template
unfolding get
template_of none = get [] templates
template_of (some domain) = get domain templates

unfoldable pub email_type_for : Option Text → Option EmailType
unfolding template_of
email_type_for domain = elim (template_of domain) [ none ↦ none | some tpl ↦ some tpl.email_type ]

-- The first pattern that matches with a value that can be read.
unfoldable pub template_value {ℓ} :
    {A : Type ℓ} → (Text → Option A) → List Regex → Text → Option (Field A)
template_value coerce [] text = none
template_value coerce (pattern ∷ rest) text =
    let later = template_value coerce rest text in
    elim (search pattern text) [
      | none ↦ later
      | some m ↦ elim (group_of 1 m) [
        | none ↦ later
        | some raw ↦ elim (coerce (strip raw)) [
          | none ↦ later
          | some value ↦ some (record { value = value; method = template; snippet = some m.whole })
        ]
      ]
    ]

-- `_coerce` reads an amount by `amount_of`, a date by `parse_date`, and keeps any other text.
unfoldable pub template_extract : (DateOrder → Text → Option ℕ) → Option Text → Text → Fields
unfolding template_of template_value
template_extract dateparser domain text = elim (template_of domain) [
  | none ↦ no_fields
  | some tpl ↦ record no_fields {
    amount = template_value amount_of tpl.amount text;
    currency = template_value some tpl.currency text;
    transaction_date = template_value (parse_date dateparser) tpl.transaction_date text;
    card_last4 = template_value some tpl.card_last4 text;
    merchant = template_value some tpl.merchant text;
  }
]
