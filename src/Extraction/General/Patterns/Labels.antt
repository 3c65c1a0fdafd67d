-- ===== src/Extraction/General/Patterns/Labels.antt =====
-- extraction/general_extractor.py: the patterns of labels and of words.
use email_budget_api.Common.{◌||◌, [], ◌∷◌, ◌==◌}
use email_budget_api.Common.Text.{Text, codes}
use email_budget_api.Regex.{
  Regex, char, then, either, group, is_alnum, is_space, one_of, newline, seq, alts, exactly, star,
  maybe, plus, between, text, text_i, boundary, line_start,
}
use email_budget_api.Extraction.General.Patterns.Shapes.{
  digit, not_newline, space, letter, quote_marks, blanks, ccy_codes, currency_sign,
}

-- `_label`: `(?im)^[ \t>*]*(?:{labels})[ \t]*(?::[ \t]*|\n[ \t>*]*)({value})`, up to the group
abbrev label_head : Regex → Regex
label_head labels = seq (
    line_start
    ∷ quote_marks
    ∷ labels
    ∷ blanks
    ∷ either (then (text (codes ":")) blanks) (then (char (λ c. c == newline)) quote_marks)
    ∷ [])

abbrev pub label : Regex → Regex → Regex
label labels value = then (label_head labels) (group 1 value)

-- Two words of a label, with `\s+` between.
abbrev pub spaced : Text → Text → Regex
spaced a b = seq (text_i a ∷ plus space ∷ text_i b ∷ [])

-- `_AMOUNT_LABEL`
abbrev pub amount_label : Regex
amount_label =
    label
      (alts (text_i (codes "amount charged")) (
        text_i (codes "transaction amount")
        ∷ text_i (codes "amount")
        ∷ text_i (codes "total")
        ∷ []))
      (between 0 80 not_newline)

-- `_MERCHANT_LABEL`
abbrev pub merchant_label : Regex
merchant_label =
    label
      (alts (then (text_i (codes "merchant")) (maybe (then (plus space) (text_i (codes "name"))))) (
        text_i (codes "payee")
        ∷ text_i (codes "retailer")
        ∷ text_i (codes "vendor")
        ∷ spaced (codes "business") (codes "name")
        ∷ text_i (codes "description")
        ∷ text_i (codes "location")
        ∷ []))
      (between 2 60 not_newline)

-- `[0-9A-Za-z][^\n]{5,30}`
abbrev date_value : Regex
date_value = then (char is_alnum) (between 5 30 not_newline)

-- `_DATE_LABEL_SPECIFIC`
abbrev pub date_label_specific : Regex
date_label_specific =
    label
      (alts (spaced (codes "transaction") (codes "date")) (
        spaced (codes "posting") (codes "date")
        ∷ spaced (codes "purchase") (codes "date")
        ∷ spaced (codes "txn") (codes "date")
        ∷ spaced (codes "value") (codes "date")
        ∷ []))
      date_value

-- `_DATE_LABEL_ANY`
abbrev pub date_label_any : Regex
date_label_any = label (text_i (codes "date")) date_value

-- `_CARD_LABEL`: `(?:card(?:\s+number)?\s+ending(?:\s+in)?|account\s+ending)`, then
-- `[ \t]*(?::[ \t]*|\n[ \t>*]*)[*.\s]*(\d{4})`
abbrev pub card_label : Regex
card_label = seq (
    label_head (
      either
        (seq (
          text_i (codes "card")
          ∷ maybe (then (plus space) (text_i (codes "number")))
          ∷ plus space
          ∷ text_i (codes "ending")
          ∷ maybe (then (plus space) (text_i (codes "in")))
          ∷ []))
        (spaced (codes "account") (codes "ending")))
    ∷ star (char (λ c. one_of (codes "*.") c || is_space c))
    ∷ group 1 (exactly 4 digit)
    ∷ [])

-- `_DATE_ISH`: `\d{1,2}[/.\-][A-Za-z0-9]{2,9}[/.\-]\d{2,4}`
abbrev pub date_ish : Regex
date_ish = seq (
    between 1 2 digit
    ∷ char (one_of (codes "/.-"))
    ∷ between 2 9 (char is_alnum)
    ∷ char (one_of (codes "/.-"))
    ∷ between 2 4 digit
    ∷ [])

-- `_MONEY_ISH`: `[$£€¥]|\b(?:{_CCY_CODES})\b`
abbrev pub money_ish : Regex
money_ish = either currency_sign (seq (boundary ∷ ccy_codes ∷ boundary ∷ []))

-- `_TYPE_LABEL`
abbrev pub type_label : Regex
type_label =
    label (either (spaced (codes "transaction") (codes "type")) (text_i (codes "type")))
      (then letter (between 0 40 not_newline))

-- `_REFUND_PROSE`: `\b(?:refunds?|refunded|reversals?|reversed|charge\s?backs?)\b`
abbrev pub refund_prose : Regex
refund_prose = seq (
    boundary
    ∷ alts (then (text_i (codes "refund")) (maybe (text_i (codes "s")))) (
        text_i (codes "refunded")
        ∷ then (text_i (codes "reversal")) (maybe (text_i (codes "s")))
        ∷ text_i (codes "reversed")
        ∷ seq (
            text_i (codes "charge")
            ∷ maybe space
            ∷ text_i (codes "back")
            ∷ maybe (text_i (codes "s"))
            ∷ [])
        ∷ [])
    ∷ boundary
    ∷ [])

-- `_REFUND_TYPE`: `refund|reversal|return|chargeback`
abbrev pub refund_type : Regex
refund_type =
    alts (text_i (codes "refund"))
      (text_i (codes "reversal") ∷ text_i (codes "return") ∷ text_i (codes "chargeback") ∷ [])

-- `_DEPOSIT`: `\bdeposit(?:ed|s)?\b`
abbrev pub deposit : Regex
deposit = seq (
    boundary
    ∷ text_i (codes "deposit")
    ∷ maybe (either (text_i (codes "ed")) (text_i (codes "s")))
    ∷ boundary
    ∷ [])

-- `_DECLINED`: `\bdeclined\b`
abbrev pub declined : Regex
declined = seq (boundary ∷ text_i (codes "declined") ∷ boundary ∷ [])
