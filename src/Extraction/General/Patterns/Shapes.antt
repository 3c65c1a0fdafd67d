-- ===== src/Extraction/General/Patterns/Shapes.antt =====
-- extraction/general_extractor.py: the patterns of amounts, dates and cards.
use email_budget_api.Common.{ℕ, Bool, ◌||◌, not, List, [], ◌∷◌, ◌==◌}
use email_budget_api.Common.Text.{codes}
use email_budget_api.Regex.{
  Regex, char, then, group, is_digit, is_letter, is_space, one_of, in_range, newline, seq, alts,
  exactly, star, maybe, plus, between, at_least, text, text_i, boundary, text_start, text_end,
}

abbrev pub digit : Regex
digit = char is_digit

-- `[\d,]`
abbrev pub digit_or_comma_code : ℕ → Bool
digit_or_comma_code c = is_digit c || c == b','

abbrev pub digit_or_comma : Regex
digit_or_comma = char digit_or_comma_code

-- `[^\n]`
abbrev pub not_newline : Regex
not_newline = char (λ c. not (c == newline))

-- `\s`
abbrev pub space : Regex
space = char is_space

-- `[ \t>*]*`, `[ \t]*`
abbrev pub quote_marks : Regex
quote_marks = star (char (one_of (32 ∷ 9 ∷ b'>' ∷ b'*' ∷ [])))

abbrev pub blanks : Regex
blanks = star (char (one_of (32 ∷ 9 ∷ [])))

-- `(?:\.\d{2})?`
abbrev pub cents : Regex
cents = maybe (seq (char (λ c. c == b'.') ∷ digit ∷ digit ∷ []))

-- `[\d,]+(?:\.\d{2})?`
abbrev pub num_core : Regex
num_core = then (plus digit_or_comma) cents

-- `USD|JMD|EUR|GBP|CAD|AUD|TTD|BBD|XCD`, under re.I
abbrev pub ccy_codes : Regex
ccy_codes = alts (text_i (codes "USD")) (
    text_i (codes "JMD")
    ∷ text_i (codes "EUR")
    ∷ text_i (codes "GBP")
    ∷ text_i (codes "CAD")
    ∷ text_i (codes "AUD")
    ∷ text_i (codes "TTD")
    ∷ text_i (codes "BBD")
    ∷ text_i (codes "XCD")
    ∷ [])

-- `[$£€¥]`
abbrev pub currency_sign : Regex
currency_sign = char (one_of (b'$' ∷ 163 ∷ 8364 ∷ 165 ∷ []))

-- `(?:\b(?:J|TT|BB|US|CA|C|A|EC))?[$£€¥]`
abbrev pub prefixed_sign : Regex
prefixed_sign =
    then
      (maybe (
        then boundary (
          alts (text (codes "J")) (
            text (codes "TT")
            ∷ text (codes "BB")
            ∷ text (codes "US")
            ∷ text (codes "CA")
            ∷ text (codes "C")
            ∷ text (codes "A")
            ∷ text (codes "EC")
            ∷ []))))
      currency_sign

-- `((?:\b(?:J|TT|BB|US|CA|C|A|EC))?[$£€¥])\s?({_NUM_CORE})`
abbrev pub sign_amount : Regex
sign_amount = seq (group 1 prefixed_sign ∷ maybe space ∷ group 2 num_core ∷ [])

-- `\b({_CCY_CODES})\s?({_NUM_CORE})`
abbrev pub code_amount : Regex
code_amount = seq (boundary ∷ group 1 ccy_codes ∷ maybe space ∷ group 2 num_core ∷ [])

-- `({_NUM_CORE})\s?({_CCY_CODES})\b`
abbrev pub amount_code : Regex
amount_code = seq (group 1 num_core ∷ maybe space ∷ group 2 ccy_codes ∷ boundary ∷ [])

-- `_AMOUNT_PATTERNS`
abbrev pub amount_patterns : List Regex
amount_patterns = sign_amount ∷ code_amount ∷ amount_code ∷ []

-- `[A-Z]`, `[a-z]`, `[A-Za-z]`
abbrev pub capital : Regex
capital = char (in_range b'A' b'Z')

abbrev pub small : Regex
small = char (in_range b'a' b'z')

abbrev pub letter : Regex
letter = char is_letter

-- `\b([A-Z][a-z]{2,8}\.?\s+\d{1,2},?\s+\d{4})\b`, without the boundaries
abbrev pub month_first : Regex
month_first = seq (
    capital
    ∷ between 2 8 small
    ∷ maybe (text (codes "."))
    ∷ plus space
    ∷ between 1 2 digit
    ∷ maybe (text (codes ","))
    ∷ plus space
    ∷ exactly 4 digit
    ∷ [])

abbrev bounded : Regex → Regex
bounded r = seq (boundary ∷ group 1 r ∷ boundary ∷ [])

-- `_DATE_PATTERNS`
abbrev pub date_patterns : List Regex
date_patterns =
    -- `\b(\d{4}-\d{2}-\d{2})\b`
    bounded (
      seq (
        exactly 4 digit
        ∷ text (codes "-")
        ∷ exactly 2 digit
        ∷ text (codes "-")
        ∷ exactly 2 digit
        ∷ []))
    ∷ bounded month_first
    -- `\b(\d{1,2}[/-][A-Za-z]{3,9}[/-]\d{4})\b`
    ∷ bounded (
        seq (
          between 1 2 digit
          ∷ char (one_of (codes "/-"))
          ∷ between 3 9 letter
          ∷ char (one_of (codes "/-"))
          ∷ exactly 4 digit
          ∷ []))
    -- `\b(\d{1,2}[/.-]\d{1,2}[/.-]\d{4})\b`
    ∷ bounded (
        seq (
          between 1 2 digit
          ∷ char (one_of (codes "/.-"))
          ∷ between 1 2 digit
          ∷ char (one_of (codes "/.-"))
          ∷ exactly 4 digit
          ∷ []))
    -- `\b(\d{4}[/.]\d{2}[/.]\d{2})\b`
    ∷ bounded (
        seq (
          exactly 4 digit
          ∷ char (one_of (codes "/."))
          ∷ exactly 2 digit
          ∷ char (one_of (codes "/."))
          ∷ exactly 2 digit
          ∷ []))
    ∷ []

-- `ending in\s*\(?\.*(\d{4})\)?`, under re.I
abbrev pub ending_in : Regex
ending_in = seq (
    text_i (codes "ending in")
    ∷ star space
    ∷ maybe (text (codes "("))
    ∷ star (text (codes "."))
    ∷ group 1 (exactly 4 digit)
    ∷ maybe (text (codes ")"))
    ∷ [])

-- `_CARD_PATTERNS`: `\(\.\.\.(\d{4})\)` and `[x\*]{2,}\s?(\d{4})` after the first
abbrev pub card_patterns : List Regex
card_patterns =
    ending_in
    ∷ seq (text (codes "(...") ∷ group 1 (exactly 4 digit) ∷ text (codes ")") ∷ [])
    ∷ seq (at_least 2 (char (one_of (codes "x*"))) ∷ maybe space ∷ group 1 (exactly 4 digit) ∷ [])
    ∷ []

-- `^[\d,]+(?:\.\d{2})?$`
abbrev pub num : Regex
num = seq (text_start ∷ num_core ∷ text_end ∷ [])

-- `^\s*(\d[\d,]*(?:\.\d{2})?)\b`
abbrev pub bare_num : Regex
bare_num = seq (
    text_start
    ∷ star space
    ∷ group 1 (seq (digit ∷ star digit_or_comma ∷ cents ∷ []))
    ∷ boundary
    ∷ [])
