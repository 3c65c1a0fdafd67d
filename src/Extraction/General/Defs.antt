-- ===== src/Extraction/General/Defs.antt =====
-- extraction/general_extractor.py: its functions. `dateparser.parse` is the parameter
-- `dateparser`, with the setting DATE_ORDER; its day is a number.
use email_budget_api.Common.{
  ℕ, Bool, true, false, not, ◌&&◌, ◌||◌, Option, none, some, List, [], ◌∷◌, ◌++◌, if◌then◌else◌,
  take, is_some,
}
use email_budget_api.Common.Text.{Text, codes, text_eq, lower}
use email_budget_api.Extraction.Models.{Field, Fields, no_fields, regex, Direction, debit, credit}
use email_budget_api.Regex.{Regex, match, search, group_of, seq, star, exactly, char, one_of}
use email_budget_api.Strings.{strip, is_blank, upper, starts_with, contains, is_in, or_else, get}
use email_budget_api.Extraction.General.Numerals.{amount_of}
use email_budget_api.Extraction.General.Patterns.{
  digit, space, amount_patterns, date_patterns, card_patterns, num, bare_num, amount_label,
  merchant_label, date_label_specific, date_label_any, card_label, date_ish, money_ish, type_label,
  refund_prose, refund_type, deposit, declined,
}

-- `_DOLLAR_CCY`
abbrev pub dollar_ccy : List (Text × Text)
dollar_ccy =
    (codes "J$", codes "JMD")
    ∷ (codes "TT$", codes "TTD")
    ∷ (codes "BB$", codes "BBD")
    ∷ (codes "US$", codes "USD")
    ∷ (codes "CA$", codes "CAD")
    ∷ (codes "C$", codes "CAD")
    ∷ (codes "A$", codes "AUD")
    ∷ (codes "EC$", codes "XCD")
    ∷ []

-- `_SYMBOL_CCY`
abbrev pub symbol_ccy : List (Text × Text)
symbol_ccy = (163 ∷ [], codes "GBP") ∷ (8364 ∷ [], codes "EUR") ∷ (165 ∷ [], codes "JPY") ∷ []

unfoldable pub ccy : Text → Option Text
unfolding get or_else
ccy raw =
    let token = upper (strip raw) in
    if text_eq token (codes "$")
    then none
    else or_else (get token dollar_ccy) (or_else (get token symbol_ccy) (some token))

-- `_LABEL_STOPWORDS`
abbrev pub label_stopwords : List Text
label_stopwords =
    codes "status"
    ∷ codes "amount"
    ∷ codes "date"
    ∷ codes "time"
    ∷ codes "merchant"
    ∷ codes "approved"
    ∷ codes "declined"
    ∷ codes "reference number"
    ∷ codes "card type"
    ∷ codes "card number ending"
    ∷ codes "transaction"
    ∷ []

-- `pattern.search(text)` as a test
abbrev pub finds : Regex → Text → Bool
finds r t = is_some (search r t)

-- The first group that passes a test; a group that took no part, or nothing, does not count.
unfoldable pub next_group : (Text → Bool) → List (Option Text) → Option Text
next_group p [] = none
next_group p (none ∷ rest) = next_group p rest
next_group p (some g ∷ rest) =
    let later = next_group p rest in if not (is_blank g) && p g then some g else later

-- A value with its currency and its snippet.
pub record Money : Type 0 where
  pub value : ℕ
  pub currency : Option Text
  pub snippet : Text

unfoldable pub money_of : Text → Option Text → Text → Option Money
unfolding ccy
money_of numeral cur snippet = elim (amount_of numeral) [
  | none ↦ none
  | some value ↦ some (record {
    value = value;
    currency = elim cur [ none ↦ none | some token ↦ ccy token ];
    snippet = snippet;
  })
]

-- `_match_amount`
unfoldable pub match_amount : Regex → Text → Option Money
unfolding next_group money_of
match_amount pat scope = elim (search pat scope) [
  | none ↦ none
  | some m ↦
      let groups = group_of 1 m ∷ group_of 2 m ∷ [] in
      elim (next_group (λ g. is_some (match num g)) groups) [
        | none ↦ none
        | some numeral ↦ money_of numeral (next_group (λ g. not (text_eq g numeral)) groups) m.whole
      ]
]

unfoldable pub first_amount : List Regex → Text → Option Money
unfolding match_amount
first_amount [] scope = none
first_amount (pat ∷ rest) scope = elim (match_amount pat scope) [
  | none ↦ first_amount rest scope
  | some r ↦ some r
]

-- "Amount: 670.00" with no currency
unfoldable pub bare_amount : Text → Option Money
unfolding money_of
bare_amount val = elim (search bare_num val) [
  | none ↦ none
  | some m ↦ elim (group_of 1 m) [
    | none ↦ none
    | some numeral ↦ money_of numeral none (codes "Amount: " ++ numeral)
  ]
]

unfoldable pub labelled_amount : Text → Option Money
unfolding first_amount bare_amount or_else
labelled_amount text = elim (search amount_label text) [
  | none ↦ none
  | some labelled ↦ elim (group_of 1 labelled) [
    | none ↦ none
    | some val ↦
        if is_blank val then none else or_else (first_amount amount_patterns val) (bare_amount val)
  ]
]

unfoldable pub amount : Text → Option Money
unfolding labelled_amount first_amount or_else
amount text = or_else (labelled_amount text) (first_amount amount_patterns text)

-- `_card`
unfoldable pub card_by : List Regex → Text → Option (Text × Text)
card_by [] text = none
card_by (pat ∷ rest) text = elim (search pat text) [
  | none ↦ card_by rest text
  | some m ↦ elim (group_of 1 m) [ none ↦ none | some digits ↦ some (digits, m.whole) ]
]

unfoldable pub card : Text → Option (Text × Text)
unfolding card_by
card text = elim (search card_label text) [
  | none ↦ card_by card_patterns text
  | some m ↦ elim (group_of 1 m) [ none ↦ none | some digits ↦ some (digits, take 40 m.whole) ]
]

-- `low.startswith(("dear ", "dear\t", "hello", "hi "))`
unfoldable pub is_greeting : Text → Bool
is_greeting low =
    starts_with (codes "dear ") low
    || (starts_with (codes "dear" ++ 9 ∷ []) low
        || (starts_with (codes "hello") low || starts_with (codes "hi ") low))

-- The reasons of `_merchant` for taking no value.
unfoldable pub is_no_merchant : Text → Bool
unfolding is_greeting
is_no_merchant val =
    let low = lower val in
    is_blank val
    || (is_some (match num val)
        || (contains (codes ":") val
            || (is_in low label_stopwords
                || (is_greeting low || (finds date_ish val || finds money_ish val)))))

unfoldable pub merchant : Text → Option (Text × Text)
unfolding is_no_merchant
merchant text = elim (search merchant_label text) [
  | none ↦ none
  | some m ↦ elim (group_of 1 m) [
    | none ↦ none
    | some raw ↦
        let val = strip raw in if is_no_merchant val then none else some (val, take 60 m.whole)
  ]
]

unfoldable pub type_value : Text → Text
type_value text = elim (search type_label text) [
  | none ↦ []
  | some m ↦ elim (group_of 1 m) [ none ↦ [] | some raw ↦ lower (strip raw) ]
]

unfoldable pub transaction_flags : Text → Direction × Bool × Bool
unfolding type_value
transaction_flags text =
    let is_declined = finds declined text in
    let type_val = type_value text in
    if finds refund_prose text || finds refund_type type_val
    then (credit, true, is_declined)
    else if (starts_with (codes "credit") type_val && not (contains (codes "card") type_val))
        || finds deposit text
    then (credit, false, is_declined)
    else (debit, false, is_declined)

pub data DateOrder : Type 0 where
  ymd dmy : DateOrder

-- `\s*\d{4}[-/.]`
abbrev year_first : Regex
year_first = seq (star space ∷ exactly 4 digit ∷ char (one_of (codes "-/.")) ∷ [])

abbrev pub found_field {ℓ} : {A : Type ℓ} → Option (A × Text) → Option (Field A)
found_field none = none
found_field (some (a, t)) = some (record { value = a; method = regex; snippet = some t })

module _ (dateparser : DateOrder → Text → Option ℕ) where
  -- `_parse_date`
  unfoldable pub parse_date : Text → Option ℕ
  parse_date raw = dateparser (if is_some (match year_first raw) then ymd else dmy) raw

  unfoldable pub labelled_date : Regex → Text → Option (ℕ × Text)
  unfolding parse_date
  labelled_date label text = elim (search label text) [
    | none ↦ none
    | some m ↦ elim (group_of 1 m) [
      | none ↦ none
      | some raw ↦ elim (parse_date (strip raw)) [
        | none ↦ none
        | some d ↦ some (d, take 40 m.whole)
      ]
    ]
  ]

  unfoldable pub shaped_date : List Regex → Text → Option (ℕ × Text)
  unfolding parse_date
  shaped_date [] text = none
  shaped_date (pat ∷ rest) text =
      let later = shaped_date rest text in
      elim (search pat text) [
        | none ↦ later
        | some m ↦ elim (group_of 1 m) [
          | none ↦ later
          | some raw ↦ elim (parse_date raw) [ none ↦ later | some d ↦ some (d, m.whole) ]
        ]
      ]

  -- `_date`
  unfoldable pub date : Text → Option (ℕ × Text)
  unfolding labelled_date shaped_date or_else
  date text =
      or_else (labelled_date date_label_specific text)
        (or_else (shaped_date date_patterns text) (labelled_date date_label_any text))

  unfoldable pub extract : Text → Fields
  unfolding amount date card merchant
  extract text =
      let base = record no_fields {
        transaction_date = found_field (date text);
        card_last4 = found_field (card text);
        merchant = found_field (merchant text);
      } in
      elim (amount text) [
        | none ↦ base
        | some r ↦ record base {
          amount = some (record { value = r.value; method = regex; snippet = some r.snippet });
          currency = elim r.currency [
            | none ↦ none
            | some c ↦
                if is_blank c
                then none
                else some (record { value = c; method = regex; snippet = some r.snippet })
          ];
        }
      ]
