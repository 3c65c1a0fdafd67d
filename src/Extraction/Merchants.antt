-- ===== src/Extraction/Merchants.antt =====
-- services/rules_engine.py, with seed/merchant_rules.py.
use email_budget_api.Common.{
  Bool, false, not, ◌||◌, Option, none, some, List, [], ◌∷◌, if◌then◌else◌, is_some,
}
use email_budget_api.Common.Text.{Text, codes, text_eq, or_none}
use email_budget_api.Regex.{Regex, char, search, is_space, one_of, seq, plus, at_least, text_end}
use email_budget_api.Strings.{
  strip, upper, title, is_upper, is_lower, starts_with, contains, or_else, sub, get,
}

-- The four values of `match_type`, in the order in which they are tried.
pub data RuleKind : Type 0 where
  by_prefix by_part by_whole by_regex : RuleKind

-- A rule; the pattern of a `by_regex` rule is `regex`, of any other `pattern`.
pub record Rule : Type 0 where
  pub match_type : RuleKind
  pub pattern : Text
  pub regex : Regex
  pub normalized : Text
  pub category : Option Text

abbrev contains_rule : Text → Text → Text → Rule
contains_rule pattern normalized category = record {
  match_type = by_part;
  pattern = pattern;
  regex = Regex.empty;
  normalized = normalized;
  category = some category;
}

-- `MERCHANT_RULES`
abbrev pub merchant_rules : List Rule
merchant_rules =
    contains_rule (codes "AMAZON") (codes "Amazon") (codes "Shopping")
    ∷ contains_rule (codes "AMZN") (codes "Amazon") (codes "Shopping")
    ∷ contains_rule (codes "UBER EATS") (codes "Uber Eats") (codes "Food & Drink")
    ∷ contains_rule (codes "UBER") (codes "Uber") (codes "Transport")
    ∷ contains_rule (codes "NETFLIX") (codes "Netflix") (codes "Entertainment")
    ∷ contains_rule (codes "SPOTIFY") (codes "Spotify") (codes "Entertainment")
    ∷ contains_rule (codes "DOORDASH") (codes "DoorDash") (codes "Food & Drink")
    ∷ contains_rule (codes "STARBUCKS") (codes "Starbucks") (codes "Food & Drink")
    ∷ contains_rule (codes "APPLE") (codes "Apple") (codes "Shopping")
    ∷ []

-- `CATEGORY_MAP`
abbrev pub category_map : List (Text × Text)
category_map =
    (codes "Amazon", codes "Shopping")
    ∷ (codes "Netflix", codes "Entertainment")
    ∷ (codes "Spotify", codes "Entertainment")
    ∷ (codes "Uber", codes "Transport")
    ∷ (codes "Uber Eats", codes "Food & Drink")
    ∷ (codes "DoorDash", codes "Food & Drink")
    ∷ (codes "Starbucks", codes "Food & Drink")
    ∷ (codes "Apple", codes "Shopping")
    ∷ []

-- `rule["match_type"] == order and hit`
unfoldable pub hits : RuleKind → Text → Rule → Bool
hits by_prefix candidate rule = elim rule.match_type [
  | by_prefix ↦ starts_with (upper rule.pattern) (upper candidate)
  | _ ↦ false
]
hits by_part candidate rule = elim rule.match_type [
  | by_part ↦ contains (upper rule.pattern) (upper candidate)
  | _ ↦ false
]
hits by_whole candidate rule = elim rule.match_type [
  | by_whole ↦ text_eq (upper candidate) (upper rule.pattern)
  | _ ↦ false
]
hits by_regex candidate rule = elim rule.match_type [
  | by_regex ↦ is_some (search rule.regex candidate)
  | _ ↦ false
]

unfoldable pub first_hit : RuleKind → Text → List Rule → Option Rule
unfolding hits
first_hit order candidate [] = none
first_hit order candidate (rule ∷ rest) =
    let later = first_hit order candidate rest in
    if hits order candidate rule then some rule else later

unfoldable pub best_rule : List RuleKind → Text → List Rule → Option Rule
unfolding first_hit or_else
best_rule [] candidate rules = none
best_rule (order ∷ orders) candidate rules =
    or_else (first_hit order candidate rules) (best_rule orders candidate rules)

abbrev pub match_order : List RuleKind
match_order = by_prefix ∷ by_part ∷ by_whole ∷ by_regex ∷ []

-- `_TXN_ID_TAIL`: `[\*#]\S+$`
abbrev pub txn_id_tail : Regex
txn_id_tail = seq (char (one_of (codes "*#")) ∷ plus (char (λ c. not (is_space c))) ∷ text_end ∷ [])

-- The generic cleanup.
unfoldable pub cleanup : Text → Text
cleanup candidate =
    let bare = strip (sub txn_id_tail [] candidate) in
    let cleaned = sub (at_least 2 (char is_space)) (32 ∷ []) bare in
    if is_upper cleaned || is_lower cleaned then title cleaned else cleaned

unfoldable pub normalize_candidate : List Rule → Text → Option Text × Option Text
unfolding best_rule cleanup
normalize_candidate rules candidate = elim (best_rule match_order candidate rules) [
  | some rule ↦ (some rule.normalized, rule.category)
  | none ↦ let normalized = cleanup candidate in (or_none normalized, get normalized category_map)
]

unfoldable pub normalize_merchant : Option Text → Option Text × Option Text
unfolding normalize_candidate
normalize_merchant none = (none, none)
normalize_merchant (some []) = (none, none)
normalize_merchant (some (c ∷ raw)) = normalize_candidate merchant_rules (strip (c ∷ raw))
