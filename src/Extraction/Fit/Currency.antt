-- ===== src/Extraction/Fit/Currency.antt =====
-- extraction/general_extractor.py: the currency beside an amount.
use mathlib.Core.Option.{some-injective}
use email_budget_api.Common.{
  ◌≡◌, ◌≤◌, ◌⊎◌, refl, sym, ap, subst, ◌∙◌, Bool, true, not, Bool-cases, Option, none, some,
  Option-cases, inl, inr, List, [], ◌∷◌, ◌++◌, arith, length, All, is_some,
}
use email_budget_api.Common.Text.{Text, text_eq, text_eq_refl, codes}
use email_budget_api.Regex.{Regex, match, search, group_of}
use email_budget_api.Regex.Bodies.{group_of-IsKeptBy}
use email_budget_api.Strings.{upper, strip, or_else, is_blank, get}
use email_budget_api.Strings.Sizes.{strip_le, length-upper}
use email_budget_api.Extraction.General.{
  dollar_ccy, symbol_ccy, ccy, next_group, Money, money_of, match_amount, first_amount, bare_amount,
  labelled_amount, amount,
}
use email_budget_api.Extraction.Fit.Signs.{
  IsShort, IsSign, sign_no_num, HasSign, amount_patterns-HasSign,
}
use email_budget_api.Extraction.General.Numerals.{amount_of}
use email_budget_api.Extraction.General.Patterns.{num, amount_patterns, bare_num, amount_label}

pub get-All {ℓ} :
    {A : Type ℓ} (P : A → Type 0) (key : Text) (table : List (Text × A)) (a : A)
    → All (λ (x : Text × A). P x.1) table
    → get key table ≡ some a
    → P a
unfolding get
get-All P key [] a h e = absurd (cc e)
get-All P key ((k, b) ∷ rest) a h e = elim (Bool-cases (text_eq k key)) [
  | inl hit ↦ subst P (some-injective _ _ (rw (hit, get) at e)) h.0
  | inr miss ↦ get-All P key rest a h.1 (rw (miss, get) at e)
]

ccy-IsShort : (token c : Text) → IsShort token → ccy token ≡ some c → IsShort c
unfolding ccy or_else
ccy-IsShort token c h e =
    let name = upper (strip token) in
    let size : IsShort name = omega (arith, length-upper (strip token), strip_le token, h) in
    elim (Bool-cases (text_eq name (codes "$"))) [
      | inl bare ↦ absurd (cc (rw (bare, ccy) at e))
      | inr other ↦ elim (Option-cases (get name dollar_ccy)) [
        | inr (d, found) ↦
            subst IsShort (some-injective _ _ (rw (other, found, ccy) at e))
              (get-All IsShort name dollar_ccy d (ground arith) found)
        | inl no_dollar ↦ elim (Option-cases (get name symbol_ccy)) [
          | inr (d, found) ↦
              subst IsShort (some-injective _ _ (rw (other, no_dollar, found, ccy) at e))
                (get-All IsShort name symbol_ccy d (ground arith) found)
          | inl unknown ↦
              subst IsShort (some-injective _ _ (rw (other, no_dollar, unknown, ccy) at e)) size
        ]
      ]
    ]

next_group_two :
    (p : Text → Bool) (o o' : Option Text) (t : Text)
    → next_group p (o ∷ o' ∷ []) ≡ some t
    → ((o ≡ some t) ⊎ (o' ≡ some t)) × (p t ≡ true)
unfolding next_group
next_group_two p o o' t e = ground arith

-- The group that is not the numeral is the currency, wherever it stands.
currency_group :
    (sign other : Option Text) (numeral token : Text)
    → ((w : Text) → sign ≡ some w → IsSign w)
    → (sign ≡ some numeral) ⊎ (other ≡ some numeral)
    → is_some (match num numeral) ≡ true
    → (sign ≡ some token) ⊎ (other ≡ some token)
    → not (text_eq token numeral) ≡ true
    → IsShort token
currency_group sign other numeral token h (inl k) n t d =
    absurd (sign_no_num numeral (h numeral k) n)
currency_group sign other numeral token h (inr k) n (inl t) d = (h token t).0
currency_group sign other numeral token h (inr k) n (inr t) d =
    let same : token ≡ numeral = some-injective _ _ (sym t ∙ k) in
    absurd (cc (rw (same, text_eq_refl numeral) at d))

swap : {A B : Type 0} → A ⊎ B → B ⊎ A
swap (inl a) = inr a
swap (inr b) = inl b

money_of-IsShort :
    (numeral : Text) (cur : Option Text) (s c : Text) (r : Money)
    → ((token : Text) → cur ≡ some token → IsShort token)
    → money_of numeral cur s ≡ some r
    → r.currency ≡ some c
    → IsShort c
unfolding money_of
money_of-IsShort numeral none s c r h e k = elim (Option-cases (amount_of numeral)) [
  | inl bad ↦ absurd (cc (rw (bad, money_of) at e))
  | inr (v, good) ↦
      absurd
        (cc (ap (λ (x : Money). x.currency) (some-injective _ _ (rw (good, money_of) at e)) ∙ k))
]
money_of-IsShort numeral (some token) s c r h e k = elim (Option-cases (amount_of numeral)) [
  | inl bad ↦ absurd (cc (rw (bad, money_of) at e))
  | inr (v, good) ↦
      ccy-IsShort token c (h token refl)
        (ap (λ (x : Money). x.currency) (some-injective _ _ (rw (good, money_of) at e)) ∙ k)
]

match_amount-IsShort :
    (r : Regex) (scope c : Text) (x : Money)
    → HasSign r
    → match_amount r scope ≡ some x
    → x.currency ≡ some c
    → IsShort c
unfolding match_amount
match_amount-IsShort r scope c x h e k = elim (Option-cases (search r scope)) [
  | inl miss ↦ absurd (cc (rw (miss, match_amount) at e))
  | inr (m, hit) ↦
      let is_num = λ (g : Text). is_some (match num g) in
      let groups = group_of 1 m ∷ group_of 2 m ∷ [] in
      elim (Option-cases (next_group is_num groups)) [
        | inl no_num ↦ absurd (cc (rw (hit, no_num, match_amount) at e))
        | inr (numeral, found) ↦
            let (place, good) = next_group_two is_num (group_of 1 m) (group_of 2 m) numeral found in
            let differs = λ (g : Text). not (text_eq g numeral) in
            money_of-IsShort numeral (next_group differs groups) m.whole c x
              (λ token t.
                let (where_token, d) =
                  next_group_two differs (group_of 1 m) (group_of 2 m) token t in
                elim h [
                  | inl one ↦
                      currency_group (group_of 1 m) (group_of 2 m) numeral token
                        (λ w held.
                          group_of-IsKeptBy (λ n v. n ≡ 1 → IsSign v) r scope m 1 w one hit held
                            refl)
                        place good where_token d
                  | inr two ↦
                      currency_group (group_of 2 m) (group_of 1 m) numeral token
                        (λ w held.
                          group_of-IsKeptBy (λ n v. n ≡ 2 → IsSign v) r scope m 2 w two hit held
                            refl)
                        (swap place) good (swap where_token) d
                ])
              (rw (hit, found, match_amount) at e) k
      ]
]

first_amount-IsShort :
    (patterns : List Regex) (scope c : Text) (x : Money)
    → All HasSign patterns
    → first_amount patterns scope ≡ some x
    → x.currency ≡ some c
    → IsShort c
unfolding first_amount
first_amount-IsShort [] scope c x h e k = absurd (cc e)
first_amount-IsShort (r ∷ rest) scope c x h e k = elim (Option-cases (match_amount r scope)) [
  | inl miss ↦ first_amount-IsShort rest scope c x h.1 (rw (miss, first_amount) at e) k
  | inr (y, hit) ↦ match_amount-IsShort r scope c x h.0 (hit ∙ rw (hit, first_amount) at e) k
]

bare_amount-IsShort :
    (val c : Text) (x : Money) → bare_amount val ≡ some x → x.currency ≡ some c → IsShort c
unfolding bare_amount
bare_amount-IsShort val c x e k = elim (Option-cases (search bare_num val)) [
  | inl miss ↦ absurd (cc (rw (miss, bare_amount) at e))
  | inr (m, hit) ↦ elim (Option-cases (group_of 1 m)) [
    | inl gone ↦ absurd (cc (rw (hit, gone, bare_amount) at e))
    | inr (numeral, held) ↦
        money_of-IsShort numeral none (codes "Amount: " ++ numeral) c x (λ token t. absurd (cc t))
          (rw (hit, held, bare_amount) at e) k
  ]
]

or_else-cases :
    (o p : Option Money) (x : Money) → or_else o p ≡ some x → (o ≡ some x) ⊎ (p ≡ some x)
unfolding or_else
or_else-cases none p x e = inr e
or_else-cases (some y) p x e = inl e

labelled_amount-IsShort :
    (text c : Text) (x : Money) → labelled_amount text ≡ some x → x.currency ≡ some c → IsShort c
unfolding labelled_amount
labelled_amount-IsShort text c x e k = elim (Option-cases (search amount_label text)) [
  | inl miss ↦ absurd (cc (rw (miss, labelled_amount) at e))
  | inr (m, hit) ↦ elim (Option-cases (group_of 1 m)) [
    | inl gone ↦ absurd (cc (rw (hit, gone, labelled_amount) at e))
    | inr (val, held) ↦ elim (Bool-cases (is_blank val)) [
      | inl blank ↦ absurd (cc (rw (hit, held, blank, labelled_amount) at e))
      | inr filled ↦
          elim (or_else-cases (first_amount amount_patterns val) (bare_amount val) x
            (rw (hit, held, filled, labelled_amount) at e)) [
              | inl f ↦ first_amount-IsShort amount_patterns val c x amount_patterns-HasSign f k
              | inr b ↦ bare_amount-IsShort val c x b k
            ]
    ]
  ]
]

-- The currency beside an amount has at most three characters.
pub amount-IsShort :
    (text c : Text) (x : Money) → amount text ≡ some x → x.currency ≡ some c → length c ≤ 3
unfolding amount
amount-IsShort text c x e k =
    elim (or_else-cases (labelled_amount text) (first_amount amount_patterns text) x e) [
      | inl l ↦ labelled_amount-IsShort text c x l k
      | inr f ↦ first_amount-IsShort amount_patterns text c x amount_patterns-HasSign f k
    ]
