-- ===== src/Extraction/General/Names.antt =====
-- extraction/general_extractor.py: what the name of a merchant is not.
use mathlib.Core.Option.{some-injective}
use email_budget_api.Common.{
  ℕ, ◌≤◌, ◌≡◌, refl, sym, subst, ◌∙◌, Bool, true, false, not, ◌||◌, Bool-cases, some, Option-cases,
  inl, inr, ◌==◌, arith, length, length-take-le, All, is_some, take,
}
use email_budget_api.Common.Text.{Text, codes, lower}
use email_budget_api.Strings.{strip, is_blank, contains, is_in}
use email_budget_api.Strings.Sizes.{strip_le, All-strip}
use email_budget_api.Regex.{Regex, match, search, group_of, newline, between}
use email_budget_api.Regex.Meaning.{Spells}
use email_budget_api.Regex.Widths.{Spells-longest, Spells-All}
use email_budget_api.Regex.Bodies.{group_of-IsKeptBy}
use email_budget_api.Regex.Places.{StandsIn, search_iff}
use email_budget_api.Extraction.General.Defs.{
  label_stopwords, is_greeting, is_no_merchant, merchant,
}
use email_budget_api.Extraction.General.Patterns.{
  num, merchant_label, not_newline, date_ish, money_ish,
}

-- A piece of one line.
abbrev IsPiece : Text → Type 0
IsPiece t = (length t ≤ 60) × All (λ (c : ℕ). not (c == newline) ≡ true) t

labelled-IsPiece : (w : Text) → Spells (between 2 60 not_newline) w → IsPiece (strip w)
labelled-IsPiece w h =
    let plain = λ (c : ℕ) (e : not (c == newline) ≡ true). e in
    let size : length w ≤ 60 = Spells-longest (between 2 60 not_newline) w refl h in
    (
      omega (arith, size, strip_le w),
      All-strip (λ (c : ℕ). not (c == newline) ≡ true) w
          (Spells-All (λ (c : ℕ). not (c == newline) ≡ true) (between 2 60 not_newline) w
            ((plain, (plain, tt)), plain) h),
    )

-- What holds of a merchant's name.
pub record IsName (name : Text) : Type 0 where
  pub filled : is_blank name ≡ false
  pub piece : IsPiece name
  pub no_numeral : is_some (match num name) ≡ false
  pub no_colon : contains (codes ":") name ≡ false
  pub no_label : is_in (lower name) label_stopwords ≡ false
  pub no_greeting : is_greeting (lower name) ≡ false
  pub no_date : ¬ StandsIn date_ish name
  pub no_money : ¬ StandsIn money_ish name

or_false : (a b : Bool) → (a || b) ≡ false → (a ≡ false) × (b ≡ false)
or_false true b h = absurd (cc h)
or_false false b h = (refl, h)

not_standing :
    (r : Regex) (t : Text)
    → is_some (search r t) ≡ false
    → (StandsIn r t → is_some (search r t) ≡ true)
    → ¬ StandsIn r t
not_standing r t miss found s = cc (sym miss ∙ found s)

accepted-IsName : (name : Text) → is_no_merchant name ≡ false → IsPiece name → IsName name
unfolding is_no_merchant
accepted-IsName name h piece =
    let (filled, h1) = or_false _ _ h in
    let (no_numeral, h2) = or_false _ _ h1 in
    let (no_colon, h3) = or_false _ _ h2 in
    let (no_label, h4) = or_false _ _ h3 in
    let (no_greeting, h5) = or_false _ _ h4 in
    let (no_date, no_money) = or_false _ _ h5 in
    record {
      filled = filled;
      piece = piece;
      no_numeral = no_numeral;
      no_colon = no_colon;
      no_label = no_label;
      no_greeting = no_greeting;
      no_date = not_standing date_ish name no_date (search_iff date_ish name refl).1;
      no_money = not_standing money_ish name no_money (search_iff money_ish name refl).1;
    }

-- A merchant that the general extractor takes from a text is a name: it is a filled piece of one
-- line with at most 60 characters, it is no numeral, no label of another field and no greeting, it
-- has no colon, and neither an amount's sign or currency code nor a date stands in it. Its snippet
-- has at most 60 characters, too.
pub merchant-IsName :
    (text name snippet : Text)
    → merchant text ≡ some (name, snippet)
    → IsName name × (length snippet ≤ 60)
unfolding merchant
merchant-IsName text name snippet e = elim (Option-cases (search merchant_label text)) [
  | inl miss ↦ absurd (cc (rw (miss, merchant) at e))
  | inr (m, hit) ↦ elim (Option-cases (group_of 1 m)) [
    | inl gone ↦ absurd (cc (rw (hit, gone, merchant) at e))
    | inr (raw, held) ↦ elim (Bool-cases (is_no_merchant (strip raw))) [
      | inl refused ↦ absurd (cc (rw (hit, held, refused, merchant) at e))
      | inr taken ↦
          let same : (strip raw, take 60 m.whole) ≡ (name, snippet) =
            some-injective _ _ (rw (hit, held, taken, merchant) at e) in
          subst (λ (x : Text × Text). IsName x.0 × (length x.1 ≤ 60)) same
            (
              accepted-IsName (strip raw) taken (
                  group_of-IsKeptBy (λ _ w. IsPiece (strip w)) merchant_label text m 1 raw
                    (labelled-IsPiece, tt) hit held),
              length-take-le 60 m.whole,
            )
    ]
  ]
]
