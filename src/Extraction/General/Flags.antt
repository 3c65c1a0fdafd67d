-- ===== src/Extraction/General/Flags.antt =====
-- extraction/general_extractor.py: what the flags of a transaction mean.
use email_budget_api.Common.{
  ◌≡◌, ◌↔◌, ◌⊎◌, refl, sym, Bool, true, false, not, ◌&&◌, ◌||◌, inl, inr, subst, if◌then◌else◌,
}
use email_budget_api.Common.Text.{Text, codes}
use email_budget_api.Strings.{starts_with, contains}
use email_budget_api.Regex.Places.{StandsIn, search_iff}
use email_budget_api.Extraction.Models.{Direction, credit, debit}
use email_budget_api.Extraction.General.Defs.{finds, type_value, transaction_flags}
use email_budget_api.Extraction.General.Patterns.{refund_prose, refund_type, deposit, declined}

-- The refund words of the text, or those of its type field.
abbrev pub IsRefund : Text → Type 0
IsRefund text = StandsIn refund_prose text ⊎ StandsIn refund_type (type_value text)

abbrev pub is_credit_type : Text → Bool
is_credit_type type_val =
    starts_with (codes "credit") type_val && not (contains (codes "card") type_val)

-- What holds of the flags of a text.
pub record IsFlagged (text : Text) (direction : Direction) (refund is_declined : Bool)
    : Type 0 where
  pub declines : (is_declined ≡ true) ↔ StandsIn declined text
  pub refunds : (refund ≡ true) ↔ IsRefund text
  pub credits :
      (direction ≡ credit)
      ↔ (IsRefund text ⊎ ((is_credit_type (type_value text) ≡ true) ⊎ StandsIn deposit text))

or_true : (a b : Bool) → ((a || b) ≡ true) ↔ ((a ≡ true) ⊎ (b ≡ true))
or_true true b = (λ _. inl refl, λ _. refl)
or_true false b = (λ h. inr h, λ h. elim h [ inl k ↦ absurd (cc k) | inr k ↦ k ])

either_iff : {A B C D : Type 0} → (A ↔ B) → (C ↔ D) → ((A ⊎ C) ↔ (B ⊎ D))
either_iff f g = (
  λ h. elim h [ inl a ↦ inl (f.0 a) | inr c ↦ inr (g.0 c) ],
  λ h. elim h [ inl b ↦ inl (f.1 b) | inr d ↦ inr (g.1 d) ],
)

iff_trans : {A B C : Type 0} → (A ↔ B) → (B ↔ C) → (A ↔ C)
iff_trans f g = (λ a. g.0 (f.0 a), λ c. f.1 (g.1 c))

-- The flags, by whether the email tells of a refund, of another credit, and of a decline.
picked : (refund other is_declined : Bool) → Direction × Bool × Bool
picked refund other is_declined =
    if refund
    then (credit, true, is_declined)
    else if other
    then (credit, false, is_declined)
    else (debit, false, is_declined)

picked-credit :
    (refund other is_declined : Bool)
    → ((picked refund other is_declined).0 ≡ credit) ↔ ((refund ≡ true) ⊎ (other ≡ true))
unfolding picked
picked-credit true other is_declined = (λ _. inl refl, λ _. refl)
picked-credit false true is_declined = (λ _. inr refl, λ _. refl)
picked-credit false false is_declined =
    (λ h. absurd (cc h), λ h. elim h [ inl k ↦ absurd (cc k) | inr k ↦ absurd (cc k) ])

picked-same :
    (refund other is_declined : Bool)
    → ((picked refund other is_declined).1 ≡ refund)
      × ((picked refund other is_declined).2 ≡ is_declined)
unfolding picked
picked-same true other is_declined = (refl, refl)
picked-same false true is_declined = (refl, refl)
picked-same false false is_declined = (refl, refl)

-- The flags of an email say what stands in it: it is declined exactly where the word stands in the
-- text, a probable refund exactly where a refund word stands in the text or in the type field, and
-- a credit exactly where it is a refund, has a credit type that is no card, or a deposit stands in
-- the text; any other email is a debit. A word stands in a text where its pattern leads from some
-- place of it, whatever the order of the search.
pub transaction_flags-IsFlagged :
    (text : Text)
    → let (direction, refund, is_declined) = transaction_flags text in
      IsFlagged text direction refund is_declined
unfolding transaction_flags picked
transaction_flags-IsFlagged text =
    let type_val = type_value text in
    let prose = finds refund_prose text in
    let typed = finds refund_type type_val in
    let other = is_credit_type type_val || finds deposit text in
    let refund_iff =
      iff_trans (or_true prose typed)
        (either_iff (search_iff refund_prose text refl) (search_iff refund_type type_val refl)) in
    let other_iff =
      iff_trans (or_true (is_credit_type type_val) (finds deposit text))
        (either_iff (λ h. h, λ h. h) (search_iff deposit text refl)) in
    let same = picked-same (prose || typed) other (finds declined text) in
    record {
      declines =
          subst (λ (b : Bool). (b ≡ true) ↔ StandsIn declined text) (sym same.1)
            (search_iff declined text refl);
      refunds = subst (λ (b : Bool). (b ≡ true) ↔ IsRefund text) (sym same.0) refund_iff;
      credits =
          iff_trans (picked-credit (prose || typed) other (finds declined text))
            (either_iff refund_iff other_iff);
    }
