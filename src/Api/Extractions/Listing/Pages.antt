-- ===== src/Api/Extractions/Listing/Pages.antt =====
-- api/v1/extractions.py, GET "": what a page of a listing shows.
use email_budget_api.Common.{
  ℕ, ◌-◌, ◌≤◌, ◌<◌, ◌≡◌, ◌↔◌, ◌⊎◌, inl, inr, refl, ◌∙◌, Bool, true, false, ◌&&◌, Bool-cases, Option,
  none, some, List, arith, length, take, where_, count, min, All, All-take, All-where, All-map,
  All-pure, Row, Row-take, where-Row, length-where_, length-take, IsFalling, take-IsFalling, leb,
  ltb,
}
use mathlib.Core.Option.{some-injective}
use email_budget_api.Common.Text.{text_eq_iff}
use email_budget_api.Models.Extraction.{ExtractionResult, ResultStatus}
use email_budget_api.Models.Db.{Db}
use email_budget_api.Api.Extractions.Listing.Defs.{
  ListQuery, ExtractionPage, status_eq, is_listed, newest_first, drop, is_page_size,
  list_extractions,
}
use email_budget_api.Api.Extractions.Listing.Order.{
  age, All-newest_first, newest_first-IsFalling, Row-newest_first, length-newest_first, All-drop,
  length-drop, drop-IsFalling, Row-drop,
}

-- The row is what the query asks for.
pub record Matches (q : ListQuery) (r : ExtractionResult) : Type 0 where
  pub user : r.external_user_id ≡ q.external_user_id
  pub status : (s : ResultStatus) → q.status ≡ some s → r.status ≡ s
  pub from : (d : ℕ) → q.date_from ≡ some d → d ≤ r.created_at
  pub before : (d : ℕ) → q.date_to ≡ some d → r.created_at < d

pub status_eq_iff : (a b : ResultStatus) → (status_eq a b ≡ true) ↔ (a ≡ b)
unfolding status_eq
status_eq_iff a b = ground arith

status_iff :
    (o : Option ResultStatus) (t : ResultStatus)
    → (elim o [ none ↦ true | some s ↦ status_eq t s ] ≡ true)
      ↔ ((s : ResultStatus) → o ≡ some s → t ≡ s)
status_iff none t = ((λ h s e. absurd (cc)), λ h. refl)
status_iff (some u) t = (
  (λ h s e. (status_eq_iff t u).0 h ∙ some-injective _ _ e),
  λ h. (status_eq_iff t u).1 (h u refl),
)

from_iff :
    (o : Option ℕ) (n : ℕ)
    → (elim o [ none ↦ true | some d ↦ leb d n ] ≡ true) ↔ ((d : ℕ) → o ≡ some d → d ≤ n)
from_iff none n = ((λ h d e. absurd (cc)), λ h. refl)
from_iff (some c) n = (
  (λ h d e. let same = some-injective _ _ e in ground (arith, same)),
  λ h. let le = h c refl in ground arith,
)

before_iff :
    (o : Option ℕ) (n : ℕ)
    → (elim o [ none ↦ true | some d ↦ ltb n d ] ≡ true) ↔ ((d : ℕ) → o ≡ some d → n < d)
before_iff none n = ((λ h d e. absurd (cc)), λ h. refl)
before_iff (some c) n = (
  (λ h d e. let same = some-injective _ _ e in ground (arith, same)),
  λ h. let lt = h c refl in ground arith,
)

and_iff : (a b : Bool) → ((a && b) ≡ true) ↔ ((a ≡ true) × (b ≡ true))
and_iff true b = ((λ h. (refl, h)), λ h. h.1)
and_iff false b = ((λ h. absurd (cc)), λ h. h.0)

-- The condition of the query is that the row is what the query asks for.
is_listed_iff : (q : ListQuery) (r : ExtractionResult) → (is_listed q r ≡ true) ↔ Matches q r
unfolding is_listed
is_listed_iff q r = (
  (λ h.
      let (own, rest) = (and_iff _ _).0 h in
      let (status, dates) = (and_iff _ _).0 rest in
      let (low, high) = (and_iff _ _).0 dates in
      record {
        user = (text_eq_iff _ _).0 own;
        status = (status_iff q.status r.status).0 status;
        from = (from_iff q.date_from r.created_at).0 low;
        before = (before_iff q.date_to r.created_at).0 high;
      }),
  λ m. (and_iff _ _).1 (
    (text_eq_iff _ _).1 m.user,
    (and_iff _ _).1 (
      (status_iff q.status r.status).1 m.status,
      (and_iff _ _).1 (
        (from_iff q.date_from r.created_at).1 m.from,
        (before_iff q.date_to r.created_at).1 m.before,
      ),
    ),
  ),
)

-- What a page is of a table.
pub record IsPage (q : ListQuery) (rows : List ExtractionResult) (page : ExtractionPage)
    : Type 0 where
  pub in_range : (1 ≤ q.limit) × (q.limit ≤ 200)
  pub asked : All (Matches q) page.items
  pub newest_first : IsFalling age page.items
  pub condition : (r : ExtractionResult) → (is_listed q r ≡ true) ↔ Matches q r
  pub total : page.total ≡ count (is_listed q) rows
  pub size : length page.items ≡ min q.limit (page.total - q.offset)
  -- A row that is left out is at least as new as the page, and skipped by the offset, or it is at
  -- most as new as the page, and the page is full.
  pub left_out :
      (r : ExtractionResult)
      → Row r rows
      → Matches q r
      → Row r page.items
        ⊎ (((0 < q.offset) × All (λ (x : ExtractionResult). x.created_at ≤ r.created_at) page.items)
            ⊎ ((length page.items ≡ q.limit)
                × All (λ (x : ExtractionResult). r.created_at ≤ x.created_at) page.items))

-- What is answered: a page, or a refusal of a limit that is out of range.
abbrev pub IsAnswer : ListQuery → List ExtractionResult → Option ExtractionPage → Type 0
IsAnswer q rows none = ¬ ((1 ≤ q.limit) × (q.limit ≤ 200))
IsAnswer q rows (some page) = IsPage q rows page

page_left_out :
    (limit offset : ℕ) (r : ExtractionResult) (xs : List ExtractionResult)
    → IsFalling age xs
    → Row r xs
    → let items = take limit (drop offset xs) in
      Row r items
      ⊎ (((0 < offset) × All (λ (x : ExtractionResult). x.created_at ≤ r.created_at) items)
          ⊎ ((length items ≡ limit)
              × All (λ (x : ExtractionResult). r.created_at ≤ x.created_at) items))
page_left_out limit offset r xs falls row = elim (Row-drop offset xs r falls row) [
  | inr (skips, new) ↦ inr (inl (skips, All-take _ limit _ new))
  | inl kept ↦ elim (Row-take age limit (drop offset xs) r (drop-IsFalling offset xs falls) kept) [
    | inl shown ↦ inl shown
    | inr (full, old) ↦ inr (inr (full, old))
  ]
]

-- A listing is refused exactly if its limit is not from 1 to 200. Otherwise it shows only rows of
-- the asked user that meet the asked status and dates, the newest first; its total is the number
-- of all such rows, and it shows those after the offset, up to the limit. Such a row that it leaves
-- out is at least as new as all that it shows and skipped by an offset, or at most as new, and the
-- page is full.
pub list_extractions-IsAnswer :
    (q : ListQuery) (db : Db) → IsAnswer q db.extractions (list_extractions q db)
unfolding list_extractions is_page_size
list_extractions-IsAnswer q db = elim (Bool-cases (is_page_size q.limit)) [
  | inr refused ↦ rw (refused, list_extractions) (λ h. ground (arith, h))
  | inl fits ↦
      let found = where_ (is_listed q) db.extractions in
      let falls = newest_first-IsFalling found in
      rw (fits, list_extractions)
        (record {
          in_range = ground arith;
          asked = All-take _ q.limit _ (
              All-drop _ q.offset _ (
                All-newest_first _ _ (
                  All-map (λ r k. (is_listed_iff q r).0 k.1) _
                    (All-where (λ _. Unit) (is_listed q) db.extractions
                      (All-pure _ (λ _. tt) db.extractions)))));
          newest_first =
              take-IsFalling age q.limit _ (drop-IsFalling q.offset (newest_first found) falls);
          condition = is_listed_iff q;
          total = refl;
          size =
              let a = length-take q.limit (drop q.offset (newest_first found)) in
              let b = length-drop q.offset (newest_first found) in
              let c = length-newest_first found in
              let d = length-where_ (is_listed q) db.extractions in omega (arith, a, b, c, d);
          left_out = λ r row m. page_left_out q.limit q.offset r (newest_first found) falls (
              Row-newest_first r found
                (where-Row (is_listed q) db.extractions r row ((is_listed_iff q r).1 m)));
        })
]
