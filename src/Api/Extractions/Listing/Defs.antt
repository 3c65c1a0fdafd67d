-- ===== src/Api/Extractions/Listing/Defs.antt =====
-- api/v1/extractions.py, GET "": the filters and the pages. A row of a page stands for its
-- `ExtractionSummary`, which is a selection of its columns.
use email_budget_api.Common.{
  ℕ, zero, suc, Bool, true, false, ◌&&◌, Option, none, some, List, [], ◌∷◌, leb, ltb, if◌then◌else◌,
  take, where_, count,
}
use email_budget_api.Common.Text.{Text, text_eq}
use email_budget_api.Models.Extraction.{ResultStatus, ExtractionResult}
use email_budget_api.Models.Db.{Db}

-- The query parameters; the status is a value of the column's vocabulary.
pub record ListQuery : Type 0 where
  pub external_user_id : Text
  pub status : Option ResultStatus
  pub date_from : Option ℕ
  pub date_to : Option ℕ
  pub limit : ℕ
  pub offset : ℕ

pub record ExtractionPage : Type 0 where
  pub items : List ExtractionResult
  pub total : ℕ
  pub limit : ℕ
  pub offset : ℕ

unfoldable pub status_eq : ResultStatus → ResultStatus → Bool
status_eq ResultStatus.pending_review ResultStatus.pending_review = true
status_eq ResultStatus.confirmed ResultStatus.confirmed = true
status_eq ResultStatus.dismissed ResultStatus.dismissed = true
status_eq ResultStatus.extraction_failed ResultStatus.extraction_failed = true
status_eq ResultStatus.duplicate_suppressed ResultStatus.duplicate_suppressed = true
status_eq ResultStatus.non_financial ResultStatus.non_financial = true
status_eq ResultStatus.forwarding_verification ResultStatus.forwarding_verification = true
status_eq _ _ = false

-- `conds`
unfoldable pub is_listed : ListQuery → ExtractionResult → Bool
unfolding status_eq
is_listed q r =
    text_eq r.external_user_id q.external_user_id
    && (elim q.status [ none ↦ true | some s ↦ status_eq r.status s ]
        && (elim q.date_from [ none ↦ true | some d ↦ leb d r.created_at ]
            && elim q.date_to [ none ↦ true | some d ↦ ltb r.created_at d ]))

unfoldable pub insert_newest : ExtractionResult → List ExtractionResult → List ExtractionResult
insert_newest x [] = x ∷ []
insert_newest x (y ∷ ys) =
    let rest = y ∷ insert_newest x ys in if leb y.created_at x.created_at then x ∷ y ∷ ys else rest

-- .order_by(created_at.desc())
unfoldable pub newest_first : List ExtractionResult → List ExtractionResult
unfolding insert_newest
newest_first [] = []
newest_first (x ∷ xs) = insert_newest x (newest_first xs)

-- .offset(n)
unfoldable pub drop : {A : Type 0} → ℕ → List A → List A
drop zero xs = xs
drop (suc n) [] = []
drop (suc n) (x ∷ xs) = drop n xs

-- `Query(ge=1, le=200)`; an offset is a natural number, so `ge=0` holds of each.
unfoldable pub is_page_size : ℕ → Bool
is_page_size limit = leb 1 limit && leb limit 200

-- The page, or `none` for the 422 of a limit out of range.
unfoldable pub list_extractions : ListQuery → Db → Option ExtractionPage
unfolding is_listed newest_first drop is_page_size
list_extractions q db =
    if is_page_size q.limit
    then some (record {
      items = take q.limit (drop q.offset (newest_first (where_ (is_listed q) db.extractions)));
      total = count (is_listed q) db.extractions;
      limit = q.limit;
      offset = q.offset;
    })
    else none
