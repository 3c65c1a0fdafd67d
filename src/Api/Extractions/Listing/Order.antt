-- ===== src/Api/Extractions/Listing/Order.antt =====
-- api/v1/extractions.py, GET "": the order of the rows, and what an offset leaves out.
use email_budget_api.Common.{
  ℕ, zero, suc, ◌-◌, ◌≤◌, ◌<◌, ◌≡◌, ◌⊎◌, inl, inr, refl, ◌∙◌, ap, List, [], ◌∷◌, arith, length, leb,
  Bool-cases, All, Row, IsFalling, All-le,
}
use email_budget_api.Models.Extraction.{ExtractionResult}
use email_budget_api.Api.Extractions.Listing.Defs.{insert_newest, newest_first, drop}

-- When a row was created.
abbrev pub age : ExtractionResult → ℕ
age r = r.created_at

All-insert_newest :
    (P : ExtractionResult → Type 0) (x : ExtractionResult) (xs : List ExtractionResult)
    → P x
    → All P xs
    → All P (insert_newest x xs)
unfolding insert_newest
All-insert_newest P x [] h k = (h, tt)
All-insert_newest P x (y ∷ ys) h k = ground (arith, All-insert_newest P x ys h k.1)

pub All-newest_first :
    (P : ExtractionResult → Type 0) (xs : List ExtractionResult)
    → All P xs
    → All P (newest_first xs)
unfolding newest_first
All-newest_first P [] h = tt
All-newest_first P (x ∷ xs) h =
    All-insert_newest P x (newest_first xs) h.0 (All-newest_first P xs h.1)

insert_newest-IsFalling :
    (x : ExtractionResult) (xs : List ExtractionResult)
    → IsFalling age xs
    → IsFalling age (insert_newest x xs)
unfolding insert_newest
insert_newest-IsFalling x [] h = (tt, tt)
insert_newest-IsFalling x (y ∷ ys) h = elim (Bool-cases (leb y.created_at x.created_at)) [
  | inl e ↦
      let le : y.created_at ≤ x.created_at = ground (arith, e) in
      rw (e, insert_newest) ((le, All-le age y.created_at x.created_at ys le h.0), h)
  | inr e ↦
      let le : x.created_at ≤ y.created_at = ground (arith, e) in
      rw (e, insert_newest)
        (
          All-insert_newest (λ r. r.created_at ≤ y.created_at) x ys le h.0,
          insert_newest-IsFalling x ys h.1,
        )
]

pub newest_first-IsFalling : (xs : List ExtractionResult) → IsFalling age (newest_first xs)
unfolding newest_first
newest_first-IsFalling [] = tt
newest_first-IsFalling (x ∷ xs) =
    insert_newest-IsFalling x (newest_first xs) (newest_first-IsFalling xs)

Row-insert_newest :
    (x r : ExtractionResult) (xs : List ExtractionResult)
    → (r ≡ x) ⊎ Row r xs
    → Row r (insert_newest x xs)
unfolding insert_newest
Row-insert_newest x r [] h = h
Row-insert_newest x r (y ∷ ys) h = ground (arith, Row-insert_newest x r ys)

pub Row-newest_first :
    (r : ExtractionResult) (xs : List ExtractionResult) → Row r xs → Row r (newest_first xs)
unfolding newest_first
Row-newest_first r [] h = h
Row-newest_first r (x ∷ xs) (inl e) = Row-insert_newest x r (newest_first xs) (inl e)
Row-newest_first r (x ∷ xs) (inr h) =
    Row-insert_newest x r (newest_first xs) (inr (Row-newest_first r xs h))

length-insert_newest :
    (x : ExtractionResult) (xs : List ExtractionResult)
    → length (insert_newest x xs) ≡ suc (length xs)
unfolding insert_newest
length-insert_newest x [] = refl
length-insert_newest x (y ∷ ys) = ground (arith, length-insert_newest x ys)

pub length-newest_first : (xs : List ExtractionResult) → length (newest_first xs) ≡ length xs
unfolding newest_first
length-newest_first [] = refl
length-newest_first (x ∷ xs) =
    length-insert_newest x (newest_first xs) ∙ ap suc (length-newest_first xs)

pub All-drop : {A : Type 0} (P : A → Type 0) (n : ℕ) (xs : List A) → All P xs → All P (drop n xs)
unfolding drop
All-drop P zero xs h = h
All-drop P (suc n) [] h = tt
All-drop P (suc n) (x ∷ xs) h = All-drop P n xs h.1

pub length-drop : {A : Type 0} (n : ℕ) (xs : List A) → length (drop n xs) ≡ length xs - n
unfolding drop
length-drop zero xs = omega arith
length-drop (suc n) [] = omega arith
length-drop (suc n) (x ∷ xs) = omega (arith, length-drop n xs)

pub drop-IsFalling :
    (n : ℕ) (xs : List ExtractionResult) → IsFalling age xs → IsFalling age (drop n xs)
unfolding drop
drop-IsFalling zero xs h = h
drop-IsFalling (suc n) [] h = tt
drop-IsFalling (suc n) (x ∷ xs) h = drop-IsFalling n xs h.1

-- A row that an offset leaves out is at least as new as what is left.
pub Row-drop :
    (n : ℕ) (xs : List ExtractionResult) (r : ExtractionResult)
    → IsFalling age xs
    → Row r xs
    → Row r (drop n xs)
      ⊎ ((0 < n) × All (λ (x : ExtractionResult). x.created_at ≤ r.created_at) (drop n xs))
unfolding drop
Row-drop zero xs r h k = inl k
Row-drop (suc n) [] r h k = elim k [ ]
Row-drop (suc n) (x ∷ xs) r h (inl e) =
    inr (
      omega arith,
      rw e (All-drop (λ (y : ExtractionResult). y.created_at ≤ x.created_at) n xs h.0),
    )
Row-drop (suc n) (x ∷ xs) r h (inr k) = elim (Row-drop n xs r h.1 k) [
  | inl kept ↦ inl kept
  | inr (pos, new) ↦ inr (omega arith, new)
]
