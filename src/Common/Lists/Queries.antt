-- ===== src/Common/Lists/Queries.antt =====
-- What the queries keep of a property of all rows, and that `order_by` sorts.
use Prim.Native.Nat.{ℕ, zero, suc, ◌≤◌}
use mathlib.Core.Path.{◌≡◌, refl}
use mathlib.Core.Bool.{Bool, true, false}
use mathlib.Core.List.{List, [], ◌∷◌}
use mathlib.Core.Logic.{◌⊎◌, inl, inr}
use mathlib.Core.Option.{none, some}
use native.Mathlib.Omega.{arith}
use email_budget_api.Common.Tests.{leb, Bool-cases, if◌then◌else◌}
use email_budget_api.Common.Lists.Defs.{
  take, where_, update_where, insert_by, order_by, head?, All, Row,
}
use email_budget_api.Common.Lists.Laws.{All-map}

module _ {ℓ} {A : Type ℓ} where
  pub All-where {κ} :
      (P : A → Type κ) (p : A → Bool) (xs : List A)
      → All P xs
      → All (λ x. P x × (p x ≡ true)) (where_ p xs)
  unfolding where_
  All-where P p [] h = tt
  All-where P p (x ∷ xs) h = ground (arith, All-where P p xs h.1)

  pub All-take {κ} : (P : A → Type κ) (n : ℕ) (xs : List A) → All P xs → All P (take n xs)
  All-take P zero xs h = tt
  All-take P (suc n) [] h = tt
  All-take P (suc n) (x ∷ xs) h = (h.0, All-take P n xs h.1)

  pub All-insert_by {κ} :
      (P : A → Type κ) (key : A → ℕ) (a : A) (xs : List A)
      → P a
      → All P xs
      → All P (insert_by key a xs)
  unfolding insert_by
  All-insert_by P key a [] h k = (h, tt)
  All-insert_by P key a (x ∷ xs) h k = ground (arith, All-insert_by P key a xs h k.1)

  pub All-order_by {κ} :
      (P : A → Type κ) (key : A → ℕ) (xs : List A) → All P xs → All P (order_by key xs)
  unfolding order_by
  All-order_by P key [] h = tt
  All-order_by P key (x ∷ xs) h =
      All-insert_by P key x (order_by key xs) h.0 (All-order_by P key xs h.1)

  pub All-update_where {κ} :
      (P : A → Type κ) (p : A → Bool) (f : A → A) (xs : List A)
      → ((x : A) → P x → p x ≡ true → P (f x))
      → All P xs
      → All P (update_where p f xs)
  unfolding update_where
  All-update_where P p f [] step h = tt
  All-update_where P p f (x ∷ xs) step h =
      (update_one (p x) refl, All-update_where P p f xs step h.1)
    where
      update_one : (b : Bool) → p x ≡ b → P (if b then f x else x)
      update_one true e = step x h.0 e
      update_one false e = h.0

  -- The keys rise along the list.
  abbrev pub IsSorted : (A → ℕ) → List A → Type 0
  IsSorted key [] = Unit
  IsSorted key (x ∷ xs) = All (λ y. key x ≤ key y) xs × IsSorted key xs

  IsSorted-insert_by :
      (key : A → ℕ) (a : A) (xs : List A) → IsSorted key xs → IsSorted key (insert_by key a xs)
  unfolding insert_by
  IsSorted-insert_by key a [] h = (tt, tt)
  IsSorted-insert_by key a (x ∷ xs) h =
      split (leb (key a) (key x)) refl (IsSorted-insert_by key a xs h.1)
    where
      split :
          (b : Bool)
          → leb (key a) (key x) ≡ b
          → IsSorted key (insert_by key a xs)
          → IsSorted key (if b then a ∷ x ∷ xs else x ∷ insert_by key a xs)
      split true e ih =
          let up : key a ≤ key x = ground arith in
          ((up, All-map {Q = λ y. key a ≤ key y} (λ y k. omega arith) xs h.0), (h.0, h.1))
      split false e ih =
          let up : key x ≤ key a = ground arith in
          (All-insert_by (λ y. key x ≤ key y) key a xs up h.0, ih)

  -- `order_by` sorts.
  pub order_by-IsSorted : (key : A → ℕ) (xs : List A) → IsSorted key (order_by key xs)
  unfolding order_by
  order_by-IsSorted key [] = tt
  order_by-IsSorted key (x ∷ xs) =
      IsSorted-insert_by key x (order_by key xs) (order_by-IsSorted key xs)

  -- A property of the rows that a query returns.
  pub All-of-where {κ} :
      (P : A → Type κ) (p : A → Bool) (xs : List A)
      → All P (where_ p xs)
      → All (λ x. p x ≡ true → P x) xs
  unfolding where_
  All-of-where P p [] h = tt
  All-of-where P p (x ∷ xs) h = elim (Bool-cases (p x)) [
    | inl hit ↦
        let k : P x × All P (where_ p xs) = rw (hit, where_) at h in
        ((λ _. k.0), All-of-where P p xs k.1)
    | inr miss ↦
        let k : All P (where_ p xs) = rw (miss, where_) at h in
        ((λ e. absurd (cc)), All-of-where P p xs k)
  ]

  All-of-insert_by {κ} :
      (P : A → Type κ) (key : A → ℕ) (a : A) (xs : List A)
      → All P (insert_by key a xs)
      → P a × All P xs
  unfolding insert_by
  All-of-insert_by P key a [] h = h
  All-of-insert_by P key a (x ∷ xs) h = elim (Bool-cases (leb (key a) (key x))) [
    | inl le ↦ let k : P a × (P x × All P xs) = rw (le, insert_by) at h in k
    | inr gt ↦
        let k : P x × All P (insert_by key a xs) = rw (gt, insert_by) at h in
        let r = All-of-insert_by P key a xs k.1 in (r.0, (k.0, r.1))
  ]

  pub All-of-order_by {κ} :
      (P : A → Type κ) (key : A → ℕ) (xs : List A) → All P (order_by key xs) → All P xs
  unfolding order_by
  All-of-order_by P key [] h = tt
  All-of-order_by P key (x ∷ xs) h =
      let r = All-of-insert_by P key x (order_by key xs) h in (r.0, All-of-order_by P key xs r.1)

module _ {A : Type 0} where
  pub Row-where :
      (p : A → Bool) (xs : List A) (a : A) → Row a (where_ p xs) → Row a xs × (p a ≡ true)
  unfolding where_
  Row-where p [] a r = absurd r
  Row-where p (x ∷ xs) a r = ground (arith, Row-where p xs a)

  Row-insert_by :
      (key : A → ℕ) (b : A) (xs : List A) (a : A) → Row a (insert_by key b xs) → (a ≡ b) ⊎ Row a xs
  unfolding insert_by
  Row-insert_by key b [] a r = r
  Row-insert_by key b (x ∷ xs) a r = ground (arith, Row-insert_by key b xs a)

  pub Row-order_by : (key : A → ℕ) (xs : List A) (a : A) → Row a (order_by key xs) → Row a xs
  unfolding order_by
  Row-order_by key [] a r = r
  Row-order_by key (x ∷ xs) a r =
      ground (arith, Row-insert_by key x (order_by key xs) a r, Row-order_by key xs a)

  pub head?-some : (xs : List A) (a : A) → head? xs ≡ some a → (rest : List A) × (xs ≡ a ∷ rest)
  unfolding head?
  head?-some [] a h = cc
  head?-some (x ∷ xs) a h = (xs, ground arith)

  pub head?-none : (xs : List A) → head? xs ≡ none → xs ≡ []
  unfolding head?
  head?-none [] h = refl
  head?-none (x ∷ xs) h = cc

  -- The row of `.order_by(key).limit(1)`: one that satisfies the condition, with the least key.
  pub record IsFirst (p : A → Bool) (key : A → ℕ) (xs : List A) (a : A) : Type 0 where
    pub found : Row a xs
    pub hit : p a ≡ true
    pub least : All (λ x. p x ≡ true → key a ≤ key x) xs

  pub head?-order_by :
      (p : A → Bool) (key : A → ℕ) (xs : List A) (a : A)
      → head? (order_by key (where_ p xs)) ≡ some a
      → IsFirst p key xs a
  head?-order_by p key xs a h =
      let (rest, e) = head?-some (order_by key (where_ p xs)) a h in
      let row = Row-where p xs a (Row-order_by key (where_ p xs) a (rw e (inl refl))) in
      let sorted : IsSorted key (a ∷ rest) = rw e at (order_by-IsSorted key (where_ p xs)) in
      record {
        found = row.0;
        hit = row.1;
        least =
            All-of-where (λ x. key a ≤ key x) p xs
              (All-of-order_by (λ x. key a ≤ key x) key (where_ p xs)
                (rw e (omega arith, sorted.0)));
      }

  -- If there is no such row, no row satisfies the condition.
  pub head?-order_by-none :
      (p : A → Bool) (key : A → ℕ) (xs : List A)
      → head? (order_by key (where_ p xs)) ≡ none
      → All (λ x. p x ≡ true → ⊥) xs
  head?-order_by-none p key xs h =
      All-of-where (λ x. ⊥) p xs
        (All-of-order_by (λ x. ⊥) key (where_ p xs)
          (rw (head?-none (order_by key (where_ p xs)) h) tt))
