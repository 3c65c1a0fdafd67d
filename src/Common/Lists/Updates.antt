-- ===== src/Common/Lists/Updates.antt =====
-- What an UPDATE that keeps a query's columns does to the query.
use mathlib.Core.Path.{◌≡◌, refl}
use mathlib.Core.Bool.{Bool, true}
use Prim.Native.Nat.{ℕ, zero, suc, min}
use mathlib.Core.List.{List, [], ◌∷◌, ◌++◌, map}
use mathlib.Core.Option.{none, some}
use native.Mathlib.Omega.{arith}
use email_budget_api.Common.Tests.{if◌then◌else◌}
use email_budget_api.Common.Lists.Laws.{save}
use email_budget_api.Common.Lists.Defs.{length, take, where_, count, first, update_where}

module _ {ℓ} {A : Type ℓ} (p q : A → Bool) (f : A → A) (kept : (x : A) → p (f x) ≡ p x) where
  kept_one : (x : A) → p (if q x then f x else x) ≡ p x
  kept_one x = ground (arith, kept x)

  pub first-update_where :
      (xs : List A) (a : A)
      → first p xs ≡ some a
      → first p (update_where q f xs) ≡ some (if q a then f a else a)
  unfolding first update_where
  first-update_where [] a h = ground arith
  first-update_where (x ∷ xs) a h = ground (arith, kept x, first-update_where xs a)

  pub first-update_where-none :
      (xs : List A) → first p xs ≡ none → first p (update_where q f xs) ≡ none
  unfolding first update_where
  first-update_where-none [] h = h
  first-update_where-none (x ∷ xs) h = ground (arith, kept_one x, first-update_where-none xs)

module _ {A : Type 0} (key : A → ℕ) (p : A → Bool) where
  -- A query that found a row finds the row that is written back for it.
  pub first-save_found :
      (a b : A) (xs : List A)
      → first p xs ≡ some a
      → key b ≡ key a
      → p b ≡ true
      → first p (save key b xs) ≡ some b
  unfolding first update_where
  first-save_found a b [] h e k = ground arith
  first-save_found a b (x ∷ xs) h e k = ground (arith, first-save_found a b xs)

-- A query that found nothing finds a row that is added.
pub first-last :
    {A : Type 0} (p : A → Bool) (xs : List A) (a : A)
    → first p xs ≡ none
    → p a ≡ true
    → first p (xs ++ a ∷ []) ≡ some a
unfolding first
first-last p [] a h k = ground arith
first-last p (x ∷ xs) a h k = ground (arith, first-last p xs a)

pub length-where_ : {A : Type 0} (p : A → Bool) (xs : List A) → length (where_ p xs) ≡ count p xs
unfolding where_ count
length-where_ p [] = refl
length-where_ p (x ∷ xs) = ground (arith, length-where_ p xs)

pub length-take : {A : Type 0} (n : ℕ) (xs : List A) → length (take n xs) ≡ min n (length xs)
length-take zero xs = omega arith
length-take (suc n) [] = omega arith
length-take (suc n) (x ∷ xs) = omega (arith, length-take n xs)

-- An UPDATE that keeps a column keeps the rows' values of it, in their order.
pub map-update_where :
    {A B : Type 0} (column : A → B) (p : A → Bool) (f : A → A)
    → ((x : A) → column (f x) ≡ column x)
    → (xs : List A) → map column (update_where p f xs) ≡ map column xs
unfolding update_where
map-update_where column p f kept [] = refl
map-update_where column p f kept (x ∷ xs) =
    ground (arith, kept x, map-update_where column p f kept xs)
