-- ===== src/Common/Lists/Laws.antt =====
-- Laws of the queries.
use Prim.Native.Nat.{ℕ, zero, suc, ◌+◌, ◌≤◌}
use mathlib.Core.Path.{◌≡◌, refl, ap}
use mathlib.Core.Logic.{◌≢◌}
use mathlib.Core.Bool.{Bool, true, false}
use mathlib.Core.List.{List, [], ◌∷◌, ◌++◌}
use mathlib.Core.Option.{none, some}
use native.Mathlib.Omega.{arith}
use email_budget_api.Common.Tests.{◌==◌}
use email_budget_api.Common.Lists.Defs.{length, take, first, count, update_where, All}

module _ {ℓ} {A : Type ℓ} where
  pub length-append : (xs ys : List A) → length (xs ++ ys) ≡ length xs + length ys
  length-append [] ys = omega arith
  length-append (x ∷ xs) ys = omega (arith, length-append xs ys)

  pub length-take-le : (n : ℕ) (xs : List A) → length (take n xs) ≤ n
  length-take-le zero xs = omega arith
  length-take-le (suc n) [] = omega arith
  length-take-le (suc n) (x ∷ xs) = omega (arith, length-take-le n xs)

  pub All-append {κ} : (P : A → Type κ) (xs ys : List A) → All P xs → All P ys → All P (xs ++ ys)
  All-append P [] ys h k = k
  All-append P (x ∷ xs) ys h k = (h.0, All-append P xs ys h.1 k)

  pub All-halves {κ} : (P : A → Type κ) (xs ys : List A) → All P (xs ++ ys) → All P xs × All P ys
  All-halves P [] ys h = (tt, h)
  All-halves P (x ∷ xs) ys h = let rest = All-halves P xs ys h.1 in ((h.0, rest.0), rest.1)

  pub All-map {κ} :
      {P Q : A → Type κ} (step : (x : A) → P x → Q x) (xs : List A) → All P xs → All Q xs
  All-map step [] h = tt
  All-map step (x ∷ xs) h = (step x h.0, All-map step xs h.1)

  pub count-append : (p : A → Bool) (xs ys : List A) → count p (xs ++ ys) ≡ count p xs + count p ys
  unfolding count
  count-append p [] ys = omega arith
  count-append p (x ∷ xs) ys = ground (arith, count-append p xs ys)

  pub first-append :
      (p : A → Bool) (xs ys : List A) → first p xs ≡ none → first p (xs ++ ys) ≡ first p ys
  unfolding first
  first-append p [] ys h = refl
  first-append p (x ∷ xs) ys h = ground (arith, first-append p xs ys)

  -- What a query returns satisfies its condition.
  pub first_sound : (p : A → Bool) (xs : List A) (a : A) → first p xs ≡ some a → p a ≡ true
  unfolding first
  first_sound p [] a h = cc
  first_sound p (x ∷ xs) a h = ground (arith, first_sound p xs a)

  pub length-update_where :
      (p : A → Bool) (f : A → A) (xs : List A) → length (update_where p f xs) ≡ length xs
  unfolding update_where
  length-update_where p f [] = refl
  length-update_where p f (x ∷ xs) = ap suc (length-update_where p f xs)

  pub update_where-append :
      (p : A → Bool) (f : A → A) (xs ys : List A)
      → update_where p f (xs ++ ys) ≡ update_where p f xs ++ update_where p f ys
  unfolding update_where
  update_where-append p f [] ys = refl
  update_where-append p f (x ∷ xs) ys = cc (update_where-append p f xs ys)

-- Tables whose rows have an identifier.
module _ {A : Type 0} (key : A → ℕ) where
  -- Writing a row back is replacing the rows of its identifier.
  abbrev pub save : A → List A → List A
  save a = update_where (λ x. key x == key a) (λ _. a)

  -- The last of two writes of one row stays.
  pub save-save : (a b : A) (xs : List A) → key a ≡ key b → save b (save a xs) ≡ save b xs
  unfolding update_where
  save-save a b [] h = refl
  save-save a b (x ∷ xs) h = ground (arith, save-save a b xs h)

  -- No row has the identifier: nothing is written.
  pub save_fresh : (a : A) (xs : List A) → All (λ x. suc (key x) ≤ key a) xs → save a xs ≡ xs
  unfolding update_where
  save_fresh a [] h = refl
  save_fresh a (x ∷ xs) h = ground (arith, save_fresh a xs h.1)

  -- Writing back a row with a fresh identifier replaces it, where it was appended.
  pub save_last :
      (a b : A) (xs : List A)
      → All (λ x. suc (key x) ≤ key a) xs
      → key b ≡ key a
      → save a (xs ++ b ∷ []) ≡ xs ++ a ∷ []
  unfolding update_where
  save_last a b [] h e = ground arith
  save_last a b (x ∷ xs) h e = ground (arith, save_last a b xs h.1)

  -- A query that only the written row satisfies finds it.
  pub first-save :
      (p : A → Bool) (a b : A) (xs : List A)
      → first p xs ≡ none
      → p a ≡ true
      → key b ≡ key a
      → first p (save a (xs ++ b ∷ [])) ≡ some a
  unfolding first update_where
  first-save p a b [] h pa e = ground arith
  first-save p a b (x ∷ xs) h pa e = ground (arith, first-save p a b xs)

module _ {ℓ} {A : Type ℓ} where
  -- What a query that finds nothing says of every row.
  pub first-none : (p : A → Bool) (xs : List A) → first p xs ≡ none → All (λ x. p x ≡ false) xs
  unfolding first
  first-none p [] h = tt
  first-none p (x ∷ xs) h = ground (arith, first-none p xs)

  pub All-map₂ {κ} :
      {P Q R : A → Type κ} (step : (x : A) → P x → Q x → R x) (xs : List A)
      → All P xs
      → All Q xs
      → All R xs
  All-map₂ step [] h k = tt
  All-map₂ step (x ∷ xs) h k = (step x h.0 k.0, All-map₂ step xs h.1 k.1)

  pub All-pure {κ} : (P : A → Type κ) → ((x : A) → P x) → (xs : List A) → All P xs
  All-pure P f [] = tt
  All-pure P f (x ∷ xs) = (f x, All-pure P f xs)

module _ {A : Type 0} (key : A → ℕ) where
  -- A row that is written back leaves the query for another identifier alone.
  pub first-save_ne :
      (i : ℕ) (a : A) (xs : List A)
      → key a ≢ i
      → first (λ x. key x == i) (save key a xs) ≡ first (λ x. key x == i) xs
  unfolding first update_where
  first-save_ne i a [] h = refl
  first-save_ne i a (x ∷ xs) h = ground (arith, first-save_ne i a xs h)

  pub All-save {κ} : (P : A → Type κ) (a : A) (xs : List A) → P a → All P xs → All P (save key a xs)
  unfolding update_where
  All-save P a [] h k = tt
  All-save P a (x ∷ xs) h k = ground (arith, All-save P a xs h k.1)
