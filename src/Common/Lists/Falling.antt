-- ===== src/Common/Lists/Falling.antt =====
-- Rows of a table, and lists whose keys fall, as `.order_by(key.desc())` returns them.
use mathlib.Core.List.{List, [], ◌∷◌}
use mathlib.Core.Logic.{◌⊎◌, inl, inr}
use mathlib.Core.Path.{◌≡◌, refl, sym, subst, ap}
use Prim.Native.Nat.{ℕ, zero, suc, ◌≤◌}
use native.Mathlib.Omega.{arith}
use email_budget_api.Common.Lists.Defs.{length, take, where_, All, Row}
use email_budget_api.Common.Lists.Queries.{All-take}
use email_budget_api.Common.Lists.Laws.{All-map}
use mathlib.Core.Bool.{Bool, true}

module _ {A : Type 0} where
  pub All-Row : (P : A → Type 0) (xs : List A) (a : A) → All P xs → Row a xs → P a
  All-Row P [] a h r = elim r [ ]
  All-Row P (x ∷ xs) a h (inl e) = subst P (sym e) h.0
  All-Row P (x ∷ xs) a h (inr row) = All-Row P xs a h.1 row

  pub All-self : (xs : List A) → All (λ x. Row x xs) xs
  All-self [] = tt
  All-self (x ∷ xs) = (inl refl, All-map (λ r k. inr k) xs (All-self xs))

  pub where-Row : (p : A → Bool) (xs : List A) (a : A) → Row a xs → p a ≡ true → Row a (where_ p xs)
  unfolding where_
  where-Row p [] a r h = elim r [ ]
  where-Row p (x ∷ xs) a r h = ground (arith, where-Row p xs a)

module _ {A : Type 0} (key : A → ℕ) where
  abbrev pub IsFalling : List A → Type 0
  IsFalling [] = Unit
  IsFalling (x ∷ xs) = All (λ y. key y ≤ key x) xs × IsFalling xs

  pub All-le : (m n : ℕ) (xs : List A) → m ≤ n → All (λ y. key y ≤ m) xs → All (λ y. key y ≤ n) xs
  All-le m n [] h k = tt
  All-le m n (x ∷ xs) h k = (let e = k.0 in omega (arith, e, h), All-le m n xs h k.1)

  pub take-IsFalling : (n : ℕ) (xs : List A) → IsFalling xs → IsFalling (take n xs)
  take-IsFalling zero xs h = tt
  take-IsFalling (suc n) [] h = tt
  take-IsFalling (suc n) (x ∷ xs) h =
      (All-take (λ y. key y ≤ key x) n xs h.0, take-IsFalling n xs h.1)

  -- A row that the first rows leave out has no higher key than any of them, and they are all that
  -- were asked for.
  pub Row-take :
      (n : ℕ) (xs : List A) (a : A)
      → IsFalling xs
      → Row a xs
      → Row a (take n xs) ⊎ ((length (take n xs) ≡ n) × All (λ x. key a ≤ key x) (take n xs))
  Row-take zero xs a h r = inr (refl, tt)
  Row-take (suc n) [] a h r = elim r [ ]
  Row-take (suc n) (x ∷ xs) a h (inl e) = inl (inl e)
  Row-take (suc n) (x ∷ xs) a h (inr r) = elim (Row-take n xs a h.1 r) [
    | inl kept ↦ inl (inr kept)
    | inr (size, low) ↦ inr (ap suc size, (All-Row (λ y. key y ≤ key x) xs a h.0 r, low))
  ]
