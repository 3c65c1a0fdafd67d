-- ===== src/Services/Privacy/Rows.antt =====
-- Emails with identifiers of their own, as a purge rewrites them.
use email_budget_api.Common.{
  ℕ, zero, suc, ◌≡◌, ◌≢◌, refl, sym, ◌∙◌, ap, subst, Bool, true, false, Bool-cases, inl, inr, List,
  [], ◌∷◌, arith, ◌==◌, count, save, update_where, All, All-map, All-take, All-where, All-save, Row,
  take, where_,
}
use email_budget_api.Models.Ops.{ImportedEmail}

-- Rows with identifiers of their own.
abbrev pub Distinct : List ImportedEmail → Type 0
Distinct [] = Unit
Distinct (x ∷ xs) = All (λ (y : ImportedEmail). y.id ≢ x.id) xs × Distinct xs

All-at :
    (P : ImportedEmail → Type 0) (r : ImportedEmail) (xs : List ImportedEmail)
    → All P xs
    → Row r xs
    → P r
All-at P r [] h k = absurd k
All-at P r (x ∷ xs) h (inl e) = subst P (sym e) h.0
All-at P r (x ∷ xs) h (inr k) = All-at P r xs h.1 k

-- Writing back a row that is not there changes nothing.
save_absent :
    (r' : ImportedEmail) (xs : List ImportedEmail)
    → All (λ (y : ImportedEmail). y.id ≢ r'.id) xs
    → save (λ (e : ImportedEmail). e.id) r' xs ≡ xs
unfolding update_where
save_absent r' [] h = refl
save_absent r' (x ∷ xs) h = ground (arith, save_absent r' xs h.1)

-- A row that a query found and that is written back without satisfying it is one row less.
pub count-save :
    (q : ImportedEmail → Bool) (r r' : ImportedEmail) (xs : List ImportedEmail)
    → r'.id ≡ r.id
    → q r ≡ true
    → q r' ≡ false
    → Distinct xs
    → Row r xs
    → suc (count q (save (λ (e : ImportedEmail). e.id) r' xs)) ≡ count q xs
unfolding count update_where
count-save q r r' [] same hit miss d h = absurd h
count-save q r r' (x ∷ xs) same hit miss d (inl e) =
    let key : x.id ≡ r'.id = sym (ap (λ (y : ImportedEmail). y.id) e) ∙ sym same in
    let found : (x.id == r'.id) ≡ true = ground (arith, key) in
    let hit' : q x ≡ true = subst (λ (y : ImportedEmail). q y ≡ true) e hit in
    let rest = save_absent r' xs (All-map (λ y k m. k (m ∙ sym key)) xs d.0) in
    rw (found, rest, miss, hit') refl
count-save q r r' (x ∷ xs) same hit miss d (inr h) =
    let apart = All-at (λ y. y.id ≢ x.id) r xs d.0 h in
    let other : (x.id == r'.id) ≡ false = ground (arith, same, apart) in
    let rest = count-save q r r' xs same hit miss d.1 h in rw other (ground (arith, rest))

pub Row-save :
    (s r' : ImportedEmail) (xs : List ImportedEmail)
    → s.id ≢ r'.id
    → Row s xs
    → Row s (save (λ (e : ImportedEmail). e.id) r' xs)
unfolding update_where
Row-save s r' [] ne h = h
Row-save s r' (x ∷ xs) ne (inl e) =
    let other : (x.id == r'.id) ≡ false = ground (arith, ap (λ (y : ImportedEmail). y.id) e, ne) in
    inl (rw other e)
Row-save s r' (x ∷ xs) ne (inr h) = inr (Row-save s r' xs ne h)

pub Distinct-save :
    (r' : ImportedEmail) (xs : List ImportedEmail)
    → Distinct xs
    → Distinct (save (λ (e : ImportedEmail). e.id) r' xs)
unfolding update_where
Distinct-save r' [] d = tt
Distinct-save r' (x ∷ xs) d = elim (Bool-cases (x.id == r'.id)) [
  | inl found ↦
      let key : x.id ≡ r'.id = ground arith in
      let apart = All-map (λ y k m. k (m ∙ sym key)) xs d.0 in
      rw (found, save_absent r' xs apart) (apart, d.1)
  | inr other ↦ rw other (
    All-save (λ (e : ImportedEmail). e.id) (λ y. y.id ≢ x.id) r' xs (ground arith) d.0,
    Distinct-save r' xs d.1,
  )
]

pub Distinct-take : (n : ℕ) (xs : List ImportedEmail) → Distinct xs → Distinct (take n xs)
Distinct-take zero xs d = tt
Distinct-take (suc n) [] d = tt
Distinct-take (suc n) (x ∷ xs) d = (All-take (λ y. y.id ≢ x.id) n xs d.0, Distinct-take n xs d.1)

pub Distinct-where_ :
    (q : ImportedEmail → Bool) (xs : List ImportedEmail) → Distinct xs → Distinct (where_ q xs)
unfolding where_
Distinct-where_ q [] d = tt
Distinct-where_ q (x ∷ xs) d = elim (Bool-cases (q x)) [
  | inl hit ↦ rw hit (
    All-map (λ y k. k.0) (where_ q xs) (All-where (λ y. y.id ≢ x.id) q xs d.0),
    Distinct-where_ q xs d.1,
  )
  | inr miss ↦ rw miss (Distinct-where_ q xs d.1)
]
