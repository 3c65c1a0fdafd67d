-- ===== src/Api/Statistics/Ranking.antt =====
-- api/v1/feedback.py, GET /stats/extraction: what the lists of senders keep of a tally.
use email_budget_api.Common.{
  ℕ, ◌≤◌, ◌≡◌, ◌↔◌, ◌⊎◌, inl, inr, refl, sym, subst, ap, ◌∙◌, Bool, true, false, Bool-cases, List,
  [], ◌∷◌, arith, leb, count, length, take, All, All-map, All-take, Row, Row-take, IsFalling,
  All-le, take-IsFalling, All-map₂, length-take-le,
}
use email_budget_api.Api.Statistics.Defs.{bump, group_count, count_of, insert_most, most_first}
use email_budget_api.Api.Statistics.Groups.{count_of-group_count}

module _ {A : Type 0} where
  -- The count of an entry.
  abbrev pub tally : A × ℕ → ℕ
  tally x = x.1

  All-insert_most :
      (P : A × ℕ → Type 0) (x : A × ℕ) (xs : List (A × ℕ))
      → P x
      → All P xs
      → All P (insert_most x xs)
  unfolding insert_most
  All-insert_most P x [] h k = (h, tt)
  All-insert_most P x (y ∷ ys) h k = elim (Bool-cases (leb y.1 x.1)) [
    | inl e ↦ rw (e, insert_most) (h, k)
    | inr e ↦ rw (e, insert_most) (k.0, All-insert_most P x ys h k.1)
  ]

  All-most_first : (P : A × ℕ → Type 0) (xs : List (A × ℕ)) → All P xs → All P (most_first xs)
  unfolding most_first
  All-most_first P [] h = tt
  All-most_first P (x ∷ xs) h = All-insert_most P x (most_first xs) h.0 (All-most_first P xs h.1)

  insert_most-IsFalling :
      (x : A × ℕ) (xs : List (A × ℕ)) → IsFalling tally xs → IsFalling tally (insert_most x xs)
  unfolding insert_most
  insert_most-IsFalling x [] h = (tt, tt)
  insert_most-IsFalling x (y ∷ ys) h = elim (Bool-cases (leb y.1 x.1)) [
    | inl e ↦
        let le : y.1 ≤ x.1 = ground (arith, e) in
        rw (e, insert_most) ((le, All-le tally y.1 x.1 ys le h.0), h)
    | inr e ↦
        let le : x.1 ≤ y.1 = ground (arith, e) in
        rw (e, insert_most)
          (All-insert_most (λ z. z.1 ≤ y.1) x ys le h.0, insert_most-IsFalling x ys h.1)
  ]

  most_first-IsFalling : (xs : List (A × ℕ)) → IsFalling tally (most_first xs)
  unfolding most_first
  most_first-IsFalling [] = tt
  most_first-IsFalling (x ∷ xs) = insert_most-IsFalling x (most_first xs) (most_first-IsFalling xs)

  Row-insert_most :
      (x a : A × ℕ) (xs : List (A × ℕ)) → (a ≡ x) ⊎ Row a xs → Row a (insert_most x xs)
  unfolding insert_most
  Row-insert_most x a [] h = h
  Row-insert_most x a (y ∷ ys) h = elim (Bool-cases (leb y.1 x.1)) [
    | inl e ↦ rw (e, insert_most) h
    | inr e ↦
        rw (e, insert_most)
          (elim h [
            | inl new ↦ inr (Row-insert_most x a ys (inl new))
            | inr (inl here) ↦ inl here
            | inr (inr there) ↦ inr (Row-insert_most x a ys (inr there))
          ])
  ]

  Row-most_first : (a : A × ℕ) (xs : List (A × ℕ)) → Row a xs → Row a (most_first xs)
  unfolding most_first
  Row-most_first a [] h = h
  Row-most_first a (x ∷ xs) (inl e) = Row-insert_most x a (most_first xs) (inl e)
  Row-most_first a (x ∷ xs) (inr h) =
      Row-insert_most x a (most_first xs) (inr (Row-most_first a xs h))

module _ {A : Type 0} (eq : A → A → Bool) (sound : (a b : A) → (eq a b ≡ true) ↔ (a ≡ b)) where
  -- No two entries are of one key.
  abbrev IsDistinct : List (A × ℕ) → Type 0
  IsDistinct [] = Unit
  IsDistinct (x ∷ xs) = All (λ (y : A × ℕ). eq x.0 y.0 ≡ false) xs × IsDistinct xs

  All-bump :
      (P : A → Type 0) (key : A) (l : List (A × ℕ))
      → P key
      → All (λ (y : A × ℕ). P y.0) l
      → All (λ (y : A × ℕ). P y.0) (bump eq key l)
  unfolding bump
  All-bump P key [] h k = (h, tt)
  All-bump P key ((k, n) ∷ l) h p = elim (Bool-cases (eq k key)) [
    | inl same ↦ rw (same, bump) p
    | inr other ↦ rw (other, bump) (p.0, All-bump P key l h p.1)
  ]

  bump-IsDistinct : (key : A) (l : List (A × ℕ)) → IsDistinct l → IsDistinct (bump eq key l)
  unfolding bump
  bump-IsDistinct key [] h = (tt, tt)
  bump-IsDistinct key ((k, n) ∷ l) h = elim (Bool-cases (eq k key)) [
    | inl same ↦ rw (same, bump) h
    | inr other ↦
        rw (other, bump) (All-bump (λ x. eq k x ≡ false) key l other h.0, bump-IsDistinct key l h.1)
  ]

  group_count-IsDistinct : (keys : List A) → IsDistinct (group_count eq keys)
  unfolding group_count
  group_count-IsDistinct [] = tt
  group_count-IsDistinct (key ∷ keys) =
      bump-IsDistinct key (group_count eq keys) (group_count-IsDistinct keys)

  own_count : (l : List (A × ℕ)) → IsDistinct l → All (λ (x : A × ℕ). x.1 ≡ count_of eq x.0 l) l
  unfolding count_of
  own_count [] h = tt
  own_count ((k, n) ∷ l) h =
      let same : eq k k ≡ true = (sound k k).1 refl in
      (
        rw (same, count_of) refl,
        All-map₂ {R = λ (x : A × ℕ). x.1 ≡ count_of eq x.0 ((k, n) ∷ l)}
            (λ (x : A × ℕ) (miss : eq k x.0 ≡ false) (e : x.1 ≡ count_of eq x.0 l).
              rw (miss, count_of) e)
            l h.0 (own_count l h.1),
      )

  Row-count_of : (d : A) (l : List (A × ℕ)) → Row (d, count_of eq d l) l ⊎ (count_of eq d l ≡ 0)
  unfolding count_of
  Row-count_of d [] = inr refl
  Row-count_of d ((k, n) ∷ l) = elim (Bool-cases (eq k d)) [
    | inl same ↦ rw (same, count_of) (inl (inl (ap (λ (x : A). (x, n)) (sym ((sound k d).0 same)))))
    | inr other ↦
        let missed : count_of eq d ((k, n) ∷ l) ≡ count_of eq d l = rw (other, count_of) refl in
        subst (λ (m : ℕ). Row (d, m) ((k, n) ∷ l) ⊎ (m ≡ 0)) (sym missed)
          (elim (Row-count_of d l) [ inl row ↦ inl (inr row) | inr none_of ↦ inr none_of ])
  ]

  -- The most frequent of the keys, at most as many as asked, the most frequent first.
  pub record IsRanking (limit : ℕ) (total : A → ℕ) (top : List (A × ℕ)) : Type 0 where
    pub few : length top ≤ limit
    pub ordered : IsFalling tally top
    pub exact : All (λ (x : A × ℕ). x.1 ≡ total x.0) top
    -- A key that is not listed occurs nowhere, or the list is full and no listed key is rarer.
    pub complete :
        (d : A)
        → Row (d, total d) top
          ⊎ ((total d ≡ 0) ⊎ ((length top ≡ limit) × All (λ (x : A × ℕ). total d ≤ x.1) top))

  pub top-IsRanking :
      (limit : ℕ) (total : A → ℕ) (keys : List A)
      → ((d : A) → count (λ k. eq k d) keys ≡ total d)
      → IsRanking limit total (take limit (most_first (group_count eq keys)))
  top-IsRanking limit total keys counts =
      let groups = group_count eq keys in
      let ranked = most_first groups in
      let counted = λ (d : A). count_of-group_count eq sound d keys ∙ counts d in
      let falls = most_first-IsFalling groups in
      record {
        few = length-take-le limit ranked;
        ordered = take-IsFalling tally limit ranked falls;
        exact = All-take _ limit ranked (
            All-most_first _ groups (
              All-map {Q = λ (x : A × ℕ). x.1 ≡ total x.0} (λ (x : A × ℕ) e. e ∙ counted x.0) groups
                (own_count groups (group_count-IsDistinct keys))));
        complete = λ d. elim (Row-count_of d groups) [
          | inr none_of ↦ inr (inl (sym (counted d) ∙ none_of))
          | inl row ↦
              let here : Row (d, total d) ranked =
                Row-most_first (d, total d) groups (rw (counted d) at row) in
              elim (Row-take tally limit ranked (d, total d) falls here) [
                | inl shown ↦ inl shown
                | inr (full, rare) ↦ inr (inr (full, rare))
              ]
        ];
      }
