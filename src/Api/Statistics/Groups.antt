-- ===== src/Api/Statistics/Groups.antt =====
-- api/v1/feedback.py, GET /stats/extraction: what `group_by` counts.
use email_budget_api.Common.{
  ℕ, suc, ◌≡◌, ◌↔◌, refl, sym, ap, ◌∙◌, Bool, true, false, Bool-cases, inl, inr, List, [], ◌∷◌,
  arith, length, count,
}
use email_budget_api.Api.Statistics.Defs.{bump, group_count, count_of, sum_counts}

module _ {A : Type 0} (eq : A → A → Bool) where
  sum_counts-bump : (key : A) (l : List (A × ℕ)) → sum_counts (bump eq key l) ≡ suc (sum_counts l)
  unfolding sum_counts bump
  sum_counts-bump key [] = refl
  sum_counts-bump key ((k, n) ∷ rest) = elim (Bool-cases (eq k key)) [
    | inl same ↦ rw (same, bump) (omega arith)
    | inr other ↦ rw (other, bump) (let h = sum_counts-bump key rest in omega (arith, h))
  ]

  pub sum_counts-group_count : (keys : List A) → sum_counts (group_count eq keys) ≡ length keys
  unfolding sum_counts group_count
  sum_counts-group_count [] = refl
  sum_counts-group_count (key ∷ keys) =
      sum_counts-bump key (group_count eq keys) ∙ ap suc (sum_counts-group_count keys)

  module _ (sound : (a b : A) → (eq a b ≡ true) ↔ (a ≡ b)) where
    count_of-bump :
        (key x : A) (l : List (A × ℕ))
        → count_of eq key (bump eq x l)
          ≡ elim (eq x key) [ true ↦ suc (count_of eq key l) | false ↦ count_of eq key l ]
    unfolding count_of bump
    count_of-bump key x [] = elim (Bool-cases (eq x key)) [
      | inl same ↦ rw (same, count_of) refl
      | inr other ↦ rw (other, count_of) refl
    ]
    count_of-bump key x ((k, n) ∷ rest) = elim (Bool-cases (eq k x)) [
      | inl same ↦ elim (Bool-cases (eq k key)) [
        | inl hit ↦
            let e = (sound x key).1 (sym ((sound k x).0 same) ∙ (sound k key).0 hit) in
            rw (same, bump, hit, e, count_of) (rw (hit, count_of) (omega arith))
        | inr miss ↦
            let e = eq_false x key (λ h. false_eq k key miss ((sound k x).0 same ∙ h)) in
            rw (same, bump, miss, e, count_of) (rw (miss, count_of) refl)
      ]
      | inr other ↦ elim (Bool-cases (eq k key)) [
        | inl hit ↦
            let e = eq_false x key (λ h. false_eq k x other ((sound k key).0 hit ∙ sym h)) in
            rw (other, bump, hit, e, count_of) (rw (hit, count_of) refl)
        | inr miss ↦
            let ih = count_of-bump key x rest in
            elim (Bool-cases (eq x key)) [
              | inl d ↦
                  let one : count_of eq key (bump eq x rest) ≡ suc (count_of eq key rest) =
                    rw d at ih in
                  rw (other, bump, miss, d, count_of) (rw (miss, count_of) one)
              | inr d ↦
                  let none_new : count_of eq key (bump eq x rest) ≡ count_of eq key rest =
                    rw d at ih in
                  rw (other, bump, miss, d, count_of) (rw (miss, count_of) none_new)
            ]
      ]
    ]
      where
        false_eq : (a b : A) → eq a b ≡ false → a ≡ b → ⊥
        false_eq a b e h = cc (sym e ∙ (sound a b).1 h)

        eq_false : (a b : A) → (a ≡ b → ⊥) → eq a b ≡ false
        eq_false a b h = elim (Bool-cases (eq a b)) [
          | inl e ↦ absurd (h ((sound a b).0 e))
          | inr e ↦ e
        ]

    pub count_of-group_count :
        (key : A) (keys : List A)
        → count_of eq key (group_count eq keys) ≡ count (λ k. eq k key) keys
    unfolding count_of group_count count
    count_of-group_count key [] = refl
    count_of-group_count key (x ∷ keys) = elim (Bool-cases (eq x key)) [
      | inl hit ↦
          count_of-bump key x (group_count eq keys)
          ∙ rw (hit, count) (ap suc (count_of-group_count key keys))
      | inr miss ↦
          count_of-bump key x (group_count eq keys)
          ∙ rw (miss, count) (count_of-group_count key keys)
    ]
