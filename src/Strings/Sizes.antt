-- ===== src/Strings/Sizes.antt =====
-- Python's strings: what does not make a text longer, and what stripping leaves.
use email_budget_api.Common.{
  ℕ, suc, ◌≤◌, ◌≡◌, refl, Bool, Bool-cases, inl, inr, false, [], ◌∷◌, arith, length, All,
}
use email_budget_api.Common.Text.{Text}
use email_budget_api.Regex.{is_space}
use email_budget_api.Strings.Defs.{lstrip_by, rstrip_by, keep_unless_last, strip_by, strip, upper}

lstrip_le : (p : ℕ → Bool) (t : Text) → length (lstrip_by p t) ≤ length t
unfolding lstrip_by
lstrip_le p [] = omega arith
lstrip_le p (c ∷ t) = ground (arith, lstrip_le p t)

keep_le : (p : ℕ → Bool) (c : ℕ) (t : Text) → length (keep_unless_last p c t) ≤ suc (length t)
unfolding keep_unless_last
keep_le p c [] = ground arith
keep_le p c (d ∷ t) = omega arith

rstrip_le : (p : ℕ → Bool) (t : Text) → length (rstrip_by p t) ≤ length t
unfolding rstrip_by
rstrip_le p [] = omega arith
rstrip_le p (c ∷ t) = omega (arith, keep_le p c (rstrip_by p t), rstrip_le p t)

pub strip_le : (t : Text) → length (strip t) ≤ length t
unfolding strip strip_by
strip_le t = omega (arith, rstrip_le _ (lstrip_by _ t), lstrip_le _ t)

pub length-upper : (t : Text) → length (upper t) ≡ length t
unfolding upper
length-upper [] = refl
length-upper (c ∷ t) = omega (arith, length-upper t)

rstrip-All : (t : Text) → All (λ (c : ℕ). is_space c ≡ false) t → rstrip_by is_space t ≡ t
unfolding rstrip_by
rstrip-All [] h = refl
rstrip-All (c ∷ []) h = let k : is_space c ≡ false = h.0 in rw (k, keep_unless_last) refl
rstrip-All (c ∷ d ∷ t) h = rw (rstrip-All (d ∷ t) h.1, keep_unless_last) refl

-- A text without spaces is not stripped of anything.
pub strip-All : (t : Text) → All (λ (c : ℕ). is_space c ≡ false) t → strip t ≡ t
unfolding strip strip_by lstrip_by
strip-All [] h = refl
strip-All (c ∷ t) h = let k : is_space c ≡ false = h.0 in rw (k, lstrip_by) (rstrip-All (c ∷ t) h)

All-lstrip : (P : ℕ → Type 0) (p : ℕ → Bool) (t : Text) → All P t → All P (lstrip_by p t)
unfolding lstrip_by
All-lstrip P p [] h = tt
All-lstrip P p (c ∷ t) h = elim (Bool-cases (p c)) [
  | inl e ↦ rw (e, lstrip_by) (All-lstrip P p t h.1)
  | inr e ↦ rw (e, lstrip_by) h
]

All-keep :
    (P : ℕ → Type 0) (p : ℕ → Bool) (c : ℕ) (t : Text)
    → P c
    → All P t
    → All P (keep_unless_last p c t)
unfolding keep_unless_last
All-keep P p c [] h k = elim (Bool-cases (p c)) [
  | inl e ↦ rw (e, keep_unless_last) tt
  | inr e ↦ rw (e, keep_unless_last) (h, tt)
]
All-keep P p c (d ∷ t) h k = (h, k)

All-rstrip : (P : ℕ → Type 0) (p : ℕ → Bool) (t : Text) → All P t → All P (rstrip_by p t)
unfolding rstrip_by
All-rstrip P p [] h = tt
All-rstrip P p (c ∷ t) h = All-keep P p c (rstrip_by p t) h.0 (All-rstrip P p t h.1)

-- Stripping leaves characters of the text.
pub All-strip : (P : ℕ → Type 0) (t : Text) → All P t → All P (strip t)
unfolding strip strip_by
All-strip P t h = All-rstrip P is_space (lstrip_by is_space t) (All-lstrip P is_space t h)
