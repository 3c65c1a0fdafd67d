-- ===== src/Regex/Bodies.antt =====
-- The groups of a pattern, with their bodies: what `m.group(n)` can be.
use email_budget_api.Common.{
  ℕ, ◌≡◌, inl, inr, subst, sym, some, List, [], ◌∷◌, ◌++◌, All, All-halves,
}
use email_budget_api.Common.Text.{Text}
use email_budget_api.Regex.Defs.{
  Regex, empty, char, look, then, either, repeat, group, Match, search, group_of,
}
use email_budget_api.Regex.Meaning.{Spells, CapturedBy}
use email_budget_api.Regex.Found.{group_of_found}

abbrev pub bodies : Regex → List (ℕ × Regex)
bodies (then r q) = bodies r ++ bodies q
bodies (either r q) = bodies r ++ bodies q
bodies (repeat greedy bound r) = bodies r
bodies (group number r) = (number, r) ∷ bodies r
bodies _ = []

-- A property of all texts that the body of a group spells, for each group.
abbrev pub IsKeptBy : (ℕ → Text → Type 0) → Regex → Type 0
IsKeptBy P r = All (λ (b : ℕ × Regex). (w : Text) → Spells b.1 w → P b.0 w) (bodies r)

captured-IsKeptBy :
    (P : ℕ → Text → Type 0) (r : Regex) (n : ℕ) (w : Text) → IsKeptBy P r → CapturedBy r n w → P n w
captured-IsKeptBy P empty n w h k = absurd k
captured-IsKeptBy P (char p) n w h k = absurd k
captured-IsKeptBy P (look f) n w h k = absurd k
captured-IsKeptBy P (then r q) n w h (inl k) =
    captured-IsKeptBy P r n w (All-halves _ (bodies r) (bodies q) h).0 k
captured-IsKeptBy P (then r q) n w h (inr k) =
    captured-IsKeptBy P q n w (All-halves _ (bodies r) (bodies q) h).1 k
captured-IsKeptBy P (either r q) n w h (inl k) =
    captured-IsKeptBy P r n w (All-halves _ (bodies r) (bodies q) h).0 k
captured-IsKeptBy P (either r q) n w h (inr k) =
    captured-IsKeptBy P q n w (All-halves _ (bodies r) (bodies q) h).1 k
captured-IsKeptBy P (repeat greedy bound r) n w h k = captured-IsKeptBy P r n w h k
captured-IsKeptBy P (group number r) n w h (inl (e, k)) = subst (λ (m : ℕ). P m w) (sym e) (h.0 w k)
captured-IsKeptBy P (group number r) n w h (inr k) = captured-IsKeptBy P r n w h.1 k

-- What a group of a found match holds has the property.
pub group_of-IsKeptBy :
    (P : ℕ → Text → Type 0) (r : Regex) (t : Text) (m : Match) (n : ℕ) (w : Text)
    → IsKeptBy P r
    → search r t ≡ some m
    → group_of n m ≡ some w
    → P n w
group_of-IsKeptBy P r t m n w h found holds =
    captured-IsKeptBy P r n w h (group_of_found r t m n w found holds)
