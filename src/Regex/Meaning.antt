-- ===== src/Regex/Meaning.antt =====
-- What a pattern means, with no order of search in it: between which states it leads, and which
-- texts it spells.
use email_budget_api.Common.{ℕ, zero, suc, ◌≤◌, ◌≡◌, ◌⊎◌, true, Option, none, some, [], ◌∷◌, ◌++◌}
use email_budget_api.Common.Text.{Text}
use email_budget_api.Regex.Defs.{
  Regex, empty, char, look, then, either, repeat, group, State, advance, captured,
}

abbrev pub Times : (State → State → Type 0) → ℕ → State → State → Type 0
Times R zero s s' = s' ≡ s
Times R (suc n) s s' = (m : State) × R s m × Times R n m s'

abbrev pub InBound : Option ℕ → ℕ → Type 0
InBound none n = Unit
InBound (some b) n = n ≤ b

-- A match of the pattern can lead from the first state to the second.
abbrev pub Leads : Regex → State → State → Type 0
Leads empty s s' = s' ≡ s
Leads (char p) s s' = (c : ℕ) × (t : Text) × (s.ahead ≡ c ∷ t) × (p c ≡ true) × (s' ≡ advance c t s)
Leads (look f) s s' = (f s.before s.ahead ≡ true) × (s' ≡ s)
Leads (then r q) s s' = (m : State) × Leads r s m × Leads q m s'
Leads (either r q) s s' = Leads r s s' ⊎ Leads q s s'
Leads (repeat greedy bound r) s s' = (n : ℕ) × InBound bound n × Times (Leads r) n s s'
Leads (group number r) s s' = (m : State) × Leads r s m × (s' ≡ captured number s m)

abbrev pub SpellsTimes : (Text → Type 0) → ℕ → Text → Type 0
SpellsTimes S zero w = w ≡ []
SpellsTimes S (suc n) w = (u : Text) × (v : Text) × S u × SpellsTimes S n v × (w ≡ u ++ v)

-- The text can be what the pattern takes, in some context.
abbrev pub Spells : Regex → Text → Type 0
Spells empty w = w ≡ []
Spells (char p) w = (c : ℕ) × (p c ≡ true) × (w ≡ c ∷ [])
Spells (look f) w = w ≡ []
Spells (then r q) w = (u : Text) × (v : Text) × Spells r u × Spells q v × (w ≡ u ++ v)
Spells (either r q) w = Spells r w ⊎ Spells q w
Spells (repeat greedy bound r) w = (n : ℕ) × InBound bound n × SpellsTimes (Spells r) n w
Spells (group number r) w = Spells r w

-- The text is spelled by the body of a group of that number.
abbrev pub CapturedBy : Regex → ℕ → Text → Type 0
CapturedBy empty n w = ⊥
CapturedBy (char p) n w = ⊥
CapturedBy (look f) n w = ⊥
CapturedBy (then r q) n w = CapturedBy r n w ⊎ CapturedBy q n w
CapturedBy (either r q) n w = CapturedBy r n w ⊎ CapturedBy q n w
CapturedBy (repeat greedy bound r) n w = CapturedBy r n w
CapturedBy (group number r) n w = ((n ≡ number) × Spells r w) ⊎ CapturedBy r n w
