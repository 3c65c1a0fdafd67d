-- ===== src/Regex/Sound.antt =====
-- The backtracking match only finds what the pattern means.
use email_budget_api.Common.{
  ℕ, zero, suc, ◌≤◌, ◌≡◌, ◌⊎◌, inl, inr, refl, Bool, true, false, Option, none, some, [], ◌∷◌,
  arith,
}
use email_budget_api.Common.Text.{Text}
use email_budget_api.Regex.Defs.{
  Regex, empty, char, look, then, either, repeat, group, State, advance, captured, Onward, run_char,
  rounds, round_limit, run,
}
use email_budget_api.Regex.Meaning.{Times, InBound, Leads}

-- A result of a match that goes on with `k`.
record Ends (R : State → State → Type 0) (k : Onward) (s x : State) : Type 0 where
  last : State
  leads : R s last
  onward : k last ≡ some x

or_else :
    (o p : Option State) (x : State)
    → elim o [ some y ↦ some y | none ↦ p ] ≡ some x
    → (o ≡ some x) ⊎ (p ≡ some x)
or_else none p x h = inr h
or_else (some y) p x h = inl h

if_true :
    (b : Bool) (o : Option State) (x : State)
    → elim b [ true ↦ o | false ↦ none ] ≡ some x
    → (b ≡ true) × (o ≡ some x)
if_true true o x h = (refl, h)
if_true false o x h = cc

List-cases : (t : Text) → (t ≡ []) ⊎ ((c : ℕ) × (u : Text) × (t ≡ c ∷ u))
List-cases [] = inl refl
List-cases (c ∷ u) = inr (c, u, refl)

run_char-Ends :
    (p : ℕ → Bool) (k : Onward) (s x : State)
    → run_char p k s ≡ some x
    → Ends (Leads (char p)) k s x
unfolding run_char
run_char-Ends p k s x h = elim (List-cases s.ahead) [
  | inl e ↦ absurd (cc (rw (e, run_char) at h))
  | inr (c, t, e) ↦
      let (passed, onward) = if_true (p c) (k (advance c t s)) x (rw (e, run_char) at h) in
      record { last = advance c t s; leads = (c, t, e, passed, refl); onward = onward }
]

rounds-Ends :
    (R : State → State → Type 0) (greedy : Bool) (step : Onward → State → Option State)
    → ((k : Onward) (s x : State) → step k s ≡ some x → Ends R k s x)
    → (n : ℕ) (k : Onward) (s x : State) → rounds greedy step n k s ≡ some x
    → Ends (λ s s'. (m : ℕ) × (m ≤ n) × Times R m s s') k s x
unfolding rounds
rounds-Ends R greedy step sound zero k s x h = record {
  last = s;
  leads = (0, omega arith, refl);
  onward = h;
}
rounds-Ends R true step sound (suc n) k s x h =
    elim (or_else (step (rounds true step n k) s) (k s) x h) [
      | inr stop ↦ record { last = s; leads = (0, omega arith, refl); onward = stop }
      | inl more ↦
          let one = sound (rounds true step n k) s x more in
          let rest = rounds-Ends R true step sound n k one.last x one.onward in
          record {
            last = rest.last;
            leads = (
              suc rest.leads.0,
              omega (arith, rest.leads.1),
              (one.last, one.leads, rest.leads.2),
            );
            onward = rest.onward;
          }
    ]
rounds-Ends R false step sound (suc n) k s x h =
    elim (or_else (k s) (step (rounds false step n k) s) x h) [
      | inl stop ↦ record { last = s; leads = (0, omega arith, refl); onward = stop }
      | inr more ↦
          let one = sound (rounds false step n k) s x more in
          let rest = rounds-Ends R false step sound n k one.last x one.onward in
          record {
            last = rest.last;
            leads = (
              suc rest.leads.0,
              omega (arith, rest.leads.1),
              (one.last, one.leads, rest.leads.2),
            );
            onward = rest.onward;
          }
    ]

in_bound : (bound : Option ℕ) (s : State) (n : ℕ) → n ≤ round_limit bound s → InBound bound n
unfolding round_limit
in_bound none s n h = tt
in_bound (some b) s n h = h

-- Every result of a run goes on from a state to which the pattern leads.
pub run_sound :
    (r : Regex) (k : Onward) (s x : State)
    → run r k s ≡ some x
    → (s' : State) × Leads r s s' × (k s' ≡ some x)
unfolding run
run_sound empty k s x h = (s, refl, h)
run_sound (char p) k s x h = let e = run_char-Ends p k s x h in (e.last, e.leads, e.onward)
run_sound (look f) k s x h =
    let (passed, onward) = if_true (f s.before s.ahead) (k s) x h in (s, (passed, refl), onward)
run_sound (then r q) k s x h =
    let (m, first, onward) = run_sound r (run q k) s x h in
    let (s', second, end) = run_sound q k m x onward in (s', (m, first, second), end)
run_sound (either r q) k s x h = elim (or_else (run r k s) (run q k s) x h) [
  | inl a ↦ let (s', leads, end) = run_sound r k s x a in (s', inl leads, end)
  | inr b ↦ let (s', leads, end) = run_sound q k s x b in (s', inr leads, end)
]
run_sound (repeat greedy bound r) k s x h =
    let e =
      rounds-Ends (Leads r) greedy (run r)
        (λ k s x h.
          let (s', leads, end) = run_sound r k s x h in
          record { last = s'; leads = leads; onward = end })
        (round_limit bound s) k s x h in
    (e.last, (e.leads.0, in_bound bound s e.leads.0 e.leads.1, e.leads.2), e.onward)
run_sound (group number r) k s x h =
    let (m, leads, end) = run_sound r _ s x h in (captured number s m, (m, leads, refl), end)
