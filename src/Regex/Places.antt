-- ===== src/Regex/Places.antt =====
-- A search finds something exactly where the pattern leads from some place of the text.
use email_budget_api.Common.{
  ℕ, ◌≡◌, ◌↔◌, refl, sym, ap, ◌∙◌, true, Option, none, some, Option-cases, inl, inr, [], ◌∷◌, ◌++◌,
  is_some, leb, ◌&&◌, Bool, arith,
}
use email_budget_api.Common.Text.{Text}
use email_budget_api.Regex.Widths.{shortest, Spells-shortest, both}
use email_budget_api.Regex.Defs.{
  Regex, empty, char, look, then, either, repeat, group, State, run, Match, match_at, search_from,
  search,
}
use email_budget_api.Regex.Meaning.{Leads}
use email_budget_api.Regex.Sound.{run_sound}
use email_budget_api.Regex.Complete.{IsProper, behind, search_complete}

-- A place of the text from which the pattern leads on, seen from behind a character.
pub record StandsFrom (r : Regex) (b : Option ℕ) (t : Text) : Type 0 where
  pub before : Text
  pub after : Text
  pub split : t ≡ before ++ after
  pub end : State
  pub leads : Leads r (behind b before after) end

-- The pattern stands somewhere in the text.
abbrev pub StandsIn : Regex → Text → Type 0
StandsIn r t = StandsFrom r none t

match_at-StandsFrom :
    (r : Regex) (b : Option ℕ) (t : Text) (m : Match) → match_at r b t ≡ some m → StandsFrom r b t
unfolding match_at
match_at-StandsFrom r b t m h = elim (Option-cases (run r some (behind b [] t))) [
  | inl e ↦ absurd (cc (rw (e, match_at) at h))
  | inr (s', e) ↦
      let (x, leads, _) = run_sound r some (behind b [] t) s' e in
      record { before = []; after = t; split = refl; end = x; leads = leads }
]

search_from-StandsFrom :
    (r : Regex) (b : Option ℕ) (t : Text) (m : Match)
    → search_from r b t ≡ some m
    → StandsFrom r b t
unfolding search_from
search_from-StandsFrom r b [] m h = match_at-StandsFrom r b [] m h
search_from-StandsFrom r b (c ∷ t) m h = elim (Option-cases (match_at r b (c ∷ t))) [
  | inr (n, e) ↦ match_at-StandsFrom r b (c ∷ t) n e
  | inl e ↦
      let f = search_from-StandsFrom r (some c) t m (rw (e, search_from) at h) in
      record {
        before = c ∷ f.before;
        after = f.after;
        split = ap (◌∷◌ c) f.split;
        end = f.end;
        leads = f.leads;
      }
]

-- The body of each repetition without a bound takes a character.
abbrev pub is_proper : Regex → Bool
is_proper (then r q) = is_proper r && is_proper q
is_proper (either r q) = is_proper r && is_proper q
is_proper (repeat greedy none r) = is_proper r && leb 1 (shortest r)
is_proper (repeat greedy (some b) r) = is_proper r
is_proper (group number r) = is_proper r
is_proper _ = true

is_proper-IsProper : (r : Regex) → is_proper r ≡ true → IsProper r
is_proper-IsProper empty h = tt
is_proper-IsProper (char p) h = tt
is_proper-IsProper (look f) h = tt
is_proper-IsProper (then r q) h =
    let (a, b) = both (is_proper r) (is_proper q) h in
    (is_proper-IsProper r a, is_proper-IsProper q b)
is_proper-IsProper (either r q) h =
    let (a, b) = both (is_proper r) (is_proper q) h in
    (is_proper-IsProper r a, is_proper-IsProper q b)
is_proper-IsProper (repeat greedy none r) h =
    let (a, b) = both (is_proper r) (leb 1 (shortest r)) h in
    (is_proper-IsProper r a, λ w s. let size = Spells-shortest r w s in ground (arith, size, b))
is_proper-IsProper (repeat greedy (some b) r) h = is_proper-IsProper r h
is_proper-IsProper (group number r) h = is_proper-IsProper r h

-- A search decides whether the pattern stands in the text, if the bodies of its unbounded
-- repetitions take a character.
pub search_iff :
    (r : Regex) (t : Text) → is_proper r ≡ true → (is_some (search r t) ≡ true) ↔ StandsIn r t
unfolding search
search_iff r t p = (
  λ h. elim (Option-cases (search r t)) [
    | inl e ↦ absurd (cc (rw (e, search) at h))
    | inr (m, e) ↦ search_from-StandsFrom r none t m e
  ],
  λ s. elim (Option-cases (search r t)) [
    | inr (m, e) ↦ rw (e, search) refl
    | inl e ↦ absurd (
        search_complete r s.before s.after s.end (is_proper-IsProper r p)
          (ap (λ (x : Text). search r x) (sym s.split) ∙ e) s.leads)
  ],
)
