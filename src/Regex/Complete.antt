-- ===== src/Regex/Complete.antt =====
-- The backtracking match misses nothing that the pattern means.
use email_budget_api.Common.{
  ℕ, zero, suc, ◌+◌, ◌≤◌, ◌≡◌, inl, inr, refl, ◌∙◌, ap, Bool, true, false, Option, none, some,
  Option-cases, [], ◌∷◌, ◌++◌, arith, length, length-append,
}
use email_budget_api.Common.Text.{Text}
use email_budget_api.Regex.Defs.{
  Regex, empty, char, look, then, either, repeat, group, State, captured, Onward, run_char, rounds,
  round_limit, run, Match, match_at, search_from, search,
}
use email_budget_api.Regex.Meaning.{Times, Leads, Spells}
use email_budget_api.Regex.Found.{Leads-Takes}

-- The body of a repetition without a bound takes a character.
abbrev pub IsProper : Regex → Type 0
IsProper (then r q) = IsProper r × IsProper q
IsProper (either r q) = IsProper r × IsProper q
IsProper (repeat greedy none r) = IsProper r × ((w : Text) → Spells r w → 1 ≤ length w)
IsProper (repeat greedy (some b) r) = IsProper r
IsProper (group number r) = IsProper r
IsProper _ = Unit

-- A way to go on is not missed.
abbrev Misses : (Onward → State → Option State) → (State → State → Type 0) → Type 0
Misses step R = (k : Onward) (s s' : State) → R s s' → step k s ≡ none → k s' ≡ none

neither :
    (o p : Option State) → elim o [ some y ↦ some y | none ↦ p ] ≡ none → (o ≡ none) × (p ≡ none)
neither none p h = (refl, h)
neither (some y) p h = cc

rounds-Misses :
    (R : State → State → Type 0) (greedy : Bool) (step : Onward → State → Option State)
    → Misses step R
    → (n m : ℕ) (k : Onward) (s s' : State) → m ≤ n
    → Times R m s s'
    → rounds greedy step n k s ≡ none
    → k s' ≡ none
unfolding rounds
rounds-Misses R greedy step one zero zero k s s' fits e h = rw e h
rounds-Misses R greedy step one zero (suc m) k s s' fits e h = absurd (omega arith)
rounds-Misses R true step one (suc n) zero k s s' fits e h =
    rw e (neither (step (rounds true step n k) s) (k s) h).1
rounds-Misses R false step one (suc n) zero k s s' fits e h =
    rw e (neither (k s) (step (rounds false step n k) s) h).0
rounds-Misses R true step one (suc n) (suc m) k s s' fits (x, first, later) h =
    rounds-Misses R true step one n m k x s' (omega arith) later
      (one (rounds true step n k) s x first (neither (step (rounds true step n k) s) (k s) h).0)
rounds-Misses R false step one (suc n) (suc m) k s s' fits (x, first, later) h =
    rounds-Misses R false step one n m k x s' (omega arith) later
      (one (rounds false step n k) s x first (neither (k s) (step (rounds false step n k) s) h).1)

-- Rounds that take a character are no more than the characters.
Times-le :
    (r : Regex) (n : ℕ) (s s' : State)
    → ((w : Text) → Spells r w → 1 ≤ length w)
    → Times (Leads r) n s s'
    → n ≤ length s.ahead
Times-le r zero s s' long e = omega arith
Times-le r (suc n) s s' long (m, first, later) =
    let a = Leads-Takes r s m first in
    let size : length s.ahead ≡ length a.word + length m.ahead =
      ap length a.split ∙ length-append a.word m.ahead in
    omega (arith, size, long a.word a.spelled, Times-le r n m s' long later)

run_complete : (r : Regex) → IsProper r → Misses (run r) (Leads r)
unfolding run run_char round_limit
run_complete empty v k s s' e h = rw e h
run_complete (char p) v k s s' (c, t, at, passed, e) h = rw e (rw (at, passed, run_char) at h)
run_complete (look f) v k s s' (passed, e) h = rw e (rw passed at h)
run_complete (then r q) v k s s' (m, first, second) h =
    run_complete q v.1 k m s' second (run_complete r v.0 (run q k) s m first h)
run_complete (either r q) v k s s' (inl l) h =
    run_complete r v.0 k s s' l (neither (run r k s) (run q k s) h).0
run_complete (either r q) v k s s' (inr l) h =
    run_complete q v.1 k s s' l (neither (run r k s) (run q k s) h).1
run_complete (repeat greedy none r) v k s s' (n, fits, l) h =
    rounds-Misses (Leads r) greedy (run r) (run_complete r v.0) (length s.ahead) n k s s'
      (Times-le r n s s' v.1 l) l h
run_complete (repeat greedy (some b) r) v k s s' (n, fits, l) h =
    rounds-Misses (Leads r) greedy (run r) (run_complete r v) b n k s s' fits l h
run_complete (group number r) v k s s' (m, l, e) h =
    rw e (run_complete r v (λ x. k (captured number s x)) s m l h)

-- The state in which a search stands behind a text.
abbrev pub before_of : Option ℕ → Text → Option ℕ
before_of b [] = b
before_of b (c ∷ u) = before_of (some c) u

abbrev pub behind : Option ℕ → Text → Text → State
behind b u v = record { before = before_of b u; ahead = v; groups = [] }

match_at_complete :
    (r : Regex) (b : Option ℕ) (t : Text)
    → IsProper r
    → match_at r b t ≡ none
    → (s' : State) → ¬ Leads r (behind b [] t) s'
unfolding match_at
match_at_complete r b t v h s' l = elim (Option-cases (run r some (behind b [] t))) [
  | inl e ↦ cc (run_complete r v some (behind b [] t) s' l e)
  | inr (x, e) ↦ cc (rw (e, match_at) at h)
]

head_none :
    (o p : Option Match) → elim o [ some m ↦ some m | none ↦ p ] ≡ none → (o ≡ none) × (p ≡ none)
head_none none p h = (refl, h)
head_none (some m) p h = cc

search_from_complete :
    (r : Regex) (b : Option ℕ) (u v : Text)
    → IsProper r
    → search_from r b (u ++ v) ≡ none
    → (s' : State) → ¬ Leads r (behind b u v) s'
unfolding search_from
search_from_complete r b [] [] p h s' l = match_at_complete r b [] p h s' l
search_from_complete r b [] (c ∷ v) p h s' l =
    match_at_complete r b (c ∷ v) p
      (head_none (match_at r b (c ∷ v)) (search_from r (some c) v) h).0 s' l
search_from_complete r b (c ∷ u) v p h s' l =
    search_from_complete r (some c) u v p
      (head_none (match_at r b (c ∷ (u ++ v))) (search_from r (some c) (u ++ v)) h).1 s' l

-- A search that finds nothing is right: from no place of the text does the pattern lead anywhere,
-- if the bodies of its unbounded repetitions take a character.
pub search_complete :
    (r : Regex) (u v : Text) (s' : State)
    → IsProper r
    → search r (u ++ v) ≡ none
    → ¬ Leads r (behind none u v) s'
unfolding search
search_complete r u v s' p h = search_from_complete r none u v p h s'
