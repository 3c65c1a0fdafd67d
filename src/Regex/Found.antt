-- ===== src/Regex/Found.antt =====
-- What a search returns: a stretch of the text that the pattern spells, and groups that their bodies
-- spell.
use mathlib.Core.Option.{some-injective}
use mathlib.Core.List.{append_assoc}
use email_budget_api.Common.{
  ℕ, zero, suc, ◌-◌, ◌≡◌, inl, inr, refl, sym, ◌∙◌, ap, subst, Bool-cases, Option, none, some,
  Option-cases, List, [], ◌∷◌, ◌++◌, arith, take, length, length-append, ◌==◌, ==_iff,
}
use email_budget_api.Common.Text.{Text}
use email_budget_api.Regex.Defs.{
  Regex, empty, char, look, then, either, repeat, group, State, advance, captured, taken, run,
  Match, match_at, match, search_from, search, find_group, group_of,
}
use email_budget_api.Regex.Meaning.{Times, Leads, SpellsTimes, Spells, CapturedBy}
use email_budget_api.Regex.Sound.{run_sound}

-- The stretch of text between two states.
pub record Takes (S : Text → Type 0) (s s' : State) : Type 0 where
  pub word : Text
  pub spelled : S word
  pub split : s.ahead ≡ word ++ s'.ahead

Times-Takes :
    (R : State → State → Type 0) (S : Text → Type 0)
    → ((s s' : State) → R s s' → Takes S s s')
    → (n : ℕ) (s s' : State) → Times R n s s'
    → Takes (SpellsTimes S n) s s'
Times-Takes R S one zero s s' e = record {
  word = [];
  spelled = refl;
  split = sym (ap (λ (m : State). m.ahead) e);
}
Times-Takes R S one (suc n) s s' (m, first, later) =
    let a = one s m first in
    let b = Times-Takes R S one n m s' later in
    record {
      word = a.word ++ b.word;
      spelled = (a.word, b.word, a.spelled, b.spelled, refl);
      split =
          a.split
          ∙ ap (λ (t : Text). a.word ++ t) b.split
          ∙ sym (append_assoc a.word b.word s'.ahead);
    }

-- A pattern takes a text that it spells.
pub Leads-Takes : (r : Regex) (s s' : State) → Leads r s s' → Takes (Spells r) s s'
unfolding advance captured
Leads-Takes empty s s' e = record {
  word = [];
  spelled = refl;
  split = sym (ap (λ (m : State). m.ahead) e);
}
Leads-Takes (char p) s s' (c, t, at, passed, e) = record {
  word = c ∷ [];
  spelled = (c, passed, refl);
  split = at ∙ ap (λ (m : State). c ∷ m.ahead) (sym e);
}
Leads-Takes (look f) s s' (_, e) = record {
  word = [];
  spelled = refl;
  split = sym (ap (λ (m : State). m.ahead) e);
}
Leads-Takes (then r q) s s' (m, first, second) =
    let a = Leads-Takes r s m first in
    let b = Leads-Takes q m s' second in
    record {
      word = a.word ++ b.word;
      spelled = (a.word, b.word, a.spelled, b.spelled, refl);
      split =
          a.split
          ∙ ap (λ (t : Text). a.word ++ t) b.split
          ∙ sym (append_assoc a.word b.word s'.ahead);
    }
Leads-Takes (either r q) s s' (inl h) =
    let a = Leads-Takes r s s' h in
    record { word = a.word; spelled = inl a.spelled; split = a.split }
Leads-Takes (either r q) s s' (inr h) =
    let a = Leads-Takes q s s' h in
    record { word = a.word; spelled = inr a.spelled; split = a.split }
Leads-Takes (repeat greedy bound r) s s' (n, fits, h) =
    let a = Times-Takes (Leads r) (Spells r) (Leads-Takes r) n s s' h in
    record { word = a.word; spelled = (n, fits, a.spelled); split = a.split }
Leads-Takes (group number r) s s' (m, h, e) =
    let a = Leads-Takes r s m h in
    record {
      word = a.word;
      spelled = a.spelled;
      split = a.split ∙ ap (λ (x : State). a.word ++ x.ahead) (sym e);
    }

take_prefix : (w t : Text) → take (length (w ++ t) - length t) (w ++ t) ≡ w
take_prefix [] t = let e : length t - length t ≡ 0 = omega arith in rw e refl
take_prefix (c ∷ w) t =
    let e : suc (length (w ++ t)) - length t ≡ suc (length (w ++ t) - length t) =
      omega (arith, length-append w t) in
    rw e (ap (◌∷◌ c) (take_prefix w t))

taken_word : (w : Text) (s s' : State) → s.ahead ≡ w ++ s'.ahead → taken s s' ≡ w
unfolding taken
taken_word w s s' e = rw e (take_prefix w s'.ahead)

-- What holds of each group.
abbrev pub Groups : (ℕ → Text → Type 0) → List (ℕ × Text) → Type 0
Groups P [] = Unit
Groups P ((n, t) ∷ rest) = P n t × Groups P rest

Times-Groups :
    (P : ℕ → Text → Type 0) (R : State → State → Type 0)
    → ((s s' : State) → R s s' → Groups P s.groups → Groups P s'.groups)
    → (n : ℕ) (s s' : State) → Times R n s s'
    → Groups P s.groups
    → Groups P s'.groups
Times-Groups P R one zero s s' e h = subst (λ (m : State). Groups P m.groups) (sym e) h
Times-Groups P R one (suc n) s s' (m, first, later) h =
    Times-Groups P R one n m s' later (one s m first h)

Leads-Groups :
    (P : ℕ → Text → Type 0) (r : Regex) (s s' : State)
    → ((n : ℕ) (w : Text) → CapturedBy r n w → P n w)
    → Leads r s s'
    → Groups P s.groups
    → Groups P s'.groups
unfolding advance captured
Leads-Groups P empty s s' f e h = subst (λ (m : State). Groups P m.groups) (sym e) h
Leads-Groups P (char p) s s' f (c, t, at, passed, e) h =
    subst (λ (m : State). Groups P m.groups) (sym e) h
Leads-Groups P (look g) s s' f (_, e) h = subst (λ (m : State). Groups P m.groups) (sym e) h
Leads-Groups P (then r q) s s' f (m, first, second) h =
    Leads-Groups P q m s' (λ n w k. f n w (inr k)) second
      (Leads-Groups P r s m (λ n w k. f n w (inl k)) first h)
Leads-Groups P (either r q) s s' f (inl k) h = Leads-Groups P r s s' (λ n w l. f n w (inl l)) k h
Leads-Groups P (either r q) s s' f (inr k) h = Leads-Groups P q s s' (λ n w l. f n w (inr l)) k h
Leads-Groups P (repeat greedy bound r) s s' f (n, fits, k) h =
    Times-Groups P (Leads r) (λ a b l. Leads-Groups P r a b f l) n s s' k h
Leads-Groups P (group number r) s s' f (m, k, e) h =
    let a = Leads-Takes r s m k in
    subst (λ (x : State). Groups P x.groups) (sym e)
      (
        f number (taken s m)
            (inl (refl, subst (Spells r) (sym (taken_word a.word s m a.split)) a.spelled)),
        Leads-Groups P r s m (λ n w l. f n w (inr l)) k h,
      )

-- A match that a search found: where it is, what it spells, and what its groups hold.
pub record IsFound (r : Regex) (t : Text) (m : Match) : Type 0 where
  pub prefix : Text
  pub suffix : Text
  pub place : t ≡ prefix ++ (m.whole ++ suffix)
  pub spelled : Spells r m.whole
  pub groups : Groups (CapturedBy r) m.groups

match_at-IsFound :
    (r : Regex) (before : Option ℕ) (t : Text) (m : Match)
    → match_at r before t ≡ some m
    → (IsFound r t m) × ((suffix : Text) × (t ≡ m.whole ++ suffix))
unfolding match_at
match_at-IsFound r before t m h =
    let s : State = record { before = before; ahead = t; groups = [] } in
    elim (Option-cases (run r some s)) [
      | inl e ↦ absurd (cc (rw (e, match_at) at h))
      | inr (s', e) ↦
          let (x, leads, end) = run_sound r some s s' e in
          let same : x ≡ s' = some-injective _ _ end in
          let leads' = subst (λ (y : State). Leads r s y) same leads in
          let a = Leads-Takes r s s' leads' in
          let whole = taken_word a.word s s' a.split in
          let match_eq = some-injective _ _ (rw (e, match_at) at h) in
          subst (λ (y : Match). IsFound r t y × ((suffix : Text) × (t ≡ y.whole ++ suffix)))
            match_eq
            (
              record {
                prefix = [];
                suffix = s'.ahead;
                place = rw whole a.split;
                spelled = rw whole a.spelled;
                groups = Leads-Groups (CapturedBy r) r s s' (λ n w k. k) leads' tt;
              },
              (s'.ahead, rw whole a.split),
            )
    ]

search_from-IsFound :
    (r : Regex) (before : Option ℕ) (t : Text) (m : Match)
    → search_from r before t ≡ some m
    → IsFound r t m
unfolding search_from
search_from-IsFound r before [] m h = (match_at-IsFound r before [] m h).0
search_from-IsFound r before (c ∷ t) m h = elim (Option-cases (match_at r before (c ∷ t))) [
  | inr (n, e) ↦ (match_at-IsFound r before (c ∷ t) m (e ∙ (rw (e, search_from) at h))).0
  | inl e ↦
      let f = search_from-IsFound r (some c) t m (rw (e, search_from) at h) in
      record {
        prefix = c ∷ f.prefix;
        suffix = f.suffix;
        place = ap (◌∷◌ c) f.place;
        spelled = f.spelled;
        groups = f.groups;
      }
]

-- A search only finds what the pattern means: a stretch of the text that the pattern spells, with
-- each group spelled by its own body.
pub search-IsFound : (r : Regex) (t : Text) (m : Match) → search r t ≡ some m → IsFound r t m
unfolding search
search-IsFound r t m h = search_from-IsFound r none t m h

pub match-IsFound : (r : Regex) (t : Text) (m : Match) → match r t ≡ some m → IsFound r t m
unfolding match
match-IsFound r t m h = (match_at-IsFound r none t m h).0

-- What `m.group(n)` gives is what the group holds.
pub group_of_holds :
    (P : ℕ → Text → Type 0) (n : ℕ) (groups : List (ℕ × Text)) (w : Text)
    → Groups P groups
    → find_group n groups ≡ some w
    → P n w
unfolding find_group
group_of_holds P n [] w h e = absurd (cc e)
group_of_holds P n ((k, t) ∷ rest) w h e = elim (Bool-cases (k == n)) [
  | inl hit ↦
      let same : some t ≡ some w = rw (hit, find_group) at e in
      subst (λ (m : ℕ). P m w) ((==_iff k n).0 hit)
        (subst (λ (u : Text). P k u) (some-injective _ _ same) h.0)
  | inr miss ↦ group_of_holds P n rest w h.1 (rw (miss, find_group) at e)
]

-- A group of a match that a search found is spelled by a body of the group.
pub group_of_found :
    (r : Regex) (t : Text) (m : Match) (n : ℕ) (w : Text)
    → search r t ≡ some m
    → group_of n m ≡ some w
    → CapturedBy r n w
unfolding group_of
group_of_found r t m n w h e =
    group_of_holds (CapturedBy r) n m.groups w (search-IsFound r t m h).groups e
