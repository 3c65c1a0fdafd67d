-- ===== src/Regex/Widths.antt =====
-- What the shape of a pattern says of the texts that it spells: how long they are, and of which
-- characters.
use email_budget_api.Common.{
  ℕ, zero, suc, ◌+◌, ◌*◌, ◌≤◌, ◌≡◌, refl, Bool, true, false, ◌&&◌, inl, inr, none, some, [], ◌∷◌,
  arith, length, length-append, All, All-append, leb, ◌==◌, ==_iff, subst, sym, ap, ◌∙◌,
}
use email_budget_api.Common.Text.{Text, lower_code}
use email_budget_api.Regex.Defs.{
  Regex, empty, char, look, then, either, repeat, group, text, text_i,
}
use email_budget_api.Regex.Meaning.{SpellsTimes, Spells}

abbrev larger : ℕ → ℕ → ℕ
larger a b = elim (leb a b) [ true ↦ b | false ↦ a ]

abbrev smaller : ℕ → ℕ → ℕ
smaller a b = elim (leb a b) [ true ↦ a | false ↦ b ]

-- Without a repetition that has no bound.
abbrev pub is_bounded : Regex → Bool
is_bounded (then r q) = is_bounded r && is_bounded q
is_bounded (either r q) = is_bounded r && is_bounded q
is_bounded (repeat greedy none r) = false
is_bounded (repeat greedy (some k) r) = is_bounded r
is_bounded (group number r) = is_bounded r
is_bounded _ = true

abbrev pub longest : Regex → ℕ
longest (char p) = 1
longest (then r q) = longest r + longest q
longest (either r q) = larger (longest r) (longest q)
longest (repeat greedy none r) = 0
longest (repeat greedy (some k) r) = k * longest r
longest (group number r) = longest r
longest _ = 0

abbrev pub shortest : Regex → ℕ
shortest (char p) = 1
shortest (then r q) = shortest r + shortest q
shortest (either r q) = smaller (shortest r) (shortest q)
shortest (group number r) = shortest r
shortest _ = 0

-- Each character that the pattern takes has the property.
abbrev pub Takes : (ℕ → Type 0) → Regex → Type 0
Takes P (char p) = (c : ℕ) → p c ≡ true → P c
Takes P (then r q) = Takes P r × Takes P q
Takes P (either r q) = Takes P r × Takes P q
Takes P (repeat greedy bound r) = Takes P r
Takes P (group number r) = Takes P r
Takes P _ = Unit

pub both : (a b : Bool) → a && b ≡ true → (a ≡ true) × (b ≡ true)
both a b h = ground arith

times_le :
    (S : Text → Type 0) (a : ℕ)
    → ((w : Text) → S w → length w ≤ a)
    → (n : ℕ) (w : Text) → SpellsTimes S n w
    → length w ≤ n * a
times_le S a one zero w e = rw e (omega arith)
times_le S a one (suc n) w (u, v, first, later, e) = rw e (
    let p = one u first in
    let q = times_le S a one n v later in
    let size = length-append u v in
    let step : suc n * a ≡ a + n * a = ground arith in omega (arith, p, q, size, step))

mul_mono : (a n k : ℕ) → n ≤ k → n * a ≤ k * a
mul_mono a zero k h = omega arith
mul_mono a (suc n) zero h = absurd (omega arith)
mul_mono a (suc n) (suc k) h = ground (arith, mul_mono a n k (omega arith))

pub Spells-longest :
    (r : Regex) (w : Text) → is_bounded r ≡ true → Spells r w → length w ≤ longest r
Spells-longest empty w b e = rw e (omega arith)
Spells-longest (char p) w b (c, _, e) = rw e (omega arith)
Spells-longest (look f) w b e = rw e (omega arith)
Spells-longest (then r q) w b (u, v, first, second, e) = rw e (
    let (b0, b1) = both (is_bounded r) (is_bounded q) b in
    let p = Spells-longest r u b0 first in
    let q' = Spells-longest q v b1 second in omega (arith, p, q', length-append u v))
Spells-longest (either r q) w b (inl h) =
    ground (arith, Spells-longest r w (both (is_bounded r) (is_bounded q) b).0 h)
Spells-longest (either r q) w b (inr h) =
    ground (arith, Spells-longest q w (both (is_bounded r) (is_bounded q) b).1 h)
Spells-longest (repeat greedy none r) w b h = absurd (cc b)
Spells-longest (repeat greedy (some k) r) w b (n, fits, h) =
    let p = times_le (Spells r) (longest r) (λ u. Spells-longest r u b) n w h in
    let q = mul_mono (longest r) n k fits in omega (arith, p, q)
Spells-longest (group number r) w b h = Spells-longest r w b h

pub Spells-shortest : (r : Regex) (w : Text) → Spells r w → shortest r ≤ length w
Spells-shortest empty w e = omega arith
Spells-shortest (char p) w (c, _, e) = rw e (omega arith)
Spells-shortest (look f) w e = omega arith
Spells-shortest (then r q) w (u, v, first, second, e) = rw e (
    let p = Spells-shortest r u first in
    let q' = Spells-shortest q v second in omega (arith, p, q', length-append u v))
Spells-shortest (either r q) w (inl h) = ground (arith, Spells-shortest r w h)
Spells-shortest (either r q) w (inr h) = ground (arith, Spells-shortest q w h)
Spells-shortest (repeat greedy bound r) w h = omega arith
Spells-shortest (group number r) w h = Spells-shortest r w h

SpellsTimes-All :
    (P : ℕ → Type 0) (S : Text → Type 0)
    → ((w : Text) → S w → All P w)
    → (n : ℕ) (w : Text) → SpellsTimes S n w
    → All P w
SpellsTimes-All P S one zero w e = rw e tt
SpellsTimes-All P S one (suc n) w (u, v, first, later, e) =
    rw e (All-append P u v (one u first) (SpellsTimes-All P S one n v later))

pub Spells-All : (P : ℕ → Type 0) (r : Regex) (w : Text) → Takes P r → Spells r w → All P w
Spells-All P empty w h e = rw e tt
Spells-All P (char p) w h (c, passed, e) = rw e (h c passed, tt)
Spells-All P (look f) w h e = rw e tt
Spells-All P (then r q) w h (u, v, first, second, e) =
    rw e (All-append P u v (Spells-All P r u h.0 first) (Spells-All P q v h.1 second))
Spells-All P (either r q) w h (inl k) = Spells-All P r w h.0 k
Spells-All P (either r q) w h (inr k) = Spells-All P q w h.1 k
Spells-All P (repeat greedy bound r) w h (n, fits, k) =
    SpellsTimes-All P (Spells r) (λ u. Spells-All P r u h) n w k
Spells-All P (group number r) w h k = Spells-All P r w h k

-- Literal text, by its characters.
pub text-Takes : (P : ℕ → Type 0) (t : Text) → All P t → Takes P (text t)
text-Takes P [] h = tt
text-Takes P (c ∷ []) h = λ x e. subst P (sym ((==_iff x c).0 e)) h.0
text-Takes P (c ∷ d ∷ t) h = (λ x e. subst P (sym ((==_iff x c).0 e)) h.0, text-Takes P (d ∷ t) h.1)

pub text_i-Takes :
    (P : ℕ → Type 0) (t : Text)
    → All (λ (c : ℕ). (x : ℕ) → (lower_code x == lower_code c) ≡ true → P x) t
    → Takes P (text_i t)
text_i-Takes P [] h = tt
text_i-Takes P (c ∷ []) h = h.0
text_i-Takes P (c ∷ d ∷ t) h = (h.0, text_i-Takes P (d ∷ t) h.1)

-- Literal text spells itself.
pub Spells-text : (t w : Text) → Spells (text t) w → w ≡ t
Spells-text [] w e = e
Spells-text (c ∷ []) w (x, same, e) = e ∙ ap (λ (y : ℕ). y ∷ []) ((==_iff x c).0 same)
Spells-text (c ∷ d ∷ t) w (u, v, (x, same, e'), later, e) =
    e ∙ rw (e', (==_iff x c).0 same, Spells-text (d ∷ t) v later) refl
