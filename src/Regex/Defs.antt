-- ===== src/Regex/Defs.antt =====
-- Python's `re`: patterns as data, and the backtracking match with its order of choices. A pattern
-- of the source stands in a comment beside its translation. Letters and digits are those of ASCII.
use email_budget_api.Common.{
  ℕ, zero, suc, ◌-◌, Bool, true, false, not, ◌&&◌, ◌||◌, Option, none, some, List, [], ◌∷◌, ◌==◌,
  leb, take, length,
}
use email_budget_api.Common.Text.{Text, lower_code}

pub data Regex : Type 0 where
  empty : Regex
  -- one character that passes the test
  char : (ℕ → Bool) → Regex
  -- no character, by a test of the one before and the text after
  look : (Option ℕ → Text → Bool) → Regex
  then : Regex → Regex → Regex
  either : Regex → Regex → Regex
  -- from no time to as often as the bound says, greedily or not; the body takes a character
  repeat : (greedy : Bool) → (bound : Option ℕ) → Regex → Regex
  group : (number : ℕ) → Regex → Regex

-- Where a match stands: the character before, the text ahead, and the groups, the latest first.
pub record State : Type 0 where
  pub before : Option ℕ
  pub ahead : Text
  pub groups : List (ℕ × Text)

unfoldable pub taken : State → State → Text
taken s s' = take (length s.ahead - length s'.ahead) s.ahead

unfoldable pub advance : ℕ → Text → State → State
advance c t s = record { before = some c; ahead = t; groups = s.groups }

unfoldable pub captured : ℕ → State → State → State
unfolding taken
captured number s s' = record s' { groups = (number, taken s s') ∷ s'.groups }

-- What remains to be matched.
abbrev pub Onward : Type 0
Onward = State → Option State

unfoldable pub run_char : (ℕ → Bool) → Onward → State → Option State
unfolding advance
run_char p k s = elim s.ahead [
  | [] ↦ none
  | c ∷ t ↦ elim (p c) [ true ↦ k (advance c t s) | false ↦ none ]
]

-- The rounds of a repetition that are left.
unfoldable pub rounds : Bool → (Onward → State → Option State) → ℕ → Onward → State → Option State
rounds greedy step zero k s = k s
rounds true step (suc n) k s = elim (step (rounds true step n k) s) [ some x ↦ some x | none ↦ k s ]
rounds false step (suc n) k s = elim (k s) [
  | some x ↦ some x
  | none ↦ step (rounds false step n k) s
]

-- A body that takes a character cannot be repeated more often than there are characters.
unfoldable pub round_limit : Option ℕ → State → ℕ
round_limit none s = length s.ahead
round_limit (some n) s = n

unfoldable pub run : Regex → Onward → State → Option State
unfolding run_char rounds round_limit captured
run empty k s = k s
run (char p) k s = run_char p k s
run (look f) k s = elim (f s.before s.ahead) [ true ↦ k s | false ↦ none ]
run (then r q) k s = run r (run q k) s
run (either r q) k s = elim (run r k s) [ some x ↦ some x | none ↦ run q k s ]
run (repeat greedy bound r) k s = rounds greedy (run r) (round_limit bound s) k s
run (group number r) k s = run r (λ m. k (captured number s m)) s

pub record Match : Type 0 where
  pub whole : Text
  pub groups : List (ℕ × Text)

unfoldable pub match_at : Regex → Option ℕ → Text → Option Match
unfolding run taken
match_at r before t =
    let s : State = record { before = before; ahead = t; groups = [] } in
    elim (run r some s) [
      | none ↦ none
      | some s' ↦ some (record { whole = taken s s'; groups = s'.groups })
    ]

-- `pattern.match(text)`
unfoldable pub match : Regex → Text → Option Match
unfolding match_at
match r t = match_at r none t

unfoldable pub search_from : Regex → Option ℕ → Text → Option Match
unfolding match_at
search_from r before [] = match_at r before []
search_from r before (c ∷ t) = elim (match_at r before (c ∷ t)) [
  | some m ↦ some m
  | none ↦ search_from r (some c) t
]

-- `pattern.search(text)`
unfoldable pub search : Regex → Text → Option Match
unfolding search_from
search r t = search_from r none t

unfoldable pub find_group : ℕ → List (ℕ × Text) → Option Text
find_group n [] = none
find_group n ((k, t) ∷ rest) = elim (k == n) [ true ↦ some t | false ↦ find_group n rest ]

-- `m.group(n)`, where a group that took no part is none
unfoldable pub group_of : ℕ → Match → Option Text
unfolding find_group
group_of n m = find_group n m.groups

-- Characters

abbrev pub in_range : ℕ → ℕ → ℕ → Bool
in_range lo hi c = leb lo c && leb c hi

-- `\d`
abbrev pub is_digit : ℕ → Bool
is_digit = in_range b'0' b'9'

abbrev pub is_letter : ℕ → Bool
is_letter c = in_range b'a' b'z' c || in_range b'A' b'Z' c

abbrev pub is_alnum : ℕ → Bool
is_alnum c = is_letter c || is_digit c

-- `\w`
abbrev pub is_word : ℕ → Bool
is_word c = is_alnum c || c == b'_'

-- `\s`, and what `str.strip` removes
abbrev pub is_space : ℕ → Bool
is_space c =
    in_range 9 13 c
    || (in_range 28 32 c
        || (c == 133
            || (c == 160
                || (c == 5760
                    || (in_range 8192 8202 c
                        || (c == 8232
                            || (c == 8233 || (c == 8239 || (c == 8287 || c == 12288)))))))))

abbrev pub newline : ℕ
newline = 10

-- A class that lists its characters.
abbrev pub one_of : Text → ℕ → Bool
one_of [] c = false
one_of (x ∷ xs) c = x == c || one_of xs c

-- Patterns

abbrev pub seq : List Regex → Regex
seq [] = empty
seq (r ∷ []) = r
seq (r ∷ q ∷ rest) = then r (seq (q ∷ rest))

abbrev pub alts : Regex → List Regex → Regex
alts r [] = r
alts r (q ∷ rest) = either r (alts q rest)

abbrev pub exactly : ℕ → Regex → Regex
exactly zero r = empty
exactly (suc n) r = then r (exactly n r)

-- `r*`, `r?`, `r+`, `r{m,n}`, `r{m,}`
abbrev pub star : Regex → Regex
star r = repeat true none r

abbrev pub maybe : Regex → Regex
maybe r = repeat true (some 1) r

abbrev pub plus : Regex → Regex
plus r = then r (star r)

abbrev pub between : ℕ → ℕ → Regex → Regex
between m n r = then (exactly m r) (repeat true (some (n - m)) r)

abbrev pub at_least : ℕ → Regex → Regex
at_least m r = then (exactly m r) (star r)

-- Literal text; `_i` under re.I
abbrev pub text : Text → Regex
text [] = empty
text (c ∷ []) = char (λ x. x == c)
text (c ∷ d ∷ t) = then (char (λ x. x == c)) (text (d ∷ t))

abbrev pub text_i : Text → Regex
text_i [] = empty
text_i (c ∷ []) = char (λ x. lower_code x == lower_code c)
text_i (c ∷ d ∷ t) = then (char (λ x. lower_code x == lower_code c)) (text_i (d ∷ t))

abbrev pub word_before : Option ℕ → Bool
word_before none = false
word_before (some c) = is_word c

abbrev pub word_ahead : Text → Bool
word_ahead [] = false
word_ahead (c ∷ t) = is_word c

abbrev pub differ : Bool → Bool → Bool
differ true b = not b
differ false b = b

-- `\b`
abbrev pub boundary : Regex
boundary = look (λ before ahead. differ (word_before before) (word_ahead ahead))

abbrev pub starts_line : Option ℕ → Bool
starts_line none = true
starts_line (some c) = c == newline

abbrev pub starts_text : Option ℕ → Bool
starts_text none = true
starts_text (some c) = false

abbrev pub ends_text : Text → Bool
ends_text [] = true
ends_text (c ∷ []) = c == newline
ends_text (c ∷ d ∷ t) = false

-- `^` under re.M, `^`, `$`
abbrev pub line_start : Regex
line_start = look (λ before ahead. starts_line before)

abbrev pub text_start : Regex
text_start = look (λ before ahead. starts_text before)

abbrev pub text_end : Regex
text_end = look (λ before ahead. ends_text ahead)
