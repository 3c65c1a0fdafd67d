-- ===== src/Strings/Defs.antt =====
-- The methods of `str`, and `re.sub` and `re.finditer` for patterns that take a character.
use email_budget_api.Common.{
  ℕ, zero, suc, ◌-◌, Bool, true, false, not, ◌&&◌, ◌||◌, Option, none, some, List, [], ◌∷◌, ◌++◌,
  ◌==◌, length, if◌then◌else◌, map, any,
}
use email_budget_api.Common.Text.{Text, text_eq, lower_code}
use email_budget_api.Regex.{Regex, Match, match_at, is_space, is_letter, in_range}

unfoldable pub lstrip_by : (ℕ → Bool) → Text → Text
lstrip_by p [] = []
lstrip_by p (c ∷ t) = elim (p c) [ true ↦ lstrip_by p t | false ↦ c ∷ t ]

-- A character in front of a text that has lost those at its end.
unfoldable pub keep_unless_last : (ℕ → Bool) → ℕ → Text → Text
keep_unless_last p c [] = if p c then [] else c ∷ []
keep_unless_last p c (d ∷ t) = c ∷ d ∷ t

unfoldable pub rstrip_by : (ℕ → Bool) → Text → Text
unfolding keep_unless_last
rstrip_by p [] = []
rstrip_by p (c ∷ t) = keep_unless_last p c (rstrip_by p t)

-- `s.strip(chars)`, for the characters that pass the test
unfoldable pub strip_by : (ℕ → Bool) → Text → Text
unfolding lstrip_by rstrip_by
strip_by p t = rstrip_by p (lstrip_by p t)

-- `s.strip()`
unfoldable pub strip : Text → Text
unfolding strip_by
strip = strip_by is_space

-- `not s`
unfoldable pub is_blank : Text → Bool
is_blank [] = true
is_blank (c ∷ t) = false

-- `s.upper()`
unfoldable pub upper_code : ℕ → ℕ
upper_code c = if in_range b'a' b'z' c then c - 32 else c

unfoldable pub upper : Text → Text
unfolding upper_code
upper = map upper_code

-- `s.title()`: a letter behind a letter is lower, any other upper.
unfoldable pub title_from : Bool → Text → Text
unfolding upper_code lower_code
title_from inside [] = []
title_from inside (c ∷ t) =
    (if inside then lower_code c else upper_code c) ∷ title_from (is_letter c) t

unfoldable pub title : Text → Text
unfolding title_from
title = title_from false

-- `s.isupper()` and `s.islower()`: a letter of the case, and none of the other.
unfoldable pub is_upper : Text → Bool
is_upper t = any (in_range b'A' b'Z') t && not (any (in_range b'a' b'z') t)

unfoldable pub is_lower : Text → Bool
is_lower t = any (in_range b'a' b'z') t && not (any (in_range b'A' b'Z') t)

unfoldable pub starts_with : Text → Text → Bool
starts_with [] t = true
starts_with (p ∷ ps) [] = false
starts_with (p ∷ ps) (c ∷ t) = p == c && starts_with ps t

-- `pattern in s`
unfoldable pub contains : Text → Text → Bool
unfolding starts_with
contains p [] = starts_with p []
contains p (c ∷ t) = starts_with p (c ∷ t) || contains p t

-- `s.replace(c, "")`
unfoldable pub remove : ℕ → Text → Text
remove x [] = []
remove x (c ∷ t) = let rest = remove x t in if c == x then rest else c ∷ rest

unfoldable pub glue : ℕ → List Text → List Text
glue c [] = (c ∷ []) ∷ []
glue c (l ∷ ls) = (c ∷ l) ∷ ls

-- `s.split(sep)`, for a separator of one character
unfoldable pub split : ℕ → Text → List Text
unfolding glue
split sep [] = [] ∷ []
split sep (c ∷ t) = let rest = split sep t in if c == sep then [] ∷ rest else glue c rest

unfoldable pub is_break : ℕ → Bool
is_break c = in_range 10 13 c || (in_range 28 30 c || (c == 133 || (c == 8232 || c == 8233)))

-- `s.splitlines()`, where "\r\n" is one break
unfoldable pub splitlines : Text → List Text
unfolding is_break glue
splitlines [] = []
splitlines (c ∷ []) = if is_break c then [] ∷ [] else (c ∷ []) ∷ []
splitlines (c ∷ d ∷ t) = elim (c == 13 && d == 10) [
  | true ↦ [] ∷ splitlines t
  | false ↦ let rest = splitlines (d ∷ t) in if is_break c then [] ∷ rest else glue c rest
]

-- `sep.join(lines)`
unfoldable pub join : Text → List Text → Text
join sep [] = []
join sep (l ∷ []) = l
join sep (l ∷ m ∷ ls) = l ++ (sep ++ join sep (m ∷ ls))

-- `s.rsplit("@", 1)[-1]`, and `[1]` where there is an "@": the text behind the last one.
unfoldable pub after_last : ℕ → Text → Text → Text
after_last x kept [] = kept
after_last x kept (c ∷ t) = after_last x (if c == x then t else kept) t

-- `pattern.sub(replacement, s)`: the characters of a match that are still to be dropped.
unfoldable pub sub_from : Regex → Text → Option ℕ → ℕ → Text → Text
sub_from r replacement before skip [] = []
sub_from r replacement before (suc skip) (c ∷ t) = sub_from r replacement (some c) skip t
sub_from r replacement before zero (c ∷ t) = elim (match_at r before (c ∷ t)) [
  | none ↦ c ∷ sub_from r replacement (some c) zero t
  | some m ↦ elim m.whole [
    | [] ↦ c ∷ sub_from r replacement (some c) zero t
    | _ ∷ w ↦ replacement ++ sub_from r replacement (some c) (length w) t
  ]
]

unfoldable pub sub : Regex → Text → Text → Text
unfolding sub_from
sub r replacement t = sub_from r replacement none zero t

-- `pattern.finditer(s)`
unfoldable pub find_from : Regex → Option ℕ → ℕ → Text → List Match
find_from r before skip [] = []
find_from r before (suc skip) (c ∷ t) = find_from r (some c) skip t
find_from r before zero (c ∷ t) = elim (match_at r before (c ∷ t)) [
  | none ↦ find_from r (some c) zero t
  | some m ↦ elim m.whole [
    | [] ↦ find_from r (some c) zero t
    | _ ∷ w ↦ m ∷ find_from r (some c) (length w) t
  ]
]

unfoldable pub find_all : Regex → Text → List Match
unfolding find_from
find_all r t = find_from r none zero t

-- `s in texts`
unfoldable pub is_in : Text → List Text → Bool
is_in t texts = any (text_eq t) texts

-- `a or b`, for optional values
unfoldable pub or_else {ℓ} : {A : Type ℓ} → Option A → Option A → Option A
or_else (some a) o = some a
or_else none o = o

-- `d.get(key)`, for a dictionary with texts as keys
unfoldable pub get {ℓ} : {A : Type ℓ} → Text → List (Text × A) → Option A
get key [] = none
get key ((k, a) ∷ rest) = if text_eq k key then some a else get key rest
