-- ===== src/Extraction/Verification/Links.antt =====
-- extraction/verification_detector.py: what a detected verification carries.
use mathlib.Core.Option.{some-injective}
use mathlib.Core.List.{append-nil}
use email_budget_api.Common.{
  ℕ, ◌≤◌, ◌≡◌, ◌⊎◌, refl, subst, ◌∙◌, true, Bool-cases, Option, none, some, Option-cases, inl, inr,
  [], ◌++◌, arith, length, All, if◌then◌else◌, zero, suc,
}
use email_budget_api.Common.Text.{Text, codes, lower}
use email_budget_api.Strings.{is_blank, is_in, or_else}
use email_budget_api.Regex.{Regex, Match, search, is_digit, between, text, maybe, char, plus}
use email_budget_api.Regex.Meaning.{Spells}
use email_budget_api.Regex.Found.{search-IsFound}
use email_budget_api.Regex.Widths.{Spells-longest, Spells-shortest, Spells-All, Spells-text}
use email_budget_api.Regex.Bodies.{IsKeptBy, group_of-IsKeptBy}
use email_budget_api.Extraction.Models.{ParsedEmail}
use email_budget_api.Extraction.General.Patterns.{digit}
use email_budget_api.Extraction.Verification.Defs.{
  ForwardingVerification, verification_senders, gmail_code_subject, gmail_code_body, link_code,
  gmail_confirm_url, group_1, whole_of, read_verification, detect,
}

-- The link that confirms: not the one with /mail/uf-, which cancels.
pub record IsConfirmLink (link : Text) : Type 0 where
  pub host : Text
  pub rest : Text
  pub shape : link ≡ codes "https://mail" ++ (host ++ (codes ".google.com/mail/vf-" ++ rest))
  pub settings : (host ≡ []) ⊎ (host ≡ codes "-settings")
  pub filled : 1 ≤ length rest
  pub plain : All (λ (c : ℕ). link_code c ≡ true) rest

abbrev pub IsCode : Text → Type 0
IsCode c = (6 ≤ length c) × (length c ≤ 12) × All (λ (x : ℕ). is_digit x ≡ true) c

IsCode-digits : (w : Text) → Spells (between 6 12 digit) w → IsCode w
IsCode-digits w h =
    let plain = λ (c : ℕ) (e : is_digit c ≡ true). e in
    (
      Spells-shortest (between 6 12 digit) w h,
      Spells-longest (between 6 12 digit) w refl h,
      Spells-All (λ (c : ℕ). is_digit c ≡ true) (between 6 12 digit) w
          ((plain, (plain, (plain, (plain, (plain, (plain, tt)))))), plain) h,
    )

maybe_text : (t w : Text) → Spells (maybe (text t)) w → (w ≡ []) ⊎ (w ≡ t)
maybe_text t w (zero, fits, e) = inl e
maybe_text t w (suc zero, fits, (u, v, h, k, e)) =
    inr (e ∙ rw (Spells-text t u h, k) (append-nil t))
maybe_text t w (suc (suc n), fits, h) = absurd (omega (arith, fits))

confirm_link : (w : Text) → Spells gmail_confirm_url w → IsConfirmLink w
confirm_link w (a, _, h, (host, _, k, (b, rest, l, m, e2), e1), e) = record {
  host = host;
  rest = rest;
  shape =
      e
      ∙ rw
          (
            Spells-text (codes "https://mail") a h,
            e1,
            e2,
            Spells-text (codes ".google.com/mail/vf-") b l,
          )
          refl;
  settings = maybe_text (codes "-settings") host k;
  filled = Spells-shortest (plus (char link_code)) rest m;
  plain =
      Spells-All (λ (c : ℕ). link_code c ≡ true) (plus (char link_code)) rest
        ((λ c p. p), (λ c p. p)) m;
}

abbrev pub body_of : ParsedEmail → Text
body_of parsed = if is_blank parsed.text_body then parsed.html_body else parsed.text_body

-- What holds of a verification that was detected in an email.
pub record IsGenuine (sender : Text) (body : Text) (v : ForwardingVerification) : Type 0 where
  pub from_provider : is_in sender verification_senders ≡ true
  pub code : (c : Text) → v.code ≡ some c → IsCode c
  pub link :
      (u : Text)
      → v.confirmation_url ≡ some u
      → IsConfirmLink u × ((before : Text) × (after : Text) × (body ≡ before ++ (u ++ after)))

url_found :
    (body u : Text)
    → whole_of (search gmail_confirm_url body) ≡ some u
    → IsConfirmLink u × ((before : Text) × (after : Text) × (body ≡ before ++ (u ++ after)))
url_found body u e = elim (Option-cases (search gmail_confirm_url body)) [
  | inl miss ↦ absurd (cc (rw miss at e))
  | inr (m, hit) ↦
      let f = search-IsFound gmail_confirm_url body m hit in
      let same : m.whole ≡ u = some-injective _ _ (rw hit at e) in
      (
        confirm_link u (subst (Spells gmail_confirm_url) same f.spelled),
        (f.prefix, f.suffix, subst (λ (x : Text). body ≡ f.prefix ++ (x ++ f.suffix)) same f.place),
      )
]

IsCode-found :
    (r : Regex) (t c : Text) → IsKeptBy (λ _. IsCode) r → group_1 (search r t) ≡ some c → IsCode c
IsCode-found r t c h e = elim (Option-cases (search r t)) [
  | inl miss ↦ absurd (cc (rw miss at e))
  | inr (m, hit) ↦ group_of-IsKeptBy (λ _. IsCode) r t m 1 c h hit (rw hit at e)
]

read_code :
    (o p : Option Match) (P : Text → Type 0)
    → ((c : Text) → group_1 o ≡ some c → P c)
    → ((c : Text) → group_1 p ≡ some c → P c)
    → (c : Text) → group_1 (or_else o p) ≡ some c
    → P c
unfolding or_else
read_code none p P h k c e = k c e
read_code (some m) p P h k c e = h c e

-- A forwarding verification is detected only in mail from a provider's own address; a code that it
-- carries is six to twelve digits, and a link stands in the body and is one that confirms the
-- forwarding, on one of the provider's two hosts.
pub detect-IsGenuine :
    (parseaddr : Text → Text) (parsed : ParsedEmail) (v : ForwardingVerification)
    → detect parseaddr parsed ≡ some v
    → IsGenuine (lower (parseaddr parsed.from_header)) (body_of parsed) v
unfolding detect read_verification
detect-IsGenuine parseaddr parsed v e =
    elim (Bool-cases (is_in (lower (parseaddr parsed.from_header)) verification_senders)) [
      | inr other ↦ absurd (cc (rw (other, detect) at e))
      | inl known ↦
          let same : read_verification parsed ≡ v = some-injective _ _ (rw (known, detect) at e) in
          subst (IsGenuine (lower (parseaddr parsed.from_header)) (body_of parsed)) same (record {
            from_provider = known;
            code =
                read_code (search gmail_code_subject parsed.subject)
                  (search gmail_code_body (body_of parsed)) IsCode
                  (λ c. IsCode-found gmail_code_subject parsed.subject c (IsCode-digits, tt))
                  (λ c. IsCode-found gmail_code_body (body_of parsed) c (IsCode-digits, tt));
            link = url_found (body_of parsed);
          })
    ]
