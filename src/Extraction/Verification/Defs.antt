-- ===== src/Extraction/Verification/Defs.antt =====
-- extraction/verification_detector.py. `email.utils.parseaddr` is the parameter `parseaddr`, of
-- which only the address is used.
use email_budget_api.Common.{
  ℕ, Bool, false, not, ◌||◌, Option, none, some, List, [], ◌∷◌, if◌then◌else◌,
}
use email_budget_api.Common.Text.{Text, codes, lower}
use email_budget_api.Extraction.Models.{ParsedEmail}
use email_budget_api.Regex.{
  Regex, Match, char, repeat, group, search, group_of, is_digit, is_alnum, one_of, seq, maybe, plus,
  between, either, text, text_i,
}
use email_budget_api.Strings.{is_blank, is_in, or_else}
use email_budget_api.Extraction.General.Patterns.{digit}

-- `ForwardingVerification`; the provider is gmail for both senders.
pub record ForwardingVerification : Type 0 where
  pub code : Option Text
  pub confirmation_url : Option Text

-- `VERIFICATION_SENDERS`
abbrev pub verification_senders : List Text
verification_senders =
    codes "forwarding-noreply@google.com" ∷ codes "forwarding-noreply@googlemail.com" ∷ []

-- `_GMAIL_CODE_SUBJECT`: `\(#(\d{6,12})\)`
abbrev pub gmail_code_subject : Regex
gmail_code_subject = seq (text (codes "(#") ∷ group 1 (between 6 12 digit) ∷ text (codes ")") ∷ [])

-- `_GMAIL_CODE_BODY`: `(?:code|konfirmationscode)\D{0,40}?(\d{6,12})`
abbrev pub gmail_code_body : Regex
gmail_code_body = seq (
    either (text_i (codes "code")) (text_i (codes "konfirmationscode"))
    ∷ repeat false (some 40) (char (λ c. not (is_digit c)))
    ∷ group 1 (between 6 12 digit)
    ∷ [])

-- `[A-Za-z0-9_\-./?=&%\[\]]`
abbrev pub link_code : ℕ → Bool
link_code c = is_alnum c || one_of (codes "_-./?=&%[]") c

-- `_GMAIL_CONFIRM_URL`:
-- `https://mail(?:-settings)?\.google\.com/mail/vf-[A-Za-z0-9_\-./?=&%\[\]]+`
abbrev pub gmail_confirm_url : Regex
gmail_confirm_url = seq (
    text (codes "https://mail")
    ∷ maybe (text (codes "-settings"))
    ∷ text (codes ".google.com/mail/vf-")
    ∷ plus (char link_code)
    ∷ [])

abbrev pub group_1 : Option Match → Option Text
group_1 none = none
group_1 (some m) = group_of 1 m

abbrev pub whole_of : Option Match → Option Text
whole_of none = none
whole_of (some m) = some m.whole

-- What `detect` reads once the sender is known.
unfoldable pub read_verification : ParsedEmail → ForwardingVerification
unfolding or_else is_blank
read_verification parsed =
    let body : Text = if is_blank parsed.text_body then parsed.html_body else parsed.text_body in
    record {
      code =
          group_1
            (or_else (search gmail_code_subject parsed.subject) (search gmail_code_body body));
      confirmation_url = whole_of (search gmail_confirm_url body);
    }

unfoldable pub detect : (Text → Text) → ParsedEmail → Option ForwardingVerification
unfolding read_verification is_in
detect parseaddr parsed =
    if is_in (lower (parseaddr parsed.from_header)) verification_senders
    then some (read_verification parsed)
    else none
