-- ===== src/Extraction/Resolver/Defs.antt =====
-- extraction/sender_resolver.py. `email.utils.parseaddr` is the parameter `parseaddr`, of which only
-- the address is used, and `_html_to_text` the parameter `html_to_text`. `resolve` is none where it
-- raises.
use email_budget_api.Common.{
  ℕ, zero, suc, ◌-◌, Bool, true, false, not, ◌&&◌, ◌||◌, Option, none, some, List, [], ◌∷◌, ◌==◌,
  if◌then◌else◌, leb, length,
}
use email_budget_api.Common.Text.{Text, codes, lower, or_none}
use email_budget_api.Extraction.Models.{
  ParsedEmail, ResolvedSender, SenderSource, dkim, header, body,
}
use email_budget_api.Regex.{
  Regex, Match, char, repeat, group, search, group_of, is_alnum, is_space, one_of, newline, seq,
  star, plus, text, boundary, line_start,
}
use email_budget_api.Strings.{
  strip, strip_by, is_blank, is_in, or_else, split, join, contains, after_last, find_all,
}

-- `[A-Za-z0-9.\-]`, `[A-Za-z0-9._%+\-]`
abbrev host_char : Regex
host_char = char (λ c. is_alnum c || one_of (codes ".-") c)

abbrev local_char : Regex
local_char = char (λ c. is_alnum c || one_of (codes "._%+-") c)

-- `_DKIM_D`: `\bd=([A-Za-z0-9.\-]+)`
abbrev pub dkim_d : Regex
dkim_d = seq (boundary ∷ text (codes "d=") ∷ group 1 (plus host_char) ∷ [])

-- `_BODY_FROM`: `^[>\s*]*From:\**\s*.*?([A-Za-z0-9._%+\-]+@[A-Za-z0-9.\-]+)`
abbrev pub body_from : Regex
body_from = seq (
    line_start
    ∷ star (char (λ c. one_of (codes ">*") c || is_space c))
    ∷ text (codes "From:")
    ∷ star (text (codes "*"))
    ∷ star (char is_space)
    ∷ repeat false none (char (λ c. not (c == newline)))
    ∷ group 1 (seq (plus local_char ∷ text (codes "@") ∷ plus host_char ∷ []))
    ∷ [])

-- `CONSUMER_SENDER_DOMAINS`
abbrev pub consumer_sender_domains : List Text
consumer_sender_domains =
    codes "gmail.com"
    ∷ codes "googlemail.com"
    ∷ codes "outlook.com"
    ∷ codes "hotmail.com"
    ∷ codes "live.com"
    ∷ codes "msn.com"
    ∷ codes "yahoo.com"
    ∷ codes "ymail.com"
    ∷ codes "rocketmail.com"
    ∷ codes "icloud.com"
    ∷ codes "me.com"
    ∷ codes "mac.com"
    ∷ codes "aol.com"
    ∷ codes "proton.me"
    ∷ codes "protonmail.com"
    ∷ codes "protonmail.ch"
    ∷ codes "pm.me"
    ∷ codes "gmx.com"
    ∷ codes "gmx.net"
    ∷ codes "zoho.com"
    ∷ codes "mail.com"
    ∷ codes "fastmail.com"
    ∷ codes "hey.com"
    ∷ codes "comcast.net"
    ∷ codes "verizon.net"
    ∷ codes "att.net"
    ∷ codes "sbcglobal.net"
    ∷ codes "cox.net"
    ∷ codes "btinternet.com"
    ∷ codes "yahoo.co.uk"
    ∷ codes "yahoo.co.in"
    ∷ codes "yahoo.ca"
    ∷ codes "yahoo.fr"
    ∷ codes "yahoo.de"
    ∷ codes "hotmail.co.uk"
    ∷ codes "outlook.co.uk"
    ∷ codes "live.co.uk"
    ∷ []

-- `_MULTI_TLD`
abbrev pub multi_tld : List Text
multi_tld =
    codes "co.uk"
    ∷ codes "org.uk"
    ∷ codes "gov.uk"
    ∷ codes "ac.uk"
    ∷ codes "me.uk"
    ∷ codes "ltd.uk"
    ∷ codes "plc.uk"
    ∷ codes "co.jm"
    ∷ codes "com.jm"
    ∷ codes "org.jm"
    ∷ codes "net.jm"
    ∷ codes "edu.jm"
    ∷ codes "gov.jm"
    ∷ codes "co.za"
    ∷ codes "org.za"
    ∷ codes "com.au"
    ∷ codes "net.au"
    ∷ codes "org.au"
    ∷ codes "co.nz"
    ∷ codes "com.br"
    ∷ codes "co.in"
    ∷ codes "com.mx"
    ∷ codes "com.sg"
    ∷ codes "com.hk"
    ∷ codes "co.ke"
    ∷ codes "co.tt"
    ∷ []

unfoldable pub without_first {ℓ} : {A : Type ℓ} → ℕ → List A → List A
without_first zero l = l
without_first (suc n) [] = []
without_first (suc n) (a ∷ l) = without_first n l

-- `l[-n:]`
unfoldable pub last {ℓ} : {A : Type ℓ} → ℕ → List A → List A
unfolding without_first
last n l = without_first (length l - n) l

unfoldable pub keep_filled : List Text → List Text
keep_filled [] = []
keep_filled (l ∷ ls) = let rest = keep_filled ls in if is_blank l then rest else l ∷ rest

unfoldable pub registered_name : Text → Option Text
unfolding keep_filled last
registered_name host =
    let labels = keep_filled (split b'.' host) in
    if leb 3 (length labels) && is_in (join (codes ".") (last 2 labels)) multi_tld
    then some (join (codes ".") (last 3 labels))
    else if leb 2 (length labels)
    then some (join (codes ".") (last 2 labels))
    else or_none host

unfoldable pub registered_domain : Option Text → Option Text
unfolding registered_name
registered_domain none = none
registered_domain (some []) = none
registered_domain (some (c ∷ host)) =
    registered_name (lower (strip_by (λ x. x == b'.') (strip (c ∷ host))))

abbrev pub group_1 : Match → Option Text
group_1 m = group_of 1 m

-- The loop over the matches of `_BODY_FROM`.
unfoldable pub first_sender : List Match → Option Text
unfolding registered_domain
first_sender [] = none
first_sender (m ∷ rest) = elim (group_1 m) [
  | none ↦ first_sender rest
  | some address ↦ elim (registered_domain (some (after_last b'@' address address))) [
    | none ↦ first_sender rest
    | some dom ↦ elim (is_in dom consumer_sender_domains) [
      | true ↦ first_sender rest
      | false ↦ some dom
    ]
  ]
]

-- `_scan_from`
unfoldable pub scan_from : Text → Option Text
unfolding first_sender
scan_from source = first_sender (find_all body_from source)

-- The loop over the signatures.
unfoldable pub dkim_domain : List Text → Option Text
unfolding registered_domain
dkim_domain [] = none
dkim_domain (sig ∷ rest) = elim (search dkim_d sig) [
  | none ↦ dkim_domain rest
  | some m ↦ elim (registered_domain (group_1 m)) [ none ↦ dkim_domain rest | some dom ↦ some dom ]
]

unfoldable pub is_consumer : Option Text → Bool
is_consumer none = false
is_consumer (some dom) = is_in dom consumer_sender_domains

abbrev pub sender : Text → SenderSource → ℕ → ResolvedSender
sender domain source confidence = record {
  domain = some domain;
  source = source;
  confidence = confidence;
}

-- The part of `resolve` behind the unwrapping. Without a domain it calls `_body_text`, a name that
-- nothing defines, and raises; the rest of the function is not reached.
unfoldable pub outer_sender : Option Text → Option Text → Option ResolvedSender
outer_sender (some dkim_dom) from_dom = some (sender dkim_dom dkim 97)
outer_sender none (some from_dom) = some (sender from_dom header 85)
outer_sender none none = none

-- `if body_dom and body_dom not in CONSUMER_SENDER_DOMAINS`
unfoldable pub unwrapped : Option Text → Option ResolvedSender
unfolding is_consumer
unwrapped none = none
unwrapped (some dom) = if is_consumer (some dom) then none else some (sender dom body 80)

-- `_domain_of`
unfoldable pub domain_of : (Text → Text) → Text → Option Text
domain_of parseaddr addr =
    let email_addr = parseaddr addr in
    if contains (codes "@") email_addr then some (after_last b'@' email_addr email_addr) else none

unfoldable pub from_domain : (Text → Text) → ParsedEmail → Option Text
unfolding registered_domain domain_of
from_domain parseaddr parsed = registered_domain (domain_of parseaddr parsed.from_header)

-- `_body_original_sender`
unfoldable pub body_original_sender : (Text → Text) → ParsedEmail → Option Text
unfolding scan_from or_else
body_original_sender html_to_text parsed =
    or_else (if is_blank (strip parsed.text_body) then none else scan_from parsed.text_body) (
      if is_blank (strip parsed.html_body) then none else scan_from (html_to_text parsed.html_body))

unfoldable pub resolve :
    (parseaddr html_to_text : Text → Text) → ParsedEmail → Option ResolvedSender
unfolding dkim_domain from_domain is_consumer outer_sender unwrapped body_original_sender or_else
resolve parseaddr html_to_text parsed =
    let dkim_dom = dkim_domain parsed.dkim_signatures in
    let from_dom = from_domain parseaddr parsed in
    let known = outer_sender dkim_dom from_dom in
    if is_consumer (or_else dkim_dom from_dom)
    then or_else (unwrapped (body_original_sender html_to_text parsed)) known
    else known
