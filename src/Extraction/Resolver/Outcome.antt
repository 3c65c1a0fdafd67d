-- ===== src/Extraction/Resolver/Outcome.antt =====
-- extraction/sender_resolver.py: what `resolve` returns, and when it raises.
use mathlib.Core.Option.{some-injective}
use email_budget_api.Common.{
  ◌≡◌, ◌⊎◌, refl, sym, subst, ◌∙◌, true, false, Bool-cases, Option, none, some, Option-cases, inl,
  inr, List, [], ◌∷◌, is_some, if◌then◌else◌,
}
use email_budget_api.Common.Text.{Text}
use email_budget_api.Strings.{strip, is_blank, is_in, or_else, after_last}
use email_budget_api.Regex.{Match}
use email_budget_api.Extraction.Models.{ParsedEmail, ResolvedSender, dkim, header, body}
use email_budget_api.Extraction.Resolver.Defs.{
  consumer_sender_domains, group_1, registered_domain, first_sender, scan_from, dkim_domain,
  is_consumer, sender, outer_sender, unwrapped, body_original_sender, from_domain, resolve,
}

first_sender-consumer :
    (matches : List Match) (dom : Text)
    → first_sender matches ≡ some dom
    → is_in dom consumer_sender_domains ≡ false
unfolding first_sender
first_sender-consumer [] dom e = absurd (cc e)
first_sender-consumer (m ∷ rest) dom e = elim (Option-cases (group_1 m)) [
  | inl gone ↦ first_sender-consumer rest dom (rw (gone, first_sender) at e)
  | inr (address, held) ↦
      elim (Option-cases (registered_domain (some (after_last b'@' address address)))) [
        | inl no_name ↦ first_sender-consumer rest dom (rw (held, no_name, first_sender) at e)
        | inr (d, name) ↦ elim (Bool-cases (is_in d consumer_sender_domains)) [
          | inl skip ↦ first_sender-consumer rest dom (rw (held, name, skip, first_sender) at e)
          | inr keep ↦
              subst (λ (x : Text). is_in x consumer_sender_domains ≡ false)
                (some-injective _ _ (rw (held, name, keep, first_sender) at e)) keep
        ]
      ]
]

or_else-cases : (o p : Option Text) (x : Text) → or_else o p ≡ some x → (o ≡ some x) ⊎ (p ≡ some x)
unfolding or_else
or_else-cases none p x e = inr e
or_else-cases (some y) p x e = inl e

module _ (html_to_text : Text → Text) where
  -- A sender that stands in the body is no consumer provider.
  body_original_sender-consumer :
      (parsed : ParsedEmail) (dom : Text)
      → body_original_sender html_to_text parsed ≡ some dom
      → is_consumer (some dom) ≡ false
  unfolding body_original_sender scan_from is_consumer
  body_original_sender-consumer parsed dom e =
      elim (or_else-cases
        (if is_blank (strip parsed.text_body) then none else scan_from parsed.text_body)
        (if is_blank (strip parsed.html_body)
          then none
          else scan_from (html_to_text parsed.html_body))
        dom e) [
          | inl text ↦ elim (Bool-cases (is_blank (strip parsed.text_body))) [
            | inl blank ↦ absurd (cc (rw blank at text))
            | inr filled ↦ first_sender-consumer _ dom (rw filled at text)
          ]
          | inr html ↦ elim (Bool-cases (is_blank (strip parsed.html_body))) [
            | inl blank ↦ absurd (cc (rw blank at html))
            | inr filled ↦ first_sender-consumer _ dom (rw filled at html)
          ]
        ]

module _ (parseaddr html_to_text : Text → Text) (parsed : ParsedEmail) where
  abbrev outer : Option Text
  outer = or_else (dkim_domain parsed.dkim_signatures) (from_domain parseaddr parsed)

  -- What holds of the sender that `resolve` returns.
  pub record IsResolved (sender : ResolvedSender) : Type 0 where
    pub known : is_some sender.domain ≡ true
    pub by_dkim : sender.source ≡ dkim → sender.domain ≡ dkim_domain parsed.dkim_signatures
    pub by_header :
        sender.source ≡ header
        → (dkim_domain parsed.dkim_signatures ≡ none)
          × (sender.domain ≡ from_domain parseaddr parsed)
    pub by_body :
        sender.source ≡ body
        → (sender.domain ≡ body_original_sender html_to_text parsed) × (is_consumer outer ≡ true)
    pub unmasked :
        is_consumer sender.domain ≡ true → body_original_sender html_to_text parsed ≡ none

  -- The sender of the outer headers, where no sender in the body takes its place.
  known-IsResolved :
      (is_consumer outer ≡ true → body_original_sender html_to_text parsed ≡ none)
      → ((outer_sender (dkim_domain parsed.dkim_signatures) (from_domain parseaddr parsed) ≡ none)
          × (dkim_domain parsed.dkim_signatures ≡ none)
          × (from_domain parseaddr parsed ≡ none))
        ⊎ ((sender : ResolvedSender) × (outer_sender
                (dkim_domain parsed.dkim_signatures)
                (from_domain parseaddr parsed)
              ≡ some sender)
            × IsResolved sender)
  unfolding outer_sender or_else
  known-IsResolved h = elim (Option-cases (dkim_domain parsed.dkim_signatures)) [
    | inr (d, e) ↦ inr (
      sender d dkim 97,
      rw (e, outer_sender) refl,
      record {
        known = refl;
        by_dkim = λ _. sym e;
        by_header = λ k. absurd (cc k);
        by_body = λ k. absurd (cc k);
        unmasked = λ k. h (rw (e, or_else) k);
      },
    )
    | inl e ↦ elim (Option-cases (from_domain parseaddr parsed)) [
      | inl f ↦ inl (rw (e, f, outer_sender) refl, e, f)
      | inr (d, f) ↦ inr (
        sender d header 85,
        rw (e, f, outer_sender) refl,
        record {
          known = refl;
          by_dkim = λ k. absurd (cc k);
          by_header = λ _. (e, sym f);
          by_body = λ k. absurd (cc k);
          unmasked = λ k. h (rw (e, f, or_else) k);
        },
      )
    ]
  ]

  -- `resolve` raises exactly for an email with neither a domain in its DKIM signatures nor one in
  -- its From header, and returns a sender for any other: the DKIM domain before the From domain, or
  -- the sender in the body where these are a consumer provider. It returns a consumer provider only
  -- where no other sender stands in the body.
  pub resolve-IsResolved :
      ((resolve parseaddr html_to_text parsed ≡ none)
        × (dkim_domain parsed.dkim_signatures ≡ none)
        × (from_domain parseaddr parsed ≡ none))
      ⊎ ((sender : ResolvedSender) × (resolve parseaddr html_to_text parsed ≡ some sender)
          × IsResolved sender)
  unfolding resolve unwrapped or_else
  resolve-IsResolved = elim (Bool-cases (is_consumer outer)) [
    | inr direct ↦ rw (direct, resolve) (known-IsResolved (λ k. absurd (cc (sym direct ∙ k))))
    | inl consumer ↦ elim (Option-cases (body_original_sender html_to_text parsed)) [
      | inl no_body ↦ rw (consumer, no_body, resolve) (known-IsResolved (λ _. no_body))
      | inr (dom, found) ↦
          let other = body_original_sender-consumer html_to_text parsed dom found in
          inr (
            sender dom body 80,
            rw (consumer, found, other, resolve) refl,
            record {
              known = refl;
              by_dkim = λ k. absurd (cc k);
              by_header = λ k. absurd (cc k);
              by_body = λ _. (sym found, consumer);
              unmasked = λ k. absurd (cc (sym other ∙ k));
            },
          )
    ]
  ]
