-- ===== src/Extraction/Pipeline/Senders.antt =====
-- seed/financial_senders.py: the tables of senders.
use email_budget_api.Common.{Option, none, some, List, [], ◌∷◌}
use email_budget_api.Common.Text.{Text, codes}
use email_budget_api.Strings.{get}
use email_budget_api.Extraction.Models.{EmailType, bank_alert, receipt, subscription, payment}

abbrev pub financial_sender_registry : List (Text × EmailType)
financial_sender_registry =
    (codes "chase.com", bank_alert)
    ∷ (codes "bankofamerica.com", bank_alert)
    ∷ (codes "wellsfargo.com", bank_alert)
    ∷ (codes "jncb.com", bank_alert)
    ∷ (codes "gkco.com", bank_alert)
    ∷ (codes "myvmgroup.com", bank_alert)
    ∷ (codes "paypal.com", payment)
    ∷ (codes "venmo.com", payment)
    ∷ (codes "stripe.com", receipt)
    ∷ (codes "amazon.com", receipt)
    ∷ (codes "apple.com", receipt)
    ∷ (codes "uber.com", receipt)
    ∷ (codes "netflix.com", subscription)
    ∷ (codes "spotify.com", subscription)
    ∷ []

abbrev pub default_currency : Text
default_currency = codes "USD"

abbrev pub sender_default_currency : List (Text × Text)
sender_default_currency =
    (codes "jncb.com", codes "JMD")
    ∷ (codes "gkco.com", codes "JMD")
    ∷ (codes "myvmgroup.com", codes "JMD")
    ∷ []

-- `domain or ""`
unfoldable pub or_empty : Option Text → Text
or_empty none = []
or_empty (some d) = d

-- `SENDER_DEFAULT_CURRENCY.get(domain or "") or DEFAULT_CURRENCY`
unfoldable pub currency_of_sender : Option Text → Text
unfolding or_empty
currency_of_sender domain = elim (get (or_empty domain) sender_default_currency) [
  | none ↦ default_currency
  | some ccy ↦ ccy
]
