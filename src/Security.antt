-- ===== src/Security.antt =====
-- security/internal_secret.py and security/crypto.py.
use email_budget_api.Common.{Bool, false, Option, none, some, [], ◌∷◌}
use email_budget_api.Common.Text.{Text, text_eq}

-- `require_internal_secret`: whether the request is let in; otherwise 403.
unfoldable pub require_internal_secret : (expected given : Text) → Bool
require_internal_secret [] given = false
require_internal_secret (c ∷ expected) given = text_eq given (c ∷ expected)

-- `Fernet(urlsafe_b64encode(sha256(key_material)))`, as what it does with a text.
pub record Fernet : Type 0 where
  pub encrypt : Text → Text
  pub decrypt : Text → Option Text

-- `_fernet`: none where it raises, as the key is not set.
unfoldable pub fernet_of : (Text → Fernet) → Text → Option Fernet
fernet_of fernet [] = none
fernet_of fernet (c ∷ key_material) = some (fernet (c ∷ key_material))

unfoldable pub encrypt_secret : (Text → Fernet) → Text → Text → Option Text
unfolding fernet_of
encrypt_secret fernet key_material plaintext = elim (fernet_of fernet key_material) [
  | none ↦ none
  | some f ↦ some (f.encrypt plaintext)
]

unfoldable pub decrypt_secret : (Text → Fernet) → Text → Text → Option Text
unfolding fernet_of
decrypt_secret fernet key_material token = elim (fernet_of fernet key_material) [
  | none ↦ none
  | some f ↦ f.decrypt token
]
