-- ===== src/Server/Logging.antt =====
-- What the server's log rows hold (RotoWeaveServer/server/repository.py): JSON values, and `_redact`,
-- which hides secrets before a row is written.
pub mod Redaction
mod Tests
use rotoweave.Base.{◌||◌, String, Bool, List, [], ◌∷◌, str_eq, if◌then◌else◌}
use rotoweave.Base.Signed.{ℤ}
use rotoweave.Base.Text.{codes, casefold, contains, member}

mutual
  pub data Json : Type 0 where
    null : Json
    bool : Bool → Json
    number : ℤ → Json
    text : String → Json
    array : Items → Json
    object : Fields → Json

  pub data Items : Type 0 where
    nil : Items
    item : Json → Items → Items

  pub data Fields : Type 0 where
    end : Fields
    field : String → Json → Fields → Fields

abbrev pub sensitive_keys : List String
sensitive_keys =
    "authorization" ∷ "bearer" ∷ "bearer_token" ∷ "credential" ∷ "credentials" ∷ "private_key"
    ∷ "secret" ∷ "token" ∷ "tls_private_key" ∷ "user_content" ∷ []

unfoldable pub is_sensitive : String → Bool
unfolding casefold member
is_sensitive key = member (casefold (codes key)) sensitive_keys

unfoldable pub holds_secret : String → Bool
unfolding casefold contains
holds_secret s =
    let lowered = casefold (codes s) in
    contains (codes "-----begin") lowered || contains (codes "bearer ") lowered

abbrev pub redacted : Json
redacted = text "[REDACTED]"

unfoldable mutual
  pub redact : Json → Json
  redact null = null
  redact (bool b) = bool b
  redact (number n) = number n
  redact (text s) = if holds_secret s then redacted else text s
  redact (array xs) = array (redact_items xs)
  redact (object fs) = object (redact_fields fs)

  pub redact_items : Items → Items
  redact_items nil = nil
  redact_items (item x xs) = item (redact x) (redact_items xs)

  pub redact_fields : Fields → Fields
  redact_fields end = end
  redact_fields (field k v fs) =
      field k (if is_sensitive k then redacted else redact v) (redact_fields fs)

-- `d.setdefault(key, value)`
unfoldable pub set_default : String → Json → Fields → Fields
set_default key v end = field key v end
set_default key v (field k w fs) =
    if str_eq k key then field k w fs else field k w (set_default key v fs)
