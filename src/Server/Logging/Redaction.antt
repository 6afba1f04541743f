-- ===== src/Server/Logging/Redaction.antt =====
-- What `_redact` leaves in a log row.
use rotoweave.Base.{
  String, ◌≡◌, refl, sym, ap, ◌∙◌, true, false, inl, inr, ◌⊎◌, [], ◌∷◌, Bool-cases,
}
use rotoweave.Base.Text.{codes, casefold, contains}
use rotoweave.Base.Text.Within.{
  Within, contains-Within, Within-contains, OneOf, member-OneOf, OneOf-member,
}
use rotoweave.Server.Logging.{
  Json, Items, Fields, null, bool, number, text, array, object, nil, item, end, field, is_sensitive,
  holds_secret, sensitive_keys, redact, redact_items, redact_fields,
}

-- The text has one of the two marks of a secret in it, in whatever case.
abbrev pub Shows : String → Type 0
Shows s =
    Within (codes "-----begin") (casefold (codes s)) ⊎ Within (codes "bearer ") (casefold (codes s))

-- The key is one of ten, in whatever case.
abbrev pub Sensitive : String → Type 0
Sensitive k = OneOf (casefold (codes k)) (
    "authorization" ∷ "bearer" ∷ "bearer_token" ∷ "credential" ∷ "credentials" ∷ "private_key"
    ∷ "secret" ∷ "token" ∷ "tls_private_key" ∷ "user_content" ∷ [])

shown : (s : String) → holds_secret s ≡ true → Shows s
unfolding holds_secret
shown s e = elim (Bool-cases (contains (codes "-----begin") (casefold (codes s)))) [
  | inl p ↦ inl (contains-Within (codes "-----begin") (casefold (codes s)) p)
  | inr p ↦ inr (contains-Within (codes "bearer ") (casefold (codes s)) (rw p at e))
]

Shows-holds_secret : (s : String) → Shows s → holds_secret s ≡ true
unfolding holds_secret
Shows-holds_secret s (inl h) = rw (Within-contains (codes "-----begin") (casefold (codes s)) h)
Shows-holds_secret s (inr h) =
    elim (Bool-cases (contains (codes "-----begin") (casefold (codes s)))) [
      | inl p ↦ rw p
      | inr p ↦ rw p (Within-contains (codes "bearer ") (casefold (codes s)) h)
    ]

not_shown : (s : String) → holds_secret s ≡ false → ¬ (Shows s)
not_shown s e h = let clash : true ≡ false = sym (Shows-holds_secret s h) ∙ e in absurd cc

is_sensitive-Sensitive : (k : String) → is_sensitive k ≡ true → Sensitive k
unfolding is_sensitive
is_sensitive-Sensitive k e = member-OneOf (casefold (codes k)) sensitive_keys e

Sensitive-is_sensitive : (k : String) → Sensitive k → is_sensitive k ≡ true
unfolding is_sensitive
Sensitive-is_sensitive k h = OneOf-member (casefold (codes k)) sensitive_keys h

not-Sensitive : (k : String) → is_sensitive k ≡ false → ¬ (Sensitive k)
not-Sensitive k e h = let clash : true ≡ false = sym (Sensitive-is_sensitive k h) ∙ e in absurd cc

-- A value shows no secret: no text in it does, and a sensitive key stands only before the mark.
mutual
  pub IsClean : Json → Type 0
  IsClean null = Unit
  IsClean (bool b) = Unit
  IsClean (number n) = Unit
  IsClean (text s) = ¬ (Shows s)
  IsClean (array xs) = IsCleanItems xs
  IsClean (object fs) = IsCleanFields fs

  pub IsCleanItems : Items → Type 0
  IsCleanItems nil = Unit
  IsCleanItems (item x xs) = IsClean x × IsCleanItems xs

  pub IsCleanFields : Fields → Type 0
  IsCleanFields end = Unit
  IsCleanFields (field k v fs) =
      (IsClean v) × (Sensitive k → v ≡ text "[REDACTED]") × IsCleanFields fs

-- The second value is the first with the mark in the place of each text that shows a secret and of each
-- value under a sensitive key, and with everything else as it is.
mutual
  pub IsRedaction : Json → Json → Type 0
  IsRedaction null r = r ≡ null
  IsRedaction (bool b) r = r ≡ bool b
  IsRedaction (number n) r = r ≡ number n
  IsRedaction (text s) r = (Shows s × (r ≡ text "[REDACTED]")) ⊎ (¬ (Shows s) × (r ≡ text s))
  IsRedaction (array xs) r = (ys : Items) × (r ≡ array ys) × IsItemsRedaction xs ys
  IsRedaction (object fs) r = (gs : Fields) × (r ≡ object gs) × IsFieldsRedaction fs gs

  pub IsItemsRedaction : Items → Items → Type 0
  IsItemsRedaction nil r = r ≡ nil
  IsItemsRedaction (item x xs) r =
      (y : Json) × (ys : Items) × (r ≡ item y ys) × IsRedaction x y × IsItemsRedaction xs ys

  pub IsFieldsRedaction : Fields → Fields → Type 0
  IsFieldsRedaction end r = r ≡ end
  IsFieldsRedaction (field k v fs) r =
      (w : Json) × (gs : Fields) × (r ≡ field k w gs)
      × ((Sensitive k × (w ≡ text "[REDACTED]")) ⊎ (¬ (Sensitive k) × IsRedaction v w))
      × IsFieldsRedaction fs gs

mutual
  unfolding redact IsRedaction

  redact-IsRedaction_value : (v : Json) → IsRedaction v (redact v)
  redact-IsRedaction_value null = refl
  redact-IsRedaction_value (bool b) = refl
  redact-IsRedaction_value (number n) = refl
  redact-IsRedaction_value (text s) = elim (Bool-cases (holds_secret s)) [
    | inl e ↦ rw e (inl (shown s e, refl))
    | inr e ↦ rw e (inr (not_shown s e, refl))
  ]
  redact-IsRedaction_value (array xs) = (redact_items xs, refl, redact-IsRedaction_list xs)
  redact-IsRedaction_value (object fs) = (redact_fields fs, refl, redact-IsRedaction_pairs fs)

  redact-IsRedaction_list : (xs : Items) → IsItemsRedaction xs (redact_items xs)
  redact-IsRedaction_list nil = refl
  redact-IsRedaction_list (item x xs) =
      (redact x, redact_items xs, refl, redact-IsRedaction_value x, redact-IsRedaction_list xs)

  redact-IsRedaction_pairs : (fs : Fields) → IsFieldsRedaction fs (redact_fields fs)
  redact-IsRedaction_pairs end = refl
  redact-IsRedaction_pairs (field k v fs) = elim (Bool-cases (is_sensitive k)) [
    | inl e ↦ rw e (
      _,
      redact_fields fs,
      refl,
      inl (is_sensitive-Sensitive k e, refl),
      redact-IsRedaction_pairs fs,
    )
    | inr e ↦ rw e (
      redact v,
      redact_fields fs,
      refl,
      inr (not-Sensitive k e, redact-IsRedaction_value v),
      redact-IsRedaction_pairs fs,
    )
  ]

mark_is_clean : ¬ (Shows "[REDACTED]")
mark_is_clean = not_shown "[REDACTED]" (unfold holds_secret in refl)

mutual
  unfolding redact IsClean

  redact-IsClean_value : (v : Json) → IsClean (redact v)
  redact-IsClean_value null = tt
  redact-IsClean_value (bool b) = tt
  redact-IsClean_value (number n) = tt
  redact-IsClean_value (text s) = elim (Bool-cases (holds_secret s)) [
    | inl e ↦ rw e mark_is_clean
    | inr e ↦ rw e (not_shown s e)
  ]
  redact-IsClean_value (array xs) = redact-IsClean_list xs
  redact-IsClean_value (object fs) = redact-IsClean_pairs fs

  redact-IsClean_list : (xs : Items) → IsCleanItems (redact_items xs)
  redact-IsClean_list nil = tt
  redact-IsClean_list (item x xs) = (redact-IsClean_value x, redact-IsClean_list xs)

  redact-IsClean_pairs : (fs : Fields) → IsCleanFields (redact_fields fs)
  redact-IsClean_pairs end = tt
  redact-IsClean_pairs (field k v fs) = elim (Bool-cases (is_sensitive k)) [
    | inl e ↦ rw e (mark_is_clean, (λ h. refl), redact-IsClean_pairs fs)
    | inr e ↦
        rw e (redact-IsClean_value v, (λ h. absurd (not-Sensitive k e h)), redact-IsClean_pairs fs)
  ]

pub redact_fields-IsClean : (fs : Fields) → IsCleanFields (redact_fields fs)
redact_fields-IsClean fs = redact-IsClean_pairs fs

mutual
  unfolding redact IsClean

  clean_value : (v : Json) → IsClean v → redact v ≡ v
  clean_value null c = refl
  clean_value (bool b) c = refl
  clean_value (number n) c = refl
  clean_value (text s) c = elim (Bool-cases (holds_secret s)) [
    | inl e ↦ absurd (c (shown s e))
    | inr e ↦ rw e
  ]
  clean_value (array xs) c = ap array (clean_list xs c)
  clean_value (object fs) c = ap object (clean_pairs fs c)

  clean_list : (xs : Items) → IsCleanItems xs → redact_items xs ≡ xs
  clean_list nil c = refl
  clean_list (item x xs) c = rw (clean_value x c.0, clean_list xs c.1)

  clean_pairs : (fs : Fields) → IsCleanFields fs → redact_fields fs ≡ fs
  clean_pairs end c = refl
  clean_pairs (field k v fs) c = elim (Bool-cases (is_sensitive k)) [
    | inl e ↦ rw (e, c.1 (is_sensitive-Sensitive k e), clean_pairs fs c.2)
    | inr e ↦ rw (e, clean_value v c.0, clean_pairs fs c.2)
  ]

-- `_redact` puts the mark in the place of each text with `-----begin` or `bearer ` in it and of each value
-- under one of ten sensitive keys, in whatever case, and leaves everything else; so its value shows no
-- secret, and a value that shows none is returned as it is.
pub redact_lem :
    (v : Json) → IsRedaction v (redact v) × IsClean (redact v) × (IsClean v → redact v ≡ v)
redact_lem v = (redact-IsRedaction_value v, redact-IsClean_value v, clean_value v)
