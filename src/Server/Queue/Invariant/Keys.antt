-- ===== src/Server/Queue/Invariant/Keys.antt =====
-- The changes of the queue keep its ids and its idempotency keys unique.
use mathlib.Core.List.{map}
use rotoweave.Base.{
  String, ◌≡◌, refl, Bool, false, List, [], ◌∷◌, ◌++◌, arith, str_eq, eq_iff, any_where,
  update_where, delete_where, Bool-cases, inl, inr,
}
use rotoweave.Server.Queue.Invariant.{Distinct, elem}

module _ {A : Type 0} (key : A → String) where
  pub keys-update :
      (p : A → Bool) (f : A → A)
      → ((a : A) → key (f a) ≡ key a)
      → (xs : List A) → map key (update_where p f xs) ≡ map key xs
  keys-update p f keeps [] = refl
  keys-update p f keeps (x ∷ xs) = elim (Bool-cases (p x)) [
    | inl e ↦ rw (e, keeps x, keys-update p f keeps xs)
    | inr e ↦ rw (e, keys-update p f keeps xs)
  ]

  pub elem-keys :
      (i : String) (xs : List A) → elem i (map key xs) ≡ any_where (λ x. str_eq (key x) i) xs
  elem-keys i [] = refl
  elem-keys i (x ∷ xs) = rw (elem-keys i xs)

  -- A row with a new key goes to the end.
  pub Distinct-insert :
      (xs : List A) (a : A)
      → any_where (λ x. str_eq (key x) (key a)) xs ≡ false
      → Distinct (map key xs)
      → Distinct (map key (xs ++ a ∷ []))
  Distinct-insert [] a h d = (refl, tt)
  Distinct-insert (x ∷ xs) a h d =
      (not_in xs (ground arith) d.0, Distinct-insert xs a (ground arith) d.1)
    where
      not_in :
          (ys : List A)
          → str_eq (key x) (key a) ≡ false
          → elem (key x) (map key ys) ≡ false
          → elem (key x) (map key (ys ++ a ∷ [])) ≡ false
      not_in [] e n = ground (arith, eq_iff (key x) (key a), eq_iff (key a) (key x))
      not_in (y ∷ ys) e n = ground (arith, not_in ys e)

  pub elem-delete :
      (p : A → Bool) (i : String) (xs : List A)
      → elem i (map key xs) ≡ false
      → elem i (map key (delete_where p xs)) ≡ false
  elem-delete p i [] h = refl
  elem-delete p i (x ∷ xs) h = ground (arith, elem-delete p i xs)

  pub Distinct-delete :
      (p : A → Bool) (xs : List A) → Distinct (map key xs) → Distinct (map key (delete_where p xs))
  Distinct-delete p [] d = tt
  Distinct-delete p (x ∷ xs) d = elim (Bool-cases (p x)) [
    | inl e ↦ rw e (Distinct-delete p xs d.1)
    | inr e ↦ rw e (elem-delete p (key x) xs d.0, Distinct-delete p xs d.1)
  ]
