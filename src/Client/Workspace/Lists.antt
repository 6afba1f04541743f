-- ===== src/Client/Workspace/Lists.antt =====
-- Lists of records under the changes that the operations make.
use rotoweave.Base.{
  some, find_where, ap, String, Bool, true, false, ◌≡◌, refl, List, [], ◌∷◌, ◌++◌, map, inl, inr,
  Bool-cases, str_eq, str_eq_refl, eq_iff, any_where, select_where, delete_where, All, arith,
}
use rotoweave.Client.Workspace.Schema.{update_first, among}

module _ {A : Type 0} (P : A → Type 0) where
  pub All-append : (xs ys : List A) → All P xs → All P ys → All P (xs ++ ys)
  All-append [] ys h k = k
  All-append (x ∷ xs) ys h k = (h.0, All-append xs ys h.1 k)

  pub All-select_where : (p : A → Bool) (xs : List A) → All P xs → All P (select_where p xs)
  All-select_where p [] h = tt
  All-select_where p (x ∷ xs) h = elim (Bool-cases (p x)) [
    | inl e ↦ rw e (h.0, All-select_where p xs h.1)
    | inr e ↦ rw e (All-select_where p xs h.1)
  ]

  pub All-update_first :
      (p : A → Bool) (f : A → A)
      → ((x : A) → P x → P (f x))
      → (xs : List A) → All P xs
      → All P (update_first p f xs)
  All-update_first p f k [] h = tt
  All-update_first p f k (x ∷ xs) h = elim (Bool-cases (p x)) [
    | inl e ↦ rw e (k x h.0, h.1)
    | inr e ↦ rw e (h.0, All-update_first p f k xs h.1)
  ]

  pub All-map :
      (f : A → A) → ((x : A) → P x → P (f x)) → (xs : List A) → All P xs → All P (map f xs)
  All-map f k [] h = tt
  All-map f k (x ∷ xs) h = (k x h.0, All-map f k xs h.1)

pub All-imp :
    {A : Type 0} (P Q : A → Type 0) → ((x : A) → P x → Q x) → (xs : List A) → All P xs → All Q xs
All-imp P Q k [] h = tt
All-imp P Q k (x ∷ xs) h = (k x h.0, All-imp P Q k xs h.1)

-- What a deletion leaves does not meet its condition.
pub any-delete_where :
    {A : Type 0} (p : A → Bool) (xs : List A) → any_where p (delete_where p xs) ≡ false
any-delete_where p [] = refl
any-delete_where p (x ∷ xs) = elim (Bool-cases (p x)) [
  | inl e ↦ rw e (any-delete_where p xs)
  | inr e ↦ rw e (rw (e, any-delete_where p xs))
]

pub among-append :
    (k i : String) (is : List String) → among k is ≡ true → among k (is ++ (i ∷ [])) ≡ true
among-append k i [] h = cc
among-append k i (j ∷ is) h = elim (Bool-cases (str_eq j k)) [
  | inl e ↦ rw e
  | inr e ↦ let r : among k is ≡ true = rw e at h in rw e (among-append k i is r)
]

pub among-last : (i : String) (is : List String) → among i (is ++ (i ∷ [])) ≡ true
among-last i [] = rw (str_eq_refl i)
among-last i (j ∷ is) = elim (Bool-cases (str_eq j i)) [
  | inl e ↦ rw e
  | inr e ↦ rw (e, among-last i is)
]

pub among-delete_where :
    (k i : String) (is : List String)
    → str_eq k i ≡ false
    → among k is ≡ true
    → among k (delete_where (λ j. str_eq j i) is) ≡ true
among-delete_where k i [] e h = cc
among-delete_where k i (j ∷ is) e h =
    ground (arith, among-delete_where k i is e, eq_iff j i, eq_iff j k, eq_iff k i)

pub delete_where-none :
    {A : Type 0} (p : A → Bool) (xs : List A) → any_where p xs ≡ false → delete_where p xs ≡ xs
delete_where-none p [] h = refl
delete_where-none p (x ∷ xs) h = elim (Bool-cases (p x)) [
  | inl e ↦ let r : true ≡ false = rw e at h in cc
  | inr e ↦
      let r : any_where p xs ≡ false = rw e at h in
      rw e (ap (λ ys. x ∷ ys) (delete_where-none p xs r))
]

pub delete_where-last :
    {A : Type 0} (p : A → Bool) (xs : List A) (a : A)
    → any_where p xs ≡ false
    → p a ≡ true
    → delete_where p (xs ++ (a ∷ [])) ≡ xs
delete_where-last p [] a h k = rw k
delete_where-last p (x ∷ xs) a h k = elim (Bool-cases (p x)) [
  | inl e ↦ let r : true ≡ false = rw e at h in cc
  | inr e ↦
      let r : any_where p xs ≡ false = rw e at h in
      rw e (ap (λ ys. x ∷ ys) (delete_where-last p xs a r k))
]

pub find-last :
    {A : Type 0} (p : A → Bool) (xs : List A) (a : A)
    → any_where p xs ≡ false
    → p a ≡ true
    → find_where p (xs ++ (a ∷ [])) ≡ some a
find-last p [] a h k = rw k
find-last p (x ∷ xs) a h k = elim (Bool-cases (p x)) [
  | inl e ↦ let r : true ≡ false = rw e at h in cc
  | inr e ↦ let r : any_where p xs ≡ false = rw e at h in rw e (find-last p xs a r k)
]
