-- ===== src/Base/Order/Laws.antt =====
-- What sorting keeps, and that the head of a sorted list is least.
use rotoweave.Base.{
  ◌≡◌, refl, ◌∙◌, Bool, true, false, ◌||◌, List, [], ◌∷◌, arith, any_where, Bool-cases, inl, inr,
  All,
}
use rotoweave.Base.Order.{insert_by, sort_by}

module _ {ℓ} {A : Type ℓ} where
  -- A relation between all rows of a list, in pairs.
  abbrev pub AllPairs : (A → A → Type 0) → List A → Type 0
  AllPairs R [] = Unit
  AllPairs R (x ∷ xs) = All (R x) xs × AllPairs R xs

module _ {ℓ} {A : Type ℓ} (le : A → A → Bool) where
  any-insert_by :
      (p : A → Bool) (x : A) (ys : List A)
      → any_where p (insert_by le x ys) ≡ (p x || any_where p ys)
  unfolding insert_by
  any-insert_by p x [] = refl
  any-insert_by p x (y ∷ ys) = ground (arith, any-insert_by p x ys)

  pub any-sort_by : (p : A → Bool) (xs : List A) → any_where p (sort_by le xs) ≡ any_where p xs
  unfolding sort_by
  any-sort_by p [] = refl
  any-sort_by p (x ∷ xs) = any-insert_by p x (sort_by le xs) ∙ rw (any-sort_by p xs)

  All-insert_by :
      (P : A → Type 0) (x : A) (ys : List A) → P x → All P ys → All P (insert_by le x ys)
  unfolding insert_by
  All-insert_by P x [] h hs = (h, tt)
  All-insert_by P x (y ∷ ys) h hs = elim (Bool-cases (le x y)) [
    | inl e ↦ rw e (h, hs)
    | inr e ↦ rw e (hs.0, All-insert_by P x ys h hs.1)
  ]

  pub All-sort_by : (P : A → Type 0) (xs : List A) → All P xs → All P (sort_by le xs)
  unfolding sort_by
  All-sort_by P [] h = tt
  All-sort_by P (x ∷ xs) h = All-insert_by P x (sort_by le xs) h.0 (All-sort_by P xs h.1)

  All-insert_by_inv :
      (P : A → Type 0) (x : A) (ys : List A) → All P (insert_by le x ys) → P x × All P ys
  unfolding insert_by
  All-insert_by_inv P x [] h = (h.0, tt)
  All-insert_by_inv P x (y ∷ ys) h = elim (Bool-cases (le x y)) [
    | inl e ↦ let r : P x × (P y × All P ys) = rw e at h in r
    | inr e ↦
        let r : P y × All P (insert_by le x ys) = rw e at h in
        let (first, others) = All-insert_by_inv P x ys r.1 in (first, (r.0, others))
  ]

  pub All-sort_by_inv : (P : A → Type 0) (xs : List A) → All P (sort_by le xs) → All P xs
  unfolding sort_by
  All-sort_by_inv P [] h = tt
  All-sort_by_inv P (x ∷ xs) h =
      let r = All-insert_by_inv P x (sort_by le xs) h in (r.0, All-sort_by_inv P xs r.1)

  -- Each row precedes, or ties with, all that follow it.
  abbrev pub IsSorted : List A → Type 0
  IsSorted [] = Unit
  IsSorted (x ∷ xs) = All (λ y. le x y ≡ true) xs × IsSorted xs

  module _ (total : (a b : A) → le a b ≡ false → le b a ≡ true)
      (trans : (a b c : A) → le a b ≡ true → le b c ≡ true → le a c ≡ true) where
    All-below :
        (x y : A) (ys : List A)
        → le x y ≡ true
        → All (λ z. le y z ≡ true) ys
        → All (λ z. le x z ≡ true) ys
    All-below x y [] e h = tt
    All-below x y (z ∷ zs) e h = (trans x y z e h.0, All-below x y zs e h.1)

    IsSorted-insert_by : (x : A) (ys : List A) → IsSorted ys → IsSorted (insert_by le x ys)
    unfolding insert_by
    IsSorted-insert_by x [] s = (tt, tt)
    IsSorted-insert_by x (y ∷ ys) s = elim (Bool-cases (le x y)) [
      | inl e ↦ rw e ((e, All-below x y ys e s.0), s)
      | inr e ↦
          rw e
            (All-insert_by (λ z. le y z ≡ true) x ys (total x y e) s.0, IsSorted-insert_by x ys s.1)
    ]

    pub IsSorted-sort_by : (xs : List A) → IsSorted (sort_by le xs)
    unfolding sort_by
    IsSorted-sort_by [] = tt
    IsSorted-sort_by (x ∷ xs) = IsSorted-insert_by x (sort_by le xs) (IsSorted-sort_by xs)

  module _ (R : A → A → Type 0) (symmetric : (a b : A) → R a b → R b a) where
    AllPairs-insert_by :
        (x : A) (ys : List A) → All (R x) ys → AllPairs R ys → AllPairs R (insert_by le x ys)
    unfolding insert_by
    AllPairs-insert_by x [] h p = (tt, tt)
    AllPairs-insert_by x (y ∷ ys) h p = elim (Bool-cases (le x y)) [
      | inl e ↦ rw e (h, p)
      | inr e ↦
          rw e (All-insert_by (R y) x ys (symmetric x y h.0) p.0, AllPairs-insert_by x ys h.1 p.1)
    ]

    pub AllPairs-sort_by : (xs : List A) → AllPairs R xs → AllPairs R (sort_by le xs)
    unfolding sort_by
    AllPairs-sort_by [] p = tt
    AllPairs-sort_by (x ∷ xs) p =
        AllPairs-insert_by x (sort_by le xs) (All-sort_by (R x) xs p.0) (AllPairs-sort_by xs p.1)
