-- ===== src/Client/Runtime/Keys.antt =====
-- What each row of the runtime table keeps: its identifier is its own and its log is bounded.
pub mod Proof
use rotoweave.Base.{
  ℕ, zero, suc, ◌-◌, ◌≤◌, String, Bool, false, ◌≡◌, refl, ◌∙◌, ◌||◌, List, [], ◌∷◌, ◌++◌, inl, inr,
  Bool-cases, select_where, length, drop, update_where, any_where, arith, eq_iff,
}
use rotoweave.Client.Runtime.{Job, has_id, last}

-- No two rows have one identifier, and no row has more than 500 lines of log.
abbrev pub IsValid : List Job → Type 0
IsValid [] = Unit
IsValid (j ∷ js) = (any_where (has_id j.id) js ≡ false) × (length j.logs ≤ 500) × IsValid js

pub any-append :
    (p : Job → Bool) (js : List Job) (j : Job)
    → any_where p (js ++ (j ∷ [])) ≡ (any_where p js || p j)
any-append p [] j = ground arith
any-append p (x ∷ xs) j = ground (arith, any-append p xs j)

any_id-update :
    (i : String) (p : Job → Bool) (f : Job → Job) (js : List Job)
    → ((j : Job) → (f j).id ≡ j.id)
    → any_where (has_id i) (update_where p f js) ≡ any_where (has_id i) js
any_id-update i p f [] same = refl
any_id-update i p f (x ∷ xs) same = elim (Bool-cases (p x)) [
  | inl e ↦ rw (e, same x, any_id-update i p f xs same)
  | inr e ↦ rw (e, any_id-update i p f xs same)
]

any-select :
    (p q : Job → Bool) (js : List Job)
    → any_where p js ≡ false
    → any_where p (select_where q js) ≡ false
any-select p q [] h = refl
any-select p q (x ∷ xs) h = ground (arith, any-select p q xs)

pub IsValid-append :
    (js : List Job) (j : Job)
    → IsValid js
    → any_where (has_id j.id) js ≡ false
    → length j.logs ≤ 500
    → IsValid (js ++ (j ∷ []))
IsValid-append [] j v fresh short = (refl, short, tt)
IsValid-append (x ∷ xs) j v fresh short = (
  any-append (has_id x.id) xs j ∙ other_id x j xs fresh v.0,
  v.1,
  IsValid-append xs j v.2 (later_fresh x j xs fresh) short,
)
  where
    later_fresh :
        (x j : Job) (xs : List Job)
        → any_where (has_id j.id) (x ∷ xs) ≡ false
        → any_where (has_id j.id) xs ≡ false
    later_fresh x j xs h = ground arith

    other_id :
        (x j : Job) (xs : List Job)
        → any_where (has_id j.id) (x ∷ xs) ≡ false
        → any_where (has_id x.id) xs ≡ false
        → (any_where (has_id x.id) xs || has_id x.id j) ≡ false
    other_id x j xs h d = ground (arith, eq_iff x.id j.id, eq_iff j.id x.id)

pub IsValid-update :
    (p : Job → Bool) (f : Job → Job) (js : List Job)
    → ((j : Job) → (f j).id ≡ j.id)
    → ((j : Job) → length j.logs ≤ 500 → length (f j).logs ≤ 500)
    → IsValid js
    → IsValid (update_where p f js)
IsValid-update p f [] same short v = tt
IsValid-update p f (x ∷ xs) same short v = elim (Bool-cases (p x)) [
  | inl e ↦ rw e (
    rw (same x) (any_id-update x.id p f xs same ∙ v.0),
    short x v.1,
    IsValid-update p f xs same short v.2,
  )
  | inr e ↦ rw e (any_id-update x.id p f xs same ∙ v.0, v.1, IsValid-update p f xs same short v.2)
]

pub IsValid-select : (q : Job → Bool) (js : List Job) → IsValid js → IsValid (select_where q js)
IsValid-select q [] v = tt
IsValid-select q (x ∷ xs) v = elim (Bool-cases (q x)) [
  | inl e ↦ rw e (any-select (has_id x.id) q xs v.0, v.1, IsValid-select q xs v.2)
  | inr e ↦ rw e (IsValid-select q xs v.2)
]

length-drop {ℓ} : {A : Type ℓ} (n : ℕ) (xs : List A) → length (drop n xs) ≡ length xs - n
length-drop zero xs = omega arith
length-drop (suc n) [] = omega arith
length-drop (suc n) (x ∷ xs) = omega (arith, length-drop n xs)

pub length-last {ℓ} : {A : Type ℓ} (n : ℕ) (xs : List A) → length (last n xs) ≤ n
length-last n xs = omega (arith, length-drop (length xs - n) xs)
