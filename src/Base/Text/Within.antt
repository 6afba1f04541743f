-- ===== src/Base/Text/Within.antt =====
-- What the searches in texts find.
use Prim.Native.Nat.{ℕ}
use Prim.Native.String.{String}
use mathlib.Core.Path.{◌≡◌, refl, ap, ◌∙◌}
use mathlib.Core.Logic.{◌⊎◌, inl, inr}
use mathlib.Core.Bool.{true}
use mathlib.Core.List.{List, [], ◌∷◌, ◌++◌}
use native.Mathlib.Omega.{arith}
use rotoweave.Base.Tests.{Bool-cases}
use rotoweave.Base.Text.{codes, codes_eq, is_prefix, contains, member}

-- The needle stands somewhere in the text.
abbrev pub Within : List ℕ → List ℕ → Type 0
Within needle text = (before : List ℕ) × (after : List ℕ) × (text ≡ before ++ (needle ++ after))

prefix_split : (xs ys : List ℕ) → is_prefix xs ys ≡ true → (rest : List ℕ) × (ys ≡ xs ++ rest)
unfolding is_prefix
prefix_split [] ys e = (ys, refl)
prefix_split (x ∷ xs) [] e = cc
prefix_split (x ∷ xs) (y ∷ ys) e =
    let same : x ≡ y = ground (arith, e) in
    let (rest, split) = prefix_split xs ys (ground (arith, e)) in (rest, cc)

prefix_of : (xs rest : List ℕ) → is_prefix xs (xs ++ rest) ≡ true
unfolding is_prefix
prefix_of [] rest = refl
prefix_of (x ∷ xs) rest = ground (arith, prefix_of xs rest)

pub contains-Within : (needle text : List ℕ) → contains needle text ≡ true → Within needle text
unfolding contains
contains-Within needle [] e = let (rest, split) = prefix_split needle [] e in ([], rest, split)
contains-Within needle (y ∷ ys) e = elim (Bool-cases (is_prefix needle (y ∷ ys))) [
  | inl p ↦ let (rest, split) = prefix_split needle (y ∷ ys) p in ([], rest, split)
  | inr p ↦
      let later : contains needle ys ≡ true = rw p at e in
      let (before, after, split) = contains-Within needle ys later in
      (y ∷ before, after, ap (λ zs. y ∷ zs) split)
]

contains_first : (needle after : List ℕ) → contains needle (needle ++ after) ≡ true
unfolding contains
contains_first [] [] = unfold is_prefix in refl
contains_first [] (y ∷ ys) = unfold is_prefix in refl
contains_first (x ∷ xs) after = rw (prefix_of (x ∷ xs) after)

contains_later :
    (needle before after : List ℕ) → contains needle (before ++ (needle ++ after)) ≡ true
unfolding contains
contains_later needle [] after = contains_first needle after
contains_later needle (y ∷ before) after = ground (arith, contains_later needle before after)

pub Within-contains : (needle text : List ℕ) → Within needle text → contains needle text ≡ true
Within-contains needle text (before, after, split) =
    ap (contains needle) split ∙ contains_later needle before after

pub codes_eq→≡ : (xs ys : List ℕ) → codes_eq xs ys ≡ true → xs ≡ ys
unfolding codes_eq
codes_eq→≡ [] [] e = refl
codes_eq→≡ [] (y ∷ ys) e = cc
codes_eq→≡ (x ∷ xs) [] e = cc
codes_eq→≡ (x ∷ xs) (y ∷ ys) e =
    let same : x ≡ y = ground (arith, e) in
    let rest : xs ≡ ys = codes_eq→≡ xs ys (ground (arith, e)) in cc

codes_eq_refl : (xs : List ℕ) → codes_eq xs xs ≡ true
unfolding codes_eq
codes_eq_refl [] = refl
codes_eq_refl (x ∷ xs) = ground (arith, codes_eq_refl xs)

-- One of the texts has these code points.
abbrev pub OneOf : List ℕ → List String → Type 0
OneOf cs [] = ⊥
OneOf cs (s ∷ ss) = (cs ≡ codes s) ⊎ OneOf cs ss

pub member-OneOf : (cs : List ℕ) (ss : List String) → member cs ss ≡ true → OneOf cs ss
unfolding member
member-OneOf cs [] e = absurd cc
member-OneOf cs (s ∷ ss) e = elim (Bool-cases (codes_eq cs (codes s))) [
  | inl p ↦ inl (codes_eq→≡ cs (codes s) p)
  | inr p ↦ inr (member-OneOf cs ss (rw p at e))
]

pub OneOf-member : (cs : List ℕ) (ss : List String) → OneOf cs ss → member cs ss ≡ true
unfolding member
OneOf-member cs [] h = absurd h
OneOf-member cs (s ∷ ss) (inl q) =
    let same : codes_eq cs (codes s) ≡ true =
      ap (λ xs. codes_eq xs (codes s)) q ∙ codes_eq_refl (codes s) in
    rw same
OneOf-member cs (s ∷ ss) (inr q) = ground (arith, OneOf-member cs ss q)
