-- ===== src/Client/Atlas/Free.antt =====
-- A page never hands out a place twice.
use rotoweave.Base.{
  ℕ, ◌+◌, Bool, true, false, ◌≡◌, refl, subst, ◌&&◌, some, List, [], ◌∷◌, ◌++◌, inl, inr,
  Bool-cases, ltb, leb, All, arith, select_where, any_where,
}
use rotoweave.Base.Order.Laws.{AllPairs}
use rotoweave.Client.Atlas.Rects.{
  Rect, Page, new_page, rects_intersect, contains, cons_if, pieces, split, left_of, right_of, above,
  below, is_solid, prune_after, prune_free_rects, place, least_from, least, Match, match_in,
  score_lt, matches, find,
}

-- `r` lies in a page of this size.
abbrev pub is_inside : ℕ → ℕ → Rect → Bool
is_inside w h r = leb (r.x + r.width) w && leb (r.y + r.height) h

abbrev pub Apart : Rect → Rect → Type 0
Apart a b = rects_intersect a b ≡ false

-- No two rectangles of the list overlap.
abbrev pub AllApart : List Rect → Type 0
AllApart rs = AllPairs Apart rs

-- A place that is still free: inside the page, and apart from each used one.
abbrev pub IsFree : ℕ → ℕ → List Rect → Rect → Type 0
IsFree w h used r = (is_inside w h r ≡ true) × All (Apart r) used

pub record IsPacked (p : Page) : Type 0 where
  pub free_places : All (IsFree p.width p.height p.used) p.free
  pub used_inside : All (λ r. is_inside p.width p.height r ≡ true) p.used
  pub used_apart : AllApart p.used

Apart-sym : (a b : Rect) → Apart a b → Apart b a
Apart-sym a b h = ground arith

Apart-inner : (outer inner r : Rect) → contains outer inner ≡ true → Apart outer r → Apart inner r
Apart-inner outer inner r c h = ground arith

inside-inner :
    (w h : ℕ) (outer inner : Rect)
    → contains outer inner ≡ true
    → is_inside w h outer ≡ true
    → is_inside w h inner ≡ true
inside-inner w h outer inner c i = ground arith

module _ {ℓ κ} {A : Type ℓ} (P : A → Type κ) where
  pub All-append : (xs ys : List A) → All P xs → All P ys → All P (xs ++ ys)
  All-append [] ys h k = k
  All-append (x ∷ xs) ys h k = (h.0, All-append xs ys h.1 k)

  All-cons_if :
      (b : Bool) (x : A) (xs : List A) → (b ≡ true → P x) → All P xs → All P (cons_if b x xs)
  All-cons_if true x xs h k = (h refl, k)
  All-cons_if false x xs h k = k

  pub All-select : (p : A → Bool) (xs : List A) → All P xs → All P (select_where p xs)
  All-select p [] h = tt
  All-select p (x ∷ xs) h = elim (Bool-cases (p x)) [
    | inl e ↦ rw e (h.0, All-select p xs h.1)
    | inr e ↦ rw e (All-select p xs h.1)
  ]

All-prune : (P : Rect → Type 0) (before rs : List Rect) → All P rs → All P (prune_after before rs)
unfolding prune_after
All-prune P before [] h = tt
All-prune P before (r ∷ after) h =
    elim (Bool-cases (any_where (λ o. contains o r) (before ++ after))) [
      | inl e ↦ rw e (All-prune P (before ++ (r ∷ [])) after h.1)
      | inr e ↦ rw e (h.0, All-prune P (before ++ (r ∷ [])) after h.1)
    ]

-- A piece of a free place that is off the placed rectangle.
abbrev IsPiece : Rect → Rect → Rect → Type 0
IsPiece placed free r = (contains free r ≡ true) × Apart r placed

module _ (placed free : Rect) where
  left_of-IsPiece :
      ltb free.x placed.x ≡ true
      → rects_intersect free placed ≡ true
      → IsPiece placed free (left_of placed free)
  left_of-IsPiece e m = (ground arith, ground arith)

  right_of-IsPiece :
      ltb (placed.x + placed.width) (free.x + free.width) ≡ true
      → rects_intersect free placed ≡ true
      → IsPiece placed free (right_of placed free)
  right_of-IsPiece e m = (ground arith, ground arith)

  above-IsPiece :
      ltb free.y placed.y ≡ true
      → rects_intersect free placed ≡ true
      → IsPiece placed free (above placed free)
  above-IsPiece e m = (ground arith, ground arith)

  below-IsPiece :
      ltb (placed.y + placed.height) (free.y + free.height) ≡ true
      → rects_intersect free placed ≡ true
      → IsPiece placed free (below placed free)
  below-IsPiece e m = (ground arith, ground arith)

  pieces-IsPiece :
      rects_intersect free placed ≡ true → All (IsPiece placed free) (pieces placed free)
  pieces-IsPiece m =
      All-cons_if (IsPiece placed free) _ _ _ (λ e. left_of-IsPiece e m)
        (All-cons_if (IsPiece placed free) _ _ _ (λ e. right_of-IsPiece e m)
          (All-cons_if (IsPiece placed free) _ _ _ (λ e. above-IsPiece e m)
            (All-cons_if (IsPiece placed free) _ _ _ (λ e. below-IsPiece e m) tt)))

pub All-imp {ℓ κ μ} :
    {A : Type ℓ} (P : A → Type κ) (Q : A → Type μ)
    → ((a : A) → P a → Q a)
    → (xs : List A) → All P xs
    → All Q xs
All-imp P Q f [] h = tt
All-imp P Q f (x ∷ xs) h = (f x h.0, All-imp P Q f xs h.1)

module _ (w h : ℕ) (used : List Rect) (placed : Rect) where
  inner-IsFree :
      (outer r : Rect) → IsFree w h used outer → contains outer r ≡ true → IsFree w h used r
  inner-IsFree outer r f c = (
    inside-inner w h outer r c f.0,
    All-imp (Apart outer) (Apart r) (λ u a. Apart-inner outer r u c a) used f.1,
  )

  -- Free also of the rectangle that is being placed.
  abbrev IsLeft : Rect → Type 0
  IsLeft r = IsFree w h used r × Apart r placed

  split-IsLeft : (fs : List Rect) → All (IsFree w h used) fs → All IsLeft (split placed fs)
  unfolding split
  split-IsLeft [] k = tt
  split-IsLeft (f ∷ fs) k = elim (Bool-cases (rects_intersect f placed)) [
    | inl e ↦ rw e (
        All-append IsLeft (pieces placed f) (split placed fs)
          (All-imp (IsPiece placed f) IsLeft (λ r q. (inner-IsFree f r k.0 q.0, q.1))
            (pieces placed f) (pieces-IsPiece placed f e))
          (split-IsLeft fs k.1))
    | inr e ↦ rw e ((k.0, e), split-IsLeft fs k.1)
  ]

  IsLeft-IsFree : (r : Rect) → IsLeft r → IsFree w h (used ++ (placed ∷ [])) r
  IsLeft-IsFree r l = (l.0.0, All-append (Apart r) used (placed ∷ []) l.0.1 (l.1, tt))

AllApart-append :
    (rs : List Rect) (r : Rect) → AllApart rs → All (Apart r) rs → AllApart (rs ++ (r ∷ []))
AllApart-append [] r a h = (tt, tt)
AllApart-append (q ∷ qs) r a h =
    (All-append (Apart q) qs (r ∷ []) a.0 (Apart-sym r q h.0, tt), AllApart-append qs r a.1 h.1)

-- To place a rectangle on free ground keeps the page packed.
pub IsPacked-place :
    (r : Rect) (p : Page) → IsPacked p → IsFree p.width p.height p.used r → IsPacked (place r p)
unfolding place prune_free_rects
IsPacked-place r p k f = record {
  free_places = All-prune (IsFree p.width p.height (p.used ++ (r ∷ []))) [] _ (
      All-select (IsFree p.width p.height (p.used ++ (r ∷ []))) is_solid (split r p.free) (
        All-imp (IsLeft p.width p.height p.used r) (IsFree p.width p.height (p.used ++ (r ∷ [])))
          (IsLeft-IsFree p.width p.height p.used r) (split r p.free)
          (split-IsLeft p.width p.height p.used r p.free k.free_places)));
  used_inside =
      All-append (λ q. is_inside p.width p.height q ≡ true) p.used (r ∷ []) k.used_inside (f.0, tt);
  used_apart = AllApart-append p.used r k.used_apart f.1;
}

pub IsPacked-new_page : (w h : ℕ) → IsPacked (new_page w h)
IsPacked-new_page w h = record {
  free_places = ((ground arith, tt), tt);
  used_inside = tt;
  used_apart = tt;
}

-- A match is a free place of the size that was asked for.
abbrev pub IsMatch : ℕ → ℕ → Page → Match → Type 0
IsMatch width height p m =
    IsFree p.width p.height p.used m.rect × (m.rect.width ≡ width) × (m.rect.height ≡ height)

All-least_from {ℓ κ} :
    {A : Type ℓ} (P : A → Type κ) (lt : A → A → Bool) (best : A) (xs : List A)
    → P best
    → All P xs
    → P (least_from lt best xs)
unfolding least_from
All-least_from P lt best [] b h = b
All-least_from P lt best (a ∷ rest) b h = elim (Bool-cases (lt a best)) [
  | inl e ↦ rw e (All-least_from P lt a rest h.0 h.1)
  | inr e ↦ rw e (All-least_from P lt best rest b h.1)
]

pub least-All {ℓ κ} :
    {A : Type ℓ} (P : A → Type κ) (lt : A → A → Bool) (xs : List A) (a : A)
    → All P xs
    → least lt xs ≡ some a
    → P a
least-All P lt [] a h e = cc
least-All P lt (x ∷ xs) a h e =
    let same : least_from lt x xs ≡ a = cc in subst P same (All-least_from P lt x xs h.0 h.1)

matches-IsMatch :
    (width height : ℕ) (p : Page) (fs : List Rect)
    → All (IsFree p.width p.height p.used) fs
    → All (IsMatch width height p) (matches width height fs)
unfolding matches
matches-IsMatch width height p [] k = tt
matches-IsMatch width height p (f ∷ fs) k =
    All-cons_if (IsMatch width height p) _ _ _
      (λ e. (
        inner-IsFree p.width p.height p.used f f (match_in width height f).rect k.0 (ground arith),
        refl,
        refl,
      ))
      (matches-IsMatch width height p fs k.1)

-- What `find` returns is free ground of the size that was asked for.
pub find-IsMatch :
    (width height : ℕ) (p : Page) (m : Match)
    → IsPacked p
    → find width height p ≡ some m
    → IsMatch width height p m
unfolding find
find-IsMatch width height p m k e =
    least-All (IsMatch width height p) score_lt (matches width height p.free) m
      (matches-IsMatch width height p p.free k.free_places) e

-- A new page has room for what is no larger than itself.
pub find-new_page :
    (width height w h : ℕ)
    → leb width w ≡ true
    → leb height h ≡ true
    → (m : Match) × (find width height (new_page w h) ≡ some m)
unfolding find matches least_from
find-new_page width height w h a b =
    (match_in width height (record { x = 0; y = 0; width = w; height = h }), rw (a, b))
