-- ===== src/Client/Atlas/Rects.antt =====
-- The rectangles of a page and `_MaxRectsPage`
-- (RotoWeaveClient/backend/app/domain_character_exporter.py). Coordinates are natural numbers; each
-- subtraction of the source stands under the test that makes it one of natural numbers.
use rotoweave.Base.{
  ℕ, ◌+◌, ◌-◌, min, max, Bool, true, false, not, ◌&&◌, ◌||◌, Option, none, some, List, [], ◌∷◌,
  ◌++◌, ltb, leb, ◌==◌, if◌then◌else◌, select_where, any_where,
}

pub record Rect : Type 0 where
  pub x : ℕ
  pub y : ℕ
  pub width : ℕ
  pub height : ℕ

pub record Page : Type 0 where
  pub width : ℕ
  pub height : ℕ
  pub free : List Rect
  pub used : List Rect

-- `_MaxRectsPage(width, height)`
abbrev pub new_page : ℕ → ℕ → Page
new_page w h = record {
  width = w;
  height = h;
  free = record { x = 0; y = 0; width = w; height = h } ∷ [];
  used = [];
}

abbrev pub rects_intersect : Rect → Rect → Bool
rects_intersect a b = not (
    leb (a.x + a.width) b.x
    || leb (b.x + b.width) a.x
    || leb (a.y + a.height) b.y
    || leb (b.y + b.height) a.y)

abbrev pub contains : Rect → Rect → Bool
contains outer inner =
    leb outer.x inner.x
    && leb outer.y inner.y
    && leb (inner.x + inner.width) (outer.x + outer.width)
    && leb (inner.y + inner.height) (outer.y + outer.height)

abbrev pub cons_if {ℓ} : {A : Type ℓ} → Bool → A → List A → List A
cons_if true a rest = a ∷ rest
cons_if false a rest = rest

-- What is left of a free rectangle on each side of `placed`.
abbrev pub left_of : Rect → Rect → Rect
left_of placed free = record free { width = placed.x - free.x }

abbrev pub right_of : Rect → Rect → Rect
right_of placed free = record free {
  x = placed.x + placed.width;
  width = free.x + free.width - placed.x - placed.width;
}

abbrev pub above : Rect → Rect → Rect
above placed free = record free { height = placed.y - free.y }

abbrev pub below : Rect → Rect → Rect
below placed free = record free {
  y = placed.y + placed.height;
  height = free.y + free.height - placed.y - placed.height;
}

abbrev pub pieces : Rect → Rect → List Rect
pieces placed free = cons_if (ltb free.x placed.x) (left_of placed free) (
    cons_if (ltb (placed.x + placed.width) (free.x + free.width)) (right_of placed free) (
      cons_if (ltb free.y placed.y) (above placed free)
        (cons_if (ltb (placed.y + placed.height) (free.y + free.height)) (below placed free) [])))

-- The loop of `place`.
unfoldable pub split : Rect → List Rect → List Rect
split placed [] = []
split placed (free ∷ rest) =
    (if rects_intersect free placed then pieces placed free else free ∷ []) ++ split placed rest

abbrev pub is_solid : Rect → Bool
is_solid r = ltb 0 r.width && ltb 0 r.height

-- The rectangles that no other of the list contains, where `before` stands in front.
unfoldable pub prune_after : List Rect → List Rect → List Rect
prune_after before [] = []
prune_after before (r ∷ after) =
    let rest = prune_after (before ++ (r ∷ [])) after in
    if any_where (λ o. contains o r) (before ++ after) then rest else r ∷ rest

unfoldable pub prune_free_rects : List Rect → List Rect
unfolding prune_after
prune_free_rects rects = prune_after [] (select_where is_solid rects)

-- `place`
unfoldable pub place : Rect → Page → Page
unfolding split prune_free_rects
place placed p = record p {
  free = prune_free_rects (split placed p.free);
  used = p.used ++ (placed ∷ []);
}

-- Python's order of tuples.
unfoldable pub tuple_lt : List ℕ → List ℕ → Bool
tuple_lt [] ys = false
tuple_lt (x ∷ xs) [] = false
tuple_lt (x ∷ xs) (y ∷ ys) = let rest = tuple_lt xs ys in ltb x y || (x == y && rest)

-- `min(…, key=…)`: the first of the least, where `lt` compares the keys.
unfoldable pub least_from {ℓ} : {A : Type ℓ} → (A → A → Bool) → A → List A → A
least_from lt best [] = best
least_from lt best (a ∷ rest) = least_from lt (if lt a best then a else best) rest

abbrev pub least {ℓ} : {A : Type ℓ} → (A → A → Bool) → List A → Option A
least lt [] = none
least lt (a ∷ rest) = some (least_from lt a rest)

pub record Match : Type 0 where
  pub score : List ℕ
  pub rect : Rect

abbrev pub match_in : ℕ → ℕ → Rect → Match
match_in width height free = record {
  score =
      min (free.width - width) (free.height - height)
      ∷ max (free.width - width) (free.height - height)
      ∷ free.y
      ∷ free.x
      ∷ [];
  rect = record { x = free.x; y = free.y; width = width; height = height };
}

abbrev pub fits : ℕ → ℕ → Rect → Bool
fits width height free = leb width free.width && leb height free.height

unfoldable pub matches : ℕ → ℕ → List Rect → List Match
matches width height [] = []
matches width height (free ∷ rest) =
    cons_if (fits width height free) (match_in width height free) (matches width height rest)

abbrev pub score_lt : Match → Match → Bool
score_lt m n = tuple_lt m.score n.score

-- `find`
unfoldable pub find : ℕ → ℕ → Page → Option Match
unfolding matches least_from tuple_lt
find width height p = least score_lt (matches width height p.free)
