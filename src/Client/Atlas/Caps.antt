-- ===== src/Client/Atlas/Caps.antt =====
-- The plan that `_pack_compact` returns is no larger than the shelves and no page exceeds the limit.
use rotoweave.Base.{
  ℕ, ◌+◌, ◌-◌, ◌≤◌, max, Bool, true, ◌≡◌, refl, subst, not, ◌&&◌, Option, none, some, List, [], ◌∷◌,
  map, inl, inr, Bool-cases, leb, All, arith, select_where, length,
}
use rotoweave.Base.Order.{sort_by}
use rotoweave.Base.Order.Laws.{AllPairs, All-sort_by}
use rotoweave.Client.Atlas.Rects.{Rect, Page, tuple_lt, least}
use rotoweave.Client.Atlas.Free.{least-All, All-append, All-imp}
use rotoweave.Client.Atlas.Packing.{
  Sprite, Packed, packed, too_large, no_layout, empty_maximum, assertion_failed, and_then,
  slot_width, slot_height, largest, page_size, Plan, plan_of, ordered, pack_maxrects_in_bounds,
}
use rotoweave.Client.Atlas.Slots.{IsPage}
use rotoweave.Client.Atlas.Packs.{HasRoom, Differ, IsLaidOut, Fits-IsLaidOut, lay_out-Fits}
use rotoweave.Client.Atlas.Compact.{
  Source, pack_shelves, pairs_of, bound_key, sides, largest_slot, values, candidate_bounds, area,
  is_candidate, keep_candidate, candidates, plan_lt, chosen, oversize, pack_fitting, pack_checked,
  pack_compact, stable_sources,
}

packed-and_then :
    {A B : Type 0} (o : Packed A) (f : A → Packed B) (b : B)
    → and_then o f ≡ packed b
    → (a : A) × (o ≡ packed a) × (f a ≡ packed b)
packed-and_then (packed a) f b e = (a, refl, e)
packed-and_then (too_large i) f b e = cc
packed-and_then no_layout f b e = cc
packed-and_then empty_maximum f b e = cc
packed-and_then assertion_failed f b e = cc

All-map :
    {A B : Type 0} (P : B → Type 0) (f : A → B) (xs : List A)
    → All (λ a. P (f a)) xs
    → All P (map f xs)
All-map P f [] h = tt
All-map P f (x ∷ xs) h = (h.0, All-map P f xs h.1)

All-selected : (p : ℕ → Bool) (xs : List ℕ) → All (λ v. p v ≡ true) (select_where p xs)
All-selected p [] = tt
All-selected p (x ∷ xs) = elim (Bool-cases (p x)) [
  | inl e ↦ rw e (e, All-selected p xs)
  | inr e ↦ rw e (All-selected p xs)
]

abbrev IsSide : ℕ → ℕ → ℕ → Type 0
IsSide low high v = (leb low v && leb v high) ≡ true

sides-IsSide : (low high : ℕ) (vs : List ℕ) → All (IsSide low high) (sides low high vs)
sides-IsSide low high vs =
    All-sort_by leb (IsSide low high) _ (All-selected (λ v. leb low v && leb v high) vs)

All-pairs_of :
    (P Q : ℕ → Type 0) (ws hs : List ℕ)
    → All P ws
    → All Q hs
    → All (λ (b : ℕ × ℕ). P b.0 × Q b.1) (pairs_of ws hs)
All-pairs_of P Q [] hs p q = tt
All-pairs_of P Q (w ∷ ws) hs p q =
    All-append (λ (b : ℕ × ℕ). P b.0 × Q b.1) (map (λ (h : ℕ). (w, h)) hs) (pairs_of ws hs)
      (All-map (λ (b : ℕ × ℕ). P b.0 × Q b.1) (λ (h : ℕ). (w, h)) hs
        (All-imp Q (λ h. P w × Q h) (λ h k. (p.0, k)) hs q))
      (All-pairs_of P Q ws hs p.1 q)

largest_slot-All :
    (padding : ℕ) (size : Sprite → ℕ) (ss : List Sprite)
    → All (λ s. size s - padding ≤ largest_slot padding size ss) ss
largest_slot-All padding size [] = tt
largest_slot-All padding size (s ∷ ss) = (
  omega arith,
  All-imp (λ s. size s - padding ≤ largest_slot padding size ss) _ (λ t h. omega (arith, h)) ss
      (largest_slot-All padding size ss),
)

All-both :
    {A : Type 0} (P Q : A → Type 0) (xs : List A) → All P xs → All Q xs → All (λ a. P a × Q a) xs
All-both P Q [] p q = tt
All-both P Q (x ∷ xs) p q = ((p.0, q.0), All-both P Q xs p.1 q.1)

-- A bound that the packing may use: within the limit, and with room for each sprite.
abbrev IsBound : ℕ → ℕ → ℕ → List Sprite → ℕ × ℕ → Type 0
IsBound max_size padding extrude sprites b =
    (b.0 ≤ max_size + padding)
    × (b.1 ≤ max_size + padding)
    × All (HasRoom padding extrude b.0 b.1) sprites

candidate-IsBound :
    (max_size padding extrude : ℕ) (sprites : List Sprite) (b : ℕ × ℕ)
    → IsSide (largest_slot padding (slot_width padding extrude) sprites) max_size b.0
      × IsSide (largest_slot padding (slot_height padding extrude) sprites) max_size b.1
    → IsBound max_size padding extrude sprites (b.0 + padding, b.1 + padding)
candidate-IsBound max_size padding extrude sprites (w, h) i =
    let fits_w : w ≤ max_size = ground (arith, i.0) in
    let fits_h : h ≤ max_size = ground (arith, i.1) in
    (
      omega (arith, fits_w),
      omega (arith, fits_h),
      All-imp
          (λ s.
            (slot_width padding extrude s - padding
              ≤ largest_slot padding (slot_width padding extrude) sprites)
            × (slot_height padding extrude s - padding
                ≤ largest_slot padding (slot_height padding extrude) sprites))
          (HasRoom padding extrude (w + padding) (h + padding))
          (λ s q. (ground (arith, q.0, i.0), ground (arith, q.1, i.1))) sprites
          (All-both _ _ sprites (largest_slot-All padding (slot_width padding extrude) sprites)
            (largest_slot-All padding (slot_height padding extrude) sprites)),
    )

module _ (ceil_sqrt : ℕ → ℕ) (max_size padding extrude : ℕ) where
  candidate_bounds-IsBound :
      (sprites : List Sprite) (bs : List (ℕ × ℕ))
      → candidate_bounds ceil_sqrt sprites max_size padding extrude ≡ packed bs
      → All (IsBound max_size padding extrude sprites) bs
  unfolding candidate_bounds
  candidate_bounds-IsBound [] bs e = cc
  candidate_bounds-IsBound (s ∷ ss) bs e =
      let vs = values ceil_sqrt max_size padding extrude (s ∷ ss) in
      let low_w = largest_slot padding (slot_width padding extrude) (s ∷ ss) in
      let low_h = largest_slot padding (slot_height padding extrude) (s ∷ ss) in
      let le = λ (a b : ℕ × ℕ). not (tuple_lt (bound_key b) (bound_key a)) in
      let pairs = pairs_of (sides low_w max_size vs) (sides low_h max_size vs) in
      let found : All (λ (b : ℕ × ℕ). IsSide low_w max_size b.0 × IsSide low_h max_size b.1)
          (sort_by le pairs) =
        All-sort_by le _ pairs (
          All-pairs_of (IsSide low_w max_size) (IsSide low_h max_size) _ _
            (sides-IsSide low_w max_size vs) (sides-IsSide low_h max_size vs)) in
      let whole : map (λ (b : ℕ × ℕ). (b.0 + padding, b.1 + padding)) (sort_by le pairs) ≡ bs =
        cc in
      subst (λ xs. All (IsBound max_size padding extrude (s ∷ ss)) xs) whole
        (All-map (IsBound max_size padding extrude (s ∷ ss)) _ (sort_by le pairs) (
          All-imp _ _ (λ b q. candidate-IsBound max_size padding extrude (s ∷ ss) b q)
            (sort_by le pairs) found))

  -- What holds of each plan that is collected: it was laid out on pages within the limit.
  abbrev pub IsWithin : List Sprite → Plan → Type 0
  IsWithin sprites plan =
      All (λ (s : ℕ × ℕ). (s.0 ≤ max 1 max_size) × (s.1 ≤ max 1 max_size)) plan.page_sizes
      × ((w : ℕ) × (h : ℕ) × IsLaidOut padding extrude w h (ordered padding extrude sprites)
            plan.placements)

  largest_bound :
      (f : Rect → ℕ) (n : ℕ) (rs : List Rect) → All (λ r. f r ≤ n) rs → largest (map f rs) ≤ n
  largest_bound f n [] h = omega arith
  largest_bound f n (r ∷ rs) h = omega (arith, h.0, largest_bound f n rs h.1)

  page_size-bound :
      (w h : ℕ) (p : Page)
      → w ≤ max_size + padding
      → h ≤ max_size + padding
      → IsPage w h p
      → ((page_size padding p).0 ≤ max 1 max_size) × ((page_size padding p).1 ≤ max 1 max_size)
  page_size-bound w h p fits_w fits_h q =
      let right : largest (map (λ (r : Rect). r.x + r.width) p.used) ≤ p.width =
        largest_bound (λ r. r.x + r.width) p.width p.used
          (All-imp _ _ (λ r i. ground (arith, i)) p.used q.0.used_inside) in
      let bottom : largest (map (λ (r : Rect). r.y + r.height) p.used) ≤ p.height =
        largest_bound (λ r. r.y + r.height) p.height p.used
          (All-imp _ _ (λ r i. ground (arith, i)) p.used q.0.used_inside) in
      (omega (arith, right, q.1), omega (arith, bottom, q.2))

  page_sizes-bound :
      (w h : ℕ) (ps : List Page)
      → w ≤ max_size + padding
      → h ≤ max_size + padding
      → All (IsPage w h) ps
      → All
          (λ (s : ℕ × ℕ). (s.0 ≤ max 1 max_size) × (s.1 ≤ max 1 max_size))
          (map (page_size padding) ps)
  page_sizes-bound w h [] a b q = tt
  page_sizes-bound w h (p ∷ ps) a b q =
      (page_size-bound w h p a b q.0, page_sizes-bound w h ps a b q.1)

  pack-IsWithin :
      (sprites : List Sprite) (w h : ℕ) (plan : Plan)
      → AllPairs Differ sprites
      → IsBound max_size padding extrude sprites (w, h)
      → pack_maxrects_in_bounds sprites w h padding extrude ≡ packed plan
      → IsWithin sprites plan
  unfolding pack_maxrects_in_bounds
  pack-IsWithin sprites w h plan differ bound e =
      let (l, done, f) = lay_out-Fits padding extrude w h sprites differ bound.2 in
      let whole : packed (plan_of padding l) ≡ packed plan = rw done at e in
      let same : plan_of padding l ≡ plan = cc in
      subst (IsWithin sprites) same (
        page_sizes-bound w h l.pages bound.0 bound.1 f.sound,
        (w, h, Fits-IsLaidOut padding extrude w h (ordered padding extrude sprites) l f),
      )

  candidates-IsWithin :
      (base : Plan) (sprites : List Sprite) (bs : List (ℕ × ℕ)) (plans : List Plan)
      → AllPairs Differ sprites
      → All (IsBound max_size padding extrude sprites) bs
      → candidates base sprites padding extrude bs ≡ packed plans
      → All (λ p. (is_candidate base p ≡ true) × IsWithin sprites p) plans
  unfolding candidates
  candidates-IsWithin base sprites [] plans differ bounds e =
      let same : [] ≡ plans = cc in
      subst (All (λ p. (is_candidate base p ≡ true) × IsWithin sprites p)) same tt
  candidates-IsWithin base sprites ((w, h) ∷ bs) plans differ bounds e =
      let (plan, e1, e2) = packed-and_then _ _ plans e in
      let (rest, e3, e4) = packed-and_then _ _ plans e2 in
      let later = candidates-IsWithin base sprites bs rest differ bounds.1 e3 in
      let now = pack-IsWithin sprites w h plan differ bounds.0 e1 in
      let same : keep_candidate base plan rest ≡ plans = cc in
      subst (All (λ p. (is_candidate base p ≡ true) × IsWithin sprites p)) same
        (elim (Bool-cases (is_candidate base plan)) [
          | inl q ↦ rw q ((q, now), later)
          | inr q ↦ rw q later
        ])

  chosen-least :
      (P : Plan → Type 0) (lt : Plan → Plan → Bool) (plans : List Plan) (plan : Plan)
      → All P plans
      → chosen (least lt plans) ≡ packed plan
      → P plan
  chosen-least P lt [] plan h e = cc
  chosen-least P lt (p ∷ ps) plan h e =
      let same : least lt (p ∷ ps) ≡ some plan = cc in least-All P lt (p ∷ ps) plan h same

  -- The plan keeps to the shelves' number of pages and area, and to the limit.
  abbrev pub IsCompact : List Source → List Sprite → Plan → Type 0
  IsCompact sources sprites plan =
      (base : Plan) × (pack_shelves (stable_sources sources) max_size padding ≡ packed base)
      × (length plan.page_sizes ≤ length base.page_sizes)
      × (area plan.page_sizes ≤ area base.page_sizes)
      × IsWithin sprites plan

  pack_fitting-IsCompact :
      (sources : List Source) (sprites : List Sprite) (plan : Plan)
      → AllPairs Differ sprites
      → pack_fitting ceil_sqrt sources sprites max_size padding extrude ≡ packed plan
      → IsCompact sources sprites plan
  pack_fitting-IsCompact sources sprites plan differ e =
      let (base, e1, e2) = packed-and_then _ _ plan e in
      let (bs, e3, e4) = packed-and_then _ _ plan e2 in
      let (plans, e5, e6) = packed-and_then _ _ plan e4 in
      let all =
        candidates-IsWithin base sprites bs plans differ (candidate_bounds-IsBound sprites bs e3)
          e5 in
      let (small, within) = chosen-least _ (plan_lt sprites) plans plan all e6 in
      (base, e1, ground (arith, small), ground (arith, small), within)

  -- Where the sprites have different identifiers, a plan that `_pack_compact` returns has no more pages
  -- and no larger area than the packing of the sources on shelves, no page larger than the limit (or one
  -- pixel), a placement for each sprite, and on each page no two slots that overlap.
  pub pack_compact_lem :
      (sources : List Source) (sprites : List Sprite) (plan : Plan)
      → AllPairs Differ sprites
      → pack_compact ceil_sqrt sources sprites max_size padding extrude ≡ packed plan
      → IsCompact sources sprites plan
  unfolding pack_compact
  pack_compact_lem sources sprites plan differ e = go (oversize max_size extrude sprites) e
    where
      go :
          (o : Option Sprite)
          → pack_checked ceil_sqrt o sources sprites max_size padding extrude ≡ packed plan
          → IsCompact sources sprites plan
      go none e = pack_fitting-IsCompact sources sprites plan differ e
      go (some s) e = cc
