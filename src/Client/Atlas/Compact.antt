-- ===== src/Client/Atlas/Compact.antt =====
-- `_pack_shelves`, `_candidate_bounds` and `_pack_compact`
-- (RotoWeaveClient/backend/app/domain_character_exporter.py). `ceil_sqrt` stands for
-- `math.ceil(math.sqrt(…))`; the aspect of a page is a fraction, compared crosswise, where the source
-- divides floats.
use rotoweave.Base.{
  ℕ, ◌+◌, ◌-◌, ◌*◌, min, max, String, Bool, not, ◌&&◌, ◌||◌, Option, none, some, List, [], ◌∷◌,
  ◌++◌, map, leb, ltb, ◌==◌, if◌then◌else◌, str_eq, any_where, length, select_where, find_where,
}
use rotoweave.Base.Order.{sort_by}
use rotoweave.Client.Atlas.Rects.{tuple_lt, least_from, least}
use rotoweave.Client.Atlas.Packing.{
  Sprite, Placement, Packed, packed, too_large, no_layout, empty_maximum, and_then, slot_width,
  slot_height, text_lt, set_entry, largest, Plan, pack_maxrects_in_bounds,
}

pub record Source : Type 0 where
  pub id : String
  pub content_key : String
  pub width : ℕ
  pub height : ℕ

-- The variables of the loop of `_pack_shelves`.
pub record Shelf : Type 0 where
  pub placements : List (String × Placement)
  pub page_sizes : List (ℕ × ℕ)
  pub page : ℕ
  pub x : ℕ
  pub y : ℕ
  pub row_height : ℕ
  pub used_width : ℕ
  pub used_height : ℕ

abbrev pub next_row : ℕ → ℕ → Source → Shelf → Shelf
next_row max_size padding s v =
    if ltb max_size (v.x + s.width + padding)
    then record v { x = padding; y = v.y + (v.row_height + padding); row_height = 0 }
    else v

abbrev pub next_page : ℕ → ℕ → Source → Shelf → Shelf
next_page max_size padding s v =
    if ltb max_size (v.y + s.height + padding)
    then record v {
      page_sizes = v.page_sizes ++ ((v.used_width, v.used_height) ∷ []);
      page = v.page + 1;
      x = padding;
      y = padding;
      row_height = 0;
      used_width = 1;
      used_height = 1;
    }
    else v

abbrev pub shelve : ℕ → Source → Shelf → Shelf
shelve padding s v = record v {
  placements = set_entry s.id (record { page = v.page; x = v.x; y = v.y }) v.placements;
  x = v.x + (s.width + padding);
  row_height = max v.row_height s.height;
  used_width = max v.used_width (v.x + (s.width + padding));
  used_height = max v.used_height (v.y + max v.row_height s.height + padding);
}

abbrev pub is_oversize : ℕ → ℕ → Source → Bool
is_oversize max_size padding s =
    ltb max_size (s.width + padding * 2) || ltb max_size (s.height + padding * 2)

unfoldable pub shelve_each : ℕ → ℕ → List Source → Shelf → Packed Shelf
unfolding set_entry
shelve_each max_size padding [] v = packed v
shelve_each max_size padding (s ∷ rest) v =
    if is_oversize max_size padding s
    then too_large s.id
    else shelve_each max_size padding rest
        (shelve padding s (next_page max_size padding s (next_row max_size padding s v)))

abbrev pub first_shelf : ℕ → Shelf
first_shelf padding = record {
  placements = [];
  page_sizes = [];
  page = 0;
  x = padding;
  y = padding;
  row_height = 0;
  used_width = 1;
  used_height = 1;
}

-- `_pack_shelves`
unfoldable pub pack_shelves : List Source → ℕ → ℕ → Packed Plan
unfolding shelve_each
pack_shelves sources max_size padding =
    and_then (shelve_each max_size padding sources (first_shelf padding)) (λ v. packed (record {
      placements = v.placements;
      page_sizes = v.page_sizes ++ ((v.used_width, v.used_height) ∷ []);
    }))

-- set(…)
unfoldable pub number_set : List ℕ → List ℕ
number_set [] = []
number_set (n ∷ ns) =
    let rest = number_set ns in if any_where (λ k. k == n) ns then rest else n ∷ rest

abbrev pub powers : List ℕ
powers = 64 ∷ 128 ∷ 256 ∷ 512 ∷ 1024 ∷ 2048 ∷ 4096 ∷ 8192 ∷ []

abbrev pub pairs_of : List ℕ → List ℕ → List (ℕ × ℕ)
pairs_of [] hs = []
pairs_of (w ∷ ws) hs = map (λ (h : ℕ). (w, h)) hs ++ pairs_of ws hs

abbrev pub bound_key : ℕ × ℕ → List ℕ
bound_key (w, h) = (w * h) ∷ (max w h - min w h) ∷ w ∷ h ∷ []

abbrev pub sides : ℕ → ℕ → List ℕ → List ℕ
sides low high values = sort_by leb (select_where (λ v. leb low v && leb v high) values)

abbrev pub sum : List ℕ → ℕ
sum [] = 0
sum (n ∷ ns) = n + sum ns

abbrev pub largest_slot : ℕ → (Sprite → ℕ) → List Sprite → ℕ
largest_slot padding size sprites = largest (map (λ (s : Sprite). size s - padding) sprites)

abbrev pub square : (ℕ → ℕ) → ℕ → ℕ → ℕ → List Sprite → ℕ
square ceil_sqrt max_size padding extrude sprites = min max_size (
    max 1 (
      ceil_sqrt (
        sum (
          map (λ (s : Sprite). slot_width padding extrude s * slot_height padding extrude s)
            sprites))))

abbrev pub values : (ℕ → ℕ) → ℕ → ℕ → ℕ → List Sprite → List ℕ
values ceil_sqrt max_size padding extrude sprites = number_set (
    largest_slot padding (slot_width padding extrude) sprites
    ∷ largest_slot padding (slot_height padding extrude) sprites
    ∷ square ceil_sqrt max_size padding extrude sprites
    ∷ max_size
    ∷ select_where (λ v. leb v max_size) powers)

-- `_candidate_bounds`; `max` raises where there is no sprite.
unfoldable pub candidate_bounds : (ℕ → ℕ) → List Sprite → ℕ → ℕ → ℕ → Packed (List (ℕ × ℕ))
unfolding number_set tuple_lt
candidate_bounds ceil_sqrt [] max_size padding extrude = empty_maximum
candidate_bounds ceil_sqrt (s ∷ ss) max_size padding extrude =
    let vs = values ceil_sqrt max_size padding extrude (s ∷ ss) in
    let widths = sides (largest_slot padding (slot_width padding extrude) (s ∷ ss)) max_size vs in
    let heights = sides (largest_slot padding (slot_height padding extrude) (s ∷ ss)) max_size vs in
    packed (
      map (λ (b : ℕ × ℕ). (b.0 + padding, b.1 + padding))
        (sort_by (λ (a b : ℕ × ℕ). not (tuple_lt (bound_key b) (bound_key a)))
          (pairs_of widths heights)))

abbrev pub area : List (ℕ × ℕ) → ℕ
area sizes = sum (map (λ (p : ℕ × ℕ). p.0 * p.1) sizes)

abbrev pub is_candidate : Plan → Plan → Bool
is_candidate base plan =
    leb (length plan.page_sizes) (length base.page_sizes)
    && leb (area plan.page_sizes) (area base.page_sizes)

abbrev pub keep_candidate : Plan → Plan → List Plan → List Plan
keep_candidate base plan rest = if is_candidate base plan then plan ∷ rest else rest

-- The loop that collects the candidates.
unfoldable pub candidates : Plan → List Sprite → ℕ → ℕ → List (ℕ × ℕ) → Packed (List Plan)
candidates base sprites padding extrude [] = packed []
candidates base sprites padding extrude ((w, h) ∷ rest) =
    let later = candidates base sprites padding extrude rest in
    and_then (pack_maxrects_in_bounds sprites w h padding extrude)
      (λ plan. and_then later (λ plans. packed (keep_candidate base plan plans)))

abbrev pub aspect_lt : ℕ × ℕ → ℕ × ℕ → Bool
aspect_lt (a, b) (c, d) = ltb (a * d) (c * b)

-- max(width / height, height / width)
abbrev pub aspect : ℕ × ℕ → ℕ × ℕ
aspect (w, h) = (max w h, min w h)

abbrev pub worst_aspect : List (ℕ × ℕ) → ℕ × ℕ
worst_aspect [] = (0, 1)
worst_aspect (p ∷ ps) =
    let rest = worst_aspect ps in if aspect_lt (aspect p) rest then rest else aspect p

abbrev pub flat : List (ℕ × ℕ) → List ℕ
flat [] = []
flat ((a, b) ∷ rest) = a ∷ b ∷ flat rest

-- `placements[id]`, of a sprite that has one.
abbrev pub place_key : Option (String × Placement) → List ℕ → List ℕ
place_key none rest = rest
place_key (some (i, v)) rest = v.page ∷ v.y ∷ v.x ∷ rest

abbrev pub signature_of : Plan → List Sprite → List ℕ
signature_of plan [] = []
signature_of plan (s ∷ ss) =
    place_key (find_where (λ (e : String × Placement). str_eq e.0 s.id) plan.placements)
      (signature_of plan ss)

abbrev pub packing_signature : Plan → List Sprite → List ℕ
packing_signature plan sprites =
    signature_of plan (sort_by (λ (a b : Sprite). not (text_lt b.id a.id)) sprites)

abbrev pub front_key : Plan → List ℕ
front_key p = area p.page_sizes ∷ length p.page_sizes ∷ []

abbrev pub back_key : List Sprite → Plan → List ℕ
back_key sprites p =
    largest (map (λ (s : ℕ × ℕ). max s.0 s.1) p.page_sizes)
    ∷ (flat p.page_sizes ++ packing_signature p sprites)

-- The score of `p` is less than that of `q`.
unfoldable pub plan_lt : List Sprite → Plan → Plan → Bool
unfolding tuple_lt
plan_lt sprites p q =
    tuple_lt (front_key p) (front_key q)
    || (not (tuple_lt (front_key q) (front_key p))
        && (aspect_lt (worst_aspect p.page_sizes) (worst_aspect q.page_sizes)
            || (not (aspect_lt (worst_aspect q.page_sizes) (worst_aspect p.page_sizes))
                && tuple_lt (back_key sprites p) (back_key sprites q))))

abbrev pub chosen : Option Plan → Packed Plan
chosen none = no_layout
chosen (some p) = packed p

abbrev pub oversize : ℕ → ℕ → List Sprite → Option Sprite
oversize max_size extrude sprites =
    find_where (λ s. ltb max_size (s.width + extrude * 2) || ltb max_size (s.height + extrude * 2))
      sprites

-- sorted(sources, key=lambda sprite: (sprite.content_key, sprite.id))
abbrev pub stable_sources : List Source → List Source
stable_sources sources =
    sort_by
      (λ (a b : Source). not (
        text_lt b.content_key a.content_key
        || (str_eq a.content_key b.content_key && text_lt b.id a.id)))
      sources

abbrev pub pack_fitting : (ℕ → ℕ) → List Source → List Sprite → ℕ → ℕ → ℕ → Packed Plan
pack_fitting ceil_sqrt sources sprites max_size padding extrude =
    and_then (pack_shelves (stable_sources sources) max_size padding) (λ base.
      and_then (candidate_bounds ceil_sqrt sprites max_size padding extrude) (λ bounds.
        and_then (candidates base sprites padding extrude bounds)
          (λ plans. chosen (least (plan_lt sprites) plans))))

abbrev pub pack_checked :
    (ℕ → ℕ) → Option Sprite → List Source → List Sprite → ℕ → ℕ → ℕ → Packed Plan
pack_checked ceil_sqrt (some s) sources sprites max_size padding extrude = too_large s.id
pack_checked ceil_sqrt none sources sprites max_size padding extrude =
    pack_fitting ceil_sqrt sources sprites max_size padding extrude

-- `_pack_compact`
unfoldable pub pack_compact : (ℕ → ℕ) → List Source → List Sprite → ℕ → ℕ → ℕ → Packed Plan
unfolding pack_shelves candidate_bounds candidates plan_lt least_from
pack_compact ceil_sqrt sources sprites max_size padding extrude =
    pack_checked ceil_sqrt (oversize max_size extrude sprites) sources sprites max_size padding
      extrude
