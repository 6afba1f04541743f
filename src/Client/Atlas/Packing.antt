-- ===== src/Client/Atlas/Packing.antt =====
-- `_pack_maxrects_in_bounds` and what it packs
-- (RotoWeaveClient/backend/app/domain_character_exporter.py). Of a sprite its identifier and size are
-- kept; `placements` is the dictionary as a list of its entries in the order of insertion.
use Prim.Native.Nat.{Ordering}
use Prim.Native.String.{compare}
use rotoweave.Base.{
  ℕ, zero, suc, ◌+◌, ◌-◌, ◌*◌, max, String, Bool, true, false, not, ◌&&◌, ◌||◌, Option, none, some,
  List, [], ◌∷◌, ◌++◌, map, ltb, if◌then◌else◌, str_eq, any_where, length,
}
use rotoweave.Base.Order.{sort_by}
use rotoweave.Client.Atlas.Rects.{
  Rect, Page, new_page, place, tuple_lt, least_from, least, Match, find,
}

pub record Sprite : Type 0 where
  pub id : String
  pub width : ℕ
  pub height : ℕ

pub record Placement : Type 0 where
  pub page : ℕ
  pub x : ℕ
  pub y : ℕ

-- What a packing returns, or what it raises: a WorkspaceFormatError for a sprite or for the whole,
-- a ValueError of `max`, or an AssertionError.
pub data Packed (A : Type 0) : Type 0 where
  packed : A → Packed A
  too_large : String → Packed A
  no_layout : Packed A
  empty_maximum : Packed A
  assertion_failed : Packed A

pub record Layout : Type 0 where
  pub pages : List Page
  pub placements : List (String × Placement)

abbrev pub slot_width : ℕ → ℕ → Sprite → ℕ
slot_width padding extrude s = s.width + extrude * 2 + padding

abbrev pub slot_height : ℕ → ℕ → Sprite → ℕ
slot_height padding extrude s = s.height + extrude * 2 + padding

-- The numbers of the sort key, each of them negated in the source.
abbrev pub size_key : ℕ → ℕ → Sprite → List ℕ
size_key padding extrude s =
    (slot_width padding extrude s * slot_height padding extrude s)
    ∷ max s.width s.height
    ∷ s.height
    ∷ s.width
    ∷ []

abbrev pub text_lt : String → String → Bool
text_lt a b = elim (compare a b) [ Ordering.lt ↦ true | _ ↦ false ]

-- The sort key of `a` is less than that of `b`.
unfoldable pub key_lt : ℕ → ℕ → Sprite → Sprite → Bool
unfolding tuple_lt
key_lt padding extrude a b =
    let larger = tuple_lt (size_key padding extrude b) (size_key padding extrude a) in
    let smaller = tuple_lt (size_key padding extrude a) (size_key padding extrude b) in
    larger || (not smaller && text_lt a.id b.id)

unfoldable pub ordered : ℕ → ℕ → List Sprite → List Sprite
unfolding key_lt
ordered padding extrude sprites = sort_by (λ a b. not (key_lt padding extrude b a)) sprites

-- enumerate(…, first)
abbrev pub numbered {ℓ} : {A : Type ℓ} → ℕ → List A → List (ℕ × A)
numbered first [] = []
numbered first (a ∷ rest) = (first, a) ∷ numbered (suc first) rest

pub record PageMatch : Type 0 where
  pub key : List ℕ
  pub page : ℕ
  pub rect : Rect

abbrev pub page_lt : PageMatch → PageMatch → Bool
page_lt m n = tuple_lt m.key n.key

abbrev pub with_match : ℕ → Option Match → List PageMatch → List PageMatch
with_match index none rest = rest
with_match index (some m) rest =
    record { key = m.score ++ (index ∷ []); page = index; rect = m.rect } ∷ rest

abbrev pub page_matches : ℕ → ℕ → List (ℕ × Page) → List PageMatch
page_matches width height [] = []
page_matches width height ((index, page) ∷ rest) =
    with_match index (find width height page) (page_matches width height rest)

-- `pages[index].place(slot)`
abbrev pub place_at : ℕ → Rect → List Page → List Page
place_at index slot [] = []
place_at zero slot (p ∷ ps) = place slot p ∷ ps
place_at (suc index) slot (p ∷ ps) = p ∷ place_at index slot ps

-- `placements[key] = value`
abbrev pub replaced : String → Placement → List (String × Placement) → List (String × Placement)
replaced key value [] = []
replaced key value ((k, v) ∷ rest) =
    (k, if str_eq k key then value else v) ∷ replaced key value rest

abbrev pub has_key : String → List (String × Placement) → Bool
has_key key entries = any_where (λ (e : String × Placement). str_eq e.0 key) entries

unfoldable pub set_entry :
    String → Placement → List (String × Placement) → List (String × Placement)
set_entry key value entries =
    if has_key key entries then replaced key value entries else entries ++ ((key, value) ∷ [])

abbrev pub put : ℕ → String → ℕ → Rect → List Page → List (String × Placement) → Layout
put extrude id index slot pages placements = record {
  pages = place_at index slot pages;
  placements =
      set_entry id (record { page = index; x = slot.x + extrude; y = slot.y + extrude }) placements;
}

-- The first place of a page that is opened for the sprite.
abbrev pub put_first :
    ℕ → String → Option Match → List Page → ℕ → List (String × Placement) → Packed Layout
put_first extrude id none pages index placements = assertion_failed
put_first extrude id (some m) pages index placements =
    packed (put extrude id index m.rect pages placements)

abbrev pub open_page : ℕ → ℕ → ℕ → ℕ → Sprite → Layout → Packed Layout
open_page width height padding extrude s l =
    let w = slot_width padding extrude s in
    let h = slot_height padding extrude s in
    if ltb width w || ltb height h
    then too_large s.id
    else put_first extrude s.id (find w h (new_page width height))
        (l.pages ++ (new_page width height ∷ [])) (length l.pages) l.placements

abbrev pub put_matched : ℕ → ℕ → ℕ → ℕ → Sprite → Option PageMatch → Layout → Packed Layout
put_matched width height padding extrude s none l = open_page width height padding extrude s l
put_matched width height padding extrude s (some m) l =
    packed (put extrude s.id m.page m.rect l.pages l.placements)

-- One round of the loop.
unfoldable pub pack_one : ℕ → ℕ → ℕ → ℕ → Sprite → Layout → Packed Layout
unfolding set_entry tuple_lt least_from
pack_one width height padding extrude s l =
    put_matched width height padding extrude s
      (least page_lt (
        page_matches (slot_width padding extrude s) (slot_height padding extrude s)
          (numbered 0 l.pages)))
      l

abbrev pub and_then : {A B : Type 0} → Packed A → (A → Packed B) → Packed B
and_then (packed a) f = f a
and_then (too_large i) f = too_large i
and_then no_layout f = no_layout
and_then empty_maximum f = empty_maximum
and_then assertion_failed f = assertion_failed

unfoldable pub pack_each : ℕ → ℕ → ℕ → ℕ → List Sprite → Layout → Packed Layout
unfolding pack_one
pack_each width height padding extrude [] l = packed l
pack_each width height padding extrude (s ∷ rest) l =
    and_then (pack_one width height padding extrude s l)
      (λ l'. pack_each width height padding extrude rest l')

abbrev pub largest : List ℕ → ℕ
largest [] = 0
largest (n ∷ ns) = max n (largest ns)

-- The size that a page needs, less the padding on its far sides.
abbrev pub page_size : ℕ → Page → ℕ × ℕ
page_size padding p = (
  max 1 (largest (map (λ (r : Rect). r.x + r.width) p.used) - padding),
  max 1 (largest (map (λ (r : Rect). r.y + r.height) p.used) - padding),
)

pub record Plan : Type 0 where
  pub placements : List (String × Placement)
  pub page_sizes : List (ℕ × ℕ)

abbrev pub plan_of : ℕ → Layout → Plan
plan_of padding l = record {
  placements = l.placements;
  page_sizes = map (page_size padding) l.pages;
}

-- The loop of `_pack_maxrects_in_bounds`.
unfoldable pub lay_out : List Sprite → ℕ → ℕ → ℕ → ℕ → Packed Layout
unfolding ordered pack_each
lay_out sprites width height padding extrude =
    pack_each width height padding extrude (ordered padding extrude sprites)
      (record { pages = []; placements = [] })

unfoldable pub pack_maxrects_in_bounds : List Sprite → ℕ → ℕ → ℕ → ℕ → Packed Plan
unfolding lay_out
pack_maxrects_in_bounds sprites width height padding extrude =
    and_then (lay_out sprites width height padding extrude) (λ l. packed (plan_of padding l))
