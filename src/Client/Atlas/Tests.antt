-- ===== src/Client/Atlas/Tests.antt =====
-- Tests of the packing, and its theorems at concrete inputs.
use rotoweave.Base.{ℕ, ◌≡◌, refl, List, [], ◌∷◌}
use rotoweave.Base.Order.{sort_by, insert_by}
use rotoweave.Client.Atlas.Rects.{
  split, prune_after, prune_free_rects, place, tuple_lt, least_from, matches, find,
}
use rotoweave.Client.Atlas.Packing.{
  Sprite, Placement, packed, too_large, Layout, set_entry, key_lt, ordered, pack_one, pack_each,
  Plan, lay_out, pack_maxrects_in_bounds,
}
use rotoweave.Client.Atlas.Packs.{IsLaidOut, lay_out_lem}
use rotoweave.Client.Atlas.Compact.{
  Source, shelve_each, pack_shelves, number_set, candidate_bounds, candidates, plan_lt,
  pack_compact,
}
use rotoweave.Client.Atlas.Caps.{IsCompact, pack_compact_lem}

abbrev sprites : List Sprite
sprites =
    record { id = "hat"; width = 2; height = 1 }
    ∷ record { id = "body"; width = 3; height = 4 }
    ∷ []

abbrev sources : List Source
sources =
    record { id = "hat"; content_key = "h"; width = 4; height = 3 }
    ∷ record { id = "body"; content_key = "b"; width = 5; height = 6 }
    ∷ []

-- To unfold this is to unfold the code that the tests run.
program : Unit {0}
unfolding split prune_after prune_free_rects place tuple_lt least_from matches find set_entry key_lt
    ordered pack_one pack_each lay_out pack_maxrects_in_bounds shelve_each pack_shelves number_set
    candidate_bounds candidates plan_lt pack_compact sort_by insert_by
program = tt

abbrev at : ℕ → ℕ → ℕ → Placement
at page x y = record { page = page; x = x; y = y }

abbrev plan : Plan
plan = record { placements = ("body", at 0 0 0) ∷ ("hat", at 0 0 5) ∷ []; page_sizes = (3, 6) ∷ [] }

packs_one_page : pack_maxrects_in_bounds sprites 4 7 1 0 ≡ packed plan
unfolding program
packs_one_page = refl

packs_two_pages :
    pack_maxrects_in_bounds sprites 4 5 1 0
    ≡ packed (record {
      placements = ("body", at 0 0 0) ∷ ("hat", at 1 0 0) ∷ [];
      page_sizes = (3, 4) ∷ (2, 1) ∷ [];
    })
unfolding program
packs_two_pages = refl

refuses : pack_maxrects_in_bounds sprites 3 7 1 0 ≡ too_large "body"
unfolding program
refuses = refl

-- The square root that the test needs.
abbrev root : ℕ → ℕ
root n = 5

abbrev compact : Plan
compact = record {
  placements = ("body", at 0 0 0) ∷ ("hat", at 0 0 5) ∷ [];
  page_sizes = (3, 6) ∷ [];
}

packs_compactly : pack_compact root sources sprites 16 1 0 ≡ packed compact
unfolding program
packs_compactly = refl

lay_out_lem_example :
    (l : Layout) × (lay_out sprites 4 7 1 0 ≡ packed l)
    × IsLaidOut 1 0 4 7 (ordered 1 0 sprites) l.placements
lay_out_lem_example =
    lay_out_lem 1 0 4 7 sprites ((refl, tt), (tt, tt)) ((refl, refl), ((refl, refl), tt))

pack_compact_lem_example : IsCompact root 16 1 0 sources sprites compact
pack_compact_lem_example =
    pack_compact_lem root 16 1 0 sources sprites compact ((refl, tt), (tt, tt)) packs_compactly
