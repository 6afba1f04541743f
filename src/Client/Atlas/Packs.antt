-- ===== src/Client/Atlas/Packs.antt =====
-- Every packing of sprites that fit a page succeeds, and lays the sprites out apart.
use mathlib.Core.List.{append-nil, append_assoc}
use rotoweave.Base.{
  ℕ, zero, suc, ◌-◌, ◌≤◌, String, true, false, ◌≡◌, refl, ◌∙◌, subst, not, Option, none, some, List,
  [], ◌∷◌, ◌++◌, ltb, leb, All, arith, any_where, length, str_eq, eq_iff,
}
use rotoweave.Client.Atlas.Rects.{Page, new_page, Match, find}
use rotoweave.Client.Atlas.Free.{
  is_inside, AllApart, IsFree, IsPacked, IsPacked-new_page, find-IsMatch, find-new_page, least-All,
  All-append, All-imp,
}
use rotoweave.Client.Atlas.Packing.{
  Sprite, Placement, Packed, packed, Layout, slot_width, slot_height, numbered, PageMatch,
  with_match, page_matches, put, open_page, put_matched, pack_one, pack_each,
}
use rotoweave.Client.Atlas.Packing.{page_lt, ordered, lay_out, key_lt}
use rotoweave.Base.Order.{sort_by}
use rotoweave.Base.Order.Laws.{AllPairs, AllPairs-sort_by, All-sort_by}
use rotoweave.Client.Atlas.Slots.{
  page_at, used_at, slots_on, IsPage, keys, ids, Fits, put-Fits, numbered-page_at, used_at-new,
  page_at-new, page_at-All,
}

-- The identifiers differ.
abbrev pub Differ : Sprite → Sprite → Type 0
Differ a b = str_eq a.id b.id ≡ false

Differ-sym : (a b : Sprite) → Differ a b → Differ b a
Differ-sym a b e = ground (arith, eq_iff a.id b.id, eq_iff b.id a.id)

fresh-Differ :
    (s : Sprite) (rest done : List Sprite)
    → All (λ d. All (Differ d) (s ∷ rest)) done
    → any_where (λ i. str_eq i s.id) (ids done) ≡ false
fresh-Differ s rest [] h = refl
fresh-Differ s rest (d ∷ done) h = rw (h.0.0, fresh-Differ s rest done h.1)

module _ (padding extrude w h : ℕ) where
  -- A free place for the sprite on one of the pages.
  abbrev IsPageMatch : Sprite → List Page → PageMatch → Type 0
  IsPageMatch s pages m =
      (p : Page) × (page_at m.page pages ≡ some p)
      × IsFree p.width p.height p.used m.rect
      × (m.rect.width ≡ slot_width padding extrude s)
      × (m.rect.height ≡ slot_height padding extrude s)

  with_match-IsPageMatch :
      (s : Sprite) (pages : List Page) (k : ℕ) (p : Page) (o : Option Match) (rest : List PageMatch)
      → page_at k pages ≡ some p
      → IsPacked p
      → find (slot_width padding extrude s) (slot_height padding extrude s) p ≡ o
      → All (IsPageMatch s pages) rest
      → All (IsPageMatch s pages) (with_match k o rest)
  with_match-IsPageMatch s pages k p none rest at k1 e h = h
  with_match-IsPageMatch s pages k p (some m) rest at k1 e h =
      let f =
        find-IsMatch (slot_width padding extrude s) (slot_height padding extrude s) p m k1 e in
      ((p, at, f.0, f.1, f.2), h)

  page_matches-IsPageMatch :
      (s : Sprite) (pages : List Page)
      → All (IsPage w h) pages
      → (es : List (ℕ × Page))
      → All (λ (e : ℕ × Page). (0 ≤ e.0) × (page_at (e.0 - 0) pages ≡ some e.1)) es
      → All
          (IsPageMatch s pages)
          (page_matches (slot_width padding extrude s) (slot_height padding extrude s) es)
  page_matches-IsPageMatch s pages sound [] a = tt
  page_matches-IsPageMatch s pages sound ((k, p) ∷ es) a =
      let same : k - 0 ≡ k = omega arith in
      let at : page_at k pages ≡ some p = rw same at a.0.1 in
      with_match-IsPageMatch s pages k p _ _ at (page_at-All (IsPage w h) k pages at sound).0 refl
        (page_matches-IsPageMatch s pages sound es a.1)

  -- The sprite has a slot no larger than a page.
  abbrev pub HasRoom : Sprite → Type 0
  HasRoom s =
      (leb (slot_width padding extrude s) w ≡ true) × (leb (slot_height padding extrude s) h ≡ true)

  -- The sprite can be put, and all stays well.
  abbrev IsPut : List Sprite → Sprite → Packed Layout → Type 0
  IsPut done s o =
      (l : Layout) × (o ≡ packed l)
      × Fits padding extrude w h (done ++ (s ∷ [])) l.pages l.placements

  module _ (done : List Sprite) (s : Sprite) (l : Layout)
      (f : Fits padding extrude w h done l.pages l.placements)
      (fresh : any_where (λ i. str_eq i s.id) (ids done) ≡ false) where
    Fits-new : Fits padding extrude w h done (l.pages ++ (new_page w h ∷ [])) l.placements
    Fits-new = record {
      sound = All-append (IsPage w h) l.pages _ f.sound ((IsPacked-new_page w h, refl, refl), tt);
      named = f.named;
      handed_out = λ k. used_at-new k w h l.pages ∙ f.handed_out k;
    }

    open_page-IsPut : HasRoom s → IsPut done s (open_page w h padding extrude s l)
    open_page-IsPut room =
        let (m, e) =
          find-new_page (slot_width padding extrude s) (slot_height padding extrude s) w h room.0
            room.1 in
        let found =
          find-IsMatch (slot_width padding extrude s) (slot_height padding extrude s) (new_page w h)
            m (IsPacked-new_page w h) e in
        let small_w : ltb w (slot_width padding extrude s) ≡ false = ground (arith, room.0) in
        let small_h : ltb h (slot_height padding extrude s) ≡ false = ground (arith, room.1) in
        (
          put extrude s.id (length l.pages) m.rect (l.pages ++ (new_page w h ∷ [])) l.placements,
          rw (small_w, small_h, e),
          put-Fits padding extrude w h done (l.pages ++ (new_page w h ∷ [])) l.placements s
              (length l.pages) m.rect Fits-new fresh (page_at-new w h l.pages) found.0 found.1
              found.2,
        )

    put_matched-IsPut :
        HasRoom s
        → (o : Option PageMatch) → ((m : PageMatch) → o ≡ some m → IsPageMatch s l.pages m)
        → IsPut done s (put_matched w h padding extrude s o l)
    put_matched-IsPut room none found = open_page-IsPut room
    put_matched-IsPut room (some m) found =
        let (p, at, free, same_w, same_h) = found m refl in
        (
          put extrude s.id m.page m.rect l.pages l.placements,
          refl,
          put-Fits padding extrude w h done l.pages l.placements s m.page m.rect f fresh at free
              same_w same_h,
        )

    pack_one-IsPut : HasRoom s → IsPut done s (pack_one w h padding extrude s l)
    unfolding pack_one
    pack_one-IsPut room = put_matched-IsPut room _ (λ m e.
        least-All (IsPageMatch s l.pages) page_lt _ m
          (page_matches-IsPageMatch s l.pages f.sound (numbered 0 l.pages)
            (numbered-page_at 0 l.pages))
          e)

  pack_each-Fits :
      (rest done : List Sprite) (l : Layout)
      → Fits padding extrude w h done l.pages l.placements
      → All (λ d. All (Differ d) rest) done
      → AllPairs Differ rest
      → All HasRoom rest
      → (l' : Layout) × (pack_each w h padding extrude rest l ≡ packed l')
        × Fits padding extrude w h (done ++ rest) l'.pages l'.placements
  unfolding pack_each
  pack_each-Fits [] done l f apart pairs room = (l, refl, rw (append-nil done) f)
  pack_each-Fits (s ∷ rest) done l f apart pairs room =
      let (l1, e1, f1) = pack_one-IsPut done s l f (fresh-Differ s rest done apart) room.0 in
      let others : All (λ d. All (Differ d) rest) (done ++ (s ∷ [])) =
        All-append (λ d. All (Differ d) rest) done (s ∷ [])
          (All-imp (λ d. All (Differ d) (s ∷ rest)) (λ d. All (Differ d) rest) (λ d q. q.1) done
            apart)
          (pairs.0, tt) in
      let (l2, e2, f2) = pack_each-Fits rest (done ++ (s ∷ [])) l1 f1 others pairs.1 room.1 in
      (l2, rw e1 e2, rw (append_assoc done (s ∷ []) rest) at f2)

  AllApart-used_at :
      (k : ℕ) (ps : List Page)
      → All (IsPage w h) ps
      → AllApart (used_at k ps) × All (λ r. is_inside w h r ≡ true) (used_at k ps)
  AllApart-used_at k [] a = (tt, tt)
  AllApart-used_at zero (p ∷ ps) a = (a.0.0.used_apart, rw (a.0.1, a.0.2) at a.0.0.used_inside)
  AllApart-used_at (suc k) (p ∷ ps) a = AllApart-used_at k ps a.1

  -- The sprites have a placement each, in their order, and on each page their slots, of their own size,
  -- lie inside the page and do not overlap.
  abbrev pub IsLaidOut : List Sprite → List (String × Placement) → Type 0
  IsLaidOut ss vs =
      (keys vs ≡ ids ss)
      × ((k : ℕ)
          → AllApart (slots_on padding extrude k ss vs)
            × All (λ r. is_inside w h r ≡ true) (slots_on padding extrude k ss vs))

  pub Fits-IsLaidOut :
      (ss : List Sprite) (l : Layout)
      → Fits padding extrude w h ss l.pages l.placements
      → IsLaidOut ss l.placements
  Fits-IsLaidOut ss l f = (
    f.named,
    λ k.
        subst (λ rs. AllApart rs × All (λ r. is_inside w h r ≡ true) rs) (f.handed_out k)
          (AllApart-used_at k l.pages f.sound),
  )

  pub lay_out-Fits :
      (sprites : List Sprite)
      → AllPairs Differ sprites
      → All HasRoom sprites
      → (l : Layout) × (lay_out sprites w h padding extrude ≡ packed l)
        × Fits padding extrude w h (ordered padding extrude sprites) l.pages l.placements
  unfolding lay_out ordered
  lay_out-Fits sprites differ room =
      let le = λ (a : Sprite) (b : Sprite). not (key_lt padding extrude b a) in
      let start : Fits padding extrude w h [] [] [] = record {
        sound = tt;
        named = refl;
        handed_out = λ k. refl;
      } in
      pack_each-Fits (sort_by le sprites) [] (record { pages = []; placements = [] }) start tt
        (AllPairs-sort_by le Differ Differ-sym sprites differ) (All-sort_by le HasRoom sprites room)

  -- Where the sprites have different identifiers and each slot, extruded border and padding included,
  -- is no larger than a page, the packing succeeds: each sprite has a placement, in the order of packing,
  -- and on each page the slots lie inside the page and do not overlap.
  pub lay_out_lem :
      (sprites : List Sprite)
      → AllPairs Differ sprites
      → All HasRoom sprites
      → (l : Layout) × (lay_out sprites w h padding extrude ≡ packed l)
        × IsLaidOut (ordered padding extrude sprites) l.placements
  lay_out_lem sprites differ room =
      let (l, e, f) = lay_out-Fits sprites differ room in
      (l, e, Fits-IsLaidOut (ordered padding extrude sprites) l f)
