-- ===== src/Client/Atlas/Slots.antt =====
-- The slots that a packing hands out: each sprite has one of its size, and no two overlap.
use rotoweave.Base.{
  ℕ, zero, suc, ◌+◌, ◌-◌, ◌≤◌, String, false, ◌≡◌, refl, sym, ◌∙◌, subst, Option, none, some, List,
  [], ◌∷◌, ◌++◌, map, if◌then◌else◌, ◌==◌, All, arith, any_where, length, str_eq,
}
use rotoweave.Client.Atlas.Rects.{Rect, Page, new_page, place}
use rotoweave.Client.Atlas.Free.{IsFree, IsPacked, IsPacked-place, All-imp}
use rotoweave.Client.Atlas.Packing.{
  Sprite, Placement, slot_width, slot_height, numbered, place_at, has_key, set_entry, put,
}

abbrev pub page_at : ℕ → List Page → Option Page
page_at k [] = none
page_at zero (p ∷ ps) = some p
page_at (suc k) (p ∷ ps) = page_at k ps

-- The rectangles that the page with number `k` has handed out.
abbrev pub used_at : ℕ → List Page → List Rect
used_at k [] = []
used_at zero (p ∷ ps) = p.used
used_at (suc k) (p ∷ ps) = used_at k ps

module _ (padding extrude : ℕ) where
  -- The slot of a sprite: its image, the extruded border around it and the padding.
  abbrev pub slot : Sprite → Placement → Rect
  slot s v = record {
    x = v.x - extrude;
    y = v.y - extrude;
    width = slot_width padding extrude s;
    height = slot_height padding extrude s;
  }

  -- The slots on the page with number `k`.
  abbrev pub slots_on : ℕ → List Sprite → List (String × Placement) → List Rect
  slots_on k [] vs = []
  slots_on k (s ∷ ss) [] = []
  slots_on k (s ∷ ss) ((i, v) ∷ vs) =
      let rest = slots_on k ss vs in if v.page == k then slot s v ∷ rest else rest

pub numbered-page_at :
    (n : ℕ) (ps : List Page)
    → All (λ (e : ℕ × Page). (n ≤ e.0) × (page_at (e.0 - n) ps ≡ some e.1)) (numbered n ps)
numbered-page_at n [] = tt
numbered-page_at n (p ∷ ps) = (
  (omega arith, first_at n p ps),
  All-imp (λ (e : ℕ × Page). (suc n ≤ e.0) × (page_at (e.0 - suc n) ps ≡ some e.1)) _
      (λ e h. (omega (arith, h.0), later_at n p ps e h.0 ∙ h.1)) (numbered (suc n) ps)
      (numbered-page_at (suc n) ps),
)
  where
    first_at : (n : ℕ) (p : Page) (ps : List Page) → page_at (n - n) (p ∷ ps) ≡ some p
    first_at n p ps = let z : n - n ≡ 0 = omega arith in rw z

    later_at :
        (n : ℕ) (p : Page) (ps : List Page) (e : ℕ × Page)
        → suc n ≤ e.0
        → page_at (e.0 - n) (p ∷ ps) ≡ page_at (e.0 - suc n) ps
    later_at n p ps e h = let z : e.0 - n ≡ suc (e.0 - suc n) = omega (arith, h) in rw z

used_at-place_at :
    (j k : ℕ) (r : Rect) (ps : List Page) {p : Page}
    → page_at k ps ≡ some p
    → used_at j (place_at k r ps) ≡ (if k == j then used_at j ps ++ (r ∷ []) else used_at j ps)
unfolding place
used_at-place_at j k r [] e = cc
used_at-place_at zero zero r (p ∷ ps) e = ground arith
used_at-place_at (suc j) zero r (p ∷ ps) e = ground arith
used_at-place_at zero (suc k) r (p ∷ ps) e = ground arith
used_at-place_at (suc j) (suc k) r (p ∷ ps) e = ground (arith, used_at-place_at j k r ps e)

pub used_at-new :
    (j w h : ℕ) (ps : List Page) → used_at j (ps ++ (new_page w h ∷ [])) ≡ used_at j ps
used_at-new zero w h [] = refl
used_at-new (suc j) w h [] = refl
used_at-new zero w h (p ∷ ps) = refl
used_at-new (suc j) w h (p ∷ ps) = used_at-new j w h ps

pub page_at-new :
    (w h : ℕ) (ps : List Page)
    → page_at (length ps) (ps ++ (new_page w h ∷ [])) ≡ some (new_page w h)
page_at-new w h [] = refl
page_at-new w h (p ∷ ps) = page_at-new w h ps

pub page_at-All :
    (P : Page → Type 0) (k : ℕ) (ps : List Page) {p : Page} → page_at k ps ≡ some p → All P ps → P p
page_at-All P k [] e h = cc
page_at-All P zero (q ∷ ps) {p} e h = let same : q ≡ p = cc in subst P same h.0
page_at-All P (suc k) (q ∷ ps) e h = page_at-All P k ps e h.1

All-place_at :
    (P : Page → Type 0) (k : ℕ) (r : Rect) (ps : List Page) {p : Page}
    → page_at k ps ≡ some p
    → P (place r p)
    → All P ps
    → All P (place_at k r ps)
All-place_at P k r [] e h a = tt
All-place_at P zero r (q ∷ ps) {p} e h a =
    let same : p ≡ q = cc in (subst (λ x. P (place r x)) same h, a.1)
All-place_at P (suc k) r (q ∷ ps) e h a = (a.0, All-place_at P k r ps e h a.1)

-- A page of the packing's size whose places are apart.
abbrev pub IsPage : ℕ → ℕ → Page → Type 0
IsPage w h p = IsPacked p × (p.width ≡ w) × (p.height ≡ h)

abbrev pub keys : List (String × Placement) → List String
keys vs = map (λ (v : String × Placement). v.0) vs

abbrev pub ids : List Sprite → List String
ids ss = map (λ (s : Sprite). s.id) ss

has_key-keys :
    (k : String) (vs : List (String × Placement))
    → has_key k vs ≡ any_where (λ i. str_eq i k) (keys vs)
has_key-keys k [] = refl
has_key-keys k (v ∷ vs) = rw (has_key-keys k vs)

keys-append :
    (vs : List (String × Placement)) (k : String) (v : Placement)
    → keys (vs ++ ((k, v) ∷ [])) ≡ keys vs ++ (k ∷ [])
keys-append [] k v = refl
keys-append (x ∷ vs) k v = rw (keys-append vs k v)

ids-append : (ss : List Sprite) (s : Sprite) → ids (ss ++ (s ∷ [])) ≡ ids ss ++ (s.id ∷ [])
ids-append [] s = refl
ids-append (x ∷ ss) s = rw (ids-append ss s)

place-IsPage :
    (w h : ℕ) (r : Rect) (p : Page)
    → IsFree p.width p.height p.used r
    → IsPage w h p
    → IsPage w h (place r p)
unfolding place
place-IsPage w h r p free q = (IsPacked-place r p q.0 free, q.1, q.2)

slot-put :
    (padding extrude : ℕ) (s : Sprite) (k : ℕ) (r : Rect)
    → r.width ≡ slot_width padding extrude s
    → r.height ≡ slot_height padding extrude s
    → slot padding extrude s (record { page = k; x = r.x + extrude; y = r.y + extrude }) ≡ r
slot-put padding extrude s k r same_w same_h =
    let left : r.x + extrude - extrude ≡ r.x = omega arith in
    let top : r.y + extrude - extrude ≡ r.y = omega arith in
    λ i. record { x = left i; y = top i; width = sym same_w i; height = sym same_h i }

handed :
    (j k : ℕ) (used slots : List Rect) (r q : Rect)
    → used ≡ slots
    → r ≡ q
    → (if k == j then used ++ (r ∷ []) else used) ≡ (if k == j then slots ++ (q ∷ []) else slots)
handed j k used slots r q e f = rw (e, f)

module _ (padding extrude w h : ℕ) where
  -- What holds after the sprites `done`.
  pub record Fits (done : List Sprite) (pages : List Page) (vs : List (String × Placement))
      : Type 0 where
    pub sound : All (IsPage w h) pages
    pub named : keys vs ≡ ids done
    pub handed_out : (k : ℕ) → used_at k pages ≡ slots_on padding extrude k done vs

  slots_on-append :
      (k : ℕ) (done : List Sprite) (vs : List (String × Placement)) (s : Sprite) (v : Placement)
      → keys vs ≡ ids done
      → slots_on padding extrude k (done ++ (s ∷ [])) (vs ++ ((s.id, v) ∷ [])) ≡ (
          if v.page == k
          then slots_on padding extrude k done vs ++ (slot padding extrude s v ∷ [])
          else slots_on padding extrude k done vs)
  slots_on-append k [] [] s v e = refl
  slots_on-append k [] (x ∷ vs) s v e = cc
  slots_on-append k (d ∷ done) [] s v e = cc
  slots_on-append k (d ∷ done) ((i, x) ∷ vs) s v e =
      let later : keys vs ≡ ids done = cc in ground (arith, slots_on-append k done vs s v later)

  -- The sprite `s` takes the free place `r` of the page with number `k`.
  pub put-Fits :
      (done : List Sprite) (pages : List Page) (vs : List (String × Placement)) (s : Sprite) (k : ℕ)
      (r : Rect) {p : Page}
      → Fits done pages vs
      → any_where (λ i. str_eq i s.id) (ids done) ≡ false
      → page_at k pages ≡ some p
      → IsFree p.width p.height p.used r
      → r.width ≡ slot_width padding extrude s
      → r.height ≡ slot_height padding extrude s
      → let l = put extrude s.id k r pages vs in Fits (done ++ (s ∷ [])) l.pages l.placements
  unfolding set_entry
  put-Fits done pages vs s k r {p} f fresh at free same_w same_h =
      let v : Placement = record { page = k; x = r.x + extrude; y = r.y + extrude } in
      let absent : has_key s.id vs ≡ false = has_key-keys s.id vs ∙ rw f.named fresh in
      rw absent (record {
        sound =
            All-place_at (IsPage w h) k r pages at
              (place-IsPage w h r p free (page_at-All (IsPage w h) k pages at f.sound)) f.sound;
        named = keys-append vs s.id v ∙ rw f.named (sym (ids-append done s));
        handed_out = λ j.
            used_at-place_at j k r pages at
            ∙ handed j k _ _ r _ (f.handed_out j)
                (sym (slot-put padding extrude s k r same_w same_h))
            ∙ sym (slots_on-append j done vs s v f.named);
      })
