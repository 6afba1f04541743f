-- ===== src/Client/Workspace/Migration/Shows.antt =====
-- What a migration leaves of the actions: they show what they showed, and no reference is stale.
use rotoweave.Base.{
  String, Bool, true, false, ◌≡◌, refl, sym, ◌∙◌, subst, ◌&&◌, ◌||◌, not, Option, none, some, List,
  [], ◌∷◌, map, inl, inr, Bool-cases, str_eq, str_eq_refl, find_where, or_else, select_where, All,
  arith, is_some,
}
use rotoweave.Client.Workspace.Schema.{
  MaterialSource, MaterialVariant, FrameRef, Action, Domain, is_variant, among, missing_variant,
  bad_mapping, ok,
}
use rotoweave.Client.Workspace.Migration.{
  FrameMap, lookup, map_frames, shows, next_frame, moved_to, migrate_ref, Migrated, migrate_actions,
  check_map, all_known, all_covered, map_of_latest, migrate_to, latest_of, nothing_moved,
  migrate_latest, migrate_each, migrate_action_refs, is_wanted,
}
use rotoweave.Client.Workspace.Migration.Frames.{
  ok-and_then, ok-require, DistinctFrames, covers-map_frames, lookup-covers, IsLatest,
  migrate_ref-shows, is_stale,
}

-- A reference without its place: every field but variantId and frameId.
abbrev pub placeless : FrameRef → FrameRef
placeless ref = record ref { variant_id = ""; frame_id = "" }

-- An action without its references: every other field.
abbrev pub bare : Action → Action
bare a = record a { frame_refs = [] }

-- What an action shows: each reference but for its place, with its source frame, in order.
abbrev pub view_refs : List MaterialVariant → List FrameRef → List (FrameRef × Option String)
view_refs variants refs = map (λ (r : FrameRef). (placeless r, shows variants r)) refs

abbrev pub view :
    List MaterialVariant → List Action → List (Action × List (FrameRef × Option String))
view variants actions = map (λ (a : Action). (bare a, view_refs variants a.frame_refs)) actions

moved_to-placeless :
    (latest : String) (o : Option String) (ref : FrameRef)
    → placeless (moved_to latest o ref) ≡ placeless ref
moved_to-placeless latest none ref = refl
moved_to-placeless latest (some f) ref =
    elim (Bool-cases (str_eq ref.variant_id latest && str_eq ref.frame_id f)) [
      | inl e ↦ rw e
      | inr e ↦ rw e
    ]

seen :
    {A B : Type 0} {a a' : A} {b b' : B} {xs ys : List (A × B)}
    → a ≡ a'
    → b ≡ b'
    → xs ≡ ys
    → ((a, b) ∷ xs) ≡ ((a', b') ∷ ys)
seen p q r = cc

module _ (variants : List MaterialVariant) (ids : List String) (latest : String)
    (v : MaterialVariant) (m : FrameMap) (l : IsLatest variants latest v m) where
  abbrev step : FrameRef → FrameRef
  step ref = migrate_ref variants ids latest m ref

  step-placeless : (ref : FrameRef) → placeless (step ref) ≡ placeless ref
  unfolding migrate_ref
  step-placeless ref = elim (Bool-cases (among ref.variant_id ids)) [
    | inl e ↦ rw e (moved_to-placeless latest (next_frame m (shows variants ref)) ref)
    | inr e ↦ rw e
  ]

  step-shows : (ref : FrameRef) → shows variants (step ref) ≡ shows variants ref
  step-shows ref = migrate_ref-shows variants latest v m l ids ref

  view_refs-step :
      (refs : List FrameRef) → view_refs variants (map step refs) ≡ view_refs variants refs
  view_refs-step [] = refl
  view_refs-step (r ∷ rs) = seen (step-placeless r) (step-shows r) (view_refs-step rs)

  view-migrate_actions :
      (character : String) (actions : List Action)
      → view variants (migrate_actions step character actions).actions ≡ view variants actions
  unfolding migrate_actions
  view-migrate_actions character [] = refl
  view-migrate_actions character (a ∷ rest) = elim (Bool-cases (str_eq a.character_id character)) [
    | inl e ↦ rw (e, view_refs-step a.frame_refs, view-migrate_actions character rest)
    | inr e ↦ rw (e, view-migrate_actions character rest)
  ]

  moved_to-is_stale :
      (ref : FrameRef) (o : Option String)
      → next_frame m (shows variants ref) ≡ o
      → is_stale variants ids latest v.frames (moved_to latest o ref) ≡ false
  moved_to-is_stale ref none e =
      let absent : is_some (lookup (or_else (shows variants ref) "") m) ≡ false = rw e in
      let k = or_else (shows variants ref) "" in
      ground (arith, lookup-covers k m, covers-map_frames v.frames [] m k l.mapped)
  moved_to-is_stale ref (some f) e =
      elim (Bool-cases (str_eq ref.variant_id latest && str_eq ref.frame_id f)) [
        | inl q ↦ rw q (ground arith)
        | inr q ↦ rw q (rw (str_eq_refl latest) (ground arith))
      ]

  step-is_stale : (ref : FrameRef) → is_stale variants ids latest v.frames (step ref) ≡ false
  unfolding migrate_ref
  step-is_stale ref = elim (Bool-cases (among ref.variant_id ids)) [
    | inl e ↦ rw e (moved_to-is_stale ref (next_frame m (shows variants ref)) refl)
    | inr e ↦ rw e (rw e)
  ]

  -- The references of the character's actions, none of them stale.
  abbrev pub AllFresh : String → List Action → Type 0
  AllFresh character actions =
      All
        (λ (a : Action).
          str_eq a.character_id character ≡ true
          → All (λ ref. is_stale variants ids latest v.frames ref ≡ false) a.frame_refs)
        actions

  refs-is_stale :
      (refs : List FrameRef)
      → All (λ ref. is_stale variants ids latest v.frames ref ≡ false) (map step refs)
  refs-is_stale [] = tt
  refs-is_stale (r ∷ rs) = (step-is_stale r, refs-is_stale rs)

  AllFresh-migrate_actions :
      (character : String) (actions : List Action)
      → AllFresh character (migrate_actions step character actions).actions
  unfolding migrate_actions
  AllFresh-migrate_actions character [] = tt
  AllFresh-migrate_actions character (a ∷ rest) =
      elim (Bool-cases (str_eq a.character_id character)) [
        | inl e ↦ rw e ((λ q. refs-is_stale a.frame_refs), AllFresh-migrate_actions character rest)
        | inr e ↦ rw e (
          (λ q. (let absurd : false ≡ true = sym e ∙ q in cc)),
          AllFresh-migrate_actions character rest,
        )
      ]

-- The variants have frames of different identifiers each.
abbrev pub AllDistinct : List MaterialVariant → Type 0
AllDistinct variants = All (λ (v : MaterialVariant). DistinctFrames v.frames) variants

find-AllDistinct :
    (p : MaterialVariant → Bool) (variants : List MaterialVariant) (v : MaterialVariant)
    → AllDistinct variants
    → find_where p variants ≡ some v
    → DistinctFrames v.frames
find-AllDistinct p [] v h e = cc
find-AllDistinct p (x ∷ xs) v h e = elim (Bool-cases (p x)) [
  | inl q ↦
      let r : some x ≡ some v = rw q at e in
      let same : x ≡ v = cc in subst (λ (y : MaterialVariant). DistinctFrames y.frames) same h.0
  | inr q ↦ let r : find_where p xs ≡ some v = rw q at e in find-AllDistinct p xs v h.1 r
]

check_map-ok : (s : MaterialSource) (c : Bool) (n m : FrameMap) → check_map s c n ≡ ok m → n ≡ m
check_map-ok s c n m e =
    let (a, first) = ok-require (not c || (all_covered s n && all_known s n)) bad_mapping _ m e in
    let (b, second) = ok-require (all_known s n) bad_mapping _ m first in cc

-- The variant and the dictionary by which a migration went.
abbrev pub Moves : MaterialSource → String → Domain → Migrated → Type 0
Moves s latest d r =
    (v : MaterialVariant) × (m : FrameMap) × (l : IsLatest d.variants latest v m) × (r
      ≡ migrate_actions (migrate_ref d.variants s.variant_ids latest m) s.character_id d.actions)

migrate_to-Moves :
    (s : MaterialSource) (c : Bool) (latest : String) (d : Domain) (r : Migrated)
    → AllDistinct d.variants
    → migrate_to s c latest d ≡ ok r
    → Moves s latest d r
migrate_to-Moves s c latest d r h e =
    let (a, inner) = ok-require (among latest s.variant_ids) missing_variant _ r e in
    let (m, found, whole) = ok-and_then _ _ r inner in
    let same : migrate_actions (migrate_ref d.variants s.variant_ids latest m) s.character_id
          d.actions
        ≡ r =
      cc in
    go (find_where (is_variant latest) d.variants) refl m found (sym same)
  where
    go :
        (o : Option MaterialVariant)
        → find_where (is_variant latest) d.variants ≡ o
        → (m : FrameMap) → map_of_latest s c o ≡ ok m
        → r
          ≡ migrate_actions (migrate_ref d.variants s.variant_ids latest m) s.character_id d.actions
        → Moves s latest d r
    go none f m k q = cc
    go (some v) f m k q =
        let (a, inner) = ok-require (str_eq v.source_id s.id) missing_variant _ m k in
        let (n, mapped, checked) = ok-and_then (map_frames v.frames []) (check_map s c) m inner in
        let same : n ≡ m = check_map-ok s c n m checked in
        (
          v,
          m,
          record {
            found = f;
            mapped = rw same at mapped;
            distinct = find-AllDistinct (is_variant latest) d.variants v h f;
          },
          q,
        )

view-migrate_to :
    (s : MaterialSource) (c : Bool) (latest : String) (d : Domain) (r : Migrated)
    → AllDistinct d.variants
    → migrate_to s c latest d ≡ ok r
    → view d.variants r.actions ≡ view d.variants d.actions
view-migrate_to s c latest d r h e =
    let (v, m, l, q) = migrate_to-Moves s c latest d r h e in
    rw q (view-migrate_actions d.variants s.variant_ids latest v m l s.character_id d.actions)

view-migrate_latest :
    (s : MaterialSource) (c : Bool) (latest : Option String) (d : Domain) (r : Migrated)
    → AllDistinct d.variants
    → migrate_latest s c latest d ≡ ok r
    → view d.variants r.actions ≡ view d.variants d.actions
view-migrate_latest s c none d r h e = let same : nothing_moved d ≡ r = cc in rw (sym same)
view-migrate_latest s c (some latest) d r h e = view-migrate_to s c latest d r h e

view-migrate_each :
    (ss : List MaterialSource) (latest : Option String) (c : Bool) (d : Domain) (r0 r : Migrated)
    → AllDistinct d.variants
    → migrate_each ss latest c d r0 ≡ ok r
    → view d.variants r.actions ≡ view d.variants r0.actions
unfolding migrate_each
view-migrate_each [] latest c d r0 r h e = let same : r0 ≡ r = cc in rw (sym same)
view-migrate_each (s ∷ ss) latest c d r0 r h e =
    let (q, first, later) = ok-and_then _ _ r e in
    view-migrate_each ss latest c d _ r h later
    ∙ view-migrate_latest s c (latest_of latest s.variant_ids) (record d { actions = r0.actions }) q
        h first

-- A migration that succeeds changes nothing of the actions but the variant and the frame that references
-- name: their other fields, the order, and the source frame that each reference shows are as they were,
-- whichever sources and variant it is given, where the frames of each variant have different identifiers.
pub view-migrate_action_refs :
    (source latest : Option String) (c : Bool) (d : Domain) (r : Migrated)
    → AllDistinct d.variants
    → migrate_action_refs source latest c d ≡ ok r
    → view d.variants r.actions ≡ view d.variants d.actions
unfolding migrate_action_refs
view-migrate_action_refs source latest c d r h e =
    view-migrate_each (select_where (is_wanted source) d.sources) latest c d (nothing_moved d) r h e

-- After the migration of one source to a variant, no reference of its character's actions reads an older
-- variant of the source although the given one has a frame for what it shows, where the frames of each
-- variant have different identifiers.
pub AllFresh-migrate_to :
    (s : MaterialSource) (c : Bool) (latest : String) (d : Domain) (r : Migrated)
    → AllDistinct d.variants
    → migrate_to s c latest d ≡ ok r
    → (v : MaterialVariant) × (find_where (is_variant latest) d.variants ≡ some v)
      × All
          (λ (a : Action).
            str_eq a.character_id s.character_id ≡ true
            → All
                (λ ref. is_stale d.variants s.variant_ids latest v.frames ref ≡ false)
                a.frame_refs)
          r.actions
AllFresh-migrate_to s c latest d r h e =
    let (v, m, l, q) = migrate_to-Moves s c latest d r h e in
    (
      v,
      l.found,
      rw q
          (AllFresh-migrate_actions d.variants s.variant_ids latest v m l s.character_id d.actions),
    )
