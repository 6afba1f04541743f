-- ===== src/Client/Workspace/Removal.antt =====
-- What the deletions of a variant and of a source leave: nothing that names what is gone.
use rotoweave.Base.{
  String, Bool, true, false, ◌≡◌, refl, subst, not, List, [], ◌∷◌, map, inl, inr, Bool-cases,
  str_eq, str_eq_refl, eq_iff, any_where, find_where, select_where, delete_where, is_some, All,
  arith,
}
use rotoweave.Client.Workspace.Schema.{
  Character, MaterialSource, MaterialVariant, FrameRef, Action, Domain, is_source, is_variant,
  among, missing_source, missing_variant, still_referenced, not_explicit, unmanaged_asset, ok,
}
use rotoweave.Client.Workspace.Migration.Frames.{ok-require}
use rotoweave.Client.Workspace.Mutations.{get_source, get_variant}
use rotoweave.Client.Workspace.Mutations.Deletions.{
  cleanup_variant, delete_source, unindex_source, unindex_variant, reads, variants_of,
}
use rotoweave.Client.Workspace.Lists.{any-delete_where, All-imp}
use rotoweave.Client.Workspace.Migration.Shows.{view, view_refs}

-- No action reads a variant of the identifier, no source lists it, and none has it.
abbrev pub LacksVariant : String → Domain → Type 0
LacksVariant i d =
    (any_where (is_variant i) d.variants ≡ false)
    × (any_where (λ (s : MaterialSource). among i s.variant_ids) d.sources ≡ false)
    × (any_where (reads (i ∷ [])) d.actions ≡ false)

-- No source has the identifier, no variant is of it and no character lists it.
abbrev pub LacksSource : String → Domain → Type 0
LacksSource i d =
    (any_where (is_source i) d.sources ≡ false)
    × (any_where (λ (v : MaterialVariant). str_eq v.source_id i) d.variants ≡ false)
    × (any_where (λ (c : Character). among i c.source_ids) d.characters ≡ false)

unindexed :
    (i : String) (ss : List MaterialSource)
    → any_where (λ (s : MaterialSource). among i s.variant_ids) (map (unindex_variant i) ss) ≡ false
unindexed i [] = refl
unindexed i (s ∷ ss) = rw (any-delete_where (λ k. str_eq k i) s.variant_ids, unindexed i ss)

unlisted :
    (i : String) (cs : List Character)
    → any_where (λ (c : Character). among i c.source_ids) (map (unindex_source i) cs) ≡ false
unlisted i [] = refl
unlisted i (c ∷ cs) = rw (any-delete_where (λ k. str_eq k i) c.source_ids, unlisted i cs)

is_false : (b : Bool) → not b ≡ true → b ≡ false
is_false true e = cc
is_false false e = refl

-- The variants of a source are among those gathered for it.
abbrev own_ids : String → List MaterialVariant → List String
own_ids i vs =
    map (λ (v : MaterialVariant). v.id)
      (select_where (λ (v : MaterialVariant). among v.source_id (i ∷ [])) vs)

abbrev Gathered : String → List String → MaterialVariant → Type 0
Gathered i is v = str_eq v.source_id i ≡ true → among v.id is ≡ true

own_ids-own :
    (i : String) (v : MaterialVariant) (vs : List MaterialVariant)
    → str_eq i v.source_id ≡ true
    → v.id ∷ own_ids i vs ≡ own_ids i (v ∷ vs)
own_ids-own i v vs e = rw e

own_ids-other :
    (i : String) (v : MaterialVariant) (vs : List MaterialVariant)
    → str_eq i v.source_id ≡ false
    → own_ids i vs ≡ own_ids i (v ∷ vs)
own_ids-other i v vs e = rw e

Gathered-cons :
    (i k : String) (is : List String) (v : MaterialVariant)
    → Gathered i is v
    → Gathered i (k ∷ is) v
Gathered-cons i k is v g q = let r : among v.id is ≡ true = g q in ground (arith, r)

variants-Gathered : (i : String) (vs : List MaterialVariant) → All (Gathered i (own_ids i vs)) vs
variants-Gathered i [] = tt
variants-Gathered i (v ∷ vs) = elim (Bool-cases (str_eq i v.source_id)) [
  | inl e ↦
      subst (λ is. All (Gathered i is) (v ∷ vs)) (own_ids-own i v vs e)
        (
          (λ q. rw (str_eq_refl v.id)),
          All-imp (Gathered i (own_ids i vs)) (Gathered i (v.id ∷ own_ids i vs))
              (λ w. Gathered-cons i v.id (own_ids i vs) w) vs (variants-Gathered i vs),
        )
  | inr e ↦
      subst (λ is. All (Gathered i is) (v ∷ vs)) (own_ids-other i v vs e)
        (
          (λ q. ground (arith, q, e, eq_iff v.source_id i, eq_iff i v.source_id)),
          variants-Gathered i vs,
        )
]

orphans :
    (i : String) (is : List String) (vs : List MaterialVariant)
    → All (Gathered i is) vs
    → any_where
        (λ (v : MaterialVariant). str_eq v.source_id i)
        (delete_where (λ (v : MaterialVariant). among v.id is) vs)
      ≡ false
orphans i is [] h = refl
orphans i is (v ∷ vs) h = elim (Bool-cases (among v.id is)) [
  | inl e ↦ rw e (orphans i is vs h.1)
  | inr e ↦ elim (Bool-cases (str_eq v.source_id i)) [
    | inl q ↦ let r = h.0 q in cc
    | inr q ↦ rw e (rw (q, orphans i is vs h.1))
  ]
]

module _ (p : MaterialVariant → Bool) (ids : List String)
    (same : (v : MaterialVariant) (k : String)
      → str_eq v.id k ≡ true
      → among k ids ≡ false
      → p v ≡ false) where
  find-delete_where :
      (k : String) (vs : List MaterialVariant)
      → among k ids ≡ false
      → find_where (is_variant k) (delete_where p vs) ≡ find_where (is_variant k) vs
  find-delete_where k [] h = refl
  find-delete_where k (v ∷ vs) h = elim (Bool-cases (str_eq v.id k)) [
    | inl e ↦ rw (same v k e h) (rw e)
    | inr e ↦ elim (Bool-cases (p v)) [
      | inl q ↦ rw (e, q) (find-delete_where k vs h)
      | inr q ↦ rw (e, q) (rw (e, find-delete_where k vs h))
    ]
  ]

  view_refs-delete_where :
      (vs : List MaterialVariant) (rs : List FrameRef)
      → any_where (λ (r : FrameRef). among r.variant_id ids) rs ≡ false
      → view_refs (delete_where p vs) rs ≡ view_refs vs rs
  view_refs-delete_where vs [] h = refl
  view_refs-delete_where vs (r ∷ rs) h = elim (Bool-cases (among r.variant_id ids)) [
    | inl e ↦ let q : true ≡ false = rw e at h in cc
    | inr e ↦
        let q : any_where (λ (r : FrameRef). among r.variant_id ids) rs ≡ false = rw e at h in
        rw (find-delete_where r.variant_id vs e, view_refs-delete_where vs rs q)
  ]

  view-delete_where :
      (vs : List MaterialVariant) (xs : List Action)
      → any_where (reads ids) xs ≡ false
      → view (delete_where p vs) xs ≡ view vs xs
  view-delete_where vs [] h = refl
  view-delete_where vs (a ∷ rest) h = elim (Bool-cases (reads ids a)) [
    | inl e ↦ let q : true ≡ false = rw e at h in cc
    | inr e ↦
        let q : any_where (reads ids) rest ≡ false = rw e at h in
        rw (view_refs-delete_where vs a.frame_refs e, view-delete_where vs rest q)
  ]

variant_apart :
    (i : String) (v : MaterialVariant) (k : String)
    → str_eq v.id k ≡ true
    → among k (i ∷ []) ≡ false
    → is_variant i v ≡ false
variant_apart i v k e h = ground (arith, eq_iff v.id k, eq_iff i k, eq_iff v.id i)

variant_apart_all :
    (ids : List String) (v : MaterialVariant) (k : String)
    → str_eq v.id k ≡ true
    → among k ids ≡ false
    → among v.id ids ≡ false
variant_apart_all ids v k e h = let same : v.id ≡ k = ground (arith, eq_iff v.id k) in rw same h

carried : (P : Domain → Type 0) {y z : Domain} → P y → ok y ≡ ok z → P z
carried P {y} {z} h e = let same : y ≡ z = cc in subst P same h

-- Where the deletion of a variant succeeds, the user asked for it, no action, source or variant names the
-- identifier any longer, and the actions are as they were and show what they showed.
pub cleanup_variant_lem :
    (i : String) (x : Bool) (d d1 : Domain)
    → cleanup_variant i x d ≡ ok d1
    → (x ≡ true)
      × LacksVariant i d1
      × (d1.actions ≡ d.actions)
      × (view d1.variants d1.actions ≡ view d.variants d.actions)
unfolding cleanup_variant
cleanup_variant_lem i x d d1 e =
    let (a, e1) = ok-require x not_explicit _ d1 e in
    let (b, e2) =
      ok-require (not (any_where (reads (i ∷ [])) d.actions)) still_referenced _ d1 e1 in
    let (c, e3) = ok-require (is_some (get_variant i d)) missing_variant _ d1 e2 in
    let unread = is_false (any_where (reads (i ∷ [])) d.actions) b in
    carried
      (λ d1.
        (x ≡ true)
        × LacksVariant i d1
        × (d1.actions ≡ d.actions)
        × (view d1.variants d1.actions ≡ view d.variants d.actions))
      (
        a,
        (any-delete_where (is_variant i) d.variants, unindexed i d.sources, unread),
        refl,
        view-delete_where (is_variant i) (i ∷ []) (variant_apart i) d.variants d.actions unread,
      )
      e3

-- Where the deletion of a source succeeds, the user asked for it, neither the source nor a variant of it
-- is left, no character lists it, and the actions are as they were and show what they showed.
pub delete_source_lem :
    (i : String) (x m : Bool) (d d1 : Domain)
    → delete_source i x m d ≡ ok d1
    → (x ≡ true)
      × LacksSource i d1
      × (d1.actions ≡ d.actions)
      × (view d1.variants d1.actions ≡ view d.variants d.actions)
unfolding delete_source
delete_source_lem i x m d d1 e =
    let ids = variants_of (i ∷ []) d in
    let (a, e1) = ok-require x not_explicit _ d1 e in
    let (b, e2) = ok-require (is_some (get_source i d)) missing_source _ d1 e1 in
    let (c, e3) = ok-require (not (any_where (reads ids) d.actions)) still_referenced _ d1 e2 in
    let (k, e4) = ok-require m unmanaged_asset _ d1 e3 in
    let unread = is_false (any_where (reads ids) d.actions) c in
    carried
      (λ d1.
        (x ≡ true)
        × LacksSource i d1
        × (d1.actions ≡ d.actions)
        × (view d1.variants d1.actions ≡ view d.variants d.actions))
      (
        a,
        (
          any-delete_where (is_source i) d.sources,
          orphans i ids d.variants (variants-Gathered i d.variants),
          unlisted i d.characters,
        ),
        refl,
        view-delete_where (λ (v : MaterialVariant). among v.id ids) ids (variant_apart_all ids)
            d.variants d.actions unread,
      )
      e4
