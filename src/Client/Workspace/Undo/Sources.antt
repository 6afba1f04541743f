-- ===== src/Client/Workspace/Undo/Sources.antt =====
-- The deletion of a source takes back its creation.
use rotoweave.Base.{
  String, true, false, ◌≡◌, refl, sym, ◌∙◌, ap, List, [], ◌∷◌, ◌++◌, map, str_eq, str_eq_refl,
  eq_iff, inl, inr, Bool-cases, any_where, delete_where, select_where, is_some, arith,
}
use rotoweave.Client.Workspace.Schema.{
  Character, MaterialSource, MaterialVariant, FrameRef, Action, Domain, is_character, is_source,
  among, update_first, missing_character, ok,
}
use rotoweave.Client.Workspace.Migration.Frames.{ok-require}
use rotoweave.Client.Workspace.Mutations.{get_character, on_character, create_source}
use rotoweave.Client.Workspace.Mutations.Deletions.{delete_source, unindex_source, reads}
use rotoweave.Client.Workspace.Lists.{delete_where-none, delete_where-last, find-last}

own_none :
    (i : String) (vs : List MaterialVariant)
    → any_where (λ (v : MaterialVariant). str_eq v.source_id i) vs ≡ false
    → select_where (λ (v : MaterialVariant). among v.source_id (i ∷ [])) vs ≡ []
own_none i [] h = refl
own_none i (v ∷ vs) h = elim (Bool-cases (str_eq v.source_id i)) [
  | inl e ↦ let r : true ≡ false = rw e at h in cc
  | inr e ↦
      let r : any_where (λ (v : MaterialVariant). str_eq v.source_id i) vs ≡ false = rw e at h in
      let apart : str_eq i v.source_id ≡ false =
        ground (arith, e, eq_iff v.source_id i, eq_iff i v.source_id) in
      rw apart (own_none i vs r)
]

no_refs : (rs : List FrameRef) → any_where (λ (r : FrameRef). among r.variant_id []) rs ≡ false
no_refs [] = refl
no_refs (r ∷ rs) = no_refs rs

no_reads : (xs : List Action) → any_where (reads []) xs ≡ false
no_reads [] = refl
no_reads (a ∷ xs) = rw (no_refs a.frame_refs, no_reads xs)

none_of :
    (vs : List MaterialVariant) → delete_where (λ (v : MaterialVariant). among v.id []) vs ≡ vs
none_of [] = refl
none_of (v ∷ vs) = ap (λ ys. v ∷ ys) (none_of vs)

-- No record names the identifier of a source.
abbrev pub IsFreshSource : String → Domain → Type 0
IsFreshSource i d =
    (any_where (is_source i) d.sources ≡ false)
    × (any_where (λ (v : MaterialVariant). str_eq v.source_id i) d.variants ≡ false)
    × (any_where (λ (c : Character). among i c.source_ids) d.characters ≡ false)

unindexed :
    (i : String) (cs : List Character)
    → any_where (λ (c : Character). among i c.source_ids) cs ≡ false
    → map (unindex_source i) cs ≡ cs
unindexed i [] h = refl
unindexed i (c ∷ cs) h = elim (Bool-cases (among i c.source_ids)) [
  | inl e ↦ let r : true ≡ false = rw e at h in cc
  | inr e ↦
      let r : any_where (λ (c : Character). among i c.source_ids) cs ≡ false = rw e at h in
      rw (delete_where-none (λ k. str_eq k i) c.source_ids e, unindexed i cs r)
]

reindexed :
    (i k : String) (cs : List Character)
    → any_where (λ (c : Character). among i c.source_ids) cs ≡ false
    → map
        (unindex_source i)
        (update_first (is_character k) (λ c. record c { source_ids = c.source_ids ++ (i ∷ []) }) cs)
      ≡ cs
reindexed i k [] h = refl
reindexed i k (c ∷ cs) h = elim (Bool-cases (among i c.source_ids)) [
  | inl e ↦ let r : true ≡ false = rw e at h in cc
  | inr e ↦
      let r : any_where (λ (c : Character). among i c.source_ids) cs ≡ false = rw e at h in
      elim (Bool-cases (is_character k c)) [
        | inl q ↦ rw q (
            rw (
              delete_where-last (λ k. str_eq k i) c.source_ids i e (str_eq_refl i),
              unindexed i cs r,
            ))
        | inr q ↦ rw q (rw (delete_where-none (λ k. str_eq k i) c.source_ids e, reindexed i k cs r))
      ]
]

undone :
    (s : MaterialSource) (d : Domain) {x : Domain}
    → IsFreshSource s.id d
    → x
      ≡ (record (on_character s.character_id
          (λ c. record c { source_ids = c.source_ids ++ (s.id ∷ []) })
          d) { sources = d.sources ++ (s ∷ []) })
    → delete_source s.id true true x ≡ ok d
unfolding delete_source
undone s d {x} h e = rw e (
    rw
      (
        find-last (is_source s.id) d.sources s h.0 (str_eq_refl s.id),
        own_none s.id d.variants h.1,
        no_reads d.actions,
      )
      (rw (
        none_of d.variants,
        delete_where-last (is_source s.id) d.sources s h.0 (str_eq_refl s.id),
        reindexed s.id s.character_id d.characters h.2,
      )))

created :
    (s : MaterialSource) (d d1 : Domain) {x : Domain}
    → IsFreshSource s.id d
    → x
      ≡ (record (on_character s.character_id
          (λ c. record c { source_ids = c.source_ids ++ (s.id ∷ []) })
          d) { sources = d.sources ++ (s ∷ []) })
    → ok x ≡ ok d1
    → delete_source s.id true true d1 ≡ ok d
created s d d1 {x} h e q = let same : x ≡ d1 = cc in undone s d h (sym same ∙ e)

-- The deletion of a source that has just been created, under an identifier that no record names, restores
-- the document as it was.
pub delete_source-create_source :
    (s : MaterialSource) (d d1 : Domain)
    → IsFreshSource s.id d
    → create_source s d ≡ ok d1
    → delete_source s.id true true d1 ≡ ok d
unfolding create_source
delete_source-create_source s d d1 h e =
    let (a, e1) = ok-require (is_some (get_character s.character_id d)) missing_character _ d1 e in
    created s d d1 h refl e1
