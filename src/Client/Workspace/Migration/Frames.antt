-- ===== src/Client/Workspace/Migration/Frames.antt =====
-- A migration changes the variant that a reference reads, never the source frame that it shows.
use rotoweave.Base.{
  String, Bool, true, false, ◌≡◌, refl, sym, ◌∙◌, ◌&&◌, ◌||◌, not, Option, none, some, List, [],
  ◌∷◌, ◌++◌, inl, inr, ◌⊎◌, Bool-cases, str_eq, str_eq_refl, eq_iff, any_where, is_some, find_where,
  or_else, arith,
}
use rotoweave.Client.Workspace.Schema.{
  VariantFrame, MaterialVariant, FrameRef, is_variant, among, Failure, bad_mapping, Result, ok,
  failed_by, and_then, require,
}
use rotoweave.Client.Workspace.Migration.{
  FrameMap, lookup, covers, map_frames, is_frame, source_frame_of, shows, next_frame, moved,
  moved_to, migrate_ref,
}

pub ok-and_then :
    {A B : Type 0} (r : Result A) (f : A → Result B) (b : B)
    → and_then r f ≡ ok b
    → (a : A) × (r ≡ ok a) × (f a ≡ ok b)
ok-and_then (ok a) f b e = (a, refl, e)
ok-and_then (failed_by x) f b e = cc

pub ok-require :
    {A : Type 0} (t : Bool) (x : Failure) (r : Result A) (a : A)
    → require t x r ≡ ok a
    → (t ≡ true) × (r ≡ ok a)
ok-require true x r a e = (refl, e)
ok-require false x r a e = cc

-- Some frame of the list has the identifier `f` and shows the source frame `k`.
abbrev is_mapped : String → String → VariantFrame → Bool
is_mapped k f g = str_eq g.source_frame_id k && str_eq g.id f && not (str_eq g.source_frame_id "")

abbrev maps : String → String → List VariantFrame → Bool
maps k f fs = any_where (is_mapped k f) fs

lookup-append :
    (k i v f : String) (m : FrameMap)
    → lookup k (m ++ ((i, v) ∷ [])) ≡ some f
    → (lookup k m ≡ some f) ⊎ ((str_eq i k ≡ true) × (v ≡ f))
lookup-append k i v f [] e = elim (Bool-cases (str_eq i k)) [
  | inl q ↦ let r : some v ≡ some f = rw q at e in inr (q, cc)
  | inr q ↦ let r : none ≡ some f = rw q at e in cc
]
lookup-append k i v f ((j, x) ∷ m) e = elim (Bool-cases (str_eq j k)) [
  | inl q ↦ let r : some x ≡ some f = rw q at e in inl (rw q r)
  | inr q ↦
      let r : lookup k (m ++ ((i, v) ∷ [])) ≡ some f = rw q at e in rw q (lookup-append k i v f m r)
]

lookup-map_frames :
    (fs : List VariantFrame) (m0 m : FrameMap) (k f : String)
    → map_frames fs m0 ≡ ok m
    → lookup k m ≡ some f
    → (lookup k m0 ≡ some f) ⊎ (maps k f fs ≡ true)
unfolding map_frames
lookup-map_frames [] m0 m k f e h = let same : m0 ≡ m = cc in inl (rw same h)
lookup-map_frames (g ∷ gs) m0 m k f e h =
    elim (Bool-cases
      (str_eq g.source_frame_id "" || str_eq g.id "" || covers g.source_frame_id m0)) [
        | inl q ↦ let r : failed_by bad_mapping ≡ ok m = rw q at e in cc
        | inr q ↦
            let r : map_frames gs (m0 ++ ((g.source_frame_id, g.id) ∷ [])) ≡ ok m = rw q at e in
            let filled : str_eq g.source_frame_id "" ≡ false = ground arith in
            elim (lookup-map_frames gs (m0 ++ ((g.source_frame_id, g.id) ∷ [])) m k f r h) [
              | inl a ↦ elim (lookup-append k g.source_frame_id g.id f m0 a) [
                | inl b ↦ inl b
                | inr b ↦ inr (here g gs k f b.0 b.1 filled)
              ]
              | inr a ↦ inr (ground arith)
            ]
      ]
  where
    here :
        (g : VariantFrame) (gs : List VariantFrame) (k f : String)
        → str_eq g.source_frame_id k ≡ true
        → g.id ≡ f
        → str_eq g.source_frame_id "" ≡ false
        → maps k f (g ∷ gs) ≡ true
    here g gs k f a b c = let same : str_eq g.id f ≡ true = rw b (str_eq_refl f) in rw (a, same, c)

-- No two frames of the list have one identifier.
abbrev pub DistinctFrames : List VariantFrame → Type 0
DistinctFrames [] = Unit
DistinctFrames (g ∷ gs) = (any_where (is_frame g.id) gs ≡ false) × DistinctFrames gs

maps-is_frame :
    (k f : String) (fs : List VariantFrame) → maps k f fs ≡ true → any_where (is_frame f) fs ≡ true
maps-is_frame k f [] h = h
maps-is_frame k f (g ∷ gs) h = ground (arith, maps-is_frame k f gs)

shows-maps :
    (k f : String) (fs : List VariantFrame)
    → DistinctFrames fs
    → maps k f fs ≡ true
    → source_frame_of (find_where (is_frame f) fs) ≡ some k
shows-maps k f [] d h = cc
shows-maps k f (g ∷ gs) d h = elim (Bool-cases (str_eq g.id f)) [
  | inl q ↦
      let same : g.id ≡ f = ground (arith, eq_iff g.id f) in
      let alone : any_where (is_frame f) gs ≡ false = rw same at d.0 in
      let mine : str_eq g.source_frame_id k ≡ true = ground (arith, maps-is_frame k f gs) in
      let shown : g.source_frame_id ≡ k = ground (arith, eq_iff g.source_frame_id k) in
      rw (q, shown)
  | inr q ↦ rw q (shows-maps k f gs d.1 (ground arith))
]

maps-empty : (f : String) (fs : List VariantFrame) → maps "" f fs ≡ false
maps-empty f [] = refl
maps-empty f (g ∷ gs) = ground (arith, maps-empty f gs)

covers-append :
    (k i v : String) (m : FrameMap) → covers k (m ++ ((i, v) ∷ [])) ≡ (covers k m || str_eq i k)
covers-append k i v [] = ground arith
covers-append k i v (e ∷ m) = ground (arith, covers-append k i v m)

-- A frame of the list shows the source frame `k`.
abbrev pub is_shown : String → List VariantFrame → Bool
is_shown k fs = any_where (λ (g : VariantFrame). str_eq g.source_frame_id k) fs

pub covers-map_frames :
    (fs : List VariantFrame) (m0 m : FrameMap) (k : String)
    → map_frames fs m0 ≡ ok m
    → covers k m ≡ (covers k m0 || is_shown k fs)
unfolding map_frames
covers-map_frames [] m0 m k e = let same : m0 ≡ m = cc in rw (sym same) (ground arith)
covers-map_frames (g ∷ gs) m0 m k e =
    elim (Bool-cases
      (str_eq g.source_frame_id "" || str_eq g.id "" || covers g.source_frame_id m0)) [
        | inl q ↦ let r : failed_by bad_mapping ≡ ok m = rw q at e in cc
        | inr q ↦
            let r : map_frames gs (m0 ++ ((g.source_frame_id, g.id) ∷ [])) ≡ ok m = rw q at e in
            ground (
              arith,
              covers-map_frames gs (m0 ++ ((g.source_frame_id, g.id) ∷ [])) m k r,
              covers-append k g.source_frame_id g.id m0,
            )
      ]

pub lookup-covers : (k : String) (m : FrameMap) → is_some (lookup k m) ≡ covers k m
lookup-covers k [] = refl
lookup-covers k ((i, v) ∷ m) = ground (arith, lookup-covers k m)

-- The latest variant, found and mapped.
pub record IsLatest (variants : List MaterialVariant) (latest : String) (v : MaterialVariant)
    (m : FrameMap) : Type 0 where
  pub found : find_where (is_variant latest) variants ≡ some v
  pub mapped : map_frames v.frames [] ≡ ok m
  pub distinct : DistinctFrames v.frames

module _ (variants : List MaterialVariant) (latest : String) (v : MaterialVariant) (m : FrameMap)
    (l : IsLatest variants latest v m) where
  shows-moved :
      (ref : FrameRef) (k f : String)
      → lookup k m ≡ some f
      → shows variants (moved latest f ref) ≡ some k
  shows-moved ref k f h = elim (lookup-map_frames v.frames [] m k f l.mapped h) [
    | inl a ↦ cc
    | inr a ↦ rw l.found (shows-maps k f v.frames l.distinct a)
  ]

  moved_to-shows :
      (ref : FrameRef) (o : Option String)
      → next_frame m (shows variants ref) ≡ o
      → shows variants (moved_to latest o ref) ≡ shows variants ref
  moved_to-shows ref none e = refl
  moved_to-shows ref (some f) e =
      elim (Bool-cases (str_eq ref.variant_id latest && str_eq ref.frame_id f)) [
        | inl q ↦ rw q
        | inr q ↦ rw q (go (shows variants ref) e)
      ]
    where
      go :
          (shown : Option String)
          → next_frame m shown ≡ some f
          → shows variants (moved latest f ref) ≡ shown
      go none h = elim (lookup-map_frames v.frames [] m "" f l.mapped h) [
        | inl a ↦ cc
        | inr a ↦ let absurd : false ≡ true = sym (maps-empty f v.frames) ∙ a in cc
      ]
      go (some k) h = shows-moved ref k f h

  pub migrate_ref-shows :
      (ids : List String) (ref : FrameRef)
      → shows variants (migrate_ref variants ids latest m ref) ≡ shows variants ref
  unfolding migrate_ref
  migrate_ref-shows ids ref = elim (Bool-cases (among ref.variant_id ids)) [
    | inl e ↦ rw e (moved_to-shows ref (next_frame m (shows variants ref)) refl)
    | inr e ↦ rw e
  ]

-- The reference reads an older variant of the source although the latest has a frame for it.
abbrev pub is_stale :
    List MaterialVariant → List String → String → List VariantFrame → FrameRef → Bool
is_stale variants ids latest frames ref =
    among ref.variant_id ids
    && not (str_eq ref.variant_id latest)
    && is_shown (or_else (shows variants ref) "") frames
