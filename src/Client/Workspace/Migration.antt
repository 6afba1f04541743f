-- ===== src/Client/Workspace/Migration.antt =====
-- `WorkspaceRepository._migrate_action_refs_to_latest_variants`
-- (RotoWeaveClient/backend/app/workspace_repository.py).
pub mod Frames
pub mod Shows
use rotoweave.Base.{
  ℕ, ◌+◌, String, Bool, true, false, ◌&&◌, ◌||◌, not, Option, none, some, List, [], ◌∷◌, ◌++◌, map,
  str_eq, if◌then◌else◌, any_where, find_where, or_else, select_where,
}
use rotoweave.Client.Workspace.Schema.{
  SourceFrame, MaterialSource, VariantFrame, MaterialVariant, FrameRef, Action, Domain, is_variant,
  among, missing_variant, bad_mapping, Result, ok, failed_by, and_then, require,
}

-- The dictionary from a source frame to the frame of the latest variant.
abbrev pub FrameMap : Type 0
FrameMap = List (String × String)

abbrev pub lookup : String → FrameMap → Option String
lookup k [] = none
lookup k ((i, v) ∷ rest) = if str_eq i k then some v else lookup k rest

abbrev pub covers : String → FrameMap → Bool
covers k m = any_where (λ (e : String × String). str_eq e.0 k) m

-- The loop that fills the dictionary.
unfoldable pub map_frames : List VariantFrame → FrameMap → Result FrameMap
map_frames [] m = ok m
map_frames (f ∷ fs) m =
    let rest = map_frames fs (m ++ ((f.source_frame_id, f.id) ∷ [])) in
    if str_eq f.source_frame_id "" || str_eq f.id "" || covers f.source_frame_id m
    then failed_by bad_mapping
    else rest

abbrev pub is_frame : String → VariantFrame → Bool
is_frame i f = str_eq f.id i

abbrev pub frames_of : Option MaterialVariant → List VariantFrame
frames_of none = []
frames_of (some v) = v.frames

abbrev pub source_frame_of : Option VariantFrame → Option String
source_frame_of none = none
source_frame_of (some f) = some f.source_frame_id

-- The source frame that a reference shows.
abbrev pub shows : List MaterialVariant → FrameRef → Option String
shows variants ref = source_frame_of (
    find_where (is_frame ref.frame_id)
      (frames_of (find_where (is_variant ref.variant_id) variants)))

-- `latest_by_source_frame.get(source_frame_id)`, of the empty text where nothing is shown.
abbrev pub next_frame : FrameMap → Option String → Option String
next_frame m shown = lookup (or_else shown "") m

abbrev pub moved : String → String → FrameRef → FrameRef
moved latest frame ref = record ref { variant_id = latest; frame_id = frame }

abbrev pub moved_to : String → Option String → FrameRef → FrameRef
moved_to latest none ref = ref
moved_to latest (some frame) ref =
    if str_eq ref.variant_id latest && str_eq ref.frame_id frame
    then ref
    else moved latest frame ref

-- The loop body for one reference.
unfoldable pub migrate_ref :
    List MaterialVariant → List String → String → FrameMap → FrameRef → FrameRef
migrate_ref variants variant_ids latest m ref =
    if among ref.variant_id variant_ids
    then moved_to latest (next_frame m (shows variants ref)) ref
    else ref

abbrev pub is_moved : FrameRef → FrameRef → Bool
is_moved before after =
    not (str_eq before.variant_id after.variant_id && str_eq before.frame_id after.frame_id)

abbrev pub count_moved : (FrameRef → FrameRef) → List FrameRef → ℕ
count_moved f [] = 0
count_moved f (r ∷ rs) = (if is_moved r (f r) then 1 else 0) + count_moved f rs

-- The actions after a migration, the number of references moved and the actions that hold them.
pub record Migrated : Type 0 where
  pub actions : List Action
  pub count : ℕ
  pub affected : List String

abbrev pub add_action : (FrameRef → FrameRef) → Bool → Action → Migrated → Migrated
add_action f false a r = record r { actions = a ∷ r.actions }
add_action f true a r = record {
  actions = record a { frame_refs = map f a.frame_refs } ∷ r.actions;
  count = count_moved f a.frame_refs + r.count;
  affected =
      if any_where (λ ref. is_moved ref (f ref)) a.frame_refs
      then a.id ∷ r.affected
      else r.affected;
}

-- The loop over the actions of the source's character.
unfoldable pub migrate_actions : (FrameRef → FrameRef) → String → List Action → Migrated
migrate_actions f character [] = record { actions = []; count = 0; affected = [] }
migrate_actions f character (a ∷ rest) =
    add_action f (str_eq a.character_id character) a (migrate_actions f character rest)

abbrev pub all_covered : MaterialSource → FrameMap → Bool
all_covered s m = not (any_where (λ (f : SourceFrame). not (covers f.id m)) s.frames)

abbrev pub all_known : MaterialSource → FrameMap → Bool
all_known s m = not (
    any_where
      (λ (e : String × String). not (any_where (λ (f : SourceFrame). str_eq f.id e.0) s.frames)) m)

abbrev pub check_map : MaterialSource → Bool → FrameMap → Result FrameMap
check_map s require_complete m =
    require (not require_complete || (all_covered s m && all_known s m)) bad_mapping
      (require (all_known s m) bad_mapping (ok m))

abbrev pub map_of_latest : MaterialSource → Bool → Option MaterialVariant → Result FrameMap
map_of_latest s require_complete none = failed_by missing_variant
map_of_latest s require_complete (some v) =
    require (str_eq v.source_id s.id) missing_variant
      (and_then (map_frames v.frames []) (check_map s require_complete))

abbrev pub migrate_to : MaterialSource → Bool → String → Domain → Result Migrated
migrate_to s require_complete latest d = require (among latest s.variant_ids) missing_variant (
    and_then (map_of_latest s require_complete (find_where (is_variant latest) d.variants)) (λ m.
      ok
        (migrate_actions (migrate_ref d.variants s.variant_ids latest m) s.character_id d.actions)))

abbrev pub last_or : List String → String → String
last_or [] i = i
last_or (j ∷ js) i = last_or js j

abbrev pub latest_of : Option String → List String → Option String
latest_of latest [] = none
latest_of (some i) (j ∷ js) = if str_eq i "" then some (last_or js j) else some i
latest_of none (j ∷ js) = some (last_or js j)

abbrev pub nothing_moved : Domain → Migrated
nothing_moved d = record { actions = d.actions; count = 0; affected = [] }

abbrev pub migrate_latest : MaterialSource → Bool → Option String → Domain → Result Migrated
migrate_latest s require_complete none d = ok (nothing_moved d)
migrate_latest s require_complete (some latest) d = migrate_to s require_complete latest d

-- The loop over the sources.
unfoldable pub migrate_each :
    List MaterialSource → Option String → Bool → Domain → Migrated → Result Migrated
unfolding map_frames migrate_ref migrate_actions
migrate_each [] latest require_complete d r = ok r
migrate_each (s ∷ ss) latest require_complete d r =
    and_then
      (migrate_latest s require_complete (latest_of latest s.variant_ids)
        (record d { actions = r.actions }))
      (λ q. migrate_each ss latest require_complete d (record {
        actions = q.actions;
        count = r.count + q.count;
        affected = r.affected ++ q.affected;
      }))

abbrev pub is_wanted : Option String → MaterialSource → Bool
is_wanted none s = true
is_wanted (some i) s = str_eq s.id i

unfoldable pub migrate_action_refs : Option String → Option String → Bool → Domain → Result Migrated
unfolding migrate_each
migrate_action_refs source latest require_complete d =
    migrate_each (select_where (is_wanted source) d.sources) latest require_complete d
      (nothing_moved d)
