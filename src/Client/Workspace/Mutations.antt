-- ===== src/Client/Workspace/Mutations.antt =====
-- The operations of `WorkspaceRepository` on the domain document
-- (RotoWeaveClient/backend/app/workspace_repository.py). A new record's identifier is an argument; `strip` is
-- Python's. Records that exist are found by their identifier, and the first is changed.
pub mod Deletions
pub mod Settings
use rotoweave.Base.{
  ℕ, String, Bool, true, false, ◌&&◌, ◌||◌, not, Option, none, some, List, [], ◌∷◌, ◌++◌, map,
  str_eq, any_where, find_where, or_else, is_some, length, ◌==◌,
}
use rotoweave.Server.Logging.{Fields}
use rotoweave.Client.Workspace.Schema.{
  ActionSetting, not_exported, ExportState, Character, SourceFrame, MaterialSource, MaterialVariant,
  FrameRef, Action, Domain, is_character, is_source, is_variant, is_action, among, update_first,
  missing_character, missing_source, missing_action, empty_name, bad_selection, Result, ok,
  failed_by, and_then, require,
}
use rotoweave.Client.Workspace.Migration.{Migrated, migrate_action_refs}

abbrev pub get_character : String → Domain → Option Character
get_character i d = find_where (is_character i) d.characters

abbrev pub get_action : String → Domain → Option Action
get_action i d = find_where (is_action i) d.actions

abbrev pub get_source : String → Domain → Option MaterialSource
get_source i d = find_where (is_source i) d.sources

abbrev pub get_variant : String → Domain → Option MaterialVariant
get_variant i d = find_where (is_variant i) d.variants

abbrev pub on_character : String → (Character → Character) → Domain → Domain
on_character i f d = record d { characters = update_first (is_character i) f d.characters }

-- `create_domain_character`; `settings` are the calibration, the shadow and the
-- delivery of a new one.
unfoldable pub create_character :
    (String → String) → Fields → String → String → Domain → Result Domain
create_character strip settings i name d = ok (record d {
  characters =
      d.characters
      ++ (record {
        id = i;
        name = strip name;
        action_ids = [];
        source_ids = [];
        default_action_id = none;
        action_settings = [];
        settings = settings;
        export_state = record { status = not_exported; current_atlas = none };
      }
          ∷ []);
})

-- `update_domain_character`
unfoldable pub rename_character : (String → String) → String → String → Domain → Result Domain
rename_character strip i name d = require (not (str_eq (strip name) "")) empty_name (
    require (is_some (get_character i d)) missing_character
      (ok (on_character i (λ c. record c { name = strip name }) d)))

-- `create_material_source`, once the record is made.
unfoldable pub create_source : MaterialSource → Domain → Result Domain
create_source s d = require (is_some (get_character s.character_id d)) missing_character (
    ok
      (record (on_character s.character_id
        (λ c. record c { source_ids = c.source_ids ++ (s.id ∷ []) }) d) {
          sources = d.sources ++ (s ∷ []);
        }))

abbrev pub has_repeat : List String → Bool
has_repeat [] = false
has_repeat (i ∷ is) = among i is || has_repeat is

abbrev pub frame_ids : MaterialSource → List String
frame_ids s = map (λ (f : SourceFrame). f.id) s.frames

abbrev pub selected_frames : Option (List String) → MaterialSource → List String
selected_frames none s = frame_ids s
selected_frames (some is) s = is

-- The checks of `append_material_variant` before the change: `paths` and `emissions` are the numbers of
-- files given.
abbrev pub check_selection : MaterialSource → List String → ℕ → Option ℕ → Bool
check_selection s selected paths emissions =
    not (length selected == 0)
    && paths == length selected
    && not (has_repeat selected)
    && not (any_where (λ i. not (among i (frame_ids s))) selected)
    && (elim emissions [ none ↦ true | some n ↦ n == paths ])

abbrev pub index_variant : String → MaterialSource → MaterialSource
index_variant i s = record s { variant_ids = s.variant_ids ++ (i ∷ []) }

abbrev pub with_variant : MaterialVariant → Domain → Domain
with_variant v d = record d {
  sources = update_first (is_source v.source_id) (index_variant v.id) d.sources;
  variants = d.variants ++ (v ∷ []);
}

abbrev pub note_migration : Migrated → MaterialVariant → MaterialVariant
note_migration r v = record v { migrated_count = r.count; migrated_actions = r.affected }

abbrev pub with_migration : String → Domain → Migrated → Domain
with_migration i d r = record d {
  actions = r.actions;
  variants = update_first (is_variant i) (note_migration r) d.variants;
}

abbrev pub append_to :
    MaterialVariant
    → Option (List String)
    → ℕ
    → Option ℕ
    → Option MaterialSource
    → Domain
    → Result Domain
append_to v selection paths emissions none d = failed_by missing_source
append_to v selection paths emissions (some s) d =
    require (check_selection s (selected_frames selection s) paths emissions) bad_selection (
      and_then (migrate_action_refs (some v.source_id) (some v.id) false (with_variant v d))
        (λ r. ok (with_migration v.id (with_variant v d) r)))

-- `append_material_variant`, once the record is made from the selection.
unfoldable pub append_variant :
    MaterialVariant → Option (List String) → ℕ → Option ℕ → Domain → Result Domain
unfolding migrate_action_refs
append_variant v selection paths emissions d =
    append_to v selection paths emissions (get_source v.source_id d) d

abbrev pub add_action_to : String → ActionSetting → Character → Character
add_action_to i setting c = record c {
  action_ids = c.action_ids ++ (i ∷ []);
  action_settings = c.action_settings ++ ((i, setting) ∷ []);
  default_action_id = some (or_else c.default_action_id i);
}

-- `create_domain_action`
unfoldable pub create_action :
    (String → String) → ActionSetting → String → String → String → Domain → Result Domain
create_action strip setting i character name d =
    require (is_some (get_character character d)) missing_character (
      ok (record (on_character character (add_action_to i setting) d) {
        actions =
            d.actions
            ++ (record {
              id = i;
              character_id = character;
              name = strip name;
              preview_loop = true;
              loop = true;
              frame_refs = [];
            }
                ∷ []);
      }))

abbrev pub set_loop : Option Bool → Action → Action
set_loop none a = a
set_loop (some b) a = record a { preview_loop = b; loop = b }

abbrev pub set_name : Option String → Action → Action
set_name none a = a
set_name (some n) a = record a { name = n }

abbrev pub chosen_loop : Option Bool → Option Bool → Option Bool
chosen_loop (some b) loop = some b
chosen_loop none loop = loop

abbrev pub is_named : Option String → Bool
is_named none = true
is_named (some n) = not (str_eq n "")

abbrev pub stripped : (String → String) → Option String → Option String
stripped strip none = none
stripped strip (some n) = some (strip n)

-- `update_domain_action`
unfoldable pub update_action :
    (String → String) → String → Option String → Option Bool → Option Bool → Domain → Result Domain
update_action strip i name loop preview d = require (is_named (stripped strip name)) empty_name (
    require (is_some (get_action i d)) missing_action (
      ok (record d {
        actions =
            update_first (is_action i)
              (λ a. set_loop (chosen_loop preview loop) (set_name (stripped strip name) a))
              d.actions;
      })))

-- `replace_action_frame_refs`, of references that are normalised.
unfoldable pub replace_refs : String → List FrameRef → Domain → Result Domain
replace_refs i refs d = require (is_some (get_action i d)) missing_action (
    ok (record d {
      actions = update_first (is_action i) (λ a. record a { frame_refs = refs }) d.actions;
    }))

abbrev pub append_found_refs : String → List FrameRef → Option Action → Domain → Result Domain
append_found_refs i refs none d = failed_by missing_action
append_found_refs i refs (some a) d = replace_refs i (a.frame_refs ++ refs) d

-- `append_action_frame_refs`
unfoldable pub append_refs : String → List FrameRef → Domain → Result Domain
unfolding replace_refs
append_refs i refs d = append_found_refs i refs (get_action i d) d

-- `set_domain_export_state`
unfoldable pub set_export_state : String → ExportState → Domain → Result Domain
set_export_state i state d =
    require (is_some (get_character i d)) missing_character
      (ok (on_character i (λ c. record c { export_state = state }) d))
