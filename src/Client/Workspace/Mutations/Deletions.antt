-- ===== src/Client/Workspace/Mutations/Deletions.antt =====
-- The deletions of `WorkspaceRepository` (RotoWeaveClient/backend/app/workspace_repository.py).
use rotoweave.Base.{
  String, Bool, false, not, Option, none, some, List, [], ◌∷◌, map, str_eq, if◌then◌else◌,
  any_where, select_where, delete_where, is_some,
}
use rotoweave.Client.Workspace.Schema.{
  ActionSetting, Character, MaterialSource, MaterialVariant, FrameRef, Action, Domain, is_character,
  is_source, is_variant, is_action, among, missing_character, missing_source, missing_variant,
  missing_action, still_referenced, not_explicit, unmanaged_asset, stop_iteration, Result, ok,
  failed_by, require,
}
use rotoweave.Client.Workspace.Mutations.{
  get_character, get_action, get_source, get_variant, on_character,
}

abbrev pub sources_of : String → Domain → List String
sources_of i d =
    map (λ (s : MaterialSource). s.id)
      (select_where (λ (s : MaterialSource). str_eq s.character_id i) d.sources)

abbrev pub variants_of : List String → Domain → List String
variants_of source_ids d =
    map (λ (v : MaterialVariant). v.id)
      (select_where (λ (v : MaterialVariant). among v.source_id source_ids) d.variants)

-- `delete_domain_character`
unfoldable pub delete_character : String → Domain → Result Domain
delete_character i d = require (is_some (get_character i d)) missing_character (
    ok (record d {
      actions = delete_where (λ (a : Action). str_eq a.character_id i) d.actions;
      variants =
          delete_where (λ (v : MaterialVariant). among v.id (variants_of (sources_of i d) d))
            d.variants;
      sources = delete_where (λ (s : MaterialSource). among s.id (sources_of i d)) d.sources;
      characters = delete_where (is_character i) d.characters;
    }))

abbrev pub first_of : List String → Option String
first_of [] = none
first_of (i ∷ is) = some i

abbrev pub is_default : String → Character → Bool
is_default i c = elim c.default_action_id [ none ↦ false | some k ↦ str_eq k i ]

abbrev pub without_action : String → Character → Character
without_action i c = record c {
  action_ids = delete_where (λ k. str_eq k i) c.action_ids;
  action_settings = delete_where (λ (e : String × ActionSetting). str_eq e.0 i) c.action_settings;
  default_action_id =
      if is_default i c
      then first_of (delete_where (λ k. str_eq k i) c.action_ids)
      else c.default_action_id;
}

abbrev pub delete_found_action : String → Option Action → Domain → Result Domain
delete_found_action i none d = failed_by missing_action
delete_found_action i (some a) d =
    require (is_some (get_character a.character_id d)) stop_iteration (
      ok (record (on_character a.character_id (without_action i) d) {
        actions = delete_where (is_action i) d.actions;
      }))

-- `delete_domain_action`
unfoldable pub delete_action : String → Domain → Result Domain
delete_action i d = delete_found_action i (get_action i d) d

abbrev pub reads : List String → Action → Bool
reads variants a = any_where (λ (r : FrameRef). among r.variant_id variants) a.frame_refs

abbrev pub unindex_variant : String → MaterialSource → MaterialSource
unindex_variant i s = record s { variant_ids = delete_where (λ k. str_eq k i) s.variant_ids }

-- `cleanup_material_variant`
unfoldable pub cleanup_variant : String → Bool → Domain → Result Domain
cleanup_variant i explicit d = require explicit not_explicit (
    require (not (any_where (reads (i ∷ [])) d.actions)) still_referenced (
      require (is_some (get_variant i d)) missing_variant (
        ok (record d {
          variants = delete_where (is_variant i) d.variants;
          sources = map (unindex_variant i) d.sources;
        }))))

abbrev pub unindex_source : String → Character → Character
unindex_source i c = record c { source_ids = delete_where (λ k. str_eq k i) c.source_ids }

-- `delete_material_source`; `managed` tells that each file lies in the workspace's materials.
unfoldable pub delete_source : String → Bool → Bool → Domain → Result Domain
delete_source i explicit managed d = require explicit not_explicit (
    require (is_some (get_source i d)) missing_source (
      require (not (any_where (reads (variants_of (i ∷ []) d)) d.actions)) still_referenced (
        require managed unmanaged_asset (
          ok (record d {
            variants =
                delete_where (λ (v : MaterialVariant). among v.id (variants_of (i ∷ []) d))
                  d.variants;
            sources = delete_where (is_source i) d.sources;
            characters = map (unindex_source i) d.characters;
          })))))
