-- ===== src/Client/Workspace/Commit.antt =====
-- How a change of the domain document is saved: `_mutate_domain` and `_write_aggregate`
-- (RotoWeaveClient/backend/app/workspace_repository.py), `finalize_aggregate` (workspace_format.py), and each
-- operation as data.
use rotoweave.Base.{
  ℕ, String, Bool, true, ◌&&◌, not, any_where, Option, none, some, List, [], ◌∷◌, str_eq,
  if◌then◌else◌,
}
use rotoweave.Server.Logging.{Json, Fields}
use rotoweave.Client.Workspace.Schema.{
  ActionSetting, ExportState, Character, among, MaterialSource, MaterialVariant, FrameRef, Domain,
  revision_conflict, invalid_domain, read_only, workspace_changed, Result, ok, failed_by, and_then,
  require,
}
use rotoweave.Client.Workspace.Mutations.{
  create_character, rename_character, create_source, append_variant, create_action, update_action,
  replace_refs, append_refs, set_export_state,
}
use rotoweave.Client.Workspace.Mutations.Deletions.{
  delete_character, delete_action, cleanup_variant, delete_source,
}
use rotoweave.Client.Workspace.Mutations.Settings.{
  Blocks, Changes, update_settings, set_core_reference, delete_core_reference,
}

-- The check of `validate_workspace_domain` that a character has settings of its own actions only.
abbrev pub settings_listed : List Character → Bool
settings_listed [] = true
settings_listed (c ∷ cs) =
    not (any_where (λ (e : String × ActionSetting). not (among e.0 c.action_ids)) c.action_settings)
    && settings_listed cs

-- `validate_workspace_domain` on a document of the current schema revision; `rest` stands for its other checks.
abbrev pub validates : (Domain → Bool) → Domain → Bool
validates rest d = settings_listed d.characters && rest d

-- What a repository holds of the document.
pub record Store : Type 0 where
  pub writable : Bool
  pub domain : Domain
  pub content_hash : String

-- What the comparison with the files on disk finds.
pub record Disk : Type 0 where
  pub same_document : Bool
  pub same_assets : Bool

-- `semantic_hash`: the revision does not count.
abbrev pub semantic_hash : (Domain → String) → Domain → String
semantic_hash digest d = digest (record d { revision_id = "" })

abbrev pub has_revision : Option String → Domain → Bool
has_revision none d = true
has_revision (some i) d = str_eq d.revision_id i

abbrev pub finalized : (Domain → String) → String → Domain → Store → Store
finalized digest revision d s = record s {
  domain = record d { revision_id = revision };
  content_hash = semantic_hash digest d;
}

module _ (digest : Domain → String) (is_valid : Domain → Bool) where
  -- `finalize_aggregate`, and what follows it in `_write_aggregate`.
  abbrev pub finalize : String → Store → Domain → Result Store
  finalize revision s d =
      if str_eq s.content_hash (semantic_hash digest d)
      then ok s
      else require (is_valid (record d { revision_id = revision })) invalid_domain
          (ok (finalized digest revision d s))

  abbrev pub write_aggregate : Disk → String → Store → Domain → Result Store
  write_aggregate disk revision s d = require s.writable read_only (
      require disk.same_assets workspace_changed
        (require disk.same_document workspace_changed (finalize revision s d)))

  -- `_mutate_domain`; `revision` is the identifier that a new revision gets.
  unfoldable pub mutate_domain :
      Disk → Option String → String → (Domain → Result Domain) → Store → Result Store
  mutate_domain disk expected revision mutator s = require disk.same_document workspace_changed (
      require (is_valid s.domain) invalid_domain (
        require (has_revision expected s.domain) revision_conflict
          (and_then (mutator s.domain) (write_aggregate disk revision s))))

-- The operations.
pub data Edit : Type 0 where
  create_character_edit : Fields → String → String → Edit
  rename_character_edit : String → String → Edit
  delete_character_edit : String → Edit
  create_source_edit : MaterialSource → Edit
  append_variant_edit : MaterialVariant → Option (List String) → ℕ → Option ℕ → Edit
  create_action_edit : ActionSetting → String → String → String → Edit
  update_action_edit : String → Option String → Option Bool → Option Bool → Edit
  delete_action_edit : String → Edit
  replace_refs_edit : String → List FrameRef → Edit
  append_refs_edit : String → List FrameRef → Edit
  cleanup_variant_edit : String → Bool → Edit
  delete_source_edit : String → Bool → Bool → Edit
  set_export_state_edit : String → ExportState → Edit
  update_settings_edit : Blocks → String → Changes → Edit
  set_core_reference_edit : Blocks → String → Json → Edit
  delete_core_reference_edit : Blocks → String → Edit

unfoldable pub apply_edit : (String → String) → Edit → Domain → Result Domain
unfolding create_character rename_character delete_character create_source append_variant
    create_action update_action delete_action replace_refs append_refs cleanup_variant delete_source
    set_export_state update_settings set_core_reference delete_core_reference
apply_edit strip (create_character_edit fs i n) d = create_character strip fs i n d
apply_edit strip (rename_character_edit i n) d = rename_character strip i n d
apply_edit strip (delete_character_edit i) d = delete_character i d
apply_edit strip (create_source_edit s) d = create_source s d
apply_edit strip (append_variant_edit v is n e) d = append_variant v is n e d
apply_edit strip (create_action_edit x i c n) d = create_action strip x i c n d
apply_edit strip (update_action_edit i n l p) d = update_action strip i n l p d
apply_edit strip (delete_action_edit i) d = delete_action i d
apply_edit strip (replace_refs_edit i rs) d = replace_refs i rs d
apply_edit strip (append_refs_edit i rs) d = append_refs i rs d
apply_edit strip (cleanup_variant_edit i e) d = cleanup_variant i e d
apply_edit strip (delete_source_edit i e m) d = delete_source i e m d
apply_edit strip (set_export_state_edit i e) d = set_export_state i e d
apply_edit strip (update_settings_edit b i x) d = update_settings b i x d
apply_edit strip (set_core_reference_edit b i a) d = set_core_reference b i a d
apply_edit strip (delete_core_reference_edit b i) d = delete_core_reference b i d

-- One request: what the disk holds, the revision that the caller read, the identifier for the next one.
pub record Request : Type 0 where
  pub disk : Disk
  pub expected : Option String
  pub revision : String
  pub edit : Edit

abbrev pub or_kept : Store → Result Store → Store
or_kept s (ok s1) = s1
or_kept s (failed_by e) = s

-- A history of requests; one that fails writes nothing.
unfoldable pub run :
    (Domain → String) → (Domain → Bool) → (String → String) → List Request → Store → Store
unfolding mutate_domain apply_edit
run digest is_valid strip [] s = s
run digest is_valid strip (r ∷ rs) s = run digest is_valid strip rs (
    or_kept s
      (mutate_domain digest is_valid r.disk r.expected r.revision (apply_edit strip r.edit) s))
