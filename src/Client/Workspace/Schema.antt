-- ===== src/Client/Workspace/Schema.antt =====
-- The domain document of a workspace (`new_workspace_domain` in
-- RotoWeaveClient/backend/app/workspace_format.py): its records and the lists that hold them. The settings
-- that no operation reads are kept as JSON. Identifiers of one list differ in a document that
-- `_domain_records` accepts, so the first record found is the only one.
use rotoweave.Base.{
  ℕ, String, Bool, true, false, Option, List, [], ◌∷◌, str_eq, if◌then◌else◌, any_where,
}
use rotoweave.Server.Logging.{Json, Fields}

-- The delivery settings of one action: an object with textureScale, runtimeLoop and includeInExport.
abbrev pub ActionSetting : Type 0
ActionSetting = Json

pub data ExportStatus : Type 0 where
  not_exported stale current failed : ExportStatus

pub record ExportState : Type 0 where
  pub status : ExportStatus
  pub current_atlas : Option Fields

-- `settings` holds the calibration, the shadow and the delivery, which has its defaultActionId and its
-- actionSettings in fields of their own.
pub record Character : Type 0 where
  pub id : String
  pub name : String
  pub action_ids : List String
  pub source_ids : List String
  pub default_action_id : Option String
  pub action_settings : List (String × ActionSetting)
  pub settings : Fields
  pub export_state : ExportState

pub record SourceFrame : Type 0 where
  pub id : String
  pub asset : Fields

pub record MaterialSource : Type 0 where
  pub id : String
  pub character_id : String
  pub display_name : String
  pub details : Fields
  pub frames : List SourceFrame
  pub variant_ids : List String

pub record VariantFrame : Type 0 where
  pub id : String
  pub source_frame_id : String
  pub asset : Fields

pub record MaterialVariant : Type 0 where
  pub id : String
  pub source_id : String
  pub kind : String
  pub settings : Fields
  pub frames : List VariantFrame
  pub migrated_count : ℕ
  pub migrated_actions : List String

pub record FrameRef : Type 0 where
  pub id : String
  pub variant_id : String
  pub frame_id : String
  pub duration : Json
  pub enabled : Bool
  pub transform : Fields

pub record Action : Type 0 where
  pub id : String
  pub character_id : String
  pub name : String
  pub preview_loop : Bool
  pub loop : Bool
  pub frame_refs : List FrameRef

pub record Domain : Type 0 where
  pub revision_id : String
  pub characters : List Character
  pub actions : List Action
  pub sources : List MaterialSource
  pub variants : List MaterialVariant

abbrev pub is_character : String → Character → Bool
is_character i c = str_eq c.id i

abbrev pub is_source : String → MaterialSource → Bool
is_source i s = str_eq s.id i

abbrev pub is_variant : String → MaterialVariant → Bool
is_variant i v = str_eq v.id i

abbrev pub is_action : String → Action → Bool
is_action i a = str_eq a.id i

-- `i in ids`
abbrev pub among : String → List String → Bool
among i ids = any_where (λ k. str_eq k i) ids

-- The first record that a test finds is changed.
abbrev pub update_first {ℓ} : {A : Type ℓ} → (A → Bool) → (A → A) → List A → List A
update_first p f [] = []
update_first p f (x ∷ xs) = let rest = update_first p f xs in if p x then f x ∷ xs else x ∷ rest

-- What an operation raises.
pub data Failure : Type 0 where
  revision_conflict missing_character missing_source missing_variant missing_action : Failure
  empty_name still_referenced not_explicit unmanaged_asset bad_selection bad_mapping : Failure
  stop_iteration unsupported_settings invalid_domain read_only workspace_changed : Failure

pub data Result (A : Type 0) : Type 0 where
  ok : A → Result A
  failed_by : Failure → Result A

abbrev pub and_then : {A B : Type 0} → Result A → (A → Result B) → Result B
and_then (ok a) f = f a
and_then (failed_by e) f = failed_by e

abbrev pub require : {A : Type 0} → Bool → Failure → Result A → Result A
require true e r = r
require false e r = failed_by e
