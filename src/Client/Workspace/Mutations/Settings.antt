-- ===== src/Client/Workspace/Mutations/Settings.antt =====
-- `update_domain_character_settings`, `set_domain_core_reference` and `delete_domain_core_reference`
-- (RotoWeaveClient/backend/app/workspace_repository.py), as changes of the document; the files of a
-- reference are left out.
use rotoweave.Base.{
  String, Bool, true, ◌&&◌, Option, none, some, List, [], ◌∷◌, map, str_eq, is_some, or_else,
  if◌then◌else◌,
}
use rotoweave.Server.Logging.{
  Json, null, bool, number, text, array, object, Items, nil, item, Fields, end, field, set_default,
}
use rotoweave.Client.Workspace.Schema.{
  ActionSetting, Character, Domain, among, missing_character, unsupported_settings, Result, ok,
  require,
}
use rotoweave.Client.Workspace.Mutations.{get_character, on_character}

abbrev pub value_at : String → Fields → Option Json
value_at k end = none
value_at k (field j v fs) = let rest = value_at k fs in if str_eq j k then some v else rest

-- `d[key] = value`
abbrev pub put : String → Json → Fields → Fields
put k v end = field k v end
put k v (field j w fs) =
    let rest = put k v fs in if str_eq j k then field j v fs else field j w rest

-- `merge`: an object is merged into an object, any other value takes the place of the old one.
unfoldable mutual
  pub merge : Fields → Fields → Fields
  merge end target = target
  merge (field k v fs) target = merge fs (put k (merge_value v (value_at k target)) target)

  pub merge_value : Json → Option Json → Json
  merge_value (object fs) (some (object target)) = object (merge fs target)
  merge_value (object fs) (some null) = object fs
  merge_value (object fs) (some (bool b)) = object fs
  merge_value (object fs) (some (number n)) = object fs
  merge_value (object fs) (some (text s)) = object fs
  merge_value (object fs) (some (array xs)) = object fs
  merge_value (object fs) none = object fs
  merge_value null old = null
  merge_value (bool b) old = bool b
  merge_value (number n) old = number n
  merge_value (text s) old = text s
  merge_value (array xs) old = array xs

-- The blocks that a character without them gets; they hold floating-point numbers.
pub record Blocks : Type 0 where
  pub calibration : Json
  pub pixels_per_unit : Json
  pub shadow : Json
  pub delivery : Json

-- A change of an object; any other value stays.
abbrev pub on_object : (Fields → Fields) → Json → Json
on_object f null = null
on_object f (bool b) = bool b
on_object f (number n) = number n
on_object f (text s) = text s
on_object f (array xs) = array xs
on_object f (object fs) = object (f fs)

abbrev pub complete_profile : Json → Json
complete_profile =
    on_object (λ fs. set_default "unitMode" (text "pixels") (set_default "presetId" null fs))

abbrev pub complete_each : Items → Items
complete_each nil = nil
complete_each (item x xs) = item (complete_profile x) (complete_each xs)

abbrev pub complete_profiles : Json → Json
complete_profiles (array xs) = array (complete_each xs)
complete_profiles null = null
complete_profiles (bool b) = bool b
complete_profiles (number n) = number n
complete_profiles (text s) = text s
complete_profiles (object fs) = object fs

abbrev pub on_value : String → (Json → Json) → Fields → Fields
on_value k f end = end
on_value k f (field j v fs) =
    let rest = on_value k f fs in if str_eq j k then field j (f v) fs else field j v rest

abbrev pub complete_calibration : Json → Json → Json
complete_calibration scale =
    on_object
      (λ fs. on_value "sizeProfiles" complete_profiles (set_default "pixelsPerUnit" scale fs))

abbrev pub complete_setting : ActionSetting → ActionSetting
complete_setting = on_object (set_default "includeInExport" (bool true))

-- `_initialize_domain_character`
unfoldable pub initialize : Blocks → Character → Character
unfolding set_default
initialize b c = record c {
  settings = set_default "delivery" b.delivery (
      set_default "shadow" b.shadow (
        on_value "calibration" (complete_calibration b.pixels_per_unit)
          (set_default "calibration" b.calibration c.settings)));
  action_settings =
      map (λ (e : String × ActionSetting). (e.0, complete_setting e.1)) c.action_settings;
}

-- What a request changes: `delivery.defaultActionId` where it is given, the objects of
-- `delivery.actionSettings`, and everything else as it is sent.
pub record Changes : Type 0 where
  pub fields : Fields
  pub default_action : Option (Option String)
  pub action_settings : List (String × ActionSetting)

abbrev pub setting_of : String → List (String × ActionSetting) → Option Json
setting_of k [] = none
setting_of k (e ∷ es) = let rest = setting_of k es in if str_eq e.0 k then some e.1 else rest

abbrev pub put_setting :
    String → ActionSetting → List (String × ActionSetting) → List (String × ActionSetting)
put_setting k v [] = (k, v) ∷ []
put_setting k v (e ∷ es) =
    let rest = put_setting k v es in if str_eq e.0 k then (e.0, v) ∷ es else e ∷ rest

unfoldable pub merge_settings :
    List (String × ActionSetting) → List (String × ActionSetting) → List (String × ActionSetting)
unfolding merge merge_value
merge_settings [] target = target
merge_settings (e ∷ es) target =
    merge_settings es (put_setting e.0 (merge_value e.1 (setting_of e.0 target)) target)

abbrev pub is_supported : Fields → Bool
is_supported end = true
is_supported (field k v fs) =
    among k ("calibration" ∷ "shadow" ∷ "delivery" ∷ []) && is_supported fs

unfoldable pub merge_character : Changes → Character → Character
unfolding merge merge_settings
merge_character x c = record c {
  settings = merge x.fields c.settings;
  default_action_id = or_else x.default_action c.default_action_id;
  action_settings = merge_settings x.action_settings c.action_settings;
}

-- `update_domain_character_settings`
unfoldable pub update_settings : Blocks → String → Changes → Domain → Result Domain
unfolding initialize merge_character
update_settings b i x d = require (is_supported x.fields) unsupported_settings (
    require (is_some (get_character i d)) missing_character
      (ok (on_character i (λ c. merge_character x (initialize b c)) d)))

abbrev pub core_reference : Json → Changes
core_reference asset = record {
  fields = field "calibration" (object (field "coreReference" asset end)) end;
  default_action = none;
  action_settings = [];
}

-- `set_domain_core_reference`, once the asset is published.
unfoldable pub set_core_reference : Blocks → String → Json → Domain → Result Domain
unfolding update_settings
set_core_reference b i asset d = update_settings b i (core_reference asset) d

-- `delete_domain_core_reference`
unfoldable pub delete_core_reference : Blocks → String → Domain → Result Domain
unfolding update_settings
delete_core_reference b i d = update_settings b i (core_reference null) d
