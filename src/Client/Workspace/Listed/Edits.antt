-- ===== src/Client/Workspace/Listed/Edits.antt =====
-- Each operation that sets no other default action keeps that a character lists its default action.
use rotoweave.Base.{
  ℕ, String, Bool, true, false, ◌≡◌, refl, subst, not, Option, none, some, List, [], ◌∷◌, ◌++◌,
  str_eq, any_where, is_some,
}
use rotoweave.Server.Logging.{Fields, null}
use rotoweave.Client.Workspace.Schema.{
  ActionSetting, ExportState, Character, MaterialSource, MaterialVariant, FrameRef, Action, Domain,
  is_character, missing_character, missing_source, missing_action, missing_variant, empty_name,
  still_referenced, not_explicit, unmanaged_asset, bad_selection, stop_iteration,
  unsupported_settings, ok,
}
use rotoweave.Client.Workspace.Migration.{migrate_action_refs}
use rotoweave.Client.Workspace.Migration.Frames.{ok-and_then, ok-require}
use rotoweave.Client.Workspace.Mutations.{
  get_character, get_action, get_source, get_variant, on_character, create_character,
  rename_character, create_source, append_to, append_variant, check_selection, selected_frames,
  with_variant, create_action, update_action, replace_refs, append_refs, append_found_refs,
  with_migration, set_export_state, add_action_to, is_named, stripped,
}
use rotoweave.Client.Workspace.Mutations.Deletions.{
  delete_character, delete_action, cleanup_variant, delete_source, without_action,
  delete_found_action, unindex_source, reads, variants_of,
}
use rotoweave.Client.Workspace.Mutations.Settings.{
  Blocks, Changes, initialize, merge_character, update_settings, set_core_reference,
  delete_core_reference, core_reference, is_supported,
}
use rotoweave.Client.Workspace.Commit.{
  Edit, create_character_edit, rename_character_edit, delete_character_edit, create_source_edit,
  append_variant_edit, create_action_edit, update_action_edit, delete_action_edit,
  replace_refs_edit, append_refs_edit, cleanup_variant_edit, delete_source_edit,
  set_export_state_edit, apply_edit, update_settings_edit, set_core_reference_edit,
  delete_core_reference_edit,
}
use rotoweave.Client.Workspace.Lists.{All-append, All-select_where, All-update_first, All-map}
use rotoweave.Client.Workspace.Listed.{
  ListsDefault, AllListDefault, add_action_to-ListsDefault, without_action-ListsDefault,
}

-- A change of one character that keeps what it lists.
on_character-AllListDefault :
    (i : String) (f : Character → Character) (d : Domain)
    → ((c : Character) → ListsDefault c → ListsDefault (f c))
    → AllListDefault d
    → AllListDefault (on_character i f d)
on_character-AllListDefault i f d k h =
    All-update_first ListsDefault (is_character i) f k d.characters h

kept : {x y : Domain} → AllListDefault x → ok x ≡ ok y → AllListDefault y
kept {x} {y} h e = let same : x ≡ y = cc in subst AllListDefault same h

create_character-AllListDefault :
    (strip : String → String) (fs : Fields) (i n : String) (d d1 : Domain)
    → AllListDefault d
    → create_character strip fs i n d ≡ ok d1
    → AllListDefault d1
unfolding create_character
create_character-AllListDefault strip fs i n d d1 h e =
    kept (All-append ListsDefault d.characters _ h (refl, tt)) e

rename_character-AllListDefault :
    (strip : String → String) (i n : String) (d d1 : Domain)
    → AllListDefault d
    → rename_character strip i n d ≡ ok d1
    → AllListDefault d1
unfolding rename_character
rename_character-AllListDefault strip i n d d1 h e =
    let (a, e1) = ok-require (not (str_eq (strip n) "")) empty_name _ d1 e in
    let (b, e2) = ok-require (is_some (get_character i d)) missing_character _ d1 e1 in
    kept (on_character-AllListDefault i (λ c. record c { name = strip n }) d (λ c k. k) h) e2

delete_character-AllListDefault :
    (i : String) (d d1 : Domain)
    → AllListDefault d
    → delete_character i d ≡ ok d1
    → AllListDefault d1
unfolding delete_character
delete_character-AllListDefault i d d1 h e =
    let (a, e1) = ok-require (is_some (get_character i d)) missing_character _ d1 e in
    kept (All-select_where ListsDefault (λ c. not (is_character i c)) d.characters h) e1

create_source-AllListDefault :
    (s : MaterialSource) (d d1 : Domain)
    → AllListDefault d
    → create_source s d ≡ ok d1
    → AllListDefault d1
unfolding create_source
create_source-AllListDefault s d d1 h e =
    let (a, e1) = ok-require (is_some (get_character s.character_id d)) missing_character _ d1 e in
    kept
      (on_character-AllListDefault s.character_id
        (λ c. record c { source_ids = c.source_ids ++ (s.id ∷ []) }) d (λ c k. k) h)
      e1

append_to-AllListDefault :
    (v : MaterialVariant) (selection : Option (List String)) (n : ℕ) (m : Option ℕ)
    (o : Option MaterialSource) (d d1 : Domain)
    → AllListDefault d
    → append_to v selection n m o d ≡ ok d1
    → AllListDefault d1
append_to-AllListDefault v selection n m none d d1 h e = cc
append_to-AllListDefault v selection n m (some s) d d1 h e =
    let (a, e1) =
      ok-require (check_selection s (selected_frames selection s) n m) bad_selection _ d1 e in
    let (r, b, e2) =
      ok-and_then (migrate_action_refs (some v.source_id) (some v.id) false (with_variant v d))
        (λ r. ok (with_migration v.id (with_variant v d) r)) d1 e1 in
    kept h e2

create_action-AllListDefault :
    (strip : String → String) (x : ActionSetting) (i c n : String) (d d1 : Domain)
    → AllListDefault d
    → create_action strip x i c n d ≡ ok d1
    → AllListDefault d1
unfolding create_action
create_action-AllListDefault strip x i c n d d1 h e =
    let (a, e1) = ok-require (is_some (get_character c d)) missing_character _ d1 e in
    kept (on_character-AllListDefault c (add_action_to i x) d (add_action_to-ListsDefault i x) h) e1

update_action-AllListDefault :
    (strip : String → String) (i : String) (n : Option String) (l p : Option Bool) (d d1 : Domain)
    → AllListDefault d
    → update_action strip i n l p d ≡ ok d1
    → AllListDefault d1
unfolding update_action
update_action-AllListDefault strip i n l p d d1 h e =
    let (a, e1) = ok-require (is_named (stripped strip n)) empty_name _ d1 e in
    let (b, e2) = ok-require (is_some (get_action i d)) missing_action _ d1 e1 in kept h e2

delete_found-AllListDefault :
    (i : String) (o : Option Action) (d d1 : Domain)
    → AllListDefault d
    → delete_found_action i o d ≡ ok d1
    → AllListDefault d1
delete_found-AllListDefault i none d d1 h e = cc
delete_found-AllListDefault i (some a) d d1 h e =
    let (b, e1) = ok-require (is_some (get_character a.character_id d)) stop_iteration _ d1 e in
    kept
      (on_character-AllListDefault a.character_id (without_action i) d
        (without_action-ListsDefault i) h)
      e1

replace_refs-AllListDefault :
    (i : String) (rs : List FrameRef) (d d1 : Domain)
    → AllListDefault d
    → replace_refs i rs d ≡ ok d1
    → AllListDefault d1
unfolding replace_refs
replace_refs-AllListDefault i rs d d1 h e =
    let (a, e1) = ok-require (is_some (get_action i d)) missing_action _ d1 e in kept h e1

append_found-AllListDefault :
    (i : String) (rs : List FrameRef) (o : Option Action) (d d1 : Domain)
    → AllListDefault d
    → append_found_refs i rs o d ≡ ok d1
    → AllListDefault d1
append_found-AllListDefault i rs none d d1 h e = cc
append_found-AllListDefault i rs (some a) d d1 h e =
    replace_refs-AllListDefault i (a.frame_refs ++ rs) d d1 h e

cleanup_variant-AllListDefault :
    (i : String) (x : Bool) (d d1 : Domain)
    → AllListDefault d
    → cleanup_variant i x d ≡ ok d1
    → AllListDefault d1
unfolding cleanup_variant
cleanup_variant-AllListDefault i x d d1 h e =
    let (a, e1) = ok-require x not_explicit _ d1 e in
    let (b, e2) =
      ok-require (not (any_where (reads (i ∷ [])) d.actions)) still_referenced _ d1 e1 in
    let (c, e3) = ok-require (is_some (get_variant i d)) missing_variant _ d1 e2 in kept h e3

delete_source-AllListDefault :
    (i : String) (x m : Bool) (d d1 : Domain)
    → AllListDefault d
    → delete_source i x m d ≡ ok d1
    → AllListDefault d1
unfolding delete_source
delete_source-AllListDefault i x m d d1 h e =
    let (a, e1) = ok-require x not_explicit _ d1 e in
    let (b, e2) = ok-require (is_some (get_source i d)) missing_source _ d1 e1 in
    let (c, e3) =
      ok-require (not (any_where (reads (variants_of (i ∷ []) d)) d.actions)) still_referenced _ d1
        e2 in
    let (k, e4) = ok-require m unmanaged_asset _ d1 e3 in
    kept (All-map ListsDefault (unindex_source i) (λ c q. q) d.characters h) e4

set_export_state-AllListDefault :
    (i : String) (x : ExportState) (d d1 : Domain)
    → AllListDefault d
    → set_export_state i x d ≡ ok d1
    → AllListDefault d1
unfolding set_export_state
set_export_state-AllListDefault i x d d1 h e =
    let (a, e1) = ok-require (is_some (get_character i d)) missing_character _ d1 e in
    kept (on_character-AllListDefault i (λ c. record c { export_state = x }) d (λ c k. k) h) e1

-- The request is no patch of `delivery.defaultActionId`.
abbrev pub keeps_default : Edit → Bool
keeps_default (update_settings_edit b i x) = not (is_some x.default_action)
keeps_default x = true

merge-ListsDefault :
    (b : Blocks) (x : Changes)
    → x.default_action ≡ none
    → (c : Character) → ListsDefault c
    → ListsDefault (merge_character x (initialize b c))
unfolding merge_character initialize
merge-ListsDefault b x k c h = rw k h

update_settings-AllListDefault :
    (b : Blocks) (i : String) (x : Changes) (d d1 : Domain)
    → x.default_action ≡ none
    → AllListDefault d
    → update_settings b i x d ≡ ok d1
    → AllListDefault d1
unfolding update_settings
update_settings-AllListDefault b i x d d1 k h e =
    let (a, e1) = ok-require (is_supported x.fields) unsupported_settings _ d1 e in
    let (c, e2) = ok-require (is_some (get_character i d)) missing_character _ d1 e1 in
    kept
      (on_character-AllListDefault i (λ c. merge_character x (initialize b c)) d
        (merge-ListsDefault b x k) h)
      e2

none_given : {A : Type 0} (o : Option A) → not (is_some o) ≡ true → o ≡ none
none_given none h = refl
none_given (some a) h = cc

pub apply_edit-AllListDefault :
    (strip : String → String) (x : Edit) (d d1 : Domain)
    → keeps_default x ≡ true
    → AllListDefault d
    → apply_edit strip x d ≡ ok d1
    → AllListDefault d1
unfolding apply_edit append_variant delete_action append_refs set_core_reference
    delete_core_reference
apply_edit-AllListDefault strip (create_character_edit fs i n) d d1 k h e =
    create_character-AllListDefault strip fs i n d d1 h e
apply_edit-AllListDefault strip (rename_character_edit i n) d d1 k h e =
    rename_character-AllListDefault strip i n d d1 h e
apply_edit-AllListDefault strip (delete_character_edit i) d d1 k h e =
    delete_character-AllListDefault i d d1 h e
apply_edit-AllListDefault strip (create_source_edit s) d d1 k h e =
    create_source-AllListDefault s d d1 h e
apply_edit-AllListDefault strip (append_variant_edit v is n m) d d1 k h e =
    append_to-AllListDefault v is n m (get_source v.source_id d) d d1 h e
apply_edit-AllListDefault strip (create_action_edit x i c n) d d1 k h e =
    create_action-AllListDefault strip x i c n d d1 h e
apply_edit-AllListDefault strip (update_action_edit i n l p) d d1 k h e =
    update_action-AllListDefault strip i n l p d d1 h e
apply_edit-AllListDefault strip (delete_action_edit i) d d1 k h e =
    delete_found-AllListDefault i (get_action i d) d d1 h e
apply_edit-AllListDefault strip (replace_refs_edit i rs) d d1 k h e =
    replace_refs-AllListDefault i rs d d1 h e
apply_edit-AllListDefault strip (append_refs_edit i rs) d d1 k h e =
    append_found-AllListDefault i rs (get_action i d) d d1 h e
apply_edit-AllListDefault strip (cleanup_variant_edit i x) d d1 k h e =
    cleanup_variant-AllListDefault i x d d1 h e
apply_edit-AllListDefault strip (delete_source_edit i x m) d d1 k h e =
    delete_source-AllListDefault i x m d d1 h e
apply_edit-AllListDefault strip (set_export_state_edit i x) d d1 k h e =
    set_export_state-AllListDefault i x d d1 h e
apply_edit-AllListDefault strip (update_settings_edit b i x) d d1 k h e =
    update_settings-AllListDefault b i x d d1 (none_given x.default_action k) h e
apply_edit-AllListDefault strip (set_core_reference_edit b i a) d d1 k h e =
    update_settings-AllListDefault b i (core_reference a) d d1 refl h e
apply_edit-AllListDefault strip (delete_core_reference_edit b i) d d1 k h e =
    update_settings-AllListDefault b i (core_reference null) d d1 refl h e
